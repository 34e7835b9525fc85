-- ===== src/Diff/Parse/Files.antt =====
-- internal/diff/parse.go: the files that Parse returns.
use mathlib.Core.Path.{subst}
use mathlib.Core.Option.{some-injective}
use aquila.Base.{
  ℕ, zero, suc, ◌+◌, ◌≤◌, ◌≡◌, refl, ◌∷◌, [], Str, codes, Bool, true, false, ◌||◌, ◌&&◌, not, inl,
  inr, Option, none, some, List, if◌then◌else◌, is_empty, length, length-append, ltb, arith,
  Bool-cases, Option-cases, All, All-append, has_prefix, trim_prefix, contains, drop, str_eq,
  sort_by-All, sort_by-Sorted, Sorted, ℤ, pos, ltb_ℤ, leb_ℤ, eqb_ℤ, scan_lines, any, Outcome,
  yields, fails, ◌>>=◌, Outcome-cases, yields-injective,
}
use aquila.Diff.{
  File, max_bytes, cleaned, escapes, canonical_path, git_path, hunk_new_start, hunk_body_line,
}
use aquila.Diff.Parse.{
  State, start, new_file, distinct_positive, unique_ints, flush_file, flush, hunk_header, body_line,
  open_line, closed_line, parse_line, parse_lines, scanned, parse,
}

drop-contains :
    (n : ℕ) (s p : Str) → is_empty p ≡ false → contains s p ≡ false → contains (drop n s) p ≡ false
unfolding contains
drop-contains zero s p e h = h
drop-contains (suc n) [] p e h = h
drop-contains (suc n) (c ∷ s) p e h = drop-contains n s p e (ground arith)

trim_prefix-contains :
    (s q p : Str) → is_empty p ≡ false → contains s p ≡ false → contains (trim_prefix s q) p ≡ false
unfolding trim_prefix
trim_prefix-contains s q p e h = elim (Bool-cases (has_prefix s q)) [
  | inl b ↦ rw b (drop-contains (length q) s p e h)
  | inr b ↦ rw b h
]

or_right : (a b : Bool) → (a || b) ≡ false → b ≡ false
or_right true b h = absurd (ground arith)
or_right false b h = h

no_dots : (s : Str) → escapes s ≡ false → contains s (codes "..") ≡ false
no_dots s h = or_right _ _ h

-- A path that CanonicalPath gives is not empty and climbs nowhere: it has no "..".
pub canonical_path-safe :
    (raw t : Str)
    → canonical_path raw ≡ some t
    → (is_empty t ≡ false) × (contains t (codes "..") ≡ false)
unfolding canonical_path
canonical_path-safe raw t h = elim (Bool-cases (escapes (cleaned raw))) [
  | inl b ↦ absurd (let z = rw b at h in ground arith)
  | inr b ↦
      let s = cleaned raw in
      let u = trim_prefix (trim_prefix s (codes "/")) (codes "examples/shop/") in
      let dots : contains s (codes "..") ≡ false = no_dots s b in
      let safe =
        trim_prefix-contains (trim_prefix s (codes "/")) (codes "examples/shop/") (codes "..") refl
          (trim_prefix-contains s (codes "/") (codes "..") refl dots) in
      elim (Bool-cases (is_empty u)) [
        | inl e ↦ absurd (let z = rw (b, e) at h in ground arith)
        | inr e ↦
            let q : u ≡ t = some-injective _ _ (rw (b, e) at h) in
            subst (λ (x : Str). (is_empty x ≡ false) × (contains x (codes "..") ≡ false)) q
              (e, safe)
      ]
]

abbrev pub AtMost : ℤ → ℤ → Type 0
AtMost a b = leb_ℤ a b ≡ true

-- A file of a diff: its path is safe, and its lines are positive and stand in order.
pub record IsFile (f : File) : Type 0 where
  pub named : is_empty f.path ≡ false
  pub inside : contains f.path (codes "..") ≡ false
  pub positive : All (λ (n : ℤ). ltb_ℤ (pos 0) n ≡ true) f.lines
  pub ordered : Sorted AtMost f.lines

add_once-positive :
    (n : ℤ) (ns : List ℤ)
    → ltb_ℤ (pos 0) n ≡ true
    → All (λ (m : ℤ). ltb_ℤ (pos 0) m ≡ true) ns
    → All (λ (m : ℤ). ltb_ℤ (pos 0) m ≡ true) (if any (eqb_ℤ n) ns then ns else n ∷ ns)
add_once-positive n ns p h = elim (Bool-cases (any (eqb_ℤ n) ns)) [
  | inl b ↦ rw b h
  | inr b ↦ rw b (p, h)
]

distinct-positive : (ns : List ℤ) → All (λ (n : ℤ). ltb_ℤ (pos 0) n ≡ true) (distinct_positive ns)
unfolding distinct_positive
distinct-positive [] = tt
distinct-positive (n ∷ ns) = elim (Bool-cases (ltb_ℤ (pos 0) n)) [
  | inl b ↦ rw b (add_once-positive n (distinct_positive ns) b (distinct-positive ns))
  | inr b ↦ rw b (distinct-positive ns)
]

unique_ints-positive : (ns : List ℤ) → All (λ (n : ℤ). ltb_ℤ (pos 0) n ≡ true) (unique_ints ns)
unfolding unique_ints
unique_ints-positive ns =
    sort_by-All ltb_ℤ (λ n. ltb_ℤ (pos 0) n ≡ true) (distinct_positive ns) (distinct-positive ns)

unique_ints-Sorted : (ns : List ℤ) → Sorted AtMost (unique_ints ns)
unfolding unique_ints
unique_ints-Sorted ns =
    sort_by-Sorted ltb_ℤ AtMost (λ x y h. ground arith) (λ x y h. ground arith)
      (λ x y z h k. ground arith) (distinct_positive ns)

-- What holds of the files that are done.
abbrev AllFiles : State → Type 0
AllFiles st = All IsFile st.files × (length st.files ≤ 500)

abbrev Holds : Outcome State → Type 0
Holds (yields st) = AllFiles st
Holds (fails e) = Unit

flush_file-Holds : (f : File) (st : State) → AllFiles st → Holds (flush_file f st)
unfolding flush_file
flush_file-Holds f st (h, n) = elim (Bool-cases (is_empty f.path)) [
  | inl e ↦ rw e tt
  | inr e ↦ elim (Option-cases (canonical_path f.path)) [
    | inl c ↦ rw (e, c) tt
    | inr (p, c) ↦ elim (Bool-cases (ltb 500 (length st.files + 1))) [
      | inl b ↦ rw (e, c, b) tt
      | inr b ↦
          let (named, inside) = canonical_path-safe f.path p c in
          let done : File = record f { path = p; lines = unique_ints f.lines } in
          let len = length-append st.files (done ∷ []) in
          rw (e, c, b)
            (
              All-append IsFile st.files (done ∷ []) h (
                record {
                  named = named;
                  inside = inside;
                  positive = unique_ints-positive f.lines;
                  ordered = unique_ints-Sorted f.lines;
                },
                tt,
              ),
              ground arith,
            )
    ]
  ]
]

flush-Holds : (st : State) → AllFiles st → Holds (flush st)
unfolding flush
flush-Holds st h = elim (Option-cases st.cur) [
  | inl e ↦ rw (e, flush) h
  | inr (f, e) ↦ rw (e, flush) (flush_file-Holds f st h)
]

Holds-if : (b : Bool) (x y : Outcome State) → Holds x → Holds y → Holds (if b then x else y)
Holds-if true x y h k = h
Holds-if false x y h k = k

Holds-bind :
    (o : Outcome State) (f : State → Outcome State)
    → Holds o
    → ((st : State) → AllFiles st → Holds (f st))
    → Holds (o >>= f)
Holds-bind (yields st) f h k = k st h
Holds-bind (fails e) f h k = tt

body_line-files : (line : Str) (f : File) (st : State) → (body_line line f st).files ≡ st.files
unfolding body_line
body_line-files [] f st = refl
body_line-files (c ∷ s) f st = ground arith

hunk_header-Holds :
    (line : Str) (f : File) (st : State) → AllFiles st → Holds (hunk_header line f st)
unfolding hunk_header
hunk_header-Holds line f st h =
    Holds-if f.binary _ _ h (elim (Outcome-cases (hunk_new_start line)) [
      | inl (n, e) ↦ rw e (Holds-if (ltb 4000 (suc st.hunks)) _ _ tt h)
      | inr (t, e) ↦ rw e tt
    ])

open_line-Holds : (line : Str) (f : File) (st : State) → AllFiles st → Holds (open_line line f st)
unfolding open_line
open_line-Holds line f st h = Holds-if (has_prefix line (codes "new file mode")) _ _ h (
    Holds-if (has_prefix line (codes "deleted file mode")) _ _ h (
      Holds-if (has_prefix line (codes "rename from ")) _ _ h (
        Holds-if (has_prefix line (codes "rename to ")) _ _ h (
          Holds-if
            (has_prefix line (codes "Binary files ") || str_eq line (codes "GIT binary patch")) _ _
            h
            (Holds-if (has_prefix line (codes "+++ ")) _ _ h (
              Holds-if (has_prefix line (codes "--- ")) _ _ h (
                Holds-if (has_prefix line (codes "@@ ")) _ _ (hunk_header-Holds line f st h) (
                  Holds-if (st.in_hunk && not f.binary) _ _ (rw (body_line-files line f st) h)
                    h))))))))

closed_line-Holds : (line : Str) (st : State) → AllFiles st → Holds (closed_line line st)
unfolding closed_line
closed_line-Holds line st h = Holds-if (has_prefix line (codes "+++ ")) _ _ h (
    Holds-if (has_prefix line (codes "--- ")) _ _ h
      (Holds-if (has_prefix line (codes "@@ ")) _ _ tt h))

parse_line-Holds : (line : Str) (st : State) → AllFiles st → Holds (parse_line line st)
unfolding parse_line
parse_line-Holds line before h =
    in_state
      (if before.in_hunk && not (hunk_body_line line)
        then record before { in_hunk = false }
        else before)
      (kept (before.in_hunk && not (hunk_body_line line)))
  where
    kept : (b : Bool) → AllFiles (if b then record before { in_hunk = false } else before)
    kept true = h
    kept false = h

    by_file :
        (st : State) (o : Option File)
        → AllFiles st
        → Holds (elim o [ none ↦ closed_line line st | some f ↦ open_line line f st ])
    by_file st none k = closed_line-Holds line st k
    by_file st (some f) k = open_line-Holds line f st k

    in_state :
        (st : State)
        → AllFiles st
        → Holds (
            if has_prefix line (codes "diff --git ")
            then (flush st >>= λ s.
                yields
                  (record s { cur = some (record new_file { path = git_path (drop 11 line) }) }))
            else elim st.cur [ none ↦ closed_line line st | some f ↦ open_line line f st ])
    in_state st k =
        Holds-if (has_prefix line (codes "diff --git ")) _ _
          (Holds-bind (flush st) _ (flush-Holds st k) (λ s q. q)) (by_file st st.cur k)

parse_lines-Holds : (lines : List Str) (st : State) → AllFiles st → Holds (parse_lines lines st)
unfolding parse_lines
parse_lines-Holds [] st h = h
parse_lines-Holds (line ∷ lines) st h =
    Holds-bind (parse_line line st) _ (parse_line-Holds line st h)
      (λ s k. parse_lines-Holds lines s k)

scanned-Holds : (e : Option Str) (st : State) → AllFiles st → Holds (scanned e st)
scanned-Holds none st h = h
scanned-Holds (some e) st h = tt

-- A diff that Parse reads has at most 500 files, and each has a path that is not empty and without
-- "..", and lines that are positive and in order.
pub parse-IsFile :
    (valid : Str → Bool) (scan_error : Option Str) (bytes : Str) (files : List File)
    → parse valid scan_error bytes ≡ yields files
    → All IsFile files × (length files ≤ 500)
unfolding parse
parse-IsFile valid scan_error bytes files h = elim (Bool-cases (ltb max_bytes (length bytes))) [
  | inl b ↦ absurd (let z = rw b at h in ground arith)
  | inr b ↦ elim (Bool-cases (is_empty bytes)) [
    | inl e ↦
        let q : [] ≡ files = yields-injective _ _ (rw (b, e) at h) in
        subst (λ (fs : List File). All IsFile fs × (length fs ≤ 500)) q (tt, omega arith)
    | inr e ↦ elim (Bool-cases (not (valid bytes))) [
      | inl v ↦ absurd (let z = rw (b, e, v) at h in ground arith)
      | inr v ↦
          let o =
            parse_lines (scan_lines bytes) start
            >>= (λ st. scanned scan_error st)
            >>= (λ st. flush st) in
          let k =
            Holds-bind (parse_lines (scan_lines bytes) start >>= (λ st. scanned scan_error st)) _
              (Holds-bind (parse_lines (scan_lines bytes) start) _
                (parse_lines-Holds (scan_lines bytes) start (tt, omega arith))
                (scanned-Holds scan_error))
              flush-Holds in
          done o k (rw (b, e, v) at h)
    ]
  ]
]
  where
    done :
        (o : Outcome State)
        → Holds o
        → (o >>= λ (st : State). yields st.files) ≡ yields files
        → All IsFile files × (length files ≤ 500)
    done (fails e) k h = absurd (ground arith)
    done (yields st) k h =
        subst (λ (fs : List File). All IsFile fs × (length fs ≤ 500)) (yields-injective _ _ h) k
