-- ===== src/Diff/Apply/Patched.antt =====
-- internal/diff/apply.go: applyToLines on the hunks of a change.
use mathlib.Core.List.{append_assoc, append-nil}
use aquila.Base.{
  ◌⊎◌, inl, inr, Bool-cases, is_empty, if◌then◌else◌, length-append, ℕ, suc, ◌+◌, ◌-◌, ◌≡◌, refl,
  sym, ap, ◌∙◌, ◌∷◌, ◌++◌, [], Str, false, List, map, ltb, ◌==◌, length, str_eq_refl, arith, pos,
  Outcome, yields, fails, ◌>>=◌,
}
use aquila.Diff.Collect.{ApplyHunk}
use aquila.Diff.Apply.{
  Cut, copy_lines, take_line, apply_line, apply_lines, apply_hunk, start_of, apply_hunks, body_of,
  apply_to_lines,
}

-- A line of a hunk: kept, taken out or put in.
pub data Edit : Type 0 where
  keeps takes_out puts_in : Str → Edit

-- The lines before a hunk that it does not show, and the hunk.
pub record Piece : Type 0 where
  pub skipped : List Str
  pub edits : List Edit

-- A change of a file: its pieces, and the lines behind the last.
pub record Change : Type 0 where
  pub pieces : List Piece
  pub rest : List Str

abbrev pub olds : List Edit → List Str
olds [] = []
olds (keeps l ∷ es) = l ∷ olds es
olds (takes_out l ∷ es) = l ∷ olds es
olds (puts_in l ∷ es) = olds es

abbrev pub news : List Edit → List Str
news [] = []
news (keeps l ∷ es) = l ∷ news es
news (takes_out l ∷ es) = news es
news (puts_in l ∷ es) = l ∷ news es

abbrev pub old_pieces : List Piece → List Str → List Str
old_pieces [] rest = rest
old_pieces (p ∷ ps) rest = p.skipped ++ (olds p.edits ++ old_pieces ps rest)

abbrev pub new_pieces : List Piece → List Str → List Str
new_pieces [] rest = rest
new_pieces (p ∷ ps) rest = p.skipped ++ (news p.edits ++ new_pieces ps rest)

-- The lines of the file before and after the change.
abbrev pub old_lines : Change → List Str
old_lines c = old_pieces c.pieces c.rest

abbrev pub new_lines : Change → List Str
new_lines c = new_pieces c.pieces c.rest

-- How a unified diff shows a line, and the hunks, from a line of the old file on.
abbrev pub shown : Edit → Str
shown (keeps l) = b' ' ∷ l
shown (takes_out l) = b'-' ∷ l
shown (puts_in l) = b'+' ∷ l

-- The number in the header of a hunk: of the first line that it shows of the old file, or, where it
-- shows none, of the line before it.
abbrev pub old_start_of : ℕ → Piece → ℕ
old_start_of at p =
    if is_empty (olds p.edits) then at + length p.skipped - 1 else at + length p.skipped

unfoldable pub hunks_from : ℕ → List Piece → List ApplyHunk
hunks_from at [] = []
hunks_from at (p ∷ ps) =
    record { old_start = pos (old_start_of at p); lines = map shown p.edits }
    ∷ hunks_from (at + length p.skipped + length (olds p.edits)) ps

-- Each hunk shows a line of the old file, or it stands at the beginning of the file.
abbrev pub Anchored : ℕ → List Piece → Type 0
Anchored at [] = Unit
Anchored at (p ∷ ps) =
    ((is_empty (olds p.edits) ≡ false) ⊎ (at + length p.skipped ≡ 1))
    × Anchored (at + length p.skipped + length (olds p.edits)) ps

copy-skipped :
    (xs ys out : List Str) (at : ℕ)
    → copy_lines (length xs) (record { cursor = at; rest = xs ++ ys; out = out })
      ≡ yields (record { cursor = at + length xs; rest = ys; out = out ++ xs })
unfolding copy_lines
copy-skipped [] ys out at =
    let e : at ≡ at + 0 = omega arith in
    ap (λ (n : ℕ). yields (record { cursor = n; rest = ys; out = out })) e
    ∙ ap (λ (o : List Str). yields (record { cursor = at + 0; rest = ys; out = o }))
        (sym (append-nil out))
copy-skipped (x ∷ xs) ys out at =
    let e : suc at + length xs ≡ at + suc (length xs) = omega arith in
    copy-skipped xs ys (out ++ x ∷ []) (suc at)
    ∙ ap (λ (n : ℕ). yields (record { cursor = n; rest = ys; out = (out ++ x ∷ []) ++ xs })) e
    ∙ ap (λ (o : List Str). yields (record { cursor = at + suc (length xs); rest = ys; out = o }))
        (append_assoc out (x ∷ []) xs)

apply-edits :
    (es : List Edit) (ys out : List Str) (at : ℕ)
    → apply_lines (map shown es) (record { cursor = at; rest = olds es ++ ys; out = out })
      ≡ yields (record { cursor = at + length (olds es); rest = ys; out = out ++ news es })
unfolding apply_lines apply_line take_line
apply-edits [] ys out at =
    let e : at ≡ at + 0 = omega arith in
    ap (λ (n : ℕ). yields (record { cursor = n; rest = ys; out = out })) e
    ∙ ap (λ (o : List Str). yields (record { cursor = at + 0; rest = ys; out = o }))
        (sym (append-nil out))
apply-edits (keeps l ∷ es) ys out at =
    let e : suc at + length (olds es) ≡ at + suc (length (olds es)) = omega arith in
    rw (str_eq_refl l) (
      apply-edits es ys (out ++ l ∷ []) (suc at)
      ∙ ap (λ (n : ℕ). yields (record { cursor = n; rest = ys; out = (out ++ l ∷ []) ++ news es }))
          e
      ∙ ap
          (λ (o : List Str).
            yields (record { cursor = at + suc (length (olds es)); rest = ys; out = o }))
          (append_assoc out (l ∷ []) (news es)))
apply-edits (takes_out l ∷ es) ys out at =
    let e : suc at + length (olds es) ≡ at + suc (length (olds es)) = omega arith in
    rw (str_eq_refl l) (
      apply-edits es ys out (suc at)
      ∙ ap (λ (n : ℕ). yields (record { cursor = n; rest = ys; out = out ++ news es })) e)
apply-edits (puts_in l ∷ es) ys out at =
    apply-edits es ys (out ++ l ∷ []) at
    ∙ ap (λ (o : List Str). yields (record { cursor = at + length (olds es); rest = ys; out = o }))
        (append_assoc out (l ∷ []) (news es))

apply-piece :
    (p : Piece) (ys out : List Str) (at : ℕ)
    → ltb at 1 ≡ false
    → apply_hunk
        (record { old_start = pos (at + length p.skipped); lines = map shown p.edits })
        (record { cursor = at; rest = p.skipped ++ (olds p.edits ++ ys); out = out })
      ≡ yields (record {
        cursor = at + length p.skipped + length (olds p.edits);
        rest = ys;
        out = (out ++ p.skipped) ++ news p.edits;
      })
unfolding apply_hunk
apply-piece p ys out at h =
    let n = at + length p.skipped in
    let z : (n == 0) ≡ false = ground arith in
    let b : ltb n at ≡ false = ground arith in
    let k : n - at ≡ length p.skipped = omega arith in
    rw (z, b, k)
      (rw (copy-skipped p.skipped (olds p.edits ++ ys) out at)
        (apply-edits p.edits ys (out ++ p.skipped) n))

-- Only the line where a hunk starts counts, not how its header gives it.
apply_hunk-start :
    (a b : ℕ) (lines : List Str) (st : Cut)
    → start_of (record { old_start = pos a; lines = lines })
      ≡ start_of (record { old_start = pos b; lines = lines })
    → apply_hunk (record { old_start = pos a; lines = lines }) st
      ≡ apply_hunk (record { old_start = pos b; lines = lines }) st
unfolding apply_hunk
apply_hunk-start a b lines st e = rw e refl

anchored_start :
    (at : ℕ) (p : Piece)
    → (is_empty (olds p.edits) ≡ false) ⊎ (at + length p.skipped ≡ 1)
    → start_of (record { old_start = pos (old_start_of at p); lines = map shown p.edits })
      ≡ start_of (record { old_start = pos (at + length p.skipped); lines = map shown p.edits })
anchored_start at p (inl b) = rw b refl
anchored_start at p (inr e) = elim (Bool-cases (is_empty (olds p.edits))) [
  | inl b ↦ rw (b, e) refl
  | inr b ↦ rw b refl
]

apply-pieces :
    (ps : List Piece) (rest out : List Str) (at : ℕ)
    → ltb at 1 ≡ false
    → Anchored at ps
    → (apply_hunks (hunks_from at ps) (record { cursor = at; rest = old_pieces ps rest; out = out })
        >>= λ (st : Cut). yields (st.out ++ st.rest))
      ≡ yields (out ++ new_pieces ps rest)
unfolding apply_hunks hunks_from
apply-pieces [] rest out at h m = refl
apply-pieces (p ∷ ps) rest out at h (here, later) =
    let next = at + length p.skipped + length (olds p.edits) in
    let st : Cut = record { cursor = at; rest = old_pieces (p ∷ ps) rest; out = out } in
    let moved =
      apply_hunk-start (old_start_of at p) (at + length p.skipped) (map shown p.edits) st
        (anchored_start at p here) in
    rw (moved ∙ apply-piece p (old_pieces ps rest) out at h) (
      apply-pieces ps rest ((out ++ p.skipped) ++ news p.edits) next (ground arith) later
      ∙ ap yields (
          append_assoc (out ++ p.skipped) (news p.edits) (new_pieces ps rest)
          ∙ append_assoc out p.skipped (news p.edits ++ new_pieces ps rest)))

bind-body :
    (orig : List Str) (o : Outcome Cut) (ls : List Str)
    → (o >>= λ (st : Cut). yields (st.out ++ st.rest)) ≡ yields ls
    → (o >>= λ (st : Cut). yields (body_of orig (st.out ++ st.rest))) ≡ yields (body_of orig ls)
bind-body orig (yields st) ls h =
    ap (λ (r : Outcome (List Str)). r >>= λ x. yields (body_of orig x)) h
bind-body orig (fails e) ls h = absurd (ground arith)

-- Where each hunk of a change shows a line of the old file or stands at the file's beginning,
-- applying the hunks, headed as a unified diff heads them, to the lines of the file before the
-- change gives the file after it, whatever lines the hunks leave out.
pub apply_to_lines-change :
    (c : Change)
    → Anchored 1 c.pieces
    → apply_to_lines (old_lines c) (hunks_from 1 c.pieces)
      ≡ yields (body_of (old_lines c) (new_lines c))
unfolding apply_to_lines
apply_to_lines-change c m =
    bind-body (old_lines c)
      (apply_hunks (hunks_from 1 c.pieces) (record { cursor = 1; rest = old_lines c; out = [] }))
      (new_lines c) (apply-pieces c.pieces c.rest [] 1 refl m)

-- The change that puts lines behind a line, without context.
abbrev pub insertion : List Str → Str → List Str → List Str → Change
insertion xs l ns rest = record {
  pieces = record { skipped = xs ++ l ∷ []; edits = map puts_in ns } ∷ [];
  rest = rest;
}

olds-puts_in : (ns : List Str) → olds (map puts_in ns) ≡ []
olds-puts_in [] = refl
olds-puts_in (n ∷ ns) = olds-puts_in ns

news-puts_in : (ns : List Str) → news (map puts_in ns) ≡ ns
news-puts_in [] = refl
news-puts_in (n ∷ ns) = ap (λ (ls : List Str). n ∷ ls) (news-puts_in ns)

insertion_start :
    (xs : List Str) (l : Str) (ns rest : List Str)
    → hunks_from 1 (insertion xs l ns rest).pieces
      ≡ record { old_start = pos (1 + length xs); lines = map shown (map puts_in ns) } ∷ []
unfolding hunks_from
insertion_start xs l ns rest =
    let e = length-append xs (l ∷ []) in
    let n : 1 + length (xs ++ l ∷ []) - 1 ≡ 1 + length xs = omega (arith, e) in
    rw (olds-puts_in ns)
      (ap (λ (k : ℕ). record { old_start = pos k; lines = map shown (map puts_in ns) } ∷ []) n)

apply-inserted :
    (xs : List Str) (l : Str) (ns rest : List Str)
    → (apply_hunks
          (record { old_start = pos (1 + length xs); lines = map shown (map puts_in ns) } ∷ [])
          (record { cursor = 1; rest = xs ++ (l ∷ rest); out = [] })
        >>= λ (st : Cut). yields (st.out ++ st.rest))
      ≡ yields (xs ++ (ns ++ (l ∷ rest)))
unfolding apply_hunks
apply-inserted xs l ns rest =
    let p : Piece = record { skipped = xs; edits = map puts_in ns } in
    let done = rw (olds-puts_in ns, news-puts_in ns) at (apply-piece p (l ∷ rest) [] 1 refl) in
    rw done (ap yields (append_assoc xs ns (l ∷ rest)))

insertion-old :
    (xs : List Str) (l : Str) (ns rest : List Str)
    → old_lines (insertion xs l ns rest) ≡ xs ++ (l ∷ rest)
insertion-old xs l ns rest = rw (olds-puts_in ns) (append_assoc xs (l ∷ []) rest)

insertion-new :
    (xs : List Str) (l : Str) (ns rest : List Str)
    → new_lines (insertion xs l ns rest) ≡ xs ++ (l ∷ (ns ++ rest))
insertion-new xs l ns rest = rw (news-puts_in ns) (append_assoc xs (l ∷ []) (ns ++ rest))

-- A hunk that only puts in lines, headed by the line behind which they belong, as a unified diff
-- heads it, puts them before that line.
pub apply_to_lines-insertion :
    (xs : List Str) (l : Str) (ns rest : List Str)
    → let c = insertion xs l ns rest in
      (new_lines c ≡ xs ++ (l ∷ (ns ++ rest)))
      × (apply_to_lines (old_lines c) (hunks_from 1 c.pieces)
          ≡ yields (body_of (old_lines c) (xs ++ (ns ++ (l ∷ rest)))))
unfolding apply_to_lines
apply_to_lines-insertion xs l ns rest = (
  insertion-new xs l ns rest,
  rw (insertion-old xs l ns rest, insertion_start xs l ns rest)
      (bind-body (xs ++ (l ∷ rest)) _ (xs ++ (ns ++ (l ∷ rest))) (apply-inserted xs l ns rest)),
)
