-- ===== src/Replay/Compare/Same.antt =====
-- internal/replay/compare.go: when two replays match.
use aquila.Base.{
  ℕ, suc, ◌≡◌, refl, sym, ap, ◌∙◌, Str, codes, Bool, true, false, not, ◌&&◌, ◌||◌, ◌↔◌, inl, inr,
  Option, none, some, List, [], ◌∷◌, any, ◌==◌, length, if◌then◌else◌, is_empty, trim_space, arith,
  Bool-cases, str_eq, str_eq→eq, str_eq_iff, has_prefix, eqb_ℤ, is_empty_iff,
}
use aquila.Replay.{Delta, Observation, Run, verdict_match, verdict_differ, verdict_incomplete}
use aquila.Replay.Json.{Json, json_eq, strip_volatile}
use aquila.Replay.Compare.{
  Decoder, auth_status, decode_json, json_notes, compare_values, compare_answers, compare_obs,
  deltas, cuts, changes, compare, new_delta,
}

one_more :
    (n c s c' s' x y : Bool)
    → (c || s) ≡ not x
    → (n && (not c' && not s')) ≡ y
    → (n && (not (c || c') && not (s || s'))) ≡ (x && y)
one_more n c s c' s' x y p q = ground arith

verdict-quiet :
    (n c s : Bool)
    → ((if not n || c then verdict_incomplete else if s then verdict_differ else verdict_match)
        ≡ verdict_match)
      ↔ ((n && (not c && not s)) ≡ true)
verdict-quiet n c s = (λ h. ground arith, λ h. ground arith)

same_length : (m n : ℕ) → ((suc m) == (suc n)) ≡ (m == n)
same_length m n = ground arith

module _ (unmarshal : Decoder) where
  -- Both sides answered the same request, alike, and auth did not refuse both.
  pub record Alike (a b : Observation) : Type 0 where
    pub same_method : a.method ≡ b.method
    pub same_path : a.path ≡ b.path
    pub answered : a.err ≡ []
    pub answered_too : b.err ≡ []
    pub same_status : eqb_ℤ a.status b.status ≡ true
    pub not_refused : (auth_status a.status && auth_status b.status) ≡ false
    pub same_body : json_notes unmarshal a.body b.body ≡ []

  -- The same number of steps, alike in pairs.
  abbrev pub AllAlike : List Observation → List Observation → Type 0
  AllAlike [] [] = Unit
  AllAlike [] (b ∷ bs) = ⊥
  AllAlike (a ∷ rest) [] = ⊥
  AllAlike (a ∷ rest) (b ∷ bs) = Alike a b × AllAlike rest bs

  abbrev alike : Observation → Observation → Bool
  alike a b =
      str_eq a.path b.path
      && (str_eq a.method b.method
          && (is_empty a.err
              && (is_empty b.err
                  && (not (auth_status a.status && auth_status b.status)
                      && (eqb_ℤ a.status b.status
                          && is_empty (json_notes unmarshal a.body b.body))))))

  Alike-iff : (a b : Observation) → (alike a b ≡ true) ↔ Alike a b
  Alike-iff a b = (
    λ h. record {
      same_method = str_eq→eq a.method b.method (ground arith);
      same_path = str_eq→eq a.path b.path (ground arith);
      answered = (is_empty_iff a.err).0 (ground arith);
      answered_too = (is_empty_iff b.err).0 (ground arith);
      same_status = ground arith;
      not_refused = ground arith;
      same_body = (is_empty_iff (json_notes unmarshal a.body b.body)).0 (ground arith);
    },
    λ s.
        let p = (str_eq_iff a.path b.path).1 s.same_path in
        let m = (str_eq_iff a.method b.method).1 s.same_method in
        let e = (is_empty_iff a.err).1 s.answered in
        let f = (is_empty_iff b.err).1 s.answered_too in
        let j = (is_empty_iff (json_notes unmarshal a.body b.body)).1 s.same_body in
        let t = s.same_status in let r = s.not_refused in ground arith,
  )

  abbrev is_error : Str → Bool
  is_error note = has_prefix note (codes "error:")

  values-plain :
      (a b : Str) (v w : Option Json) → any is_error (compare_values unmarshal a b v w) ≡ false
  unfolding compare_values has_prefix
  values-plain a b none none = elim (Bool-cases (str_eq (trim_space a) (trim_space b))) [
    | inl e ↦ rw e
    | inr e ↦ rw e refl
  ]
  values-plain a b none (some w) = refl
  values-plain a b (some v) none = refl
  values-plain a b (some v) (some w) =
      elim (Bool-cases (json_eq (strip_volatile v) (strip_volatile w))) [
        | inl e ↦ rw e
        | inr e ↦ rw e refl
      ]

  notes-plain : (a b : Str) → any is_error (json_notes unmarshal a b) ≡ false
  unfolding json_notes
  notes-plain a b = values-plain a b (decode_json unmarshal a) (decode_json unmarshal b)

  abbrev loud : Delta → Bool
  loud d = cuts d || changes d

  -- The end of compareObs is quiet when statuses and bodies agree.
  answers-quiet :
      (a b : Observation) (d : Delta)
      → str_eq d.status verdict_match ≡ true
      → loud (compare_answers unmarshal a b d)
        ≡ not (eqb_ℤ a.status b.status && is_empty (json_notes unmarshal a.body b.body))
  unfolding compare_answers has_prefix str_eq
  answers-quiet a b d h =
      let plain = notes-plain a.body b.body in
      let e = str_eq→eq d.status verdict_match h in
      elim (Bool-cases (is_empty (json_notes unmarshal a.body b.body))) [
        | inl y ↦
            let nil = (is_empty_iff (json_notes unmarshal a.body b.body)).0 y in
            elim (Bool-cases (eqb_ℤ a.status b.status)) [
              | inl z ↦ rw (nil, z, e) refl
              | inr z ↦ rw (nil, z) (ground arith)
            ]
        | inr n ↦ rw n (ground arith)
      ]

  -- A delta leaves the verdict a match exactly when the two sides are alike.
  loud-alike : (a b : Observation) → loud (compare_obs unmarshal a b) ≡ not (alike a b)
  unfolding compare_obs str_eq has_prefix
  loud-alike a b = elim (Bool-cases (str_eq a.path b.path && str_eq a.method b.method)) [
    | inr n ↦
        let e : (not (str_eq a.path b.path) || not (str_eq a.method b.method)) ≡ true =
          ground arith in
        rw e (ground arith)
    | inl y ↦
        let p : str_eq a.path b.path ≡ true = ground arith in
        let m : str_eq a.method b.method ≡ true = ground arith in
        elim (Bool-cases (is_empty a.err && is_empty b.err)) [
          | inr n ↦
              let e : (not (is_empty a.err) || not (is_empty b.err)) ≡ true = ground arith in
              rw (p, m, e) (ground arith)
          | inl z ↦
              let f : is_empty a.err ≡ true = ground arith in
              let g : is_empty b.err ≡ true = ground arith in
              elim (Bool-cases (auth_status a.status && auth_status b.status)) [
                | inl r ↦ rw (p, m, f, g, r) (ground arith)
                | inr r ↦
                    rw (p, m, f, g, r)
                      (answers-quiet a b
                        (let d = new_delta a in
                          record d { baseline_status = a.status; patch_status = b.status })
                        refl)
              ]
        ]
  ]

  abbrev all_alike : List Observation → List Observation → Bool
  all_alike [] [] = true
  all_alike [] (b ∷ bs) = false
  all_alike (a ∷ rest) [] = false
  all_alike (a ∷ rest) (b ∷ bs) = alike a b && all_alike rest bs

  AllAlike-iff : (xs ys : List Observation) → (all_alike xs ys ≡ true) ↔ AllAlike xs ys
  AllAlike-iff [] [] = (λ h. tt, λ h. refl)
  AllAlike-iff [] (b ∷ ys) = (λ h. absurd (ground arith), λ h. absurd h)
  AllAlike-iff (a ∷ xs) [] = (λ h. absurd (ground arith), λ h. absurd h)
  AllAlike-iff (a ∷ xs) (b ∷ ys) = (
    λ h. ((Alike-iff a b).0 (ground arith), (AllAlike-iff xs ys).0 (ground arith)),
    λ h. let p = (Alike-iff a b).1 h.0 in let q = (AllAlike-iff xs ys).1 h.1 in ground arith,
  )

  deltas-quiet :
      (xs ys : List Observation)
      → ((length xs == length ys)
          && (not (any cuts (deltas unmarshal xs ys))
              && not (any changes (deltas unmarshal xs ys))))
        ≡ all_alike xs ys
  unfolding deltas
  deltas-quiet [] [] = refl
  deltas-quiet [] (b ∷ ys) = ground arith
  deltas-quiet (a ∷ xs) [] = ground arith
  deltas-quiet (a ∷ xs) (b ∷ ys) =
      let d = compare_obs unmarshal a b in
      let ds = deltas unmarshal xs ys in
      ap (λ n. n && (not (cuts d || any cuts ds) && not (changes d || any changes ds)))
        (same_length (length xs) (length ys))
      ∙ one_more (length xs == length ys) (cuts d) (changes d) (any cuts ds) (any changes ds)
          (alike a b) (all_alike xs ys) (loud-alike a b) (deltas-quiet xs ys)

  -- Compare says match exactly when the replays have equally many steps and each pair of them made
  -- the same request, was answered on both sides with the same status and the same body less its
  -- volatile fields, and was not refused by auth on both sides.
  pub compare-match :
      (base patch : Run)
      → ((compare unmarshal base patch).verdict ≡ verdict_match) ↔ AllAlike base.steps patch.steps
  unfolding compare
  compare-match base patch =
      let ds = deltas unmarshal base.steps patch.steps in
      let q = deltas-quiet base.steps patch.steps in
      let v =
        verdict-quiet (length base.steps == length patch.steps) (any cuts ds) (any changes ds) in
      (
        λ h. (AllAlike-iff base.steps patch.steps).0 (sym q ∙ v.0 h),
        λ h. v.1 (q ∙ (AllAlike-iff base.steps patch.steps).1 h),
      )
