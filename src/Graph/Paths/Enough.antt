-- ===== src/Graph/Paths/Enough.antt =====
-- internal/graph/graph.go: the depth of walkPaths.
use aquila.Base.{
  ℕ, zero, suc, ◌+◌, ◌≤◌, ◌≡◌, refl, ap, Str, inl, inr, List, [], ◌∷◌, any, length, arith,
  Bool-cases, Option-cases, All, In, Distinct, Distinct-short, any-absent, str_eq, find_key, keys,
  find_key-In,
}
use aquila.Graph.{Nodes}
use aquila.Graph.Paths.{children, next_services, walk_each, walk}

walk_each-cong :
    (f g : Str → List Str)
    → ((c : Str) → f c ≡ g c)
    → (cs : List Str) → walk_each f cs ≡ walk_each g cs
unfolding walk_each
walk_each-cong f g h [] = refl
walk_each-cong f g h (c ∷ cs) = rw (h c, walk_each-cong f g h cs)

length-keys : {A : Type 0} (nodes : List (Str × A)) → length (keys nodes) ≡ length nodes
length-keys [] = refl
length-keys (n ∷ nodes) = ap suc (length-keys nodes)

each-cong :
    (cs leaf : List Str) (f g : Str → List Str)
    → ((c : Str) → f c ≡ g c)
    → (elim cs [ [] ↦ leaf | c ∷ ds ↦ walk_each f (c ∷ ds) ])
      ≡ (elim cs [ [] ↦ leaf | c ∷ ds ↦ walk_each g (c ∷ ds) ])
each-cong [] leaf f g h = refl
each-cong (c ∷ cs) leaf f g h = walk_each-cong f g h (c ∷ cs)

module _ (nodes : Nodes) where
  walk-stable :
      (n m : ℕ) (id : Str) (services visiting : List Str)
      → Distinct visiting
      → All (λ (x : Str). In x (keys nodes)) visiting
      → suc (length (keys nodes)) ≤ n + length visiting
      → suc (length (keys nodes)) ≤ m + length visiting
      → walk nodes n id services visiting ≡ walk nodes m id services visiting
  unfolding walk
  walk-stable zero m id services visiting d v hn hm =
      absurd (let short = Distinct-short visiting (keys nodes) d v in omega (arith, short, hn))
  walk-stable (suc n) zero id services visiting d v hn hm =
      absurd (let short = Distinct-short visiting (keys nodes) d v in omega (arith, short, hm))
  walk-stable (suc n) (suc m) id services visiting d v hn hm =
      elim (Option-cases (find_key id nodes)) [
        | inl e ↦ rw (e, walk)
        | inr (s, e) ↦ elim (Bool-cases (any (str_eq id) visiting)) [
          | inl b ↦ rw (e, walk, b)
          | inr b ↦
              let next = next_services s.service_name services in
              let deeper = λ (c : Str).
                walk-stable n m c next (id ∷ visiting) (any-absent id visiting b, d)
                  (find_key-In id s nodes e, v) (omega (arith, hn)) (omega (arith, hm)) in
              rw (e, walk, b)
                (each-cong (children nodes id) _ (λ c. walk nodes n c next (id ∷ visiting))
                  (λ c. walk nodes m c next (id ∷ visiting)) deeper)
        ]
      ]

-- Parent links that form a cycle do not make walkPaths run on: one level more than there are spans
-- in the trace is as good as any greater number.
pub walk-enough :
    (nodes : Nodes) (more : ℕ) (id : Str) (services : List Str)
    → walk nodes (suc (length nodes) + more) id services []
      ≡ walk nodes (suc (length nodes)) id services []
walk-enough nodes more id services =
    let len = length-keys nodes in
    walk-stable nodes (suc (length nodes) + more) (suc (length nodes)) id services [] tt tt
      (omega (arith, len)) (omega (arith, len))
