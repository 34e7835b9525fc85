-- ===== src/Graph/Build/Lookup.antt =====
-- internal/graph/graph.go: the traces that Build groups, and EntryForSpan on its snapshot.
use mathlib.Core.Path.{subst}
use aquila.Base.{
  ◌≡◌, ◌≢◌, refl, sym, ap, ◌∙◌, Str, Bool, true, false, ◌&&◌, inl, inr, ◌↔◌, Option, none, some,
  List, [], ◌∷◌, if◌then◌else◌, is_empty, arith, Bool-cases, Option-cases, str_eq, str_eq_refl,
  str_eq→eq, Dict, find_key, put_key, find_put-same, find_put-other,
}
use aquila.Ingest.{Span}
use aquila.Graph.{EntryRoute, Nodes}
use aquila.Graph.Entries.{trace_entries}
use aquila.Graph.Entries.Lineage.{Lineage, root, child, top_entry}
use aquila.Graph.Entries.Sound.{trace_entries-top}
use aquila.Graph.Build.{
  has_ids, nodes_or_none, group_spans, entries_of_traces, build, entry_in, entry_for_span,
}

-- The spans of a trace that Build groups.
abbrev pub trace_nodes : Str → List Span → Nodes
trace_nodes trace spans = nodes_or_none (find_key trace (group_spans spans []))

-- The last span of a batch with these ids, which are not empty.
unfoldable pub latest : Str → Str → List Span → Option Span
latest trace id [] = none
latest trace id (s ∷ ss) =
    let rest = latest trace id ss in
    elim rest [
      | some x ↦ some x
      | none ↦ if has_ids s && str_eq s.trace_id trace && str_eq s.span_id id then some s else none
    ]

abbrev or_else : Option Span → Option Span → Option Span
or_else none o = o
or_else (some s) o = some s

-- A span in a trace of the map `traces`.
abbrev held : Str → Str → Dict Nodes → Option Span
held trace id traces = find_key id (nodes_or_none (find_key trace traces))

abbrev joined : Span → Dict Nodes → Dict Nodes
joined s traces =
    put_key s.trace_id (put_key s.span_id s (nodes_or_none (find_key s.trace_id traces))) traces

held-joined :
    (trace id : Str) (s : Span) (traces : Dict Nodes)
    → held trace id (joined s traces)
      ≡ (if str_eq s.trace_id trace && str_eq s.span_id id then some s else held trace id traces)
held-joined trace id s traces = elim (Bool-cases (str_eq s.trace_id trace)) [
  | inr q ↦
      let n : s.trace_id ≢ trace = λ e.
        absurd
          (let z : str_eq s.trace_id trace ≡ true = rw e (str_eq_refl trace) in ground arith) in
      rw q (
        ap (λ (o : Option Nodes). find_key id (nodes_or_none o))
          (find_put-other s.trace_id trace _ traces n))
  | inl q ↦
      let e = str_eq→eq s.trace_id trace q in
      let here = nodes_or_none (find_key s.trace_id traces) in
      let at_trace : find_key trace (joined s traces) ≡ some (put_key s.span_id s here) =
        subst (λ (x : Str). find_key x (joined s traces) ≡ some (put_key s.span_id s here)) e
          (find_put-same s.trace_id (put_key s.span_id s here) traces) in
      elim (Bool-cases (str_eq s.span_id id)) [
        | inl p ↦
            rw (at_trace, q, p)
              (subst (λ (x : Str). find_key x (put_key s.span_id s here) ≡ some s)
                (str_eq→eq s.span_id id p) (find_put-same s.span_id s here))
        | inr p ↦
            let n : s.span_id ≢ id = λ e.
              absurd (let z : str_eq s.span_id id ≡ true = rw e (str_eq_refl id) in ground arith) in
            rw (at_trace, q, p)
              (find_put-other s.span_id id s here n ∙ ap (λ (x : Str). held x id traces) e)
      ]
]

held-step :
    (trace id : Str) (s : Span) (traces : Dict Nodes)
    → held trace id (if has_ids s then joined s traces else traces) ≡ (
        if has_ids s && str_eq s.trace_id trace && str_eq s.span_id id
        then some s
        else held trace id traces)
held-step trace id s traces = elim (Bool-cases (has_ids s)) [
  | inl b ↦ rw b (held-joined trace id s traces)
  | inr b ↦ rw b refl
]

or_else-step :
    (o : Option Span) (c : Bool) (s : Span) (before after : Option Span)
    → after ≡ (if c then some s else before)
    → or_else o after
      ≡ or_else (elim o [ some x ↦ some x | none ↦ if c then some s else none ]) before
or_else-step (some x) c s before after h = refl
or_else-step none true s before after h = h
or_else-step none false s before after h = h

held-group :
    (trace id : Str) (ss : List Span) (traces : Dict Nodes)
    → held trace id (group_spans ss traces) ≡ or_else (latest trace id ss) (held trace id traces)
unfolding group_spans latest
held-group trace id [] traces = refl
held-group trace id (s ∷ ss) traces =
    held-group trace id ss (if has_ids s then joined s traces else traces)
    ∙ or_else-step (latest trace id ss)
        (has_ids s && str_eq s.trace_id trace && str_eq s.span_id id) s (held trace id traces)
        (held trace id (if has_ids s then joined s traces else traces))
        (held-step trace id s traces)

latest-named :
    (trace id : Str) (ss : List Span) (s : Span) → latest trace id ss ≡ some s → is_empty id ≡ false
unfolding latest
latest-named trace id [] s e = absurd (ground arith)
latest-named trace id (x ∷ ss) s e = elim (Option-cases (latest trace id ss)) [
  | inr (y, n) ↦ latest-named trace id ss y n
  | inl n ↦ elim (Bool-cases (has_ids x && str_eq x.trace_id trace && str_eq x.span_id id)) [
    | inr b ↦ absurd (let z = rw (n, latest, b) at e in ground arith)
    | inl b ↦
        let q : str_eq x.span_id id ≡ true = ground arith in
        let i : is_empty x.span_id ≡ false = ground arith in
        subst (λ (k : Str). is_empty k ≡ false) (str_eq→eq x.span_id id q) i
  ]
]

find-entries_of_traces :
    (trace id : Str) (traces : Dict Nodes)
    → entry_in id (find_key trace (entries_of_traces traces))
      ≡ entry_in id (elim (find_key trace traces) [
        | none ↦ none
        | some nodes ↦ some (trace_entries trace nodes)
      ])
unfolding find_key entries_of_traces
find-entries_of_traces trace id [] = refl
find-entries_of_traces trace id ((k, nodes) ∷ traces) = elim (Bool-cases (str_eq k trace)) [
  | inl q ↦ rw q (ap (λ (x : Str). find_key id (trace_entries x nodes)) (str_eq→eq k trace q))
  | inr q ↦ rw q (find-entries_of_traces trace id traces)
]

or_else-none : (o : Option Span) → or_else o none ≡ o
or_else-none none = refl
or_else-none (some s) = refl

no-Lineage : {id : Str} (l : List (Str × Span)) → Lineage [] id l → ⊥
unfolding find_key
no-Lineage l (root f p) = absurd (ground arith)
no-Lineage l (child f p g) = absurd (ground arith)

-- EntryForSpan on what Build makes of a batch: the spans of a trace are the last ones of the batch
-- with its id and theirs, and a span has an entry exactly when its ancestry among them is complete
-- and has a routed server; the entry is the one nearest to the root.
pub entry_for_span-build :
    (trace id : Str) (spans : List Span) (e : EntryRoute)
    → (find_key id (trace_nodes trace spans) ≡ latest trace id spans)
      × ((entry_for_span trace id (build spans) ≡ some e) ↔ (
          (l : List (Str × Span)) × Lineage (trace_nodes trace spans) id l
          × (top_entry trace l ≡ some e)))
unfolding entry_for_span build
entry_for_span-build trace id spans e =
    (nodes-latest id, by_trace (find_key trace (group_spans spans [])) refl)
  where
    nodes-latest : (k : Str) → find_key k (trace_nodes trace spans) ≡ latest trace k spans
    nodes-latest k = held-group trace k spans [] ∙ or_else-none (latest trace k spans)

    named :
        (k : Str) (x : Span) → find_key k (trace_nodes trace spans) ≡ some x → is_empty k ≡ false
    named k x f = latest-named trace k spans x (sym (nodes-latest k) ∙ f)

    by_trace :
        (o : Option Nodes)
        → find_key trace (group_spans spans []) ≡ o
        → (entry_in id (find_key trace (entries_of_traces (group_spans spans []))) ≡ some e) ↔ (
            (l : List (Str × Span)) × Lineage (trace_nodes trace spans) id l
            × (top_entry trace l ≡ some e))
    by_trace (some nodes) h =
        rw (find-entries_of_traces trace id (group_spans spans []), h)
          (trace_entries-top trace id nodes e (λ k x f. named k x (rw h f)))
    by_trace none h =
        rw (find-entries_of_traces trace id (group_spans spans []), h)
          (λ z. absurd (ground arith), λ (l, g, t). absurd (no-Lineage l g))
