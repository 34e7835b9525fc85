-- ===== src/Ingest/Window/Kept.antt =====
-- internal/ingest/window.go: which spans SelectWindow returns.
use aquila.Base.{
  ℕ, suc, ◌≡◌, ◌≤◌, refl, sym, ◌∙◌, Str, Bool, true, false, not, ◌||◌, ◌⊎◌, inl, inr, List, [], ◌∷◌,
  ◌++◌, any, length, leb, ltb, is_empty, str_eq, str_eq→eq, arith, Bool-cases, All, All-imp, In,
  any→In, sort_by-All, ℤ, pos_part, All-In, length-take, All-take, All-append, All-of-In,
}
use aquila.Ingest.{Span, normalize_trace_window, max_window_spans, clip_service}
use aquila.Ingest.Window.{
  TraceInfo, probe_route, probe_only, add_span, group_from, newer, group_traces, starts_before,
  sort_trace_spans, trace_touches, is_kept, select_from, select_window,
}

-- The spans of a trace are those of the batch with its id, and there is one.
abbrev IsTrace : List Span → TraceInfo → Type 0
IsTrace batch t = All (λ (s : Span). In s batch × (s.trace_id ≡ t.id)) t.spans

module _ (batch : List Span) where
  add_span-IsTrace :
      (s : Span) (ts : List TraceInfo)
      → In s batch
      → All (IsTrace batch) ts
      → All (IsTrace batch) (add_span s ts)
  unfolding add_span
  add_span-IsTrace s [] m h = (((m, refl), tt), tt)
  add_span-IsTrace s (t ∷ ts) m h = elim (Bool-cases (str_eq t.id s.trace_id)) [
    | inl q ↦
        let e = str_eq→eq t.id s.trace_id q in
        rw q (
          All-append (λ (x : Span). In x batch × (x.trace_id ≡ t.id)) t.spans (s ∷ []) h.0
              ((m, sym e), tt),
          h.1,
        )
    | inr q ↦ rw q (h.0, add_span-IsTrace s ts m h.1)
  ]

  group_from-IsTrace :
      (ss : List Span) (ts : List TraceInfo)
      → All (λ s. In s batch) ss
      → All (IsTrace batch) ts
      → All (IsTrace batch) (group_from ss ts)
  unfolding group_from
  group_from-IsTrace [] ts m h = h
  group_from-IsTrace (s ∷ ss) ts m h = elim (Bool-cases (is_empty s.trace_id)) [
    | inl e ↦ rw e (group_from-IsTrace ss ts m.1 h)
    | inr e ↦ rw e (group_from-IsTrace ss (add_span s ts) m.1 (add_span-IsTrace s ts m.0 h))
  ]

  group_traces-IsTrace : All (IsTrace batch) (group_traces batch)
  unfolding group_traces
  group_traces-IsTrace =
      sort_by-All newer (IsTrace batch) (group_from batch [])
        (group_from-IsTrace batch [] (All-of-In (λ s. In s batch) batch (λ s m. m)) tt)

-- Some span of the batch, of the trace of `s`, passes the test.
abbrev pub SomeOf : List Span → Span → (Span → Bool) → Type 0
SomeOf batch s p = (x : Span) × In x batch × (x.trace_id ≡ s.trace_id) × (p x ≡ true)

-- A span that belongs in the window: of the batch, and of a trace that some span shows to be more
-- than probes, and that some span shows to touch the service, where one is asked for.
pub record Belongs (batch : List Span) (service : Str) (s : Span) : Type 0 where
  pub stored : In s batch
  pub no_probe : SomeOf batch s (λ x. not (probe_route x))
  pub touches : (is_empty service ≡ true) ⊎ SomeOf batch s (λ x. str_eq x.service_name service)

not_probes : (ss : List Span) → probe_only ss ≡ false → any (λ s. not (probe_route s)) ss ≡ true
unfolding probe_only
not_probes [] h = absurd (ground arith)
not_probes (s ∷ ss) h = elim (Bool-cases (probe_route s)) [
  | inl e ↦ rw e (not_probes ss (rw e at h))
  | inr e ↦ rw e
]

module _ (batch : List Span) (service : Str) where
  SomeOf-trace :
      (t : TraceInfo) (s : Span) (p : Span → Bool)
      → IsTrace batch t
      → s.trace_id ≡ t.id
      → any p t.spans ≡ true
      → SomeOf batch s p
  SomeOf-trace t s p h e a =
      let (x, m, q) = any→In p t.spans a in
      let (b, i) = All-In (λ (y : Span). In y batch × (y.trace_id ≡ t.id)) t.spans x h m in
      (x, b, i ∙ sym e, q)

  kept-Belongs :
      (t : TraceInfo)
      → IsTrace batch t
      → is_kept service t ≡ true
      → All (Belongs batch service) t.spans
  unfolding trace_touches
  kept-Belongs t h k =
      let probes : probe_only t.spans ≡ false = ground arith in
      All-imp (λ (s : Span). In s batch × (s.trace_id ≡ t.id)) (Belongs batch service)
        (λ s (p : In s batch × (s.trace_id ≡ t.id)). record {
          stored = p.0;
          no_probe = SomeOf-trace t s (λ x. not (probe_route x)) h p.1 (not_probes t.spans probes);
          touches = elim (Bool-cases (is_empty service)) [
            | inl e ↦ inl e
            | inr e ↦
                inr (SomeOf-trace t s (λ x. str_eq x.service_name service) h p.1 (ground arith))
          ];
        })
        t.spans h

  select_from-Belongs :
      (n : ℕ) (ts : List TraceInfo) (kept : ℕ) (out : List Span)
      → All (IsTrace batch) ts
      → All (Belongs batch service) out
      → All (Belongs batch service) (select_from service n ts kept out)
  unfolding select_from sort_trace_spans
  select_from-Belongs n [] kept out h k = k
  select_from-Belongs n (t ∷ ts) kept out h k = elim (Bool-cases (is_kept service t)) [
    | inr e ↦ rw (e, select_from) (select_from-Belongs n ts kept out h.1 k)
    | inl e ↦
        let more = out ++ sort_trace_spans t.spans in
        let mk =
          All-append (Belongs batch service) out (sort_trace_spans t.spans) k
            (sort_by-All starts_before (Belongs batch service) t.spans (kept-Belongs t h.0 e)) in
        elim (Bool-cases (leb n (suc kept) || leb max_window_spans (length more))) [
          | inl b ↦ rw (e, select_from, b) mk
          | inr b ↦ rw (e, select_from, b) (select_from-Belongs n ts (suc kept) more h.1 mk)
        ]
  ]

-- SelectWindow returns at most 10000 spans, all of them from the batch and of traces that hold more
-- than probes and touch the service asked for, if one is.
pub select_window-Belongs :
    (batch : List Span) (max_traces : ℤ) (service : Str)
    → let out = select_window batch max_traces service in
      (length out ≤ max_window_spans) × All (Belongs batch (clip_service service)) out
unfolding select_window
select_window-Belongs batch max_traces service =
    let n = pos_part (normalize_trace_window max_traces) in
    let want = clip_service service in
    let out = select_from want n (group_traces batch) 0 [] in
    let h =
      select_from-Belongs batch want n (group_traces batch) 0 [] (group_traces-IsTrace batch) tt in
    elim (Bool-cases (ltb max_window_spans (length out))) [
      | inl e ↦
          rw e
            (length-take max_window_spans out, All-take (Belongs batch want) max_window_spans out h)
      | inr e ↦ rw e (ground arith, h)
    ]
