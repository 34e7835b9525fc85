-- ===== src/Replay/Files/Read.antt =====
-- internal/replay/file.go: which workloads ReadFile lets through.
use mathlib.Core.Path.{subst}
use aquila.Base.{
  if◌then◌else◌, ℕ, suc, ◌≡◌, ◌≤◌, refl, sym, ap, ◌∙◌, Str, codes, true, false, not, inl, inr, List,
  [], ◌∷◌, length, arith, Bool-cases, All, is_empty, has_prefix, contains, contains_any, Dict,
  Outcome, yields, fails, Outcome-cases, Checked, accepted, refused, Checked-cases,
  accepted-injective, guard-accepted, ltb-false, trim_space, to_upper, str_eq,
}
use aquila.Replay.{Step}
use aquila.Replay
use aquila.Replay.Traffic.{is_http_method, safe_path}
use aquila.Replay.Headers.{HeaderError}
use aquila.Replay.Headers.Kept.{IsSafe, file_headers-IsSafe}
use aquila.Replay.Files.{
  Host, empty_path, not_local, FileStep, FileDoc, BodyError, decode_body, complete_step,
  safe_file_step, short_text, file_step, file_steps, file_workload, file_doc, file_text, read_file,
  provenance_file, starts_quoted, or_unread,
}

-- A request of an operator's file: a method of HTTP, a path below the root of the target, a body
-- within the bound and headers that fileHeaders lets through, 16 at most.
pub record IsFileStep (s : Step) : Type 0 where
  pub method : is_http_method s.method ≡ true
  pub rooted : has_prefix s.path (codes "/") ≡ true
  pub inside : contains s.path (codes "..") ≡ false
  pub concrete : contains_any s.path (codes "{}*") ≡ false
  pub no_target : contains s.path (codes "://") ≡ false
  pub body : length s.body ≤ 8192
  pub headers : All IsSafe s.headers
  pub few : length s.headers ≤ 16
  pub provenance : s.provenance ≡ provenance_file

length-nonempty : (xs : List FileStep) → is_empty xs ≡ false → 1 ≤ length xs
length-nonempty [] h = absurd (ground arith)
length-nonempty (x ∷ xs) h = omega arith

short_text-bound :
    (o : Outcome Str) (body : Str) → short_text o ≡ accepted body → length body ≤ 8192
unfolding short_text
short_text-bound (fails e) body h = absurd (ground arith)
short_text-bound (yields s) body h =
    let (short, r) = guard-accepted _ _ _ _ h in
    let n = ltb-false 8192 (length s) short in
    let e = ap length (accepted-injective s body r) in omega (arith, n, e)

safe_file_step-holds :
    (m p : Str)
    → not (safe_file_step m p) ≡ false
    → (is_http_method m ≡ true) × (safe_path p ≡ true)
unfolding safe_file_step
safe_file_step-holds m p h = ground arith

safe_path-holds :
    (p : Str)
    → safe_path p ≡ true
    → (has_prefix p (codes "/") ≡ true)
      × (contains p (codes "..") ≡ false)
      × (contains_any p (codes "{}*") ≡ false)
      × (contains p (codes "://") ≡ false)
unfolding safe_path
safe_path-holds p h = ground arith

complete_step-parts :
    (i : ℕ) (m p : Str) (b : Checked BodyError Str) (hs : Checked HeaderError (Dict (List Str)))
    (s : Step)
    → complete_step i m p b hs ≡ accepted s
    → (body : Str) × (headers : Dict (List Str)) × (b ≡ accepted body)
      × (hs ≡ accepted headers)
      × (record {
        method = m;
        path = p;
        body = body;
        headers = headers;
        provenance = provenance_file;
        service = [];
      }
          ≡ s)
unfolding complete_step
complete_step-parts i m p (refused e) hs s h = absurd (ground arith)
complete_step-parts i m p (accepted body) (refused e) s h = absurd (ground arith)
complete_step-parts i m p (accepted body) (accepted hs) s h =
    (body, hs, refl, refl, accepted-injective _ _ h)

module _ (host : Host)
    (shortens : (s t : Str) → host.compact s ≡ yields t → length t ≤ length s) where
  compact-bound :
      (s body : Str)
      → length s ≤ 8192
      → or_unread (host.compact s) ≡ accepted body
      → length body ≤ 8192
  compact-bound s body n h = elim (Outcome-cases (host.compact s)) [
    | inl (t, e) ↦
        let m = shortens s t e in
        let q = ap length (accepted-injective t body (rw e at h)) in omega (arith, n, m, q)
    | inr (x, e) ↦ absurd (let z = rw e at h in ground arith)
  ]

  decode_body-bound : (raw body : Str) → decode_body host raw ≡ accepted body → length body ≤ 8192
  unfolding decode_body
  decode_body-bound raw body h =
      let s = trim_space raw in
      elim (Bool-cases (is_empty s)) [
        | inl b ↦
            let q = ap length (accepted-injective [] body (rw (b, decode_body) at h)) in
            omega (arith, q)
        | inr b ↦ elim (Bool-cases (str_eq s (codes "null"))) [
          | inl c ↦
              let q = ap length (accepted-injective [] body (rw (b, c, decode_body) at h)) in
              omega (arith, q)
          | inr c ↦ elim (Bool-cases (starts_quoted s)) [
            | inl d ↦ short_text-bound (host.unmarshal_text s) body (rw (b, c, d, decode_body) at h)
            | inr d ↦
                let (short, r) = guard-accepted _ _ _ _ (rw (b, c, d, decode_body) at h) in
                compact-bound s body (ltb-false _ _ short) r
          ]
        ]
      ]

  file_step-IsFileStep :
      (i : ℕ) (st : FileStep) (s : Step) → file_step host i st ≡ accepted s → IsFileStep s
  unfolding file_step
  file_step-IsFileStep i st s h =
      let method = to_upper (trim_space st.method) in
      let path = trim_space st.path in
      let (safe, r) = guard-accepted _ _ _ _ h in
      let (body, headers, eb, eh, e) = complete_step-parts i method path _ _ s r in
      let (fine, few) = file_headers-IsSafe host.lookup_env st.headers headers eh in
      let (m, p) = safe_file_step-holds method path safe in
      let (rooted, inside, concrete, local) = safe_path-holds path p in
      subst IsFileStep e (record {
        method = m;
        rooted = rooted;
        inside = inside;
        concrete = concrete;
        no_target = local;
        body = decode_body-bound st.body body eb;
        headers = fine;
        few = few;
        provenance = refl;
      })

  file_steps-IsFileStep :
      (i : ℕ) (sts : List FileStep) (ss : List Step)
      → file_steps host i sts ≡ accepted ss
      → All IsFileStep ss × (length ss ≡ length sts)
  unfolding file_steps
  file_steps-IsFileStep i [] ss h = (
    subst (All IsFileStep) (accepted-injective _ _ h) tt,
    sym (ap length (accepted-injective _ _ h)),
  )
  file_steps-IsFileStep i (st ∷ rest) ss h = elim (Checked-cases (file_step host i st)) [
    | inr (x, e) ↦ absurd (let z = rw (e, file_steps) at h in ground arith)
    | inl (s, e) ↦ elim (Checked-cases (file_steps host (suc i) rest)) [
      | inr (x, f) ↦ absurd (let z = rw (e, file_steps) at h in let y = rw f at z in ground arith)
      | inl (more, f) ↦
          let z = rw (e, file_steps) at h in
          let q : s ∷ more ≡ ss = accepted-injective _ _ (rw f at z) in
          let (ih, n) = file_steps-IsFileStep (suc i) rest more f in
          (
            subst (All IsFileStep) q (file_step-IsFileStep i st s e, ih),
            sym (ap length q) ∙ ap suc n,
          )
    ]
  ]

  file_workload-IsFileStep :
      (doc : FileDoc) (w : Replay.Workload)
      → file_workload host doc ≡ accepted w
      → All IsFileStep w.steps × (1 ≤ length w.steps) × (length w.steps ≤ 20)
  unfolding file_workload
  file_workload-IsFileStep doc w h =
      let (some_steps, h1) = guard-accepted _ _ _ _ h in
      let (few, h2) = guard-accepted _ _ _ _ h1 in
      elim (Checked-cases (file_steps host 0 doc.steps)) [
        | inr (x, e) ↦ absurd (let z = rw e at h2 in ground arith)
        | inl (ss, e) ↦
            let (fine, n) = file_steps-IsFileStep 0 doc.steps ss e in
            let one : 1 ≤ length doc.steps = length-nonempty doc.steps some_steps in
            let most = ltb-false 20 (length doc.steps) few in
            let low : 1 ≤ length ss = omega (arith, n, one) in
            let high : length ss ≤ 20 = omega (arith, n, most) in
            let q : Path Replay.Workload (record { steps = ss }) w =
              accepted-injective (record { steps = ss }) w (rw e at h2) in
            subst
              (λ (v : Replay.Workload).
                All IsFileStep v.steps × (1 ≤ length v.steps) × (length v.steps ≤ 20))
              q (fine, low, high)
      ]

  file_doc-IsFileStep :
      (o : Outcome FileDoc) (w : Replay.Workload)
      → file_doc host o ≡ accepted w
      → All IsFileStep w.steps × (1 ≤ length w.steps) × (length w.steps ≤ 20)
  unfolding file_doc
  file_doc-IsFileStep (fails e) w h = absurd (ground arith)
  file_doc-IsFileStep (yields doc) w h = file_workload-IsFileStep doc w h

  file_text-IsFileStep :
      (o : Outcome Str) (w : Replay.Workload)
      → file_text host o ≡ accepted w
      → All IsFileStep w.steps × (1 ≤ length w.steps) × (length w.steps ≤ 20)
  unfolding file_text
  file_text-IsFileStep (fails e) w h = absurd (ground arith)
  file_text-IsFileStep (yields raw) w h =
      let (small, r) = guard-accepted _ _ (file_doc host (host.unmarshal_doc raw)) _ h in
      file_doc-IsFileStep (host.unmarshal_doc raw) w r

  -- Where json.Compact never makes a text longer, every workload that ReadFile accepts has 1 to 20
  -- steps. Each has a method of HTTP, a rooted path without "..", "{", "}", "*" and "://", a body of
  -- 8192 bytes at most, and 16 headers at most, none of them of framing, routing or a proxy, and each
  -- with one value of 4096 bytes at most without a line break or a zero.
  pub read_file-IsFileStep :
      (path : Str) (w : Replay.Workload)
      → read_file host path ≡ accepted w
      → All IsFileStep w.steps × (1 ≤ length w.steps) × (length w.steps ≤ 20)
  unfolding read_file
  read_file-IsFileStep path w h =
      let text = file_text host (host.read_file path) in
      let remote = contains path (codes "://") in
      let r = if remote then refused not_local else text in
      let (named, h1) = guard-accepted (is_empty (trim_space path)) empty_path r w h in
      let (local, h2) = guard-accepted remote not_local text w h1 in
      file_text-IsFileStep (host.read_file path) w h2
