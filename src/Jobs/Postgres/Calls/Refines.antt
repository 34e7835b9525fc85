-- ===== src/Jobs/Postgres/Calls/Refines.antt =====
-- internal/jobs/postgres.go and memory.go: the two stores where they hold the same jobs.
use mathlib.Core.Path.{subst}
use aquila.Base.{
  ◌≡◌, ◌≢◌, refl, sym, ◌∙◌, Str, true, false, inl, inr, Option, none, some, [], ◌∷◌, arith,
  Bool-cases, All, str_eq, str_eq_refl, str_eq→eq, List, ap, Distinct, str_ne,
}
use aquila.Url.{UrlPackage}
use aquila.Jobs.{Job}
use aquila.Jobs.Lifecycle.{decided}
use aquila.Jobs.Lifecycle.Consistent.{IsConsistent}
use aquila.Jobs.Memory.{Memory, Table, find_job, put_job}
use aquila.Jobs.Memory.Places.{find_put}
use aquila.Jobs.Memory.Invariant.{IsStore}
use aquila.Jobs.Memory.Tables.{keys, Entries}
use aquila.Jobs.Postgres.{Row, Rows, find_row, update_job, decode_job}
use aquila.Jobs.Postgres.Rows.{
  row_ids, updated, row_ids-update, update_job-All, map_some, find_row-update, find_row-In,
}

find_put-other :
    (k id : Str) (j : Job) (ts : Table) → id ≢ k → find_job k (put_job id j ts) ≡ find_job k ts
unfolding find_job put_job
find_put-other k id j [] h = rw (str_ne id k h)
find_put-other k id j ((a, x) ∷ ts) h = elim (Bool-cases (str_eq a id)) [
  | inl q ↦
      let e : str_eq a k ≡ false = str_ne a k (λ e. h (sym (str_eq→eq a id q) ∙ e)) in
      rw (q, find_job) (rw e)
  | inr q ↦ elim (Bool-cases (str_eq a k)) [
    | inl p ↦ rw (q, find_job) (rw p)
    | inr p ↦ rw (q, find_job) (rw p (find_put-other k id j ts h))
  ]
]

module _ (urls : UrlPackage) where
  pub consistent-decided : (j : Job) → IsConsistent urls j → decided urls j ≡ j
  unfolding decided
  consistent-decided j c = rw (sym c.decision, sym c.reasons)

  -- The map of the one store and the rows of the other hold the same jobs, as decodeJob reads them; a row is that of its payload.
  pub record Agrees (m : Memory) (rows : Rows) : Type 0 where
    pub same : (id : Str) → find_job id m.by_id ≡ map_some (decode_job urls) (find_row id rows)
    pub keyed : All (λ (r : Row). r.payload.id ≡ r.id) rows
    pub distinct : Distinct (row_ids rows)
    pub status_kept : All (λ (r : Row). r.status ≡ r.payload.status) rows

  write_same :
      (m : Memory) (rows : Rows) (r : Row) (job : Job)
      → Agrees m rows
      → find_row job.id rows ≡ some r
      → decided urls job ≡ job
      → (k : Str)
      → find_job k (put_job job.id job m.by_id)
        ≡ map_some (decode_job urls) (find_row k (update_job job rows))
  write_same m rows r job a h d k = elim (Bool-cases (str_eq job.id k)) [
    | inl q ↦
        let e = str_eq→eq job.id k q in
        let (im, ir) = find_row-In job.id r rows h in
        subst
          (λ (x : Str).
            find_job x (put_job job.id job m.by_id)
            ≡ map_some (decode_job urls) (find_row x (update_job job rows)))
          e
          (find_put job.id job m.by_id
            ∙ rw (find_row-update job.id job rows, h, ir) (rw (str_eq_refl job.id, d)))
    | inr q ↦
        let n : job.id ≢ k = λ e.
          absurd
            (let z : str_eq job.id k ≡ true = rw (sym e) (str_eq_refl job.id) in ground arith) in
        find_put-other k job.id job m.by_id n
        ∙ a.same k
        ∙ rw (find_row-update k job rows) (other k n (find_row k rows) refl)
  ]
    where
      other :
          (k : Str)
          → job.id ≢ k
          → (o : Option Row) → find_row k rows ≡ o
          → map_some (decode_job urls) o ≡ map_some (decode_job urls) (map_some (updated job) o)
      other k n none e = refl
      other k n (some x) e =
          let (im, ix) = find_row-In k x rows e in rw (str_ne x.id job.id (λ p. n (sym p ∙ ix)))

  -- The same write in both stores.
  pub write-Agrees :
      (m : Memory) (rows : Rows) (r : Row) (id : Str) (job : Job)
      → Agrees m rows
      → find_row id rows ≡ some r
      → job.id ≡ id
      → decided urls job ≡ job
      → Agrees (record m { by_id = put_job id job m.by_id }) (update_job job rows)
  write-Agrees m rows r id job a h e d =
      subst (λ (x : Str). Agrees (record m { by_id = put_job x job m.by_id }) (update_job job rows))
        e
        (record {
          same = write_same m rows r job a (rw e h) d;
          keyed =
              update_job-All (λ (x : Row). x.payload.id ≡ x.id) job rows a.keyed
                (λ x p q. rw (q, str_eq_refl job.id) refl);
          distinct = rw (row_ids-update job rows) (a.distinct);
          status_kept =
              update_job-All (λ (x : Row). x.status ≡ x.payload.status) job rows a.status_kept
                (λ x p q. rw (q, str_eq_refl job.id) refl);
        })

-- The rows that hold the jobs of a table.
abbrev pub rows_of : Table → Rows
rows_of [] = []
rows_of ((k, j) ∷ table) =
    record { id = k; created = j.created; status = j.status; validated = j.validated; payload = j }
    ∷ rows_of table

row_ids-rows_of : (table : Table) → row_ids (rows_of table) ≡ keys table
row_ids-rows_of [] = refl
row_ids-rows_of ((k, j) ∷ table) = ap (λ (ids : List Str). k ∷ ids) (row_ids-rows_of table)

rows_of-same :
    (urls : UrlPackage) (table : Table) (id : Str)
    → Entries (λ e. IsConsistent urls e.1) table
    → find_job id table ≡ map_some (decode_job urls) (find_row id (rows_of table))
unfolding find_job find_row
rows_of-same urls [] id h = refl
rows_of-same urls ((k, j) ∷ table) id h = elim (Bool-cases (str_eq k id)) [
  | inl q ↦ rw q (rw (consistent-decided urls j h.0))
  | inr q ↦ rw q (rows_of-same urls table id h.1)
]

rows_of-keyed :
    (table : Table)
    → Entries (λ e. e.1.id ≡ e.0) table
    → All (λ (r : Row). r.payload.id ≡ r.id) (rows_of table)
rows_of-keyed [] h = tt
rows_of-keyed ((k, j) ∷ table) h = (h.0, rows_of-keyed table h.1)

rows_of-status : (table : Table) → All (λ (r : Row). r.status ≡ r.payload.status) (rows_of table)
rows_of-status [] = tt
rows_of-status ((k, j) ∷ table) = (refl, rows_of-status table)

pub rows_of-Agrees :
    (urls : UrlPackage) (m : Memory) → IsStore urls m → Agrees urls m (rows_of m.by_id)
rows_of-Agrees urls m s = record {
  same = λ id. rows_of-same urls m.by_id id s.consistent;
  keyed = rows_of-keyed m.by_id s.own_key;
  distinct = rw (row_ids-rows_of m.by_id, s.listed) (s.distinct);
  status_kept = rows_of-status m.by_id;
}
