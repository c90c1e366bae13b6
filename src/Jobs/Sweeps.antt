-- ===== src/Jobs/Sweeps.antt =====
-- daemon/jobs.py: which keys the two sweeps of the leader touch.
use milvus_onprem.Base.{
  ℕ, ◌+◌, Text, Dict, lookup, starts_with, Bool, true, false, Bool-cases, none, some, List, [], ◌∷◌,
  Elem, Elem-lookup, Elem-of_sort_by, Exec, try_else-ind, bind-ind, ◌>>=◌, ok, ◌≡◌, ◌≢◌, refl, ap,
  sym, ◌∙◌, subst, inl, inr, arith,
}
use milvus_onprem.Etcd.{Etcd, EtcdLaws}
use milvus_onprem.Jobs.Job.{Job, JobJson, to_json, from_json, jobs_prefix, job_key}
use milvus_onprem.Jobs.Listing.{decode_jobs-entry, list_jobs-ok, list_jobs-state}
use milvus_onprem.Jobs.Manager.{
  newest_first, is_old, is_stuck, mark_failed, decode_jobs, list_jobs, sweep, prune_old,
  prune_stuck_running,
}

module _ (json : JobJson) where
  module _ (etcd : Etcd) (laws : EtcdLaws etcd) where
    open etcd use {State, find}

    -- Every job is stored under its own id.
    abbrev pub UnderOwnId : State → Type 0
    UnderOwnId s =
        (k v : Text) (job : Job)
        → find s k ≡ some v
        → from_json json v ≡ some job
        → starts_with jobs_prefix k ≡ true
        → k ≡ job_key job.id

    -- The loop leaves a key alone that no job it writes is about.
    sweep-other :
        (due : Job → Bool) (write : Job → Exec State (Unit {0})) (k : Text)
        → ((job : Job) (s : State) → k ≢ job_key job.id → find (write job s).1 k ≡ find s k)
        → (jobs : List Job) (count : ℕ) (s : State)
        → ((job : Job) → Elem job jobs → due job ≡ true → k ≢ job_key job.id)
        → find (sweep json etcd due write jobs count s).1 k ≡ find s k
    unfolding sweep
    sweep-other due write k keeps [] count s h = refl
    sweep-other due write k keeps (job ∷ jobs) count s h = elim (Bool-cases (due job)) [
      | inr e ↦ rw e (sweep-other due write k keeps jobs count s (λ j m. h j (inr m)))
      | inl e ↦ rw e (
          try_else-ind (λ t. find t k ≡ find s k) (write job)
            (λ _. sweep json etcd due write jobs (count + 1))
            (λ _. sweep json etcd due write jobs count) s
            (λ _.
              sweep-other due write k keeps jobs (count + 1) (write job s).1 (λ j m. h j (inr m))
              ∙ keeps job s (h job (inl refl) e))
            (λ _.
              sweep-other due write k keeps jobs count (write job s).1 (λ j m. h j (inr m))
              ∙ keeps job s (h job (inl refl) e)))
    ]

    -- A job that the listing shows under the well-formed store holds its own key.
    listed-stored :
        (job : Job) (s : State)
        → UnderOwnId s
        → (d : Dict Text) → (etcd.get_prefix jobs_prefix s).0 ≡ ok d
        → Elem job (decode_jobs json none d)
        → (v : Text) × ((find s (job_key job.id) ≡ some v) × (from_json json v ≡ some job))
    listed-stored job s own d e m =
        let (k, v, (p, (plain, (q, matches)))) = decode_jobs-entry json none job d m in
        let there : lookup k d ≡ some v =
          Elem-lookup k v d (laws.get_prefix_ok jobs_prefix s e).0 p in
        elim (Bool-cases (starts_with jobs_prefix k)) [
          | inr out ↦ absurd (ground (arith, there, (laws.get_prefix_ok jobs_prefix s e).1 k, out))
          | inl under ↦
              let found : find s k ≡ some v =
                ground (arith, there, (laws.get_prefix_ok jobs_prefix s e).1 k, under) in
              (v, (ap (find s) (sym (own k v job found q under)) ∙ found, q))
        ]

    -- A sweep keeps every value that is no job it is due to write.
    sweep_listed-keeps :
        (due : Job → Bool) (write : Job → Exec State (Unit {0})) (k v : Text)
        → ((job : Job) (s : State) → k ≢ job_key job.id → find (write job s).1 k ≡ find s k)
        → (s : State) → UnderOwnId s
        → find s k ≡ some v
        → ((job : Job) → from_json json v ≡ some job → due job ≡ false)
        → find ((list_jobs json etcd none >>= λ jobs. sweep json etcd due write jobs 0) s).1 k
          ≡ some v
    sweep_listed-keeps due write k v keeps s own at not_due =
        bind-ind (λ t. find t k ≡ some v) (list_jobs json etcd none)
          (λ jobs. sweep json etcd due write jobs 0) s
          (λ jobs e.
            let (d, (read, listed)) = list_jobs-ok json etcd none s e in
            sweep-other due write k keeps jobs 0 (list_jobs json etcd none s).1
              (λ job m is_due same_key.
                let (w, (found, decodes)) = listed-stored job s own d read (
                  Elem-of_sort_by newest_first job (decode_jobs json none d)
                    (subst (Elem job) listed m)) in
                let due_w : due job ≡ false = not_due job (
                  subst (λ o. from_json json o ≡ some job) (same_value at found same_key)
                    decodes) in
                ground (arith, due_w, is_due))
            ∙ kept)
          kept
      where
        kept : find (list_jobs json etcd none s).1 k ≡ some v
        kept =
            ap (λ t. find t k) (list_jobs-state json etcd none s)
            ∙ laws.get_prefix_keeps jobs_prefix k s
            ∙ at

        same_value : {w : Text} {j : Text} → find s k ≡ some v → find s j ≡ some w → k ≡ j → w ≡ v
        same_value {w} {j} at found e = ground (arith, at, found, ap (find s) e)

    -- `prune_old` deletes nothing but old, ended jobs: where every job is stored under its own id, a value
    -- that is not a job that has ended before the cutoff is still there afterwards, however etcd's calls
    -- end.
    pub prune_old-keeps :
        (now retention_s : ℕ) (k v : Text) (s : State)
        → UnderOwnId s
        → find s k ≡ some v
        → ((job : Job) → from_json json v ≡ some job → is_old now retention_s job ≡ false)
        → find (prune_old json etcd now retention_s s).1 k ≡ some v
    unfolding prune_old
    prune_old-keeps now retention_s k v s own at not_old =
        sweep_listed-keeps (is_old now retention_s) (λ job. etcd.delete (job_key job.id)) k v
          (λ job t ne. laws.delete_other (job_key job.id) k t ne) s own at not_old

    -- `prune_stuck_running` changes nothing but stuck jobs: where every job is stored under its own id, a
    -- value that is not a running job whose last heartbeat is missing or before the cutoff is still there
    -- afterwards, however etcd's calls end.
    pub prune_stuck_running-keeps :
        (now timeout_s : ℕ) (k v : Text) (s : State)
        → UnderOwnId s
        → find s k ≡ some v
        → ((job : Job) → from_json json v ≡ some job → is_stuck now timeout_s job ≡ false)
        → find (prune_stuck_running json etcd now timeout_s s).1 k ≡ some v
    unfolding prune_stuck_running
    prune_stuck_running-keeps now timeout_s k v s own at not_stuck =
        sweep_listed-keeps (is_stuck now timeout_s)
          (λ job. etcd.put (job_key job.id) (to_json json (mark_failed now timeout_s job))) k v
          (λ job t ne. laws.put_other (job_key job.id) _ k t ne) s own at not_stuck
