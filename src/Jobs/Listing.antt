-- ===== src/Jobs/Listing.antt =====
-- daemon/jobs.py: what `list_jobs` returns.
use milvus_onprem.Base.{
  Text, Dict, lookup, has_char, remove_prefix, starts_with, true, false, Bool-cases, Option,
  Option-cases, some, List, [], ◌∷◌, Elem, Elem-lookup, lookup-Elem, Elem-sort_by, Elem-of_sort_by,
  sort_by, sort_by-IsOrdered, IsOrder, IsOrdered, ok, bind-ok, raise_if, ◌>>◌, pure,
  attribute_error, Bool, false, ◌≡◌, ◌↔◌, refl, ap, sym, ◌∙◌, subst, inl, inr, arith,
}
use milvus_onprem.Etcd.{Etcd, EtcdLaws}
use milvus_onprem.Jobs.Job.{Job, JobState, JobJson, from_json, jobs_prefix}
use milvus_onprem.Jobs.Manager.{any_no_object, state_matches, newest_first, decode_jobs, list_jobs}

newest_first-IsOrder : IsOrder newest_first
unfolding newest_first
newest_first-IsOrder = record {
  total = λ a b h. ground (arith, h);
  transitive = λ a b c h k. ground (arith, h, k);
}

module _ (json : JobJson) where
  -- A listed job is what some key holds.
  pub decode_jobs-entry :
      (state : Option JobState) (job : Job) (entries : Dict Text)
      → Elem job (decode_jobs json state entries)
      → (k : Text) × (v : Text) × (Elem (k, v) entries
          × ((has_char b'/' (remove_prefix jobs_prefix k) ≡ false)
              × ((from_json json v ≡ some job) × (state_matches state job ≡ true))))
  unfolding decode_jobs
  decode_jobs-entry state job [] h = absurd h
  decode_jobs-entry state job ((k, v) ∷ entries) h =
      let later : Elem job (decode_jobs json state entries)
          → (j : Text) × (w : Text) × (Elem (j, w) ((k, v) ∷ entries)
              × ((has_char b'/' (remove_prefix jobs_prefix j) ≡ false)
                  × ((from_json json w ≡ some job) × (state_matches state job ≡ true)))) =
        λ m. let (j, w, (p, q)) = decode_jobs-entry state job entries m in (j, w, (inr p, q)) in
      elim (Bool-cases (has_char b'/' (remove_prefix jobs_prefix k))) [
        | inl e ↦ later (rw e at h)
        | inr e ↦ elim (Option-cases (from_json json v)) [
          | inl n ↦ later (rw (e, n) at h)
          | inr (found, f) ↦ elim (Bool-cases (state_matches state found)) [
            | inr m ↦ later (rw (e, f, m) at h)
            | inl m ↦
                let first_or_later : Elem job (found ∷ decode_jobs json state entries) =
                  rw (e, f, m) at h in
                elim first_or_later [
                  | inl here ↦ (
                    k,
                    v,
                    (inl refl, (e, (f ∙ ap some here, ap (state_matches state) (sym here) ∙ m))),
                  )
                  | inr rest ↦ later rest
                ]
          ]
        ]
      ]

  -- A key that is no sub-key and whose value is a job in the state asked for is listed.
  Elem-decode_jobs :
      (state : Option JobState) (job : Job) (k v : Text) (entries : Dict Text)
      → Elem (k, v) entries
      → has_char b'/' (remove_prefix jobs_prefix k) ≡ false
      → from_json json v ≡ some job
      → state_matches state job ≡ true
      → Elem job (decode_jobs json state entries)
  unfolding decode_jobs
  Elem-decode_jobs state job k v [] h plain decodes matches = absurd h
  Elem-decode_jobs state job k v ((j, w) ∷ entries) (inl e) plain decodes matches =
      let named : has_char b'/' (remove_prefix jobs_prefix j) ≡ false =
        ap (λ p. has_char b'/' (remove_prefix jobs_prefix p.0)) e ∙ plain in
      let valued : from_json json w ≡ some job = ap (λ p. from_json json p.1) e ∙ decodes in
      rw (named, valued, matches) (inl refl)
  Elem-decode_jobs state job k v ((j, w) ∷ entries) (inr h) plain decodes matches =
      let later : Elem job (decode_jobs json state entries) =
        Elem-decode_jobs state job k v entries h plain decodes matches in
      elim (Bool-cases (has_char b'/' (remove_prefix jobs_prefix j))) [
        | inl e ↦ rw e later
        | inr e ↦ elim (Option-cases (from_json json w)) [
          | inl n ↦ rw (e, n) later
          | inr (found, f) ↦ elim (Bool-cases (state_matches state found)) [
            | inl m ↦ rw (e, f, m) (inr later)
            | inr m ↦ rw (e, f, m) later
          ]
        ]
      ]

  module _ (etcd : Etcd) where
    open etcd use {State}

    pub list_jobs-state :
        (state : Option JobState) (s : State)
        → (list_jobs json etcd state s).1 ≡ (etcd.get_prefix jobs_prefix s).1
    unfolding list_jobs
    list_jobs-state state s = ground arith

    pub list_jobs-ok :
        (state : Option JobState) (s : State) {jobs : List Job}
        → (list_jobs json etcd state s).0 ≡ ok jobs
        → (d : Dict Text) × (((etcd.get_prefix jobs_prefix s).0 ≡ ok d)
            × (jobs ≡ sort_by newest_first (decode_jobs json state d)))
    unfolding list_jobs
    list_jobs-ok state s h =
        let (d, (read, k)) =
          bind-ok (etcd.get_prefix jobs_prefix)
            (λ d.
              raise_if (any_no_object json d) attribute_error
              >> pure (sort_by newest_first (decode_jobs json state d)))
            s h in
        (d, (read, checked (any_no_object json d) _ _ k))
      where
        checked :
            (b : Bool) (found : List Job) (t : State) {jobs : List Job}
            → ((raise_if b attribute_error >> pure found) t).0 ≡ ok jobs
            → jobs ≡ found
        checked true found t k = absurd (ground (arith, k))
        checked false found t k = sym (injective k)
          where
            injective : {x y : List Job} → ok x ≡ ok y → x ≡ y
            injective e = cc e

    -- The job stands in etcd: under a key of the jobs that is no sub-key, with a value that is readable.
    abbrev pub IsStored : Job → State → Type 0
    IsStored job s =
        (k : Text) × (v : Text) × ((etcd.find s k ≡ some v)
          × ((starts_with jobs_prefix k ≡ true)
              × ((has_char b'/' (remove_prefix jobs_prefix k) ≡ false)
                  × (from_json json v ≡ some job))))

    module _ (laws : EtcdLaws etcd) where
      listed_entry :
          (s : State) {d : Dict Text} (k v : Text)
          → (etcd.get_prefix jobs_prefix s).0 ≡ ok d
          → lookup k d ≡ some v
          → (etcd.find s k ≡ some v) × (starts_with jobs_prefix k ≡ true)
      listed_entry s k v e at = ground (arith, at, (laws.get_prefix_ok jobs_prefix s e).1 k)

      -- Where `list_jobs` returns, the jobs are in the order of their start, the newest first, and they are
      -- exactly the stored jobs that are in the state asked for, if one was asked for.
      pub list_jobs_correct :
          (state : Option JobState) (s : State) (jobs : List Job)
          → (list_jobs json etcd state s).0 ≡ ok jobs
          → IsOrdered newest_first jobs
            × ((job : Job) → Elem job jobs ↔ (IsStored job s × (state_matches state job ≡ true)))
      list_jobs_correct state s jobs h =
          let (d, (read, listed)) = list_jobs-ok state s h in
          (
            subst (IsOrdered newest_first) (sym listed)
                (sort_by-IsOrdered newest_first newest_first-IsOrder (decode_jobs json state d)),
            λ job. (
              (λ m. from_listed d read job (
                  Elem-of_sort_by newest_first job (decode_jobs json state d)
                    (subst (Elem job) listed m))),
              (λ stored. subst (Elem job) (sym listed) (
                  Elem-sort_by newest_first job (decode_jobs json state d)
                    (to_listed d read job stored.0 stored.1))),
            ),
          )
        where
          from_listed :
              (d : Dict Text)
              → (etcd.get_prefix jobs_prefix s).0 ≡ ok d
              → (job : Job) → Elem job (decode_jobs json state d)
              → IsStored job s × (state_matches state job ≡ true)
          from_listed d read job m =
              let (k, v, (there, (plain, (decodes, matches)))) = decode_jobs-entry state job d m in
              let (found, under) =
                listed_entry s k v read
                  (Elem-lookup k v d (laws.get_prefix_ok jobs_prefix s read).0 there) in
              ((k, v, (found, (under, (plain, decodes)))), matches)

          to_listed :
              (d : Dict Text)
              → (etcd.get_prefix jobs_prefix s).0 ≡ ok d
              → (job : Job) → IsStored job s
              → state_matches state job ≡ true
              → Elem job (decode_jobs json state d)
          to_listed d read job (k, v, (found, (under, (plain, decodes)))) matches =
              Elem-decode_jobs state job k v d
                (lookup-Elem k v d
                  (ground (arith, (laws.get_prefix_ok jobs_prefix s read).1 k, found, under)))
                plain decodes matches
