-- ===== src/Jobs/Lifecycle.antt =====
-- daemon/jobs.py: the life of a job, from `create` to the end of `_execute`.
use milvus_onprem.Base.{
  Error, ◌⊎◌, if◌then◌else◌, inl, inr, ℕ, ◌≤◌, Text, member, Bool, true, false, Option, some, List,
  [], ◌∷◌, ◌++◌, map, length, Bool-cases, Result-cases, ◌&&◌, Exec, pure, ◌>>◌, pure-ok, ok, err,
  value_error, permission_error, ◌≡◌, refl, ap, sym, ◌∙◌, inl, inr, arith,
}
use milvus_onprem.Etcd.{Etcd, EtcdLaws}
use milvus_onprem.Jobs.Job.{
  Job, JobState, running, done, failed, cancelled, JobJson, to_json, job_key, log_tail_lines,
  cap_line, log_writer, write_lines, clamp, ℤ,
}
use milvus_onprem.Jobs.Logs.{last, write_lines-last}
use milvus_onprem.Jobs.Manager.{
  Event, wrote, progressed, flushed, Outcome, returned, was_cancelled, raised, conclude, new_job,
  create, work, raises_again, execute,
}

-- The lines among the events.
abbrev pub lines_of : List Event → List Text
lines_of [] = []
lines_of (wrote line ∷ events) = line ∷ lines_of events
lines_of (progressed p ∷ events) = lines_of events
lines_of (flushed now ∷ events) = lines_of events

-- The last progress set among the events, or else what it was.
abbrev pub progress_after : List Event → ℕ → ℕ
progress_after [] p = p
progress_after (wrote line ∷ events) p = progress_after events p
progress_after (progressed q ∷ events) p = progress_after events (clamp q)
progress_after (flushed now ∷ events) p = progress_after events p

-- The last heartbeat.
abbrev pub heartbeat_after : List Event → Option ℕ → Option ℕ
heartbeat_after [] beat = beat
heartbeat_after (wrote line ∷ events) beat = heartbeat_after events beat
heartbeat_after (progressed p ∷ events) beat = heartbeat_after events beat
heartbeat_after (flushed now ∷ events) beat = heartbeat_after events (some now)

abbrev pub outcome_state : Outcome → JobState
outcome_state returned = done
outcome_state was_cancelled = cancelled
outcome_state (raised e) = failed

-- The job after the events.
abbrev pub worked : List Event → Job → Job
worked events job = record job {
  progress = progress_after events job.progress;
  logs = write_lines (lines_of events) job.logs;
  last_heartbeat = heartbeat_after events job.last_heartbeat;
}

clamp-bounded : (p : ℤ) → clamp p ≤ 1_000
unfolding clamp
clamp-bounded p = ground arith

progress_after-bounded : (events : List Event) (p : ℕ) → p ≤ 1_000 → progress_after events p ≤ 1_000
progress_after-bounded [] p h = h
progress_after-bounded (wrote line ∷ events) p h = progress_after-bounded events p h
progress_after-bounded (progressed q ∷ events) p h =
    progress_after-bounded events (clamp q) (clamp-bounded q)
progress_after-bounded (flushed now ∷ events) p h = progress_after-bounded events p h

module _ (json : JobJson) (etcd : Etcd) where
  open etcd use {State, find}

  -- The events never raise.
  work-ok :
      (events : List Event) (job : Job) (s : State)
      → (work json etcd events job s).0 ≡ ok (worked events job)
  unfolding work write_lines
  work-ok [] job s = refl
  work-ok (wrote line ∷ events) job s =
      work-ok events (record job { logs = log_writer line job.logs }) s
  work-ok (progressed p ∷ events) job s = work-ok events (record job { progress = clamp p }) s
  work-ok (flushed now ∷ events) job s = ground (
    arith,
    work-ok events (record job { last_heartbeat = some now })
        (etcd.put (job_key job.id) (to_json json (record job { last_heartbeat = some now })) s).1,
  )

  abbrev pub first_job : Job → ℕ → Job
  first_job job started = record job { state = running; last_heartbeat = some started }

  abbrev pub final_job : Job → ℕ → List Event → Outcome → ℕ → Job
  final_job job started events outcome ended =
      record (conclude outcome (worked events (first_job job started))) { finished_at = some ended }

  -- The state before the last write.
  abbrev pub before_end : Job → ℕ → List Event → State → State
  before_end job started events s =
      (work json etcd events (first_job job started)
        (etcd.put (job_key job.id) (to_json json (first_job job started)) s).1).1

  execute-steps :
      (job : Job) (started : ℕ) (events : List Event) (outcome : Outcome) (ended : ℕ) (s : State)
      → (etcd.put (job_key job.id) (to_json json (first_job job started)) s).0 ≡ ok tt
      → execute json etcd job started events outcome ended s ≡ (
        ok (record {
          job = final_job job started events outcome ended;
          is_cancelled = raises_again outcome;
        }),
        (etcd.put
            (job_key (final_job job started events outcome ended).id)
            (to_json json (final_job job started events outcome ended))
            (before_end job started events s)).1,
      )
  unfolding execute
  execute-steps job started events outcome ended s h = ground (
    arith,
    h,
    work-ok events (first_job job started)
        (etcd.put (job_key job.id) (to_json json (first_job job started)) s).1,
  )

  conclude-shape :
      (outcome : Outcome) (job : Job)
      → ((conclude outcome job).state ≡ outcome_state outcome)
        × (((conclude outcome job).id ≡ job.id)
            × (((conclude outcome job).logs ≡ job.logs)
                × (job.progress ≤ 1_000 → (conclude outcome job).progress ≤ 1_000)))
  unfolding conclude
  conclude-shape returned job = (refl, (refl, (refl, λ h. omega arith)))
  conclude-shape was_cancelled job = (refl, (refl, (refl, λ h. h)))
  conclude-shape (raised e) job = (refl, (refl, (refl, λ h. h)))

  module _ (laws : EtcdLaws etcd) where
    -- The execution of a job whose first write goes through comes to its end, whatever the worker does and
    -- however the other writes end, and raises CancelledError exactly if it was cancelled: the job has ended in the state of its outcome (done, cancelled or failed) with
    -- its time, under the same id; its progress is at most 1, if it was so before; its log is the last 200
    -- of the lines it had and those written, if it had 200 at most; and its key holds exactly this job,
    -- unless the last write raised.
    pub execute-concludes :
        (job : Job) (started : ℕ) (events : List Event) (outcome : Outcome) (ended : ℕ) (s : State)
        → (etcd.put (job_key job.id) (to_json json (first_job job started)) s).0 ≡ ok tt
        → job.progress ≤ 1_000
        → length job.logs ≤ log_tail_lines
        → (final : Job) × (((execute json etcd job started events outcome ended s).0
              ≡ ok (record { job = final; is_cancelled = raises_again outcome }))
            × ((final.id ≡ job.id)
                × ((final.state ≡ outcome_state outcome)
                    × ((final.finished_at ≡ some ended)
                        × ((final.progress ≤ 1_000)
                            × ((final.logs
                                  ≡ last log_tail_lines
                                      (job.logs ++ map cap_line (lines_of events)))
                                × ((find
                                        (execute json etcd job started events outcome ended s).1
                                        (job_key job.id)
                                      ≡ some (to_json json final))
                                    ⊎ ((e : Error) × ((etcd.put
                                            (job_key job.id)
                                            (to_json json final)
                                            (before_end job started events s)).0
                                          ≡ err e)))))))))
    execute-concludes job started events outcome ended s h progress logs =
        let final : Job = final_job job started events outcome ended in
        let (in_state, (same_id, (same_logs, bounded))) =
          conclude-shape outcome (worked events (first_job job started)) in
        let steps = execute-steps job started events outcome ended s h in
        (
          final,
          (
            ap (λ p. p.0) steps,
            (
              same_id,
              (
                in_state,
                (
                  refl,
                  (
                    bounded (progress_after-bounded events job.progress progress),
                    (
                      same_logs ∙ write_lines-last (lines_of events) job.logs logs,
                      elim (Result-cases
                          (etcd.put (job_key job.id) (to_json json final)
                            (before_end job started events s)).0) [
                              | inr refused ↦ inr refused
                              | inl (_, put) ↦ inl (
                                  ap (λ p. find p.1 (job_key job.id)) steps
                                  ∙ ap
                                      (λ i.
                                        find
                                          (etcd.put (job_key i) (to_json json final)
                                            (before_end job started events s)).1
                                          (job_key job.id))
                                      same_id
                                  ∙ laws.put_ok (job_key job.id) (to_json json final)
                                      (before_end job started events s) put)
                            ],
                    ),
                  ),
                ),
              ),
            ),
          ),
        )

    -- `create` writes nothing where the type has no handler, which raises ValueError, or else where this
    -- daemon is not the leader, which raises PermissionError.
    create-refused :
        (handlers : List Text) (is_leader : Bool) (node jid job_type params : Text) (now : ℕ)
        (s : State)
        → (member job_type handlers && is_leader) ≡ false
        → create json etcd handlers is_leader node jid job_type params now s
          ≡ (err (if member job_type handlers then permission_error else value_error), s)
    unfolding create
    create-refused handlers is_leader node jid job_type params now s h =
        elim (Bool-cases (member job_type handlers)) [
          | inr unknown ↦ rw unknown refl
          | inl known ↦
              let follower : is_leader ≡ false = rw known at h in rw (known, follower) refl
        ]

    -- Where `create` returns, the type has a handler, this daemon is the leader, the job is the new pending
    -- one, and its key holds it.
    pub create-stored :
        (handlers : List Text) (is_leader : Bool) (node jid job_type params : Text) (now : ℕ)
        (s : State) (job : Job)
        → (create json etcd handlers is_leader node jid job_type params now s).0 ≡ ok job
        → (member job_type handlers ≡ true)
          × ((is_leader ≡ true)
              × ((job ≡ new_job node jid job_type params now)
                  × (find
                        (create json etcd handlers is_leader node jid job_type params now s).1
                        (job_key jid)
                      ≡ some (to_json json job))))
    unfolding create
    create-stored handlers is_leader node jid job_type params now s job h =
        elim (Bool-cases (member job_type handlers)) [
          | inr unknown ↦ absurd (ground (arith, unknown, h))
          | inl known ↦ elim (Bool-cases is_leader) [
            | inr follower ↦ absurd (ground (arith, known, follower, h))
            | inl leader ↦
                (known, (leader, rw (known, leader) (written job (rw (known, leader) at h))))
          ]
        ]
      where
        new : Job
        new = new_job node jid job_type params now

        write : Exec State Job
        write = etcd.put (job_key jid) (to_json json new) >> pure new

        only_put : (write s).1 ≡ (etcd.put (job_key jid) (to_json json new) s).1
        only_put = ground arith

        written :
            (job : Job)
            → (write s).0 ≡ ok job
            → (job ≡ new) × (find (write s).1 (job_key jid) ≡ some (to_json json job))
        written job h =
            let (_, (put, same_job)) =
              pure-ok (etcd.put (job_key jid) (to_json json new)) (λ _. new) s h in
            (
              same_job,
              ap (λ t. find t (job_key jid)) only_put
                  ∙ laws.put_ok (job_key jid) (to_json json new) s put
                  ∙ ap (λ j. some (to_json json j)) (sym same_job),
            )
