-- ===== src/Jobs/Manager.antt =====
-- daemon/jobs.py: `JobsManager`.
use milvus_onprem.Base.{
  ℕ, ◌+◌, ◌-◌, Text, Dict, has_char, remove_prefix, member, sort_by, Bool, true, false, not, ◌&&◌,
  ◌||◌, attribute_error, Option, none, some, List, [], ◌∷◌, ltb, leb, if◌then◌else◌, Exec,
  value_error, permission_error, pure, raise_if, ◌>>=◌, ◌>>◌, try_else,
}
use milvus_onprem.Etcd.{Etcd}
use milvus_onprem.Jobs.Job.{
  Job, JobState, pending, running, done, failed, cancelled, owner_died, worker_raised, JobJson,
  to_json, from_json, jobs_prefix, job_key, log_writer, ℤ, clamp,
}

unfoldable pub state_is : JobState → JobState → Bool
state_is pending pending = true
state_is running running = true
state_is done done = true
state_is failed failed = true
state_is cancelled cancelled = true
state_is _ _ = false

-- `state is not None and job.state != state` is not the case.
unfoldable pub state_matches : Option JobState → Job → Bool
unfolding state_is
state_matches none job = true
state_matches (some state) job = state_is job.state state

-- `sorted(…, key=lambda j: j.started_at, reverse=True)`, which keeps the order of equals.
unfoldable pub newest_first : Job → Job → Bool
newest_first a b = leb b.started_at a.started_at

-- `job.state in ("done", "failed", "cancelled")`
unfoldable pub is_terminated : JobState → Bool
is_terminated pending = false
is_terminated running = false
is_terminated _ = true

-- What `prune_old` deletes. A time before 1970 is no cutoff for any job, so `-` may stop at 0.
unfoldable pub is_old : ℕ → ℕ → Job → Bool
unfolding is_terminated
is_old now retention_s job =
    is_terminated job.state
    && elim job.finished_at [ none ↦ false | some finished ↦ ltb finished (now - retention_s) ]

-- What `prune_stuck_running` marks.
unfoldable pub is_stuck : ℕ → ℕ → Job → Bool
unfolding state_is
is_stuck now heartbeat_timeout_s job =
    state_is job.state running
    && elim job.last_heartbeat [ none ↦ true | some beat ↦ ltb beat (now - heartbeat_timeout_s) ]

-- What it makes of such a job.
unfoldable pub mark_failed : ℕ → ℕ → Job → Job
mark_failed now heartbeat_timeout_s job = record job {
  state = failed;
  finished_at = some now;
  error = some (
      owner_died (elim job.last_heartbeat [ none ↦ none | some beat ↦ some (now - beat) ])
        heartbeat_timeout_s);
}

-- What a worker does that its job shows, and the flusher beside it.
pub data Event : Type 0 where
  -- `log_writer(line)`
  wrote : Text → Event
  -- `progress_setter(p)`, in thousandths
  progressed : ℤ → Event
  -- a round of `periodic_flush` at a time
  flushed : ℕ → Event

-- How `handler(ctx)` ends.
pub data Outcome : Type 0 where
  returned : Outcome
  was_cancelled : Outcome
  raised : Text → Outcome

-- The branches of the `try` of `_execute` after `handler(ctx)`.
unfoldable pub conclude : Outcome → Job → Job
conclude returned job = record job { state = done; progress = 1_000 }
conclude was_cancelled job = record job { state = cancelled }
conclude (raised e) job = record job { state = failed; error = some (worker_raised e) }

-- `except asyncio.CancelledError` raises again what it caught, after the `finally` block.
abbrev pub raises_again : Outcome → Bool
raises_again returned = false
raises_again was_cancelled = true
raises_again (raised e) = false

-- How `_execute` ends after its `try`: the job as the `finally` block leaves it, and whether CancelledError
-- goes on to the task of the job.
pub record Executed : Type 0 where
  pub job : Job
  pub is_cancelled : Bool

-- The job that `create` writes.
abbrev pub new_job : Text → Text → Text → Text → ℕ → Job
new_job node jid job_type params now = record {
  id = jid;
  type = job_type;
  params = params;
  state = pending;
  progress = 0;
  started_at = now;
  finished_at = none;
  error = none;
  owner = node;
  logs = [];
  last_heartbeat = none;
}

module _ (json : JobJson) where
  -- Whether the loop of `list_jobs` meets a value at which `Job.from_json` raises AttributeError.
  unfoldable pub any_no_object : Dict Text → Bool
  unfolding has_char
  any_no_object [] = false
  any_no_object ((k, v) ∷ entries) =
      (not (has_char b'/' (remove_prefix jobs_prefix k)) && json.no_object v)
      || any_no_object entries

  -- What the loop appends, if it comes to its end: a value with a JSON error or a TypeError is skipped.
  unfoldable pub decode_jobs : Option JobState → Dict Text → List Job
  unfolding from_json state_matches has_char
  decode_jobs state [] = []
  decode_jobs state ((k, v) ∷ entries) =
      let rest = decode_jobs state entries in
      if has_char b'/' (remove_prefix jobs_prefix k) then rest else elim (from_json json v) [
        | none ↦ rest
        | some job ↦ if state_matches state job then job ∷ rest else rest
      ]

  module _ (etcd : Etcd) where
    open etcd use {State}

    -- `list_jobs`
    unfoldable pub list_jobs : Option JobState → Exec State (List Job)
    unfolding any_no_object decode_jobs sort_by newest_first
    list_jobs state = do
      all_keys ← etcd.get_prefix jobs_prefix
      raise_if (any_no_object all_keys) attribute_error
      pure (sort_by newest_first (decode_jobs state all_keys))

    -- `get`
    unfoldable pub get : Text → Exec State (Option Job)
    unfolding from_json job_key
    get jid = do
      v ← etcd.get (job_key jid)
      raise_if (elim v [ none ↦ false | some text ↦ json.no_object text ]) attribute_error
      pure (elim v [ none ↦ none | some text ↦ from_json json text ])

    -- The loop of the two sweeps: a write that raises is only logged, and what was written is counted.
    unfoldable pub sweep :
        (Job → Bool) → (Job → Exec State (Unit {0})) → List Job → ℕ → Exec State ℕ
    sweep due write [] count = pure count
    sweep due write (job ∷ jobs) count =
        let rest = sweep due write jobs in
        if due job
        then try_else (write job) (λ _. rest (count + 1)) (λ _. rest count)
        else rest count

    -- `prune_old`, at a time.
    unfoldable pub prune_old : ℕ → ℕ → Exec State ℕ
    unfolding list_jobs sweep is_old job_key
    prune_old now retention_s = do
      jobs ← list_jobs none
      sweep (is_old now retention_s) (λ job. etcd.delete (job_key job.id)) jobs 0

    -- `prune_stuck_running`, at a time.
    unfoldable pub prune_stuck_running : ℕ → ℕ → Exec State ℕ
    unfolding list_jobs sweep is_stuck mark_failed job_key to_json
    prune_stuck_running now timeout_s = do
      jobs ← list_jobs none
      sweep (is_stuck now timeout_s)
          (λ job. etcd.put (job_key job.id) (to_json json (mark_failed now timeout_s job))) jobs 0

    -- `create`, up to the start of the task: `handlers` are the types with a handler, `jid` is the new
    -- UUID.
    unfoldable pub create : List Text → Bool → Text → Text → Text → Text → ℕ → Exec State Job
    unfolding job_key to_json
    create handlers is_leader node jid job_type params now = do
      let job : Job = new_job node jid job_type params now
      raise_if (not (member job_type handlers)) value_error
      raise_if (not is_leader) permission_error
      etcd.put (job_key jid) (to_json json job)
      pure job

    -- The worker's events and those of the flusher, in the order in which they happen.
    unfoldable pub work : List Event → Job → Exec State Job
    unfolding log_writer clamp job_key to_json
    work [] job = pure job
    work (wrote line ∷ events) job = work events (record job { logs = log_writer line job.logs })
    work (progressed p ∷ events) job = work events (record job { progress = clamp p })
    work (flushed now ∷ events) job =
        let beat : Job = record job { last_heartbeat = some now } in
        let rest = work events beat in
        try_else (etcd.put (job_key beat.id) (to_json json beat)) (λ _. rest) (λ _. rest)

    -- `_execute`: when it starts, what happens, how and when it ends.
    unfoldable pub execute : Job → ℕ → List Event → Outcome → ℕ → Exec State Executed
    unfolding work conclude job_key to_json
    execute job started events outcome ended = do
      let first : Job = record job { state = running; last_heartbeat = some started }
      etcd.put (job_key first.id) (to_json json first)
      worked ← work events first
      let final : Job = record (conclude outcome worked) { finished_at = some ended }
      let end : Executed = record { job = final; is_cancelled = raises_again outcome }
      try_else (etcd.put (job_key final.id) (to_json json final)) (λ _. pure end) (λ _. pure end)

-- `cancel`: `tasks` says of each task of this daemon whether it is done.
unfoldable pub cancels : Option Bool → Bool
cancels none = false
cancels (some is_done) = not is_done
