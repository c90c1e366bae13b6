-- ===== src/Jobs/Job.antt =====
-- daemon/jobs.py: the job record, its JSON form, and what a worker writes into it.
use milvus_onprem.Base.{
  Bool, ℕ, ◌-◌, Text, str, rstrip, Option, none, some, List, [], ◌∷◌, ◌++◌, length, drop, take, ltb,
  leb, ◌==◌, if◌then◌else◌,
}

abbrev pub jobs_prefix : Text
jobs_prefix = str "/cluster/jobs/"

-- `_key`
unfoldable pub job_key : Text → Text
job_key jid = jobs_prefix ++ jid

-- `LOG_TAIL_LINES` and `LOG_LINE_CAP_CHARS`
abbrev pub log_tail_lines : ℕ
log_tail_lines = 200

abbrev pub log_line_cap_chars : ℕ
log_line_cap_chars = 4_000

pub data JobState : Type 0 where
  pending running done failed cancelled : JobState

-- What `error` says, without its wording: the age of the last heartbeat, where there was one, and the
-- timeout; or the text of the worker's exception.
pub data JobError : Type 0 where
  owner_died : Option ℕ → ℕ → JobError
  worker_raised : Text → JobError

-- Times are whole seconds, and `progress` counts thousandths. `params` is the JSON text of the
-- parameters. `H` is what stands for `last_heartbeat`.
pub record JobOf (H : Type 0) : Type 0 where
  pub id : Text
  pub type : Text
  pub params : Text
  pub state : JobState
  pub progress : ℕ
  pub started_at : ℕ
  pub finished_at : Option ℕ
  pub error : Option JobError
  pub owner : Text
  pub logs : List Text
  pub last_heartbeat : H

abbrev pub Job : Type 0
Job = JobOf (Option ℕ)

-- A JSON object with the fields of a job, where `last_heartbeat` may be missing.
abbrev pub JobObject : Type 0
JobObject = JobOf (Option (Option ℕ))

abbrev pub with_heartbeat : {A B : Type 0} → B → JobOf A → JobOf B
with_heartbeat h j = record {
  id = j.id;
  type = j.type;
  params = j.params;
  state = j.state;
  progress = j.progress;
  started_at = j.started_at;
  finished_at = j.finished_at;
  error = j.error;
  owner = j.owner;
  logs = j.logs;
  last_heartbeat = h;
}

-- The JSON library on jobs: `loads` is `none` where `json.loads` raises `JSONDecodeError`, and where
-- the object has not the fields of a job, so that `cls(**d)` raises `TypeError`; `no_object` is where the
-- value is no object, so that `d.setdefault` raises `AttributeError`, which nobody catches. A state
-- that is stored is one of the five that the daemons write.
pub record JobJson : Type 0 where
  pub loads : Text → Option JobObject
  pub no_object : Text → Bool
  pub dumps : JobObject → Text

module _ (json : JobJson) where
  -- `to_json`
  unfoldable pub to_json : Job → Text
  to_json job = json.dumps (with_heartbeat (some job.last_heartbeat) job)

  -- `from_json`
  unfoldable pub from_json : Text → Option Job
  from_json s = elim (json.loads s) [
    | none ↦ none
    | some d ↦ some (with_heartbeat (elim d.last_heartbeat [ none ↦ none | some h ↦ h ]) d)
  ]

-- `line.rstrip("\n")`, cut off after `LOG_LINE_CAP_CHARS`; 8230 is the code point of `…`.
unfoldable pub cap_line : Text → Text
unfolding rstrip
cap_line line =
    let text = rstrip (λ c. c == 10) line in
    if ltb log_line_cap_chars (length text)
    then take log_line_cap_chars text ++ (8_230 ∷ str "[truncated]")
    else text

-- `log_writer`, on `job.logs`.
unfoldable pub log_writer : Text → List Text → List Text
log_writer line logs =
    let longer = logs ++ cap_line line ∷ [] in
    if ltb log_tail_lines (length longer)
    then drop (length longer - log_tail_lines) longer
    else longer

unfoldable pub write_lines : List Text → List Text → List Text
write_lines [] logs = logs
write_lines (line ∷ lines) logs = write_lines lines (log_writer line logs)

-- An integer: `pos n` is `n`, `negsuc n` is `-(n + 1)`.
pub data ℤ : Type 0 where
  pos negsuc : ℕ → ℤ

-- `max(0.0, min(1.0, p))`, in thousandths.
unfoldable pub clamp : ℤ → ℕ
clamp (pos p) = if leb p 1_000 then p else 1_000
clamp (negsuc p) = 0
