-- ===== src/Tests/Jobs.antt =====
-- Jobs: the theorems on daemon/jobs.py at concrete inputs.
use milvus_onprem.Base.{
  All, length, take, rstrip, ◌==◌, ◌≤◌, ◌≤◌, insert, Bool-cases, inl, inr, Text, str, lookup,
  remove_prefix, starts_with, same, same_iff, member, true, false, none, some, List, [], ◌∷◌, map,
  if◌then◌else◌, ok, err, Error, ◌≡◌, ◌⊎◌, refl, ap, subst, sym, arith, Elem, ◌↔◌, IsOrdered,
}
use milvus_onprem.Tests.Memory.{Content, scan, memory, memory-EtcdLaws}
use milvus_onprem.Jobs.Job.{
  Job, running, done, with_heartbeat, JobJson, to_json, from_json, job_key, cap_line, write_lines,
  log_tail_lines, pos,
}
use milvus_onprem.Jobs.Logs.{last, write_lines-tail}
use milvus_onprem.Jobs.Manager.{
  Event, wrote, progressed, flushed, returned, newest_first, state_matches, is_old, is_stuck,
  new_job, list_jobs, prune_old, prune_stuck_running, create, execute,
}
use milvus_onprem.Jobs.Listing.{IsStored, list_jobs_correct}
use milvus_onprem.Jobs.Sweeps.{UnderOwnId, prune_old-keeps, prune_stuck_running-keeps}
use milvus_onprem.Jobs.Lifecycle.{lines_of, before_end, execute-concludes, create-stored}

abbrev old_job : Job
old_job = record (new_job (str "node-1") (str "a") (str "backup-etcd") [] 100) {
  state = done;
  finished_at = some 120;
}

abbrev live_job : Job
live_job = record (new_job (str "node-1") (str "b") (str "backup-etcd") [] 900) {
  state = running;
  last_heartbeat = some 990;
}

-- Two texts, for the two jobs.
abbrev json : JobJson
json = record {
  loads = λ t.
      if same t (str "old")
      then some (with_heartbeat (some none) old_job)
      else some (with_heartbeat (some (some 990)) live_job);
  no_object = λ t. false;
  dumps = λ j. if same j.id (str "a") then str "old" else str "live";
}

abbrev two_jobs : Content
two_jobs = record {
  keys = (job_key (str "a"), str "old") ∷ (job_key (str "b"), str "live") ∷ [];
  members = [];
  clock = 0;
  files = [];
}

some_eq : {A : Type 0} (a b : A) → some a ≡ some b → a ≡ b
some_eq a b h = cc h

decoded_id :
    (v : Text) (job : Job)
    → from_json json v ≡ some job
    → job.id ≡ (if same v (str "old") then str "a" else str "b")
unfolding from_json
decoded_id v job h = elim (Bool-cases (same v (str "old"))) [
  | inl e ↦ rw e (sym (ap (λ j. j.id) (some_eq old_job job (rw (from_json, e) at h))))
  | inr e ↦ rw e (sym (ap (λ j. j.id) (some_eq live_job job (rw (from_json, e) at h))))
]

texts_differ : same (str "live") (str "old") ≡ false
texts_differ = unfold same in refl

two_jobs-UnderOwnId : UnderOwnId json (memory true) (memory-EtcdLaws true) two_jobs
unfolding lookup
two_jobs-UnderOwnId k v job found decodes under = ground (
  arith,
  found,
  decoded_id v job decodes,
  same_iff (job_key (str "a")) k,
  same_iff (job_key (str "b")) k,
  same_iff v (str "old"),
  texts_differ,
)

live_only : (job : Job) → from_json json (str "live") ≡ some job → live_job ≡ job
unfolding from_json same
live_only job h = some_eq live_job job h

live-not_old : (job : Job) → from_json json (str "live") ≡ some job → is_old 1_000 60 job ≡ false
unfolding is_old
live-not_old job h = subst (λ j. is_old 1_000 60 j ≡ false) (live_only job h) refl

live-not_stuck :
    (job : Job) → from_json json (str "live") ≡ some job → is_stuck 1_000 60 job ≡ false
unfolding is_stuck
live-not_stuck job h = subst (λ j. is_stuck 1_000 60 j ≡ false) (live_only job h) refl

live_found : lookup (job_key (str "b")) two_jobs.keys ≡ some (str "live")
live_found = unfold lookup job_key same in refl

prune_old_example :
    lookup (job_key (str "b")) (prune_old json (memory true) 1_000 60 two_jobs).1.keys
    ≡ some (str "live")
prune_old_example =
    prune_old-keeps json (memory true) (memory-EtcdLaws true) 1_000 60 (job_key (str "b"))
      (str "live") two_jobs two_jobs-UnderOwnId live_found live-not_old

prune_stuck_running_example :
    lookup (job_key (str "b")) (prune_stuck_running json (memory true) 1_000 60 two_jobs).1.keys
    ≡ some (str "live")
prune_stuck_running_example =
    prune_stuck_running-keeps json (memory true) (memory-EtcdLaws true) 1_000 60 (job_key (str "b"))
      (str "live") two_jobs two_jobs-UnderOwnId live_found live-not_stuck

write_lines_example :
    (write_lines (str "one" ∷ str "two" ∷ []) []
      ≡ last log_tail_lines (map cap_line (str "one" ∷ str "two" ∷ [])))
    × (All (λ l. length l ≤ 4_012) (write_lines (str "one" ∷ str "two" ∷ []) [])
        × All
            (λ line. take 4_000 (cap_line line) ≡ take 4_000 (rstrip (λ c. c == 10) line))
            (str "one" ∷ str "two" ∷ []))
write_lines_example = write_lines-tail (str "one" ∷ str "two" ∷ [])

listed : (list_jobs json (memory true) (some running) two_jobs).0 ≡ ok (live_job ∷ [])
unfolding list_jobs scan job_key starts_with remove_prefix from_json lookup insert same
listed = refl

list_jobs_example :
    IsOrdered newest_first (live_job ∷ [])
    × ((job : Job)
        → Elem job (live_job ∷ [])
          ↔ (IsStored json (memory true) job two_jobs × (state_matches (some running) job ≡ true)))
list_jobs_example =
    list_jobs_correct json (memory true) (memory-EtcdLaws true) (some running) two_jobs
      (live_job ∷ []) listed

abbrev no_jobs : Content
no_jobs = record { keys = []; members = []; clock = 0; files = [] }

abbrev fresh : Job
fresh = new_job (str "node-1") (str "a") (str "backup-etcd") [] 100

abbrev handlers : List Text
handlers = str "backup-etcd" ∷ []

made :
    (create json
      (memory true)
      handlers
      true
      (str "node-1")
      (str "a")
      (str "backup-etcd")
      []
      100
      no_jobs).0
    ≡ ok fresh
unfolding create member same
made = refl

create-stored_example :
    (member (str "backup-etcd") handlers ≡ true)
    × ((true ≡ true)
        × ((fresh ≡ fresh)
            × (lookup
                  (job_key (str "a"))
                  (create json
                    (memory true)
                    handlers
                    true
                    (str "node-1")
                    (str "a")
                    (str "backup-etcd")
                    []
                    100
                    no_jobs).1.keys
                ≡ some (to_json json fresh))))
create-stored_example =
    create-stored json (memory true) (memory-EtcdLaws true) handlers true (str "node-1") (str "a")
      (str "backup-etcd") [] 100 no_jobs fresh made

abbrev script : List Event
script = wrote (str "saving") ∷ progressed (pos 500) ∷ flushed 103 ∷ wrote (str "saved") ∷ []

execute_example :
    (final : Job) × (((execute json (memory true) fresh 101 script returned 105 no_jobs).0
        ≡ ok (record { job = final; is_cancelled = false }))
      × ((final.id ≡ str "a")
          × ((final.state ≡ done)
              × ((final.finished_at ≡ some 105)
                  × ((final.progress ≤ 1_000)
                      × ((final.logs ≡ last log_tail_lines (map cap_line (lines_of script)))
                          × ((lookup
                                  (job_key (str "a"))
                                  (execute json
                                    (memory true)
                                    fresh
                                    101
                                    script
                                    returned
                                    105
                                    no_jobs).1.keys
                                ≡ some (to_json json final))
                              ⊎ ((e : Error) × (((memory true).put
                                      (job_key (str "a"))
                                      (to_json json final)
                                      (before_end json (memory true) fresh 101 script no_jobs)).0
                                    ≡ err e)))))))))
execute_example =
    execute-concludes json (memory true) (memory-EtcdLaws true) fresh 101 script returned 105
      no_jobs refl (omega arith) (omega arith)
