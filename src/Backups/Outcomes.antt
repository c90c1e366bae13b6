-- ===== src/Backups/Outcomes.antt =====
-- daemon/workers/_shell_helpers.py and restore_backup.py: how a job that runs one command ends.
use milvus_onprem.Base.{
  Text, str, Dict, Bool, true, false, not, ◌&&◌, Option, List, ◌≡◌, ◌==◌, if◌then◌else◌, same, Exec,
  Result, ok, err, value_error, runtime_error, raise_if, try_else, bind-of, refl, pure, ap, ◌∙◌,
  ◌>>◌, ℕ, [],
}
use milvus_onprem.Host.{Host}
use milvus_onprem.Host.Shell.{in_repo}
use milvus_onprem.Backups.Running.{command, chown_artifacts, run_in_repo, run_or_raise}
use milvus_onprem.Backups.Commands.{param, restore_args, run_restore_backup}

module _ (host : Host) (exists : Text → host.etcd.State → Bool)
    (owner : host.etcd.State → Option Text) where
  open host.etcd use {State}

  ending :
      (p : Result (Unit {0}) × State) (n : ℕ) (s : State)
      → (try_else (λ _. p) (λ _. pure n) (λ _. pure n) s).0 ≡ ok n
  ending (ok u, t) n s = refl
  ending (err e, t) n s = refl

  raising :
      (b : Bool) (s : State)
      → (raise_if (not b) runtime_error s).0 ≡ (if b then ok tt else err runtime_error)
  raising true s = refl
  raising false s = refl

  guarded :
      (b : Bool) (m : Exec State (Unit {0})) (s : State)
      → ((raise_if b value_error >> m) s).0 ≡ (if b then err value_error else (m s).0)
  guarded true m s = refl
  guarded false m s = refl

  -- Whether the files are given back to their owner or not, the exit code is that of the command.
  run_in_repo-code :
      (args : List Text) (s : State)
      → (run_in_repo host exists owner args s).0 ≡ ok (host.run (in_repo (command args)) s).0.rc
  unfolding run_in_repo
  run_in_repo-code args s =
      let (done, t) = host.run (in_repo (command args)) s in
      ending (chown_artifacts host exists owner t) done.rc t

  run_or_raise-outcome :
      (args : List Text) (s : State)
      → (run_or_raise host exists owner args s).0
        ≡ (if (host.run (in_repo (command args)) s).0.rc == 0 then ok tt else err runtime_error)
  unfolding run_or_raise
  run_or_raise-outcome args s =
      let rc = (host.run (in_repo (command args)) s).0.rc in
      ap (λ r. r.0)
        (bind-of (run_in_repo host exists owner args) (λ n. raise_if (not (n == 0)) runtime_error) s
          rc (run_in_repo-code args s))
      ∙ raising (rc == 0) (run_in_repo host exists owner args s).1

  -- A restore raises ValueError where it is given neither a path nor a name, and else ends as its one
  -- command does, whatever becomes of the files that it hands back to their owner.
  pub run_restore_backup-outcome :
      (params : Dict Text) (s : State)
      → (run_restore_backup host exists owner params s).0 ≡ (
          if same (param (str "from") params) [] && same (param (str "name") params) []
          then err value_error
          else if (host.run (in_repo (command (restore_args params))) s).0.rc == 0
          then ok tt
          else err runtime_error)
  unfolding run_restore_backup
  run_restore_backup-outcome params s =
      let refused = same (param (str "from") params) [] && same (param (str "name") params) [] in
      guarded refused (run_or_raise host exists owner (restore_args params)) s
      ∙ ap (λ r. if refused then err value_error else r)
          (run_or_raise-outcome (restore_args params) s)
