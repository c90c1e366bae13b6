-- ===== src/Backups/Running.antt =====
-- daemon/workers/_shell_helpers.py: `run_in_repo`, which runs a command and gives the files it may have
-- written back to their owner. The lines that it streams to the log are left out.
use milvus_onprem.Base.{
  ℕ, Text, str, Bool, true, false, Option, List, [], ◌∷◌, ◌++◌, ◌==◌, not, join, Exec, os_error,
  runtime_error, pure, raise_if, or_raise, try_else, ◌>>=◌, ◌>>◌,
}
use milvus_onprem.Host.{Host, call}
use milvus_onprem.Host.Shell.{quote, in_repo}

-- `[shlex.quote(a) for a in args]`
unfoldable pub quoted : List Text → List Text
unfolding quote
quoted [] = []
quoted (a ∷ args) = quote a ∷ quoted args

-- `cmd`
unfoldable pub command : List Text → Text
unfolding quoted join
command args = join (str " ") (quoted args)

-- `_OWNERSHIP_PATHS`, under `REPO_PATH`
abbrev pub ownership_paths : List Text
ownership_paths =
    str "/repo/.local"
    ∷ str "/repo/logs"
    ∷ str "/repo/rendered"
    ∷ str "/repo/cluster.env"
    ∷ str "/repo/cluster.env.bak"
    ∷ []

-- `exists` is `Path.exists`, and `owner` is the owner and group of cluster.env as `uid:gid`, or `none`
-- where `os.stat` raises.
module _ (host : Host) (exists : Text → host.etcd.State → Bool)
    (owner : host.etcd.State → Option Text) where
  open host.etcd use {State}

  -- The loop of `_chown_artifacts`; a `chown` that fails is only logged.
  unfoldable pub chown_all : Text → List Text → Exec State (Unit {0})
  chown_all uid_gid [] = pure tt
  chown_all uid_gid (path ∷ paths) = do
    there ← call (λ s. (exists path s, s))
    elim there [
      | false ↦ chown_all uid_gid paths
      | true ↦ do
        call (host.run (str "chown -R " ++ (uid_gid ++ (str " " ++ path))))
        chown_all uid_gid paths
    ]

  -- `_chown_artifacts`
  unfoldable pub chown_artifacts : Exec State (Unit {0})
  unfolding chown_all
  chown_artifacts = do
    uid_gid ← λ s. or_raise (owner s) os_error s
    chown_all uid_gid ownership_paths

  -- `run_in_repo`: the exit code.
  unfoldable pub run_in_repo : List Text → Exec State ℕ
  unfolding command in_repo chown_artifacts
  run_in_repo args = do
    done ← call (host.run (in_repo (command args)))
    try_else chown_artifacts (λ _. pure done.rc) (λ _. pure done.rc)

  -- What the workers make of the exit code.
  unfoldable pub run_or_raise : List Text → Exec State (Unit {0})
  unfolding run_in_repo
  run_or_raise args = do rc ← run_in_repo args; raise_if (not (rc == 0)) runtime_error
