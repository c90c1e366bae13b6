-- ===== src/RemoveNode/Polling.antt =====
-- daemon/workers/remove_node.py: the start of the decommission of the peer's MinIO pool, and the poll that
-- waits for it.
use milvus_onprem.Base.{
  ℕ, zero, suc, ◌+◌, Text, str, Bool, true, false, not, ◌&&◌, ◌||◌, Option, none, some, List, [],
  ◌∷◌, ◌++◌, ◌==◌, leb, lower, strip, has_infix, Exec, runtime_error, pure, raise, raise_if, ◌>>=◌,
  ◌>>◌,
}
use milvus_onprem.Host.{Host, call}
use milvus_onprem.Joining.Settings.{read_cluster_env_value}
use milvus_onprem.RemoveNode.Decommission.{
  PoolState, not_started, active, complete, failed, canceled, missing, Parsed, pools,
  decommission_state, Preparation, skip_start, start, cancel_then_start, prepare,
}

-- `json.loads(out) if out.strip() else []`
unfoldable pub parse_pools : (Text → Parsed) → Text → Parsed
unfolding strip
parse_pools loads out = elim (strip out) [ [] ↦ pools [] | c ∷ s ↦ loads out ]

-- What the poll makes of a state.
pub data Verdict : Type 0 where
  settled failing pending : Verdict

unfoldable pub judge : PoolState → Verdict
judge complete = settled
judge missing = settled
judge failed = failing
judge canceled = failing
judge not_started = failing
judge active = pending

-- `any(s in combined for s in …)`
unfoldable pub is_under_way : Text → Bool
unfolding has_infix
is_under_way combined =
    has_infix (str "already decommissioning") combined
    || (has_infix (str "already decommissioned") combined || has_infix (str "no pool") combined)

module _ (host : Host) (env_files : List (Option Text)) (loads : Text → Parsed) where
  open host.etcd use {State}

  -- `f"{ip}:{_minio_api_port()}/drive"`
  unfoldable pub pool_fragment : Text → Text
  unfolding read_cluster_env_value
  pool_fragment ip =
      ip
      ++ (b':'
          ∷ (read_cluster_env_value env_files (str "MINIO_API_PORT") (str "9000") ++ str "/drive"))

  -- `'{pool_url_pattern}'`, in its quotes
  unfoldable pub pool_pattern : Text → Text
  unfolding pool_fragment
  pool_pattern ip = str "'http://" ++ (pool_fragment ip ++ str "{1...4}'")

  unfoldable pub mc_alias : Text
  unfolding read_cluster_env_value
  mc_alias =
      str "docker exec milvus-minio mc alias set local http://127.0.0.1:"
      ++ (read_cluster_env_value env_files (str "MINIO_API_PORT") (str "9000")
          ++ (str " "
              ++ (read_cluster_env_value env_files (str "MINIO_ACCESS_KEY") (str "minioadmin")
                  ++ (str " " ++ read_cluster_env_value env_files (str "MINIO_SECRET_KEY") []))))

  -- `mc admin decommission {verb} local '{pattern}'`
  unfoldable pub decommission_cmd : Text → Text → Text
  unfolding pool_pattern
  decommission_cmd verb ip =
      str "docker exec milvus-minio mc admin decommission "
      ++ (verb ++ (str " local " ++ pool_pattern ip))

  -- `_decommission_state`, with the command that it reads.
  unfoldable pub read_state : Text → State → PoolState × State
  unfolding decommission_state parse_pools pool_fragment lower has_infix
  read_state ip s =
      let (done, t) =
        host.run (str "docker exec milvus-minio mc admin decommission status local --json") s in
      (
        decommission_state (pool_fragment ip) done.rc
            (has_infix (str "no decommission") (lower (done.out ++ done.err)))
            (parse_pools loads done.out),
        t,
      )

  unfoldable pub issue_start : Text → Exec State (Unit {0})
  unfolding decommission_cmd is_under_way lower
  issue_start ip = do
    done ← call (host.run (decommission_cmd (str "start") ip))
    raise_if (not (done.rc == 0) && not (is_under_way (lower (done.out ++ done.err)))) runtime_error

  unfoldable pub start_as : Text → Preparation → Exec State (Unit {0})
  unfolding issue_start decommission_cmd
  start_as ip skip_start = pure tt
  start_as ip start = issue_start ip
  start_as ip cancel_then_start = do
    call (host.run (decommission_cmd (str "cancel") ip))
    issue_start ip

  -- Step 2.
  unfoldable pub start_decommission : Text → Exec State (Unit {0})
  unfolding mc_alias read_state start_as prepare
  start_decommission ip = do
    call (host.run mc_alias)
    state ← call (read_state ip)
    start_as ip (prepare state)

  -- Step 3, on fuel, with the seconds that have passed: the state that ended the poll, or `none` without
  -- fuel.
  unfoldable pub wait_decommissioned : Text → ℕ → ℕ → Exec State (Option PoolState)
  unfolding read_state judge
  wait_decommissioned ip zero elapsed = pure none
  wait_decommissioned ip (suc fuel) elapsed = do
    state ← call (read_state ip)
    elim (judge state) [
      | settled ↦ pure (some state)
      | failing ↦ raise runtime_error
      | pending ↦ elim (leb 1800 elapsed) [
        | true ↦ raise runtime_error
        | false ↦ do call (λ s. (tt, host.sleep 5000 s)); wait_decommissioned ip fuel (elapsed + 5)
      ]
    ]
