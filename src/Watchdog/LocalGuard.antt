-- ===== src/Watchdog/LocalGuard.antt =====
-- daemon/watchdog.py: the loop guard of `LocalComponentWatchdog`, and what undoes it.
use milvus_onprem.Base.{
  ℕ, suc, ◌+◌, ◌≤◌, ◌<◌, Text, str, insert, lookup-insert, Bool, true, false, not, ◌&&◌, ◌||◌, List,
  [], ◌∷◌, ◌++◌, length, length-append, ◌==◌, if◌then◌else◌, same, same_iff, ◌≡◌, arith,
}
use milvus_onprem.Config.{DaemonConfig}
use milvus_onprem.Watchdog.Local.{
  Container, healthy, parse_health, Action, docker_restart, LocalState, unhealthy_count, history_of,
  restart, maybe_restart, on_unhealthy, on_other, observe,
}

-- How often the container was restarted with success.
abbrev pub restarts : Text → List Action → ℕ
restarts n [] = 0
restarts n (docker_restart name rc ∷ actions) =
    let rest = restarts n actions in if same name n && rc == 0 then suc rest else rest
restarts n (_ ∷ actions) = restarts n actions

-- How often a restart of the container was tried.
abbrev pub attempts : Text → List Action → ℕ
attempts n [] = 0
attempts n (docker_restart name rc ∷ actions) =
    let rest = attempts n actions in if same name n then suc rest else rest
attempts n (_ ∷ actions) = attempts n actions

module _ (config : DaemonConfig) (now : ℕ) (docker_rc : Text → ℕ) (n : Text) where
  abbrev pub limit : ℕ
  limit = config.watchdog_restart_loop_max

  restart-bounded :
      (name : Text) (s : LocalState)
      → length (history_of name s) < limit
      → length (history_of n s) ≤ limit
      → length (history_of n (restart config now docker_rc name s)) ≤ limit
  unfolding restart
  restart-bounded name s room h = ground (
    arith,
    lookup-insert name n (history_of name s ++ now ∷ []) s.restart_history,
    length-append (history_of name s) (now ∷ []),
    same_iff name n,
  )

  restart-counted :
      (name : Text) (s : LocalState)
      → restarts n (restart config now docker_rc name s).actions + length (history_of n s)
        ≡ restarts n s.actions + length (history_of n (restart config now docker_rc name s))
  unfolding restart
  restart-counted name s = ground (
    arith,
    lookup-insert name n (history_of name s ++ now ∷ []) s.restart_history,
    length-append (history_of name s) (now ∷ []),
    same_iff name n,
  )

  maybe_restart-bounded :
      (name : Text) (s : LocalState)
      → length (history_of n s) ≤ limit
      → length (history_of n (maybe_restart config now docker_rc name s)) ≤ limit
  unfolding maybe_restart
  maybe_restart-bounded name s h = ground (arith, restart-bounded name s)

  maybe_restart-counted :
      (name : Text) (s : LocalState)
      → restarts n (maybe_restart config now docker_rc name s).actions + length (history_of n s)
        ≡ restarts n s.actions + length (history_of n (maybe_restart config now docker_rc name s))
  unfolding maybe_restart
  maybe_restart-counted name s = ground (arith, restart-counted name s)

  maybe_restart-monitor :
      (name : Text) (s : LocalState)
      → same config.watchdog_mode (str "auto") ≡ false
      → attempts n (maybe_restart config now docker_rc name s).actions ≡ attempts n s.actions
  unfolding maybe_restart
  maybe_restart-monitor name s h = ground (arith, h)

  abbrev counted : Text → LocalState → LocalState
  counted name s = record s {
    consecutive_unhealthy = insert name (unhealthy_count name s + 1) s.consecutive_unhealthy;
  }

  pub observe-bounded :
      (c : Container) (s : LocalState)
      → length (history_of n s) ≤ limit
      → length (history_of n (observe config now docker_rc c s)) ≤ limit
  unfolding observe on_unhealthy on_other
  observe-bounded c s h = ground (
    arith,
    maybe_restart-bounded c.names (counted c.names s),
    lookup-insert c.names n [] s.restart_history,
    same_iff c.names n,
  )

  -- A report of the container that is not `healthy`, or a report of another container.
  abbrev pub no_recovery : Container → Bool
  no_recovery c =
      not (same c.names n) || elim (parse_health c.status) [ healthy ↦ false | _ ↦ true ]

  pub observe-counted :
      (c : Container) (s : LocalState)
      → no_recovery c ≡ true
      → restarts n (observe config now docker_rc c s).actions + length (history_of n s)
        ≡ restarts n s.actions + length (history_of n (observe config now docker_rc c s))
  unfolding observe on_unhealthy on_other
  observe-counted c s h = ground (
    arith,
    maybe_restart-counted c.names (counted c.names s),
    lookup-insert c.names n [] s.restart_history,
    same_iff c.names n,
  )

  pub observe-monitor :
      (c : Container) (s : LocalState)
      → same config.watchdog_mode (str "auto") ≡ false
      → attempts n (observe config now docker_rc c s).actions ≡ attempts n s.actions
  unfolding observe on_unhealthy on_other
  observe-monitor c s h = ground (arith, maybe_restart-monitor c.names (counted c.names s) h)
