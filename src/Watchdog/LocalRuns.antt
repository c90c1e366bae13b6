-- ===== src/Watchdog/LocalRuns.antt =====
-- daemon/watchdog.py: `LocalComponentWatchdog` over many ticks.
use milvus_onprem.Base.{
  ℕ, ◌+◌, ◌≤◌, Text, str, Dict, lookup, erase, lookup-erase, true, false, none, some, List, [], ◌∷◌,
  length, same, same_iff, member, ◌≡◌, refl, ◌∙◌, arith, Bool-cases, inl, inr, All,
}
use milvus_onprem.Config.{DaemonConfig}
use milvus_onprem.Watchdog.Local.{
  Container, LocalState, initial, history_of, observe, observe_all, seen_names, drop_histories,
  forget_gone, docker_ps, Observation, tick, run,
}
use milvus_onprem.Watchdog.LocalGuard.{
  restarts, attempts, no_recovery, observe-bounded, observe-counted, observe-monitor,
}

module _ (config : DaemonConfig) (n : Text) where
  observe_all-bounded :
      (now : ℕ) (rc : Text → ℕ) (cs : List Container) (s : LocalState)
      → length (history_of n s) ≤ config.watchdog_restart_loop_max
      → length (history_of n (observe_all config now rc cs s)) ≤ config.watchdog_restart_loop_max
  unfolding observe_all
  observe_all-bounded now rc [] s h = h
  observe_all-bounded now rc (c ∷ cs) s h =
      observe_all-bounded now rc cs (observe config now rc c s)
        (observe-bounded config now rc n c s h)

  observe_all-monitor :
      (now : ℕ) (rc : Text → ℕ) (cs : List Container) (s : LocalState)
      → same config.watchdog_mode (str "auto") ≡ false
      → attempts n (observe_all config now rc cs s).actions ≡ attempts n s.actions
  unfolding observe_all
  observe_all-monitor now rc [] s h = refl
  observe_all-monitor now rc (c ∷ cs) s h =
      observe_all-monitor now rc cs (observe config now rc c s) h
      ∙ observe-monitor config now rc n c s h

  observe_all-counted :
      (now : ℕ) (rc : Text → ℕ) (cs : List Container) (s : LocalState)
      → All (λ c. no_recovery config now rc n c ≡ true) cs
      → restarts n (observe_all config now rc cs s).actions + length (history_of n s)
        ≡ restarts n s.actions + length (history_of n (observe_all config now rc cs s))
  unfolding observe_all
  observe_all-counted now rc [] s h = refl
  observe_all-counted now rc (c ∷ cs) s h = omega (
    arith,
    observe_all-counted now rc cs (observe config now rc c s) h.1,
    observe-counted config now rc n c s h.0,
  )

  drop_histories-length :
      (seen names : List Text) (d : Dict (List ℕ))
      → length (elim (lookup n (drop_histories seen names d)) [ none ↦ [] | some t ↦ t ])
        ≤ length (elim (lookup n d) [ none ↦ [] | some t ↦ t ])
  unfolding drop_histories
  drop_histories-length seen [] d = omega arith
  drop_histories-length seen (name ∷ names) d = elim (Bool-cases (member name seen)) [
    | inl e ↦ rw e (drop_histories-length seen names d)
    | inr e ↦
        rw e
          (ground (arith, drop_histories-length seen names (erase name d), lookup-erase name n d))
  ]

  lookup-drop_histories :
      (seen names : List Text) (d : Dict (List ℕ))
      → member n seen ≡ true
      → lookup n (drop_histories seen names d) ≡ lookup n d
  unfolding drop_histories
  lookup-drop_histories seen [] d h = refl
  lookup-drop_histories seen (name ∷ names) d h = elim (Bool-cases (member name seen)) [
    | inl e ↦ rw e (lookup-drop_histories seen names d h)
    | inr e ↦ rw e (
        ground (
          arith,
          lookup-drop_histories seen names (erase name d) h,
          lookup-erase name n d,
          same_iff name n,
        ))
  ]

  tick-bounded :
      (o : Observation) (s : LocalState)
      → length (history_of n s) ≤ config.watchdog_restart_loop_max
      → length (history_of n (tick config o s)) ≤ config.watchdog_restart_loop_max
  unfolding tick forget_gone
  tick-bounded o s h =
      let cs = docker_ps o.ps_rc o.ps_lines in
      let t = observe_all config o.now o.docker_rc cs s in
      omega (
        arith,
        observe_all-bounded o.now o.docker_rc cs s h,
        drop_histories-length (seen_names cs) t.loop_alerted t.restart_history,
      )

  run-bounded :
      (os : List Observation) (s : LocalState)
      → length (history_of n s) ≤ config.watchdog_restart_loop_max
      → length (history_of n (run config os s)) ≤ config.watchdog_restart_loop_max
  unfolding run
  run-bounded [] s h = h
  run-bounded (o ∷ os) s h = run-bounded os (tick config o s) (tick-bounded o s h)

  -- In mode `monitor`, and in any other mode than `auto`, no tick runs `docker restart`.
  run-monitor :
      (os : List Observation) (s : LocalState)
      → same config.watchdog_mode (str "auto") ≡ false
      → attempts n (run config os s).actions ≡ attempts n s.actions
  unfolding run tick forget_gone
  run-monitor [] s h = refl
  run-monitor (o ∷ os) s h =
      run-monitor os (tick config o s) h
      ∙ observe_all-monitor o.now o.docker_rc (docker_ps o.ps_rc o.ps_lines) s h

  -- The container is listed by the tick's `docker ps`, and never as healthy.
  abbrev pub StaysDown : Observation → Type 0
  StaysDown o =
      (member n (seen_names (docker_ps o.ps_rc o.ps_lines)) ≡ true)
      × All (λ c. no_recovery config o.now o.docker_rc n c ≡ true) (docker_ps o.ps_rc o.ps_lines)

  tick-counted :
      (o : Observation) (s : LocalState)
      → StaysDown o
      → restarts n (tick config o s).actions + length (history_of n s)
        ≡ restarts n s.actions + length (history_of n (tick config o s))
  unfolding tick forget_gone
  tick-counted o s h =
      let cs = docker_ps o.ps_rc o.ps_lines in
      let t = observe_all config o.now o.docker_rc cs s in
      ground (
        arith,
        observe_all-counted o.now o.docker_rc cs s h.1,
        lookup-drop_histories (seen_names cs) t.loop_alerted t.restart_history h.0,
      )

  run-counted :
      (os : List Observation) (s : LocalState)
      → All StaysDown os
      → restarts n (run config os s).actions + length (history_of n s)
        ≡ restarts n s.actions + length (history_of n (run config os s))
  unfolding run
  run-counted [] s h = refl
  run-counted (o ∷ os) s h =
      omega (arith, run-counted os (tick config o s) h.1, tick-counted o s h.0)

  -- The loop guard: over any ticks in which the container stays listed and is never reported healthy,
  -- the watchdog restarts it with success `watchdog_restart_loop_max` times at most.
  pub restarts-le-loop_max :
      (os : List Observation)
      → All StaysDown os
      → restarts n (run config os initial).actions ≤ config.watchdog_restart_loop_max
  restarts-le-loop_max os h = omega (
    arith,
    run-counted os initial h,
    run-bounded os initial (unfold lookup in omega arith),
    nothing,
  )
    where
      nothing : length (history_of n initial) ≡ 0
      nothing = unfold lookup in refl
