-- ===== src/Watchdog/LocalFaults.antt =====
-- daemon/watchdog.py: where the loop guard of `LocalComponentWatchdog` does not do what its comments
-- say.
use milvus_onprem.Base.{
  ℕ, ◌≤◌, Text, Dict, lookup, erase, lookup-erase, true, false, Option, none, List, [], ◌∷◌, length,
  same, same_refl, member, ◌≡◌, ◌≢◌, refl, ap, ◌∙◌, arith, Bool-cases, inl, inr, All,
}
use milvus_onprem.Config.{DaemonConfig}
use milvus_onprem.Watchdog.Local.{
  Container, healthy, parse_health, LocalState, history_of, maybe_restart, on_other, observe,
  observe_all, keep_alerted, drop_histories, forget_gone, docker_ps, Observation, tick,
}
use milvus_onprem.Watchdog.LocalGuard.{attempts}

docker_ps-failed : (rc : ℕ) (lines : List (Option Container)) → rc ≢ 0 → docker_ps rc lines ≡ []
unfolding docker_ps
docker_ps-failed rc [] h = refl
docker_ps-failed rc (line ∷ lines) h = ground arith

keep_alerted-nil : (names : List Text) → keep_alerted [] names ≡ []
unfolding keep_alerted member
keep_alerted-nil [] = refl
keep_alerted-nil (name ∷ names) = keep_alerted-nil names

drop_histories-none :
    (n : Text) (names : List Text) (d : Dict (List ℕ))
    → lookup n d ≡ none
    → lookup n (drop_histories [] names d) ≡ none
unfolding drop_histories member
drop_histories-none n [] d h = h
drop_histories-none n (name ∷ names) d h =
    drop_histories-none n names (erase name d) (ground (arith, lookup-erase name n d))

drop_histories-all :
    (n : Text) (names : List Text) (d : Dict (List ℕ))
    → member n names ≡ true
    → lookup n (drop_histories [] names d) ≡ none
unfolding drop_histories member
drop_histories-all n [] d h = absurd (ground arith)
drop_histories-all n (name ∷ names) d h = elim (Bool-cases (same name n)) [
  | inl e ↦ drop_histories-none n names (erase name d) (ground (arith, lookup-erase name n d))
  | inr e ↦ drop_histories-all n names (erase name d) (ground arith)
]

-- A tick whose `docker ps` fails takes every container for removed: all flags of the loop guard are
-- gone after it, and so is the restart history of every container that was flagged.
pub failed_ps-rearms :
    (config : DaemonConfig) (o : Observation) (s : LocalState) (n : Text)
    → o.ps_rc ≢ 0
    → member n s.loop_alerted ≡ true
    → ((tick config o s).loop_alerted ≡ []) × (history_of n (tick config o s) ≡ [])
unfolding tick forget_gone observe_all
failed_ps-rearms config o s n h flagged =
    let gone = docker_ps-failed o.ps_rc o.ps_lines h in
    rw gone (
      keep_alerted-nil s.loop_alerted,
      ground (arith, drop_histories-all n s.loop_alerted s.restart_history flagged),
    )

module _ (config : DaemonConfig) (now : ℕ) (docker_rc : Text → ℕ) (n : Text) where
  abbrev pub IsRecovery : Container → Type 0
  IsRecovery c = (c.names ≡ n) × (parse_health c.status ≡ healthy)

  observe-recovery :
      (c : Container) (s : LocalState)
      → IsRecovery c
      → member n s.loop_alerted ≡ false
      → (history_of n (observe config now docker_rc c s) ≡ history_of n s)
        × ((observe config now docker_rc c s).loop_alerted ≡ s.loop_alerted)
        × ((observe config now docker_rc c s).actions ≡ s.actions)
  unfolding observe on_other
  observe-recovery c s (e, h) flag = ground (arith, e, h, flag)

  observe_all-recovery :
      (cs : List Container) (s : LocalState)
      → All IsRecovery cs
      → member n s.loop_alerted ≡ false
      → (history_of n (observe_all config now docker_rc cs s) ≡ history_of n s)
        × ((observe_all config now docker_rc cs s).loop_alerted ≡ s.loop_alerted)
        × ((observe_all config now docker_rc cs s).actions ≡ s.actions)
  unfolding observe_all
  observe_all-recovery [] s h flag = (refl, refl, refl)
  observe_all-recovery (c ∷ cs) s h flag =
      let (a, b, d) = observe-recovery c s h.0 flag in
      let (a', b', d') =
        observe_all-recovery cs (observe config now docker_rc c s) h.1 (rw b flag) in
      (a' ∙ a, b' ∙ b, d' ∙ d)

  -- A container that is not flagged, and whose history has `watchdog_restart_loop_max` restarts, gets
  -- none of them back by reports that it is healthy, however many: when its restart is next due, it is
  -- not restarted but flagged.
  recoveries_keep_history :
      (cs : List Container) (s : LocalState)
      → All IsRecovery cs
      → member n s.loop_alerted ≡ false
      → config.watchdog_restart_loop_max ≤ length (history_of n s)
      → (attempts n
            (maybe_restart config now docker_rc n (observe_all config now docker_rc cs s)).actions
          ≡ attempts n s.actions)
        × (member n
              (maybe_restart config now docker_rc n
                (observe_all config now docker_rc cs s)).loop_alerted
            ≡ true)
  unfolding maybe_restart member
  recoveries_keep_history cs s h flag full =
      let (a, b, d) = observe_all-recovery cs s h flag in
      ground (arith, a, b, d, flag, full, same_refl n, ap length a)
