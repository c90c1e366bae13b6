-- ===== src/Tests/Watchdogs.antt =====
-- Watchdogs: the theorems on daemon/watchdog.py at concrete inputs.
use milvus_onprem.Base.{
  ◌+◌, ◌≤◌, Text, str, same, member, has_infix, true, false, none, some, [], ◌∷◌, if◌then◌else◌,
  ◌≡◌, refl, arith,
}
use milvus_onprem.Config.{DaemonConfig, default_config}
use milvus_onprem.Watchdog.Local.{
  Container, parse_health, docker_ps, Observation, LocalState, initial, history_of, tick, run,
}
use milvus_onprem.Watchdog.LocalGuard.{restarts}
use milvus_onprem.Watchdog.LocalRuns.{StaysDown, restarts-le-loop_max}
use milvus_onprem.Watchdog.LocalFaults.{failed_ps-rearms}
use milvus_onprem.Watchdog.Peers.{World, no_misses, peer_run}
use milvus_onprem.Watchdog.PeerAlerts.{ups, downs, migrations, is_down, alerts-balanced}
use milvus_onprem.Watchdog.PeerMigration.{StaysUnreachable, migrations-le-one}

abbrev config : DaemonConfig
config = default_config (str "c") (str "node-1") (str "10.0.0.1") (str "token") []

abbrev minio : Text
minio = str "milvus-minio"

abbrev sick : Container
sick = record { names = minio; state = str "running"; status = str "Up 2 minutes (unhealthy)" }

abbrev seen_sick : Observation
seen_sick = record { ps_rc = 0; ps_lines = some sick ∷ []; now = 50; docker_rc = λ name. 0 }

stays_down : StaysDown config minio seen_sick
unfolding docker_ps member same has_infix parse_health
stays_down = (refl, (refl, tt))

restarts_example : restarts minio (run config (seen_sick ∷ seen_sick ∷ []) initial).actions ≤ 3
unfolding default_config
restarts_example =
    restarts-le-loop_max config minio (seen_sick ∷ seen_sick ∷ []) (stays_down, (stays_down, tt))

abbrev monitoring : DaemonConfig
monitoring = record config { watchdog_mode = str "monitor" }

abbrev down_world : World
down_world = record {
  peers =
      (
        str "node-2",
        record { ip = some (str "10.0.0.2"); hostname = none; joined_at = none; role = none },
      )
      ∷ [];
  probe = λ ip. false;
  now = 70;
  leads = true;
  env_files = [];
  submit = λ target. some (str "job");
}

alerts_example :
    downs (str "node-2") (peer_run config (down_world ∷ down_world ∷ []) no_misses).alerts
    ≡ ups (str "node-2") (peer_run config (down_world ∷ down_world ∷ []) no_misses).alerts
      + (if is_down config (str "node-2") (peer_run config (down_world ∷ down_world ∷ []) no_misses)
          then 1
          else 0)
unfolding default_config
alerts_example = alerts-balanced config (str "node-2") (down_world ∷ down_world ∷ []) (omega arith)

stays_unreachable : StaysUnreachable config (str "node-2") down_world
unfolding same
stays_unreachable = (refl, tt)

migrations_example :
    migrations (str "node-2") (peer_run config (down_world ∷ down_world ∷ []) no_misses).alerts ≤ 1
migrations_example =
    migrations-le-one config (str "node-2") (down_world ∷ down_world ∷ [])
      (stays_unreachable, (stays_unreachable, tt))

abbrev given_up : LocalState
given_up = record initial {
  restart_history = (minio, 10 ∷ 20 ∷ 30 ∷ []) ∷ [];
  loop_alerted = minio ∷ [];
}

abbrev failed_ps : Observation
failed_ps = record seen_sick { ps_rc = 1; ps_lines = [] }

failed_ps_example :
    ((tick config failed_ps given_up).loop_alerted ≡ [])
    × (history_of minio (tick config failed_ps given_up) ≡ [])
failed_ps_example =
    failed_ps-rearms config failed_ps given_up minio (λ h. absurd (omega (arith, h)))
      (unfold member same in refl)
