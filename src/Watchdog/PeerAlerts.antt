-- ===== src/Watchdog/PeerAlerts.antt =====
-- daemon/watchdog.py: which alerts `PeerReachabilityWatchdog` prints over many ticks.
use milvus_onprem.Base.{
  ℕ, suc, ◌+◌, ◌≤◌, Text, Dict, lookup, lookup-insert, Bool, List, [], ◌∷◌, leb, if◌then◌else◌,
  same, same_iff, ◌≡◌, refl, arith,
}
use milvus_onprem.Config.{DaemonConfig}
use milvus_onprem.Topology.{Info, ip_of}
use milvus_onprem.Watchdog.Peers.{
  Alert, peer_up, peer_down, auto_migrate, PeerState, no_misses, World, misses, submit_migration,
  maybe_auto_migrate_pulsar, on_reachable, count_miss, on_unreachable, observe_peer, observe_peers,
  peer_tick, peer_run,
}

abbrev pub ups : Text → List Alert → ℕ
ups n [] = 0
ups n (peer_up name ip t ∷ alerts) =
    let rest = ups n alerts in if same name n then suc rest else rest
ups n (_ ∷ alerts) = ups n alerts

abbrev pub downs : Text → List Alert → ℕ
downs n [] = 0
downs n (peer_down name ip t ∷ alerts) =
    let rest = downs n alerts in if same name n then suc rest else rest
downs n (_ ∷ alerts) = downs n alerts

abbrev pub migrations : Text → List Alert → ℕ
migrations n [] = 0
migrations n (auto_migrate name to id ∷ alerts) =
    let rest = migrations n alerts in if same name n then suc rest else rest
migrations n (_ ∷ alerts) = migrations n alerts

module _ (config : DaemonConfig) (n : Text) where
  -- The peer counts as down.
  abbrev pub is_down : PeerState → Bool
  is_down s = leb config.watchdog_peer_failure_threshold (misses n s)

  -- One more alert of a failure than of a recovery while the peer counts as down, else as many.
  abbrev Balanced : PeerState → Type 0
  Balanced s = downs n s.alerts ≡ ups n s.alerts + (if is_down s then 1 else 0)

  module _ (w : World) where
    migrate-keeps :
        (name : Text) (s : PeerState)
        → (downs n (maybe_auto_migrate_pulsar config w name s).alerts ≡ downs n s.alerts)
          × ((ups n (maybe_auto_migrate_pulsar config w name s).alerts ≡ ups n s.alerts)
              × ((maybe_auto_migrate_pulsar config w name s).consecutive_misses
                  ≡ s.consecutive_misses))
    unfolding maybe_auto_migrate_pulsar submit_migration
    migrate-keeps name s = ground arith

    count_miss-Balanced :
        (name ip : Text) (s : PeerState)
        → 1 ≤ config.watchdog_peer_failure_threshold
        → Balanced s
        → Balanced (count_miss config w name ip s)
    unfolding count_miss
    count_miss-Balanced name ip s t h =
        ground
          (arith, lookup-insert name n (misses name s + 1) s.consecutive_misses, same_iff name n)

    on_reachable-Balanced :
        (name ip : Text) (s : PeerState)
        → 1 ≤ config.watchdog_peer_failure_threshold
        → Balanced s
        → Balanced (on_reachable config w name ip s)
    unfolding on_reachable
    on_reachable-Balanced name ip s t h =
        ground (arith, lookup-insert name n 0 s.consecutive_misses, same_iff name n)

    on_unreachable-Balanced :
        (name ip : Text) (s : PeerState)
        → 1 ≤ config.watchdog_peer_failure_threshold
        → Balanced s
        → Balanced (on_unreachable config w name ip s)
    unfolding on_unreachable
    on_unreachable-Balanced name ip s t h = ground (
      arith,
      count_miss-Balanced name ip s t h,
      migrate-keeps name (count_miss config w name ip s),
    )

    observe_peer-Balanced :
        (name : Text) (info : Info) (s : PeerState)
        → 1 ≤ config.watchdog_peer_failure_threshold
        → Balanced s
        → Balanced (observe_peer config w name info s)
    unfolding observe_peer
    observe_peer-Balanced name info s t h = ground (
      arith,
      on_reachable-Balanced name (ip_of info) s t h,
      on_unreachable-Balanced name (ip_of info) s t h,
    )

    observe_peers-Balanced :
        (peers : Dict Info) (s : PeerState)
        → 1 ≤ config.watchdog_peer_failure_threshold
        → Balanced s
        → Balanced (observe_peers config w peers s)
    unfolding observe_peers
    observe_peers-Balanced [] s t h = h
    observe_peers-Balanced ((name, info) ∷ peers) s t h =
        observe_peers-Balanced peers (observe_peer config w name info s) t
          (observe_peer-Balanced name info s t h)

  run-Balanced :
      (ws : List World) (s : PeerState)
      → 1 ≤ config.watchdog_peer_failure_threshold
      → Balanced s
      → Balanced (peer_run config ws s)
  unfolding peer_run peer_tick
  run-Balanced [] s t h = h
  run-Balanced (w ∷ ws) s t h =
      run-Balanced ws (peer_tick config w s) t (observe_peers-Balanced w w.peers s t h)

  -- After any ticks, with a threshold of at least one miss, a peer has had one PEER_DOWN_ALERT more than
  -- PEER_UP_ALERTs if its consecutive misses have reached the threshold, and else as many: every failure
  -- that is alerted is alerted once, and so is its end.
  pub alerts-balanced :
      (ws : List World)
      → 1 ≤ config.watchdog_peer_failure_threshold
      → downs n (peer_run config ws no_misses).alerts
        ≡ ups n (peer_run config ws no_misses).alerts
          + (if is_down (peer_run config ws no_misses) then 1 else 0)
  alerts-balanced ws t = run-Balanced ws no_misses t start
    where
      nothing : misses n no_misses ≡ 0
      nothing = unfold lookup in refl

      start : Balanced no_misses
      start = ground (arith, t, nothing)
