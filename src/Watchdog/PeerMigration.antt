-- ===== src/Watchdog/PeerMigration.antt =====
-- daemon/watchdog.py: how often `PeerReachabilityWatchdog` moves Pulsar away from a peer.
use milvus_onprem.Base.{
  ◌≤◌, Text, Dict, Bool, true, false, not, ◌&&◌, ◌||◌, List, [], ◌∷◌, if◌then◌else◌, same, same_iff,
  member, ◌≡◌, refl, arith, All,
}
use milvus_onprem.Config.{DaemonConfig}
use milvus_onprem.Topology.{Info, ip_of}
use milvus_onprem.Watchdog.Local.{discard}
use milvus_onprem.Watchdog.PeerAlerts.{migrations}
use milvus_onprem.Watchdog.Peers.{
  PeerState, no_misses, World, survivors, submit_migration, maybe_auto_migrate_pulsar, on_reachable,
  count_miss, may_migrate, on_unreachable, observe_peer, observe_peers, peer_tick, peer_run,
}

member-discard :
    (n name : Text) (xs : List Text)
    → member n (discard name xs) ≡ (member n xs && not (same name n))
unfolding discard member
member-discard n name [] = refl
member-discard n name (x ∷ xs) =
    ground (arith, member-discard n name xs, same_iff x name, same_iff name n, same_iff x n)

abbrev first_of : List Text → Text
first_of [] = []
first_of (x ∷ xs) = x

module _ (config : DaemonConfig) (n : Text) where
  -- The peer is marked exactly if it was moved away from, and then it was so once.
  abbrev Marked : PeerState → Type 0
  Marked s = migrations n s.alerts ≡ (if member n s.migrated_while_down then 1 else 0)

  module _ (w : World) where
    submit-Marked :
        (name target : Text) (s : PeerState)
        → member name s.migrated_while_down ≡ false
        → Marked s
        → Marked (submit_migration config w name target s)
    unfolding submit_migration member
    submit-Marked name target s fresh h =
        ground
          (arith, fresh, h, member-discard n name (name ∷ s.migrated_while_down), same_iff name n)

    migrate-Marked :
        (name : Text) (s : PeerState)
        → member name s.migrated_while_down ≡ false
        → Marked s
        → Marked (maybe_auto_migrate_pulsar config w name s)
    unfolding maybe_auto_migrate_pulsar
    migrate-Marked name s fresh h =
        ground (arith, h, submit-Marked name (first_of (survivors name w.peers)) s fresh h)

    on_unreachable-Marked :
        (name ip : Text) (s : PeerState) → Marked s → Marked (on_unreachable config w name ip s)
    unfolding on_unreachable may_migrate count_miss
    on_unreachable-Marked name ip s h =
        ground (arith, h, migrate-Marked name (count_miss config w name ip s))

    -- No probe of the peer goes through.
    abbrev pub unreachable : Text → Info → Bool
    unreachable name info = not (same name n) || not (w.probe (ip_of info))

    on_reachable-Marked :
        (name ip : Text) (s : PeerState)
        → same name n ≡ false
        → Marked s
        → Marked (on_reachable config w name ip s)
    unfolding on_reachable
    on_reachable-Marked name ip s other h =
        ground (arith, other, h, member-discard n name s.migrated_while_down)

    observe_peer-Marked :
        (name : Text) (info : Info) (s : PeerState)
        → unreachable name info ≡ true
        → Marked s
        → Marked (observe_peer config w name info s)
    unfolding observe_peer
    observe_peer-Marked name info s u h = ground (
      arith,
      u,
      on_reachable-Marked name (ip_of info) s,
      on_unreachable-Marked name (ip_of info) s,
    )

    observe_peers-Marked :
        (peers : Dict Info) (s : PeerState)
        → All (λ p. unreachable p.0 p.1 ≡ true) peers
        → Marked s
        → Marked (observe_peers config w peers s)
    unfolding observe_peers
    observe_peers-Marked [] s u h = h
    observe_peers-Marked ((name, info) ∷ peers) s u h =
        observe_peers-Marked peers (observe_peer config w name info s) u.1
          (observe_peer-Marked name info s u.0 h)

  -- In the tick, no probe of the peer goes through.
  abbrev pub StaysUnreachable : World → Type 0
  StaysUnreachable w = All (λ p. unreachable w p.0 p.1 ≡ true) w.peers

  run-Marked :
      (ws : List World) (s : PeerState)
      → All StaysUnreachable ws
      → Marked s
      → Marked (peer_run config ws s)
  unfolding peer_run peer_tick
  run-Marked [] s u h = h
  run-Marked (w ∷ ws) s u h =
      run-Marked ws (peer_tick config w s) u.1 (observe_peers-Marked w w.peers s u.0 h)

  -- Over any ticks in which no probe of a peer goes through, Pulsar is moved away from it with success
  -- once at most, whatever the settings, the leadership and the other peers do, and however often a
  -- submission was refused before.
  pub migrations-le-one :
      (ws : List World)
      → All StaysUnreachable ws
      → migrations n (peer_run config ws no_misses).alerts ≤ 1
  migrations-le-one ws u = ground (arith, run-Marked ws no_misses u start)
    where
      start : Marked no_misses
      start = unfold member in refl
