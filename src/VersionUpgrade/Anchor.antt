-- ===== src/VersionUpgrade/Anchor.antt =====
-- daemon/workers/version_upgrade.py: the version anchor is written only after a whole rollout.
use milvus_onprem.Base.{
  strip, ℕ, zero, suc, Text, str, Dict, Bool, List, [], ◌∷◌, ◌≡◌, ◌≢◌, ◌⊎◌, inl, inr, ap, ◌∙◌,
  arith, Bool-cases, same, Exec, Result-cases, ok, value_error, pure, ◌>>◌, bind-of, bind-raised,
  err, sym, subst, Error, ◌>>=◌, Result,
}
use milvus_onprem.Host.{Host, call}
use milvus_onprem.Host.Preserving.{
  Preserves, PreservesCall, cond-Preserves, or_raise-Preserves, bind-Preserves,
}
use milvus_onprem.Host.Shell.{in_repo}
use milvus_onprem.Config.{DaemonConfig}
use milvus_onprem.Topology.{Info}
use milvus_onprem.VersionUpgrade.Local.{
  printed_int, read_kv, must_run, wait_reachable, wait_milvus, pull_and_recreate, recreate_milvus,
  retag_cmd, upgrade_self, or_default, milvus_services_of, health_rounds,
}
use milvus_onprem.VersionUpgrade.Rollout.{
  cluster_version_key, upgrade_order, upgrade_remote, upgrade_one, upgrade_all, refresh_anchor,
  roll_out, check_upgrade, run_version_upgrade,
}

module _ (host : Host) (config : DaemonConfig) (P : host.etcd.State → Type 0)
    (runs : (c : Text) → PreservesCall P (host.run c))
    (posts : (u t : Text) (b : List (Text × Text)) → PreservesCall P (host.http_post u t b))
    (sleeps : (n : ℕ) (s : host.etcd.State) → P s → P (host.sleep n s)) where
  open host.etcd use {State}

  must_run-Preserves : (cmd : Text) → Preserves P (must_run host cmd)
  unfolding must_run
  must_run-Preserves cmd s h = runs cmd s h

  wait-Preserves : (port : Text) (rounds : ℕ) → Preserves P (wait_reachable host port rounds)
  unfolding wait_reachable
  wait-Preserves port zero s h = h
  wait-Preserves port (suc rounds) s h =
      cond-Preserves P _ (pure tt)
        (call (λ t. (tt, host.sleep 3000 t)) >> wait_reachable host port rounds) (λ t k. k)
        (λ t k. wait-Preserves port rounds _ (sleeps 3000 t k)) _ (runs _ s h)

  wait_milvus-Preserves : Preserves P (wait_milvus host)
  unfolding wait_milvus
  wait_milvus-Preserves s h =
      or_raise-Preserves P
        (printed_int (strip (or_default (read_kv host (str "MILVUS_PORT") s) (str "19530"))))
        value_error (λ port. wait_reachable host port health_rounds)
        (λ port. wait-Preserves port health_rounds) s h

  pull-Preserves :
      (name : Text) (services : List Text) → Preserves P (pull_and_recreate host name services)
  unfolding pull_and_recreate
  pull-Preserves name services s h = must_run-Preserves _ _ (runs _ s h)

  recreate-Preserves : Preserves P (recreate_milvus host)
  unfolding recreate_milvus
  recreate-Preserves s h =
      pull-Preserves _
        (milvus_services_of (read_kv host (str "MILVUS_IMAGE_TAG") s)
          (or_default (read_kv host (str "MODE") s) (str "standalone")))
        s h

  upgrade_self-Preserves : (target : Text) → Preserves P (upgrade_self host target)
  unfolding upgrade_self
  upgrade_self-Preserves target =
      bind-Preserves P (must_run host (retag_cmd target))
        (λ _.
          must_run host (in_repo (str "./milvus-onprem render"))
          >> (recreate_milvus host >> wait_milvus host))
        (must_run-Preserves _)
        (λ _.
          bind-Preserves P (must_run host (in_repo (str "./milvus-onprem render")))
            (λ _. recreate_milvus host >> wait_milvus host) (must_run-Preserves _)
            (λ _.
              bind-Preserves P (recreate_milvus host) (λ _. wait_milvus host) recreate-Preserves
                (λ _. wait_milvus-Preserves)))

  module _ (peers : Dict Info) (is_leader : Bool) where
    upgrade_one-Preserves :
        (target : Text) (p : Text × Text)
        → Preserves P (upgrade_one host config peers is_leader target p)
    upgrade_one-Preserves target (name, ip) s h = elim (Bool-cases (same name config.node_name)) [
      | inl e ↦ unfold upgrade_one in rw e (upgrade_self-Preserves target s h)
      | inr e ↦ unfold upgrade_one in rw e (remote s h)
    ]
      where
        remote : Preserves P (upgrade_remote host config peers is_leader target ip)
        remote t k = unfold upgrade_remote in posts _ _ _ t k

    upgrade_all-Preserves :
        (target : Text) (order : List (Text × Text))
        → Preserves P (upgrade_all host config peers is_leader target order)
    unfolding upgrade_all
    upgrade_all-Preserves target [] s h = h
    upgrade_all-Preserves target (p ∷ ps) s h =
        bind-Preserves P (upgrade_one host config peers is_leader target p)
          (λ _. upgrade_all host config peers is_leader target ps) (upgrade_one-Preserves target p)
          (λ _. upgrade_all-Preserves target ps) s h

  module _ (peers : Dict Info) (is_leader : Bool) where
    abbrev pub upgrades : Text → Exec State (Unit {0})
    upgrades target =
        upgrade_all host config peers is_leader target (upgrade_order config.node_name peers)

    check_upgrade-state :
        (target : Text) (s : State) → (check_upgrade host config peers is_leader target s).1 ≡ s
    unfolding check_upgrade
    check_upgrade-state target s = ground arith

    refreshed :
        (target : Text) (s : State)
        → refresh_anchor host config peers is_leader target s
          ≡ (ok tt, (host.etcd.put cluster_version_key target s).1)
    unfolding refresh_anchor
    refreshed target s = elim (Result-cases (host.etcd.put cluster_version_key target s).0) [
      | inl (u, e) ↦ ground (arith, e)
      | inr (x, e) ↦ ground (arith, e)
    ]

    -- How an upgrade that began in a state may end: it does not return, or all of its peers have gone
    -- through, and then it has put the anchor.
    abbrev pub Anchored : Text → State → Result (Unit {0}) × State → Type 0
    Anchored target s p =
        ((p.0 ≢ ok tt) × P p.1)
        ⊎ (((upgrades target s).0 ≡ ok tt)
            × (P (upgrades target s).1
                × (p
                    ≡ (ok tt, (host.etcd.put cluster_version_key target (upgrades target s).1).1))))

    stopped-Anchored :
        (target : Text) (s : State) (m : Exec State (Unit {0}))
        (k : Unit {0} → Exec State (Unit {0})) (x : Error) (t : State)
        → (m t).0 ≡ err x
        → P (m t).1
        → Anchored target s ((m >>= k) t)
    stopped-Anchored target s m k x t e h =
        subst (Anchored target s) (sym (bind-raised m k t (m t).1 x (ap (λ r. (r, (m t).1)) e)))
          (inl (fails x, h))
      where
        fails : (y : Error) → ◌≢◌ {A = Result (Unit {0})} (err y) (ok tt)
        fails y q = absurd (ground (arith, q))

    rolled-Anchored :
        (target : Text) (s : State)
        → P s
        → Anchored target s (roll_out host config peers is_leader target s)
    unfolding roll_out
    rolled-Anchored target s h = elim (Result-cases (upgrades target s).0) [
      | inr (x, e) ↦
          stopped-Anchored target s (upgrades target)
            (λ _. refresh_anchor host config peers is_leader target) x s e through
      | inl (u, e) ↦ inr (
        e,
        (
          through,
          bind-of (upgrades target) (λ _. refresh_anchor host config peers is_leader target) s u e
              ∙ refreshed target (upgrades target s).1,
        ),
      )
    ]
      where
        through : P (upgrades target s).1
        through =
            upgrade_all-Preserves peers is_leader target (upgrade_order config.node_name peers) s h

    -- An upgrade either does not return, and then it has preserved whatever commands, requests and sleeps
    -- preserve; or the upgrades of all its peers, in their order, have succeeded and have preserved this
    -- too, and the result is that of putting the version anchor in the state that they leave.
    pub run_version_upgrade-Anchored :
        (target : Text) (s : State)
        → P s
        → Anchored target s (run_version_upgrade host config peers is_leader target s)
    unfolding run_version_upgrade
    run_version_upgrade-Anchored target s h = elim (Result-cases (checks s).0) [
      | inr (x, e) ↦
          stopped-Anchored target s checks (λ _. roll_out host config peers is_leader target) x s e
            (subst P (sym (check_upgrade-state target s)) h)
      | inl (u, e) ↦
          subst (Anchored target s)
            (sym (
              bind-of checks (λ _. roll_out host config peers is_leader target) s u e
              ∙ ap (roll_out host config peers is_leader target) (check_upgrade-state target s)))
            (rolled-Anchored target s h)
    ]
      where
        checks : Exec State (Unit {0})
        checks = check_upgrade host config peers is_leader target
