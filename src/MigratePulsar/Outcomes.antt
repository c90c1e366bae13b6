-- ===== src/MigratePulsar/Outcomes.antt =====
-- daemon/workers/migrate_pulsar.py: what a migration that returns has seen, and what one that is refused
-- has not done.
use milvus_onprem.Base.{
  subst, Text, str, Dict, true, false, not, Option, none, some, List, [], ◌∷◌, ◌≡◌, ◌⊎◌, inl, inr,
  refl, arith, Bool-cases, same, same_iff, if◌then◌else◌, Result, ok, raise_if, runtime_error,
  value_error, or_raise, bind-ok,
}
use milvus_onprem.Host.{Host, Response}
use milvus_onprem.Handlers.Dispatch.{daemon_url}
use milvus_onprem.Topology.{topology_prefix, Info, ip_of, has_ip, decode_entries}
use milvus_onprem.MigratePulsar.Rounds.{
  preflight_peers_reachable, sync_all, fetch_pulsar_hosts, reported_host, mismatches, differs,
}
use milvus_onprem.MigratePulsar.Migration.{
  MigrateContext, sequence, passes_over, verified_peers, current_pulsar_host, post_verify,
  apply_and_verify, may_proceed, proceed, migrate, target_of, migrate_unless_there, migrate_among,
  check_migration, read_and_migrate, run_migrate_pulsar,
}

-- The results in which every peer with an address reports the host.
unfoldable pub confirmed : Text → Dict Info → List (Text × Option Text)
confirmed expected [] = []
confirmed expected ((name, info) ∷ peers) =
    let rest = confirmed expected peers in
    if has_ip info then (name, some expected) ∷ rest else rest

agrees : (expected : Text) (got : Option Text) → differs expected got ≡ false → got ≡ some expected
agrees expected none h = absurd (ground (arith, h))
agrees expected (some t) h = ground (arith, h, same_iff t expected)

module _ (host : Host) (ctx : MigrateContext) where
  open host.etcd use {State}

  abbrev fetched : Dict Info → State → List (Text × Option Text)
  fetched peers s = (fetch_pulsar_hosts host ctx.config peers s).0

  abbrev asked : Info → State → Option Response × State
  asked info s =
      host.http_get (daemon_url ctx.config (ip_of info) (str "/admin/get-pulsar-host"))
        ctx.config.cluster_token s

  mismatches-none :
      (expected : Text) (peers : Dict Info) (s : State)
      → mismatches expected (fetched peers s) ≡ []
      → fetched peers s ≡ confirmed expected peers
  unfolding fetch_pulsar_hosts confirmed mismatches
  mismatches-none expected [] s h = refl
  mismatches-none expected ((name, info) ∷ peers) s h = elim (Bool-cases (has_ip info)) [
    | inl e ↦
        let reply : Option Response × State = asked info s in
        ground (
          arith,
          e,
          h,
          agrees expected (reported_host reply.0),
          mismatches-none expected peers reply.1,
        )
    | inr e ↦ ground (arith, e, h, mismatches-none expected peers s)
  ]

  post_verify-ok :
      (to_node : Text) (peers : Dict Info) (s : State)
      → (post_verify host ctx to_node peers s).0 ≡ ok tt
      → fetched peers s ≡ confirmed to_node peers
  post_verify-ok to_node peers s h =
      mismatches-none to_node peers s (none_left (mismatches to_node (fetched peers s)) refl)
    where
      none_left :
          (ms : List Text)
          → mismatches to_node (fetched peers s) ≡ ms
          → mismatches to_node (fetched peers s) ≡ []
      none_left [] e = e
      none_left (m ∷ ms) e = absurd (unfold post_verify in ground (arith, h, e))

  abbrev pub preflight : Dict Info → State → List Text × State
  preflight peers = preflight_peers_reachable host ctx.config peers

  -- The state in which the peers have been told, and those that are asked after.
  abbrev told : Text → Text → Dict Info → State → State
  told to_node target_ip peers s =
      (sync_all host ctx.config to_node
        (sequence to_node target_ip (current_pulsar_host host ctx) peers
          (passes_over host ctx (preflight peers s).0))
        (preflight peers s).1).1

  abbrev pub Confirmed : Text → Text → Dict Info → State → Type 0
  Confirmed to_node target_ip peers s =
      let asked_peers =
        verified_peers host ctx peers (passes_over host ctx (preflight peers s).0) in
      fetched asked_peers (told to_node target_ip peers s) ≡ confirmed to_node asked_peers

  migrate-ok :
      (to_node target_ip : Text) (peers : Dict Info) (s : State)
      → (migrate host ctx to_node target_ip peers s).0 ≡ ok tt
      → Confirmed to_node target_ip peers s
  unfolding migrate proceed apply_and_verify
  migrate-ok to_node target_ip peers s h =
      let u : List Text = (preflight peers s).0 in
      let (v, (g, k)) =
        bind-ok (raise_if (not (may_proceed host ctx u)) runtime_error)
          (λ _. apply_and_verify host ctx to_node target_ip peers (passes_over host ctx u))
          (preflight peers s).1 h in
      let (w, (m, n)) =
        bind-ok
          (sync_all host ctx.config to_node (
            sequence to_node target_ip (current_pulsar_host host ctx) peers
              (passes_over host ctx u)))
          (λ _.
            post_verify host ctx to_node (verified_peers host ctx peers (passes_over host ctx u)))
          (preflight peers s).1 k in
      post_verify-ok to_node _ _ n

  abbrev pub scanned : State → Result (Dict Text) × State
  scanned = host.etcd.get_prefix topology_prefix

  -- A migration has come to its end with the peers of the topology that it has read: the target has an
  -- address, and it is the Pulsar host already, or the peers confirm it.
  abbrev pub Migrated : Text → State → Type 0
  Migrated to_node s =
      (raw : Dict Text) × (((host.etcd.get_prefix topology_prefix s).0 ≡ ok raw)
        × ((target_ip : Text) × ((target_of host ctx to_node (decode_entries ctx.loads raw)
                ≡ some target_ip)
              × ((same (current_pulsar_host host ctx) to_node ≡ true)
                  ⊎ Confirmed to_node target_ip (decode_entries ctx.loads raw)
                      (host.etcd.get_prefix topology_prefix s).1))))

  unless_there-else :
      (to_node target_ip : Text) (peers : Dict Info) (s : State)
      → same (current_pulsar_host host ctx) to_node ≡ false
      → (migrate_unless_there host ctx to_node target_ip peers s).0 ≡ ok tt
      → (migrate host ctx to_node target_ip peers s).0 ≡ ok tt
  unfolding migrate_unless_there
  unless_there-else to_node target_ip peers s e k = ground (arith, e, k)

  unless_there-ok :
      (to_node target_ip : Text) (peers : Dict Info) (s : State)
      → (migrate_unless_there host ctx to_node target_ip peers s).0 ≡ ok tt
      → (same (current_pulsar_host host ctx) to_node ≡ true) ⊎ Confirmed to_node target_ip peers s
  unless_there-ok to_node target_ip peers s h =
      elim (Bool-cases (same (current_pulsar_host host ctx) to_node)) [
        | inl e ↦ inl e
        | inr e ↦
            inr (
              migrate-ok to_node target_ip peers s
                (unless_there-else to_node target_ip peers s e h))
      ]

  pub or_raise-state : (o : Option Text) (s : State) → (or_raise {S = State} o value_error s).1 ≡ s
  or_raise-state none s = refl
  or_raise-state (some x) s = refl

  found-ok :
      (o : Option Text) (s : State) (ip : Text)
      → (or_raise {S = State} o value_error s).0 ≡ ok ip
      → o ≡ some ip
  found-ok none s ip h = absurd (ground (arith, h))
  found-ok (some x) s ip h = ground (arith, h)

  pub checked : (to_node : Text) (s : State) → (check_migration host ctx to_node s).1 ≡ s
  unfolding check_migration
  checked to_node s = ground arith

  -- A migration that returns has read the topology, in which the target has an address; and either the
  -- target was the Pulsar host already, or after the sweep each peer of that topology with an address,
  -- but for an old host that was unreachable and may be passed over, has reported the target as its
  -- Pulsar host.
  pub run_migrate_pulsar-Migrated :
      (to_node : Text) (s : State)
      → (run_migrate_pulsar host ctx to_node s).0 ≡ ok tt
      → Migrated to_node s
  unfolding run_migrate_pulsar read_and_migrate migrate_among
  run_migrate_pulsar-Migrated to_node s h =
      let (a, (e, f)) =
        bind-ok (check_migration host ctx to_node) (λ _. read_and_migrate host ctx to_node) s h in
      let (raw, (g, k)) =
        bind-ok (host.etcd.get_prefix topology_prefix) (migrate_among host ctx to_node) s
          (subst (λ t. (read_and_migrate host ctx to_node t).0 ≡ ok tt) (checked to_node s) f) in
      let peers : Dict Info = decode_entries ctx.loads raw in
      let (ip, (m, n)) =
        bind-ok (or_raise (target_of host ctx to_node peers) value_error)
          (λ ip. migrate_unless_there host ctx to_node ip peers) (scanned s).1 k in
      let found : target_of host ctx to_node peers ≡ some ip = found-ok _ (scanned s).1 ip m in
      (
        raw,
        (
          g,
          (
            ip,
            (
              found,
              unless_there-ok to_node ip peers (scanned s).1 (
                  subst (λ t. (migrate_unless_there host ctx to_node ip peers t).0 ≡ ok tt)
                    (or_raise-state (target_of host ctx to_node peers) (scanned s).1) n),
            ),
          ),
        ),
      )
