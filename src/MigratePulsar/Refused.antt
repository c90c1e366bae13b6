-- ===== src/MigratePulsar/Refused.antt =====
-- daemon/workers/migrate_pulsar.py: a migration that is refused has told nobody.
use milvus_onprem.Base.{
  subst, Text, str, Dict, true, [], ◌∷◌, ◌≡◌, inl, inr, refl, sym, arith, Bool-cases, same, ok,
  value_error, or_raise, bind-ind, bind-ok, bind-raised, bind-returned, Result, Result-cases, Error,
  err, ◌≢◌, ◌⊎◌, false, ap, ◌∙◌, runtime_error,
}
use milvus_onprem.Host.{Host}
use milvus_onprem.Handlers.Dispatch.{daemon_url}
use milvus_onprem.Topology.{topology_prefix, Info, ip_of, has_ip, decode_entries}
use milvus_onprem.RemoveNode.Guards.{is_pulsar_deploy}
use milvus_onprem.MigratePulsar.Rounds.{preflight_peers_reachable}
use milvus_onprem.MigratePulsar.Migration.{
  MigrateContext, current_pulsar_host, may_proceed, proceed, migrate, target_of,
  migrate_unless_there, migrate_among, check_migration, read_and_migrate, run_migrate_pulsar,
}
use milvus_onprem.MigratePulsar.Outcomes.{preflight, checked, scanned, or_raise-state}

module _ (host : Host) (ctx : MigrateContext) (P : host.etcd.State → Type 0)
    (asks : (u t : Text) (s : host.etcd.State) → P s → P (host.http_get u t s).1)
    (scans : (p : Text) (s : host.etcd.State) → P s → P (host.etcd.get_prefix p s).1) where
  open host.etcd use {State}

  preflight-skip :
      (name : Text) (info : Info) (peers : Dict Info) (s : State)
      → has_ip info ≡ false
      → preflight host ctx ((name, info) ∷ peers) s ≡ preflight host ctx peers s
  unfolding preflight_peers_reachable
  preflight-skip name info peers s e = ground (arith, e)

  preflight-ask :
      (name : Text) (info : Info) (peers : Dict Info) (s : State)
      → has_ip info ≡ true
      → (preflight host ctx ((name, info) ∷ peers) s).1
        ≡ (preflight host ctx peers
            (host.http_get
              (daemon_url ctx.config (ip_of info) (str "/health"))
              ctx.config.cluster_token
              s).1).1
  unfolding preflight_peers_reachable
  preflight-ask name info peers s e = ground (arith, e)

  preflight-Preserves : (peers : Dict Info) (s : State) → P s → P (preflight host ctx peers s).1
  preflight-Preserves [] s h = unfold preflight_peers_reachable in h
  preflight-Preserves ((name, info) ∷ peers) s h = elim (Bool-cases (has_ip info)) [
    | inl e ↦ rw (preflight-ask name info peers s e) (preflight-Preserves peers _ (asks _ _ s h))
    | inr e ↦ rw (preflight-skip name info peers s e) (preflight-Preserves peers s h)
  ]

  stopped :
      (to_node target_ip : Text) (peers : Dict Info) (s : State)
      → may_proceed host ctx (preflight host ctx peers s).0 ≡ false
      → migrate host ctx to_node target_ip peers s
        ≡ (err runtime_error, (preflight host ctx peers s).1)
  unfolding migrate proceed
  stopped to_node target_ip peers s e = rw e refl

  already_there :
      (to_node target_ip : Text) (peers : Dict Info) (s : State)
      → same (current_pulsar_host host ctx) to_node ≡ true
      → migrate_unless_there host ctx to_node target_ip peers s ≡ (ok tt, s)
  unfolding migrate_unless_there
  already_there to_node target_ip peers s e = ground (arith, e)

  not_there :
      (to_node target_ip : Text) (peers : Dict Info) (s : State)
      → same (current_pulsar_host host ctx) to_node ≡ false
      → migrate_unless_there host ctx to_node target_ip peers s
        ≡ migrate host ctx to_node target_ip peers s
  unfolding migrate_unless_there
  not_there to_node target_ip peers s e = ground (arith, e)

  unless_there-Preserves :
      (to_node target_ip : Text) (peers : Dict Info) (s : State)
      → may_proceed host ctx (preflight host ctx peers s).0 ≡ false
      → P s
      → P (migrate_unless_there host ctx to_node target_ip peers s).1
  unless_there-Preserves to_node target_ip peers s e h =
      elim (Bool-cases (same (current_pulsar_host host ctx) to_node)) [
        | inl k ↦ rw (already_there to_node target_ip peers s k) h
        | inr k ↦
            rw (not_there to_node target_ip peers s k)
              (rw (stopped to_node target_ip peers s e) (preflight-Preserves peers s h))
      ]

  -- That the migration has not gone on, of how it has ended.
  abbrev pub Halted : Text → State → Result (Unit {0}) × State → Type 0
  Halted to_node s p =
      P p.1
      × ((p.0 ≢ ok tt)
          ⊎ ((same (current_pulsar_host host ctx) to_node ≡ true)
              × ((check_migration host ctx to_node s).0 ≡ ok tt)))

  fails : (x : Error) → ◌≢◌ {A = Result (Unit {0})} (err x) (ok tt)
  fails x q = absurd (ground (arith, q))

  -- The checks pass only for a name, in a deploy with Pulsar, on the leader.
  check_migration-ok :
      (to_node : Text) (s : State)
      → (check_migration host ctx to_node s).0 ≡ ok tt
      → (same to_node [] ≡ false)
        × ((is_pulsar_deploy ctx.env_files ≡ true) × (ctx.is_leader ≡ true))
  unfolding check_migration
  check_migration-ok to_node s h = (ground (arith, h), (ground (arith, h), ground (arith, h)))

  module _ (to_node : Text) (s : State)
      (unreachable : (raw : Dict Text)
        → (scanned host ctx s).0 ≡ ok raw
        → may_proceed host ctx
            (preflight host ctx (decode_entries ctx.loads raw) (scanned host ctx s).1).0
          ≡ false) where
    among-Preserves :
        (raw : Dict Text)
        → (scanned host ctx s).0 ≡ ok raw
        → P (scanned host ctx s).1
        → P (migrate_among host ctx to_node raw (scanned host ctx s).1).1
    unfolding migrate_among
    among-Preserves raw e here =
        let peers : Dict Info = decode_entries ctx.loads raw in
        let t : State = (scanned host ctx s).1 in
        let same_state : (or_raise (target_of host ctx to_node peers) value_error t).1 ≡ t =
          or_raise-state host ctx (target_of host ctx to_node peers) t in
        bind-ind P (or_raise (target_of host ctx to_node peers) value_error)
          (λ ip. migrate_unless_there host ctx to_node ip peers) t
          (λ ip f.
            subst (λ u. P (migrate_unless_there host ctx to_node ip peers u).1) (sym same_state)
              (unless_there-Preserves to_node ip peers t (unreachable raw e) here))
          (subst P (sym same_state) here)

    unless_there-ok :
        (target_ip : Text) (peers : Dict Info) (t : State)
        → may_proceed host ctx (preflight host ctx peers t).0 ≡ false
        → (migrate_unless_there host ctx to_node target_ip peers t).0 ≡ ok tt
        → same (current_pulsar_host host ctx) to_node ≡ true
    unless_there-ok target_ip peers t e h =
        elim (Bool-cases (same (current_pulsar_host host ctx) to_node)) [
          | inl k ↦ k
          | inr k ↦ absurd (
              fails runtime_error (
                ap (λ p. p.0) (sym (stopped to_node target_ip peers t e))
                ∙ ap (λ p. p.0) (sym (not_there to_node target_ip peers t k))
                ∙ h))
        ]

    read_and_migrate-ok :
        (read_and_migrate host ctx to_node s).0 ≡ ok tt
        → same (current_pulsar_host host ctx) to_node ≡ true
    unfolding read_and_migrate migrate_among
    read_and_migrate-ok h =
        let (raw, (e, k)) = bind-ok (scanned host ctx) (migrate_among host ctx to_node) s h in
        let peers : Dict Info = decode_entries ctx.loads raw in
        let t : State = (scanned host ctx s).1 in
        let (ip, (f, g)) =
          bind-ok (or_raise (target_of host ctx to_node peers) value_error)
            (λ x. migrate_unless_there host ctx to_node x peers) t k in
        unless_there-ok ip peers t (unreachable raw e) (
          subst (λ u. (migrate_unless_there host ctx to_node ip peers u).0 ≡ ok tt)
            (or_raise-state host ctx (target_of host ctx to_node peers) t) g)

    read_and_migrate-Preserves : P s → P (read_and_migrate host ctx to_node s).1
    unfolding read_and_migrate
    read_and_migrate-Preserves h =
        bind-ind P (scanned host ctx) (migrate_among host ctx to_node) s
          (λ raw e. among-Preserves raw e (scans topology_prefix s h)) (scans topology_prefix s h)

  -- Where no node is named, the deploy has no Pulsar, this daemon is not the leader, or the preflight of the
  -- topology that is read finds a peer unreachable that may not be, a migration preserves whatever scans
  -- of etcd and GET requests preserve: it tells no peer a new host. And it does not return, unless the
  -- checks pass and the target is the Pulsar host already.
  pub run_migrate_pulsar-Halted :
      (to_node : Text) (s : State)
      → (same to_node [] ≡ true)
        ⊎ ((is_pulsar_deploy ctx.env_files ≡ false)
            ⊎ ((ctx.is_leader ≡ false)
                ⊎ ((raw : Dict Text)
                    → (scanned host ctx s).0 ≡ ok raw
                    → may_proceed host ctx
                        (preflight host ctx (decode_entries ctx.loads raw) (scanned host ctx s).1).0
                      ≡ false)))
      → P s
      → Halted to_node s (run_migrate_pulsar host ctx to_node s)
  unfolding run_migrate_pulsar
  run_migrate_pulsar-Halted to_node s refused h =
      elim (Result-cases (check_migration host ctx to_node s).0) [
        | inr (x, e) ↦
            subst (Halted to_node s)
              (sym (
                bind-raised (check_migration host ctx to_node)
                  (λ _. read_and_migrate host ctx to_node) s s x (ends s (err x) e)))
              (h, inl (fails x))
        | inl (u, e) ↦
            subst (Halted to_node s)
              (sym (
                bind-returned (check_migration host ctx to_node)
                  (λ _. read_and_migrate host ctx to_node) s s u (ends s (ok u) e)))
              (went e)
      ]
    where
      ends :
          (t : State) (r : Result (Unit {0}))
          → (check_migration host ctx to_node t).0 ≡ r
          → check_migration host ctx to_node t ≡ (r, t)
      ends t r e =
          let q : (check_migration host ctx to_node t).1 ≡ t = checked host ctx to_node t in
          cc (e, q)

      went :
          (check_migration host ctx to_node s).0 ≡ ok tt
          → Halted to_node s (read_and_migrate host ctx to_node s)
      went e =
          let passed = check_migration-ok to_node s e in
          elim refused [
            | inl a ↦ absurd (ground (arith, a, passed.0))
            | inr (inl a) ↦ absurd (ground (arith, a, passed.1.0))
            | inr (inr (inl a)) ↦ absurd (ground (arith, a, passed.1.1))
            | inr (inr (inr a)) ↦ (
              read_and_migrate-Preserves to_node s a h,
              (elim (Result-cases (read_and_migrate host ctx to_node s).0) [
                | inr (x, f) ↦ inl (subst (λ r. r ≢ ok tt) (sym f) (fails x))
                | inl (v, f) ↦ inr (read_and_migrate-ok to_node s a f, e)
              ]),
            )
          ]
