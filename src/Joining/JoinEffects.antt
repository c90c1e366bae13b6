-- ===== src/Joining/JoinEffects.antt =====
-- daemon/joining.py: the effects of `_do_join` on etcd, for an address that is known and for a new one.
use milvus_onprem.Base.{
  Text, Dict, erase, keys, true, Option, none, some, [], ◌≡◌, ◌≢◌, refl, ap, sym, ◌∙◌, subst, ◌⊎◌,
  inl, inr, arith, Bool-cases, Option-cases, same, same_iff, same_refl, Result, ok, err, Error,
  join_error,
}
use milvus_onprem.Etcd.{Etcd, EtcdLaws}
use milvus_onprem.Topology.{
  topology_prefix, topology_key, Info, find_node_name_by_ip, decode_entries,
}
use milvus_onprem.Joining.Names.{allocate_next_name}
use milvus_onprem.Joining.Env.{read_cluster_env}
use milvus_onprem.Joining.Join.{
  JoinContext, wait_cluster_healthy, cluster_env_for, new_info, admit, join_parsed, do_join,
}
use milvus_onprem.Joining.JoinSafety.{
  IsRegistered, wait-find, wait-members, cluster_env_for-state, entry_value, after_put, admit-other,
  registered_found,
}

Result-cases : {A : Type 0} (r : Result A) → ((a : A) × (r ≡ ok a)) ⊎ ((e : Error) × (r ≡ err e))
Result-cases (ok a) = inl (a, refl)
Result-cases (err e) = inr (e, refl)

module _ (etcd : Etcd) (ctx : JoinContext) where
  open etcd use {State}

  -- The states in which the topology is read, and after that.
  abbrev pub at_scan : State → State
  at_scan s = (wait_cluster_healthy etcd ctx ctx.rounds s).1

  abbrev pub scanned : State → State
  scanned s = (etcd.get_prefix topology_prefix (at_scan s)).1

  -- A join either raises before it has read the topology, or goes on with what it read.
  do_join-steps :
      (ip : Text) (host : Option Text) (s : State)
      → ((e : Error) × (t : State) × (do_join etcd ctx ip host s ≡ (err e, t))
          × ((t ≡ at_scan s) ⊎ (t ≡ scanned s)))
        ⊎ ((d : Dict Text) × ((etcd.get_prefix topology_prefix (at_scan s)).0 ≡ ok d)
            × (do_join etcd ctx ip host s
                ≡ join_parsed etcd ctx (decode_entries ctx.loads d) ip host (scanned s)))
  unfolding do_join
  do_join-steps ip host s = elim (Result-cases (wait_cluster_healthy etcd ctx ctx.rounds s).0) [
    | inr (e, f) ↦ inl (e, at_scan s, ground (arith, f), inl refl)
    | inl (u, g) ↦ elim (Result-cases (etcd.get_prefix topology_prefix (at_scan s)).0) [
      | inr (e, f) ↦ inl (e, scanned s, ground (arith, f, g), inr refl)
      | inl (d, f) ↦ inr (d, f, ground (arith, f, g))
    ]
  ]

  join_parsed-known :
      (parsed : Dict Info) (ip m : Text) (host : Option Text) (s : State)
      → find_node_name_by_ip parsed ip ≡ some m
      → join_parsed etcd ctx parsed ip host s ≡ cluster_env_for etcd ctx (erase m parsed) m ip s
  unfolding join_parsed
  join_parsed-known parsed ip m host s h = ground (arith, h)

  join_parsed-new :
      (parsed : Dict Info) (ip : Text) (host : Option Text) (s : State)
      → find_node_name_by_ip parsed ip ≡ none
      → join_parsed etcd ctx parsed ip host s
        ≡ admit etcd ctx parsed (allocate_next_name (keys parsed)) ip host s
  unfolding join_parsed
  join_parsed-new parsed ip host s h = ground (arith, h)

module _ (etcd : Etcd) (laws : EtcdLaws etcd) (ctx : JoinContext) where
  open etcd use {State, find, members}

  scanned-find : (s : State) (j : Text) → find (scanned etcd ctx s) j ≡ find s j
  scanned-find s j =
      laws.get_prefix_keeps topology_prefix j (at_scan etcd ctx s)
      ∙ wait-find etcd laws ctx ctx.rounds j s

  scanned-members : (s : State) → members (scanned etcd ctx s) ≡ members s
  scanned-members s =
      laws.get_prefix_members topology_prefix (at_scan etcd ctx s)
      ∙ wait-members etcd laws ctx ctx.rounds s

  -- A join of an address that the topology has already changes no key and no member of etcd, whether
  -- it returns or raises.
  pub registered-do_join :
      (ip : Text) (host : Option Text) (s : State)
      → IsRegistered etcd ctx.loads ip s
      → ((j : Text) → find (do_join etcd ctx ip host s).1 j ≡ find s j)
        × (members (do_join etcd ctx ip host s).1 ≡ members s)
  registered-do_join ip host s reg = elim (do_join-steps etcd ctx ip host s) [
    | inl (e, t, f, inl g) ↦ (
      (λ j. ap (λ r. find r.1 j) f ∙ ap (λ u. find u j) g ∙ wait-find etcd laws ctx ctx.rounds j s),
      ap (λ r. members r.1) f ∙ ap members g ∙ wait-members etcd laws ctx ctx.rounds s,
    )
    | inl (e, t, f, inr g) ↦ (
      (λ j. ap (λ r. find r.1 j) f ∙ ap (λ u. find u j) g ∙ scanned-find s j),
      ap (λ r. members r.1) f ∙ ap members g ∙ scanned-members s,
    )
    | inr (d, g, f) ↦
        let (m, k) = registered_found etcd laws ctx ip (at_scan etcd ctx s) g (record {
          name = reg.name;
          info = reg.info;
          value = reg.value;
          found = wait-find etcd laws ctx ctx.rounds (topology_key reg.name) s ∙ reg.found;
          decodes = reg.decodes;
          address = reg.address;
        }) in
        let same_state : (do_join etcd ctx ip host s).1 ≡ scanned etcd ctx s =
          ap (λ r. r.1) f
          ∙ ap (λ r. r.1)
              (join_parsed-known etcd ctx (decode_entries ctx.loads d) ip m host
                (scanned etcd ctx s) k)
          ∙ cluster_env_for-state etcd laws ctx (erase m (decode_entries ctx.loads d)) m ip
              (scanned etcd ctx s) in
        (
          (λ j. ap (λ u. find u j) same_state ∙ scanned-find s j),
          ap members same_state ∙ scanned-members s,
        )
  ]

  one_key :
      (ip : Text) (host : Option Text) (s : State)
      → (name : Text) × ((j : Text)
          → j ≢ topology_key name
          → find (do_join etcd ctx ip host s).1 j ≡ find s j)
  one_key ip host s = elim (do_join-steps etcd ctx ip host s) [
    | inl (e, t, f, inl g) ↦ (
      [],
      λ j ne.
          ap (λ r. find r.1 j) f ∙ ap (λ u. find u j) g ∙ wait-find etcd laws ctx ctx.rounds j s,
    )
    | inl (e, t, f, inr g) ↦
        ([], λ j ne. ap (λ r. find r.1 j) f ∙ ap (λ u. find u j) g ∙ scanned-find s j)
    | inr (d, g, f) ↦ parsed_key (decode_entries ctx.loads d) f
  ]
    where
      parsed_key :
          (parsed : Dict Info)
          → do_join etcd ctx ip host s ≡ join_parsed etcd ctx parsed ip host (scanned etcd ctx s)
          → (name : Text) × ((j : Text)
              → j ≢ topology_key name
              → find (do_join etcd ctx ip host s).1 j ≡ find s j)
      parsed_key parsed f = elim (Option-cases (find_node_name_by_ip parsed ip)) [
        | inl new ↦ (
          allocate_next_name (keys parsed),
          λ j ne.
              ap (λ r. find r.1 j)
                (f ∙ join_parsed-new etcd ctx parsed ip host (scanned etcd ctx s) new)
              ∙ admit-other etcd laws ctx parsed (allocate_next_name (keys parsed)) ip host j
                  (scanned etcd ctx s) ne
              ∙ scanned-find s j,
        )
        | inr (m, known) ↦ (
          m,
          λ j ne.
              ap (λ r. find r.1 j)
                (f ∙ join_parsed-known etcd ctx parsed ip m host (scanned etcd ctx s) known)
              ∙ ap (λ u. find u j)
                  (cluster_env_for-state etcd laws ctx (erase m parsed) m ip (scanned etcd ctx s))
              ∙ scanned-find s j,
        )
      ]

  -- Whatever happens, a join changes one key of etcd at most, and it is the topology key of a name.
  pub do_join-one_key :
      (ip : Text) (host : Option Text) (s : State)
      → (name : Text) × ((j : Text)
          → (j ≡ topology_key name) ⊎ (find (do_join etcd ctx ip host s).1 j ≡ find s j))
  do_join-one_key ip host s =
      let (name, others) = one_key ip host s in
      (
        name,
        λ j. elim (Bool-cases (same j (topology_key name))) [
          | inl e ↦ inl ((same_iff j (topology_key name)).0 e)
          | inr e ↦ inr (others j (λ h. cc (e, (same_iff j (topology_key name)).1 h)))
        ],
      )

module _ (etcd : Etcd) (laws : EtcdLaws etcd) (ctx : JoinContext) where
  open etcd use {State, members}

  admit-unreadable :
      (parsed : Dict Info) (name ip : Text) (host : Option Text) (s : State)
      → ctx.env_file ≡ none
      → (etcd.put_if_absent (topology_key name) (entry_value etcd laws ctx name ip host) s).0
        ≡ ok true
      → admit etcd ctx parsed name ip host s
        ≡ (err join_error, after_put etcd laws ctx name ip host s)
  unfolding admit cluster_env_for read_cluster_env
  admit-unreadable parsed name ip host s no_file written = ground (arith, no_file, written)

  written-IsRegistered :
      (name ip : Text) (host : Option Text) (s : State)
      → ctx.loads (ctx.dumps name (new_info etcd ctx ip host)) ≡ some (new_info etcd ctx ip host)
      → (etcd.put_if_absent (topology_key name) (entry_value etcd laws ctx name ip host) s).0
        ≡ ok true
      → IsRegistered etcd ctx.loads ip (after_put etcd laws ctx name ip host s)
  written-IsRegistered name ip host s readable written = record {
    name = name;
    info = new_info etcd ctx ip host;
    value = entry_value etcd laws ctx name ip host;
    found =
        (laws.put_if_absent_true (topology_key name) (entry_value etcd laws ctx name ip host) s
          written).1;
    decodes = readable;
    address = same_refl ip;
  }

  -- The new entry's JSON reads back, etcd answers, the address is new, its topology entry is written, and the leader cannot read its
  -- cluster.env. Then the join raises `JoinError` and leaves the entry behind, so that the address
  -- counts as known: a later join of it, with a cluster.env that can be read too, leaves etcd's
  -- members as they are, and the peer is never added.
  pub unreadable_env_strands :
      (ip : Text) (host : Option Text) (s : State) {d : Dict Text} (again : JoinContext)
      (later : Option Text)
      → ((name : Text)
          → ctx.loads (ctx.dumps name (new_info etcd ctx ip host))
            ≡ some (new_info etcd ctx ip host))
      → again.loads ≡ ctx.loads
      → ctx.env_file ≡ none
      → (wait_cluster_healthy etcd ctx ctx.rounds s).0 ≡ ok tt
      → (etcd.get_prefix topology_prefix (at_scan etcd ctx s)).0 ≡ ok d
      → find_node_name_by_ip (decode_entries ctx.loads d) ip ≡ none
      → (etcd.put_if_absent
          (topology_key (allocate_next_name (keys (decode_entries ctx.loads d))))
          (entry_value etcd laws ctx
            (allocate_next_name (keys (decode_entries ctx.loads d)))
            ip
            host)
          (scanned etcd ctx s)).0
        ≡ ok true
      → ((do_join etcd ctx ip host s).0 ≡ err join_error)
        × (members (do_join etcd again ip later (do_join etcd ctx ip host s).1).1
            ≡ members (do_join etcd ctx ip host s).1)
  unreadable_env_strands ip host s {d} again later readable eq no_file healthy read new written =
      let parsed = decode_entries ctx.loads d in
      let name = allocate_next_name (keys parsed) in
      let t = after_put etcd laws ctx name ip host (scanned etcd ctx s) in
      let made : do_join etcd ctx ip host s ≡ (err join_error, t) =
        do_join-ok healthy read
        ∙ join_parsed-new etcd ctx parsed ip host (scanned etcd ctx s) new
        ∙ admit-unreadable parsed name ip host (scanned etcd ctx s) no_file written in
      (
        ap (λ r. r.0) made,
        (registered-do_join etcd laws again ip later (do_join etcd ctx ip host s).1 (
            subst (λ l. IsRegistered etcd l ip (do_join etcd ctx ip host s).1) (sym eq)
              (subst (λ u. IsRegistered etcd ctx.loads ip u) (sym (ap (λ r. r.1) made))
                (written-IsRegistered name ip host (scanned etcd ctx s) (readable name)
                  written)))).1,
      )
    where
      do_join-ok :
          (wait_cluster_healthy etcd ctx ctx.rounds s).0 ≡ ok tt
          → (etcd.get_prefix topology_prefix (at_scan etcd ctx s)).0 ≡ ok d
          → do_join etcd ctx ip host s
            ≡ join_parsed etcd ctx (decode_entries ctx.loads d) ip host (scanned etcd ctx s)
      do_join-ok h r = unfold do_join in ground (arith, h, r)
