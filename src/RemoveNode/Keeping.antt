-- ===== src/RemoveNode/Keeping.antt =====
-- daemon/workers/remove_node.py: what the steps of a removal keep of etcd.
use milvus_onprem.Base.{
  ℕ, zero, suc, str, ◌++◌, decimal, ◌+◌, leb, Bool-cases, Dict, Text, Option, none, some, List, [],
  ◌∷◌, ◌≡◌, ◌≢◌, inl, inr, ◌∙◌, ok, pure, raise, runtime_error, ◌>>◌, starts_with, true, refl,
}
use milvus_onprem.Host.{Host, HostLaws}
use milvus_onprem.Host.Preserving.{Preserves, bind-Preserves, try_else-Preserves, wait_until-keeps}
use milvus_onprem.Etcd.{EtcdLaws}
use milvus_onprem.Config.{DaemonConfig}
use milvus_onprem.Topology.{topology_prefix, topology_key, decode_entries}
use milvus_onprem.RemoveNode.Decommission.{
  PoolState, Parsed, Preparation, skip_start, start, cancel_then_start,
}
use milvus_onprem.RemoveNode.Guards.{RemoveContext, find_member_id, find_etcd_member_id_by_peer_url}
use milvus_onprem.RemoveNode.Polling.{
  mc_alias, decommission_cmd, judge, read_state, issue_start, start_as, start_decommission,
  wait_decommissioned,
}
use milvus_onprem.RemoveNode.Draining.{
  Verdict-cases, poll, seen, poll-settled, poll-failing, poll-late, poll-again,
}
use milvus_onprem.RemoveNode.Settling.{
  settle_step, streak_step, surviving, settle_round, wait_minio_settled, streak_round,
  wait_milvus_proxy_settled,
}
use milvus_onprem.RemoveNode.Removal.{
  poll_rounds, remove_by_id, remove_member, settle_minio, settle_survivors, settle_proxies,
  after_delete, delete_entry, drain,
}

module _ (host : Host) (laws : HostLaws host) (elaws : EtcdLaws host.etcd) (ctx : RemoveContext)
    (config : DaemonConfig) (loads : Text → Parsed) (port : ℕ) (j : Text) (v : Option Text) where
  open host.etcd use {State}

  -- The key holds the value.
  abbrev Holds : State → Type 0
  Holds s = host.etcd.find s j ≡ v

  runs :
      (c : Text) (s : State)
      → starts_with (str "docker exec milvus-minio mc ") c ≡ true
      → Holds s
      → Holds (host.run c s).1
  runs c s mc h = laws.mc_keeps c j s mc ∙ h

  issue_start-Preserves : (ip : Text) → Preserves Holds (issue_start host ctx.env_files loads ip)
  unfolding issue_start decommission_cmd starts_with
  issue_start-Preserves ip s h = runs _ s refl h

  start_as-Preserves :
      (ip : Text) (p : Preparation) → Preserves Holds (start_as host ctx.env_files loads ip p)
  unfolding start_as decommission_cmd starts_with
  start_as-Preserves ip skip_start s h = h
  start_as-Preserves ip start s h = issue_start-Preserves ip s h
  start_as-Preserves ip cancel_then_start s h = issue_start-Preserves ip _ (runs _ s refl h)

  read_state-Preserves :
      (ip : Text) (s : State) → Holds s → Holds (read_state host ctx.env_files loads ip s).1
  unfolding read_state starts_with
  read_state-Preserves ip s h = runs _ s refl h

  start-Preserves : (ip : Text) → Preserves Holds (start_decommission host ctx.env_files loads ip)
  unfolding start_decommission mc_alias starts_with
  start-Preserves ip s h = start_as-Preserves ip _ _ (read_state-Preserves ip _ (runs _ s refl h))

  wait-Preserves :
      (ip : Text) (fuel e : ℕ) → Preserves Holds (poll host ctx.env_files loads ip fuel e)
  wait-Preserves ip zero e s h = unfold wait_decommissioned in h
  wait-Preserves ip (suc fuel) e s h =
      elim (Verdict-cases (judge (seen host ctx.env_files loads ip s))) [
        | inl u ↦ rw (poll-settled host ctx.env_files loads ip fuel e s u) read
        | inr (inl u) ↦ rw (poll-failing host ctx.env_files loads ip fuel e s u) read
        | inr (inr u) ↦ elim (Bool-cases (leb 1800 e)) [
          | inl l ↦ rw (poll-late host ctx.env_files loads ip fuel e s u l) read
          | inr l ↦
              rw (poll-again host ctx.env_files loads ip fuel e s u l)
                (wait-Preserves ip fuel (e + 5) _ (laws.sleep_keeps 5000 j _ ∙ read))
        ]
      ]
    where
      read : Holds (read_state host ctx.env_files loads ip s).1
      read = read_state-Preserves ip s h

  pub drain-Preserves : (ip : Text) → Preserves Holds (drain host ctx config loads port ip)
  unfolding drain
  drain-Preserves ip =
      bind-Preserves Holds (start_decommission host ctx.env_files loads ip)
        (λ _. poll host ctx.env_files loads ip poll_rounds 0) (start-Preserves ip)
        (λ _. wait-Preserves ip poll_rounds 0)

  settle_round-Preserves :
      (pairs : List (Text × Text)) (s : State)
      → Holds s
      → Holds (settle_round host config pairs s).1
  unfolding settle_round
  settle_round-Preserves [] s h = h
  settle_round-Preserves ((name, ip) ∷ pairs) s h =
      settle_round-Preserves pairs _ (laws.get_keeps _ _ j s ∙ h)

  wait_minio-Preserves :
      (pairs : List (Text × Text)) (s : State)
      → Holds s
      → Holds (wait_minio_settled host config pairs s).1
  unfolding wait_minio_settled
  wait_minio-Preserves pairs s h =
      wait_until-keeps host (List (Text × Text)) (host.time s + 180_000) 3000 Holds 61
        (settle_step host config) settle_round-Preserves (λ t k. laws.sleep_keeps 3000 j t ∙ k)
        pairs s h

  streak_round-Preserves :
      (streaks : Dict ℕ) (s : State) → Holds s → Holds (streak_round host config port streaks s).1
  unfolding streak_round
  streak_round-Preserves [] s h = h
  streak_round-Preserves ((ip, n) ∷ streaks) s h =
      streak_round-Preserves streaks _ (laws.probe_keeps _ _ j s ∙ h)

  wait_proxy-Preserves :
      (pairs : List (Text × Text)) (s : State)
      → Holds s
      → Holds (wait_milvus_proxy_settled host config port pairs s).1
  unfolding wait_milvus_proxy_settled
  wait_proxy-Preserves pairs s h =
      wait_until-keeps host (Dict ℕ) (host.time s + 60_000) 2000 Holds 31
        (streak_step host config port) streak_round-Preserves (λ t k. laws.sleep_keeps 2000 j t ∙ k)
        _ s h

  scan : (p : Text) (s : State) → Holds s → Holds (host.etcd.get_prefix p s).1
  scan p s h = elaws.get_prefix_keeps p j s ∙ h

  settle_minio-Preserves :
      (ip : Text) → Preserves Holds (settle_minio host ctx config loads port ip)
  unfolding settle_minio
  settle_minio-Preserves ip =
      bind-Preserves Holds (host.etcd.get_prefix topology_prefix)
        (λ raw s. (
          ok tt,
          (wait_minio_settled host config (surviving ip (decode_entries ctx.loads raw)) s).1,
        ))
        (scan topology_prefix) (λ raw. wait_minio-Preserves _)

  settle_survivors-Preserves :
      (pairs : List (Text × Text))
      → Preserves Holds (settle_survivors host ctx config loads port pairs)
  unfolding settle_survivors
  settle_survivors-Preserves [] s h = h
  settle_survivors-Preserves (pair ∷ pairs) s h = wait_proxy-Preserves (pair ∷ pairs) s h

  settle_proxies-Preserves :
      (ip : Text) → Preserves Holds (settle_proxies host ctx config loads port ip)
  unfolding settle_proxies
  settle_proxies-Preserves ip =
      bind-Preserves Holds (host.etcd.get_prefix topology_prefix)
        (λ raw.
          settle_survivors host ctx config loads port (surviving ip (decode_entries ctx.loads raw)))
        (scan topology_prefix) (λ raw. settle_survivors-Preserves _)

  remove_by_id-Preserves :
      (id : Option ℕ) → Preserves Holds (remove_by_id host ctx config loads port id)
  unfolding remove_by_id
  remove_by_id-Preserves none s h = h
  remove_by_id-Preserves (some id) s h =
      try_else-Preserves Holds (host.etcd.member_remove id) (λ _. pure tt)
        (λ _. raise runtime_error) (λ t k. elaws.member_remove_keeps id j t ∙ k) (λ a t k. k)
        (λ e t k. k) s h

  find_member-Preserves :
      (ip : Text) → Preserves Holds (find_etcd_member_id_by_peer_url host.etcd ctx ip)
  unfolding find_etcd_member_id_by_peer_url
  find_member-Preserves ip =
      bind-Preserves Holds host.etcd.member_list
        (λ members.
          pure (find_member_id members (str "http://" ++ (ip ++ (b':' ∷ decimal ctx.peer_port)))))
        (λ t k. elaws.member_list_keeps j t ∙ k) (λ members t k. k)

  remove_member-Preserves :
      (ip : Text) → Preserves Holds (remove_member host ctx config loads port ip)
  unfolding remove_member
  remove_member-Preserves ip =
      bind-Preserves Holds (find_etcd_member_id_by_peer_url host.etcd ctx ip)
        (remove_by_id host ctx config loads port) (find_member-Preserves ip) remove_by_id-Preserves

  after_delete-Preserves :
      (ip : Text) → Preserves Holds (after_delete host ctx config loads port ip)
  unfolding after_delete
  after_delete-Preserves ip =
      bind-Preserves Holds (settle_minio host ctx config loads port ip)
        (λ _.
          remove_member host ctx config loads port ip
          >> settle_proxies host ctx config loads port ip)
        (settle_minio-Preserves ip)
        (λ _.
          bind-Preserves Holds (remove_member host ctx config loads port ip)
            (λ _. settle_proxies host ctx config loads port ip) (remove_member-Preserves ip)
            (λ _. settle_proxies-Preserves ip))

  pub delete_entry-Preserves :
      (ip name : Text) (state : Option PoolState)
      → j ≢ topology_key name
      → Preserves Holds (delete_entry host ctx config loads port ip name state)
  unfolding delete_entry
  delete_entry-Preserves ip name none ne s h = h
  delete_entry-Preserves ip name (some state) ne s h =
      bind-Preserves Holds (host.etcd.delete (topology_key name))
        (λ _. after_delete host ctx config loads port ip)
        (λ t k. elaws.delete_other (topology_key name) j t ne ∙ k) (λ _. after_delete-Preserves ip)
        s h
