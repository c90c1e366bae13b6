-- ===== src/RotateToken/Guarded.antt =====
-- daemon/workers/rotate_token.py: the leader keeps its token where a follower has failed to rotate.
use milvus_onprem.Base.{
  Text, Dict, Bool, not, List, [], ◌∷◌, ◌≡◌, ◌⊎◌, inl, inr, refl, ltb, length, raise_if,
  value_error, permission_error, ◌>>◌, bind-ind,
}
use milvus_onprem.Host.{Host}
use milvus_onprem.Config.{DaemonConfig}
use milvus_onprem.Topology.{Info}
use milvus_onprem.Handlers.Peers.{current_peer_ips_and_names}
use milvus_onprem.RotateToken.Rotation.{
  others, rotate_remotes, rotate_leader, rotate_among, run_rotate_token,
}

-- The followers that fail when they are told the new token.
abbrev pub failed_followers :
    (host : Host) → DaemonConfig → Text → Dict Info → Text → host.etcd.State → List Text
failed_followers host config image peers new_token s =
    (rotate_remotes host config image new_token
      (others config.node_name (current_peer_ips_and_names peers)) s).0

module _ (host : Host) (P : host.etcd.State → Type 0)
    (posts : (u t : Text) (b : List (Text × Text)) (s : host.etcd.State)
      → P s
      → P (host.http_post u t b s).1)
    (config : DaemonConfig) (image : Text) where
  open host.etcd use {State}

  remotes-Preserves :
      (new_token : Text) (pairs : List (Text × Text)) (s : State)
      → P s
      → P (rotate_remotes host config image new_token pairs s).1
  unfolding rotate_remotes
  remotes-Preserves new_token [] s h = h
  remotes-Preserves new_token ((name, ip) ∷ pairs) s h =
      remotes-Preserves new_token pairs _ (posts _ _ _ s h)

  among-Preserves :
      (new_token name : Text) (names : List Text) (pairs : List (Text × Text)) (s : State)
      → (rotate_remotes host config image new_token pairs s).0 ≡ name ∷ names
      → P s
      → P (rotate_among host config image new_token pairs s).1
  unfolding rotate_among
  among-Preserves new_token name names pairs s e h =
      rw (e, rotate_leader) (remotes-Preserves new_token pairs s h)

  -- Either no follower fails when it is told the new token, or all that a rotation does is to send
  -- requests: it writes no file and runs no command, as it preserves what requests preserve, so that the
  -- leader keeps its token.
  pub run_rotate_token-guarded :
      (peers : Dict Info) (is_leader : Bool) (new_token : Text) (s : State)
      → P s
      → (failed_followers host config image peers new_token s ≡ [])
        ⊎ P (run_rotate_token host config image peers is_leader new_token s).1
  run_rotate_token-guarded peers is_leader new_token s h =
      go (failed_followers host config image peers new_token s) refl
    where
      pairs : List (Text × Text)
      pairs = others config.node_name (current_peer_ips_and_names peers)

      go :
          (names : List Text)
          → failed_followers host config image peers new_token s ≡ names
          → (failed_followers host config image peers new_token s ≡ [])
            ⊎ P (run_rotate_token host config image peers is_leader new_token s).1
      go [] e = inl e
      go (name ∷ names) e = inr (
          unfold run_rotate_token in
          bind-ind P (raise_if (ltb (length new_token) 32) value_error)
            (λ _.
              raise_if (not is_leader) permission_error
              >> rotate_among host config image new_token pairs)
            s
            (λ a f.
              bind-ind P (raise_if (not is_leader) permission_error)
                (λ _. rotate_among host config image new_token pairs) s
                (λ b g. among-Preserves new_token name names pairs s e h) h)
            h)
