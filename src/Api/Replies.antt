-- ===== src/Api/Replies.antt =====
-- daemon/api.py: what a route answers, and the answer of a follower to a request that must reach the
-- leader. A raise that no route catches is an error of the action, which FastAPI makes a 500 of.
use milvus_onprem.Base.{
  ℕ, Text, str, Option, none, some, [], ◌∷◌, Error, Exec, pure, Result, ok, err, wrong_type, ◌>>=◌,
}
use milvus_onprem.Host.{Host}
use milvus_onprem.Config.{DaemonConfig}
use milvus_onprem.Auth.{passed, unauthorized, forbidden, type_error, require_token}
use milvus_onprem.Handlers.Dispatch.{daemon_url}

-- `LEADER_KEY`
abbrev pub leader_key : Text
leader_key = str "/cluster/leader"

pub data Reply (A : Type 0) : Type 0 where
  -- 200 with a body
  answered : A → Reply A
  -- 307 with its `Location`
  redirected : Text → Reply A
  -- `HTTPException` with its status code
  refused : ℕ → Reply A

-- What `json.loads` makes of the leader's entry: it raises, the value is no object, or it is an object,
-- with what an f-string writes of its `ip` (`None` for null), if it has one.
pub data LeaderJson : Type 0 where
  no_json no_object : LeaderJson
  object : Option Text → LeaderJson

-- `leader_info['ip']`: where the entry is missing, empty, no JSON, or an object without an `ip`, the routes
-- answer 503; a value that is no object raises TypeError, which they do not catch.
pub data Located : Type 0 where
  unknown wrong_entry : Located
  located_at : Text → Located

abbrev pub located : LeaderJson → Located
located no_json = unknown
located no_object = wrong_entry
located (object none) = unknown
located (object (some ip)) = located_at ip

unfoldable pub leader_ip : (Text → LeaderJson) → Option Text → Located
leader_ip loads none = unknown
leader_ip loads (some []) = unknown
leader_ip loads (some (c ∷ raw)) = located (loads (c ∷ raw))

module _ {S A : Type 0} where
  -- `except cls: raise HTTPException(status)` round an action, for the classes with a status.
  unfoldable pub catching : (Error → Option ℕ) → Exec S A → Exec S (Reply A)
  catching status m s =
      let (r, t) = m s in
      elim r [
        | ok a ↦ (ok (answered a), t)
        | err e ↦ elim (status e) [ none ↦ (err e, t) | some code ↦ (ok (refused code), t) ]
      ]

  -- `dependencies=[Depends(require_token)]`
  unfoldable pub with_token : Option Text → Text → Exec S (Reply A) → Exec S (Reply A)
  unfolding require_token
  with_token header expected route = elim (require_token header expected) [
    | passed ↦ route
    | unauthorized ↦ pure (refused 401)
    | forbidden ↦ pure (refused 403)
    | type_error ↦ pure (refused 500)
  ]

module _ (host : Host) (config : DaemonConfig) (loads : Text → LeaderJson) {A : Type 0} where
  open host.etcd use {State}

  abbrev pub redirect_or_503 : Text → Located → Result (Reply A)
  redirect_or_503 path unknown = ok (refused 503)
  redirect_or_503 path wrong_entry = err wrong_type
  redirect_or_503 path (located_at ip) = ok (redirected (daemon_url config ip path))

  -- The branch `if not leader.is_leader` of the routes that write.
  unfoldable pub to_leader : Text → Exec State (Reply A)
  unfolding leader_ip daemon_url
  to_leader path = do
    leader_info_raw ← host.etcd.get leader_key
    λ s. (redirect_or_503 path (leader_ip loads leader_info_raw), s)
