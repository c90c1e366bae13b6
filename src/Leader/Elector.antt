-- ===== src/Leader/Elector.antt =====
-- daemon/leader.py: `LeaderElector` of one daemon. What etcd answers in a round, and the time, come
-- from outside; the calls of etcd that the elector makes are a list, in order.
use milvus_onprem.Base.{
  ℕ, ◌+◌, ◌*◌, Bool, true, false, not, Option, none, some, List, [], ◌∷◌, ltb, leb, ◌==◌,
  if◌then◌else◌, Result, ok, err,
}

-- The attributes of the elector; times in seconds.
pub record Elector : Type 0 where
  pub is_leader : Bool
  pub lease_id : Option ℕ
  pub term_started_at : Option ℕ
  pub skip_race_until : ℕ

abbrev pub follower : Elector
follower = record {
  is_leader = false;
  lease_id = none;
  term_started_at = none;
  skip_race_until = 0;
}

pub data Call : Type 0 where
  -- `lease_grant`
  grant : Call
  -- `put_if_absent(LEADER_KEY, …)` with a lease
  race : ℕ → Call
  -- `get(LEADER_KEY)`
  read_leader : Call
  -- `lease_keepalive`
  keepalive : ℕ → Call
  -- `lease_revoke`
  revoke : ℕ → Call
  -- `watch_prefix(LEADER_KEY)`, up to the next DELETE
  watch : Call

-- What a round finds: the replies, in the order of the calls. The keepalives end where the daemon is
-- stopped; `current` is whether the read of the leader's key went through.
pub record Round : Type 0 where
  pub now : ℕ
  pub granted : Result ℕ
  pub won : Result Bool
  pub keepalives : List (Result ℕ)
  pub current : Result (Unit {0})

-- What a round leaves: how it ends, the elector, its calls, and the elector during a term, if it had
-- one.
pub record Cycled : Type 0 where
  pub result : Result (Unit {0})
  pub elector : Elector
  pub calls : List Call
  pub term : Option Elector

-- `_hold_leadership`: the keepalives until one raises or finds no time left.
unfoldable pub hold_leadership : ℕ → List (Result ℕ) → List Call
hold_leadership lease [] = []
hold_leadership lease (reply ∷ replies) =
    let further = hold_leadership lease replies in
    keepalive lease ∷ elim reply [ err _ ↦ [] | ok ttl ↦ if ttl == 0 then [] else further ]

-- The branch of `_cycle` that has won the race.
unfoldable pub lead : Round → ℕ → Elector → Cycled
unfolding hold_leadership
lead r lease e =
    let leading = record e { is_leader = true; term_started_at = some r.now } in
    record {
      result = ok tt;
      elector = record leading { is_leader = false; term_started_at = none };
      calls = grant ∷ race lease ∷ hold_leadership lease r.keepalives;
      term = some leading;
    }

-- The branch that has lost it.
unfoldable pub follow : Round → ℕ → Elector → Cycled
follow r lease e = elim r.current [
  | err x ↦ record {
    result = err x;
    elector = record e { is_leader = false };
    calls = grant ∷ race lease ∷ read_leader ∷ [];
    term = none;
  }
  | ok _ ↦ record {
    result = ok tt;
    elector = record e { is_leader = false };
    calls = grant ∷ race lease ∷ read_leader ∷ watch ∷ [];
    term = none;
  }
]

-- The race with a lease.
unfoldable pub run_race : Round → ℕ → Elector → Cycled
unfolding lead follow
run_race r lease e = elim r.won [
  | err x ↦ record { result = err x; elector = e; calls = grant ∷ race lease ∷ []; term = none }
  | ok won ↦ if won then lead r lease e else follow r lease e
]

-- `_cycle`
unfoldable pub cycle : Round → Elector → Cycled
unfolding run_race
cycle r e =
    if ltb r.now e.skip_race_until
    then record {
      result = ok tt;
      elector = record e { is_leader = false };
      calls = watch ∷ [];
      term = none;
    }
    else elim r.granted [
      | err x ↦ record { result = err x; elector = e; calls = grant ∷ []; term = none }
      | ok lease ↦ run_race r lease (record e { lease_id = some lease })
    ]

-- `min(backoff * 2, 30.0)`
unfoldable pub next_backoff : ℕ → ℕ
next_backoff backoff = if leb (backoff * 2) 30 then backoff * 2 else 30

-- `run`: the electors after the rounds with the backoff, and the seconds slept after each round that
-- raised.
pub record Ran : Type 0 where
  pub elector : Elector
  pub backoff : ℕ
  pub sleeps : List ℕ

unfoldable pub run_round : Round → Ran → Ran
unfolding cycle next_backoff
run_round r s =
    let done = cycle r s.elector in
    elim done.result [
      | ok _ ↦ record { elector = done.elector; backoff = 1; sleeps = s.sleeps }
      | err _ ↦ record {
        elector = done.elector;
        backoff = next_backoff s.backoff;
        sleeps = s.backoff ∷ s.sleeps;
      }
    ]

unfoldable pub run_elector : List Round → Ran → Ran
unfolding run_round
run_elector [] s = s
run_elector (r ∷ rs) s = run_elector rs (run_round r s)

-- `step_down`: `revoked` is the reply to `lease_revoke`.
unfoldable pub step_down : ℕ → ℕ → Result (Unit {0}) → Elector → Bool × Elector
step_down now cooldown_s revoked e = elim e.lease_id [
  | none ↦ (false, e)
  | some lease ↦ if not e.is_leader then (false, e) else elim revoked [
    | err _ ↦ (false, e)
    | ok _ ↦ (true, record e { skip_race_until = now + cooldown_s })
  ]
]

-- `stop`: the calls it makes.
unfoldable pub stop_calls : Elector → List Call
stop_calls e = elim e.lease_id [ none ↦ [] | some lease ↦ revoke lease ∷ [] ]
