-- ===== src/RemoveNode/Decommission.antt =====
-- daemon/workers/remove_node.py: the decommission state of a MinIO pool.
use milvus_onprem.Base.{
  ℕ, Text, str, has_infix, starts_with, Bool, not, ◌&&◌, Option, none, some, List, [], ◌∷◌, ◌==◌,
  if◌then◌else◌,
}

-- The values of a decommission state.
pub data PoolState : Type 0 where
  not_started active complete failed canceled missing : PoolState

-- `decommissionInfo`, as far as it is read, with false and "" for what is not there.
pub record Decommission : Type 0 where
  pub complete : Bool
  pub failed : Bool
  pub canceled : Bool
  pub start_time : Text

pub record Pool : Type 0 where
  pub cmdline : Text
  pub info : Decommission

-- What `json.loads` makes of the output: an exception, something that is no list, or a list, in which
-- an element that is no object is `none`.
pub data Parsed : Type 0 where
  malformed no_list : Parsed
  pools : List (Option Pool) → Parsed

-- The branches on `info`.
unfoldable pub pool_state : Decommission → PoolState
unfolding starts_with
pool_state info =
    if info.complete
    then complete
    else if info.failed
    then failed
    else if info.canceled
    then canceled
    else elim info.start_time [
      | [] ↦ not_started
      | c ∷ time ↦ if starts_with (str "0001-01-01") (c ∷ time) then not_started else active
    ]

-- The loop over the pools.
unfoldable pub state_among : Text → List (Option Pool) → PoolState
unfolding has_infix pool_state
state_among fragment [] = missing
state_among fragment (none ∷ others) = state_among fragment others
state_among fragment (some pool ∷ others) =
    let rest = state_among fragment others in
    if has_infix fragment pool.cmdline then pool_state pool.info else rest

-- `_decommission_state`, of the exit code, of whether the output says `no decommission`, and of what
-- the output parses to.
unfoldable pub decommission_state : Text → ℕ → Bool → Parsed → PoolState
unfolding state_among
decommission_state fragment rc says_none parsed =
    if not (rc == 0) && says_none then not_started else elim parsed [
      | malformed ↦ missing
      | no_list ↦ missing
      | pools ps ↦ state_among fragment ps
    ]

-- What the worker does about a state before it polls.
pub data Preparation : Type 0 where
  skip_start start cancel_then_start : Preparation

unfoldable pub prepare : PoolState → Preparation
prepare complete = skip_start
prepare active = skip_start
prepare failed = cancel_then_start
prepare canceled = cancel_then_start
prepare _ = start
