-- ===== src/Watchdog/Local.antt =====
-- daemon/watchdog.py: `LocalComponentWatchdog`, which restarts unhealthy containers of this host. One
-- call of `_tick` is a step on the watchdog's state; what it prints and runs is a list of actions,
-- the latest first. What `docker ps` lists, the exit codes of `docker restart` and the time come from
-- outside.
use milvus_onprem.Base.{
  ℕ, ◌+◌, Text, str, Dict, lookup, insert, erase, Bool, not, ◌&&◌, ◌||◌, Option, none, some, List,
  [], ◌∷◌, ◌++◌, length, leb, ◌==◌, if◌then◌else◌, same, member, starts_with, has_infix,
}
use milvus_onprem.Config.{DaemonConfig}

-- One row of `docker ps`, with `""` for a field that is not there.
pub record Container : Type 0 where
  pub names : Text
  pub state : Text
  pub status : Text

pub data Health : Type 0 where
  healthy unhealthy starting no_health : Health

-- `_watched`
unfoldable pub watched : Text → Bool
unfolding same starts_with
watched name =
    not (same name (str "milvus-onprem-cp"))
    && (starts_with (str "milvus-") name || starts_with (str "milvus") name)

-- `_parse_health`
unfoldable pub parse_health : Text → Health
unfolding has_infix
parse_health status =
    if has_infix (str "(healthy)") status
    then healthy
    else if has_infix (str "(unhealthy)") status
    then unhealthy
    else if has_infix (str "(health: starting)") status
    then starting
    else no_health

pub data Action : Type 0 where
  -- COMPONENT_RESTART_LOOP, with the number of restarts
  restart_loop : Text → ℕ → Action
  -- COMPONENT_RESTART, with the attempt
  component_restart : Text → ℕ → Action
  -- `docker restart`, with its exit code
  docker_restart : Text → ℕ → Action

pub record LocalState : Type 0 where
  pub consecutive_unhealthy : Dict ℕ
  pub restart_history : Dict (List ℕ)
  pub loop_alerted : List Text
  pub actions : List Action

abbrev pub initial : LocalState
initial = record {
  consecutive_unhealthy = [];
  restart_history = [];
  loop_alerted = [];
  actions = [];
}

-- A `defaultdict` at a key.
abbrev pub unhealthy_count : Text → LocalState → ℕ
unhealthy_count name s = elim (lookup name s.consecutive_unhealthy) [ none ↦ 0 | some n ↦ n ]

abbrev pub history_of : Text → LocalState → List ℕ
history_of name s = elim (lookup name s.restart_history) [ none ↦ [] | some times ↦ times ]

-- `set.discard`
unfoldable pub discard : Text → List Text → List Text
discard name [] = []
discard name (x ∷ xs) = let rest = discard name xs in if same x name then rest else x ∷ rest

module _ (config : DaemonConfig) (now : ℕ) (docker_rc : Text → ℕ) where
  -- `_maybe_restart` once its guards have passed.
  unfoldable pub restart : Text → LocalState → LocalState
  restart name s =
      let attempt = length (history_of name s) + 1 in
      let run = record s {
        actions = docker_restart name (docker_rc name) ∷ component_restart name attempt ∷ s.actions;
      } in
      if docker_rc name == 0
      then record run {
        restart_history = insert name (history_of name s ++ now ∷ []) s.restart_history;
        consecutive_unhealthy = insert name 0 s.consecutive_unhealthy;
      }
      else run

  -- `_maybe_restart`
  unfoldable pub maybe_restart : Text → LocalState → LocalState
  maybe_restart name s =
      if member name s.loop_alerted
      then s
      else if leb config.watchdog_restart_loop_max (length (history_of name s))
      then record s {
        actions = restart_loop name (length (history_of name s)) ∷ s.actions;
        loop_alerted = name ∷ s.loop_alerted;
      }
      else if not (same config.watchdog_mode (str "auto"))
      then s
      else restart name s

  -- One unhealthy report.
  unfoldable pub on_unhealthy : Text → LocalState → LocalState
  on_unhealthy name s =
      let count = unhealthy_count name s + 1 in
      let counted = record s {
        consecutive_unhealthy = insert name count s.consecutive_unhealthy;
      } in
      if leb config.watchdog_unhealthy_threshold count then maybe_restart name counted else counted

  -- Any other report; `healthy` clears the flag of a container that was given up.
  unfoldable pub on_other : Health → Text → LocalState → LocalState
  on_other health name s =
      let reset = record s { consecutive_unhealthy = insert name 0 s.consecutive_unhealthy } in
      elim health [
        | healthy ↦
            if member name s.loop_alerted
            then record reset {
              loop_alerted = discard name s.loop_alerted;
              restart_history = insert name [] s.restart_history;
            }
            else reset
        | _ ↦ reset
      ]

  abbrev pub on_health : Health → Text → LocalState → LocalState
  on_health unhealthy name s = on_unhealthy name s
  on_health health name s = on_other health name s

  -- The body of the loop over the containers.
  unfoldable pub observe : Container → LocalState → LocalState
  observe c s =
      if not (watched c.names)
      then s
      else if same c.state (str "restarting")
      then record s { consecutive_unhealthy = insert c.names 0 s.consecutive_unhealthy }
      else on_health (parse_health c.status) c.names s

  unfoldable pub observe_all : List Container → LocalState → LocalState
  observe_all [] s = s
  observe_all (c ∷ cs) s = observe_all cs (observe c s)

-- `seen`
abbrev pub seen_names : List Container → List Text
seen_names [] = []
seen_names (c ∷ cs) = c.names ∷ seen_names cs

unfoldable pub keep_counts : List Text → Dict ℕ → Dict ℕ
keep_counts seen [] = []
keep_counts seen ((name, n) ∷ counts) =
    let rest = keep_counts seen counts in if member name seen then (name, n) ∷ rest else rest

unfoldable pub keep_alerted : List Text → List Text → List Text
keep_alerted seen [] = []
keep_alerted seen (name ∷ names) =
    let rest = keep_alerted seen names in if member name seen then name ∷ rest else rest

unfoldable pub drop_histories : List Text → List Text → Dict (List ℕ) → Dict (List ℕ)
drop_histories seen [] histories = histories
drop_histories seen (name ∷ names) histories =
    drop_histories seen names (if member name seen then histories else erase name histories)

-- The two loops at the end of `_tick`, over what is gone.
unfoldable pub forget_gone : List Text → LocalState → LocalState
forget_gone seen s = record s {
  consecutive_unhealthy = keep_counts seen s.consecutive_unhealthy;
  loop_alerted = keep_alerted seen s.loop_alerted;
  restart_history = drop_histories seen s.loop_alerted s.restart_history;
}

-- `_docker_ps`, of its exit code and its lines: a line that is empty or no JSON is `none`.
unfoldable pub docker_ps : ℕ → List (Option Container) → List Container
docker_ps rc [] = []
docker_ps rc (line ∷ lines) =
    let rest = docker_ps rc lines in
    if rc == 0 then elim line [ none ↦ rest | some c ↦ c ∷ rest ] else []

-- What a tick finds outside.
pub record Observation : Type 0 where
  pub ps_rc : ℕ
  pub ps_lines : List (Option Container)
  pub now : ℕ
  pub docker_rc : Text → ℕ

-- `_tick`
unfoldable pub tick : DaemonConfig → Observation → LocalState → LocalState
tick config o s =
    let containers = docker_ps o.ps_rc o.ps_lines in
    forget_gone (seen_names containers) (observe_all config o.now o.docker_rc containers s)

-- `run`, for the ticks until it is stopped.
unfoldable pub run : DaemonConfig → List Observation → LocalState → LocalState
run config [] s = s
run config (o ∷ os) s = run config os (tick config o s)
