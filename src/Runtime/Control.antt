-- ===== src/Runtime/Control.antt =====
-- `start`, `stop`, `kill`, `kill_all` and the queries of the supervisor in
-- apps/bot-engine/app/runtime/supervisor.py, over all bots. What the task of a bot does is a move of its own, which
-- sets a state or ends the task (`_run` is modelled in Supervisor). `stop` and `kill` come in two phases, the
-- state that they set and the end of the task that they await; `stop`, `kill` and `kill_all` are the whole
-- calls, where no other coroutine runs while they await and the publisher does not raise. The
-- phases alone are commands too, for the interleavings in which another coroutine does run.
pub mod KillAll
mod Tests
use xbottrader.Runtime.Supervisor.{
  BotState, starting, running, stopping, stopped, errored, paused, killed, idle,
}
use xbottrader.Prelude.{
  if◌then◌else◌, is_none, runtime_error, Result, raised, ok, raise_if, ◌>>=◌, ◌>>◌, ℕ, ◌+◌, String,
  Bool, true, false, not, ◌&&◌, Option, none, some, List, [], ◌∷◌, ◌++◌, str_eq,
}

-- A `BotHandle`, as far as the commands read it: `live` tells whether its task is not done.
pub record FleetHandle : Type 0 where
  pub user_id : String
  pub state : BotState
  pub live : Bool
  pub last_error : Option String

-- `_handles` in insertion order, and the number of tasks that run and belong to no handle in it.
pub record Fleet : Type 0 where
  pub handles : List (String × FleetHandle)
  pub orphans : ℕ

-- what a command does to the outside: the router's `cancel_open`, and the event `bot_killed` with its user
pub data FleetEffect : Type 0 where
  cancels_open : String → FleetEffect
  bot_killed : String → String → FleetEffect

-- how the task of a bot changes its handle: it sets a state, three of which it sets before it publishes its
-- end, and then it is done
pub data Move : Type 0 where
  to_running to_idle to_paused to_stopped ends : Move
  to_errored : String → Move

pub data Command : Type 0 where
  start_bot : String → String → Command
  stop_bot kill_bot : String → Command
  kill_bots : Option String → Command
  begin_stop begin_kill : String → Command
  task_moves : String → Move → Command

-- the states that `start` refuses
abbrev pub is_active : BotState → Bool
is_active starting = true
is_active running = true
is_active idle = true
is_active stopping = false
is_active stopped = false
is_active errored = false
is_active paused = false
is_active killed = false

-- the states that `kill_all` leaves alone
abbrev pub is_over : BotState → Bool
is_over stopped = true
is_over errored = true
is_over killed = true
is_over starting = false
is_over running = false
is_over stopping = false
is_over paused = false
is_over idle = false

abbrev pub find_handle : String → List (String × FleetHandle) → Option FleetHandle
find_handle id [] = none
find_handle id ((k, h) ∷ rest) =
    let later = find_handle id rest in if str_eq k id then some h else later

-- `self._handles[id] = h`
abbrev pub set_handle :
    String → FleetHandle → List (String × FleetHandle) → List (String × FleetHandle)
set_handle id h [] = (id, h) ∷ []
set_handle id h ((k, old) ∷ rest) =
    let later = set_handle id h rest in if str_eq k id then (k, h) ∷ rest else (k, old) ∷ later

-- the handle that `start` would replace
abbrev pub is_running : Option FleetHandle → Bool
is_running none = false
is_running (some h) = is_active h.state

abbrev pub live_task : Option FleetHandle → ℕ
live_task none = 0
live_task (some h) = if h.live then 1 else 0

-- `start`
unfoldable pub start : String → String → Fleet → Result Fleet
start id user_id fleet = do
  raise_if (is_running (find_handle id fleet.handles)) (runtime_error "already running")
  let handle : FleetHandle = record {
    user_id = user_id;
    state = starting;
    live = true;
    last_error = none;
  }
  ok (record {
    handles = set_handle id handle fleet.handles;
    orphans = fleet.orphans + live_task (find_handle id fleet.handles);
  })

-- the task of the bot is done
abbrev pub ended : FleetHandle → FleetHandle
ended h = record h { live = false }

-- the state that `stop` and `kill` set before they await the cancelled task, which still runs
abbrev pub stopping_by : FleetHandle → FleetHandle
stopping_by h = record h { state = stopping }

abbrev pub killing_by : FleetHandle → FleetHandle
killing_by h = record h { state = killed }

-- the whole call, where no other coroutine runs while it awaits
abbrev pub stopped_by : FleetHandle → FleetHandle
stopped_by h = ended (stopping_by h)

abbrev pub killed_by : FleetHandle → FleetHandle
killed_by h = ended (killing_by h)

-- a change of the handle of a known bot
abbrev pub put_found :
    String
    → (FleetHandle → FleetHandle)
    → Option FleetHandle
    → List (String × FleetHandle)
    → List (String × FleetHandle)
put_found id change none handles = handles
put_found id change (some h) handles = set_handle id (change h) handles

-- `stop`
unfoldable pub stop : String → List (String × FleetHandle) → List (String × FleetHandle)
stop id handles = put_found id stopped_by (find_handle id handles) handles

abbrev pub kill_effects : String → Option FleetHandle → List FleetEffect
kill_effects id none = []
kill_effects id (some h) = cancels_open id ∷ bot_killed h.user_id id ∷ []

-- `kill`, with what it returns and does
unfoldable pub kill :
    String → List (String × FleetHandle) → Bool × List FleetEffect × List (String × FleetHandle)
kill id handles =
    let found = find_handle id handles in
    (not (is_none found), kill_effects id found, put_found id killed_by found handles)

-- `user_id is None or h.user_id == user_id`
abbrev pub in_scope : Option String → FleetHandle → Bool
in_scope none h = true
in_scope (some user_id) h = str_eq h.user_id user_id

abbrev pub is_target : Option String → FleetHandle → Bool
is_target scope h = not (is_over h.state) && in_scope scope h

abbrev pub targets_of : Option String → List (String × FleetHandle) → List String
targets_of scope [] = []
targets_of scope ((k, h) ∷ rest) =
    let later = targets_of scope rest in if is_target scope h then k ∷ later else later

unfoldable pub kill_each :
    List String → List (String × FleetHandle) → List FleetEffect × List (String × FleetHandle)
unfolding kill
kill_each [] handles = ([], handles)
kill_each (id ∷ ids) handles =
    let one = kill id handles in let rest = kill_each ids one.2 in (one.1 ++ rest.0, rest.1)

-- `kill_all`
unfoldable pub kill_all :
    Option String
    → List (String × FleetHandle)
    → List String × List FleetEffect × List (String × FleetHandle)
unfolding kill_each
kill_all scope handles =
    let ids = targets_of scope handles in let done = kill_each ids handles in (ids, done.0, done.1)

-- `get_state`
abbrev pub get_state : String → List (String × FleetHandle) → Option BotState
get_state id handles = elim (find_handle id handles) [ none ↦ none | some h ↦ some h.state ]

-- `running_bots`
abbrev pub running_bots : List (String × FleetHandle) → List String
running_bots [] = []
running_bots ((k, h) ∷ rest) =
    let later = running_bots rest in
    elim h.state [ running ↦ k ∷ later | idle ↦ k ∷ later | _ ↦ later ]

-- a move of a task that is not done: a state that it enters, and before it ends still runs in, and its end
abbrev pub moved : Move → FleetHandle → FleetHandle
moved to_running h = record h { state = running }
moved to_idle h = record h { state = idle }
moved to_paused h = record h { state = paused }
moved (to_errored e) h = record h { state = errored; last_error = some e }
moved to_stopped h = record h { state = stopped }
moved ends h = ended h

abbrev pub moved_if_live : Move → FleetHandle → FleetHandle
moved_if_live m h = if h.live then moved m h else h

unfoldable pub move : String → Move → List (String × FleetHandle) → List (String × FleetHandle)
move id m handles = put_found id (moved_if_live m) (find_handle id handles) handles

abbrev pub or_same : Fleet → Result Fleet → Fleet
or_same fleet (raised exception) = fleet
or_same fleet (ok after) = after

-- one command, where a refused start changes nothing
unfoldable pub obey : Command → Fleet → Fleet
unfolding start stop kill kill_all move
obey (start_bot id user_id) fleet = or_same fleet (start id user_id fleet)
obey (stop_bot id) fleet = record fleet { handles = stop id fleet.handles }
obey (kill_bot id) fleet = record fleet { handles = (kill id fleet.handles).2 }
obey (kill_bots scope) fleet = record fleet { handles = (kill_all scope fleet.handles).2 }
obey (begin_stop id) fleet = record fleet {
  handles = put_found id stopping_by (find_handle id fleet.handles) fleet.handles;
}
obey (begin_kill id) fleet = record fleet {
  handles = put_found id killing_by (find_handle id fleet.handles) fleet.handles;
}
obey (task_moves id m) fleet = record fleet { handles = move id m fleet.handles }

unfoldable pub obey_all : List Command → Fleet → Fleet
unfolding obey
obey_all [] fleet = fleet
obey_all (command ∷ commands) fleet = obey_all commands (obey command fleet)
