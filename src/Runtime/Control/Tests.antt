-- ===== src/Runtime/Control/Tests.antt =====
-- Two users and three bots.
use xbottrader.Strategy.RuleEngine.Config.{contains_name}
use xbottrader.Runtime.Control.KillAll.{MustDie, IsSpared, kill_all-found}
use xbottrader.Runtime.Control.{
  FleetHandle, Fleet, to_running, to_idle, to_errored, ends, Command, start_bot, stop_bot,
  kill_bots, begin_stop, task_moves, find_handle, start, kill, kill_each, kill_all, get_state,
  running_bots, obey, obey_all,
}
use xbottrader.Prelude.{
  runtime_error, raised, String, ◌≡◌, refl, ◌⊎◌, true, false, none, some, List, [], ◌∷◌,
}
use xbottrader.Runtime.Supervisor.{running, killed, idle}

abbrev nothing : Fleet
nothing = record { handles = []; orphans = 0 }

-- the second start of `a` is refused, and after its end it starts again
abbrev morning : List Command
morning =
    start_bot "a" "ann"
    ∷ start_bot "b" "bob"
    ∷ task_moves "a" to_running
    ∷ start_bot "a" "ann"
    ∷ task_moves "b" to_running
    ∷ task_moves "b" to_idle
    ∷ task_moves "a" (to_errored "ValueError: bad bar")
    ∷ task_moves "a" ends
    ∷ start_bot "a" "ann"
    ∷ stop_bot "a"
    ∷ start_bot "c" "bob"
    ∷ kill_bots (some "bob")
    ∷ []

abbrev two_bots : List (String × FleetHandle)
two_bots =
    ("a", record { user_id = "ann"; state = running; live = true; last_error = none })
    ∷ ("b", record { user_id = "bob"; state = idle; live = true; last_error = none })
    ∷ []

morning-states : get_state "b" (obey_all morning nothing).handles ≡ some killed
unfolding obey_all obey
morning-states = refl

refused :
    start "b" "bob" (record { handles = two_bots; orphans = 0 })
    ≡ raised (runtime_error "already running")
unfolding start
refused = refl

live_bots : running_bots two_bots ≡ "a" ∷ "b" ∷ []
live_bots = refl

-- a start while a stop still awaits the task replaces the handle of a task that runs
restart_race :
    (obey_all
      (start_bot "a" "ann" ∷ task_moves "a" to_running ∷ begin_stop "a" ∷ start_bot "a" "ann" ∷ [])
      nothing).orphans
    ≡ 1
unfolding obey_all obey start
restart_race = refl

abbrev idle_bot : FleetHandle
idle_bot = record { user_id = "bob"; state = idle; live = true; last_error = none }

kill_all-found_example :
    (MustDie (some "bob") idle_bot
      × (find_handle "b" (kill_all (some "bob") two_bots).2
          ≡ some (record { user_id = "bob"; state = killed; live = false; last_error = none }))
      × (contains_name "b" (kill_all (some "bob") two_bots).0 ≡ true))
    ⊎ (IsSpared (some "bob") idle_bot
        × (find_handle "b" (kill_all (some "bob") two_bots).2 ≡ some idle_bot)
        × (contains_name "b" (kill_all (some "bob") two_bots).0 ≡ false))
kill_all-found_example = kill_all-found (some "bob") "b" idle_bot two_bots (refl, (refl, tt)) refl

-- it is the first of the two
bob_is_killed :
    (find_handle "b" (kill_all (some "bob") two_bots).2
      ≡ some (record { user_id = "bob"; state = killed; live = false; last_error = none }))
    × (contains_name "b" (kill_all (some "bob") two_bots).0 ≡ true)
unfolding kill_all kill_each kill
bob_is_killed = (refl, refl)
