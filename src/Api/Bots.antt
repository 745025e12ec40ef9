-- ===== src/Api/Bots.antt =====
-- apps/bot-engine/app/api/bots.py: the routes that start, stop, kill and show bots, over the bots of the
-- supervisor. The launcher is a parameter, as the application sets it; of the plan that it returns
-- nothing is kept, since the handles do not hold it. The path, the clock and the digests are the
-- ones of Auth.
pub mod Isolation
pub mod Changes
pub mod Alone
pub mod Users
pub mod Gate
mod Tests
use xbottrader.Decimal.Whole.{ℤ, whole}
use xbottrader.Api.{Response, answer, http_error, unhandled}
use xbottrader.Runtime.Control.{
  FleetHandle, Fleet, FleetEffect, find_handle, start, stop, kill, kill_all, get_state,
}
use xbottrader.Runtime.Supervisor.{BotState, starting, stopped, killed}
use xbottrader.Auth.{Request, Primitives, InternalAuthenticator, verify}
use xbottrader.Prelude.{
  if◌then◌else◌, Exception, value_error, runtime_error, internal_auth_error, Result, raised, ok,
  remove_prefix, String, Bool, true, not, Option, none, some, List, [], ◌∷◌, map, str_eq,
}
use Prim.Native.String.{◌++◌ as str_append}

-- `_scoped`
abbrev pub scoped : String → String → String
scoped user_id bot_id = str_append user_id (str_append ":" bot_id)

pub record BotStateResponse : Type 0 where
  pub bot_id : String
  pub state : BotState
  pub last_error : Option String

-- the response models of the routes
pub data BotAnswer : Type 0 where
  bot_state : BotStateResponse → BotAnswer
  kill_all_response : List String → BotAnswer

-- the routes, with the bot id of the path and the body
pub data BotCall (R : Type 0) : Type 0 where
  start_call : String → R → BotCall R
  kill_all_call : BotCall R
  kill_call stop_call get_call : String → BotCall R

-- what a route answers, what it does to the outside, and the bots after it
abbrev pub Handled : Type 0
Handled = Response BotAnswer × List FleetEffect × Fleet

-- `supervisor.get_state(sid) or default`
abbrev pub state_or : BotState → Option BotState → BotState
state_or d none = d
state_or d (some s) = s

abbrev pub shown : String → BotState → Response BotAnswer
shown bot_id state =
    answer (bot_state (record { bot_id = bot_id; state = state; last_error = none }))

abbrev pub launch_error : Exception → Response BotAnswer
launch_error (value_error m) = http_error 400 m
launch_error e = unhandled e

abbrev pub start_error : Exception → Response BotAnswer
start_error (runtime_error m) = http_error 409 m
start_error e = unhandled e

-- the answer to `supervisor.start`
abbrev pub started : String → String → Result Fleet → Fleet → Handled
started bot_id sid (raised e) fleet = (start_error e, [], fleet)
started bot_id sid (ok after) fleet =
    (shown bot_id (state_or starting (get_state sid after.handles)), [], after)

abbrev pub launched : {P : Type 0} → String → String → String → Result P → Fleet → Handled
launched bot_id sid user_id (raised e) fleet = (launch_error e, [], fleet)
launched bot_id sid user_id (ok plan) fleet = started bot_id sid (start sid user_id fleet) fleet

-- `handle is None or handle.user_id != ident.user_id`
abbrev pub is_foreign : String → Option FleetHandle → Bool
is_foreign user_id none = true
is_foreign user_id (some h) = not (str_eq h.user_id user_id)

abbrev pub not_found : Fleet → Handled
not_found fleet = (http_error 404 "bot not found", [], fleet)

-- `kill_bot`
unfoldable pub kill_bot_route : String → String → Fleet → Handled
kill_bot_route user_id bot_id fleet =
    let sid = scoped user_id bot_id in
    let done = kill sid fleet.handles in
    if is_foreign user_id (find_handle sid fleet.handles) then not_found fleet else (
      shown bot_id (state_or killed (get_state sid done.2)),
      done.1,
      record fleet { handles = done.2 },
    )

-- `stop_bot`
unfoldable pub stop_bot_route : String → String → Fleet → Handled
stop_bot_route user_id bot_id fleet =
    let sid = scoped user_id bot_id in
    let after = stop sid fleet.handles in
    if is_foreign user_id (find_handle sid fleet.handles) then not_found fleet else (
      shown bot_id (state_or stopped (get_state sid after)),
      [],
      record fleet { handles = after },
    )

-- the answer of `get_bot` on the handle it has found
abbrev pub seen : String → String → Option FleetHandle → Response BotAnswer
seen user_id bot_id none = http_error 404 "bot not found"
seen user_id bot_id (some h) =
    if str_eq h.user_id user_id
    then answer (bot_state (record { bot_id = bot_id; state = h.state; last_error = h.last_error }))
    else http_error 404 "bot not found"

-- `get_bot`
unfoldable pub get_bot_route : String → String → Fleet → Handled
get_bot_route user_id bot_id fleet =
    (seen user_id bot_id (find_handle (scoped user_id bot_id) fleet.handles), [], fleet)

-- `kill_all_bots`
unfoldable pub kill_all_route : String → Fleet → Handled
kill_all_route user_id fleet =
    let done = kill_all (some user_id) fleet.handles in
    let prefix = str_append user_id ":" in
    (
      answer (kill_all_response (map (remove_prefix prefix) done.0)),
      done.1,
      record fleet { handles = done.2 },
    )

module _ {R P : Type 0} (launch : String → String → R → Result P) where
  -- `start_bot`
  unfoldable pub start_bot_route : String → String → R → Fleet → Handled
  start_bot_route user_id bot_id body fleet =
      let sid = scoped user_id bot_id in launched bot_id sid user_id (launch sid user_id body) fleet

  -- the routes of an authenticated user
  unfoldable pub handle : String → BotCall R → Fleet → Handled
  unfolding start_bot_route kill_all_route kill_bot_route stop_bot_route get_bot_route
  handle user_id (start_call bot_id body) fleet = start_bot_route user_id bot_id body fleet
  handle user_id kill_all_call fleet = kill_all_route user_id fleet
  handle user_id (kill_call bot_id) fleet = kill_bot_route user_id bot_id fleet
  handle user_id (stop_call bot_id) fleet = stop_bot_route user_id bot_id fleet
  handle user_id (get_call bot_id) fleet = get_bot_route user_id bot_id fleet

  -- requests one after the other, with the answer each user gets
  unfoldable pub serve_all :
      List (String × BotCall R) → Fleet → List (String × Response BotAnswer) × Fleet
  unfolding handle
  serve_all [] fleet = ([], fleet)
  serve_all ((user_id, call) ∷ calls) fleet =
      let done = handle user_id call fleet in
      let rest = serve_all calls done.2 in ((user_id, done.0) ∷ rest.0, rest.1)

-- `{k.lower(): v for k, v in request.headers.items()}`
abbrev pub set_header : String → String → List (String × String) → List (String × String)
set_header k v [] = (k, v) ∷ []
set_header k v ((j, old) ∷ rest) =
    let later = set_header k v rest in if str_eq j k then (j, v) ∷ rest else (j, old) ∷ later

abbrev pub lowered :
    (String → String) → List (String × String) → List (String × String) → List (String × String)
lowered lower [] taken = taken
lowered lower ((k, v) ∷ rest) taken = lowered lower rest (set_header (lower k) v taken)

-- the identity that the dependency of a route gives it, or its refusal
abbrev pub identified : Result String → (String → Handled) → Fleet → Handled
identified (ok user_id) route fleet = route user_id
identified (raised (internal_auth_error m)) route fleet = (http_error 401 m, [], fleet)
identified (raised e) route fleet = (unhandled e, [], fleet)

module _ {B : Type 0} (lib : Primitives B) (lower : String → String) where
  -- `internal_identity`, as far as it verifies
  unfoldable pub internal_identity : InternalAuthenticator B → Request B → ℤ → Result String
  internal_identity auth request clock =
      let headers = lowered lower request.headers [] in
      verify lib auth (record request { headers = headers }) none clock

  -- a route behind its dependency
  unfoldable pub serve :
      {R P : Type 0}
      → (String → String → R → Result P)
      → InternalAuthenticator B
      → Request B
      → ℤ
      → BotCall R
      → Fleet
      → Handled
  serve launch auth request clock call fleet =
      identified (internal_identity auth request clock)
        (λ user_id. handle launch user_id call fleet) fleet
