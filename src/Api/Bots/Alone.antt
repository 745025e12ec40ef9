-- ===== src/Api/Bots/Alone.antt =====
-- apps/bot-engine/app/api/bots.py: what a route does for its user, and what the other users see of it.
use xbottrader.Api.Bots.Changes.{
  KeepsOthers, put_found-KeepsOthers, put_found-own, targets_of-AreScopedTo, targets_of-own,
  kill_each-KeepsOthers, kill_each-own,
}
use xbottrader.Api.Bots.Isolation.{
  own, IsScopedTo, AreScoped, set_handle-AreScoped, find-own, own-set_handle,
}
use Prim.Native.String.{◌++◌ as str_append}
use xbottrader.Api.{Response, answer, http_error}
use xbottrader.Runtime.Supervisor.{BotState, starting, stopped, killed}
use xbottrader.Api.Bots.{
  scoped, BotAnswer, kill_all_response, BotCall, start_call, kill_all_call, kill_call, stop_call,
  get_call, Handled, state_or, shown, launch_error, started, launched, is_foreign, kill_bot_route,
  stop_bot_route, seen, get_bot_route, kill_all_route, start_bot_route, handle,
}
use xbottrader.Runtime.Control.{
  FleetHandle, Fleet, FleetEffect, find_handle, set_handle, is_running, start, stopped_by,
  killed_by, put_found, stop, kill_effects, kill, targets_of, kill_each, kill_all, get_state,
}
use xbottrader.Prelude.{
  if◌then◌else◌, runtime_error, Result, raised, ok, raise_if, ◌>>◌, remove_prefix, has_code, ℕ,
  String, ◌≡◌, refl, sym, ap, subst, ◌∙◌, Bool, true, false, Option, some, List, [], map, str_eq,
  str_eq_iff,
}

-- The calls of `u` on all bots, and the ones on its own bots alone: one answer, one effect, and the bots
-- of `u` are the same after both. `n` is the number of tasks without a handle, which differs.
pub record AsAlone (u : String) (done alone : Handled) : Type 0 where
  pub answers : alone.0 ≡ done.0
  pub effects : alone.1 ≡ done.1
  pub bots : alone.2.handles ≡ own u done.2.handles

abbrev pub alone_fleet : String → ℕ → Fleet → Fleet
alone_fleet u n fleet = record { handles = own u fleet.handles; orphans = n }

scoped-IsScopedTo : (u b : String) → has_code 58 u ≡ false → IsScopedTo u (scoped u b)
scoped-IsScopedTo u b e = (e, (b, refl))

keeps_refl : (u : String) (hs : List (String × FleetHandle)) → AreScoped hs → KeepsOthers u hs hs
keeps_refl u hs ts = record { still = ts; others = λ w e. refl }

if-KeepsOthers :
    (b : Bool) (u : String) (hs : List (String × FleetHandle)) (x y : Handled)
    → KeepsOthers u hs x.2.handles
    → KeepsOthers u hs y.2.handles
    → KeepsOthers u hs (if b then x else y).2.handles
if-KeepsOthers true u hs x y kx ky = kx
if-KeepsOthers false u hs x y kx ky = ky

if-AsAlone :
    (b c : Bool) (u : String) (x y x' y' : Handled)
    → c ≡ b
    → AsAlone u x x'
    → AsAlone u y y'
    → AsAlone u (if b then x else y) (if c then x' else y')
if-AsAlone true c u x y x' y' e ax ay = rw e ax
if-AsAlone false c u x y x' y' e ax ay = rw e ay

module _ {R P : Type 0} (launch : String → String → R → Result P) (u : String) where
  module _ (fleet : Fleet) (colon_free : has_code 58 u ≡ false) (ts : AreScoped fleet.handles) where
    started-KeepsOthers :
        (running : Bool) (b sid : String) (h : FleetHandle) (m : ℕ)
        → IsScopedTo h.user_id sid
        → h.user_id ≡ u
        → KeepsOthers u fleet.handles
            (started b sid
              (raise_if running (runtime_error "already running")
                >> ok (record { handles = set_handle sid h fleet.handles; orphans = m }))
              fleet).2.handles
    started-KeepsOthers true b sid h m t e = keeps_refl u fleet.handles ts
    started-KeepsOthers false b sid h m t e = record {
      still = set_handle-AreScoped sid h fleet.handles t ts;
      others = λ w d.
          own-set_handle w sid h fleet.handles t ts
          ∙ ap
              (λ x.
                if str_eq x w then set_handle sid h (own w fleet.handles) else own w fleet.handles)
              e
          ∙ rw d refl;
    }

    launched-KeepsOthers :
        (b : String) (plan : Result P)
        → KeepsOthers u fleet.handles (launched b (scoped u b) u plan fleet).2.handles
    unfolding start
    launched-KeepsOthers b (raised e) = keeps_refl u fleet.handles ts
    launched-KeepsOthers b (ok plan) =
        started-KeepsOthers (is_running (find_handle (scoped u b) fleet.handles)) b (scoped u b) _ _
          (scoped-IsScopedTo u b colon_free) refl

    pub handle-KeepsOthers :
        (call : BotCall R) → KeepsOthers u fleet.handles (handle launch u call fleet).2.handles
    unfolding handle start_bot_route kill_all_route kill_bot_route stop_bot_route get_bot_route kill
        kill_all stop
    handle-KeepsOthers (start_call b body) = launched-KeepsOthers b (launch (scoped u b) u body)
    handle-KeepsOthers kill_all_call =
        kill_each-KeepsOthers u (targets_of (some u) fleet.handles) fleet.handles
          (targets_of-AreScopedTo u fleet.handles ts) ts
    handle-KeepsOthers (kill_call b) =
        if-KeepsOthers (is_foreign u (find_handle (scoped u b) fleet.handles)) u fleet.handles _ _
          (keeps_refl u fleet.handles ts)
          (put_found-KeepsOthers u (scoped u b) killed_by fleet.handles (λ h. refl)
            (scoped-IsScopedTo u b colon_free) ts)
    handle-KeepsOthers (stop_call b) =
        if-KeepsOthers (is_foreign u (find_handle (scoped u b) fleet.handles)) u fleet.handles _ _
          (keeps_refl u fleet.handles ts)
          (put_found-KeepsOthers u (scoped u b) stopped_by fleet.handles (λ h. refl)
            (scoped-IsScopedTo u b colon_free) ts)
    handle-KeepsOthers (get_call b) = keeps_refl u fleet.handles ts

    module _ (n : ℕ) where
      alone_found :
          (b : String)
          → find_handle (scoped u b) (own u fleet.handles) ≡ find_handle (scoped u b) fleet.handles
      alone_found b = find-own u (scoped u b) fleet.handles (scoped-IsScopedTo u b colon_free) ts

      same-AsAlone :
          (r : Response BotAnswer) → AsAlone u (r, [], fleet) (r, [], alone_fleet u n fleet)
      same-AsAlone r = record { answers = refl; effects = refl; bots = refl }

      alone_state :
          (b : String) (hs hs' : List (String × FleetHandle))
          → AreScoped hs
          → hs' ≡ own u hs
          → get_state (scoped u b) hs' ≡ get_state (scoped u b) hs
      alone_state b hs hs' k e =
          ap (get_state (scoped u b)) e
          ∙ rw (find-own u (scoped u b) hs (scoped-IsScopedTo u b colon_free) k, get_state) refl

      set_handle-AsAlone :
          (b : String) (h : FleetHandle) (m m' : ℕ)
          → h.user_id ≡ u
          → AsAlone u
              (started b
                (scoped u b)
                (ok (record { handles = set_handle (scoped u b) h fleet.handles; orphans = m }))
                fleet)
              (started b
                (scoped u b)
                (ok (record {
                  handles = set_handle (scoped u b) h (own u fleet.handles);
                  orphans = m';
                }))
                (alone_fleet u n fleet))
      set_handle-AsAlone b h m m' e =
          let t =
            subst (λ x. IsScopedTo x (scoped u b)) (sym e) (scoped-IsScopedTo u b colon_free) in
          let self : str_eq h.user_id u ≡ true = (str_eq_iff h.user_id u).1 e in
          let same = sym (own-set_handle u (scoped u b) h fleet.handles t ts ∙ rw self refl) in
          let still = set_handle-AreScoped (scoped u b) h fleet.handles t ts in
          record {
            answers = ap (λ s. shown b (state_or starting s)) (alone_state b _ _ still same);
            effects = refl;
            bots = same;
          }

      started-AsAlone :
          (running : Bool) (b : String) (h : FleetHandle) (m m' : ℕ)
          → h.user_id ≡ u
          → AsAlone u
              (started b
                (scoped u b)
                (raise_if running (runtime_error "already running")
                  >> ok (record { handles = set_handle (scoped u b) h fleet.handles; orphans = m }))
                fleet)
              (started b
                (scoped u b)
                (raise_if running (runtime_error "already running")
                  >> ok (record {
                    handles = set_handle (scoped u b) h (own u fleet.handles);
                    orphans = m';
                  }))
                (alone_fleet u n fleet))
      started-AsAlone true b h m m' e = same-AsAlone (http_error 409 "already running")
      started-AsAlone false b h m m' e = set_handle-AsAlone b h m m' e

      launched-AsAlone :
          (b : String) (plan : Result P)
          → AsAlone u
              (launched b (scoped u b) u plan fleet)
              (launched b (scoped u b) u plan (alone_fleet u n fleet))
      unfolding start
      launched-AsAlone b (raised e) = same-AsAlone (launch_error e)
      launched-AsAlone b (ok plan) = rw (alone_found b) (started-AsAlone _ b _ _ _ refl)

      changed-AsAlone :
          (b : String) (change : FleetHandle → FleetHandle) (d : BotState)
          (effects : Option FleetHandle → List FleetEffect)
          → ((h : FleetHandle) → (change h).user_id ≡ h.user_id)
          → AsAlone u
              (let sid = scoped u b in
                let found = find_handle sid fleet.handles in
                let after = put_found sid change found fleet.handles in
                (
                  shown b (state_or d (get_state sid after)),
                  effects found,
                  record fleet { handles = after },
                ))
              (let sid = scoped u b in
                let found = find_handle sid (own u fleet.handles) in
                let after = put_found sid change found (own u fleet.handles) in
                (
                  shown b (state_or d (get_state sid after)),
                  effects found,
                  record (alone_fleet u n fleet) { handles = after },
                ))
      changed-AsAlone b change d effects keeps =
          let t = scoped-IsScopedTo u b colon_free in
          let same = put_found-own u (scoped u b) change fleet.handles keeps t ts in
          let kept = put_found-KeepsOthers u (scoped u b) change fleet.handles keeps t ts in
          record {
            answers = ap (λ s. shown b (state_or d s)) (alone_state b _ _ kept.still same);
            effects = ap effects (alone_found b);
            bots = same;
          }

      pub handle-AsAlone :
          (call : BotCall R)
          → AsAlone u (handle launch u call fleet) (handle launch u call (alone_fleet u n fleet))
      unfolding handle start_bot_route kill_all_route kill_bot_route stop_bot_route get_bot_route
          kill kill_all stop
      handle-AsAlone (start_call b body) = launched-AsAlone b (launch (scoped u b) u body)
      handle-AsAlone kill_all_call =
          let ids = targets_of-own u fleet.handles in
          let each =
            kill_each-own u (targets_of (some u) fleet.handles) fleet.handles
              (targets_of-AreScopedTo u fleet.handles ts) ts in
          record {
            answers =
                ap (λ x. answer (kill_all_response (map (remove_prefix (str_append u ":")) x))) ids;
            effects = ap (λ x. (kill_each x (own u fleet.handles)).0) ids ∙ each.0;
            bots = ap (λ x. (kill_each x (own u fleet.handles)).1) ids ∙ each.1;
          }
      handle-AsAlone (kill_call b) =
          if-AsAlone (is_foreign u (find_handle (scoped u b) fleet.handles)) _ u _ _ _ _
            (ap (is_foreign u) (alone_found b)) (same-AsAlone (http_error 404 "bot not found"))
            (changed-AsAlone b killed_by killed (kill_effects (scoped u b)) (λ h. refl))
      handle-AsAlone (stop_call b) =
          if-AsAlone (is_foreign u (find_handle (scoped u b) fleet.handles)) _ u _ _ _ _
            (ap (is_foreign u) (alone_found b)) (same-AsAlone (http_error 404 "bot not found"))
            (changed-AsAlone b stopped_by stopped (λ o. []) (λ h. refl))
      handle-AsAlone (get_call b) = record {
        answers = ap (seen u b) (alone_found b);
        effects = refl;
        bots = refl;
      }
