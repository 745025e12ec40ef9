-- ===== src/Exchange/SessionGuard.antt =====
-- packages/xbt-core/xbt_core/exchanges/session_guard.py: an adapter that places no order while the
-- market is closed. The clock is read once per placement; `guard_draws` counts the placements.
mod Tests
use xbottrader.Prelude.{
  if◌then◌else◌, Bool-cases, Result, ok, ℕ, ◌+◌, String, ◌≡◌, refl, ap, inl, inr, not, List, [],
  ◌∷◌,
}
use xbottrader.Strategy.Base.{OrderIntent}
use xbottrader.Exchange.Base.{rejected, PlacementResult, ExchangeAdapter, Draws}
use xbottrader.Market.Session.{MarketSession}

-- `_inner` and what the guard reads
pub record Guarded (S : Type 0) : Type 0 where
  pub inner : S
  pub guard_draws : ℕ

-- The calls of an adapter.
pub data AdapterCall (D : Type 0) : Type 0 where
  place : OrderIntent D → AdapterCall D
  cancel : String → AdapterCall D
  close : AdapterCall D

-- What a call returns.
pub data Reply (D : Type 0) : Type 0 where
  placement : Result (PlacementResult D) → Reply D
  done : Result (Unit {0}) → Reply D

abbrev pub on_inner : {S R : Type 0} → Guarded S → R × S → R × Guarded S
on_inner g (r, s) = (r, record g { inner = s })

abbrev pub rejection : {D : Type 0} → Draws → ℕ → OrderIntent D → PlacementResult D
rejection draws drawn intent = record {
  order = record {
    exchange_order_id = draws.ids drawn;
    intent = intent;
    submitted_at = draws.utc drawn;
    status = rejected;
  };
  immediate_fills = [];
}

module _ {D S : Type 0} (adapter : ExchangeAdapter D S) (session : MarketSession) (now_ms : ℕ → ℕ)
    (draws : Draws) where
  -- `SessionGuardedAdapter.place_order`
  unfoldable pub guarded_place : OrderIntent D → Guarded S → Result (PlacementResult D) × Guarded S
  guarded_place intent g =
      let ticked : Guarded S = record g { guard_draws = g.guard_draws + 1 } in
      if not (session.is_open (now_ms g.guard_draws))
      then (ok (rejection draws g.guard_draws intent), ticked)
      else on_inner ticked (adapter.place_order intent g.inner)

  -- `SessionGuardedAdapter` as an adapter
  abbrev pub session_guarded : ExchangeAdapter D (Guarded S)
  session_guarded = record {
    venue = λ g. adapter.venue g.inner;
    place_order = guarded_place;
    cancel_order = λ id g. on_inner g (adapter.cancel_order id g.inner);
    close = λ g. on_inner g (adapter.close g.inner);
  }

-- the first reply before the others, and the replies after the first
abbrev take_one : {D : Type 0} → List (Reply D) → List (Reply D) → List (Reply D)
take_one [] others = others
take_one (r ∷ replies) others = r ∷ others

abbrev rest_of : {D : Type 0} → List (Reply D) → List (Reply D)
rest_of [] = []
rest_of (r ∷ replies) = replies

-- A sequence of calls: the replies, and the state after it.
module _ {D S : Type 0} (adapter : ExchangeAdapter D S) where
  abbrev pub call : AdapterCall D → S → Reply D × S
  call (place intent) s =
      (placement (adapter.place_order intent s).0, (adapter.place_order intent s).1)
  call (cancel id) s = (done (adapter.cancel_order id s).0, (adapter.cancel_order id s).1)
  call close s = (done (adapter.close s).0, (adapter.close s).1)

  abbrev pub calls : List (AdapterCall D) → S → List (Reply D) × S
  calls [] s = ([], s)
  calls (c ∷ cs) s = let rest = calls cs (call c s).1 in ((call c s).0 ∷ rest.0, rest.1)

module _ {D S : Type 0} (adapter : ExchangeAdapter D S) (session : MarketSession) (now_ms : ℕ → ℕ)
    (draws : Draws) where
  -- The calls that pass the guard: all but the placements while the market is closed.
  abbrev pub passed : ℕ → List (AdapterCall D) → List (AdapterCall D)
  passed n [] = []
  passed n (place intent ∷ cs) =
      let rest = passed (n + 1) cs in
      if session.is_open (now_ms n) then place intent ∷ rest else rest
  passed n (cancel id ∷ cs) = cancel id ∷ passed n cs
  passed n (close ∷ cs) = close ∷ passed n cs

  -- The replies to all calls: those of the venue to the calls that pass, and to each other placement
  -- an order with the status `rejected`, the intent and the draws of its turn, and no fills.
  abbrev pub with_rejections : ℕ → List (AdapterCall D) → List (Reply D) → List (Reply D)
  with_rejections n [] replies = []
  with_rejections n (place intent ∷ cs) replies =
      let rejected_here =
        placement (
          ok (record {
            order = record {
              exchange_order_id = draws.ids n;
              intent = intent;
              submitted_at = draws.utc n;
              status = rejected;
            };
            immediate_fills = [];
          }))
        ∷ with_rejections (n + 1) cs replies in
      let answered = take_one replies (with_rejections (n + 1) cs (rest_of replies)) in
      if session.is_open (now_ms n) then answered else rejected_here
  with_rejections n (cancel id ∷ cs) replies =
      take_one replies (with_rejections n cs (rest_of replies))
  with_rejections n (close ∷ cs) replies = take_one replies (with_rejections n cs (rest_of replies))

  -- Through the guard the venue sees exactly the calls that pass, in their order, and every other
  -- placement is answered by an order of the status `rejected` with its intent and no fills.
  pub session_guarded-passed :
      (cs : List (AdapterCall D)) (g : Guarded S)
      → (((calls (session_guarded adapter session now_ms draws) cs g).1).inner
          ≡ (calls adapter (passed g.guard_draws cs) g.inner).1)
        × ((calls (session_guarded adapter session now_ms draws) cs g).0
            ≡ with_rejections g.guard_draws cs (calls adapter (passed g.guard_draws cs) g.inner).0)
  unfolding guarded_place
  session_guarded-passed [] g = (refl, refl)
  session_guarded-passed (place intent ∷ cs) g =
      elim (Bool-cases (session.is_open (now_ms g.guard_draws))) [
        | inl opened ↦
            let after = session_guarded-passed cs (record {
              inner = (adapter.place_order intent g.inner).1;
              guard_draws = g.guard_draws + 1;
            }) in
            rw opened (
              after.0,
              ap (λ (rs : List (Reply D)). placement (adapter.place_order intent g.inner).0 ∷ rs)
                  after.1,
            )
        | inr closed ↦
            let after = session_guarded-passed cs (record g { guard_draws = g.guard_draws + 1 }) in
            rw closed (
              after.0,
              ap
                  (λ (rs : List (Reply D)).
                    placement (ok (rejection draws g.guard_draws intent)) ∷ rs)
                  after.1,
            )
      ]
  session_guarded-passed (cancel id ∷ cs) g =
      let after =
        session_guarded-passed cs (record g { inner = (adapter.cancel_order id g.inner).1 }) in
      (after.0, ap (λ (rs : List (Reply D)). done (adapter.cancel_order id g.inner).0 ∷ rs) after.1)
  session_guarded-passed (close ∷ cs) g =
      let after = session_guarded-passed cs (record g { inner = (adapter.close g.inner).1 }) in
      (after.0, ap (λ (rs : List (Reply D)). done (adapter.close g.inner).0 ∷ rs) after.1)
