-- ===== src/Exchange/Paper/Once.antt =====
-- No order of exchanges/paper.py is filled twice.
use xbottrader.Exchange.Paper.Ids.{
  IsLive, order_ids, is_listed, AreOnce, ids_of, AreOnce-append, order_ids-append, is_listed-or,
  has_id-last, update_mark-order_ids, is_listed-triggered, is_listed-left, AreOnce-triggered,
  has_id-drawn,
}
use xbottrader.Exchange.Base.{FillEvent, Draws, IsFresh}
use xbottrader.Decimal.{Decimal, is_nonpos}
use xbottrader.Exchange.Paper.Calls.{
  PaperCall, update, place, cancel, close_all, IsPlaceable, IsBook, paper_step, paper_run,
  paper_step-IsBook,
}
use xbottrader.Exchange.Paper.Matching.{is_left, has_id-triggered, update_mark-left}
use xbottrader.Exchange.Paper.Book.{has_id, keep, has_id-fresh, has_id-pop_order, rest_order_fresh}
use xbottrader.Exchange.Paper.{
  Paper, mark_of, is_triggered, build_fill, update_mark, place_market, place_order, cancel_order,
  close,
}
use xbottrader.Strategy.Base.{OrderIntent, is_limit}
use xbottrader.Prelude.{
  Bool-cases, All, ◌+◌, String, ◌≡◌, refl, sym, ◌∙◌, inl, inr, true, false, Option, none, some,
  List, [], ◌∷◌, ◌++◌, arith, str_eq_iff,
}

-- The fills of one call: each is of another order, which was live before and is not live after.
record IsOnceStep {D : Type 0} (draws : Draws) (s : Paper D) (fills : List (FillEvent D))
    (after : Paper D) : Type 0 where
  pub once : AreOnce (order_ids fills)
  pub was_live : (id : String) → is_listed id (order_ids fills) ≡ true → IsLive draws s id
  pub is_spent : (id : String) → is_listed id (order_ids fills) ≡ true → ¬ IsLive draws after id
  pub still_live : (id : String) → IsLive draws after id → IsLive draws s id

module _ {D : Type 0} ⦃d : Decimal D⦄ (draws : Draws) where
  -- a call without a fill
  no_fills-IsOnceStep :
      (s after : Paper D)
      → ((id : String) → IsLive draws after id → IsLive draws s id)
      → IsOnceStep draws s [] after
  no_fills-IsOnceStep s after live = record {
    once = tt;
    was_live = λ id h. absurd (ground arith);
    is_spent = λ id h. absurd (ground arith);
    still_live = live;
  }

  update_mark-IsOnceStep :
      (symbol : String) (mark : D) (s : Paper D)
      → IsFresh draws
      → IsBook draws s
      → IsOnceStep draws s (update_mark draws symbol mark s).0 (update_mark draws symbol mark s).1
  update_mark-IsOnceStep symbol mark s fresh h =
      let (left, more) = update_mark-left draws symbol mark s h.distinct in
      let ids = update_mark-order_ids symbol mark draws s in
      let rested : (id : String)
          → is_listed id (ids_of (keep (is_triggered symbol mark) s.resting)) ≡ true
          → has_id id s.resting ≡ true =
        λ id l. ground (arith, is_listed-triggered symbol mark id s.resting) in
      record {
        once = rw ids (AreOnce-triggered symbol mark s.resting h.distinct);
        was_live = rw ids (λ id l. inl (rested id l));
        is_spent =
            rw (ids, left)
              (λ id l live. elim live [
                | inl rests ↦
                    let gone : has_id id (keep (is_left symbol mark) s.resting) ≡ false =
                      is_listed-left symbol mark id s.resting h.distinct l in
                    ground arith
                | inr (k, le, e) ↦
                    let (j, lt, drawn) =
                      has_id-drawn draws s.drawn id s.resting h.drawn_before (rested id l) in
                    let clash : j ≡ k = fresh.ids_injective j k (sym drawn ∙ e) in
                    omega (arith, more)
              ]);
        still_live = rw left (λ id live. elim live [
          | inl rests ↦ inl (ground (arith, has_id-triggered symbol mark id s.resting))
          | inr (k, le, e) ↦ inr (k, omega (arith, more), e)
        ]);
      }

  place_market-IsOnceStep :
      (o : OrderIntent D) (mark : Option D) (s : Paper D)
      → IsFresh draws
      → IsBook draws s
      → IsOnceStep draws s
          (place_market draws o mark s).0.immediate_fills
          (place_market draws o mark s).1
  unfolding place_market build_fill
  place_market-IsOnceStep o none s fresh h =
      no_fills-IsOnceStep s (record s { drawn = s.drawn + 1 })
        (λ id live. elim live [ inl rests ↦ inl rests | inr (k, le, e) ↦ inr (k, omega arith, e) ])
  place_market-IsOnceStep o (some mark) s fresh h = elim (Bool-cases (is_nonpos mark)) [
    | inl worthless ↦ rw worthless (
        no_fills-IsOnceStep s (record s { drawn = s.drawn + 1 })
          (λ id live. elim live [
            | inl rests ↦ inl rests
            | inr (k, le, e) ↦ inr (k, omega arith, e)
          ]))
    | inr worth ↦ rw worth (record {
      once = (refl, tt);
      was_live = λ id l.
          inr (s.drawn, omega arith, sym ((str_eq_iff (draws.ids s.drawn) id).0 (ground arith)));
      is_spent = λ id l live.
          let same : draws.ids s.drawn ≡ id =
            (str_eq_iff (draws.ids s.drawn) id).0 (ground arith) in
          elim live [
            | inl rests ↦
                let gone : has_id (draws.ids s.drawn) s.resting ≡ false =
                  has_id-fresh draws s.drawn s.resting fresh h.drawn_before in
                let there : has_id (draws.ids s.drawn) s.resting ≡ true = rw same rests in
                ground arith
            | inr (k, le, e) ↦
                let clash : s.drawn ≡ k = fresh.ids_injective s.drawn k (same ∙ e) in omega arith
          ];
      still_live =
          λ id live. elim live [ inl rests ↦ inl rests | inr (k, le, e) ↦ inr (k, omega arith, e) ];
    })
  ]

  place_order-IsOnceStep :
      (o : OrderIntent D) (s : Paper D)
      → IsFresh draws
      → IsBook draws s
      → IsOnceStep draws s (place_order draws o s).0.immediate_fills (place_order draws o s).1
  unfolding place_order
  place_order-IsOnceStep o s fresh h =
      let new : has_id (draws.ids s.drawn) s.resting ≡ false =
        has_id-fresh draws s.drawn s.resting fresh h.drawn_before in
      elim (Bool-cases (is_limit o.type)) [
        | inl rests ↦
            rw (rests, rest_order_fresh (draws.ids s.drawn) o s.resting new)
              (no_fills-IsOnceStep s
                (record s {
                  resting = s.resting ++ (draws.ids s.drawn, o) ∷ [];
                  drawn = s.drawn + 1;
                })
                (λ id live. elim live [
                  | inl there ↦ elim (has_id-last id (draws.ids s.drawn) o s.resting there) [
                    | inl before ↦ inl before
                    | inr same ↦ inr (s.drawn, omega arith, same)
                  ]
                  | inr (k, le, e) ↦ inr (k, omega arith, e)
                ]))
        | inr at_market ↦ rw at_market (place_market-IsOnceStep o (mark_of s o.symbol) s fresh h)
      ]

  paper_step-IsOnceStep :
      (c : PaperCall D) (s : Paper D)
      → IsFresh draws
      → IsBook draws s
      → IsOnceStep draws s (paper_step draws c s).0 (paper_step draws c s).1
  unfolding cancel_order close
  paper_step-IsOnceStep (update symbol mark) s fresh h =
      update_mark-IsOnceStep symbol mark s fresh h
  paper_step-IsOnceStep (place o) s fresh h = place_order-IsOnceStep o s fresh h
  paper_step-IsOnceStep (cancel other) s fresh h =
      no_fills-IsOnceStep s (cancel_order draws other s) (λ id live. elim live [
        | inl rests ↦ inl (ground (arith, has_id-pop_order other id s.resting))
        | inr drawn ↦ inr drawn
      ])
  paper_step-IsOnceStep close_all s fresh h =
      no_fills-IsOnceStep s (close draws s)
        (λ id live. elim live [ inl rests ↦ absurd (ground arith) | inr drawn ↦ inr drawn ])

  paper_run-IsLive :
      (calls : List (PaperCall D)) (s : Paper D) (id : String)
      → IsFresh draws
      → All IsPlaceable calls
      → IsBook draws s
      → is_listed id (order_ids (paper_run draws calls s).0) ≡ true
      → IsLive draws s id
  paper_run-IsLive [] s id fresh p h l = absurd (ground arith)
  paper_run-IsLive (c ∷ calls) s id fresh p h l =
      let step = paper_step-IsOnceStep c s fresh h in
      let after = (paper_step draws c s).1 in
      elim (is_listed-or id (paper_step draws c s).0 (paper_run draws calls after).0 l) [
        | inl now ↦ step.was_live id now
        | inr later ↦ step.still_live id (
            paper_run-IsLive calls after id fresh p.1 (paper_step-IsBook draws c s fresh p.0 h)
              later)
      ]

  paper_run-once :
      (calls : List (PaperCall D)) (s : Paper D)
      → IsFresh draws
      → All IsPlaceable calls
      → IsBook draws s
      → AreOnce (order_ids (paper_run draws calls s).0)
  paper_run-once [] s fresh p h = tt
  paper_run-once (c ∷ calls) s fresh p h =
      let step = paper_step-IsOnceStep c s fresh h in
      let after = (paper_step draws c s).1 in
      let book = paper_step-IsBook draws c s fresh p.0 h in
      rw (order_ids-append (paper_step draws c s).0 (paper_run draws calls after).0) (
        AreOnce-append (order_ids (paper_step draws c s).0)
          (order_ids (paper_run draws calls after).0) step.once
          (paper_run-once calls after fresh p.1 book)
          (λ id now. elim (Bool-cases (is_listed id (order_ids (paper_run draws calls after).0))) [
            | inl later ↦
                absurd (step.is_spent id now (paper_run-IsLive calls after id fresh p.1 book later))
            | inr never ↦ never
          ]))

  -- Over any sequence of calls, each order is filled at most once, whether at its placement or by a
  -- later mark, and only an order that rested at the start or whose id was not drawn then. No id is
  -- drawn twice, every limit order has a price, and the sequence starts between two calls.
  pub paper_run-AreOnce :
      (calls : List (PaperCall D)) (s : Paper D)
      → IsFresh draws
      → All IsPlaceable calls
      → IsBook draws s
      → AreOnce (order_ids (paper_run draws calls s).0)
        × ((id : String)
            → is_listed id (order_ids (paper_run draws calls s).0) ≡ true
            → IsLive draws s id)
  paper_run-AreOnce calls s fresh p h =
      (paper_run-once calls s fresh p h, λ id l. paper_run-IsLive calls s id fresh p h l)
