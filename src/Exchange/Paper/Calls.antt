-- ===== src/Exchange/Paper/Calls.antt =====
-- Sequences of calls of exchanges/paper.py, and its invariant.
use xbottrader.Exchange.Base.{FillEvent, Draws, IsFresh}
use xbottrader.Exchange.Paper.Book.{
  has_id, IsDistinct, IsDrawn, IsDrawn-le, has_id-fresh, pop_order-IsDistinct, pop_order-IsDrawn,
  rest_order_fresh, IsDistinct-append, IsDrawn-append,
}
use xbottrader.Exchange.Paper.{
  Paper, mark_of, update_mark, place_market, place_order, cancel_order, close,
}
use xbottrader.Strategy.Base.{OrderIntent, is_limit}
use xbottrader.Decimal.{Decimal, is_nonpos}
use xbottrader.Prelude.{
  is_none, Bool-cases, ◌+◌, String, ◌≡◌, inl, inr, true, false, Option, none, some, List, [], ◌∷◌,
  ◌++◌, arith,
}
use xbottrader.Exchange.Paper.Matching.{keep-IsDistinct, keep-IsDrawn, update_mark-left}

-- The calls of the adapter and of the market feed.
pub data PaperCall (D : Type 0) : Type 0 where
  update : String → D → PaperCall D
  place : OrderIntent D → PaperCall D
  cancel : String → PaperCall D
  close_all : PaperCall D

-- A call places no limit order without a price: `OrderIntent.__post_init__` makes sure.
abbrev pub IsPlaceable : {D : Type 0} → PaperCall D → Type 0
IsPlaceable (update symbol mark) = Unit
IsPlaceable (place o) = is_limit o.type ≡ true → is_none o.limit_price ≡ false
IsPlaceable (cancel id) = Unit
IsPlaceable close_all = Unit

-- What holds of a paper exchange between two calls.
pub record IsBook {D : Type 0} (draws : Draws) (s : Paper D) : Type 0 where
  pub distinct : IsDistinct s.resting
  pub drawn_before : IsDrawn draws s.drawn s.resting

module _ {D : Type 0} ⦃d : Decimal D⦄ (draws : Draws) where
  -- The fills of a call, and the state after it.
  abbrev pub paper_step : PaperCall D → Paper D → List (FillEvent D) × Paper D
  paper_step (update symbol mark) s = update_mark draws symbol mark s
  paper_step (place o) s = ((place_order draws o s).0.immediate_fills, (place_order draws o s).1)
  paper_step (cancel id) s = ([], cancel_order draws id s)
  paper_step close_all s = ([], close draws s)

  abbrev pub paper_run : List (PaperCall D) → Paper D → List (FillEvent D) × Paper D
  paper_run [] s = ([], s)
  paper_run (c ∷ calls) s =
      let rest = paper_run calls (paper_step c s).1 in ((paper_step c s).0 ++ rest.0, rest.1)

  place_market-IsBook :
      (o : OrderIntent D) (mark : Option D) (s : Paper D)
      → IsBook draws s
      → IsBook draws (place_market draws o mark s).1
  unfolding place_market
  place_market-IsBook o none s h = record {
    distinct = h.distinct;
    drawn_before = IsDrawn-le draws s.drawn (s.drawn + 1) s.resting (omega arith) h.drawn_before;
  }
  place_market-IsBook o (some mark) s h = elim (Bool-cases (is_nonpos mark)) [
    | inl worthless ↦ rw worthless (record {
      distinct = h.distinct;
      drawn_before = IsDrawn-le draws s.drawn (s.drawn + 1) s.resting (omega arith) h.drawn_before;
    })
    | inr worth ↦ rw worth (record {
      distinct = h.distinct;
      drawn_before = IsDrawn-le draws s.drawn (s.drawn + 2) s.resting (omega arith) h.drawn_before;
    })
  ]

  place_order-IsBook :
      (o : OrderIntent D) (s : Paper D)
      → IsFresh draws
      → (is_limit o.type ≡ true → is_none o.limit_price ≡ false)
      → IsBook draws s
      → IsBook draws (place_order draws o s).1
  unfolding place_order
  place_order-IsBook o s fresh priced h =
      let new : has_id (draws.ids s.drawn) s.resting ≡ false =
        has_id-fresh draws s.drawn s.resting fresh h.drawn_before in
      elim (Bool-cases (is_limit o.type)) [
        | inl resting ↦
            rw (resting, rest_order_fresh (draws.ids s.drawn) o s.resting new)
              (record {
                distinct = IsDistinct-append (draws.ids s.drawn) o s.resting new h.distinct;
                drawn_before =
                    IsDrawn-append draws (s.drawn + 1) s.drawn o s.resting
                      (IsDrawn-le draws s.drawn (s.drawn + 1) s.resting (omega arith)
                        h.drawn_before)
                      (omega arith) (priced resting);
              })
        | inr at_market ↦ rw at_market (place_market-IsBook o (mark_of s o.symbol) s h)
      ]

  pub paper_step-IsBook :
      (c : PaperCall D) (s : Paper D)
      → IsFresh draws
      → IsPlaceable c
      → IsBook draws s
      → IsBook draws (paper_step c s).1
  unfolding cancel_order close
  paper_step-IsBook (update symbol mark) s fresh p h =
      let (left, more) = update_mark-left draws symbol mark s h.distinct in
      record {
        distinct = rw left (keep-IsDistinct symbol mark s.resting h.distinct);
        drawn_before = rw left (
            keep-IsDrawn symbol mark draws _ s.resting
              (IsDrawn-le draws s.drawn _ s.resting more h.drawn_before));
      }
  paper_step-IsBook (place o) s fresh p h = place_order-IsBook o s fresh p h
  paper_step-IsBook (cancel id) s fresh p h = record {
    distinct = pop_order-IsDistinct id s.resting h.distinct;
    drawn_before = pop_order-IsDrawn draws s.drawn id s.resting h.drawn_before;
  }
  paper_step-IsBook close_all s fresh p h = record { distinct = tt; drawn_before = tt }
