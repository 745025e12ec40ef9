-- ===== src/Strategy/Position.antt =====
-- One position at a time, as ma_crossover.py and python/momentum.py keep it in `state.custom` under
-- `in_position` and `held_qty`.
use xbottrader.Prelude.{
  key_error, type_error, Result, ok, raised, ◌≡◌, Bool, true, false, Option, none, some, List,
  arith,
}
use xbottrader.Decimal.{Decimal, is_pos}
use xbottrader.Strategy.Runs.{stamp, Replays}
use xbottrader.Strategy.Base.{buy, sell, Bar, OrderIntent}

-- The book holds the quantity of the open position. A buy needs no position and opens one; a sell
-- is of the whole open position, and closes it.
pub data PositionStep {D : Type 0} (before : Option D) (bar : Bar D) (o : OrderIntent D)
    (after : Option D) : Type 0 where
  open_long :
      o.side ≡ buy → before ≡ none → after ≡ some o.quantity → PositionStep before bar o after
  close_long :
      o.side ≡ sell → before ≡ some o.quantity → after ≡ none → PositionStep before bar o after

-- The keys that hold the position. `held_qty` is absent at first, and `None` when no position is held.
pub record PositionSlots (D : Type 0) : Type 0 where
  pub in_position : Bool
  pub held_qty : Option (Option D)

module _ {D : Type 0} where
  -- `qty = state.custom["held_qty"]` where a number is needed: the order's test `qty <= 0` raises on
  -- `None`
  abbrev pub held : PositionSlots D → Result D
  held slots = elim slots.held_qty [
    | none ↦ raised (key_error "held_qty")
    | some none ↦ raised (type_error "held_qty is None")
    | some (some qty) ↦ ok qty
  ]

module _ {D : Type 0} ⦃d : Decimal D⦄ where
  -- The flag and the quantity agree with the book.
  abbrev pub HoldsPosition : Option D → PositionSlots D → Type 0
  HoldsPosition none slots = slots.in_position ≡ false
  HoldsPosition (some qty) slots =
      (slots.in_position ≡ true) × (slots.held_qty ≡ some (some qty)) × (is_pos qty ≡ true)

  pub held_of_HoldsPosition :
      (qty : D) (slots : PositionSlots D) → HoldsPosition (some qty) slots → held slots ≡ ok qty
  held_of_HoldsPosition qty slots h = ground arith

  -- What one bar does to the position: the intents are steps of the book, and the slots follow.
  abbrev pub Turns : Option D → Bar D → Result (List (OrderIntent D) × PositionSlots D) → Type 0
  Turns book bar r =
      (os : List (OrderIntent D)) × (slots : PositionSlots D) × (after : Option D) × (r
        ≡ ok (os, slots))
      × Replays PositionStep book (stamp bar os) after
      × HoldsPosition after slots
