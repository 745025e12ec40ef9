-- ===== src/Strategy/Grid.antt =====
-- packages/xbt-core/xbt_core/strategies/grid.py. The Python list `lots` is kept with its end as the
-- head, so that `append` and `pop` work on the head.
pub mod Lots
mod Tests
use xbottrader.Prelude.{
  ltb, if◌then◌else◌, value_error, Result, ok, ◌>>=◌, ◌>>◌, raise_if, ℕ, zero, suc, ◌+◌, ◌-◌,
  String, not, ◌&&◌, ◌||◌, Option, none, some, List, [], ◌∷◌, str_eq,
}
use xbottrader.Decimal.{Decimal, ◌⊕◌, ◌⊖◌, ◌⊗◌, ◌⊘◌, ◌⩽◌, ◌⋖◌, is_nonpos}
use xbottrader.Strategy.Base.{buy, sell, price_tag, OrderIntent, market_order, OnBar}

pub record GridParams (D : Type 0) : Type 0 where
  pub symbol : String
  pub lower_price : D
  pub upper_price : D
  pub grid_levels : ℕ
  pub total_quote : D

-- the keys of `state.custom`
pub record GridSlots (D : Type 0) : Type 0 where
  pub prev_close : Option D
  pub lots : List D

module _ {D : Type 0} ⦃d : Decimal D⦄ where
  -- `GridParams.__post_init__`
  unfoldable pub grid_params : GridParams D → Result (GridParams D)
  grid_params p = do
    raise_if (is_nonpos p.lower_price) (value_error "lower_price must be positive")
    raise_if (p.upper_price ⩽ p.lower_price) (value_error "upper_price must exceed lower_price")
    raise_if (ltb p.grid_levels 2) (value_error "grid_levels must be >= 2")
    raise_if (is_nonpos p.total_quote) (value_error "total_quote must be positive")
    ok p

  -- `[lower_price + step * i for i in range(…)]`, from the index `i` with `n` lines left
  unfoldable pub lines_from : D → D → ℕ → ℕ → List D
  lines_from lower step i zero = []
  lines_from lower step i (suc n) = (lower ⊕ step ⊗ d.of_ℕ i) ∷ lines_from lower step (i + 1) n

  unfoldable pub lines : GridParams D → List D
  unfolding lines_from
  lines p =
      let step = (p.upper_price ⊖ p.lower_price) ⊘ d.of_ℕ (p.grid_levels - 1) in
      lines_from p.lower_price step 0 p.grid_levels

  unfoldable pub quote_per_level : GridParams D → D
  quote_per_level p = p.total_quote ⊘ d.of_ℕ (p.grid_levels - 1)

  -- `sorted(xs)`, and `sorted(xs, reverse=True)`: both keep the order of equal elements
  insert_asc : D → List D → List D
  insert_asc x [] = x ∷ []
  insert_asc x (y ∷ ys) = if x ⩽ y then x ∷ y ∷ ys else y ∷ insert_asc x ys

  unfoldable pub sorted_asc : List D → List D
  unfolding insert_asc
  sorted_asc [] = []
  sorted_asc (x ∷ xs) = insert_asc x (sorted_asc xs)

  insert_desc : D → List D → List D
  insert_desc x [] = x ∷ []
  insert_desc x (y ∷ ys) = if y ⩽ x then x ∷ y ∷ ys else y ∷ insert_desc x ys

  unfoldable pub sorted_desc : List D → List D
  unfolding insert_desc
  sorted_desc [] = []
  sorted_desc (x ∷ xs) = insert_desc x (sorted_desc xs)

  -- the loop of a falling bar: a lot is bought at each line with `prev > line >= curr`
  unfoldable pub buy_lines :
      GridParams D → D → D → List D → List D → Result (List (OrderIntent D) × List D)
  buy_lines p prev curr [] lots = ok ([], lots)
  buy_lines p prev curr (line ∷ rest) lots =
      let qty = quote_per_level p ⊘ line in
      let skipped = buy_lines p prev curr rest lots in
      let bought = buy_lines p prev curr rest (qty ∷ lots) in
      if line ⋖ prev && curr ⩽ line
      then (do
        intent ← market_order p.symbol buy qty (price_tag "grid-buy" line)
        (intents, lots') ← bought
        ok (intent ∷ intents, lots'))
      else skipped

  -- the loop of a rising bar: a held lot is sold at each line with `prev < line <= curr`
  unfoldable pub sell_lines :
      GridParams D → D → D → List D → List D → Result (List (OrderIntent D) × List D)
  sell_lines p prev curr [] lots = ok ([], lots)
  sell_lines p prev curr (line ∷ rest) [] = sell_lines p prev curr rest []
  sell_lines p prev curr (line ∷ rest) (qty ∷ lots) =
      let skipped = sell_lines p prev curr rest (qty ∷ lots) in
      let popped = sell_lines p prev curr rest lots in
      if prev ⋖ line && line ⩽ curr
      then (do
        intent ← market_order p.symbol sell qty (price_tag "grid-sell" line)
        (intents, lots') ← popped
        ok (intent ∷ intents, lots'))
      else skipped

  -- the branch on `prev` once the reference price has been updated
  unfoldable pub trade :
      GridParams D → Option D → D → List D → Result (List (OrderIntent D) × List D)
  unfolding buy_lines sell_lines lines sorted_asc sorted_desc
  trade p none curr lots = ok ([], lots)
  trade p (some prev) curr lots =
      if curr ⋖ prev
      then buy_lines p prev curr (sorted_desc (lines p)) lots
      else if prev ⋖ curr
      then sell_lines p prev curr (sorted_asc (lines p)) lots
      else ok ([], lots)

  unfoldable pub on_bar : GridParams D → OnBar D (GridSlots D)
  on_bar p bar state =
      if not (str_eq bar.symbol p.symbol) || is_nonpos bar.close then ok ([], state) else do
        (intents, lots) ← trade p state.custom.prev_close bar.close state.custom.lots
        let slots : GridSlots D = record { prev_close = some bar.close; lots = lots }
        ok (intents, record state { custom = slots })
