-- ===== src/Exchange/Paper/Book.antt =====
-- The resting orders of exchanges/paper.py: no two share an id, and every id was drawn.
use xbottrader.Prelude.{
  if◌then◌else◌, is_none, Bool-cases, ℕ, ◌≤◌, ◌<◌, String, ◌≡◌, refl, sym, ◌∙◌, inl, inr, Bool,
  false, ◌||◌, [], ◌∷◌, ◌++◌, arith, str_eq, str_eq_iff,
}
use xbottrader.Strategy.Base.{OrderIntent}
use xbottrader.Exchange.Base.{Draws, IsFresh}
use xbottrader.Exchange.Paper.{Resting, rest_order, pop_order}

module _ {D : Type 0} where
  abbrev pub has_id : String → Resting D → Bool
  has_id id [] = false
  has_id id ((i, o) ∷ resting) = str_eq i id || has_id id resting

  -- the orders that pass a test, in their order
  abbrev pub keep : (OrderIntent D → Bool) → Resting D → Resting D
  keep test [] = []
  keep test ((i, o) ∷ resting) =
      let rest = keep test resting in if test o then (i, o) ∷ rest else rest

  -- No two orders share an id.
  abbrev pub IsDistinct : Resting D → Type 0
  IsDistinct [] = Unit
  IsDistinct ((i, o) ∷ resting) = (has_id i resting ≡ false) × IsDistinct resting

  -- Every id is one of the first `drawn` draws, and every order is a limit order with a price.
  abbrev pub IsDrawn : Draws → ℕ → Resting D → Type 0
  IsDrawn draws drawn [] = Unit
  IsDrawn draws drawn ((i, o) ∷ resting) =
      ((k : ℕ) × (k < drawn) × (i ≡ draws.ids k))
      × (is_none o.limit_price ≡ false)
      × IsDrawn draws drawn resting

  pub IsDrawn-le :
      (draws : Draws) (m n : ℕ) (resting : Resting D)
      → m ≤ n
      → IsDrawn draws m resting
      → IsDrawn draws n resting
  IsDrawn-le draws m n [] h k = tt
  IsDrawn-le draws m n ((i, o) ∷ resting) h ((j, lt, e), priced, k) =
      ((j, omega arith, e), priced, IsDrawn-le draws m n resting h k)

  -- a new draw is the id of no resting order
  pub has_id-fresh :
      (draws : Draws) (drawn : ℕ) (resting : Resting D)
      → IsFresh draws
      → IsDrawn draws drawn resting
      → has_id (draws.ids drawn) resting ≡ false
  has_id-fresh draws drawn [] fresh h = refl
  has_id-fresh draws drawn ((i, o) ∷ resting) fresh ((j, lt, e), priced, h) =
      elim (Bool-cases (str_eq i (draws.ids drawn))) [
        | inl same ↦ absurd (
            let clash : j ≡ drawn =
              fresh.ids_injective j drawn (sym e ∙ (str_eq_iff i (draws.ids drawn)).0 same) in
            omega arith)
        | inr other ↦ rw other (has_id-fresh draws drawn resting fresh h)
      ]

  pub has_id-pop_order :
      (id other : String) (resting : Resting D)
      → has_id other resting ≡ false
      → has_id other (pop_order id resting) ≡ false
  unfolding pop_order
  has_id-pop_order id other [] h = refl
  has_id-pop_order id other ((i, o) ∷ resting) h = ground (arith, has_id-pop_order id other resting)

  pub pop_order-IsDistinct :
      (id : String) (resting : Resting D) → IsDistinct resting → IsDistinct (pop_order id resting)
  unfolding pop_order
  pop_order-IsDistinct id [] h = tt
  pop_order-IsDistinct id ((i, o) ∷ resting) h = elim (Bool-cases (str_eq i id)) [
    | inl same ↦ rw same h.1
    | inr other ↦ rw other (has_id-pop_order id i resting h.0, pop_order-IsDistinct id resting h.1)
  ]

  pub pop_order-IsDrawn :
      (draws : Draws) (drawn : ℕ) (id : String) (resting : Resting D)
      → IsDrawn draws drawn resting
      → IsDrawn draws drawn (pop_order id resting)
  unfolding pop_order
  pop_order-IsDrawn draws drawn id [] h = tt
  pop_order-IsDrawn draws drawn id ((i, o) ∷ resting) h = elim (Bool-cases (str_eq i id)) [
    | inl same ↦ rw same h.2
    | inr other ↦ rw other (h.0, h.1, pop_order-IsDrawn draws drawn id resting h.2)
  ]

  -- a popped id is gone
  pub has_id-pop_order_self :
      (id : String) (resting : Resting D)
      → IsDistinct resting
      → has_id id (pop_order id resting) ≡ false
  unfolding pop_order
  has_id-pop_order_self id [] h = refl
  has_id-pop_order_self id ((i, o) ∷ resting) h = elim (Bool-cases (str_eq i id)) [
    | inl same ↦ rw same (rw (← (str_eq_iff i id).0 same) h.0)
    | inr other ↦ rw (other, other) (has_id-pop_order_self id resting h.1)
  ]

  -- an order under a new id goes to the end
  pub rest_order_fresh :
      (id : String) (intent : OrderIntent D) (resting : Resting D)
      → has_id id resting ≡ false
      → rest_order id intent resting ≡ resting ++ (id, intent) ∷ []
  unfolding rest_order
  rest_order_fresh id intent [] h = refl
  rest_order_fresh id intent ((i, o) ∷ resting) h =
      ground (arith, rest_order_fresh id intent resting)

  has_id-append :
      (id i : String) (o : OrderIntent D) (resting : Resting D)
      → has_id id resting ≡ false
      → str_eq i id ≡ false
      → has_id id (resting ++ (i, o) ∷ []) ≡ false
  has_id-append id i o [] h k = rw k
  has_id-append id i o ((j, p) ∷ resting) h k = ground (arith, has_id-append id i o resting)

  pub IsDistinct-append :
      (id : String) (o : OrderIntent D) (resting : Resting D)
      → has_id id resting ≡ false
      → IsDistinct resting
      → IsDistinct (resting ++ (id, o) ∷ [])
  IsDistinct-append id o [] h k = (refl, tt)
  IsDistinct-append id o ((i, p) ∷ resting) h k = (
    has_id-append i id o resting k.0 (ground (arith, str_eq_iff i id, str_eq_iff id i)),
    IsDistinct-append id o resting (ground arith) k.1,
  )

  pub IsDrawn-append :
      (draws : Draws) (drawn k : ℕ) (o : OrderIntent D) (resting : Resting D)
      → IsDrawn draws drawn resting
      → k < drawn
      → is_none o.limit_price ≡ false
      → IsDrawn draws drawn (resting ++ (draws.ids k, o) ∷ [])
  IsDrawn-append draws drawn k o [] h lt priced = ((k, lt, refl), priced, tt)
  IsDrawn-append draws drawn k o ((i, p) ∷ resting) h lt priced =
      (h.0, h.1, IsDrawn-append draws drawn k o resting h.2 lt priced)
