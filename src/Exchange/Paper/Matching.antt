-- ===== src/Exchange/Paper/Matching.antt =====
-- Which resting orders of exchanges/paper.py a new mark fills, and which it leaves.
use xbottrader.Prelude.{
  if◌then◌else◌, Bool-cases, All, ℕ, ◌+◌, ◌≤◌, String, ◌≡◌, refl, sym, ap, subst, ◌∙◌, inl, inr,
  Bool, true, false, not, ◌&&◌, Option, none, some, List, [], ◌∷◌, arith, str_eq, str_eq_iff,
}
use xbottrader.Decimal.{Decimal, ◌⩽◌, min_of, max_of, IsOrdered}
use xbottrader.Strategy.Base.{Side, buy, sell, OrderIntent}
use xbottrader.Exchange.Base.{FillEvent, Draws}
use xbottrader.Exchange.Paper.{
  apply_slippage, build_fill, crossed, limit_base, PaperConfig, Resting, Paper, pop_order,
  pop_orders, is_triggered, limit_fill_price, match_loop, match_resting, update_mark,
}
use xbottrader.Exchange.Paper.Book.{has_id, keep, IsDistinct, IsDrawn}

module _ {D : Type 0} ⦃d : Decimal D⦄ where
  -- The ids of the orders that a mark triggers, and the test of the others.
  abbrev pub triggered_ids : String → D → Resting D → List String
  triggered_ids symbol mark [] = []
  triggered_ids symbol mark ((i, o) ∷ resting) =
      let rest = triggered_ids symbol mark resting in
      if is_triggered symbol mark o then i ∷ rest else rest

  abbrev pub is_left : String → D → OrderIntent D → Bool
  is_left symbol mark o = not (is_triggered symbol mark o)

  -- The mark is at the limit of the order or beyond it, on the side that its owner wants.
  abbrev pub Reaches : Side → D → D → Type 0
  Reaches buy mark at_limit = (mark ⩽ at_limit) ≡ true
  Reaches sell mark at_limit = (at_limit ⩽ mark) ≡ true

  -- The price is no worse for the owner than another.
  abbrev pub IsNoWorse : Side → D → D → Type 0
  IsNoWorse buy price other = (price ⩽ other) ≡ true
  IsNoWorse sell price other = (other ⩽ price) ≡ true

  -- The fill is of the whole order, which the mark has reached, at a price that before slippage is no worse
  -- than its limit and no worse than the mark.
  pub record IsFillOf (config : PaperConfig) (symbol : String) (mark : D) (id : String)
      (o : OrderIntent D) (f : FillEvent D) : Type 0 where
    pub same_order : f.exchange_order_id ≡ id
    pub of_symbol : o.symbol ≡ symbol
    pub same_symbol : f.symbol ≡ o.symbol
    pub same_side : f.side ≡ o.side
    pub whole : f.quantity ≡ o.quantity
    pub at_limit : D
    pub limited : o.limit_price ≡ some at_limit
    pub reached : Reaches o.side mark at_limit
    pub base : D
    pub slipped : f.price ≡ apply_slippage config base o.side
    pub within_limit : IsNoWorse o.side base at_limit
    pub within_mark : IsNoWorse o.side base mark

  -- An order that the mark leaves: of another symbol, without a limit, or with one that is not reached.
  abbrev pub IsUnreached : String → D → OrderIntent D → Type 0
  IsUnreached symbol mark o =
      o.symbol ≡ symbol
      → (at_limit : D) → o.limit_price ≡ some at_limit
      → ¬ Reaches o.side mark at_limit

  -- One fill for each of the orders, in their order.
  abbrev pub AreFillsOf : PaperConfig → String → D → Resting D → List (FillEvent D) → Type 0
  AreFillsOf config symbol mark [] fills = fills ≡ []
  AreFillsOf config symbol mark ((i, o) ∷ resting) fills =
      (f : FillEvent D) × (more : List (FillEvent D)) × (fills ≡ f ∷ more)
      × IsFillOf config symbol mark i o f
      × AreFillsOf config symbol mark resting more

module _ {D : Type 0} ⦃d : Decimal D⦄ (symbol : String) (mark : D) where
  pub has_id-triggered :
      (id : String) (resting : Resting D)
      → has_id id resting ≡ false
      → has_id id (keep (is_left symbol mark) resting) ≡ false
  has_id-triggered id [] h = refl
  has_id-triggered id ((i, o) ∷ resting) h = ground (arith, has_id-triggered id resting)

  pub keep-IsDistinct :
      (resting : Resting D) → IsDistinct resting → IsDistinct (keep (is_left symbol mark) resting)
  keep-IsDistinct [] h = tt
  keep-IsDistinct ((i, o) ∷ resting) h = elim (Bool-cases (is_triggered symbol mark o)) [
    | inl hit ↦ rw hit (keep-IsDistinct resting h.1)
    | inr left ↦ rw left (has_id-triggered i resting h.0, keep-IsDistinct resting h.1)
  ]

  pub keep-IsDrawn :
      (draws : Draws) (n : ℕ) (resting : Resting D)
      → IsDrawn draws n resting
      → IsDrawn draws n (keep (is_left symbol mark) resting)
  keep-IsDrawn draws n [] h = tt
  keep-IsDrawn draws n ((i, o) ∷ resting) h = elim (Bool-cases (is_triggered symbol mark o)) [
    | inl hit ↦ rw hit (keep-IsDrawn draws n resting h.2)
    | inr left ↦ rw left (h.0, h.1, keep-IsDrawn draws n resting h.2)
  ]

  -- ids other than the head's pass the head by
  pop_orders-cons :
      (ids : List String) (i : String) (o : OrderIntent D) (resting : Resting D)
      → All (λ (id : String). str_eq i id ≡ false) ids
      → pop_orders ids ((i, o) ∷ resting) ≡ (i, o) ∷ pop_orders ids resting
  unfolding pop_orders
  pop_orders-cons [] i o resting h = refl
  pop_orders-cons (id ∷ ids) i o resting h =
      rw h.0 (pop_orders-cons ids i o (pop_order id resting) h.1)

  others :
      (i : String) (resting : Resting D)
      → has_id i resting ≡ false
      → All (λ (id : String). str_eq i id ≡ false) (triggered_ids symbol mark resting)
  others i [] h = tt
  others i ((j, o) ∷ resting) h =
      let apart : str_eq i j ≡ false = ground (arith, str_eq_iff i j, str_eq_iff j i) in
      let rest : has_id i resting ≡ false = ground arith in
      elim (Bool-cases (is_triggered symbol mark o)) [
        | inl hit ↦ rw hit (apart, others i resting rest)
        | inr left ↦ rw left (others i resting rest)
      ]

  pop_order_self :
      (i : String) (o : OrderIntent D) (resting : Resting D)
      → pop_order i ((i, o) ∷ resting) ≡ resting
  unfolding pop_order
  pop_order_self i o resting = ground (arith, (str_eq_iff i i).1 refl)

  -- popping the triggered ids leaves the other orders
  pop_orders-eq-keep :
      (resting : Resting D)
      → IsDistinct resting
      → pop_orders (triggered_ids symbol mark resting) resting ≡ keep (is_left symbol mark) resting
  unfolding pop_orders
  pop_orders-eq-keep [] h = refl
  pop_orders-eq-keep ((i, o) ∷ resting) h = elim (Bool-cases (is_triggered symbol mark o)) [
    | inl hit ↦ rw hit (
        ap (pop_orders (triggered_ids symbol mark resting)) (pop_order_self i o resting)
        ∙ pop_orders-eq-keep resting h.1)
    | inr left ↦ rw left (
        pop_orders-cons (triggered_ids symbol mark resting) i o resting (others i resting h.0)
        ∙ ap (λ (r : Resting D). (i, o) ∷ r) (pop_orders-eq-keep resting h.1))
  ]

module _ {D : Type 0} ⦃d : Decimal D⦄ (order : IsOrdered D) where
  -- the smaller and the larger of two numbers
  min_of-within : (a b : D) → ((min_of a b ⩽ a) ≡ true) × ((min_of a b ⩽ b) ≡ true)
  min_of-within a b = elim (order.le_total a b) [
    | inl le ↦ rw le (order.le_refl a, le)
    | inr ge ↦ elim (Bool-cases (a ⩽ b)) [
      | inl le ↦ rw le (order.le_refl a, le)
      | inr gt ↦ rw gt (ge, order.le_refl b)
    ]
  ]

  max_of-within : (a b : D) → ((a ⩽ max_of a b) ≡ true) × ((b ⩽ max_of a b) ≡ true)
  max_of-within a b = elim (Bool-cases (b ⩽ a)) [
    | inl ge ↦ rw ge (order.le_refl a, ge)
    | inr lt ↦ elim (order.le_total a b) [
      | inl le ↦ rw lt (le, order.le_refl b)
      | inr ge ↦ absurd (ground arith)
    ]
  ]

  limit_base-within :
      (side : Side) (mark at_limit : D)
      → IsNoWorse side (limit_base side mark at_limit) at_limit
        × IsNoWorse side (limit_base side mark at_limit) mark
  limit_base-within buy mark at_limit = let (m, l) = min_of-within mark at_limit in (l, m)
  limit_base-within sell mark at_limit = let (m, l) = max_of-within mark at_limit in (l, m)

  crossed-Reaches :
      (side : Side) (mark at_limit : D)
      → crossed side mark at_limit ≡ true
      → Reaches side mark at_limit
  crossed-Reaches buy mark at_limit h = h
  crossed-Reaches sell mark at_limit h = h

  Reaches-crossed :
      (side : Side) (mark at_limit : D)
      → Reaches side mark at_limit
      → crossed side mark at_limit ≡ true
  Reaches-crossed buy mark at_limit h = h
  Reaches-crossed sell mark at_limit h = h

  -- the fill that the loop builds for a triggered order
  built-IsFillOf :
      (draws : Draws) (config : PaperConfig) (symbol : String) (mark : D) (n : ℕ) (i : String)
      (o : OrderIntent D)
      → is_triggered symbol mark o ≡ true
      → IsFillOf config symbol mark i o
          (build_fill draws config n i o (limit_fill_price config mark o) o.quantity)
  unfolding build_fill
  built-IsFillOf draws config symbol mark n i o hit = by_limit o.limit_price refl
    where
      by_limit :
          (p : Option D)
          → o.limit_price ≡ p
          → IsFillOf config symbol mark i o
              (build_fill draws config n i o (limit_fill_price config mark o) o.quantity)
      by_limit none e =
          let never : is_triggered symbol mark o ≡ false = rw e (ground arith) in
          absurd (ground arith)
      by_limit (some at_limit) e =
          let here : (str_eq o.symbol symbol && crossed o.side mark at_limit) ≡ true =
            subst
              (λ (p : Option D).
                (str_eq o.symbol symbol && elim p [ none ↦ false | some x ↦ crossed o.side mark x ])
                ≡ true)
              e hit in
          let within = limit_base-within o.side mark at_limit in
          record {
            same_order = refl;
            of_symbol = (str_eq_iff o.symbol symbol).0 (ground arith);
            same_symbol = refl;
            same_side = refl;
            whole = refl;
            at_limit = at_limit;
            limited = e;
            reached = crossed-Reaches o.side mark at_limit (ground arith);
            base = limit_base o.side mark at_limit;
            slipped = rw e refl;
            within_limit = within.0;
            within_mark = within.1;
          }

  left-IsUnreached :
      (symbol : String) (mark : D) (o : OrderIntent D)
      → is_triggered symbol mark o ≡ false
      → IsUnreached symbol mark o
  left-IsUnreached symbol mark o left same at_limit e reached =
      let hit : is_triggered symbol mark o ≡ true =
        rw (e, (str_eq_iff o.symbol symbol).1 same, Reaches-crossed o.side mark at_limit reached)
          refl in
      absurd (ground arith)

  keep-AreUnreached :
      (symbol : String) (mark : D) (resting : Resting D)
      → All
          (λ (r : String × OrderIntent D). IsUnreached symbol mark r.1)
          (keep (is_left symbol mark) resting)
  keep-AreUnreached symbol mark [] = tt
  keep-AreUnreached symbol mark ((i, o) ∷ resting) =
      let rest = keep-AreUnreached symbol mark resting in
      elim (Bool-cases (is_triggered symbol mark o)) [
        | inl hit ↦ rw hit rest
        | inr left ↦ rw left (left-IsUnreached symbol mark o left, rest)
      ]

module _ {D : Type 0} ⦃d : Decimal D⦄ (draws : Draws) (config : PaperConfig) (symbol : String)
    (mark : D) where
  match_loop_ids :
      (n : ℕ) (resting : Resting D)
      → (match_loop draws config symbol mark n resting).1 ≡ triggered_ids symbol mark resting
  unfolding match_loop
  match_loop_ids n [] = refl
  match_loop_ids n ((i, o) ∷ resting) = elim (Bool-cases (is_triggered symbol mark o)) [
    | inl hit ↦ rw hit (ap (λ (is : List String). i ∷ is) (match_loop_ids (n + 1) resting))
    | inr left ↦ rw left (match_loop_ids n resting)
  ]

  match_loop-draws :
      (n : ℕ) (resting : Resting D) → n ≤ (match_loop draws config symbol mark n resting).2
  unfolding match_loop
  match_loop-draws n [] = omega arith
  match_loop-draws n ((i, o) ∷ resting) = elim (Bool-cases (is_triggered symbol mark o)) [
    | inl hit ↦ rw hit (omega (arith, match_loop-draws (n + 1) resting))
    | inr left ↦ rw left (match_loop-draws n resting)
  ]

  match_loop_fills :
      IsOrdered D
      → (n : ℕ) (resting : Resting D)
      → AreFillsOf config symbol mark
          (keep (is_triggered symbol mark) resting)
          (match_loop draws config symbol mark n resting).0
  unfolding match_loop
  match_loop_fills order n [] = refl
  match_loop_fills order n ((i, o) ∷ resting) = elim (Bool-cases (is_triggered symbol mark o)) [
    | inl hit ↦
        let f = built-IsFillOf order draws config symbol mark n i o hit in
        rw hit (_, _, refl, f, match_loop_fills order (n + 1) resting)
    | inr left ↦ rw left (match_loop_fills order n resting)
  ]

module _ {D : Type 0} ⦃d : Decimal D⦄ (draws : Draws) where
  -- the orders that a mark leaves, and the draws that it takes
  pub update_mark-left :
      (symbol : String)
      → (mark : D) → (s : Paper D) → IsDistinct s.resting
      → ((update_mark draws symbol mark s).1.resting ≡ keep (is_left symbol mark) s.resting)
        × (s.drawn ≤ (update_mark draws symbol mark s).1.drawn)
  unfolding update_mark match_resting
  update_mark-left symbol mark s h = (
    ap (λ (ids : List String). pop_orders ids s.resting)
          (match_loop_ids draws s.config symbol mark s.drawn s.resting)
        ∙ pop_orders-eq-keep symbol mark s.resting h,
    match_loop-draws draws s.config symbol mark s.drawn s.resting,
  )

module _ {D : Type 0} ⦃d : Decimal D⦄ (order : IsOrdered D) (draws : Draws) where
  -- A new mark for a symbol fills the resting limit orders of that symbol whose limit it has reached, each one
  -- whole and at a price that before slippage is no worse than its limit and no worse than the mark, in the
  -- order of their placement. It leaves the others resting, none of which it has reached. No two
  -- resting orders share an id, and prices are ordered.
  pub update_mark-AreFillsOf :
      (symbol : String)
      → (mark : D) → (s : Paper D) → IsDistinct s.resting
      → AreFillsOf s.config symbol mark
          (keep (is_triggered symbol mark) s.resting)
          (update_mark draws symbol mark s).0
        × ((update_mark draws symbol mark s).1.resting ≡ keep (is_left symbol mark) s.resting)
        × All
            (λ (r : String × OrderIntent D). IsUnreached symbol mark r.1)
            (update_mark draws symbol mark s).1.resting
        × (s.drawn ≤ (update_mark draws symbol mark s).1.drawn)
  unfolding update_mark match_resting
  update_mark-AreFillsOf symbol mark s h =
      let (left, more) = update_mark-left draws symbol mark s h in
      (
        match_loop_fills draws s.config symbol mark order s.drawn s.resting,
        left,
        subst (All (λ (r : String × OrderIntent D). IsUnreached symbol mark r.1)) (sym left)
            (keep-AreUnreached order symbol mark s.resting),
        more,
      )
