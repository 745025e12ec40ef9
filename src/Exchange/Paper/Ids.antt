-- ===== src/Exchange/Paper/Ids.antt =====
-- The ids of the fills of exchanges/paper.py, and which orders may still be filled.
use xbottrader.Exchange.Base.{FillEvent, Draws}
use xbottrader.Decimal.{Decimal}
use xbottrader.Exchange.Paper.Matching.{is_left, has_id-triggered}
use xbottrader.Exchange.Paper.Book.{has_id, keep, IsDistinct, IsDrawn}
use xbottrader.Exchange.Paper.{
  PaperConfig, Resting, Paper, is_triggered, build_fill, match_loop, match_resting, update_mark,
}
use xbottrader.Strategy.Base.{OrderIntent}
use xbottrader.Prelude.{
  Bool-cases, ℕ, ◌+◌, ◌≤◌, ◌<◌, String, ◌≡◌, refl, sym, ap, ◌∙◌, ◌⊎◌, inl, inr, Bool, true, false,
  ◌||◌, List, [], ◌∷◌, ◌++◌, arith, str_eq, str_eq_iff,
}

-- An order that may still be filled: it rests, or it is not yet placed.
abbrev pub IsLive : {D : Type 0} → Draws → Paper D → String → Type 0
IsLive draws s id = (has_id id s.resting ≡ true) ⊎ ((k : ℕ) × (s.drawn ≤ k) × (id ≡ draws.ids k))

abbrev pub order_ids : {D : Type 0} → List (FillEvent D) → List String
order_ids [] = []
order_ids (f ∷ fills) = f.exchange_order_id ∷ order_ids fills

abbrev pub is_listed : String → List String → Bool
is_listed id [] = false
is_listed id (i ∷ ids) = str_eq i id || is_listed id ids

-- No text stands in the list twice.
abbrev pub AreOnce : List String → Type 0
AreOnce [] = Unit
AreOnce (i ∷ ids) = (is_listed i ids ≡ false) × AreOnce ids

abbrev pub ids_of : {D : Type 0} → Resting D → List String
ids_of [] = []
ids_of ((i, o) ∷ resting) = i ∷ ids_of resting

pub is_listed-append :
    (id : String) (xs ys : List String)
    → is_listed id xs ≡ false
    → is_listed id ys ≡ false
    → is_listed id (xs ++ ys) ≡ false
is_listed-append id [] ys hx hy = hy
is_listed-append id (x ∷ xs) ys hx hy = ground (arith, is_listed-append id xs ys)

pub AreOnce-append :
    (xs ys : List String)
    → AreOnce xs
    → AreOnce ys
    → ((id : String) → is_listed id xs ≡ true → is_listed id ys ≡ false)
    → AreOnce (xs ++ ys)
AreOnce-append [] ys hx hy apart = hy
AreOnce-append (x ∷ xs) ys hx hy apart = (
  is_listed-append x xs ys hx.0 (apart x (ground (arith, (str_eq_iff x x).1 refl))),
  AreOnce-append xs ys hx.1 hy (λ id h. apart id (ground arith)),
)

pub order_ids-append :
    {D : Type 0} (xs ys : List (FillEvent D)) → order_ids (xs ++ ys) ≡ order_ids xs ++ order_ids ys
order_ids-append [] ys = refl
order_ids-append (x ∷ xs) ys =
    ap (λ (ids : List String). x.exchange_order_id ∷ ids) (order_ids-append xs ys)

pub is_listed-or :
    {D : Type 0} (id : String) (xs ys : List (FillEvent D))
    → is_listed id (order_ids (xs ++ ys)) ≡ true
    → (is_listed id (order_ids xs) ≡ true) ⊎ (is_listed id (order_ids ys) ≡ true)
is_listed-or id [] ys h = inr h
is_listed-or id (x ∷ xs) ys h = ground (arith, is_listed-or id xs ys)

pub has_id-last :
    {D : Type 0} (id i : String) (o : OrderIntent D) (resting : Resting D)
    → has_id id (resting ++ (i, o) ∷ []) ≡ true
    → (has_id id resting ≡ true) ⊎ (id ≡ i)
has_id-last id i o [] h = inr (sym ((str_eq_iff i id).0 (ground arith)))
has_id-last id i o ((j, p) ∷ resting) h = ground (arith, has_id-last id i o resting)

module _ {D : Type 0} ⦃d : Decimal D⦄ (symbol : String) (mark : D) where
  match_loop-order_ids :
      (draws : Draws) (config : PaperConfig) (n : ℕ) (resting : Resting D)
      → order_ids (match_loop draws config symbol mark n resting).0
        ≡ ids_of (keep (is_triggered symbol mark) resting)
  unfolding match_loop build_fill
  match_loop-order_ids draws config n [] = refl
  match_loop-order_ids draws config n ((i, o) ∷ resting) =
      elim (Bool-cases (is_triggered symbol mark o)) [
        | inl hit ↦ rw hit (
            ap (λ (ids : List String). i ∷ ids) (match_loop-order_ids draws config (n + 1) resting))
        | inr left ↦ rw left (match_loop-order_ids draws config n resting)
      ]

  pub update_mark-order_ids :
      (draws : Draws) (s : Paper D)
      → order_ids (update_mark draws symbol mark s).0
        ≡ ids_of (keep (is_triggered symbol mark) s.resting)
  unfolding update_mark match_resting
  update_mark-order_ids draws s = match_loop-order_ids draws s.config s.drawn s.resting

  -- a triggered order rests before the mark and not after it
  pub is_listed-triggered :
      (id : String) (resting : Resting D)
      → has_id id resting ≡ false
      → is_listed id (ids_of (keep (is_triggered symbol mark) resting)) ≡ false
  is_listed-triggered id [] h = refl
  is_listed-triggered id ((i, o) ∷ resting) h = ground (arith, is_listed-triggered id resting)

  pub is_listed-left :
      (id : String) (resting : Resting D)
      → IsDistinct resting
      → is_listed id (ids_of (keep (is_triggered symbol mark) resting)) ≡ true
      → has_id id (keep (is_left symbol mark) resting) ≡ false
  is_listed-left id [] h l = refl
  is_listed-left id ((i, o) ∷ resting) h l = elim (Bool-cases (is_triggered symbol mark o)) [
    | inl hit ↦ elim (Bool-cases (str_eq i id)) [
      | inl same ↦
          rw hit (rw (← (str_eq_iff i id).0 same) (has_id-triggered symbol mark i resting h.0))
      | inr other ↦ rw hit (is_listed-left id resting h.1 (ground arith))
    ]
    | inr stays ↦ elim (Bool-cases (str_eq i id)) [
      | inl same ↦
          let still : is_listed i (ids_of (keep (is_triggered symbol mark) resting)) ≡ true =
            rw ((str_eq_iff i id).0 same) (ground arith) in
          absurd (ground (arith, is_listed-triggered i resting h.0))
      | inr other ↦
          let rest : has_id id (keep (is_left symbol mark) resting) ≡ false =
            is_listed-left id resting h.1 (ground arith) in
          rw (stays, other) rest
    ]
  ]

  pub AreOnce-triggered :
      (resting : Resting D)
      → IsDistinct resting
      → AreOnce (ids_of (keep (is_triggered symbol mark) resting))
  AreOnce-triggered [] h = tt
  AreOnce-triggered ((i, o) ∷ resting) h = elim (Bool-cases (is_triggered symbol mark o)) [
    | inl hit ↦ rw hit (is_listed-triggered i resting h.0, AreOnce-triggered resting h.1)
    | inr left ↦ rw left (AreOnce-triggered resting h.1)
  ]

module _ {D : Type 0} (draws : Draws) where
  pub has_id-drawn :
      (n : ℕ) (id : String) (resting : Resting D)
      → IsDrawn draws n resting
      → has_id id resting ≡ true
      → (k : ℕ) × (k < n) × (id ≡ draws.ids k)
  has_id-drawn n id [] h l = absurd (ground arith)
  has_id-drawn n id ((i, o) ∷ resting) ((k, lt, e), priced, h) l = elim (Bool-cases (str_eq i id)) [
    | inl same ↦ (k, lt, sym ((str_eq_iff i id).0 same) ∙ e)
    | inr other ↦ has_id-drawn n id resting h (ground arith)
  ]
