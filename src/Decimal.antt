-- ===== src/Decimal.antt =====
-- Python's `decimal.Decimal`, through what the program does with it. The arithmetic rounds to the
-- digits of its context, so that it is a parameter: the operations are a record, and a theorem that
-- needs a law of them says which.
pub mod Whole
use xbottrader.Prelude.{
  if◌then◌else◌, ℕ, ◌<◌, String, ◌≡◌, ◌⊎◌, Bool, true, not, Option, List, [], ◌∷◌,
}

pub record Decimal (D : Type 0) : Type 0 where
  -- `Decimal(n)` and `Decimal(text)`, where `none` is `InvalidOperation`
  pub of_ℕ : ℕ → D
  pub parse : String → Option D
  pub add : D → D → D
  pub sub : D → D → D
  pub mul : D → D → D
  -- the quotient where the divisor is not zero; the code guards each division
  pub div : D → D → D
  pub neg : D → D
  pub le : D → D → Bool
  -- `a == b`, which ignores trailing zeros
  pub eq : D → D → Bool
  -- `a.is_nan()`
  pub is_nan : D → Bool

module _ {D : Type 0} ⦃d : Decimal D⦄ where
  infixl 65 ◌⊕◌ ◌⊖◌
  infixl 70 ◌⊗◌ ◌⊘◌
  infix 50 ◌⩽◌ ◌⋖◌
  abbrev pub ◌⊕◌ : D → D → D
  a ⊕ b = d.add a b

  abbrev pub ◌⊖◌ : D → D → D
  a ⊖ b = d.sub a b

  abbrev pub ◌⊗◌ : D → D → D
  a ⊗ b = d.mul a b

  abbrev pub ◌⊘◌ : D → D → D
  a ⊘ b = d.div a b

  -- `a <= b` and `a < b` of numbers that are no NaN, so that `<` is the negation of the reversed
  -- `<=`. A comparison by order that a NaN can reach is guarded where the code makes it.
  abbrev pub ◌⩽◌ : D → D → Bool
  a ⩽ b = d.le a b

  abbrev pub ◌⋖◌ : D → D → Bool
  a ⋖ b = not (d.le b a)

  -- `min(a, b)` and `max(a, b)` return the first argument on a tie
  abbrev pub min_of : D → D → D
  min_of a b = if b ⋖ a then b else a

  abbrev pub max_of : D → D → D
  max_of a b = if a ⋖ b then b else a

  -- `sum(xs, Decimal(0))` adds from the left
  abbrev pub sum_from : D → List D → D
  sum_from acc [] = acc
  sum_from acc (x ∷ xs) = sum_from (acc ⊕ x) xs

  abbrev pub sum : List D → D
  sum xs = sum_from (d.of_ℕ 0) xs

module _ (D : Type 0) ⦃d : Decimal D⦄ where
  -- `Decimal(0)`
  abbrev pub zero_of : D
  zero_of = d.of_ℕ 0

-- `x > 0`
module _ {D : Type 0} ⦃d : Decimal D⦄ where
  abbrev pub is_pos : D → Bool
  is_pos x = d.of_ℕ 0 ⋖ x

  -- `x <= 0`
  abbrev pub is_nonpos : D → Bool
  is_nonpos x = x ⩽ d.of_ℕ 0

-- The order of numbers that are no NaN.
pub record IsOrdered (D : Type 0) ⦃d : Decimal D⦄ : Type 0 where
  pub le_refl : (a : D) → (a ⩽ a) ≡ true
  pub le_total : (a b : D) → ((a ⩽ b) ≡ true) ⊎ ((b ⩽ a) ≡ true)
  pub le_trans : (a b c : D) → (a ⩽ b) ≡ true → (b ⩽ c) ≡ true → (a ⩽ c) ≡ true

-- The sign of a product and of a quotient of positive numbers, where neither underflows.
pub record HasSigns (D : Type 0) ⦃d : Decimal D⦄ : Type 0 where
  pub of_ℕ_pos : (n : ℕ) → 0 < n → is_pos (d.of_ℕ n) ≡ true
  pub div_pos : (a b : D) → is_pos a ≡ true → is_pos b ≡ true → is_pos (a ⊘ b) ≡ true
  pub mul_nonneg :
      (a b : D) → (d.of_ℕ 0 ⩽ a) ≡ true → (d.of_ℕ 0 ⩽ b) ≡ true → (d.of_ℕ 0 ⩽ (a ⊗ b)) ≡ true

-- Sums, differences and products while every result fits the context's digits, so that none is
-- rounded.
pub record IsExact (D : Type 0) ⦃d : Decimal D⦄ : Type 0 where
  pub add_comm : (a b : D) → a ⊕ b ≡ b ⊕ a
  pub add_assoc : (a b c : D) → a ⊕ b ⊕ c ≡ a ⊕ (b ⊕ c)
  pub add_zero : (a : D) → a ⊕ d.of_ℕ 0 ≡ a
  pub sub-eq-add-neg : (a b : D) → a ⊖ b ≡ a ⊕ d.neg b
  pub add-neg : (a : D) → a ⊕ d.neg a ≡ d.of_ℕ 0
