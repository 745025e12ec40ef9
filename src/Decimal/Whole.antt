-- ===== src/Decimal/Whole.antt =====
-- The laws of `Decimal` can be met: whole numbers, with a quotient rounded away from zero.
use xbottrader.Prelude.{
  leb, ◌==◌, if◌then◌else◌, ℕ, zero, suc, ◌+◌, ◌-◌, ◌*◌, ◌/◌, ◌<◌, ◌≡◌, Bool, true, false, none,
  arith,
}
use xbottrader.Decimal.{Decimal, ◌⊗◌, ◌⊘◌, ◌⩽◌, is_pos, IsOrdered, HasSigns, IsExact}

-- `negsuc n` is -(n + 1).
pub data ℤ : Type 0 where
  pos : ℕ → ℤ
  negsuc : ℕ → ℤ

abbrev pub pos_part : ℤ → ℕ
pos_part (pos n) = n
pos_part (negsuc n) = 0

abbrev pub neg_part : ℤ → ℕ
neg_part (pos n) = 0
neg_part (negsuc n) = suc n

abbrev pub sub_ℕ : ℕ → ℕ → ℤ
sub_ℕ a b = if leb b a then pos (a - b) else negsuc (b - a - 1)

abbrev pub add_ℤ : ℤ → ℤ → ℤ
add_ℤ a b = sub_ℕ (pos_part a + pos_part b) (neg_part a + neg_part b)

abbrev pub sub_ℤ : ℤ → ℤ → ℤ
sub_ℤ a b = sub_ℕ (pos_part a + neg_part b) (neg_part a + pos_part b)

abbrev pub mul_ℤ : ℤ → ℤ → ℤ
mul_ℤ a b =
    sub_ℕ (pos_part a * pos_part b + neg_part a * neg_part b)
      (pos_part a * neg_part b + neg_part a * pos_part b)

-- the quotient of the magnitudes, rounded up
abbrev div_up : ℕ → ℕ → ℕ
div_up a b = (a + b - 1) / b

abbrev pub div_ℤ : ℤ → ℤ → ℤ
div_ℤ (pos a) (pos b) = pos (div_up a b)
div_ℤ (pos a) (negsuc b) = sub_ℕ 0 (div_up a (suc b))
div_ℤ (negsuc a) (pos b) = sub_ℕ 0 (div_up (suc a) b)
div_ℤ (negsuc a) (negsuc b) = pos (div_up (suc a) (suc b))

abbrev pub neg_ℤ : ℤ → ℤ
neg_ℤ a = sub_ℕ (neg_part a) (pos_part a)

abbrev pub leb_ℤ : ℤ → ℤ → Bool
leb_ℤ a b = leb (pos_part a + neg_part b) (pos_part b + neg_part a)

abbrev pub eqb_ℤ : ℤ → ℤ → Bool
eqb_ℤ a b = (pos_part a + neg_part b) == (pos_part b + neg_part a)

instance abbrev pub whole : Decimal ℤ
whole = record {
  of_ℕ = pos;
  parse = λ s. none;
  add = add_ℤ;
  sub = sub_ℤ;
  mul = mul_ℤ;
  div = div_ℤ;
  neg = neg_ℤ;
  le = leb_ℤ;
  eq = eqb_ℤ;
  is_nan = λ a. false;
}

pub ℤ-IsOrdered : IsOrdered ℤ
ℤ-IsOrdered = record {
  le_refl = λ a. ground arith;
  le_total = λ a b. ground arith;
  le_trans = λ a b c h k. ground arith;
}

div_up_pos : (a b : ℕ) → 0 < div_up (suc a) (suc b)
div_up_pos a b = grind arith

div_ℤ_pos : (a b : ℤ) → is_pos a ≡ true → is_pos b ≡ true → is_pos (a ⊘ b) ≡ true
div_ℤ_pos (pos zero) b h k = cc
div_ℤ_pos (pos (suc a)) (pos zero) h k = cc
div_ℤ_pos (pos (suc a)) (pos (suc b)) h k = ground (arith, div_up_pos a b)
div_ℤ_pos (pos (suc a)) (negsuc b) h k = ground arith
div_ℤ_pos (negsuc a) b h k = ground arith

mul_ℤ_nonneg : (a b : ℤ) → (pos 0 ⩽ a) ≡ true → (pos 0 ⩽ b) ≡ true → (pos 0 ⩽ (a ⊗ b)) ≡ true
mul_ℤ_nonneg (pos a) (pos b) h k = ground arith
mul_ℤ_nonneg (pos a) (negsuc b) h k = ground arith
mul_ℤ_nonneg (negsuc a) b h k = ground arith

pub ℤ-HasSigns : HasSigns ℤ
ℤ-HasSigns = record {
  of_ℕ_pos = λ n h. ground arith;
  div_pos = div_ℤ_pos;
  mul_nonneg = mul_ℤ_nonneg;
}

pub ℤ-IsExact : IsExact ℤ
ℤ-IsExact = record {
  add_comm = λ a b. ground arith;
  add_assoc = λ a b c. ground arith;
  add_zero = λ a. ground arith;
  sub-eq-add-neg = λ a b. ground arith;
  add-neg = λ a. ground arith;
}
