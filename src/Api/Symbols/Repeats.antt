-- ===== src/Api/Symbols/Repeats.antt =====
-- apps/bot-engine/app/api/schemas.py: what the pieces of a pattern match.
use xbottrader.Api.Symbols.{Matcher, one_of, plus, up_to}
use xbottrader.Prelude.{
  ◌==◌, and-cases, or-cases, or-right, length, is_empty, All, ℕ, zero, suc, ◌≤◌, ◌≡◌, refl, ap, ◌∙◌,
  inl, inr, Bool, true, false, ◌||◌, List, [], ◌∷◌, ◌++◌, arith,
}

-- one or more characters of a class
abbrev pub AreIn : (ℕ → Bool) → List ℕ → Type 0
AreIn class cs = (is_empty cs ≡ false) × All (λ c. class c ≡ true) cs

-- what a repetition of a class has matched, before what the rest of the pattern matches
abbrev pub Repeated : (ℕ → Bool) → Matcher → List ℕ → Type 0
Repeated class next cs =
    (xs : List ℕ) × (rest : List ℕ) × (cs ≡ xs ++ rest) × AreIn class xs × (next rest ≡ true)

Repeated-cons :
    (class : ℕ → Bool) (next : Matcher) (c : ℕ) (cs : List ℕ)
    → class c ≡ true
    → Repeated class next cs
    → Repeated class next (c ∷ cs)
Repeated-cons class next c cs h (xs, rest, e, a, m) =
    (c ∷ xs, rest, ap (λ x. c ∷ x) e, (refl, (h, a.1)), m)

pub plus_sound :
    (class : ℕ → Bool) (next : Matcher) (cs : List ℕ)
    → plus class next cs ≡ true
    → Repeated class next cs
plus_sound class next [] h = absurd cc
plus_sound class next (c ∷ cs) h =
    let both = and-cases (class c) (plus class next cs || next cs) h in
    elim (or-cases (plus class next cs) (next cs) both.1) [
      | inl more ↦ Repeated-cons class next c cs both.0 (plus_sound class next cs more)
      | inr done ↦ (c ∷ [], cs, refl, (refl, (both.0, tt)), done)
    ]

pub plus_complete :
    (class : ℕ → Bool) (next : Matcher) (xs rest : List ℕ)
    → AreIn class xs
    → next rest ≡ true
    → plus class next (xs ++ rest) ≡ true
plus_complete class next [] rest a h = absurd cc
plus_complete class next (x ∷ []) rest a h = rw a.1.0 (rw h (or-right (plus class next rest)))
plus_complete class next (x ∷ y ∷ xs) rest a h =
    let more = plus_complete class next (y ∷ xs) rest (refl, a.1.1) h in rw a.1.0 (rw more refl)

-- the same for at most `n + 1` of them
pub up_to_sound :
    (n : ℕ) (class : ℕ → Bool) (next : Matcher) (cs : List ℕ)
    → up_to n class next cs ≡ true
    → (r : Repeated class next cs) × (length r.0 ≤ suc n)
unfolding Repeated-cons
up_to_sound n class next [] h = absurd cc
up_to_sound zero class next (c ∷ cs) h =
    let both = and-cases (class c) (next cs) h in
    ((c ∷ [], cs, refl, (refl, (both.0, tt)), both.1), omega arith)
up_to_sound (suc n) class next (c ∷ cs) h =
    let both = and-cases (class c) (up_to n class next cs || next cs) h in
    elim (or-cases (up_to n class next cs) (next cs) both.1) [
      | inl more ↦
          let rest = up_to_sound n class next cs more in
          let bound = rest.1 in (Repeated-cons class next c cs both.0 rest.0, omega (arith, bound))
      | inr done ↦ ((c ∷ [], cs, refl, (refl, (both.0, tt)), done), omega arith)
    ]

pub up_to_complete :
    (n : ℕ) (class : ℕ → Bool) (next : Matcher) (xs rest : List ℕ)
    → AreIn class xs
    → length xs ≤ suc n
    → next rest ≡ true
    → up_to n class next (xs ++ rest) ≡ true
up_to_complete n class next [] rest a l h = absurd cc
up_to_complete zero class next (x ∷ []) rest a l h = rw a.1.0 h
up_to_complete zero class next (x ∷ y ∷ xs) rest a l h = absurd (omega arith)
up_to_complete (suc n) class next (x ∷ []) rest a l h =
    rw a.1.0 (rw h (or-right (up_to n class next rest)))
up_to_complete (suc n) class next (x ∷ y ∷ xs) rest a l h =
    let more = up_to_complete n class next (y ∷ xs) rest (refl, a.1.1) (omega arith) h in
    rw a.1.0 (rw more refl)

-- a single character, and what is left
pub one_of_sound :
    (class : ℕ → Bool) (next : Matcher) (cs : List ℕ)
    → one_of class next cs ≡ true
    → (c : ℕ) × (rest : List ℕ) × (cs ≡ c ∷ rest) × (class c ≡ true) × (next rest ≡ true)
one_of_sound class next [] h = absurd cc
one_of_sound class next (c ∷ cs) h =
    let both = and-cases (class c) (next cs) h in (c, cs, refl, both.0, both.1)

pub lit_sound :
    (n : ℕ) (next : Matcher) (cs : List ℕ)
    → one_of (λ c. c == n) next cs ≡ true
    → (rest : List ℕ) × (cs ≡ n ∷ rest) × (next rest ≡ true)
lit_sound n next cs h =
    let (c, rest, e, test, m) = one_of_sound (λ c. c == n) next cs h in
    let same : c ≡ n = ground arith in (rest, e ∙ ap (λ x. x ∷ rest) same, m)
