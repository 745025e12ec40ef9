-- ===== src/Api/Symbols/Grammar.antt =====
-- apps/bot-engine/app/api/schemas.py: which symbols match the patterns.
use xbottrader.Api.Symbols.Repeats.{
  AreIn, plus_sound, plus_complete, up_to_sound, up_to_complete, one_of_sound, lit_sound,
}
use xbottrader.Market.Session.{asset_class_for}
use xbottrader.Launch.Production.{is_us_equity}
use xbottrader.Api.Symbols.{
  at_end, one_of, plus, up_to, optional, is_upper, is_upper_or_digit, crypto_symbol_re,
  equity_symbol_re, validate_symbol,
}
use xbottrader.Prelude.{
  ◌==◌, if◌then◌else◌, or-cases, or-right, length, Exception, ok, raise_if, codes, ℕ, ◌≤◌, String,
  ◌≡◌, refl, ap, ◌∙◌, ◌↔◌, ◌⊎◌, inl, inr, Bool, true, false, not, List, [], ◌∷◌, ◌++◌, arith,
}

-- what is left after the pattern: nothing, or one newline
abbrev pub IsTail : List ℕ → Type 0
IsTail cs = (cs ≡ []) ⊎ (cs ≡ 10 ∷ [])

-- BASE/QUOTE, in capitals and digits
abbrev pub IsPair : List ℕ → Type 0
IsPair cs =
    (base : List ℕ) × (quote : List ℕ) × (tail : List ℕ) × (cs ≡ base ++ 47 ∷ (quote ++ tail))
    × AreIn is_upper_or_digit base
    × AreIn is_upper_or_digit quote
    × IsTail tail

-- what follows the letters of a ticker: nothing, or a dot and a capital, and then what `$` lets through
abbrev IsSuffix : List ℕ → Type 0
IsSuffix cs =
    IsTail cs
    ⊎ ((c : ℕ) × (tail : List ℕ) × (cs ≡ 46 ∷ c ∷ tail) × (is_upper c ≡ true) × IsTail tail)

-- one to five capitals, and the suffix
abbrev pub IsTicker : List ℕ → Type 0
IsTicker cs =
    (letters : List ℕ) × (rest : List ℕ) × (cs ≡ letters ++ rest)
    × AreIn is_upper letters
    × (length letters ≤ 5)
    × IsSuffix rest

IsTail-at_end : (cs : List ℕ) → IsTail cs → at_end cs ≡ true
IsTail-at_end cs (inl e) = ap at_end e
IsTail-at_end cs (inr e) = ap at_end e

at_end-IsTail : (cs : List ℕ) → at_end cs ≡ true → IsTail cs
at_end-IsTail [] h = inl refl
at_end-IsTail (c ∷ []) h = let e : c ≡ 10 = ground arith in inr (ap (λ x. x ∷ []) e)
at_end-IsTail (c ∷ d ∷ cs) h = absurd cc

dotted_sound :
    (cs : List ℕ) → one_of (λ c. c == 46) (one_of is_upper at_end) cs ≡ true → IsSuffix cs
dotted_sound cs h =
    let (rest, e, m) = lit_sound 46 (one_of is_upper at_end) cs h in
    let (c, tail, e', upper, ends) = one_of_sound is_upper at_end rest m in
    inr (c, tail, e ∙ ap (λ x. 46 ∷ x) e', upper, at_end-IsTail tail ends)

suffix_sound :
    (cs : List ℕ)
    → optional (λ next. one_of (λ c. c == 46) (one_of is_upper next)) at_end cs ≡ true
    → IsSuffix cs
suffix_sound cs h =
    elim (or-cases (one_of (λ c. c == 46) (one_of is_upper at_end) cs) (at_end cs) h) [
      | inl dot ↦ dotted_sound cs dot
      | inr ends ↦ inl (at_end-IsTail cs ends)
    ]

suffix_complete :
    (cs : List ℕ)
    → IsSuffix cs
    → optional (λ next. one_of (λ c. c == 46) (one_of is_upper next)) at_end cs ≡ true
suffix_complete cs (inl t) =
    let ends = IsTail-at_end cs t in
    rw ends (or-right (one_of (λ c. c == 46) (one_of is_upper at_end) cs))
suffix_complete cs (inr (c, tail, e, upper, t)) =
    let ends = IsTail-at_end tail t in
    ap (optional (λ next. one_of (λ c. c == 46) (one_of is_upper next)) at_end) e
    ∙ rw upper (rw ends refl)

crypto_symbol_re-IsPair : (s : String) → crypto_symbol_re s ≡ true → IsPair (codes s)
unfolding crypto_symbol_re
crypto_symbol_re-IsPair s h =
    let (base, rest, e, b, m) =
      plus_sound is_upper_or_digit (one_of (λ c. c == 47) (plus is_upper_or_digit at_end)) (codes s)
        h in
    let (after, e', m') = lit_sound 47 (plus is_upper_or_digit at_end) rest m in
    let (quote, tail, e'', q, ends) = plus_sound is_upper_or_digit at_end after m' in
    (
      base,
      quote,
      tail,
      e ∙ ap (λ x. base ++ x) e' ∙ ap (λ x. base ++ 47 ∷ x) e'',
      b,
      q,
      at_end-IsTail tail ends,
    )

IsPair-crypto_symbol_re : (s : String) → IsPair (codes s) → crypto_symbol_re s ≡ true
unfolding crypto_symbol_re
IsPair-crypto_symbol_re s (base, quote, tail, e, b, q, t) =
    ap (plus is_upper_or_digit (one_of (λ c. c == 47) (plus is_upper_or_digit at_end))) e
    ∙ plus_complete is_upper_or_digit (one_of (λ c. c == 47) (plus is_upper_or_digit at_end)) base
        (47 ∷ (quote ++ tail)) b
        (plus_complete is_upper_or_digit at_end quote tail q (IsTail-at_end tail t))

equity_symbol_re-IsTicker : (s : String) → equity_symbol_re s ≡ true → IsTicker (codes s)
unfolding equity_symbol_re
equity_symbol_re-IsTicker s h =
    let next = optional (λ next. one_of (λ c. c == 46) (one_of is_upper next)) at_end in
    let ((letters, rest, e, a, m), bound) = up_to_sound 4 is_upper next (codes s) h in
    (letters, rest, e, a, bound, suffix_sound rest m)

IsTicker-equity_symbol_re : (s : String) → IsTicker (codes s) → equity_symbol_re s ≡ true
unfolding equity_symbol_re
IsTicker-equity_symbol_re s (letters, rest, e, a, bound, m) =
    let next = optional (λ next. one_of (λ c. c == 46) (one_of is_upper next)) at_end in
    ap (up_to 4 is_upper next) e
    ∙ up_to_complete 4 is_upper next letters rest a bound (suffix_complete rest m)

-- the symbols of an asset class
abbrev pub IsSymbol : Bool → List ℕ → Type 0
IsSymbol true cs = IsTicker cs
IsSymbol false cs = IsPair cs

unless-ok : (b : Bool) (e : Exception) → raise_if (not b) e ≡ ok tt → b ≡ true
unless-ok true e h = refl
unless-ok false e h = absurd cc

checked_iff :
    (equity : Bool) (s : String) (e e' : Exception)
    → ((if equity
          then raise_if (not (equity_symbol_re s)) e
          else raise_if (not (crypto_symbol_re s)) e')
        ≡ ok tt)
      ↔ IsSymbol equity (codes s)
checked_iff true s e e' = (
  λ h. equity_symbol_re-IsTicker s (unless-ok (equity_symbol_re s) e h),
  λ t. rw (IsTicker-equity_symbol_re s t) refl,
)
checked_iff false s e e' = (
  λ h. crypto_symbol_re-IsPair s (unless-ok (crypto_symbol_re s) e' h),
  λ t. rw (IsPair-crypto_symbol_re s t) refl,
)

-- `validate_symbol` accepts exactly the symbols of the asset class of the exchange: on the equity venues one to
-- five capitals, then at most a dot and a capital; elsewhere capitals and digits on both sides of a
-- slash; and in both cases a last newline, which `$` lets through.
pub validate_symbol_iff :
    (exchange symbol : String)
    → (validate_symbol exchange symbol ≡ ok tt)
      ↔ IsSymbol (is_us_equity (asset_class_for exchange)) (codes symbol)
unfolding validate_symbol
validate_symbol_iff exchange symbol =
    checked_iff (is_us_equity (asset_class_for exchange)) symbol _ _
