-- ===== src/Api/Symbols.antt =====
-- The symbols that apps/bot-engine/app/api/schemas.py and apps/ai-engine/app/api/schemas.py accept. A
-- regular expression is a matcher of the code points, as `re.match` tries it from the left.
mod Repeats
pub mod Grammar
mod Tests
use xbottrader.Launch.Production.{is_us_equity}
use xbottrader.Market.Session.{crypto, asset_class_for}
use xbottrader.Prelude.{
  leb, ◌==◌, if◌then◌else◌, value_error, Result, raise_if, codes, ℕ, zero, suc, String, Bool, true,
  false, not, ◌&&◌, ◌||◌, List, [], ◌∷◌,
}

-- what is left of a text is matched by the rest of the pattern
abbrev pub Matcher : Type 0
Matcher = List ℕ → Bool

-- `$` at the end of a pattern: the end, or a last newline
abbrev pub at_end : Matcher
at_end [] = true
at_end (c ∷ []) = c == 10
at_end (c ∷ d ∷ cs) = false

-- one character of a class
abbrev pub one_of : (ℕ → Bool) → Matcher → Matcher
one_of class next [] = false
one_of class next (c ∷ cs) = class c && next cs

-- `class+`
abbrev pub plus : (ℕ → Bool) → Matcher → Matcher
plus class next [] = false
plus class next (c ∷ cs) = let more = plus class next cs in class c && (more || next cs)

-- `class{1,n+1}`
abbrev pub up_to : ℕ → (ℕ → Bool) → Matcher → Matcher
up_to n class next [] = false
up_to zero class next (c ∷ cs) = class c && next cs
up_to (suc n) class next (c ∷ cs) = class c && (up_to n class next cs || next cs)

-- `(pattern)?`
abbrev pub optional : (Matcher → Matcher) → Matcher → Matcher
optional pattern_ next cs = pattern_ next cs || next cs

-- `[A-Z]` and `[A-Z0-9]`
abbrev pub is_upper : ℕ → Bool
is_upper c = leb 65 c && leb c 90

abbrev pub is_upper_or_digit : ℕ → Bool
is_upper_or_digit c = is_upper c || (leb 48 c && leb c 57)

-- `_CRYPTO_SYMBOL_RE`
unfoldable pub crypto_symbol_re : String → Bool
crypto_symbol_re s =
    plus is_upper_or_digit (one_of (λ c. c == 47) (plus is_upper_or_digit at_end)) (codes s)

-- `_EQUITY_SYMBOL_RE`
unfoldable pub equity_symbol_re : String → Bool
equity_symbol_re s =
    up_to 4 is_upper (optional (λ next. one_of (λ c. c == 46) (one_of is_upper next)) at_end)
      (codes s)

-- `validate_symbol`
unfoldable pub validate_symbol : String → String → Result (Unit {0})
validate_symbol exchange symbol =
    if is_us_equity (asset_class_for exchange)
    then raise_if (not (equity_symbol_re symbol)) (value_error "not a valid equity ticker")
    else raise_if (not (crypto_symbol_re symbol)) (value_error "not a valid crypto pair")
