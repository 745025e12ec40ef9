-- ===== src/Prelude/Texts.antt =====
-- Texts by their characters: Python's `str.removeprefix`, and two texts around a separator.
use Prim.Native.Nat.{ℕ}
use mathlib.Core.List.{List, [], ◌∷◌}
use Prim.Native.Char.{Char, code}
use Prim.Native.String.{String, [], ◌∷◌, ◌++◌}
use mathlib.Core.Path.{◌≡◌, refl, sym, ap, ◌∙◌}
use mathlib.Core.Bool.{Bool, true, false, ◌||◌}
use mathlib.Core.Option.{Option, none, some}
use text.Mathlib.TextLemmas.{nil-append, cons-append, head-eq_of_cons-eq, tail-eq_of_cons-eq}
use native.Mathlib.Omega.{arith}
use xbottrader.Prelude.Tests.{◌==◌, if◌then◌else◌, or_default}

-- the text after a prefix, if it starts with it
abbrev pub after_prefix : String → String → Option String
after_prefix [] s = some s
after_prefix (c ∷ p) [] = none
after_prefix (c ∷ p) (d ∷ s) =
    let rest = after_prefix p s in if code c == code d then rest else none

-- `s.removeprefix(prefix)`
abbrev pub remove_prefix : String → String → String
remove_prefix prefix s = or_default s (after_prefix prefix s)

abbrev pub has_code : ℕ → String → Bool
has_code n [] = false
has_code n (c ∷ s) = code c == n || has_code n s

same-code : (c : Char) → (code c == code c) ≡ true
same-code c = ground arith

after_prefix-append : (p s : String) → after_prefix p (p ++ s) ≡ some s
after_prefix-append [] s = ap some (nil-append s)
after_prefix-append (c ∷ p) s = rw (cons-append c p s) (rw (same-code c) (after_prefix-append p s))

pub remove_prefix-append : (p s : String) → remove_prefix p (p ++ s) ≡ s
remove_prefix-append p s = rw (after_prefix-append p s) refl

or-false : (a b : Bool) → (a || b) ≡ false → b ≡ false
or-false true b e = absurd cc
or-false false b e = e

other_head : (sep d : Char) (v : String) → sep ≡ d → has_code (code sep) (d ∷ v) ≡ false → ⊥
other_head sep d v same e = let codes : code sep ≡ code d = ap code same in absurd (ground arith)

-- A text without the separator before it can be told from what follows.
split_unique :
    (sep : Char) (u v s t : String)
    → has_code (code sep) u ≡ false
    → has_code (code sep) v ≡ false
    → u ++ (sep ∷ s) ≡ v ++ (sep ∷ t)
    → u ≡ v
split_unique sep [] [] s t a b e = refl
split_unique sep [] (d ∷ v) s t a b e =
    let same = head-eq_of_cons-eq (sym (nil-append (sep ∷ s)) ∙ e ∙ cons-append d v (sep ∷ t)) in
    absurd (other_head sep d v same b)
split_unique sep (c ∷ u) [] s t a b e =
    let same = head-eq_of_cons-eq (sym (cons-append c u (sep ∷ s)) ∙ e ∙ nil-append (sep ∷ t)) in
    absurd (other_head sep c u (sym same) a)
split_unique sep (c ∷ u) (d ∷ v) s t a b e =
    let whole = sym (cons-append c u (sep ∷ s)) ∙ e ∙ cons-append d v (sep ∷ t) in
    let rest =
      split_unique sep u v s t (or-false (code c == code sep) _ a)
        (or-false (code d == code sep) _ b) (tail-eq_of_cons-eq whole) in
    let first = head-eq_of_cons-eq whole in λ i. first i ∷ rest i

joined : (sep : Char) (u s : String) → u ++ ((sep ∷ []) ++ s) ≡ u ++ (sep ∷ s)
joined sep u s = ap (λ x. u ++ x) (cons-append sep [] s ∙ (λ i. sep ∷ nil-append s i))

-- the same, with the separator as a text
pub prefix_unique :
    (sep : Char) (u v s t : String)
    → has_code (code sep) u ≡ false
    → has_code (code sep) v ≡ false
    → u ++ ((sep ∷ []) ++ s) ≡ v ++ ((sep ∷ []) ++ t)
    → u ≡ v
prefix_unique sep u v s t a b e =
    split_unique sep u v s t a b (sym (joined sep u s) ∙ e ∙ joined sep v t)

-- the code points of a text
abbrev pub codes : String → List ℕ
codes [] = []
codes (c ∷ s) = code c ∷ codes s
