-- ===== src/Prelude/Errors.antt =====
-- A Python call that may raise returns a `Result`.
use Prim.Native.String.{String}
use mathlib.Core.Path.{◌≡◌, refl, ap, subst, ◌∙◌}
use mathlib.Core.Logic.{◌⊎◌, inl, inr}
use mathlib.Core.Bool.{Bool, true, false}

-- The class of the exception, with the fixed part of its message.
pub data Exception : Type 0 where
  value_error runtime_error key_error type_error index_error : String → Exception
  assertion_error invalid_operation internal_auth_error attribute_error : String → Exception
  ai_engine_error equity_data_error : String → Exception

pub data Result {ℓ} (A : Type ℓ) : Type ℓ where
  raised : Exception → Result A
  ok : A → Result A

-- `if test: raise exception`
abbrev pub raise_if : Bool → Exception → Result (Unit {0})
raise_if false exception = ok tt
raise_if true exception = raised exception

-- The rest of a body runs once the call before it has returned a value.
infixl 5 ◌>>=◌
abbrev pub ◌>>=◌ {κ ℓ} : {X : Type κ} {Y : Type ℓ} → Result X → (X → Result Y) → Result Y
raised exception >>= rest = raised exception
ok value >>= rest = rest value

infixl 5 ◌>>◌
abbrev pub ◌>>◌ {ℓ} : {Y : Type ℓ} → Result (Unit {0}) → Result Y → Result Y
raised exception >> rest = raised exception
ok done >> rest = rest

-- A body that returns has passed each of its checks.
pub then-ok {ℓ} :
    {Y : Type ℓ} (first : Result (Unit {0})) (rest : Result Y) (y : Y)
    → (first >> rest) ≡ ok y
    → (first ≡ ok tt) × (rest ≡ ok y)
then-ok (raised e) rest y h = absurd cc
then-ok (ok done) rest y h = (refl, h)

pub then-both :
    (first rest : Result (Unit {0})) → first ≡ ok tt → rest ≡ ok tt → (first >> rest) ≡ ok tt
then-both first rest h k = ap (λ r. r >> rest) h ∙ k

pub raise_if-ok : (b : Bool) (e : Exception) → raise_if b e ≡ ok tt → b ≡ false
raise_if-ok false e h = refl
raise_if-ok true e h = absurd cc

pub bind-ok {κ ℓ} :
    {X : Type κ} {Y : Type ℓ} (first : Result X) (rest : X → Result Y) (y : Y)
    → (first >>= rest) ≡ ok y
    → (x : X) × (first ≡ ok x) × (rest x ≡ ok y)
bind-ok (raised e) rest y h = absurd cc
bind-ok (ok x) rest y h = (x, refl, h)

pub Result-cases {ℓ} :
    {X : Type ℓ} (r : Result X) → ((e : Exception) × (r ≡ raised e)) ⊎ ((x : X) × (r ≡ ok x))
Result-cases (raised e) = inl (e, refl)
Result-cases (ok x) = inr (x, refl)

abbrev value_or {ℓ} : {X : Type ℓ} → X → Result X → X
value_or x (raised e) = x
value_or x (ok y) = y

pub ok-injective {ℓ} : {X : Type ℓ} {x y : X} → ok x ≡ ok y → x ≡ y
ok-injective {x} h = ap (value_or x) h

-- a check that passes and a call that returns, at the head of a body
pub raise_if-passes {ℓ} :
    {Y : Type ℓ} (b : Bool) (e : Exception) (rest : Result Y)
    → b ≡ false
    → (raise_if b e >> rest) ≡ rest
raise_if-passes true e rest h = absurd cc
raise_if-passes false e rest h = refl

pub bind-returns {κ ℓ} :
    {X : Type κ} {Y : Type ℓ} (first : Result X) (rest : X → Result Y) (x : X)
    → first ≡ ok x
    → (first >>= rest) ≡ rest x
bind-returns first rest x h = ap (λ r. r >>= rest) h

-- what holds of the value of a call, if it returns
abbrev pub Returns {κ ℓ} : {X : Type κ} → (X → Type ℓ) → Result X → Type ℓ
Returns P (raised e) = Unit
Returns P (ok x) = P x

pub bind-Returns {κ ℓ μ} :
    {X : Type κ} {Y : Type ℓ} (P : Y → Type μ) (first : Result X) (rest : X → Result Y)
    → ((x : X) → first ≡ ok x → Returns P (rest x))
    → Returns P (first >>= rest)
bind-Returns P (raised e) rest h = tt
bind-Returns P (ok x) rest h = h x refl

pub Returns-ok {κ ℓ} :
    {X : Type κ} (P : X → Type ℓ) (r : Result X) (x : X) → Returns P r → r ≡ ok x → P x
Returns-ok P (raised e) x h same = absurd cc
Returns-ok P (ok y) x h same = subst P (ok-injective same) h

pub raise_if-none : (b : Bool) (e : Exception) → b ≡ false → raise_if b e ≡ ok tt
raise_if-none true e h = absurd cc
raise_if-none false e h = refl
