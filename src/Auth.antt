-- ===== src/Auth.antt =====
-- packages/xbt-core/xbt_core/internal_auth.py: the signed header between the services. The digests are
-- parameters, and so are Python's `str.upper`, `int` and the text of an int.
pub mod Signed
pub mod Fixtures
mod Tests
use Prim.Native.String.{◌++◌ as str_append}
use xbottrader.Prelude.{
  ltb, if◌then◌else◌, or_default, value_error, internal_auth_error, Result, raised, ok, raise_if,
  ◌>>=◌, ◌>>◌, ℕ, ◌+◌, String, Bool, not, Option, none, some, List, [], ◌∷◌, str_eq,
}
use xbottrader.Decimal.Whole.{ℤ, pos_part, neg_part, sub_ℤ, whole}

pub record Request (B : Type 0) : Type 0 where
  pub method : String
  pub path : String
  pub headers : List (String × String)
  pub body : B

-- What the module takes from Python and its libraries. `B` is the type of bytes.
pub record Primitives (B : Type 0) : Type 0 where
  pub upper : String → String
  pub read_int : String → Option ℤ
  pub show_int : ℤ → String
  pub encode : String → B
  -- `sha256(body).hexdigest()` and `hmac.new(secret, msg, sha256).hexdigest()`
  pub sha256 : B → String
  pub hmac_sha256 : B → B → String
  -- raises on texts that are not ASCII
  pub compare_digest : String → String → Result Bool

pub record InternalAuthenticator (B : Type 0) : Type 0 where
  pub secret : B
  pub max_skew_seconds : ℕ

-- `headers.get(key)`
abbrev pub get_header : String → List (String × String) → Option String
get_header key [] = none
get_header key ((k, v) ∷ rest) =
    let later = get_header key rest in if str_eq k key then some v else later

-- a value that is absent or empty
abbrev pub filled : Option String → Option String
filled none = none
filled (some s) = if str_eq s "" then none else some s

-- `headers.get(key) or headers.get(key.title())`
abbrev pub first_filled : Option String → Option String → Option String
first_filled first second = elim (filled first) [ none ↦ filled second | some s ↦ some s ]

-- the three headers, where none is missing
abbrev pub all_filled :
    Option String → Option String → Option String → Result (String × String × String)
all_filled (some user_id) (some ts) (some sig) = ok (user_id, ts, sig)
all_filled none ts sig = raised (internal_auth_error "missing auth headers")
all_filled (some user_id) none sig = raised (internal_auth_error "missing auth headers")
all_filled (some user_id) (some ts) none = raised (internal_auth_error "missing auth headers")

abbrev pub auth_headers : List (String × String) → Result (String × String × String)
auth_headers headers =
    all_filled (first_filled (get_header "x-xbt-user" headers) (get_header "X-Xbt-User" headers))
      (first_filled (get_header "x-xbt-ts" headers) (get_header "X-Xbt-Ts" headers))
      (first_filled (get_header "x-xbt-sig" headers) (get_header "X-Xbt-Sig" headers))

abbrev pub timestamp : Option ℤ → Result ℤ
timestamp none = raised (internal_auth_error "bad timestamp")
timestamp (some ts) = ok ts

-- `abs(a - b)`
abbrev pub distance : ℤ → ℤ → ℕ
distance a b = pos_part (sub_ℤ a b) + neg_part (sub_ℤ a b)

-- `"\n".join(…)`
abbrev pub join_lines : List String → String
join_lines [] = ""
join_lines (line ∷ []) = line
join_lines (line ∷ next ∷ rest) = str_append line (str_append "\n" (join_lines (next ∷ rest)))

module _ {B : Type 0} (lib : Primitives B) where
  -- `InternalAuthenticator.__init__`, where `is_blank` tells an empty secret
  unfoldable pub authenticator : (B → Bool) → B → ℕ → Result (InternalAuthenticator B)
  authenticator is_blank secret max_skew_seconds = do
    raise_if (is_blank secret) (value_error "internal auth secret must be non-empty")
    ok (record { secret = secret; max_skew_seconds = max_skew_seconds })

  -- `_canonical`
  abbrev pub canonical : String → String → ℤ → String → B → B
  canonical method path ts user_id body =
      lib.encode
        (join_lines (lib.upper method ∷ path ∷ lib.show_int ts ∷ user_id ∷ lib.sha256 body ∷ []))

  -- `sign`
  unfoldable pub sign : InternalAuthenticator B → String → String → ℤ → String → B → String
  sign auth method path ts user_id body =
      lib.hmac_sha256 auth.secret (canonical method path ts user_id body)

  -- `verify` once the headers have been read
  unfoldable pub verify_sent :
      InternalAuthenticator B → Request B → ℤ → String → String → ℤ → Result String
  unfolding sign
  verify_sent auth request current user_id sig ts = do
    raise_if (ltb auth.max_skew_seconds (distance current ts))
        (internal_auth_error "timestamp outside skew window")
    equal ←
        lib.compare_digest
          (sign auth (lib.upper request.method) request.path ts user_id request.body) sig
    raise_if (not equal) (internal_auth_error "bad signature")
    ok user_id

  -- `verify`, with the clock read where no time is given
  unfoldable pub verify : InternalAuthenticator B → Request B → Option ℤ → ℤ → Result String
  unfolding verify_sent
  verify auth request now clock = do
    sent ← auth_headers request.headers
    ts ← timestamp (lib.read_int sent.1)
    verify_sent auth request (or_default clock now) sent.0 sent.2 ts
