-- ===== src/Auth/Signed.antt =====
-- packages/xbt-core/xbt_core/internal_auth.py: what a verified request has been signed with, and that a
-- signed one is verified.
use xbottrader.Auth.{
  Request, Primitives, InternalAuthenticator, first_filled, all_filled, auth_headers, timestamp,
  distance, join_lines, canonical, sign, verify_sent, verify,
}
use xbottrader.Prelude.{
  ltb, or_default, ltb_iff_not, internal_auth_error, Result, ok, raise_if, ◌>>=◌, ◌>>◌, then-ok,
  raise_if-ok, bind-ok, ok-injective, raise_if-passes, bind-returns, ◌≤◌, String, ◌≡◌, refl, sym,
  ap, ◌∙◌, Bool, true, false, not, Option, none, some, List, [], ◌∷◌, arith, str_eq,
}
use xbottrader.Decimal.Whole.{ℤ, whole}

timestamp-some : (read : Option ℤ) (ts : ℤ) → timestamp read ≡ ok ts → read ≡ some ts
timestamp-some none ts h = absurd cc
timestamp-some (some ts') ts h = ap some (ok-injective h)

not-false : (b : Bool) → not b ≡ false → b ≡ true
not-false true h = refl
not-false false h = absurd cc

filled-first :
    (s : String) (second : Option String)
    → str_eq s "" ≡ false
    → first_filled (some s) second ≡ some s
filled-first s second h = ground arith

headers-read :
    (a b c : String) (x y z : Option String)
    → str_eq a "" ≡ false
    → str_eq b "" ≡ false
    → str_eq c "" ≡ false
    → all_filled (first_filled (some a) x) (first_filled (some b) y) (first_filled (some c) z)
      ≡ ok (a, b, c)
headers-read a b c x y z ha hb hc =
    ap (λ o. all_filled o (first_filled (some b) y) (first_filled (some c) z)) (filled-first a x ha)
    ∙ ap (λ o. all_filled (some a) o (first_filled (some c) z)) (filled-first b y hb)
    ∙ ap (λ o. all_filled (some a) (some b) o) (filled-first c z hc)

-- The text of the time is not empty and reads back, a digest is not empty and equals itself, and upper
-- case is upper case already.
pub record HasLaws {B : Type 0} (lib : Primitives B) (ts : ℤ) : Type 0 where
  pub upper_upper : (s : String) → lib.upper (lib.upper s) ≡ lib.upper s
  pub reads_back : lib.read_int (lib.show_int ts) ≡ some ts
  pub text_filled : str_eq (lib.show_int ts) "" ≡ false
  pub digest_filled : (key msg : B) → str_eq (lib.hmac_sha256 key msg) "" ≡ false
  pub equal_self :
      (key msg : B)
      → lib.compare_digest (lib.hmac_sha256 key msg) (lib.hmac_sha256 key msg) ≡ ok true

module _ {B : Type 0} (lib : Primitives B) where
  sent-signed :
      (auth : InternalAuthenticator B) (request : Request B) (current : ℤ) (user_id sig : String)
      (ts : ℤ) (user : String)
      → ((a b : String) → lib.compare_digest a b ≡ ok true → a ≡ b)
      → verify_sent lib auth request current user_id sig ts ≡ ok user
      → (user ≡ user_id)
        × (distance current ts ≤ auth.max_skew_seconds)
        × (sig ≡ sign lib auth (lib.upper request.method) request.path ts user_id request.body)
  unfolding verify_sent
  sent-signed auth request current user_id sig ts user hc h =
      let expected =
        sign lib auth (lib.upper request.method) request.path ts user_id request.body in
      let late = ltb auth.max_skew_seconds (distance current ts) in
      let one =
        then-ok (raise_if late (internal_auth_error "timestamp outside skew window"))
          (lib.compare_digest expected sig >>= λ equal.
            raise_if (not equal) (internal_auth_error "bad signature") >> ok user_id)
          user h in
      let two =
        bind-ok (lib.compare_digest expected sig)
          (λ equal. raise_if (not equal) (internal_auth_error "bad signature") >> ok user_id) user
          one.1 in
      let three =
        then-ok (raise_if (not two.0) (internal_auth_error "bad signature")) (ok user_id) user
          two.2 in
      (
        sym (ok-injective three.1),
        (ltb_iff_not (distance current ts) auth.max_skew_seconds).0
            (raise_if-ok late (internal_auth_error "timestamp outside skew window") one.0),
        sym (
            hc expected sig (
              two.1
              ∙ ap ok (
                  not-false two.0
                    (raise_if-ok (not two.0) (internal_auth_error "bad signature") three.0)))),
      )

  -- A request that is verified carries the three headers, its time is within the window around the
  -- given time, and its signature is the one of its method, path, time, user and body under
  -- the secret; the identity is the user of the header. The comparison of digests says that two texts
  -- are equal only where they are.
  pub verify-signed :
      (auth : InternalAuthenticator B) (request : Request B) (now : Option ℤ) (clock : ℤ)
      (user : String)
      → ((a b : String) → lib.compare_digest a b ≡ ok true → a ≡ b)
      → verify lib auth request now clock ≡ ok user
      → (sent : String × String × String) × (ts : ℤ) × (auth_headers request.headers ≡ ok sent)
        × (lib.read_int sent.1 ≡ some ts)
        × (user ≡ sent.0)
        × (distance (or_default clock now) ts ≤ auth.max_skew_seconds)
        × (sent.2 ≡ sign lib auth (lib.upper request.method) request.path ts sent.0 request.body)
  unfolding verify
  verify-signed auth request now clock user hc h =
      let one = bind-ok (auth_headers request.headers) _ user h in
      let two = bind-ok (timestamp (lib.read_int one.0.1)) _ user one.2 in
      let (same, near, signed) =
        sent-signed auth request (or_default clock now) one.0.0 one.0.2 two.0 user hc two.2 in
      (one.0, two.0, one.1, timestamp-some (lib.read_int one.0.1) two.0 two.1, same, near, signed)

  sent-verify :
      (auth : InternalAuthenticator B) (request : Request B) (current : ℤ) (user_id sig : String)
      (ts : ℤ)
      → distance current ts ≤ auth.max_skew_seconds
      → lib.compare_digest
          (sign lib auth (lib.upper request.method) request.path ts user_id request.body)
          sig
        ≡ ok true
      → verify_sent lib auth request current user_id sig ts ≡ ok user_id
  unfolding verify_sent
  sent-verify auth request current user_id sig ts hw hc =
      let answer : Bool → Result String =
        λ equal. raise_if (not equal) (internal_auth_error "bad signature") >> ok user_id in
      let compared =
        lib.compare_digest
          (sign lib auth (lib.upper request.method) request.path ts user_id request.body) sig in
      raise_if-passes (ltb auth.max_skew_seconds (distance current ts))
        (internal_auth_error "timestamp outside skew window") (compared >>= answer)
        ((ltb_iff_not (distance current ts) auth.max_skew_seconds).1 hw)
      ∙ bind-returns compared answer true hc

  -- the headers that carry a signature
  abbrev pub signed_headers :
      InternalAuthenticator B → String → String → ℤ → String → B → List (String × String)
  signed_headers auth method path ts user_id body =
      ("x-xbt-user", user_id)
      ∷ ("x-xbt-ts", lib.show_int ts)
      ∷ ("x-xbt-sig", sign lib auth method path ts user_id body)
      ∷ []

  -- A request with the headers that `sign` makes for it is verified, as its user, at any time within
  -- the window. The user is not empty; a digest equals itself and is not empty, the text of the
  -- time is not empty and reads back, and upper case is upper case already.
  pub signed-verify :
      (auth : InternalAuthenticator B) (method path : String) (ts : ℤ) (user_id : String) (body : B)
      (now : Option ℤ) (clock : ℤ)
      → HasLaws lib ts
      → str_eq user_id "" ≡ false
      → distance (or_default clock now) ts ≤ auth.max_skew_seconds
      → verify lib auth
          (record {
            method = method;
            path = path;
            headers = signed_headers auth method path ts user_id body;
            body = body;
          })
          now
          clock
        ≡ ok user_id
  unfolding verify
  signed-verify auth method path ts user_id body now clock laws hn hw =
      let digest = sign lib auth method path ts user_id body in
      let message = canonical lib method path ts user_id body in
      let headers = signed_headers auth method path ts user_id body in
      let request : Request B = record {
        method = method;
        path = path;
        headers = headers;
        body = body;
      } in
      let sent : auth_headers headers ≡ ok (user_id, lib.show_int ts, digest) =
        headers-read user_id (lib.show_int ts) digest none none none hn laws.text_filled
          (laws.digest_filled auth.secret message) in
      let expected : sign lib auth (lib.upper method) path ts user_id body ≡ digest =
        ap
          (λ verb. lib.hmac_sha256 auth.secret (
            lib.encode
              (join_lines (verb ∷ path ∷ lib.show_int ts ∷ user_id ∷ lib.sha256 body ∷ []))))
          (laws.upper_upper method) in
      let read : timestamp (lib.read_int (lib.show_int ts)) ≡ ok ts =
        ap timestamp laws.reads_back in
      ap
        (λ s. s >>= λ sent.
          timestamp (lib.read_int sent.1)
          >>= verify_sent lib auth request (or_default clock now) sent.0 sent.2)
        sent
      ∙ ap (λ t. t >>= verify_sent lib auth request (or_default clock now) user_id digest) read
      ∙ sent-verify auth request (or_default clock now) user_id digest ts hw
          (ap (λ e. lib.compare_digest e digest) expected ∙ laws.equal_self auth.secret message)
