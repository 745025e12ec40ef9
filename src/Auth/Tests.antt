-- ===== src/Auth/Tests.antt =====
-- Signing and verifying with texts as bytes and a digest that shows what it is of.
use xbottrader.Auth.Fixtures.{noon, plain, gateway, launch_call, plain-HasLaws}
use xbottrader.Auth.Signed.{verify-signed, signed-verify}
use xbottrader.Auth.{auth_headers, distance, sign, verify}
use xbottrader.Prelude.{
  internal_auth_error, raised, ok, ok-injective, ◌≤◌, String, ◌≡◌, refl, none, some, arith,
  str_eq_iff,
}
use xbottrader.Decimal.Whole.{ℤ, pos, whole}

signed-verify_example : verify plain gateway launch_call (some (pos 1700000299)) noon ≡ ok "ann"
signed-verify_example =
    signed-verify plain gateway "POST" "/bots" noon "ann" "{}" (some (pos 1700000299)) noon
      plain-HasLaws refl (omega arith)

-- a second too late, and another body
late :
    verify plain gateway launch_call (some (pos 1700000301)) noon
    ≡ raised (internal_auth_error "timestamp outside skew window")
unfolding verify
late = refl

tampered :
    verify plain gateway (record launch_call { body = "{1}" }) none noon
    ≡ raised (internal_auth_error "bad signature")
unfolding verify
tampered = refl

accepted : verify plain gateway launch_call none noon ≡ ok "ann"
unfolding verify
accepted = refl

verify-signed_example :
    (sent : String × String × String) × (ts : ℤ) × (auth_headers launch_call.headers ≡ ok sent)
    × (plain.read_int sent.1 ≡ some ts)
    × ("ann" ≡ sent.0)
    × (distance noon ts ≤ 300)
    × (sent.2 ≡ sign plain gateway "POST" "/bots" ts sent.0 "{}")
verify-signed_example =
    verify-signed plain gateway launch_call none noon "ann"
      (λ a b h. (str_eq_iff a b).0 (ok-injective h)) accepted
