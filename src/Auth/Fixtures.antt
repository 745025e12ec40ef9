-- ===== src/Auth/Fixtures.antt =====
-- A signed request, with texts as bytes and a digest that shows what it is of.
use xbottrader.Decimal.Whole.{ℤ, pos, whole}
use xbottrader.Auth.Signed.{HasLaws, signed_headers}
use xbottrader.Auth.{Request, Primitives, InternalAuthenticator}
use xbottrader.Prelude.{
  if◌then◌else◌, Bool-cases, ok, String, ◌≡◌, refl, ap, inl, inr, false, none, some, arith, str_eq,
  str_eq_iff,
}
use Prim.Native.String.{◌++◌ as str_append, count}
use text.Mathlib.TextLemmas.{length-append}

abbrev pub noon : ℤ
noon = pos 1700000000

abbrev pub plain : Primitives String
plain = record {
  upper = λ s. s;
  read_int = λ s. if str_eq s "1700000000" then some noon else none;
  show_int = λ n. "1700000000";
  encode = λ s. s;
  sha256 = λ body. str_append "sha:" body;
  hmac_sha256 = λ key msg. str_append "mac:" (str_append key msg);
  compare_digest = λ a b. ok (str_eq a b);
}

abbrev pub gateway : InternalAuthenticator String
gateway = record { secret = "k"; max_skew_seconds = 300 }

abbrev pub launch_call : Request String
launch_call = record {
  method = "POST";
  path = "/bots";
  headers = signed_headers plain gateway "POST" "/bots" noon "ann" "{}";
  body = "{}";
}

mac-filled : (s : String) → str_eq (str_append "mac:" s) "" ≡ false
mac-filled s = elim (Bool-cases (str_eq (str_append "mac:" s) "")) [
  | inl e ↦
      let nothing = ap count ((str_eq_iff (str_append "mac:" s) "").0 e) in
      let longer = length-append "mac:" s in absurd (omega arith)
  | inr e ↦ e
]

pub plain-HasLaws : HasLaws plain noon
plain-HasLaws = record {
  upper_upper = λ s. refl;
  reads_back = refl;
  text_filled = refl;
  digest_filled = λ key msg. mac-filled (str_append key msg);
  equal_self = λ key msg. ap ok ((str_eq_iff _ _).1 refl);
}
