-- ===== src/Api/Bots/Gate.antt =====
-- apps/bot-engine/app/api/bots.py: the routes behind the signature.
use xbottrader.Api.Bots.Alone.{handle-KeepsOthers}
use xbottrader.Api.Bots.Isolation.{own, AreScoped}
use xbottrader.Runtime.Control.{Fleet}
use xbottrader.Decimal.Whole.{ℤ, whole}
use xbottrader.Auth.{Request, Primitives, InternalAuthenticator}
use xbottrader.Api.Bots.{BotCall, handle, identified, internal_identity, serve}
use xbottrader.Prelude.{
  Bool-cases, internal_auth_error, Result, raised, ok, has_code, String, ◌≡◌, refl, ap, ◌≢◌, inl,
  inr, false, str_eq, str_eq_iff,
}

identified-own :
    {R P : Type 0} (launch : String → String → R → Result P) (v : String) (identity : Result String)
    (call : BotCall R) (fleet : Fleet)
    → ((u : String) → identity ≡ ok u → has_code 58 u ≡ false)
    → AreScoped fleet.handles
    → identity ≢ ok v
    → own v (identified identity (λ u. handle launch u call fleet) fleet).2.handles
      ≡ own v fleet.handles
identified-own launch v (ok u) call fleet c ts other = elim (Bool-cases (str_eq u v)) [
  | inl e ↦ absurd (other (ap ok ((str_eq_iff u v).0 e)))
  | inr e ↦ (handle-KeepsOthers launch u fleet (c u refl) ts call).others v e
]
identified-own launch v (raised (internal_auth_error m)) call fleet c ts other = refl
identified-own launch v (raised e) call fleet c ts other = refl

-- Where the bots are filed under the ids of their users and a verified user id has no colon, a request changes no bot of
-- a user, nor the set of its bots, unless its headers carry a signature that verifies as this user's.
pub serve-own :
    {B R P : Type 0} (lib : Primitives B) (lower : String → String)
    (launch : String → String → R → Result P) (auth : InternalAuthenticator B) (request : Request B)
    (clock : ℤ) (call : BotCall R) (v : String) (fleet : Fleet)
    → ((u : String) → internal_identity lib lower auth request clock ≡ ok u → has_code 58 u ≡ false)
    → AreScoped fleet.handles
    → internal_identity lib lower auth request clock ≢ ok v
    → own v (serve lib lower launch auth request clock call fleet).2.handles ≡ own v fleet.handles
unfolding serve
serve-own lib lower launch auth request clock call v fleet c ts other =
    identified-own launch v (internal_identity lib lower auth request clock) call fleet c ts other
