-- ===== src/Launch/Production/Gate.antt =====
-- apps/bot-engine/app/launchers/production.py: real orders are behind a gate.
use xbottrader.Runtime.Companion.{build_ai_companion}
use xbottrader.Config.Factory.{build_strategy}
use xbottrader.Config.Registry.{Registry}
use xbottrader.Exchange.CcxtLive.{ExchangeCredentials, from_plaintext}
use xbottrader.Market.Session.{
  TimeZone, session_for, AssetClass, us_equity, crypto, asset_class_for,
}
use xbottrader.Config.Schema.{CustomRulesSpec}
use xbottrader.Launch.Production.{
  LaunchRequest, OrderAdapter, ccxt_venue, paper_venue, LaunchPlan, Launcher, is_equity,
  paper_config, is_paper, given_credentials, build_live_adapter, build_adapter, build_data_client,
  launch,
}
use xbottrader.Strategy.Value.{Fields, Coercions}
use xbottrader.Decimal.{Decimal}
use xbottrader.Prelude.{
  if◌then◌else◌, value_error, Result, raised, ok, raise_if, ◌>>=◌, ◌>>◌, ok-injective, Returns,
  bind-Returns, Returns-ok, String, ◌≡◌, ◌⊎◌, inl, inr, refl, ap, Bool, true, false, not, Option,
  none, some,
}

module _ {D S E X : Type 0} ⦃d : Decimal D⦄ (py : Coercions D)
    (model_dump : CustomRulesSpec D → Fields D) (zone : TimeZone) (l : Launcher D S E X) where
  -- An adapter of a real venue is one of a live request, where live trading is allowed, with the client
  -- that the request's decrypted credentials make; any other request has a paper adapter.
  abbrev pub IsGated : LaunchRequest D E → OrderAdapter X → Type 0
  IsGated request (ccxt_venue client venue) =
      (request.is_live ≡ true)
      × (l.allow_live ≡ true)
      × (venue ≡ request.exchange)
      × (sealed : E) × (plaintext : String) × (creds : ExchangeCredentials) × (request.credentials
          ≡ some sealed)
      × (l.decrypt sealed ≡ ok plaintext)
      × (from_plaintext py l.loads plaintext ≡ ok creds)
      × (l.ccxt_client venue creds ≡ ok client)
  IsGated request (paper_venue config venue) =
      (request.is_live ≡ false) × (venue ≡ request.exchange)

  given-some : (o : Option E) (sealed : E) → given_credentials o ≡ ok sealed → o ≡ some sealed
  given-some none sealed h = absurd cc
  given-some (some e) sealed h = ap some (ok-injective h)

  build_live_adapter-IsGated :
      (request : LaunchRequest D E) (allowed : Bool)
      → request.is_live ≡ true
      → l.allow_live ≡ allowed
      → Returns (IsGated request) (
          raise_if (not allowed) (value_error "live trading disabled")
          >> (given_credentials request.credentials >>= λ sealed. l.decrypt sealed >>= λ plaintext.
              from_plaintext py l.loads plaintext >>= λ creds.
              l.ccxt_client request.exchange creds >>= λ client.
              ok (ccxt_venue client request.exchange)))
  build_live_adapter-IsGated request false live h = tt
  build_live_adapter-IsGated request true live h =
      let P = IsGated request in
      bind-Returns P (given_credentials request.credentials) _ (λ sealed hs.
        bind-Returns P (l.decrypt sealed) _ (λ plaintext hp.
          bind-Returns P (from_plaintext py l.loads plaintext) _ (λ creds hc.
            bind-Returns P (l.ccxt_client request.exchange creds) _ (λ client hx. (
              live,
              h,
              refl,
              sealed,
              plaintext,
              creds,
              given-some request.credentials sealed hs,
              hp,
              hc,
              hx,
            )))))

  adapter-IsGated :
      (request : LaunchRequest D E) (live : Bool)
      → request.is_live ≡ live
      → Returns (IsGated request) (
          if live
          then build_live_adapter py model_dump zone l request.exchange request.credentials
          else ok (paper_venue (paper_config (is_equity request.exchange)) request.exchange))
  unfolding build_live_adapter
  adapter-IsGated request true h = build_live_adapter-IsGated request l.allow_live h refl
  adapter-IsGated request false h = (h, refl)

  -- What a plan says of the market's hours: an equity venue's adapter is guarded by the venue's session, which
  -- the supervisor gets too, with marks of at most 15 minutes; a crypto venue has none of them.
  abbrev pub KeepsHours : LaunchRequest D E → LaunchPlan D S X → Type 0
  KeepsHours request plan =
      ((asset_class_for request.exchange ≡ us_equity)
        × (plan.guard ≡ some (session_for zone request.exchange))
        × (plan.session ≡ some (session_for zone request.exchange))
        × (plan.max_mark_age_ms ≡ some 900000))
      ⊎ ((asset_class_for request.exchange ≡ crypto)
          × (plan.guard ≡ none)
          × (plan.session ≡ none)
          × (plan.max_mark_age_ms ≡ none))

  class-cases : (c : AssetClass) → (c ≡ us_equity) ⊎ (c ≡ crypto)
  class-cases us_equity = inl refl
  class-cases crypto = inr refl

  -- A launched bot has real orders only where its request asks for them, live trading is allowed, and the
  -- request's decrypted credentials made its client; a paper bot, and no other, has its
  -- fills priced by the bars. An equity venue is guarded by its session, and no other venue is.
  pub launch-IsGated :
      (saved : Result (Unit {0})) (request : LaunchRequest D E) (reg : Registry D S)
      → Returns
          (λ launched.
            IsGated request launched.1.adapter
            × (launched.1.marks_paper ≡ is_paper launched.1.adapter)
            × KeepsHours request launched.1)
          (launch py model_dump zone l saved request reg)
  unfolding launch
  launch-IsGated (raised e) request reg = tt
  launch-IsGated (ok done) request reg =
      let P : Registry D S × LaunchPlan D S X → Type 0 = λ launched.
        IsGated request launched.1.adapter
        × (launched.1.marks_paper ≡ is_paper launched.1.adapter)
        × KeepsHours request launched.1 in
      bind-Returns P (build_strategy py model_dump l.modules reg request.strategy) _ (λ built _.
        bind-Returns P (build_adapter py model_dump zone l request) _ (λ adapter ha.
          bind-Returns P (build_data_client py model_dump zone l request.exchange) _ (λ client _.
            bind-Returns P (build_ai_companion l.ai_client true request.strategy) _ (λ companion _.
              (
                Returns-ok (IsGated request) (build_adapter py model_dump zone l request) adapter
                    (adapter-IsGated request request.is_live refl) ha,
                refl,
                elim (class-cases (asset_class_for request.exchange)) [
                  | inl e ↦ inl (e, rw e refl, rw e refl, rw e refl)
                  | inr e ↦ inr (e, rw e refl, rw e refl, rw e refl)
                ],
              )))))
