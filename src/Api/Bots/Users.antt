-- ===== src/Api/Bots/Users.antt =====
-- apps/bot-engine/app/api/bots.py: what each user sees of the requests of all.
use xbottrader.Api.Bots.Alone.{AsAlone, alone_fleet, handle-KeepsOthers, handle-AsAlone}
use xbottrader.Runtime.Control.{Fleet}
use xbottrader.Api.Bots.Isolation.{own, AreScoped}
use xbottrader.Api.Bots.{BotCall, handle, serve_all}
use xbottrader.Prelude.{
  if◌then◌else◌, Bool-cases, Result, has_code, ℕ, String, ◌≡◌, refl, sym, ap, subst, ◌∙◌, inl, inr,
  false, List, [], ◌∷◌, str_eq, str_eq_iff,
}

-- the entries of one user
abbrev pub of_user {ℓ} : {X : Type ℓ} → String → List (String × X) → List (String × X)
of_user v [] = []
of_user v ((u, x) ∷ rest) =
    let later = of_user v rest in if str_eq u v then (u, x) ∷ later else later

-- the users of the calls have no colon in their ids
abbrev pub AreColonFree : {R : Type 0} → List (String × BotCall R) → Type 0
AreColonFree [] = Unit
AreColonFree ((u, call) ∷ rest) = (has_code 58 u ≡ false) × AreColonFree rest

module _ {R P : Type 0} (launch : String → String → R → Result P) where
  -- After any requests of any users the bots are still filed under the ids of their users.
  pub serve_all-AreScoped :
      (calls : List (String × BotCall R)) (fleet : Fleet)
      → AreColonFree calls
      → AreScoped fleet.handles
      → AreScoped (serve_all launch calls fleet).1.handles
  unfolding serve_all
  serve_all-AreScoped [] fleet c ts = ts
  serve_all-AreScoped ((u, call) ∷ calls) fleet c ts =
      serve_all-AreScoped calls _ c.1 (handle-KeepsOthers launch u fleet c.0 ts call).still

  -- Requests of any users, whose ids have no colon, on bots filed under the ids of their users: each user gets the
  -- answers, and is left with the bots, that it would have with no other user's requests and bots; so no
  -- request of one user changes, stops, kills or shows a bot of another.
  pub serve_all-alone :
      (v : String) (n : ℕ) (calls : List (String × BotCall R)) (fleet : Fleet)
      → AreColonFree calls
      → AreScoped fleet.handles
      → ((serve_all launch (of_user v calls) (alone_fleet v n fleet)).0
          ≡ of_user v (serve_all launch calls fleet).0)
        × ((serve_all launch (of_user v calls) (alone_fleet v n fleet)).1.handles
            ≡ own v (serve_all launch calls fleet).1.handles)
  unfolding serve_all
  serve_all-alone v n [] fleet c ts = (refl, refl)
  serve_all-alone v n ((u, call) ∷ calls) fleet c ts = elim (Bool-cases (str_eq u v)) [
    | inl e ↦
        let user : u ≡ v = (str_eq_iff u v).0 e in
        let keeps = handle-KeepsOthers launch u fleet c.0 ts call in
        let done = handle launch u call fleet in
        let alone = handle launch u call (alone_fleet v n fleet) in
        let both : AsAlone v done alone =
          subst (λ w. AsAlone w done (handle launch u call (alone_fleet w n fleet))) user
            (handle-AsAlone launch u fleet c.0 ts n call) in
        let same : alone.2 ≡ alone_fleet v alone.2.orphans done.2 =
          λ i. record { handles = both.bots i; orphans = alone.2.orphans } in
        let rest = serve_all-alone v alone.2.orphans calls done.2 c.1 keeps.still in
        rw e (
          ap (λ a. (u, a) ∷ (serve_all launch (of_user v calls) alone.2).0) both.answers
              ∙ ap (λ f. (u, done.0) ∷ (serve_all launch (of_user v calls) f).0) same
              ∙ ap (λ x. (u, done.0) ∷ x) rest.0,
          ap (λ f. (serve_all launch (of_user v calls) f).1.handles) same ∙ rest.1,
        )
    | inr e ↦
        let keeps = handle-KeepsOthers launch u fleet c.0 ts call in
        let done = handle launch u call fleet in
        let same : alone_fleet v n fleet ≡ alone_fleet v n done.2 =
          λ i. record { handles = sym (keeps.others v e) i; orphans = n } in
        let rest = serve_all-alone v n calls done.2 c.1 keeps.still in
        rw e (
          ap (λ f. (serve_all launch (of_user v calls) f).0) same ∙ rest.0,
          ap (λ f. (serve_all launch (of_user v calls) f).1.handles) same ∙ rest.1,
        )
  ]
