-- ===== src/Api/Bots/Tests.antt =====
-- Two users with a bot each of one name.
use xbottrader.Api.Bots.Users.{of_user, serve_all-AreScoped, serve_all-alone}
use xbottrader.Api.Bots.Alone.{alone_fleet}
use xbottrader.Api.Bots.Isolation.{own}
use xbottrader.Auth.Fixtures.{noon, plain, gateway, launch_call}
use xbottrader.Auth.{verify}
use xbottrader.Api.Bots.Gate.{serve-own}
use xbottrader.Runtime.Supervisor.{starting}
use xbottrader.Runtime.Control.{Fleet, start, stop, kill, kill_all}
use xbottrader.Api.Bots.{
  scoped, kill_all_response, BotCall, start_call, kill_all_call, kill_call, stop_call, get_call,
  shown, kill_bot_route, stop_bot_route, get_bot_route, kill_all_route, start_bot_route, handle,
  serve_all, internal_identity, serve,
}
use xbottrader.Api.{answer, http_error}
use xbottrader.Prelude.{
  if◌then◌else◌, value_error, Result, raised, ok, ok-injective, has_code, ℕ, String, ◌≡◌, refl, sym,
  subst, ◌∙◌, ◌≢◌, true, false, List, [], ◌∷◌, str_eq, str_eq_iff,
}

abbrev accept : String → String → String → Result ℕ
accept sid user_id body =
    if str_eq body "bad" then raised (value_error "unknown exchange") else ok 0

abbrev day : List (String × BotCall String)
day =
    ("ann", start_call "b" "{}")
    ∷ ("bob", start_call "b" "{}")
    ∷ ("bob", kill_call "b")
    ∷ ("ann", start_call "c" "bad")
    ∷ ("ann", get_call "b")
    ∷ ("bob", stop_call "x")
    ∷ ("ann", kill_all_call)
    ∷ []

abbrev nobody : Fleet
nobody = record { handles = []; orphans = 0 }

day-answers :
    of_user "ann" (serve_all accept day nobody).0
    ≡ ("ann", shown "b" starting)
      ∷ ("ann", http_error 400 "unknown exchange")
      ∷ ("ann", shown "b" starting)
      ∷ ("ann", answer (kill_all_response ("b" ∷ [])))
      ∷ []
unfolding serve_all handle start_bot_route kill_all_route kill_bot_route stop_bot_route
    get_bot_route start stop kill kill_all
day-answers = refl

serve_all-alone_example :
    ((serve_all accept (of_user "ann" day) (alone_fleet "ann" 0 nobody)).0
      ≡ of_user "ann" (serve_all accept day nobody).0)
    × ((serve_all accept (of_user "ann" day) (alone_fleet "ann" 0 nobody)).1.handles
        ≡ own "ann" (serve_all accept day nobody).1.handles)
serve_all-alone_example =
    serve_all-alone accept "ann" 0 day nobody
      (refl, (refl, (refl, (refl, (refl, (refl, (refl, tt))))))) tt

abbrev two_users : Fleet
two_users =
    (serve_all accept (("ann", start_call "b" "{}") ∷ ("bob", start_call "b" "{}") ∷ []) nobody).1

ann-identity : internal_identity plain (λ s. s) gateway launch_call noon ≡ ok "ann"
unfolding internal_identity verify
ann-identity = refl

not_bob : internal_identity plain (λ s. s) gateway launch_call noon ≢ ok "bob"
not_bob e =
    let same : str_eq "ann" "bob" ≡ true =
      (str_eq_iff "ann" "bob").1 (ok-injective (sym ann-identity ∙ e)) in
    absurd cc

ann-colon :
    (u : String)
    → internal_identity plain (λ s. s) gateway launch_call noon ≡ ok u
    → has_code 58 u ≡ false
ann-colon u e = subst (λ x. has_code 58 x ≡ false) (ok-injective (sym ann-identity ∙ e)) refl

serve-own_example :
    own "bob"
      (serve plain (λ s. s) accept gateway launch_call noon kill_all_call two_users).2.handles
    ≡ own "bob" two_users.handles
serve-own_example =
    serve-own plain (λ s. s) accept gateway launch_call noon kill_all_call "bob" two_users ann-colon
      (serve_all-AreScoped accept _ nobody (refl, (refl, tt)) tt) not_bob

-- the colon in a user's id lets another user's bot be found under one's own ids
colons : scoped "ann:x" "b" ≡ scoped "ann" "x:b"
colons = refl
