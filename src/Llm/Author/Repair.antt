-- ===== src/Llm/Author/Repair.antt =====
-- apps/ai-engine/app/llm/author.py: what the repair loop returns, and how often it asks.
use xbottrader.Strategy.RuleEngine.Config.{RuleEngineParams}
use xbottrader.Config.Factory.{from_config}
use xbottrader.Config.Schema.{CustomRulesSpec, check_custom_rules}
use xbottrader.Llm.Author.{
  Message, request, AuthorResult, Authored, is_caught, accumulate, summarize_attempt, validate,
  conclude, on_answer, attempts, author,
}
use xbottrader.Strategy.Value.{Fields, Coercions}
use xbottrader.Decimal.{Decimal}
use xbottrader.Prelude.{
  Bool-cases, length, Exception, value_error, Result, raised, ok, then-ok, bind-ok, Result-cases,
  ok-injective, ℕ, zero, suc, ◌≤◌, String, ◌≡◌, refl, sym, inl, inr, true, List, [], ◌∷◌, arith,
}

module _ {D : Type 0} ⦃d : Decimal D⦄ (py : Coercions D) (strip : String → String)
    (model_dump : CustomRulesSpec D → Fields D)
    (read_fields : Fields D → Result (CustomRulesSpec D))
    (complete : List Message → Result (Fields D × List (String × ℕ))) where
  -- a configuration that its schema accepts, and that builds
  abbrev pub Builds : CustomRulesSpec D → Type 0
  Builds s =
      (check_custom_rules s ≡ ok tt)
      × (p : RuleEngineParams D) × (from_config py model_dump s ≡ ok p)

  -- every result that an outcome may be has a configuration that builds
  abbrev pub ReturnsBuilt : Result (AuthorResult D) → Type 0
  ReturnsBuilt (raised e) = Unit
  ReturnsBuilt (ok r) = Builds r.strategy

  validate-Builds :
      (tool_input : Fields D) (symbol : String) (s : CustomRulesSpec D)
      → validate py strip model_dump read_fields complete tool_input symbol ≡ ok s
      → Builds s
  unfolding validate
  validate-Builds tool_input symbol s h =
      let one = bind-ok (read_fields _) _ s h in
      let two = then-ok (check_custom_rules one.0) _ s one.2 in
      let three = bind-ok (from_config py model_dump one.0) _ s two.1 in
      rw (sym (ok-injective three.2)) (two.0, three.0, three.1)

  -- a turn ends with an exception, or with an accepted configuration, or goes on
  conclude-cases :
      (P : Authored D → Type 0) (tool_input : Fields D) (usage : List (String × ℕ))
      (messages : List Message) (checked : Result (CustomRulesSpec D))
      (again : List Message → Authored D)
      → ((e : Exception) → P (record { outcome = raised e; sent = [] }))
      → ((r : AuthorResult D) → checked ≡ ok r.strategy → P (record { outcome = ok r; sent = [] }))
      → ((longer : List Message) → P (again longer))
      → P (
          conclude py strip model_dump read_fields complete tool_input usage messages checked again)
  unfolding conclude
  conclude-cases P tool_input usage messages (ok s) again hr ho ha = ho _ refl
  conclude-cases P tool_input usage messages (raised e) again hr ho ha =
      elim (Bool-cases (is_caught e)) [
        | inl c ↦ rw c (elim (Result-cases (summarize_attempt tool_input)) [
          | inl (e', h) ↦ rw h (hr e')
          | inr (summary, h) ↦ rw h (ha _)
        ])
        | inr c ↦ rw c (hr e)
      ]

  -- a turn asks once, and ends, or goes on with a longer conversation
  turn-cases :
      (P : Authored D → Type 0) (symbol : String) (messages : List Message)
      (total : List (String × ℕ)) (answer : Result (Fields D × List (String × ℕ)))
      (again : List Message → List (String × ℕ) → Authored D)
      → ((e : Exception) → P (record { outcome = raised e; sent = messages ∷ [] }))
      → ((r : AuthorResult D)
          → Builds r.strategy
          → P (record { outcome = ok r; sent = messages ∷ [] }))
      → ((longer : List Message) (usage : List (String × ℕ))
          → P (record {
            outcome = (again longer usage).outcome;
            sent = messages ∷ (again longer usage).sent;
          }))
      → P (on_answer py strip model_dump read_fields complete symbol messages total answer again)
  unfolding on_answer
  turn-cases P symbol messages total (raised e) again hr ho ha = hr e
  turn-cases P symbol messages total (ok (tool_input, usage)) again hr ho ha =
      conclude-cases (λ a. P (record { outcome = a.outcome; sent = messages ∷ a.sent })) tool_input
        (accumulate total usage) messages
        (validate py strip model_dump read_fields complete tool_input symbol)
        (λ longer. again longer (accumulate total usage)) hr
        (λ r h. ho r (validate-Builds tool_input symbol r.strategy h))
        (λ longer. ha longer (accumulate total usage))

  attempts-ReturnsBuilt :
      (symbol : String) (left : ℕ) (messages : List Message) (total : List (String × ℕ))
      → ReturnsBuilt
          (attempts py strip model_dump read_fields complete symbol left messages total).outcome
  unfolding attempts
  attempts-ReturnsBuilt symbol zero messages total = tt
  attempts-ReturnsBuilt symbol (suc left) messages total =
      turn-cases (λ a. ReturnsBuilt a.outcome) symbol messages total (complete messages)
        (attempts py strip model_dump read_fields complete symbol left) (λ e. tt) (λ r h. h)
        (attempts-ReturnsBuilt symbol left)

  attempts-le :
      (symbol : String) (left : ℕ) (messages : List Message) (total : List (String × ℕ))
      → length (attempts py strip model_dump read_fields complete symbol left messages total).sent
        ≤ left
  unfolding attempts
  attempts-le symbol zero messages total = omega arith
  attempts-le symbol (suc left) messages total =
      turn-cases (λ a. length a.sent ≤ suc left) symbol messages total (complete messages)
        (attempts py strip model_dump read_fields complete symbol left) (λ e. omega arith)
        (λ r h. omega arith)
        (λ longer usage. let rest = attempts-le symbol left longer usage in omega arith)

  -- A configuration that `author` returns passes the validators of its schema and builds, whatever the
  -- language model answers; and `author` asks it at most three times.
  pub author-ReturnsBuilt :
      (description symbol : String)
      → ReturnsBuilt (author py strip model_dump read_fields complete description symbol).outcome
        × (length (author py strip model_dump read_fields complete description symbol).sent ≤ 3)
  unfolding author
  author-ReturnsBuilt description symbol = (
    attempts-ReturnsBuilt symbol 3 (request symbol description ∷ []) [],
    attempts-le symbol 3 (request symbol description ∷ []) [],
  )

  -- an answer whose configuration is refused by an exception that the loop catches, and that can be summarized
  abbrev pub IsRefused : String → Result (Fields D × List (String × ℕ)) → Type 0
  IsRefused symbol (raised e) = ⊥
  IsRefused symbol (ok (tool_input, usage)) =
      (e : Exception) × (m : Message) × (validate py strip model_dump read_fields complete
          tool_input symbol
        ≡ raised e)
      × (is_caught e ≡ true)
      × (summarize_attempt tool_input ≡ ok m)

  refused-again :
      (P : Authored D → Type 0) (symbol : String) (messages : List Message)
      (total : List (String × ℕ)) (answer : Result (Fields D × List (String × ℕ)))
      (again : List Message → List (String × ℕ) → Authored D)
      → IsRefused symbol answer
      → ((longer : List Message) (usage : List (String × ℕ))
          → P (record {
            outcome = (again longer usage).outcome;
            sent = messages ∷ (again longer usage).sent;
          }))
      → P (on_answer py strip model_dump read_fields complete symbol messages total answer again)
  unfolding on_answer conclude
  refused-again P symbol messages total (raised e) again h ha = absurd h
  refused-again P symbol messages total (ok (tool_input, usage)) again h ha =
      rw h.2 (rw h.3 (rw h.4 (ha _ _)))

  attempts-exhausted :
      (symbol : String) (left : ℕ) (messages : List Message) (total : List (String × ℕ))
      → ((sent : List Message) → IsRefused symbol (complete sent))
      → ((attempts py strip model_dump read_fields complete symbol left messages total).outcome
          ≡ raised (value_error "could not author a valid strategy"))
        × (length
              (attempts py strip model_dump read_fields complete symbol left messages total).sent
            ≡ left)
  unfolding attempts
  attempts-exhausted symbol zero messages total h = (refl, refl)
  attempts-exhausted symbol (suc left) messages total h =
      refused-again
        (λ a.
          (a.outcome ≡ raised (value_error "could not author a valid strategy"))
          × (length a.sent ≡ suc left))
        symbol messages total (complete messages)
        (attempts py strip model_dump read_fields complete symbol left) (h messages)
        (λ longer usage.
          let rest = attempts-exhausted symbol left longer usage h in (rest.0, omega arith))

  -- Where every answer of the language model is refused by an exception that the loop catches, and can be
  -- summarized for the next attempt, `author` raises its error after three calls.
  pub author-exhausted :
      (description symbol : String)
      → ((sent : List Message) → IsRefused symbol (complete sent))
      → ((author py strip model_dump read_fields complete description symbol).outcome
          ≡ raised (value_error "could not author a valid strategy"))
        × (length (author py strip model_dump read_fields complete description symbol).sent ≡ 3)
  unfolding author
  author-exhausted description symbol h =
      attempts-exhausted symbol 3 (request symbol description ∷ []) [] h
