-- ===== src/Runtime/Companion.antt =====
-- apps/bot-engine/app/runtime/ai_companion.py: the task beside an AI-signal bot that asks the AI engine
-- for decisions. A tick is one turn of the loop after its sleep, with what the turn reads and
-- what the AI engine and the publisher answer; a UTC date is a day number. The cancellation of the
-- task is not modelled.
pub mod Budget
pub mod Numbering
mod Tests
use xbottrader.Decimal.{Decimal, zero_of}
use xbottrader.Prelude.{
  ltb, leb, ◌==◌, if◌then◌else◌, is_none, or_default, length, Exception, value_error, Result,
  raised, ok, ℕ, ◌+◌, ◌*◌, String, Bool, true, false, Option, none, some, List, [], ◌∷◌, ◌++◌,
}
use xbottrader.Strategy.AiSignal.{Signal, AiSlots}
use xbottrader.Config.Schema.{
  StrategyConfig, dca, grid, ma_crossover, custom_rules, ai_signal, python,
}

pub record Decision : Type 0 where
  pub action : String
  pub reason : String
  pub usage : List (String × ℕ)

pub data CompanionEvent : Type 0 where
  -- the date, the consults of the day, and the cap
  ai_budget_exhausted : ℕ → ℕ → ℕ → CompanionEvent
  -- the number of the decision, the decision, and the consults of the day
  ai_decision : ℕ → Decision → ℕ → CompanionEvent

-- `AiSignalCompanion`, as far as its fields steer the loop
pub record Companion : Type 0 where
  pub symbol : String
  pub interval_s : ℕ
  pub guidance : Option String
  pub model : Option String
  pub has_publisher : Bool
  pub max_daily_consults : Option ℕ

-- the local variables of `run`
pub record Spending : Type 0 where
  pub seq : ℕ
  pub day : Option ℕ
  pub consults : ℕ
  pub flagged : Bool

pub record Tick (D : Type 0) : Type 0 where
  pub today : ℕ
  pub slots : AiSlots D
  -- the answer of `client.signal`, or none where it raises
  pub reply : Option Decision
  pub now_ms : ℕ
  -- what `publish` raises
  pub publish_failure : Option Exception

-- What a turn does, in order: the call of the AI engine, a write into `SIGNAL_SLOT`, and an event
-- handed to the publisher. The first two keep the date of the turn.
pub data Effect (D : Type 0) : Type 0 where
  consulted : ℕ → List D → D → Effect D
  wrote : ℕ → Signal → Effect D
  published : CompanionEvent → Effect D

-- A turn or more: the effects, the local variables after it, and the exception that ended the loop.
pub record Turn (D : Type 0) : Type 0 where
  pub effects : List (Effect D)
  pub spending : Spending
  pub failure : Option Exception

abbrev pub start : Spending
start = record { seq = 0; day = none; consults = 0; flagged = false }

abbrev pub is_day : Option ℕ → ℕ → Bool
is_day none today = false
is_day (some day) today = day == today

-- `if today != day: …`
abbrev pub rolled : ℕ → Spending → Spending
rolled today s =
    if is_day s.day today
    then s
    else record { seq = s.seq; day = some today; consults = 0; flagged = false }

module _ {D : Type 0} where
  -- `_emit`, at the end of a turn
  abbrev pub emit : Companion → Tick D → CompanionEvent → List (Effect D) → Spending → Turn D
  emit c t event before s =
      if c.has_publisher
      then record {
        effects = before ++ published event ∷ [];
        spending = s;
        failure = t.publish_failure;
      }
      else record { effects = before; spending = s; failure = none }

  -- the branch of a cap that has been reached
  unfoldable pub pause : Companion → Tick D → ℕ → Spending → Turn D
  pause c t max s =
      if s.flagged
      then record { effects = []; spending = s; failure = none }
      else emit c t (ai_budget_exhausted t.today s.consults max) [] (record s { flagged = true })

  -- what follows the call of the AI engine
  unfoldable pub decide : Companion → Tick D → Effect D → Option Decision → Spending → Turn D
  decide c t call none s = record { effects = call ∷ []; spending = s; failure = none }
  decide c t call (some d) s =
      let seq = s.seq + 1 in
      let consults = s.consults + 1 in
      let signal : Signal = record {
        seq = some seq;
        action = d.action;
        reason = d.reason;
        ts_ms = t.now_ms;
      } in
      emit c t (ai_decision seq d consults) (call ∷ wrote t.today signal ∷ [])
        (record s { seq = seq; consults = consults })

module _ {D : Type 0} ⦃d : Decimal D⦄ where
  unfoldable pub consult : Companion → Tick D → Spending → Turn D
  unfolding decide
  consult c t s =
      let position = or_default (zero_of D) t.slots.held_qty in
      decide c t (consulted t.today t.slots.closes position) t.reply s

  abbrev pub spend : Companion → Tick D → Option ℕ → Spending → Turn D
  spend c t none s = consult c t s
  spend c t (some max) s = if leb max s.consults then pause c t max s else consult c t s

  -- one turn of the loop of `run`
  unfoldable pub tick : Companion → Tick D → Spending → Turn D
  unfolding pause consult
  tick c t s =
      let now = rolled t.today s in
      if ltb (length t.slots.closes) 2
      then record { effects = []; spending = now; failure = none }
      else spend c t c.max_daily_consults now

  -- `run` over the turns that it takes, from given local variables
  unfoldable pub run_from : Companion → List (Tick D) → Spending → Turn D
  unfolding tick
  run_from c [] s = record { effects = []; spending = s; failure = none }
  run_from c (t ∷ ts) s =
      let now = tick c t s in
      let rest = run_from c ts now.spending in
      if is_none now.failure
      then record {
        effects = now.effects ++ rest.effects;
        spending = rest.spending;
        failure = rest.failure;
      }
      else now

  -- `run`
  abbrev pub run : Companion → List (Tick D) → Turn D
  run c ts = run_from c ts start

  -- `build_ai_companion`, where a client is its cap
  unfoldable pub build_ai_companion :
      Option (Option ℕ) → Bool → StrategyConfig D → Result (Option Companion)
  build_ai_companion client has_publisher (ai_signal p) = elim client [
    | none ↦ raised (value_error "ai_signal strategy requires the AI Engine")
    | some max ↦ ok (
        some (record {
          symbol = p.symbol;
          interval_s = p.decision_interval_minutes * 60;
          guidance = p.guidance;
          model = p.model;
          has_publisher = has_publisher;
          max_daily_consults = max;
        }))
  ]
  build_ai_companion client has_publisher (dca p) = ok none
  build_ai_companion client has_publisher (grid p) = ok none
  build_ai_companion client has_publisher (ma_crossover p) = ok none
  build_ai_companion client has_publisher (custom_rules p) = ok none
  build_ai_companion client has_publisher (python p) = ok none
