-- ===== src/Runtime/Companion/Tests.antt =====
-- Turns of a companion on whole numbers.

use xbottrader.Runtime.Companion.Numbering.{IsNumbered, run-IsNumbered}
use xbottrader.Runtime.Companion.Budget.{decisions_on, run-capped, tick-decides}
use xbottrader.Runtime.Companion.{Decision, Companion, Tick, start, tick, run_from, run}
use xbottrader.Prelude.{ℕ, ◌*◌, ◌≤◌, ◌≡◌, refl, true, Option, none, some, List, [], ◌∷◌, arith}
use xbottrader.Decimal.Whole.{ℤ, pos, whole}
use xbottrader.Strategy.AiSignal.{AiSlots}

abbrev helper : Companion
helper = record {
  symbol = "BTC/USD";
  interval_s = 900;
  guidance = none;
  model = none;
  has_publisher = true;
  max_daily_consults = some 2;
}

abbrev slots : AiSlots ℤ
slots = record {
  closes = pos 100 ∷ pos 101 ∷ pos 99 ∷ [];
  signal = none;
  consumed_seq = none;
  held_qty = none;
}

abbrev at_day : ℕ → Option Decision → Tick ℤ
at_day today reply = record {
  today = today;
  slots = slots;
  reply = reply;
  now_ms = today * 86400000;
  publish_failure = none;
}

abbrev go : Option Decision
go = some (record { action = "buy"; reason = "dip"; usage = [] })

-- on the first day a failed call and a third decision that the cap leaves out
abbrev days : List (Tick ℤ)
days = at_day 1 go ∷ at_day 1 none ∷ at_day 1 go ∷ at_day 1 go ∷ at_day 1 go ∷ at_day 2 go ∷ []

days-decisions : decisions_on 1 (run helper days).effects ≡ 2
unfolding run_from
days-decisions = refl

run-capped_example : decisions_on 1 (run helper days).effects ≤ 2
run-capped_example =
    run-capped helper 2 1 days 1 refl
      (omega arith, (omega arith, (omega arith, (omega arith, (omega arith, (omega arith, tt))))))

run-IsNumbered_example : IsNumbered 0 (run helper days).effects
run-IsNumbered_example = run-IsNumbered helper days

tick-decides_example :
    (decisions_on 1 (tick helper (at_day 1 go) start).effects ≡ 1)
    × ((at_day 1 go).publish_failure ≡ none → (tick helper (at_day 1 go) start).failure ≡ none)
tick-decides_example = tick-decides helper (at_day 1 go) start
