-- ===== src/Runtime/Companion/Budget.antt =====
-- apps/bot-engine/app/runtime/ai_companion.py: the daily cap on the decisions.
use xbottrader.Runtime.Companion.{
  Companion, Spending, Tick, Effect, consulted, wrote, published, start, is_day, rolled, pause,
  decide, consult, tick, run_from, run,
}
use xbottrader.Decimal.{Decimal}
use xbottrader.Prelude.{
  ltb, leb, ◌==◌, if◌then◌else◌, is_none, Bool-cases, order-cases, length, ℕ, suc, ◌+◌, ◌≤◌, ◌<◌,
  ◌≡◌, refl, sym, inl, inr, Bool, true, false, not, ◌&&◌, Option, none, some, List, [], ◌∷◌, ◌++◌,
  arith,
}

-- the decisions written on a date
module _ {D : Type 0} where
  abbrev pub decisions_on : ℕ → List (Effect D) → ℕ
  decisions_on date [] = 0
  decisions_on date (consulted today closes position ∷ es) = decisions_on date es
  decisions_on date (wrote today signal ∷ es) =
      let later = decisions_on date es in if today == date then suc later else later
  decisions_on date (published event ∷ es) = decisions_on date es

  -- the dates of the ticks never go back, from a first one on
  abbrev pub IsFrom : ℕ → List (Tick D) → Type 0
  IsFrom date [] = Unit
  IsFrom date (t ∷ ts) = (date ≤ t.today) × IsFrom t.today ts

  decisions_on-append :
      (date : ℕ) (es fs : List (Effect D))
      → decisions_on date (es ++ fs) ≡ decisions_on date es + decisions_on date fs
  decisions_on-append date [] fs = omega arith
  decisions_on-append date (consulted today closes position ∷ es) fs =
      decisions_on-append date es fs
  decisions_on-append date (wrote today signal ∷ es) fs =
      let ih = decisions_on-append date es fs in ground arith
  decisions_on-append date (published event ∷ es) fs = decisions_on-append date es fs

-- the date of the last turn, if any, is not past a given one
abbrev DayBy : Option ℕ → ℕ → Type 0
DayBy none date = Unit
DayBy (some day) date = day ≤ date

DayBy-today : (day : Option ℕ) (today : ℕ) → is_day day today ≡ true → DayBy day today
DayBy-today none today h = absurd cc
DayBy-today (some day) today h = ground arith

abbrev used_on : ℕ → Spending → ℕ
used_on date s = if is_day s.day date then s.consults else 0

DayBy-mono : (day : Option ℕ) (first later : ℕ) → first ≤ later → DayBy day first → DayBy day later
DayBy-mono none first later l h = tt
DayBy-mono (some day) first later l h = omega arith

used-before :
    (day : Option ℕ) (first date : ℕ) → DayBy day first → first < date → is_day day date ≡ false
used-before none first date h l = refl
used-before (some day) first date h l = ground arith

used-le : (date : ℕ) (s : Spending) → used_on date s ≤ s.consults
used-le date s = ground arith

-- whether the cap leaves a consult, after the consults of the date
abbrev pub has_budget : Option ℕ → ℕ → Bool
has_budget none consults = true
has_budget (some max) consults = ltb consults max

module _ {D : Type 0} ⦃d : Decimal D⦄ where
  -- A turn is about its own date.
  tick-day :
      (c : Companion) (t : Tick D) (s : Spending) → is_day (tick c t s).spending.day t.today ≡ true
  unfolding tick consult decide pause
  tick-day c t s = ground arith

  tick-elsewhere :
      (c : Companion) (t : Tick D) (s : Spending) (date : ℕ)
      → (t.today ≡ date → ⊥)
      → decisions_on date (tick c t s).effects ≡ 0
  unfolding tick consult decide pause
  tick-elsewhere c t s date h = ground arith

  -- A turn counts the decision that it writes, and ends within the cap.
  tick-counts :
      (c : Companion) (t : Tick D) (s : Spending)
      → decisions_on t.today (tick c t s).effects + (rolled t.today s).consults
        ≡ (tick c t s).spending.consults
  unfolding tick consult decide pause
  tick-counts c t s = ground arith

  tick-used :
      (c : Companion) (t : Tick D) (s : Spending) (date : ℕ)
      → t.today ≡ date
      → decisions_on date (tick c t s).effects + used_on date s ≡ used_on date (tick c t s).spending
  tick-used c t s date e =
      let counted = tick-counts c t s in let day = tick-day c t s in rw (sym e) (ground arith)

  tick-capped :
      (c : Companion) (t : Tick D) (s : Spending) (max : ℕ)
      → c.max_daily_consults ≡ some max
      → s.consults ≤ max
      → (tick c t s).spending.consults ≤ max
  unfolding tick consult decide pause
  tick-capped c t s max hc h = ground arith

  -- the decisions of a run are those of its first turn and of the others
  run_from-le :
      (c : Companion) (t : Tick D) (ts : List (Tick D)) (s : Spending) (date : ℕ)
      → decisions_on date (run_from c (t ∷ ts) s).effects
        ≤ decisions_on date (tick c t s).effects
          + decisions_on date (run_from c ts (tick c t s).spending).effects
  unfolding run_from
  run_from-le c t ts s date =
      let e =
        decisions_on-append date (tick c t s).effects
          (run_from c ts (tick c t s).spending).effects in
      elim (Bool-cases (is_none (tick c t s).failure)) [
        | inl n ↦ rw n (omega arith)
        | inr n ↦ rw n (omega arith)
      ]

  run-elsewhere :
      (c : Companion) (first : ℕ) (ts : List (Tick D)) (s : Spending) (date : ℕ)
      → IsFrom first ts
      → date < first
      → decisions_on date (run_from c ts s).effects ≡ 0
  unfolding run_from
  run-elsewhere c first [] s date hf h = refl
  run-elsewhere c first (t ∷ ts) s date hf h =
      let here = tick-elsewhere c t s date (λ e. omega arith) in
      let later = run-elsewhere c t.today ts (tick c t s).spending date hf.1 (omega arith) in
      let sum = run_from-le c t ts s date in omega arith

  run_from-capped :
      (c : Companion) (max first : ℕ) (ts : List (Tick D)) (s : Spending) (date : ℕ)
      → c.max_daily_consults ≡ some max
      → IsFrom first ts
      → DayBy s.day first
      → s.consults ≤ max
      → decisions_on date (run_from c ts s).effects + used_on date s ≤ max
  unfolding run_from
  run_from-capped c max first [] s date hc hf hd h = ground arith
  run_from-capped c max first (t ∷ ts) s date hc hf hd h =
      let now = (tick c t s).spending in
      let sum = run_from-le c t ts s date in
      let day = tick-day c t s in
      let rest =
        run_from-capped c max t.today ts now date hc hf.1 (DayBy-today now.day t.today day)
          (tick-capped c t s max hc h) in
      elim (order-cases t.today date) [
        | inl l ↦
            let here = tick-elsewhere c t s date (λ e. omega arith) in
            let unused =
              used-before s.day t.today date (DayBy-mono s.day first t.today hf.0 hd) l in
            rw unused (omega arith)
        | inr (inl e) ↦ let counted = tick-used c t s date e in omega arith
        | inr (inr g) ↦
            let here = tick-elsewhere c t s date (λ e. omega arith) in
            let later = run-elsewhere c t.today ts now date hf.1 g in
            let spent = used-le date s in omega arith
      ]

  -- Where a companion has a cap, no run of it writes more decisions on a date than the cap. The
  -- dates of the turns never go back.
  pub run-capped :
      (c : Companion) (max first : ℕ) (ts : List (Tick D)) (date : ℕ)
      → c.max_daily_consults ≡ some max
      → IsFrom first ts
      → decisions_on date (run c ts).effects ≤ max
  run-capped c max first ts date hc hf =
      let bound = run_from-capped c max first ts start date hc hf tt (omega arith) in omega arith

  -- A turn writes a decision, one, exactly where the window has two closes, the decisions counted on its
  -- date, none where the last turn was on another, are below the cap, if there is one, and the AI engine answers; and whatever happens, the next turn comes
  -- unless the publisher has raised.
  pub tick-decides :
      (c : Companion) (t : Tick D) (s : Spending)
      → (decisions_on t.today (tick c t s).effects ≡ (
          if leb 2 (length t.slots.closes)
            && has_budget c.max_daily_consults (used_on t.today s)
            && not (is_none t.reply)
          then 1
          else 0))
        × (t.publish_failure ≡ none → (tick c t s).failure ≡ none)
  unfolding tick consult decide pause
  tick-decides c t s = (ground arith, λ h. ground arith)
