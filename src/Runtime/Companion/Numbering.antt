-- ===== src/Runtime/Companion/Numbering.antt =====
-- apps/bot-engine/app/runtime/ai_companion.py with strategies/ai_signal.py: the numbers of the decisions.
use xbottrader.Runtime.Companion.{
  Companion, Spending, Tick, Effect, consulted, wrote, published, start, pause, decide, consult,
  tick, run_from, run,
}
use xbottrader.Decimal.{Decimal}
use xbottrader.Prelude.{
  is_none, Bool-cases, ℕ, ◌+◌, ◌≡◌, inl, inr, some, List, [], ◌∷◌, ◌++◌, arith,
}

module _ {D : Type 0} where
  -- Each written signal has the number after the one before it, from a last number on.
  abbrev pub IsNumbered : ℕ → List (Effect D) → Type 0
  IsNumbered last [] = Unit
  IsNumbered last (consulted today closes position ∷ es) = IsNumbered last es
  IsNumbered last (wrote today signal ∷ es) =
      (signal.seq ≡ some (last + 1)) × IsNumbered (last + 1) es
  IsNumbered last (published event ∷ es) = IsNumbered last es

  -- the last number after some effects
  abbrev pub last_number : ℕ → List (Effect D) → ℕ
  last_number last [] = last
  last_number last (consulted today closes position ∷ es) = last_number last es
  last_number last (wrote today signal ∷ es) = last_number (last + 1) es
  last_number last (published event ∷ es) = last_number last es

  IsNumbered-append :
      (last : ℕ) (es fs : List (Effect D))
      → IsNumbered last es
      → IsNumbered (last_number last es) fs
      → IsNumbered last (es ++ fs)
  IsNumbered-append last [] fs he hf = hf
  IsNumbered-append last (consulted today closes position ∷ es) fs he hf =
      IsNumbered-append last es fs he hf
  IsNumbered-append last (wrote today signal ∷ es) fs he hf =
      (he.0, IsNumbered-append (last + 1) es fs he.1 hf)
  IsNumbered-append last (published event ∷ es) fs he hf = IsNumbered-append last es fs he hf

module _ {D : Type 0} ⦃d : Decimal D⦄ where
  tick-IsNumbered :
      (c : Companion) (t : Tick D) (s : Spending)
      → IsNumbered s.seq (tick c t s).effects
        × (last_number s.seq (tick c t s).effects ≡ (tick c t s).spending.seq)
  unfolding tick consult decide pause
  tick-IsNumbered c t s = ground arith

  run_from-IsNumbered :
      (c : Companion) (ts : List (Tick D)) (s : Spending)
      → IsNumbered s.seq (run_from c ts s).effects
  unfolding run_from
  run_from-IsNumbered c [] s = tt
  run_from-IsNumbered c (t ∷ ts) s =
      let here = tick-IsNumbered c t s in
      let rest = run_from-IsNumbered c ts (tick c t s).spending in
      elim (Bool-cases (is_none (tick c t s).failure)) [
        | inl n ↦ rw n (
            IsNumbered-append s.seq (tick c t s).effects
              (run_from c ts (tick c t s).spending).effects here.0 (rw here.1 rest))
        | inr n ↦ rw n here.0
      ]

  -- The decisions that a companion writes into the strategy's slot are numbered 1, 2, 3 and so on,
  -- through every date, pause and failed call.
  pub run-IsNumbered : (c : Companion) (ts : List (Tick D)) → IsNumbered 0 (run c ts).effects
  run-IsNumbered c ts = run_from-IsNumbered c ts start
