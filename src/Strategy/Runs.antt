-- ===== src/Strategy/Runs.antt =====
-- A strategy over a stream of bars: `on_bar` for each bar in turn, on the one state, as the backtest
-- and the supervisor call it. What a run may emit is described by an automaton that reads the log.
use xbottrader.Prelude.{Result, ok, ◌>>=◌, ◌≡◌, refl, sym, List, [], ◌∷◌, ◌++◌}
use mathlib.Core.Path.{subst}
use xbottrader.Strategy.Base.{OrderIntent, StrategyState}

-- Each intent with the input that triggered it, in order. The input is a bar, or a bar with what a
-- companion has written before it.
abbrev pub Log : Type 0 → Type 0 → Type 0
Log I D = List (I × OrderIntent D)

module _ {I D : Type 0} where
  abbrev pub stamp : I → List (OrderIntent D) → Log I D
  stamp bar [] = []
  stamp bar (o ∷ os) = (bar, o) ∷ stamp bar os

module _ {I D C : Type 0} where
  unfoldable pub run :
      (I → StrategyState C → Result (List (OrderIntent D) × StrategyState C))
      → List I
      → StrategyState C
      → Result (Log I D × StrategyState C)
  run on_bar [] s = ok ([], s)
  run on_bar (bar ∷ bars) s = do
    (os, t) ← on_bar bar s
    (log, u) ← run on_bar bars t
    ok (stamp bar os ++ log, u)

-- What may be emitted: a step relation of an abstract book `A`, which reads an intent and its bar.
abbrev pub StepOf : Type 0 → Type 0 → Type 0 → Type 1
StepOf I D A = A → I → OrderIntent D → A → Type 0

module _ {I D A : Type 0} (Step : StepOf I D A) where
  -- The book goes from `a` to `b` by the log, one step for each intent.
  abbrev pub Replays : A → Log I D → A → Type 0
  Replays a [] b = a ≡ b
  Replays a ((bar, o) ∷ log) b = (c : A) × Step a bar o c × Replays c log b

  pub Replays-append :
      (a b c : A) (xs ys : Log I D) → Replays a xs b → Replays b ys c → Replays a (xs ++ ys) c
  Replays-append a b c [] ys h k = subst (λ (x : A). Replays x ys c) (sym h) k
  Replays-append a b c ((bar, o) ∷ xs) ys h k = (h.0, h.1, Replays-append h.0 b c xs ys h.2 k)

module _ {I D C A : Type 0} (Step : StepOf I D A) (Rel : A → StrategyState C → Type 0) where
  -- One call returns, its intents are steps of the book, and book and state stay related.
  abbrev pub Answers : A → I → Result (List (OrderIntent D) × StrategyState C) → Type 0
  Answers a bar r =
      (os : List (OrderIntent D)) × (t : StrategyState C) × (b : A) × (r ≡ ok (os, t))
      × Replays Step a (stamp bar os) b
      × Rel b t

  -- The same of a run, with its log.
  abbrev pub Accepts : A → Result (Log I D × StrategyState C) → Type 0
  Accepts a r =
      (log : Log I D) × (t : StrategyState C) × (b : A) × (r ≡ ok (log, t))
      × Replays Step a log b
      × Rel b t

  pub run-Accepts :
      (on_bar : (I → StrategyState C → Result (List (OrderIntent D) × StrategyState C)))
      → ((bar : I) (s : StrategyState C) (a : A) → Rel a s → Answers a bar (on_bar bar s))
      → (bars : List I) (s : StrategyState C) (a : A) → Rel a s
      → Accepts a (run on_bar bars s)
  unfolding run
  run-Accepts on_bar sim [] s a h = ([], s, a, refl, refl, h)
  run-Accepts on_bar sim (bar ∷ bars) s a h =
      let (os, t, b, e, r, k) = sim bar s a h in
      let (log, u, c, e', r', k') = run-Accepts on_bar sim bars t b k in
      (stamp bar os ++ log, u, c, rw (e, e'), Replays-append Step a b c (stamp bar os) log r r', k')
