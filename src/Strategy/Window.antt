-- ===== src/Strategy/Window.antt =====
-- The trailing window of closes that several strategies keep in `state.custom["closes"]`.
use xbottrader.Prelude.{
  ltb, if◌then◌else◌, Bool-cases, length, drop, last_n, length-append, length-drop, drop-append,
  drop-drop, ℕ, ◌+◌, ◌-◌, ◌≤◌, ◌≡◌, ap, ◌∙◌, inl, inr, List, [], ◌∷◌, ◌++◌, arith,
}
use mathlib.Core.List.{append-nil, append_assoc}

module _ {ℓ} {A : Type ℓ} where
  -- `closes.append(close)`, then `del closes[0]` if there are more than `size`
  unfoldable pub push_close : ℕ → A → List A → List A
  push_close size close closes =
      let longer = closes ++ close ∷ [] in
      if ltb size (length longer) then drop 1 longer else longer

  unfoldable pub push_closes : ℕ → List A → List A → List A
  push_closes size closes [] = closes
  push_closes size closes (c ∷ cs) = push_closes size (push_close size c closes) cs

  pub length-push_close :
      (size : ℕ) (close : A) (closes : List A)
      → length closes ≤ size
      → length (push_close size close closes) ≤ size
  unfolding push_close
  length-push_close size close closes h =
      ground (arith, length-append closes (close ∷ []), length-drop 1 (closes ++ close ∷ []))

  -- the window after one more close is the window of the longer history
  pub push_close-last_n :
      (size : ℕ) (close : A) (history : List A)
      → push_close size close (last_n size history) ≡ last_n size (history ++ close ∷ [])
  unfolding push_close
  push_close-last_n size close history =
      rw (← joined) (elim (Bool-cases (ltb size (length (drop k longer)))) [
        | inl full ↦
            rw full (drop-drop 1 k longer ∙ ap (λ i. drop i longer) (ground (arith, facts)))
        | inr room ↦ rw room (ap (λ i. drop i longer) (ground (arith, facts)))
      ])
    where
      longer : List A
      longer = history ++ close ∷ []

      k : ℕ
      k = length history - size

      joined : drop k longer ≡ last_n size history ++ close ∷ []
      joined = drop-append k history (close ∷ []) (omega arith)

      facts : (length longer ≡ length history + 1) × (length (drop k longer) ≡ length longer - k)
      facts = (length-append history (close ∷ []), length-drop k longer)

  -- Pushing closes one by one leaves the last ones of the whole history.
  pub push_closes-last_n :
      (size : ℕ) (closes history : List A)
      → push_closes size (last_n size history) closes ≡ last_n size (history ++ closes)
  unfolding push_closes
  push_closes-last_n size [] history = rw append-nil
  push_closes-last_n size (c ∷ cs) history = rw push_close-last_n (
      push_closes-last_n size cs (history ++ c ∷ [])
      ∙ ap (last_n size) (append_assoc history (c ∷ []) cs))
