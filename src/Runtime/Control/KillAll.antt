-- ===== src/Runtime/Control/KillAll.antt =====
-- apps/bot-engine/app/runtime/supervisor.py: which bots `kill_all` kills.
use xbottrader.Strategy.RuleEngine.Config.{contains_name}
use xbottrader.Runtime.Supervisor.{
  BotState, starting, running, stopping, stopped, errored, paused, killed, idle,
}
use xbottrader.Runtime.Control.{
  is_over, in_scope, FleetHandle, find_handle, set_handle, killed_by, put_found, kill, is_target,
  targets_of, kill_each, kill_all,
}
use xbottrader.Prelude.{
  if◌then◌else◌, Bool-cases, String, ◌≡◌, ◌≢◌, ◌⊎◌, refl, sym, ap, ◌∙◌, inl, inr, Bool, true, false,
  ◌&&◌, ◌||◌, Option, none, some, List, [], ◌∷◌, arith, str_eq, str_eq_iff,
}

-- no two handles have one id, as in a dict
abbrev pub AreKeyed : List (String × FleetHandle) → Type 0
AreKeyed [] = Unit
AreKeyed ((k, h) ∷ rest) = (find_handle k rest ≡ none) × AreKeyed rest

abbrev pub killed_found : Option FleetHandle → Option FleetHandle
killed_found none = none
killed_found (some h) = some (killed_by h)

abbrev pub is_target_found : Option String → Option FleetHandle → Bool
is_target_found scope none = false
is_target_found scope (some h) = is_target scope h

find-set_same :
    (id : String) (h : FleetHandle) (hs : List (String × FleetHandle))
    → find_handle id (set_handle id h hs) ≡ some h
find-set_same id h [] = let same : str_eq id id ≡ true = (str_eq_iff id id).1 refl in rw same refl
find-set_same id h ((k, old) ∷ rest) =
    let later = find-set_same id h rest in
    elim (Bool-cases (str_eq k id)) [ inl e ↦ rw e (rw e refl) | inr e ↦ rw e (rw e later) ]

find-set_other :
    (id k : String) (h : FleetHandle) (hs : List (String × FleetHandle))
    → str_eq k id ≡ false
    → find_handle id (set_handle k h hs) ≡ find_handle id hs
find-set_other id k h [] e = rw e refl
find-set_other id k h ((k', old) ∷ rest) e =
    let later = find-set_other id k h rest e in
    elim (Bool-cases (str_eq k' k)) [
      | inl s ↦
          let same : k' ≡ k = (str_eq_iff k' k).0 s in
          let other : str_eq k' id ≡ false = ap (λ x. str_eq x id) same ∙ e in rw s (rw other refl)
      | inr s ↦ rw s (ap (λ o. if str_eq k' id then some old else o) later)
    ]

put_found-same :
    (id : String) (found : Option FleetHandle) (hs : List (String × FleetHandle))
    → found ≡ find_handle id hs
    → find_handle id (put_found id killed_by found hs) ≡ killed_found found
put_found-same id none hs e = sym e
put_found-same id (some h) hs e = find-set_same id (killed_by h) hs

put_found-other :
    (id k : String) (found : Option FleetHandle) (hs : List (String × FleetHandle))
    → str_eq k id ≡ false
    → find_handle id (put_found k killed_by found hs) ≡ find_handle id hs
put_found-other id k none hs e = refl
put_found-other id k (some h) hs e = find-set_other id k (killed_by h) hs e

killed-killed : (o : Option FleetHandle) → killed_found (killed_found o) ≡ killed_found o
killed-killed none = refl
killed-killed (some h) = refl

killed-if :
    (b : Bool) (o : Option FleetHandle)
    → (if b then killed_found (killed_found o) else killed_found o) ≡ killed_found o
killed-if true o = killed-killed o
killed-if false o = refl

find-kill_each :
    (id : String) (ids : List String) (hs : List (String × FleetHandle))
    → find_handle id (kill_each ids hs).1
      ≡ (if contains_name id ids then killed_found (find_handle id hs) else find_handle id hs)
unfolding kill_each kill
find-kill_each id [] hs = refl
find-kill_each id (k ∷ ids) hs =
    let rest = find-kill_each id ids (kill k hs).2 in
    elim (Bool-cases (str_eq k id)) [
      | inl e ↦
          let same : k ≡ id = (str_eq_iff k id).0 e in
          let one : find_handle id (kill k hs).2 ≡ killed_found (find_handle id hs) =
            ap (λ x. find_handle id (put_found x killed_by (find_handle x hs) hs)) same
            ∙ put_found-same id (find_handle id hs) hs refl in
          rest
          ∙ ap (λ o. if contains_name id ids then killed_found o else o) one
          ∙ killed-if (contains_name id ids) (find_handle id hs)
          ∙ ap
              (λ b.
                if b || contains_name id ids
                then killed_found (find_handle id hs)
                else find_handle id hs)
              (sym e)
      | inr e ↦
          let one = put_found-other id k (find_handle k hs) hs e in
          rest
          ∙ ap (λ o. if contains_name id ids then killed_found o else o) one
          ∙ ap
              (λ b.
                if b || contains_name id ids
                then killed_found (find_handle id hs)
                else find_handle id hs)
              (sym e)
    ]

and-false : (b : Bool) → (b && false || false) ≡ false
and-false true = refl
and-false false = refl

and-false' : (b : Bool) → (b && false) ≡ false
and-false' true = refl
and-false' false = refl

and-true : (b : Bool) → (b && true || false) ≡ b
and-true true = refl
and-true false = refl

contains-if :
    (id k : String) (b : Bool) (xs : List String)
    → contains_name id (if b then k ∷ xs else xs) ≡ (b && str_eq k id || contains_name id xs)
contains-if id k true xs = refl
contains-if id k false xs = refl

absent-targets :
    (scope : Option String) (id : String) (hs : List (String × FleetHandle))
    → find_handle id hs ≡ none
    → contains_name id (targets_of scope hs) ≡ false
absent-targets scope id [] e = refl
absent-targets scope id ((k, h) ∷ rest) e =
    let later = absent-targets scope id rest in
    let split = contains-if id k (is_target scope h) (targets_of scope rest) in
    elim (Bool-cases (str_eq k id)) [
      | inl s ↦ absurd (ground arith)
      | inr s ↦
          let gone : find_handle id rest ≡ none = ground arith in
          let out = later gone in split ∙ rw s (rw out (and-false (is_target scope h)))
    ]

target-found :
    (scope : Option String) (id : String) (hs : List (String × FleetHandle))
    → AreKeyed hs
    → contains_name id (targets_of scope hs) ≡ is_target_found scope (find_handle id hs)
target-found scope id [] u = refl
target-found scope id ((k, h) ∷ rest) u =
    let split = contains-if id k (is_target scope h) (targets_of scope rest) in
    elim (Bool-cases (str_eq k id)) [
      | inl s ↦
          let same : k ≡ id = (str_eq_iff k id).0 s in
          let gone = absent-targets scope id rest (ap (λ x. find_handle x rest) (sym same) ∙ u.0) in
          split ∙ rw s (rw gone (and-true (is_target scope h)))
      | inr s ↦
          split
          ∙ rw s (
              ap (λ b. b || contains_name id (targets_of scope rest))
                (and-false' (is_target scope h))
              ∙ target-found scope id rest u.1)
    ]

kill_all-by_target :
    (scope : Option String) (id : String) (hs : List (String × FleetHandle))
    → AreKeyed hs
    → (find_handle id (kill_all scope hs).2 ≡ (
        if is_target_found scope (find_handle id hs)
        then killed_found (find_handle id hs)
        else find_handle id hs))
      × (contains_name id (kill_all scope hs).0 ≡ is_target_found scope (find_handle id hs))
unfolding kill_all
kill_all-by_target scope id hs u =
    let target = target-found scope id hs u in
    (
      find-kill_each id (targets_of scope hs) hs
          ∙ ap (λ b. if b then killed_found (find_handle id hs) else find_handle id hs) target,
      target,
    )

-- The bot has not ended, and is one of the user, if one is given.
abbrev pub MustDie : Option String → FleetHandle → Type 0
MustDie scope h =
    ((h.state ≢ stopped) × (h.state ≢ errored) × (h.state ≢ killed))
    × ((scope ≡ none) ⊎ (scope ≡ some h.user_id))

-- The bot has ended, or is one of another user than the given one.
abbrev pub IsSpared : Option String → FleetHandle → Type 0
IsSpared scope h =
    ((h.state ≡ stopped) ⊎ (h.state ≡ errored) ⊎ (h.state ≡ killed))
    ⊎ ((user_id : String) × (scope ≡ some user_id) × (h.user_id ≢ user_id))

state-cases :
    (s : BotState)
    → ((is_over s ≡ true) × ((s ≡ stopped) ⊎ (s ≡ errored) ⊎ (s ≡ killed)))
      ⊎ ((is_over s ≡ false) × (s ≢ stopped) × (s ≢ errored) × (s ≢ killed))
state-cases stopped = inl (refl, inl refl)
state-cases errored = inl (refl, inr (inl refl))
state-cases killed = inl (refl, inr (inr refl))
state-cases starting = inr (refl, (λ e. cc), (λ e. cc), λ e. cc)
state-cases running = inr (refl, (λ e. cc), (λ e. cc), λ e. cc)
state-cases stopping = inr (refl, (λ e. cc), (λ e. cc), λ e. cc)
state-cases paused = inr (refl, (λ e. cc), (λ e. cc), λ e. cc)
state-cases idle = inr (refl, (λ e. cc), (λ e. cc), λ e. cc)

scope-cases :
    (scope : Option String) (h : FleetHandle)
    → ((in_scope scope h ≡ true) × ((scope ≡ none) ⊎ (scope ≡ some h.user_id)))
      ⊎ ((in_scope scope h ≡ false)
          × ((user_id : String) × (scope ≡ some user_id) × (h.user_id ≢ user_id)))
scope-cases none h = inl (refl, inl refl)
scope-cases (some user_id) h = elim (Bool-cases (str_eq h.user_id user_id)) [
  | inl same ↦ inl (same, inr (ap some (sym ((str_eq_iff h.user_id user_id).0 same))))
  | inr apart ↦
      inr (apart, (user_id, refl, λ e. let same = (str_eq_iff h.user_id user_id).1 e in cc))
]

target-cases :
    (scope : Option String) (h : FleetHandle)
    → ((is_target scope h ≡ true) × MustDie scope h)
      ⊎ ((is_target scope h ≡ false) × IsSpared scope h)
target-cases scope h = elim (state-cases h.state) [
  | inl (over, e) ↦ inr (rw over refl, inl e)
  | inr (going, a, b, c) ↦ elim (scope-cases scope h) [
    | inl (mine, e) ↦ inl (rw (going, mine) refl, ((a, b, c), e))
    | inr (other, e) ↦ inr (rw (going, other) refl, inr e)
  ]
]

-- After `kill_all` a bot that was not stopped, errored or killed, of the given user if there is one, is in
-- the state killed with its task done and its id is among those returned; a bot that had ended, or is of another user,
-- is as it was and its id is not. The handles have distinct ids, no other coroutine runs in
-- between, and the publisher does not raise.
pub kill_all-found :
    (scope : Option String) (id : String) (h : FleetHandle) (hs : List (String × FleetHandle))
    → AreKeyed hs
    → find_handle id hs ≡ some h
    → (MustDie scope h
        × (find_handle id (kill_all scope hs).2
            ≡ some (record {
              user_id = h.user_id;
              state = killed;
              live = false;
              last_error = h.last_error;
            }))
        × (contains_name id (kill_all scope hs).0 ≡ true))
      ⊎ (IsSpared scope h
          × (find_handle id (kill_all scope hs).2 ≡ some h)
          × (contains_name id (kill_all scope hs).0 ≡ false))
kill_all-found scope id h hs u e =
    let (after, listed) = kill_all-by_target scope id hs u in
    elim (target-cases scope h) [
      | inl (target, hit) ↦ inl (hit, after ∙ rw e (rw target refl), listed ∙ rw e target)
      | inr (target, kept) ↦ inr (kept, after ∙ rw e (rw target refl), listed ∙ rw e target)
    ]
