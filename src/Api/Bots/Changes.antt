-- ===== src/Api/Bots/Changes.antt =====
-- apps/bot-engine/app/api/bots.py: what a change of a user's bots is to the user and to the others.
use xbottrader.Runtime.Control.{
  FleetHandle, is_over, find_handle, killed_by, put_found, kill_effects, kill, is_target,
  targets_of, kill_each,
}
use xbottrader.Api.Bots.Isolation.{
  own, IsScopedTo, AreScoped, find-own, own-put_found, put_found-AreScoped,
}
use xbottrader.Prelude.{
  if◌then◌else◌, Bool-cases, All, String, ◌≡◌, refl, sym, ap, subst, ◌∙◌, inl, inr, Bool, true,
  false, not, ◌&&◌, some, List, [], ◌∷◌, ◌++◌, arith, str_eq, str_eq_iff,
}

-- What a command on the bots of `u` does: the bots stay scoped, and no other user sees it.
pub record KeepsOthers (u : String) (hs hs' : List (String × FleetHandle)) : Type 0 where
  pub still : AreScoped hs'
  pub others : (w : String) → str_eq u w ≡ false → own w hs' ≡ own w hs

pub put_found-KeepsOthers :
    (u k : String) (change : FleetHandle → FleetHandle) (hs : List (String × FleetHandle))
    → ((h : FleetHandle) → (change h).user_id ≡ h.user_id)
    → IsScopedTo u k
    → AreScoped hs
    → KeepsOthers u hs (put_found k change (find_handle k hs) hs)
put_found-KeepsOthers u k change hs keeps t ts = record {
  still = put_found-AreScoped u k change (find_handle k hs) hs keeps t ts refl;
  others = λ w e. own-put_found w u k change (find_handle k hs) hs keeps t ts refl ∙ rw e refl;
}

-- and the same command on the bots of `u` alone
pub put_found-own :
    (u k : String) (change : FleetHandle → FleetHandle) (hs : List (String × FleetHandle))
    → ((h : FleetHandle) → (change h).user_id ≡ h.user_id)
    → IsScopedTo u k
    → AreScoped hs
    → put_found k change (find_handle k (own u hs)) (own u hs)
      ≡ own u (put_found k change (find_handle k hs) hs)
put_found-own u k change hs keeps t ts =
    let self : str_eq u u ≡ true = (str_eq_iff u u).1 refl in
    ap (λ o. put_found k change o (own u hs)) (find-own u k hs t ts)
    ∙ sym (own-put_found u u k change (find_handle k hs) hs keeps t ts refl ∙ rw self refl)

abbrev AreScopedTo : String → List String → Type 0
AreScopedTo u ids = All (IsScopedTo u) ids

if-cons :
    (b : Bool) (u k : String) (ids : List String)
    → (b ≡ true → IsScopedTo u k)
    → AreScopedTo u ids
    → AreScopedTo u (if b then k ∷ ids else ids)
if-cons true u k ids t ts = (t refl, ts)
if-cons false u k ids t ts = ts

target-user : (u : String) (h : FleetHandle) → is_target (some u) h ≡ true → h.user_id ≡ u
target-user u h e = let s : str_eq h.user_id u ≡ true = ground arith in (str_eq_iff h.user_id u).0 s

pub targets_of-AreScopedTo :
    (u : String) (hs : List (String × FleetHandle))
    → AreScoped hs
    → AreScopedTo u (targets_of (some u) hs)
targets_of-AreScopedTo u [] ts = tt
targets_of-AreScopedTo u ((k, h) ∷ rest) ts =
    if-cons (is_target (some u) h) u k (targets_of (some u) rest)
      (λ e. subst (λ x. IsScopedTo x k) (target-user u h e) ts.0)
      (targets_of-AreScopedTo u rest ts.1)

untouched : {A : Type 0} (b : Bool) (x y : A) → (if b && false then x else y) ≡ y
untouched true x y = refl
untouched false x y = refl

pub targets_of-own :
    (u : String) (hs : List (String × FleetHandle))
    → targets_of (some u) (own u hs) ≡ targets_of (some u) hs
targets_of-own u [] = refl
targets_of-own u ((k, h) ∷ rest) =
    let later = targets_of-own u rest in
    elim (Bool-cases (str_eq h.user_id u)) [
      | inl e ↦
          rw e (rw e (ap (λ ids. if not (is_over h.state) && true then k ∷ ids else ids) later))
      | inr e ↦ rw e (later ∙ sym (untouched (not (is_over h.state)) _ _))
    ]

-- `kill_each`, on bots of `u`
pub kill_each-KeepsOthers :
    (u : String) (ids : List String) (hs : List (String × FleetHandle))
    → AreScopedTo u ids
    → AreScoped hs
    → KeepsOthers u hs (kill_each ids hs).1
unfolding kill_each kill
kill_each-KeepsOthers u [] hs t ts = record { still = ts; others = λ w e. refl }
kill_each-KeepsOthers u (k ∷ ids) hs t ts =
    let one = put_found-KeepsOthers u k killed_by hs (λ h. refl) t.0 ts in
    let rest = kill_each-KeepsOthers u ids (kill k hs).2 t.1 one.still in
    record { still = rest.still; others = λ w e. rest.others w e ∙ one.others w e }

pub kill_each-own :
    (u : String) (ids : List String) (hs : List (String × FleetHandle))
    → AreScopedTo u ids
    → AreScoped hs
    → ((kill_each ids (own u hs)).0 ≡ (kill_each ids hs).0)
      × ((kill_each ids (own u hs)).1 ≡ own u (kill_each ids hs).1)
unfolding kill_each kill
kill_each-own u [] hs t ts = (refl, refl)
kill_each-own u (k ∷ ids) hs t ts =
    let same = put_found-own u k killed_by hs (λ h. refl) t.0 ts in
    let one = put_found-KeepsOthers u k killed_by hs (λ h. refl) t.0 ts in
    let rest = kill_each-own u ids (kill k hs).2 t.1 one.still in
    (
      ap (λ o. kill_effects k o ++ (kill_each ids (kill k (own u hs)).2).0) (find-own u k hs t.0 ts)
          ∙ ap (λ x. kill_effects k (find_handle k hs) ++ (kill_each ids x).0) same
          ∙ ap (λ x. kill_effects k (find_handle k hs) ++ x) rest.0,
      ap (λ x. (kill_each ids x).1) same ∙ rest.1,
    )
