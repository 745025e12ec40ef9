-- ===== src/Api/Bots/Isolation.antt =====
-- apps/bot-engine/app/api/bots.py: the bots of one user among those of all.
use xbottrader.Api.Bots.{scoped}
use xbottrader.Runtime.Control.{FleetHandle, find_handle, set_handle, put_found}
use xbottrader.Prelude.{
  if◌then◌else◌, Bool-cases, has_code, prefix_unique, String, ◌≡◌, refl, sym, ap, subst, ◌∙◌, inl,
  inr, Bool, true, false, Option, none, some, List, [], ◌∷◌, arith, str_eq, str_eq_iff,
}

-- the bots of one user
abbrev pub own : String → List (String × FleetHandle) → List (String × FleetHandle)
own u [] = []
own u ((k, h) ∷ rest) =
    let later = own u rest in if str_eq h.user_id u then (k, h) ∷ later else later

-- a key is the id of a bot of the user, and the user's id has no colon
abbrev pub IsScopedTo : String → String → Type 0
IsScopedTo u k = (has_code 58 u ≡ false) × ((b : String) × (k ≡ scoped u b))

abbrev pub AreScoped : List (String × FleetHandle) → Type 0
AreScoped [] = Unit
AreScoped ((k, h) ∷ rest) = IsScopedTo h.user_id k × AreScoped rest

apart : {b : Bool} → b ≡ true → b ≡ false → ⊥
apart s e = absurd cc

IsScopedTo-unique : (u v k : String) → IsScopedTo u k → IsScopedTo v k → u ≡ v
IsScopedTo-unique u v k (a, (b, e)) (a', (b', e')) = prefix_unique ":" u v b b' a a' (sym e ∙ e')

pub set_handle-AreScoped :
    (k : String) (h : FleetHandle) (hs : List (String × FleetHandle))
    → IsScopedTo h.user_id k
    → AreScoped hs
    → AreScoped (set_handle k h hs)
set_handle-AreScoped k h [] t ts = (t, tt)
set_handle-AreScoped k h ((j, old) ∷ rest) t ts =
    let later = set_handle-AreScoped k h rest t ts.1 in
    elim (Bool-cases (str_eq j k)) [
      | inl e ↦
          let same : j ≡ k = (str_eq_iff j k).0 e in
          rw e (subst (IsScopedTo h.user_id) (sym same) t, ts.1)
      | inr e ↦ rw e (ts.0, later)
    ]

-- among the bots of `u`, what is stored under one of its ids is the same
pub find-own :
    (u k : String) (hs : List (String × FleetHandle))
    → IsScopedTo u k
    → AreScoped hs
    → find_handle k (own u hs) ≡ find_handle k hs
find-own u k [] t ts = refl
find-own u k ((j, h) ∷ rest) t ts =
    let later = find-own u k rest t ts.1 in
    elim (Bool-cases (str_eq h.user_id u)) [
      | inl e ↦ rw e (ap (λ o. if str_eq j k then some h else o) later)
      | inr e ↦ elim (Bool-cases (str_eq j k)) [
        | inl s ↦
            let same : j ≡ k = (str_eq_iff j k).0 s in
            let user = IsScopedTo-unique h.user_id u k (subst (IsScopedTo h.user_id) same ts.0) t in
            absurd (apart ((str_eq_iff h.user_id u).1 user) e)
        | inr s ↦ rw e (rw s later)
      ]
    ]

-- a bot found under an id of `u` is one of `u`
found-user :
    (u k : String) (h : FleetHandle) (hs : List (String × FleetHandle))
    → IsScopedTo u k
    → AreScoped hs
    → find_handle k hs ≡ some h
    → h.user_id ≡ u
found-user u k h [] t ts e = absurd cc
found-user u k h ((j, old) ∷ rest) t ts e = elim (Bool-cases (str_eq j k)) [
  | inl s ↦
      let same : j ≡ k = (str_eq_iff j k).0 s in
      let user = IsScopedTo-unique old.user_id u k (subst (IsScopedTo old.user_id) same ts.0) t in
      let old≡h : old ≡ h = ground arith in ap (λ x. x.user_id) (sym old≡h) ∙ user
  | inr s ↦ found-user u k h rest t ts.1 (ground arith)
]

-- a change of a bot of the user `h.user_id`, seen by the user `w`
pub own-set_handle :
    (w k : String) (h : FleetHandle) (hs : List (String × FleetHandle))
    → IsScopedTo h.user_id k
    → AreScoped hs
    → own w (set_handle k h hs)
      ≡ (if str_eq h.user_id w then set_handle k h (own w hs) else own w hs)
own-set_handle w k h [] t ts = elim (Bool-cases (str_eq h.user_id w)) [
  | inl e ↦ rw e refl
  | inr e ↦ rw e refl
]
own-set_handle w k h ((j, old) ∷ rest) t ts =
    let later = own-set_handle w k h rest t ts.1 in
    elim (Bool-cases (str_eq j k)) [
      | inl s ↦
          let same : j ≡ k = (str_eq_iff j k).0 s in
          let user : old.user_id ≡ h.user_id =
            IsScopedTo-unique old.user_id h.user_id k (subst (IsScopedTo old.user_id) same ts.0)
              t in
          let test : str_eq old.user_id w ≡ str_eq h.user_id w = ap (λ u. str_eq u w) user in
          elim (Bool-cases (str_eq h.user_id w)) [
            | inl e ↦ rw s (rw test (rw e (rw s refl)))
            | inr e ↦ rw s (rw test (rw e refl))
          ]
      | inr s ↦ elim (Bool-cases (str_eq old.user_id w)) [
        | inl o ↦ elim (Bool-cases (str_eq h.user_id w)) [
          | inl e ↦ rw s (
              rw o (
                rw e (
                  rw s (
                    ap (λ x. (j, old) ∷ x)
                      (later
                        ∙ ap (λ b. if b then set_handle k h (own w rest) else own w rest) e)))))
          | inr e ↦ rw s (
              rw o (
                rw e (
                  ap (λ x. (j, old) ∷ x)
                    (later ∙ ap (λ b. if b then set_handle k h (own w rest) else own w rest) e))))
        ]
        | inr o ↦ rw s (rw o later)
      ]
    ]

pub own-put_found :
    (w u k : String) (change : FleetHandle → FleetHandle) (found : Option FleetHandle)
    (hs : List (String × FleetHandle))
    → ((h : FleetHandle) → (change h).user_id ≡ h.user_id)
    → IsScopedTo u k
    → AreScoped hs
    → find_handle k hs ≡ found
    → own w (put_found k change found hs)
      ≡ (if str_eq u w then put_found k change found (own w hs) else own w hs)
own-put_found w u k change none hs keeps t ts e = elim (Bool-cases (str_eq u w)) [
  | inl s ↦ rw s refl
  | inr s ↦ rw s refl
]
own-put_found w u k change (some h) hs keeps t ts e =
    let user = keeps h ∙ found-user u k h hs t ts e in
    own-set_handle w k (change h) hs (subst (λ x. IsScopedTo x k) (sym user) t) ts
    ∙ ap (λ x. if str_eq x w then set_handle k (change h) (own w hs) else own w hs) user

pub put_found-AreScoped :
    (u k : String) (change : FleetHandle → FleetHandle) (found : Option FleetHandle)
    (hs : List (String × FleetHandle))
    → ((h : FleetHandle) → (change h).user_id ≡ h.user_id)
    → IsScopedTo u k
    → AreScoped hs
    → find_handle k hs ≡ found
    → AreScoped (put_found k change found hs)
put_found-AreScoped u k change none hs keeps t ts e = ts
put_found-AreScoped u k change (some h) hs keeps t ts e =
    let user = keeps h ∙ found-user u k h hs t ts e in
    set_handle-AreScoped k (change h) hs (subst (λ x. IsScopedTo x k) (sym user) t) ts
