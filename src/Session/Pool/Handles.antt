-- ===== src/Session/Pool/Handles.antt =====
-- What an id finds: the session it was given to, as long as that is in use, and never another.
use game_programmer_portfoli.Base.{
  ℕ, zero, suc, ◌/◌, ◌%◌, ◌^◌, ◌≤◌, ◌<◌, ◌≡◌, refl, sym, ap, ◌∙◌, ◌⊎◌, inl, inr, Bool, true, false,
  Option, none, some, List, [], ◌∷◌, length, get_elem?, set, leb, ◌==◌, ==_iff, if◌then◌else◌, not,
  arith,
}
use game_programmer_portfoli.Session.Pool.{
  Slot, free, connected, is_connected, SessionPool, find_session,
}

-- Reading a list that was written.
pub get_set :
    {A : Type 0} (xs : List A) (i j : ℕ) (v x : A)
    → get_elem? (set xs i v) j ≡ some x
    → ((i ≡ j) × (x ≡ v) × (j < length xs)) ⊎ ((i ≡ j → ⊥) × (get_elem? xs j ≡ some x))
get_set [] i j v x e = cc
get_set (y ∷ ys) zero zero v x e = inl (refl, cc, omega arith)
get_set (y ∷ ys) zero (suc j) v x e = inr (λ h. absurd (omega arith), e)
get_set (y ∷ ys) (suc i) zero v x e = inr (λ h. absurd (omega arith), e)
get_set (y ∷ ys) (suc i) (suc j) v x e = elim (get_set ys i j v x e) [
  | inl (f, g, l) ↦ inl (ap suc f, g, omega arith)
  | inr (n, g) ↦ inr (λ f. n (omega arith), g)
]

pub get_set_self :
    {A : Type 0} (xs : List A) (i : ℕ) (v x : A)
    → get_elem? xs i ≡ some x
    → get_elem? (set xs i v) i ≡ some v
get_set_self [] i v x e = cc
get_set_self (y ∷ ys) zero v x e = refl
get_set_self (y ∷ ys) (suc i) v x e = get_set_self ys i v x e

pub get_set_other :
    {A : Type 0} (xs : List A) (i j : ℕ) (v : A)
    → (i ≡ j → ⊥)
    → get_elem? (set xs i v) j ≡ get_elem? xs j
get_set_other [] i j v h = refl
get_set_other (y ∷ ys) zero zero v h = absurd (h refl)
get_set_other (y ∷ ys) zero (suc j) v h = refl
get_set_other (y ∷ ys) (suc i) zero v h = refl
get_set_other (y ∷ ys) (suc i) (suc j) v h = get_set_other ys i j v (λ e. h (ap suc e))

pub get_lt : {A : Type 0} (xs : List A) (i : ℕ) (x : A) → get_elem? xs i ≡ some x → i < length xs
get_lt [] i x e = cc
get_lt (y ∷ ys) zero x e = omega arith
get_lt (y ∷ ys) (suc i) x e = omega (arith, get_lt ys i x e)

-- The session at `j` is in use under `id`.
pub record InUse (sessions : List Slot) (j id : ℕ) : Type 0 where
  pub slot : Slot
  pub there : get_elem? sessions j ≡ some slot
  pub named : slot.id ≡ id
  pub open_slot : is_connected slot.state ≡ true

unfoldable pub NotIn : ℕ → List ℕ → Type 0
NotIn i [] = Unit
NotIn i (j ∷ js) = (i ≡ j → ⊥) × NotIn i js

-- The stack's indices are those of different sessions that are not in use.
unfoldable pub AllFree : List ℕ → List Slot → Type 0
unfolding NotIn
AllFree [] sessions = Unit
AllFree (i ∷ is) sessions =
    ((s : Slot) × (get_elem? sessions i ≡ some s) × (is_connected s.state ≡ false))
    × NotIn i is
    × AllFree is sessions

pub record IsValid (p : SessionPool) : Type 0 where
  pub few : length p.sessions ≤ 2 ^ 16
  pub numbered :
      (j id : ℕ) → InUse p.sessions j id → (id / 2 ^ 48 ≡ j) × (id % 2 ^ 48 < p.session_id)
  pub stack : AllFree p.empty_stack p.sessions

-- A slot that is written with one in use, and with one that is not.
pub InUse-set :
    {sessions : List Slot} (i j id new : ℕ)
    → InUse (set sessions i (record { id = new; state = connected })) j id
    → ((i ≡ j) × (id ≡ new) × (j < length sessions)) ⊎ ((i ≡ j → ⊥) × InUse sessions j id)
InUse-set {sessions} i j id new u = elim (get_set sessions i j _ u.slot u.there) [
  | inl (e, f, l) ↦ inl (e, sym u.named ∙ ap (λ s. s.id) f, l)
  | inr (n, e) ↦
      inr (n, record { slot = u.slot; there = e; named = u.named; open_slot = u.open_slot })
]

pub InUse-clear :
    {sessions : List Slot} (i j id : ℕ)
    → InUse (set sessions i (record { id = 0; state = free })) j id
    → (i ≡ j → ⊥) × InUse sessions j id
InUse-clear {sessions} i j id u = elim (get_set sessions i j _ u.slot u.there) [
  | inl (e, f, l) ↦ absurd (closed u.slot u.open_slot f)
  | inr (n, e) ↦ (n, record { slot = u.slot; there = e; named = u.named; open_slot = u.open_slot })
]
  where
    closed : (s : Slot) → is_connected s.state ≡ true → s ≡ record { id = 0; state = free } → ⊥
    closed s h e = cc (ap (λ x. is_connected x.state) e)

-- Writing a slot that is not on the stack leaves the stack alone.
pub AllFree-set :
    (is : List ℕ) (sessions : List Slot) (i : ℕ) (new : Slot)
    → NotIn i is
    → AllFree is sessions
    → AllFree is (set sessions i new)
unfolding AllFree NotIn
AllFree-set [] sessions i new n h = tt
AllFree-set (j ∷ js) sessions i new n h =
    let (s, e, f) = h.0 in
    ((s, get_set_other sessions i j new n.0 ∙ e, f), h.1, AllFree-set js sessions i new n.1 h.2)

-- A session in use is not on the stack.
pub InUse-NotIn :
    (is : List ℕ) {sessions : List Slot} (j id : ℕ)
    → InUse sessions j id
    → AllFree is sessions
    → NotIn j is
unfolding AllFree NotIn
InUse-NotIn [] j id u h = tt
InUse-NotIn (i ∷ is) {sessions} j id u h =
    let (s, e, f) = h.0 in
    (
      λ same.
          apart s u.slot (sym e ∙ ap {B = Option Slot} (get_elem? sessions) (sym same) ∙ u.there) f
            u.open_slot,
      InUse-NotIn is j id u h.2,
    )
  where
    apart :
        (s t : Slot)
        → ◌≡◌ {A = Option Slot} (some s) (some t)
        → is_connected s.state ≡ false
        → is_connected t.state ≡ true
        → ⊥
    apart s t e f g =
        cc (ap {B = Bool} (λ o. elim o [ none ↦ true | some x ↦ is_connected x.state ]) e)

pub find_session-InUse :
    (p : SessionPool) (id j : ℕ) → find_session p id ≡ some j → InUse p.sessions j id
unfolding find_session
find_session-InUse p id j e =
    let (s, there, named, is_open, home) = pick (get_elem? p.sessions (id / 2 ^ 48)) e in
    record {
      slot = s;
      there = ap {B = Option Slot} (get_elem? p.sessions) (sym home) ∙ there;
      named = named;
      open_slot = is_open;
    }
  where
    pick :
        (o : Option Slot)
        → (if leb (length p.sessions) (id / 2 ^ 48) then none else elim o [
          | none ↦ none
          | some slot ↦
              if not (slot.id == id)
              then none
              else if not (is_connected slot.state)
              then none
              else some (id / 2 ^ 48)
        ])
          ≡ some j
        → (s : Slot) × (o ≡ some s)
          × (s.id ≡ id)
          × (is_connected s.state ≡ true)
          × (id / 2 ^ 48 ≡ j)
    pick none h = ground arith
    pick (some s) h = (s, refl, ground (arith, ==_iff s.id id), ground arith, ground arith)

pub InUse-find_session :
    (p : SessionPool) (id j : ℕ) → IsValid p → InUse p.sessions j id → find_session p id ≡ some j
unfolding find_session
InUse-find_session p id j v u =
    let (home, _) = v.numbered j id u in
    let inside : j < length p.sessions = get_lt p.sessions j u.slot u.there in
    rw (home, u.there, u.open_slot, (==_iff u.slot.id id).1 u.named) (ground (arith, home))
