-- ===== src/Session/Pool/Steps.antt =====
-- What the calls make of a well-formed pool (`createSession`, `releaseSession` of BaseServer.cpp).
use game_programmer_portfoli.Base.{
  ℕ, ◌+◌, ◌/◌, ◌%◌, ◌^◌, ◌<◌, ◌≡◌, refl, ap, subst, ◌∙◌, ◌⊎◌, inl, inr, none, some, List, [], ◌∷◌,
  set, arith, length-set,
}
use game_programmer_portfoli.Session.Pool.{
  Slot, free, connected, SessionPool, pack_id, create_session, return_session,
}
use game_programmer_portfoli.Session.Pool.Handles.{
  get_set_self, InUse, NotIn, AllFree, IsValid, InUse-set, InUse-clear, AllFree-set, InUse-NotIn,
}

-- The ids of different numbers differ, and an id tells its index.
pub pack_id_lem :
    (i n : ℕ) → i < 2 ^ 16 → n < 2 ^ 48 → (pack_id i n / 2 ^ 48 ≡ i) × (pack_id i n % 2 ^ 48 ≡ n)
pack_id_lem i n h k = (omega arith, omega arith)

-- `createSession` when the index `i` is on top of the stack.
abbrev pub created : SessionPool → ℕ → List ℕ → SessionPool
created p i rest = record {
  sessions = set p.sessions i (record { id = pack_id i p.session_id; state = connected });
  empty_stack = rest;
  session_id = (p.session_id + 1) % 2 ^ 64;
}

pub created-IsValid :
    (p : SessionPool) (i : ℕ) (rest : List ℕ)
    → IsValid p
    → p.empty_stack ≡ i ∷ rest
    → p.session_id + 1 < 2 ^ 48
    → IsValid (created p i rest)
unfolding AllFree
created-IsValid p i rest v e h =
    let (top, apart, below) = subst (λ is. AllFree is p.sessions) e v.stack in
    record {
      few = omega (
        arith,
        v.few,
        length-set p.sessions i (record { id = pack_id i p.session_id; state = connected }),
      );
      numbered = λ j id u. elim (InUse-set i j id (pack_id i p.session_id) u) [
        | inl (same, named, inside) ↦
            let (home, number) = pack_id_lem i p.session_id (omega (arith, v.few)) (omega arith) in
            (ap (λ x. x / 2 ^ 48) named ∙ home ∙ same, omega arith)
        | inr (_, old) ↦ let (home, number) = v.numbered j id old in (home, omega arith)
      ];
      stack =
          AllFree-set rest p.sessions i (record { id = pack_id i p.session_id; state = connected })
            apart below;
    }

pub create_session-created :
    (p : SessionPool) (i : ℕ) (rest : List ℕ)
    → p.empty_stack ≡ i ∷ rest
    → create_session p ≡ (some i, created p i rest)
unfolding create_session
create_session-created p i rest e = rw (create_session, e)

abbrev pub returned : SessionPool → ℕ → SessionPool
returned p j = record p {
  sessions = set p.sessions j (record { id = 0; state = free });
  empty_stack = j ∷ p.empty_stack;
}

pub returned-IsValid :
    (p : SessionPool) (j id : ℕ) → IsValid p → InUse p.sessions j id → IsValid (returned p j)
unfolding AllFree
returned-IsValid p j id v u =
    let clear : Slot = record { id = 0; state = free } in
    let apart : NotIn j p.empty_stack = InUse-NotIn p.empty_stack j id u v.stack in
    record {
      few = omega (arith, v.few, length-set p.sessions j clear);
      numbered = λ k other w. v.numbered k other (InUse-clear j k other w).1;
      stack = (
        (clear, get_set_self p.sessions j clear u.slot u.there, refl),
        apart,
        AllFree-set p.empty_stack p.sessions j clear apart v.stack,
      );
    }

pub return_session-returned :
    (p : SessionPool) (j id : ℕ)
    → IsValid p
    → InUse p.sessions j id
    → return_session p j ≡ returned p j
unfolding return_session
return_session-returned p j id v u =
    let named : u.slot.id / 2 ^ 48 ≡ j = ap (λ x. x / 2 ^ 48) u.named ∙ (v.numbered j id u).0 in
    rw (return_session, u.there, named)

pub stack-cases :
    (p : SessionPool)
    → (p.empty_stack ≡ []) ⊎ ((i : ℕ) × (rest : List ℕ) × (p.empty_stack ≡ i ∷ rest))
stack-cases p = by_cases (p.empty_stack)
  where
    by_cases : (is : List ℕ) → (is ≡ []) ⊎ ((i : ℕ) × (rest : List ℕ) × (is ≡ i ∷ rest))
    by_cases [] = inl refl
    by_cases (i ∷ rest) = inr (i, rest, refl)

pub create_session-full : (p : SessionPool) → p.empty_stack ≡ [] → create_session p ≡ (none, p)
unfolding create_session
create_session-full p e = simp (create_session, e)

-- A session on top of the stack is not in use.
pub top-unused :
    (p : SessionPool) (i id : ℕ) (rest : List ℕ)
    → IsValid p
    → p.empty_stack ≡ i ∷ rest
    → InUse p.sessions i id
    → ⊥
unfolding NotIn
top-unused p i id rest v e u =
    (subst (λ is. NotIn i is) e (InUse-NotIn p.empty_stack i id u v.stack)).0 refl

pub new-InUse :
    (p : SessionPool) (i : ℕ) (rest : List ℕ)
    → IsValid p
    → p.empty_stack ≡ i ∷ rest
    → InUse (created p i rest).sessions i (pack_id i p.session_id)
unfolding AllFree
new-InUse p i rest v e =
    let ((old, there, _), _, _) = subst (λ is. AllFree is p.sessions) e v.stack in
    let new : Slot = record { id = pack_id i p.session_id; state = connected } in
    record {
      slot = new;
      there = get_set_self p.sessions i new old there;
      named = refl;
      open_slot = refl;
    }
