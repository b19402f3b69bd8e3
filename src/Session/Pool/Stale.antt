-- ===== src/Session/Pool/Stale.antt =====
-- The pool keeps its handles apart: no session in use is given out again, and no id of a session that
-- ended ever finds another.
use game_programmer_portfoli.Base.{
  ℕ, ◌+◌, ◌%◌, ◌^◌, ◌<◌, ◌≡◌, sym, ap, subst, ◌∙◌, ◌⊎◌, inl, inr, none, some, [], arith,
  Option-cases,
}
use game_programmer_portfoli.Session.Pool.{
  connected, SessionPool, pack_id, create_session, find_session, return_session,
}
use game_programmer_portfoli.Session.Pool.Handles.{
  get_set_other, InUse, IsValid, InUse-set, InUse-clear, find_session-InUse, InUse-find_session,
}
use game_programmer_portfoli.Session.Pool.Steps.{
  pack_id_lem, created, created-IsValid, create_session-created, returned-IsValid,
  return_session-returned, stack-cases, create_session-full, top-unused, new-InUse,
}

-- On a well-formed pool whose running number is below 2^48 - 1, `createSession` either finds the
-- stack empty, returns no session and changes nothing, or returns a session that no id found
-- before, whose new id finds it; every id that found a session before still finds the same one, and
-- the pool stays well formed.
pub create_session-lem :
    (p : SessionPool)
    → IsValid p
    → p.session_id + 1 < 2 ^ 48
    → ((p.empty_stack ≡ []) × (create_session p ≡ (none, p)))
      ⊎ ((i : ℕ) × (q : SessionPool) × (create_session p ≡ (some i, q))
          × IsValid q
          × ((id : ℕ) → find_session p id ≡ some i → ⊥)
          × (find_session q (pack_id i p.session_id) ≡ some i)
          × ((j id : ℕ) → find_session p id ≡ some j → find_session q id ≡ some j))
create_session-lem p v h = elim (stack-cases p) [
  | inl e ↦ inl (e, create_session-full p e)
  | inr (i, rest, e) ↦
      let w = created-IsValid p i rest v e h in
      inr (
        i,
        created p i rest,
        create_session-created p i rest e,
        w,
        λ id f. top-unused p i id rest v e (find_session-InUse p id i f),
        InUse-find_session (created p i rest) (pack_id i p.session_id) i w (new-InUse p i rest v e),
        λ j id f.
            let u = find_session-InUse p id j f in
            InUse-find_session (created p i rest) id j w (record {
              slot = u.slot;
              there =
                  get_set_other p.sessions i j
                    (record { id = pack_id i p.session_id; state = connected })
                    (λ same.
                      top-unused p i id rest v e (subst (λ k. InUse p.sessions k id) (sym same) u))
                  ∙ u.there;
              named = u.named;
              open_slot = u.open_slot;
            }),
      )
]

-- What the pool's users lead it to: `createSession` while ids are left, and `releaseSession` of a
-- session in use.
pub data Leads (p : SessionPool) : SessionPool → Type 0 where
  stays : Leads p p
  creates : {q : SessionPool} → Leads p q → q.session_id + 1 < 2 ^ 48 → Leads p (create_session q).1
  returns :
      {q : SessionPool} (j id : ℕ)
      → Leads p q
      → find_session q id ≡ some j
      → Leads p (return_session q j)

-- The id finds nothing, now or later.
record Ended (id : ℕ) (p : SessionPool) : Type 0 where
  valid : IsValid p
  unused : (j : ℕ) → InUse p.sessions j id → ⊥
  past : id % 2 ^ 48 < p.session_id

return-Ended :
    (p : SessionPool) (j id : ℕ)
    → IsValid p
    → find_session p id ≡ some j
    → Ended id (return_session p j)
return-Ended p j id v e =
    let u = find_session-InUse p id j e in
    subst (λ q. Ended id q) (sym (return_session-returned p j id v u))
      (record {
        valid = returned-IsValid p j id v u;
        unused = λ k w.
            let (other, old) = InUse-clear j k id w in
            other (sym (v.numbered j id u).0 ∙ (v.numbered k id old).0);
        past = (v.numbered j id u).1;
      })

Ended-return :
    (q : SessionPool) (id j other : ℕ)
    → Ended id q
    → find_session q other ≡ some j
    → Ended id (return_session q j)
Ended-return q id j other d e =
    let u = find_session-InUse q other j e in
    subst (λ q. Ended id q) (sym (return_session-returned q j other d.valid u))
      (record {
        valid = returned-IsValid q j other d.valid u;
        unused = λ k w. d.unused k (InUse-clear j k id w).1;
        past = d.past;
      })

Ended-create :
    (q : SessionPool) (id : ℕ)
    → Ended id q
    → q.session_id + 1 < 2 ^ 48
    → Ended id (create_session q).1
Ended-create q id d h = elim (stack-cases q) [
  | inl e ↦ subst (λ c. Ended id c.1) (sym (create_session-full q e)) d
  | inr (i, rest, e) ↦
      subst (λ c. Ended id c.1) (sym (create_session-created q i rest e))
        (record {
          valid = created-IsValid q i rest d.valid e h;
          unused = λ k w. elim (InUse-set i k id (pack_id i q.session_id) w) [
            | inl (same, named, inside) ↦
                let (_, number) =
                  pack_id_lem i q.session_id (omega (arith, d.valid.few)) (omega arith) in
                omega (arith, d.past, ap (λ x. x % 2 ^ 48) named)
            | inr (_, old) ↦ d.unused k old
          ];
          past = omega (arith, d.past);
        })
]

Ended-Leads : {p q : SessionPool} (id : ℕ) → Ended id p → Leads p q → Ended id q
Ended-Leads id d stays = d
Ended-Leads id d (creates {q} path h) = Ended-create q id (Ended-Leads id d path) h
Ended-Leads id d (returns {q} j other path e) = Ended-return q id j other (Ended-Leads id d path) e

-- In a well-formed pool, once `releaseSession` has given back the session that an id found, that id
-- finds no session, whatever sessions are created and released after that, as long as the running
-- number stays below 2^48.
pub return_session-stale :
    (p q : SessionPool) (j id : ℕ)
    → IsValid p
    → find_session p id ≡ some j
    → Leads (return_session p j) q
    → find_session q id ≡ none
return_session-stale p q j id v e path =
    let d = Ended-Leads id (return-Ended p j id v e) path in
    elim (Option-cases (find_session q id)) [
      | inl nothing ↦ nothing
      | inr (k, found) ↦ absurd (d.unused k (find_session-InUse q id k found))
    ]
