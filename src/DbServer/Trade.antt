-- ===== src/DbServer/Trade.antt =====
-- A trade in a transaction and one statement at a time.
use game_programmer_portfoli.Base.{
  ◌≡◌, ◌⊎◌, inl, inr, refl, sym, ap, ◌∙◌, true, false, Bool-cases, List, [], ◌∷◌,
}
use game_programmer_portfoli.DbServer.{
  ItemTrade, Statement, start_transaction, commit, is_command, Database, DbServer, execute,
  count_query, execute_count, or_rollback, pays, is_paid, gets, loses,
  handle_item_trade_transaction, handle_item_trade_no_transaction,
}

module _ {D Tables : Type 0} (db : Database D Tables) where
  -- The tables after the four statements of a trade.
  abbrev pub traded : ItemTrade → Tables → Tables
  traded t x =
      db.effect (loses db t)
        (db.effect (gets db t) (db.effect (is_paid db t) (db.effect (pays db t) x)))

  -- Of the statements, sent one after the other from `d` on, one is answered by an error, and those
  -- before it are not.
  pub Refused : D → List Statement → Type 0
  Refused d [] = ⊥
  Refused d (q ∷ qs) =
      ((db.query d q).0 ≡ false) ⊎ (((db.query d q).0 ≡ true) × Refused (db.query d q).1 qs)

  -- What the transaction of a trade sends, up to the first error.
  abbrev pub trade_statements : ItemTrade → List Statement
  trade_statements t =
      start_transaction ∷ pays db t ∷ is_paid db t ∷ gets db t ∷ loses db t ∷ commit ∷ []

  -- In a transaction, with these tables, and those stored.
  record Inside (d : D) (x y : Tables) : Type 0 where
    open_ : db.in_transaction d ≡ true
    working : db.working d ≡ x
    stored : db.stored d ≡ y

  abbrev Ends : Type 0 → Tables → Tables → DbServer D → Type 0
  Ends refused y z s = ((db.stored s.connection ≡ y) × refused) ⊎ (db.stored s.connection ≡ z)

  now-Refused :
      (d : D) (q : Statement) (qs : List Statement) → (db.query d q).0 ≡ false → Refused d (q ∷ qs)
  unfolding Refused
  now-Refused d q qs e = inl e

  -- A statement that is answered by success, before those of which one may not be.
  later :
      {x y z : Tables} (d : D) (q : Statement) (qs : List Statement)
      → (db.query d q).0 ≡ true
      → ((x ≡ y) × Refused (db.query d q).1 qs) ⊎ (x ≡ z)
      → ((x ≡ y) × Refused d (q ∷ qs)) ⊎ (x ≡ z)
  unfolding Refused
  later d q qs e (inl (same, bad)) = inl (same, inr (e, bad))
  later d q qs e (inr all) = inr all

  -- A statement of the transaction, and what follows.
  stage :
      (s : DbServer D) (q : Statement) (x y z : Tables) (k : DbServer D → DbServer D)
      (qs : List Statement)
      → is_command q ≡ false
      → Inside s.connection x y
      → ((s' : DbServer D)
          → Inside s'.connection (db.effect q x) y
          → Ends (Refused s'.connection qs) y z (k s'))
      → Ends (Refused s.connection (q ∷ qs)) y z (or_rollback db (execute_count db s q) k)
  unfolding execute_count count_query execute
  stage s q x y z k qs c i h = elim (Bool-cases (db.query s.connection q).0) [
    | inl e ↦
        let done = db.done_inside s.connection q c i.open_ e in
        rw (e, count_query)
          (later s.connection q qs e (
            h _ record {
              open_ = done.0;
              working = done.1 ∙ ap (db.effect q) i.working;
              stored = done.2 ∙ i.stored;
            }))
    | inr e ↦
        rw (e, count_query)
          (inl (
            db.rolled_back (db.query s.connection q).1 ∙ db.refused s.connection q e ∙ i.stored,
            now-Refused s.connection q qs e,
          ))
  ]

  commits :
      (s : DbServer D) (x y : Tables)
      → Inside s.connection x y
      → Ends
          (Refused s.connection (commit ∷ []))
          y
          x
          (or_rollback db (execute db s commit) (λ s'. s'))
  unfolding execute
  commits s x y i = elim (Bool-cases (db.query s.connection commit).0) [
    | inl e ↦ let done = db.committed s.connection i.open_ e in rw e (inr (done.1 ∙ i.working))
    | inr e ↦ rw e (
        inl (
          db.rolled_back (db.query s.connection commit).1
              ∙ db.refused s.connection commit e
              ∙ i.stored,
          now-Refused s.connection commit [] e,
        ))
  ]

  -- On any database as the interface describes it, with no transaction open,
  -- `HandleItemTradeTransaction` either leaves the stored tables as they were, which it does only
  -- if, of the statements that it sends from this connection on, from START TRANSACTION to COMMIT,
  -- one was answered by an error and those before it were not, or leaves in them the four
  -- statements of the trade, all of them and in their order.
  pub trade_whole :
      (s : DbServer D) (t : ItemTrade)
      → db.in_transaction s.connection ≡ false
      → ((db.stored (handle_item_trade_transaction db s t).connection ≡ db.stored s.connection)
          × Refused s.connection (trade_statements t))
        ⊎ (db.stored (handle_item_trade_transaction db s t).connection
            ≡ traded t (db.stored s.connection))
  unfolding handle_item_trade_transaction execute
  trade_whole s t out = elim (Bool-cases (db.query s.connection start_transaction).0) [
    | inl e ↦
        let begun = db.started s.connection out e in
        let y = db.stored s.connection in
        let z = traded t y in
        rw e (
          later s.connection start_transaction _ e (
            stage _ (pays db t) y y z _ (is_paid db t ∷ gets db t ∷ loses db t ∷ commit ∷ []) refl
              record { open_ = begun.0; working = begun.1; stored = begun.2 }
              (λ s₁ i₁.
                stage s₁ (is_paid db t) _ y z _ (gets db t ∷ loses db t ∷ commit ∷ []) refl i₁
                  (λ s₂ i₂.
                    stage s₂ (gets db t) _ y z _ (loses db t ∷ commit ∷ []) refl i₂ (λ s₃ i₃.
                      stage s₃ (loses db t) _ y z _ (commit ∷ []) refl i₃
                        (λ s₄ i₄. commits s₄ z y i₄))))))
    | inr e ↦ rw e (
        inl (
          db.refused s.connection start_transaction e,
          now-Refused s.connection start_transaction _ e,
        ))
  ]

  -- Where no statement is refused.
  module _ (answers : (d : D) (q : Statement) → (db.query d q).0 ≡ true) where
    counted :
        (s : DbServer D) (q : Statement)
        → is_command q ≡ false
        → db.in_transaction s.connection ≡ false
        → (db.in_transaction (execute_count db s q).1.connection ≡ false)
          × (db.stored (execute_count db s q).1.connection ≡ db.effect q (db.stored s.connection))
    unfolding execute_count count_query execute
    counted s q c o =
        let done = db.done_outside s.connection q c o (answers s.connection q) in
        rw (answers s.connection q, count_query) done

    never-Refused : (d : D) (qs : List Statement) → Refused d qs → ⊥
    unfolding Refused
    never-Refused d [] bad = bad
    never-Refused d (q ∷ qs) (inl e) = let no : true ≡ false = sym (answers d q) ∙ e in cc
    never-Refused d (q ∷ qs) (inr (e, k)) = never-Refused (db.query d q).1 qs k

    no_transaction-traded :
        (s : DbServer D) (t : ItemTrade)
        → db.in_transaction s.connection ≡ false
        → db.stored (handle_item_trade_no_transaction db s t).connection
          ≡ traded t (db.stored s.connection)
    unfolding handle_item_trade_no_transaction
    no_transaction-traded s t o =
        let k₁ = counted s (pays db t) refl o in
        let k₂ = counted (execute_count db s (pays db t)).1 (is_paid db t) refl k₁.0 in
        let s₂ = (execute_count db (execute_count db s (pays db t)).1 (is_paid db t)).1 in
        let k₃ = counted s₂ (gets db t) refl k₂.0 in
        let k₄ = counted (execute_count db s₂ (gets db t)).1 (loses db t) refl k₃.0 in
        k₄.1
        ∙ ap (db.effect (loses db t))
            (k₃.1 ∙ ap (db.effect (gets db t)) (k₂.1 ∙ ap (db.effect (is_paid db t)) k₁.1))

    -- On a database that refuses nothing, with no transaction open, the handlers of a trade with a
    -- transaction and without leave the same stored tables.
    pub trade_modes_agree :
        (s : DbServer D) (t : ItemTrade)
        → db.in_transaction s.connection ≡ false
        → db.stored (handle_item_trade_transaction db s t).connection
          ≡ db.stored (handle_item_trade_no_transaction db s t).connection
    trade_modes_agree s t o = elim (trade_whole s t o) [
      | inl (e, r) ↦ absurd (never-Refused s.connection (trade_statements t) r)
      | inr e ↦ e ∙ sym (no_transaction-traded s t o)
    ]
