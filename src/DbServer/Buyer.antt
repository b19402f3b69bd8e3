-- ===== src/DbServer/Buyer.antt =====
-- Who pays for the trades that `UpdateThread` makes.
use game_programmer_portfoli.Base.{
  ℕ, ◌+◌, ◌*◌, ◌%◌, ◌≤◌, ◌≡◌, ◌≢◌, ◌⊎◌, inl, inr, sym, ◌∙◌, false, Option, none, some, arith,
}
use game_programmer_portfoli.DbServer.{
  take_money, add_money, insert_item, delete_item, Database, DbServer,
  handle_item_trade_transaction, made_trade, pays, is_paid, gets, loses,
}
use game_programmer_portfoli.DbServer.Trade.{Refused, trade_statements, trade_whole}

-- The money in the table `player`; `none` is an account that has no row. An UPDATE changes the rows that
-- its WHERE finds, and succeeds if it finds none; the statements on `inventory` leave `player` alone.
pub record Players {D Tables : Type 0} (db : Database D Tables) : Type 0 where
  pub money : Tables → ℕ → Option ℕ
  pub added :
      (x : Tables) (m a n : ℕ)
      → money x a ≡ some n
      → money (db.effect (add_money m a) x) a ≡ some (n + m)
  pub unmatched :
      (x : Tables) (m a : ℕ)
      → money x a ≡ none
      → (b : ℕ) → money (db.effect (take_money m a) x) b ≡ money x b
  pub others : (x : Tables) (m a b : ℕ) → a ≢ b → money (db.effect (add_money m a) x) b ≡ money x b
  pub inserted :
      (x : Tables) (a i s p b : ℕ) → money (db.effect (insert_item a i s p) x) b ≡ money x b
  pub deleted : (x : Tables) (a s b : ℕ) → money (db.effect (delete_item a s) x) b ≡ money x b

module _ {D Tables : Type 0} (db : Database D Tables) (players : Players db) where
  -- Where no account from 10005 on has a row in `player`, as in Schema.h, with no transaction open,
  -- and whatever `rand` returned: if the seller of the trade that `UpdateThread` makes has a row,
  -- then either one of the statements that this trade sends was answered by an error, those before
  -- it were not, and nothing is changed, or the trade adds its money to the seller's and takes it
  -- from nobody.
  pub trade_unpaid :
      (s : DbServer D) (r₁ r₂ r₃ r₄ r₅ r₆ n : ℕ)
      → db.in_transaction s.connection ≡ false
      → ((b : ℕ) → 10005 ≤ b → players.money (db.stored s.connection) b ≡ none)
      → players.money (db.stored s.connection) (r₁ % 5 + 10000) ≡ some n
      → let after =
          db.stored
            (handle_item_trade_transaction db s (made_trade r₁ r₂ r₃ r₄ r₅ r₆)).connection in
        ((after ≡ db.stored s.connection)
          × Refused db s.connection (trade_statements db (made_trade r₁ r₂ r₃ r₄ r₅ r₆)))
        ⊎ ((players.money after (r₁ % 5 + 10000) ≡ some (n + (r₅ % 100 + 1) * 50))
            × ((b : ℕ)
                → b ≢ r₁ % 5 + 10000
                → players.money after b ≡ players.money (db.stored s.connection) b))
  unfolding made_trade
  trade_unpaid s r₁ r₂ r₃ r₄ r₅ r₆ n out rows seller =
      let t = made_trade r₁ r₂ r₃ r₄ r₅ r₆ in
      let x = db.stored s.connection in
      let from : ℕ = r₁ % 5 + 10000 in
      let to : ℕ = r₃ % 5 + 10000 + from in
      let m : ℕ = (r₅ % 100 + 1) * 50 in
      let free = players.unmatched x m to (rows to (omega arith)) in
      let x₁ = db.effect (pays db t) x in
      let x₂ = db.effect (is_paid db t) x₁ in
      let x₃ = db.effect (gets db t) x₂ in
      let kept : (b : ℕ) → players.money (db.effect (loses db t) x₃) b ≡ players.money x₂ b =
        λ b. players.deleted x₃ from (r₂ % 40) b ∙ players.inserted x₂ to 1 (r₄ % 40) m b in
      elim (trade_whole db s t out) [
        | inl k ↦ inl k
        | inr e ↦ rw e (
            inr (
              kept from ∙ players.added x₁ m from n (free from ∙ seller),
              λ b d. kept b ∙ players.others x₁ m from b (λ i. d (sym i)) ∙ free b,
            ))
      ]
