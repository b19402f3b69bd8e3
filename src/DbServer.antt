-- ===== src/DbServer.antt =====
-- DBServer.cpp, DBQuery.h and Dbconnector.h (projects/login-chat-system/DBServer): the handlers of the messages
-- that the threads put into the queue. The numbers of a message are not negative, as `rand` makes them.
pub mod Trade
pub mod Buyer
pub mod Writer
mod Examples
use game_programmer_portfoli.Base.{
  ℕ, ◌+◌, ◌*◌, ◌%◌, ◌^◌, ◌≡◌, Bool, true, false, ◌==◌, if◌then◌else◌,
}

-- `DBQueryItemTrade`.
pub record ItemTrade : Type 0 where
  pub from_account_no : ℕ
  pub from_item_slot : ℕ
  pub to_account_no : ℕ
  pub to_item_slot : ℕ
  pub trade_money : ℕ
  pub quantity : ℕ

-- `DBQueryMessage`: level up (account, level), money (account, money, why), quest (account, quest),
-- item bought (account, item, price, slot), trade.
pub data Message : Type 0 where
  level_up : ℕ → ℕ → Message
  money_add : ℕ → ℕ → ℕ → Message
  quest_complete : ℕ → ℕ → Message
  item_buy : ℕ → ℕ → ℕ → ℕ → Message
  item_trade : ItemTrade → Message

-- The texts that the handlers send, by what they say: UPDATE of a player's level, UPDATEs of a player's
-- money, INSERTs, DELETE, and the commands of a transaction.
pub data Statement : Type 0 where
  set_level : (level account : ℕ) → Statement
  add_money : (money account : ℕ) → Statement
  take_money : (money account : ℕ) → Statement
  insert_quest : (account quest : ℕ) → Statement
  insert_item : (account item slot price : ℕ) → Statement
  delete_item : (account slot : ℕ) → Statement
  start_transaction : Statement
  commit : Statement
  rollback : Statement

abbrev pub is_command : Statement → Bool
is_command (set_level n a) = false
is_command (add_money n a) = false
is_command (take_money n a) = false
is_command (insert_quest a q) = false
is_command (insert_item a i s p) = false
is_command (delete_item a s) = false
is_command start_transaction = true
is_command commit = true
is_command rollback = true

-- A connection to MySQL, over tables with transactions (InnoDB): what others see, what the connection sees,
-- and whether it is in a transaction. `effect` is what a statement does to the tables.
pub record Database (D Tables : Type 0) : Type 0 where
  -- `mysql_query`, true for 0.
  pub query : D → Statement → Bool × D
  pub stored : D → Tables
  pub working : D → Tables
  pub in_transaction : D → Bool
  pub effect : Statement → Tables → Tables
  pub started :
      (d : D)
      → in_transaction d ≡ false
      → (query d start_transaction).0 ≡ true
      → (in_transaction (query d start_transaction).1 ≡ true)
        × (working (query d start_transaction).1 ≡ stored d)
        × (stored (query d start_transaction).1 ≡ stored d)
  pub done_inside :
      (d : D) (s : Statement)
      → is_command s ≡ false
      → in_transaction d ≡ true
      → (query d s).0 ≡ true
      → (in_transaction (query d s).1 ≡ true)
        × (working (query d s).1 ≡ effect s (working d))
        × (stored (query d s).1 ≡ stored d)
  pub done_outside :
      (d : D) (s : Statement)
      → is_command s ≡ false
      → in_transaction d ≡ false
      → (query d s).0 ≡ true
      → (in_transaction (query d s).1 ≡ false) × (stored (query d s).1 ≡ effect s (stored d))
  -- A statement that is answered by an error changes nothing that is stored.
  pub refused : (d : D) (s : Statement) → (query d s).0 ≡ false → stored (query d s).1 ≡ stored d
  pub refused_outside :
      (d : D) (s : Statement)
      → in_transaction d ≡ false
      → (query d s).0 ≡ false
      → in_transaction (query d s).1 ≡ false
  pub committed :
      (d : D)
      → in_transaction d ≡ true
      → (query d commit).0 ≡ true
      → (in_transaction (query d commit).1 ≡ false) × (stored (query d commit).1 ≡ working d)
  pub rolled_back : (d : D) → stored (query d rollback).1 ≡ stored d

-- The connection and the counters `lQueryCount`, `lQueryTotal`, `lDBWriteCount` and `lDBWriteTotal`.
pub record DbServer (D : Type 0) : Type 0 where
  pub use_transaction : Bool
  pub connection : D
  pub query_count : ℕ
  pub query_total : ℕ
  pub write_count : ℕ
  pub write_total : ℕ

module _ {D Tables : Type 0} (db : Database D Tables) where
  -- `DBConnector::Execute`, connected.
  pub execute : DbServer D → Statement → Bool × DbServer D
  execute s q = let (answer, d) = db.query s.connection q in (answer, record s { connection = d })

  count_query : Bool × DbServer D → Bool × DbServer D
  count_query (false, s) = (false, s)
  count_query (true, s) = (
    true,
    record s {
      query_count = (s.query_count + 1) % 2 ^ 32;
      query_total = (s.query_total + 1) % 2 ^ 32;
    },
  )

  -- `ExecuteCount`.
  pub execute_count : DbServer D → Statement → Bool × DbServer D
  unfolding execute count_query
  execute_count s q = count_query (execute s q)

  -- The handler goes on if the call succeeded, and returns if not.
  abbrev pub or_return : Bool × DbServer D → (DbServer D → DbServer D) → DbServer D
  or_return (false, s) k = s
  or_return (true, s) k = k s

  -- The same, with `Rollback` first.
  abbrev pub or_rollback : Bool × DbServer D → (DbServer D → DbServer D) → DbServer D
  or_rollback (false, s) k = (execute s rollback).1
  or_rollback (true, s) k = k s

  -- The statements of a trade: the buyer pays, the seller is paid, the buyer gets item 1, the seller
  -- loses the item of the slot.
  abbrev pub pays : ItemTrade → Statement
  pays t = take_money t.trade_money t.to_account_no

  abbrev pub is_paid : ItemTrade → Statement
  is_paid t = add_money t.trade_money t.from_account_no

  abbrev pub gets : ItemTrade → Statement
  gets t = insert_item t.to_account_no 1 t.to_item_slot t.trade_money

  abbrev pub loses : ItemTrade → Statement
  loses t = delete_item t.from_account_no t.from_item_slot

  -- `HandleItemTradeTransaction`.
  pub handle_item_trade_transaction : DbServer D → ItemTrade → DbServer D
  unfolding execute execute_count
  handle_item_trade_transaction s t = or_return (execute s start_transaction) (λ s₀.
      or_rollback (execute_count s₀ (pays t)) (λ s₁.
        or_rollback (execute_count s₁ (is_paid t)) (λ s₂.
          or_rollback (execute_count s₂ (gets t)) (λ s₃.
            or_rollback (execute_count s₃ (loses t))
              (λ s₄. or_rollback (execute s₄ commit) (λ s₅. s₅))))))

  -- `HandleItemTradeNoTransaction`.
  pub handle_item_trade_no_transaction : DbServer D → ItemTrade → DbServer D
  unfolding execute_count
  handle_item_trade_no_transaction s t =
      let s₁ = (execute_count s (pays t)).1 in
      let s₂ = (execute_count s₁ (is_paid t)).1 in
      let s₃ = (execute_count s₂ (gets t)).1 in (execute_count s₃ (loses t)).1

  -- The handler that a message goes to: `HandleLevelUp`, `HandleMoneyAdd`, `HandleQuestComplete`,
  -- `HandleItemBuy` and the two for a trade.
  pub handle_message : DbServer D → Message → DbServer D
  unfolding execute_count handle_item_trade_transaction handle_item_trade_no_transaction
  handle_message s (level_up a n) = (execute_count s (set_level n a)).1
  handle_message s (money_add a n why) = (execute_count s (add_money n a)).1
  handle_message s (quest_complete a q) = (execute_count s (insert_quest a q)).1
  handle_message s (item_buy a i p slot) = (execute_count s (insert_item a i slot p)).1
  handle_message s (item_trade t) =
      if s.use_transaction
      then handle_item_trade_transaction s t
      else handle_item_trade_no_transaction s t

  -- What `DBWriterThread` does with a message.
  pub write : DbServer D → Message → DbServer D
  unfolding handle_message
  write s m =
      let s₁ = handle_message s m in
      record s₁ {
        write_count = (s₁.write_count + 1) % 2 ^ 32;
        write_total = (s₁.write_total + 1) % 2 ^ 32;
      }

-- The accounts and amounts that `UpdateThread` makes of the numbers that `rand` returns.
pub made_trade : ℕ → ℕ → ℕ → ℕ → ℕ → ℕ → ItemTrade
made_trade r₁ r₂ r₃ r₄ r₅ r₆ =
    let from : ℕ = r₁ % 5 + 10000 in
    record {
      from_account_no = from;
      from_item_slot = r₂ % 40;
      to_account_no = r₃ % 5 + 10000 + from;
      to_item_slot = r₄ % 40;
      trade_money = (r₅ % 100 + 1) * 50;
      quantity = r₆ % 10 + 1;
    }

-- The message of a round of `UpdateThread`; of the numbers, the first is the roll.
pub made_message : ℕ → ℕ → ℕ → ℕ → ℕ → ℕ → ℕ → Message
unfolding made_trade
made_message r₀ r₁ r₂ r₃ r₄ r₅ r₆ =
    let roll : ℕ = r₀ % 10 in
    let account : ℕ = r₁ % 5 + 10000 in
    if roll == 0
    then level_up account (r₂ % 100 + 1)
    else if roll == 1
    then quest_complete account (r₂ % 50)
    else if roll == 2
    then item_buy account (r₂ % 200) ((r₃ % 100 + 1) * 10) (r₄ % 40)
    else if roll == 3
    then money_add account ((r₂ % 100 + 1) * 100) (r₃ % 10)
    else item_trade (made_trade r₁ r₂ r₃ r₄ r₅ r₆)
