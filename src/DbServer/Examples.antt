-- ===== src/DbServer/Examples.antt =====
-- A database over the money of the players, which may refuse to insert items.
use game_programmer_portfoli.Base.{
  ℕ, ◌+◌, ◌-◌, ◌≤◌, ◌≡◌, ◌≢◌, ◌⊎◌, inl, inr, refl, ap, subst, ◌∙◌, ==_iff, Bool, true, false,
  Option, none, some, List, [], ◌∷◌, ◌==◌, if◌then◌else◌, ◌&&◌, ltb, arith, same, differs,
  Bool-cases,
}
use game_programmer_portfoli.DbServer.{
  Message, level_up, item_trade, ItemTrade, Statement, set_level, add_money, take_money,
  insert_quest, insert_item, delete_item, start_transaction, commit, rollback, is_command, Database,
  DbServer, handle_item_trade_transaction, handle_item_trade_no_transaction, made_trade,
}
use game_programmer_portfoli.DbServer.Writer.{
  World, Reaches, here, later, first_goes, second_goes, writer_goes, begun, update,
}
use game_programmer_portfoli.DbServer.Writer.Order.{Merges, write_all}
use game_programmer_portfoli.DbServer.Writer.Stopped.{stopped_lem, waits_lem}
use game_programmer_portfoli.DbServer.Trade.{
  traded, Refused, trade_statements, trade_whole, trade_modes_agree,
}
use game_programmer_portfoli.DbServer.Buyer.{Players, trade_unpaid}

abbrev Tables : Type 0
Tables = ℕ → Option ℕ

abbrev plus : ℕ → Option ℕ → Option ℕ
plus m none = none
plus m (some n) = some (n + m)

abbrev minus : ℕ → Option ℕ → Option ℕ
minus m none = none
minus m (some n) = some (n - m)

abbrev effect : Statement → Tables → Tables
effect (set_level n a) x = x
effect (add_money m a) x = λ b. if a == b then plus m (x b) else x b
effect (take_money m a) x = λ b. if a == b then minus m (x b) else x b
effect (insert_quest a q) x = x
effect (insert_item a i s p) x = x
effect (delete_item a s) x = x
effect start_transaction x = x
effect commit x = x
effect rollback x = x

record Connection : Type 0 where
  stored : Tables
  working : Tables
  in_transaction : Bool

abbrev run_data : Connection → Statement → Bool → Connection
run_data d q true = record d { working = effect q d.working }
run_data d q false = record d { stored = effect q d.stored }

abbrev run : Connection → Statement → Connection
run d (set_level n a) = run_data d (set_level n a) d.in_transaction
run d (add_money m a) = run_data d (add_money m a) d.in_transaction
run d (take_money m a) = run_data d (take_money m a) d.in_transaction
run d (insert_quest a q) = run_data d (insert_quest a q) d.in_transaction
run d (insert_item a i s p) = run_data d (insert_item a i s p) d.in_transaction
run d (delete_item a s) = run_data d (delete_item a s) d.in_transaction
run d start_transaction = record d { working = d.stored; in_transaction = true }
run d commit = record {
  stored = if d.in_transaction then d.working else d.stored;
  working = d.working;
  in_transaction = false;
}
run d rollback = record { stored = d.stored; working = d.stored; in_transaction = false }

abbrev inserts : Statement → Bool
inserts (set_level n a) = false
inserts (add_money m a) = false
inserts (take_money m a) = false
inserts (insert_quest a q) = false
inserts (insert_item a i s p) = true
inserts (delete_item a s) = false
inserts start_transaction = false
inserts commit = false
inserts rollback = false

-- Inserts are refused or not.
abbrev query : Bool → Connection → Statement → Bool × Connection
query refuses d q = if refuses && inserts q then (false, d) else (true, run d q)

run-data :
    (d : Connection) (q : Statement)
    → is_command q ≡ false
    → run d q ≡ run_data d q d.in_transaction
run-data d (set_level n a) e = refl
run-data d (add_money m a) e = refl
run-data d (take_money m a) e = refl
run-data d (insert_quest a q) e = refl
run-data d (insert_item a i s p) e = refl
run-data d (delete_item a s) e = refl
run-data d start_transaction e = absurd (ground (arith, e))
run-data d commit e = absurd (ground (arith, e))
run-data d rollback e = absurd (ground (arith, e))

query-done :
    (b : Bool) (d : Connection) (q : Statement) → (query b d q).0 ≡ true → (query b d q).1 ≡ run d q
query-done b d q e = elim (Bool-cases (b && inserts q)) [
  | inl k ↦ let no : false ≡ true = rw k at e in absurd (ground (arith, no))
  | inr k ↦ rw k refl
]

query-refused :
    (b : Bool) (d : Connection) (q : Statement) → (query b d q).0 ≡ false → (query b d q).1 ≡ d
query-refused b d q e = elim (Bool-cases (b && inserts q)) [
  | inl k ↦ rw k refl
  | inr k ↦ let no : true ≡ false = rw k at e in absurd (ground (arith, no))
]

rollback-stored : (b : Bool) (d : Connection) → (query b d rollback).1.stored ≡ d.stored
rollback-stored true d = refl
rollback-stored false d = refl

done_inside_lem :
    (b : Bool) (d : Connection) (q : Statement)
    → is_command q ≡ false
    → d.in_transaction ≡ true
    → (query b d q).0 ≡ true
    → ((query b d q).1.in_transaction ≡ true)
      × ((query b d q).1.working ≡ effect q d.working)
      × ((query b d q).1.stored ≡ d.stored)
done_inside_lem b d q c i e =
    let k = query-done b d q e ∙ run-data d q c ∙ ap (run_data d q) i in
    (ap (λ x. x.in_transaction) k ∙ i, ap (λ x. x.working) k, ap (λ x. x.stored) k)

done_outside_lem :
    (b : Bool) (d : Connection) (q : Statement)
    → is_command q ≡ false
    → d.in_transaction ≡ false
    → (query b d q).0 ≡ true
    → ((query b d q).1.in_transaction ≡ false) × ((query b d q).1.stored ≡ effect q d.stored)
done_outside_lem b d q c i e =
    let k = query-done b d q e ∙ run-data d q c ∙ ap (run_data d q) i in
    (ap (λ x. x.in_transaction) k ∙ i, ap (λ x. x.stored) k)

abbrev database : Bool → Database Connection Tables
database b = record {
  query = query b;
  stored = λ d. d.stored;
  working = λ d. d.working;
  in_transaction = λ d. d.in_transaction;
  effect = effect;
  started = λ d i e.
      let k = query-done b d start_transaction e in
      (ap (λ x. x.in_transaction) k, ap (λ x. x.working) k, ap (λ x. x.stored) k);
  done_inside = done_inside_lem b;
  done_outside = done_outside_lem b;
  refused = λ d q e. ap (λ x. x.stored) (query-refused b d q e);
  refused_outside = λ d q i e. ap (λ x. x.in_transaction) (query-refused b d q e) ∙ i;
  committed = λ d i e.
      let k = query-done b d commit e in
      (
        ap (λ x. x.in_transaction) k,
        ap (λ x. x.stored) k ∙ ap (λ x. if x then d.working else d.stored) i,
      );
  rolled_back = rollback-stored b;
}

-- The five accounts of Schema.h, with 100000 each.
abbrev schema : Tables
schema b = if ltb b 10000 then none else if ltb b 10005 then some 100000 else none

abbrev server : DbServer Connection
server = record {
  use_transaction = true;
  connection = record { stored = schema; working = schema; in_transaction = false };
  query_count = 0;
  query_total = 0;
  write_count = 0;
  write_total = 0;
}

-- The trade that all rolls of 1 make: 10001 sells to 20002.
abbrev rolled : ItemTrade
rolled = made_trade 1 1 1 1 1 1

-- The insert is refused, after both have paid.
trade_whole_example :
    ((((handle_item_trade_transaction (database true) server rolled).connection).stored ≡ schema)
      × Refused (database true) server.connection (trade_statements (database true) rolled))
    ⊎ (((handle_item_trade_transaction (database true) server rolled).connection).stored
        ≡ traded (database true) rolled schema)
trade_whole_example = trade_whole (database true) server rolled refl

trade_modes_agree_example :
    ((handle_item_trade_transaction (database false) server rolled).connection).stored
    ≡ ((handle_item_trade_no_transaction (database false) server rolled).connection).stored
trade_modes_agree_example = trade_modes_agree (database false) (λ d q. refl) server rolled refl

minus-none : (x : Tables) (m a b : ℕ) → x a ≡ none → (if a == b then minus m (x b) else x b) ≡ x b
minus-none x m a b e = elim (Bool-cases (a == b)) [
  | inl d ↦
      let at_b : x b ≡ none = subst (λ y. x y ≡ none) ((==_iff a b).0 d) e in rw (d, at_b) refl
  | inr d ↦ rw d refl
]

abbrev players : Players (database false)
players = record {
  money = λ x a. x a;
  added = λ x m a n e. rw (same a) (ap (plus m) e);
  unmatched = λ x m a e b. minus-none x m a b e;
  others = λ x m a b d. rw (differs a b d) refl;
  inserted = λ x a i s p b. refl;
  deleted = λ x a s b. refl;
}

no_account : (b : ℕ) → 10005 ≤ b → schema b ≡ none
no_account b h = ground (arith, h)

abbrev traded_tables : Tables
traded_tables =
    ((handle_item_trade_transaction (database false) server (made_trade 1 1 1 1 1 1)).connection
    ).stored

-- The seller has 100 more, and nobody less.
trade_unpaid_example :
    ((traded_tables ≡ schema)
      × Refused
          (database false)
          server.connection
          (trade_statements (database false) (made_trade 1 1 1 1 1 1)))
    ⊎ ((traded_tables 10001 ≡ some 100100) × ((b : ℕ) → b ≢ 10001 → traded_tables b ≡ schema b))
trade_unpaid_example =
    trade_unpaid (database false) players server 1 1 1 1 1 1 100000 refl no_account refl

-- The first thread makes a level up and the second a trade.
abbrev ups : List Message
ups = level_up 10000 5 ∷ []

abbrev trades : List Message
trades = item_trade rolled ∷ []

record Run : Type 0 where
  world : World Connection
  reaches : Reaches (database false) (begun server ups trades) world

abbrev one_goes : ℕ → Run → Run
one_goes who r =
    if who == 0
    then record { world = _; reaches = later r.reaches first_goes }
    else if who == 1
    then record { world = _; reaches = later r.reaches second_goes }
    else record { world = _; reaches = later r.reaches writer_goes }

-- The threads go one after the other, the last of the list first; 2 is the writer.
abbrev goes : List ℕ → Run
goes [] = record { world = begun server ups trades; reaches = here }
goes (who ∷ order) = one_goes who (goes order)

abbrev all_run : Run
all_run =
    goes (
      2 ∷ 2 ∷ 2 ∷ 1 ∷ 1 ∷ 1 ∷ 2 ∷ 2 ∷ 2 ∷ 2 ∷ 2 ∷ 1 ∷ 1 ∷ 0 ∷ 1 ∷ 1 ∷ 2 ∷ 2 ∷ 2 ∷ 2 ∷ 2 ∷ 0 ∷ 0
      ∷ [])

all_handled : all_run.world.shared.handled ≡ level_up 10000 5 ∷ item_trade rolled ∷ []
all_handled = refl

stopped_example :
    (Merges ups trades all_run.world.shared.handled)
    × (all_run.world.shared.server
        ≡ write_all (database false) server server all_run.world.shared.handled)
    × (all_run.world.shared.queue ≡ [])
stopped_example = stopped_lem (database false) server ups trades all_run.world all_run.reaches refl

-- The first thread has pushed its message, and not yet set the event.
abbrev pushed_run : Run
pushed_run = goes (0 ∷ [])

waits_example :
    ((update pushed_run.world.shared pushed_run.world.first).0.event ≡ true)
    ⊎ ((update pushed_run.world.shared pushed_run.world.second).0.event ≡ true)
waits_example =
    waits_lem (database false) server ups trades pushed_run.world pushed_run.reaches refl refl
      (omega arith)
