-- ===== src/MemoryPoolTls/Examples.antt =====
-- Concrete pools for the theorems about MemoryPoolTLS.h, and tests of its operations.
use game_programmer_portfoli.Base.{
  ℕ, ◌≤◌, ◌≡◌, refl, some, List, [], ◌∷◌, replicate, arith, count, weight,
}
use game_programmer_portfoli.MemoryPoolTls.{
  MemoryPool, no_data, reserve_nodes, hand_out, link, create, alloc, shrink, destroy,
  push_to_my_batch, steal_batch, pop_from_global,
}
use game_programmer_portfoli.MemoryPoolTls.Chains.{IsValid, AllCounted, total, held_all}
use game_programmer_portfoli.MemoryPoolTls.Shrink.{Shrank, shrink-Shrank, destroy-total}
use game_programmer_portfoli.MemoryPoolTls.Ownership.{
  World, IsSound, AreFresh, Reaches, here, next, allocates, is, alloc_fresh, Reaches-IsSound,
  create-IsSound,
}

abbrev one_node : List ℕ
one_node = 7 ∷ []

abbrev new_node : List ℕ
new_node = 8 ∷ []

-- A pool with one node and two threads.
abbrev small : World
small = record { pool = create (replicate 2 no_data) 0 one_node; in_use = [] }

distinct : (n : ℕ) → count n one_node ≤ 1
unfolding count
distinct n = ground arith

small-IsSound : IsSound small
small-IsSound = create-IsSound 2 0 one_node (omega arith) distinct

fresh : AreFresh small new_node
unfolding AreFresh count weight held_all create reserve_nodes link
fresh n = ground arith

-- The node taken by the thread 0, and returned by the thread 1.
abbrev taken : World
taken = record { pool = (alloc small.pool 0 new_node).1; in_use = 7 ∷ [] }

taken_first : (alloc small.pool 0 new_node).0 ≡ some 7
unfolding alloc create hand_out reserve_nodes link
taken_first = refl

small-Reaches : Reaches small taken
unfolding alloc create hand_out reserve_nodes link
small-Reaches = next here (allocates 0 new_node (omega arith) fresh)

then_fresh : AreFresh taken new_node
unfolding AreFresh count weight held_all create alloc hand_out reserve_nodes link
then_fresh n = ground arith

Reaches-IsSound_example : IsSound taken
Reaches-IsSound_example = Reaches-IsSound small taken small-Reaches small-IsSound

alloc_fresh_example :
    (n : ℕ) × (((alloc taken.pool 1 new_node).0 ≡ some n) × (count n taken.in_use ≡ 0))
unfolding alloc create hand_out reserve_nodes link
alloc_fresh_example =
    alloc_fresh 2 0 one_node taken 1 new_node (omega arith) distinct small-Reaches (omega arith)
      then_fresh (omega arith)

-- A pool that keeps one node, with three in its storage.
abbrev idle : MemoryPool
idle = record {
  init_count = 1;
  use_count = 0;
  alloc_count = 3;
  threads = [];
  storage = record { version = 0; top = 1 ∷ 2 ∷ 3 ∷ []; count = 3 };
}

idle-IsValid : IsValid idle
unfolding AllCounted
idle-IsValid = record { threads = tt; storage = refl }

shrink-Shrank_example : Shrank idle (shrink 4 idle)
shrink-Shrank_example = shrink-Shrank 4 idle idle-IsValid (omega arith)

-- All three nodes are deleted, though `_initCount` is one.
idle-shrink :
    shrink 4 idle
    ≡ some (
      3,
      1 ∷ 2 ∷ 3 ∷ [],
      record idle { alloc_count = 0; storage = record { version = 1; top = []; count = 0 } },
    )
unfolding shrink pop_from_global
idle-shrink = refl

destroy-total_example :
    (weight (is 2) (destroy idle).0 ≡ total (is 2) idle) × (total (is 2) (destroy idle).1 ≡ 0)
destroy-total_example = destroy-total (is 2) idle

-- A node that another thread has in its batch is stolen.
batch_of_zero : (steal_batch (push_to_my_batch small.pool 0 9) 1).0 ≡ 9 ∷ []
unfolding steal_batch push_to_my_batch create reserve_nodes link
batch_of_zero = refl
