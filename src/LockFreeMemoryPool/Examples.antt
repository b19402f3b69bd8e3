-- ===== src/LockFreeMemoryPool/Examples.antt =====
-- The Windows list as a list, and a pool with two nodes on it.
use game_programmer_portfoli.Base.{
  ◌≤◌, ℕ, ◌≡◌, refl, false, Option, none, some, List, [], ◌∷◌, arith, count,
}
use game_programmer_portfoli.LockFreeMemoryPool.{
  Node, create, reserve, create_node, SList, Pool, alloc, free,
}
use game_programmer_portfoli.LockFreeMemoryPool.Calls.{free_refuses}
use game_programmer_portfoli.LockFreeMemoryPool.Ownership.{
  World, Reaches, here, next, allocates, IsWhole, Reaches-IsWhole,
}

pop_list : List ℕ → Option ℕ × List ℕ
pop_list [] = (none, [])
pop_list (n ∷ ns) = (some n, ns)

pop_list-nil : (s : List ℕ) → s ≡ [] → pop_list s ≡ (none, s)
unfolding pop_list
pop_list-nil [] e = refl
pop_list-nil (n ∷ ns) e = absurd (ground (arith, e))

pop_list-cons :
    (s : List ℕ) (n : ℕ) (ns : List ℕ)
    → s ≡ n ∷ ns
    → ((pop_list s).0 ≡ some n) × ((pop_list s).1 ≡ ns)
unfolding pop_list
pop_list-cons s n ns e = rw e (refl, refl)

abbrev entries : SList (List ℕ)
entries = record {
  entries = λ s. s;
  initialize = [];
  push = λ s n. n ∷ s;
  pop = pop_list;
  flush = λ s. (s, []);
  entries_initialize = refl;
  entries-push = λ s n. refl;
  pop_empty = pop_list-nil;
  pop_first = pop_list-cons;
  flush_all = λ s. (refl, refl);
}

-- The pool at the address 50 made with the nodes 1 and 2, in a memory where none has an owner.
abbrev nodes : ℕ → Node
nodes n = record { owner = 0; cookie = 0 }

abbrev two_nodes : List ℕ
two_nodes = 1 ∷ 2 ∷ []

abbrev pool : Pool entries
pool = create entries 50 nodes two_nodes

abbrev begun : World entries
begun = record { pool = pool; held = [] }

distinct : (i : ℕ) → count i two_nodes ≤ 1
unfolding count
distinct i = ground arith

abbrev taken : World entries
taken = record { pool = (alloc entries pool 3).1; held = (alloc entries pool 3).0 ∷ [] }

taken-Reaches : Reaches entries begun taken
unfolding count create reserve create_node
taken-Reaches = next here (allocates 3 refl (omega arith))

Reaches-IsWhole_example : IsWhole entries taken
Reaches-IsWhole_example =
    Reaches-IsWhole entries 50 nodes two_nodes taken distinct (omega arith) taken-Reaches

-- The node 3 is of no pool.
refuses_node_3 : free entries pool (some 3) ≡ (false, pool)
unfolding create reserve create_node
refuses_node_3 = free_refuses entries pool (some 3) (λ e. absurd (omega (arith, e)))
