-- ===== src/LockFreeQueue/Destroy.antt =====
-- `~LockFreeQueue`: the last scan, and the nodes that are left. A deletion of a node that is not there
-- is `none`.
mod Deletions
mod Scans
pub mod Whole
use game_programmer_portfoli.Base.{
  ℕ, zero, suc, Bool, true, false, Option, none, some, List, [], ◌∷◌,
}
use game_programmer_portfoli.LockFreeQueue.{
  Node, Shared, Pc, Outcome, put, act, idle, enq_register, enq_load, enq_hazard, enq_check,
  enq_next, enq_recheck, enq_link, enq_help, enq_swing, enq_count, deq_register, deq_load,
  deq_hazard, deq_check, deq_next, deq_second, deq_recheck, deq_tail, deq_help, deq_value, deq_swap,
  deq_count, clear_second, clear_first, retire, count_retired, scan_take, scan_records, scan_first,
  scan_second, scan_free, scan_push, fault, moves, with_node, get_hazard_record, swing, enq_found,
  is_none, link, deq_found, copy_value, after_clear, insert,
}
use game_programmer_portfoli.LockFreeQueue.Threads.{
  World, Step, Reaches, create, new_node, here, later, enqueue, try_dequeue, goes_on,
}

abbrev pub Nodes : Type 0 → Type 0
Nodes T = ℕ → Option (Node T)

-- What goes on with a node that is there.
abbrev pub if_there : {T A : Type 0} → Option (Node T) → (Node T → Option A) → Option A
if_there none f = none
if_there (some k) f = f k

abbrev pub and_then : {A B : Type 0} → Option A → (A → Option B) → Option B
and_then none f = none
and_then (some a) f = f a

-- The loop over the list `mRetired`.
pub delete_all : {T : Type 0} → List ℕ → Nodes T → Option (Nodes T)
delete_all [] nodes = some nodes
delete_all (n ∷ list) nodes = if_there (nodes n) (λ k. delete_all list (put nodes n none))

-- The loop over the nodes from a pointer on.
pub delete_chain : {T : Type 0} → ℕ → Option ℕ → Nodes T → Option (Nodes T)
delete_chain zero pointer nodes = none
delete_chain (suc fuel) none nodes = some nodes
delete_chain (suc fuel) (some n) nodes =
    if_there (nodes n) (λ k. delete_chain fuel k.next (put nodes n none))

abbrev pub is_idle : {T : Type 0} → Pc T → Bool
is_idle idle = true
is_idle other = false

abbrev pub go_on : {T A : Type 0} → Outcome T → (Shared T → Pc T → Option A) → Option A
go_on fault f = none
go_on (moves e s pc) f = f s pc

-- The steps of one thread until its call returns.
pub finish : {T : Type 0} → ℕ → Shared T → ℕ → Pc T → Option (Shared T)
finish zero s t pc = none
finish (suc fuel) s t pc = elim (is_idle pc) [
  | true ↦ some s
  | false ↦ go_on (act s t false pc) (λ s' pc'. finish fuel s' t pc')
]

-- The destructor, run by the thread `t`, with fuel for the scan and for the chain: the memory that is
-- left.
pub destroy : {T : Type 0} → ℕ → ℕ → Shared T → ℕ → Option (Nodes T)
unfolding finish delete_all delete_chain
destroy scan_fuel chain_fuel s t = and_then (finish scan_fuel s t scan_take) (λ scanned.
    and_then (delete_all scanned.retired scanned.nodes)
      (λ nodes. delete_chain chain_fuel (some scanned.head) nodes))
