-- ===== src/MemoryPoolTls.antt =====
-- MemoryPoolTLS.h (projects/multithread-chat-server/Server/NetLib): a pool of nodes with a list and a
-- batch for each thread and a list for all. A `Node*` is a number; a chain of nodes linked by
-- `nextNode` is the list of them, top first, and an empty list is a null pointer. A call runs
-- as one step: its compare-and-swap succeeds at the value that it read.
pub mod Chains
pub mod Reserve
pub mod Moves
pub mod Shrink
pub mod Freed
pub mod Ownership
pub mod Examples
use game_programmer_portfoli.Base.{
  ℕ, zero, suc, ◌+◌, ◌-◌, ◌%◌, ◌^◌, Bool, true, false, Option, none, some, List, [], ◌∷◌, ◌++◌,
  length, get_or, set, take, drop, is_null, ltb, leb, ◌==◌, if◌then◌else◌,
}

-- `MOVENODESIZE` of Define.h.
abbrev pub move_node_size : ℕ
move_node_size = 200

-- `ThreadLocal`.
pub record ThreadLocal : Type 0 where
  pub top : List ℕ
  pub count : ℕ

-- `ThreadBatch`, and `GlobalStorage` of the same shape: the top with its 16 bits of version, and the
-- number of nodes.
pub record Shared : Type 0 where
  pub version : ℕ
  pub top : List ℕ
  pub count : ℕ

pub record ThreadData : Type 0 where
  pub local : ThreadLocal
  pub batch : Shared

-- `s_threadData[_poolIdx][0 .. s_threadCount)` and the fields of the pool.
pub record MemoryPool : Type 0 where
  pub init_count : ℕ
  pub use_count : ℕ
  pub alloc_count : ℕ
  pub threads : List ThreadData
  pub storage : Shared

abbrev pub no_data : ThreadData
no_data = record {
  local = record { top = []; count = 0 };
  batch = record { version = 0; top = []; count = 0 };
}

abbrev pub thread_data : MemoryPool → ℕ → ThreadData
thread_data p t = get_or p.threads t no_data

abbrev pub set_thread : MemoryPool → ℕ → ThreadData → MemoryPool
set_thread p t d = record p { threads = set p.threads t d }

-- `(oldTop & ID_MASK) + ID_UNIT`.
abbrev pub next_version : ℕ → ℕ
next_version v = (v + 1) % 2 ^ 16

-- `GetThreadIdx`, with the thread's own `t_threadIdx` (`none` for -1).
pub get_thread_idx : MemoryPool → Option ℕ → ℕ × MemoryPool
get_thread_idx p none = (length p.threads, record p { threads = p.threads ++ (no_data ∷ []) })
get_thread_idx p (some t) = (t, p)

-- The loop of `ReserveNodes` over the nodes that `new` returns, with `batchHead` so far.
link : List ℕ → List ℕ → List ℕ
link [] head = head
link (n ∷ ns) head = link ns (n ∷ head)

-- `ReserveNodes(count)` for `count` new nodes.
unfoldable pub reserve_nodes : MemoryPool → ℕ → List ℕ → MemoryPool
unfolding link
reserve_nodes p t news =
    let d = thread_data p t in
    let local' : ThreadLocal = record {
      top = link news [] ++ d.local.top;
      count = d.local.count + length news;
    } in
    if is_null news then p else record (set_thread p t (record d { local = local' })) {
      alloc_count = p.alloc_count + length news;
    }

-- What `PushToMyBatch` and `PushToGlobal` do to their list.
push_shared : Shared → ℕ → Shared
push_shared s n = record { version = next_version s.version; top = n ∷ s.top; count = s.count + 1 }

pub push_to_my_batch : MemoryPool → ℕ → ℕ → MemoryPool
unfolding push_shared
push_to_my_batch p t n =
    let d = thread_data p t in set_thread p t (record d { batch = push_shared d.batch n })

pub push_to_global : MemoryPool → ℕ → MemoryPool
unfolding push_shared
push_to_global p n = record p { storage = push_shared p.storage n }

-- What `StealBatch` and `PopFromGlobal` take from a list with `wanted` nodes by its count: as many of
-- the first as there are.
pop_shared : Shared → List ℕ × Shared
pop_shared s =
    let wanted = if leb move_node_size s.count then move_node_size else s.count in
    let taken = take wanted s.top in
    (
      taken,
      record {
        version = next_version s.version;
        top = drop wanted s.top;
        count = s.count - length taken;
      },
    )

-- The loop of `StealBatch` from the thread `i` on: the nodes stolen and the threads left.
steal_scan : ℕ → ℕ → List ThreadData → List ℕ × List ThreadData
unfolding pop_shared
steal_scan me i [] = ([], [])
steal_scan me i (d ∷ ds) =
    let (stolen, ds') = steal_scan me (suc i) ds in
    let (taken, batch') = pop_shared d.batch in
    if i == me
    then (stolen, d ∷ ds')
    else if leb d.batch.count 0
    then (stolen, d ∷ ds')
    else if is_null d.batch.top
    then (stolen, d ∷ ds')
    else (taken, record d { batch = batch' } ∷ ds)

pub steal_batch : MemoryPool → ℕ → List ℕ × MemoryPool
unfolding steal_scan
steal_batch p t = let (stolen, ds) = steal_scan t 0 p.threads in (stolen, record p { threads = ds })

-- The chain popped, whose length is `outCount`.
pub pop_from_global : MemoryPool → List ℕ × MemoryPool
unfolding pop_shared
pop_from_global p =
    let (taken, storage') = pop_shared p.storage in
    if leb p.storage.count 0
    then ([], p)
    else if is_null p.storage.top
    then ([], p)
    else (taken, record p { storage = storage' })

-- The chain popped, `outCount`, and the pool.
pub pop_batch_from_my_batch : MemoryPool → ℕ → List ℕ × ℕ × MemoryPool
pop_batch_from_my_batch p t =
    let d = thread_data p t in
    let batch' : Shared = record { version = next_version d.batch.version; top = []; count = 0 } in
    if is_null d.batch.top
    then ([], 0, p)
    else (d.batch.top, d.batch.count, set_thread p t (record d { batch = batch' }))

-- The answer of `Alloc` at a chain of nodes, of that length: the first is handed out and the rest are
-- the thread's own list; with a null pointer, `otherwise`.
hand_out : MemoryPool → ℕ → List ℕ → ℕ → Option ℕ × MemoryPool → Option ℕ × MemoryPool
hand_out p t [] n_chain otherwise = otherwise
hand_out p t (n ∷ rest) n_chain otherwise =
    let d = thread_data p t in
    let local' : ThreadLocal = record { top = rest; count = n_chain - 1 } in
    (some n, record (set_thread p t (record d { local = local' })) { use_count = p.use_count + 1 })

-- The parts of `Alloc`, each with those behind it; `news` are the nodes that `new` returns if the
-- last part is reached, `MOVENODESIZE` of them.
alloc_new : MemoryPool → ℕ → List ℕ → Option ℕ × MemoryPool
alloc_new p t news =
    let q = reserve_nodes p t news in
    let local' = (thread_data q t).local in hand_out q t local'.top local'.count (none, q)

alloc_from_global : MemoryPool → ℕ → List ℕ → Option ℕ × MemoryPool
alloc_from_global p t news =
    let (chain, q) = pop_from_global p in hand_out q t chain (length chain) (alloc_new q t news)

-- With the number of scans for a batch to steal.
alloc_by_stealing : ℕ → MemoryPool → ℕ → List ℕ → Option ℕ × MemoryPool
alloc_by_stealing zero p t news = alloc_from_global p t news
alloc_by_stealing (suc scans) p t news =
    let (chain, q) = steal_batch p t in
    let rest_of = alloc_by_stealing scans q t news in hand_out q t chain (length chain) rest_of

alloc_from_batch : MemoryPool → ℕ → List ℕ → Option ℕ × MemoryPool
alloc_from_batch p t news =
    let (chain, n_chain, q) = pop_batch_from_my_batch p t in
    hand_out q t chain n_chain (alloc_by_stealing 2 q t news)

-- `Alloc` by the thread `t`.
pub alloc : MemoryPool → ℕ → List ℕ → Option ℕ × MemoryPool
alloc p t news =
    let local' = (thread_data p t).local in
    hand_out p t local'.top local'.count (alloc_from_batch p t news)

-- `Free`; `none` is a null pointer.
pub free : MemoryPool → ℕ → Option ℕ → Bool × MemoryPool
free p t none = (false, p)
free p t (some n) =
    let d = thread_data p t in
    let local' : ThreadLocal = record { top = n ∷ d.local.top; count = d.local.count + 1 } in
    let q =
      if ltb move_node_size d.local.count
      then push_to_global p n
      else set_thread p t (record d { local = local' }) in
    (true, record q { use_count = p.use_count - 1 })

-- The loop of `Shrink` on fuel: the number deleted so far, the nodes deleted and the pool.
shrink_loop : ℕ → ℕ → ℕ → MemoryPool → Option (ℕ × List ℕ × MemoryPool)
shrink_loop zero target deleted p = none
shrink_loop (suc fuel) target deleted p =
    let (batch, q) = pop_from_global p in
    let rest = shrink_loop fuel target (deleted + length batch) q in
    if leb target deleted
    then some (deleted, [], p)
    else if is_null batch
    then some (deleted, [], q)
    else elim rest [ none ↦ none | some (d, gone, r) ↦ some (d, batch ++ gone, r) ]

-- `Shrink`; `none` if the fuel runs out.
pub shrink : ℕ → MemoryPool → Option (ℕ × List ℕ × MemoryPool)
unfolding shrink_loop
shrink fuel p =
    let available = p.storage.count in
    let result = shrink_loop fuel (available - p.init_count) 0 p in
    if leb available p.init_count then some (0, [], p) else elim result [
      | none ↦ none
      | some (deleted, gone, q) ↦
          some (deleted, gone, record q { alloc_count = q.alloc_count - deleted })
    ]

-- `~MemoryPoolTLS`: the nodes deleted, in order, and what the fields hold then.
destroy_threads : List ThreadData → List ℕ × List ThreadData
destroy_threads [] = ([], [])
destroy_threads (d ∷ ds) =
    let (gone, ds') = destroy_threads ds in (d.local.top ++ (d.batch.top ++ gone), no_data ∷ ds')

pub destroy : MemoryPool → List ℕ × MemoryPool
unfolding destroy_threads
destroy p =
    let (gone, ds) = destroy_threads p.threads in
    (
      gone ++ p.storage.top,
      record p { threads = ds; storage = record { version = 0; top = []; count = 0 } },
    )

-- The constructor in the thread `t`, with the data that its index has and the nodes that `new`
-- returns for `ReserveNodes(initCount)`.
pub create : List ThreadData → ℕ → List ℕ → MemoryPool
create ds t news =
    reserve_nodes
      (record {
        init_count = length news;
        use_count = 0;
        alloc_count = 0;
        threads = ds;
        storage = record { version = 0; top = []; count = 0 };
      })
      t news
