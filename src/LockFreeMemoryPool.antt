-- ===== src/LockFreeMemoryPool.antt =====
-- LockFreeMemoryPool.h (projects/memory-pool): a pool on the lock-free list of Windows. A `Node*` is a
-- number. The list is a parameter, with what the Windows documentation says of it.
pub mod Calls
pub mod Ownership
mod Examples
use game_programmer_portfoli.Base.{
  ℕ, zero, suc, ◌+◌, ◌-◌, ◌%◌, ◌^◌, ◌≡◌, Bool, true, false, not, ◌||◌, Option, none, some, List, [],
  ◌∷◌, ◌==◌, if◌then◌else◌,
}

-- `SLIST_HEADER`: the first entry is the last one pushed.
pub record SList (S : Type 0) : Type 0 where
  pub entries : S → List ℕ
  -- `InitializeSListHead`, `InterlockedPushEntrySList` and `InterlockedPopEntrySList`.
  pub initialize : S
  pub push : S → ℕ → S
  pub pop : S → Option ℕ × S
  -- `InterlockedFlushSList`: the entries taken, linked by `Next`.
  pub flush : S → List ℕ × S
  pub entries_initialize : entries initialize ≡ []
  pub entries-push : (s : S) (n : ℕ) → entries (push s n) ≡ n ∷ entries s
  pub pop_empty : (s : S) → entries s ≡ [] → pop s ≡ (none, s)
  pub pop_first :
      (s : S) (n : ℕ) (ns : List ℕ)
      → entries s ≡ n ∷ ns
      → ((pop s).0 ≡ some n) × (entries (pop s).1 ≡ ns)
  pub flush_all : (s : S) → ((flush s).0 ≡ entries s) × (entries (flush s).1 ≡ [])

-- `kCookie`.
abbrev pub cookie_value : ℕ
cookie_value = 13897757563854633645

-- The fields of a node that the pool reads; `owner` is the address of its pool.
pub record Node : Type 0 where
  pub owner : ℕ
  pub cookie : ℕ

module _ {S : Type 0} (list : SList S) where
  -- The pool at the address `this`, and the memory of the nodes.
  pub record Pool : Type 0 where
    pub this : ℕ
    pub nodes : ℕ → Node
    pub free_list : S
    pub capacity : ℕ
    pub in_use : ℕ

  -- `CreateNode`, with the node that `new` returns.
  pub create_node : Pool → ℕ → Pool
  create_node p n = record p {
    nodes = λ m. if m == n then record { owner = p.this; cookie = cookie_value } else p.nodes m;
    capacity = (p.capacity + 1) % 2 ^ 64;
  }

  -- What `Alloc` does with the entry popped, and the node that `new` returns if there is none.
  take_node : Option ℕ → Pool → ℕ → ℕ × Pool
  unfolding create_node
  take_node none p new = (new, create_node p new)
  take_node (some n) p new = (n, p)

  -- `Alloc`; the value is the caller's.
  pub alloc : Pool → ℕ → ℕ × Pool
  unfolding take_node
  alloc p new =
      let (entry, rest) = list.pop p.free_list in
      let (node, q) = take_node entry (record p { free_list = rest }) new in
      (node, record q { in_use = (q.in_use + 1) % 2 ^ 64 })

  -- `Free`; `none` is a null pointer.
  pub free : Pool → Option ℕ → Bool × Pool
  free p none = (false, p)
  free p (some n) =
      let node = p.nodes n in
      if not (node.owner == p.this) || not (node.cookie == cookie_value) then (false, p) else (
        true,
        record p { free_list = list.push p.free_list n; in_use = (p.in_use + 2 ^ 64 - 1) % 2 ^ 64 },
      )

  -- `Reserve`, with the nodes that `new` returns.
  pub reserve : Pool → List ℕ → Pool
  unfolding create_node
  reserve p [] = p
  reserve p (n ∷ ns) =
      let q = create_node p n in reserve (record q { free_list = list.push q.free_list n }) ns

  -- The constructor at an address, in a memory of nodes.
  pub create : ℕ → (ℕ → Node) → List ℕ → Pool
  unfolding reserve
  create this nodes news =
      reserve
        record { this = this; nodes = nodes; free_list = list.initialize; capacity = 0; in_use = 0 }
        news

  -- The destructor: the nodes deleted.
  pub destroy : Pool → List ℕ × Pool
  destroy p =
      let (entries, rest) = list.flush p.free_list in
      if not (p.in_use == 0) then ([], p) else (entries, record p { free_list = rest })
