-- ===== src/LockFreeQueue/Invariant.antt =====
-- What holds between any two steps: where each node is, and what each thread may rely on.
use game_programmer_portfoli.Base.{
  ℕ, ◌+◌, ◌≤◌, ◌≡◌, Bool, true, false, not, Option, none, some, List, [], ◌∷◌, ◌++◌, ◌==◌, count,
  one_if,
}
use game_programmer_portfoli.LockFreeQueue.{
  Node, Shared, Pc, enq_register, enq_load, enq_hazard, enq_check, enq_next, enq_recheck, enq_link,
  enq_help, enq_swing, deq_next, deq_second, deq_recheck, deq_tail, deq_help, deq_value, deq_swap,
  deq_count, clear_second, clear_first, retire, scan_records, scan_first, scan_second, scan_free,
  scan_push,
}
use game_programmer_portfoli.LockFreeQueue.Spec.{Queue}

-- Where a node is: not allocated, made by a thread that has not linked it yet, in the queue, held by
-- a thread that took it out or scans it, or on the list `mRetired`.
pub data Place : Type 0 where
  free : Place
  made : ℕ → Place
  linked : Place
  taken : ℕ → Place
  retired : Place

abbrev pub is_free : Place → Bool
is_free free = true
is_free (made t) = false
is_free linked = false
is_free (taken t) = false
is_free retired = false

abbrev pub is_made : ℕ → Place → Bool
is_made u free = false
is_made u (made t) = t == u
is_made u linked = false
is_made u (taken t) = false
is_made u retired = false

abbrev pub is_linked : Place → Bool
is_linked free = false
is_linked (made t) = false
is_linked linked = true
is_linked (taken t) = false
is_linked retired = false

abbrev pub is_taken : ℕ → Place → Bool
is_taken u free = false
is_taken u (made t) = false
is_taken u linked = false
is_taken u (taken t) = t == u
is_taken u retired = false

abbrev pub is_retired : Place → Bool
is_retired free = false
is_retired (made t) = false
is_retired linked = false
is_retired (taken t) = false
is_retired retired = true

-- The node has been in the queue and is no longer.
abbrev pub is_left : Place → Bool
is_left free = false
is_left (made t) = false
is_left linked = false
is_left (taken t) = true
is_left retired = true

-- The node has been in the queue.
abbrev pub is_used : Place → Bool
is_used free = false
is_used (made t) = false
is_used linked = true
is_used (taken t) = true
is_used retired = true

abbrev pub next_of : {T : Type 0} → Option (Node T) → Option (Option ℕ)
next_of none = none
next_of (some n) = some n.next

abbrev pub value_of : {T : Type 0} → Option (Node T) → Option T
value_of none = none
value_of (some n) = n.value

abbrev pub is_there : {T : Type 0} → Option (Node T) → Bool
is_there none = false
is_there (some n) = true

-- The nodes from one node on are these, and the last has no next.
abbrev pub Links : {T : Type 0} → (ℕ → Option (Node T)) → ℕ → List ℕ → Type 0
Links nodes n [] = next_of (nodes n) ≡ some none
Links nodes n (m ∷ ms) = (next_of (nodes n) ≡ some (some m)) × Links nodes m ms

-- The nodes hold the items.
abbrev pub Values : {T : Type 0} → (ℕ → Option (Node T)) → List ℕ → List T → Type 0
Values nodes [] [] = Unit
Values nodes [] (v ∷ vs) = ⊥
Values nodes (m ∷ ms) [] = ⊥
Values nodes (m ∷ ms) (v ∷ vs) = (value_of (nodes m) ≡ some v) × Values nodes ms vs

-- What the proof keeps beside the program: the queue, the nodes after the head, the place of each node.
pub record Ghost (T : Type 0) : Type 0 where
  pub queue : Queue T
  pub rest : List ℕ
  pub place : ℕ → Place

pub record Memory {T : Type 0} (s : Shared T) (g : Ghost T) : Type 0 where
  pub links : Links s.nodes s.head g.rest
  pub values : Values s.nodes g.rest g.queue.items
  pub linked : (n : ℕ) → count n (s.head ∷ g.rest) ≡ one_if (is_linked (g.place n))
  pub tail : is_linked (g.place s.tail) ≡ true
  pub retired : (n : ℕ) → count n s.retired ≡ one_if (is_retired (g.place n))
  pub there : (n : ℕ) → is_there (s.nodes n) ≡ not (is_free (g.place n))
  pub left : (n : ℕ) → is_left (g.place n) ≡ true → (m : ℕ) × (next_of (s.nodes n) ≡ some (some m))

-- The node that the thread has made, with its item.
abbrev pub making : {T : Type 0} → Pc T → Option (T × ℕ)
making (enq_register item node) = some (item, node)
making (enq_load item node) = some (item, node)
making (enq_hazard item node tail) = some (item, node)
making (enq_check item node tail) = some (item, node)
making (enq_next item node tail) = some (item, node)
making (enq_recheck item node tail next) = some (item, node)
making (enq_link item node tail) = some (item, node)
making (enq_help item node tail next) = some (item, node)
making other = none

abbrev pub node_made : {T : Type 0} → Option (T × ℕ) → List ℕ
node_made none = []
node_made (some (item, node)) = node ∷ []

abbrev pub optional : Option ℕ → List ℕ
optional none = []
optional (some n) = n ∷ []

-- The nodes that the thread has taken out of the queue or off the retired list.
abbrev pub holding : {T : Type 0} → Pc T → List ℕ
holding (deq_count head) = head ∷ []
holding (clear_second node) = optional node
holding (clear_first node) = optional node
holding (retire node) = node ∷ []
holding (scan_records list) = list
holding (scan_first list records spared) = list
holding (scan_second list r records spared) = list
holding (scan_free list spared keep) = list ++ keep
holding (scan_push keep) = keep
holding other = []

-- The nodes that the scan may delete.
abbrev pub doomed : {T : Type 0} → Pc T → List ℕ
doomed (scan_records list) = list
doomed (scan_first list records spared) = list
doomed (scan_second list r records spared) = list
doomed (scan_free list spared keep) = list
doomed other = []

-- The nodes that the thread relies on by its first and its second hazard pointer.
abbrev pub guards_first : {T : Type 0} → Pc T → Option ℕ
guards_first (enq_next item node tail) = some tail
guards_first (enq_recheck item node tail next) = some tail
guards_first (enq_link item node tail) = some tail
guards_first (enq_help item node tail next) = some tail
guards_first (enq_swing tail node) = some tail
guards_first (deq_next head) = some head
guards_first (deq_second head next) = some head
guards_first (deq_recheck head next) = some head
guards_first (deq_tail head next) = some head
guards_first (deq_help head next) = some head
guards_first (deq_value head next) = some head
guards_first (deq_swap head next v) = some head
guards_first other = none

abbrev pub guards_second : {T : Type 0} → Pc T → Option ℕ
guards_second (deq_tail head next) = some next
guards_second (deq_value head next) = some next
guards_second (deq_swap head next v) = some next
guards_second other = none

-- A scan has met, or will meet, the hazard pointer by which the thread `u` relies on the node `n`.
abbrev pub HeedsFirst : {T : Type 0} → Pc T → ℕ → ℕ → Type 0
HeedsFirst (scan_first list records spared) u n = 1 ≤ count u records + count n spared
HeedsFirst (scan_second list r records spared) u n = 1 ≤ count u records + count n spared
HeedsFirst (scan_free list spared keep) u n = 1 ≤ count n spared
HeedsFirst other u n = Unit

abbrev pub HeedsSecond : {T : Type 0} → Pc T → ℕ → ℕ → Type 0
HeedsSecond (scan_first list records spared) u n = 1 ≤ count u records + count n spared
HeedsSecond (scan_second list r records spared) u n =
    1 ≤ one_if (r == u) + count u records + count n spared
HeedsSecond (scan_free list spared keep) u n = 1 ≤ count n spared
HeedsSecond other u n = Unit

pub record Heeds {T : Type 0} (scanner : Pc T) (u : ℕ) (pc : Pc T) : Type 0 where
  pub first :
      (n : ℕ) → 1 ≤ count n (doomed scanner) → guards_first pc ≡ some n → HeedsFirst scanner u n
  pub second :
      (n : ℕ) → 1 ≤ count n (doomed scanner) → guards_second pc ≡ some n → HeedsSecond scanner u n

-- The nodes that a thread owns.
pub record Owns {T : Type 0} (s : Shared T) (g : Ghost T) (t : ℕ) (pc : Pc T) : Type 0 where
  pub made : (n : ℕ) → count n (node_made (making pc)) ≡ one_if (is_made t (g.place n))
  pub held : (n : ℕ) → count n (holding pc) ≡ one_if (is_taken t (g.place n))
  pub fresh :
      (item : T) (node : ℕ)
      → making pc ≡ some (item, node)
      → s.nodes node ≡ some (record { next = none; value = some item })
  pub offers : (item : T) (node : ℕ) → making pc ≡ some (item, node) → g.queue.offered t ≡ some item
