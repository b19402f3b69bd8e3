-- ===== src/LockFreeQueue.antt =====
-- LockFreeQueue.h (projects/lock-free-queue): the Michael-Scott queue with two hazard pointers for each
-- thread. A `Node*` is a number, a thread's `HazardRecord*` the thread's number. Each load, store and
-- compare-and-swap of a shared variable is one step, and the steps of the threads interleave.
pub mod Spec
pub mod Threads
pub mod Invariant
pub mod Fits
mod Frame
mod Chain
mod Places
mod Link
mod Call
mod Swap
mod Scan
mod Retire
mod Delete
mod Enqueue
mod Dequeue
mod Acts
pub mod Linear
pub mod Destroy
mod Examples
mod Moves
mod Quiet
use game_programmer_portfoli.Base.{
  ℕ, zero, suc, ◌+◌, ◌-◌, ◌%◌, ◌^◌, ◌≡◌, Bool, true, false, not, ◌&&◌, Option, none, some, List, [],
  ◌∷◌, ◌==◌, if◌then◌else◌, ltb, count, is_null,
}
use game_programmer_portfoli.LockFreeQueue.Spec.{Event, silent, enqueues, dequeues, fails}

-- A family with a new value at one index.
abbrev pub put : {A : Type 0} → (ℕ → A) → ℕ → A → ℕ → A
put f i a j = if i == j then a else f j

pub record Node (T : Type 0) : Type 0 where
  pub next : Option ℕ
  pub value : Option T

-- What the threads share: the memory, in which `none` is an address that is not allocated, and the
-- members of the queue. `records` are the threads on the list `mHazards`, `first` and `second` their
-- hazard pointers.
pub record Shared (T : Type 0) : Type 0 where
  pub nodes : ℕ → Option (Node T)
  pub head : ℕ
  pub tail : ℕ
  pub size : ℕ
  pub records : List ℕ
  pub first : ℕ → Option ℕ
  pub second : ℕ → Option ℕ
  pub retired : List ℕ
  pub retire_count : ℕ

-- Where a thread stands, with its local variables.
pub data Pc (T : Type 0) : Type 0 where
  idle : Pc T
  enq_register : T → ℕ → Pc T
  enq_load : T → ℕ → Pc T
  enq_hazard : T → ℕ → ℕ → Pc T
  enq_check : T → ℕ → ℕ → Pc T
  enq_next : T → ℕ → ℕ → Pc T
  enq_recheck : T → ℕ → ℕ → Option ℕ → Pc T
  enq_link : T → ℕ → ℕ → Pc T
  enq_help : T → ℕ → ℕ → ℕ → Pc T
  enq_swing : ℕ → ℕ → Pc T
  enq_count : Pc T
  deq_register : Pc T
  deq_load : Pc T
  deq_hazard : ℕ → Pc T
  deq_check : ℕ → Pc T
  deq_next : ℕ → Pc T
  deq_second : ℕ → Option ℕ → Pc T
  deq_recheck : ℕ → Option ℕ → Pc T
  deq_tail : ℕ → ℕ → Pc T
  deq_help : ℕ → ℕ → Pc T
  deq_value : ℕ → ℕ → Pc T
  deq_swap : ℕ → ℕ → T → Pc T
  deq_count : ℕ → Pc T
  clear_second : Option ℕ → Pc T
  clear_first : Option ℕ → Pc T
  retire : ℕ → Pc T
  count_retired : Pc T
  scan_take : Pc T
  scan_records : List ℕ → Pc T
  scan_first : List ℕ → List ℕ → List ℕ → Pc T
  scan_second : List ℕ → ℕ → List ℕ → List ℕ → Pc T
  scan_free : List ℕ → List ℕ → List ℕ → Pc T
  scan_push : List ℕ → Pc T

-- What a step does: it reads through a pointer to a node that was deleted, deletes it again, or reads
-- a value that is not there; or it leads on.
pub data Outcome (T : Type 0) : Type 0 where
  fault : Outcome T
  moves : Event T → Shared T → Pc T → Outcome T

pub with_node : {T : Type 0} → Option (Node T) → (Node T → Outcome T) → Outcome T
with_node none f = fault
with_node (some n) f = f n

-- `GetHazardRecord` pushes a new record, of two null pointers, for a thread that has none.
pub get_hazard_record : {T : Type 0} → Shared T → ℕ → Shared T
get_hazard_record s t = if ltb 0 (count t s.records) then s else record s {
  records = t ∷ s.records;
  first = put s.first t none;
  second = put s.second t none;
}

-- `mTail.compare_exchange`; a weak one may fail at any time.
pub swing : {T : Type 0} → Shared T → ℕ → ℕ → Bool → Shared T
swing s tail next spurious = record s {
  tail = if not spurious && (s.tail == tail) then next else s.tail;
}

pub enq_found : {T : Type 0} → T → ℕ → ℕ → Option ℕ → Pc T
enq_found item node tail none = enq_link item node tail
enq_found item node tail (some next) = enq_help item node tail next

is_none : Option ℕ → Bool
is_none none = true
is_none (some n) = false

pub link : {T : Type 0} → Shared T → ℕ → Bool → T → ℕ → ℕ → Node T → Outcome T
unfolding is_none
link s t spurious item node tail n =
    if not spurious && is_none n.next
    then moves (enqueues t item)
        (record s { nodes = put s.nodes tail (some (record n { next = some node })) })
        (enq_swing tail node)
    else moves silent s (enq_load item node)

pub deq_found : {T : Type 0} → Shared T → ℕ → ℕ → Option ℕ → Outcome T
deq_found s t head none = moves (fails t) s (clear_second none)
deq_found s t head (some next) = moves silent s (deq_tail head next)

pub copy_value : {T : Type 0} → Shared T → ℕ → ℕ → Option T → Outcome T
copy_value s head next none = fault
copy_value s head next (some v) = moves silent s (deq_swap head next v)

pub after_clear : {T : Type 0} → Option ℕ → Pc T
after_clear none = idle
after_clear (some head) = retire head

pub insert : Option ℕ → List ℕ → List ℕ
insert none spared = spared
insert (some n) spared = n ∷ spared

-- The next step of the thread `t`. The loops that push a `HazardRecord` or a `RetiredNode` are one
-- step each: only the exchange that succeeds is seen by others, and it pushes on the list as it is.
unfoldable pub act : {T : Type 0} → Shared T → ℕ → Bool → Pc T → Outcome T
unfolding with_node get_hazard_record swing enq_found link deq_found copy_value after_clear insert
act s t b idle = moves silent s idle
-- `Enqueue`: `Protect(mTail, hazard->first)` is the load, the store and the check.
act s t b (enq_register item node) = moves silent (get_hazard_record s t) (enq_load item node)
act s t b (enq_load item node) = moves silent s (enq_hazard item node s.tail)
act s t b (enq_hazard item node tail) =
    moves silent (record s { first = put s.first t (some tail) }) (enq_check item node tail)
act s t b (enq_check item node tail) =
    moves silent s (if tail == s.tail then enq_next item node tail else enq_load item node)
act s t b (enq_next item node tail) =
    with_node (s.nodes tail) (λ n. moves silent s (enq_recheck item node tail n.next))
act s t b (enq_recheck item node tail next) =
    moves silent s (if tail == s.tail then enq_found item node tail next else enq_load item node)
act s t b (enq_link item node tail) = with_node (s.nodes tail) (link s t b item node tail)
act s t b (enq_help item node tail next) = moves silent (swing s tail next b) (enq_load item node)
act s t b (enq_swing tail node) = moves silent (swing s tail node false) enq_count
act s t b enq_count = moves silent (record s { size = (s.size + 1) % 2 ^ 64 }) (clear_second none)
-- `TryDequeue`.
act s t b deq_register = moves silent (get_hazard_record s t) deq_load
act s t b deq_load = moves silent s (deq_hazard s.head)
act s t b (deq_hazard head) =
    moves silent (record s { first = put s.first t (some head) }) (deq_check head)
act s t b (deq_check head) = moves silent s (if head == s.head then deq_next head else deq_load)
act s t b (deq_next head) = with_node (s.nodes head) (λ n. moves silent s (deq_second head n.next))
act s t b (deq_second head next) =
    moves silent (record s { second = put s.second t next }) (deq_recheck head next)
act s t b (deq_recheck head next) =
    if head == s.head then deq_found s t head next else moves silent s deq_load
act s t b (deq_tail head next) =
    moves silent s (if head == s.tail then deq_help head next else deq_value head next)
act s t b (deq_help head next) = moves silent (swing s head next b) deq_load
act s t b (deq_value head next) = with_node (s.nodes next) (λ n. copy_value s head next n.value)
act s t b (deq_swap head next v) =
    if not b && (s.head == head)
    then moves (dequeues t v) (record s { head = next }) (deq_count head)
    else moves silent s deq_load
act s t b (deq_count head) =
    moves silent (record s { size = (s.size + 2 ^ 64 - 1) % 2 ^ 64 }) (clear_second (some head))
-- `ClearHazards`, and then `Retire` if there is a node to retire.
act s t b (clear_second node) =
    moves silent (record s { second = put s.second t none }) (clear_first node)
act s t b (clear_first node) =
    moves silent (record s { first = put s.first t none }) (after_clear node)
act s t b (retire node) = moves silent (record s { retired = node ∷ s.retired }) count_retired
-- `& 63u` is the remainder by 64.
act s t b count_retired =
    moves silent (record s { retire_count = (s.retire_count + 1) % 2 ^ 64 })
      (if s.retire_count % 64 == 63 then scan_take else idle)
-- `ScanRetired`.
act s t b scan_take =
    moves silent (record s { retired = [] })
      (if is_null s.retired then idle else scan_records s.retired)
act s t b (scan_records list) = moves silent s (scan_first list s.records [])
act s t b (scan_first list [] spared) = moves silent s (scan_free list spared [])
act s t b (scan_first list (r ∷ records) spared) =
    moves silent s (scan_second list r records (insert (s.first r) spared))
act s t b (scan_second list r records spared) =
    moves silent s (scan_first list records (insert (s.second r) spared))
act s t b (scan_free [] spared keep) = moves silent s (scan_push keep)
act s t b (scan_free (n ∷ list) spared keep) =
    if ltb 0 (count n spared)
    then moves silent s (scan_free list spared (n ∷ keep))
    else with_node (s.nodes n)
        (λ _. moves silent (record s { nodes = put s.nodes n none }) (scan_free list spared keep))
act s t b (scan_push []) = moves silent s idle
act s t b (scan_push (n ∷ keep)) =
    moves silent (record s { retired = n ∷ s.retired }) (scan_push keep)
