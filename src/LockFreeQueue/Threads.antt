-- ===== src/LockFreeQueue/Threads.antt =====
-- The threads that use a queue of LockFreeQueue.h: the calls, and the steps in any order.
use game_programmer_portfoli.Base.{ℕ, ◌≡◌, Bool, none, some, List, [], ◌∷◌}
use game_programmer_portfoli.LockFreeQueue.{
  Shared, Pc, put, act, moves, idle, enq_register, deq_register,
}
use game_programmer_portfoli.LockFreeQueue.Spec.{Event, calls_enqueue, calls_dequeue}

-- The queue and its threads.
pub record World (T : Type 0) : Type 0 where
  pub shared : Shared T
  pub threads : ℕ → Pc T

-- The constructor, with the sentinel that `new` returns.
abbrev pub create : {T : Type 0} → ℕ → World T
create sentinel = record {
  shared = record {
    nodes = put (λ n. none) sentinel (some (record { next = none; value = none }));
    head = sentinel;
    tail = sentinel;
    size = 0;
    records = [];
    first = λ t. none;
    second = λ t. none;
    retired = [];
    retire_count = 0;
  };
  threads = λ t. idle;
}

-- `new Node(std::move(item))` at the start of `Enqueue`.
abbrev pub new_node : {T : Type 0} → Shared T → ℕ → T → Shared T
new_node s node item = record s {
  nodes = put s.nodes node (some (record { next = none; value = some item }));
}

-- A step of the program: a thread that is in no call makes one, with the node that `new` returns at an
-- address that is not allocated; or a thread goes on.
pub data Step {T : Type 0} (w : World T) : Event T → World T → Type 0 where
  enqueue :
      (t : ℕ) (item : T) (node : ℕ)
      → w.threads t ≡ idle
      → w.shared.nodes node ≡ none
      → Step w (calls_enqueue t item) record {
        shared = new_node w.shared node item;
        threads = put w.threads t (enq_register item node);
      }
  try_dequeue :
      (t : ℕ)
      → w.threads t ≡ idle
      → Step w (calls_dequeue t) (record w { threads = put w.threads t deq_register })
  goes_on :
      (t : ℕ) (spurious : Bool) (e : Event T) (s : Shared T) (pc : Pc T)
      → act w.shared t spurious (w.threads t) ≡ moves e s pc
      → Step w e record { shared = s; threads = put w.threads t pc }

-- The events of a run, last first.
pub data Reaches {T : Type 0} (w : World T) : List (Event T) → World T → Type 0 where
  here : Reaches w [] w
  later :
      {u v : World T} {es : List (Event T)} {e : Event T}
      → Reaches w es u
      → Step u e v
      → Reaches w (e ∷ es) v
