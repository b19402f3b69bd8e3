-- ===== src/LockFreeQueue/Fits.antt =====
-- What a thread may rely on at each place of its code.
use game_programmer_portfoli.Base.{ℕ, ◌≤◌, ◌≡◌, ◌≢◌, ◌⊎◌, true, Option, none, some, count}
use game_programmer_portfoli.LockFreeQueue.{
  Shared, Pc, enq_load, enq_hazard, enq_check, enq_next, enq_recheck, enq_link, enq_help, enq_swing,
  deq_load, deq_hazard, deq_check, deq_next, deq_second, deq_recheck, deq_tail, deq_help, deq_value,
  deq_swap,
}
use game_programmer_portfoli.LockFreeQueue.Threads.{World}
use game_programmer_portfoli.LockFreeQueue.Invariant.{
  Ghost, Memory, Owns, Heeds, is_left, is_used, next_of, value_of,
}

module _ {T : Type 0} (s : Shared T) (g : Ghost T) (t : ℕ) where
  abbrev pub IsListed : Type 0
  IsListed = 1 ≤ count t s.records

  abbrev pub Guards : ℕ → Type 0
  Guards n = (s.first t ≡ some n) × IsListed × (is_used (g.place n) ≡ true)

  abbrev pub GuardsNext : ℕ → Type 0
  GuardsNext n = (s.second t ≡ some n) × (is_used (g.place n) ≡ true)

  abbrev pub Next : ℕ → ℕ → Type 0
  Next n m = next_of (s.nodes n) ≡ some (some m)

  abbrev pub Saw : ℕ → Option ℕ → Type 0
  Saw n none = Unit
  Saw n (some m) = Next n m

  -- A thread that saw no next node met the queue empty, or the node has left the queue.
  abbrev pub SawLast : ℕ → Option ℕ → Type 0
  SawLast n none = (is_left (g.place n) ≡ true) ⊎ (g.queue.met_empty t ≡ true)
  SawLast n (some m) = Unit

  abbrev pub WasHead : ℕ → Type 0
  WasHead n = (n ≡ s.head) ⊎ (is_left (g.place n) ≡ true)

  abbrev pub HasValue : ℕ → Type 0
  HasValue n = (v : T) × (value_of (s.nodes n) ≡ some v)

  abbrev pub Fits : Pc T → Type 0
  Fits (enq_load item node) = IsListed
  Fits (enq_hazard item node tail) = IsListed
  Fits (enq_check item node tail) = IsListed × (s.first t ≡ some tail)
  Fits (enq_next item node tail) = Guards tail
  Fits (enq_recheck item node tail next) = (Guards tail) × (Saw tail next)
  Fits (enq_link item node tail) = Guards tail
  Fits (enq_help item node tail next) = (Guards tail) × (Next tail next)
  Fits (enq_swing tail node) = (Guards tail) × (Next tail node)
  Fits deq_load = IsListed
  Fits (deq_hazard head) = IsListed
  Fits (deq_check head) = IsListed × (s.first t ≡ some head)
  Fits (deq_next head) = (Guards head) × (WasHead head)
  Fits (deq_second head next) =
      (Guards head) × ((WasHead head) × ((Saw head next) × (SawLast head next)))
  Fits (deq_recheck head next) =
      (Guards head)
      × ((WasHead head) × ((Saw head next) × ((SawLast head next) × (s.second t ≡ next))))
  Fits (deq_tail head next) =
      (Guards head) × ((WasHead head) × ((Next head next) × ((GuardsNext next) × (HasValue next))))
  Fits (deq_help head next) = (Guards head) × (Next head next)
  Fits (deq_value head next) =
      (Guards head)
      × ((WasHead head)
          × ((Next head next) × ((GuardsNext next) × ((HasValue next) × (head ≢ s.tail)))))
  Fits (deq_swap head next v) =
      (Guards head)
      × ((WasHead head)
          × ((Next head next)
              × ((GuardsNext next) × ((value_of (s.nodes next) ≡ some v) × (head ≢ s.tail)))))
  Fits other = Unit

pub record IsSafe {T : Type 0} (w : World T) (g : Ghost T) : Type 0 where
  pub memory : Memory w.shared g
  pub owns : (t : ℕ) → Owns w.shared g t (w.threads t)
  pub fits : (t : ℕ) → Fits w.shared g t (w.threads t)
  pub heeds : (t u : ℕ) → Heeds (w.threads t) u (w.threads u)
