-- ===== src/LockFreeQueue/Spec.antt =====
-- What a queue that many threads use promises: each call takes effect at one moment, on a queue.
use game_programmer_portfoli.Base.{
  ℕ, ◌≡◌, Bool, Option, none, some, true, false, List, [], ◌∷◌, ◌++◌, ◌==◌, if◌then◌else◌,
}

-- What others see of a step of the thread with the number given.
pub data Event (T : Type 0) : Type 0 where
  silent : Event T
  calls_enqueue : ℕ → T → Event T
  calls_dequeue : ℕ → Event T
  enqueues : ℕ → T → Event T
  dequeues : ℕ → T → Event T
  fails : ℕ → Event T

-- The items, first in first; and of each thread, the item that it has called `Enqueue` with and that is
-- not in yet, and whether its call of `TryDequeue` has met the queue empty.
pub record Queue (T : Type 0) : Type 0 where
  pub items : List T
  pub met_empty : ℕ → Bool
  pub offered : ℕ → Option T

abbrev pub meets : {T : Type 0} → Queue T → ℕ → Bool → Queue T
meets q t b = record q { met_empty = λ u. if u == t then b else q.met_empty u }

abbrev pub offers : {T : Type 0} → Queue T → ℕ → Option T → Queue T
offers q t o = record q { offered = λ u. if u == t then o else q.offered u }

-- A call begins; the item of a call goes in at the back and comes out at the front; a call fails that has met
-- the queue empty since it began.
pub data Does {T : Type 0} (q : Queue T) : Event T → Queue T → Type 0 where
  nothing : Does q silent q
  begins_enqueue : (t : ℕ) (v : T) → Does q (calls_enqueue t v) (offers q t (some v))
  begins_dequeue : (t : ℕ) → Does q (calls_dequeue t) (meets q t false)
  finds_empty : (t : ℕ) → q.items ≡ [] → Does q silent (meets q t true)
  adds :
      (t : ℕ) (v : T)
      → q.offered t ≡ some v
      → Does q (enqueues t v) (record (offers q t none) { items = q.items ++ (v ∷ []) })
  removes :
      (t : ℕ) (v : T) (vs : List T)
      → q.items ≡ v ∷ vs
      → Does q (dequeues t v) (record q { items = vs })
  gives_up : (t : ℕ) → q.met_empty t ≡ true → Does q (fails t) q

abbrev pub empty : {T : Type 0} → Queue T
empty = record { items = []; met_empty = λ t. false; offered = λ t. none }

-- The runs of the queue, with their events, last first.
pub data Runs {T : Type 0} (q : Queue T) : List (Event T) → Queue T → Type 0 where
  start : Runs q [] q
  then_ :
      {p r : Queue T} {es : List (Event T)} {e : Event T}
      → Runs q es p
      → Does p e r
      → Runs q (e ∷ es) r
