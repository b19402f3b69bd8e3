-- ===== src/LockFreeQueue/Examples.antt =====
-- Two threads: one enqueues, and the other dequeues twice.
use game_programmer_portfoli.Base.{
  ℕ, zero, suc, ◌≡◌, ◌≢◌, refl, List, [], ◌∷◌, none, some, false, count, ◌==◌, ◌≤◌, Bool-cases, inl,
  inr, ==_iff, subst, ◌∙◌, arith,
}
use game_programmer_portfoli.LockFreeQueue.{
  Outcome, put, act, idle, enq_register, deq_register, fault, moves,
}
use game_programmer_portfoli.LockFreeQueue.Threads.{
  World, Reaches, create, new_node, here, later, enqueue, try_dequeue, goes_on,
}
use game_programmer_portfoli.LockFreeQueue.Spec.{
  Event, calls_enqueue, calls_dequeue, silent, enqueues, dequeues, fails, Queue, Runs, empty,
}
use game_programmer_portfoli.LockFreeQueue.Destroy.{Nodes, destroy}
use game_programmer_portfoli.LockFreeQueue.Destroy.Whole.{destroy_returns}
use game_programmer_portfoli.LockFreeQueue.Moves.{put-differs}
use game_programmer_portfoli.LockFreeQueue.Linear.{Contains, Reaches-linearizes, act_sound}

-- A run of the queue whose sentinel is the node 1.
record Run : Type 0 where
  world : World ℕ
  events : List (Event ℕ)
  reaches : Reaches (create 1) events world

step_on :
    (t : ℕ) (r : Run) (o : Outcome ℕ) → act r.world.shared t false (r.world.threads t) ≡ o → Run
step_on t r fault d = r
step_on t r (moves e s pc) d = record {
  world = record { shared = s; threads = put r.world.threads t pc };
  events = e ∷ r.events;
  reaches = later r.reaches (goes_on t false e s pc d);
}

goes : ℕ → ℕ → Run → Run
unfolding step_on
goes zero t r = r
goes (suc n) t r =
    let before = goes n t r in
    step_on t before (act before.world.shared t false (before.world.threads t)) refl

-- The thread 4 calls `Enqueue`, with the node 2.
abbrev enqueue_call : Run
enqueue_call = record {
  world = record {
    shared = new_node (create {T = ℕ} 1).shared 2 7;
    threads = put (create {T = ℕ} 1).threads 4 (enq_register 7 2);
  };
  events = calls_enqueue 4 7 ∷ [];
  reaches = later here (enqueue 4 7 2 refl refl);
}

-- It goes as far as the exchange that links the node.
enqueued : Run
unfolding goes act count
enqueued = goes 7 4 enqueue_call

dequeue_call : Run
unfolding enqueued goes act count
dequeue_call = record {
  world = record enqueued.world { threads = put enqueued.world.threads 5 deq_register };
  events = calls_dequeue 5 ∷ enqueued.events;
  reaches = later enqueued.reaches (try_dequeue 5 refl);
}

-- The thread 5 dequeues before the thread 4 has moved `mTail`.
dequeued : Run
unfolding goes act count
dequeued = goes 26 5 dequeue_call

loud : List (Event ℕ) → List (Event ℕ)
loud [] = []
loud (silent ∷ es) = loud es
loud (calls_enqueue t v ∷ es) = calls_enqueue t v ∷ loud es
loud (calls_dequeue t ∷ es) = calls_dequeue t ∷ loud es
loud (enqueues t v ∷ es) = enqueues t v ∷ loud es
loud (dequeues t v ∷ es) = dequeues t v ∷ loud es
loud (fails t ∷ es) = fails t ∷ loud es

dequeued_seven :
    loud dequeued.events ≡ dequeues 5 7 ∷ calls_dequeue 5 ∷ enqueues 4 7 ∷ calls_enqueue 4 7 ∷ []
unfolding loud dequeued dequeue_call enqueued goes step_on act count
dequeued_seven = refl

Reaches-linearizes_example :
    (q : Queue ℕ) × (Runs empty dequeued.events q × Contains dequeued.world q.items)
Reaches-linearizes_example = Reaches-linearizes 1 dequeued.events dequeued.world dequeued.reaches

act_sound_example : act dequeued.world.shared 4 false (dequeued.world.threads 4) ≢ fault
act_sound_example = act_sound 1 dequeued.events dequeued.world 4 false dequeued.reaches

-- The other threads stand where they stood.
step_on-others :
    (t : ℕ) (r : Run) (o : Outcome ℕ) (d : act r.world.shared t false (r.world.threads t) ≡ o)
    (u : ℕ)
    → u ≢ t
    → (step_on t r o d).world.threads u ≡ r.world.threads u
unfolding step_on
step_on-others t r fault d u e = refl
step_on-others t r (moves e' s pc) d u e = put-differs r.world.threads t u pc e

goes-others : (n t : ℕ) (r : Run) (u : ℕ) → u ≢ t → (goes n t r).world.threads u ≡ r.world.threads u
unfolding goes
goes-others zero t r u e = refl
goes-others (suc n) t r u e = step_on-others t (goes n t r) _ refl u e ∙ goes-others n t r u e

-- Both calls have returned.
returned : Run
unfolding goes
returned = goes 4 4 dequeued

four-idle : returned.world.threads 4 ≡ idle
unfolding returned dequeued dequeue_call enqueued goes step_on act count
four-idle = refl

five-idle : returned.world.threads 5 ≡ idle
unfolding returned dequeued dequeue_call enqueued goes step_on act count
five-idle = refl

returned-idle : (u : ℕ) → returned.world.threads u ≡ idle
unfolding returned dequeued dequeue_call enqueued
returned-idle u = elim (Bool-cases (4 == u)) [
  | inl e ↦ subst (λ x. returned.world.threads x ≡ idle) ((==_iff 4 u).0 e) four-idle
  | inr e ↦ elim (Bool-cases (5 == u)) [
    | inl f ↦ subst (λ x. returned.world.threads x ≡ idle) ((==_iff 5 u).0 f) five-idle
    | inr f ↦
        let not_four : u ≢ 4 = λ x. ground (arith, e, x) in
        let not_five : u ≢ 5 = λ x. ground (arith, f, x) in
        goes-others 4 4 dequeued u not_four
        ∙ goes-others 26 5 dequeue_call u not_five
        ∙ put-differs enqueued.world.threads 5 u deq_register not_five
        ∙ goes-others 7 4 enqueue_call u not_four
        ∙ put-differs (create {T = ℕ} 1).threads 4 u (enq_register 7 2) not_four
  ]
]

destroy_returns_example :
    (enough : ℕ) × ((chain_fuel : ℕ)
      → enough ≤ chain_fuel
      → (nodes : Nodes ℕ) × ((destroy 100 chain_fuel returned.world.shared 4 ≡ some nodes)
          × ((n : ℕ) → nodes n ≡ none)))
unfolding returned dequeued dequeue_call enqueued goes step_on act count
destroy_returns_example =
    destroy_returns 1 returned.events returned.world 4 100 returned.reaches returned-idle
      (omega arith)
