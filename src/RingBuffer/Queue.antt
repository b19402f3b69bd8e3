-- ===== src/RingBuffer/Queue.antt =====
-- The bounded queue that a ring implements, and the calls that tell neither from the other.
use game_programmer_portfoli.Base.{
  ℕ, ◌-◌, min, ◌≡◌, refl, ap, ◌∙◌, List, [], ◌∷◌, ◌++◌, Option, none, some, true, length, take,
  drop, take-append, drop-append, arith,
}
use game_programmer_portfoli.RingBuffer.{
  RingBuffer, get_free_size, get_buffer_size, enqueue, enqueue_item, dequeue, dequeue_item, peek,
  clear_buffer,
}
use game_programmer_portfoli.RingBuffer.Bounds.{IsValid, get_use_size_lem}
use game_programmer_portfoli.RingBuffer.Put.{
  contents, length-contents, enqueue-Put, enqueue_item-Put,
}
use game_programmer_portfoli.RingBuffer.Get.{Got, dequeue-Got, dequeue_item-Got, peek_lem}

-- What a client asks of the ring, with buffers that are not null.
pub data Call (A : Type 0) : Type 0 where
  enqueues : List A → Call A
  enqueues_item : A → Call A
  dequeues : ℕ → Call A
  dequeues_item : Call A
  peeks : ℕ → Call A
  clears : Call A

-- The number that comes back (for `DequeueItem` 1 stands for true), and the items.
abbrev pub Reply : Type 0 → Type 0
Reply A = ℕ × List A

module _ {A : Type 0} where
  abbrev pub item_reply : Option A → Reply A
  item_reply none = (0, [])
  item_reply (some x) = (1, x ∷ [])

  pub call : RingBuffer A → Call A → Reply A × RingBuffer A
  call r (enqueues src) = let (n, s) = enqueue r (some src) in ((n, []), s)
  call r (enqueues_item x) = let (n, s) = enqueue_item r x in ((n, []), s)
  call r (dequeues size) = let (n, xs, s) = dequeue r true size in ((n, xs), s)
  call r dequeues_item = let (x, s) = dequeue_item r in (item_reply x, s)
  call r (peeks size) = (peek r true size, r)
  call r clears = ((0, []), clear_buffer r)

  pub run : RingBuffer A → List (Call A) → List (Reply A)
  run r [] = []
  run r (c ∷ cs) = let (reply, s) = call r c in reply ∷ run s cs

  -- A first-in first-out queue of at most `cap` items.
  pub queue_call : ℕ → List A → Call A → Reply A × List A
  queue_call cap q (enqueues src) =
      let n = min (length src) (cap - length q) in ((n, []), q ++ take n src)
  queue_call cap q (enqueues_item x) =
      let n = min 1 (cap - length q) in ((n, []), q ++ take n (x ∷ []))
  queue_call cap q (dequeues size) = let n = min size (length q) in ((n, take n q), drop n q)
  queue_call cap [] dequeues_item = ((0, []), [])
  queue_call cap (x ∷ q) dequeues_item = ((1, x ∷ []), q)
  queue_call cap q (peeks size) = ((min size (length q), take size q), q)
  queue_call cap q clears = ((0, []), [])

  pub queue_run : ℕ → List A → List (Call A) → List (Reply A)
  queue_run cap q [] = []
  queue_run cap q (c ∷ cs) = let (reply, q') = queue_call cap q c in reply ∷ queue_run cap q' cs

  -- What one call keeps and how it answers.
  record Refines (r : RingBuffer A) (c : Call A) : Type 0 where
    valid : IsValid (call r c).1
    buffer_size : (call r c).1.buffer_size ≡ r.buffer_size
    agrees : ((call r c).0, contents (call r c).1) ≡ queue_call (get_buffer_size r) (contents r) c

  nil_of_length : (xs : List A) → length xs ≡ 0 → xs ≡ []
  nil_of_length [] e = refl
  nil_of_length (x ∷ xs) e = absurd (omega arith)

  free_lem :
      {r : RingBuffer A} → IsValid r → get_free_size r ≡ get_buffer_size r - length (contents r)
  unfolding get_free_size
  free_lem {r} v = rw (length-contents v)

  Got-take : {r s : RingBuffer A} {xs : List A} → Got r xs s → take (length xs) (contents r) ≡ xs
  Got-take {s} {xs} g = rw g.items (take-append xs (contents s))

  Got-drop :
      {r s : RingBuffer A} {xs : List A} → Got r xs s → drop (length xs) (contents r) ≡ contents s
  Got-drop {s} {xs} g = rw g.items (drop-append xs (contents s))

  dequeue_agrees :
      {r s : RingBuffer A} {xs : List A} {n m : ℕ} (size : ℕ)
      → Got r xs s
      → length xs ≡ n
      → n ≡ min size m
      → length (contents r) ≡ m
      → ◌≡◌ {A = Reply A × List A}
          ((n, xs), contents s)
          (let k = min size (length (contents r)) in
            ((k, take k (contents r)), drop k (contents r)))
  dequeue_agrees {r} {s} {xs} {n} {m} size g l e f =
      let k : min size (length (contents r)) ≡ length xs = omega arith in
      rw (k, Got-take g, Got-drop g, l)

  item_agrees :
      {r s : RingBuffer A} (cap : ℕ) (x : Option A)
      → Got r (elim x [ none ↦ [] | some a ↦ a ∷ [] ]) s
      → (x ≡ none → length (contents r) ≡ 0)
      → (item_reply x, contents s) ≡ queue_call cap (contents r) dequeues_item
  unfolding queue_call
  item_agrees {r} {s} cap none g h =
      let e : contents r ≡ [] = nil_of_length (contents r) (h refl) in rw (← g.items, e)
  item_agrees cap (some x) g h = rw g.items

  clear_buffer_lem :
      {r : RingBuffer A} → IsValid r → IsValid (clear_buffer r) × (contents (clear_buffer r) ≡ [])
  unfolding clear_buffer
  clear_buffer_lem {r} v =
      let w : IsValid (clear_buffer r) = record {
        storage = v.storage;
        front_in = omega (arith, v.front_in);
        rear_in = omega (arith, v.front_in);
      } in
      (
        w,
        nil_of_length (contents (clear_buffer r))
            (omega (arith, length-contents w, get_use_size_lem w)),
      )

  call-Refines : (r : RingBuffer A) (c : Call A) → IsValid r → Refines r c
  unfolding call queue_call clear_buffer
  call-Refines r (enqueues src) v =
      let (n, p) = enqueue-Put src v in
      record { valid = p.valid; buffer_size = p.buffer_size; agrees = rw (p.items, n, free_lem v) }
  call-Refines r (enqueues_item x) v =
      let (n, p) = enqueue_item-Put x v in
      record { valid = p.valid; buffer_size = p.buffer_size; agrees = rw (p.items, n, free_lem v) }
  call-Refines r (dequeues size) v =
      let (n, l, g) = dequeue-Got size v in
      record {
        valid = g.valid;
        buffer_size = g.buffer_size;
        agrees = dequeue_agrees size g l n (length-contents v);
      }
  call-Refines r dequeues_item v =
      let (g, empty) = dequeue_item-Got v in
      record {
        valid = g.valid;
        buffer_size = g.buffer_size;
        agrees =
            item_agrees (get_buffer_size r) (dequeue_item r).0 g (λ e. length-contents v ∙ empty e);
      }
  call-Refines r (peeks size) v = record {
    valid = v;
    buffer_size = refl;
    agrees = rw (peek_lem size v, length-contents v);
  }
  call-Refines r clears v =
      let (w, e) = clear_buffer_lem v in
      record {
        valid = w;
        buffer_size = refl;
        agrees = ap {B = Reply A × List A} (λ q. ((0, []), q)) e;
      }

  pub get_buffer_size-eq :
      (r s : RingBuffer A) → s.buffer_size ≡ r.buffer_size → get_buffer_size s ≡ get_buffer_size r
  unfolding get_buffer_size
  get_buffer_size-eq r s e = ap (λ n. n - 1) e

  -- Every sequence of `Enqueue`, `EnqueueItem`, `Dequeue`, `DequeueItem`, `Peek` and `ClearBuffer`
  -- calls on a well-formed ring, with buffers that are not null, returns the same numbers and items
  -- as a first-in first-out queue that starts with the ring's contents and holds at most
  -- `GetBufferSize()` items.
  pub run_refines :
      (r : RingBuffer A) (cs : List (Call A))
      → IsValid r
      → run r cs ≡ queue_run (get_buffer_size r) (contents r) cs
  unfolding run queue_run
  run_refines r [] v = refl
  run_refines r (c ∷ cs) v =
      let step = call-Refines r c v in
      rw (
        run_refines (call r c).1 cs step.valid,
        get_buffer_size-eq r (call r c).1 step.buffer_size,
        ← step.agrees,
      )
