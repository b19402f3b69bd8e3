-- ===== src/RingBuffer/Get.antt =====
-- What `Dequeue`, `DequeueItem`, `Peek` and `MoveFront` take from the ring.
use game_programmer_portfoli.Base.{
  ℕ, ◌+◌, ◌-◌, ◌%◌, ◌≤◌, ◌<◌, min, ◌≡◌, refl, sym, ap, subst, ◌∙◌, inl, inr, List, [], ◌∷◌, ◌++◌,
  none, some, true, length, take, ltb, if◌then◌else◌, arith, ◌==◌, ==_iff, Bool-cases, le→ltb_false,
  le→leb, lt→leb_false, take-min, min-zero, take-append, slice_one, mod-below, mod-above,
}
use game_programmer_portfoli.RingBuffer.{
  RingBuffer, get_use_size, dequeue_chunks, dequeue, dequeue_item, peek_chunks, peek, move_front,
}
use game_programmer_portfoli.RingBuffer.Bounds.{IsValid, get_use_size_lem, get_use_size_bound}
use game_programmer_portfoli.RingBuffer.Window.{
  window, le_or_lt, window_flat, window-add, length-window,
}
use game_programmer_portfoli.RingBuffer.Put.{contents, length-contents}

-- What taking items off the front leaves.
pub record Got {A : Type 0} (r : RingBuffer A) (xs : List A) (s : RingBuffer A) : Type 0 where
  pub valid : IsValid s
  pub buffer_size : s.buffer_size ≡ r.buffer_size
  pub items : contents r ≡ xs ++ contents s
  pub used : get_use_size r ≡ length xs + get_use_size s

clip-eq-min : (a b : ℕ) → (if ltb a b then a else b) ≡ min a b
clip-eq-min a b = ground arith

module _ {A : Type 0} where
  shrunk_use_size :
      {r : RingBuffer A} (k : ℕ)
      → IsValid r
      → k ≤ get_use_size r
      → let s = record r { front = (r.front + k) % r.buffer_size } in
        IsValid s × (get_use_size r ≡ k + get_use_size s)
  shrunk_use_size {r} k v h =
      let w : IsValid (record r { front = (r.front + k) % r.buffer_size }) = record {
        storage = v.storage;
        front_in = omega (arith, v.front_in);
        rear_in = v.rear_in;
      } in
      (
        w,
        ground (
          arith,
          get_use_size_lem v,
          get_use_size_lem w,
          mod-below (r.front + k) r.buffer_size,
          mod-above (r.front + k) r.buffer_size,
        ),
      )

  -- Moving the front over `k` items takes the first `k` of them away.
  pub advance-Got :
      {r : RingBuffer A} (k : ℕ)
      → IsValid r
      → k ≤ get_use_size r
      → Got r
          (window r.buffer r.buffer_size r.front k)
          (record r { front = (r.front + k) % r.buffer_size })
  advance-Got {r} k v h =
      let s : RingBuffer A = record r { front = (r.front + k) % r.buffer_size } in
      let (w, e) = shrunk_use_size k v h in
      let bound : get_use_size r < r.buffer_size = get_use_size_bound v in
      record {
        valid = w;
        buffer_size = refl;
        items =
            rw e (
              window-add r.buffer r.buffer_size r.front k (get_use_size s) v.front_in
                (omega arith));
        used =
            rw (length-window r.buffer r.buffer_size r.front k v.storage v.front_in (omega arith))
              e;
      }

  -- The first `k` items by themselves.
  pub take-contents :
      {r : RingBuffer A} (k : ℕ)
      → IsValid r
      → k ≤ get_use_size r
      → take k (contents r) ≡ window r.buffer r.buffer_size r.front k
  take-contents {r} k v h =
      let xs : List A = window r.buffer r.buffer_size r.front k in
      let l : length xs ≡ k =
        length-window r.buffer r.buffer_size r.front k v.storage v.front_in
          (omega (arith, get_use_size_bound v)) in
      rw (advance-Got k v h).items (
        ap (λ m. take m (xs ++ contents (record r { front = (r.front + k) % r.buffer_size })))
          (sym l)
        ∙ take-append xs _)

  -- The two pieces that `Peek` copies are the window of that many cells.
  peek_chunks_lem :
      {r : RingBuffer A} (n : ℕ)
      → IsValid r
      → n ≤ get_use_size r
      → peek_chunks r n ≡ window r.buffer r.buffer_size r.front n
  unfolding peek_chunks
  peek_chunks_lem {r} n v h = ground arith

  -- `Dequeue` reads its second piece from where the front has come to: the start of the storage.
  dequeue_chunks_lem :
      {r : RingBuffer A} (n : ℕ)
      → IsValid r
      → n ≤ get_use_size r
      → dequeue_chunks r n ≡ (
        window r.buffer r.buffer_size r.front n,
        record r { front = (r.front + n) % r.buffer_size },
      )
  unfolding dequeue_chunks
  dequeue_chunks_lem {r} n v h = ground (
    arith,
    get_use_size_bound v,
    mod-above (r.front + (r.buffer_size - r.front)) r.buffer_size,
    mod-below (n - (r.buffer_size - r.front)) r.buffer_size,
    mod-below (0 + (n - (r.buffer_size - r.front))) r.buffer_size,
    mod-above (r.front + n) r.buffer_size,
  )

  Got-refl : {r : RingBuffer A} → IsValid r → Got r [] r
  Got-refl v = record { valid = v; buffer_size = refl; items = refl; used = omega arith }

  length-window_used :
      {r : RingBuffer A} (n : ℕ)
      → IsValid r
      → n ≤ get_use_size r
      → length (window r.buffer r.buffer_size r.front n) ≡ n
  length-window_used {r} n v h =
      length-window r.buffer r.buffer_size r.front n v.storage v.front_in
        (omega (arith, get_use_size_bound v))

  -- `Dequeue` takes as many items as were asked for and are there, in order, off the front.
  pub dequeue-Got :
      {r : RingBuffer A} (size : ℕ)
      → IsValid r
      → let (n, xs, s) = dequeue r true size in
        (n ≡ min size (get_use_size r)) × (length xs ≡ n) × Got r xs s
  unfolding dequeue
  dequeue-Got {r} size v = elim (Bool-cases (size == 0)) [
    | inl nothing ↦ rw nothing (omega (arith, (==_iff _ _).0 nothing), refl, Got-refl v)
    | inr more ↦
        rw
          (
            more,
            clip-eq-min size (get_use_size r),
            dequeue_chunks_lem (min size (get_use_size r)) v (omega arith),
          )
          (
            refl,
            length-window_used (min size (get_use_size r)) v (omega arith),
            advance-Got (min size (get_use_size r)) v (omega arith),
          )
  ]

  -- `Peek` copies the same items and leaves them in the ring.
  pub peek_lem :
      {r : RingBuffer A} (size : ℕ)
      → IsValid r
      → peek r true size ≡ (min size (get_use_size r), take size (contents r))
  unfolding peek
  peek_lem {r} size v = elim (Bool-cases (size == 0)) [
    | inl nothing ↦
        let zero_size : size ≡ 0 = (==_iff _ _).0 nothing in
        rw (nothing, zero_size) (rw (min-zero (get_use_size r)))
    | inr more ↦
        let k : ℕ = min size (get_use_size r) in
        let whole : take k (contents r) ≡ take size (contents r) =
          ap (λ n. take (min size n) (contents r)) (sym (length-contents v))
          ∙ take-min size (contents r) in
        rw (more, clip-eq-min size (get_use_size r), peek_chunks_lem k v (omega arith))
          (ap {B = ℕ × List A} (λ xs. (k, xs)) (sym (take-contents k v (omega arith)) ∙ whole))
  ]

  pub dequeue_item-Got :
      {r : RingBuffer A}
      → IsValid r
      → let (x, s) = dequeue_item r in
        Got r (elim x [ none ↦ [] | some a ↦ a ∷ [] ]) s × (x ≡ none → get_use_size r ≡ 0)
  unfolding dequeue_item
  dequeue_item-Got {r} v = elim (le_or_lt (get_use_size r) 0) [
    | inl empty ↦ rw (le→leb (get_use_size r) 0 empty) (Got-refl v, λ e. omega arith)
    | inr more ↦
        let (x, at, one) = slice_one r.buffer r.front (omega (arith, v.storage, v.front_in)) in
        rw (lt→leb_false (get_use_size r) 0 more, at)
          (
            subst (λ xs. Got r xs (record r { front = (r.front + 1) % r.buffer_size }))
                (window_flat r.buffer r.buffer_size r.front 1 (omega (arith, v.front_in)) ∙ one)
                (advance-Got 1 v more),
            λ e. cc,
          )
  ]

  pub move_front-Got :
      {r : RingBuffer A} (size : ℕ)
      → IsValid r
      → size ≤ get_use_size r
      → ((move_front r size).0 ≡ size) × Got r (take size (contents r)) (move_front r size).1
  unfolding move_front
  move_front-Got {r} size v h =
      rw (le→ltb_false (get_use_size r) size h, take-contents size v h) (refl, advance-Got size v h)
