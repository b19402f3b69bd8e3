-- ===== src/RingBuffer/Put.antt =====
-- What `Enqueue`, `EnqueueItem` and `MoveRear` add to the ring.
use game_programmer_portfoli.Base.{
  ℕ, ◌+◌, ◌-◌, ◌%◌, ◌≤◌, ◌<◌, min, ◌≡◌, refl, sym, ap, subst, ap₂, ◌∙◌, inl, inr, List, [], ◌∷◌,
  ◌++◌, some, append-nil, append_assoc, length, take, blit, slice, arith, ◌==◌, ==_iff, Bool-cases,
  le→ltb_false, lt→ltb, length-append, length-blit, length-take, length-slice, slice-blit_before,
  slice-blit_after, slice-blit_self, take-add, blit_one, mod-below, mod-above,
}
use game_programmer_portfoli.RingBuffer.{
  RingBuffer, get_use_size, get_free_size, put_chunk, enqueue_chunks, enqueue, enqueue_item,
}
use game_programmer_portfoli.RingBuffer.Bounds.{
  IsValid, get_use_size_lem, get_use_size_bound, get_use_size-add-get_free_size, rear_lem,
}
use game_programmer_portfoli.RingBuffer.Window.{
  window, le_or_lt, window_flat, window_wrapped, window-add, length-window,
}

-- The items in the ring, oldest first.
abbrev pub contents {ℓ} : {A : Type ℓ} → RingBuffer A → List A
contents r = window r.buffer r.buffer_size r.front (get_use_size r)

module _ {A : Type 0} where
  pub length-contents : {r : RingBuffer A} → IsValid r → length (contents r) ≡ get_use_size r
  length-contents {r} v =
      length-window r.buffer r.buffer_size r.front (get_use_size r) v.storage v.front_in
        (omega (arith, get_use_size_bound v))

  -- A copy into free cells at the rear leaves the cells in use alone.
  pub window-blit :
      (buffer chunk : List A) (size i n rear : ℕ)
      → i < size
      → n + length chunk < size
      → rear ≡ (i + n) % size
      → rear + length chunk ≤ size
      → window (blit buffer rear chunk) size i n ≡ window buffer size i n
  window-blit buffer chunk size i n rear h k e f = elim (le_or_lt size (i + n)) [
    | inl past ↦
        let e' : rear ≡ i + n - size = e ∙ mod-above (i + n) size past (omega arith) in
        rw
          (
            window_wrapped (blit buffer rear chunk) size i n (omega arith) past,
            window_wrapped buffer size i n (omega arith) past,
          )
          (ap₂ ◌++◌ (slice-blit_after buffer chunk i (size - i) rear (omega arith))
            (slice-blit_before buffer chunk 0 (i + n - size) rear (omega arith)))
    | inr before ↦
        let e' : rear ≡ i + n = e ∙ mod-below (i + n) size before in
        rw
          (
            window_flat (blit buffer rear chunk) size i n (omega arith),
            window_flat buffer size i n (omega arith),
          )
          (slice-blit_before buffer chunk i n rear (omega arith))
  ]

  -- Moving the rear over `k` free cells.
  pub grown_use_size :
      {r s : RingBuffer A} (k : ℕ)
      → IsValid r
      → IsValid s
      → s.buffer_size ≡ r.buffer_size
      → s.front ≡ r.front
      → s.rear ≡ (r.rear + k) % r.buffer_size
      → k ≤ get_free_size r
      → get_use_size s ≡ get_use_size r + k
  grown_use_size {r} {s} k v w b f e h = ground (
    arith,
    get_use_size_lem v,
    get_use_size_lem w,
    get_use_size-add-get_free_size v,
    mod-below (r.rear + k) r.buffer_size,
    mod-above (r.rear + k) r.buffer_size,
  )

  -- What one `memcpy` at the rear does to a ring that has room for it.
  pub record Put (r : RingBuffer A) (chunk : List A) (s : RingBuffer A) : Type 0 where
    pub valid : IsValid s
    pub buffer_size : s.buffer_size ≡ r.buffer_size
    pub items : contents s ≡ contents r ++ chunk
    pub used : get_use_size s ≡ get_use_size r + length chunk
    pub start : s.front ≡ r.front

  put_chunk-IsValid : {r : RingBuffer A} (chunk : List A) → IsValid r → IsValid (put_chunk r chunk)
  unfolding put_chunk
  put_chunk-IsValid {r} chunk v = record {
    storage = length-blit r.buffer r.rear chunk ∙ v.storage;
    front_in = v.front_in;
    rear_in = omega (arith, v.front_in);
  }

  put_chunk-Put :
      {r : RingBuffer A} (chunk : List A)
      → IsValid r
      → length chunk ≤ get_free_size r
      → r.rear + length chunk ≤ r.buffer_size
      → Put r chunk (put_chunk r chunk)
  unfolding put_chunk
  put_chunk-Put {r} chunk v h k = record {
    valid = put_chunk-IsValid chunk v;
    buffer_size = refl;
    items = items;
    used = used;
    start = refl;
  }
    where
      used : get_use_size (put_chunk r chunk) ≡ get_use_size r + length chunk
      used = grown_use_size (length chunk) v (put_chunk-IsValid chunk v) refl refl refl h

      items : contents (put_chunk r chunk) ≡ contents r ++ chunk
      items = rw (
        used,
        window-add (blit r.buffer r.rear chunk) r.buffer_size r.front (get_use_size r)
            (length chunk) v.front_in (omega (arith, get_use_size-add-get_free_size v)),
        ← rear_lem v,
        window-blit r.buffer chunk r.buffer_size r.front (get_use_size r) r.rear v.front_in
            (omega (arith, get_use_size-add-get_free_size v)) (rear_lem v) k,
        window_flat (blit r.buffer r.rear chunk) r.buffer_size r.rear (length chunk) k,
        slice-blit_self r.buffer chunk r.rear (omega (arith, v.storage)),
      )

  Put-free :
      {r s : RingBuffer A} {xs : List A}
      → IsValid r
      → Put r xs s
      → get_free_size s + length xs ≡ get_free_size r
  Put-free v p = omega (
    arith,
    get_use_size-add-get_free_size v,
    get_use_size-add-get_free_size p.valid,
    p.buffer_size,
    p.used,
  )

  Put-refl : {r : RingBuffer A} → IsValid r → Put r [] r
  Put-refl {r} v = record {
    valid = v;
    buffer_size = refl;
    items = sym (append-nil (contents r));
    used = omega arith;
    start = refl;
  }

  Put-trans : {r s t : RingBuffer A} {xs ys : List A} → Put r xs s → Put s ys t → Put r (xs ++ ys) t
  Put-trans {xs} {ys} p q = record {
    valid = q.valid;
    buffer_size = q.buffer_size ∙ p.buffer_size;
    items = rw (q.items, p.items) (rw append_assoc);
    used = omega (arith, p.used, q.used, length-append xs ys);
    start = q.start ∙ p.start;
  }

  enqueue_chunks_flat :
      (r : RingBuffer A) (src : List A) (n : ℕ)
      → n ≤ r.buffer_size - r.rear
      → enqueue_chunks r src n ≡ put_chunk r (take n src)
  unfolding enqueue_chunks
  enqueue_chunks_flat r src n h = ground arith

  enqueue_chunks_over :
      (r : RingBuffer A) (src : List A) (n : ℕ)
      → r.buffer_size - r.rear < n
      → let k = r.buffer_size - r.rear in
        enqueue_chunks r src n ≡ put_chunk (put_chunk r (take k src)) (slice src k (n - k))
  unfolding enqueue_chunks
  enqueue_chunks_over r src n h = ground arith

  -- Filling up to the end of the storage brings the rear to its start.
  put_chunk_to_end :
      (r : RingBuffer A) (xs : List A)
      → IsValid r
      → length xs ≡ r.buffer_size - r.rear
      → (put_chunk r xs).rear ≡ 0
  unfolding put_chunk
  put_chunk_to_end r xs v e =
      mod-above (r.rear + length xs) r.buffer_size (omega (arith, v.rear_in))
        (omega (arith, v.rear_in))
      ∙ omega (arith, v.rear_in)

  -- `Enqueue` of `n` items that fit copies exactly the first `n`, in one or two pieces.
  enqueue_chunks-Put :
      {r : RingBuffer A} (src : List A) (n : ℕ)
      → IsValid r
      → n ≤ get_free_size r
      → n ≤ length src
      → Put r (take n src) (enqueue_chunks r src n)
  enqueue_chunks-Put {r} src n v h k = elim (le_or_lt n (r.buffer_size - r.rear)) [
    | inl flat ↦
        let fits : length (take n src) ≡ n = omega (arith, length-take n src) in
        rw (enqueue_chunks_flat r src n flat)
          (put_chunk-Put (take n src) v (omega arith) (omega (arith, v.rear_in)))
    | inr over ↦
        let j : ℕ = r.buffer_size - r.rear in
        let l₁ : length (take j src) ≡ j = omega (arith, length-take j src) in
        let l₂ : length (slice src j (n - j)) ≡ n - j = length-slice src j (n - j) (omega arith) in
        let p : Put r (take j src) (put_chunk r (take j src)) =
          put_chunk-Put (take j src) v (omega arith) (omega (arith, v.rear_in)) in
        let q : Put (put_chunk r (take j src)) (slice src j (n - j))
            (put_chunk (put_chunk r (take j src)) (slice src j (n - j))) =
          put_chunk-Put (slice src j (n - j)) p.valid (omega (arith, Put-free v p)) (
            omega (
              arith,
              put_chunk_to_end r (take j src) v l₁,
              p.buffer_size,
              get_use_size-add-get_free_size v,
            )) in
        let whole : j + (n - j) ≡ n = omega arith in
        rw (enqueue_chunks_over r src n over) (
          subst (λ xs. Put r xs (put_chunk (put_chunk r (take j src)) (slice src j (n - j))))
            (sym (take-add j (n - j) src) ∙ ap (λ m. take m src) whole) (Put-trans p q))
  ]

  -- `Enqueue` puts as many of the items as there is room for, in order, after those in the ring.
  pub enqueue-Put :
      {r : RingBuffer A} (src : List A)
      → IsValid r
      → let (n, s) = enqueue r (some src) in
        (n ≡ min (length src) (get_free_size r)) × Put r (take n src) s
  unfolding enqueue
  enqueue-Put {r} src v = elim (Bool-cases (length src == 0)) [
    | inl none ↦ rw none (omega (arith, (==_iff _ _).0 none), Put-refl v)
    | inr more ↦ rw more (ground arith, enqueue_chunks-Put src _ v (ground arith) (ground arith))
  ]

  pub enqueue_item-Put :
      {r : RingBuffer A} (x : A)
      → IsValid r
      → let (n, s) = enqueue_item r x in (n ≡ min 1 (get_free_size r)) × Put r (take n (x ∷ [])) s
  unfolding enqueue_item put_chunk
  enqueue_item-Put {r} x v = elim (le_or_lt 1 (get_free_size r)) [
    | inl room ↦
        rw (le→ltb_false (get_free_size r) 1 room, ← blit_one r.buffer r.rear x)
          (omega arith, put_chunk-Put (x ∷ []) v room (omega (arith, v.rear_in)))
    | inr full ↦ rw (lt→ltb (get_free_size r) 1 full) (omega arith, Put-refl v)
  ]
