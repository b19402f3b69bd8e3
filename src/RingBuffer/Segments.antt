-- ===== src/RingBuffer/Segments.antt =====
-- The buffers that the ring hands to the socket calls, and what a receive into them adds.
use game_programmer_portfoli.Base.{
  ℕ, ◌+◌, ◌-◌, ◌%◌, ◌≤◌, ◌<◌, min, false, ◌==◌, ltb, Bool-cases, ◌≡◌, refl, ap₂, ◌∙◌, ◌⊎◌, inl, inr,
  List, ◌++◌, none, some, length, take, drop, slice, arith, le→ltb_false, take_all,
  take-append_drop, mod-below, mod-above,
}
use game_programmer_portfoli.RingBuffer.{
  RingBuffer, WsaBuf, get_use_size, get_free_size, get_buffer_size, direct_enqueue_size,
  direct_dequeue_size, get_enqueue_segments, get_dequeue_segments, move_rear,
}
use game_programmer_portfoli.RingBuffer.Bounds.{
  IsValid, get_use_size_lem, get_use_size-add-get_free_size, rear_lem,
}
use game_programmer_portfoli.RingBuffer.Window.{
  window, le_or_lt, window_flat, window_wrapped, window-add,
}
use game_programmer_portfoli.RingBuffer.Put.{Put, grown_use_size}

-- Two runs of cells, `start` on for `total`, the second at the start of the storage.
pub record Covers (size start total n : ℕ) (w0 w1 : WsaBuf) : Type 0 where
  pub first : w0.buf ≡ some start
  pub whole : w0.len + w1.len ≡ total
  pub inside : start + w0.len ≤ size
  pub second :
      ((n ≡ 1) × (w1.buf ≡ none) × (w1.len ≡ 0))
      ⊎ ((n ≡ 2) × (w1.buf ≡ some 0) × (start + w0.len ≡ size) × (w1.len ≤ start))

module _ {A : Type 0} where
  -- On a well-formed ring with a free cell, `GetEnqueueSegments` returns one or two buffers that
  -- start at the rear, stay inside the storage and are as long together as there are free cells; a
  -- second one starts at the first cell, behind a first one that ends at the last cell, and ends at
  -- or before the rear.
  pub get_enqueue_segments-Covers :
      {r : RingBuffer A} (w0 w1 : WsaBuf)
      → IsValid r
      → 0 < get_free_size r
      → let (n, v0, v1) = get_enqueue_segments r w0 w1 in
        Covers r.buffer_size r.rear (get_free_size r) n v0 v1
  unfolding get_enqueue_segments direct_enqueue_size
  get_enqueue_segments-Covers {r} w0 w1 v h =
      ground (arith, get_use_size_lem v, get_use_size-add-get_free_size v)

  pub segments_full :
      (r : RingBuffer A) (w0 w1 : WsaBuf)
      → get_free_size r ≡ 0
      → (get_enqueue_segments r w0 w1).0 ≡ 0
  unfolding get_enqueue_segments
  segments_full r w0 w1 h = rw h refl

  pub segments_free :
      (r : RingBuffer A) (w0 w1 : WsaBuf)
      → 0 < get_free_size r
      → ((get_enqueue_segments r w0 w1).0 == 0) ≡ false
  unfolding get_enqueue_segments
  segments_free r w0 w1 h = ground (arith, h)

  -- `MoveRear` keeps a ring well formed, whatever the number is.
  pub move_rear-IsValid : {r : RingBuffer A} (size : ℕ) → IsValid r → IsValid (move_rear r size).1
  unfolding move_rear
  move_rear-IsValid {r} size v = elim (Bool-cases (ltb (get_free_size r) size)) [
    | inl more ↦ rw more v
    | inr fits ↦
        rw fits (record {
          storage = v.storage;
          front_in = v.front_in;
          rear_in = omega (arith, v.front_in);
        })
  ]

  -- On a well-formed ring with an item, `GetDequeueSegments` returns one or two buffers that start
  -- at the front, stay inside the storage and are as long together as there are items; a second one
  -- starts at the first cell, behind a first one that ends at the last cell, and ends at or before
  -- the front.
  pub get_dequeue_segments-Covers :
      {r : RingBuffer A} (w0 w1 : WsaBuf)
      → IsValid r
      → 0 < get_use_size r
      → let (n, v0, v1) = get_dequeue_segments r w0 w1 in
        Covers r.buffer_size r.front (get_use_size r) n v0 v1
  unfolding get_dequeue_segments direct_dequeue_size
  get_dequeue_segments-Covers {r} w0 w1 v h = ground (arith, get_use_size_lem v)

-- The cells `[i, i + n)` lie outside the buffer.
abbrev pub Apart : ℕ → ℕ → WsaBuf → Type 0
Apart i n w = (o : ℕ) → w.buf ≡ some o → (i + n ≤ o) ⊎ (o + w.len ≤ i)

-- What `WSARecv` documents of the storage it leaves: the bytes fill the buffers in the order given,
-- and nothing outside the buffers is written.
pub record Received {A : Type 0} (old : List A) (w0 w1 : WsaBuf) (xs new : List A) : Type 0 where
  pub storage : length new ≡ length old
  pub outside : (i n : ℕ) → Apart i n w0 → Apart i n w1 → slice new i n ≡ slice old i n
  pub first : (o : ℕ) → w0.buf ≡ some o → slice new o (min w0.len (length xs)) ≡ take w0.len xs
  pub second : (o : ℕ) → w1.buf ≡ some o → slice new o (length xs - w0.len) ≡ drop w0.len xs

module _ {A : Type 0} {r : RingBuffer A} {n : ℕ} {w0 w1 : WsaBuf} {xs new : List A} (v : IsValid r)
    (c : Covers r.buffer_size r.rear (get_free_size r) n w0 w1) (d : Received r.buffer w0 w1 xs new)
    (h : length xs ≤ get_free_size r) where
  Apart-first : (i k : ℕ) → (i + k ≤ r.rear) ⊎ (r.rear + w0.len ≤ i) → Apart i k w0
  Apart-first i k p o e = ground (arith, c.first)

  Apart-second : (i k : ℕ) → (r.rear + w0.len ≡ r.buffer_size → w1.len ≤ i) → Apart i k w1
  Apart-second i k p o e = elim c.second [
    | inl (_, none', _) ↦ ground (arith, none')
    | inr (_, start, full, _) ↦ let q : w1.len ≤ i = p full in ground (arith, start)
  ]

  untouched :
      (i k : ℕ)
      → (i + k ≤ r.rear) ⊎ (r.rear + w0.len ≤ i)
      → (r.rear + w0.len ≡ r.buffer_size → w1.len ≤ i)
      → slice new i k ≡ slice r.buffer i k
  untouched i k p q = d.outside i k (Apart-first i k p) (Apart-second i k q)

  -- The items in use stay.
  kept :
      window new r.buffer_size r.front (get_use_size r)
      ≡ window r.buffer r.buffer_size r.front (get_use_size r)
  kept =
      let e : r.rear ≡ (r.front + get_use_size r) % r.buffer_size = rear_lem v in
      let f : get_use_size r + get_free_size r + 1 ≡ r.buffer_size =
        get_use_size-add-get_free_size v in
      elim (le_or_lt r.buffer_size (r.front + get_use_size r)) [
        | inl past ↦
            let e' : r.rear ≡ r.front + get_use_size r - r.buffer_size =
              e
              ∙ mod-above (r.front + get_use_size r) r.buffer_size past
                  (omega (arith, v.front_in)) in
            rw
              (
                window_wrapped new r.buffer_size r.front (get_use_size r)
                    (omega (arith, v.front_in)) past,
                window_wrapped r.buffer r.buffer_size r.front (get_use_size r)
                    (omega (arith, v.front_in)) past,
              )
              (ap₂ ◌++◌
                (untouched r.front (r.buffer_size - r.front)
                  (inr (omega (arith, c.whole, v.front_in)))
                  (λ g. omega (arith, c.whole, v.front_in)))
                (untouched 0 (r.front + get_use_size r - r.buffer_size) (inl (omega arith))
                  (λ g. omega (arith, c.whole, v.front_in))))
        | inr before ↦
            let e' : r.rear ≡ r.front + get_use_size r =
              e ∙ mod-below (r.front + get_use_size r) r.buffer_size before in
            rw
              (
                window_flat new r.buffer_size r.front (get_use_size r) (omega arith),
                window_flat r.buffer r.buffer_size r.front (get_use_size r) (omega arith),
              )
              (untouched r.front (get_use_size r) (inl (omega arith)) (λ g. omega (arith, c.whole)))
      ]

  -- The bytes received stand behind the old rear.
  received_flat : r.rear + length xs ≤ r.buffer_size → slice new r.rear (length xs) ≡ xs
  received_flat flat =
      let short : length xs ≤ w0.len = omega (arith, c.second, c.whole, h) in
      let all_of : min w0.len (length xs) ≡ length xs = omega arith in
      (rw all_of at (d.first r.rear c.first)) ∙ take_all w0.len xs short

  received_over :
      r.buffer_size < r.rear + length xs
      → slice new r.rear (r.buffer_size - r.rear)
          ++ slice new 0 (r.rear + length xs - r.buffer_size)
        ≡ xs
  received_over over = elim c.second [
    | inl one ↦ absurd (omega (arith, one, c.whole, c.inside, h))
    | inr (_, start, full, _) ↦
        let to_end : r.buffer_size - r.rear ≡ w0.len = omega arith in
        let rest : r.rear + length xs - r.buffer_size ≡ length xs - w0.len = omega arith in
        let all_of : min w0.len (length xs) ≡ w0.len = omega arith in
        let e : slice new r.rear w0.len ≡ take w0.len xs = rw all_of at (d.first r.rear c.first) in
        rw (to_end, rest, e, d.second 0 start) (take-append_drop w0.len xs)
  ]

  received : window new r.buffer_size r.rear (length xs) ≡ xs
  received = elim (le_or_lt (r.rear + length xs) r.buffer_size) [
    | inl flat ↦ rw (window_flat new r.buffer_size r.rear (length xs) flat) (received_flat flat)
    | inr over ↦
        rw
          (window_wrapped new r.buffer_size r.rear (length xs) (omega (arith, v.rear_in))
            (omega arith))
          (received_over over)
  ]

  -- The ring once the system has written into it, and `MoveRear` by the number of bytes.
  abbrev filled : RingBuffer A
  filled = record r { buffer = new }

  moved-IsValid : IsValid (record filled { rear = (r.rear + length xs) % r.buffer_size })
  moved-IsValid = record {
    storage = d.storage ∙ v.storage;
    front_in = v.front_in;
    rear_in = omega (arith, v.front_in);
  }

  moved-Put : Put r xs (record filled { rear = (r.rear + length xs) % r.buffer_size })
  moved-Put =
      let used : get_use_size (record filled { rear = (r.rear + length xs) % r.buffer_size })
          ≡ get_use_size r + length xs =
        grown_use_size (length xs) v moved-IsValid refl refl refl h in
      record {
        valid = moved-IsValid;
        buffer_size = refl;
        items = rw (
          used,
          window-add new r.buffer_size r.front (get_use_size r) (length xs) v.front_in
              (omega (arith, get_use_size-add-get_free_size v)),
          ← rear_lem v,
          kept,
          received,
        );
        used = used;
        start = refl;
      }

  -- If a receive has written bytes into the two segments that cover the free cells of a well-formed
  -- ring, in their order and nowhere else, no more of them than there are free cells, then
  -- `MoveRear` by their number returns that number, keeps the ring well formed, and appends exactly
  -- those bytes to the ring's contents.
  pub move_rear-Put :
      ((move_rear filled (length xs)).0 ≡ length xs) × Put r xs (move_rear filled (length xs)).1
  unfolding move_rear get_free_size get_buffer_size get_use_size
  move_rear-Put = rw (le→ltb_false (get_free_size r) (length xs) h) (refl, moved-Put)
