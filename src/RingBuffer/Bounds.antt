-- ===== src/RingBuffer/Bounds.antt =====
-- The representation invariant of the ring, and the sizes that the functions compute from it.
use game_programmer_portfoli.Base.{
  ◌+◌, ◌-◌, ◌%◌, ◌<◌, ◌≡◌, length, ltb, if◌then◌else◌, arith, mod-below, mod-above,
}
use game_programmer_portfoli.RingBuffer.{RingBuffer, get_use_size, get_free_size, get_buffer_size}

module _ {A : Type 0} where
  pub record IsValid (r : RingBuffer A) : Type 0 where
    pub storage : length r.buffer ≡ r.buffer_size
    pub front_in : r.front < r.buffer_size
    pub rear_in : r.rear < r.buffer_size

  pub get_use_size_lem :
      {r : RingBuffer A}
      → IsValid r
      → get_use_size r
        ≡ (if ltb r.rear r.front then r.rear + r.buffer_size - r.front else r.rear - r.front)
  unfolding get_use_size
  get_use_size_lem {r} v = ground (
    arith,
    mod-below (r.rear + r.buffer_size - r.front) r.buffer_size,
    mod-above (r.rear + r.buffer_size - r.front) r.buffer_size,
  )

  pub get_use_size_bound : {r : RingBuffer A} → IsValid r → get_use_size r < r.buffer_size
  get_use_size_bound v = ground (arith, get_use_size_lem v)

  -- The cells in use and the free ones make up the capacity.
  pub get_use_size-add-get_free_size :
      {r : RingBuffer A} → IsValid r → get_use_size r + get_free_size r + 1 ≡ r.buffer_size
  unfolding get_free_size get_buffer_size
  get_use_size-add-get_free_size v = omega (arith, get_use_size_bound v)

  -- The rear lies as many cells past the front as are in use.
  pub rear_lem :
      {r : RingBuffer A} → IsValid r → r.rear ≡ (r.front + get_use_size r) % r.buffer_size
  rear_lem {r} v = ground (
    arith,
    get_use_size_lem v,
    mod-below (r.front + get_use_size r) r.buffer_size,
    mod-above (r.front + get_use_size r) r.buffer_size,
  )
