-- ===== src/RingBuffer.antt =====
-- RingBuffer.h (projects/multithread-chat-server/Server/NetLib): a ring of `_bufferSize` cells, one
-- of which stays empty. The `int` sizes and indices are natural numbers here: no caller passes a
-- negative size, and `Bounds` shows that no index or size leaves its range. `memcpy` counts bytes: `Enqueue`,
-- `Dequeue` and `Peek` are for items of one byte, as the rings that they are called on have.
pub mod Bounds
pub mod Window
pub mod Put
pub mod Get
pub mod Segments
pub mod Queue
mod Examples
use game_programmer_portfoli.Base.{
  ℕ, ◌+◌, ◌-◌, ◌%◌, Bool, not, ◌||◌, Option, none, some, List, [], ◌++◌, length, get_elem?, set,
  take, blit, slice, ltb, leb, ◌==◌, if◌then◌else◌,
}

pub record RingBuffer {ℓ} (A : Type ℓ) : Type ℓ where
  pub buffer : List A
  pub buffer_size : ℕ
  pub front : ℕ
  pub rear : ℕ

-- A `WSABUF` over the ring's storage: the offset that `buf` points to (`none` for a null pointer)
-- and the length.
pub record WsaBuf : Type 0 where
  pub buf : Option ℕ
  pub len : ℕ

module _ {ℓ} {A : Type ℓ} where
  -- `RingBuffer(int iBufferSize)`; `new T[]` leaves the cells as `storage` has them.
  pub make : List A → ℕ → RingBuffer A
  make storage size = record { buffer = storage; buffer_size = size + 1; front = 0; rear = 0 }

  -- `Resize`: the old cells are deleted and `storage` is the new array (`new` does not return null).
  pub resize : RingBuffer A → List A → ℕ → RingBuffer A
  resize r storage size = record { buffer = storage; buffer_size = size + 1; front = 0; rear = 0 }

  unfoldable pub get_buffer_size : RingBuffer A → ℕ
  get_buffer_size r = r.buffer_size - 1

  -- `_rear - _front + _bufferSize`, whose sum is not negative, with the terms in another order.
  unfoldable pub get_use_size : RingBuffer A → ℕ
  get_use_size r = (r.rear + r.buffer_size - r.front) % r.buffer_size

  unfoldable pub get_free_size : RingBuffer A → ℕ
  get_free_size r = get_buffer_size r - get_use_size r

  -- One `memcpy` at the rear, and the move of the rear past it.
  put_chunk : RingBuffer A → List A → RingBuffer A
  put_chunk r chunk = record r {
    buffer = blit r.buffer r.rear chunk;
    rear = (r.rear + length chunk) % r.buffer_size;
  }

  -- The two copies of `Enqueue`, for the `n` cells that fit.
  enqueue_chunks : RingBuffer A → List A → ℕ → RingBuffer A
  unfolding put_chunk
  enqueue_chunks r src n =
      let to_end = r.buffer_size - r.rear in
      let first = if ltb n to_end then n else to_end in
      let r' = put_chunk r (take first src) in
      let remaining = n - first in
      if ltb 0 remaining then put_chunk r' (slice src first remaining) else r'

  -- `Enqueue(chpData, iSize)`: `none` is a null pointer, and the list is `chpData[0 .. iSize)`.
  pub enqueue : RingBuffer A → Option (List A) → ℕ × RingBuffer A
  enqueue r none = (0, r)
  enqueue r (some src) =
      let free = get_free_size r in
      let n = if ltb (length src) free then length src else free in
      if length src == 0 then (0, r) else (n, enqueue_chunks r src n)

  pub enqueue_item : RingBuffer A → A → ℕ × RingBuffer A
  enqueue_item r item =
      if ltb (get_free_size r) 1
      then (0, r)
      else (1, record r { buffer = set r.buffer r.rear item; rear = (r.rear + 1) % r.buffer_size })

  -- One `memcpy` from the front, and the move of the front past it.
  take_chunk : RingBuffer A → ℕ → List A × RingBuffer A
  take_chunk r n = (slice r.buffer r.front n, record r { front = (r.front + n) % r.buffer_size })

  -- The two copies of `Dequeue`, for the `n` cells that are there.
  dequeue_chunks : RingBuffer A → ℕ → List A × RingBuffer A
  unfolding take_chunk
  dequeue_chunks r n =
      let to_end = r.buffer_size - r.front in
      let first = if ltb to_end n then to_end else n in
      let (xs, r') = take_chunk r first in
      let remaining = n - first in
      let (ys, r'') = take_chunk r' remaining in
      if ltb 0 remaining then (xs ++ ys, r'') else (xs, r')

  -- `Dequeue(chpDest, iSize)`: the number returned, what `chpDest` receives and the ring.
  -- `dest` is false for a null pointer.
  pub dequeue : RingBuffer A → Bool → ℕ → ℕ × List A × RingBuffer A
  dequeue r dest size =
      let used = get_use_size r in
      let n = if ltb size used then size else used in
      let (xs, r') = dequeue_chunks r n in
      if not dest || (size == 0) then (0, [], r) else (n, xs, r')

  -- `none` is the return value false.
  pub dequeue_item : RingBuffer A → Option A × RingBuffer A
  dequeue_item r =
      if leb (get_use_size r) 0
      then (none, r)
      else (get_elem? r.buffer r.front, record r { front = (r.front + 1) % r.buffer_size })

  -- The two copies of `Peek`.
  peek_chunks : RingBuffer A → ℕ → List A
  peek_chunks r n =
      let to_end = r.buffer_size - r.front in
      let first = if ltb to_end n then to_end else n in
      let remaining = n - first in
      let xs = slice r.buffer r.front first in
      if ltb 0 remaining then xs ++ slice r.buffer 0 remaining else xs

  pub peek : RingBuffer A → Bool → ℕ → ℕ × List A
  peek r dest size =
      let used = get_use_size r in
      let n = if ltb size used then size else used in
      if not dest || (size == 0) then (0, []) else (n, peek_chunks r n)

  pub clear_buffer : RingBuffer A → RingBuffer A
  clear_buffer r = record r { front = 0; rear = 0 }

  pub direct_enqueue_size : RingBuffer A → ℕ
  direct_enqueue_size r =
      if get_free_size r == 0
      then 0
      else if leb r.front r.rear
      then (if r.front == 0
          then r.buffer_size - r.rear - 1
          else if ltb r.rear r.front
          then r.front - r.rear - 1
          else r.buffer_size - r.rear)
      else r.front - r.rear - 1

  pub direct_dequeue_size : RingBuffer A → ℕ
  direct_dequeue_size r =
      if get_use_size r == 0
      then 0
      else if ltb r.front r.rear
      then r.rear - r.front
      else r.buffer_size - r.front

  unfoldable pub move_rear : RingBuffer A → ℕ → ℕ × RingBuffer A
  move_rear r size =
      if ltb (get_free_size r) size
      then (0, r)
      else (size, record r { rear = (r.rear + size) % r.buffer_size })

  pub move_front : RingBuffer A → ℕ → ℕ × RingBuffer A
  move_front r size =
      if ltb (get_use_size r) size
      then (0, r)
      else (size, record r { front = (r.front + size) % r.buffer_size })

  -- `GetEnqueueSegments` over the `WSABUF` pair that the caller passes: the number of buffers to
  -- use, and the pair.
  pub get_enqueue_segments : RingBuffer A → WsaBuf → WsaBuf → ℕ × WsaBuf × WsaBuf
  get_enqueue_segments r w0 w1 =
      let free = get_free_size r in
      let direct = direct_enqueue_size r in
      let len0 = if ltb free direct then free else direct in
      let len1 = free - len0 in
      let w0' : WsaBuf = record { buf = some r.rear; len = len0 } in
      if leb free 0
      then (0, record w0 { len = 0 }, record w1 { len = 0 })
      else if ltb 0 len1
      then (2, w0', record { buf = some 0; len = len1 })
      else (1, w0', record { buf = none; len = 0 })

  -- `GetDequeueSegments` of a ring of bytes.
  pub get_dequeue_segments : RingBuffer A → WsaBuf → WsaBuf → ℕ × WsaBuf × WsaBuf
  get_dequeue_segments r w0 w1 =
      let used = get_use_size r in
      let direct = direct_dequeue_size r in
      let len0 = if ltb used direct then used else direct in
      let len1 = used - len0 in
      let w0' : WsaBuf = record { buf = some r.front; len = len0 } in
      if leb used 0
      then (0, record w0 { len = 0 }, record w1 { len = 0 })
      else if ltb 0 len1
      then (2, w0', record { buf = some 0; len = len1 })
      else (1, w0', record { buf = none; len = 0 })
