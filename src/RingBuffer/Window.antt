-- ===== src/RingBuffer/Window.antt =====
-- The cells of a circular array from an index on, as a list in order.
use native.Mathlib.Decide.{dec_le}
use native.Mathlib.Nat.{zero-add}
use game_programmer_portfoli.Base.{
  ℕ, ◌+◌, ◌-◌, ◌%◌, ◌≤◌, ◌<◌, ◌≡◌, refl, ◌⊎◌, inl, inr, List, ◌++◌, append-nil, append_assoc,
  length, slice, leb, if◌then◌else◌, arith, length-append, length-slice, slice-add, mod-below,
  mod-above,
}

-- Up to the end of the storage and, if that is not enough, on from its start.
abbrev pub window {ℓ} : {A : Type ℓ} → List A → ℕ → ℕ → ℕ → List A
window buffer size i n =
    if leb (i + n) size
    then slice buffer i n
    else slice buffer i (size - i) ++ slice buffer 0 (i + n - size)

pub le_or_lt : (a b : ℕ) → (a ≤ b) ⊎ (b < a)
le_or_lt a b = elim (dec_le a b) [ yes h ↦ inl h | no h ↦ inr (omega arith) ]

module _ {A : Type 0} (buffer : List A) (size : ℕ) where
  pub window_flat : (i n : ℕ) → i + n ≤ size → window buffer size i n ≡ slice buffer i n
  window_flat i n h = ground arith

  pub window_wrapped :
      (i n : ℕ)
      → i ≤ size
      → size ≤ i + n
      → window buffer size i n ≡ slice buffer i (size - i) ++ slice buffer 0 (i + n - size)
  window_wrapped i n k h = elim (le_or_lt (i + n) size) [
    | inl e ↦
        let whole : size - i ≡ n = omega arith in
        let nothing : i + n - size ≡ 0 = omega arith in
        rw (window_flat i n e, whole, nothing, append-nil) refl
    | inr e ↦ ground arith
  ]

  pub length-window :
      (i n : ℕ) → length buffer ≡ size → i < size → n ≤ size → length (window buffer size i n) ≡ n
  length-window i n e h k = elim (le_or_lt (i + n) size) [
    | inl flat ↦ rw (window_flat i n flat) (length-slice buffer i n (omega arith))
    | inr over ↦ rw (window_wrapped i n (omega arith) (omega arith)) (
        omega (
          arith,
          length-append (slice buffer i (size - i)) (slice buffer 0 (i + n - size)),
          length-slice buffer i (size - i) (omega arith),
          length-slice buffer 0 (i + n - size) (omega arith),
        ))
  ]

  window-add_before :
      (i a b : ℕ)
      → i + a < size
      → a + b ≤ size
      → window buffer size i (a + b) ≡ window buffer size i a ++ window buffer size (i + a) b
  window-add_before i a b h k = elim (le_or_lt (i + (a + b)) size) [
    | inl flat ↦
        rw
          (
            window_flat i (a + b) flat,
            window_flat i a (omega arith),
            window_flat (i + a) b (omega arith),
          )
          (slice-add buffer i a b)
    | inr over ↦
        let split : size - i ≡ a + (size - (i + a)) = omega arith in
        let rest : i + (a + b) - size ≡ i + a + b - size = omega arith in
        rw
          (
            window_wrapped i (a + b) (omega arith) (omega arith),
            window_flat i a (omega arith),
            window_wrapped (i + a) b (omega arith) (omega arith),
            split,
            rest,
            slice-add buffer i a (size - (i + a)),
          )
          (rw append_assoc)
  ]

  window-add_past :
      (i a b : ℕ)
      → i < size
      → size ≤ i + a
      → a + b ≤ size
      → window buffer size i (a + b) ≡ window buffer size i a ++ window buffer size (i + a - size) b
  window-add_past i a b g h k =
      let split : i + (a + b) - size ≡ (i + a - size) + b = omega arith in
      rw
        (
          window_wrapped i (a + b) (omega arith) (omega arith),
          window_wrapped i a (omega arith) h,
          window_flat (i + a - size) b (omega arith),
          split,
          slice-add buffer 0 (i + a - size) b,
        )
        (rw (append_assoc, zero-add))

  -- A window is one window, and the one that starts where it ends.
  pub window-add :
      (i a b : ℕ)
      → i < size
      → a + b ≤ size
      → window buffer size i (a + b)
        ≡ window buffer size i a ++ window buffer size ((i + a) % size) b
  window-add i a b h k = elim (le_or_lt size (i + a)) [
    | inl past ↦ rw (mod-above (i + a) size past (omega arith)) (window-add_past i a b h past k)
    | inr before ↦ rw (mod-below (i + a) size before) (window-add_before i a b before k)
  ]
