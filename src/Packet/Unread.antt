-- ===== src/Packet/Unread.antt =====
-- The bytes that a packet still has to read, as a queue.
use game_programmer_portfoli.Base.{
  ℕ, ◌+◌, ◌-◌, ◌≤◌, ◌<◌, min, ◌≡◌, refl, sym, ap, ◌∙◌, ◌⊎◌, inl, inr, ltb→lt, ltb_false→le, leb→le,
  List, ◌++◌, none, some, length, take, drop, blit, slice, leb, ltb, arith, append-nil,
  length-slice, slice-blit_extend, take-slice, drop-slice, take_all, Bool-cases,
}
use game_programmer_portfoli.Packet.{
  Packet, buffer_default, put_value, get_value, put_data, get_data,
}
use game_programmer_portfoli.Packet.Bounds.{IsValid}

abbrev pub unread : Packet → List ℕ
unread p = slice p.storage p.read_pos (p.data_size - p.read_pos)

pub length-unread : {p : Packet} → IsValid p → length (unread p) ≡ p.data_size - p.read_pos
length-unread {p} v =
    length-slice p.storage p.read_pos (p.data_size - p.read_pos)
      (omega (arith, v.storage, v.written, v.unread))

-- A copy behind the written bytes.
append_unread :
    {p : Packet} (bs : List ℕ)
    → IsValid p
    → p.data_size + length bs ≤ buffer_default
    → unread
        (record p { storage = blit p.storage p.data_size bs; data_size = p.data_size + length bs })
      ≡ unread p ++ bs
append_unread {p} bs v h =
    let i : ℕ = p.read_pos in
    let n : ℕ = p.data_size - p.read_pos in
    let start : p.data_size ≡ i + n = omega (arith, v.unread) in
    let total : p.data_size + length bs - p.read_pos ≡ n + length bs = omega (arith, v.unread) in
    ap (slice (blit p.storage p.data_size bs) i) total
    ∙ ap (λ j. slice (blit p.storage j bs) i (n + length bs)) start
    ∙ slice-blit_extend p.storage bs i n (omega (arith, v.storage, v.unread))

-- A copy of the next bytes, and the move past them.
front_unread :
    {p : Packet} (n : ℕ)
    → IsValid p
    → p.read_pos + n ≤ p.data_size
    → slice p.storage p.read_pos n ≡ take n (unread p)
front_unread {p} n v h = sym (
    take-slice p.storage p.read_pos n (p.data_size - p.read_pos) (omega arith)
      (omega (arith, v.storage, v.written)))

rest_unread :
    {p : Packet} (n : ℕ)
    → IsValid p
    → p.read_pos + n ≤ p.data_size
    → unread (record p { read_pos = p.read_pos + n }) ≡ drop n (unread p)
rest_unread {p} n v h =
    let e : p.data_size - (p.read_pos + n) ≡ p.data_size - p.read_pos - n = omega arith in
    ap (slice p.storage (p.read_pos + n)) e
    ∙ sym (
        drop-slice p.storage p.read_pos n (p.data_size - p.read_pos) (omega arith)
          (omega (arith, v.storage, v.written)))

-- `<<` on a valid packet either has room for the bytes of the value and appends all of them to
-- those that are still to be read, or has not and changes nothing.
pub put_value_lem :
    {p : Packet} (bs : List ℕ)
    → IsValid p
    → ((p.data_size + length bs ≤ buffer_default) × (unread (put_value p bs) ≡ unread p ++ bs))
      ⊎ ((buffer_default < p.data_size + length bs) × (put_value p bs ≡ p))
unfolding put_value
put_value_lem {p} bs v = elim (Bool-cases (ltb buffer_default (p.data_size + length bs))) [
  | inl over ↦ inr (ltb→lt _ _ over, rw over refl)
  | inr fits ↦ inl (ltb_false→le _ _ fits, rw fits (append_unread bs v (ltb_false→le _ _ fits)))
]

-- `>>` on a valid packet either has enough bytes still to be read, yields the first of them and
-- leaves the rest, or has not, yields nothing and changes nothing.
pub get_value_lem :
    {p : Packet} (n : ℕ)
    → IsValid p
    → ((n ≤ length (unread p))
        × ((get_value p n).0 ≡ some (take n (unread p)))
        × (unread (get_value p n).1 ≡ drop n (unread p)))
      ⊎ ((length (unread p) < n) × (get_value p n ≡ (none, p)))
unfolding get_value
get_value_lem {p} n v = elim (Bool-cases (ltb p.data_size (p.read_pos + n))) [
  | inl over ↦ inr (omega (arith, ltb→lt _ _ over, length-unread v), rw over refl)
  | inr fits ↦
      let h : p.read_pos + n ≤ p.data_size = ltb_false→le _ _ fits in
      inl (
        omega (arith, length-unread v),
        rw (fits, front_unread n v h) refl,
        rw fits (rest_unread n v h),
      )
]

-- `PutData` on a valid packet returns the smaller of the number of bytes given and the room left,
-- moves the write position by that number, and appends that many of the bytes to those that are
-- still to be read.
pub put_data_lem :
    {p : Packet} (bs : List ℕ)
    → IsValid p
    → let (n, q) = put_data p bs in
      (n ≡ min (length bs) (buffer_default - p.data_size))
      × (q.data_size ≡ p.data_size + n)
      × (unread q ≡ unread p ++ take n bs)
unfolding put_data
put_data_lem {p} bs v = elim (Bool-cases (ltb buffer_default (p.data_size + length bs))) [
  | inl over ↦
      let h : buffer_default < p.data_size + length bs = ltb→lt _ _ over in
      elim (Bool-cases (leb (buffer_default - p.data_size) 0)) [
        | inl full ↦
            let none_left : buffer_default - p.data_size ≤ 0 = leb→le _ _ full in
            rw (over, full) (omega arith, omega arith, sym (append-nil (unread p)))
        | inr room ↦
            let k : ℕ = buffer_default - p.data_size in
            let l : length (slice bs 0 k) ≡ k = length-slice bs 0 k (omega arith) in
            let fits : p.data_size + length (slice bs 0 k) ≤ buffer_default =
              omega (arith, v.written) in
            rw (over, room)
              (
                omega arith,
                refl,
                ap
                      (λ m. unread (record p {
                        storage = blit p.storage p.data_size (slice bs 0 k);
                        data_size = p.data_size + m;
                      }))
                      (sym l)
                    ∙ append_unread (slice bs 0 k) v fits,
              )
      ]
  | inr fits ↦
      let h : p.data_size + length bs ≤ buffer_default = ltb_false→le _ _ fits in
      let whole : take (length bs) bs ≡ bs = take_all (length bs) bs (omega arith) in
      rw fits (omega arith, refl, append_unread bs v h ∙ ap (◌++◌ (unread p)) (sym whole))
]

-- `GetData` on a valid packet returns the smaller of the number of bytes asked for and the number
-- still to be read, copies that many from the front of those, and leaves the rest of them to be
-- read.
pub get_data_lem :
    {p : Packet} (size : ℕ)
    → IsValid p
    → let (n, bs, q) = get_data p size in
      (n ≡ min size (length (unread p))) × (bs ≡ take n (unread p)) × (unread q ≡ drop n (unread p))
unfolding get_data
get_data_lem {p} size v =
    let l : length (unread p) ≡ p.data_size - p.read_pos = length-unread v in
    elim (Bool-cases (ltb p.data_size (p.read_pos + size))) [
      | inl over ↦
          let h : p.data_size < p.read_pos + size = ltb→lt _ _ over in
          elim (Bool-cases (leb (p.data_size - p.read_pos) 0)) [
            | inl empty ↦
                let none_left : p.data_size - p.read_pos ≤ 0 = leb→le _ _ empty in
                rw (over, empty) (omega arith, refl, refl)
            | inr more ↦
                let k : ℕ = p.data_size - p.read_pos in
                let inside : p.read_pos + k ≤ p.data_size = omega (arith, v.unread) in
                rw (over, more) (omega arith, front_unread k v inside, rest_unread k v inside)
          ]
      | inr fits ↦
          let h : p.read_pos + size ≤ p.data_size = ltb_false→le _ _ fits in
          rw fits (omega arith, front_unread size v h, rest_unread size v h)
    ]
