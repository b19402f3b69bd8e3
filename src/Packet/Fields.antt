-- ===== src/Packet/Fields.antt =====
-- Integers written with `<<` come back with `>>`, in order.
use game_programmer_portfoli.Base.{
  ℕ, ◌+◌, ◌^◌, ◌≤◌, ◌<◌, ◌≡◌, refl, sym, ap, ◌∙◌, inl, inr, List, [], ◌∷◌, ◌++◌, Option, some,
  length, take, drop, map, arith, append_assoc, append-nil, length-append, take-append, drop-append,
}
use game_programmer_portfoli.Packet.{Packet, buffer_default, put_value, get_value, put_int, get_int}
use game_programmer_portfoli.Packet.Bounds.{IsValid, put_value-IsValid}
use game_programmer_portfoli.Packet.Bytes.{
  to_bytes, from_bytes, length-to_bytes, from_bytes-to_bytes,
}
use game_programmer_portfoli.Packet.Unread.{unread, put_value_lem, get_value_lem}

-- An unsigned integer of a width in bytes.
pub record Field : Type 0 where
  pub width : ℕ
  pub value : ℕ

pub put_fields : Packet → List Field → Packet
put_fields p [] = p
put_fields p (f ∷ fs) = put_fields (put_int p f.width f.value) fs

pub get_fields : Packet → List ℕ → List (Option ℕ)
get_fields p [] = []
get_fields p (n ∷ ns) = let (v, q) = get_int p n in v ∷ get_fields q ns

unfoldable pub AllFit : List Field → Type 0
AllFit [] = Unit
AllFit (f ∷ fs) = (f.value < 256 ^ f.width) × AllFit fs

unfoldable pub image : List Field → List ℕ
image [] = []
image (f ∷ fs) = to_bytes f.width f.value ++ image fs

put_value-size :
    (p : Packet) (bs : List ℕ)
    → p.data_size + length bs ≤ buffer_default
    → (put_value p bs).data_size ≡ p.data_size + length bs
unfolding put_value
put_value-size p bs h = ground arith

put_fields_lem :
    (fs : List Field) (p : Packet)
    → IsValid p
    → p.data_size + length (image fs) ≤ buffer_default
    → IsValid (put_fields p fs) × (unread (put_fields p fs) ≡ unread p ++ image fs)
unfolding put_fields image put_int
put_fields_lem [] p v h = (v, sym (append-nil (unread p)))
put_fields_lem (f ∷ fs) p v h =
    let bs : List ℕ = to_bytes f.width f.value in
    let l : length (bs ++ image fs) ≡ length bs + length (image fs) = length-append bs (image fs) in
    let fits : p.data_size + length bs ≤ buffer_default = omega arith in
    let (w, e) =
      put_fields_lem fs (put_value p bs) (put_value-IsValid bs v)
        (omega (arith, put_value-size p bs fits)) in
    (
      w,
      e
          ∙ ap (λ xs. xs ++ image fs) (put_value-fits bs v fits)
          ∙ append_assoc (unread p) bs (image fs),
    )
  where
    put_value-fits :
        {p : Packet} (bs : List ℕ)
        → IsValid p
        → p.data_size + length bs ≤ buffer_default
        → unread (put_value p bs) ≡ unread p ++ bs
    put_value-fits bs v h = elim (put_value_lem bs v) [
      | inl (_, e) ↦ e
      | inr (over, _) ↦ absurd (omega arith)
    ]

get_value-IsValid : {p : Packet} (n : ℕ) → IsValid p → IsValid (get_value p n).1
unfolding get_value
get_value-IsValid n v = ground arith

pub get_int-there :
    (p : Packet) (n : ℕ) (bs : List ℕ)
    → (get_value p n).0 ≡ some bs
    → get_int p n ≡ (some (from_bytes bs), (get_value p n).1)
unfolding get_int
get_int-there p n bs e = rw (get_int, e)

get_fields_lem :
    (fs : List Field) (p : Packet)
    → IsValid p
    → AllFit fs
    → unread p ≡ image fs
    → get_fields p (map (λ f. f.width) fs) ≡ map (λ f. some f.value) fs
unfolding get_fields image AllFit
get_fields_lem [] p v h e = refl
get_fields_lem (f ∷ fs) p v h e =
    let bs : List ℕ = to_bytes f.width f.value in
    let n : length bs ≡ f.width = length-to_bytes f.width f.value in
    let front : take f.width (unread p) ≡ bs =
      ap (take f.width) e ∙ ap (λ k. take k (bs ++ image fs)) (sym n) ∙ take-append bs (image fs) in
    let back : drop f.width (unread p) ≡ image fs =
      ap (drop f.width) e ∙ ap (λ k. drop k (bs ++ image fs)) (sym n) ∙ drop-append bs (image fs) in
    let long : f.width ≤ length (unread p) =
      omega (arith, n, ap length e, length-append bs (image fs)) in
    let (got, left) = get_value-there f.width v long in
    let value : (get_value p f.width).0 ≡ some bs = got ∙ ap some front in
    let rest : get_fields (get_value p f.width).1 (map (λ f. f.width) fs)
        ≡ map (λ f. some f.value) fs =
      get_fields_lem fs (get_value p f.width).1 (get_value-IsValid f.width v) h.1 (left ∙ back) in
    rw (get_fields, get_int-there p f.width bs value, from_bytes-to_bytes f.width f.value h.0)
      (ap (◌∷◌ (some f.value)) rest)
  where
    get_value-there :
        {p : Packet} (n : ℕ)
        → IsValid p
        → n ≤ length (unread p)
        → ((get_value p n).0 ≡ some (take n (unread p)))
          × (unread (get_value p n).1 ≡ drop n (unread p))
    get_value-there n v h = elim (get_value_lem n v) [
      | inl (_, e, l) ↦ (e, l)
      | inr (short, _) ↦ absurd (omega arith)
    ]

-- Unsigned integers that fit their widths, written with `<<` into a valid packet that has nothing
-- left to read and room for all of them, are read back with `>>` at the same widths, in the same
-- order.
pub get_fields-put_fields :
    (fs : List Field) (p : Packet)
    → IsValid p
    → unread p ≡ []
    → AllFit fs
    → p.data_size + length (image fs) ≤ buffer_default
    → get_fields (put_fields p fs) (map (λ f. f.width) fs) ≡ map (λ f. some f.value) fs
get_fields-put_fields fs p v e fit room =
    let (w, u) = put_fields_lem fs p v room in
    get_fields_lem fs (put_fields p fs) w fit (u ∙ ap (λ xs. xs ++ image fs) e)
