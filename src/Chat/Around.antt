-- ===== src/Chat/Around.antt =====
-- Counting in concatenated lists, and the sectors around a sector.
use game_programmer_portfoli.Base.{
  count, count-append, ℕ, zero, suc, ◌+◌, ◌-◌, ◌*◌, ◌≤◌, ◌<◌, min, ◌≡◌, refl, sym, ap, ap₂,
  append_assoc, ◌∙◌, ◌⊎◌, inl, inr, Bool, List, [], ◌∷◌, ◌++◌, map, ◌&&◌, length, length-append,
  ◌==◌, ==_iff, leb, ltb, if◌then◌else◌, arith,
}
use game_programmer_portfoli.Chat.{upto, concat_map, sector_around, sector_cnt_x, sector_cnt_y}

-- `k` is one of `from, from + 1, ...`, `n` of them.
abbrev pub among : ℕ → ℕ → ℕ → Bool
among k from n = leb from k && ltb k (from + n)

-- A list that stands at one place of a range only is counted once if the range has that place.
pub count-concat_map :
    (f : ℕ → List ℕ) (q k c from n : ℕ)
    → ((i : ℕ) → from ≤ i → i < from + n → count q (f i) ≡ (if i == k then c else 0))
    → count q (concat_map f (upto from n)) ≡ (if among k from n then c else 0)
unfolding count
count-concat_map f q k c from zero h = ground arith
count-concat_map f q k c from (suc n) h = ground (
  arith,
  count-append q (f from) (concat_map f (upto (suc from) n)),
  h from (omega arith) (omega arith),
  count-concat_map f q k c (suc from) n (λ i lo hi. h i (omega arith) (omega arith)),
  ==_iff from k,
)

-- The two loops of the table as loops over what is done in each sector.
concat_map-append :
    {A B : Type 0} (f : A → List B) (xs ys : List A)
    → concat_map f (xs ++ ys) ≡ concat_map f xs ++ concat_map f ys
concat_map-append f [] ys = refl
concat_map-append f (x ∷ xs) ys =
    rw (concat_map-append f xs ys) (sym (append_assoc (f x) (concat_map f xs) (concat_map f ys)))

concat_map-map :
    {A B C : Type 0} (f : B → List C) (g : A → B) (xs : List A)
    → concat_map f (map g xs) ≡ concat_map (λ x. f (g x)) xs
concat_map-map f g [] = refl
concat_map-map f g (x ∷ xs) = ap (◌++◌ (f (g x))) (concat_map-map f g xs)

concat_map-concat_map :
    {A B C : Type 0} (f : B → List C) (g : A → List B) (xs : List A)
    → concat_map f (concat_map g xs) ≡ concat_map (λ x. concat_map f (g x)) xs
concat_map-concat_map f g [] = refl
concat_map-concat_map f g (x ∷ xs) =
    concat_map-append f (g x) (concat_map g xs)
    ∙ ap (◌++◌ (concat_map f (g x))) (concat_map-concat_map f g xs)

-- The rows and the columns that the loops run over.
abbrev pub span : ℕ → ℕ → ℕ
span cnt x = min (cnt - 1) (x + 1) + 1 - (x - 1)

concat_map-sector_around_x :
    {C : Type 0} (f : ℕ × ℕ → List C) (x y : ℕ) (ys : List ℕ)
    → concat_map (λ sy. concat_map f (map (λ sx. (sx, sy)) (upto (x - 1) (span sector_cnt_x x)))) ys
      ≡ concat_map (λ sy. concat_map (λ sx. f (sx, sy)) (upto (x - 1) (span sector_cnt_x x))) ys
concat_map-sector_around_x f x y [] = refl
concat_map-sector_around_x f x y (sy ∷ ys) =
    ap₂ ◌++◌ (concat_map-map f (λ sx. (sx, sy)) (upto (x - 1) (span sector_cnt_x x)))
      (concat_map-sector_around_x f x y ys)

pub concat_map-sector_around :
    {C : Type 0} (f : ℕ × ℕ → List C) (x y : ℕ)
    → concat_map f (sector_around x y)
      ≡ concat_map
          (λ sy. concat_map (λ sx. f (sx, sy)) (upto (x - 1) (span sector_cnt_x x)))
          (upto (y - 1) (span sector_cnt_y y))
unfolding sector_around
concat_map-sector_around f x y =
    concat_map-concat_map f (λ sy. map (λ sx. (sx, sy)) (upto (x - 1) (span sector_cnt_x x)))
      (upto (y - 1) (span sector_cnt_y y))
    ∙ concat_map-sector_around_x f x y (upto (y - 1) (span sector_cnt_y y))

length-upto : (from n : ℕ) → length (upto from n) ≡ n
length-upto from zero = refl
length-upto from (suc n) = ap suc (length-upto (suc from) n)

length-map : {A B : Type 0} (g : A → B) (xs : List A) → length (map g xs) ≡ length xs
length-map g [] = refl
length-map g (x ∷ xs) = ap suc (length-map g xs)

length-rows :
    (g : ℕ → ℕ → ℕ × ℕ) (xs ys : List ℕ)
    → length (concat_map (λ y. map (g y) xs) ys) ≡ length ys * length xs
length-rows g xs [] = omega arith
length-rows g xs (y ∷ ys) =
    length-append (map (g y) xs) (concat_map (λ y. map (g y) xs) ys)
    ∙ ap₂ ◌+◌ (length-map (g y) xs) (length-rows g xs ys)
    ∙ omega arith

-- For each sector of the map, `initSectorAroundTable` fills in at least four and at most nine
-- positions, so that they fit `Around[9]`.
pub length-sector_around :
    (x y : ℕ)
    → x < sector_cnt_x
    → y < sector_cnt_y
    → (4 ≤ length (sector_around x y)) × (length (sector_around x y) ≤ 9)
unfolding sector_around
length-sector_around x y hx hy =
    let nx : (2 ≤ span sector_cnt_x x) × (span sector_cnt_x x ≤ 3) = (omega arith, omega arith) in
    let ny : (2 ≤ span sector_cnt_y y) × (span sector_cnt_y y ≤ 3) = (omega arith, omega arith) in
    let e : length (sector_around x y) ≡ span sector_cnt_y y * span sector_cnt_x x =
      length-rows (λ sy sx. (sx, sy)) (upto (x - 1) (span sector_cnt_x x))
        (upto (y - 1) (span sector_cnt_y y))
      ∙ ap₂ ◌*◌ (length-upto (y - 1) (span sector_cnt_y y))
          (length-upto (x - 1) (span sector_cnt_x x)) in
    product_bounds (span sector_cnt_y y) (span sector_cnt_x x) (length (sector_around x y)) ny nx e
  where
    product_bounds :
        (a b n : ℕ) → (2 ≤ a) × (a ≤ 3) → (2 ≤ b) × (b ≤ 3) → n ≡ a * b → (4 ≤ n) × (n ≤ 9)
    product_bounds a b n (la, ha) (lb, hb) e = elim (two_or_three a la ha) [
      | inl two ↦ let f : n ≡ 2 * b = e ∙ ap (λ k. k * b) two in (omega arith, omega arith)
      | inr three ↦ let f : n ≡ 3 * b = e ∙ ap (λ k. k * b) three in (omega arith, omega arith)
    ]
      where
        two_or_three : (a : ℕ) → 2 ≤ a → a ≤ 3 → (a ≡ 2) ⊎ (a ≡ 3)
        two_or_three a l h = omega arith
