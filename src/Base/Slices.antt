-- ===== src/Base/Slices.antt =====
-- How `memcpy` into an array shows in later copies out of it.
use Prim.Native.Nat.{ℕ, zero, suc, ◌+◌, ◌-◌, ◌≤◌, ◌<◌, min}
use mathlib.Core.Path.{◌≡◌, refl, ap, sym, ◌∙◌}
use mathlib.Core.List.{List, [], ◌∷◌, ◌++◌}
use mathlib.Core.Option.{some}
use native.Mathlib.Omega.{arith}
use game_programmer_portfoli.Base.Lists.{
  length, get_elem?, get_or, set, take, drop, blit, slice, take-nil, drop-nil, length-slice,
}

pub min-zero : (n : ℕ) → min 0 n ≡ 0
min-zero n = omega arith

module _ {ℓ} {A : Type ℓ} where
  pub take-min : (n : ℕ) (xs : List A) → take (min n (length xs)) xs ≡ take n xs
  take-min zero xs = rw (min-zero (length xs))
  take-min (suc n) [] = rw (take-nil (min (suc n) 0))
  take-min (suc n) (x ∷ xs) =
      let e : min (suc n) (suc (length xs)) ≡ suc (min n (length xs)) = omega arith in
      rw e (ap (◌∷◌ x) (take-min n xs))

  pub take-add : (a b : ℕ) (xs : List A) → take (a + b) xs ≡ take a xs ++ take b (drop a xs)
  take-add zero b xs = ap (λ n. take n xs) (omega arith)
  take-add (suc a) b [] = rw (take-nil (suc a + b), take-nil b)
  take-add (suc a) b (x ∷ xs) =
      let e : suc a + b ≡ suc (a + b) = omega arith in rw e (ap (◌∷◌ x) (take-add a b xs))

  pub drop-add : (a b : ℕ) (xs : List A) → drop (a + b) xs ≡ drop b (drop a xs)
  drop-add zero b xs = ap (λ n. drop n xs) (omega arith)
  drop-add (suc a) b [] = rw (drop-nil (suc a + b), drop-nil b)
  drop-add (suc a) b (x ∷ xs) =
      let e : suc a + b ≡ suc (a + b) = omega arith in rw e (drop-add a b xs)

  pub take_all : (n : ℕ) (xs : List A) → length xs ≤ n → take n xs ≡ xs
  take_all zero [] h = refl
  take_all zero (x ∷ xs) h = absurd (omega arith)
  take_all (suc n) [] h = refl
  take_all (suc n) (x ∷ xs) h = ap (◌∷◌ x) (take_all n xs (omega arith))

  pub drop_all : (n : ℕ) (xs : List A) → length xs ≤ n → drop n xs ≡ []
  drop_all zero [] h = refl
  drop_all zero (x ∷ xs) h = absurd (omega arith)
  drop_all (suc n) [] h = refl
  drop_all (suc n) (x ∷ xs) h = drop_all n xs (omega arith)

  pub take-append : (xs ys : List A) → take (length xs) (xs ++ ys) ≡ xs
  take-append [] ys = refl
  take-append (x ∷ xs) ys = ap (◌∷◌ x) (take-append xs ys)

  pub drop-append : (xs ys : List A) → drop (length xs) (xs ++ ys) ≡ ys
  drop-append [] ys = refl
  drop-append (x ∷ xs) ys = drop-append xs ys

  pub take-append_drop : (n : ℕ) (xs : List A) → take n xs ++ drop n xs ≡ xs
  take-append_drop zero xs = refl
  take-append_drop (suc n) [] = refl
  take-append_drop (suc n) (x ∷ xs) = ap (◌∷◌ x) (take-append_drop n xs)

  pub slice-add :
      (xs : List A) (i a b : ℕ) → slice xs i (a + b) ≡ slice xs i a ++ slice xs (i + a) b
  slice-add xs i a b = rw (drop-add i a xs) (take-add a b (drop i xs))

  pub slice-blit_before :
      (xs vs : List A) (i n j : ℕ) → i + n ≤ j → slice (blit xs j vs) i n ≡ slice xs i n
  slice-blit_before [] vs i n j h = refl
  slice-blit_before (x ∷ xs) vs zero zero j h = refl
  slice-blit_before (x ∷ xs) vs zero (suc n) zero h = absurd (omega arith)
  slice-blit_before (x ∷ xs) vs zero (suc n) (suc j) h =
      ap (◌∷◌ x) (slice-blit_before xs vs zero n j (omega arith))
  slice-blit_before (x ∷ xs) vs (suc i) n zero h = absurd (omega arith)
  slice-blit_before (x ∷ xs) vs (suc i) n (suc j) h = slice-blit_before xs vs i n j (omega arith)

  pub slice-blit_after :
      (xs vs : List A) (i n j : ℕ) → j + length vs ≤ i → slice (blit xs j vs) i n ≡ slice xs i n
  slice-blit_after [] vs i n j h = refl
  slice-blit_after (x ∷ xs) [] i n zero h = refl
  slice-blit_after (x ∷ xs) (v ∷ vs) zero n zero h = absurd (omega arith)
  slice-blit_after (x ∷ xs) (v ∷ vs) (suc i) n zero h =
      slice-blit_after xs vs i n zero (omega arith)
  slice-blit_after (x ∷ xs) vs zero n (suc j) h = absurd (omega arith)
  slice-blit_after (x ∷ xs) vs (suc i) n (suc j) h = slice-blit_after xs vs i n j (omega arith)

  pub slice-blit_self :
      (xs vs : List A) (j : ℕ) → j + length vs ≤ length xs → slice (blit xs j vs) j (length vs) ≡ vs
  slice-blit_self [] [] j h = take-nil 0
  slice-blit_self [] (v ∷ vs) j h = absurd (omega arith)
  slice-blit_self (x ∷ xs) [] zero h = refl
  slice-blit_self (x ∷ xs) (v ∷ vs) zero h = ap (◌∷◌ v) (slice-blit_self xs vs zero (omega arith))
  slice-blit_self (x ∷ xs) vs (suc j) h = slice-blit_self xs vs j (omega arith)

  -- A copy that starts where a slice ends makes it longer by what was copied.
  pub slice-blit_extend :
      (xs vs : List A) (i n : ℕ)
      → i + n + length vs ≤ length xs
      → slice (blit xs (i + n) vs) i (n + length vs) ≡ slice xs i n ++ vs
  slice-blit_extend xs vs i n h = rw (
    slice-add (blit xs (i + n) vs) i n (length vs),
    slice-blit_before xs vs i n (i + n) (omega arith),
    slice-blit_self xs vs (i + n) h,
  )

  pub blit_one : (xs : List A) (i : ℕ) (v : A) → blit xs i (v ∷ []) ≡ set xs i v
  blit_one [] i v = refl
  blit_one (x ∷ []) zero v = refl
  blit_one (x ∷ y ∷ xs) zero v = refl
  blit_one (x ∷ xs) (suc i) v = ap (◌∷◌ x) (blit_one xs i v)

  pub slice_one :
      (xs : List A) (i : ℕ)
      → i < length xs
      → (x : A) × (get_elem? xs i ≡ some x) × (slice xs i 1 ≡ x ∷ [])
  slice_one [] i h = absurd (omega arith)
  slice_one (x ∷ xs) zero h = (x, refl, refl)
  slice_one (x ∷ xs) (suc i) h = slice_one xs i (omega arith)

  slice_split :
      (xs : List A) (i k n : ℕ) → k ≤ n → slice xs i n ≡ slice xs i k ++ slice xs (i + k) (n - k)
  slice_split xs i k n h =
      let e : n ≡ k + (n - k) = omega arith in ap (slice xs i) e ∙ slice-add xs i k (n - k)

  pub take-slice :
      (xs : List A) (i k n : ℕ) → k ≤ n → i + n ≤ length xs → take k (slice xs i n) ≡ slice xs i k
  take-slice xs i k n h f =
      let l : length (slice xs i k) ≡ k = length-slice xs i k (omega arith) in
      ap (take k) (slice_split xs i k n h)
      ∙ ap (λ m. take m (slice xs i k ++ slice xs (i + k) (n - k))) (sym l)
      ∙ take-append (slice xs i k) (slice xs (i + k) (n - k))

  pub drop-slice :
      (xs : List A) (i k n : ℕ)
      → k ≤ n
      → i + n ≤ length xs
      → drop k (slice xs i n) ≡ slice xs (i + k) (n - k)
  drop-slice xs i k n h f =
      let l : length (slice xs i k) ≡ k = length-slice xs i k (omega arith) in
      ap (drop k) (slice_split xs i k n h)
      ∙ ap (λ m. drop m (slice xs i k ++ slice xs (i + k) (n - k))) (sym l)
      ∙ drop-append (slice xs i k) (slice xs (i + k) (n - k))

  pub append_cancel :
      (xs ys us ws : List A) → length xs ≡ length us → xs ++ ys ≡ us ++ ws → (xs ≡ us) × (ys ≡ ws)
  append_cancel xs ys us ws l e = (
    sym (take-append xs ys)
        ∙ ap (take (length xs)) e
        ∙ ap (λ n. take n (us ++ ws)) l
        ∙ take-append us ws,
    sym (drop-append xs ys)
        ∙ ap (drop (length xs)) e
        ∙ ap (λ n. drop n (us ++ ws)) l
        ∙ drop-append us ws,
  )

  pub slice_head :
      (xs : List A) (i n : ℕ) (a d : A) (ys : List A)
      → slice xs i (1 + n) ≡ a ∷ ys
      → length ys ≡ n
      → i + (1 + n) ≤ length xs
      → (get_or xs i d ≡ a) × (slice xs (i + 1) n ≡ ys)
  slice_head xs i n a d ys e l h =
      let (x, at, one) = slice_one xs i (omega arith) in
      let split : x ∷ [] ++ slice xs (i + 1) n ≡ a ∷ [] ++ ys =
        ap (λ zs. zs ++ slice xs (i + 1) n) (sym one) ∙ sym (slice-add xs i 1 n) ∙ e in
      let (f, g) = append_cancel (x ∷ []) (slice xs (i + 1) n) (a ∷ []) ys refl split in
      (get_or_at xs i d at ∙ ap (λ zs. get_or zs 0 d) f, g)
    where
      get_or_at :
          (xs : List A) (i : ℕ) {x : A} (d : A) → get_elem? xs i ≡ some x → get_or xs i d ≡ x
      get_or_at [] i d e = cc
      get_or_at (y ∷ ys) zero d e = cc
      get_or_at (y ∷ ys) (suc i) d e = get_or_at ys i d e
