-- ===== src/Chat/Swap.antt =====
-- The swap with the last player takes one occurrence out and keeps all the others.
use game_programmer_portfoli.Base.{
  one_if, count, ℕ, suc, ◌+◌, ◌-◌, ◌<◌, ◌≡◌, refl, ap, ◌∙◌, ◌⊎◌, inl, inr, none, some, List, [],
  ◌∷◌, length, set, length-set, ◌==◌, ==_iff, arith, Option-cases, Bool-cases,
}
use game_programmer_portfoli.Chat.{find_index, back, pop_back, erase_player}

count-pop_back :
    (q p : ℕ) (ps : List ℕ)
    → count q (pop_back (p ∷ ps)) + one_if (back (p ∷ ps) == q) ≡ count q (p ∷ ps)
unfolding count
count-pop_back q p [] = omega arith
count-pop_back q p (r ∷ rs) = omega (arith, count-pop_back q r rs)

find_index-cons :
    (p r : ℕ) (rs : List ℕ) (i : ℕ)
    → find_index p (r ∷ rs) ≡ some i
    → ((r ≡ p) × (i ≡ 0)) ⊎ ((r ≡ p → ⊥) × (j : ℕ) × (i ≡ suc j) × (find_index p rs ≡ some j))
find_index-cons p r rs i e = elim (Bool-cases (r == p)) [
  | inl same ↦ inl ((==_iff r p).0 same, ground (arith, same))
  | inr other ↦ elim (Option-cases (find_index p rs)) [
    | inl nothing ↦ absurd (ground (arith, other, nothing))
    | inr (j, found) ↦ inr (ground (arith, ==_iff r p), j, ground (arith, other, found), found)
  ]
]

-- Only the place of the first `p` changes, and the last element stays the last.
count-set_found :
    (q p : ℕ) (ps : List ℕ) (i v : ℕ)
    → find_index p ps ≡ some i
    → count q (set ps i v) + one_if (p == q) ≡ count q ps + one_if (v == q)
unfolding count
count-set_found q p [] i v e = cc
count-set_found q p (r ∷ rs) i v e = elim (find_index-cons p r rs i e) [
  | inl (same, first) ↦ rw (first, same) (omega arith)
  | inr (_, j, next, found) ↦ rw next (omega (arith, count-set_found q p rs j v found))
]

find_index-none : (p : ℕ) (ps : List ℕ) → find_index p ps ≡ none → count p ps ≡ 0
unfolding count
find_index-none p [] e = refl
find_index-none p (r ∷ rs) e = elim (Option-cases (find_index p rs)) [
  | inl nothing ↦ ground (arith, nothing, find_index-none p rs nothing)
  | inr (j, found) ↦ absurd (ground (arith, found))
]

back-cons : (r : ℕ) (ps : List ℕ) → 0 < length ps → back (r ∷ ps) ≡ back ps
back-cons r [] h = absurd (omega arith)
back-cons r (p ∷ ps) h = refl

-- The last element is written over, so it is still the last.
back-set :
    (p : ℕ) (ps : List ℕ) (i : ℕ) → find_index p ps ≡ some i → back (set ps i (back ps)) ≡ back ps
back-set p [] i e = cc
back-set p (r ∷ []) i e = elim (find_index-cons p r [] i e) [
  | inl (same, first) ↦ rw first
  | inr (_, j, next, found) ↦ rw next
]
back-set p (r ∷ s ∷ ss) i e = elim (find_index-cons p r (s ∷ ss) i e) [
  | inl (same, first) ↦ rw first
  | inr (_, j, next, found) ↦ rw next (
      back-cons r (set (s ∷ ss) j (back (s ∷ ss)))
        (omega (arith, length-set (s ∷ ss) j (back (s ∷ ss))))
      ∙ back-set p (s ∷ ss) j found)
]

count-pop_back_of :
    (q : ℕ) (ps : List ℕ)
    → 0 < length ps
    → count q (pop_back ps) + one_if (back ps == q) ≡ count q ps
count-pop_back_of q [] h = absurd (omega arith)
count-pop_back_of q (p ∷ ps) h = count-pop_back q p ps

find_index-length : (p : ℕ) (ps : List ℕ) (i : ℕ) → find_index p ps ≡ some i → 0 < length ps
find_index-length p [] i e = cc
find_index-length p (q ∷ qs) i e = omega arith

-- The swap with the last player and `pop_back` of `erasePlayerFromSector` take one occurrence of
-- the player out of the list if there is one, and keep every other player in it as often as before.
pub count-erase_player :
    (q p : ℕ) (ps : List ℕ) → count q (erase_player p ps) ≡ count q ps - one_if (p == q)
unfolding erase_player
count-erase_player q p ps = elim (Option-cases (find_index p ps)) [
  | inl nothing ↦
      rw (erase_player, nothing) (ground (arith, ==_iff p q, find_index-none p ps nothing))
  | inr (i, found) ↦
      let ys : List ℕ = set ps i (back ps) in
      let l : 0 < length ys =
        omega (arith, find_index-length p ps i found, length-set ps i (back ps)) in
      rw (erase_player, found)
        (omega (
          arith,
          count-pop_back_of q ys l,
          ap (λ b. one_if (b == q)) (back-set p ps i found),
          count-set_found q p ps i (back ps) found,
        ))
]
