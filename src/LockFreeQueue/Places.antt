-- ===== src/LockFreeQueue/Places.antt =====
-- What moving one node to another place does to the tests on places.
use game_programmer_portfoli.Base.{
  ℕ, ◌≤◌, ◌≡◌, ◌≢◌, inl, inr, refl, sym, ap, subst, ◌∙◌, Bool, true, false, List, ◌∷◌, ◌==◌, arith,
  count, one_if, same, differs, ==_iff, Bool-cases, not,
}
use game_programmer_portfoli.LockFreeQueue.{put}
use game_programmer_portfoli.LockFreeQueue.Invariant.{
  Place, is_left, is_used, is_made, is_taken, is_linked, is_free, free, made, linked, taken,
  retired,
}

pub made_is : (t : ℕ) (p : Place) → is_made t p ≡ true → p ≡ made t
made_is t free e = absurd (ground (arith, e))
made_is t (made u) e = ap made ((==_iff u t).0 e)
made_is t linked e = absurd (ground (arith, e))
made_is t (taken u) e = absurd (ground (arith, e))
made_is t retired e = absurd (ground (arith, e))

pub taken_is : (t : ℕ) (p : Place) → is_taken t p ≡ true → p ≡ taken t
taken_is t free e = absurd (ground (arith, e))
taken_is t (made u) e = absurd (ground (arith, e))
taken_is t linked e = absurd (ground (arith, e))
taken_is t (taken u) e = ap taken ((==_iff u t).0 e)
taken_is t retired e = absurd (ground (arith, e))

pub linked_is : (p : Place) → is_linked p ≡ true → p ≡ linked
linked_is free e = absurd (ground (arith, e))
linked_is (made u) e = absurd (ground (arith, e))
linked_is linked e = refl
linked_is (taken u) e = absurd (ground (arith, e))
linked_is retired e = absurd (ground (arith, e))

pub free_is : (p : Place) → not (is_free p) ≡ false → p ≡ free
free_is free e = refl
free_is (made u) e = absurd (ground (arith, e))
free_is linked e = absurd (ground (arith, e))
free_is (taken u) e = absurd (ground (arith, e))
free_is retired e = absurd (ground (arith, e))

-- A node that has been in the queue and has not left it is in it.
pub used_is : (p : Place) → is_used p ≡ true → is_left p ≡ false → is_linked p ≡ true
used_is p e f = ground (arith, e, f)

pub used_there : (p : Place) → is_used p ≡ true → not (is_free p) ≡ true
used_there p e = ground (arith, e)

pub left_used : (p : Place) → is_left p ≡ true → is_used p ≡ true
left_used p e = ground (arith, e)

pub count-head : (n : ℕ) (l : List ℕ) → 1 ≤ count n (n ∷ l)
unfolding count
count-head n l = omega (arith, ap one_if (same n))

module _ (f : Place → Bool) (place : ℕ → Place) (x : ℕ) (p : Place) where
  pub test-same : f (place x) ≡ f p → (n : ℕ) → f (put place x p n) ≡ f (place n)
  test-same e n = elim (Bool-cases (x == n)) [
    | inl d ↦ rw d (sym e ∙ ap (λ y. f (place y)) ((==_iff x n).0 d))
    | inr d ↦ rw d refl
  ]

  pub test-other : (n : ℕ) → x ≢ n → f (put place x p n) ≡ f (place n)
  test-other n e = rw (differs x n e) refl

  pub test-here : f (put place x p x) ≡ f p
  test-here = rw (same x) refl

  module _ (l : List ℕ) where
    pub count-same :
        f (place x) ≡ f p
        → ((n : ℕ) → count n l ≡ one_if (f (place n)))
        → (n : ℕ) → count n l ≡ one_if (f (put place x p n))
    count-same e c n = c n ∙ ap one_if (sym (test-same e n))

    pub count-more :
        f (place x) ≡ false
        → f p ≡ true
        → ((n : ℕ) → count n l ≡ one_if (f (place n)))
        → (n : ℕ) → count n (x ∷ l) ≡ one_if (f (put place x p n))
    unfolding count
    count-more e h c n = elim (Bool-cases (x == n)) [
      | inl d ↦
          let at_n = subst (λ y. f (place y) ≡ false) ((==_iff x n).0 d) e in
          rw d (omega (arith, c n, ap one_if at_n, ap one_if h))
      | inr d ↦ rw d (omega (arith, c n))
    ]

    pub count-fewer :
        f (place x) ≡ true
        → f p ≡ false
        → ((n : ℕ) → count n (x ∷ l) ≡ one_if (f (place n)))
        → (n : ℕ) → count n l ≡ one_if (f (put place x p n))
    unfolding count
    count-fewer e h c n = elim (Bool-cases (x == n)) [
      | inl d ↦
          let at_n = subst (λ y. f (place y) ≡ true) ((==_iff x n).0 d) e in
          rw d (omega (arith, c n, ap one_if at_n, ap one_if h, ap one_if d))
      | inr d ↦ rw d (omega (arith, c n, ap one_if d))
    ]
