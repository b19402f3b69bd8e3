-- ===== src/LockFreeQueue/Chain.antt =====
-- The chain of nodes from the head on, when its nodes change.
use game_programmer_portfoli.Base.{
  some-injective, ℕ, ◌≤◌, ◌≡◌, inl, inr, sym, ap, subst, ◌∙◌, Option, none, some, List, [], ◌∷◌,
  ◌++◌, ◌==◌, arith, count, one_if, same, ==_iff, Bool-cases,
}
use game_programmer_portfoli.LockFreeQueue.{Node}
use game_programmer_portfoli.LockFreeQueue.Invariant.{Links, Values, next_of, value_of}

module _ {T : Type 0} (nodes nodes' : ℕ → Option (Node T)) where
  abbrev pub KeepsNext : Type 0
  KeepsNext = (i m : ℕ) → next_of (nodes i) ≡ some (some m) → next_of (nodes' i) ≡ some (some m)

  abbrev pub KeepsValue : Type 0
  KeepsValue = (i : ℕ) (v : T) → value_of (nodes i) ≡ some v → value_of (nodes' i) ≡ some v

  pub Values-kept :
      (ms : List ℕ) (vs : List T) → KeepsValue → Values nodes ms vs → Values nodes' ms vs
  Values-kept [] [] k e = tt
  Values-kept [] (v ∷ vs) k e = absurd e
  Values-kept (m ∷ ms) [] k e = absurd e
  Values-kept (m ∷ ms) (v ∷ vs) k (e, r) = (k m v e, Values-kept ms vs k r)

  pub Values-append :
      (ms : List ℕ) (vs : List T) (n : ℕ) (v : T)
      → KeepsValue
      → Values nodes ms vs
      → value_of (nodes' n) ≡ some v
      → Values nodes' (ms ++ (n ∷ [])) (vs ++ (v ∷ []))
  Values-append [] [] n v k e d = (d, tt)
  Values-append [] (w ∷ vs) n v k e d = absurd e
  Values-append (m ∷ ms) [] n v k e d = absurd e
  Values-append (m ∷ ms) (w ∷ vs) n v k (e, r) d = (k m w e, Values-append ms vs n v k r d)

  -- The last node is linked to a new one.
  pub Links-append :
      (h : ℕ) (ms : List ℕ) (tail n : ℕ)
      → KeepsNext
      → next_of (nodes tail) ≡ some none
      → next_of (nodes' tail) ≡ some (some n)
      → next_of (nodes' n) ≡ some none
      → 1 ≤ count tail (h ∷ ms)
      → Links nodes h ms
      → Links nodes' h (ms ++ (n ∷ []))
  unfolding count
  Links-append h [] tail n k e f z c l = elim (Bool-cases (h == tail)) [
    | inl d ↦ (subst (λ x. next_of (nodes' x) ≡ some (some n)) (sym ((==_iff h tail).0 d)) f, z)
    | inr d ↦ absurd (omega (arith, c, ap one_if d))
  ]
  Links-append h (m ∷ ms) tail n k e f z c (l, r) = elim (Bool-cases (h == tail)) [
    | inl d ↦
        let no_next = subst (λ x. next_of (nodes x) ≡ some (some m)) ((==_iff h tail).0 d) l in
        absurd (ground (arith, no_next, e))
    | inr d ↦ (k h m l, Links-append m ms tail n k e f z (omega (arith, c, ap one_if d)) r)
  ]

  -- A change at a node that is not in the chain.
  pub Links-kept :
      (h : ℕ) (ms : List ℕ)
      → ((i : ℕ) → 1 ≤ count i (h ∷ ms) → nodes' i ≡ nodes i)
      → Links nodes h ms
      → Links nodes' h ms
  unfolding count
  Links-kept h [] k l = rw (k h (omega (arith, ap one_if (same h)))) l
  Links-kept h (m ∷ ms) k (l, r) = (
    rw (k h (omega (arith, ap one_if (same h)))) l,
    Links-kept m ms (λ i c. k i (omega (arith, c))) r,
  )

  pub Values-same :
      (ms : List ℕ) (vs : List T)
      → ((i : ℕ) → 1 ≤ count i ms → nodes' i ≡ nodes i)
      → Values nodes ms vs
      → Values nodes' ms vs
  unfolding count
  Values-same [] [] k e = tt
  Values-same [] (v ∷ vs) k e = absurd e
  Values-same (m ∷ ms) [] k e = absurd e
  Values-same (m ∷ ms) (v ∷ vs) k (e, r) = (
    rw (k m (omega (arith, ap one_if (same m)))) e,
    Values-same ms vs (λ i c. k i (omega (arith, c))) r,
  )

-- The node after a node of the chain is in it, behind the head.
pub count-next :
    {T : Type 0} (nodes : ℕ → Option (Node T)) (h : ℕ) (ms : List ℕ) (n m : ℕ)
    → Links nodes h ms
    → 1 ≤ count n (h ∷ ms)
    → next_of (nodes n) ≡ some (some m)
    → 1 ≤ count m ms
unfolding count
count-next nodes h [] n m l c e = elim (Bool-cases (h == n)) [
  | inl d ↦
      let no_next = subst (λ x. next_of (nodes x) ≡ some none) ((==_iff h n).0 d) l in
      absurd (ground (arith, no_next, e))
  | inr d ↦ absurd (omega (arith, c, ap one_if d))
]
count-next nodes h (k ∷ ms) n m (l, r) c e = elim (Bool-cases (h == n)) [
  | inl d ↦
      let its_next = subst (λ x. next_of (nodes x) ≡ some (some k)) ((==_iff h n).0 d) l in
      let k_is = some-injective (some-injective (sym its_next ∙ e)) in
      omega (arith, ap one_if ((==_iff k m).1 k_is))
  | inr d ↦
      let behind = count-next nodes k ms n m r (omega (arith, c, ap one_if d)) e in
      omega (arith, behind)
]

-- The node behind the head.
pub Links-first :
    {T : Type 0} (nodes : ℕ → Option (Node T)) (h : ℕ) (ms : List ℕ) (m : ℕ)
    → Links nodes h ms
    → next_of (nodes h) ≡ some (some m)
    → (rest : List ℕ) × ((ms ≡ m ∷ rest) × Links nodes m rest)
Links-first nodes h [] m l e = absurd (ground (arith, l, e))
Links-first nodes h (k ∷ ms) m (l, r) e =
    let k_is = some-injective (some-injective (sym l ∙ e)) in
    (ms, (ap (λ x. x ∷ ms) k_is, subst (λ x. Links nodes x ms) k_is r))

pub Values-first :
    {T : Type 0} (nodes : ℕ → Option (Node T)) (m : ℕ) (ms : List ℕ) (vs : List T) (v : T)
    → Values nodes (m ∷ ms) vs
    → value_of (nodes m) ≡ some v
    → (rest : List T) × ((vs ≡ v ∷ rest) × Values nodes ms rest)
Values-first nodes m ms [] v e d = absurd e
Values-first nodes m ms (w ∷ vs) v (e, r) d =
    (vs, (ap (λ x. x ∷ vs) (some-injective (sym e ∙ d)), r))
