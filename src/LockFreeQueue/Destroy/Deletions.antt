-- ===== src/LockFreeQueue/Destroy/Deletions.antt =====
-- What the loops of the destructor delete.
use game_programmer_portfoli.Base.{
  some-injective, one_if-le, ℕ, zero, suc, ◌+◌, ◌≤◌, ◌≡◌, ◌≢◌, refl, sym, ap, ◌∙◌, none, some, List,
  [], ◌∷◌, length, ◌==◌, arith, count, one_if, same, differs, ==_iff, Bool-cases, inl, inr,
  Option-cases, ltb,
}
use game_programmer_portfoli.LockFreeQueue.{put}
use game_programmer_portfoli.LockFreeQueue.Invariant.{Links, next_of, is_there}
use game_programmer_portfoli.LockFreeQueue.Chain.{Links-kept}
use game_programmer_portfoli.LockFreeQueue.Destroy.{Nodes, delete_all, delete_chain}

-- The memory without the nodes of a list.
pub record Deletes {T : Type 0} (list : List ℕ) (nodes nodes' : Nodes T) : Type 0 where
  pub gone : (n : ℕ) → 1 ≤ count n list → nodes' n ≡ none
  pub kept : (n : ℕ) → count n list ≡ 0 → nodes' n ≡ nodes n

Deletes-cons :
    {T : Type 0} (x : ℕ) (list : List ℕ) (nodes nodes' : Nodes T)
    → Deletes list (put nodes x none) nodes'
    → Deletes (x ∷ list) nodes nodes'
unfolding count
Deletes-cons x list nodes nodes' d = record {
  gone = λ n c. elim (Bool-cases (ltb 0 (count n list))) [
    | inl e ↦ d.gone n (ground (arith, e))
    | inr e ↦
        let absent : count n list ≡ 0 = ground (arith, e) in
        elim (Bool-cases (x == n)) [
          | inl i ↦ d.kept n absent ∙ rw i refl
          | inr i ↦ absurd (omega (arith, c, absent, ap one_if i))
        ]
  ];
  kept = λ n c. elim (Bool-cases (x == n)) [
    | inl i ↦ absurd (omega (arith, c, ap one_if i))
    | inr i ↦ d.kept n (omega (arith, c)) ∙ rw i refl
  ];
}

pub delete_all_lem :
    {T : Type 0} (list : List ℕ) (nodes : Nodes T)
    → ((n : ℕ) → count n list ≤ one_if (is_there (nodes n)))
    → (nodes' : Nodes T) × ((delete_all list nodes ≡ some nodes') × Deletes list nodes nodes')
unfolding delete_all count
delete_all_lem [] nodes h =
    (nodes, (refl, record { gone = λ n c. absurd (omega (arith, c)); kept = λ n c. refl }))
delete_all_lem (x ∷ list) nodes h = elim (Option-cases (nodes x)) [
  | inl e ↦ absurd (omega (arith, h x, ap one_if (same x), ap (λ o. one_if (is_there o)) e))
  | inr (k, e) ↦
      let rest = delete_all_lem list (put nodes x none) (λ n. elim (Bool-cases (x == n)) [
        | inl i ↦ rw i (omega (arith, h n, ap one_if i, one_if-le (is_there (nodes n))))
        | inr i ↦ rw i (omega (arith, h n, ap one_if i))
      ]) in
      (rest.0, (rw (e, rest.1.0) refl, Deletes-cons x list nodes rest.0 rest.1.1))
]

pub delete_chain_lem :
    {T : Type 0} (fuel h : ℕ) (rest : List ℕ) (nodes : Nodes T)
    → length rest + 2 ≤ fuel
    → Links nodes h rest
    → ((n : ℕ) → count n (h ∷ rest) ≤ 1)
    → (nodes' : Nodes T) × ((delete_chain fuel (some h) nodes ≡ some nodes')
        × Deletes (h ∷ rest) nodes nodes')
unfolding delete_chain count
delete_chain_lem zero h rest nodes f l c = absurd (omega (arith, f))
delete_chain_lem (suc zero) h rest nodes f l c = absurd (omega (arith, f))
delete_chain_lem (suc (suc fuel)) h [] nodes f l c = elim (Option-cases (nodes h)) [
  | inl e ↦ absurd (ground (arith, ap next_of e, l))
  | inr (k, e) ↦
      let last : k.next ≡ none = some-injective (sym (ap next_of e) ∙ l) in
      (
        put nodes h none,
        (
          rw (e, last) refl,
          Deletes-cons h [] nodes (put nodes h none)
              record { gone = λ n d. absurd (omega (arith, d)); kept = λ n d. refl },
        ),
      )
]
delete_chain_lem (suc (suc fuel)) h (m ∷ rest) nodes f (l, r) c = elim (Option-cases (nodes h)) [
  | inl e ↦ absurd (ground (arith, ap next_of e, l))
  | inr (k, e) ↦
      let its_next : k.next ≡ some m = some-injective (sym (ap next_of e) ∙ l) in
      let other : (n : ℕ) → 1 ≤ count n (m ∷ rest) → h ≢ n =
        λ n d i. omega (arith, c n, d, ap one_if ((==_iff h n).1 i)) in
      let tail =
        delete_chain_lem (suc fuel) m rest (put nodes h none) (omega (arith, f))
          (Links-kept nodes (put nodes h none) m rest (λ n d. rw (differs h n (other n d)) refl) r)
          (λ n. omega (arith, c n)) in
      (tail.0, (rw (e, its_next, tail.1.0) refl, Deletes-cons h (m ∷ rest) nodes tail.0 tail.1.1))
]
