-- ===== src/MemoryPoolTls/Shrink.antt =====
-- `Shrink` and the destructor: which nodes they delete.
use game_programmer_portfoli.Base.{
  ℕ, zero, suc, ◌+◌, ◌-◌, ◌≤◌, ◌<◌, ◌≡◌, refl, ◌∙◌, ◌⊎◌, inl, inr, true, false, Option, some, List,
  [], ◌∷◌, ◌++◌, length, is_null, min, leb, if◌then◌else◌, arith, weight, weight-append,
  length-take, length-append, take-append_drop, ap, append_assoc, Bool-cases, leb→le,
}
use game_programmer_portfoli.MemoryPoolTls.{
  MemoryPool, ThreadData, pop_from_global, destroy, destroy_threads,
}
use game_programmer_portfoli.MemoryPoolTls.Chains.{held_all, total, IsValid, pop_from_global_lem}
use game_programmer_portfoli.MemoryPoolTls.{shrink, shrink_loop, move_node_size, pop_shared}

null-length : (xs : List ℕ) → is_null xs ≡ true → length xs ≡ 0
null-length [] e = refl
null-length (x ∷ xs) e = ground arith

null_false-length : (xs : List ℕ) → is_null xs ≡ false → 1 ≤ length xs
null_false-length [] e = ground arith
null_false-length (x ∷ xs) e = omega arith

pub pop_from_global-length :
    (p : MemoryPool)
    → IsValid p
    → let (chain, q) = pop_from_global p in
      (length chain ≡ min move_node_size p.storage.count)
      × (q.storage.count + length chain ≡ p.storage.count)
unfolding pop_from_global pop_shared
pop_from_global-length p v = elim (Bool-cases (leb p.storage.count 0)) [
  | inl c ↦ rw c (ground arith, omega arith)
  | inr c ↦ elim (Bool-cases (is_null p.storage.top)) [
    | inl n ↦ absurd (ground (arith, null-length p.storage.top n, v.storage))
    | inr n ↦
        let k : ℕ =
          if leb move_node_size p.storage.count then move_node_size else p.storage.count in
        let l = length-take k p.storage.top in
        rw (c, n) (ground (arith, l, v.storage), ground (arith, l, v.storage))
  ]
]

-- It takes the chain off the front of the shared list, and leaves the threads alone.
pop_from_global-front :
    (p : MemoryPool)
    → let (chain, q) = pop_from_global p in
      (chain ++ q.storage.top ≡ p.storage.top) × (q.threads ≡ p.threads)
unfolding pop_from_global pop_shared
pop_from_global-front p = elim (Bool-cases (leb p.storage.count 0)) [
  | inl c ↦ rw c (refl, refl)
  | inr c ↦ elim (Bool-cases (is_null p.storage.top)) [
    | inl n ↦ rw (c, n) (refl, refl)
    | inr n ↦
        let k : ℕ =
          if leb move_node_size p.storage.count then move_node_size else p.storage.count in
        rw (c, n) (take-append_drop k p.storage.top, refl)
  ]
]

-- What the loop of `Shrink` answers at `deleted` nodes of `target`.
pub record Shrunk (target deleted : ℕ) (p : MemoryPool) (r : Option (ℕ × List ℕ × MemoryPool))
    : Type 0 where
  pub sum : ℕ
  pub gone : List ℕ
  pub left : MemoryPool
  pub result : r ≡ some (sum, gone, left)
  pub valid : IsValid left
  pub same_threads : left.threads ≡ p.threads
  pub front : gone ++ left.storage.top ≡ p.storage.top
  pub weighs : (w : ℕ → ℕ) → total w left + weight w gone ≡ total w p
  pub counts : sum ≡ deleted + length gone
  pub storage : left.storage.count + length gone ≡ p.storage.count
  pub enough : target ≤ sum
  pub not_more : (sum ≡ deleted) ⊎ (sum < target + move_node_size)
  pub same_alloc : left.alloc_count ≡ p.alloc_count
  pub same_use : left.use_count ≡ p.use_count

shrink_loop_lem :
    (fuel target deleted : ℕ) (p : MemoryPool)
    → target ≤ deleted + p.storage.count
    → target - deleted < fuel
    → IsValid p
    → Shrunk target deleted p (shrink_loop fuel target deleted p)
unfolding shrink_loop weight
shrink_loop_lem zero target deleted p a f v = absurd (omega arith)
shrink_loop_lem (suc fuel) target deleted p a b v =
    let (chain, q) = pop_from_global p in
    let l = pop_from_global-length p v in
    let k = pop_from_global_lem 0 p v in
    let f = pop_from_global-front p in
    elim (Bool-cases (leb target deleted)) [
      | inl c ↦ rw c record {
        sum = deleted;
        gone = [];
        left = p;
        result = refl;
        valid = v;
        same_threads = refl;
        front = refl;
        weighs = λ w. omega arith;
        counts = omega arith;
        storage = omega arith;
        enough = leb→le target deleted c;
        not_more = inl refl;
        same_alloc = refl;
        same_use = refl;
      }
      | inr c ↦ elim (Bool-cases (is_null chain)) [
        | inl n ↦ absurd (ground (arith, null-length chain n, l, c, a))
        | inr n ↦
            let s =
              shrink_loop_lem fuel target (deleted + length chain) q (omega (arith, l, a))
                (ground (arith, b, c, null_false-length chain n)) k.valid in
            rw (c, n)
              record {
                sum = s.sum;
                gone = chain ++ s.gone;
                left = s.left;
                result = rw (s.result) refl;
                valid = s.valid;
                same_threads = s.same_threads ∙ f.1;
                front =
                    append_assoc chain s.gone s.left.storage.top
                    ∙ ap (λ xs. chain ++ xs) s.front
                    ∙ f.0;
                weighs = λ w. omega (arith, s.weighs w, k.weighs w, weight-append w chain s.gone);
                counts = omega (arith, s.counts, length-append chain s.gone);
                storage = omega (arith, s.storage, l, length-append chain s.gone);
                enough = s.enough;
                not_more = inr (elim (s.not_more) [ inl e ↦ ground (arith, e, l, c) | inr h ↦ h ]);
                same_alloc = s.same_alloc ∙ k.same_alloc;
                same_use = s.same_use ∙ k.same_use;
              }
      ]
    ]

-- What `Shrink` answers: the number deleted, the nodes and the pool left.
pub record Shrank (p : MemoryPool) (r : Option (ℕ × List ℕ × MemoryPool)) : Type 0 where
  pub sum : ℕ
  pub gone : List ℕ
  pub left : MemoryPool
  pub result : r ≡ some (sum, gone, left)
  pub valid : IsValid left
  pub same_threads : left.threads ≡ p.threads
  pub front : gone ++ left.storage.top ≡ p.storage.top
  pub weighs : (w : ℕ → ℕ) → total w left + weight w gone ≡ total w p
  pub counts : sum ≡ length gone
  pub storage : left.storage.count + sum ≡ p.storage.count
  pub enough : p.storage.count - p.init_count ≤ sum
  pub not_more : (sum ≡ 0) ⊎ (sum < p.storage.count - p.init_count + move_node_size)
  pub alloc_count : left.alloc_count ≡ p.alloc_count - sum
  pub use_count : left.use_count ≡ p.use_count

-- On a pool whose counts are right, with more fuel than the shared list has nodes, `Shrink`
-- returns. The nodes that it deletes are the front of the shared list, of which it leaves the rest,
-- and the threads' lists stay as they are. It answers how many they are, keeps the counts right and
-- takes that number off `mAllocCount`; it is at least the number above `_initCount` in the shared
-- list, and unless it is 0, less than `MOVENODESIZE` more.
pub shrink-Shrank :
    (fuel : ℕ) (p : MemoryPool) → IsValid p → p.storage.count < fuel → Shrank p (shrink fuel p)
unfolding shrink weight
shrink-Shrank fuel p v h = elim (Bool-cases (leb p.storage.count p.init_count)) [
  | inl c ↦ rw c record {
    sum = 0;
    gone = [];
    left = p;
    result = refl;
    valid = v;
    same_threads = refl;
    front = refl;
    weighs = λ w. omega arith;
    counts = refl;
    storage = omega arith;
    enough = omega (arith, leb→le p.storage.count p.init_count c);
    not_more = inl refl;
    alloc_count = omega arith;
    use_count = refl;
  }
  | inr c ↦
      let s =
        shrink_loop_lem fuel (p.storage.count - p.init_count) 0 p (omega arith) (omega (arith, h))
          v in
      rw c record {
        sum = s.sum;
        gone = s.gone;
        left = record (s.left) { alloc_count = s.left.alloc_count - s.sum };
        result = rw (s.result) refl;
        valid = record { threads = s.valid.threads; storage = s.valid.storage };
        same_threads = s.same_threads;
        front = s.front;
        weighs = s.weighs;
        counts = omega (arith, s.counts);
        storage = omega (arith, s.storage, s.counts);
        enough = s.enough;
        not_more = s.not_more;
        alloc_count = omega (arith, s.same_alloc);
        use_count = s.same_use;
      }
]

destroy_threads-weight :
    (w : ℕ → ℕ) (ds : List ThreadData)
    → (weight w (destroy_threads ds).0 ≡ held_all w ds) × (held_all w (destroy_threads ds).1 ≡ 0)
unfolding destroy_threads weight held_all
destroy_threads-weight w [] = (refl, refl)
destroy_threads-weight w (d ∷ ds) =
    let gone = (destroy_threads ds).0 in
    let ih = destroy_threads-weight w ds in
    (
      omega (
        arith,
        weight-append w d.local.top (d.batch.top ++ gone),
        weight-append w d.batch.top gone,
        ih.0,
      ),
      omega (arith, ih.1),
    )

-- The destructor deletes each node of the pool as often as its lists hold it, by any weight of the
-- nodes, and leaves no node in them.
pub destroy-total :
    (w : ℕ → ℕ) (p : MemoryPool)
    → (weight w (destroy p).0 ≡ total w p) × (total w (destroy p).1 ≡ 0)
unfolding destroy weight
destroy-total w p =
    let ih = destroy_threads-weight w p.threads in
    (
      omega (arith, weight-append w (destroy_threads p.threads).0 p.storage.top, ih.0),
      omega (arith, ih.1),
    )
