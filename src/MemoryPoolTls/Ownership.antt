-- ===== src/MemoryPoolTls/Ownership.antt =====
-- Which nodes are in use, over any sequence of the pool's calls.
use game_programmer_portfoli.Base.{
  ℕ, zero, suc, ◌+◌, ◌≤◌, ◌<◌, ◌≡◌, refl, sym, ap, subst, ◌∙◌, ◌⊎◌, inl, inr, Option, none, some,
  List, [], ◌∷◌, ◌++◌, length, replicate, length-replicate, ◌==◌, arith, count, count-append,
  one_if, weight, weight-length, weight-count, length-append, Option-cases,
}
use game_programmer_portfoli.MemoryPoolTls.{MemoryPool, ThreadData, no_data, get_thread_idx}
use game_programmer_portfoli.MemoryPoolTls.Chains.{held_all, total, AllCounted, IsValid}
use game_programmer_portfoli.MemoryPoolTls.{shrink, alloc, free, create}
use game_programmer_portfoli.MemoryPoolTls.Moves.{handed, alloc-Gave}
use game_programmer_portfoli.MemoryPoolTls.Shrink.{shrink-Shrank}
use game_programmer_portfoli.MemoryPoolTls.Reserve.{reserve_nodes_lem}
use game_programmer_portfoli.MemoryPoolTls.Freed.{free-Freed}

-- The pool and the nodes that its callers hold.
pub record World : Type 0 where
  pub pool : MemoryPool
  pub in_use : List ℕ

-- 1 at the node `n`.
abbrev pub is : ℕ → ℕ → ℕ
is n m = one_if (m == n)

-- How often a node is in the pool or in use.
abbrev pub places : World → ℕ → ℕ
places w n = total (is n) w.pool + count n w.in_use

-- The nodes are distinct and none of them is in the pool or in use: what `new` returns.
unfoldable pub AreFresh : World → List ℕ → Type 0
AreFresh w news = (n : ℕ) → count n news + places w n ≤ 1

-- The answer of `Shrink` taken over.
abbrev pub after_shrink : World → Option (ℕ × List ℕ × MemoryPool) → World
after_shrink w none = w
after_shrink w (some (sum, gone, q)) = record w { pool = q }

-- The calls: a thread's first call, which gives it an index, and the pool's operations by a thread
-- that has one.
pub data Step (w : World) : World → Type 0 where
  enters : Step w (record w { pool = (get_thread_idx w.pool none).1 })
  allocates :
      (t : ℕ) (news : List ℕ)
      → t < length w.pool.threads
      → AreFresh w news
      → Step w record {
        pool = (alloc w.pool t news).1;
        in_use = handed (alloc w.pool t news).0 ++ w.in_use;
      }
  frees :
      (t n : ℕ) (before after : List ℕ)
      → t < length w.pool.threads
      → w.in_use ≡ before ++ (n ∷ after)
      → Step w record { pool = (free w.pool t (some n)).1; in_use = before ++ after }
  shrinks : (fuel : ℕ) → w.pool.storage.count < fuel → Step w (after_shrink w (shrink fuel w.pool))

pub data Reaches (w : World) : World → Type 0 where
  here : Reaches w w
  next : {u v : World} → Reaches w u → Step u v → Reaches w v

-- Every node is in one place at most, and the counters are right.
pub record IsSound (w : World) : Type 0 where
  pub valid : IsValid w.pool
  pub once : (n : ℕ) → places w n ≤ 1
  pub alloc_count : w.pool.alloc_count ≡ total (λ n. 1) w.pool + length w.in_use
  pub use_count : w.pool.use_count ≡ length w.in_use

held_all-append :
    (w : ℕ → ℕ) (ds : List ThreadData) → held_all w (ds ++ (no_data ∷ [])) ≡ held_all w ds
unfolding held_all weight
held_all-append w [] = refl
held_all-append w (d ∷ ds) = omega (arith, held_all-append w ds)

append-AllCounted : (ds : List ThreadData) → AllCounted ds → AllCounted (ds ++ (no_data ∷ []))
unfolding AllCounted
append-AllCounted [] v = ((refl, refl), tt)
append-AllCounted (d ∷ ds) v = (v.0, append-AllCounted ds v.1)

fresh-count :
    (n : ℕ) (fresh news : List ℕ) → (fresh ≡ []) ⊎ (fresh ≡ news) → count n fresh ≤ count n news
unfolding count
fresh-count n fresh news (inl e) = omega (arith, ap (count n) e)
fresh-count n fresh news (inr e) = omega (arith, ap (count n) e)

pub Step-IsSound : (w u : World) → Step w u → IsSound w → IsSound u
unfolding get_thread_idx count AreFresh
Step-IsSound w u enters s =
    let ds = w.pool.threads in
    record {
      valid = record { threads = append-AllCounted ds s.valid.threads; storage = s.valid.storage };
      once = λ n. omega (arith, held_all-append (is n) ds, s.once n);
      alloc_count = omega (arith, held_all-append (λ n. 1) ds, s.alloc_count);
      use_count = s.use_count;
    }
Step-IsSound w u (allocates t news h f) s =
    let g = alloc-Gave t w.pool news h s.valid in
    let out = handed (alloc w.pool t news).0 in
    let longer = length-append out w.in_use in
    record {
      valid = g.valid;
      once = λ n. omega (
        arith,
        g.weighs (is n),
        weight-count n out,
        weight-count n g.fresh,
        fresh-count n g.fresh news g.source,
        count-append n out w.in_use,
        f n,
        s.once n,
      );
      alloc_count = omega (
        arith,
        g.alloc_count,
        g.weighs (λ n. 1),
        weight-length out,
        weight-length g.fresh,
        longer,
        s.alloc_count,
      );
      use_count = omega (arith, g.use_count, longer, s.use_count);
    }
Step-IsSound w u (frees t n before after h e) s =
    let g = free-Freed t n w.pool h s.valid in
    let left = length-append before (n ∷ after) in
    let longer = length-append before after in
    record {
      valid = g.valid;
      once = λ m. omega (
        arith,
        g.weighs (is m),
        ap (count m) e,
        count-append m before (n ∷ after),
        count-append m before after,
        s.once m,
      );
      alloc_count = omega (
        arith,
        g.same_alloc,
        g.weighs (λ m. 1),
        ap (λ x. length x) e,
        left,
        longer,
        s.alloc_count,
      );
      use_count = omega (arith, g.use_count, ap (λ x. length x) e, left, longer, s.use_count);
    }
Step-IsSound w u (shrinks fuel h) s =
    let g = shrink-Shrank fuel w.pool s.valid h in
    subst (λ r. IsSound (after_shrink w r)) (sym g.result)
      record {
        valid = g.valid;
        once = λ n. omega (arith, g.weighs (is n), s.once n);
        alloc_count = omega (
          arith,
          g.alloc_count,
          g.counts,
          g.weighs (λ n. 1),
          weight-length g.gone,
          s.alloc_count,
        );
        use_count = g.use_count ∙ s.use_count;
      }

-- Any sequence of first calls of threads, of `Alloc` with such new nodes, of `Free` of nodes in use
-- and of `Shrink` keeps the pool safe if it is: the counts of the lists are right, every node is at
-- most once in the lists or in use, `mAllocCount` is the number of nodes in the lists and in use,
-- and `mUseCount` that of the nodes in use.
pub Reaches-IsSound : (w u : World) → Reaches w u → IsSound w → IsSound u
Reaches-IsSound w u here s = s
Reaches-IsSound w u (next r t) s = Step-IsSound _ u t (Reaches-IsSound w _ r s)

held_all-replicate : (w : ℕ → ℕ) (k : ℕ) → held_all w (replicate k no_data) ≡ 0
unfolding held_all weight
held_all-replicate w zero = refl
held_all-replicate w (suc k) = omega (arith, held_all-replicate w k)

replicate-AllCounted : (k : ℕ) → AllCounted (replicate k no_data)
unfolding AllCounted
replicate-AllCounted zero = tt
replicate-AllCounted (suc k) = ((refl, refl), replicate-AllCounted k)

pub create-IsSound :
    (k t : ℕ) (news : List ℕ)
    → t < k
    → ((n : ℕ) → count n news ≤ 1)
    → IsSound record { pool = create (replicate k no_data) t news; in_use = [] }
unfolding create count weight
create-IsSound k t news h f =
    let ds = replicate k no_data in
    let p : MemoryPool = record {
      init_count = length news;
      use_count = 0;
      alloc_count = 0;
      threads = ds;
      storage = record { version = 0; top = []; count = 0 };
    } in
    let g =
      reserve_nodes_lem t p news (omega (arith, h, length-replicate k no_data))
        record { threads = replicate-AllCounted k; storage = refl } in
    record {
      valid = g.valid;
      once = λ n.
          omega (arith, g.weighs (is n), held_all-replicate (is n) k, weight-count n news, f n);
      alloc_count = omega (
        arith,
        g.alloc_count,
        g.weighs (λ n. 1),
        held_all-replicate (λ n. 1) k,
        weight-length news,
      );
      use_count = g.use_count;
    }

one_if_same : (n : ℕ) → one_if (n == n) ≡ 1
one_if_same n = ground arith

-- From a pool made with distinct nodes, after any sequence of first calls of threads, of `Alloc`,
-- of `Free` of nodes in use and of `Shrink`, with `new` returning each time distinct nodes that are
-- neither in the pool nor in use: `Alloc` by a thread that has its index, at least one new node
-- being on offer, hands out a node, and one that is not in use.
pub alloc_fresh :
    (k t₀ : ℕ) (inits : List ℕ) (w : World) (t : ℕ) (news : List ℕ)
    → t₀ < k
    → ((n : ℕ) → count n inits ≤ 1)
    → Reaches record { pool = create (replicate k no_data) t₀ inits; in_use = [] } w
    → t < length w.pool.threads
    → AreFresh w news
    → 1 ≤ length news
    → (n : ℕ) × (((alloc w.pool t news).0 ≡ some n) × (count n w.in_use ≡ 0))
unfolding count
alloc_fresh k t₀ inits w t news h₀ f₀ r h f l =
    let s = Reaches-IsSound _ w r (create-IsSound k t₀ inits h₀ f₀) in
    let g = alloc-Gave t w.pool news h s.valid in
    let after = Step-IsSound w _ (allocates t news h f) s in
    elim (Option-cases (alloc w.pool t news).0) [
      | inl e ↦ absurd (omega (arith, g.some_node l, ap (λ o. length (handed o)) e))
      | inr (n, e) ↦ (
        n,
        (
          e,
          omega (
            arith,
            after.once n,
            ap (λ o. count n (handed o)) e,
            count-append n (handed (alloc w.pool t news).0) w.in_use,
            one_if_same n,
          ),
        ),
      )
    ]
