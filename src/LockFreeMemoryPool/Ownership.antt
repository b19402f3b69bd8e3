-- ===== src/LockFreeMemoryPool/Ownership.antt =====
-- Which nodes are in use, over any sequence of `Alloc` and `Free`.
use game_programmer_portfoli.Base.{
  ℕ, ◌+◌, ◌-◌, ◌^◌, ◌≤◌, ◌<◌, ◌≡◌, ◌≢◌, refl, sym, ap, subst, inl, inr, none, some, List, [], ◌∷◌,
  ◌++◌, length, ◌==◌, ==_iff, arith, count, count-append, one_if, length-append, mod-below,
  mod-above, Bool-cases, same,
}
use game_programmer_portfoli.LockFreeMemoryPool.{
  Node, reserve, create, create_node, SList, Pool, create_node, alloc, free,
}
use game_programmer_portfoli.LockFreeMemoryPool.Calls.{
  IsOwn, IsOwn-kept, alloc-Taken, free-Freed, free_refuses,
}

module _ {S : Type 0} (list : SList S) where
  -- The pool and the nodes that its callers hold.
  pub record World : Type 0 where
    pub pool : Pool list
    pub held : List ℕ

  abbrev pub free_nodes : World → List ℕ
  free_nodes w = list.entries w.pool.free_list

  abbrev pub places : World → ℕ → ℕ
  places w n = count n (free_nodes w) + count n w.held

  -- A call: `new` returns a node that the pool does not have, and there are fewer nodes than a `size_t`
  -- counts; a node freed is held, or is none of the pool's.
  pub data Step (w : World) : World → Type 0 where
    allocates :
        (new : ℕ)
        → places w new ≡ 0
        → length (free_nodes w) + length w.held + 1 < 2 ^ 64
        → Step w
            record { pool = (alloc list w.pool new).1; held = (alloc list w.pool new).0 ∷ w.held }
    frees :
        (n : ℕ) (before after : List ℕ)
        → w.held ≡ before ++ (n ∷ after)
        → Step w record { pool = (free list w.pool (some n)).1; held = before ++ after }
    frees_foreign :
        (n : ℕ)
        → (w.pool.nodes n).owner ≢ w.pool.this
        → Step w (record w { pool = (free list w.pool (some n)).1 })
    frees_null : Step w (record w { pool = (free list w.pool none).1 })

  pub data Reaches (w : World) : World → Type 0 where
    here : Reaches w w
    next : {u v : World} → Reaches w u → Step u v → Reaches w v

  pub record IsWhole (w : World) : Type 0 where
    pub own : (n : ℕ) → 1 ≤ places w n → IsOwn list w.pool n
    pub once : (n : ℕ) → places w n ≤ 1
    pub capacity : w.pool.capacity ≡ length (free_nodes w) + length w.held
    pub in_use : w.pool.in_use ≡ length w.held
    pub room : length (free_nodes w) + length w.held < 2 ^ 64

  Step-IsWhole : (w u : World) → Step w u → IsWhole w → IsWhole u
  unfolding count
  Step-IsWhole w u (allocates new z l) s =
      let k = alloc-Taken list w.pool new in
      let m = mod-below (w.pool.in_use + 1) (2 ^ 64) (omega (arith, s.in_use, l)) in
      elim (k.found) [
        | inl (c, nodes, cap, len) ↦ record {
          own = λ n h.
              IsOwn-kept list w.pool (alloc list w.pool new).1 n (ap (λ f. f n) nodes) k.same_this
                (s.own n (omega (arith, h, c n)));
          once = λ n. omega (arith, c n, s.once n);
          capacity = omega (arith, cap, len, s.capacity);
          in_use = omega (arith, k.in_use, m, s.in_use);
          room = omega (arith, len, l);
        }
        | inr (e, empty, none_free, own, cap) ↦
            let given : (n : ℕ) → one_if ((alloc list w.pool new).0 == n) ≡ one_if (new == n) =
              λ n. ap (λ x. one_if (x == n)) e in
            let full = mod-below (w.pool.capacity + 1) (2 ^ 64) (omega (arith, s.capacity, l)) in
            let no_entry = ap (λ x. length x) empty in
            let no_free = ap (λ x. length x) none_free in
            record {
              own = λ n h. elim (Bool-cases (new == n)) [
                | inl t ↦ subst (IsOwn list (alloc list w.pool new).1) ((==_iff new n).0 t) own
                | inr t ↦
                    IsOwn-kept list w.pool (alloc list w.pool new).1 n
                      (k.same_nodes n (λ x. ground (arith, t, x))) k.same_this
                      (s.own n (omega (arith, h, given n, ap one_if t, ap (count n) empty)))
              ];
              once = λ n. elim (Bool-cases (new == n)) [
                | inl t ↦
                    let free_place = subst (λ x. places w x ≡ 0) ((==_iff new n).0 t) z in
                    omega (arith, given n, ap one_if t, ap (count n) empty, free_place)
                | inr t ↦ omega (arith, given n, ap one_if t, ap (count n) empty, s.once n)
              ];
              capacity = omega (arith, cap, full, s.capacity, no_entry, no_free);
              in_use = omega (arith, k.in_use, m, s.in_use);
              room = omega (arith, no_entry, no_free, l);
            }
      ]
  Step-IsWhole w u (frees n before after e) s =
      let there = ap (count n) e in
      let split = count-append n before (n ∷ after) in
      let long = ap (λ x. length x) e in
      let l₁ = length-append before (n ∷ after) in
      let l₂ = length-append before after in
      let o = s.own n (omega (arith, there, split, ap one_if (same n))) in
      let k = free-Freed list w.pool n o in
      let q = (free list w.pool (some n)).1 in
      let m =
        mod-above (w.pool.in_use + 2 ^ 64 - 1) (2 ^ 64) (omega (arith, s.in_use, long, l₁))
          (omega (arith, s.in_use, s.room)) in
      let moved : (i : ℕ)
          → count i (list.entries q.free_list) + count i (before ++ after) ≡ places w i =
        λ i. omega (
          arith,
          ap (count i) k.entries,
          ap (count i) e,
          count-append i before (n ∷ after),
          count-append i before after,
        ) in
      let entries = ap (λ x. length x) k.entries in
      record {
        own = λ i h.
            IsOwn-kept list w.pool q i (ap (λ f. f i) k.same_nodes) k.same_this
              (s.own i (omega (arith, h, moved i)));
        once = λ i. omega (arith, moved i, s.once i);
        capacity = omega (arith, k.capacity, s.capacity, entries, long, l₁, l₂);
        in_use = omega (arith, k.in_use, m, s.in_use, long, l₁, l₂);
        room = omega (arith, s.room, entries, long, l₁, l₂);
      }
  Step-IsWhole w u (frees_foreign n f) s =
      let r = free_refuses list w.pool (some n) f in
      subst (λ x. IsWhole (record w { pool = x.1 })) (sym r) s
  Step-IsWhole w u frees_null s =
      let r = free_refuses list w.pool none tt in
      subst (λ x. IsWhole (record w { pool = x.1 })) (sym r) s

  Reaches-step : (w u : World) → Reaches w u → IsWhole w → IsWhole u
  Reaches-step w u here s = s
  Reaches-step w u (next r t) s = Step-IsWhole _ u t (Reaches-step w _ r s)

  abbrev unheld : Pool list → World
  unheld p = record { pool = p; held = [] }

  -- A node made and pushed.
  abbrev added : Pool list → ℕ → Pool list
  added p n = let q = create_node list p n in record q { free_list = list.push q.free_list n }

  added-IsWhole :
      (p : Pool list) (n : ℕ)
      → IsWhole (unheld p)
      → count n (list.entries p.free_list) ≡ 0
      → length (list.entries p.free_list) + 1 < 2 ^ 64
      → IsWhole (unheld (added p n))
  unfolding create_node count
  added-IsWhole p n s f l =
      let e = list.entries-push p.free_list n in
      let longer = ap (λ x. length x) e in
      let m = mod-below (p.capacity + 1) (2 ^ 64) (omega (arith, s.capacity, l)) in
      record {
        own = λ i h. elim (Bool-cases (i == n)) [
          | inl t ↦ rw t (refl, refl)
          | inr t ↦ rw t (s.own i (ground (arith, h, ap (count i) e, t)))
        ];
        once = λ i. elim (Bool-cases (n == i)) [
          | inl t ↦
              let z = subst (λ x. count x (list.entries p.free_list) ≡ 0) ((==_iff n i).0 t) f in
              omega (arith, ap (count i) e, ap one_if t, z)
          | inr t ↦ omega (arith, ap (count i) e, ap one_if t, s.once i)
        ];
        capacity = omega (arith, m, longer, s.capacity);
        in_use = s.in_use;
        room = omega (arith, longer, l);
      }

  reserve-IsWhole :
      (p : Pool list) (ns : List ℕ)
      → IsWhole (unheld p)
      → ((i : ℕ) → count i ns + count i (list.entries p.free_list) ≤ 1)
      → length ns + length (list.entries p.free_list) < 2 ^ 64
      → IsWhole (unheld (reserve list p ns))
  unfolding reserve count create_node
  reserve-IsWhole p [] s f l = s
  reserve-IsWhole p (n ∷ ns) s f l =
      let e = list.entries-push p.free_list n in
      let fresh : count n (list.entries p.free_list) ≡ 0 = omega (arith, f n, ap one_if (same n)) in
      let added_one = added-IsWhole p n s fresh (omega (arith, l)) in
      reserve-IsWhole (added p n) ns added_one (λ i. omega (arith, f i, ap (count i) e))
        (omega (arith, l, ap (λ x. length x) e))

  create-IsWhole :
      (this : ℕ) (nodes : ℕ → Node) (news : List ℕ)
      → ((i : ℕ) → count i news ≤ 1)
      → length news < 2 ^ 64
      → IsWhole (unheld (create list this nodes news))
  unfolding create count
  create-IsWhole this nodes news f l =
      let e = list.entries_initialize in
      let none_there : (i : ℕ) → count i (list.entries list.initialize) ≡ 0 = λ i. ap (count i) e in
      let short = ap (λ x. length x) e in
      reserve-IsWhole _ news
        record {
          own = λ n h. absurd (omega (arith, h, none_there n));
          once = λ n. omega (arith, none_there n);
          capacity = omega (arith, short);
          in_use = refl;
          room = omega (arith, short);
        }
        (λ i. omega (arith, f i, none_there i)) (omega (arith, l, short))

  -- Over any list that is as Windows documents it, from a pool made with distinct nodes, fewer than
  -- 64 bits count, any sequence of `Alloc`, of `Free` of nodes that are held, and of `Free` of a
  -- null pointer or a node of another pool leaves the pool whole, as long as there are fewer nodes
  -- than 64 bits count and `new` returns nodes that the pool does not have: each node of the list
  -- or held has the pool as its owner and the cookie, and is there once, `mCapacity` is their
  -- number, and `mInUse` that of the nodes held.
  pub Reaches-IsWhole :
      (this : ℕ) (nodes : ℕ → Node) (news : List ℕ) (w : World)
      → ((i : ℕ) → count i news ≤ 1)
      → length news < 2 ^ 64
      → Reaches record { pool = create list this nodes news; held = [] } w
      → IsWhole w
  Reaches-IsWhole this nodes news w f l r = Reaches-step _ w r (create-IsWhole this nodes news f l)
