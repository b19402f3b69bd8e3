-- ===== src/LockFreeMemoryPool/Calls.antt =====
-- What `Alloc` and `Free` do to the list and to the nodes.
use game_programmer_portfoli.Base.{
  ℕ, ◌+◌, ◌-◌, ◌%◌, ◌^◌, ◌≡◌, ◌≢◌, ◌⊎◌, refl, sym, ap, ◌∙◌, inl, inr, false, Option, none, some,
  List, [], ◌∷◌, length, ==_iff, arith, count, same, differs,
}
use game_programmer_portfoli.LockFreeMemoryPool.{
  create_node, SList, Pool, cookie_value, create_node, take_node, alloc, free,
}

List-cases : (xs : List ℕ) → (xs ≡ []) ⊎ ((x : ℕ) × ((rest : List ℕ) × (xs ≡ x ∷ rest)))
List-cases [] = inl refl
List-cases (x ∷ xs) = inr (x, (xs, refl))

module _ {S : Type 0} (list : SList S) where
  abbrev pub IsOwn : Pool list → ℕ → Type 0
  IsOwn p n = ((p.nodes n).owner ≡ p.this) × ((p.nodes n).cookie ≡ cookie_value)

  -- What `Alloc` does: it hands out the first free node, or the new one.
  pub record Taken (p : Pool list) (new : ℕ) (r : ℕ × Pool list) : Type 0 where
    pub same_nodes : (n : ℕ) → n ≢ new → r.1.nodes n ≡ p.nodes n
    pub same_this : r.1.this ≡ p.this
    pub in_use : r.1.in_use ≡ (p.in_use + 1) % 2 ^ 64
    pub found :
        ((n : ℕ) → count n (list.entries p.free_list) ≡ count n (r.0 ∷ list.entries r.1.free_list))
          × (r.1.nodes ≡ p.nodes)
          × (r.1.capacity ≡ p.capacity)
          × (length (list.entries p.free_list) ≡ length (list.entries r.1.free_list) + 1)
        ⊎ (r.0 ≡ new)
          × (list.entries r.1.free_list ≡ [])
          × (list.entries p.free_list ≡ [])
          × IsOwn r.1 new
          × (r.1.capacity ≡ (p.capacity + 1) % 2 ^ 64)

  pub alloc-Taken : (p : Pool list) (new : ℕ) → Taken p new (alloc list p new)
  unfolding alloc take_node create_node
  alloc-Taken p new = elim (List-cases (list.entries p.free_list)) [
    | inl e ↦ rw (list.pop_empty p.free_list e) record {
      same_nodes = λ n ne. rw (differs n new ne) refl;
      same_this = refl;
      in_use = refl;
      found = inr (refl, e, e, (rw (same new) refl, rw (same new) refl), refl);
    }
    | inr (n, (ns, e)) ↦
        let k = list.pop_first p.free_list n ns e in
        rw (k.0) record {
          same_nodes = λ m ne. refl;
          same_this = refl;
          in_use = refl;
          found = inl (
            λ m. ap (count m) (e ∙ ap (◌∷◌ n) (sym k.1)),
            refl,
            refl,
            omega (arith, ap (λ x. length x) (e ∙ ap (◌∷◌ n) (sym k.1))),
          );
        }
  ]

  pub IsOwn-kept :
      (p q : Pool list) (n : ℕ) → q.nodes n ≡ p.nodes n → q.this ≡ p.this → IsOwn p n → IsOwn q n
  IsOwn-kept p q n e t o = (ap (λ x. x.owner) e ∙ o.0 ∙ sym t, ap (λ x. x.cookie) e ∙ o.1)

  -- What `Free` of a node of the pool does.
  pub record Freed (p : Pool list) (n : ℕ) (q : Pool list) : Type 0 where
    pub entries : list.entries q.free_list ≡ n ∷ list.entries p.free_list
    pub same_nodes : q.nodes ≡ p.nodes
    pub same_this : q.this ≡ p.this
    pub capacity : q.capacity ≡ p.capacity
    pub in_use : q.in_use ≡ (p.in_use + 2 ^ 64 - 1) % 2 ^ 64

  pub free-Freed : (p : Pool list) (n : ℕ) → IsOwn p n → Freed p n (free list p (some n)).1
  unfolding free
  free-Freed p n o =
      let a = (==_iff (p.nodes n).owner p.this).1 o.0 in
      let b = (==_iff (p.nodes n).cookie cookie_value).1 o.1 in
      rw (a, b)
        record {
          entries = list.entries-push p.free_list n;
          same_nodes = refl;
          same_this = refl;
          capacity = refl;
          in_use = refl;
        }

  abbrev pub IsForeign : Pool list → Option ℕ → Type 0
  IsForeign p none = Unit
  IsForeign p (some n) = (p.nodes n).owner ≢ p.this

  -- A pointer that is null or to a node of another pool is refused, and nothing changes.
  pub free_refuses : (p : Pool list) (o : Option ℕ) → IsForeign p o → free list p o ≡ (false, p)
  unfolding free
  free_refuses p none f = refl
  free_refuses p (some n) f = rw (differs (p.nodes n).owner p.this f) refl
