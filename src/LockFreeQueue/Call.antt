-- ===== src/LockFreeQueue/Call.antt =====
-- A call begins: `new Node` of `Enqueue`, and `TryDequeue`.
use game_programmer_portfoli.Base.{
  one_if-true, some-injective, ℕ, ◌≤◌, ◌≡◌, ◌≢◌, inl, inr, refl, sym, ap, subst, ◌∙◌, Bool, true,
  false, none, some, [], ◌∷◌, ◌==◌, arith, count, same, differs, Bool-cases,
}
use game_programmer_portfoli.LockFreeQueue.{Shared, put, idle, enq_register}
use game_programmer_portfoli.LockFreeQueue.Threads.{new_node}
use game_programmer_portfoli.LockFreeQueue.Spec.{offers}
use game_programmer_portfoli.LockFreeQueue.Invariant.{
  Ghost, Memory, Owns, Place, is_left, is_used, is_made, is_taken, is_there, is_retired, is_linked,
  free, made, next_of, value_of,
}
use game_programmer_portfoli.LockFreeQueue.Frame.{Evolves}
use game_programmer_portfoli.LockFreeQueue.Moves.{Moved, moved}
use game_programmer_portfoli.LockFreeQueue.Chain.{Links-kept, Values-same}
use game_programmer_portfoli.LockFreeQueue.Places.{free_is, test-same, count-same, count-more}

module _ {T : Type 0} (s : Shared T) (g : Ghost T) (t : ℕ) (m : Memory s g)
    (o : Owns s g t idle) where
  module _ (item : T) (node : ℕ) (absent : s.nodes node ≡ none) where
    abbrev made' : Ghost T
    made' = record {
      queue = offers g.queue t (some item);
      rest = g.rest;
      place = put g.place node (made t);
    }

    was_free : g.place node ≡ free
    was_free = free_is (g.place node) (sym (m.there node) ∙ ap is_there absent)

    -- A node that is allocated is another.
    kept_at : (f : Place → Bool) (i : ℕ) → f free ≡ false → f (g.place i) ≡ true → node ≢ i
    kept_at f i z e d =
        let at_i = subst (λ x. g.place x ≡ free) d was_free in
        let no = sym e ∙ ap f at_i ∙ z in ground (arith, no)

    kept : (i : ℕ) → node ≢ i → (new_node s node item).nodes i ≡ s.nodes i
    kept i e = rw (differs node i e) refl

    in_chain : (i : ℕ) → 1 ≤ count i (s.head ∷ g.rest) → node ≢ i
    in_chain i c = kept_at is_linked i refl (one_if-true _ (omega (arith, c, m.linked i)))

    memory : Memory (new_node s node item) made'
    unfolding count
    memory = record {
      links =
          Links-kept s.nodes (new_node s node item).nodes s.head g.rest
            (λ i c. kept i (in_chain i c)) m.links;
      values =
          Values-same s.nodes (new_node s node item).nodes g.rest g.queue.items
            (λ i c. kept i (in_chain i (omega (arith, c)))) m.values;
      linked =
          count-same is_linked g.place node (made t) (s.head ∷ g.rest) (rw was_free refl) m.linked;
      tail = test-same is_linked g.place node (made t) (rw was_free refl) s.tail ∙ m.tail;
      retired = count-same is_retired g.place node (made t) s.retired (rw was_free refl) m.retired;
      there = λ i. elim (Bool-cases (node == i)) [ inl d ↦ rw d refl | inr d ↦ rw d (m.there i) ];
      left = λ i e.
          let was_left = sym (test-same is_left g.place node (made t) (rw was_free refl) i) ∙ e in
          let was = m.left i was_left in
          (was.0, ap next_of (kept i (kept_at is_left i refl was_left)) ∙ was.1);
    }

    evolves : (u : ℕ) → u ≢ t → Evolves s (new_node s node item) g made' u (λ i. Unit)
    evolves u e = record {
      first = refl;
      second = refl;
      records = omega arith;
      met = refl;
      offered = rw (differs u t e) refl;
      used = λ i x y. test-same is_used g.place node (made t) (rw was_free refl) i ∙ y;
      next = λ i k x y z. ap next_of (kept i (kept_at is_used i refl y)) ∙ z;
      value = λ i v x y z. ap value_of (kept i (kept_at is_used i refl y)) ∙ z;
      left = λ i x y. test-same is_left g.place node (made t) (rw was_free refl) i ∙ y;
      head = λ i x y. inl y;
      tail = λ i x y z. z;
      made =
          test-same (is_made u) g.place node (made t)
            (rw was_free (sym (differs t u (λ x. e (sym x)))));
      taken = test-same (is_taken u) g.place node (made t) (rw was_free refl);
      fresh = λ i x. kept i (kept_at (is_made u) i refl x);
    }

    pub makes-Moved : Moved s g t idle (new_node s node item) made' (enq_register item node)
    makes-Moved =
        moved s g t idle (new_node s node item) made' (enq_register item node) memory
          record {
            made =
                count-more (is_made t) g.place node (made t) [] (rw was_free refl) (same t) o.made;
            held = count-same (is_taken t) g.place node (made t) [] (rw was_free refl) o.held;
            offers = λ i k e. rw (same t) (ap (λ x. some x.0) (some-injective e));
            fresh = λ i k e.
                let pair = some-injective e in
                subst
                  (λ x.
                    (new_node s node item).nodes x.1
                    ≡ some (record { next = none; value = some x.0 }))
                  pair (rw (same node) refl);
          }
          tt evolves refl tt tt
