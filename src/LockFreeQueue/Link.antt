-- ===== src/LockFreeQueue/Link.antt =====
-- `new Node`, and the exchange by which `Enqueue` links the node.
use game_programmer_portfoli.Base.{
  one_if-true, ℕ, ◌≡◌, ◌≢◌, inl, inr, refl, sym, ap, subst, ◌∙◌, true, Option, none, some, [], ◌∷◌,
  ◌++◌, ◌==◌, arith, count, count-append, one_if, same, differs, ==_iff, Bool-cases, not,
}
use game_programmer_portfoli.LockFreeQueue.{Node, Shared, put, enq_link, enq_swing, moves}
use game_programmer_portfoli.LockFreeQueue.Spec.{enqueues, adds, offers}
use game_programmer_portfoli.LockFreeQueue.Invariant.{
  Ghost, Memory, Owns, is_left, is_used, is_made, is_taken, is_free, is_there, is_retired,
  is_linked, made, linked, next_of, value_of,
}
use game_programmer_portfoli.LockFreeQueue.Fits.{Guards}
use game_programmer_portfoli.LockFreeQueue.Frame.{Evolves}
use game_programmer_portfoli.LockFreeQueue.Moves.{moved}
use game_programmer_portfoli.LockFreeQueue.Quiet.{Good}
use game_programmer_portfoli.LockFreeQueue.Chain.{
  KeepsNext, KeepsValue, Links-append, Values-append,
}
use game_programmer_portfoli.LockFreeQueue.Places.{
  made_is, used_is, count-head, test-same, count-same, count-more, count-fewer,
}

module _ {T : Type 0} (s : Shared T) (g : Ghost T) (t : ℕ) (m : Memory s g) where
  module _ (item : T) (node tail : ℕ) (n : Node T) (o : Owns s g t (enq_link item node tail))
      (there : s.nodes tail ≡ some n) (end : n.next ≡ none) (guard : Guards s g t tail) where
    abbrev nodes' : ℕ → Option (Node T)
    nodes' = put s.nodes tail (some (record n { next = some node }))

    abbrev linked' : Ghost T
    linked' = record {
      queue = record (offers g.queue t none) { items = g.queue.items ++ (item ∷ []) };
      rest = g.rest ++ (node ∷ []);
      place = put g.place node linked;
    }

    made_node : g.place node ≡ made t
    made_node =
        made_is t (g.place node) (one_if-true _ (omega (arith, o.made node, count-head node [])))

    last : next_of (s.nodes tail) ≡ some none
    last = rw (there, end) refl

    tail_linked : is_linked (g.place tail) ≡ true
    tail_linked = elim (Bool-cases (is_left (g.place tail))) [
      | inl e ↦ let has = m.left tail e in absurd (ground (arith, has.1, last))
      | inr e ↦ used_is (g.place tail) guard.2 e
    ]

    node_not_tail : tail ≢ node
    node_not_tail e =
        let at_node = subst (λ x. is_linked (g.place x) ≡ true) e tail_linked in
        ground (arith, at_node, made_node)

    keeps_next : KeepsNext s.nodes nodes'
    keeps_next i k e = elim (Bool-cases (tail == i)) [
      | inl d ↦
          let at_tail =
            subst (λ x. next_of (s.nodes x) ≡ some (some k)) (sym ((==_iff tail i).0 d)) e in
          absurd (ground (arith, at_tail, last))
      | inr d ↦ rw d e
    ]

    keeps_value : KeepsValue s.nodes nodes'
    keeps_value i v e = elim (Bool-cases (tail == i)) [
      | inl d ↦
          let at_tail : n.value ≡ some v =
            sym (ap value_of there)
            ∙ subst (λ x. value_of (s.nodes x) ≡ some v) (sym ((==_iff tail i).0 d)) e in
          rw d at_tail
      | inr d ↦ rw d e
    ]

    node_kept : nodes' node ≡ some (record { next = none; value = some item })
    node_kept = rw (differs tail node node_not_tail) (o.fresh item node refl)

    there_kept : (i : ℕ) → is_there (nodes' i) ≡ is_there (s.nodes i)
    there_kept i = elim (Bool-cases (tail == i)) [
      | inl d ↦
          rw d (sym (ap is_there there) ∙ ap (λ x. is_there (s.nodes x)) ((==_iff tail i).0 d))
      | inr d ↦ rw d refl
    ]

    memory : Memory (record s { nodes = nodes' }) linked'
    unfolding count
    memory = record {
      links =
          Links-append s.nodes nodes' s.head g.rest tail node keeps_next last (rw (same tail) refl)
            (ap next_of node_kept) (omega (arith, m.linked tail, ap one_if tail_linked)) m.links;
      values =
          Values-append s.nodes nodes' g.rest g.queue.items node item keeps_value m.values
            (ap value_of node_kept);
      linked = λ i. omega (
        arith,
        count-append i g.rest (node ∷ []),
        count-more is_linked g.place node linked (s.head ∷ g.rest) (rw made_node refl) refl m.linked
            i,
      );
      tail = elim (Bool-cases (node == s.tail)) [ inl d ↦ rw d refl | inr d ↦ rw d m.tail ];
      retired = count-same is_retired g.place node linked s.retired (rw made_node refl) m.retired;
      there = λ i.
          there_kept i
          ∙ m.there i
          ∙ ap not (sym (test-same is_free g.place node linked (rw made_node refl) i));
      left = λ i e.
          let was =
            m.left i (sym (test-same is_left g.place node linked (rw made_node refl) i) ∙ e) in
          (was.0, keeps_next i was.0 was.1);
    }

    used_kept : (i : ℕ) → is_used (g.place i) ≡ true → is_used (put g.place node linked i) ≡ true
    used_kept i e = elim (Bool-cases (node == i)) [ inl d ↦ rw d refl | inr d ↦ rw d e ]

    evolves : (u : ℕ) → u ≢ t → Evolves s (record s { nodes = nodes' }) g linked' u (λ i. Unit)
    evolves u e = record {
      first = refl;
      second = refl;
      records = omega arith;
      met = refl;
      offered = rw (differs u t e) refl;
      used = λ i x. used_kept i;
      next = λ i k x y. keeps_next i k;
      value = λ i v x y. keeps_value i v;
      left = λ i x y. test-same is_left g.place node linked (rw made_node refl) i ∙ y;
      head = λ i x y. inl y;
      tail = λ i x y z. z;
      made =
          test-same (is_made u) g.place node linked (rw made_node (differs t u (λ x. e (sym x))));
      taken = test-same (is_taken u) g.place node linked (rw made_node refl);
      fresh = λ i x. elim (Bool-cases (tail == i)) [
        | inl d ↦
            let at_i =
              subst (λ y. is_linked (g.place y) ≡ true) ((==_iff tail i).0 d) tail_linked in
            absurd (ground (arith, at_i, x))
        | inr d ↦ rw d refl
      ];
    }

    pub links-Good :
        Good s g t
          (enq_link item node tail)
          (moves (enqueues t item) (record s { nodes = nodes' }) (enq_swing tail node))
    links-Good = (
      linked',
      (
        adds t item (o.offers item node refl),
        moved s g t (enq_link item node tail) (record s { nodes = nodes' }) linked'
            (enq_swing tail node) memory
            record {
              made =
                  count-fewer (is_made t) g.place node linked [] (rw made_node (same t)) refl
                    o.made;
              held = count-same (is_taken t) g.place node linked [] (rw made_node refl) o.held;
              fresh = λ i k e. absurd (ground (arith, e));
              offers = λ i k e. absurd (ground (arith, e));
            }
            ((guard.0, guard.1, used_kept tail guard.2), rw (same tail) refl) evolves refl
            (inl refl) tt,
      ),
    )
