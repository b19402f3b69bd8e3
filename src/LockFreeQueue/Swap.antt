-- ===== src/LockFreeQueue/Swap.antt =====
-- The exchanges that move `mTail` and `mHead` to the next node.
use game_programmer_portfoli.Base.{
  one_if-true, one_if-le, ℕ, ◌≤◌, ◌≡◌, ◌≢◌, ◌⊎◌, inl, inr, refl, sym, ap, ap₂, ◌&&◌, subst, ◌∙◌,
  Bool, true, some, List, [], ◌∷◌, ◌==◌, arith, count, one_if, same, differs, ==_iff, Bool-cases,
  not,
}
use game_programmer_portfoli.LockFreeQueue.{Shared, Pc, put, deq_swap, deq_count, moves, swing}
use game_programmer_portfoli.LockFreeQueue.Spec.{silent, dequeues, nothing, removes}
use game_programmer_portfoli.LockFreeQueue.Invariant.{
  Links, Values, Ghost, Memory, Owns, Place, is_left, is_used, is_made, is_taken, is_free,
  is_retired, is_linked, linked, taken, next_of, value_of, making, node_made, holding, doomed,
  guards_first, guards_second,
}
use game_programmer_portfoli.LockFreeQueue.Fits.{Fits, Next}
use game_programmer_portfoli.LockFreeQueue.Frame.{Evolves}
use game_programmer_portfoli.LockFreeQueue.Moves.{Kept, Moved, moved}
use game_programmer_portfoli.LockFreeQueue.Quiet.{Good, goes-Good}
use game_programmer_portfoli.LockFreeQueue.Chain.{Links-first, Values-first, count-next}
use game_programmer_portfoli.LockFreeQueue.Places.{
  linked_is, count-head, test-same, test-other, test-here, count-same, count-more, count-fewer,
}

module _ {T : Type 0} (s : Shared T) (g : Ghost T) (t : ℕ) (m : Memory s g) where
  head_once : count s.head g.rest ≡ 0
  unfolding count
  head_once =
      omega
        (arith, m.linked s.head, ap one_if (same s.head), one_if-le (is_linked (g.place s.head)))

  pub head_linked : is_linked (g.place s.head) ≡ true
  head_linked = one_if-true _ (omega (arith, m.linked s.head, count-head s.head g.rest))

  pub rest_linked : (n : ℕ) → 1 ≤ count n g.rest → is_linked (g.place n) ≡ true
  unfolding count
  rest_linked n c = one_if-true _ (omega (arith, m.linked n, c))

  rest_not_head : (n : ℕ) → 1 ≤ count n g.rest → n ≢ s.head
  rest_not_head n c e =
      let at_head = subst (λ x. 1 ≤ count x g.rest) e c in
      absurd (omega (arith, at_head, head_once))

  -- `mTail` moves on.
  module _ (pc pc' : Pc T) (o : Owns s g t pc) (tail next : ℕ)
      (follows : Next s g t tail next) where
    behind : s.tail ≡ tail → 1 ≤ count next g.rest
    behind e =
        let in_chain = subst (λ x. is_linked (g.place x) ≡ true) e m.tail in
        count-next s.nodes s.head g.rest tail next m.links
          (omega (arith, m.linked tail, ap one_if in_chain)) follows

    -- No node that was the head is the new tail.
    not_next : s.tail ≡ tail → (n : ℕ) → (n ≡ s.head) ⊎ (is_left (g.place n) ≡ true) → n ≢ next
    not_next e n (inl h) d = rest_not_head next (behind e) (sym d ∙ h)
    not_next e n (inr l) d =
        let at_next = subst (λ x. is_left (g.place x) ≡ true) d l in
        ground (arith, at_next, rest_linked next (behind e))

    pub swings-Moved :
        s.tail ≡ tail
        → making pc' ≡ making pc
        → holding pc' ≡ holding pc
        → doomed pc' ≡ []
        → Kept (guards_first pc') (guards_first pc) g.place
        → Kept (guards_second pc') (guards_second pc) g.place
        → Fits (record s { tail = next }) g t pc'
        → Moved s g t pc (record s { tail = next }) g pc'
    swings-Moved e mk hd d a b fit =
        moved s g t pc (record s { tail = next }) g pc'
          record {
            links = m.links;
            values = m.values;
            linked = m.linked;
            tail = rest_linked next (behind e);
            retired = m.retired;
            there = m.there;
            left = m.left;
          }
          record {
            made = λ n. ap (λ x. count n (node_made x)) mk ∙ o.made n;
            held = λ n. ap (λ x. count n x) hd ∙ o.held n;
            fresh = λ item node e. o.fresh item node (sym mk ∙ e);
            offers = λ item node e. o.offers item node (sym mk ∙ e);
          }
          fit
          (λ u e'. record {
            first = refl;
            second = refl;
            records = omega arith;
            met = refl;
            offered = refl;
            used = λ n x y. y;
            next = λ n k x y z. z;
            value = λ n k x y z. z;
            left = λ n x y. y;
            head = λ n x y. inl y;
            tail = λ n x y z. not_next e n y;
            made = λ n. refl;
            taken = λ n. refl;
            fresh = λ n x. refl;
          })
          d a b

    pub swings-Good :
        (b : Bool)
        → making pc' ≡ making pc
        → holding pc' ≡ holding pc
        → doomed pc' ≡ []
        → Kept (guards_first pc') (guards_first pc) g.place
        → Kept (guards_second pc') (guards_second pc) g.place
        → Fits s g t pc'
        → Fits (record s { tail = next }) g t pc'
        → Good s g t pc (moves silent (swing s tail next b) pc')
    unfolding swing
    swings-Good b mk hd d a c fit fit' = elim (Bool-cases (not b && (s.tail == tail))) [
      | inl e ↦ rw e (g, (nothing, swings-Moved (ground (arith, e)) mk hd d a c fit'))
      | inr e ↦ rw e (goes-Good s g t pc m o pc' mk hd d a c fit)
    ]

  -- `mHead` moves on: the node that was the head is the thread's.
  module _ (head next : ℕ) (v : T) (o : Owns s g t (deq_swap head next v)) (is_head : s.head ≡ head)
      (follows : Next s g t head next) (value : value_of (s.nodes next) ≡ some v)
      (behind_tail : head ≢ s.tail) where
    place' : ℕ → Place
    place' = put g.place head (taken t)

    linked_head : g.place head ≡ linked
    linked_head = linked_is _ (subst (λ x. is_linked (g.place x) ≡ true) is_head head_linked)

    module _ (rest : List ℕ) (items : List T) (r : g.rest ≡ next ∷ rest)
        (l : Links s.nodes next rest) (q : g.queue.items ≡ v ∷ items)
        (vs : Values s.nodes rest items) where
      abbrev left' : Ghost T
      left' = record {
        queue = record g.queue { items = items };
        rest = rest;
        place = put g.place head (taken t);
      }

      memory : Memory (record s { head = next }) left'
      memory = record {
        links = l;
        values = vs;
        linked =
            count-fewer is_linked g.place head (taken t) (next ∷ rest) (rw linked_head refl) refl (
              subst (λ x. (n : ℕ) → count n x ≡ one_if (is_linked (g.place n))) (ap₂ ◌∷◌ is_head r)
                m.linked);
        tail = test-other is_linked g.place head (taken t) s.tail behind_tail ∙ m.tail;
        retired =
            count-same is_retired g.place head (taken t) s.retired (rw linked_head refl) m.retired;
        there = λ i.
            m.there i
            ∙ ap not (sym (test-same is_free g.place head (taken t) (rw linked_head refl) i));
        left = λ i e. elim (Bool-cases (head == i)) [
          | inl d ↦ (
            next,
            subst (λ x. next_of (s.nodes x) ≡ some (some next)) ((==_iff head i).0 d) follows,
          )
          | inr d ↦
              m.left i
                (sym (test-other is_left g.place head (taken t) i (λ x. ground (arith, d, x))) ∙ e)
        ];
      }

      left_kept :
          (i : ℕ) → is_left (g.place i) ≡ true → is_left (put g.place head (taken t) i) ≡ true
      left_kept i e = elim (Bool-cases (head == i)) [ inl d ↦ rw d refl | inr d ↦ rw d e ]

      evolves : (u : ℕ) → u ≢ t → Evolves s (record s { head = next }) g left' u (λ i. Unit)
      evolves u e = record {
        first = refl;
        second = refl;
        records = omega arith;
        met = refl;
        offered = refl;
        used = λ i x y. test-same is_used g.place head (taken t) (rw linked_head refl) i ∙ y;
        next = λ i k x y z. z;
        value = λ i w x y z. z;
        left = λ i x y. left_kept i y;
        head = λ i x y. inr (
            subst (λ k. is_left (put g.place head (taken t) k) ≡ true) (sym (y ∙ is_head))
              (test-here is_left g.place head (taken t)));
        tail = λ i x y z. z;
        made = test-same (is_made u) g.place head (taken t) (rw linked_head refl);
        taken =
            test-same (is_taken u) g.place head (taken t)
              (rw linked_head (sym (differs t u (λ x. e (sym x)))));
        fresh = λ i x. refl;
      }

      pub takes-Moved :
          Moved s g t (deq_swap head next v) (record s { head = next }) left' (deq_count head)
      takes-Moved =
          moved s g t (deq_swap head next v) (record s { head = next }) left' (deq_count head)
            memory
            record {
              made = count-same (is_made t) g.place head (taken t) [] (rw linked_head refl) o.made;
              held =
                  count-more (is_taken t) g.place head (taken t) [] (rw linked_head refl) (same t)
                    o.held;
              fresh = λ i k e. absurd (ground (arith, e));
              offers = λ i k e. absurd (ground (arith, e));
            }
            tt evolves refl tt tt

    pub takes-Good :
        Good s g t
          (deq_swap head next v)
          (moves (dequeues t v) (record s { head = next }) (deq_count head))
    takes-Good =
        let follows' = subst (λ x. next_of (s.nodes x) ≡ some (some next)) (sym is_head) follows in
        let first = Links-first s.nodes s.head g.rest next m.links follows' in
        let items =
          Values-first s.nodes next first.0 g.queue.items v
            (subst (λ x. Values s.nodes x g.queue.items) first.1.0 m.values) value in
        (
          left' first.0 items.0 first.1.0 first.1.1 items.1.0 items.1.1,
          (
            removes t v items.0 items.1.0,
            takes-Moved first.0 items.0 first.1.0 first.1.1 items.1.0 items.1.1,
          ),
        )
