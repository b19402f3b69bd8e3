-- ===== src/LockFreeQueue/Dequeue.antt =====
-- The steps of `TryDequeue`.
use game_programmer_portfoli.Base.{
  ℕ, ◌≤◌, ◌≡◌, inl, inr, refl, sym, ap, ◌&&◌, if◌then◌else◌, subst, ◌∙◌, Bool, true, Option, none,
  some, List, [], ◌∷◌, ◌==◌, arith, count, one_if, same, differs, ==_iff, Bool-cases, not,
}
use game_programmer_portfoli.LockFreeQueue.{
  Shared, deq_load, deq_check, deq_next, deq_second, deq_recheck, deq_tail, deq_help, deq_value,
  deq_swap, deq_count, clear_second, moves, with_node, deq_found, copy_value,
}
use game_programmer_portfoli.LockFreeQueue.Spec.{finds_empty, gives_up, silent, dequeues, meets}
use game_programmer_portfoli.LockFreeQueue.Invariant.{
  Links, Values, Ghost, Memory, Owns, is_left, is_linked, next_of, value_of,
}
use game_programmer_portfoli.LockFreeQueue.Fits.{Saw, HasValue, Fits}
use game_programmer_portfoli.LockFreeQueue.Quiet.{Good, quiet, goes, goes-Good}
use game_programmer_portfoli.LockFreeQueue.Chain.{Links-first}
use game_programmer_portfoli.LockFreeQueue.Swap.{takes-Good, head_linked, rest_linked}
use game_programmer_portfoli.LockFreeQueue.Enqueue.{used_node, Saw-read, linked_used}

module _ {T : Type 0} (s : Shared T) (g : Ghost T) (t : ℕ) (m : Memory s g) where
  pub deq_check-Good :
      (head : ℕ)
      → Owns s g t (deq_check head)
      → Fits s g t (deq_check head)
      → Good s g t
          (deq_check head)
          (moves silent s (if head == s.head then deq_next head else deq_load))
  deq_check-Good head o (l, f) = elim (Bool-cases (head == s.head)) [
    | inl e ↦
        let is_head = (==_iff head s.head).0 e in
        let linked_head =
          subst (λ x. is_linked (g.place x) ≡ true) (sym is_head) (head_linked s g t m) in
        rw e (
          goes-Good s g t (deq_check head) m o (deq_next head) refl refl refl (inr linked_head) tt
            ((f, l, linked_used s g t m head linked_head), inl is_head))
    | inr e ↦ rw e (goes-Good s g t (deq_check head) m o deq_load refl refl refl tt tt l)
  ]

  -- The head has no next node: the queue is empty.
  no_items : (head : ℕ) → head ≡ s.head → next_of (s.nodes head) ≡ some none → g.queue.items ≡ []
  no_items head e d =
      let at_head = subst (λ x. next_of (s.nodes x) ≡ some none) e d in
      empty_rest g.rest g.queue.items at_head m.links m.values
    where
      empty_rest :
          (rest : List ℕ) (items : List T)
          → next_of (s.nodes s.head) ≡ some none
          → Links s.nodes s.head rest
          → Values s.nodes rest items
          → items ≡ []
      empty_rest [] [] z l v = refl
      empty_rest [] (x ∷ items) z l v = absurd v
      empty_rest (n ∷ rest) items z (l, r) v = absurd (ground (arith, z, l))

  Saw-Good :
      (head : ℕ) (next : Option ℕ)
      → next_of (s.nodes head) ≡ some next
      → Saw s g t head next
      → Owns s g t (deq_next head)
      → Fits s g t (deq_next head)
      → Good s g t (deq_next head) (moves silent s (deq_second head next))
  Saw-Good head (some n) d w o (f, h) =
      goes-Good s g t (deq_next head) m o (deq_second head (some n)) refl refl refl (inl refl) tt
        (f, (h, (w, tt)))
  Saw-Good head none d w o (f, inr l) =
      goes-Good s g t (deq_next head) m o (deq_second head none) refl refl refl (inl refl) tt
        (f, (inr l, (tt, inl l)))
  Saw-Good head none d w o (f, inl e) = (
    record g { queue = meets g.queue t true },
    (
      finds_empty t (no_items head e d),
      quiet s g t (deq_next head) m o
          (record { first = s.first; second = s.second; records = s.records }) s.size s.retire_count
          (λ u. if u == t then true else g.queue.met_empty u) (deq_second head none) (λ u x. refl)
          (λ u x. refl) (λ u. omega arith) (λ u x. rw (differs u t x) refl) refl refl refl
          (inl refl) tt (f, (inl e, (tt, inr (rw (same t) refl)))),
    ),
  )

  pub deq_next-Good :
      (head : ℕ)
      → Owns s g t (deq_next head)
      → Fits s g t (deq_next head)
      → Good s g t
          (deq_next head)
          (with_node (s.nodes head) (λ n. moves silent s (deq_second head n.next)))
  unfolding with_node
  deq_next-Good head o f =
      let n = used_node s g t m head f.0.2 in
      subst
        (λ x.
          Good s g t (deq_next head) (with_node x (λ n. moves silent s (deq_second head n.next))))
        (sym n.1)
        (Saw-Good head n.0.next (rw n.1 refl) (Saw-read s g t m head n.0 n.0.next n.1 refl) o f)

  HasValue-first :
      (n : ℕ) (rest : List ℕ) (items : List T) → Values s.nodes (n ∷ rest) items → HasValue s g t n
  HasValue-first n rest [] e = absurd e
  HasValue-first n rest (v ∷ items) (e, r) = (v, e)

  deq_found-Good :
      (head : ℕ) (next : Option ℕ)
      → head ≡ s.head
      → Owns s g t (deq_recheck head next)
      → Fits s g t (deq_recheck head next)
      → Good s g t (deq_recheck head next) (deq_found s t head next)
  unfolding deq_found count
  deq_found-Good head none e o (f, (h, (w, (l, c)))) =
      let met : g.queue.met_empty t ≡ true = elim l [
        | inl left ↦
            let at_head = subst (λ x. is_left (g.place x) ≡ true) e left in
            absurd (ground (arith, at_head, head_linked s g t m))
        | inr met ↦ met
      ] in
      (
        g,
        (
          gives_up t met,
          goes s g t (deq_recheck head none) m o (clear_second none) refl refl refl tt tt tt,
        ),
      )
  deq_found-Good head (some n) e o (f, (h, (w, (l, c)))) =
      let at_head = subst (λ x. next_of (s.nodes x) ≡ some (some n)) e w in
      let first = Links-first s.nodes s.head g.rest n m.links at_head in
      let linked_n =
        rest_linked s g t m n
          (subst (λ x. 1 ≤ count n x) (sym first.1.0) (omega (arith, ap one_if (same n)))) in
      goes-Good s g t (deq_recheck head (some n)) m o (deq_tail head n) refl refl refl (inl refl)
        (inr linked_n)
        (
          f,
          (
            h,
            (
              w,
              (
                (c, linked_used s g t m n linked_n),
                HasValue-first n first.0 g.queue.items
                    (subst (λ x. Values s.nodes x g.queue.items) first.1.0 m.values),
              ),
            ),
          ),
        )

  pub deq_recheck-Good :
      (head : ℕ) (next : Option ℕ)
      → Owns s g t (deq_recheck head next)
      → Fits s g t (deq_recheck head next)
      → Good s g t
          (deq_recheck head next)
          (if head == s.head then deq_found s t head next else moves silent s deq_load)
  deq_recheck-Good head next o f = elim (Bool-cases (head == s.head)) [
    | inl e ↦ rw e (deq_found-Good head next ((==_iff head s.head).0 e) o f)
    | inr e ↦ rw e (goes-Good s g t (deq_recheck head next) m o deq_load refl refl refl tt tt f.0.1)
  ]

  pub deq_tail-Good :
      (head next : ℕ)
      → Owns s g t (deq_tail head next)
      → Fits s g t (deq_tail head next)
      → Good s g t
          (deq_tail head next)
          (moves silent s (if head == s.tail then deq_help head next else deq_value head next))
  deq_tail-Good head next o (f, (h, (w, (c, v)))) = elim (Bool-cases (head == s.tail)) [
    | inl e ↦ rw e (
        goes-Good s g t (deq_tail head next) m o (deq_help head next) refl refl refl (inl refl) tt
          (f, w))
    | inr e ↦ rw e (
        goes-Good s g t (deq_tail head next) m o (deq_value head next) refl refl refl (inl refl)
          (inl refl) (f, (h, (w, (c, (v, λ x. ground (arith, e, x)))))))
  ]

  pub deq_value-Good :
      (head next : ℕ)
      → Owns s g t (deq_value head next)
      → Fits s g t (deq_value head next)
      → Good s g t
          (deq_value head next)
          (with_node (s.nodes next) (λ n. copy_value s head next n.value))
  unfolding with_node copy_value
  deq_value-Good head next o (f, (h, (w, (c, ((v, i), x))))) =
      let n = used_node s g t m next c.1 in
      let has : n.0.value ≡ some v = sym (ap value_of n.1) ∙ i in
      subst
        (λ x. Good s g t (deq_value head next) (with_node x (λ n. copy_value s head next n.value)))
        (sym n.1)
        (rw has (
          goes-Good s g t (deq_value head next) m o (deq_swap head next v) refl refl refl (inl refl)
            (inl refl) (f, (h, (w, (c, (i, x)))))))

  pub deq_swap-Good :
      (b : Bool) (head next : ℕ) (v : T)
      → Owns s g t (deq_swap head next v)
      → Fits s g t (deq_swap head next v)
      → Good s g t (deq_swap head next v) (
          if not b && (s.head == head)
          then moves (dequeues t v) (record s { head = next }) (deq_count head)
          else moves silent s deq_load)
  deq_swap-Good b head next v o (f, (h, (w, (c, (i, x))))) =
      elim (Bool-cases (not b && (s.head == head))) [
        | inl e ↦
            let is_head : s.head ≡ head = ground (arith, e) in
            rw e (takes-Good s g t m head next v o is_head w i x)
        | inr e ↦
            rw e (goes-Good s g t (deq_swap head next v) m o deq_load refl refl refl tt tt f.1)
      ]
