-- ===== src/LockFreeQueue/Delete.antt =====
-- The scan deletes a node that no hazard pointer guards.
use game_programmer_portfoli.Base.{
  one_if-true, ℕ, ◌≤◌, ◌≡◌, ◌≢◌, inl, inr, refl, sym, ap, subst, ◌∙◌, Bool, true, false, none, some,
  List, [], ◌∷◌, ◌++◌, ◌==◌, arith, count, same, differs, ==_iff, Bool-cases,
}
use game_programmer_portfoli.LockFreeQueue.{Shared, Pc, put, scan_free, moves}
use game_programmer_portfoli.LockFreeQueue.Spec.{silent, nothing}
use game_programmer_portfoli.LockFreeQueue.Invariant.{
  Ghost, Memory, Owns, Heeds, Place, is_left, is_used, is_made, is_taken, is_retired, is_linked,
  free, taken, next_of, value_of, guards_first, guards_second,
}
use game_programmer_portfoli.LockFreeQueue.Frame.{Evolves, Fits-frame, Owns-frame}
use game_programmer_portfoli.LockFreeQueue.Moves.{Heeds-unguarded}
use game_programmer_portfoli.LockFreeQueue.Quiet.{Good}
use game_programmer_portfoli.LockFreeQueue.Chain.{Links-kept, Values-same}
use game_programmer_portfoli.LockFreeQueue.Places.{
  taken_is, count-head, test-same, test-other, test-here, count-same, count-fewer,
}

module _ {T : Type 0} (s : Shared T) (g : Ghost T) (t : ℕ) (m : Memory s g) (n : ℕ)
    (list spared keep : List ℕ) (o : Owns s g t (scan_free (n ∷ list) spared keep))
    (unspared : count n spared ≡ 0) where
  abbrev deleted : Shared T
  deleted = record s { nodes = put s.nodes n none }

  abbrev freed : Ghost T
  freed = record { queue = g.queue; rest = g.rest; place = put g.place n free }

  is_held : g.place n ≡ taken t
  is_held =
      taken_is t (g.place n) (one_if-true _ (omega (arith, o.held n, count-head n (list ++ keep))))

  -- A node that stands elsewhere is another.
  kept_at : (f : Place → Bool) (i : ℕ) → f (taken t) ≡ false → f (g.place i) ≡ true → n ≢ i
  kept_at f i z e d =
      let at_i = subst (λ x. g.place x ≡ taken t) d is_held in
      let no = sym e ∙ ap f at_i ∙ z in ground (arith, no)

  kept : (i : ℕ) → n ≢ i → put s.nodes n none i ≡ s.nodes i
  kept i e = rw (differs n i e) refl

  in_chain : (i : ℕ) → 1 ≤ count i (s.head ∷ g.rest) → n ≢ i
  in_chain i c = kept_at is_linked i refl (one_if-true _ (omega (arith, c, m.linked i)))

  memory : Memory deleted freed
  unfolding count
  memory = record {
    links =
        Links-kept s.nodes (put s.nodes n none) s.head g.rest (λ i c. kept i (in_chain i c))
          m.links;
    values =
        Values-same s.nodes (put s.nodes n none) g.rest g.queue.items
          (λ i c. kept i (in_chain i (omega (arith, c)))) m.values;
    linked = count-same is_linked g.place n free (s.head ∷ g.rest) (rw is_held refl) m.linked;
    tail = test-same is_linked g.place n free (rw is_held refl) s.tail ∙ m.tail;
    retired = count-same is_retired g.place n free s.retired (rw is_held refl) m.retired;
    there = λ i. elim (Bool-cases (n == i)) [ inl d ↦ rw d refl | inr d ↦ rw d (m.there i) ];
    left = λ i e. elim (Bool-cases (n == i)) [
      | inl d ↦
          let no : false ≡ true =
            sym (test-here is_left g.place n free)
            ∙ subst (λ x. is_left (put g.place n free x) ≡ true) (sym ((==_iff n i).0 d)) e in
          absurd (ground (arith, no))
      | inr d ↦
          let other : n ≢ i = λ x. ground (arith, d, x) in
          let was = m.left i (sym (test-other is_left g.place n free i other) ∙ e) in
          (was.0, ap next_of (kept i other) ∙ was.1)
    ];
  }

  evolves : (u : ℕ) → u ≢ t → Evolves s deleted g freed u (λ i. n ≢ i)
  evolves u e = record {
    first = refl;
    second = refl;
    records = omega arith;
    met = refl;
    offered = refl;
    used = λ i x y. test-other is_used g.place n free i x ∙ y;
    next = λ i k x y z. ap next_of (kept i x) ∙ z;
    value = λ i v x y z. ap value_of (kept i x) ∙ z;
    left = λ i x y. test-other is_left g.place n free i x ∙ y;
    head = λ i x y. inl y;
    tail = λ i x y z. z;
    made = test-same (is_made u) g.place n free (rw is_held refl);
    taken = test-same (is_taken u) g.place n free (rw is_held (differs t u (λ x. e (sym x))));
    fresh = λ i x. kept i (kept_at (is_made u) i refl x);
  }

  abbrev before : Pc T
  before = scan_free (n ∷ list) spared keep

  -- No other thread relies on the node.
  safe_first :
      (u : ℕ) (other : Pc T) → Heeds before u other → (i : ℕ) → guards_first other ≡ some i → n ≢ i
  safe_first u other h i e d =
      let at_n = subst (λ x. guards_first other ≡ some x) (sym d) e in
      absurd (omega (arith, h.first n (count-head n list) at_n, unspared))

  safe_second :
      (u : ℕ) (other : Pc T) → Heeds before u other → (i : ℕ) → guards_second other ≡ some i → n ≢ i
  safe_second u other h i e d =
      let at_n = subst (λ x. guards_second other ≡ some x) (sym d) e in
      absurd (omega (arith, h.second n (count-head n list) at_n, unspared))

  pub deletes-Good : Good s g t before (moves silent deleted (scan_free list spared keep))
  unfolding count
  deletes-Good = (
    freed,
    (
      nothing,
      record {
        memory = memory;
        owns = record {
          made = count-same (is_made t) g.place n free [] (rw is_held refl) o.made;
          held =
              count-fewer (is_taken t) g.place n free (list ++ keep) (rw is_held (same t)) refl
                o.held;
          fresh = λ i k e. absurd (ground (arith, e));
          offers = λ i k e. absurd (ground (arith, e));
        };
        fits = tt;
        others = λ u other e own f h. (
          Owns-frame s deleted g freed u (λ i. n ≢ i) (evolves u e) other own,
          Fits-frame s deleted g freed u (λ i. n ≢ i) (evolves u e) other (safe_first u other h)
              (safe_second u other h) f,
          record {
            first = λ i d k. h.first i (omega (arith, d)) k;
            second = λ i d k. h.second i (omega (arith, d)) k;
          },
        );
        heeded =
            λ r scanner e own h. Heeds-unguarded scanner (scan_free list spared keep) t refl refl;
        self =
            Heeds-unguarded (scan_free list spared keep) (scan_free list spared keep) t refl refl;
      },
    ),
  )
