-- ===== src/LockFreeQueue/Retire.antt =====
-- How nodes go to the list `mRetired`, are taken off it, and are deleted.
use game_programmer_portfoli.Base.{
  one_if-true, ℕ, ◌+◌, ◌≤◌, ◌≡◌, ◌≢◌, inl, refl, sym, ap, subst, ◌∙◌, false, none, List, [], ◌∷◌,
  arith, count, one_if, same, differs, not,
}
use game_programmer_portfoli.LockFreeQueue.{Shared, Pc, put, scan_take, moves}
use game_programmer_portfoli.LockFreeQueue.Spec.{silent, nothing}
use game_programmer_portfoli.LockFreeQueue.Invariant.{
  Ghost, Memory, Owns, Heeds, Place, is_left, is_used, is_made, is_taken, is_free, is_retired,
  is_linked, free, made, linked, taken, retired, making, node_made, holding, doomed, guards_first,
  guards_second,
}
use game_programmer_portfoli.LockFreeQueue.Fits.{Fits}
use game_programmer_portfoli.LockFreeQueue.Frame.{Evolves, Fits-frame, Owns-frame}
use game_programmer_portfoli.LockFreeQueue.Moves.{Heeds-unguarded, Kept, moved}
use game_programmer_portfoli.LockFreeQueue.Quiet.{Good}
use game_programmer_portfoli.LockFreeQueue.Places.{
  taken_is, count-head, test-same, count-same, count-more, count-fewer,
}

count-put :
    (n : ℕ) (l : List ℕ) (place : ℕ → Place) (t : ℕ)
    → count n l ≡ one_if (is_taken t (place n))
    → 1 ≤ count n l
    → place n ≡ taken t
count-put n l place t e c = taken_is t (place n) (one_if-true _ (omega (arith, e, c)))

module _ {T : Type 0} (s : Shared T) (g : Ghost T) (t : ℕ) (m : Memory s g) where
  -- A node is pushed on the list.
  pub retires-Good :
      (pc pc' : Pc T) (node : ℕ)
      → Owns s g t pc
      → making pc ≡ none
      → making pc' ≡ none
      → holding pc ≡ node ∷ holding pc'
      → doomed pc' ≡ []
      → guards_first pc' ≡ none
      → guards_second pc' ≡ none
      → ((r : Shared T) (h : Ghost T) → Fits r h t pc')
      → Good s g t pc (moves silent (record s { retired = node ∷ s.retired }) pc')
  retires-Good pc pc' node o mk mk' hd d a b fit =
      let held : (n : ℕ) → count n (node ∷ holding pc') ≡ one_if (is_taken t (g.place n)) =
        λ n. ap (count n) (sym hd) ∙ o.held n in
      let here = count-put node (node ∷ holding pc') g.place t (held node) (count-head node _) in
      let g' : Ghost T = record {
        queue = g.queue;
        rest = g.rest;
        place = put g.place node retired;
      } in
      (
        g',
        (
          nothing,
          moved s g t pc (record s { retired = node ∷ s.retired }) g' pc'
              record {
                links = m.links;
                values = m.values;
                linked =
                    count-same is_linked g.place node retired (s.head ∷ g.rest) (rw here refl)
                      m.linked;
                tail = test-same is_linked g.place node retired (rw here refl) s.tail ∙ m.tail;
                retired =
                    count-more is_retired g.place node retired s.retired (rw here refl) refl
                      m.retired;
                there = λ i.
                    m.there i
                    ∙ ap not (sym (test-same is_free g.place node retired (rw here refl) i));
                left = λ i e.
                    m.left i (sym (test-same is_left g.place node retired (rw here refl) i) ∙ e);
              }
              record {
                made = λ n.
                    ap (λ x. count n (node_made x)) (mk' ∙ sym mk)
                    ∙ count-same (is_made t) g.place node retired _ (rw here refl) o.made n;
                held =
                    count-fewer (is_taken t) g.place node retired (holding pc') (rw here (same t))
                      refl held;
                fresh = λ i k e. absurd (ground (arith, mk', e));
                offers = λ i k e. absurd (ground (arith, mk', e));
              }
              (fit (record s { retired = node ∷ s.retired }) g')
              (λ u e. record {
                first = refl;
                second = refl;
                records = omega arith;
                met = refl;
                offered = refl;
                used = λ i x y. test-same is_used g.place node retired (rw here refl) i ∙ y;
                next = λ i k x y z. z;
                value = λ i v x y z. z;
                left = λ i x y. test-same is_left g.place node retired (rw here refl) i ∙ y;
                head = λ i x y. inl y;
                tail = λ i x y z. z;
                made = test-same (is_made u) g.place node retired (rw here refl);
                taken =
                    test-same (is_taken u) g.place node retired
                      (rw here (differs t u (λ x. e (sym x))));
                fresh = λ i x. refl;
              })
              d (subst (λ x. Kept x (guards_first pc) g.place) (sym a) tt)
              (subst (λ x. Kept x (guards_second pc) g.place) (sym b) tt),
        ),
      )

  -- The list is taken whole.
  abbrev pub took : Place → Place
  took free = free
  took (made u) = made u
  took linked = linked
  took (taken u) = taken u
  took retired = taken t

  took-free : (p : Place) → is_free (took p) ≡ is_free p
  took-free p = ground arith

  took-linked : (p : Place) → is_linked (took p) ≡ is_linked p
  took-linked p = ground arith

  took-left : (p : Place) → is_left (took p) ≡ is_left p
  took-left p = ground arith

  took-used : (p : Place) → is_used (took p) ≡ is_used p
  took-used p = ground arith

  took-made : (u : ℕ) (p : Place) → is_made u (took p) ≡ is_made u p
  took-made u p = ground arith

  took-retired : (p : Place) → is_retired (took p) ≡ false
  took-retired p = ground arith

  took-other : (u : ℕ) (p : Place) → u ≢ t → is_taken u (took p) ≡ is_taken u p
  took-other u free e = refl
  took-other u (made v) e = refl
  took-other u linked e = refl
  took-other u (taken v) e = refl
  took-other u retired e = differs t u (λ x. e (sym x))

  took-own :
      (p : Place) → one_if (is_taken t (took p)) ≡ one_if (is_taken t p) + one_if (is_retired p)
  took-own free = refl
  took-own (made v) = refl
  took-own linked = refl
  took-own (taken v) = omega arith
  took-own retired = ap one_if (same t)

  pub takes_list :
      (pc' : Pc T)
      → Owns s g t scan_take
      → making pc' ≡ none
      → holding pc' ≡ s.retired
      → guards_first pc' ≡ none
      → guards_second pc' ≡ none
      → ((r : Shared T) (h : Ghost T) → Fits r h t pc')
      → ((u : ℕ) (other : Pc T) → Heeds pc' u other)
      → Good s g t scan_take (moves silent (record s { retired = [] }) pc')
  unfolding count
  takes_list pc' o mk hd a b fit h =
      let g' : Ghost T = record { queue = g.queue; rest = g.rest; place = λ n. took (g.place n) } in
      let s' : Shared T = record s { retired = [] } in
      let evolves : (u : ℕ) → u ≢ t → Evolves s s' g g' u (λ n. Unit) = λ u e. record {
        first = refl;
        second = refl;
        records = omega arith;
        met = refl;
        offered = refl;
        used = λ i x y. took-used (g.place i) ∙ y;
        next = λ i k x y z. z;
        value = λ i v x y z. z;
        left = λ i x y. took-left (g.place i) ∙ y;
        head = λ i x y. inl y;
        tail = λ i x y z. z;
        made = λ i. took-made u (g.place i);
        taken = λ i. took-other u (g.place i) e;
        fresh = λ i x. refl;
      } in
      (
        g',
        (
          nothing,
          record {
            memory = record {
              links = m.links;
              values = m.values;
              linked = λ n. m.linked n ∙ ap one_if (sym (took-linked (g.place n)));
              tail = took-linked (g.place s.tail) ∙ m.tail;
              retired = λ n. ap one_if (sym (took-retired (g.place n)));
              there = λ n. m.there n ∙ ap not (sym (took-free (g.place n)));
              left = λ n e. m.left n (sym (took-left (g.place n)) ∙ e);
            };
            owns = record {
              made = λ n.
                  ap (λ x. count n (node_made x)) mk
                  ∙ o.made n
                  ∙ ap one_if (sym (took-made t (g.place n)));
              held =
                  λ n. omega (arith, ap (count n) hd, m.retired n, o.held n, took-own (g.place n));
              fresh = λ i k e. absurd (ground (arith, mk, e));
              offers = λ i k e. absurd (ground (arith, mk, e));
            };
            fits = fit s' g';
            others = λ u other e own f k. (
              Owns-frame s s' g g' u (λ n. Unit) (evolves u e) other own,
              Fits-frame s s' g g' u (λ n. Unit) (evolves u e) other (λ n x. tt) (λ n x. tt) f,
              h u other,
            );
            heeded = λ r scanner e own k. Heeds-unguarded scanner pc' t a b;
            self = h t pc';
          },
        ),
      )
