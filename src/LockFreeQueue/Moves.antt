-- ===== src/LockFreeQueue/Moves.antt =====
-- From a step of one thread to what holds of all of them.
use game_programmer_portfoli.Base.{
  some-injective, ℕ, ◌≤◌, ◌≡◌, ◌≢◌, ◌⊎◌, inl, inr, refl, sym, ap, subst, true, false, Option, none,
  some, [], ◌==◌, arith, count, count-append, one_if, same, differs, ==_iff, Bool-cases,
}
use game_programmer_portfoli.LockFreeQueue.{
  Shared, Pc, put, idle, enq_register, enq_load, enq_hazard, enq_check, enq_next, enq_recheck,
  enq_link, enq_help, enq_swing, enq_count, deq_register, deq_load, deq_hazard, deq_check, deq_next,
  deq_second, deq_recheck, deq_tail, deq_help, deq_value, deq_swap, deq_count, clear_second,
  clear_first, retire, count_retired, scan_take, scan_records, scan_first, scan_second, scan_free,
  scan_push,
}
use game_programmer_portfoli.LockFreeQueue.Threads.{World}
use game_programmer_portfoli.LockFreeQueue.Invariant.{
  Ghost, Memory, Owns, Heeds, Place, is_taken, is_linked, holding, doomed, guards_first,
  guards_second,
}
use game_programmer_portfoli.LockFreeQueue.Fits.{Fits, IsSafe}
use game_programmer_portfoli.LockFreeQueue.Frame.{Evolves, Fits-frame, Owns-frame}

-- A hazard pointer that is relied on was so before, or points to a node of the queue.
abbrev pub Kept : Option ℕ → Option ℕ → (ℕ → Place) → Type 0
Kept none before place = Unit
Kept (some n) before place = (before ≡ some n) ⊎ (is_linked (place n) ≡ true)

Kept-some :
    (o before : Option ℕ) (place : ℕ → Place) (n : ℕ)
    → Kept o before place
    → o ≡ some n
    → (before ≡ some n) ⊎ (is_linked (place n) ≡ true)
Kept-some none before place n k e = absurd (ground (arith, e))
Kept-some (some m) before place n k e =
    subst (λ x. (before ≡ some x) ⊎ (is_linked (place x) ≡ true)) (some-injective e) k

count-doomed : {T : Type 0} (n : ℕ) (pc : Pc T) → count n (doomed pc) ≤ count n (holding pc)
unfolding count
count-doomed n idle = omega arith
count-doomed n (enq_register a b) = omega arith
count-doomed n (enq_load a b) = omega arith
count-doomed n (enq_hazard a b c) = omega arith
count-doomed n (enq_check a b c) = omega arith
count-doomed n (enq_next a b c) = omega arith
count-doomed n (enq_recheck a b c d) = omega arith
count-doomed n (enq_link a b c) = omega arith
count-doomed n (enq_help a b c d) = omega arith
count-doomed n (enq_swing a b) = omega arith
count-doomed n enq_count = omega arith
count-doomed n deq_register = omega arith
count-doomed n deq_load = omega arith
count-doomed n (deq_hazard a) = omega arith
count-doomed n (deq_check a) = omega arith
count-doomed n (deq_next a) = omega arith
count-doomed n (deq_second a b) = omega arith
count-doomed n (deq_recheck a b) = omega arith
count-doomed n (deq_tail a b) = omega arith
count-doomed n (deq_help a b) = omega arith
count-doomed n (deq_value a b) = omega arith
count-doomed n (deq_swap a b c) = omega arith
count-doomed n (deq_count a) = omega arith
count-doomed n (clear_second a) = omega arith
count-doomed n (clear_first a) = omega arith
count-doomed n (retire a) = omega arith
count-doomed n count_retired = omega arith
count-doomed n scan_take = omega arith
count-doomed n (scan_records a) = omega arith
count-doomed n (scan_first a b c) = omega arith
count-doomed n (scan_second a b c d) = omega arith
count-doomed n (scan_push a) = omega arith
count-doomed n (scan_free list spared keep) = omega (arith, count-append n list keep)

linked-taken : (u : ℕ) (p : Place) → is_linked p ≡ true → is_taken u p ≡ false
linked-taken u p e = ground arith

pub undoomed :
    {T : Type 0} (s : Shared T) (g : Ghost T) (r n : ℕ) (pc : Pc T)
    → Owns s g r pc
    → is_linked (g.place n) ≡ true
    → count n (doomed pc) ≡ 0
undoomed s g r n pc o l =
    omega (arith, count-doomed n pc, o.held n, ap one_if (linked-taken r (g.place n) l))

-- A thread that scans still heeds the thread `t`.
pub Heeds-kept :
    {T : Type 0} (s : Shared T) (g : Ghost T) (r t : ℕ) (scanner pc pc' : Pc T)
    → Owns s g r scanner
    → Kept (guards_first pc') (guards_first pc) g.place
    → Kept (guards_second pc') (guards_second pc) g.place
    → Heeds scanner t pc
    → Heeds scanner t pc'
Heeds-kept s g r t scanner pc pc' o a b h = record {
  first = λ n d e. elim (Kept-some _ _ g.place n a e) [
    | inl k ↦ h.first n d k
    | inr l ↦ absurd (omega (arith, d, undoomed s g r n scanner o l))
  ];
  second = λ n d e. elim (Kept-some _ _ g.place n b e) [
    | inl k ↦ h.second n d k
    | inr l ↦ absurd (omega (arith, d, undoomed s g r n scanner o l))
  ];
}

pub Heeds-nil : {T : Type 0} (scanner pc : Pc T) (u : ℕ) → doomed scanner ≡ [] → Heeds scanner u pc
unfolding count
Heeds-nil scanner pc u e = record {
  first = λ n d k. absurd (omega (arith, d, ap (count n) e));
  second = λ n d k. absurd (omega (arith, d, ap (count n) e));
}

pub Heeds-unguarded :
    {T : Type 0} (scanner pc : Pc T) (u : ℕ)
    → guards_first pc ≡ none
    → guards_second pc ≡ none
    → Heeds scanner u pc
Heeds-unguarded scanner pc u e f = record {
  first = λ n d k. absurd (ground (arith, k, e));
  second = λ n d k. absurd (ground (arith, k, f));
}

-- What a step of the thread `t` from `pc` to `pc'` owes to it and to the others.
pub record Moved {T : Type 0} (s : Shared T) (g : Ghost T) (t : ℕ) (pc : Pc T) (s' : Shared T)
    (g' : Ghost T) (pc' : Pc T) : Type 0 where
  pub memory : Memory s' g'
  pub owns : Owns s' g' t pc'
  pub fits : Fits s' g' t pc'
  pub others :
      (u : ℕ) (other : Pc T)
      → u ≢ t
      → Owns s g u other
      → Fits s g u other
      → Heeds pc u other
      → Owns s' g' u other × Fits s' g' u other × Heeds pc' u other
  pub heeded :
      (r : ℕ) (scanner : Pc T)
      → r ≢ t
      → Owns s g r scanner
      → Heeds scanner t pc
      → Heeds scanner t pc'
  pub self : Heeds pc' t pc'

pub put-same : {A : Type 0} (f : ℕ → A) (i : ℕ) (a : A) → put f i a i ≡ a
put-same f i a = rw (same i) refl

pub put-differs : {A : Type 0} (f : ℕ → A) (i j : ℕ) (a : A) → j ≢ i → put f i a j ≡ f j
put-differs f i j a e = rw (differs i j (λ x. e (sym x))) refl

module _ {T : Type 0} (w : World T) (g : Ghost T) (t : ℕ) (s' : Shared T) (g' : Ghost T)
    (pc' : Pc T) where
  abbrev after : World T
  after = record { shared = s'; threads = put w.threads t pc' }

  module _ (i : IsSafe w g) (m : Moved w.shared g t (w.threads t) s' g' pc') where
    abbrev other :
        (u : ℕ)
        → u ≢ t
        → Owns s' g' u (w.threads u) × Fits s' g' u (w.threads u) × Heeds pc' u (w.threads u)
    other u e = m.others u (w.threads u) e (i.owns u) (i.fits u) (i.heeds t u)

    owns : (u : ℕ) → Owns s' g' u (after.threads u)
    owns u = elim (Bool-cases (t == u)) [
      | inl e ↦ rw e (subst (λ x. Owns s' g' x pc') ((==_iff t u).0 e) m.owns)
      | inr e ↦ rw e ((other u (λ x. ground (arith, e, x))).0)
    ]

    fits : (u : ℕ) → Fits s' g' u (after.threads u)
    fits u = elim (Bool-cases (t == u)) [
      | inl e ↦
          subst (λ x. Fits s' g' x (after.threads x)) ((==_iff t u).0 e)
            (subst (Fits s' g' t) (sym (put-same w.threads t pc')) m.fits)
      | inr e ↦
          let d : u ≢ t = λ x. ground (arith, e, x) in
          subst (Fits s' g' u) (sym (put-differs w.threads t u pc' d)) ((other u d).1)
    ]

    heeds : (r u : ℕ) → Heeds (after.threads r) u (after.threads u)
    heeds r u = elim (Bool-cases (t == r)) [
      | inl e ↦ elim (Bool-cases (t == u)) [
        | inl f ↦ rw (e, f) (subst (λ x. Heeds pc' x pc') ((==_iff t u).0 f) m.self)
        | inr f ↦ rw (e, f) ((other u (λ x. ground (arith, f, x))).2)
      ]
      | inr e ↦ elim (Bool-cases (t == u)) [
        | inl f ↦
            rw (e, f)
              (subst (λ x. Heeds (w.threads r) x pc') ((==_iff t u).0 f)
                (m.heeded r (w.threads r) (λ x. ground (arith, e, x)) (i.owns r) (i.heeds r t)))
        | inr f ↦ rw (e, f) (i.heeds r u)
      ]
    ]

    pub IsSafe-Moved : IsSafe record { shared = s'; threads = put w.threads t pc' } g'
    IsSafe-Moved = record { memory = m.memory; owns = owns; fits = fits; heeds = heeds }

-- A step to a place where the thread is not scanning.
pub moved :
    {T : Type 0} (s : Shared T) (g : Ghost T) (t : ℕ) (pc : Pc T) (s' : Shared T) (g' : Ghost T)
    (pc' : Pc T)
    → Memory s' g'
    → Owns s' g' t pc'
    → Fits s' g' t pc'
    → ((u : ℕ) → u ≢ t → Evolves s s' g g' u (λ n. Unit))
    → doomed pc' ≡ []
    → Kept (guards_first pc') (guards_first pc) g.place
    → Kept (guards_second pc') (guards_second pc) g.place
    → Moved s g t pc s' g' pc'
moved s g t pc s' g' pc' m o f k d a b = record {
  memory = m;
  owns = o;
  fits = f;
  others = λ u other e own fit h. (
    Owns-frame s s' g g' u (λ n. Unit) (k u e) other own,
    Fits-frame s s' g g' u (λ n. Unit) (k u e) other (λ n x. tt) (λ n x. tt) fit,
    Heeds-nil pc' other u d,
  );
  heeded = λ r scanner e own h. Heeds-kept s g r t scanner pc pc' own a b h;
  self = Heeds-nil pc' pc' t d;
}
