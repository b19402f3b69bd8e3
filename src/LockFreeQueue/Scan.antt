-- ===== src/LockFreeQueue/Scan.antt =====
-- What a scan knows of the hazard pointers of the other threads.
use game_programmer_portfoli.Base.{
  some-injective, ℕ, ◌≤◌, ◌≡◌, inl, inr, refl, sym, ap, subst, ◌∙◌, Option, none, some, List, [],
  ◌∷◌, ◌==◌, arith, count, count-append, one_if, ==_iff, Bool-cases,
}
use game_programmer_portfoli.LockFreeQueue.{
  Shared, Pc, idle, enq_register, enq_load, enq_hazard, enq_check, enq_next, enq_recheck, enq_link,
  enq_help, enq_swing, enq_count, deq_register, deq_load, deq_hazard, deq_check, deq_next,
  deq_second, deq_recheck, deq_tail, deq_help, deq_value, deq_swap, deq_count, clear_second,
  clear_first, retire, count_retired, scan_take, scan_records, scan_first, scan_second, scan_free,
  scan_push, moves, insert,
}
use game_programmer_portfoli.LockFreeQueue.Spec.{silent, nothing}
use game_programmer_portfoli.LockFreeQueue.Invariant.{
  Ghost, Memory, Owns, Heeds, making, node_made, holding, guards_first, guards_second,
}
use game_programmer_portfoli.LockFreeQueue.Fits.{IsListed, Fits, Guards, GuardsNext}
use game_programmer_portfoli.LockFreeQueue.Moves.{Heeds-unguarded}
use game_programmer_portfoli.LockFreeQueue.Quiet.{Good}

module _ {T : Type 0} (s : Shared T) (g : Ghost T) (u : ℕ) where
  -- A node relied on is guarded.
  pub Fits-first : (pc : Pc T) (n : ℕ) → guards_first pc ≡ some n → Fits s g u pc → Guards s g u n
  Fits-first (enq_next item node tail) n e d = subst (Guards s g u) (some-injective e) d
  Fits-first (enq_recheck item node tail o) n e (d, x) = subst (Guards s g u) (some-injective e) d
  Fits-first (enq_link item node tail) n e d = subst (Guards s g u) (some-injective e) d
  Fits-first (enq_help item node tail m) n e (d, x) = subst (Guards s g u) (some-injective e) d
  Fits-first (enq_swing tail m) n e (d, x) = subst (Guards s g u) (some-injective e) d
  Fits-first (deq_next head) n e (d, x) = subst (Guards s g u) (some-injective e) d
  Fits-first (deq_second head o) n e (d, x) = subst (Guards s g u) (some-injective e) d
  Fits-first (deq_recheck head o) n e (d, x) = subst (Guards s g u) (some-injective e) d
  Fits-first (deq_tail head m) n e (d, x) = subst (Guards s g u) (some-injective e) d
  Fits-first (deq_help head m) n e (d, x) = subst (Guards s g u) (some-injective e) d
  Fits-first (deq_value head m) n e (d, x) = subst (Guards s g u) (some-injective e) d
  Fits-first (deq_swap head m v) n e (d, x) = subst (Guards s g u) (some-injective e) d
  Fits-first idle n e x = absurd (ground (arith, e))
  Fits-first (enq_register item node) n e x = absurd (ground (arith, e))
  Fits-first (enq_load item node) n e x = absurd (ground (arith, e))
  Fits-first (enq_hazard item node tail) n e x = absurd (ground (arith, e))
  Fits-first (enq_check item node tail) n e x = absurd (ground (arith, e))
  Fits-first enq_count n e x = absurd (ground (arith, e))
  Fits-first deq_register n e x = absurd (ground (arith, e))
  Fits-first deq_load n e x = absurd (ground (arith, e))
  Fits-first (deq_hazard head) n e x = absurd (ground (arith, e))
  Fits-first (deq_check head) n e x = absurd (ground (arith, e))
  Fits-first (deq_count head) n e x = absurd (ground (arith, e))
  Fits-first (clear_second o) n e x = absurd (ground (arith, e))
  Fits-first (clear_first o) n e x = absurd (ground (arith, e))
  Fits-first (retire node) n e x = absurd (ground (arith, e))
  Fits-first count_retired n e x = absurd (ground (arith, e))
  Fits-first scan_take n e x = absurd (ground (arith, e))
  Fits-first (scan_records list) n e x = absurd (ground (arith, e))
  Fits-first (scan_first list records spared) n e x = absurd (ground (arith, e))
  Fits-first (scan_second list r records spared) n e x = absurd (ground (arith, e))
  Fits-first (scan_free list spared keep) n e x = absurd (ground (arith, e))
  Fits-first (scan_push keep) n e x = absurd (ground (arith, e))

  pub Fits-second :
      (pc : Pc T) (n : ℕ)
      → guards_second pc ≡ some n
      → Fits s g u pc
      → IsListed s g u × GuardsNext s g u n
  Fits-second (enq_next item node tail) n e x = absurd (ground (arith, e))
  Fits-second (enq_recheck item node tail o) n e x = absurd (ground (arith, e))
  Fits-second (enq_link item node tail) n e x = absurd (ground (arith, e))
  Fits-second (enq_help item node tail m) n e x = absurd (ground (arith, e))
  Fits-second (enq_swing tail m) n e x = absurd (ground (arith, e))
  Fits-second (deq_next head) n e x = absurd (ground (arith, e))
  Fits-second (deq_second head o) n e x = absurd (ground (arith, e))
  Fits-second (deq_recheck head o) n e x = absurd (ground (arith, e))
  Fits-second (deq_tail head m) n e (d, (h, (k, (c, x)))) =
      (d.1, subst (GuardsNext s g u) (some-injective e) c)
  Fits-second (deq_help head m) n e x = absurd (ground (arith, e))
  Fits-second (deq_value head m) n e (d, (h, (k, (c, x)))) =
      (d.1, subst (GuardsNext s g u) (some-injective e) c)
  Fits-second (deq_swap head m v) n e (d, (h, (k, (c, x)))) =
      (d.1, subst (GuardsNext s g u) (some-injective e) c)
  Fits-second idle n e x = absurd (ground (arith, e))
  Fits-second (enq_register item node) n e x = absurd (ground (arith, e))
  Fits-second (enq_load item node) n e x = absurd (ground (arith, e))
  Fits-second (enq_hazard item node tail) n e x = absurd (ground (arith, e))
  Fits-second (enq_check item node tail) n e x = absurd (ground (arith, e))
  Fits-second enq_count n e x = absurd (ground (arith, e))
  Fits-second deq_register n e x = absurd (ground (arith, e))
  Fits-second deq_load n e x = absurd (ground (arith, e))
  Fits-second (deq_hazard head) n e x = absurd (ground (arith, e))
  Fits-second (deq_check head) n e x = absurd (ground (arith, e))
  Fits-second (deq_count head) n e x = absurd (ground (arith, e))
  Fits-second (clear_second o) n e x = absurd (ground (arith, e))
  Fits-second (clear_first o) n e x = absurd (ground (arith, e))
  Fits-second (retire node) n e x = absurd (ground (arith, e))
  Fits-second count_retired n e x = absurd (ground (arith, e))
  Fits-second scan_take n e x = absurd (ground (arith, e))
  Fits-second (scan_records list) n e x = absurd (ground (arith, e))
  Fits-second (scan_first list records spared) n e x = absurd (ground (arith, e))
  Fits-second (scan_second list r records spared) n e x = absurd (ground (arith, e))
  Fits-second (scan_free list spared keep) n e x = absurd (ground (arith, e))
  Fits-second (scan_push keep) n e x = absurd (ground (arith, e))

pub count-insert : (n : ℕ) (o : Option ℕ) (l : List ℕ) → count n l ≤ count n (insert o l)
unfolding insert count
count-insert n none l = omega arith
count-insert n (some k) l = omega arith

pub insert-some : (n : ℕ) (o : Option ℕ) (l : List ℕ) → o ≡ some n → 1 ≤ count n (insert o l)
unfolding insert count
insert-some n none l e = absurd (ground (arith, e))
insert-some n (some k) l e = omega (arith, ap one_if ((==_iff k n).1 (some-injective e)))

-- A step of a scan that changes no node.
module _ {T : Type 0} (s : Shared T) (g : Ghost T) (t : ℕ) (m : Memory s g) where
  pub scans-Good :
      (pc pc' : Pc T)
      → Owns s g t pc
      → making pc' ≡ making pc
      → ((n : ℕ) → count n (holding pc') ≡ count n (holding pc))
      → guards_first pc' ≡ none
      → guards_second pc' ≡ none
      → Fits s g t pc'
      → ((u : ℕ) (other : Pc T) → Fits s g u other → Heeds pc u other → Heeds pc' u other)
      → Good s g t pc (moves silent s pc')
  scans-Good pc pc' o mk hd a b fit h = (
    g,
    (
      nothing,
      record {
        memory = m;
        owns = record {
          made = λ n. ap (λ x. count n (node_made x)) mk ∙ o.made n;
          held = λ n. hd n ∙ o.held n;
          fresh = λ item node e. o.fresh item node (sym mk ∙ e);
          offers = λ item node e. o.offers item node (sym mk ∙ e);
        };
        fits = fit;
        others = λ u other e own f k. (own, f, h u other f k);
        heeded = λ r scanner e own k. Heeds-unguarded scanner pc' t a b;
        self = Heeds-unguarded pc' pc' t a b;
      },
    ),
  )

  pub scans_records :
      (list : List ℕ)
      → Owns s g t (scan_records list)
      → Good s g t (scan_records list) (moves silent s (scan_first list s.records []))
  unfolding count
  scans_records list o =
      scans-Good (scan_records list) (scan_first list s.records []) o refl (λ n. refl) refl refl tt
        (λ u other f h. record {
          first = λ n d e. let k = Fits-first s g u other n e f in omega (arith, k.1);
          second = λ n d e. let k = Fits-second s g u other n e f in omega (arith, k.0);
        })

  pub scans_end :
      (list spared : List ℕ)
      → Owns s g t (scan_first list [] spared)
      → Good s g t (scan_first list [] spared) (moves silent s (scan_free list spared []))
  unfolding count
  scans_end list spared o =
      scans-Good (scan_first list [] spared) (scan_free list spared []) o refl
        (λ n. omega (arith, count-append n list [])) refl refl tt
        (λ u other f h. record {
          first = λ n d e. omega (arith, h.first n d e);
          second = λ n d e. omega (arith, h.second n d e);
        })

  pub scans_first :
      (list : List ℕ) (r : ℕ) (records spared : List ℕ)
      → Owns s g t (scan_first list (r ∷ records) spared)
      → Good s g t
          (scan_first list (r ∷ records) spared)
          (moves silent s (scan_second list r records (insert (s.first r) spared)))
  unfolding count
  scans_first list r records spared o =
      scans-Good (scan_first list (r ∷ records) spared)
        (scan_second list r records (insert (s.first r) spared)) o refl (λ n. refl) refl refl tt
        (λ u other f h. record {
          first = λ n d e. elim (Bool-cases (r == u)) [
            | inl i ↦
                let k = Fits-first s g u other n e f in
                let at_r = subst (λ x. s.first x ≡ some n) (sym ((==_iff r u).0 i)) k.0 in
                omega (arith, insert-some n (s.first r) spared at_r)
            | inr i ↦ omega (arith, h.first n d e, ap one_if i, count-insert n (s.first r) spared)
          ];
          second = λ n d e. omega (arith, h.second n d e, count-insert n (s.first r) spared);
        })

  pub scans_second :
      (list : List ℕ) (r : ℕ) (records spared : List ℕ)
      → Owns s g t (scan_second list r records spared)
      → Good s g t
          (scan_second list r records spared)
          (moves silent s (scan_first list records (insert (s.second r) spared)))
  unfolding count
  scans_second list r records spared o =
      scans-Good (scan_second list r records spared)
        (scan_first list records (insert (s.second r) spared)) o refl (λ n. refl) refl refl tt
        (λ u other f h. record {
          first = λ n d e. omega (arith, h.first n d e, count-insert n (s.second r) spared);
          second = λ n d e. elim (Bool-cases (r == u)) [
            | inl i ↦
                let k = Fits-second s g u other n e f in
                let at_r = subst (λ x. s.second x ≡ some n) (sym ((==_iff r u).0 i)) k.1.0 in
                omega (arith, insert-some n (s.second r) spared at_r)
            | inr i ↦ omega (arith, h.second n d e, ap one_if i, count-insert n (s.second r) spared)
          ];
        })

  pub scans_spare :
      (n : ℕ) (list spared keep : List ℕ)
      → Owns s g t (scan_free (n ∷ list) spared keep)
      → Good s g t
          (scan_free (n ∷ list) spared keep)
          (moves silent s (scan_free list spared (n ∷ keep)))
  unfolding count
  scans_spare n list spared keep o =
      scans-Good (scan_free (n ∷ list) spared keep) (scan_free list spared (n ∷ keep)) o refl
        (λ i. omega (arith, count-append i list (n ∷ keep), count-append i list keep)) refl refl tt
        (λ u other f h. record {
          first = λ i d e. h.first i (omega (arith, d)) e;
          second = λ i d e. h.second i (omega (arith, d)) e;
        })
