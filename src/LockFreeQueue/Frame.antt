-- ===== src/LockFreeQueue/Frame.antt =====
-- What a step of one thread leaves as it is for another.
use game_programmer_portfoli.Base.{
  ℕ, ◌≤◌, ◌≡◌, ◌≢◌, ◌⊎◌, inl, inr, refl, sym, ap, ◌∙◌, Bool, true, false, Option, none, some, [],
  ◌∷◌, arith, count, one_if, same,
}
use game_programmer_portfoli.LockFreeQueue.{
  Shared, Pc, idle, enq_register, enq_load, enq_hazard, enq_check, enq_next, enq_recheck, enq_link,
  enq_help, enq_swing, enq_count, deq_register, deq_load, deq_hazard, deq_check, deq_next,
  deq_second, deq_recheck, deq_tail, deq_help, deq_value, deq_swap, deq_count, clear_second,
  clear_first, retire, count_retired, scan_take, scan_records, scan_first, scan_second, scan_free,
  scan_push,
}
use game_programmer_portfoli.LockFreeQueue.Invariant.{
  Ghost, Owns, is_left, is_used, is_made, is_taken, next_of, value_of, node_made, guards_first,
  guards_second,
}
use game_programmer_portfoli.LockFreeQueue.Fits.{
  Fits, Guards, GuardsNext, Saw, SawLast, WasHead, HasValue,
}

count-one : (n : ℕ) (b : Bool) → one_if b ≡ count n (n ∷ []) → b ≡ true
unfolding count
count-one n true e = refl
count-one n false e = absurd (omega (arith, e, ap one_if (same n)))

module _ {T : Type 0} (s s' : Shared T) (g g' : Ghost T) (u : ℕ) (Safe : ℕ → Type 0) where
  -- What the thread `u` relies on, at nodes that are `Safe`.
  pub record Evolves : Type 0 where
    pub first : s'.first u ≡ s.first u
    pub second : s'.second u ≡ s.second u
    pub records : count u s.records ≤ count u s'.records
    pub met : g'.queue.met_empty u ≡ g.queue.met_empty u
    pub offered : g'.queue.offered u ≡ g.queue.offered u
    pub used : (n : ℕ) → Safe n → is_used (g.place n) ≡ true → is_used (g'.place n) ≡ true
    pub next :
        (n m : ℕ)
        → Safe n
        → is_used (g.place n) ≡ true
        → next_of (s.nodes n) ≡ some (some m)
        → next_of (s'.nodes n) ≡ some (some m)
    pub value :
        (n : ℕ) (v : T)
        → Safe n
        → is_used (g.place n) ≡ true
        → value_of (s.nodes n) ≡ some v
        → value_of (s'.nodes n) ≡ some v
    pub left : (n : ℕ) → Safe n → is_left (g.place n) ≡ true → is_left (g'.place n) ≡ true
    pub head : (n : ℕ) → Safe n → n ≡ s.head → (n ≡ s'.head) ⊎ (is_left (g'.place n) ≡ true)
    pub tail : (n : ℕ) → Safe n → WasHead s g u n → n ≢ s.tail → n ≢ s'.tail
    pub made : (n : ℕ) → is_made u (g'.place n) ≡ is_made u (g.place n)
    pub taken : (n : ℕ) → is_taken u (g'.place n) ≡ is_taken u (g.place n)
    pub fresh : (n : ℕ) → is_made u (g.place n) ≡ true → s'.nodes n ≡ s.nodes n

  module _ (k : Evolves) where
    Guards-frame : (n : ℕ) → Safe n → Guards s g u n → Guards s' g' u n
    Guards-frame n a (f, l, d) = (k.first ∙ f, omega (arith, l, k.records), k.used n a d)

    GuardsNext-frame : (n : ℕ) → Safe n → GuardsNext s g u n → GuardsNext s' g' u n
    GuardsNext-frame n a (f, d) = (k.second ∙ f, k.used n a d)

    Saw-frame :
        (n : ℕ) (o : Option ℕ)
        → Safe n
        → is_used (g.place n) ≡ true
        → Saw s g u n o
        → Saw s' g' u n o
    Saw-frame n none a d e = tt
    Saw-frame n (some m) a d e = k.next n m a d e

    SawLast-frame : (n : ℕ) (o : Option ℕ) → Safe n → SawLast s g u n o → SawLast s' g' u n o
    SawLast-frame n none a (inl l) = inl (k.left n a l)
    SawLast-frame n none a (inr m) = inr (k.met ∙ m)
    SawLast-frame n (some m) a e = tt

    WasHead-frame : (n : ℕ) → Safe n → WasHead s g u n → WasHead s' g' u n
    WasHead-frame n a (inl e) = k.head n a e
    WasHead-frame n a (inr l) = inr (k.left n a l)

    HasValue-frame :
        (n : ℕ) → Safe n → is_used (g.place n) ≡ true → HasValue s g u n → HasValue s' g' u n
    HasValue-frame n a d (v, e) = (v, k.value n v a d e)

    pub Fits-frame :
        (pc : Pc T)
        → ((n : ℕ) → guards_first pc ≡ some n → Safe n)
        → ((n : ℕ) → guards_second pc ≡ some n → Safe n)
        → Fits s g u pc
        → Fits s' g' u pc
    Fits-frame (enq_load item node) a b l = omega (arith, l, k.records)
    Fits-frame (enq_hazard item node tail) a b l = omega (arith, l, k.records)
    Fits-frame (enq_check item node tail) a b (l, f) = (omega (arith, l, k.records), k.first ∙ f)
    Fits-frame (enq_next item node tail) a b d = Guards-frame tail (a tail refl) d
    Fits-frame (enq_recheck item node tail o) a b (d, e) =
        (Guards-frame tail (a tail refl) d, Saw-frame tail o (a tail refl) d.2 e)
    Fits-frame (enq_link item node tail) a b d = Guards-frame tail (a tail refl) d
    Fits-frame (enq_help item node tail m) a b (d, e) =
        (Guards-frame tail (a tail refl) d, k.next tail m (a tail refl) d.2 e)
    Fits-frame (enq_swing tail m) a b (d, e) =
        (Guards-frame tail (a tail refl) d, k.next tail m (a tail refl) d.2 e)
    Fits-frame deq_load a b l = omega (arith, l, k.records)
    Fits-frame (deq_hazard head) a b l = omega (arith, l, k.records)
    Fits-frame (deq_check head) a b (l, f) = (omega (arith, l, k.records), k.first ∙ f)
    Fits-frame (deq_next head) a b (d, h) =
        (Guards-frame head (a head refl) d, WasHead-frame head (a head refl) h)
    Fits-frame (deq_second head o) a b (d, (h, (e, l))) =
        let y = a head refl in
        (
          Guards-frame head y d,
          (WasHead-frame head y h, (Saw-frame head o y d.2 e, SawLast-frame head o y l)),
        )
    Fits-frame (deq_recheck head o) a b (d, (h, (e, (l, f)))) =
        let y = a head refl in
        (
          Guards-frame head y d,
          (
            WasHead-frame head y h,
            (Saw-frame head o y d.2 e, (SawLast-frame head o y l, k.second ∙ f)),
          ),
        )
    Fits-frame (deq_tail head m) a b (d, (h, (e, (c, v)))) =
        let y = a head refl in
        let z = b m refl in
        (
          Guards-frame head y d,
          (
            WasHead-frame head y h,
            (k.next head m y d.2 e, (GuardsNext-frame m z c, HasValue-frame m z c.1 v)),
          ),
        )
    Fits-frame (deq_help head m) a b (d, e) =
        (Guards-frame head (a head refl) d, k.next head m (a head refl) d.2 e)
    Fits-frame (deq_value head m) a b (d, (h, (e, (c, (v, f))))) =
        let y = a head refl in
        let z = b m refl in
        (
          Guards-frame head y d,
          (
            WasHead-frame head y h,
            (
              k.next head m y d.2 e,
              (GuardsNext-frame m z c, (HasValue-frame m z c.1 v, k.tail head y h f)),
            ),
          ),
        )
    Fits-frame (deq_swap head m v) a b (d, (h, (e, (c, (w, f))))) =
        let y = a head refl in
        let z = b m refl in
        (
          Guards-frame head y d,
          (
            WasHead-frame head y h,
            (
              k.next head m y d.2 e,
              (GuardsNext-frame m z c, (k.value m v z c.1 w, k.tail head y h f)),
            ),
          ),
        )
    Fits-frame idle a b f = tt
    Fits-frame (enq_register item node) a b f = tt
    Fits-frame enq_count a b f = tt
    Fits-frame deq_register a b f = tt
    Fits-frame (deq_count head) a b f = tt
    Fits-frame (clear_second o) a b f = tt
    Fits-frame (clear_first o) a b f = tt
    Fits-frame (retire node) a b f = tt
    Fits-frame count_retired a b f = tt
    Fits-frame scan_take a b f = tt
    Fits-frame (scan_records list) a b f = tt
    Fits-frame (scan_first list records spared) a b f = tt
    Fits-frame (scan_second list r records spared) a b f = tt
    Fits-frame (scan_free list spared keep) a b f = tt
    Fits-frame (scan_push keep) a b f = tt

    pub Owns-frame : (pc : Pc T) → Owns s g u pc → Owns s' g' u pc
    Owns-frame pc o = record {
      made = λ n. o.made n ∙ ap one_if (sym (k.made n));
      held = λ n. o.held n ∙ ap one_if (sym (k.taken n));
      fresh = λ item node e.
          let there = ap (λ x. count node (node_made x)) e in
          k.fresh node (count-one node _ (sym (o.made node) ∙ there)) ∙ o.fresh item node e;
      offers = λ item node e. k.offered ∙ o.offers item node e;
    }
