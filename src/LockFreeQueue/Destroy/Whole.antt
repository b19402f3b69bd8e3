-- ===== src/LockFreeQueue/Destroy/Whole.antt =====
-- The destructor deletes every node.
use game_programmer_portfoli.Base.{
  one_if-le, ℕ, ◌+◌, ◌≤◌, ◌≡◌, inl, inr, refl, ap, length, ◌*◌, Option-cases, subst, ◌∙◌, Bool,
  false, none, some, List, ◌==◌, arith, count, one_if, same, ==_iff, Bool-cases, not,
}
use game_programmer_portfoli.LockFreeQueue.{Shared, idle}
use game_programmer_portfoli.LockFreeQueue.Threads.{World, Reaches, create}
use game_programmer_portfoli.LockFreeQueue.Spec.{Event}
use game_programmer_portfoli.LockFreeQueue.Invariant.{
  Ghost, Memory, Owns, Place, is_made, is_taken, is_free, is_there, is_retired, is_linked, free,
  made, linked, taken, retired,
}
use game_programmer_portfoli.LockFreeQueue.Fits.{IsSafe}
use game_programmer_portfoli.LockFreeQueue.Moves.{Heeds-nil}
use game_programmer_portfoli.LockFreeQueue.Chain.{Links-kept}
use game_programmer_portfoli.LockFreeQueue.Destroy.{Nodes, delete_all, delete_chain, destroy}
use game_programmer_portfoli.LockFreeQueue.Destroy.Deletions.{delete_all_lem, delete_chain_lem}
use game_programmer_portfoli.LockFreeQueue.Destroy.Scans.{scan-Ends, Alone}
use game_programmer_portfoli.LockFreeQueue.Linear.{Reaches-simulates, begun, create-IsSafe}
use game_programmer_portfoli.LockFreeQueue.Destroy.{and_then}

module _ {T : Type 0} (s : Shared T) (g : Ghost T) (m : Memory s g)
    (idles : (t n : ℕ) → (is_made t (g.place n) ≡ false) × (is_taken t (g.place n) ≡ false)) where
  -- With no thread in a call, a node that is there is in the queue or retired.
  nowhere :
      (n : ℕ) (p : Place)
      → g.place n ≡ p
      → is_linked p ≡ false
      → is_retired p ≡ false
      → s.nodes n ≡ none
  nowhere n free e l r = elim (Option-cases (s.nodes n)) [
    | inl d ↦ d
    | inr (k, d) ↦ absurd (ground (arith, m.there n, e, ap is_there d))
  ]
  nowhere n (made t) e l r = absurd (ground (arith, (idles t n).0, e, same t))
  nowhere n linked e l r = absurd (ground (arith, l))
  nowhere n (taken t) e l r = absurd (ground (arith, (idles t n).1, e, same t))
  nowhere n retired e l r = absurd (ground (arith, r))

  retired_there : (n : ℕ) → one_if (is_retired (g.place n)) ≤ one_if (is_there (s.nodes n))
  retired_there n = omega (arith, ap one_if (m.there n), retired_not_free (g.place n))
    where
      retired_not_free : (p : Place) → one_if (is_retired p) ≤ one_if (not (is_free p))
      retired_not_free p = ground arith

  not_both : (p : Place) → one_if (is_linked p) + one_if (is_retired p) ≤ 1
  not_both p = ground arith

  pub deletes_whole :
      (fuel : ℕ)
      → length g.rest + 2 ≤ fuel
      → (nodes' : Nodes T) × ((and_then
              (delete_all s.retired s.nodes)
              (λ nodes. delete_chain fuel (some s.head) nodes)
            ≡ some nodes')
          × ((n : ℕ) → nodes' n ≡ none))
  unfolding count
  deletes_whole fuel h =
      let first =
        delete_all_lem s.retired s.nodes (λ n. omega (arith, m.retired n, retired_there n)) in
      let chain =
        Links-kept s.nodes first.0 s.head g.rest
          (λ n c.
            first.1.1.kept n (omega (arith, c, m.linked n, m.retired n, not_both (g.place n))))
          m.links in
      let second =
        delete_chain_lem fuel s.head g.rest first.0 h chain
          (λ n. omega (arith, m.linked n, one_if-le (is_linked (g.place n)))) in
      (
        second.0,
        (
          ap (λ o. and_then o (λ nodes. delete_chain fuel (some s.head) nodes)) first.1.0
              ∙ second.1.0,
          λ n. elim (Bool-cases (is_linked (g.place n))) [
            | inl l ↦ second.1.1.gone n (omega (arith, m.linked n, ap one_if l))
            | inr l ↦
                let kept = second.1.1.kept n (omega (arith, m.linked n, ap one_if l)) in
                elim (Bool-cases (is_retired (g.place n))) [
                  | inl r ↦ kept ∙ first.1.1.gone n (omega (arith, m.retired n, ap one_if r))
                  | inr r ↦
                      kept
                      ∙ first.1.1.kept n (omega (arith, m.retired n, ap one_if r))
                      ∙ nowhere n (g.place n) refl l r
                ]
          ],
        ),
      )

module _ {T : Type 0} where
  idle_owns :
      (s : Shared T) (g : Ghost T) (t n : ℕ)
      → Owns s g t idle
      → (is_made t (g.place n) ≡ false) × (is_taken t (g.place n) ≡ false)
  unfolding count
  idle_owns s g t n o = (is_false _ (o.made n), is_false _ (o.held n))
    where
      is_false : (b : Bool) → 0 ≡ one_if b → b ≡ false
      is_false b e = ground (arith, e)

  all_idle :
      (w : World T) (g : Ghost T)
      → IsSafe w g
      → ((t : ℕ) → w.threads t ≡ idle)
      → IsSafe (record { shared = w.shared; threads = λ t. idle }) g
  all_idle w g k i = record {
    memory = k.memory;
    owns = λ t. subst (Owns w.shared g t) (i t) (k.owns t);
    fits = λ t. tt;
    heeds = λ t u. Heeds-nil idle idle u refl;
  }

  Alone-idle :
      (s : Shared T) (t u : ℕ) (w : World T) (g : Ghost T) → Alone s t idle w g → w.threads u ≡ idle
  Alone-idle s t u w g a = elim (Bool-cases (t == u)) [
    | inl e ↦ subst (λ x. w.threads x ≡ idle) ((==_iff t u).0 e) a.at
    | inr e ↦ a.others u (λ x. ground (arith, e, x))
  ]

  -- After any interleaving of threads that call `Enqueue` and `TryDequeue`, one load, store or
  -- exchange at a time, when no thread is in a call, the destructor, run by any thread, returns,
  -- with fuel for the scan of 6 and twice the hazard records and retired nodes, and any fuel for
  -- the loop over the nodes that is above a bound: it deletes no node twice, and no node is left.
  pub destroy_returns :
      (sentinel : ℕ) (es : List (Event T)) (w : World T) (t scan_fuel : ℕ)
      → Reaches (create sentinel) es w
      → ((u : ℕ) → w.threads u ≡ idle)
      → 2 * length w.shared.records + (2 * length w.shared.retired + 6) ≤ scan_fuel
      → (enough : ℕ) × ((chain_fuel : ℕ)
          → enough ≤ chain_fuel
          → (nodes : Nodes T) × ((destroy scan_fuel chain_fuel w.shared t ≡ some nodes)
              × ((n : ℕ) → nodes n ≡ none)))
  unfolding destroy
  destroy_returns sentinel es w t scan_fuel r i h =
      let k =
        Reaches-simulates (create sentinel) w (begun sentinel) es (create-IsSafe sentinel) r in
      let scanned = scan-Ends t scan_fuel w.shared k.0 (all_idle w k.0 k.1.1 i) h in
      let v = scanned.1.1.0 in
      let g = scanned.1.1.1.0 in
      let a = scanned.1.1.1.1 in
      let memory = subst (λ x. Memory x g) a.shared a.safe.memory in
      (
        length g.rest + 2,
        λ chain_fuel enough.
            let whole =
              deletes_whole scanned.0 g memory
                (λ u n.
                  idle_owns v.shared g u n
                    (subst (Owns v.shared g u) (Alone-idle scanned.0 t u v g a) (a.safe.owns u)))
                chain_fuel enough in
            (
              whole.0,
              (
                ap
                      (λ o. and_then o (λ s.
                        and_then (delete_all s.retired s.nodes)
                          (λ nodes. delete_chain chain_fuel (some s.head) nodes)))
                      scanned.1.0
                    ∙ whole.1.0,
                whole.1.1,
              ),
            ),
      )
