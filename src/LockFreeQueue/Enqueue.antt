-- ===== src/LockFreeQueue/Enqueue.antt =====
-- The steps of `Enqueue`.
use game_programmer_portfoli.Base.{
  ℕ, ◌≡◌, inl, inr, refl, sym, ap, ◌&&◌, if◌then◌else◌, ltb, Option-cases, subst, Bool, true,
  Option, none, some, [], ◌∷◌, ◌==◌, arith, count, one_if, same, ==_iff, Bool-cases, not,
}
use game_programmer_portfoli.LockFreeQueue.{
  Node, Shared, Pc, put, enq_load, enq_check, enq_next, enq_recheck, enq_link, enq_help, moves,
  with_node, get_hazard_record, enq_found, is_none, link,
}
use game_programmer_portfoli.LockFreeQueue.Spec.{silent, nothing}
use game_programmer_portfoli.LockFreeQueue.Invariant.{
  Ghost, Memory, Owns, is_used, is_there, is_linked, making, holding, doomed, guards_first,
  guards_second,
}
use game_programmer_portfoli.LockFreeQueue.Fits.{IsListed, Saw, Fits}
use game_programmer_portfoli.LockFreeQueue.Moves.{put-differs, Kept}
use game_programmer_portfoli.LockFreeQueue.Quiet.{Good, quiet, goes-Good}
use game_programmer_portfoli.LockFreeQueue.Places.{used_there}
use game_programmer_portfoli.LockFreeQueue.Link.{links-Good}

module _ {T : Type 0} (s : Shared T) (g : Ghost T) (t : ℕ) (m : Memory s g) where
  -- A guarded node is there.
  pub used_node : (n : ℕ) → is_used (g.place n) ≡ true → (k : Node T) × (s.nodes n ≡ some k)
  used_node n e = elim (Option-cases (s.nodes n)) [
    | inl d ↦ absurd (ground (arith, used_there (g.place n) e, m.there n, ap is_there d))
    | inr (k, d) ↦ (k, d)
  ]

  pub Saw-read :
      (n : ℕ) (k : Node T) (o : Option ℕ) → s.nodes n ≡ some k → k.next ≡ o → Saw s g t n o
  Saw-read n k none d e = tt
  Saw-read n k (some i) d e = rw (d, e) refl

  pub linked_used : (n : ℕ) → is_linked (g.place n) ≡ true → is_used (g.place n) ≡ true
  linked_used n e = ground (arith, e)

  abbrev get_hazard_record_new : Shared T → ℕ → Shared T
  get_hazard_record_new r u = record r {
    records = u ∷ r.records;
    first = put r.first u none;
    second = put r.second u none;
  }

  -- `GetHazardRecord`.
  pub registers-Good :
      (pc pc' : Pc T)
      → Owns s g t pc
      → making pc' ≡ making pc
      → holding pc' ≡ holding pc
      → doomed pc' ≡ []
      → guards_first pc' ≡ none
      → guards_second pc' ≡ none
      → ((r : Shared T) → IsListed r g t → Fits r g t pc')
      → Good s g t pc (moves silent (get_hazard_record s t) pc')
  unfolding get_hazard_record count
  registers-Good pc pc' o mk hd d a b fit =
      let a' = subst (λ x. Kept x (guards_first pc) g.place) (sym a) tt in
      let b' = subst (λ x. Kept x (guards_second pc) g.place) (sym b) tt in
      elim (Bool-cases (ltb 0 (count t s.records))) [
        | inl e ↦ rw e (goes-Good s g t pc m o pc' mk hd d a' b' (fit s (ground (arith, e))))
        | inr e ↦ rw e (
          g,
          (
            nothing,
            quiet s g t pc m o
                (record {
                  first = put s.first t none;
                  second = put s.second t none;
                  records = t ∷ s.records;
                })
                s.size s.retire_count g.queue.met_empty pc' (λ u x. put-differs s.first t u none x)
                (λ u x. put-differs s.second t u none x) (λ u. omega arith) (λ u x. refl) mk hd d a'
                b' (fit (get_hazard_record_new s t) (omega (arith, ap one_if (same t)))),
          ),
        )
      ]

  pub enq_check-Good :
      (item : T) (node tail : ℕ)
      → Owns s g t (enq_check item node tail)
      → Fits s g t (enq_check item node tail)
      → Good s g t
          (enq_check item node tail)
          (moves silent s (if tail == s.tail then enq_next item node tail else enq_load item node))
  enq_check-Good item node tail o (l, f) = elim (Bool-cases (tail == s.tail)) [
    | inl e ↦
        let tail_linked =
          subst (λ x. is_linked (g.place x) ≡ true) (sym ((==_iff tail s.tail).0 e)) m.tail in
        rw e (
          goes-Good s g t (enq_check item node tail) m o (enq_next item node tail) refl refl refl
            (inr tail_linked) tt (f, l, linked_used tail tail_linked))
    | inr e ↦
        rw e (
          goes-Good s g t (enq_check item node tail) m o (enq_load item node) refl refl refl tt tt
            l)
  ]

  pub enq_next-Good :
      (item : T) (node tail : ℕ)
      → Owns s g t (enq_next item node tail)
      → Fits s g t (enq_next item node tail)
      → Good s g t
          (enq_next item node tail)
          (with_node (s.nodes tail) (λ n. moves silent s (enq_recheck item node tail n.next)))
  unfolding with_node
  enq_next-Good item node tail o f =
      let n = used_node tail f.2 in
      subst
        (λ x.
          Good s g t (enq_next item node tail)
            (with_node x (λ n. moves silent s (enq_recheck item node tail n.next))))
        (sym n.1)
        (goes-Good s g t (enq_next item node tail) m o (enq_recheck item node tail n.0.next) refl
          refl refl (inl refl) tt (f, Saw-read tail n.0 n.0.next n.1 refl))

  enq_found-Good :
      (item : T) (node tail : ℕ) (next : Option ℕ)
      → Owns s g t (enq_recheck item node tail next)
      → Fits s g t (enq_recheck item node tail next)
      → Good s g t
          (enq_recheck item node tail next)
          (moves silent s (enq_found item node tail next))
  unfolding enq_found
  enq_found-Good item node tail none o (f, e) =
      goes-Good s g t (enq_recheck item node tail none) m o (enq_link item node tail) refl refl refl
        (inl refl) tt f
  enq_found-Good item node tail (some k) o (f, e) =
      goes-Good s g t (enq_recheck item node tail (some k)) m o (enq_help item node tail k) refl
        refl refl (inl refl) tt (f, e)

  pub enq_recheck-Good :
      (item : T) (node tail : ℕ) (next : Option ℕ)
      → Owns s g t (enq_recheck item node tail next)
      → Fits s g t (enq_recheck item node tail next)
      → Good s g t (enq_recheck item node tail next) (
          moves silent s
            (if tail == s.tail then enq_found item node tail next else enq_load item node))
  enq_recheck-Good item node tail next o f = elim (Bool-cases (tail == s.tail)) [
    | inl e ↦ rw e (enq_found-Good item node tail next o f)
    | inr e ↦ rw e (
        goes-Good s g t (enq_recheck item node tail next) m o (enq_load item node) refl refl refl tt
          tt f.0.1)
  ]

  pub enq_link-Good :
      (b : Bool) (item : T) (node tail : ℕ)
      → Owns s g t (enq_link item node tail)
      → Fits s g t (enq_link item node tail)
      → Good s g t (enq_link item node tail) (with_node (s.nodes tail) (link s t b item node tail))
  unfolding with_node link is_none
  enq_link-Good b item node tail o f =
      let n = used_node tail f.2 in
      subst (λ x. Good s g t (enq_link item node tail) (with_node x (link s t b item node tail)))
        (sym n.1)
        (elim (Bool-cases (not b && is_none n.0.next)) [
          | inl e ↦
              let end : n.0.next ≡ none = elim (Option-cases n.0.next) [
                | inl d ↦ d
                | inr (k, d) ↦ absurd (ground (arith, e, ap is_none d))
              ] in
              rw e (links-Good s g t m item node tail n.0 o n.1 end f)
          | inr e ↦ rw e (
              goes-Good s g t (enq_link item node tail) m o (enq_load item node) refl refl refl tt
                tt f.1)
        ])
