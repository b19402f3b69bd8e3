-- ===== src/LockFreeQueue/Acts.antt =====
-- Every step of a thread is a step of the queue.
use game_programmer_portfoli.Base.{
  one_if-true, ℕ, ◌+◌, ◌≡◌, inl, inr, refl, sym, ◌-◌, ◌%◌, ◌^◌, if◌then◌else◌, ltb, is_null, Bool,
  true, false, Option, none, some, List, [], ◌∷◌, ◌++◌, ◌==◌, arith, count, Bool-cases,
}
use game_programmer_portfoli.LockFreeQueue.{
  Shared, Pc, put, act, idle, enq_register, enq_load, enq_hazard, enq_check, enq_next, enq_recheck,
  enq_link, enq_help, enq_swing, enq_count, deq_register, deq_load, deq_hazard, deq_check, deq_next,
  deq_second, deq_recheck, deq_tail, deq_help, deq_value, deq_swap, deq_count, clear_second,
  clear_first, retire, count_retired, scan_take, scan_records, scan_first, scan_second, scan_free,
  scan_push, moves, with_node, after_clear,
}
use game_programmer_portfoli.LockFreeQueue.Spec.{silent}
use game_programmer_portfoli.LockFreeQueue.Invariant.{Ghost, Memory, Owns, Heeds}
use game_programmer_portfoli.LockFreeQueue.Fits.{Saw, SawLast, Fits, Guards, WasHead}
use game_programmer_portfoli.LockFreeQueue.Moves.{put-differs, put-same, Heeds-nil}
use game_programmer_portfoli.LockFreeQueue.Quiet.{Good, goes-Good, counts-Good, stores-Good}
use game_programmer_portfoli.LockFreeQueue.Places.{taken_is, count-head}
use game_programmer_portfoli.LockFreeQueue.Enqueue.{
  registers-Good, enq_check-Good, enq_next-Good, enq_recheck-Good, enq_link-Good, used_node,
}
use game_programmer_portfoli.LockFreeQueue.Dequeue.{
  deq_check-Good, deq_next-Good, deq_recheck-Good, deq_tail-Good, deq_value-Good, deq_swap-Good,
}
use game_programmer_portfoli.LockFreeQueue.Swap.{swings-Good}
use game_programmer_portfoli.LockFreeQueue.Scan.{
  scans_records, scans_end, scans_first, scans_second, scans_spare,
}
use game_programmer_portfoli.LockFreeQueue.Retire.{retires-Good, takes_list}
use game_programmer_portfoli.LockFreeQueue.Delete.{deletes-Good}

module _ {T : Type 0} (s : Shared T) (g : Ghost T) (t : ℕ) (m : Memory s g) where
  -- `ClearHazards`.
  clear_second-Good :
      (node : Option ℕ)
      → Owns s g t (clear_second node)
      → Good s g t
          (clear_second node)
          (moves silent (record s { second = put s.second t none }) (clear_first node))
  clear_second-Good node o =
      stores-Good s g t (clear_second node) m o s.first (put s.second t none) (clear_first node)
        (λ u e. refl) (λ u e. put-differs s.second t u none e) refl refl refl tt tt tt

  clear_first-Good :
      (node : Option ℕ)
      → Owns s g t (clear_first node)
      → Good s g t
          (clear_first node)
          (moves silent (record s { first = put s.first t none }) (after_clear node))
  unfolding after_clear
  clear_first-Good none o =
      stores-Good s g t (clear_first none) m o (put s.first t none) s.second idle
        (λ u e. put-differs s.first t u none e) (λ u e. refl) refl refl refl tt tt tt
  clear_first-Good (some n) o =
      stores-Good s g t (clear_first (some n)) m o (put s.first t none) s.second (retire n)
        (λ u e. put-differs s.first t u none e) (λ u e. refl) refl refl refl tt tt tt

  count_retired-Good :
      Owns s g t count_retired
      → (b : Bool)
      → Good s g t count_retired (
          moves silent
            (record s { retire_count = (s.retire_count + 1) % 2 ^ 64 })
            (if b then scan_take else idle))
  count_retired-Good o true =
      counts-Good s g t count_retired m o s.size ((s.retire_count + 1) % 2 ^ 64) scan_take refl refl
        refl tt tt tt
  count_retired-Good o false =
      counts-Good s g t count_retired m o s.size ((s.retire_count + 1) % 2 ^ 64) idle refl refl refl
        tt tt tt

  Heeds-records : (list : List ℕ) (u : ℕ) (other : Pc T) → Heeds (scan_records list) u other
  Heeds-records list u other = record { first = λ n d e. tt; second = λ n d e. tt }

  scan_take-Good :
      Owns s g t scan_take
      → (list : List ℕ) → s.retired ≡ list
      → Good s g t scan_take (
          moves silent
            (record s { retired = [] })
            (if is_null list then idle else scan_records list))
  scan_take-Good o [] e =
      takes_list s g t m idle o refl (sym e) refl refl (λ r h. tt)
        (λ u other. Heeds-nil idle other u refl)
  scan_take-Good o (n ∷ list) e =
      takes_list s g t m (scan_records (n ∷ list)) o refl (sym e) refl refl (λ r h. tt)
        (Heeds-records (n ∷ list))

  scan_free-Good :
      (n : ℕ) (list spared keep : List ℕ)
      → Owns s g t (scan_free (n ∷ list) spared keep)
      → Good s g t (scan_free (n ∷ list) spared keep) (
          if ltb 0 (count n spared)
          then moves silent s (scan_free list spared (n ∷ keep))
          else with_node (s.nodes n) (λ _.
            moves silent (record s { nodes = put s.nodes n none }) (scan_free list spared keep)))
  unfolding with_node
  scan_free-Good n list spared keep o = elim (Bool-cases (ltb 0 (count n spared))) [
    | inl e ↦ rw e (scans_spare s g t m n list spared keep o)
    | inr e ↦
        let is_held =
          taken_is t (g.place n)
            (one_if-true _ (omega (arith, o.held n, count-head n (list ++ keep)))) in
        let k = used_node s g t m n (rw is_held refl) in
        rw (e, k.1) (deletes-Good s g t m n list spared keep o (ground (arith, e)))
  ]

  second_stored :
      (head : ℕ) (next : Option ℕ)
      → Guards s g t head
      → WasHead s g t head
      → Saw s g t head next
      → SawLast s g t head next
      → Fits (record s { second = put s.second t next }) g t (deq_recheck head next)
  second_stored head none d h w l = (d, (h, (w, (l, put-same s.second t none))))
  second_stored head (some n) d h w l = (d, (h, (w, (l, put-same s.second t (some n)))))

  -- The step of a thread at any place of its code.
  pub act-Good :
      (b : Bool) (pc : Pc T) → Owns s g t pc → Fits s g t pc → Good s g t pc (act s t b pc)
  unfolding act
  act-Good b idle o f = goes-Good s g t idle m o idle refl refl refl tt tt tt
  act-Good b (enq_register item node) o f =
      registers-Good s g t m (enq_register item node) (enq_load item node) o refl refl refl refl
        refl (λ r l. l)
  act-Good b (enq_load item node) o f =
      goes-Good s g t (enq_load item node) m o (enq_hazard item node s.tail) refl refl refl tt tt f
  act-Good b (enq_hazard item node tail) o f =
      stores-Good s g t (enq_hazard item node tail) m o (put s.first t (some tail)) s.second
        (enq_check item node tail) (λ u e. put-differs s.first t u (some tail) e) (λ u e. refl) refl
        refl refl tt tt (f, put-same s.first t (some tail))
  act-Good b (enq_check item node tail) o f = enq_check-Good s g t m item node tail o f
  act-Good b (enq_next item node tail) o f = enq_next-Good s g t m item node tail o f
  act-Good b (enq_recheck item node tail next) o f =
      enq_recheck-Good s g t m item node tail next o f
  act-Good b (enq_link item node tail) o f = enq_link-Good s g t m b item node tail o f
  act-Good b (enq_help item node tail next) o f =
      swings-Good s g t m (enq_help item node tail next) (enq_load item node) o tail next f.1 b refl
        refl refl tt tt f.0.1 f.0.1
  act-Good b (enq_swing tail node) o f =
      swings-Good s g t m (enq_swing tail node) enq_count o tail node f.1 false refl refl refl tt tt
        tt tt
  act-Good b enq_count o f =
      counts-Good s g t enq_count m o ((s.size + 1) % 2 ^ 64) s.retire_count (clear_second none)
        refl refl refl tt tt tt
  act-Good b deq_register o f =
      registers-Good s g t m deq_register deq_load o refl refl refl refl refl (λ r l. l)
  act-Good b deq_load o f = goes-Good s g t deq_load m o (deq_hazard s.head) refl refl refl tt tt f
  act-Good b (deq_hazard head) o f =
      stores-Good s g t (deq_hazard head) m o (put s.first t (some head)) s.second (deq_check head)
        (λ u e. put-differs s.first t u (some head) e) (λ u e. refl) refl refl refl tt tt
        (f, put-same s.first t (some head))
  act-Good b (deq_check head) o f = deq_check-Good s g t m head o f
  act-Good b (deq_next head) o f = deq_next-Good s g t m head o f
  act-Good b (deq_second head next) o (d, (h, (w, l))) =
      stores-Good s g t (deq_second head next) m o s.first (put s.second t next)
        (deq_recheck head next) (λ u e. refl) (λ u e. put-differs s.second t u next e) refl refl
        refl (inl refl) tt (second_stored head next d h w l)
  act-Good b (deq_recheck head next) o f = deq_recheck-Good s g t m head next o f
  act-Good b (deq_tail head next) o f = deq_tail-Good s g t m head next o f
  act-Good b (deq_help head next) o f =
      swings-Good s g t m (deq_help head next) deq_load o head next f.1 b refl refl refl tt tt f.0.1
        f.0.1
  act-Good b (deq_value head next) o f = deq_value-Good s g t m head next o f
  act-Good b (deq_swap head next v) o f = deq_swap-Good s g t m b head next v o f
  act-Good b (deq_count head) o f =
      counts-Good s g t (deq_count head) m o ((s.size + 2 ^ 64 - 1) % 2 ^ 64) s.retire_count
        (clear_second (some head)) refl refl refl tt tt tt
  act-Good b (clear_second node) o f = clear_second-Good node o
  act-Good b (clear_first node) o f = clear_first-Good node o
  act-Good b (retire node) o f =
      retires-Good s g t m (retire node) count_retired node o refl refl refl refl refl refl
        (λ r h. tt)
  act-Good b count_retired o f = count_retired-Good o (s.retire_count % 64 == 63)
  act-Good b scan_take o f = scan_take-Good o s.retired refl
  act-Good b (scan_records list) o f = scans_records s g t m list o
  act-Good b (scan_first list [] spared) o f = scans_end s g t m list spared o
  act-Good b (scan_first list (r ∷ records) spared) o f =
      scans_first s g t m list r records spared o
  act-Good b (scan_second list r records spared) o f = scans_second s g t m list r records spared o
  act-Good b (scan_free [] spared keep) o f =
      goes-Good s g t (scan_free [] spared keep) m o (scan_push keep) refl refl refl tt tt tt
  act-Good b (scan_free (n ∷ list) spared keep) o f = scan_free-Good n list spared keep o
  act-Good b (scan_push []) o f = goes-Good s g t (scan_push []) m o idle refl refl refl tt tt tt
  act-Good b (scan_push (n ∷ keep)) o f =
      retires-Good s g t m (scan_push (n ∷ keep)) (scan_push keep) n o refl refl refl refl refl refl
        (λ r h. tt)
