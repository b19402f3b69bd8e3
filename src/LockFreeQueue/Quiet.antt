-- ===== src/LockFreeQueue/Quiet.antt =====
-- The steps that change no node: loads, tests, hazard pointers and counters.
use game_programmer_portfoli.Base.{
  ℕ, ◌≤◌, ◌≡◌, ◌≢◌, inl, refl, sym, ap, ◌∙◌, Bool, Option, List, [], arith, count,
}
use game_programmer_portfoli.LockFreeQueue.{Shared, Pc, Outcome, fault, moves}
use game_programmer_portfoli.LockFreeQueue.Spec.{silent, Does, nothing}
use game_programmer_portfoli.LockFreeQueue.Invariant.{
  Ghost, Memory, Owns, making, node_made, holding, doomed, guards_first, guards_second,
}
use game_programmer_portfoli.LockFreeQueue.Fits.{Fits}
use game_programmer_portfoli.LockFreeQueue.Moves.{Kept, Moved, moved}

-- A step does not fail, its event is one of the queue, and it leaves all safe.
abbrev pub Good : {T : Type 0} → Shared T → Ghost T → ℕ → Pc T → Outcome T → Type 0
Good s g t pc fault = ⊥
Good s g t pc (moves e s' pc') =
    (g' : Ghost _) × (Does g.queue e g'.queue × Moved s g t pc s' g' pc')

-- The hazard pointers of a thread, and the threads that have some.
pub record Hazards : Type 0 where
  pub first : ℕ → Option ℕ
  pub second : ℕ → Option ℕ
  pub records : List ℕ

module _ {T : Type 0} (s : Shared T) (g : Ghost T) (t : ℕ) (pc : Pc T) (m : Memory s g)
    (o : Owns s g t pc) where
  abbrev with_hazards : Hazards → ℕ → ℕ → Shared T
  with_hazards h z c = record s {
    first = h.first;
    second = h.second;
    records = h.records;
    size = z;
    retire_count = c;
  }

  abbrev with_met : (ℕ → Bool) → Ghost T
  with_met f = record g { queue = record g.queue { met_empty = f } }

  -- Only what is the thread's own changes.
  pub quiet :
      (h : Hazards) (z c : ℕ) (f : ℕ → Bool) (pc' : Pc T)
      → ((u : ℕ) → u ≢ t → h.first u ≡ s.first u)
      → ((u : ℕ) → u ≢ t → h.second u ≡ s.second u)
      → ((u : ℕ) → count u s.records ≤ count u h.records)
      → ((u : ℕ) → u ≢ t → f u ≡ g.queue.met_empty u)
      → making pc' ≡ making pc
      → holding pc' ≡ holding pc
      → doomed pc' ≡ []
      → Kept (guards_first pc') (guards_first pc) g.place
      → Kept (guards_second pc') (guards_second pc) g.place
      → Fits (with_hazards h z c) (with_met f) t pc'
      → Moved s g t pc (with_hazards h z c) (with_met f) pc'
  quiet h z c f pc' ef es er em mk hd d a b fit =
      moved s g t pc (with_hazards h z c) (with_met f) pc'
        record {
          links = m.links;
          values = m.values;
          linked = m.linked;
          tail = m.tail;
          retired = m.retired;
          there = m.there;
          left = m.left;
        }
        record {
          made = λ n. ap (λ x. count n (node_made x)) mk ∙ o.made n;
          held = λ n. ap (λ x. count n x) hd ∙ o.held n;
          fresh = λ item node e. o.fresh item node (sym mk ∙ e);
          offers = λ item node e. o.offers item node (sym mk ∙ e);
        }
        fit
        (λ u e. record {
          first = ef u e;
          second = es u e;
          records = er u;
          met = em u e;
          offered = refl;
          used = λ n x y. y;
          next = λ n k x y z. z;
          value = λ n k x y z. z;
          left = λ n x y. y;
          head = λ n x y. inl y;
          tail = λ n x y z. z;
          made = λ n. refl;
          taken = λ n. refl;
          fresh = λ n x. refl;
        })
        d a b

  -- Nothing changes but the thread's place.
  pub goes :
      (pc' : Pc T)
      → making pc' ≡ making pc
      → holding pc' ≡ holding pc
      → doomed pc' ≡ []
      → Kept (guards_first pc') (guards_first pc) g.place
      → Kept (guards_second pc') (guards_second pc) g.place
      → Fits s g t pc'
      → Moved s g t pc s g pc'
  goes pc' mk hd d a b fit =
      quiet (record { first = s.first; second = s.second; records = s.records }) s.size
        s.retire_count g.queue.met_empty pc' (λ u e. refl) (λ u e. refl) (λ u. omega arith)
        (λ u e. refl) mk hd d a b fit

  pub goes-Good :
      (pc' : Pc T)
      → making pc' ≡ making pc
      → holding pc' ≡ holding pc
      → doomed pc' ≡ []
      → Kept (guards_first pc') (guards_first pc) g.place
      → Kept (guards_second pc') (guards_second pc) g.place
      → Fits s g t pc'
      → Good s g t pc (moves silent s pc')
  goes-Good pc' mk hd d a b fit = (g, (nothing, goes pc' mk hd d a b fit))

  -- A counter is set.
  pub counts-Good :
      (z c : ℕ) (pc' : Pc T)
      → making pc' ≡ making pc
      → holding pc' ≡ holding pc
      → doomed pc' ≡ []
      → Kept (guards_first pc') (guards_first pc) g.place
      → Kept (guards_second pc') (guards_second pc) g.place
      → Fits (record s { size = z; retire_count = c }) g t pc'
      → Good s g t pc (moves silent (record s { size = z; retire_count = c }) pc')
  counts-Good z c pc' mk hd d a b fit = (
    g,
    (
      nothing,
      quiet (record { first = s.first; second = s.second; records = s.records }) z c
          g.queue.met_empty pc' (λ u e. refl) (λ u e. refl) (λ u. omega arith) (λ u e. refl) mk hd d
          a b fit,
    ),
  )

  -- A pointer is stored to the first or the second hazard pointer.
  pub stores-Good :
      (first second : ℕ → Option ℕ) (pc' : Pc T)
      → ((u : ℕ) → u ≢ t → first u ≡ s.first u)
      → ((u : ℕ) → u ≢ t → second u ≡ s.second u)
      → making pc' ≡ making pc
      → holding pc' ≡ holding pc
      → doomed pc' ≡ []
      → Kept (guards_first pc') (guards_first pc) g.place
      → Kept (guards_second pc') (guards_second pc) g.place
      → Fits (record s { first = first; second = second }) g t pc'
      → Good s g t pc (moves silent (record s { first = first; second = second }) pc')
  stores-Good first second pc' ef es mk hd d a b fit = (
    g,
    (
      nothing,
      quiet (record { first = first; second = second; records = s.records }) s.size s.retire_count
          g.queue.met_empty pc' ef es (λ u. omega arith) (λ u e. refl) mk hd d a b fit,
    ),
  )
