-- ===== src/LockFreeQueue/Destroy/Scans.antt =====
-- A scan that runs alone ends.
use game_programmer_portfoli.Base.{
  ℕ, ◌+◌, ◌≤◌, ◌<◌, ◌≡◌, ◌≢◌, inl, inr, refl, sym, ap, zero, suc, length, ◌*◌, if◌then◌else◌, ltb,
  is_null, subst, ◌∙◌, true, false, Option, none, some, List, [], ◌∷◌, arith, count, Bool-cases,
}
use game_programmer_portfoli.LockFreeQueue.{
  Node, Shared, Pc, Outcome, put, act, idle, scan_take, scan_records, scan_first, scan_second,
  scan_free, scan_push, fault, moves, with_node, insert,
}
use game_programmer_portfoli.LockFreeQueue.Threads.{World}
use game_programmer_portfoli.LockFreeQueue.Spec.{silent}
use game_programmer_portfoli.LockFreeQueue.Invariant.{Ghost, Memory, Owns}
use game_programmer_portfoli.LockFreeQueue.Fits.{IsSafe, Fits}
use game_programmer_portfoli.LockFreeQueue.Moves.{
  put-differs, put-same, IsSafe-Moved, Heeds-unguarded, Heeds-nil, Moved,
}
use game_programmer_portfoli.LockFreeQueue.Quiet.{Good}
use game_programmer_portfoli.LockFreeQueue.Acts.{act-Good}
use game_programmer_portfoli.LockFreeQueue.Destroy.{finish, is_idle, go_on}

-- The places of a scan.
pub data Scanning {T : Type 0} : Pc T → Type 0 where
  ended : Scanning idle
  taking : Scanning scan_take
  listing : (list : List ℕ) → Scanning (scan_records list)
  reading_first : (list records spared : List ℕ) → Scanning (scan_first list records spared)
  reading_second :
      (list : List ℕ) (r : ℕ) (records spared : List ℕ)
      → Scanning (scan_second list r records spared)
  deleting : (list spared keep : List ℕ) → Scanning (scan_free list spared keep)
  pushing : (keep : List ℕ) → Scanning (scan_push keep)

-- How many steps are left of a scan, at most; 0 at the places that are of no scan.
abbrev work : {T : Type 0} → Shared T → Pc T → ℕ
work s idle = 1
work s scan_take = 2 * length s.records + (2 * length s.retired + 6)
work s (scan_records list) = 2 * length s.records + (2 * length list + 5)
work s (scan_first list records spared) = 2 * length records + (2 * length list + 4)
work s (scan_second list r records spared) = 2 * length records + (2 * length list + 5)
work s (scan_free list spared keep) = 2 * length list + (length keep + 3)
work s (scan_push keep) = length keep + 2
work s other = 0

abbrev Works : {T : Type 0} → ℕ → Outcome T → Type 0
Works n fault = Unit
Works n (moves e s pc) = Scanning pc × (work s pc < n)

deletes-Works :
    {T : Type 0} (s : Shared T) (n : ℕ) (o : Option (Node T)) (list spared keep : List ℕ)
    → Works (work s (scan_free (n ∷ list) spared keep)) (
        with_node o (λ _.
          moves silent (record s { nodes = put s.nodes n none }) (scan_free list spared keep)))
unfolding with_node
deletes-Works s n none list spared keep = tt
deletes-Works s n (some k) list spared keep = (deleting list spared keep, omega arith)

take-Works :
    {T : Type 0} (s : Shared T) (list : List ℕ)
    → s.retired ≡ list
    → Works (work s scan_take) (
        moves silent (record s { retired = [] }) (if is_null list then idle else scan_records list))
take-Works s [] e = (ended, omega arith)
take-Works s (n ∷ list) e = (listing (n ∷ list), omega (arith, ap (λ x. length x) e))

act-Works :
    {T : Type 0} (s : Shared T) (t : ℕ) {pc : Pc T}
    → Scanning pc
    → is_idle pc ≡ false
    → Works (work s pc) (act s t false pc)
unfolding act
act-Works s t ended h = absurd (ground (arith, h))
act-Works s t taking h = take-Works s s.retired refl
act-Works s t (listing list) h = (reading_first list s.records [], omega arith)
act-Works s t (reading_first list [] spared) h = (deleting list spared [], omega arith)
act-Works s t (reading_first list (r ∷ records) spared) h =
    (reading_second list r records (insert (s.first r) spared), omega arith)
act-Works s t (reading_second list r records spared) h =
    (reading_first list records (insert (s.second r) spared), omega arith)
act-Works s t (deleting [] spared keep) h = (pushing keep, omega arith)
act-Works s t (deleting (n ∷ list) spared keep) h = elim (Bool-cases (ltb 0 (count n spared))) [
  | inl e ↦ rw e (deleting list spared (n ∷ keep), omega arith)
  | inr e ↦ rw e (deletes-Works s n (s.nodes n) list spared keep)
]
act-Works s t (pushing []) h = (ended, omega arith)
act-Works s t (pushing (n ∷ keep)) h = (pushing keep, omega arith)

is_idle-idle : {T : Type 0} {pc : Pc T} → Scanning pc → is_idle pc ≡ true → pc ≡ idle
is_idle-idle ended e = refl
is_idle-idle taking e = absurd (ground (arith, e))
is_idle-idle (listing list) e = absurd (ground (arith, e))
is_idle-idle (reading_first list records spared) e = absurd (ground (arith, e))
is_idle-idle (reading_second list r records spared) e = absurd (ground (arith, e))
is_idle-idle (deleting list spared keep) e = absurd (ground (arith, e))
is_idle-idle (pushing keep) e = absurd (ground (arith, e))

work_pos : {T : Type 0} (s : Shared T) {pc : Pc T} → Scanning pc → 1 ≤ work s pc
work_pos s ended = omega arith
work_pos s taking = omega arith
work_pos s (listing list) = omega arith
work_pos s (reading_first list records spared) = omega arith
work_pos s (reading_second list r records spared) = omega arith
work_pos s (deleting list spared keep) = omega arith
work_pos s (pushing keep) = omega arith

-- A thread alone in a call: the state in which the others are in none.
pub record Alone {T : Type 0} (s : Shared T) (t : ℕ) (pc : Pc T) (w : World T) (g : Ghost T)
    : Type 0 where
  pub shared : w.shared ≡ s
  pub at : w.threads t ≡ pc
  pub others : (u : ℕ) → u ≢ t → w.threads u ≡ idle
  pub safe : IsSafe w g

module _ {T : Type 0} (t : ℕ) where
  abbrev Ends : ℕ → Shared T → Pc T → Type 0
  Ends fuel s pc =
      (s' : Shared T) × ((finish fuel s t pc ≡ some s')
        × ((w : World T) × ((g : Ghost T) × Alone s' t idle w g)))

  finish-goes_on :
      (fuel : ℕ) (s : Shared T) (pc : Pc T)
      → is_idle pc ≡ false
      → finish (suc fuel) s t pc ≡ go_on (act s t false pc) (λ s' pc'. finish fuel s' t pc')
  unfolding finish act
  finish-goes_on fuel s pc e = rw (e, finish) refl

  goes_on-Ends :
      (fuel : ℕ) (s : Shared T) (pc : Pc T) (w : World T) (g : Ghost T) (o : Outcome T)
      → act s t false pc ≡ o
      → Alone s t pc w g
      → Good s g t pc o
      → Works (suc fuel) o
      → ((s' : Shared T) (pc' : Pc T) (w' : World T) (g' : Ghost T)
          → Scanning pc'
          → work s' pc' ≤ fuel
          → Alone s' t pc' w' g'
          → Ends fuel s' pc')
      → is_idle pc ≡ false
      → Ends (suc fuel) s pc
  unfolding finish
  goes_on-Ends fuel s pc w g fault d a k x rec i = absurd k
  goes_on-Ends fuel s pc w g (moves e s' pc') d a (g', (does, m)) x rec i =
      let m' = subst (λ y. Moved y g t pc s' g' pc') (sym a.shared) m in
      let rest =
        rec s' pc' record { shared = s'; threads = put w.threads t pc' } g' x.0 (omega (arith, x.1))
          record {
            shared = refl;
            at = put-same w.threads t pc';
            others = λ u n. put-differs w.threads t u pc' n ∙ a.others u n;
            safe =
                IsSafe-Moved w g t s' g' pc' a.safe
                  (subst (λ y. Moved w.shared g t y s' g' pc') (sym a.at) m');
          } in
      let step = finish-goes_on fuel s pc i ∙ ap (λ y. go_on y (λ r p. finish fuel r t p)) d in
      (rest.0, (step ∙ rest.1.0, rest.1.1))

  finish-Ends :
      (fuel : ℕ) (s : Shared T) (pc : Pc T) (w : World T) (g : Ghost T)
      → Scanning pc
      → work s pc ≤ fuel
      → Alone s t pc w g
      → Ends fuel s pc
  unfolding finish
  finish-Ends zero s pc w g l h a = absurd (omega (arith, work_pos s l, h))
  finish-Ends (suc fuel) s pc w g l h a = elim (Bool-cases (is_idle pc)) [
    | inl e ↦
        (s, (rw (e, finish) refl, (w, (g, subst (λ y. Alone s t y w g) (is_idle-idle l e) a))))
    | inr e ↦
        let own =
          subst (λ y. Owns y g t pc) a.shared (subst (Owns w.shared g t) a.at (a.safe.owns t)) in
        let fit =
          subst (λ y. Fits y g t pc) a.shared (subst (Fits w.shared g t) a.at (a.safe.fits t)) in
        let memory = subst (λ y. Memory y g) a.shared a.safe.memory in
        let works = act-Works s t l e in
        goes_on-Ends fuel s pc w g (act s t false pc) refl a
          (act-Good s g t memory false pc own fit) (fewer (act s t false pc) (work s pc) h works)
          (finish-Ends fuel) e
  ]
    where
      fewer : (o : Outcome T) (n : ℕ) → n ≤ suc fuel → Works n o → Works (suc fuel) o
      fewer fault n h x = tt
      fewer (moves e s pc) n h x = (x.0, omega (arith, x.1, h))

  -- The scan that the destructor makes.
  pub scan-Ends :
      (fuel : ℕ) (s : Shared T) (g : Ghost T)
      → IsSafe (record { shared = s; threads = λ u. idle }) g
      → 2 * length s.records + (2 * length s.retired + 6) ≤ fuel
      → (s' : Shared T) × ((finish fuel s t scan_take ≡ some s')
          × ((w : World T) × ((g' : Ghost T) × Alone s' t idle w g')))
  scan-Ends fuel s g k h =
      let begins_scan : Moved s g t idle s g scan_take = record {
        memory = k.memory;
        owns = record {
          made = (k.owns t).made;
          held = (k.owns t).held;
          fresh = λ i n e. absurd (ground (arith, e));
          offers = λ i n e. absurd (ground (arith, e));
        };
        fits = tt;
        others = λ u other e own f d. (own, f, Heeds-nil scan_take other u refl);
        heeded = λ r scanner e own d. Heeds-unguarded scanner scan_take t refl refl;
        self = Heeds-nil scan_take scan_take t refl;
      } in
      finish-Ends fuel s scan_take record { shared = s; threads = put (λ u. idle) t scan_take } g
        taking h
        record {
          shared = refl;
          at = put-same (λ u. idle) t scan_take;
          others = λ u e. put-differs (λ u. idle) t u scan_take e;
          safe =
              IsSafe-Moved (record { shared = s; threads = λ u. idle }) g t s g scan_take k
                begins_scan;
        }
