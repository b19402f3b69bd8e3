-- ===== src/MemoryPoolTls/Chains.antt =====
-- The nodes that a pool holds, counted, and what the calls on one chain do to them.
use game_programmer_portfoli.Base.{
  ℕ, zero, suc, ◌+◌, ◌<◌, ◌≡◌, refl, ap, inl, inr, List, [], ◌∷◌, length, get_or, set, take, drop,
  is_null, leb, ◌==◌, if◌then◌else◌, arith, weight, weight-append, take-append_drop, length-take,
  length-drop, length-set, Bool-cases,
}
use game_programmer_portfoli.MemoryPoolTls.{
  MemoryPool, ThreadData, Shared, no_data, thread_data, set_thread, pop_shared, steal_scan,
  steal_batch, pop_from_global, pop_batch_from_my_batch, next_version, move_node_size,
}

-- The weight of the nodes of one thread, of all threads and of the pool: with 1 for each node it is
-- their number, with 1 for one node how often that one is there.
abbrev pub held : (ℕ → ℕ) → ThreadData → ℕ
held w d = weight w d.local.top + weight w d.batch.top

unfoldable pub held_all : (ℕ → ℕ) → List ThreadData → ℕ
held_all w [] = 0
held_all w (d ∷ ds) = held w d + held_all w ds

abbrev pub total : (ℕ → ℕ) → MemoryPool → ℕ
total w p = held_all w p.threads + weight w p.storage.top

-- The counts of nodes are right.
abbrev pub IsCounted : ThreadData → Type 0
IsCounted d = (d.local.count ≡ length d.local.top) × (d.batch.count ≡ length d.batch.top)

unfoldable pub AllCounted : List ThreadData → Type 0
AllCounted [] = Unit
AllCounted (d ∷ ds) = IsCounted d × AllCounted ds

pub record IsValid (p : MemoryPool) : Type 0 where
  pub threads : AllCounted p.threads
  pub storage : p.storage.count ≡ length p.storage.top

pub held_all-set :
    (w : ℕ → ℕ) (ds : List ThreadData) (t : ℕ) (d : ThreadData)
    → t < length ds
    → held_all w (set ds t d) + held w (get_or ds t no_data) ≡ held_all w ds + held w d
unfolding held_all
held_all-set w [] t d h = absurd (omega arith)
held_all-set w (e ∷ ds) zero d h = omega arith
held_all-set w (e ∷ ds) (suc t) d h = omega (arith, held_all-set w ds t d)

pub get_or-IsCounted :
    (ds : List ThreadData) (t : ℕ) → AllCounted ds → IsCounted (get_or ds t no_data)
unfolding AllCounted
get_or-IsCounted [] t v = (refl, refl)
get_or-IsCounted (e ∷ ds) zero v = v.0
get_or-IsCounted (e ∷ ds) (suc t) v = get_or-IsCounted ds t v.1

pub set-AllCounted :
    (ds : List ThreadData) (t : ℕ) (d : ThreadData)
    → IsCounted d
    → AllCounted ds
    → AllCounted (set ds t d)
unfolding AllCounted
set-AllCounted [] t d c v = v
set-AllCounted (e ∷ ds) zero d c v = (c, v.1)
set-AllCounted (e ∷ ds) (suc t) d c v = (v.0, set-AllCounted ds t d c v.1)

pub get_or-set :
    (ds : List ThreadData) (t : ℕ) (d : ThreadData)
    → t < length ds
    → get_or (set ds t d) t no_data ≡ d
get_or-set [] t d h = absurd (omega arith)
get_or-set (e ∷ ds) zero d h = refl
get_or-set (e ∷ ds) (suc t) d h = get_or-set ds t d (omega arith)

-- What taking a chain of nodes off the pool `p` leaves, for the thread `t`.
pub record Took (t : ℕ) (p : MemoryPool) (chain : List ℕ) (q : MemoryPool) : Type 0 where
  pub valid : IsValid q
  pub same_threads : length q.threads ≡ length p.threads
  pub weighs : (w : ℕ → ℕ) → total w q + weight w chain ≡ total w p
  pub same_local : (thread_data q t).local ≡ (thread_data p t).local
  pub same_alloc : q.alloc_count ≡ p.alloc_count
  pub same_use : q.use_count ≡ p.use_count

pub keep_all : (t : ℕ) (p : MemoryPool) → IsValid p → Took t p [] p
unfolding weight
keep_all t p v = record {
  valid = v;
  same_threads = refl;
  weighs = λ w. omega arith;
  same_local = refl;
  same_alloc = refl;
  same_use = refl;
}

pop_shared-weight :
    (w : ℕ → ℕ) (s : Shared)
    → weight w (pop_shared s).1.top + weight w (pop_shared s).0 ≡ weight w s.top
unfolding pop_shared
pop_shared-weight w s =
    let k : ℕ = if leb move_node_size s.count then move_node_size else s.count in
    omega (
      arith,
      weight-append w (take k s.top) (drop k s.top),
      ap (weight w) (take-append_drop k s.top),
    )

pop_shared-count :
    (s : Shared) → s.count ≡ length s.top → (pop_shared s).1.count ≡ length (pop_shared s).1.top
unfolding pop_shared
pop_shared-count s e =
    let k : ℕ = if leb move_node_size s.count then move_node_size else s.count in
    omega (arith, length-take k s.top, length-drop k s.top, e)

-- What a scan leaves of the threads.
pub record Scanned (ds : List ThreadData) (stolen : List ℕ) (ds' : List ThreadData) : Type 0 where
  pub counted : AllCounted ds'
  pub same_length : length ds' ≡ length ds
  pub weighs : (w : ℕ → ℕ) → held_all w ds' + weight w stolen ≡ held_all w ds
  pub same_local : (t : ℕ) → (get_or ds' t no_data).local ≡ (get_or ds t no_data).local

local-cons :
    (d d' : ThreadData) (ds ds' : List ThreadData)
    → d'.local ≡ d.local
    → ((t : ℕ) → (get_or ds' t no_data).local ≡ (get_or ds t no_data).local)
    → (t : ℕ) → (get_or (d' ∷ ds') t no_data).local ≡ (get_or (d ∷ ds) t no_data).local
local-cons d d' ds ds' e h zero = e
local-cons d d' ds ds' e h (suc t) = h t

Scanned-cons :
    (d : ThreadData) (ds : List ThreadData) (r : List ℕ × List ThreadData)
    → IsCounted d
    → Scanned ds r.0 r.1
    → Scanned (d ∷ ds) r.0 (d ∷ r.1)
unfolding held_all AllCounted
Scanned-cons d ds r c s = record {
  counted = (c, s.counted);
  same_length = ap suc s.same_length;
  weighs = λ w. omega (arith, s.weighs w);
  same_local = local-cons d d ds r.1 refl s.same_local;
}

Scanned-stolen :
    (d : ThreadData) (ds : List ThreadData)
    → IsCounted d
    → AllCounted ds
    → Scanned (d ∷ ds) (pop_shared d.batch).0 (record d { batch = (pop_shared d.batch).1 } ∷ ds)
unfolding held_all AllCounted
Scanned-stolen d ds c v = record {
  counted = ((c.0, pop_shared-count d.batch c.1), v);
  same_length = refl;
  weighs = λ w. omega (arith, pop_shared-weight w d.batch);
  same_local = local-cons d _ ds ds refl (λ t. refl);
}

steal_scan_lem :
    (me i : ℕ) (ds : List ThreadData)
    → AllCounted ds
    → Scanned ds (steal_scan me i ds).0 (steal_scan me i ds).1
unfolding steal_scan AllCounted weight
steal_scan_lem me i [] v = record {
  counted = v;
  same_length = refl;
  weighs = λ w. omega arith;
  same_local = λ t. refl;
}
steal_scan_lem me i (d ∷ ds) v =
    let kept =
      Scanned-cons d ds (steal_scan me (suc i) ds) v.0 (steal_scan_lem me (suc i) ds v.1) in
    elim (Bool-cases (i == me)) [
      | inl e ↦ rw e kept
      | inr e ↦ elim (Bool-cases (leb d.batch.count 0)) [
        | inl c ↦ rw (e, c) kept
        | inr c ↦ elim (Bool-cases (is_null d.batch.top)) [
          | inl n ↦ rw (e, c, n) kept
          | inr n ↦ rw (e, c, n) (Scanned-stolen d ds v.0 v.1)
        ]
      ]
    ]

pub steal_batch_lem :
    (t : ℕ) (p : MemoryPool) → IsValid p → Took t p (steal_batch p t).0 (steal_batch p t).1
unfolding steal_batch
steal_batch_lem t p v =
    let s = steal_scan_lem t 0 p.threads v.threads in
    record {
      valid = record { threads = s.counted; storage = v.storage };
      same_threads = s.same_length;
      weighs = λ w. omega (arith, s.weighs w);
      same_local = s.same_local t;
      same_alloc = refl;
      same_use = refl;
    }

global_chain :
    (t : ℕ) (p : MemoryPool)
    → IsValid p
    → Took t p (pop_shared p.storage).0 (record p { storage = (pop_shared p.storage).1 })
global_chain t p v = record {
  valid = record { threads = v.threads; storage = pop_shared-count p.storage v.storage };
  same_threads = refl;
  weighs = λ w. omega (arith, pop_shared-weight w p.storage);
  same_local = refl;
  same_alloc = refl;
  same_use = refl;
}

pub pop_from_global_lem :
    (t : ℕ) (p : MemoryPool) → IsValid p → Took t p (pop_from_global p).0 (pop_from_global p).1
unfolding pop_from_global
pop_from_global_lem t p v = elim (Bool-cases (leb p.storage.count 0)) [
  | inl c ↦ rw c (keep_all t p v)
  | inr c ↦ elim (Bool-cases (is_null p.storage.top)) [
    | inl n ↦ rw (c, n) (keep_all t p v)
    | inr n ↦ rw (c, n) (global_chain t p v)
  ]
]

batch_chain :
    (t : ℕ) (p : MemoryPool) (b : Shared)
    → t < length p.threads
    → b.top ≡ []
    → b.count ≡ 0
    → IsValid p
    → Took t p (thread_data p t).batch.top (set_thread p t (record (thread_data p t) { batch = b }))
unfolding weight
batch_chain t p b h e c v =
    let d = thread_data p t in
    let d' : ThreadData = record d { batch = b } in
    record {
      valid = record {
        threads =
            set-AllCounted p.threads t d'
              ((get_or-IsCounted p.threads t v.threads).0, rw (c, e) refl) v.threads;
        storage = v.storage;
      };
      same_threads = length-set p.threads t d';
      weighs = λ w. omega (arith, held_all-set w p.threads t d' h, ap (weight w) e);
      same_local = ap (λ x. x.local) (get_or-set p.threads t d' h);
      same_alloc = refl;
      same_use = refl;
    }

pub pop_batch_lem :
    (t : ℕ) (p : MemoryPool)
    → t < length p.threads
    → IsValid p
    → let (chain, n_chain, q) = pop_batch_from_my_batch p t in
      Took t p chain q × (n_chain ≡ length chain)
unfolding pop_batch_from_my_batch
pop_batch_lem t p h v =
    let d = thread_data p t in
    elim (Bool-cases (is_null d.batch.top)) [
      | inl n ↦ rw n (keep_all t p v, refl)
      | inr n ↦
          let b : Shared = record { version = next_version d.batch.version; top = []; count = 0 } in
          rw n (batch_chain t p b h refl refl v, (get_or-IsCounted p.threads t v.threads).1)
    ]
