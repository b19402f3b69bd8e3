-- ===== src/MemoryPoolTls/Moves.antt =====
-- `Alloc`, `Free`, `Shrink` and the destructor: which nodes they move.
use game_programmer_portfoli.Base.{
  ℕ, zero, suc, ◌+◌, ◌-◌, ◌≤◌, ◌<◌, ◌≡◌, refl, ap, subst, ◌∙◌, ◌⊎◌, inl, inr, Option, none, some,
  List, [], ◌∷◌, length, arith, weight, length-set,
}
use game_programmer_portfoli.MemoryPoolTls.{
  MemoryPool, ThreadData, ThreadLocal, thread_data, reserve_nodes, hand_out, alloc_new,
  alloc_from_global, alloc_by_stealing, alloc_from_batch, alloc, steal_batch, pop_from_global,
  pop_batch_from_my_batch,
}
use game_programmer_portfoli.MemoryPoolTls.Chains.{
  total, IsValid, Took, held_all-set, get_or-IsCounted, set-AllCounted, steal_batch_lem,
  pop_from_global_lem, pop_batch_lem,
}
use game_programmer_portfoli.MemoryPoolTls.Reserve.{reserve_nodes_lem}

-- The node that a call hands out.
abbrev pub handed : Option ℕ → List ℕ
handed none = []
handed (some n) = n ∷ []

-- What `Alloc` at the pool `p` answers: the nodes `fresh` that it made are none or the new ones.
pub record Gave (p : MemoryPool) (news : List ℕ) (r : Option ℕ × MemoryPool) : Type 0 where
  pub valid : IsValid r.1
  pub same_threads : length r.1.threads ≡ length p.threads
  pub fresh : List ℕ
  pub source : (fresh ≡ []) ⊎ (fresh ≡ news)
  pub weighs : (w : ℕ → ℕ) → total w r.1 + weight w (handed r.0) ≡ total w p + weight w fresh
  pub alloc_count : r.1.alloc_count ≡ p.alloc_count + length fresh
  pub use_count : r.1.use_count ≡ p.use_count + length (handed r.0)
  pub some_node : 1 ≤ length news → length (handed r.0) ≡ 1

-- Before a node is handed out: the chain found is not in the lists of `q`, or is the thread's own.
record Ready (t : ℕ) (p : MemoryPool) (news : List ℕ) (q : MemoryPool) (chain : List ℕ)
    : Type 0 where
  valid : IsValid q
  same_threads : length q.threads ≡ length p.threads
  fresh : List ℕ
  source : (fresh ≡ []) ⊎ (fresh ≡ news)
  weighs :
      (w : ℕ → ℕ)
      → total w q + weight w chain
        ≡ total w p + weight w (thread_data q t).local.top + weight w fresh
  alloc_count : q.alloc_count ≡ p.alloc_count + length fresh
  use_count : q.use_count ≡ p.use_count

hand_out_lem :
    (t : ℕ) (p : MemoryPool) (news : List ℕ) (q : MemoryPool) (chain : List ℕ) (c : ℕ)
    (o : Option ℕ × MemoryPool)
    → t < length p.threads
    → c ≡ length chain
    → Ready t p news q chain
    → (chain ≡ [] → Gave p news o)
    → Gave p news (hand_out q t chain c o)
unfolding hand_out weight
hand_out_lem t p news q [] c o h e r other = other refl
hand_out_lem t p news q (n ∷ rest) c o h e r other =
    let d = thread_data q t in
    let local' : ThreadLocal = record { top = rest; count = c - 1 } in
    let d' : ThreadData = record d { local = local' } in
    record {
      valid = record {
        threads =
            set-AllCounted q.threads t d'
              (omega (arith, e), (get_or-IsCounted q.threads t r.valid.threads).1) r.valid.threads;
        storage = r.valid.storage;
      };
      same_threads = length-set q.threads t d' ∙ r.same_threads;
      fresh = r.fresh;
      source = r.source;
      weighs = λ w.
          omega
            (arith, held_all-set w q.threads t d' (omega (arith, h, r.same_threads)), r.weighs w);
      alloc_count = r.alloc_count;
      use_count = omega (arith, r.use_count);
      some_node = λ u. refl;
    }

Took-Ready :
    (t : ℕ) (p : MemoryPool) (news chain : List ℕ) (q : MemoryPool)
    → (thread_data p t).local.top ≡ []
    → Took t p chain q
    → Ready t p news q chain
unfolding weight
Took-Ready t p news chain q e k = record {
  valid = k.valid;
  same_threads = k.same_threads;
  fresh = [];
  source = inl refl;
  weighs = λ w. omega (arith, k.weighs w, ap (λ x. weight w x.top) k.same_local, ap (weight w) e);
  alloc_count = omega (arith, k.same_alloc);
  use_count = k.same_use;
}

Took-Gave :
    (t : ℕ) (p : MemoryPool) (news : List ℕ) (q : MemoryPool) (o : Option ℕ × MemoryPool)
    → Took t p [] q
    → Gave q news o
    → Gave p news o
unfolding weight
Took-Gave t p news q o k g = record {
  valid = g.valid;
  same_threads = g.same_threads ∙ k.same_threads;
  fresh = g.fresh;
  source = g.source;
  weighs = λ w. omega (arith, g.weighs w, k.weighs w);
  alloc_count = omega (arith, g.alloc_count, k.same_alloc);
  use_count = omega (arith, g.use_count, k.same_use);
  some_node = g.some_node;
}

-- A chain taken off the pool, then handed out, with the parts behind it.
take_chain_lem :
    (t : ℕ) (p : MemoryPool) (news : List ℕ) (r : List ℕ × MemoryPool) (c : ℕ)
    (o : Option ℕ × MemoryPool)
    → t < length p.threads
    → (thread_data p t).local.top ≡ []
    → Took t p r.0 r.1
    → c ≡ length r.0
    → (t < length r.1.threads → IsValid r.1 → (thread_data r.1 t).local.top ≡ [] → Gave r.1 news o)
    → Gave p news (hand_out r.1 t r.0 c o)
take_chain_lem t p news r c o h e k l other =
    hand_out_lem t p news r.1 r.0 c o h l (Took-Ready t p news r.0 r.1 e k) (λ z.
      Took-Gave t p news r.1 o (subst (λ x. Took t p x r.1) z k)
        (other (omega (arith, h, k.same_threads)) k.valid (ap (λ x. x.top) k.same_local ∙ e)))

alloc_new_lem :
    (t : ℕ) (p : MemoryPool) (news : List ℕ)
    → t < length p.threads
    → IsValid p
    → (thread_data p t).local.top ≡ []
    → Gave p news (alloc_new p t news)
unfolding alloc_new weight
alloc_new_lem t p news h v e =
    let q = reserve_nodes p t news in
    let s = reserve_nodes_lem t p news h v in
    let local' = (thread_data q t).local in
    hand_out_lem t p news q local'.top local'.count (none, q) h
      (get_or-IsCounted q.threads t s.valid.threads).0
      record {
        valid = s.valid;
        same_threads = s.same_threads;
        fresh = news;
        source = inr refl;
        weighs = λ w. omega (arith, s.weighs w);
        alloc_count = s.alloc_count;
        use_count = s.use_count;
      }
      (λ z. record {
        valid = s.valid;
        same_threads = s.same_threads;
        fresh = news;
        source = inr refl;
        weighs = λ w. omega (arith, s.weighs w);
        alloc_count = s.alloc_count;
        use_count = omega (arith, s.use_count);
        some_node = λ u. absurd (omega (arith, u, s.local_length, ap (λ x. length x) z));
      })

alloc_from_global_lem :
    (t : ℕ) (p : MemoryPool) (news : List ℕ)
    → t < length p.threads
    → IsValid p
    → (thread_data p t).local.top ≡ []
    → Gave p news (alloc_from_global p t news)
unfolding alloc_from_global
alloc_from_global_lem t p news h v e =
    take_chain_lem t p news (pop_from_global p) _ _ h e (pop_from_global_lem t p v) refl
      (alloc_new_lem t _ news)

alloc_by_stealing_lem :
    (scans t : ℕ) (p : MemoryPool) (news : List ℕ)
    → t < length p.threads
    → IsValid p
    → (thread_data p t).local.top ≡ []
    → Gave p news (alloc_by_stealing scans p t news)
unfolding alloc_by_stealing
alloc_by_stealing_lem zero t p news h v e = alloc_from_global_lem t p news h v e
alloc_by_stealing_lem (suc scans) t p news h v e =
    take_chain_lem t p news (steal_batch p t) _ _ h e (steal_batch_lem t p v) refl
      (alloc_by_stealing_lem scans t _ news)

alloc_from_batch_lem :
    (t : ℕ) (p : MemoryPool) (news : List ℕ)
    → t < length p.threads
    → IsValid p
    → (thread_data p t).local.top ≡ []
    → Gave p news (alloc_from_batch p t news)
unfolding alloc_from_batch
alloc_from_batch_lem t p news h v e =
    let b = pop_batch_lem t p h v in
    let (chain, n_chain, q) = pop_batch_from_my_batch p t in
    take_chain_lem t p news (chain, q) n_chain _ h e b.0 b.1 (alloc_by_stealing_lem 2 t q news)

-- `Alloc` moves one node out of the pool and no other; what it makes are the new nodes.
pub alloc-Gave :
    (t : ℕ) (p : MemoryPool) (news : List ℕ)
    → t < length p.threads
    → IsValid p
    → Gave p news (alloc p t news)
unfolding alloc weight
alloc-Gave t p news h v =
    let local' = (thread_data p t).local in
    hand_out_lem t p news p local'.top local'.count _ h (get_or-IsCounted p.threads t v.threads).0
      record {
        valid = v;
        same_threads = refl;
        fresh = [];
        source = inl refl;
        weighs = λ w. omega arith;
        alloc_count = omega arith;
        use_count = refl;
      }
      (alloc_from_batch_lem t p news h v)
