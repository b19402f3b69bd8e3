-- ===== src/MemoryPoolTls/Reserve.antt =====
-- `ReserveNodes`: which nodes it adds.
use game_programmer_portfoli.Base.{
  ℕ, ◌+◌, ◌<◌, ◌≡◌, refl, ap, ◌∙◌, List, [], ◌∷◌, ◌++◌, length, arith, weight, weight-append,
  length-append, length-set,
}
use game_programmer_portfoli.MemoryPoolTls.{
  MemoryPool, ThreadData, thread_data, link, reserve_nodes,
}
use game_programmer_portfoli.MemoryPoolTls.Chains.{
  total, IsValid, held_all-set, get_or-IsCounted, set-AllCounted, get_or-set,
}

link-weight : (w : ℕ → ℕ) (ns head : List ℕ) → weight w (link ns head) ≡ weight w ns + weight w head
unfolding link weight
link-weight w [] head = omega arith
link-weight w (n ∷ ns) head = omega (arith, link-weight w ns (n ∷ head))

link-length : (ns head : List ℕ) → length (link ns head) ≡ length ns + length head
unfolding link
link-length [] head = omega arith
link-length (n ∷ ns) head = omega (arith, link-length ns (n ∷ head))

-- What `ReserveNodes` leaves.
pub record Reserved (t : ℕ) (p : MemoryPool) (news : List ℕ) (q : MemoryPool) : Type 0 where
  pub valid : IsValid q
  pub same_threads : length q.threads ≡ length p.threads
  pub weighs : (w : ℕ → ℕ) → total w q ≡ total w p + weight w news
  pub alloc_count : q.alloc_count ≡ p.alloc_count + length news
  pub use_count : q.use_count ≡ p.use_count
  pub local_length :
      length (thread_data q t).local.top ≡ length (thread_data p t).local.top + length news

pub reserve_nodes_lem :
    (t : ℕ) (p : MemoryPool) (news : List ℕ)
    → t < length p.threads
    → IsValid p
    → Reserved t p news (reserve_nodes p t news)
unfolding reserve_nodes weight
reserve_nodes_lem t p [] h v = record {
  valid = v;
  same_threads = refl;
  weighs = λ w. omega arith;
  alloc_count = omega arith;
  use_count = refl;
  local_length = omega arith;
}
reserve_nodes_lem t p (n ∷ ns) h v =
    let d = thread_data p t in
    let c = get_or-IsCounted p.threads t v.threads in
    let chain = link ns (n ∷ []) in
    let d' : ThreadData = record d {
      local = record { top = chain ++ d.local.top; count = d.local.count + length (n ∷ ns) };
    } in
    let longer = length-append chain d.local.top in
    record {
      valid = record {
        threads =
            set-AllCounted p.threads t d' (omega (arith, c.0, longer, link-length ns (n ∷ [])), c.1)
              v.threads;
        storage = v.storage;
      };
      same_threads = length-set p.threads t d';
      weighs = λ w. omega (
        arith,
        held_all-set w p.threads t d' h,
        weight-append w chain d.local.top,
        link-weight w ns (n ∷ []),
      );
      alloc_count = refl;
      use_count = refl;
      local_length =
          ap (λ x. length x.local.top) (get_or-set p.threads t d' h)
          ∙ omega (arith, longer, link-length ns (n ∷ []));
    }
