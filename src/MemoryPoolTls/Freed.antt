-- ===== src/MemoryPoolTls/Freed.antt =====
-- `Free`: where the node goes.
use game_programmer_portfoli.Base.{
  ℕ, ◌+◌, ◌-◌, ◌<◌, ◌≡◌, refl, inl, inr, some, ◌∷◌, length, ltb, arith, weight, Bool-cases,
}
use game_programmer_portfoli.MemoryPoolTls.{MemoryPool, ThreadData, thread_data}
use game_programmer_portfoli.MemoryPoolTls.Chains.{
  total, IsValid, held_all-set, get_or-IsCounted, set-AllCounted,
}
use game_programmer_portfoli.MemoryPoolTls.{move_node_size, push_to_global, free}

-- What `Free` leaves.
pub record Freed (n : ℕ) (p q : MemoryPool) : Type 0 where
  pub valid : IsValid q
  pub weighs : (w : ℕ → ℕ) → total w q ≡ total w p + w n
  pub same_alloc : q.alloc_count ≡ p.alloc_count
  pub use_count : q.use_count ≡ p.use_count - 1

pub free-Freed :
    (t n : ℕ) (p : MemoryPool) → t < length p.threads → IsValid p → Freed n p (free p t (some n)).1
unfolding free push_to_global weight
free-Freed t n p h v =
    let d = thread_data p t in
    let d' : ThreadData = record d {
      local = record { top = n ∷ d.local.top; count = d.local.count + 1 };
    } in
    let c = get_or-IsCounted p.threads t v.threads in
    elim (Bool-cases (ltb move_node_size d.local.count)) [
      | inl b ↦ rw b record {
        valid = record { threads = v.threads; storage = omega (arith, v.storage) };
        weighs = λ w. omega arith;
        same_alloc = refl;
        use_count = refl;
      }
      | inr b ↦ rw b record {
        valid = record {
          threads = set-AllCounted p.threads t d' (omega (arith, c.0), c.1) v.threads;
          storage = v.storage;
        };
        weighs = λ w. omega (arith, held_all-set w p.threads t d' h);
        same_alloc = refl;
        use_count = refl;
      }
    ]
