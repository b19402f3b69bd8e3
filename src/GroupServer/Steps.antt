-- ===== src/GroupServer/Steps.antt =====
-- The calls of the server, by what each adds to the jobs and the log.
use game_programmer_portfoli.Base.{
  find, erase, ℕ, ◌+◌, ◌≤◌, count, ◌≡◌, refl, ap, subst, inl, inr, Option, none, some, List, [],
  ◌∷◌, length, ◌==◌, arith, Bool-cases, Option-cases,
}
use game_programmer_portfoli.GroupServer.{
  JobType, Job, cleared, on_connect, Server, post_leave, free_if_none, on_client_leave_locked,
  on_client_leave_check, on_recv, on_client_join_clear, on_client_join_store, on_client_join_insert,
}
use game_programmer_portfoli.GroupServer.Mail.{
  weight_of, typed_weight, map_weight, total, InRange, IsValid, Adds, nothing, idle_step,
  enqueue-Adds, set_player-Adds, free_player-Adds, sub_ref_packet-Adds,
}

map_weight-erase :
    (a : ℕ → ℕ) (m : List (ℕ × ℕ)) (k : ℕ)
    → map_weight a (erase m k) + weight_of a (find m k) ≡ map_weight a m
unfolding map_weight
map_weight-erase a [] k = refl
map_weight-erase a ((k', p) ∷ m) k = elim (Bool-cases (k' == k)) [
  | inl e ↦ rw e (omega arith)
  | inr e ↦ rw e (omega (arith, map_weight-erase a m k))
]

pub on_client_join_clear-Adds :
    (s : Server) (p id now : ℕ) → IsValid s → Adds s (on_client_join_clear s p id now) nothing
unfolding on_client_join_clear InRange
on_client_join_clear-Adds s p id now v =
    set_player-Adds s p (on_connect (record cleared { session_id = id }) now) tt v

pub on_client_join_store-Adds :
    (s : Server) (p : ℕ) → IsValid s → Adds s (on_client_join_store s p) nothing
unfolding on_client_join_store InRange
on_client_join_store-Adds s p v =
    set_player-Adds s p (record (s.players p) { group = some 0 }) (omega (arith, v.groups)) v

pub on_client_join_insert-Adds :
    (s : Server) (p id : ℕ) → IsValid s → Adds s (on_client_join_insert s p id) (λ a b. a p)
unfolding on_client_join_insert map_weight typed_weight
on_client_join_insert-Adds s p id v =
    let s' = record s { player_map = (id, p) ∷ s.player_map } in
    let job : Job = record { type = JobType.join; player = some p; packet = none } in
    elim (Option-cases (find s.player_map id)) [
      | inl e ↦
          let v' : IsValid s' = record { groups = v.groups; in_range = v.in_range } in
          let l = enqueue-Adds s' 0 job (omega (arith, v.groups)) v' in
          rw (on_client_join_insert, e)
            record {
              valid = l.valid;
              same_groups = l.same_groups;
              keeps_freed = l.keeps_freed;
              weighs = λ a b. omega (arith, l.weighs a b);
            }
      | inr (q, e) ↦ rw (on_client_join_insert, e) (free_player-Adds s p v)
    ]

-- The player, if it is in no group.
unfoldable pub unowned : ℕ → Option ℕ → Option ℕ
unowned p none = some p
unowned p (some g) = none

-- The player that a call of `OnClientLeave` takes out of the map without a LEAVE.
unfoldable pub lost_by : Server → Option ℕ → Option ℕ
lost_by s none = none
lost_by s (some p) = unowned p (s.players p).group

post_leave-Adds :
    (s : Server) (p : ℕ) (o : Option ℕ)
    → (s.players p).group ≡ o
    → IsValid s
    → (d : (ℕ → ℕ) → (ℕ → ℕ) → ℕ) × Adds s (post_leave s p o) d
      × ((a b : ℕ → ℕ) → d a b + weight_of a (unowned p o) ≡ a p)
unfolding post_leave typed_weight InRange unowned
post_leave-Adds s p none e v = (nothing, idle_step s v, λ a b. omega arith)
post_leave-Adds s p (some g) e v =
    let r = subst (λ o. InRange (length s.groups) o) e (v.in_range p) in
    (
      λ a b. a p,
      enqueue-Adds s g record { type = JobType.leave; player = some p; packet = none } r v,
      λ a b. omega arith,
    )

-- A section of `OnClientLeave` under the lock, which takes out the player `lost` without a LEAVE.
pub record Locks (s s' : Server) (lost : Option ℕ) : Type 0 where
  pub valid : IsValid s'
  pub weighs : (a b : ℕ → ℕ) → total a b s' + weight_of a lost ≡ total a b s
  pub keeps_freed : (q : ℕ) → count q s.freed ≤ count q s'.freed

pub on_client_leave_locked-Locks :
    (s : Server) (id : ℕ)
    → IsValid s
    → let (found, s') = on_client_leave_locked s id in Locks s s' (lost_by s found)
unfolding on_client_leave_locked lost_by
on_client_leave_locked-Locks s id v = elim (Option-cases (find s.player_map id)) [
  | inl e ↦
      rw (on_client_leave_locked, e)
        record { valid = v; weighs = λ a b. omega arith; keeps_freed = λ q. omega arith }
  | inr (p, e) ↦
      let s' = record s { player_map = erase s.player_map id } in
      let v' : IsValid s' = record { groups = v.groups; in_range = v.in_range } in
      let (d, k, f) = post_leave-Adds s' p (s.players p).group refl v' in
      rw (on_client_leave_locked, e)
        record {
          valid = k.valid;
          weighs = λ a b.
              omega (
                arith,
                k.weighs a b,
                f a b,
                map_weight-erase a s.player_map id,
                ap (weight_of a) e,
              );
          keeps_freed = k.keeps_freed;
        }
]

free_if_none-Adds :
    (s : Server) (p : ℕ) (o : Option ℕ)
    → IsValid s
    → Adds s (free_if_none s p o) (λ a b. weight_of a (unowned p o))
unfolding free_if_none unowned
free_if_none-Adds s p none v = free_player-Adds s p v
free_if_none-Adds s p (some g) v = idle_step s v

pub on_client_leave_check-Adds :
    (s : Server) (p : ℕ)
    → IsValid s
    → Adds s (on_client_leave_check s (some p)) (λ a b. weight_of a (lost_by s (some p)))
unfolding on_client_leave_check lost_by
on_client_leave_check-Adds s p v = free_if_none-Adds s p (s.players p).group v

pub on_recv-Adds : (s : Server) (id h : ℕ) → IsValid s → Adds s (on_recv s id h) (λ a b. b h)
unfolding on_recv InRange typed_weight
on_recv-Adds s id h v = elim (Option-cases (find s.player_map id)) [
  | inl e ↦ rw (on_recv, e) (sub_ref_packet-Adds s h v)
  | inr (p, e) ↦ elim (Option-cases (s.players p).group) [
    | inl n ↦ rw (on_recv, e, n) (sub_ref_packet-Adds s h v)
    | inr (g, n) ↦
        let r = subst (λ o. InRange (length s.groups) o) n (v.in_range p) in
        rw (on_recv, e, n) (enqueue-Adds s g _ r v)
  ]
]
