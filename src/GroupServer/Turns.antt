-- ===== src/GroupServer/Turns.antt =====
-- The turns of a group, by what each adds to the jobs and the log.
use game_programmer_portfoli.Base.{
  find, read_or, ℕ, ◌+◌, ◌-◌, ◌<◌, ◌≡◌, refl, sym, ap, subst, ◌∙◌, inl, inr, Bool, true, false, not,
  Option, none, some, List, [], ◌∷◌, length, ◌==◌, if◌then◌else◌, arith, length-set, Bool-cases,
  Option-cases,
}
use native.Mathlib.Nat.{mod-lt}
use game_programmer_portfoli.Packet.{Packet, get_int}
use game_programmer_portfoli.GroupServer.{
  JobType, join, leave, packet, group_enter, Job, drain_to, Player, on_login, update_heartbeat,
  Group, Server, group_at, set_group, set_player, enqueue, get_echo_group_for,
}
use game_programmer_portfoli.GroupServer.Handlers.{
  Context, send_packet, on_enter, remove_player, on_leave, move_to_echo, handle_login,
  login_on_recv, handle_echo, echo_on_recv, handle_packet, handle_job, handle_front, handle_next,
  drain, game_req_login, game_req_echo, game_req_heartbeat,
}
use game_programmer_portfoli.GroupServer.Mail.{
  weight_of, typed_weight, jobs_weight, mail-set, InRange, IsValid, Adds, nothing, idle_step,
  then_step, set_group-Adds, enqueue-Adds, set_player-Adds, free_player-Adds, sub_ref_packet-Adds,
  reserve_disconnect-Adds,
}

on_enter-Adds : (s : Server) (g : ℕ) (p : Option ℕ) → IsValid s → Adds s (on_enter s g p) nothing
unfolding on_enter
on_enter-Adds s g none v = idle_step s v
on_enter-Adds s g (some p) v = set_group-Adds s g _ v (λ a b. refl)

remove_player-Adds : (s : Server) (g id : ℕ) → IsValid s → Adds s (remove_player s g id) nothing
unfolding remove_player
remove_player-Adds s g id v = elim (Option-cases (find (group_at s g).players id)) [
  | inl e ↦ rw (remove_player, e) (idle_step s v)
  | inr (p, e) ↦ rw (remove_player, e) (set_group-Adds s g _ v (λ a b. refl))
]

on_leave-Adds :
    (s : Server) (g : ℕ) (p : Option ℕ) → IsValid s → Adds s (on_leave s g p) (λ a b. weight_of a p)
unfolding on_leave typed_weight InRange
on_leave-Adds s g none v = idle_step s v
on_leave-Adds s g (some p) v = elim (Option-cases (s.players p).group) [
  | inl e ↦ rw (on_leave, e) (free_player-Adds s p v)
  | inr (cur, e) ↦
      let k = remove_player-Adds s g (s.players p).session_id v in
      let r : cur < length s.groups = subst (λ o. InRange (length s.groups) o) e (v.in_range p) in
      elim (Bool-cases (cur == g)) [
        | inl c ↦ rw (on_leave, e, c) (then_step s _ _ _ k (free_player-Adds _ p k.valid))
        | inr c ↦ rw (on_leave, e, c) (enqueue-Adds s cur _ r v)
      ]
]

target-InRange :
    (s : Server) (id : ℕ) → IsValid s → get_echo_group_for s.groups id < length s.groups
unfolding get_echo_group_for
target-InRange s id v =
    let m = mod-lt id {m = length s.groups - 1} (omega (arith, v.groups)) in
    omega (arith, m, v.groups)

move_to_echo-Adds :
    (s : Server) (g p : ℕ) (x : Player) → IsValid s → Adds s (move_to_echo s g p x) nothing
unfolding move_to_echo typed_weight InRange
move_to_echo-Adds s g p x v =
    let target = get_echo_group_for s.groups x.session_id in
    let enter : Job = record { type = JobType.group_enter; player = some p; packet = none } in
    let h = target-InRange s x.session_id v in
    let k = enqueue-Adds s target enter h v in
    let s₁ = enqueue s target enter in
    let x' : Player = record x { group = some target } in
    let l = set_player-Adds s₁ p x' (omega (arith, h, k.same_groups)) k.valid in
    let s₂ = set_player s₁ p x' in
    let m = remove_player-Adds s₂ g x.session_id l.valid in
    then_step s s₁ _ _ k (then_step s₁ s₂ _ _ l m)

send_packet-Adds :
    (c : Context) (s : Server) (id : ℕ) (p : Packet)
    → IsValid s
    → Adds s (if c.sends then send_packet s id p else s) nothing
send_packet-Adds c s id p v = elim (Bool-cases (c.sends)) [
  | inl e ↦ rw e record {
    valid = record { groups = v.groups; in_range = v.in_range };
    same_groups = refl;
    keeps_freed = λ q. omega arith;
    weighs = λ a b. omega arith;
  }
  | inr e ↦ rw e (idle_step s v)
]

handle_login-Adds :
    (c : Context) (s : Server) (g p : ℕ) (r : Packet)
    → IsValid s
    → Adds s (handle_login c s g p r).1 nothing
unfolding handle_login
handle_login-Adds c s g p r v =
    let x : Player = record (on_login (s.players p) c.now) {
      account_no = read_or (get_int r 8).0 c.unset;
    } in
    let s₁ = set_player s p x in
    let k = set_player-Adds s p x (v.in_range p) v in
    let l = move_to_echo-Adds s₁ g p x k.valid in
    let s₂ = move_to_echo s₁ g p x in
    elim (Option-cases c.allocated) [
      | inl e ↦ rw (handle_login, e) (idle_step s v)
      | inr (res, e) ↦
          rw (handle_login, e)
            (then_step s s₁ _ _ k (then_step s₁ s₂ _ _ l (send_packet-Adds c s₂ _ _ l.valid)))
    ]

if-Adds :
    (b : Bool) (s x y : Server) (d : (ℕ → ℕ) → (ℕ → ℕ) → ℕ)
    → Adds s x d
    → Adds s y d
    → Adds s (if b then x else y) d
if-Adds true s x y d k l = k
if-Adds false s x y d k l = l

login_on_recv-Adds :
    (c : Context) (s : Server) (g p : ℕ) (r : Packet)
    → IsValid s
    → Adds s (login_on_recv c s g p r) nothing
unfolding login_on_recv
login_on_recv-Adds c s g p r v =
    let type = read_or (get_int r 2).0 c.unset in
    let request' = (get_int r 2).1 in
    let refused = reserve_disconnect-Adds s p v in
    let k = handle_login-Adds c s g p request' v in
    let after = then_step s _ _ _ k (reserve_disconnect-Adds _ p k.valid) in
    if-Adds _ s _ _ _ (idle_step s v) (
      if-Adds (not (type == game_req_login)) s _ _ _ refused (
        if-Adds (not (r.data_size == 72 + 7)) s _ _ _ refused
          (if-Adds (handle_login c s g p request').0 s _ _ _ k after)))

handle_echo-Adds :
    (c : Context) (s : Server) (p : ℕ) (r : Packet)
    → IsValid s
    → Adds s (handle_echo c s p r).1 nothing
unfolding handle_echo
handle_echo-Adds c s p r v = elim (Option-cases c.allocated) [
  | inl e ↦ rw (handle_echo, e) (idle_step s v)
  | inr (res, e) ↦ rw (handle_echo, e) (send_packet-Adds c s _ _ v)
]

echo_on_recv-Adds :
    (c : Context) (s : Server) (p : ℕ) (r : Packet)
    → IsValid s
    → Adds s (echo_on_recv c s p r) nothing
unfolding echo_on_recv
echo_on_recv-Adds c s p r v =
    let x = update_heartbeat (s.players p) c.now in
    let s₁ = set_player s p x in
    let k = set_player-Adds s p x (v.in_range p) v in
    let l = handle_echo-Adds c s₁ p (get_int r 2).1 k.valid in
    let s₂ = (handle_echo c s₁ p (get_int r 2).1).1 in
    let echoed = then_step s s₁ s₂ _ k l in
    let refused = then_step s s₁ _ _ k (reserve_disconnect-Adds s₁ p k.valid) in
    let failed = then_step s s₂ _ _ echoed (reserve_disconnect-Adds s₂ p echoed.valid) in
    let type = read_or (get_int r 2).0 c.unset in
    let answered = if-Adds (handle_echo c s₁ p (get_int r 2).1).0 s _ _ _ echoed failed in
    if-Adds (type == game_req_echo) s _ _ _ answered
      (if-Adds (type == game_req_heartbeat) s _ _ _ k refused)

handle_packet-Adds :
    (c : Context) (s : Server) (g : ℕ) (p h : Option ℕ)
    → IsValid s
    → Adds s (handle_packet c s g p h) (λ a b. weight_of b h)
unfolding handle_packet
handle_packet-Adds c s g p none v = idle_step s v
handle_packet-Adds c s g none (some h) v = sub_ref_packet-Adds s h v
handle_packet-Adds c s g (some p) (some h) v =
    let k =
      if-Adds (g == 0) s _ _ nothing (login_on_recv-Adds c s g p (s.packets h) v)
        (echo_on_recv-Adds c s p (s.packets h) v) in
    then_step s _ _ _ k (sub_ref_packet-Adds _ h k.valid)

handle_job-Adds :
    (c : Context) (s : Server) (g : ℕ) (t : JobType) (p h : Option ℕ)
    → IsValid s
    → Adds s (handle_job c s g t p h) (λ a b. typed_weight a b t p h)
unfolding handle_job typed_weight
handle_job-Adds c s g join p h v = on_enter-Adds s g p v
handle_job-Adds c s g group_enter p h v = on_enter-Adds s g p v
handle_job-Adds c s g leave p h v = on_leave-Adds s g p v
handle_job-Adds c s g packet p h v = handle_packet-Adds c s g p h v

handle_front-Adds :
    (c : Context) (s : Server) (g : ℕ) (js : List Job)
    → g < length s.groups
    → (group_at s g).local ≡ js
    → IsValid s
    → Adds s (handle_front c s g js) nothing
unfolding handle_front jobs_weight
handle_front-Adds c s g [] h e v = idle_step s v
handle_front-Adds c s g (j ∷ js) h e v =
    let x : Group = record (group_at s g) { local = js } in
    let l = length-set s.groups g x in
    let s' = set_group s g x in
    let k = handle_job-Adds c s' g j.type j.player j.packet record {
      groups = omega (arith, l, v.groups);
      in_range = λ p. subst (λ n. InRange n (s.players p).group) (sym l) (v.in_range p);
    } in
    record {
      valid = k.valid;
      same_groups = k.same_groups ∙ l;
      keeps_freed = k.keeps_freed;
      weighs =
          λ a b. omega (arith, k.weighs a b, mail-set a b s.groups g x h, ap (jobs_weight a b) e);
    }

-- The next job of a group handled.
pub handle_next-Adds :
    (c : Context) (s : Server) (g : ℕ)
    → g < length s.groups
    → IsValid s
    → Adds s (handle_next c s g) nothing
unfolding handle_next
handle_next-Adds c s g h v = handle_front-Adds c s g (group_at s g).local h refl v

pub drain-Adds :
    (s : Server) (g : ℕ) → (group_at s g).local ≡ [] → IsValid s → Adds s (drain s g) nothing
unfolding drain drain_to jobs_weight
drain-Adds s g e v = set_group-Adds s g _ v (λ a b. omega (arith, ap (jobs_weight a b) e))
