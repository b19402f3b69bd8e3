-- ===== src/GroupServer/Owners.antt =====
-- Who holds a player and a packet, over any interleaving of the server's calls and the groups' turns.
use game_programmer_portfoli.Base.{
  ℕ, zero, suc, ◌+◌, ◌≤◌, ◌≡◌, sym, ap, subst, ==_iff, none, Option, some, ◌++◌, ◌∙◌, List, [], ◌∷◌,
  length, replicate, ◌==◌, arith, Bool-cases, inl, inr, refl, count, one_if, weight, weight-count,
  length-replicate, ltb, if◌then◌else◌,
}
use game_programmer_portfoli.Packet.{Packet}
use game_programmer_portfoli.GroupServer.{Player, empty_group, Server, create_groups}
use game_programmer_portfoli.GroupServer.Mail.{
  jobs_weight, mail, map_weight, nothing, weight_of, InRange, Adds,
}
use game_programmer_portfoli.GroupServer.Turns.{handle_next-Adds, drain-Adds}
use game_programmer_portfoli.GroupServer.Steps.{
  on_client_join_clear-Adds, on_client_join_store-Adds, on_client_join_insert-Adds, lost_by, Locks,
  on_client_leave_locked-Locks, on_client_leave_check-Adds, on_recv-Adds,
}
use game_programmer_portfoli.GroupServer.Worlds.{
  World, put, is, never, owned, queued, entering, Step, Reaches, Accounts, start, clears, stores,
  inserts, leaves, checks, receives, drains, handles, here, next,
}

weight-never : (xs : List ℕ) → weight never xs ≡ 0
unfolding weight
weight-never [] = refl
weight-never (x ∷ xs) = omega (arith, weight-never xs)

weight_of-never : (o : Option ℕ) → weight_of never o ≡ 0
weight_of-never none = refl
weight_of-never (some n) = refl

map_weight-never : (m : List (ℕ × ℕ)) → map_weight never m ≡ 0
unfolding map_weight
map_weight-never [] = refl
map_weight-never ((k, p) ∷ m) = omega (arith, map_weight-never m)

-- A step that adds `dp` to the players and `dh` to the packets.
step_players :
    (s s' : Server) (d : (ℕ → ℕ) → (ℕ → ℕ) → ℕ) (p : ℕ)
    → Adds s s' d
    → owned s' p + count p s'.freed ≡ owned s p + count p s.freed + d (is p) never
step_players s s' d p k = omega (
  arith,
  k.weighs (is p) never,
  weight-count p s.freed,
  weight-count p s'.freed,
  weight-never s.sub_refs,
  weight-never s'.sub_refs,
)

step_packets :
    (s s' : Server) (d : (ℕ → ℕ) → (ℕ → ℕ) → ℕ) (h : ℕ)
    → Adds s s' d
    → queued s' h + count h s'.sub_refs ≡ queued s h + count h s.sub_refs + d never (is h)
step_packets s s' d h k = omega (
  arith,
  k.weighs never (is h),
  weight-count h s.sub_refs,
  weight-count h s'.sub_refs,
  weight-never s.freed,
  weight-never s'.freed,
  map_weight-never s.player_map,
  map_weight-never s'.player_map,
)

-- A step of the server that adds `d`, of which the calls under way account for the players.
advance :
    (w u : World) (d : (ℕ → ℕ) → (ℕ → ℕ) → ℕ)
    → Adds w.server u.server d
    → ((p : ℕ)
        → entering u p + count p u.lost + d (is p) never + count p w.joined + count p w.checked
          ≡ entering w p + count p w.lost + count p u.joined + count p u.checked)
    → ((h : ℕ) → count h u.received ≡ count h w.received + d never (is h))
    → ((p : ℕ) → count p u.joined ≤ 1 + count p w.server.freed)
    → Accounts w
    → Accounts u
advance w u d k e f h a =
    let players : (p : ℕ)
        → owned u.server p + entering u p + count p u.lost + count p u.server.freed
          ≡ count p u.joined + count p u.checked =
      λ p. omega (arith, step_players w.server u.server d p k, e p, a.players p) in
    record {
      valid = k.valid;
      players = players;
      packets = λ q. omega (arith, step_packets w.server u.server d q k, f q, a.packets q);
      once = λ p. omega (arith, players p, h p, k.keeps_freed p);
      handed = λ p. omega (arith, h p, k.keeps_freed p);
    }

map_weight-middle :
    (a : ℕ → ℕ) (k p : ℕ) (xs ys : List (ℕ × ℕ))
    → map_weight a (xs ++ (k, p) ∷ ys) ≡ a p + map_weight a (xs ++ ys)
unfolding map_weight
map_weight-middle a k p [] ys = refl
map_weight-middle a k p ((j, q) ∷ xs) ys = omega (arith, map_weight-middle a k p xs ys)

taken_out :
    (a : ℕ → ℕ) (k p : ℕ) (zs xs ys : List (ℕ × ℕ))
    → zs ≡ xs ++ (k, p) ∷ ys
    → map_weight a zs ≡ a p + map_weight a (xs ++ ys)
taken_out a k p zs xs ys e = ap (map_weight a) e ∙ map_weight-middle a k p xs ys

count-put :
    (p : ℕ) (o : Option ℕ) (xs : List ℕ) → count p (put o xs) ≡ weight_of (is p) o + count p xs
unfolding put count
count-put p none xs = omega arith
count-put p (some q) xs = refl

handed_now :
    (p q : ℕ) (xs freed : List ℕ)
    → count p xs ≤ count p freed
    → count q xs ≤ 1 + count q freed
    → count q (p ∷ xs) ≤ 1 + count q freed
unfolding count
handed_now p q xs freed f h = elim (Bool-cases (p == q)) [
  | inl e ↦
      let f' = subst (λ x. count x xs ≤ count x freed) ((==_iff p q).0 e) f in
      omega (arith, f', ap one_if e)
  | inr e ↦ omega (arith, h, ap one_if e)
]

leaves-Accounts :
    (w : World) (s' : Server) (found lost : Option ℕ)
    → Locks w.server s' lost
    → Accounts w
    → Accounts (record w { server = s'; leaving = put found w.leaving; lost = put lost w.lost })
leaves-Accounts w s' found lost k a =
    let u = record w { server = s'; leaving = put found w.leaving; lost = put lost w.lost } in
    let players : (p : ℕ)
        → owned u.server p + entering u p + count p u.lost + count p u.server.freed
          ≡ count p u.joined + count p u.checked =
      λ p. omega (
        arith,
        k.weighs (is p) never,
        count-put p lost w.lost,
        weight-count p w.server.freed,
        weight-count p s'.freed,
        weight-never w.server.sub_refs,
        weight-never s'.sub_refs,
        a.players p,
      ) in
    record {
      valid = k.valid;
      players = players;
      packets = λ h. omega (
        arith,
        k.weighs never (is h),
        weight-count h w.server.sub_refs,
        weight-count h s'.sub_refs,
        weight-never w.server.freed,
        weight-never s'.freed,
        map_weight-never w.server.player_map,
        map_weight-never s'.player_map,
        weight_of-never lost,
        a.packets h,
      );
      once = λ p. omega (arith, players p, a.handed p, k.keeps_freed p);
      handed = λ p. omega (arith, a.handed p, k.keeps_freed p);
    }

pub Step-Accounts : (w u : World) → Step w u → Accounts w → Accounts u
unfolding count map_weight
Step-Accounts w u (clears p id now f) a =
    advance w _ nothing (on_client_join_clear-Adds w.server p id now a.valid) (λ q. omega arith)
      (λ h. omega arith) (λ q. handed_now p q w.joined w.server.freed f (a.handed q)) a
Step-Accounts w u (stores p id xs ys e) a =
    advance w _ nothing (on_client_join_store-Adds w.server p a.valid)
      (λ q. omega (arith, taken_out (is q) id p w.clearing xs ys e)) (λ h. omega arith) a.handed a
Step-Accounts w u (inserts p id xs ys e) a =
    advance w _ _ (on_client_join_insert-Adds w.server p id a.valid)
      (λ q. omega (arith, taken_out (is q) id p w.storing xs ys e)) (λ h. omega arith) a.handed a
Step-Accounts w u (leaves id) a =
    leaves-Accounts w _ _ _ (on_client_leave_locked-Locks w.server id a.valid) a
Step-Accounts w u (checks p xs ys e) a =
    advance w _ _ (on_client_leave_check-Adds w.server p a.valid)
      (λ q. omega (arith, count-put q (lost_by w.server (some p)) w.checked))
      (λ h. omega (arith, weight_of-never (lost_by w.server (some p)))) a.handed a
Step-Accounts w u (receives id h) a =
    advance w _ _ (on_recv-Adds w.server id h a.valid) (λ p. omega arith) (λ q. omega arith)
      a.handed a
Step-Accounts w u (drains g e) a =
    advance w _ _ (drain-Adds w.server g e a.valid) (λ p. omega arith) (λ h. omega arith) a.handed a
Step-Accounts w u (handles g c l) a =
    advance w _ _ (handle_next-Adds c w.server g l a.valid) (λ p. omega arith) (λ h. omega arith)
      a.handed a

start_groups-empty : (a b : ℕ → ℕ) (n : ℕ) → mail a b (replicate n empty_group) ≡ 0
unfolding mail jobs_weight
start_groups-empty a b zero = refl
start_groups-empty a b (suc n) = omega (arith, start_groups-empty a b n)

start-Accounts :
    (players : ℕ → Player) (packets : ℕ → Packet) (n : ℕ)
    → ((p : ℕ) → (players p).group ≡ none)
    → Accounts (start players packets n)
unfolding create_groups mail jobs_weight map_weight count InRange
start-Accounts players packets n e =
    let k : ℕ = if ltb n 1 then 1 else n in
    let l = length-replicate k empty_group in
    record {
      valid = record {
        groups = ground (arith, l);
        in_range =
            λ p. subst (λ o. InRange (suc (length (replicate k empty_group))) o) (sym (e p)) tt;
      };
      players = λ p. omega (arith, start_groups-empty (is p) never k);
      packets = λ h. omega (arith, start_groups-empty never (is h) k);
      once = λ p. omega (arith, start_groups-empty (is p) never k);
      handed = λ p. omega arith;
    }

Reaches-step : (w u : World) → Reaches w u → Accounts w → Accounts u
Reaches-step w u here a = a
Reaches-step w u (next r t) a = Step-Accounts _ u t (Reaches-step w _ r a)

-- From the start, with players that belong to no group, over any interleaving of the steps of
-- `OnClientJoin` (`Clear`, the store of the group, the section under the lock), of `OnClientLeave`
-- (the section under the lock, the check behind it), of `OnRecv` and of the turns of the groups,
-- where the pool hands out a player only if it was freed at least as often as handed out: the times
-- that a player is in a call of `OnClientJoin`, in the map, in a LEAVE, taken out of the map
-- without a LEAVE, and freed are together the times that it was handed to `OnClientJoin` and the
-- times that a check of `OnClientLeave` freed it; but for the times that a check freed it, it is at
-- one of these places other than the pool at most once; and every packet is as often in a PACKET
-- and released together as it came with `OnRecv`.
pub Reaches-Accounts :
    (players : ℕ → Player) (packets : ℕ → Packet) (n : ℕ) (w : World)
    → ((p : ℕ) → (players p).group ≡ none)
    → Reaches (start players packets n) w
    → Accounts w
Reaches-Accounts players packets n w e r = Reaches-step _ w r (start-Accounts players packets n e)
