-- ===== src/GroupServer/Mail.antt =====
-- The jobs in the mailboxes of the groups, weighed, and what each operation of the server adds.
use game_programmer_portfoli.Base.{
  ℕ, zero, suc, ◌+◌, ◌≤◌, ◌<◌, ◌≡◌, refl, sym, subst, ◌∙◌, inl, inr, true, Option, none, some, List,
  [], ◌∷◌, ◌++◌, length, get_or, set, ◌==◌, arith, count, weight, length-set, Bool-cases,
}
use game_programmer_portfoli.GroupServer.{
  JobType, join, leave, packet, group_enter, Job, enqueue_job, Player, Group, empty_group, Server,
  group_at, set_group, set_player, enqueue, free_player, sub_ref_packet, reserve_disconnect,
}

abbrev pub weight_of : (ℕ → ℕ) → Option ℕ → ℕ
weight_of w none = 0
weight_of w (some n) = w n

-- A LEAVE weighs as its player by `a`, a PACKET as its packet by `b`.
unfoldable pub typed_weight : (ℕ → ℕ) → (ℕ → ℕ) → JobType → Option ℕ → Option ℕ → ℕ
typed_weight a b join p h = 0
typed_weight a b group_enter p h = 0
typed_weight a b leave p h = weight_of a p
typed_weight a b packet p h = weight_of b h

abbrev pub job_weight : (ℕ → ℕ) → (ℕ → ℕ) → Job → ℕ
job_weight a b j = typed_weight a b j.type j.player j.packet

unfoldable pub jobs_weight : (ℕ → ℕ) → (ℕ → ℕ) → List Job → ℕ
jobs_weight a b [] = 0
jobs_weight a b (j ∷ js) = job_weight a b j + jobs_weight a b js

abbrev pub box_weight : (ℕ → ℕ) → (ℕ → ℕ) → Group → ℕ
box_weight a b x = jobs_weight a b x.mailbox.queue + jobs_weight a b x.local

unfoldable pub mail : (ℕ → ℕ) → (ℕ → ℕ) → List Group → ℕ
mail a b [] = 0
mail a b (x ∷ xs) = box_weight a b x + mail a b xs

unfoldable pub map_weight : (ℕ → ℕ) → List (ℕ × ℕ) → ℕ
map_weight a [] = 0
map_weight a ((k, p) ∷ m) = a p + map_weight a m

-- By `a`, the players in the map, those with a LEAVE under way and those freed; by `b`, the packets on
-- their way to a group and those released.
abbrev pub total : (ℕ → ℕ) → (ℕ → ℕ) → Server → ℕ
total a b s = map_weight a s.player_map + weight a s.freed + weight b s.sub_refs + mail a b s.groups

-- The group of a player is one of `n`.
unfoldable pub InRange : ℕ → Option ℕ → Type 0
InRange n none = Unit
InRange n (some g) = g < n

pub record IsValid (s : Server) : Type 0 where
  pub groups : 2 ≤ length s.groups
  pub in_range : (p : ℕ) → InRange (length s.groups) (s.players p).group

-- A step from `s` to `s'` that adds `d`.
pub record Adds (s s' : Server) (d : (ℕ → ℕ) → (ℕ → ℕ) → ℕ) : Type 0 where
  pub valid : IsValid s'
  pub same_groups : length s'.groups ≡ length s.groups
  pub weighs : (a b : ℕ → ℕ) → total a b s' ≡ total a b s + d a b
  pub keeps_freed : (q : ℕ) → count q s.freed ≤ count q s'.freed

abbrev pub nothing : (ℕ → ℕ) → (ℕ → ℕ) → ℕ
nothing a b = 0

pub idle_step : (s : Server) → IsValid s → Adds s s nothing
idle_step s v = record {
  valid = v;
  same_groups = refl;
  keeps_freed = λ q. omega arith;
  weighs = λ a b. omega arith;
}

pub then_step :
    (s s₁ s₂ : Server) (d : (ℕ → ℕ) → (ℕ → ℕ) → ℕ) → Adds s s₁ nothing → Adds s₁ s₂ d → Adds s s₂ d
then_step s s₁ s₂ d x y = record {
  valid = y.valid;
  same_groups = y.same_groups ∙ x.same_groups;
  keeps_freed = λ q. omega (arith, x.keeps_freed q, y.keeps_freed q);
  weighs = λ a b. omega (arith, x.weighs a b, y.weighs a b);
}

pub mail-set :
    (a b : ℕ → ℕ) (gs : List Group) (g : ℕ) (x : Group)
    → g < length gs
    → mail a b (set gs g x) + box_weight a b (get_or gs g empty_group)
      ≡ mail a b gs + box_weight a b x
unfolding mail
mail-set a b [] g x h = absurd (omega arith)
mail-set a b (y ∷ gs) zero x h = omega arith
mail-set a b (y ∷ gs) (suc g) x h = omega (arith, mail-set a b gs g x (omega arith))

mail-set_same :
    (a b : ℕ → ℕ) (gs : List Group) (g : ℕ) (x : Group)
    → box_weight a b x ≡ box_weight a b (get_or gs g empty_group)
    → mail a b (set gs g x) ≡ mail a b gs
unfolding mail
mail-set_same a b [] g x e = refl
mail-set_same a b (y ∷ gs) zero x e = omega (arith, e)
mail-set_same a b (y ∷ gs) (suc g) x e = omega (arith, mail-set_same a b gs g x e)

jobs_weight-snoc :
    (a b : ℕ → ℕ) (js : List Job) (j : Job)
    → jobs_weight a b (js ++ (j ∷ [])) ≡ jobs_weight a b js + job_weight a b j
unfolding jobs_weight
jobs_weight-snoc a b [] j = omega arith
jobs_weight-snoc a b (i ∷ js) j = omega (arith, jobs_weight-snoc a b js j)

-- A group with the same jobs put in place of one.
pub set_group-Adds :
    (s : Server) (g : ℕ) (x : Group)
    → IsValid s
    → ((a b : ℕ → ℕ) → box_weight a b x ≡ box_weight a b (group_at s g))
    → Adds s (set_group s g x) nothing
set_group-Adds s g x v e =
    let l = length-set s.groups g x in
    record {
      valid = record {
        groups = omega (arith, l, v.groups);
        in_range = λ p. subst (λ n. InRange n (s.players p).group) (sym l) (v.in_range p);
      };
      same_groups = l;
      keeps_freed = λ q. omega arith;
      weighs = λ a b. omega (arith, mail-set_same a b s.groups g x (e a b));
    }

pub enqueue-Adds :
    (s : Server) (g : ℕ) (j : Job)
    → g < length s.groups
    → IsValid s
    → Adds s (enqueue s g j) (λ a b. job_weight a b j)
unfolding enqueue enqueue_job
enqueue-Adds s g j h v =
    let x = group_at s g in
    let m = enqueue_job x.mailbox j in
    let x' : Group = record x { mailbox = m } in
    let l = length-set s.groups g x' in
    record {
      valid = record {
        groups = omega (arith, l, v.groups);
        in_range = λ p. subst (λ n. InRange n (s.players p).group) (sym l) (v.in_range p);
      };
      same_groups = l;
      keeps_freed = λ q. omega arith;
      weighs = λ a b.
          omega (arith, mail-set a b s.groups g x' h, jobs_weight-snoc a b x.mailbox.queue j);
    }

pub set_player-Adds :
    (s : Server) (p : ℕ) (x : Player)
    → InRange (length s.groups) x.group
    → IsValid s
    → Adds s (set_player s p x) nothing
set_player-Adds s p x r v = record {
  valid = record {
    groups = v.groups;
    in_range = λ q. elim (Bool-cases (q == p)) [ inl e ↦ rw e r | inr e ↦ rw e (v.in_range q) ];
  };
  same_groups = refl;
  keeps_freed = λ q. omega arith;
  weighs = λ a b. omega arith;
}

pub free_player-Adds : (s : Server) (p : ℕ) → IsValid s → Adds s (free_player s p) (λ a b. a p)
unfolding weight count
free_player-Adds s p v = record {
  valid = record { groups = v.groups; in_range = v.in_range };
  same_groups = refl;
  keeps_freed = λ q. omega arith;
  weighs = λ a b. omega arith;
}

pub sub_ref_packet-Adds :
    (s : Server) (h : ℕ) → IsValid s → Adds s (sub_ref_packet s h) (λ a b. b h)
unfolding weight
sub_ref_packet-Adds s h v = record {
  valid = record { groups = v.groups; in_range = v.in_range };
  same_groups = refl;
  keeps_freed = λ q. omega arith;
  weighs = λ a b. omega arith;
}

pub reserve_disconnect-Adds :
    (s : Server) (p : ℕ) → IsValid s → Adds s (reserve_disconnect s p) nothing
unfolding reserve_disconnect
reserve_disconnect-Adds s p v =
    let x = s.players p in
    let k = set_player-Adds s p (record x { will_delete = true }) (v.in_range p) v in
    elim (Bool-cases (x.will_delete)) [
      | inl e ↦ rw e (idle_step s v)
      | inr e ↦ rw e record {
        valid = record { groups = k.valid.groups; in_range = k.valid.in_range };
        same_groups = refl;
        keeps_freed = λ q. omega arith;
        weighs = λ a b. omega arith;
      }
    ]
