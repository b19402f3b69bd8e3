-- ===== src/Chat/Broadcast.antt =====
-- Who a `broadcast` reaches.
use game_programmer_portfoli.Base.{
  count, one_if, ℕ, ◌+◌, ◌-◌, ◌<◌, ◌≡◌, ap, ◌∙◌, Bool, false, List, [], ◌∷◌, ◌&&◌, not, ◌||◌, ◌==◌,
  ==_iff, leb, ltb, if◌then◌else◌, arith,
}
use game_programmer_portfoli.Chat.{
  Player, Field, upto, concat_map, sector_cnt_x, sector_cnt_y, collect, broadcast_targets,
}
use game_programmer_portfoli.Chat.Move.{IsPlaced}
use game_programmer_portfoli.Chat.Around.{count-concat_map, among, span, concat_map-sector_around}

-- A player that takes part: logged in, and not on its way out.
abbrev pub is_listening : Player → Bool
is_listening p = not p.will_delete && p.is_logged_in

count-collect :
    (players : ℕ → Player) (q : ℕ) (ps : List ℕ)
    → count q (collect players ps) ≡ (if is_listening (players q) then count q ps else 0)
unfolding count collect
count-collect players q [] = ground arith
count-collect players q (p ∷ ps) = ground (arith, count-collect players q ps, ==_iff p q)

-- The positions differ by at most one.
abbrev pub near : ℕ → ℕ → Bool
near a b = leb (a - 1) b && leb b (a + 1)

-- One sector of the map.
count-cell :
    (f : Field) (q x y : ℕ)
    → IsPlaced f
    → x < sector_cnt_x
    → y < sector_cnt_y
    → let there : Player = f.players q in
      count q (collect f.players (f.sectors y x)) ≡ (
        if x == there.sector_x
        then (if y == there.sector_y then one_if (is_listening there) else 0)
        else 0)
unfolding IsPlaced
count-cell f q x y v hx hy = ground (
  arith,
  count-collect f.players q (f.sectors y x),
  v q x y hx hy,
  ==_iff x (f.players q).sector_x,
  ==_iff y (f.players q).sector_y,
)

-- One row of sectors, turned round so that the row's test is outside.
count-row :
    (f : Field) (q x y : ℕ)
    → IsPlaced f
    → x < sector_cnt_x
    → y < sector_cnt_y
    → let there : Player = f.players q in
      count q
        (concat_map (λ sx. collect f.players (f.sectors y sx)) (upto (x - 1) (span sector_cnt_x x)))
      ≡ (if y == there.sector_y
          then (if among there.sector_x (x - 1) (span sector_cnt_x x)
              then one_if (is_listening there)
              else 0)
          else 0)
count-row f q x y v hx hy =
    let there : Player = f.players q in
    count-concat_map (λ sx. collect f.players (f.sectors y sx)) q there.sector_x
      (if y == there.sector_y then one_if (is_listening there) else 0) (x - 1) (span sector_cnt_x x)
      (λ sx lo hi. count-cell f q sx y v (omega arith) hy)
    ∙ swap_tests (among there.sector_x (x - 1) (span sector_cnt_x x)) (y == there.sector_y)
        (one_if (is_listening there))
  where
    swap_tests :
        (a b : Bool) (n : ℕ)
        → (if a then (if b then n else 0) else 0) ≡ (if b then (if a then n else 0) else 0)
    swap_tests a b n = ground arith

among-near : (x u cnt : ℕ) → x < cnt → among u (x - 1) (span cnt x) ≡ ltb u cnt && near x u
among-near x u cnt h = ground arith

all_tests : (l a b : Bool) → (if b then (if a then one_if l else 0) else 0) ≡ one_if (l && (a && b))
all_tests l a b = ground arith

-- In a field where every player stands in the list of its own sector, once, and in no other, a
-- `broadcast` by a player in a sector of the map has each player among its targets exactly once if
-- that player is logged in, not to be deleted, and in a sector of the map whose coordinates differ
-- from the sender's by at most one, and not at all otherwise.
pub count-broadcast_targets :
    (f : Field) (p q : ℕ)
    → IsPlaced f
    → (f.players p).sector_x < sector_cnt_x
    → (f.players p).sector_y < sector_cnt_y
    → let here : Player = f.players p in
      let there : Player = f.players q in
      count q (broadcast_targets f p)
      ≡ one_if (
          is_listening there
          && ((ltb there.sector_x sector_cnt_x && near here.sector_x there.sector_x)
              && (ltb there.sector_y sector_cnt_y && near here.sector_y there.sector_y)))
unfolding broadcast_targets
count-broadcast_targets f p q v hx hy =
    let here : Player = f.players p in
    let there : Player = f.players q in
    let x : ℕ = here.sector_x in
    let y : ℕ = here.sector_y in
    let on_map : leb sector_cnt_x x || leb sector_cnt_y y ≡ false = ground arith in
    rw (broadcast_targets, on_map)
      (ap (count q)
          (concat_map-sector_around (λ pos. collect f.players (f.sectors pos.1 pos.0)) x y)
        ∙ count-concat_map
            (λ sy.
              concat_map (λ sx. collect f.players (f.sectors sy sx))
                (upto (x - 1) (span sector_cnt_x x)))
            q there.sector_y
            (if among there.sector_x (x - 1) (span sector_cnt_x x)
              then one_if (is_listening there)
              else 0)
            (y - 1) (span sector_cnt_y y) (λ sy lo hi. count-row f q x sy v hx (omega arith))
        ∙ rw
            (
              among-near x there.sector_x sector_cnt_x hx,
              among-near y there.sector_y sector_cnt_y hy,
            )
            (all_tests (is_listening there) _ _))
