-- ===== src/Chat.antt =====
-- The sectors of ChatServer.cpp, Sector.h and Player.h
-- (projects/multithread-chat-server/Server/ChatingServer). A `Player*` is a number. A function runs as
-- one step: the lock of the sector it changes is held.
pub mod Swap
pub mod Move
pub mod Around
pub mod Broadcast
pub mod Dispatch
pub mod Handlers
mod Examples
use game_programmer_portfoli.Base.{
  ℕ, zero, suc, ◌+◌, ◌-◌, min, Bool, true, false, not, ◌&&◌, ◌||◌, Option, none, some, List, [],
  ◌∷◌, ◌++◌, map, set, leb, ltb, ◌==◌, if◌then◌else◌,
}

-- `SECTOR_CNT_X` and `SECTOR_CNT_Y` of Define.h.
abbrev pub sector_cnt_x : ℕ
sector_cnt_x = 50

abbrev pub sector_cnt_y : ℕ
sector_cnt_y = 50

-- The fields that the sectors' code reads; an unset `WORD` position is -1.
pub record Player : Type 0 where
  pub session_id : ℕ
  pub account_no : ℕ
  pub sector_x : ℕ
  pub sector_y : ℕ
  pub will_delete : Bool
  pub is_logged_in : Bool

-- `Clear`.
abbrev pub cleared : Player
cleared = record {
  session_id = 0;
  account_no = 0;
  sector_x = 65535;
  sector_y = 65535;
  will_delete = false;
  is_logged_in = false;
}

-- The players and `mSector[y][x].players`.
pub record Field : Type 0 where
  pub players : ℕ → Player
  pub sectors : ℕ → ℕ → List ℕ

abbrev pub update : {A : Type 0} → (ℕ → A) → ℕ → A → ℕ → A
update f i v j = if j == i then v else f j

-- A write of one sector's list.
unfoldable pub set_players : (ℕ → ℕ → List ℕ) → ℕ → ℕ → List ℕ → ℕ → ℕ → List ℕ
set_players f y x ps j i = if (j == y) && (i == x) then ps else f j i

-- `std::find`: the position of the first `p`.
abbrev pub find_index : ℕ → List ℕ → Option ℕ
find_index p [] = none
find_index p (q ∷ qs) =
    let rest = find_index p qs in
    if q == p then some 0 else elim rest [ none ↦ none | some i ↦ some (suc i) ]

-- `back()`, of a list that is not empty.
abbrev pub back : List ℕ → ℕ
back [] = 0
back (p ∷ []) = p
back (p ∷ q ∷ qs) = back (q ∷ qs)

abbrev pub pop_back : List ℕ → List ℕ
pop_back [] = []
pop_back (p ∷ []) = []
pop_back (p ∷ q ∷ qs) = p ∷ pop_back (q ∷ qs)

-- The last player takes the place of the one that goes.
unfoldable pub erase_player : ℕ → List ℕ → List ℕ
erase_player p ps = elim (find_index p ps) [ none ↦ ps | some i ↦ pop_back (set ps i (back ps)) ]

unfoldable pub erase_player_from_sector : Field → ℕ → Field
erase_player_from_sector f p =
    let x = (f.players p).sector_x in
    let y = (f.players p).sector_y in
    if leb sector_cnt_x x || leb sector_cnt_y y
    then f
    else record f { sectors = set_players f.sectors y x (erase_player p (f.sectors y x)) }

unfoldable pub move_player_sector : Field → ℕ → ℕ → ℕ → Field
move_player_sector f p new_x new_y =
    let x = (f.players p).sector_x in
    let y = (f.players p).sector_y in
    let g = erase_player_from_sector f p in
    if leb sector_cnt_x new_x || leb sector_cnt_y new_y
    then f
    else if (x == new_x) && (y == new_y)
    then f
    else record {
      players = update g.players p (record (g.players p) { sector_x = new_x; sector_y = new_y });
      sectors = set_players g.sectors new_y new_x (g.sectors new_y new_x ++ (p ∷ []));
    }

-- `for (i = from; i < from + n; ++i)`.
abbrev pub upto : ℕ → ℕ → List ℕ
upto from zero = []
upto from (suc n) = from ∷ upto (suc from) n

abbrev pub concat_map : {A B : Type 0} → (A → List B) → List A → List B
concat_map f [] = []
concat_map f (x ∷ xs) = f x ++ concat_map f xs

-- `initSectorAroundTable`: the entry of the sector (x, y), pairs (iX, iY).
unfoldable pub sector_around : ℕ → ℕ → List (ℕ × ℕ)
sector_around x y =
    let start_x = x - 1 in
    let end_x = min (sector_cnt_x - 1) (x + 1) in
    let start_y = y - 1 in
    let end_y = min (sector_cnt_y - 1) (y + 1) in
    concat_map (λ sy. map (λ sx. (sx, sy)) (upto start_x (end_x + 1 - start_x)))
      (upto start_y (end_y + 1 - start_y))

-- The players of one sector that `broadcast` collects.
unfoldable pub collect : (ℕ → Player) → List ℕ → List ℕ
collect players [] = []
collect players (t ∷ ts) =
    let rest = collect players ts in
    if (players t).will_delete
    then rest
    else if not (players t).is_logged_in
    then rest
    else t ∷ rest

-- The targets of a `broadcast` by `p`, as players; the message goes to the session id of each.
unfoldable pub broadcast_targets : Field → ℕ → List ℕ
broadcast_targets f p =
    let x = (f.players p).sector_x in
    let y = (f.players p).sector_y in
    if leb sector_cnt_x x || leb sector_cnt_y y
    then []
    else concat_map (λ pos. collect f.players (f.sectors pos.1 pos.0)) (sector_around x y)

pub broadcast : Field → ℕ → List ℕ
unfolding broadcast_targets
broadcast f p = map (λ t. (f.players t).session_id) (broadcast_targets f p)
