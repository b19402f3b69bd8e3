-- ===== src/Chat/Handlers/Guarded.antt =====
-- What a packet received may change.
use game_programmer_portfoli.Base.{
  find, read_or, ℕ, ◌+◌, ◌%◌, ◌≡◌, ◌≢◌, refl, ap, ◌∙◌, inl, inr, Bool, true, false, not, ◌&&◌, ◌||◌,
  Option, none, some, List, [], ◌∷◌, leb, ltb, ◌==◌, ==_iff, if◌then◌else◌, Bool-cases,
  Option-cases,
}
use game_programmer_portfoli.Packet.{Packet, init, get_int, get_data}
use game_programmer_portfoli.Chat.{
  Player, sector_cnt_x, sector_cnt_y, update, move_player_sector, broadcast,
}
use game_programmer_portfoli.Chat.Move.{IsPlaced, move_player_sector-IsPlaced}
use game_programmer_portfoli.Chat.Dispatch.{
  Handler, login, sector_move, send_chat_message, heart_beat, req_login, select,
}
use game_programmer_portfoli.Chat.Handlers.{
  ChatServer, Context, Names, has_nul, player_at, set_player, reserve_delete_player, send, send_all,
  find_duplicate, drop_duplicate, handle_login, handle_sector_move, handle_chat_message, handle,
  process, on_recv, make_chat_res_login, make_chat_res_message,
}

-- Every player stays in the list of its own sector, and the map and the log of `SubRef` are kept.
record Keeps (s s' : ChatServer) : Type 0 where
  placed : IsPlaced s.field → IsPlaced s'.field
  map : s'.player_map ≡ s.player_map
  refs : s'.sub_refs ≡ s.sub_refs

same_state : (s : ChatServer) → Keeps s s
same_state s = record { placed = λ v. v; map = refl; refs = refl }

step_then : (s s₁ s₂ : ChatServer) → Keeps s s₁ → Keeps s₁ s₂ → Keeps s s₂
step_then s s₁ s₂ k l = record {
  placed = λ v. l.placed (k.placed v);
  map = l.map ∙ k.map;
  refs = l.refs ∙ k.refs;
}

set_player-Keeps :
    (s : ChatServer) (p : ℕ) (x : Player)
    → x.sector_x ≡ (player_at s p).sector_x
    → x.sector_y ≡ (player_at s p).sector_y
    → Keeps s (set_player s p x)
unfolding IsPlaced
set_player-Keeps s p x ex ey = record {
  placed = λ v q i j hi hj. elim (Bool-cases (q == p)) [
    | inl e ↦ rw (e, ex, ey, ← (==_iff q p).0 e) (v q i j hi hj)
    | inr e ↦ rw e (v q i j hi hj)
  ];
  map = refl;
  refs = refl;
}

reserve_delete-Keeps : (s : ChatServer) (p : ℕ) → Keeps s (reserve_delete_player s p)
unfolding reserve_delete_player
reserve_delete-Keeps s p =
    let x = player_at s p in
    let k = set_player-Keeps s p (record x { will_delete = true }) refl refl in
    elim (Bool-cases (x.will_delete)) [
      | inl e ↦ rw e (same_state s)
      | inr e ↦ rw e record { placed = k.placed; map = refl; refs = refl }
    ]

send-Keeps : (c : Context) (s : ChatServer) (id : ℕ) (p : Packet) → Keeps s (send c s id p)
unfolding send
send-Keeps c s id p = elim (Bool-cases (c.sends id)) [
  | inl e ↦ rw e record { placed = λ v. v; map = refl; refs = refl }
  | inr e ↦ rw e (same_state s)
]

send_all-Keeps :
    (c : Context) (s : ChatServer) (ids : List ℕ) (p : Packet) → Keeps s (send_all c s ids p)
unfolding send_all
send_all-Keeps c s [] p = same_state s
send_all-Keeps c s (id ∷ ids) p =
    step_then s _ _ (send-Keeps c s id p) (send_all-Keeps c (send c s id p) ids p)

drop_duplicate-Keeps : (s : ChatServer) (o : Option ℕ) → Keeps s (drop_duplicate s o)
drop_duplicate-Keeps s none = same_state s
drop_duplicate-Keeps s (some sid) = record { placed = λ v. v; map = refl; refs = refl }

drop_duplicate-players :
    (s : ChatServer) (o : Option ℕ) → s.field.players ≡ (drop_duplicate s o).field.players
drop_duplicate-players s none = refl
drop_duplicate-players s (some sid) = refl

if-Keeps :
    (b : Bool) (s : ChatServer) (x y : Bool × ChatServer)
    → Keeps s x.1
    → Keeps s y.1
    → Keeps s (if b then x else y).1
if-Keeps true s x y k l = k
if-Keeps false s x y k l = l

handle_sector_move-Keeps :
    (c : Context) (s : ChatServer) (p : ℕ) (r : Packet) → Keeps s (handle_sector_move c s p r).1
unfolding handle_sector_move
handle_sector_move-Keeps c s p r =
    let r₁ = (get_int r 8).1 in
    let r₂ = (get_int r₁ 2).1 in
    let new_x = read_or (get_int r₁ 2).0 c.unset in
    let new_y = read_or (get_int r₂ 2).0 c.unset in
    let s' = record s { field = move_player_sector s.field p new_x new_y } in
    let k : Keeps s s' = record {
      placed = λ v. (move_player_sector-IsPlaced s.field p new_x new_y v).0;
      map = refl;
      refs = refl;
    } in
    let bad = not ((player_at s p).account_no == read_or (get_int r 8).0 c.unset) in
    elim (Option-cases c.allocated) [
      | inl e ↦
          rw (handle_sector_move, e)
            (if-Keeps (bad || leb sector_cnt_x new_x || leb sector_cnt_y new_y) s _ _ (same_state s)
              k)
      | inr (res, e) ↦
          rw (handle_sector_move, e)
            (if-Keeps (bad || leb sector_cnt_x new_x || leb sector_cnt_y new_y) s _ _ (same_state s)
              (step_then s s' _ k (send-Keeps c s' _ _)))
    ]

-- A refusal that changes nothing.
unless-Keeps :
    (b : Bool) (s : ChatServer) (o : Bool × ChatServer)
    → Keeps s o.1
    → Keeps s (if b then (false, s) else o).1
unless-Keeps true s o k = same_state s
unless-Keeps false s o k = k

handle_chat_message-Keeps :
    (c : Context) (s : ChatServer) (p : ℕ) (r : Packet) → Keeps s (handle_chat_message c s p r).1
unfolding handle_chat_message
handle_chat_message-Keeps c s p r =
    let x = player_at s p in
    let account_no = read_or (get_int r 8).0 c.unset in
    let r₁ = (get_int r 8).1 in
    let len = read_or (get_int r₁ 2).0 c.unset in
    let message = (get_data (get_int r₁ 2).1 len).1 in
    let bad_len = ltb 1024 len || leb len 0 || not (len % 2 == 0) in
    let bad_size = not (r.data_size == len + (5 + 2 + 8 + 2)) in
    let no_sector = leb sector_cnt_x x.sector_x || leb sector_cnt_y x.sector_y in
    let refused =
      not x.is_logged_in || not (x.account_no == account_no) || bad_len || bad_size || no_sector in
    elim (Option-cases c.allocated) [
      | inl e ↦ rw (handle_chat_message, e) (unless-Keeps refused s (false, s) (same_state s))
      | inr (res, e) ↦
          let answer =
            make_chat_res_message c.copy_name (init res) account_no (s.names p) message in
          let ids = broadcast s.field p in
          rw (handle_chat_message, e)
            (unless-Keeps refused s (true, send_all c s ids answer) (send_all-Keeps c s ids answer))
    ]

handle_login-Keeps :
    (c : Context) (s : ChatServer) (p : ℕ) (r : Packet) → Keeps s (handle_login c s p r).1
unfolding handle_login
handle_login-Keeps c s p r =
    let x = player_at s p in
    let r₁ = (get_int r 8).1 in
    let account_no = read_or (get_int r 8).0 c.unset in
    let id = (get_data r₁ 40).1 in
    let nick_name = (get_data (get_data r₁ 40).2 40).1 in
    let other = find_duplicate s.field.players s.player_map account_no x.session_id in
    let s₁ = drop_duplicate s other in
    let x' : Player = record x { account_no = account_no; is_logged_in = true } in
    let s₂ = set_player s₁ p x' in
    let named : Names = record { id = c.copy_name id; nick_name = c.copy_name nick_name } in
    let s₃ = record s₂ { names = update s₂.names p named } in
    let refused = x.is_logged_in || not (has_nul id) || not (has_nul nick_name) in
    let k = drop_duplicate-Keeps s other in
    let l =
      set_player-Keeps s₁ p x' (ap (λ f. (f p).sector_x) (drop_duplicate-players s other))
        (ap (λ f. (f p).sector_y) (drop_duplicate-players s other)) in
    let m = step_then s s₁ s₂ k l in
    let named_too : Keeps s s₃ = record { placed = m.placed; map = m.map; refs = m.refs } in
    elim (Option-cases c.allocated) [
      | inl e ↦ rw (handle_login, e) (unless-Keeps refused s (false, s) (same_state s))
      | inr (res, e) ↦
          let answer = make_chat_res_login (init res) 1 account_no in
          let sent = send c s₃ x.session_id answer in
          rw (handle_login, e)
            (unless-Keeps refused s (c.sends x.session_id, sent)
              (step_then s s₃ sent named_too (send-Keeps c s₃ x.session_id answer)))
    ]

handle-Keeps :
    (c : Context) (s : ChatServer) (p : ℕ) (r : Packet) (h : Option Handler)
    → Keeps s (handle c s p r h).1
unfolding handle
handle-Keeps c s p r none = same_state s
handle-Keeps c s p r (some login) = handle_login-Keeps c s p r
handle-Keeps c s p r (some sector_move) = handle_sector_move-Keeps c s p r
handle-Keeps c s p r (some send_chat_message) = handle_chat_message-Keeps c s p r
handle-Keeps c s p r (some heart_beat) = same_state s

process-Keeps : (c : Context) (s : ChatServer) (p : ℕ) (r : Packet) → Keeps s (process c s p r).1
unfolding process
process-Keeps c s p r =
    let header = read_or (get_int r 2).0 c.unset in
    let r₁ = (get_int r 2).1 in
    if-Keeps (not (player_at s p).is_logged_in && not (header == req_login)) s
      (false, reserve_delete_player s p) (handle c s p r₁ (select header r₁.data_size))
      (reserve_delete-Keeps s p) (handle-Keeps c s p r₁ (select header r₁.data_size))

-- If every player stands in the list of its own sector, once, and in no other, then it is so after
-- `OnRecv` of any packet for any session; the packet is released once, and the map of players is as
-- before.
pub on_recv-IsPlaced :
    (c : Context) (s : ChatServer) (session_id h : ℕ) (r : Packet)
    → IsPlaced s.field
    → let s' = on_recv c s session_id h r in
      IsPlaced s'.field × (s'.sub_refs ≡ h ∷ s.sub_refs) × (s'.player_map ≡ s.player_map)
unfolding on_recv
on_recv-IsPlaced c s session_id h r v = elim (Option-cases (find s.player_map session_id)) [
  | inl e ↦ rw (on_recv, e) (v, refl, refl)
  | inr (p, e) ↦
      let k = process-Keeps c s p r in
      let s₁ = (process c s p r).1 in
      let l = step_then s s₁ _ k (reserve_delete-Keeps s₁ p) in
      elim (Bool-cases (process c s p r).0) [
        | inl d ↦ rw (on_recv, e, d) (k.placed v, ap (◌∷◌ h) k.refs, k.map)
        | inr d ↦ rw (on_recv, e, d) (l.placed v, ap (◌∷◌ h) l.refs, l.map)
      ]
]

same : (p : ℕ) → (p == p) ≡ true
same p = (==_iff p p).1 refl

-- A packet of another type than a login, for a session of the map whose player is not logged in,
-- sends nothing and moves no player; the player is marked for deletion, and the session cut off
-- once, unless the player was marked before.
pub on_recv_refuses :
    (c : Context) (s : ChatServer) (session_id h p : ℕ) (r : Packet)
    → find s.player_map session_id ≡ some p
    → (player_at s p).is_logged_in ≡ false
    → read_or (get_int r 2).0 c.unset ≢ req_login
    → let s' = on_recv c s session_id h r in
      (s'.sent ≡ s.sent)
      × (s'.field.sectors ≡ s.field.sectors)
      × ((s'.field.players p).will_delete ≡ true)
      × (s'.disconnects ≡ (
          if (player_at s p).will_delete
          then s.disconnects
          else (player_at s p).session_id ∷ s.disconnects))
unfolding on_recv process reserve_delete_player
on_recv_refuses c s session_id h p r e o n =
    let header = read_or (get_int r 2).0 c.unset in
    elim (Bool-cases (header == req_login)) [
      | inl t ↦ absurd (n ((==_iff header req_login).0 t))
      | inr t ↦ elim (Bool-cases (player_at s p).will_delete) [
        | inl w ↦ rw (on_recv, e, o, t, w, w) (refl, refl, w, refl)
        | inr w ↦ rw (on_recv, e, o, t, w, same p) (refl, refl, rw (same p) refl, refl)
      ]
    ]
