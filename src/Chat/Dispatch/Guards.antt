-- ===== src/Chat/Dispatch/Guards.antt =====
-- What a handler may rely on.
use game_programmer_portfoli.Base.{
  ℕ, ◌+◌, ◌-◌, ◌≤◌, ◌≡◌, ap, ◌∙◌, inl, inr, Bool, false, Option, none, some, length, take,
  length-drop, arith, ◌==◌, ==_iff, not, ◌&&◌, if◌then◌else◌,
}
use game_programmer_portfoli.Packet.{Packet, get_int, get_value}
use game_programmer_portfoli.Packet.Bounds.{IsValid}
use game_programmer_portfoli.Packet.Unread.{unread, length-unread, get_value_lem}
use game_programmer_portfoli.Packet.Bytes.{from_bytes}
use game_programmer_portfoli.Packet.Fields.{get_int-there}
use game_programmer_portfoli.Chat.Dispatch.{
  Handler, login, sector_move, send_chat_message, heart_beat, select, packet_proc, req_login,
}

-- The bytes that a handler reads before it looks at any of them: the account number; and the id, the
-- name and the key of a login, the two coordinates of a move, the length of a message.
abbrev pub fixed_size : Handler → ℕ
fixed_size login = 8 + 40 + 40 + 64
fixed_size sector_move = 8 + 2 + 2
fixed_size send_chat_message = 8 + 2
fixed_size heart_beat = 0

select-size :
    (header size : ℕ) (h : Handler) → select header size ≡ some h → fixed_size h + 7 ≤ size
unfolding select
select-size header size login e = ground (arith, ==_iff size 159)
select-size header size sector_move e = ground (arith, ==_iff size 19)
select-size header size send_chat_message e = ground arith
select-size header size heart_beat e = ground (arith, ==_iff size 7)

get_value-data_size : (p : Packet) (n : ℕ) → (get_value p n).1.data_size ≡ p.data_size
unfolding get_value
get_value-data_size p n = ground arith

get_int-short : (p : Packet) (n : ℕ) → get_value p n ≡ (none, p) → get_int p n ≡ (none, p)
unfolding get_int
get_int-short p n e =
    rw (get_int, ap (λ r. r.0) e) (ap {B = Option ℕ × Packet} (λ q. (none, q)) (ap (λ r. r.1) e))

-- The packet behind the type: nothing of its two bytes is left if it had them.
get_int-unread :
    (p : Packet)
    → IsValid p
    → p.read_pos ≡ 5
    → ((get_int p 2).1.data_size ≡ p.data_size)
      × (7 ≤ p.data_size → length (unread (get_int p 2).1) ≡ p.data_size - 7)
get_int-unread p v e = elim (get_value_lem 2 v) [
  | inl (long, value, left) ↦
      let there : get_int p 2 ≡ (some (from_bytes (take 2 (unread p))), (get_value p 2).1) =
        get_int-there p 2 (take 2 (unread p)) value in
      let size : (get_int p 2).1.data_size ≡ p.data_size =
        ap (λ r. r.1.data_size) there ∙ get_value-data_size p 2 in
      let rest : length (unread (get_int p 2).1) ≡ length (unread p) - 2 =
        ap (λ r. length (unread r.1)) there ∙ ap length left ∙ length-drop 2 (unread p) in
      (size, λ h. omega (arith, rest, length-unread v))
  | inr (short, same) ↦ (
    ap (λ r. r.1.data_size) (get_int-short p 2 same),
    λ h. absurd (omega (arith, length-unread v)),
  )
]

gate :
    (logged_in : Bool) (header size : ℕ) (h : Handler)
    → (if not logged_in && not (header == req_login) then none else select header size) ≡ some h
    → (select header size ≡ some h) × (logged_in ≡ false → h ≡ login)
unfolding select
gate logged_in header size login e = ground arith
gate logged_in header size sector_move e = ground (arith, ==_iff header 1)
gate logged_in header size send_chat_message e = ground (arith, ==_iff header 1)
gate logged_in header size heart_beat e = ground (arith, ==_iff header 1)

-- If `packetProc` sends a valid packet, read from behind its five bytes of header on, to a handler,
-- whatever its bytes are and whatever an unset type holds, then the handler finds at least as many
-- bytes to read as it takes without a check of its own (152 for a login, 12 for a sector move, 10
-- for a message, none for a heartbeat), and if the player is not logged in it is the handler of
-- logins.
pub packet_proc_lem :
    (unset : ℕ) (logged_in : Bool) (p : Packet) (h : Handler)
    → IsValid p
    → p.read_pos ≡ 5
    → (packet_proc unset logged_in p).0 ≡ some h
    → (fixed_size h ≤ length (unread (packet_proc unset logged_in p).1))
      × (logged_in ≡ false → h ≡ login)
unfolding packet_proc
packet_proc_lem unset logged_in p h v e s =
    let header : ℕ = elim (get_int p 2).0 [ none ↦ unset | some x ↦ x ] in
    let (chosen, allowed) = gate logged_in header (get_int p 2).1.data_size h s in
    let fits : fixed_size h + 7 ≤ (get_int p 2).1.data_size =
      select-size header (get_int p 2).1.data_size h chosen in
    let (size, rest) = get_int-unread p v e in (omega (arith, rest (omega arith)), allowed)
