-- ===== src/Session/Pool.antt =====
-- `createSession`, `findSession` and the end of `releaseSession` of BaseServer.cpp: the array of
-- sessions, the stack of the indices that are not in use, and the ids. The ids are 64 bits: the
-- index above 48 bits of a running number. Each function is taken as one step.
pub mod Handles
pub mod Steps
pub mod Stale
use game_programmer_portfoli.Base.{
  ℕ, ◌+◌, ◌*◌, ◌/◌, ◌%◌, ◌^◌, Bool, true, false, not, Option, none, some, List, [], ◌∷◌, length,
  get_elem?, set, leb, ◌==◌, if◌then◌else◌,
}

-- `ESessionState`; no code sets `Disconnecting`.
pub data SessionState : Type 0 where
  free connected disconnecting : SessionState

abbrev pub is_connected : SessionState → Bool
is_connected connected = true
is_connected free = false
is_connected disconnecting = false

-- The fields of a session that the pool reads.
pub record Slot : Type 0 where
  pub id : ℕ
  pub state : SessionState

pub record SessionPool : Type 0 where
  -- `mSessionListHead[0 .. mMaxConnection)`
  pub sessions : List Slot
  pub empty_stack : List ℕ
  -- `mSessionID`
  pub session_id : ℕ

-- The two halves do not overlap, so `|` is a sum.
abbrev pub pack_id : ℕ → ℕ → ℕ
pack_id index unique = index * 2 ^ 48 % 2 ^ 64 + unique % 2 ^ 48

-- The index stands for the `Session*`; `Init` returns true. The count of sessions and the other
-- fields that `Init` resets are not part of this state.
unfoldable pub create_session : SessionPool → Option ℕ × SessionPool
create_session p = elim (p.empty_stack) [
  | [] ↦ (none, p)
  | index ∷ rest ↦ (
    some index,
    record {
      sessions =
          set p.sessions index (record { id = pack_id index p.session_id; state = connected });
      empty_stack = rest;
      session_id = (p.session_id + 1) % 2 ^ 64;
    },
  )
]

unfoldable pub find_session : SessionPool → ℕ → Option ℕ
find_session p id =
    let index = id / 2 ^ 48 in
    if leb (length p.sessions) index then none else elim (get_elem? p.sessions index) [
      | none ↦ none
      | some slot ↦
          if not (slot.id == id)
          then none
          else if not (is_connected slot.state)
          then none
          else some index
    ]

-- What `releaseSession` does to the session at `index` and to the stack.
unfoldable pub return_session : SessionPool → ℕ → SessionPool
return_session p index = elim (get_elem? p.sessions index) [
  | none ↦ p
  | some slot ↦ record p {
    sessions = set p.sessions index (record { id = 0; state = free });
    empty_stack = (slot.id / 2 ^ 48) ∷ p.empty_stack;
  }
]
