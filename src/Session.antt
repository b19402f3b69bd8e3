-- ===== src/Session.antt =====
-- The control word of Session.h and the functions of BaseServer.cpp that change it
-- (projects/multithread-chat-server/Server/NetLib): a count of the I/O operations in flight and the
-- two flags of the session's end, changed together by one compare-and-swap. A call here is one
-- successful compare-and-swap, which the loops around it repeat until it succeeds.
pub mod Life
pub mod Release
pub mod Pool
pub mod Open
pub mod Control
mod Examples
use Prim.Native.Nat.{bit_and, bit_or}
use game_programmer_portfoli.Base.{
  ℕ, ◌+◌, ◌-◌, ◌%◌, ◌^◌, Bool, true, false, not, ◌&&◌, Option, none, some, ◌==◌, if◌then◌else◌,
}

-- `FLAG_RELEASE` and `FLAG_CLEANUP`.
abbrev pub flag_release : ℕ
flag_release = 1

abbrev pub flag_cleanup : ℕ
flag_cleanup = 2

-- `SessionControl`: the two halves of the 64 bits.
pub record SessionControl : Type 0 where
  pub io_count : ℕ
  pub release_flag : ℕ

-- `control.store(0)` of `Init`.
abbrev pub zero_control : SessionControl
zero_control = record { io_count = 0; release_flag = 0 }

-- `IncreaseIoCount`: whether it counted.
unfoldable pub increase_io_count : SessionControl → Bool × SessionControl
increase_io_count c =
    if not (bit_and c.release_flag flag_release == 0)
    then (false, c)
    else (true, record c { io_count = (c.io_count + 1) % 2 ^ 32 })

-- `TrySetReleaseFlag`: `ioCountBefore`, or `none` if the end was requested already.
pub try_set_release_flag : SessionControl → Option ℕ × SessionControl
try_set_release_flag c =
    if not (bit_and c.release_flag flag_release == 0)
    then (none, c)
    else (some c.io_count, record c { release_flag = bit_or c.release_flag flag_release })

-- `fetch_sub(1)` on the whole word: a count of 0 borrows from the flags.
fetch_sub_1 : SessionControl → SessionControl
fetch_sub_1 c =
    if c.io_count == 0
    then record { io_count = 2 ^ 32 - 1; release_flag = (c.release_flag + 2 ^ 32 - 1) % 2 ^ 32 }
    else record c { io_count = c.io_count - 1 }

-- `decreaseSessionIoCount`: whether it posts the RELEASE completion.
pub decrease_session_io_count : SessionControl → Bool × SessionControl
unfolding fetch_sub_1
decrease_session_io_count c = ((c.io_count == 1) && (c.release_flag == 1), fetch_sub_1 c)

-- `requestRelease` on the control word: whether it posts the RELEASE completion. Its counter of
-- reasons and `CancelIoEx`, which makes the operations in flight end, are not part of this state.
pub request_release : SessionControl → Bool × SessionControl
unfolding try_set_release_flag
request_release c =
    let (before, c') = try_set_release_flag c in
    elim before [ none ↦ (false, c') | some count ↦ (count == 0, c') ]

-- The loop at the head of `releaseSession`: whether the caller goes on to clean up.
pub claim_cleanup : SessionControl → Bool × SessionControl
claim_cleanup c =
    if not (c.io_count == 0)
    then (false, c)
    else if bit_and c.release_flag flag_release == 0
    then (false, c)
    else if not (bit_and c.release_flag flag_cleanup == 0)
    then (false, c)
    else (true, record c { release_flag = bit_or c.release_flag flag_cleanup })
