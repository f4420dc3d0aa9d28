-- ===== src/Wire.antt =====
-- pkg/wire: the message, its flags and the enumerations that the protocols share.
use Prim.Native.Nat.{bit_and, bit_or, bit_xor}
use go_ricochet.Base.{
  ℕ, ◌*◌, Bool, false, not, Option, none, some, ltb, ◌==◌, if◌then◌else◌, Text, ℤ, pos, ltb_ℤ,
  is_zero, suc_ℤ,
}

abbrev pub max_hop_count : ℕ
max_hop_count = 10

abbrev pub max_payload_size : ℕ
max_payload_size = 10 * 1024 * 1024

-- The stored ordinal may be none of the four.
pub data MailboxType : Type 0 where
  private shared public claim : MailboxType
  unknown : ℕ → MailboxType

pub data AccessMode : Type 0 where
  read_only write_only read_write : AccessMode
  other_mode : ℕ → AccessMode

abbrev pub priority_low : ℕ
priority_low = 0

abbrev pub priority_urgent : ℕ
priority_urgent = 3

-- `MessagePriorityFromValue`
pub priority_from_value : ℕ → Option ℕ
priority_from_value v = if ltb 3 v then none else some v

abbrev pub flag_forwarded : ℕ
flag_forwarded = 16

abbrev pub msg_flag_seen : ℕ
msg_flag_seen = 1

abbrev pub msg_flag_deleted : ℕ
msg_flag_deleted = 4

-- `HasFlag`, `WithFlag` and `WithoutFlag` of both bitmaps; `f &^ flag` clears the bits of `flag`.
unfoldable pub has_flag : ℕ → ℕ → Bool
has_flag f flag = not (bit_and f flag == 0)

unfoldable pub with_flag : ℕ → ℕ → ℕ
with_flag f flag = bit_or f flag

unfoldable pub without_flag : ℕ → ℕ → ℕ
without_flag f flag = bit_xor f (bit_and f flag)

pub record Message : Type 0 where
  pub message_id : Text
  pub recipient : Text
  pub sender : Text
  pub payload : Text
  pub priority : ℕ
  pub expiry : ℤ
  pub hop_count : ℤ
  pub flags : ℕ
  pub created : ℤ
  pub folder_path : Text
  pub sequence : ℕ
  pub msg_flags : ℕ
  pub persistent : Bool

-- `IsExpired` at the clock reading `now`, in milliseconds: an expiry of 0 means never.
unfoldable pub is_expired : ℕ → Message → Bool
is_expired now m = if is_zero m.expiry then false else ltb_ℤ m.expiry (pos now)

-- `WithIncrementedHopCount`
unfoldable pub with_incremented_hop_count : Message → Option Message
unfolding with_flag
with_incremented_hop_count m =
    if not (ltb_ℤ m.hop_count (pos max_hop_count))
    then none
    else some (record m { hop_count = suc_ℤ m.hop_count; flags = with_flag m.flags flag_forwarded })

pub record StoreAck : Type 0 where
  pub success : Bool
  pub status : ℕ

-- `StoreAck.StatusCode`
unfoldable pub status_code : StoreAck → ℕ
status_code a = if not (a.status == 0) then a.status else if a.success then 200 else 500
