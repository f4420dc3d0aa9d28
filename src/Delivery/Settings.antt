-- ===== src/Delivery/Settings.antt =====
-- internal/mda/delivery.go and internal/protocol/mma/handler.go: the settings that a mailbox gets.
use go_ricochet.Base.{
  ℕ, ◌+◌, ◌-◌, ◌*◌, ◌/◌, ◌%◌, ◌^◌, not, ◌||◌, Option, none, some, ltb, leb, ◌==◌, if◌then◌else◌,
  ◌>>=◌, ℤ, pos, negsuc, pos_part, ltb_ℤ, is_positive,
}
use go_ricochet.Wire.{Message}
use go_ricochet.Store.Rows.{MailboxRow}

pub record MailboxDefaults : Type 0 where
  pub max_messages : ℤ
  pub retention_days : ℤ
  pub max_per_owner : ℤ
  pub max_mailboxes : ℤ

-- The part of the server configuration that delivery reads; the policy is in nanoseconds.
pub record MailboxConfig : Type 0 where
  pub max_messages_per_mailbox : ℤ
  pub retention_policy : ℤ
  pub max_mailboxes_per_owner : ℤ
  pub max_mailboxes : ℤ

abbrev pub fallback_max_messages : ℤ
fallback_max_messages = pos 1000

abbrev pub fallback_retention_days : ℤ
fallback_retention_days = pos 30

-- 24 * time.Hour
abbrev pub day_ns : ℕ
day_ns = 86400000000000

-- `orFallbacks`
unfoldable pub or_fallbacks : MailboxDefaults → MailboxDefaults
or_fallbacks d = record d {
  max_messages = if is_positive d.max_messages then d.max_messages else fallback_max_messages;
  retention_days =
      if is_positive d.retention_days then d.retention_days else fallback_retention_days;
}

-- `retentionDays`: a positive policy in whole days, rounded up.
unfoldable pub retention_days : ℤ → ℤ
retention_days policy =
    if is_positive policy
    then pos (pos_part policy / day_ns + (if pos_part policy % day_ns == 0 then 0 else 1))
    else pos 0

-- `DefaultsFromConfig`
unfoldable pub defaults_from_config : Option MailboxConfig → MailboxDefaults
unfolding or_fallbacks
defaults_from_config none = or_fallbacks (record {
  max_messages = pos 0;
  retention_days = pos 0;
  max_per_owner = pos 0;
  max_mailboxes = pos 0;
})
defaults_from_config (some cfg) = or_fallbacks (record {
  max_messages = cfg.max_messages_per_mailbox;
  retention_days = retention_days cfg.retention_policy;
  max_per_owner = cfg.max_mailboxes_per_owner;
  max_mailboxes = cfg.max_mailboxes;
})

-- A product of days and 24 hours in the 64 bits of a time.Duration, before the sign is read.
abbrev pub day_product : ℕ → ℕ
day_product days = (days * day_ns) % 2 ^ 64

abbrev ceil_div : ℕ → ℕ → ℕ
ceil_div a b = (a + (b - 1)) / b

-- `now.Add(…).UnixMilli()` at `now` milliseconds: the duration is negative from 2^63 on.
unfoldable pub retention_limit : ℕ → ℕ → ℤ
retention_limit now days =
    let u = day_product days in
    if ltb u (2 ^ 63)
    then pos (now + u / 1000000)
    else if leb (2 ^ 64) (now * 1000000 + u)
    then pos ((now * 1000000 + u - 2 ^ 64) / 1000000)
    else negsuc (ceil_div (2 ^ 64 - (now * 1000000 + u)) 1000000 - 1)

abbrev bound_by : ℤ → Message → Message
bound_by limit msg =
    if not (is_positive msg.expiry) || ltb_ℤ limit msg.expiry
    then record msg { expiry = limit }
    else msg

-- `clampExpiry`
unfoldable pub clamp_expiry : ℕ → MailboxRow → Message → Message
clamp_expiry now m msg =
    if is_positive m.retention_days
    then bound_by (retention_limit now (pos_part m.retention_days)) msg
    else msg

-- One setting that a client names: refused where it is not positive, else at most the server's.
unfoldable pub clamp_setting : ℤ → ℤ → Option ℤ → Option ℤ
clamp_setting bound current none = some current
clamp_setting bound current (some n) =
    if is_positive n then some (if ltb_ℤ bound n then bound else n) else none

abbrev clamp_count : ℤ → Option ℕ → Option ℤ → Option (Option ℕ)
clamp_count bound current none = some current
clamp_count bound current (some n) =
    if is_positive n then some (some (pos_part (if ltb_ℤ bound n then bound else n))) else none

-- `clampMailboxSettings`, the text of its refusals left out. The server's cap is positive, as
-- `orFallbacks` makes it.
unfoldable pub clamp_mailbox_settings :
    MailboxDefaults → Option ℤ → Option ℤ → Option ℤ → ℤ → ℤ → Option ℕ → Option (ℤ × ℤ × Option ℕ)
unfolding clamp_setting
clamp_mailbox_settings d most days count cur_cap cur_days cur_count = do
  out_cap ← clamp_setting d.max_messages cur_cap most
  out_days ← clamp_setting d.retention_days cur_days days
  out_count ← clamp_count d.max_messages cur_count count
  some (out_cap, out_days, out_count)
