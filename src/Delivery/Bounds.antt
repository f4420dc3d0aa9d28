-- ===== src/Delivery/Bounds.antt =====
-- What the settings of a mailbox are bounded by.
use go_ricochet.Base.{
  ℕ, ◌+◌, ◌*◌, ◌/◌, ◌%◌, ◌≤◌, ◌<◌, ◌≡◌, refl, ◌⊎◌, true, false, Option, none, some, arith, ◌==◌,
  if◌then◌else◌, lt→ltb, ℤ, pos, ◌≤ℤ◌, ltb_ℤ, is_positive,
}
use go_ricochet.Wire.{Message}
use go_ricochet.Store.Rows.{MailboxRow}
use go_ricochet.Delivery.Settings.{
  MailboxDefaults, day_ns, day_product, or_fallbacks, retention_days, retention_limit, clamp_expiry,
  clamp_setting, clamp_mailbox_settings,
}

-- A positive retention policy becomes the least number of whole days that is not shorter, and at
-- least one.
pub retention_days_lem :
    (policy : ℕ)
    → 0 < policy
    → (d : ℕ) × (retention_days (pos policy) ≡ pos d)
      × (policy ≤ d * day_ns)
      × (d * day_ns < policy + day_ns)
      × (0 < d)
unfolding retention_days
retention_days_lem policy h =
    let d = policy / day_ns + (if policy % day_ns == 0 then 0 else 1) in
    (d, rw (lt→ltb 0 policy h) refl, ground arith, ground arith, ground arith)

pub or_fallbacks-positive :
    (d : MailboxDefaults)
    → (is_positive (or_fallbacks d).max_messages ≡ true)
      × (is_positive (or_fallbacks d).retention_days ≡ true)
unfolding or_fallbacks
or_fallbacks-positive d = (ground arith, ground arith)

small_product : (days : ℕ) → days ≤ 106751 → day_product days ≡ days * day_ns
small_product days h = omega arith

retention_limit-small :
    (now days : ℕ) → days ≤ 106751 → retention_limit now days ≡ pos (now + days * 86400000)
unfolding retention_limit
retention_limit-small now days h = let small = small_product days h in rw small (ground arith)

-- In a mailbox with a retention of up to 106751 days, where the 64-bit duration does not wrap, a
-- delivered message expires at a positive time, at most the retention from now: at the sender's own
-- time where the sender named a positive one within the retention, and at the end of the retention
-- where the sender named none that is positive, or a later one.
pub clamp_expiry-bounds :
    (now days : ℕ) (m : MailboxRow) (msg : Message)
    → m.retention_days ≡ pos days
    → 0 < days
    → days ≤ 106751
    → (is_positive (clamp_expiry now m msg).expiry ≡ true)
      × ((clamp_expiry now m msg).expiry ≤ℤ pos (now + days * 86400000))
      × (((is_positive msg.expiry ≡ true)
            × (msg.expiry ≤ℤ pos (now + days * 86400000))
            × ((clamp_expiry now m msg).expiry ≡ msg.expiry))
          ⊎ (((is_positive msg.expiry ≡ false)
                ⊎ (ltb_ℤ (pos (now + days * 86400000)) msg.expiry ≡ true))
              × ((clamp_expiry now m msg).expiry ≡ pos (now + days * 86400000))))
unfolding clamp_expiry
clamp_expiry-bounds now days m msg e h k =
    let limit = retention_limit-small now days k in
    rw (e, limit) (ground arith, ground arith, ground arith)

-- What a client may set: nothing it did not name, a positive value, and no more than the server's.
abbrev pub IsBounded : ℤ → ℤ → Option ℤ → ℤ → Type 0
IsBounded bound current none out = out ≡ current
IsBounded bound current (some n) out =
    (is_positive n ≡ true) × (out ≤ℤ n) × (out ≤ℤ bound) × ((out ≡ n) ⊎ (out ≡ bound))

clamp_setting-IsBounded :
    (bound current : ℤ) (asked : Option ℤ) (out : ℤ)
    → clamp_setting bound current asked ≡ some out
    → IsBounded bound current asked out
unfolding clamp_setting
clamp_setting-IsBounded bound current none out e = ground arith
clamp_setting-IsBounded bound current (some n) out e = ground arith

-- A change of settings that is accepted leaves the cap and the retention that were not named as they
-- were, and sets the ones that were named, which were positive, to the smaller of the named value
-- and the server's.
pub clamp_mailbox_settings-IsBounded :
    (d : MailboxDefaults) (most days count : Option ℤ) (cur_cap cur_days : ℤ) (cur_count : Option ℕ)
    (out_cap out_days : ℤ) (out_count : Option ℕ)
    → clamp_mailbox_settings d most days count cur_cap cur_days cur_count
      ≡ some (out_cap, out_days, out_count)
    → IsBounded d.max_messages cur_cap most out_cap
      × IsBounded d.retention_days cur_days days out_days
unfolding clamp_mailbox_settings
clamp_mailbox_settings-IsBounded d most days count cur_cap cur_days cur_count out_cap out_days
      out_count e =
    (
      clamp_setting-IsBounded d.max_messages cur_cap most out_cap (ground arith),
      clamp_setting-IsBounded d.retention_days cur_days days out_days (ground arith),
    )
