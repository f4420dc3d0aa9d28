-- ===== src/Delivery/Tests.antt =====
-- The theorems of the delivery agent at a small server.
use go_ricochet.Base.{
  ℕ, ◌+◌, ◌*◌, ◌≡◌, refl, ◌⊎◌, inr, true, false, not, ◌&&◌, none, some, List, [], ◌∷◌, arith, leb,
  Text, codes, ◌=ᵗ◌, pos, ◌≤ℤ◌, ltb_ℤ, is_positive,
}
use go_ricochet.Wire.{MailboxType}
use go_ricochet.Store.Rows.{MailboxRow, empty}
use go_ricochet.Store.Mailboxes.{count_mailboxes, new_mailbox}
use go_ricochet.Mailboxes.Page.{RetrieveOpts}
use go_ricochet.Store.Mailboxes.{get_or_create_mailbox, find_mailbox}
use go_ricochet.Delivery.Address.{
  MailboxAddress, validate_folder_path, none_empty, segments, validate_folder_path_lem,
}
use go_ricochet.Delivery.Settings.{clamp_expiry, clamp_setting, clamp_mailbox_settings}
use go_ricochet.Delivery.Bounds.{clamp_expiry-bounds}
use go_ricochet.Delivery.{Server, load_or_create, check_mailbox_quota, wrap_record, retrieve}
use go_ricochet.Delivery.Coherence.{Coherent}
use go_ricochet.Delivery.Coherence.Run.{
  Call, to_deliver, to_configure, to_maintain, after_calls, after_calls-Coherent,
}
use go_ricochet.Delivery.Quota.{
  Creation, landed, Racing, none_yet, pass, land, Within, creations-quota,
}
use go_ricochet.Delivery.ReadsOnly.{KeepsMail, retrieve-KeepsMail}
use go_ricochet.Delivery.SmallCache.{Slot, small_setup, letter}

abbrev start : Server Slot ℕ
start = record { db = empty; cached = none; claims = 1 }

abbrev calls : List (ℕ × Call)
calls =
    (10, to_deliver (letter (codes "m1") []))
    ∷ (20, to_configure (codes "bob") (codes "inbox") (some (pos 2)) none none)
    ∷ (30, to_deliver (letter (codes "m2") []))
    ∷ (40, to_maintain)
    ∷ []

after_calls-Coherent_example : Coherent small_setup (after_calls small_setup calls start)
after_calls-Coherent_example = after_calls-Coherent small_setup calls none 1 (λ k. refl)

abbrev office : MailboxAddress
office = record { owner = codes "bob"; folder = codes "office"; mailbox_type = MailboxType.public }

abbrev making : Text → Creation
making folder = record {
  address = record { owner = codes "bob"; folder = folder; mailbox_type = MailboxType.public };
  cap = pos 3;
  days = pos 30;
  count = none;
}

-- Bob, who may have two mailboxes, has one and makes two at once.
abbrev one_made : Server Slot ℕ
one_made = landed small_setup (making (codes "office")) start

abbrev both_made : Server Slot ℕ
both_made =
    landed small_setup (making (codes "b")) (landed small_setup (making (codes "a")) one_made)

two_at_once : Racing small_setup 2 one_made both_made []
unfolding load_or_create get_or_create_mailbox find_mailbox check_mailbox_quota count_mailboxes
    wrap_record ◌=ᵗ◌
two_at_once =
    let a = making (codes "a") in
    let b = making (codes "b") in
    let first = pass one_made [] a none_yet refl refl (omega arith) in
    let second = pass one_made (a ∷ []) b first refl refl (omega arith) in
    let a_lands = land one_made (b ∷ []) [] a second in
    land (landed small_setup a one_made) [] [] b a_lands

three_in_the_end : (count_mailboxes (codes "bob") both_made.db).0 ≡ 3
unfolding load_or_create get_or_create_mailbox find_mailbox count_mailboxes wrap_record ◌=ᵗ◌
three_in_the_end = refl

creations-quota_example :
    let counts = count_mailboxes (codes "bob") both_made.db in
    Within (pos 2) 1 counts.0 × Within (pos 5) 1 counts.1
creations-quota_example =
    creations-quota small_setup (codes "bob") 2 one_made both_made [] two_at_once
      (unfold load_or_create get_or_create_mailbox find_mailbox count_mailboxes wrap_record ◌=ᵗ◌ in
        inr (omega arith))
      (unfold load_or_create get_or_create_mailbox find_mailbox count_mailboxes wrap_record ◌=ᵗ◌ in
        inr (omega arith))

abbrev first_page : RetrieveOpts
first_page = record { from = none; max_messages = none; min_priority = none; max_bytes = 0 }

retrieve-KeepsMail_example :
    KeepsMail empty (retrieve small_setup 50 office (codes "ann") first_page start).0.db
retrieve-KeepsMail_example = retrieve-KeepsMail small_setup 50 office (codes "ann") first_page start

validate_folder_path_lem_example :
    validate_folder_path small_setup.text_tests (codes "a//b")
    ≡ (leb 4 256 && (true && (not false && none_empty (segments (codes "a//b")))))
validate_folder_path_lem_example = validate_folder_path_lem small_setup.text_tests (codes "a//b")

abbrev bob_inbox : MailboxRow
bob_inbox = new_mailbox 1 (codes "bob") (codes "inbox") MailboxType.private (pos 3) (pos 30) none

clamp_expiry-bounds_example :
    let sent = clamp_expiry 10 bob_inbox (letter (codes "m1") []) in
    (is_positive sent.expiry ≡ true)
    × (sent.expiry ≤ℤ pos (10 + 30 * 86400000))
    × (((is_positive (pos 0) ≡ true) × (pos 0 ≤ℤ pos (10 + 30 * 86400000)) × (sent.expiry ≡ pos 0))
        ⊎ (((is_positive (pos 0) ≡ false) ⊎ (ltb_ℤ (pos (10 + 30 * 86400000)) (pos 0) ≡ true))
            × (sent.expiry ≡ pos (10 + 30 * 86400000))))
clamp_expiry-bounds_example =
    clamp_expiry-bounds 10 30 bob_inbox (letter (codes "m1") []) refl (omega arith) (omega arith)

clamped :
    clamp_mailbox_settings small_setup.defaults (some (pos 9)) none none (pos 3) (pos 30) none
    ≡ some (pos 3, pos 30, none)
unfolding clamp_mailbox_settings clamp_setting
clamped = refl
