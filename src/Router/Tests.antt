-- ===== src/Router/Tests.antt =====
-- The theorems of the transfer agent at a small server.
use go_ricochet.Base.{
  ℕ, ◌-◌, ◌≤◌, ◌≡◌, refl, ◌⊎◌, true, none, some, [], ◌∷◌, ltb, Text, codes, ◌=ᵗ◌, pos,
}
use go_ricochet.Wire.{Message, is_expired, with_flag, with_incremented_hop_count}
use go_ricochet.Store.Rows.{empty, mailbox_by_id, update_mailboxes}
use go_ricochet.Store.Messages.{store_message}
use go_ricochet.Store.Mailboxes.{find_mailbox, get_or_create_mailbox, count_mailboxes}
use go_ricochet.Mailboxes.{store_in, store_guard, store_message_in}
use go_ricochet.Delivery.Address.{full_path, validate_folder_path, new_mailbox_address}
use go_ricochet.Delivery.Settings.{retention_limit, clamp_expiry}
use go_ricochet.Delivery.{
  wrap_record, check_mailbox_quota, load_or_create, create_on_miss, get_or_create, deliver_into,
  deliver_local,
}
use go_ricochet.Delivery.SmallCache.{Slot, small_setup, letter}
use go_ricochet.Router.{
  accepted, contains, validate_forwarded, validate_message, Router, Node, check_rate_limit, deliver,
  accept_message, forwarded_copy, accept_copy, accept_decoded, accept_forwarded,
}
use go_ricochet.Router.Accepts.{
  one_hop_on, IsValid, IsDelivered, accept_message-IsDelivered, accept_forwarded-IsDelivered,
}
use go_ricochet.Router.Hops.{Forwarded, submitted, hop, hops_bound}

-- A router that forwards for one trusted peer and allows as many submissions as it has left.
abbrev router : Router Slot ℕ ℕ
router = record {
  mda = small_setup;
  limiter = some (λ peer left. (left - 1, ltb 0 left));
  forwarding = true;
  forwarders = some (codes "hub" ∷ []);
}

abbrev start : Node Slot ℕ ℕ
start = record { server = record { db = empty; cached = none; claims = 1 }; limits = 5 }

abbrev ann : Text
ann = codes "ann"

abbrev mail : Message
mail = letter (codes "m1") []

sent : (accept_message router 10 mail ann start).1 ≡ accepted (codes "m1")
unfolding accept_message validate_message check_rate_limit deliver deliver_local deliver_into
    get_or_create create_on_miss load_or_create check_mailbox_quota wrap_record new_mailbox_address
    validate_folder_path full_path clamp_expiry retention_limit store_message_in store_guard
    store_in store_message mailbox_by_id update_mailboxes find_mailbox get_or_create_mailbox
    count_mailboxes is_expired ◌=ᵗ◌
sent = refl

accept_message-IsDelivered_example :
    (ann ≡ ann)
    × IsValid 10 mail
    × ((check_rate_limit router ann 5).1 ≡ true)
    × IsDelivered router 10 mail start (accept_message router 10 mail ann start).0
    × (codes "m1" ≡ codes "m1")
accept_message-IsDelivered_example =
    accept_message-IsDelivered router 10 mail ann (codes "m1") start sent

abbrev hub : Text
hub = codes "hub"

abbrev copied : Message
copied = record mail { hop_count = pos 1; flags = 16 }

copy_made : forwarded_copy router mail ≡ some copied
unfolding forwarded_copy with_incremented_hop_count with_flag
copy_made = refl

passed_on : (accept_forwarded router 10 mail hub start).1 ≡ accepted (codes "m1")
unfolding accept_forwarded accept_decoded accept_copy forwarded_copy contains validate_forwarded
    check_rate_limit deliver deliver_local deliver_into get_or_create create_on_miss load_or_create
    check_mailbox_quota wrap_record new_mailbox_address validate_folder_path full_path clamp_expiry
    retention_limit store_message_in store_guard store_in store_message mailbox_by_id
    update_mailboxes find_mailbox get_or_create_mailbox count_mailboxes is_expired
    with_incremented_hop_count with_flag ◌=ᵗ◌
passed_on = refl

accept_forwarded-IsDelivered_example :
    (true ≡ true)
    × (contains router.forwarders hub ≡ true)
    × ((check_rate_limit router hub 5).1 ≡ true)
    × IsValid 10 (one_hop_on mail)
    × IsDelivered router 10 (one_hop_on mail) start (accept_forwarded router 10 mail hub start).0
    × (codes "m1" ≡ codes "m1")
accept_forwarded-IsDelivered_example =
    accept_forwarded-IsDelivered router 10 mail hub (codes "m1") start passed_on

one_hop : Forwarded Slot ℕ ℕ 1 mail copied
one_hop =
    hop 0 mail mail copied router 10 hub (codes "m1") start (submitted mail) passed_on copy_made

hops_bound_example : let n : ℕ = 1 in (n ≡ 0) ⊎ (n ≤ 10)
hops_bound_example = hops_bound 1 mail copied one_hop
