-- ===== src/Delivery/Grows.antt =====
-- What a store into a mailbox and a read of it do to the mailbox table.
use go_ricochet.Base.{
  ℕ, ◌≡◌, refl, inl, inr, Bool, true, false, Option, none, some, List, ltb, if◌then◌else◌,
  Option-cases, Text,
}
use go_ricochet.Wire.{Message, MailboxType}
use go_ricochet.Store.Rows.{MailboxRow, Db}
use go_ricochet.Store.Messages.{
  StoreResult, stored, refused, mailbox_full, mailbox_not_found, duplicate_message_id,
  store_message,
}
use go_ricochet.Store.Mailboxes.{enforce_retention_policy}
use go_ricochet.Store.Access.{update_cursor}
use go_ricochet.Store.Invariant.{WellFormed}
use go_ricochet.Store.Invariant.Run.{store, retain, move_cursor, step, step-WellFormed}
use go_ricochet.Mailboxes.Page.{Library, RetrieveOpts, fetch_page}
use go_ricochet.Mailboxes.{
  Reply, ok, fail, guarded, store_in, pruned_store, for_window, store_reply, store_message_in,
  read_guard, start_of, last_sequence, after_read, read_page, retrieve_from,
}
use go_ricochet.Delivery.SameSettings.{
  settings_at, Extends, Extends-trans, enforce-Extends, store_message-Extends,
}

-- Tables that are well formed and have all mailboxes that were there, with their settings.
abbrev pub Grows : Db → Db → Type 0
Grows db db' = WellFormed db' × Extends db db'

pub Grows-refl : (db : Db) → WellFormed db → Grows db db
Grows-refl db w = (w, λ i r e. e)

store_message-Grows :
    (mid : ℕ) (msg : Message) (db after : Db) (seq : ℕ)
    → WellFormed db
    → store_message mid msg db ≡ stored after seq
    → Grows db after
store_message-Grows mid msg db after seq w e =
    let kept : WellFormed (step 0 (store mid msg) db) = step-WellFormed 0 (store mid msg) db w in
    (unfold step in rw e at kept, store_message-Extends mid msg db after seq e)

store_reply-Grows :
    (mid : ℕ) (msg : Message) (db : Db) (res : StoreResult)
    → WellFormed db
    → store_message mid msg db ≡ res
    → Grows db (store_reply db res).0
store_reply-Grows mid msg db (stored after seq) w e = store_message-Grows mid msg db after seq w e
store_reply-Grows mid msg db (refused x) w e = Grows-refl db w

for_window-Grows :
    (c : Option ℕ) (db : Db) (refusal again : Db × Reply (Unit {0}))
    → Grows db refusal.0
    → Grows db again.0
    → Grows db (for_window c refusal again).0
for_window-Grows none db refusal again g h = g
for_window-Grows (some n) db refusal again g h = h

pruned_store-Grows :
    (now : ℕ) (m : MailboxRow) (msg : Message) (db : Db) (res : StoreResult)
    → WellFormed db
    → store_message m.id msg db ≡ res
    → Grows db (pruned_store now m msg db res).0
pruned_store-Grows now m msg db (stored after seq) w e = store_reply-Grows m.id msg db _ w e
pruned_store-Grows now m msg db (refused mailbox_not_found) w e = Grows-refl db w
pruned_store-Grows now m msg db (refused duplicate_message_id) w e = Grows-refl db w
pruned_store-Grows now m msg db (refused (mailbox_full n bound)) w e =
    let pruned = enforce_retention_policy now m db in
    let kept : WellFormed pruned = unfold step in step-WellFormed now (retain m) db w in
    let again = store_reply-Grows m.id msg pruned (store_message m.id msg pruned) kept refl in
    for_window-Grows m.retention_count db _ _ (Grows-refl db w)
      (again.0, Extends-trans db pruned _ (enforce-Extends now m db) again.1)

guarded-Grows :
    (now : ℕ) (m : MailboxRow) (msg : Message) (db : Db) (g : Reply Bool)
    → WellFormed db
    → Grows db (guarded db g (store_in now m msg db)).0
unfolding store_in
guarded-Grows now m msg db (fail e) w = Grows-refl db w
guarded-Grows now m msg db (ok false) w = Grows-refl db w
guarded-Grows now m msg db (ok true) w = pruned_store-Grows now m msg db _ w refl

pub store_message_in-Grows :
    (lib : Library) (now : ℕ) (m : MailboxRow) (msg : Message) (db : Db)
    → WellFormed db
    → Grows db (store_message_in lib now m msg db).0
unfolding store_message_in
store_message_in-Grows lib now m msg db w = guarded-Grows now m msg db _ w

update_cursor-Grows :
    (mid : ℕ) (r : Text) (seq : ℕ) (db : Db) → WellFormed db → Grows db (update_cursor mid r seq db)
update_cursor-Grows mid r seq db w = (
  unfold step in step-WellFormed 0 (move_cursor mid r seq) db w,
  unfold update_cursor settings_at in λ i x e. e,
)

after_read-Grows :
    (m : MailboxRow) (t : MailboxType) (r : Text) (msgs : List Message) (db : Db)
    → WellFormed db
    → Grows db (after_read m t (some r) msgs db)
unfolding after_read
after_read-Grows m t r msgs db w =
    let moved = update_cursor-Grows m.id r (last_sequence msgs) db w in
    let same = Grows-refl db w in by_type t moved same
  where
    by_flag :
        (b : Bool)
        → Grows db (update_cursor m.id r (last_sequence msgs) db)
        → Grows db db
        → Grows db (if b then update_cursor m.id r (last_sequence msgs) db else db)
    by_flag true moved same = moved
    by_flag false moved same = same

    by_type :
        (t : MailboxType)
        → Grows db (update_cursor m.id r (last_sequence msgs) db)
        → Grows db db
        → Grows db (after_read m t (some r) msgs db)
    by_type MailboxType.private moved same = same
    by_type MailboxType.claim moved same = same
    by_type (MailboxType.unknown n) moved same = same
    by_type MailboxType.shared moved same = by_flag (ltb 0 (last_sequence msgs)) moved same
    by_type MailboxType.public moved same = by_flag (ltb 0 (last_sequence msgs)) moved same

read_page-Grows :
    (lib : Library) (now : ℕ) (m : MailboxRow) (r : Text) (opts : RetrieveOpts) (db : Db)
    → WellFormed db
    → Grows db (read_page lib now m (some r) opts db).0
unfolding read_page
read_page-Grows lib now m r opts db w =
    elim (Option-cases
      (fetch_page lib now m (start_of m m.mailbox_type (some r) opts.from db) opts db)) [
        | inl e ↦ rw (e, read_page) (Grows-refl db w)
        | inr ((msgs, more), e) ↦ rw (e, read_page) (after_read-Grows m m.mailbox_type r msgs db w)
      ]

pub retrieve_from-Grows :
    (lib : Library) (now : ℕ) (m : MailboxRow) (r : Text) (opts : RetrieveOpts) (db : Db)
    → WellFormed db
    → Grows db (retrieve_from lib now m (some r) opts db).0
unfolding retrieve_from
retrieve_from-Grows lib now m r opts db w = granted (read_guard m m.mailbox_type (some r) db) refl
  where
    granted :
        (g : Reply Bool)
        → read_guard m m.mailbox_type (some r) db ≡ g
        → Grows db (retrieve_from lib now m (some r) opts db).0
    granted (fail x) e = rw (e, retrieve_from) (Grows-refl db w)
    granted (ok true) e = rw (e, retrieve_from) (read_page-Grows lib now m r opts db w)
    granted (ok false) e = rw (e, retrieve_from) (Grows-refl db w)
