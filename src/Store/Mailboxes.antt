-- ===== src/Store/Mailboxes.antt =====
-- The mailbox and maintenance operations of internal/storage/postgres/postgres.go.
use go_ricochet.Base.{
  ℕ, zero, suc, ◌+◌, ◌*◌, Bool, true, false, not, ◌&&◌, ◌||◌, Option, none, some, List, [], ◌∷◌,
  ◌++◌, map, ltb, leb, ◌==◌, if◌then◌else◌, length, take, drop, keep, find_first, any_of, Text,
  ◌=ᵗ◌, ℤ, pos, pos_part, neg_part, ltb_ℤ, is_positive,
}
use go_ricochet.Wire.{MailboxType}
use go_ricochet.Store.Rows.{
  MailboxRow, MessageRow, Db, in_mailbox, count_in, bytes_in, update_mailboxes, delete_where,
}
use go_ricochet.Store.Sort.{sort_by}

-- owner_peer_id = $1 AND folder_path = $2
abbrev pub at_address : Text → Text → MailboxRow → Bool
at_address owner folder m = m.owner =ᵗ owner && m.folder =ᵗ folder

-- `FindMailbox`
unfoldable pub find_mailbox : Text → Text → Db → Option MailboxRow
find_mailbox owner folder db = find_first (at_address owner folder) db.mailboxes

-- The row of a mailbox that `GetOrCreateMailbox` inserts.
abbrev pub new_mailbox : ℕ → Text → Text → MailboxType → ℤ → ℤ → Option ℕ → MailboxRow
new_mailbox mid owner folder type max_messages days count = record {
  id = mid;
  owner = owner;
  folder = folder;
  mailbox_type = type;
  max_messages = max_messages;
  retention_days = days;
  retention_count = count;
  current_sequence = 0;
  message_count = 0;
  message_bytes = 0;
}

-- `GetOrCreateMailbox`: an existing row is returned as it is.
unfoldable pub get_or_create_mailbox :
    Text → Text → MailboxType → ℤ → ℤ → Option ℕ → Db → Db × MailboxRow
unfolding find_mailbox
get_or_create_mailbox owner folder type max_messages days count db =
    elim (find_mailbox owner folder db) [
      | some m ↦ (db, m)
      | none ↦
          let m = new_mailbox db.next_mailbox owner folder type max_messages days count in
          (record db { mailboxes = db.mailboxes ++ m ∷ []; next_mailbox = suc db.next_mailbox }, m)
    ]

-- `CountMailboxes`: the owner's, and all.
unfoldable pub count_mailboxes : Text → Db → ℕ × ℕ
count_mailboxes owner db = (length (keep (λ m. m.owner =ᵗ owner) db.mailboxes), length db.mailboxes)

-- `ListMailboxes`
unfoldable pub list_mailboxes : Text → Db → List MailboxRow
list_mailboxes owner db = keep (λ m. m.owner =ᵗ owner) db.mailboxes

-- `UpdateMailbox` writes the settings of the record to the row with its ID.
unfoldable pub update_mailbox : MailboxRow → Db → Db
update_mailbox r db = record db {
  mailboxes =
      update_mailboxes r.id
        (λ m. record m {
          max_messages = r.max_messages;
          retention_days = r.retention_days;
          retention_count = r.retention_count;
        })
        db.mailboxes;
}

-- `DeleteMailbox`, with ON DELETE CASCADE of schema.sql.
unfoldable pub delete_mailbox : ℕ → Db → Db
delete_mailbox mid db = record db {
  mailboxes = keep (λ m. not (m.id == mid)) db.mailboxes;
  messages = keep (λ r. not (in_mailbox mid r)) db.messages;
  acls = keep (λ a. not (a.mailbox_id == mid)) db.acls;
  cursors = keep (λ c. not (c.mailbox_id == mid)) db.cursors;
}

-- expires_at < NOW()
abbrev pub is_past : ℕ → MessageRow → Bool
is_past now r = ltb_ℤ r.expires_at (pos now)

abbrev pub mem_id : ℕ → List MessageRow → Bool
mem_id i = any_of (λ r. r.id == i)

-- One DELETE of the expiry sweep: id IN (SELECT id … WHERE expires_at < NOW() LIMIT size). The
-- database may pick any `size` of them; here it picks the first in the table.
unfoldable pub delete_expired_batch : ℕ → ℕ → Db → Db × ℕ
delete_expired_batch size now db =
    let batch = take size (keep (is_past now) db.messages) in
    delete_where (λ r. mem_id r.id batch) db

-- The loop of `DeleteExpiredMessages`, with `batches` left to run and `total` deleted so far.
unfoldable pub delete_expired_loop : ℕ → ℕ → ℕ → ℕ → Db → Db × ℕ
delete_expired_loop zero size now total db = (db, total)
delete_expired_loop (suc batches) size now total db =
    let (after, deleted) = delete_expired_batch size now db in
    elim (ltb deleted size) [
      | true ↦ (after, total + deleted)
      | false ↦ delete_expired_loop batches size now (total + deleted) after
    ]

-- `DeleteExpiredMessages`
unfoldable pub delete_expired_messages : ℕ → Db → Db × ℕ
delete_expired_messages now = delete_expired_loop 200 5000 now 0

abbrev pub day_ms : ℕ
day_ms = 86400000

-- created_at < NOW() - INTERVAL '1 day' * days
unfoldable pub is_older : ℕ → ℤ → MessageRow → Bool
is_older now days r =
    ltb (pos_part r.created_at + day_ms * pos_part days)
      (now + neg_part r.created_at + day_ms * neg_part days)

-- ORDER BY sequence_number DESC
abbrev pub newest_first : MessageRow → MessageRow → Bool
newest_first a b = ltb b.sequence a.sequence

-- The rows of a mailbox past its newest `count`.
unfoldable pub beyond_newest : ℕ → ℕ → List MessageRow → List MessageRow
beyond_newest mid count rows = drop count (sort_by newest_first (keep (in_mailbox mid) rows))

-- `EnforceRetentionPolicy` with the settings of the record that it is given.
unfoldable pub enforce_retention_policy : ℕ → MailboxRow → Db → Db
enforce_retention_policy now r db =
    let (kept, _n) = delete_where (λ x. in_mailbox r.id x && is_older now r.retention_days x) db in
    elim r.retention_count [
      | none ↦ kept
      | some c ↦ (delete_where (λ x. mem_id x.id (beyond_newest r.id c kept.messages)) kept).0
    ]

-- The two WHERE clauses of `EnforceAllRetention`, joined to the mailbox of the row.
unfoldable pub time_retention : ℕ → Db → MessageRow → Bool
time_retention now db x =
    any_of
      (λ m. in_mailbox m.id x && (is_positive m.retention_days && is_older now m.retention_days x))
      db.mailboxes

abbrev pub at_or_below : MessageRow → List MessageRow → Bool
at_or_below x [] = false
at_or_below x (r ∷ rs) = leb x.sequence r.sequence

unfoldable pub count_retention_of : Db → MessageRow → MailboxRow → Bool
count_retention_of db x m = elim m.retention_count [
  | none ↦ false
  | some c ↦ in_mailbox m.id x && at_or_below x (beyond_newest m.id c db.messages)
]

-- `EnforceAllRetention`
unfoldable pub enforce_all_retention : ℕ → Db → Db × ℕ
enforce_all_retention now db =
    let (aged, n) = delete_where (time_retention now db) db in
    let (counted, k) = delete_where (λ x. any_of (count_retention_of aged x) aged.mailboxes) aged in
    (counted, n + k)

abbrev pub has_drifted : List MessageRow → MailboxRow → Bool
has_drifted rows m =
    not (m.message_count == count_in m.id rows) || not (m.message_bytes == bytes_in m.id rows)

abbrev pub reconcile_row : List MessageRow → MailboxRow → MailboxRow
reconcile_row rows m =
    if has_drifted rows m
    then record m { message_count = count_in m.id rows; message_bytes = bytes_in m.id rows }
    else m

-- `ReconcileMessageCounts`: its two UPDATEs set the mailboxes that have rows and those that have none.
unfoldable pub reconcile_message_counts : Db → Db × ℕ
reconcile_message_counts db = (
  record db { mailboxes = map (reconcile_row db.messages) db.mailboxes },
  length (keep (has_drifted db.messages) db.mailboxes),
)
