-- ===== src/Store/Messages.antt =====
-- The message operations of internal/storage/postgres/postgres.go: storing, retrieving, claiming,
-- flags, expunging and acknowledging. An operation takes encoded peer IDs, as its SQL does.
use go_ricochet.Base.{
  ℕ, suc, ◌+◌, Bool, true, not, ◌&&◌, ◌||◌, Option, none, some, List, [], ◌∷◌, ◌++◌, map, ltb, leb,
  ◌==◌, if◌then◌else◌, length, take, keep, find_first, any_of, Text, ◌=ᵗ◌, mem_text, ℤ, pos,
  pos_part, ltb_ℤ, is_positive,
}
use go_ricochet.Wire.{Message, with_flag, without_flag, has_flag, msg_flag_seen, msg_flag_deleted}
use go_ricochet.Store.Rows.{
  MailboxRow, MessageRow, Db, in_mailbox, mailbox_by_id, update_mailboxes, delete_where, owned_by,
}
use go_ricochet.Store.Sort.{sort_by}

pub data StoreError : Type 0 where
  mailbox_not_found : StoreError
  mailbox_full : ℕ → ℤ → StoreError
  duplicate_message_id : StoreError

-- A failed transaction is rolled back, so a refusal has no tables.
pub data StoreResult : Type 0 where
  stored : Db → ℕ → StoreResult
  refused : StoreError → StoreResult

-- max_messages <= 0 OR message_count < max_messages
unfoldable pub has_room : MailboxRow → Bool
has_room m = not (is_positive m.max_messages) || ltb m.message_count (pos_part m.max_messages)

-- The sequence UPDATE of `StoreMessage`.
abbrev pub count_message : Message → MailboxRow → MailboxRow
count_message msg m = record m {
  current_sequence = m.current_sequence + 1;
  message_count = m.message_count + 1;
  message_bytes = m.message_bytes + length msg.payload;
}

-- The row that `StoreMessage` inserts.
abbrev pub row_of : ℕ → ℕ → ℕ → Message → MessageRow
row_of rid mid seq msg = record {
  id = rid;
  mailbox_id = mid;
  sequence = seq;
  message_id = msg.message_id;
  recipient = msg.recipient;
  sender = msg.sender;
  payload = msg.payload;
  priority = msg.priority;
  created_at = msg.created;
  expires_at = msg.expiry;
  hop_count = msg.hop_count;
  flags_bitmap = msg.msg_flags;
  sf_flags = msg.flags;
  persistent = msg.persistent;
  folder_path = msg.folder_path;
}

-- The INSERT, which the constraint uq_message_id refuses for an ID that is stored already.
unfoldable pub insert_message : ℕ → ℕ → Message → Db → StoreResult
insert_message mid seq msg db =
    if any_of (λ r. r.message_id =ᵗ msg.message_id) db.messages
    then refused duplicate_message_id
    else stored
        (record db {
          mailboxes = update_mailboxes mid (count_message msg) db.mailboxes;
          messages = db.messages ++ row_of db.next_message mid seq msg ∷ [];
          next_message = suc db.next_message;
        })
        seq

-- `StoreMessage` and `storeRefused`.
unfoldable pub store_message : ℕ → Message → Db → StoreResult
unfolding insert_message has_room
store_message mid msg db = elim (mailbox_by_id mid db.mailboxes) [
  | none ↦ refused mailbox_not_found
  | some m ↦
      if has_room m
      then insert_message mid (m.current_sequence + 1) msg db
      else refused (mailbox_full m.message_count m.max_messages)
]

-- expires_at > NOW()
abbrev pub is_live : ℕ → MessageRow → Bool
is_live now r = ltb_ℤ (pos now) r.expires_at

abbrev pub from_passes : Option ℕ → MessageRow → Bool
from_passes none r = true
from_passes (some s) r = leb s r.sequence

-- priority > $n
abbrev pub priority_passes : Option ℕ → MessageRow → Bool
priority_passes none r = true
priority_passes (some p) r = ltb p r.priority

-- The WHERE of `RetrieveMessages`.
abbrev pub matches : ℕ → ℕ → Option ℕ → Option ℕ → MessageRow → Bool
matches now mid from min_priority r =
    in_mailbox mid r && (is_live now r && (from_passes from r && priority_passes min_priority r))

-- ORDER BY priority DESC, sequence_number ASC
unfoldable pub retrieve_order : MessageRow → MessageRow → Bool
retrieve_order a b =
    ltb b.priority a.priority || (a.priority == b.priority && ltb a.sequence b.sequence)

abbrev pub limit_to {ℓ} : {A : Type ℓ} → Option ℕ → List A → List A
limit_to none xs = xs
limit_to (some n) xs = take n xs

-- `scanMessage`
abbrev pub scan_message : MessageRow → Message
scan_message r = record {
  message_id = r.message_id;
  recipient = r.recipient;
  sender = r.sender;
  payload = r.payload;
  priority = r.priority;
  expiry = r.expires_at;
  hop_count = r.hop_count;
  flags = r.sf_flags;
  created = r.created_at;
  folder_path = r.folder_path;
  sequence = r.sequence;
  msg_flags = r.flags_bitmap;
  persistent = r.persistent;
}

-- `RetrieveMessages`: the mailbox, the first sequence, the limit and the priority filter.
unfoldable pub retrieve_messages : ℕ → ℕ → Option ℕ → Option ℕ → Option ℕ → Db → List Message
retrieve_messages now mid from limit min_priority db =
    map scan_message (
      limit_to limit
        (sort_by retrieve_order (keep (matches now mid from min_priority) db.messages)))

-- ORDER BY sequence_number ASC
abbrev pub by_sequence : MessageRow → MessageRow → Bool
by_sequence a b = ltb a.sequence b.sequence

-- The inner SELECT of `ClaimMessage`: the live row with the least sequence number.
unfoldable pub oldest_live : ℕ → ℕ → List MessageRow → Option MessageRow
oldest_live now mid rows =
    find_first (λ r. true)
      (sort_by by_sequence (keep (λ r. in_mailbox mid r && is_live now r) rows))

-- `ClaimMessage`
unfoldable pub claim_message : ℕ → ℕ → Db → Db × Option Message
claim_message now mid db = elim (oldest_live now mid db.messages) [
  | none ↦ (db, none)
  | some r ↦ ((delete_where (λ x. x.id == r.id) db).0, some (scan_message r))
]

-- `DeleteMessage`
unfoldable pub delete_message : Text → Db → Db
delete_message id db = (delete_where (λ r. r.message_id =ᵗ id) db).0

-- `DeleteMessages`
unfoldable pub delete_messages : List Text → Db → Db
delete_messages [] db = db
delete_messages (i ∷ ids) db = (delete_where (λ r. mem_text r.message_id (i ∷ ids)) db).0

-- `DeleteOwnedMessages`
unfoldable pub delete_owned_messages : Text → List Text → Db → Db × ℕ
delete_owned_messages owner [] db = (db, 0)
delete_owned_messages owner (i ∷ ids) db =
    delete_where (λ r. mem_text r.message_id (i ∷ ids) && owned_by owner db r) db

-- UPDATE stored_messages SET … WHERE p, and RowsAffected.
unfoldable pub update_where : (MessageRow → Bool) → (MessageRow → MessageRow) → Db → Db × ℕ
update_where p f db = (
  record db { messages = map (λ r. if p r then f r else r) db.messages },
  length (keep p db.messages),
)

-- `UpdateMessageFlags`: the new flags, or none where no row matched.
unfoldable pub update_message_flags : Text → Text → ℕ → ℕ → Db → Db × Option ℕ
update_message_flags owner mid add remove db =
    let target = λ (r : MessageRow). r.message_id =ᵗ mid && owned_by owner db r in
    let new_flags = λ (r : MessageRow). without_flag (with_flag r.flags_bitmap add) remove in
    (
      (update_where target (λ r. record r { flags_bitmap = new_flags r }) db).0,
      elim (find_first target db.messages) [ none ↦ none | some r ↦ some (new_flags r) ],
    )

-- `ExpungeMailbox`
unfoldable pub expunge_mailbox : ℕ → Db → Db × ℕ
expunge_mailbox mid =
    delete_where (λ r. in_mailbox mid r && has_flag r.flags_bitmap msg_flag_deleted)

-- `ExpungeAllMailboxes`
unfoldable pub expunge_all_mailboxes : Text → Db → Db × ℕ
expunge_all_mailboxes owner db =
    delete_where (λ r. owned_by owner db r && has_flag r.flags_bitmap msg_flag_deleted) db

-- `MarkMessagesDelivered`: non-persistent rows go, persistent ones gain \Seen.
unfoldable pub mark_messages_delivered : Text → List Text → Db → Db × ℕ
mark_messages_delivered owner [] db = (db, 0)
mark_messages_delivered owner (i ∷ ids) db =
    let (gone, deleted) =
      delete_where
        (λ r. mem_text r.message_id (i ∷ ids) && (not r.persistent && owned_by owner db r)) db in
    let (done, seen) =
      update_where (λ r. mem_text r.message_id (i ∷ ids) && (r.persistent && owned_by owner gone r))
        (λ r. record r { flags_bitmap = with_flag r.flags_bitmap msg_flag_seen }) gone in
    (done, deleted + seen)
