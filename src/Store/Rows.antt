-- ===== src/Store/Rows.antt =====
-- The tables of schema.sql that mailboxes use, and UPDATE and DELETE on them.
use go_ricochet.Base.{
  ℕ, ◌-◌, Bool, not, ◌&&◌, Option, List, [], map, ◌==◌, if◌then◌else◌, length, keep, find_first,
  any_of, sum_by, Text, ◌=ᵗ◌, ℤ,
}
use go_ricochet.Wire.{MailboxType, AccessMode}

pub record MailboxRow : Type 0 where
  pub id : ℕ
  pub owner : Text
  pub folder : Text
  pub mailbox_type : MailboxType
  pub max_messages : ℤ
  pub retention_days : ℤ
  pub retention_count : Option ℕ
  pub current_sequence : ℕ
  pub message_count : ℕ
  pub message_bytes : ℕ

pub record MessageRow : Type 0 where
  pub id : ℕ
  pub mailbox_id : ℕ
  pub sequence : ℕ
  pub message_id : Text
  pub recipient : Text
  pub sender : Text
  pub payload : Text
  pub priority : ℕ
  pub created_at : ℤ
  pub expires_at : ℤ
  pub hop_count : ℤ
  pub flags_bitmap : ℕ
  pub sf_flags : ℕ
  pub persistent : Bool
  pub folder_path : Text

pub record AclRow : Type 0 where
  pub mailbox_id : ℕ
  pub peer : Text
  pub mode : AccessMode

pub record CursorRow : Type 0 where
  pub mailbox_id : ℕ
  pub reader : Text
  pub last_sequence_read : ℕ

-- The tables, and the two BIGSERIAL counters.
pub record Db : Type 0 where
  pub mailboxes : List MailboxRow
  pub messages : List MessageRow
  pub acls : List AclRow
  pub cursors : List CursorRow
  pub next_mailbox : ℕ
  pub next_message : ℕ

abbrev pub empty : Db
empty = record {
  mailboxes = [];
  messages = [];
  acls = [];
  cursors = [];
  next_mailbox = 1;
  next_message = 1;
}

abbrev pub in_mailbox : ℕ → MessageRow → Bool
in_mailbox mid r = r.mailbox_id == mid

-- How many of the rows a mailbox holds, and their payload bytes.
abbrev pub count_in : ℕ → List MessageRow → ℕ
count_in mid = sum_by (λ r. if in_mailbox mid r then 1 else 0)

abbrev pub bytes_in : ℕ → List MessageRow → ℕ
bytes_in mid = sum_by (λ r. if in_mailbox mid r then length r.payload else 0)

-- SELECT … FROM mailboxes WHERE id = mid
unfoldable pub mailbox_by_id : ℕ → List MailboxRow → Option MailboxRow
mailbox_by_id mid = find_first (λ m. m.id == mid)

-- UPDATE mailboxes SET … WHERE id = mid
unfoldable pub update_mailboxes : ℕ → (MailboxRow → MailboxRow) → List MailboxRow → List MailboxRow
update_mailboxes mid f = map (λ m. if m.id == mid then f m else m)

-- What trigger `stored_messages_deleted` does to one mailbox: GREATEST(… - …, 0).
abbrev pub settle : List MessageRow → MailboxRow → MailboxRow
settle deleted m = record m {
  message_count = m.message_count - count_in m.id deleted;
  message_bytes = m.message_bytes - bytes_in m.id deleted;
}

-- DELETE FROM stored_messages WHERE p, with the trigger; and RowsAffected.
unfoldable pub delete_where : (MessageRow → Bool) → Db → Db × ℕ
delete_where p db =
    let deleted = keep p db.messages in
    (
      record db {
        messages = keep (λ r. not (p r)) db.messages;
        mailboxes = map (settle deleted) db.mailboxes;
      },
      length deleted,
    )

-- mailbox_id IN (SELECT id FROM mailboxes WHERE owner_peer_id = owner)
unfoldable pub owned_by : Text → Db → MessageRow → Bool
owned_by owner db r = any_of (λ m. m.id == r.mailbox_id && m.owner =ᵗ owner) db.mailboxes
