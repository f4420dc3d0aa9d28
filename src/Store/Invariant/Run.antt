-- ===== src/Store/Invariant/Run.antt =====
-- Any history of the mailbox store.
use go_ricochet.Base.{
  ℕ, zero, suc, ◌+◌, inl, inr, Option, List, [], ◌∷◌, ltb, ◌==◌, Bool-cases, Option-cases, Text, ℤ,
}
use go_ricochet.Wire.{Message, MailboxType, AccessMode, with_flag, without_flag, msg_flag_seen}
use go_ricochet.Store.Rows.{MailboxRow, Db, empty}
use go_ricochet.Store.Messages.{
  StoreResult, stored, refused, store_message, claim_message, oldest_live, delete_message,
  delete_messages, delete_owned_messages, update_message_flags, expunge_mailbox,
  expunge_all_mailboxes, mark_messages_delivered,
}
use go_ricochet.Store.Mailboxes.{
  get_or_create_mailbox, update_mailbox, delete_mailbox, delete_expired_batch, delete_expired_loop,
  delete_expired_messages, enforce_retention_policy, enforce_all_retention,
  reconcile_message_counts,
}
use go_ricochet.Store.Access.{grant_access, revoke_access, update_cursor}
use go_ricochet.Store.Invariant.{WellFormed}
use go_ricochet.Store.Invariant.Delete.{delete_where-WellFormed, update_where-WellFormed}
use go_ricochet.Store.Invariant.Insert.{WellFormedResult, store_message-WellFormed}
use go_ricochet.Store.Invariant.Settings.{
  get_or_create-WellFormed, update_mailbox-WellFormed, delete_mailbox-WellFormed,
  reconcile-WellFormed,
}

-- The calls that write mailboxes, messages, access entries and cursors, each with its arguments.
-- `UpdateMailboxAccess` writes only last_access_at, which the tables here do not have.
pub data Op : Type 0 where
  create : Text → Text → MailboxType → ℤ → ℤ → Option ℕ → Op
  configure : MailboxRow → Op
  drop_box : ℕ → Op
  store : ℕ → Message → Op
  claim_one : ℕ → Op
  acknowledge : Text → List Text → Op
  delete_one : Text → Op
  delete_many : List Text → Op
  delete_owned : Text → List Text → Op
  change_flags : Text → Text → ℕ → ℕ → Op
  expunge : ℕ → Op
  expunge_all : Text → Op
  grant : ℕ → Text → AccessMode → Op
  revoke : ℕ → Text → Op
  move_cursor : ℕ → Text → ℕ → Op
  sweep_expired : Op
  retain : MailboxRow → Op
  retain_all : Op
  reconcile : Op

-- A refused store is rolled back.
abbrev after_store : Db → StoreResult → Db
after_store db (stored after seq) = after
after_store db (refused e) = db

unfoldable pub step : ℕ → Op → Db → Db
step now (create owner folder type cap days count) db =
    (get_or_create_mailbox owner folder type cap days count db).0
step now (configure r) db = update_mailbox r db
step now (drop_box mid) db = delete_mailbox mid db
step now (store mid msg) db = after_store db (store_message mid msg db)
step now (claim_one mid) db = (claim_message now mid db).0
step now (acknowledge owner ids) db = (mark_messages_delivered owner ids db).0
step now (delete_one id) db = delete_message id db
step now (delete_many ids) db = delete_messages ids db
step now (delete_owned owner ids) db = (delete_owned_messages owner ids db).0
step now (change_flags owner mid add remove) db = (update_message_flags owner mid add remove db).0
step now (expunge mid) db = (expunge_mailbox mid db).0
step now (expunge_all owner) db = (expunge_all_mailboxes owner db).0
step now (grant mid peer mode) db = grant_access mid peer mode db
step now (revoke mid peer) db = revoke_access mid peer db
step now (move_cursor mid reader seq) db = update_cursor mid reader seq db
step now sweep_expired db = (delete_expired_messages now db).0
step now (retain r) db = enforce_retention_policy now r db
step now retain_all db = (enforce_all_retention now db).0
step now reconcile db = (reconcile_message_counts db).0

unfoldable pub run : List (ℕ × Op) → Db → Db
run [] db = db
run ((now, op) ∷ ops) db = run ops (step now op db)

after_store-WellFormed :
    (db : Db) (r : StoreResult) → WellFormed db → WellFormedResult r → WellFormed (after_store db r)
after_store-WellFormed db (stored after seq) w h = h
after_store-WellFormed db (refused e) w h = w

claim-WellFormed : (now mid : ℕ) (db : Db) → WellFormed db → WellFormed (claim_message now mid db).0
unfolding claim_message
claim-WellFormed now mid db w = elim (Option-cases (oldest_live now mid db.messages)) [
  | inl e ↦ rw (e, claim_message) w
  | inr (r, e) ↦ rw (e, claim_message) (delete_where-WellFormed (λ x. x.id == r.id) db w)
]

mark-WellFormed :
    (owner : Text) (ids : List Text) (db : Db)
    → WellFormed db
    → WellFormed (mark_messages_delivered owner ids db).0
unfolding mark_messages_delivered
mark-WellFormed owner [] db w = w
mark-WellFormed owner (i ∷ ids) db w =
    update_where-WellFormed _ (λ r. with_flag r.flags_bitmap msg_flag_seen) _
      (delete_where-WellFormed _ db w)

delete_many-WellFormed :
    (ids : List Text) (db : Db) → WellFormed db → WellFormed (delete_messages ids db)
unfolding delete_messages
delete_many-WellFormed [] db w = w
delete_many-WellFormed (i ∷ ids) db w = delete_where-WellFormed _ db w

delete_owned-WellFormed :
    (owner : Text) (ids : List Text) (db : Db)
    → WellFormed db
    → WellFormed (delete_owned_messages owner ids db).0
unfolding delete_owned_messages
delete_owned-WellFormed owner [] db w = w
delete_owned-WellFormed owner (i ∷ ids) db w = delete_where-WellFormed _ db w

expired_loop-WellFormed :
    (batches size now total : ℕ) (db : Db)
    → WellFormed db
    → WellFormed (delete_expired_loop batches size now total db).0
unfolding delete_expired_loop delete_expired_batch
expired_loop-WellFormed zero size now total db w = w
expired_loop-WellFormed (suc n) size now total db w =
    let after = delete_expired_batch size now db in
    let kept : WellFormed after.0 = delete_where-WellFormed _ db w in
    elim (Bool-cases (ltb after.1 size)) [
      | inl e ↦ rw (e, delete_expired_loop) kept
      | inr e ↦
          rw (e, delete_expired_loop)
            (expired_loop-WellFormed n size now (total + after.1) after.0 kept)
    ]

retention-WellFormed :
    (now : ℕ) (r : MailboxRow) (db : Db)
    → WellFormed db
    → WellFormed (enforce_retention_policy now r db)
unfolding enforce_retention_policy
retention-WellFormed now r db w = elim (Option-cases r.retention_count) [
  | inl e ↦ rw (e, enforce_retention_policy) (delete_where-WellFormed _ db w)
  | inr (c, e) ↦
      rw (e, enforce_retention_policy)
        (delete_where-WellFormed _ _ (delete_where-WellFormed _ db w))
]

-- Every operation keeps the tables well formed.
pub step-WellFormed : (now : ℕ) (op : Op) (db : Db) → WellFormed db → WellFormed (step now op db)
unfolding step
step-WellFormed now (create owner folder type cap days count) db w =
    get_or_create-WellFormed owner folder type cap days count db w
step-WellFormed now (configure r) db w = update_mailbox-WellFormed r db w
step-WellFormed now (drop_box mid) db w = delete_mailbox-WellFormed mid db w
step-WellFormed now (store mid msg) db w =
    after_store-WellFormed db (store_message mid msg db) w (store_message-WellFormed mid msg db w)
step-WellFormed now (claim_one mid) db w = claim-WellFormed now mid db w
step-WellFormed now (acknowledge owner ids) db w = mark-WellFormed owner ids db w
step-WellFormed now (delete_one id) db w = unfold delete_message in delete_where-WellFormed _ db w
step-WellFormed now (delete_many ids) db w = delete_many-WellFormed ids db w
step-WellFormed now (delete_owned owner ids) db w = delete_owned-WellFormed owner ids db w
step-WellFormed now (change_flags owner mid add remove) db w =
    unfold update_message_flags in
    update_where-WellFormed _ (λ r. without_flag (with_flag r.flags_bitmap add) remove) db w
step-WellFormed now (expunge mid) db w = unfold expunge_mailbox in delete_where-WellFormed _ db w
step-WellFormed now (expunge_all owner) db w =
    unfold expunge_all_mailboxes in delete_where-WellFormed _ db w
step-WellFormed now (grant mid peer mode) db w =
    unfold grant_access in
    record {
      counted = w.counted;
      sequenced = w.sequenced;
      ordered = w.ordered;
      mailbox_ids = w.mailbox_ids;
      mailbox_fresh = w.mailbox_fresh;
      message_fresh = w.message_fresh;
      row_mailboxes = w.row_mailboxes;
    }
step-WellFormed now (revoke mid peer) db w =
    unfold revoke_access in
    record {
      counted = w.counted;
      sequenced = w.sequenced;
      ordered = w.ordered;
      mailbox_ids = w.mailbox_ids;
      mailbox_fresh = w.mailbox_fresh;
      message_fresh = w.message_fresh;
      row_mailboxes = w.row_mailboxes;
    }
step-WellFormed now (move_cursor mid reader seq) db w =
    unfold update_cursor in
    record {
      counted = w.counted;
      sequenced = w.sequenced;
      ordered = w.ordered;
      mailbox_ids = w.mailbox_ids;
      mailbox_fresh = w.mailbox_fresh;
      message_fresh = w.message_fresh;
      row_mailboxes = w.row_mailboxes;
    }
step-WellFormed now sweep_expired db w =
    unfold delete_expired_messages in expired_loop-WellFormed 200 5000 now 0 db w
step-WellFormed now (retain r) db w = retention-WellFormed now r db w
step-WellFormed now retain_all db w =
    unfold enforce_all_retention in delete_where-WellFormed _ _ (delete_where-WellFormed _ db w)
step-WellFormed now reconcile db w = reconcile-WellFormed db w

pub empty-WellFormed : WellFormed empty
empty-WellFormed = record {
  counted = tt;
  sequenced = tt;
  ordered = tt;
  mailbox_ids = tt;
  mailbox_fresh = tt;
  message_fresh = tt;
  row_mailboxes = tt;
}

run-keeps : (ops : List (ℕ × Op)) (db : Db) → WellFormed db → WellFormed (run ops db)
unfolding run
run-keeps [] db w = w
run-keeps ((now, op) ∷ ops) db w = run-keeps ops (step now op db) (step-WellFormed now op db w)

-- After any sequence of writes of mailboxes, messages, access entries and cursors at any clock
-- readings, starting from empty tables: every mailbox's message count and byte count are those of its rows, no row carries a sequence number
-- above its mailbox's counter, rows inserted later in a mailbox carry greater sequence numbers,
-- message IDs are distinct, and row IDs and mailbox IDs are distinct and below their counters.
pub run-WellFormed : (ops : List (ℕ × Op)) → WellFormed (run ops empty)
run-WellFormed ops = run-keeps ops empty empty-WellFormed
