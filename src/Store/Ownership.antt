-- ===== src/Store/Ownership.antt =====
-- A peer's acknowledgements, deletions, flag changes and expunges reach only its own mailboxes.
use go_ricochet.Base.{
  ℕ, ◌≡◌, refl, ap, ◌∙◌, Bool, true, not, ◌&&◌, ◌||◌, List, [], ◌∷◌, map, arith, ◌==◌,
  if◌then◌else◌, keep, any_of, Text, ◌=ᵗ◌, mem_text,
}
use go_ricochet.Wire.{with_flag, without_flag, has_flag, msg_flag_seen, msg_flag_deleted}
use go_ricochet.Store.Rows.{MailboxRow, MessageRow, Db, settle, delete_where, owned_by}
use go_ricochet.Store.Messages.{
  update_where, delete_owned_messages, update_message_flags, expunge_all_mailboxes,
  mark_messages_delivered,
}

-- The rows outside the mailboxes that `owner` owns in `db`.
abbrev pub foreign : Text → Db → List MessageRow → List MessageRow
foreign owner db = keep (λ r. not (owned_by owner db r))

module _ (p q : MessageRow → Bool) (within : (r : MessageRow) → p r ≡ true → q r ≡ true) where
  keep-delete :
      (rows : List MessageRow)
      → keep (λ r. not (q r)) (keep (λ r. not (p r)) rows) ≡ keep (λ r. not (q r)) rows
  keep-delete [] = refl
  keep-delete (r ∷ rs) = ground (arith, keep-delete rs, within r)

  keep-update :
      (f : MessageRow → MessageRow)
      → ((r : MessageRow) → q (f r) ≡ q r)
      → (rows : List MessageRow)
      → keep (λ r. not (q r)) (map (λ r. if p r then f r else r) rows) ≡ keep (λ r. not (q r)) rows
  keep-update f same [] = refl
  keep-update f same (r ∷ rs) = ground (arith, keep-update f same rs, within r, same r)

any-settle :
    (owner : Text) (deleted : List MessageRow) (r : MessageRow) (ms : List MailboxRow)
    → any_of (λ m. m.id == r.mailbox_id && m.owner =ᵗ owner) (map (settle deleted) ms)
      ≡ any_of (λ m. m.id == r.mailbox_id && m.owner =ᵗ owner) ms
any-settle owner deleted r [] = refl
any-settle owner deleted r (m ∷ ms) =
    ap (λ b. (m.id == r.mailbox_id && m.owner =ᵗ owner) || b) (any-settle owner deleted r ms)

owned-delete :
    (owner : Text) (p : MessageRow → Bool) (db : Db) (r : MessageRow)
    → owned_by owner (delete_where p db).0 r ≡ owned_by owner db r
unfolding owned_by delete_where
owned-delete owner p db r = any-settle owner (keep p db.messages) r db.mailboxes

mark-foreign :
    (owner : Text) (ids : List Text) (db : Db)
    → foreign owner db (mark_messages_delivered owner ids db).0.messages
      ≡ foreign owner db db.messages
unfolding mark_messages_delivered update_where
mark-foreign owner [] db = refl
mark-foreign owner (i ∷ ids) db =
    let named = λ (r : MessageRow). mem_text r.message_id (i ∷ ids) in
    let p = λ (r : MessageRow). named r && (not r.persistent && owned_by owner db r) in
    let gone = (delete_where p db).0 in
    keep-update (λ r. named r && (r.persistent && owned_by owner gone r)) (owned_by owner db)
      (λ r h. ground (arith, owned-delete owner p db r))
      (λ r. record r { flags_bitmap = with_flag r.flags_bitmap msg_flag_seen })
      (λ r. unfold owned_by in refl) gone.messages
    ∙ (unfold delete_where in keep-delete p (owned_by owner db) (λ r h. ground arith) db.messages)

delete-foreign :
    (owner : Text) (ids : List Text) (db : Db)
    → foreign owner db (delete_owned_messages owner ids db).0.messages
      ≡ foreign owner db db.messages
unfolding delete_owned_messages delete_where
delete-foreign owner [] db = refl
delete-foreign owner (i ∷ ids) db =
    keep-delete (λ r. mem_text r.message_id (i ∷ ids) && owned_by owner db r) (owned_by owner db)
      (λ r h. ground arith) db.messages

flags-foreign :
    (owner mid : Text) (add remove : ℕ) (db : Db)
    → foreign owner db (update_message_flags owner mid add remove db).0.messages
      ≡ foreign owner db db.messages
unfolding update_message_flags update_where
flags-foreign owner mid add remove db =
    keep-update (λ r. r.message_id =ᵗ mid && owned_by owner db r) (owned_by owner db)
      (λ r h. ground arith)
      (λ r. record r { flags_bitmap = without_flag (with_flag r.flags_bitmap add) remove })
      (λ r. unfold owned_by in refl) db.messages

expunge-foreign :
    (owner : Text) (db : Db)
    → foreign owner db (expunge_all_mailboxes owner db).0.messages ≡ foreign owner db db.messages
unfolding expunge_all_mailboxes delete_where
expunge-foreign owner db =
    keep-delete (λ r. owned_by owner db r && has_flag r.flags_bitmap msg_flag_deleted)
      (owned_by owner db) (λ r h. ground arith) db.messages

-- Whatever message IDs a peer names, acknowledging, deleting, changing flags and expunging all its
-- mailboxes leave the rows outside the mailboxes it owns as they were, in number, order and content.
pub foreign_rows_kept :
    (owner mid : Text) (ids : List Text) (add remove : ℕ) (db : Db)
    → (foreign owner db (mark_messages_delivered owner ids db).0.messages
        ≡ foreign owner db db.messages)
      × (foreign owner db (delete_owned_messages owner ids db).0.messages
          ≡ foreign owner db db.messages)
      × (foreign owner db (update_message_flags owner mid add remove db).0.messages
          ≡ foreign owner db db.messages)
      × (foreign owner db (expunge_all_mailboxes owner db).0.messages
          ≡ foreign owner db db.messages)
foreign_rows_kept owner mid ids add remove db = (
  mark-foreign owner ids db,
  delete-foreign owner ids db,
  flags-foreign owner mid add remove db,
  expunge-foreign owner db,
)
