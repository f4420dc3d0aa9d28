-- ===== src/Store/Capacity.antt =====
-- `StoreMessage` and the cap of a mailbox.
use go_ricochet.Base.{
  ℕ, ◌+◌, ◌≤◌, ◌≡◌, refl, inl, inr, true, none, some, List, [], ◌∷◌, ◌++◌, arith, ◌==◌, Bool-cases,
  Option-cases, any_of, ◌=ᵗ◌, pos_part, is_positive,
}
use go_ricochet.Wire.{Message}
use go_ricochet.Store.Rows.{MailboxRow, Db, mailbox_by_id, update_mailboxes}
use go_ricochet.Store.Messages.{
  StoreResult, stored, refused, mailbox_not_found, mailbox_full, duplicate_message_id, has_room,
  count_message, row_of, insert_message, store_message,
}

-- What the caller of `StoreMessage` may rely on, for each outcome.
abbrev pub StoreOutcome : ℕ → Message → Db → StoreResult → Type 0
StoreOutcome mid msg db (refused mailbox_not_found) = mailbox_by_id mid db.mailboxes ≡ none
StoreOutcome mid msg db (refused (mailbox_full current cap)) =
    (m : MailboxRow) × (mailbox_by_id mid db.mailboxes ≡ some m)
    × (m.message_count ≡ current)
    × (m.max_messages ≡ cap)
    × (is_positive cap ≡ true)
    × (pos_part cap ≤ current)
StoreOutcome mid msg db (refused duplicate_message_id) =
    any_of (λ r. r.message_id =ᵗ msg.message_id) db.messages ≡ true
StoreOutcome mid msg db (stored after seq) =
    (m m' : MailboxRow) × (mailbox_by_id mid db.mailboxes ≡ some m)
    × (mailbox_by_id mid after.mailboxes ≡ some m')
    × (seq ≡ m.current_sequence + 1)
    × (m'.current_sequence ≡ seq)
    × (m'.message_count ≡ m.message_count + 1)
    × (is_positive m.max_messages ≡ true → m'.message_count ≤ pos_part m.max_messages)
    × (after.messages ≡ db.messages ++ row_of db.next_message mid seq msg ∷ [])

find-bump :
    (mid : ℕ) (msg : Message) (ms : List MailboxRow) (m : MailboxRow)
    → mailbox_by_id mid ms ≡ some m
    → mailbox_by_id mid (update_mailboxes mid (count_message msg) ms) ≡ some (count_message msg m)
unfolding mailbox_by_id update_mailboxes
find-bump mid msg [] m e = cc
find-bump mid msg (x ∷ xs) m e = elim (Bool-cases (x.id == mid)) [
  | inl h ↦ ground arith
  | inr h ↦ rw h (rw h (find-bump mid msg xs m (rw h at e)))
]

insert-outcome :
    (mid : ℕ) (msg : Message) (db : Db) (m : MailboxRow)
    → mailbox_by_id mid db.mailboxes ≡ some m
    → has_room m ≡ true
    → StoreOutcome mid msg db (insert_message mid (m.current_sequence + 1) msg db)
unfolding insert_message has_room
insert-outcome mid msg db m e roomy =
    elim (Bool-cases (any_of (λ r. r.message_id =ᵗ msg.message_id) db.messages)) [
      | inl taken ↦ rw taken taken
      | inr free ↦ rw free (
        m,
        count_message msg m,
        e,
        find-bump mid msg db.mailboxes m e,
        refl,
        refl,
        refl,
        (λ capped. ground arith),
        refl,
      )
    ]

-- A store is refused as not found only where the mailbox is missing, as full only where its count
-- has reached a positive cap, and as a duplicate only where the message ID is stored; otherwise it
-- takes the next sequence number, appends exactly the message's row, counts it, and leaves a
-- mailbox with a positive cap at or below its cap.
pub store-outcome :
    (mid : ℕ) (msg : Message) (db : Db) → StoreOutcome mid msg db (store_message mid msg db)
unfolding store_message has_room
store-outcome mid msg db = elim (Option-cases (mailbox_by_id mid db.mailboxes)) [
  | inl e ↦ rw (e, store_message) e
  | inr (m, e) ↦ elim (Bool-cases (has_room m)) [
    | inl roomy ↦ rw (e, store_message, roomy) (insert-outcome mid msg db m e roomy)
    | inr full ↦ rw (e, store_message, full) (m, e, refl, refl, ground arith, ground arith)
  ]
]
