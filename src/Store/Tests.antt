-- ===== src/Store/Tests.antt =====
-- The theorems of the mailbox store at concrete tables, and tests of its operations.
use mathlib.Core.List.{Perm}
use go_ricochet.Base.{
  ℕ, ◌<◌, ◌≡◌, refl, ◌↔◌, Bool, true, false, none, some, List, [], ◌∷◌, map, arith, keep, AllPairs,
  Text, codes, ◌=ᵗ◌, pos,
}
use go_ricochet.Wire.{Message, MailboxType}
use go_ricochet.Store.Rows.{MessageRow, Db, empty, mailbox_by_id, update_mailboxes, delete_where}
use go_ricochet.Store.Sort.{insert_by, sort_by}
use go_ricochet.Store.Mailboxes.{get_or_create_mailbox}
use go_ricochet.Store.Messages.{
  store_message, claim_message, oldest_live, retrieve_order, retrieve_messages, scan_message,
  mark_messages_delivered, refused, mailbox_full,
}
use go_ricochet.Store.Invariant.{WellFormed}
use go_ricochet.Store.Invariant.Run.{Op, create, store, run, step, run-WellFormed}
use go_ricochet.Store.Claims.{Claims, claim-Claims, claim_twice}
use go_ricochet.Store.Ownership.{foreign, foreign_rows_kept}
use go_ricochet.Store.Capacity.{StoreOutcome, store-outcome}
use go_ricochet.Store.Retrieval.{Leads, IsWanted, retrieve-perm, retrieve-ordered}

abbrev mail : Text → ℕ → Message
mail id priority = record {
  message_id = id;
  recipient = codes "bob";
  sender = codes "ann";
  payload = 1 ∷ 2 ∷ 3 ∷ [];
  priority = priority;
  expiry = pos 100;
  hop_count = pos 0;
  flags = 0;
  created = pos 5;
  folder_path = codes "inbox";
  sequence = 0;
  msg_flags = 0;
  persistent = false;
}

-- Bob's inbox with a cap of 2, and two messages delivered to it.
abbrev history : List (ℕ × Op)
history =
    (1, create (codes "bob") (codes "inbox") MailboxType.private (pos 2) (pos 30) none)
    ∷ (2, store 1 (mail (codes "m1") 1))
    ∷ (3, store 1 (mail (codes "m2") 3))
    ∷ []

abbrev bob_db : Db
bob_db = record {
  mailboxes =
      record {
        id = 1;
        owner = codes "bob";
        folder = codes "inbox";
        mailbox_type = MailboxType.private;
        max_messages = pos 2;
        retention_days = pos 30;
        retention_count = none;
        current_sequence = 2;
        message_count = 2;
        message_bytes = 6;
      }
      ∷ [];
  messages = row 1 1 (codes "m1") 1 ∷ row 2 2 (codes "m2") 3 ∷ [];
  acls = [];
  cursors = [];
  next_mailbox = 2;
  next_message = 3;
}
  where
    row : ℕ → ℕ → Text → ℕ → MessageRow
    row rid seq id priority = record {
      id = rid;
      mailbox_id = 1;
      sequence = seq;
      message_id = id;
      recipient = codes "bob";
      sender = codes "ann";
      payload = 1 ∷ 2 ∷ 3 ∷ [];
      priority = priority;
      created_at = pos 5;
      expires_at = pos 100;
      hop_count = pos 0;
      flags_bitmap = 0;
      sf_flags = 0;
      persistent = false;
      folder_path = codes "inbox";
    }

run-history : run history empty ≡ bob_db
unfolding run step store_message get_or_create_mailbox mailbox_by_id update_mailboxes ◌=ᵗ◌
run-history = refl

run-WellFormed_example : WellFormed (run history empty)
run-WellFormed_example = run-WellFormed history

bob_db-WellFormed : WellFormed bob_db
bob_db-WellFormed = rw run-history at (run-WellFormed history)

claim-Claims_example : Claims 50 1 bob_db (claim_message 50 1 bob_db)
claim-Claims_example = claim-Claims 50 1 bob_db

claim_twice_example : 1 < 2
unfolding claim_message oldest_live insert_by sort_by delete_where
claim_twice_example =
    claim_twice 50 60 1 bob_db (record (mail (codes "m1") 1) { sequence = 1 })
      (record (mail (codes "m2") 3) { sequence = 2 }) bob_db-WellFormed (omega arith) refl refl

-- Ann names Bob's messages; his rows stay.
foreign_rows_kept_example :
    foreign
      (codes "ann")
      bob_db
      (mark_messages_delivered (codes "ann") (codes "m1" ∷ []) bob_db).0.messages
    ≡ foreign (codes "ann") bob_db bob_db.messages
foreign_rows_kept_example =
    (foreign_rows_kept (codes "ann") (codes "m1") (codes "m1" ∷ []) 4 0 bob_db).0

store-outcome_example :
    StoreOutcome 1 (mail (codes "m3") 0) bob_db (store_message 1 (mail (codes "m3") 0) bob_db)
store-outcome_example = store-outcome 1 (mail (codes "m3") 0) bob_db

retrieve-perm_example :
    (wanted : MessageRow → Bool) × ((r : MessageRow)
      → (wanted r ≡ true) ↔ IsWanted 50 1 none none r)
    × Perm
        (retrieve_messages 50 1 none none none bob_db)
        (map scan_message (keep wanted bob_db.messages))
retrieve-perm_example = retrieve-perm 50 1 none none bob_db

retrieve-ordered_example : AllPairs Leads (retrieve_messages 50 1 none (some 2) none bob_db)
retrieve-ordered_example = retrieve-ordered 50 1 none (some 2) none bob_db

-- A full mailbox refuses, and the urgent message comes first.
full_refuses : store_message 1 (mail (codes "m3") 0) bob_db ≡ refused (mailbox_full 2 (pos 2))
unfolding store_message mailbox_by_id
full_refuses = refl

urgent_first : map (λ m. m.sequence) (retrieve_messages 50 1 none none none bob_db) ≡ 2 ∷ 1 ∷ []
unfolding retrieve_messages retrieve_order insert_by sort_by
urgent_first = refl

-- Asking for the messages of at least urgent priority finds none.
urgent_filter : retrieve_messages 50 1 none none (some 3) bob_db ≡ []
unfolding retrieve_messages retrieve_order insert_by sort_by
urgent_filter = refl
