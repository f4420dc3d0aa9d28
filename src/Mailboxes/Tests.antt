-- ===== src/Mailboxes/Tests.antt =====
-- The theorems of the mailbox types at a concrete shared mailbox.
use go_ricochet.Base.{
  ℕ, ◌≤◌, ◌<◌, min, ◌≡◌, refl, ◌≢◌, ◌⊎◌, inl, true, false, none, some, List, [], ◌∷◌, ◌++◌, arith,
  ltb, length, take, All, Text, codes, ◌=ᵗ◌, pos,
}
use go_ricochet.Wire.{Message, MailboxType}
use go_ricochet.Store.Rows.{MailboxRow, MessageRow, Db, mailbox_by_id}
use go_ricochet.Store.Sort.{insert_by, sort_by}
use go_ricochet.Store.Messages.{scan_message, retrieve_order, retrieve_messages, store_message}
use go_ricochet.Store.Access.{get_cursor, update_cursor}
use go_ricochet.Mailboxes.Page.{
  Library, RetrieveOpts, page_limit, trim_rest, trim_to_bytes, cut_to_limit, cut_to_budget,
  fetch_page,
}
use go_ricochet.Mailboxes.Paging.{allowed, fetch_page_lem}
use go_ricochet.Mailboxes.Guards.{
  MayRead, MayStore, retrieve_from-MayRead, store_message_in-MayStore,
}
use go_ricochet.Mailboxes.Cursor.{next_page-past_last, overtaken_message_lost}
use go_ricochet.Mailboxes.{
  ok, may_write, store_guard, store_in, store_message_in, read_guard, start_of, after_read,
  read_page, retrieve_from,
}

-- Every name is its own encoding, and every message takes 10 bytes.
abbrev lib : Library
lib = record { peer_decode = λ t. some t; json_size = λ m. some 10 }

abbrev row : ℕ → ℕ → MessageRow
row seq priority = record {
  id = seq;
  mailbox_id = 1;
  sequence = seq;
  message_id = seq ∷ [];
  recipient = codes "bob";
  sender = codes "ann";
  payload = 7 ∷ [];
  priority = priority;
  created_at = pos 5;
  expires_at = pos 100;
  hop_count = pos 0;
  flags_bitmap = 0;
  sf_flags = 0;
  persistent = false;
  folder_path = codes "team";
}

abbrev team : MailboxRow
team = record {
  id = 1;
  owner = codes "bob";
  folder = codes "team";
  mailbox_type = MailboxType.shared;
  max_messages = pos 10;
  retention_days = pos 30;
  retention_count = none;
  current_sequence = 3;
  message_count = 3;
  message_bytes = 3;
}

-- Three messages; the third is the most urgent.
abbrev team_db : Db
team_db = record {
  mailboxes = team ∷ [];
  messages = row 1 1 ∷ row 2 0 ∷ row 3 3 ∷ [];
  acls = [];
  cursors = [];
  next_mailbox = 2;
  next_message = 4;
}

abbrev one : RetrieveOpts
one = record { from = none; max_messages = some (pos 1); min_priority = none; max_bytes = 0 }

abbrev two : RetrieveOpts
two = record { from = none; max_messages = some (pos 2); min_priority = none; max_bytes = 0 }

abbrev bob : Text
bob = codes "bob"

abbrev urgent : List Message
urgent = scan_message (row 3 3) ∷ []

first_page : (retrieve_from lib 50 team (some bob) one team_db).1 ≡ ok (urgent, true)
unfolding retrieve_from read_page read_guard start_of after_read fetch_page page_limit cut_to_limit
    cut_to_budget retrieve_messages retrieve_order sort_by insert_by get_cursor update_cursor ◌=ᵗ◌
first_page = refl

-- The two other messages are never delivered to the reader that follows its cursor.
second_page :
    (retrieve_from lib 60 team
      (some bob)
      two
      (retrieve_from lib 50 team (some bob) one team_db).0).1
    ≡ ok ([], false)
unfolding retrieve_from read_page read_guard start_of after_read fetch_page page_limit cut_to_limit
    cut_to_budget retrieve_messages retrieve_order sort_by insert_by get_cursor update_cursor ◌=ᵗ◌
second_page = refl

overtaken_message_lost_example :
    All (λ x. x ≢ scan_message (row 1 1)) urgent × All (λ x. x ≢ scan_message (row 1 1)) []
overtaken_message_lost_example =
    overtaken_message_lost lib 50 60 team bob one two team_db (scan_message (row 1 1))
      (scan_message (row 3 3)) [] [] true false (inl refl) refl (omega arith) (omega arith)
      (omega arith) first_page second_page

next_page-past_last_example : All (λ (x : Message). 3 < x.sequence) []
next_page-past_last_example =
    next_page-past_last lib 50 60 team bob one two team_db urgent [] true false (inl refl) refl
      (omega arith) first_page second_page

retrieve_from-MayRead_example : MayRead team bob team_db
retrieve_from-MayRead_example =
    retrieve_from-MayRead lib 50 team bob one team_db urgent true first_page

fetched : fetch_page lib 50 team none one team_db ≡ some (urgent, true)
unfolding fetch_page page_limit cut_to_limit cut_to_budget retrieve_messages retrieve_order sort_by
    insert_by
fetched = refl

fetch_page_lem_example :
    let all = retrieve_messages 50 1 none none none team_db in
    (urgent ≡ take 1 all)
    × (true ≡ ltb 1 (length all))
    × (1 ≤ allowed one.max_messages)
    × ((0 < one.max_bytes) ⊎ (1 ≡ min (allowed one.max_messages) (length all)))
    × (length all ≢ 0 → length urgent ≢ 0)
fetch_page_lem_example = fetch_page_lem lib 50 team none one team_db urgent true fetched

abbrev two_kept : List Message
two_kept = scan_message (row 1 1) ∷ scan_message (row 2 0) ∷ []

-- Each message takes 14 bytes of the frame, so two fit into 30.
trimmed : trim_to_bytes lib.json_size 30 (two_kept ++ urgent) ≡ some (two_kept, true)
unfolding trim_to_bytes trim_rest
trimmed = refl

abbrev note : Message
note = record (scan_message (row 4 1)) { sender = codes "bob" }

accepted : (store_message_in lib 50 team note team_db).1 ≡ ok tt
unfolding store_message_in store_guard may_write store_in store_message mailbox_by_id ◌=ᵗ◌
accepted = refl

store_message_in-MayStore_example : MayStore lib team note team_db
store_message_in-MayStore_example = store_message_in-MayStore lib 50 team note team_db accepted
