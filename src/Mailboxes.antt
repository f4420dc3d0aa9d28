-- ===== src/Mailboxes.antt =====
-- internal/mda/mailboxes: the four mailbox types over the mailbox store. A peer ID is its canonical
-- encoding; `peer.Decode` and the encoded size of a message are parameters.
pub mod Page
pub mod Paging
pub mod Guards
pub mod Cursor
pub mod Trim
mod Tests
use go_ricochet.Base.{
  ℕ, zero, suc, ◌+◌, ◌-◌, ◌*◌, ◌/◌, ◌%◌, ◌^◌, ◌≤◌, ◌<◌, min, max, ◌≡◌, refl, sym, ap, ◌∙◌, subst,
  ◌≢◌, ◌↔◌, ◌⊎◌, inl, inr, Bool, true, false, not, ◌&&◌, ◌||◌, Option, none, some, List, [], ◌∷◌,
  ◌++◌, map, append-nil, append_assoc, arith, ltb, leb, ◌==◌, if◌then◌else◌, ltb→lt, lt→ltb, leb→le,
  ==_iff, eqb_refl, Bool-cases, ◌>>=◌, Option-cases, length, take, drop, keep, find_first, any_of,
  sum_by, All, length-append, sum_by-append, length-take, length-drop, take-append-drop,
  take-length_append, drop-length_append, take_all, sum_by-keep-not, All-keep, All-append, All-find,
  All-imp, All-map, AllPairs, AllPairs-keep, AllPairs-snoc, AllPairs-map, All-take, AllPairs-take,
  Text, codes, ◌=ᵗ◌, text_eq_refl, text_eq→eq, mem_text, ℤ, pos, negsuc, pos_part, neg_part, ◌≤ℤ◌,
  ltb_ℤ, is_positive, is_zero,
}
use go_ricochet.Wire.{Message, MailboxType, AccessMode}
use go_ricochet.Store.Rows.{MailboxRow, Db}
use go_ricochet.Store.Messages.{
  StoreError, StoreResult, stored, refused, mailbox_full, store_message, retrieve_messages,
}
use go_ricochet.Store.Mailboxes.{enforce_retention_policy}
use go_ricochet.Store.Access.{check_access, get_cursor, update_cursor}
use Page.{Library, RetrieveOpts, fetch_page}

pub data MailboxError : Type 0 where
  unauthorized : MailboxError
  not_found : MailboxError
  invalid_path : MailboxError
  quota_exceeded : ℕ → ℕ → MailboxError
  bad_peer : MailboxError
  reader_required : MailboxError
  unknown_type : MailboxError
  encode_failed : MailboxError
  storage : StoreError → MailboxError

pub data Reply {ℓ} (A : Type ℓ) : Type ℓ where
  ok : A → Reply A
  fail : MailboxError → Reply A

-- The tables after the call, with its reply: what was written before a failure stays.
abbrev pub store_reply : Db → StoreResult → Db × Reply (Unit {0})
store_reply db (stored after seq) = (after, ok tt)
store_reply db (refused e) = (db, fail (storage e))

-- Only a mailbox with a retention count is a rolling window.
abbrev pub for_window {ℓ} : {A : Type ℓ} → Option ℕ → A → A → A
for_window none refusal again = refusal
for_window (some n) refusal again = again

abbrev pub pruned_store : ℕ → MailboxRow → Message → Db → StoreResult → Db × Reply (Unit {0})
pruned_store now m msg db (refused (mailbox_full current cap)) =
    let pruned = enforce_retention_policy now m db in
    for_window m.retention_count (db, fail (storage (mailbox_full current cap)))
      (store_reply pruned (store_message m.id msg pruned))
pruned_store now m msg db r = store_reply db r

-- `storeMessage`: a full rolling window is pruned, and the store tried once more.
unfoldable pub store_in : ℕ → MailboxRow → Message → Db → Db × Reply (Unit {0})
store_in now m msg db = pruned_store now m msg db (store_message m.id msg db)

-- The write test of shared and public mailboxes: the owner, or a peer with a write grant.
unfoldable pub may_write : Library → MailboxRow → Message → Db → Reply Bool
may_write lib m msg db =
    if msg.sender =ᵗ m.owner then ok true else elim (lib.peer_decode msg.sender) [
      | none ↦ fail bad_peer
      | some peer ↦ ok (check_access m.id peer AccessMode.write_only db)
    ]

abbrev pub guarded : Db → Reply Bool → (Db × Reply (Unit {0})) → Db × Reply (Unit {0})
guarded db (fail e) act = (db, fail e)
guarded db (ok false) act = (db, fail unauthorized)
guarded db (ok true) act = act

-- Who may store a message into a mailbox, by its type: the checks of the four `StoreMessage`.
unfoldable pub store_guard : Library → MailboxRow → MailboxType → Message → Db → Reply Bool
unfolding may_write
store_guard lib m MailboxType.private msg db = ok (msg.recipient =ᵗ m.owner)
store_guard lib m MailboxType.shared msg db = may_write lib m msg db
store_guard lib m MailboxType.public msg db = may_write lib m msg db
store_guard lib m MailboxType.claim msg db = ok (msg.sender =ᵗ m.owner && msg.recipient =ᵗ m.owner)
store_guard lib m (MailboxType.unknown t) msg db = fail unknown_type

-- `StoreMessage` of the mailbox type that the record names.
unfoldable pub store_message_in : Library → ℕ → MailboxRow → Message → Db → Db × Reply (Unit {0})
store_message_in lib now m msg db =
    guarded db (store_guard lib m m.mailbox_type msg db) (store_in now m msg db)

-- Where a read starts for a reader that names no sequence: behind its cursor.
abbrev pub start_after : ℕ → ℕ
start_after cursor = if ltb 0 cursor then cursor + 1 else 1

-- The read test of the four `RetrieveMessages`; no reader is a caller inside the server.
unfoldable pub read_guard : MailboxRow → MailboxType → Option Text → Db → Reply Bool
read_guard m MailboxType.private none db = ok true
read_guard m MailboxType.private (some r) db = ok (r =ᵗ m.owner)
read_guard m MailboxType.claim none db = ok true
read_guard m MailboxType.claim (some r) db = ok (r =ᵗ m.owner)
read_guard m MailboxType.shared none db = fail reader_required
read_guard m MailboxType.shared (some r) db =
    ok (r =ᵗ m.owner || check_access m.id r AccessMode.read_only db)
read_guard m MailboxType.public reader db = ok true
read_guard m (MailboxType.unknown t) reader db = fail unknown_type

-- Private and claim mailboxes read from the sequence asked for; shared and public ones keep a cursor.
unfoldable pub start_of : MailboxRow → MailboxType → Option Text → Option ℕ → Db → Option ℕ
start_of m MailboxType.private reader from db = from
start_of m MailboxType.claim reader from db = from
start_of m _ reader (some s) db = some s
start_of m _ (some r) none db = some (start_after (get_cursor m.id r db))
start_of m _ none none db = some 1

-- The sequence number of the last message of a page; 0 on an empty page.
abbrev pub last_sequence : List Message → ℕ
last_sequence [] = 0
last_sequence (m ∷ []) = m.sequence
last_sequence (m ∷ n ∷ ms) = last_sequence (n ∷ ms)

abbrev moved : MailboxRow → Text → ℕ → Db → Db
moved m r seq db = if ltb 0 seq then update_cursor m.id r seq db else db

-- What a read does to the reader's cursor.
unfoldable pub after_read : MailboxRow → MailboxType → Option Text → List Message → Db → Db
after_read m MailboxType.shared (some r) msgs db = moved m r (last_sequence msgs) db
after_read m MailboxType.public (some r) msgs db = moved m r (last_sequence msgs) db
after_read m _ reader msgs db = db

-- The read itself, behind the test.
unfoldable pub read_page :
    Library → ℕ → MailboxRow → Option Text → RetrieveOpts → Db → Db × Reply (List Message × Bool)
read_page lib now m reader opts db =
    elim (fetch_page lib now m (start_of m m.mailbox_type reader opts.from db) opts db) [
      | none ↦ (db, fail encode_failed)
      | some (msgs, more) ↦ (after_read m m.mailbox_type reader msgs db, ok (msgs, more))
    ]

-- `RetrieveMessages` of the mailbox type that the record names.
unfoldable pub retrieve_from :
    Library → ℕ → MailboxRow → Option Text → RetrieveOpts → Db → Db × Reply (List Message × Bool)
unfolding read_guard read_page
retrieve_from lib now m reader opts db = elim (read_guard m m.mailbox_type reader db) [
  | fail e ↦ (db, fail e)
  | ok may ↦ if may then read_page lib now m reader opts db else (db, fail unauthorized)
]
