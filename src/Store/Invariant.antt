-- ===== src/Store/Invariant.antt =====
-- What the tables of the mailbox store keep true, and the rules for DELETE and UPDATE.
pub mod Delete
pub mod Insert
pub mod Settings
pub mod Run
use go_ricochet.Base.{
  ℕ, zero, suc, ◌+◌, ◌-◌, ◌*◌, ◌/◌, ◌%◌, ◌^◌, ◌≤◌, ◌<◌, min, max, ◌≡◌, refl, sym, ap, ◌∙◌, subst,
  ◌≢◌, ◌↔◌, ◌⊎◌, inl, inr, Bool, true, false, not, ◌&&◌, ◌||◌, Option, none, some, List, [], ◌∷◌,
  ◌++◌, map, append-nil, append_assoc, arith, ltb, leb, ◌==◌, if◌then◌else◌, ltb→lt, lt→ltb, leb→le,
  ==_iff, eqb_refl, Bool-cases, Option-cases, length, take, drop, keep, find_first, any_of, sum_by,
  All, length-append, sum_by-append, length-take, length-drop, take-append-drop, take-length_append,
  drop-length_append, take_all, sum_by-keep-not, All-keep, All-append, All-find, All-imp, All-map,
  AllPairs, AllPairs-keep, AllPairs-snoc, AllPairs-map, Text, codes, ◌=ᵗ◌, text_eq_refl, text_eq→eq,
  mem_text, ℤ, pos, negsuc, pos_part, neg_part, ◌≤ℤ◌, ltb_ℤ, is_positive, is_zero,
}
use go_ricochet.Store.Rows.{MailboxRow, MessageRow, Db, count_in, bytes_in}

-- The greatest sequence number that a mailbox's rows carry.
abbrev pub top_sequence : ℕ → List MessageRow → ℕ
top_sequence mid [] = 0
top_sequence mid (r ∷ rs) =
    max (if r.mailbox_id == mid then r.sequence else 0) (top_sequence mid rs)

abbrev pub IsCounted : List MessageRow → MailboxRow → Type 0
IsCounted rows m = (m.message_count ≡ count_in m.id rows) × (m.message_bytes ≡ bytes_in m.id rows)

abbrev pub IsSequenced : List MessageRow → MailboxRow → Type 0
IsSequenced rows m = top_sequence m.id rows ≤ m.current_sequence

-- A row that was inserted before another.
abbrev pub Precedes : MessageRow → MessageRow → Type 0
Precedes r s =
    (r.id < s.id)
    × ((r.message_id =ᵗ s.message_id) ≡ false)
    × (r.mailbox_id ≡ s.mailbox_id → r.sequence < s.sequence)

-- The counters that the cap check reads agree with the rows, sequence numbers were handed out by
-- the mailbox's counter and rise with insertion, and IDs are below the counters that make them.
pub record WellFormed (db : Db) : Type 0 where
  pub counted : All (IsCounted db.messages) db.mailboxes
  pub sequenced : All (IsSequenced db.messages) db.mailboxes
  pub ordered : AllPairs Precedes db.messages
  pub mailbox_ids : AllPairs (λ m n. m.id < n.id) db.mailboxes
  pub mailbox_fresh : All (λ m. m.id < db.next_mailbox) db.mailboxes
  pub message_fresh : All (λ r. r.id < db.next_message) db.messages
  pub row_mailboxes : All (λ r. r.mailbox_id < db.next_mailbox) db.messages
