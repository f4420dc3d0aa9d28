-- ===== src/Store/Invariant/Insert.antt =====
-- Storing a message, and creating, changing and dropping a mailbox, keep the tables well formed.
use go_ricochet.Base.{
  ℕ, suc, ◌+◌, ◌≤◌, ◌<◌, max, ◌≡◌, refl, inl, inr, false, some, List, [], ◌∷◌, ◌++◌, arith, ◌==◌,
  if◌then◌else◌, ==_iff, Bool-cases, Option-cases, length, any_of, All, sum_by-append, All-append,
  All-imp, AllPairs, AllPairs-snoc, AllPairs-map, ◌=ᵗ◌,
}
use go_ricochet.Wire.{Message}
use go_ricochet.Store.Rows.{
  MailboxRow, MessageRow, Db, in_mailbox, count_in, bytes_in, mailbox_by_id, update_mailboxes,
}
use go_ricochet.Store.Messages.{
  StoreResult, stored, refused, has_room, count_message, row_of, insert_message, store_message,
}
use go_ricochet.Store.Invariant.{top_sequence, IsCounted, IsSequenced, Precedes, WellFormed}

top_sequence-append :
    (mid : ℕ) (rows : List MessageRow) (r : MessageRow)
    → top_sequence mid (rows ++ r ∷ [])
      ≡ max (top_sequence mid rows) (if r.mailbox_id == mid then r.sequence else 0)
top_sequence-append mid [] r = omega arith
top_sequence-append mid (x ∷ xs) r = omega (arith, top_sequence-append mid xs r)

-- A row with no mailbox has no weight in one.
pub count_in-fresh :
    (mid : ℕ) (rows : List MessageRow)
    → All (λ r. r.mailbox_id < mid) rows
    → (count_in mid rows ≡ 0) × (bytes_in mid rows ≡ 0) × (top_sequence mid rows ≡ 0)
count_in-fresh mid [] h = (refl, refl, refl)
count_in-fresh mid (r ∷ rs) h = ground (arith, count_in-fresh mid rs h.1)

-- Every row of the mailbox is below a number that its top sequence is below.
below_top :
    (mid n : ℕ) (rows : List MessageRow)
    → top_sequence mid rows < n
    → All (λ r. r.mailbox_id ≡ mid → r.sequence < n) rows
below_top mid n [] h = tt
below_top mid n (r ∷ rs) h = (λ e. ground arith, below_top mid n rs (omega arith))

-- The mailbox that the sequence UPDATE found bounds the rows it will be compared with.
top-found :
    (mid : ℕ) (rows : List MessageRow) (ms : List MailboxRow) (m : MailboxRow)
    → All (IsSequenced rows) ms
    → mailbox_by_id mid ms ≡ some m
    → top_sequence mid rows ≤ m.current_sequence
unfolding mailbox_by_id
top-found mid rows [] m h e = cc
top-found mid rows (x ∷ xs) m h e = ground (arith, top-found mid rows xs m h.1)

below-found :
    (mid n : ℕ) (ms : List MailboxRow) (m : MailboxRow)
    → All (λ m. m.id < n) ms
    → mailbox_by_id mid ms ≡ some m
    → mid < n
unfolding mailbox_by_id
below-found mid n [] m h e = cc
below-found mid n (x ∷ xs) m h e = ground (arith, below-found mid n xs m h.1)

new_id :
    (msg : Message) (rows : List MessageRow)
    → any_of (λ r. r.message_id =ᵗ msg.message_id) rows ≡ false
    → All (λ r. (r.message_id =ᵗ msg.message_id) ≡ false) rows
new_id msg [] h = tt
new_id msg (r ∷ rs) h = (ground arith, new_id msg rs (ground arith))

pub All-and₃ :
    {P Q R S : MessageRow → Type 0}
    → ((r : MessageRow) → P r → Q r → R r → S r)
    → (rows : List MessageRow) → All P rows
    → All Q rows
    → All R rows
    → All S rows
All-and₃ f [] p q r = tt
All-and₃ f (x ∷ xs) p q r = (f x p.0 q.0 r.0, All-and₃ f xs p.1 q.1 r.1)

-- Counting the message into its mailbox and inserting its row agree.
insert-IsCounted :
    (mid rid seq : ℕ) (msg : Message) (rows : List MessageRow) (ms : List MailboxRow)
    → All (IsCounted rows) ms
    → All
        (IsCounted (rows ++ row_of rid mid seq msg ∷ []))
        (update_mailboxes mid (count_message msg) ms)
unfolding update_mailboxes
insert-IsCounted mid rid seq msg rows [] h = tt
insert-IsCounted mid rid seq msg rows (m ∷ ms) h =
    let row = row_of rid mid seq msg in
    let counts = sum_by-append (λ r. if in_mailbox m.id r then 1 else 0) rows (row ∷ []) in
    let bytes =
      sum_by-append (λ r. if in_mailbox m.id r then length r.payload else 0) rows (row ∷ []) in
    (ground (arith, counts, bytes), insert-IsCounted mid rid seq msg rows ms h.1)

insert-IsSequenced :
    (mid rid seq : ℕ) (msg : Message) (rows : List MessageRow) (ms : List MailboxRow)
    → All (IsSequenced rows) ms
    → All (λ m. m.id ≡ mid → seq ≤ m.current_sequence + 1) ms
    → All
        (IsSequenced (rows ++ row_of rid mid seq msg ∷ []))
        (update_mailboxes mid (count_message msg) ms)
unfolding update_mailboxes
insert-IsSequenced mid rid seq msg rows [] h k = tt
insert-IsSequenced mid rid seq msg rows (m ∷ ms) h k = (
  ground (arith, top_sequence-append m.id rows (row_of rid mid seq msg), k.0),
  insert-IsSequenced mid rid seq msg rows ms h.1 k.1,
)

-- IDs are unique, so the row found is the only one with the ID.
later_ids :
    (mid n : ℕ) (xs : List MailboxRow)
    → n ≡ mid
    → All (λ y. n < y.id) xs
    → (k : ℕ) → All (λ y. y.id ≡ mid → k ≤ y.current_sequence + 1) xs
later_ids mid n [] e h k = tt
later_ids mid n (y ∷ ys) e h k = (λ d. absurd (omega arith), later_ids mid n ys e h.1 k)

found_counts :
    (mid : ℕ) (ms : List MailboxRow) (m : MailboxRow)
    → AllPairs (λ a b. a.id < b.id) ms
    → mailbox_by_id mid ms ≡ some m
    → All (λ x. x.id ≡ mid → m.current_sequence + 1 ≤ x.current_sequence + 1) ms
unfolding mailbox_by_id
found_counts mid [] m u e = tt
found_counts mid (x ∷ xs) m u e = elim (Bool-cases (x.id == mid)) [
  | inl hit ↦ (
    λ d. ground arith,
    later_ids mid x.id xs ((==_iff x.id mid).0 hit) u.0 (m.current_sequence + 1),
  )
  | inr miss ↦ (λ d. absurd (ground arith), found_counts mid xs m u.1 (ground arith))
]

abbrev pub WellFormedResult : StoreResult → Type 0
WellFormedResult (stored db seq) = WellFormed db
WellFormedResult (refused e) = Unit

bump-ids :
    (mid : ℕ) (msg : Message) (ms : List MailboxRow)
    → AllPairs (λ a b. a.id < b.id) ms
    → AllPairs (λ a b. a.id < b.id) (update_mailboxes mid (count_message msg) ms)
unfolding update_mailboxes
bump-ids mid msg ms h =
    AllPairs-map (λ a b. a.id < b.id) (λ m. if m.id == mid then count_message msg m else m)
      (λ a b k. ground arith) ms h

bump-fresh :
    (mid n : ℕ) (msg : Message) (ms : List MailboxRow)
    → All (λ m. m.id < n) ms
    → All (λ m. m.id < n) (update_mailboxes mid (count_message msg) ms)
unfolding update_mailboxes
bump-fresh mid n msg [] h = tt
bump-fresh mid n msg (m ∷ ms) h = (ground arith, bump-fresh mid n msg ms h.1)

module _ (mid : ℕ) (msg : Message) (db : Db) (m : MailboxRow) (w : WellFormed db)
    (found : mailbox_by_id mid db.mailboxes ≡ some m) where
  insert_message-WellFormed : WellFormedResult (insert_message mid (m.current_sequence + 1) msg db)
  unfolding insert_message
  insert_message-WellFormed =
      let seq = m.current_sequence + 1 in
      let row = row_of db.next_message mid seq msg in
      let rows = db.messages in
      let top = top-found mid rows db.mailboxes m w.sequenced found in
      elim (Bool-cases (any_of (λ r. r.message_id =ᵗ msg.message_id) rows)) [
        | inl taken ↦ rw taken tt
        | inr free ↦ rw free (record {
          counted = insert-IsCounted mid db.next_message seq msg rows db.mailboxes w.counted;
          sequenced =
              insert-IsSequenced mid db.next_message seq msg rows db.mailboxes w.sequenced
                (found_counts mid db.mailboxes m w.mailbox_ids found);
          ordered = AllPairs-snoc Precedes rows row w.ordered (
              All-and₃ (λ r a b c. (a, b, c)) rows w.message_fresh (new_id msg rows free)
                (below_top mid seq rows (omega arith)));
          mailbox_ids = bump-ids mid msg db.mailboxes w.mailbox_ids;
          mailbox_fresh = bump-fresh mid db.next_mailbox msg db.mailboxes w.mailbox_fresh;
          message_fresh =
              All-append (λ r. r.id < suc db.next_message) rows (row ∷ [])
                (All-imp (λ r. r.id < db.next_message) (λ r. r.id < suc db.next_message)
                  (λ r h. omega arith) rows w.message_fresh)
                (omega arith, tt);
          row_mailboxes =
              All-append (λ r. r.mailbox_id < db.next_mailbox) rows (row ∷ []) w.row_mailboxes
                (below-found mid db.next_mailbox db.mailboxes m w.mailbox_fresh found, tt);
        })
      ]

-- Whatever the outcome, a store leaves well-formed tables.
pub store_message-WellFormed :
    (mid : ℕ) (msg : Message) (db : Db)
    → WellFormed db
    → WellFormedResult (store_message mid msg db)
unfolding store_message
store_message-WellFormed mid msg db w = elim (Option-cases (mailbox_by_id mid db.mailboxes)) [
  | inl e ↦ rw (e, store_message) tt
  | inr (m, e) ↦ elim (Bool-cases (has_room m)) [
    | inl roomy ↦ rw (e, store_message, roomy) (insert_message-WellFormed mid msg db m w e)
    | inr full ↦ rw (e, store_message, full) tt
  ]
]
