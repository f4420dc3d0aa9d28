-- ===== src/Store/Invariant/Settings.antt =====
-- Creating, changing and dropping a mailbox, and reconciling, keep the tables well formed.
use go_ricochet.Base.{
  ℕ, suc, ◌≤◌, ◌<◌, ◌≡◌, refl, sym, ◌∙◌, ◌≢◌, inl, inr, not, Option, List, [], ◌∷◌, map, arith,
  ◌==◌, if◌then◌else◌, Bool-cases, Option-cases, keep, All, All-keep, All-append, All-imp, All-map,
  AllPairs-keep, AllPairs-snoc, AllPairs-map, Text, ℤ,
}
use go_ricochet.Wire.{MailboxType}
use go_ricochet.Store.Rows.{
  MailboxRow, MessageRow, Db, in_mailbox, count_in, bytes_in, update_mailboxes,
}
use go_ricochet.Store.Mailboxes.{
  find_mailbox, new_mailbox, get_or_create_mailbox, update_mailbox, delete_mailbox, reconcile_row,
  reconcile_message_counts,
}
use go_ricochet.Store.Invariant.{top_sequence, IsCounted, IsSequenced, Precedes, WellFormed}
use go_ricochet.Store.Invariant.Insert.{count_in-fresh}

pub get_or_create-WellFormed :
    (owner folder : Text) (type : MailboxType) (cap days : ℤ) (count : Option ℕ) (db : Db)
    → WellFormed db
    → WellFormed (get_or_create_mailbox owner folder type cap days count db).0
unfolding get_or_create_mailbox
get_or_create-WellFormed owner folder type cap days count db w =
    let m = new_mailbox db.next_mailbox owner folder type cap days count in
    let fresh = count_in-fresh db.next_mailbox db.messages w.row_mailboxes in
    let next = suc db.next_mailbox in
    elim (Option-cases (find_mailbox owner folder db)) [
      | inr (x, e) ↦ rw (e, get_or_create_mailbox) w
      | inl e ↦
          rw (e, get_or_create_mailbox)
            (record {
              counted =
                  All-append (IsCounted db.messages) db.mailboxes (m ∷ []) w.counted
                    ((sym fresh.0, sym fresh.1), tt);
              sequenced =
                  All-append (IsSequenced db.messages) db.mailboxes (m ∷ []) w.sequenced
                    (omega (arith, fresh.2), tt);
              ordered = w.ordered;
              mailbox_ids =
                  AllPairs-snoc (λ a b. a.id < b.id) db.mailboxes m w.mailbox_ids w.mailbox_fresh;
              mailbox_fresh =
                  All-append (λ x. x.id < next) db.mailboxes (m ∷ [])
                    (All-imp (λ x. x.id < db.next_mailbox) (λ x. x.id < next) (λ x h. omega arith)
                      db.mailboxes w.mailbox_fresh)
                    (omega arith, tt);
              message_fresh = w.message_fresh;
              row_mailboxes =
                  All-imp (λ r. r.mailbox_id < db.next_mailbox) (λ r. r.mailbox_id < next)
                    (λ r h. omega arith) db.messages w.row_mailboxes;
            })
    ]

-- A change of a mailbox row that keeps its ID, counters and sequence keeps the invariant.
module _ (f : MailboxRow → MailboxRow)
    (same : (m : MailboxRow) → ((f m).id ≡ m.id) × ((f m).current_sequence ≡ m.current_sequence))
    (db : Db) (w : WellFormed db)
    (counts : All (λ m. IsCounted db.messages (f m)) db.mailboxes) where
  map-WellFormed : WellFormed (record db { mailboxes = map f db.mailboxes })
  map-WellFormed = record {
    counted = All-map (IsCounted db.messages) f db.mailboxes counts;
    sequenced = All-map (IsSequenced db.messages) f db.mailboxes (
        All-imp (IsSequenced db.messages) (λ m. IsSequenced db.messages (f m))
          (λ m h. rw ((same m).0, (same m).1) h) db.mailboxes w.sequenced);
    ordered = w.ordered;
    mailbox_ids =
        AllPairs-map (λ a b. a.id < b.id) f (λ a b h. rw ((same a).0, (same b).0) h) db.mailboxes
          w.mailbox_ids;
    mailbox_fresh =
        All-map (λ m. m.id < db.next_mailbox) f db.mailboxes
          (All-imp (λ m. m.id < db.next_mailbox) (λ m. (f m).id < db.next_mailbox)
            (λ m h. rw (same m).0 h) db.mailboxes w.mailbox_fresh);
    message_fresh = w.message_fresh;
    row_mailboxes = w.row_mailboxes;
  }

abbrev settings_of : MailboxRow → MailboxRow → MailboxRow
settings_of r m =
    if m.id == r.id
    then record m {
      max_messages = r.max_messages;
      retention_days = r.retention_days;
      retention_count = r.retention_count;
    }
    else m

settings-IsCounted :
    (r m : MailboxRow) (rows : List MessageRow)
    → IsCounted rows m
    → IsCounted rows (settings_of r m)
settings-IsCounted r m rows h = elim (Bool-cases (m.id == r.id)) [ inl e ↦ rw e h | inr e ↦ rw e h ]

pub update_mailbox-WellFormed :
    (r : MailboxRow) (db : Db) → WellFormed db → WellFormed (update_mailbox r db)
unfolding update_mailbox update_mailboxes
update_mailbox-WellFormed r db w =
    map-WellFormed (settings_of r) (λ m. (ground arith, ground arith)) db w
      (All-imp (IsCounted db.messages) (λ m. IsCounted db.messages (settings_of r m))
        (λ m. settings-IsCounted r m db.messages) db.mailboxes w.counted)

reconcile-IsCounted :
    (rows : List MessageRow) (m : MailboxRow) → IsCounted rows (reconcile_row rows m)
reconcile-IsCounted rows m = ground arith

-- Reconciling does not rest on the counters being right: it makes them so.
pub reconciled :
    (rows : List MessageRow) (ms : List MailboxRow)
    → All (λ m. IsCounted rows (reconcile_row rows m)) ms
reconciled rows [] = tt
reconciled rows (m ∷ ms) = (reconcile-IsCounted rows m, reconciled rows ms)

pub reconcile-WellFormed : (db : Db) → WellFormed db → WellFormed (reconcile_message_counts db).0
unfolding reconcile_message_counts
reconcile-WellFormed db w =
    map-WellFormed (reconcile_row db.messages) (λ m. (ground arith, ground arith)) db w
      (reconciled db.messages db.mailboxes)

-- The rows of the other mailboxes weigh as much without those of the dropped one.
others-weigh :
    (mid n : ℕ) (rows : List MessageRow)
    → n ≢ mid
    → (count_in n (keep (λ r. not (in_mailbox mid r)) rows) ≡ count_in n rows)
      × (bytes_in n (keep (λ r. not (in_mailbox mid r)) rows) ≡ bytes_in n rows)
      × (top_sequence n (keep (λ r. not (in_mailbox mid r)) rows) ≤ top_sequence n rows)
others-weigh mid n [] ne = (refl, refl, omega arith)
others-weigh mid n (r ∷ rs) ne = ground (arith, others-weigh mid n rs ne)

drop_mailbox :
    (mid : ℕ) (rows : List MessageRow) (ms : List MailboxRow)
    → All (IsCounted rows) ms
    → All (IsSequenced rows) ms
    → let rest = keep (λ r. not (in_mailbox mid r)) rows in
      let left = keep (λ m. not (m.id == mid)) ms in
      All (IsCounted rest) left × All (IsSequenced rest) left
drop_mailbox mid rows [] h k = (tt, tt)
drop_mailbox mid rows (m ∷ ms) h k = elim (Bool-cases (m.id == mid)) [
  | inl hit ↦ rw hit (drop_mailbox mid rows ms h.1 k.1)
  | inr miss ↦
      let ih = drop_mailbox mid rows ms h.1 k.1 in
      let o = others-weigh mid m.id rows (ground arith) in
      rw miss ((((h.0.0 ∙ sym o.0, h.0.1 ∙ sym o.1), ih.0), (omega (arith, o.2, k.0), ih.1)))
]

pub delete_mailbox-WellFormed :
    (mid : ℕ) (db : Db) → WellFormed db → WellFormed (delete_mailbox mid db)
unfolding delete_mailbox
delete_mailbox-WellFormed mid db w =
    let other = λ (m : MailboxRow). not (m.id == mid) in
    let rest = λ (r : MessageRow). not (in_mailbox mid r) in
    let both = drop_mailbox mid db.messages db.mailboxes w.counted w.sequenced in
    record {
      counted = both.0;
      sequenced = both.1;
      ordered = AllPairs-keep Precedes rest db.messages w.ordered;
      mailbox_ids = AllPairs-keep (λ a b. a.id < b.id) other db.mailboxes w.mailbox_ids;
      mailbox_fresh = All-keep (λ m. m.id < db.next_mailbox) other db.mailboxes w.mailbox_fresh;
      message_fresh = All-keep (λ r. r.id < db.next_message) rest db.messages w.message_fresh;
      row_mailboxes =
          All-keep (λ r. r.mailbox_id < db.next_mailbox) rest db.messages w.row_mailboxes;
    }
