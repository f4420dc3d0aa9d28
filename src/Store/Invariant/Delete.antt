-- ===== src/Store/Invariant/Delete.antt =====
-- DELETE and UPDATE on stored_messages keep the tables well formed.
use go_ricochet.Base.{
  ℕ, ◌≤◌, ◌<◌, ◌≡◌, refl, sym, ◌∙◌, inl, inr, Bool, not, List, [], ◌∷◌, map, arith, if◌then◌else◌,
  Bool-cases, length, keep, sum_by, sum_by-keep-not, All-keep, All-imp, All-map, AllPairs-keep,
  AllPairs-map,
}
use go_ricochet.Store.Rows.{MailboxRow, MessageRow, Db, in_mailbox, settle, delete_where}
use go_ricochet.Store.Messages.{update_where}
use go_ricochet.Store.Invariant.{top_sequence, IsCounted, IsSequenced, Precedes, WellFormed}

top_sequence-keep :
    (mid : ℕ) (p : MessageRow → Bool) (rows : List MessageRow)
    → top_sequence mid (keep p rows) ≤ top_sequence mid rows
top_sequence-keep mid p [] = omega arith
top_sequence-keep mid p (r ∷ rs) = ground (arith, top_sequence-keep mid p rs)

settle-IsCounted :
    (p : MessageRow → Bool) (rows : List MessageRow) (m : MailboxRow)
    → IsCounted rows m
    → IsCounted (keep (λ r. not (p r)) rows) (settle (keep p rows) m)
settle-IsCounted p rows m h = (
  omega (arith, h.0, sum_by-keep-not (λ r. if in_mailbox m.id r then 1 else 0) p rows),
  omega
      (arith, h.1, sum_by-keep-not (λ r. if in_mailbox m.id r then length r.payload else 0) p rows),
)

pub delete_where-WellFormed :
    (p : MessageRow → Bool) (db : Db) → WellFormed db → WellFormed (delete_where p db).0
unfolding delete_where
delete_where-WellFormed p db w =
    let rows = db.messages in
    let kept = keep (λ r. not (p r)) rows in
    let f = settle (keep p rows) in
    record {
      counted = All-map (IsCounted kept) f db.mailboxes (
          All-imp (IsCounted rows) (λ m. IsCounted kept (f m)) (settle-IsCounted p rows)
            db.mailboxes w.counted);
      sequenced = All-map (IsSequenced kept) f db.mailboxes (
          All-imp (IsSequenced rows) (λ m. IsSequenced kept (f m))
            (λ m h. omega (arith, h, top_sequence-keep m.id (λ r. not (p r)) rows)) db.mailboxes
            w.sequenced);
      ordered = AllPairs-keep Precedes (λ r. not (p r)) rows w.ordered;
      mailbox_ids = AllPairs-map (λ m n. m.id < n.id) f (λ m n h. h) db.mailboxes w.mailbox_ids;
      mailbox_fresh = All-map (λ m. m.id < db.next_mailbox) f db.mailboxes w.mailbox_fresh;
      message_fresh = All-keep (λ r. r.id < db.next_message) (λ r. not (p r)) rows w.message_fresh;
      row_mailboxes =
          All-keep (λ r. r.mailbox_id < db.next_mailbox) (λ r. not (p r)) rows w.row_mailboxes;
    }

-- An UPDATE of the flags where a test passes.
abbrev set_flags : (MessageRow → Bool) → (MessageRow → ℕ) → MessageRow → MessageRow
set_flags p g r = if p r then record r { flags_bitmap = g r } else r

-- It changes no other column.
module _ (p : MessageRow → Bool) (g : MessageRow → ℕ) where
  weight-set_flags :
      (mid : ℕ) (w : MessageRow → ℕ)
      → ((r : MessageRow) → w (set_flags p g r) ≡ w r)
      → (rows : List MessageRow) → sum_by w (map (set_flags p g) rows) ≡ sum_by w rows
  weight-set_flags mid w same [] = refl
  weight-set_flags mid w same (r ∷ rs) = omega (arith, same r, weight-set_flags mid w same rs)

  top_sequence-set_flags :
      (mid : ℕ) (rows : List MessageRow)
      → top_sequence mid (map (set_flags p g) rows) ≡ top_sequence mid rows
  top_sequence-set_flags mid [] = refl
  top_sequence-set_flags mid (r ∷ rs) = ground (arith, top_sequence-set_flags mid rs)

  Precedes-set_flags :
      (a b : MessageRow) → Precedes a b → Precedes (set_flags p g a) (set_flags p g b)
  Precedes-set_flags a b h = elim (Bool-cases (p a)) [
    | inl x ↦ elim (Bool-cases (p b)) [ inl y ↦ rw (x, y) h | inr y ↦ rw (x, y) h ]
    | inr x ↦ elim (Bool-cases (p b)) [ inl y ↦ rw (x, y) h | inr y ↦ rw (x, y) h ]
  ]

  pub update_where-WellFormed :
      (db : Db)
      → WellFormed db
      → WellFormed (update_where p (λ r. record r { flags_bitmap = g r }) db).0
  unfolding update_where
  update_where-WellFormed db w =
      let rows = db.messages in
      let changed = map (set_flags p g) rows in
      record {
        counted =
            All-imp (IsCounted rows) (IsCounted changed)
              (λ m h. (
                h.0
                    ∙ sym (
                        weight-set_flags m.id (λ r. if in_mailbox m.id r then 1 else 0)
                          (λ r. ground arith) rows),
                h.1
                    ∙ sym (
                        weight-set_flags m.id
                          (λ r. if in_mailbox m.id r then length r.payload else 0)
                          (λ r. ground arith) rows),
              ))
              db.mailboxes w.counted;
        sequenced =
            All-imp (IsSequenced rows) (IsSequenced changed)
              (λ m h. rw (top_sequence-set_flags m.id rows) h) db.mailboxes w.sequenced;
        ordered = AllPairs-map Precedes (set_flags p g) Precedes-set_flags rows w.ordered;
        mailbox_ids = w.mailbox_ids;
        mailbox_fresh = w.mailbox_fresh;
        message_fresh =
            All-map (λ r. r.id < db.next_message) (set_flags p g) rows
              (All-imp (λ r. r.id < db.next_message) (λ r. (set_flags p g r).id < db.next_message)
                (λ r h. ground arith) rows w.message_fresh);
        row_mailboxes =
            All-map (λ r. r.mailbox_id < db.next_mailbox) (set_flags p g) rows
              (All-imp (λ r. r.mailbox_id < db.next_mailbox)
                (λ r. (set_flags p g r).mailbox_id < db.next_mailbox) (λ r h. ground arith) rows
                w.row_mailboxes);
      }
