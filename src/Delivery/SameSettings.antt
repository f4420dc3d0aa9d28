-- ===== src/Delivery/SameSettings.antt =====
-- Which writes of the mailbox store leave a mailbox's settings as they are.
use go_ricochet.Base.{
  ℕ, zero, suc, ◌+◌, ◌<◌, ◌≡◌, refl, sym, ap, ◌∙◌, ◌≢◌, inl, inr, Bool, true, false, not, Option,
  none, some, List, [], ◌∷◌, ◌++◌, map, arith, ltb, ◌==◌, if◌then◌else◌, eqb_refl, Bool-cases,
  Option-cases, keep, find_first, All-find, AllPairs, Text, text_eq→eq, ℤ,
}
use go_ricochet.Wire.{Message, MailboxType}
use go_ricochet.Store.Rows.{
  MailboxRow, MessageRow, Db, mailbox_by_id, update_mailboxes, delete_where, settle,
}
use go_ricochet.Store.Messages.{
  stored, store_message, insert_message, count_message, claim_message, oldest_live,
}
use go_ricochet.Store.Mailboxes.{
  find_mailbox, get_or_create_mailbox, update_mailbox, delete_mailbox, delete_expired_batch,
  delete_expired_loop, delete_expired_messages, enforce_retention_policy, enforce_all_retention,
  reconcile_row, reconcile_message_counts, at_address,
}

-- A mailbox's record without its counters.
abbrev pub settings : MailboxRow → MailboxRow
settings m = record m { current_sequence = 0; message_count = 0; message_bytes = 0 }

abbrev pub settings? : Option MailboxRow → Option MailboxRow
settings? none = none
settings? (some m) = some (settings m)

-- The settings of the mailbox with an ID.
unfoldable pub settings_at : ℕ → Db → Option MailboxRow
settings_at mid db = settings? (mailbox_by_id mid db.mailboxes)

-- Every mailbox that was there is there, with the same settings.
abbrev pub Extends : Db → Db → Type 0
Extends db db' = (i : ℕ) (r : MailboxRow) → settings_at i db ≡ some r → settings_at i db' ≡ some r

pub Extends-trans : (a b c : Db) → Extends a b → Extends b c → Extends a c
Extends-trans a b c f g i r e = g i r (f i r e)

-- A change of counters alone.
module _ (f : MailboxRow → MailboxRow) (same : (m : MailboxRow) → settings (f m) ≡ settings m) where
  same_id : (m : MailboxRow) → (f m).id ≡ m.id
  same_id m = ap (λ (r : MailboxRow). r.id) (same m)

  pub map-settings :
      (i : ℕ) (ms : List MailboxRow)
      → settings? (mailbox_by_id i (map f ms)) ≡ settings? (mailbox_by_id i ms)
  unfolding mailbox_by_id
  map-settings i [] = refl
  map-settings i (m ∷ ms) = elim (Bool-cases (m.id == i)) [
    | inl e ↦ let e' : ((f m).id == i) ≡ true = rw (same_id m) e in rw e (rw e' (ap some (same m)))
    | inr e ↦
        let e' : ((f m).id == i) ≡ false = rw (same_id m) e in rw e (rw e' (map-settings i ms))
  ]

pub delete_where-Extends : (p : MessageRow → Bool) (db : Db) → Extends db (delete_where p db).0
unfolding delete_where settings_at
delete_where-Extends p db i r e =
    map-settings (settle (keep p db.messages)) (λ m. refl) i db.mailboxes ∙ e

pub reconcile-Extends : (db : Db) → Extends db (reconcile_message_counts db).0
unfolding reconcile_message_counts settings_at
reconcile-Extends db i r e =
    map-settings (reconcile_row db.messages) (λ m. ground arith) i db.mailboxes ∙ e

expired_loop-Extends :
    (batches size now total : ℕ) (db : Db)
    → Extends db (delete_expired_loop batches size now total db).0
unfolding delete_expired_loop delete_expired_batch
expired_loop-Extends zero size now total db = λ i r e. e
expired_loop-Extends (suc n) size now total db =
    let after = delete_expired_batch size now db in
    let kept : Extends db after.0 = delete_where-Extends _ db in
    elim (Bool-cases (ltb after.1 size)) [
      | inl e ↦ rw (e, delete_expired_loop) kept
      | inr e ↦
          rw (e, delete_expired_loop)
            (Extends-trans db after.0 _ kept
              (expired_loop-Extends n size now (total + after.1) after.0))
    ]

pub delete_expired-Extends : (now : ℕ) (db : Db) → Extends db (delete_expired_messages now db).0
unfolding delete_expired_messages
delete_expired-Extends now db = expired_loop-Extends 200 5000 now 0 db

pub enforce_all-Extends : (now : ℕ) (db : Db) → Extends db (enforce_all_retention now db).0
unfolding enforce_all_retention
enforce_all-Extends now db =
    Extends-trans db _ _ (delete_where-Extends _ db) (delete_where-Extends _ _)

pub enforce-Extends :
    (now : ℕ) (m : MailboxRow) (db : Db) → Extends db (enforce_retention_policy now m db)
unfolding enforce_retention_policy
enforce-Extends now m db = elim (Option-cases m.retention_count) [
  | inl e ↦ rw (e, enforce_retention_policy) (delete_where-Extends _ db)
  | inr (c, e) ↦
      rw (e, enforce_retention_policy)
        (Extends-trans db _ _ (delete_where-Extends _ db) (delete_where-Extends _ _))
]

pub claim-Extends : (now mid : ℕ) (db : Db) → Extends db (claim_message now mid db).0
unfolding claim_message
claim-Extends now mid db = elim (Option-cases (oldest_live now mid db.messages)) [
  | inl e ↦ rw (e, claim_message) (λ i r h. h)
  | inr (x, e) ↦ rw (e, claim_message) (delete_where-Extends _ db)
]

-- A store that succeeds changes counters only.
pub store_message-Extends :
    (mid : ℕ) (msg : Message) (db after : Db) (seq : ℕ)
    → store_message mid msg db ≡ stored after seq
    → Extends db after
unfolding store_message insert_message settings_at
store_message-Extends mid msg db after seq e i r h =
    elim (Option-cases (mailbox_by_id mid db.mailboxes)) [
      | inl gone ↦ absurd (ground arith)
      | inr (m, found) ↦
          let counted =
            map-settings (λ x. if x.id == mid then count_message msg x else x) (λ x. ground arith) i
              db.mailboxes in
          let is_after : after.mailboxes ≡ update_mailboxes mid (count_message msg) db.mailboxes =
            ground arith in
          rw is_after (unfold update_mailboxes in counted ∙ h)
    ]

find-snoc :
    (i : ℕ) (ms : List MailboxRow) (m r : MailboxRow)
    → settings? (mailbox_by_id i ms) ≡ some r
    → settings? (mailbox_by_id i (ms ++ m ∷ [])) ≡ some r
unfolding mailbox_by_id
find-snoc i [] m r e = absurd (ground arith)
find-snoc i (x ∷ xs) m r e = elim (Bool-cases (x.id == i)) [
  | inl h ↦ rw h (rw h at e)
  | inr h ↦ rw h (find-snoc i xs m r (rw h at e))
]

pub get_or_create-Extends :
    (owner folder : Text) (type : MailboxType) (most days : ℤ) (count : Option ℕ) (db : Db)
    → Extends db (get_or_create_mailbox owner folder type most days count db).0
unfolding get_or_create_mailbox settings_at
get_or_create-Extends owner folder type most days count db i r e =
    elim (Option-cases (find_mailbox owner folder db)) [
      | inr (m, found) ↦ rw (found, get_or_create_mailbox) e
      | inl missing ↦ rw (missing, get_or_create_mailbox) (find-snoc i db.mailboxes _ r e)
    ]

-- Dropping one mailbox, or changing its settings, leaves the others.
without-settings :
    (mid i : ℕ) (ms : List MailboxRow)
    → i ≢ mid
    → settings? (mailbox_by_id i (keep (λ m. not (m.id == mid)) ms))
      ≡ settings? (mailbox_by_id i ms)
unfolding mailbox_by_id
without-settings mid i [] ne = refl
without-settings mid i (m ∷ ms) ne = elim (Bool-cases (m.id == mid)) [
  | inl e ↦
      let other : (m.id == i) ≡ false = ground arith in
      rw e (rw other (without-settings mid i ms ne))
  | inr e ↦ elim (Bool-cases (m.id == i)) [
    | inl h ↦ rw e (rw h refl)
    | inr h ↦ rw e (rw h (without-settings mid i ms ne))
  ]
]

pub delete_mailbox-others :
    (mid i : ℕ) (db : Db) → i ≢ mid → settings_at i (delete_mailbox mid db) ≡ settings_at i db
unfolding delete_mailbox settings_at
delete_mailbox-others mid i db ne = without-settings mid i db.mailboxes ne

updated-settings :
    (mid i : ℕ) (f : MailboxRow → MailboxRow) (ms : List MailboxRow)
    → i ≢ mid
    → ((m : MailboxRow) → (f m).id ≡ m.id)
    → settings? (mailbox_by_id i (update_mailboxes mid f ms)) ≡ settings? (mailbox_by_id i ms)
unfolding mailbox_by_id update_mailboxes
updated-settings mid i f [] ne same = refl
updated-settings mid i f (m ∷ ms) ne same = elim (Bool-cases (m.id == mid)) [
  | inl e ↦
      let other : (m.id == i) ≡ false = ground arith in
      let other' : ((f m).id == i) ≡ false = rw (same m) other in
      rw e (rw other (rw other' (updated-settings mid i f ms ne same)))
  | inr e ↦ elim (Bool-cases (m.id == i)) [
    | inl h ↦ rw e (rw h refl)
    | inr h ↦ rw e (rw h (updated-settings mid i f ms ne same))
  ]
]

pub update_mailbox-others :
    (m : MailboxRow) (i : ℕ) (db : Db)
    → i ≢ m.id
    → settings_at i (update_mailbox m db) ≡ settings_at i db
unfolding update_mailbox settings_at
update_mailbox-others m i db ne = updated-settings m.id i _ db.mailboxes ne (λ x. refl)

-- The mailbox that is found at an address has the ID's settings, where IDs are distinct.
found-by_id :
    (owner folder : Text) (ms : List MailboxRow) (m : MailboxRow)
    → AllPairs (λ a b. a.id < b.id) ms
    → find_first (at_address owner folder) ms ≡ some m
    → mailbox_by_id m.id ms ≡ some m
unfolding mailbox_by_id
found-by_id owner folder [] m w e = absurd (ground arith)
found-by_id owner folder (x ∷ xs) m w e = elim (Bool-cases (at_address owner folder x)) [
  | inl h ↦
      let same : some x ≡ some m = rw h at e in
      let is_m : x ≡ m = cc in rw (sym is_m) (rw (eqb_refl x.id) refl)
  | inr h ↦
      let found : find_first (at_address owner folder) xs ≡ some m = rw h at e in
      let above : x.id < m.id =
        All-find (λ b. x.id < b.id) (at_address owner folder) xs m w.0 found in
      let other : (x.id == m.id) ≡ false = ground arith in
      rw other (found-by_id owner folder xs m w.1 found)
]

pub find_mailbox-settings :
    (owner folder : Text) (db : Db) (m : MailboxRow)
    → AllPairs (λ a b. a.id < b.id) db.mailboxes
    → find_mailbox owner folder db ≡ some m
    → settings_at m.id db ≡ some (settings m)
unfolding find_mailbox settings_at
find_mailbox-settings owner folder db m w e =
    ap settings? (found-by_id owner folder db.mailboxes m w e)

found-address :
    (owner folder : Text) (ms : List MailboxRow) (m : MailboxRow)
    → find_first (at_address owner folder) ms ≡ some m
    → (m.owner ≡ owner) × (m.folder ≡ folder)
found-address owner folder [] m e = absurd (ground arith)
found-address owner folder (x ∷ xs) m e = elim (Bool-cases (at_address owner folder x)) [
  | inr h ↦ found-address owner folder xs m (rw h at e)
  | inl h ↦
      let same : some x ≡ some m = rw h at e in
      let is_m : x ≡ m = cc in
      rw (sym is_m)
        (text_eq→eq x.owner owner (ground arith), text_eq→eq x.folder folder (ground arith))
]

pub find_mailbox-address :
    (owner folder : Text) (db : Db) (m : MailboxRow)
    → find_mailbox owner folder db ≡ some m
    → (m.owner ≡ owner) × (m.folder ≡ folder)
unfolding find_mailbox
find_mailbox-address owner folder db m e = found-address owner folder db.mailboxes m e
