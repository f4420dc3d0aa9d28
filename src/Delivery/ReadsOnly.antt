-- ===== src/Delivery/ReadsOnly.antt =====
-- A read of a mailbox leaves the mailboxes and the messages as they are.
use go_ricochet.Base.{
  ℕ, ◌≡◌, refl, ap, ◌∙◌, inl, inr, Bool, true, false, Option, none, some, List, ltb, Bool-cases,
  Option-cases, Text, ◌=ᵗ◌,
}
use go_ricochet.Wire.{Message, MailboxType}
use go_ricochet.Store.Rows.{MailboxRow, Db}
use go_ricochet.Store.Mailboxes.{find_mailbox}
use go_ricochet.Store.Access.{update_cursor}
use go_ricochet.Mailboxes.Page.{RetrieveOpts, fetch_page, Library}
use go_ricochet.Mailboxes.{
  Reply, ok, fail, read_guard, start_of, last_sequence, after_read, read_page, retrieve_from,
}
use go_ricochet.Delivery.Address.{MailboxAddress, full_path}
use go_ricochet.Delivery.{
  Setup, Server, wrap_record, cache_loaded, as_found, find_on_miss, find, retrieve_found, retrieve,
}

-- The mailboxes and messages of two states are the same.
abbrev pub KeepsMail : Db → Db → Type 0
KeepsMail db db' = (db'.mailboxes ≡ db.mailboxes) × (db'.messages ≡ db.messages)

moved-KeepsMail :
    (mid : ℕ) (r : Text) (seq : ℕ) (db : Db) → KeepsMail db (update_cursor mid r seq db)
unfolding update_cursor
moved-KeepsMail mid r seq db = (refl, refl)

after_read-KeepsMail :
    (m : MailboxRow) (t : MailboxType) (r : Text) (msgs : List Message) (db : Db)
    → KeepsMail db (after_read m t (some r) msgs db)
unfolding after_read
after_read-KeepsMail m MailboxType.private r msgs db = (refl, refl)
after_read-KeepsMail m MailboxType.claim r msgs db = (refl, refl)
after_read-KeepsMail m (MailboxType.unknown n) r msgs db = (refl, refl)
after_read-KeepsMail m MailboxType.shared r msgs db =
    elim (Bool-cases (ltb 0 (last_sequence msgs))) [
      | inl e ↦ rw (e, after_read) (moved-KeepsMail m.id r (last_sequence msgs) db)
      | inr e ↦ rw (e, after_read) (refl, refl)
    ]
after_read-KeepsMail m MailboxType.public r msgs db =
    elim (Bool-cases (ltb 0 (last_sequence msgs))) [
      | inl e ↦ rw (e, after_read) (moved-KeepsMail m.id r (last_sequence msgs) db)
      | inr e ↦ rw (e, after_read) (refl, refl)
    ]

retrieve_from-KeepsMail :
    (lib : Library) (now : ℕ) (m : MailboxRow) (r : Text) (opts : RetrieveOpts) (db : Db)
    → KeepsMail db (retrieve_from lib now m (some r) opts db).0
unfolding retrieve_from read_page
retrieve_from-KeepsMail lib now m r opts db =
    by_guard (read_guard m m.mailbox_type (some r) db) refl
  where
    page : KeepsMail db (read_page lib now m (some r) opts db).0
    page =
        elim (Option-cases
          (fetch_page lib now m (start_of m m.mailbox_type (some r) opts.from db) opts db)) [
            | inl e ↦ rw (e, read_page) (refl, refl)
            | inr ((msgs, more), e) ↦
                rw (e, read_page) (after_read-KeepsMail m m.mailbox_type r msgs db)
          ]

    by_guard :
        (g : Reply Bool)
        → read_guard m m.mailbox_type (some r) db ≡ g
        → KeepsMail db (retrieve_from lib now m (some r) opts db).0
    by_guard (fail x) e = rw (e, retrieve_from) (refl, refl)
    by_guard (ok true) e = rw (e, retrieve_from) page
    by_guard (ok false) e = rw (e, retrieve_from) (refl, refl)

module _ {C L : Type 0} (env : Setup C L) where
  loaded-db :
      (key : Text) (s : Server C L) (r : Reply MailboxRow)
      → (as_found env (cache_loaded env key s r)).0.db ≡ s.db
  loaded-db key s (ok m) = refl
  loaded-db key s (fail e) = refl

  find_on_miss-db : (a : MailboxAddress) (s : Server C L) → (find_on_miss env a s).0.db ≡ s.db
  unfolding find_on_miss
  find_on_miss-db a s = elim (Option-cases (find_mailbox a.owner a.folder s.db)) [
    | inl e ↦ rw (e, find_on_miss) refl
    | inr (m, e) ↦ rw (e, find_on_miss) (loaded-db (full_path a.owner a.folder) s (wrap_record m))
  ]

  pub find-db : (a : MailboxAddress) (s : Server C L) → (find env a s).0.db ≡ s.db
  unfolding find
  find-db a s = elim (Option-cases (env.cache.lookup (full_path a.owner a.folder) s.cached).1) [
    | inr (m, e) ↦ rw (e, find) refl
    | inl e ↦ rw (e, find) (find_on_miss-db a _)
  ]

  retrieve_found-KeepsMail :
      (now : ℕ) (a : MailboxAddress) (caller : Text) (opts : RetrieveOpts) (s : Server C L)
      (r : Reply (Option MailboxRow))
      → KeepsMail s.db (retrieve_found env now a caller opts (s, r)).0.db
  unfolding retrieve_found
  retrieve_found-KeepsMail now a caller opts s (fail e) = (refl, refl)
  retrieve_found-KeepsMail now a caller opts s (ok none) = elim (Bool-cases (caller =ᵗ a.owner)) [
    | inl e ↦ rw (e, retrieve_found) (refl, refl)
    | inr e ↦ rw (e, retrieve_found) (refl, refl)
  ]
  retrieve_found-KeepsMail now a caller opts s (ok (some m)) =
      retrieve_from-KeepsMail env.library now m caller opts s.db

  -- A read of any address by any caller, refused or not, creates no mailbox, removes no message and
  -- changes neither.
  pub retrieve-KeepsMail :
      (now : ℕ) (a : MailboxAddress) (caller : Text) (opts : RetrieveOpts) (s : Server C L)
      → KeepsMail s.db (retrieve env now a caller opts s).0.db
  unfolding retrieve
  retrieve-KeepsMail now a caller opts s =
      let found = find env a s in
      let kept = retrieve_found-KeepsMail now a caller opts found.0 found.1 in
      let same = find-db a s in
      (kept.0 ∙ ap (λ (d : Db). d.mailboxes) same, kept.1 ∙ ap (λ (d : Db). d.messages) same)
