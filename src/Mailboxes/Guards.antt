-- ===== src/Mailboxes/Guards.antt =====
-- Who may read and who may store, by the type of the mailbox.
use go_ricochet.Base.{
  ℕ, ◌≡◌, refl, ◌⊎◌, inl, inr, Bool, true, false, some, List, arith, Bool-cases, Option-cases, Text,
  ◌=ᵗ◌, text_eq→eq,
}
use go_ricochet.Wire.{Message, MailboxType, AccessMode}
use go_ricochet.Store.Rows.{MailboxRow, Db}
use go_ricochet.Store.Access.{check_access}
use go_ricochet.Mailboxes.Page.{Library, RetrieveOpts}
use go_ricochet.Mailboxes.{
  Reply, ok, fail, may_write, store_guard, store_message_in, read_guard, retrieve_from,
}

-- The rule for readers: the owner always; of a shared mailbox also a peer with a read grant; of a
-- public mailbox anyone.
abbrev pub MayRead : MailboxRow → Text → Db → Type 0
MayRead m r db =
    (r ≡ m.owner)
    ⊎ ((m.mailbox_type ≡ MailboxType.shared) × (check_access m.id r AccessMode.read_only db ≡ true))
    ⊎ (m.mailbox_type ≡ MailboxType.public)

read_guard-MayRead :
    (m : MailboxRow) (t : MailboxType) (r : Text) (db : Db)
    → m.mailbox_type ≡ t
    → read_guard m t (some r) db ≡ ok true
    → MayRead m r db
unfolding read_guard
read_guard-MayRead m MailboxType.private r db is_t e = inl (text_eq→eq r m.owner (ground arith))
read_guard-MayRead m MailboxType.claim r db is_t e = inl (text_eq→eq r m.owner (ground arith))
read_guard-MayRead m MailboxType.shared r db is_t e = elim (Bool-cases (r =ᵗ m.owner)) [
  | inl own ↦ inl (text_eq→eq r m.owner own)
  | inr other ↦ inr (inl (is_t, ground arith))
]
read_guard-MayRead m MailboxType.public r db is_t e = inr (inr is_t)
read_guard-MayRead m (MailboxType.unknown k) r db is_t e = cc

-- A peer that is given a page of a mailbox owns the mailbox, or has a read grant on a shared
-- mailbox, or the mailbox is public.
pub retrieve_from-MayRead :
    (lib : Library) (now : ℕ) (m : MailboxRow) (r : Text) (opts : RetrieveOpts) (db : Db)
    (msgs : List Message) (more : Bool)
    → (retrieve_from lib now m (some r) opts db).1 ≡ ok (msgs, more)
    → MayRead m r db
unfolding retrieve_from
retrieve_from-MayRead lib now m r opts db msgs more e =
    read_guard-MayRead m m.mailbox_type r db refl
      (granted (read_guard m m.mailbox_type (some r) db) refl)
  where
    granted :
        (g : Reply Bool)
        → read_guard m m.mailbox_type (some r) db ≡ g
        → read_guard m m.mailbox_type (some r) db ≡ ok true
    granted (fail x) is_g = absurd (ground arith)
    granted (ok true) is_g = is_g
    granted (ok false) is_g = absurd (ground arith)

-- The rule for writers.
abbrev pub MayStore : Library → MailboxRow → Message → Db → Type 0
MayStore lib m msg db =
    ((m.mailbox_type ≡ MailboxType.private) × (msg.recipient ≡ m.owner))
    ⊎ ((m.mailbox_type ≡ MailboxType.claim) × (msg.sender ≡ m.owner) × (msg.recipient ≡ m.owner))
    ⊎ (((m.mailbox_type ≡ MailboxType.shared) ⊎ (m.mailbox_type ≡ MailboxType.public))
        × ((msg.sender ≡ m.owner)
            ⊎ ((p : Text) × (lib.peer_decode msg.sender ≡ some p)
                × (check_access m.id p AccessMode.write_only db ≡ true))))

may_write_cases :
    (lib : Library) (m : MailboxRow) (msg : Message) (db : Db)
    → may_write lib m msg db ≡ ok true
    → (msg.sender ≡ m.owner)
      ⊎ ((p : Text) × (lib.peer_decode msg.sender ≡ some p)
          × (check_access m.id p AccessMode.write_only db ≡ true))
unfolding may_write
may_write_cases lib m msg db e = elim (Bool-cases (msg.sender =ᵗ m.owner)) [
  | inl own ↦ inl (text_eq→eq msg.sender m.owner own)
  | inr other ↦ elim (Option-cases (lib.peer_decode msg.sender)) [
    | inl bad ↦ absurd (ground arith)
    | inr (p, is_p) ↦ inr (p, is_p, ground arith)
  ]
]

store_guard-MayStore :
    (lib : Library) (m : MailboxRow) (t : MailboxType) (msg : Message) (db : Db)
    → m.mailbox_type ≡ t
    → store_guard lib m t msg db ≡ ok true
    → MayStore lib m msg db
unfolding store_guard
store_guard-MayStore lib m MailboxType.private msg db is_t e =
    inl (is_t, text_eq→eq msg.recipient m.owner (ground arith))
store_guard-MayStore lib m MailboxType.claim msg db is_t e = inr (
    inl (
      is_t,
      text_eq→eq msg.sender m.owner (ground arith),
      text_eq→eq msg.recipient m.owner (ground arith),
    ))
store_guard-MayStore lib m MailboxType.shared msg db is_t e =
    inr (inr (inl is_t, may_write_cases lib m msg db e))
store_guard-MayStore lib m MailboxType.public msg db is_t e =
    inr (inr (inr is_t, may_write_cases lib m msg db e))
store_guard-MayStore lib m (MailboxType.unknown k) msg db is_t e = cc

-- A message that a mailbox accepts is, in a private mailbox, addressed to its owner; in a claim
-- mailbox, from its owner to its owner; in a shared or public mailbox, from its owner or from a peer
-- with a write grant.
pub store_message_in-MayStore :
    (lib : Library) (now : ℕ) (m : MailboxRow) (msg : Message) (db : Db)
    → (store_message_in lib now m msg db).1 ≡ ok tt
    → MayStore lib m msg db
unfolding store_message_in
store_message_in-MayStore lib now m msg db e =
    store_guard-MayStore lib m m.mailbox_type msg db refl
      (granted (store_guard lib m m.mailbox_type msg db) refl)
  where
    granted :
        (g : Reply Bool)
        → store_guard lib m m.mailbox_type msg db ≡ g
        → store_guard lib m m.mailbox_type msg db ≡ ok true
    granted (fail x) is_g = absurd (ground arith)
    granted (ok true) is_g = is_g
    granted (ok false) is_g = absurd (ground arith)
