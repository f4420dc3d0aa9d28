-- ===== src/Delivery/Coherence/Creates.antt =====
-- Creating a mailbox and delivering keep the cache coherent.
use go_ricochet.Base.{
  ℕ, ◌≡◌, refl, inl, inr, true, Option, none, some, List, [], ◌∷◌, ◌++◌, arith, Bool-cases,
  Option-cases, find_first, Text, text_eq_refl, ℤ,
}
use go_ricochet.Wire.{Message, MailboxType}
use go_ricochet.Store.Rows.{MailboxRow, Db}
use go_ricochet.Store.Mailboxes.{find_mailbox, new_mailbox, get_or_create_mailbox, at_address}
use go_ricochet.Store.Invariant.{WellFormed}
use go_ricochet.Store.Invariant.Run.{create, step, step-WellFormed}
use go_ricochet.Mailboxes.{Reply, ok, fail, store_message_in}
use go_ricochet.Delivery.Address.{MailboxAddress, full_path, new_mailbox_address}
use go_ricochet.Delivery.Settings.{clamp_expiry}
use go_ricochet.Delivery.SameSettings.{
  get_or_create-Extends, find_mailbox-settings, find_mailbox-address,
}
use go_ricochet.Delivery.Grows.{store_message_in-Grows}
use go_ricochet.Delivery.{
  Setup, Server, folder_of, check_mailbox_quota, load_or_create, create_on_miss, get_or_create,
  deliver_into, deliver_local,
}
use go_ricochet.Delivery.Coherence.{Coherent, grown, looked_up, loaded}

find-append :
    (owner folder : Text) (ms : List MailboxRow) (m : MailboxRow)
    → find_first (at_address owner folder) ms ≡ none
    → at_address owner folder m ≡ true
    → find_first (at_address owner folder) (ms ++ m ∷ []) ≡ some m
find-append owner folder [] m e h = rw h refl
find-append owner folder (x ∷ xs) m e h = elim (Bool-cases (at_address owner folder x)) [
  | inl k ↦ absurd (ground arith)
  | inr k ↦ rw k (find-append owner folder xs m (ground arith) h)
]

-- The mailbox that is returned is found at its address afterwards.
created-found :
    (owner folder : Text) (type : MailboxType) (most days : ℤ) (count : Option ℕ) (db : Db)
    → let made = get_or_create_mailbox owner folder type most days count db in
      find_mailbox owner folder made.0 ≡ some made.1
unfolding get_or_create_mailbox find_mailbox
created-found owner folder type most days count db =
    elim (Option-cases (find_first (at_address owner folder) db.mailboxes)) [
      | inr (m, found) ↦ rw (found, get_or_create_mailbox) found
      | inl missing ↦
          let m = new_mailbox db.next_mailbox owner folder type most days count in
          rw (missing, get_or_create_mailbox)
            (find-append owner folder db.mailboxes m missing
              (ground (arith, text_eq_refl owner, text_eq_refl folder)))
    ]

module _ {C L : Type 0} (env : Setup C L) where
  pub load_or_create-Coherent :
      (a : MailboxAddress) (most days : ℤ) (count : Option ℕ) (s : Server C L)
      → Coherent env s
      → Coherent env (load_or_create env a most days count s).0
  unfolding load_or_create
  load_or_create-Coherent a most days count s c =
      let made = get_or_create_mailbox a.owner a.folder a.mailbox_type most days count s.db in
      let op = create a.owner a.folder a.mailbox_type most days count in
      let kept : WellFormed made.0 = unfold step in step-WellFormed 0 op s.db c.tables in
      let found = created-found a.owner a.folder a.mailbox_type most days count s.db in
      let address = find_mailbox-address a.owner a.folder made.0 made.1 found in
      let grow = get_or_create-Extends a.owner a.folder a.mailbox_type most days count s.db in
      loaded env (full_path a.owner a.folder) made.1 (record s { db = made.0 })
        (grown env s made.0 c (kept, grow)) (rw (address.0, address.1) refl)
        (find_mailbox-settings a.owner a.folder made.0 made.1 kept.mailbox_ids found)

  pub create_on_miss-Coherent :
      (a : MailboxAddress) (most days : ℤ) (count : Option ℕ) (s : Server C L)
      → Coherent env s
      → Coherent env (create_on_miss env a most days count s).0
  unfolding create_on_miss
  create_on_miss-Coherent a most days count s c =
      let made = load_or_create-Coherent a most days count s c in
      elim (Option-cases (find_mailbox a.owner a.folder s.db)) [
        | inr (m, e) ↦ rw (e, create_on_miss) made
        | inl e ↦ elim (Option-cases (check_mailbox_quota env a.owner s.db)) [
          | inr (x, over) ↦ rw (e, create_on_miss) (rw over c)
          | inl fits ↦ rw (e, create_on_miss) (rw fits made)
        ]
      ]

  pub get_or_create-Coherent :
      (a : MailboxAddress) (most days : ℤ) (count : Option ℕ) (s : Server C L)
      → Coherent env s
      → Coherent env (get_or_create env a most days count s).0
  unfolding get_or_create
  get_or_create-Coherent a most days count s c =
      let key = full_path a.owner a.folder in
      let seen = looked_up env key s c in
      elim (Option-cases (env.cache.lookup key s.cached).1) [
        | inr (m, e) ↦ rw (e, get_or_create) seen
        | inl e ↦ rw (e, get_or_create) (create_on_miss-Coherent a most days count _ seen)
      ]

  pub deliver_into-Coherent :
      (now : ℕ) (msg : Message) (s : Server C L) (r : Reply MailboxRow)
      → Coherent env s
      → Coherent env (deliver_into env now msg (s, r)).0
  unfolding deliver_into
  deliver_into-Coherent now msg s (fail e) c = c
  deliver_into-Coherent now msg s (ok m) c =
      let sent = clamp_expiry now m msg in
      let after = store_message_in env.library now m sent s.db in
      let kept =
        grown env s after.0 c (store_message_in-Grows env.library now m sent s.db c.tables) in
      by_reply after.1 refl kept
    where
      by_reply :
          (r : Reply (Unit {0}))
          → (store_message_in env.library now m (clamp_expiry now m msg) s.db).1 ≡ r
          → Coherent env (record s {
            db = (store_message_in env.library now m (clamp_expiry now m msg) s.db).0;
          })
          → Coherent env (deliver_into env now msg (s, ok m)).0
      by_reply (ok u) e kept = rw (e, deliver_into) kept
      by_reply (fail x) e kept = rw (e, deliver_into) kept

  pub deliver_local-Coherent :
      (now : ℕ) (msg : Message) (s : Server C L)
      → Coherent env s
      → Coherent env (deliver_local env now msg s).0
  unfolding deliver_local
  deliver_local-Coherent now msg s c = elim (Option-cases (env.library.peer_decode msg.recipient)) [
    | inl e ↦ rw (e, deliver_local) c
    | inr (owner, e) ↦
        elim (Option-cases
          (new_mailbox_address env.text_tests owner (folder_of msg) MailboxType.private)) [
            | inl k ↦ rw (e, deliver_local) (rw k c)
            | inr (a, k) ↦
                let most = env.defaults.max_messages in
                let days = env.defaults.retention_days in
                let made = get_or_create-Coherent a most days none s c in
                rw (e, deliver_local)
                  (rw k (
                    deliver_into-Coherent now msg (get_or_create env a most days none s).0
                      (get_or_create env a most days none s).1 made))
          ]
  ]
