-- ===== src/Delivery.antt =====
-- internal/mda/delivery.go and claim.go: the delivery agent over the mailbox store, with its cache of
-- loaded mailboxes.
pub mod Address
pub mod Settings
pub mod Bounds
pub mod SameSettings
pub mod Grows
pub mod Coherence
pub mod Quota
pub mod SmallCache
pub mod ReadsOnly
mod Tests
use go_ricochet.Base.{
  ℕ, zero, suc, ◌+◌, ◌-◌, ◌*◌, ◌/◌, ◌%◌, ◌^◌, ◌≤◌, ◌<◌, min, max, ◌≡◌, refl, sym, ap, ◌∙◌, subst,
  ◌≢◌, ◌↔◌, ◌⊎◌, inl, inr, Bool, true, false, not, ◌&&◌, ◌||◌, Option, none, some, List, [], ◌∷◌,
  ◌++◌, map, append-nil, append_assoc, arith, ltb, leb, ◌==◌, if◌then◌else◌, ltb→lt, lt→ltb, leb→le,
  ==_iff, eqb_refl, Bool-cases, ◌>>=◌, Option-cases, length, take, drop, keep, find_first, any_of,
  sum_by, All, length-append, sum_by-append, length-take, length-drop, take-append-drop,
  take-length_append, drop-length_append, take_all, sum_by-keep-not, All-keep, All-append, All-find,
  All-imp, All-map, AllPairs, AllPairs-keep, AllPairs-snoc, AllPairs-map, All-take, AllPairs-take,
  Text, codes, ◌=ᵗ◌, text_eq_refl, text_eq→eq, mem_text, ℤ, pos, negsuc, pos_part, neg_part, ◌≤ℤ◌,
  ltb_ℤ, is_positive, is_zero, suc_ℤ, suc_ℤ_parts,
}
use go_ricochet.Wire.{Message, MailboxType}
use go_ricochet.Store.Rows.{MailboxRow, Db}
use go_ricochet.Store.Messages.{claim_message}
use go_ricochet.Store.Mailboxes.{
  find_mailbox, get_or_create_mailbox, count_mailboxes, update_mailbox, delete_mailbox,
  delete_expired_messages, enforce_all_retention, reconcile_message_counts,
}
use go_ricochet.Mailboxes.Page.{Library, RetrieveOpts}
use go_ricochet.Mailboxes.{
  MailboxError, unauthorized, not_found, invalid_path, quota_exceeded, bad_peer, unknown_type,
  Reply, ok, fail, store_message_in, retrieve_from,
}
use Address.{TextTests, MailboxAddress, full_path, new_mailbox_address, is_empty}
use Settings.{MailboxDefaults, clamp_expiry, clamp_mailbox_settings}

-- What the delivery agent uses of the LRU cache: `peek` tells what an entry holds, and an entry may
-- be evicted by any addition.
pub record Cache (C : Type 0) : Type 0 where
  pub peek : Text → C → Option MailboxRow
  pub lookup : Text → C → C × Option MailboxRow
  pub add : Text → MailboxRow → C → C
  pub remove : Text → C → C
  pub lookup_result : (k : Text) (c : C) → (lookup k c).1 ≡ peek k c
  pub lookup_keeps : (j k : Text) (c : C) → peek j (lookup k c).0 ≡ peek j c
  pub add_holds :
      (j k : Text) (m r : MailboxRow) (c : C)
      → peek j (add k m c) ≡ some r
      → ((j ≡ k) × (r ≡ m)) ⊎ (peek j c ≡ some r)
  pub remove_drops : (k : Text) (c : C) → peek k (remove k c) ≡ none
  pub remove_holds :
      (j k : Text) (r : MailboxRow) (c : C) → peek j (remove k c) ≡ some r → peek j c ≡ some r

-- What the server is built with; `allow` is the token bucket of a claim mailbox.
pub record Setup (C L : Type 0) : Type 0 where
  pub cache : Cache C
  pub allow : ℕ → ℕ → L → L × Bool
  pub library : Library
  pub text_tests : TextTests
  pub defaults : MailboxDefaults

pub record Server (C L : Type 0) : Type 0 where
  pub db : Db
  pub cached : C
  pub claims : L

abbrev pub or_loaded : MailboxRow → MailboxType → Reply MailboxRow
or_loaded m (MailboxType.unknown t) = fail unknown_type
or_loaded m _ = ok m

-- `wrapRecord`: the record, where its type is one of the four.
unfoldable pub wrap_record : MailboxRow → Reply MailboxRow
wrap_record m = or_loaded m m.mailbox_type

abbrev pub inbox : Text
inbox = codes "inbox"

abbrev pub folder_of : Message → Text
folder_of msg = if is_empty msg.folder_path then inbox else msg.folder_path

module _ {C L : Type 0} (env : Setup C L) where
  -- `checkMailboxQuota`
  unfoldable pub check_mailbox_quota : Text → Db → Option MailboxError
  check_mailbox_quota owner db =
      let per_owner = env.defaults.max_per_owner in
      let total = env.defaults.max_mailboxes in
      let (owned, all) = count_mailboxes owner db in
      if is_positive per_owner && leb (pos_part per_owner) owned
      then some (quota_exceeded owned (pos_part per_owner))
      else if is_positive total && leb (pos_part total) all
      then some (quota_exceeded all (pos_part total))
      else none

  -- A loaded record goes into the cache; one of no known type does not.
  abbrev pub cache_loaded : Text → Server C L → Reply MailboxRow → Server C L × Reply MailboxRow
  cache_loaded key s (ok m) = (record s { cached = env.cache.add key m s.cached }, ok m)
  cache_loaded key s (fail e) = (s, fail e)

  unfoldable pub load_or_create :
      MailboxAddress → ℤ → ℤ → Option ℕ → Server C L → Server C L × Reply MailboxRow
  load_or_create a cap days count s =
      let (db', m) = get_or_create_mailbox a.owner a.folder a.mailbox_type cap days count s.db in
      cache_loaded (full_path a.owner a.folder) (record s { db = db' }) (wrap_record m)

  -- What `getOrCreateMailbox` does on a miss: the quota binds only a mailbox that is not there yet.
  unfoldable pub create_on_miss :
      MailboxAddress → ℤ → ℤ → Option ℕ → Server C L → Server C L × Reply MailboxRow
  create_on_miss a cap days count s = elim (find_mailbox a.owner a.folder s.db) [
    | some m ↦ load_or_create a cap days count s
    | none ↦ elim (check_mailbox_quota a.owner s.db) [
      | some e ↦ (s, fail e)
      | none ↦ load_or_create a cap days count s
    ]
  ]

  -- `getOrCreateMailbox`, as one call with nothing between its check and its insertion. The source
  -- lets other calls come there: Quota has the two halves apart.
  unfoldable pub get_or_create :
      MailboxAddress → ℤ → ℤ → Option ℕ → Server C L → Server C L × Reply MailboxRow
  get_or_create a cap days count s =
      let (cached', hit) = env.cache.lookup (full_path a.owner a.folder) s.cached in
      let s' = record s { cached = cached' } in
      elim hit [ some m ↦ (s', ok m) | none ↦ create_on_miss a cap days count s' ]

  -- The steps of `DeliverLocal` behind the mailbox, at `now` milliseconds.
  unfoldable pub deliver_into : ℕ → Message → Server C L × Reply MailboxRow → Server C L × Reply ℕ
  deliver_into now msg (s, fail e) = (s, fail e)
  deliver_into now msg (s, ok m) =
      let (db', reply) = store_message_in env.library now m (clamp_expiry now m msg) s.db in
      elim reply [
        | ok _ ↦ (record s { db = db' }, ok msg.sequence)
        | fail e ↦ (record s { db = db' }, fail e)
      ]

  -- `DeliverLocal`, up to its notification; the number it returns is the message's own.
  unfoldable pub deliver_local : ℕ → Message → Server C L → Server C L × Reply ℕ
  deliver_local now msg s = elim (env.library.peer_decode msg.recipient) [
    | none ↦ (s, fail bad_peer)
    | some owner ↦
        elim (new_mailbox_address env.text_tests owner (folder_of msg) MailboxType.private) [
          | none ↦ (s, fail invalid_path)
          | some a ↦
              deliver_into now msg
                (get_or_create a env.defaults.max_messages env.defaults.retention_days none s)
        ]
  ]

  -- `CreateMailbox`
  unfoldable pub create_mailbox :
      MailboxAddress → ℤ → ℤ → Option ℕ → Server C L → Server C L × Reply MailboxRow
  create_mailbox = get_or_create

  abbrev pub as_found : Server C L × Reply MailboxRow → Server C L × Reply (Option MailboxRow)
  as_found (s, ok m) = (s, ok (some m))
  as_found (s, fail e) = (s, fail e)

  unfoldable pub find_on_miss : MailboxAddress → Server C L → Server C L × Reply (Option MailboxRow)
  find_on_miss a s = elim (find_mailbox a.owner a.folder s.db) [
    | none ↦ (s, ok none)
    | some m ↦ as_found (cache_loaded (full_path a.owner a.folder) s (wrap_record m))
  ]

  -- `findMailbox` never creates one.
  unfoldable pub find : MailboxAddress → Server C L → Server C L × Reply (Option MailboxRow)
  find a s =
      let (cached', hit) = env.cache.lookup (full_path a.owner a.folder) s.cached in
      let s' = record s { cached = cached' } in
      elim hit [ some m ↦ (s', ok (some m)) | none ↦ find_on_miss a s' ]

  unfoldable pub retrieve_found :
      ℕ
      → MailboxAddress
      → Text
      → RetrieveOpts
      → Server C L × Reply (Option MailboxRow)
      → Server C L × Reply (List Message × Bool)
  retrieve_found now a caller opts (s, fail e) = (s, fail e)
  retrieve_found now a caller opts (s, ok none) =
      if caller =ᵗ a.owner then (s, ok ([], false)) else (s, fail not_found)
  retrieve_found now a caller opts (s, ok (some m)) =
      let (db', reply) = retrieve_from env.library now m (some caller) opts s.db in
      (record s { db = db' }, reply)

  -- `Retrieve`
  unfoldable pub retrieve :
      ℕ
      → MailboxAddress
      → Text
      → RetrieveOpts
      → Server C L
      → Server C L × Reply (List Message × Bool)
  retrieve now a caller opts s = retrieve_found now a caller opts (find a s)

  abbrev pub is_claim : MailboxType → Bool
  is_claim MailboxType.claim = true
  is_claim _ = false

  unfoldable pub claim_found :
      ℕ → Server C L × Reply (Option MailboxRow) → Server C L × Reply (Option Message)
  claim_found now (s, fail e) = (s, fail e)
  claim_found now (s, ok none) = (s, fail not_found)
  claim_found now (s, ok (some m)) =
      if not (is_claim m.mailbox_type)
      then (s, fail unauthorized)
      else let (claims', allowed) = env.allow now m.id s.claims in
        let s' = record s { claims = claims' } in
        let (db', taken) = claim_message now m.id s.db in
        if allowed then (record s' { db = db' }, ok taken) else (s', ok none)

  -- `Claim`
  unfoldable pub claim : ℕ → MailboxAddress → Server C L → Server C L × Reply (Option Message)
  claim now a s = claim_found now (find a s)

  -- `DeleteMailbox`, up to its notification.
  unfoldable pub delete : MailboxAddress → Server C L → Server C L × Reply (Unit {0})
  delete a s = elim (find_mailbox a.owner a.folder s.db) [
    | none ↦ (s, fail not_found)
    | some m ↦ (
      record s {
        db = delete_mailbox m.id s.db;
        cached = env.cache.remove (full_path a.owner a.folder) s.cached;
      },
      ok tt,
    )
  ]

  -- `UpdateMailbox`
  unfoldable pub update : MailboxRow → Server C L → Server C L
  update m s = record s {
    db = update_mailbox m s.db;
    cached = env.cache.remove (full_path m.owner m.folder) s.cached;
  }

  -- `handleUpdateConfig` past its check of the folder: the caller's own mailbox, its settings clamped.
  unfoldable pub update_config :
      Text → Text → Option ℤ → Option ℤ → Option ℤ → Server C L → Server C L × Bool
  update_config caller folder cap days count s = elim (find_mailbox caller folder s.db) [
    | none ↦ (s, false)
    | some m ↦
        elim (clamp_mailbox_settings env.defaults cap days count m.max_messages m.retention_days
          m.retention_count) [
            | none ↦ (s, false)
            | some (new_cap, new_days, new_count) ↦ (
              update
                  (record m {
                    max_messages = new_cap;
                    retention_days = new_days;
                    retention_count = new_count;
                  })
                  s,
              true,
            )
          ]
  ]

  -- `PerformMaintenance`, its feed sweep left out.
  unfoldable pub perform_maintenance : ℕ → Server C L → Server C L
  perform_maintenance now s = record s {
    db =
        (reconcile_message_counts
          (enforce_all_retention now (delete_expired_messages now s.db).0).0).0;
  }
