-- ===== src/Delivery/Coherence.antt =====
-- The cache of loaded mailboxes agrees with the mailbox store.
pub mod Creates
pub mod Reads
pub mod Run
use go_ricochet.Base.{
  ℕ, zero, suc, ◌+◌, ◌-◌, ◌*◌, ◌/◌, ◌%◌, ◌^◌, ◌≤◌, ◌<◌, min, max, ◌≡◌, refl, sym, ap, ◌∙◌, subst,
  ◌≢◌, ◌↔◌, ◌⊎◌, inl, inr, Bool, true, false, not, ◌&&◌, ◌||◌, Option, none, some, List, [], ◌∷◌,
  ◌++◌, map, append-nil, append_assoc, arith, ltb, leb, ◌==◌, if◌then◌else◌, ltb→lt, lt→ltb, leb→le,
  ==_iff, eqb_refl, Bool-cases, ◌>>=◌, Option-cases, length, take, drop, keep, find_first, any_of,
  sum_by, All, length-append, sum_by-append, length-take, length-drop, take-append-drop,
  take-length_append, drop-length_append, take_all, sum_by-keep-not, All-keep, All-append, All-find,
  All-imp, All-map, AllPairs, AllPairs-keep, AllPairs-snoc, AllPairs-map, All-take, AllPairs-take,
  Text, codes, ◌=ᵗ◌, text_eq_refl, text_eq→eq, mem_text, ℤ, pos, negsuc, pos_part, neg_part, ◌≤ℤ◌,
  ltb_ℤ, is_positive, is_zero,
}
use go_ricochet.Wire.{Message, MailboxType}
use go_ricochet.Store.Rows.{MailboxRow, Db, empty}
use go_ricochet.Store.Messages.{claim_message}
use go_ricochet.Store.Mailboxes.{
  find_mailbox, new_mailbox, get_or_create_mailbox, update_mailbox, delete_mailbox, at_address,
  delete_expired_messages, enforce_all_retention, reconcile_message_counts,
}
use go_ricochet.Store.Invariant.{WellFormed}
use go_ricochet.Store.Invariant.Run.{
  Op, create, configure, drop_box, claim_one, retain_all, sweep_expired, reconcile, step,
  step-WellFormed, empty-WellFormed,
}
use go_ricochet.Mailboxes.Page.{RetrieveOpts}
use go_ricochet.Mailboxes.{Reply, ok, fail, MailboxError, store_message_in, retrieve_from}
use go_ricochet.Delivery.Address.{MailboxAddress, full_path, new_mailbox_address}
use go_ricochet.Delivery.Settings.{clamp_expiry, clamp_mailbox_settings}
use go_ricochet.Delivery.SameSettings.{
  settings, settings_at, Extends, Extends-trans, delete_expired-Extends, enforce_all-Extends,
  reconcile-Extends, claim-Extends, get_or_create-Extends, delete_mailbox-others,
  update_mailbox-others, find_mailbox-settings, find_mailbox-address,
}
use go_ricochet.Delivery.Grows.{Grows, Grows-refl, store_message_in-Grows, retrieve_from-Grows}
use go_ricochet.Delivery.{
  Cache, Setup, Server, wrap_record, or_loaded, folder_of, check_mailbox_quota, cache_loaded,
  load_or_create, create_on_miss, get_or_create, deliver_into, deliver_local, find_on_miss, find,
  as_found, retrieve_found, retrieve, is_claim, claim_found, claim, delete, update, update_config,
  perform_maintenance,
}

module _ {C L : Type 0} (env : Setup C L) where
  -- The tables are well formed, and each cached mailbox stands under its own address and has the
  -- type, the address and the settings of the row with its ID.
  pub record Coherent (s : Server C L) : Type 0 where
    pub tables : WellFormed s.db
    pub agrees :
        (k : Text) (r : MailboxRow)
        → env.cache.peek k s.cached ≡ some r
        → (k ≡ full_path r.owner r.folder) × (settings_at r.id s.db ≡ some (settings r))

  pub grown :
      (s : Server C L) (db : Db) → Coherent s → Grows s.db db → Coherent (record s { db = db })
  grown s db c g = record {
    tables = g.0;
    agrees = λ k r e. let a = c.agrees k r e in (a.0, g.1 r.id (settings r) a.1);
  }

  pub looked_up :
      (key : Text) (s : Server C L)
      → Coherent s
      → Coherent (record s { cached = (env.cache.lookup key s.cached).0 })
  looked_up key s c = record {
    tables = c.tables;
    agrees = λ k r e. c.agrees k r (sym (env.cache.lookup_keeps k key s.cached) ∙ e);
  }

  pub added :
      (key : Text) (m : MailboxRow) (s : Server C L)
      → Coherent s
      → key ≡ full_path m.owner m.folder
      → settings_at m.id s.db ≡ some (settings m)
      → Coherent (record s { cached = env.cache.add key m s.cached })
  added key m s c at_key has = record {
    tables = c.tables;
    agrees = λ k r e. elim (env.cache.add_holds k key m r s.cached e) [
      | inl (same, is_m) ↦ rw (is_m, same) (at_key, has)
      | inr old ↦ c.agrees k r old
    ];
  }

  pub loaded :
      (key : Text) (m : MailboxRow) (s : Server C L)
      → Coherent s
      → key ≡ full_path m.owner m.folder
      → settings_at m.id s.db ≡ some (settings m)
      → Coherent (cache_loaded env key s (wrap_record m)).0
  unfolding wrap_record
  loaded key m s c at_key has = by_type m.mailbox_type
    where
      by_type : (t : MailboxType) → Coherent (cache_loaded env key s (or_loaded m t)).0
      by_type MailboxType.private = added key m s c at_key has
      by_type MailboxType.shared = added key m s c at_key has
      by_type MailboxType.public = added key m s c at_key has
      by_type MailboxType.claim = added key m s c at_key has
      by_type (MailboxType.unknown n) = c

  -- A write to one mailbox's row that drops its address from the cache.
  pub dropped :
      (m : MailboxRow) (db : Db) (s : Server C L)
      → Coherent s
      → WellFormed db
      → ((i : ℕ) → i ≢ m.id → settings_at i db ≡ settings_at i s.db)
      → ((r : MailboxRow)
          → settings_at m.id s.db ≡ some (settings r)
          → full_path r.owner r.folder ≡ full_path m.owner m.folder)
      → Coherent
          (record s { db = db; cached = env.cache.remove (full_path m.owner m.folder) s.cached })
  dropped m db s c w others at_path = record {
    tables = w;
    agrees = λ k r e.
        let a = c.agrees k r (env.cache.remove_holds k _ r s.cached e) in
        (a.0, others r.id (not_same k r a e) ∙ a.1);
  }
    where
      not_same :
          (k : Text) (r : MailboxRow)
          → (k ≡ full_path r.owner r.folder) × (settings_at r.id s.db ≡ some (settings r))
          → env.cache.peek k (env.cache.remove (full_path m.owner m.folder) s.cached) ≡ some r
          → r.id ≢ m.id
      not_same k r a e same =
          let path = at_path r (subst (λ i. settings_at i s.db ≡ some (settings r)) same a.1) in
          let gone = env.cache.remove_drops (full_path m.owner m.folder) s.cached in
          let is_key : k ≡ full_path m.owner m.folder = a.0 ∙ path in
          let none_left : none ≡ some r = sym gone ∙ (rw is_key at e) in absurd (ground arith)

  pub found_path :
      (owner folder : Text) (m : MailboxRow) (s : Server C L)
      → Coherent s
      → find_mailbox owner folder s.db ≡ some m
      → (r : MailboxRow) → settings_at m.id s.db ≡ some (settings r)
      → full_path r.owner r.folder ≡ full_path m.owner m.folder
  found_path owner folder m s c e r h =
      let has = find_mailbox-settings owner folder s.db m c.tables.mailbox_ids e in
      let same : some (settings r) ≡ some (settings m) = sym h ∙ has in
      let is_owner : r.owner ≡ m.owner = ground arith in
      let is_folder : r.folder ≡ m.folder = ground arith in rw (is_owner, is_folder) refl
