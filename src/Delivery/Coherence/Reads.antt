-- ===== src/Delivery/Coherence/Reads.antt =====
-- Reading and claiming keep the cache coherent.
use go_ricochet.Base.{ℕ, refl, inl, inr, Option, none, some, Bool-cases, Option-cases, Text, ◌=ᵗ◌}
use go_ricochet.Store.Rows.{MailboxRow}
use go_ricochet.Store.Messages.{claim_message}
use go_ricochet.Store.Mailboxes.{find_mailbox}
use go_ricochet.Store.Invariant.{WellFormed}
use go_ricochet.Store.Invariant.Run.{claim_one, step, step-WellFormed}
use go_ricochet.Mailboxes.Page.{RetrieveOpts}
use go_ricochet.Mailboxes.{Reply, ok, fail}
use go_ricochet.Delivery.Address.{MailboxAddress, full_path}
use go_ricochet.Delivery.SameSettings.{claim-Extends, find_mailbox-settings, find_mailbox-address}
use go_ricochet.Delivery.Grows.{retrieve_from-Grows}
use go_ricochet.Delivery.{
  Setup, Server, wrap_record, cache_loaded, find_on_miss, find, as_found, retrieve_found, is_claim,
  claim_found,
}
use go_ricochet.Delivery.Coherence.{Coherent, grown, looked_up, loaded}

module _ {C L : Type 0} (env : Setup C L) where
  pub find_on_miss-Coherent :
      (a : MailboxAddress) (s : Server C L) → Coherent env s → Coherent env (find_on_miss env a s).0
  unfolding find_on_miss
  find_on_miss-Coherent a s c = elim (Option-cases (find_mailbox a.owner a.folder s.db)) [
    | inl e ↦ rw (e, find_on_miss) c
    | inr (m, e) ↦
        let address = find_mailbox-address a.owner a.folder s.db m e in
        let has = find_mailbox-settings a.owner a.folder s.db m c.tables.mailbox_ids e in
        let kept =
          loaded env (full_path a.owner a.folder) m s c (rw (address.0, address.1) refl) has in
        rw (e, find_on_miss)
          (same_state (cache_loaded env (full_path a.owner a.folder) s (wrap_record m)) kept)
  ]
    where
      same_state :
          (r : Server C L × Reply MailboxRow) → Coherent env r.0 → Coherent env (as_found env r).0
      same_state (s, ok m) c = c
      same_state (s, fail e) c = c

  pub find-Coherent :
      (a : MailboxAddress) (s : Server C L) → Coherent env s → Coherent env (find env a s).0
  unfolding find
  find-Coherent a s c =
      let key = full_path a.owner a.folder in
      let seen = looked_up env key s c in
      elim (Option-cases (env.cache.lookup key s.cached).1) [
        | inr (m, e) ↦ rw (e, find) seen
        | inl e ↦ rw (e, find) (find_on_miss-Coherent a _ seen)
      ]

  pub retrieve_found-Coherent :
      (now : ℕ) (a : MailboxAddress) (caller : Text) (opts : RetrieveOpts) (s : Server C L)
      (r : Reply (Option MailboxRow))
      → Coherent env s
      → Coherent env (retrieve_found env now a caller opts (s, r)).0
  unfolding retrieve_found
  retrieve_found-Coherent now a caller opts s (fail e) c = c
  retrieve_found-Coherent now a caller opts s (ok none) c = elim (Bool-cases (caller =ᵗ a.owner)) [
    | inl e ↦ rw (e, retrieve_found) c
    | inr e ↦ rw (e, retrieve_found) c
  ]
  retrieve_found-Coherent now a caller opts s (ok (some m)) c =
      grown env s _ c (retrieve_from-Grows env.library now m caller opts s.db c.tables)

  pub claim_found-Coherent :
      (now : ℕ) (s : Server C L) (r : Reply (Option MailboxRow))
      → Coherent env s
      → Coherent env (claim_found env now (s, r)).0
  unfolding claim_found
  claim_found-Coherent now s (fail e) c = c
  claim_found-Coherent now s (ok none) c = c
  claim_found-Coherent now s (ok (some m)) c =
      let tables : WellFormed (claim_message now m.id s.db).0 =
        unfold step in step-WellFormed now (claim_one m.id) s.db c.tables in
      let kept = grown env s _ c (tables, claim-Extends now m.id s.db) in
      elim (Bool-cases (is_claim env m.mailbox_type)) [
        | inr e ↦ rw (e, claim_found) c
        | inl e ↦ elim (Bool-cases (env.allow now m.id s.claims).1) [
          | inl k ↦
              rw (e, claim_found) (rw k (record { tables = kept.tables; agrees = kept.agrees }))
          | inr k ↦ rw (e, claim_found) (rw k (record { tables = c.tables; agrees = c.agrees }))
        ]
      ]
