-- ===== src/Delivery/Coherence/Run.antt =====
-- Any history of the delivery agent.
use go_ricochet.Base.{
  ℕ, ◌≡◌, sym, ◌∙◌, inl, inr, Option, none, some, List, [], ◌∷◌, arith, Option-cases, Text, ℤ,
}
use go_ricochet.Wire.{Message}
use go_ricochet.Store.Rows.{empty}
use go_ricochet.Store.Mailboxes.{
  find_mailbox, update_mailbox, delete_mailbox, delete_expired_messages, enforce_all_retention,
  reconcile_message_counts,
}
use go_ricochet.Store.Invariant.{WellFormed}
use go_ricochet.Store.Invariant.Run.{
  configure, drop_box, retain_all, sweep_expired, reconcile, step, step-WellFormed,
  empty-WellFormed,
}
use go_ricochet.Mailboxes.Page.{RetrieveOpts}
use go_ricochet.Delivery.Address.{MailboxAddress}
use go_ricochet.Delivery.Settings.{clamp_mailbox_settings}
use go_ricochet.Delivery.SameSettings.{
  Extends-trans, delete_expired-Extends, enforce_all-Extends, reconcile-Extends,
  delete_mailbox-others, update_mailbox-others, find_mailbox-address,
}
use go_ricochet.Delivery.{
  Setup, Server, deliver_local, find, retrieve, claim, delete, update, update_config,
  perform_maintenance, create_mailbox,
}
use go_ricochet.Delivery.Coherence.{Coherent, grown, dropped, found_path}
use go_ricochet.Delivery.Coherence.Creates.{get_or_create-Coherent, deliver_local-Coherent}
use go_ricochet.Delivery.Coherence.Reads.{
  find-Coherent, retrieve_found-Coherent, claim_found-Coherent,
}

module _ {C L : Type 0} (env : Setup C L) where
  pub delete-Coherent :
      (a : MailboxAddress) (s : Server C L) → Coherent env s → Coherent env (delete env a s).0
  unfolding delete
  delete-Coherent a s c = elim (Option-cases (find_mailbox a.owner a.folder s.db)) [
    | inl e ↦ rw (e, delete) c
    | inr (m, e) ↦
        let address = find_mailbox-address a.owner a.folder s.db m e in
        let w : WellFormed (delete_mailbox m.id s.db) =
          unfold step in step-WellFormed 0 (drop_box m.id) s.db c.tables in
        let kept =
          dropped env m _ s c w (λ i ne. delete_mailbox-others m.id i s.db ne)
            (found_path env a.owner a.folder m s c e) in
        rw (e, delete) (rw (address.0, address.1) at kept)
  ]

  pub update_config-Coherent :
      (caller folder : Text) (most days count : Option ℤ) (s : Server C L)
      → Coherent env s
      → Coherent env (update_config env caller folder most days count s).0
  unfolding update_config update
  update_config-Coherent caller folder most days count s c =
      elim (Option-cases (find_mailbox caller folder s.db)) [
        | inl e ↦ rw (e, update_config) c
        | inr (m, e) ↦
            elim (Option-cases (
              clamp_mailbox_settings env.defaults most days count m.max_messages m.retention_days
                m.retention_count)) [
                  | inl k ↦ rw (e, update_config) (rw k c)
                  | inr ((new_most, new_days, new_count), k) ↦
                      let n = record m {
                        max_messages = new_most;
                        retention_days = new_days;
                        retention_count = new_count;
                      } in
                      let w : WellFormed (update_mailbox n s.db) =
                        unfold step in step-WellFormed 0 (configure n) s.db c.tables in
                      rw (e, update_config)
                        (rw k (
                          dropped env n _ s c w (λ i ne. update_mailbox-others n i s.db ne)
                            (found_path env caller folder m s c e)))
                ]
      ]

  pub perform_maintenance-Coherent :
      (now : ℕ) (s : Server C L) → Coherent env s → Coherent env (perform_maintenance env now s)
  unfolding perform_maintenance
  perform_maintenance-Coherent now s c =
      let a = (delete_expired_messages now s.db).0 in
      let b = (enforce_all_retention now a).0 in
      let wa : WellFormed a = unfold step in step-WellFormed now sweep_expired s.db c.tables in
      let wb : WellFormed b = unfold step in step-WellFormed now retain_all a wa in
      let wc : WellFormed (reconcile_message_counts b).0 =
        unfold step in step-WellFormed now reconcile b wb in
      grown env s _ c (
        wc,
        Extends-trans s.db a _ (delete_expired-Extends now s.db)
            (Extends-trans a b _ (enforce_all-Extends now a) (reconcile-Extends b)),
      )

-- The calls of the delivery agent, each with its arguments.
pub data Call : Type 0 where
  to_deliver : Message → Call
  to_create : MailboxAddress → ℤ → ℤ → Option ℕ → Call
  to_retrieve : MailboxAddress → Text → RetrieveOpts → Call
  to_claim : MailboxAddress → Call
  to_delete : MailboxAddress → Call
  to_configure : Text → Text → Option ℤ → Option ℤ → Option ℤ → Call
  to_maintain : Call

module _ {C L : Type 0} (env : Setup C L) where
  unfoldable pub after_call : ℕ → Call → Server C L → Server C L
  after_call now (to_deliver msg) s = (deliver_local env now msg s).0
  after_call now (to_create a most days count) s = (create_mailbox env a most days count s).0
  after_call now (to_retrieve a caller opts) s = (retrieve env now a caller opts s).0
  after_call now (to_claim a) s = (claim env now a s).0
  after_call now (to_delete a) s = (delete env a s).0
  after_call now (to_configure caller folder most days count) s =
      (update_config env caller folder most days count s).0
  after_call now to_maintain s = perform_maintenance env now s

  unfoldable pub after_calls : List (ℕ × Call) → Server C L → Server C L
  after_calls [] s = s
  after_calls ((now, call) ∷ calls) s = after_calls calls (after_call now call s)

  after_call-Coherent :
      (now : ℕ) (call : Call) (s : Server C L)
      → Coherent env s
      → Coherent env (after_call now call s)
  unfolding after_call create_mailbox retrieve claim
  after_call-Coherent now (to_deliver msg) s c = deliver_local-Coherent env now msg s c
  after_call-Coherent now (to_create a most days count) s c =
      get_or_create-Coherent env a most days count s c
  after_call-Coherent now (to_retrieve a caller opts) s c =
      let found = find env a s in
      retrieve_found-Coherent env now a caller opts found.0 found.1 (find-Coherent env a s c)
  after_call-Coherent now (to_claim a) s c =
      let found = find env a s in
      claim_found-Coherent env now found.0 found.1 (find-Coherent env a s c)
  after_call-Coherent now (to_delete a) s c = delete-Coherent env a s c
  after_call-Coherent now (to_configure caller folder most days count) s c =
      update_config-Coherent env caller folder most days count s c
  after_call-Coherent now to_maintain s c = perform_maintenance-Coherent env now s c

  after_calls-keeps :
      (calls : List (ℕ × Call)) (s : Server C L)
      → Coherent env s
      → Coherent env (after_calls calls s)
  unfolding after_calls
  after_calls-keeps [] s c = c
  after_calls-keeps ((now, call) ∷ calls) s c =
      after_calls-keeps calls (after_call now call s) (after_call-Coherent now call s c)

  -- After any sequence of deliveries, creations, reads, claims, deletions, changes of settings and
  -- maintenance, from empty tables and a cache that holds nothing: the tables are well formed, and
  -- each cached mailbox stands under its own address and has the type, the address and the settings
  -- of the stored mailbox with its ID.
  pub after_calls-Coherent :
      (calls : List (ℕ × Call)) (cached : C) (claims : L)
      → ((k : Text) → env.cache.peek k cached ≡ none)
      → Coherent env (after_calls calls (record { db = empty; cached = cached; claims = claims }))
  after_calls-Coherent calls cached claims h = after_calls-keeps calls _ (record {
    tables = empty-WellFormed;
    agrees = λ k r e. let nothing : none ≡ some r = sym (h k) ∙ e in absurd (ground arith);
  })
