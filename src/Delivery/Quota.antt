-- ===== src/Delivery/Quota.antt =====
-- The mailbox quotas of the delivery agent, with several creations on their way at once.
use go_ricochet.Base.{
  ℕ, suc, ◌+◌, ◌-◌, ◌≤◌, ◌≡◌, refl, ◌⊎◌, inl, inr, true, false, Option, none, List, [], ◌∷◌, ◌++◌,
  arith, if◌then◌else◌, Bool-cases, Option-cases, length, keep, sum_by, length-append,
  sum_by-append, Text, ◌=ᵗ◌, text_eq→eq, ℤ, pos_part, is_positive,
}
use go_ricochet.Store.Rows.{MailboxRow, Db}
use go_ricochet.Store.Mailboxes.{find_mailbox, new_mailbox, get_or_create_mailbox, count_mailboxes}
use go_ricochet.Mailboxes.{Reply, ok, fail}
use go_ricochet.Delivery.Address.{MailboxAddress, full_path}
use go_ricochet.Delivery.{
  Setup, Server, wrap_record, check_mailbox_quota, cache_loaded, load_or_create,
}

-- A mailbox to be made, with its cap and its retention.
pub record Creation : Type 0 where
  pub address : MailboxAddress
  pub cap : ℤ
  pub days : ℤ
  pub count : Option ℕ

-- A configured count, which binds where it is positive, is exceeded by at most `over`.
abbrev pub Within : ℤ → ℕ → ℕ → Type 0
Within bound over n = (is_positive bound ≡ false) ⊎ (n ≤ pos_part bound + over)

-- How many of the creations are the owner's.
abbrev pub of_owner : Text → List Creation → ℕ
of_owner owner = sum_by (λ c. if c.address.owner =ᵗ owner then 1 else 0)

module _ {C L : Type 0} (env : Setup C L) where
  -- The second half of `getOrCreateMailbox`, at the state it then finds.
  abbrev pub landed : Creation → Server C L → Server C L
  landed c s = (load_or_create env c.address c.cap c.days c.count s).0

  abbrev pub MakesNone : Text → Server C L → Server C L → Type 0
  MakesNone owner s t =
      ((count_mailboxes owner t.db).0 ≤ (count_mailboxes owner s.db).0)
      × ((count_mailboxes owner t.db).1 ≤ (count_mailboxes owner s.db).1)

  -- Creations of mailboxes, each in two steps between which anything may come that makes no other
  -- mailbox: one that finds no mailbox and passes the quota check is on its way, as one of at most
  -- `most`; one that is on its way lands, in any order. A call that found its mailbox only loads it.
  pub data Racing (most : ℕ) (start : Server C L) : Server C L → List Creation → Type 0 where
    none_yet : Racing most start start []
    pass :
        (s : Server C L) (cs : List Creation) (c : Creation)
        → Racing most start s cs
        → find_mailbox c.address.owner c.address.folder s.db ≡ none
        → check_mailbox_quota env c.address.owner s.db ≡ none
        → suc (length cs) ≤ most
        → Racing most start s (c ∷ cs)
    other :
        (s t : Server C L) (cs : List Creation)
        → Racing most start s cs
        → ((owner : Text) → MakesNone owner s t)
        → Racing most start t cs
    land :
        (s : Server C L) (before after : List Creation) (c : Creation)
        → Racing most start s (before ++ c ∷ after)
        → Racing most start (landed c s) (before ++ after)

  cache_loaded-db :
      (key : Text) (s : Server C L) (r : Reply MailboxRow) → (cache_loaded env key s r).0.db ≡ s.db
  cache_loaded-db key s (ok m) = refl
  cache_loaded-db key s (fail e) = refl

  load_or_create-db :
      (a : MailboxAddress) (most days : ℤ) (count : Option ℕ) (s : Server C L)
      → (load_or_create env a most days count s).0.db
        ≡ (get_or_create_mailbox a.owner a.folder a.mailbox_type most days count s.db).0
  unfolding load_or_create
  load_or_create-db a most days count s =
      cache_loaded-db (full_path a.owner a.folder) _
        (wrap_record (get_or_create_mailbox a.owner a.folder a.mailbox_type most days count s.db).1)

  quota-room :
      (owner : Text) (db : Db)
      → check_mailbox_quota env owner db ≡ none
      → (is_positive env.defaults.max_per_owner ≡ true
          → (count_mailboxes owner db).0 + 1 ≤ pos_part env.defaults.max_per_owner)
        × (is_positive env.defaults.max_mailboxes ≡ true
            → (count_mailboxes owner db).1 + 1 ≤ pos_part env.defaults.max_mailboxes)
  unfolding check_mailbox_quota
  quota-room owner db e = (λ h. ground arith, λ h. ground arith)

  keep-snoc :
      (owner : Text) (ms : List MailboxRow) (m : MailboxRow)
      → length (keep (λ x. x.owner =ᵗ owner) (ms ++ m ∷ []))
        ≡ length (keep (λ x. x.owner =ᵗ owner) ms) + (if m.owner =ᵗ owner then 1 else 0)
  keep-snoc owner [] m = ground arith
  keep-snoc owner (x ∷ xs) m = ground (arith, keep-snoc owner xs m)

  landed-count :
      (owner : Text) (c : Creation) (s : Server C L)
      → ((count_mailboxes owner (landed c s).db).0
          ≤ (count_mailboxes owner s.db).0 + (if c.address.owner =ᵗ owner then 1 else 0))
        × ((count_mailboxes owner (landed c s).db).1 ≤ (count_mailboxes owner s.db).1 + 1)
  unfolding get_or_create_mailbox count_mailboxes
  landed-count owner c s =
      let a = c.address in
      let m = new_mailbox s.db.next_mailbox a.owner a.folder a.mailbox_type c.cap c.days c.count in
      rw (load_or_create-db a c.cap c.days c.count s)
        (elim (Option-cases (find_mailbox a.owner a.folder s.db)) [
          | inr (x, e) ↦ rw (e, get_or_create_mailbox) (omega arith, omega arith)
          | inl e ↦
              rw (e, get_or_create_mailbox)
                (
                  omega (arith, keep-snoc owner s.db.mailboxes m),
                  omega (arith, length-append s.db.mailboxes (m ∷ [])),
                )
        ])

  of_owner-length : (owner : Text) (cs : List Creation) → of_owner owner cs ≤ length cs
  of_owner-length owner [] = omega arith
  of_owner-length owner (c ∷ cs) = ground (arith, of_owner-length owner cs)

  -- The owner's mailboxes and the creations of them that are on their way.
  owner_sum :
      (owner : Text) (most : ℕ) (start s : Server C L) (cs : List Creation)
      → is_positive env.defaults.max_per_owner ≡ true
      → (count_mailboxes owner start.db).0 ≤ pos_part env.defaults.max_per_owner
      → Racing most start s cs
      → (count_mailboxes owner s.db).0 + of_owner owner cs
        ≤ pos_part env.defaults.max_per_owner + (most - 1)
  owner_sum owner most start s cs on h none_yet = omega (arith, h)
  owner_sum owner most start s cs on h (pass _ ds c r unmade fits few) =
      let ih = owner_sum owner most start s ds on h r in
      elim (Bool-cases (c.address.owner =ᵗ owner)) [
        | inr foreign ↦ rw foreign (omega (arith, ih))
        | inl mine ↦
            let same = text_eq→eq c.address.owner owner mine in
            let room = (quota-room owner s.db (rw same at fits)).0 on in
            rw mine (omega (arith, room, few, of_owner-length owner ds))
      ]
  owner_sum owner most start s cs on h (other before _ _ r less) =
      omega (arith, owner_sum owner most start before cs on h r, (less owner).0)
  owner_sum owner most start s cs on h (land before_s before after c r) =
      let ih = owner_sum owner most start before_s (before ++ c ∷ after) on h r in
      let count = (landed-count owner c before_s).0 in
      let f = λ (d : Creation). if d.address.owner =ᵗ owner then 1 else 0 in
      let one = sum_by-append f before (c ∷ after) in
      let two = sum_by-append f before after in omega (arith, ih, count, one, two)

  total_sum :
      (owner : Text) (most : ℕ) (start s : Server C L) (cs : List Creation)
      → is_positive env.defaults.max_mailboxes ≡ true
      → (count_mailboxes owner start.db).1 ≤ pos_part env.defaults.max_mailboxes
      → Racing most start s cs
      → (count_mailboxes owner s.db).1 + length cs
        ≤ pos_part env.defaults.max_mailboxes + (most - 1)
  total_sum owner most start s cs on h none_yet = omega (arith, h)
  total_sum owner most start s cs on h (pass _ ds c r unmade fits few) =
      let room = (quota-room c.address.owner s.db fits).1 on in
      unfold count_mailboxes in omega (arith, room, few)
  total_sum owner most start s cs on h (other before _ _ r less) =
      omega (arith, total_sum owner most start before cs on h r, (less owner).1)
  total_sum owner most start s cs on h (land before_s before after c r) =
      let ih = total_sum owner most start before_s (before ++ c ∷ after) on h r in
      let count = (landed-count owner c before_s).1 in
      omega (arith, ih, count, length-append before (c ∷ after), length-append before after)

  -- Where every mailbox is made by a creation that passed the quota check, and at most `most` creations
  -- at once are between that check and their insertion: the number of an owner's mailboxes and the
  -- number of all mailboxes, where they were within their quotas at the start, exceed them by at most
  -- `most` - 1: not at all where creations come one at a time, and by at most one where two come at
  -- once. A quota of 0 or less does not bind.
  pub creations-quota :
      (owner : Text) (most : ℕ) (start s : Server C L) (cs : List Creation)
      → Racing most start s cs
      → Within env.defaults.max_per_owner 0 (count_mailboxes owner start.db).0
      → Within env.defaults.max_mailboxes 0 (count_mailboxes owner start.db).1
      → Within env.defaults.max_per_owner (most - 1) (count_mailboxes owner s.db).0
        × Within env.defaults.max_mailboxes (most - 1) (count_mailboxes owner s.db).1
  creations-quota owner most start s cs r per_owner total = (by_owner per_owner, by_total total)
    where
      by_owner :
          Within env.defaults.max_per_owner 0 (count_mailboxes owner start.db).0
          → Within env.defaults.max_per_owner (most - 1) (count_mailboxes owner s.db).0
      by_owner (inl off) = inl off
      by_owner (inr h) = elim (Bool-cases (is_positive env.defaults.max_per_owner)) [
        | inl on ↦ inr (omega (arith, owner_sum owner most start s cs on (omega (arith, h)) r))
        | inr off ↦ inl off
      ]

      by_total :
          Within env.defaults.max_mailboxes 0 (count_mailboxes owner start.db).1
          → Within env.defaults.max_mailboxes (most - 1) (count_mailboxes owner s.db).1
      by_total (inl off) = inl off
      by_total (inr h) = elim (Bool-cases (is_positive env.defaults.max_mailboxes)) [
        | inl on ↦ inr (omega (arith, total_sum owner most start s cs on (omega (arith, h)) r))
        | inr off ↦ inl off
      ]
