-- ===== src/Router/Accepts.antt =====
-- What an accepted submission has passed.
use mathlib.Core.Option.{some-injective}
use go_ricochet.Base.{
  ℕ, ◌≤◌, ◌≡◌, refl, sym, ap, ◌∙◌, subst, inl, inr, true, false, some, arith, Bool-cases,
  Option-cases, length, Text, text_eq→eq, pos, ◌≤ℤ◌, ltb_ℤ, suc_ℤ,
}
use go_ricochet.Wire.{
  Message, max_hop_count, max_payload_size, flag_forwarded, with_flag, is_expired,
  with_incremented_hop_count,
}
use go_ricochet.Mailboxes.{Reply, ok, fail}
use go_ricochet.Delivery.{deliver_local}
use go_ricochet.Router.{
  accepted, refused, contains, validate_forwarded, validate_message, Router, Node, check_rate_limit,
  deliver, accept_message, forwarded_copy, accept_copy, accept_decoded, accept_forwarded,
}

-- What both kinds of submission pass.
abbrev pub IsValid : ℕ → Message → Type 0
IsValid now msg =
    (is_expired now msg ≡ false)
    × (msg.hop_count ≤ℤ pos max_hop_count)
    × (length msg.payload ≤ max_payload_size)

-- The message as a forwarder passes it on: all of it, with one more hop and the bit of a forwarded
-- one set.
abbrev pub one_hop_on : Message → Message
one_hop_on msg = record msg {
  hop_count = suc_ℤ msg.hop_count;
  flags = with_flag (with_flag msg.flags flag_forwarded) flag_forwarded;
}

pub copy-one_hop_on :
    {C L R : Type 0} (router : Router C L R) (msg copy : Message)
    → forwarded_copy router msg ≡ some copy
    → (copy ≡ one_hop_on msg) × (msg.hop_count ≤ℤ pos 9)
unfolding forwarded_copy with_incremented_hop_count
copy-one_hop_on router msg copy e = elim (Bool-cases (ltb_ℤ msg.hop_count (pos max_hop_count))) [
  | inl fits ↦
      let made : forwarded_copy router msg ≡ some (one_hop_on msg) =
        rw (fits, forwarded_copy, with_incremented_hop_count) refl in
      (some-injective _ _ (sym e ∙ made), ground arith)
  | inr spent ↦ absurd (ground arith)
]

validate_forwarded-IsValid :
    (now : ℕ) (msg : Message) → validate_forwarded now msg ≡ true → IsValid now msg
unfolding validate_forwarded
validate_forwarded-IsValid now msg e = (ground arith, ground arith, ground arith)

validate_message-IsValid :
    (now : ℕ) (msg : Message) (sender : Text)
    → validate_message now msg sender ≡ true
    → (msg.sender ≡ sender) × IsValid now msg
unfolding validate_message
validate_message-IsValid now msg sender e =
    (text_eq→eq msg.sender sender (ground arith), (ground arith, ground arith, ground arith))

module _ {C L R : Type 0} (router : Router C L R) (now : ℕ) where
  -- A message was stored for its recipient by the delivery agent in the state it stood in.
  abbrev pub IsDelivered : Message → Node C L R → Node C L R → Type 0
  IsDelivered msg s after =
      (n : ℕ) × ((deliver_local router.mda now msg s.server).1 ≡ ok n)
      × (after.server ≡ (deliver_local router.mda now msg s.server).0)

  delivered :
      (msg : Message) (id : Text) (s : Node C L R)
      → (deliver router now msg s).1 ≡ accepted id
      → IsDelivered msg s (deliver router now msg s).0 × (id ≡ msg.message_id)
  unfolding deliver
  delivered msg id s e = by_reply (deliver_local router.mda now msg s.server).1 refl
    where
      by_reply :
          (r : Reply ℕ)
          → (deliver_local router.mda now msg s.server).1 ≡ r
          → IsDelivered msg s (deliver router now msg s).0 × (id ≡ msg.message_id)
      by_reply (ok n) k =
          let same : accepted msg.message_id ≡ accepted id = rw (k, deliver) at e in
          ((n, k, refl), cc)
      by_reply (fail x) k =
          let same : refused _ ≡ accepted id = rw (k, deliver) at e in absurd (ground arith)

  -- A submission that is accepted came from its sender, has not expired, has at most 10 hops and a
  -- payload within the limit, was allowed by the limiter, and was delivered; the ID that is returned
  -- is the message's.
  pub accept_message-IsDelivered :
      (msg : Message) (sender id : Text) (s : Node C L R)
      → (accept_message router now msg sender s).1 ≡ accepted id
      → (msg.sender ≡ sender)
        × IsValid now msg
        × ((check_rate_limit router sender s.limits).1 ≡ true)
        × IsDelivered msg s (accept_message router now msg sender s).0
        × (id ≡ msg.message_id)
  unfolding accept_message
  accept_message-IsDelivered msg sender id s e =
      elim (Bool-cases (validate_message now msg sender)) [
        | inr k ↦ absurd (ground arith)
        | inl k ↦ elim (Bool-cases (check_rate_limit router sender s.limits).1) [
          | inr over ↦ absurd (ground arith)
          | inl allowed ↦
              let s' = record s { limits = (check_rate_limit router sender s.limits).0 } in
              let made : (deliver router now msg s').1 ≡ accepted id =
                rw (k, accept_message) at (rw (allowed, accept_message) at e) in
              let v = validate_message-IsValid now msg sender k in
              let d = delivered msg id s' made in
              (v.0, v.1, allowed, rw (k, accept_message) (rw allowed d.0), d.1)
        ]
      ]

  accept_copy-IsDelivered :
      (copy : Message) (forwarder id : Text) (s : Node C L R)
      → (accept_copy router now copy forwarder s).1 ≡ accepted id
      → IsValid now copy
        × ((check_rate_limit router forwarder s.limits).1 ≡ true)
        × IsDelivered copy s (accept_copy router now copy forwarder s).0
        × (id ≡ copy.message_id)
  unfolding accept_copy
  accept_copy-IsDelivered copy forwarder id s e =
      elim (Bool-cases (check_rate_limit router forwarder s.limits).1) [
        | inr over ↦ absurd (ground arith)
        | inl allowed ↦ elim (Bool-cases (validate_forwarded now copy)) [
          | inr k ↦ absurd (ground arith)
          | inl k ↦
              let s' = record s { limits = (check_rate_limit router forwarder s.limits).0 } in
              let made : (deliver router now copy s').1 ≡ accepted id =
                rw (k, accept_copy) at (rw (allowed, accept_copy) at e) in
              let d = delivered copy id s' made in
              (
                validate_forwarded-IsValid now copy k,
                allowed,
                rw (allowed, accept_copy) (rw k d.0),
                d.1,
              )
        ]
      ]

  -- A forwarded submission that is accepted was made with forwarding on, by a trusted forwarder that
  -- the limiter allowed; what was delivered is the message with one more hop and marked as forwarded,
  -- all else in it unchanged, and as such it has not expired and has at most 10 hops and a payload
  -- within the limit; the ID that is returned is the message's.
  pub accept_forwarded-IsDelivered :
      (msg : Message) (forwarder id : Text) (s : Node C L R)
      → (accept_forwarded router now msg forwarder s).1 ≡ accepted id
      → (router.forwarding ≡ true)
        × (contains router.forwarders forwarder ≡ true)
        × ((check_rate_limit router forwarder s.limits).1 ≡ true)
        × IsValid now (one_hop_on msg)
        × IsDelivered (one_hop_on msg) s (accept_forwarded router now msg forwarder s).0
        × (id ≡ msg.message_id)
  unfolding accept_forwarded accept_decoded
  accept_forwarded-IsDelivered msg forwarder id s e = elim (Bool-cases router.forwarding) [
    | inr off ↦ absurd (ground arith)
    | inl on ↦ elim (Bool-cases (contains router.forwarders forwarder)) [
      | inr stranger ↦ absurd (ground arith)
      | inl trusted ↦ elim (Option-cases (router.mda.library.peer_decode msg.sender)) [
        | inl bad ↦ absurd (ground arith)
        | inr (sender, good) ↦ elim (Option-cases (forwarded_copy router msg)) [
          | inl spent ↦ absurd (ground arith)
          | inr (copy, made) ↦
              let same : accept_forwarded router now msg forwarder s
                  ≡ accept_copy router now copy forwarder s =
                ground arith in
              let d = accept_copy-IsDelivered copy forwarder id s (rw same at e) in
              let is_copy = (copy-one_hop_on router msg copy made).0 in
              (
                on,
                trusted,
                d.1,
                subst (IsValid now) is_copy d.0,
                subst (λ c. IsDelivered c s (accept_forwarded router now msg forwarder s).0) is_copy
                    (rw same d.2),
                d.3 ∙ ap (λ c. c.message_id) is_copy,
              )
        ]
      ]
    ]
  ]
