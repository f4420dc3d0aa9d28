-- ===== src/Router.antt =====
-- internal/mta/router.go and the peer set of internal/trust/trust.go: the transfer agent, which
-- validates a submission before the delivery agent stores it.
pub mod Accepts
pub mod Hops
mod Tests
use go_ricochet.Base.{
  ℕ, zero, suc, ◌+◌, ◌-◌, ◌*◌, ◌/◌, ◌%◌, ◌^◌, ◌≤◌, ◌<◌, min, max, ◌≡◌, refl, sym, ap, ◌∙◌, subst,
  ◌≢◌, ◌↔◌, ◌⊎◌, inl, inr, Bool, true, false, not, ◌&&◌, ◌||◌, Option, none, some, List, [], ◌∷◌,
  ◌++◌, map, append-nil, append_assoc, arith, ltb, leb, ◌==◌, if◌then◌else◌, ltb→lt, lt→ltb, leb→le,
  ==_iff, eqb_refl, Bool-cases, ◌>>=◌, Option-cases, length, take, drop, keep, find_first, any_of,
  sum_by, All, length-append, sum_by-append, length-take, length-drop, take-append-drop,
  take-length_append, drop-length_append, take_all, sum_by-keep-not, All-keep, All-append, All-find,
  All-imp, All-map, AllPairs, AllPairs-keep, AllPairs-snoc, AllPairs-map, All-take, AllPairs-take,
  Text, codes, ◌=ᵗ◌, text_eq_refl, text_eq→eq, mem_text, ℤ, pos, negsuc, pos_part, neg_part, ◌≤ℤ◌,
  ltb_ℤ, is_positive, is_zero, suc_ℤ, suc_ℤ_parts,
}
use go_ricochet.Wire.{
  Message, max_hop_count, max_payload_size, flag_forwarded, with_flag, is_expired,
  with_incremented_hop_count,
}
use go_ricochet.Mailboxes.{MailboxError, Reply, ok, fail}
use go_ricochet.Delivery.{Setup, Server, deliver_local}

-- `RateLimitError`, `ValidationError`, `ForwardingRefusedError`, or what delivery failed with.
pub data RouterError : Type 0 where
  rate_limited : RouterError
  invalid : RouterError
  forwarding_refused : RouterError
  not_delivered : MailboxError → RouterError

pub data Outcome : Type 0 where
  accepted : Text → Outcome
  refused : RouterError → Outcome

-- `Peers.Contains`; a nil set trusts nobody.
unfoldable pub contains : Option (List Text) → Text → Bool
contains none peer = false
contains (some peers) peer = mem_text peer peers

-- `trust.Parse`: none where an entry is malformed.
unfoldable pub parse_peers : (Text → Option Text) → List Text → Option (List Text)
parse_peers decode [] = some []
parse_peers decode (s ∷ ss) = do peer ← decode s; peers ← parse_peers decode ss; some (peer ∷ peers)

-- `Gater.InterceptSecured`
unfoldable pub intercept_secured : Option (List Text) → Bool → Text → Bool
intercept_secured peers inbound peer = not inbound || contains peers peer

-- `validateForwarded`, and `validateMessage` for a caller: true where there is no error.
unfoldable pub validate_forwarded : ℕ → Message → Bool
validate_forwarded now msg =
    if is_expired now msg
    then false
    else if ltb_ℤ (pos max_hop_count) msg.hop_count
    then false
    else not (ltb max_payload_size (length msg.payload))

unfoldable pub validate_message : ℕ → Message → Text → Bool
validate_message now msg sender =
    if not (msg.sender =ᵗ sender)
    then false
    else if is_expired now msg
    then false
    else if ltb_ℤ (pos max_hop_count) msg.hop_count
    then false
    else not (ltb max_payload_size (length msg.payload))

-- The router's settings; `limiter` is the request limiter, absent where limiting is off.
pub record Router (C L R : Type 0) : Type 0 where
  pub mda : Setup C L
  pub limiter : Option (Text → R → R × Bool)
  pub forwarding : Bool
  pub forwarders : Option (List Text)

pub record Node (C L R : Type 0) : Type 0 where
  pub server : Server C L
  pub limits : R

module _ {C L R : Type 0} (router : Router C L R) where
  -- `checkRateLimit`
  unfoldable pub check_rate_limit : Text → R → R × Bool
  check_rate_limit peer limits = elim router.limiter [
    | none ↦ (limits, true)
    | some allow ↦ allow peer limits
  ]

  abbrev pub outcome_of : Text → Reply ℕ → Outcome
  outcome_of id (ok n) = accepted id
  outcome_of id (fail e) = refused (not_delivered e)

  -- The delivery to the local mailbox server.
  unfoldable pub deliver : ℕ → Message → Node C L R → Node C L R × Outcome
  deliver now msg s =
      let (server', reply) = deliver_local router.mda now msg s.server in
      (record s { server = server' }, outcome_of msg.message_id reply)

  -- `AcceptMessage`
  unfoldable pub accept_message : ℕ → Message → Text → Node C L R → Node C L R × Outcome
  accept_message now msg sender s =
      if not (validate_message now msg sender)
      then (s, refused invalid)
      else let (limits', allowed) = check_rate_limit sender s.limits in
        let s' = record s { limits = limits' } in
        if not allowed then (s', refused rate_limited) else deliver now msg s'

  -- The copy that `AcceptForwarded` stores: one hop further, and marked.
  unfoldable pub forwarded_copy : Message → Option Message
  forwarded_copy msg = do
    hop ← with_incremented_hop_count msg
    some (record hop { flags = with_flag hop.flags flag_forwarded })

  unfoldable pub accept_copy : ℕ → Message → Text → Node C L R → Node C L R × Outcome
  accept_copy now copy forwarder s =
      let (limits', allowed) = check_rate_limit forwarder s.limits in
      let s' = record s { limits = limits' } in
      if not allowed
      then (s', refused rate_limited)
      else if not (validate_forwarded now copy)
      then (s', refused invalid)
      else deliver now copy s'

  unfoldable pub accept_decoded : ℕ → Message → Text → Node C L R → Node C L R × Outcome
  accept_decoded now msg forwarder s = elim (forwarded_copy msg) [
    | none ↦ (s, refused invalid)
    | some copy ↦ accept_copy now copy forwarder s
  ]

  -- `AcceptForwarded`
  unfoldable pub accept_forwarded : ℕ → Message → Text → Node C L R → Node C L R × Outcome
  accept_forwarded now msg forwarder s =
      if not router.forwarding
      then (s, refused forwarding_refused)
      else if not (contains router.forwarders forwarder)
      then (s, refused forwarding_refused)
      else elim (router.mda.library.peer_decode msg.sender) [
        | none ↦ (s, refused invalid)
        | some sender ↦ accept_decoded now msg forwarder s
      ]
