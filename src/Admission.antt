-- ===== src/Admission.antt =====
-- Admission control, internal/admission/controller.go: any number of requests, each between two
-- accesses of the shared state, interleaved in any order.
pub mod Entries
pub mod Invariant
pub mod Bounds
pub mod Progress
pub mod Drains
mod Tests
use go_ricochet.Base.{
  ℕ, zero, suc, ◌+◌, ◌-◌, ◌*◌, ◌/◌, ◌%◌, ◌^◌, ◌≤◌, ◌<◌, min, max, ◌≡◌, refl, sym, ap, ◌∙◌, subst,
  ◌≢◌, ◌↔◌, ◌⊎◌, inl, inr, Bool, true, false, not, ◌&&◌, ◌||◌, Option, none, some, List, [], ◌∷◌,
  ◌++◌, map, append-nil, append_assoc, arith, ltb, leb, ◌==◌, if◌then◌else◌, ltb→lt, lt→ltb, leb→le,
  ==_iff, eqb_refl, Bool-cases, ◌>>=◌, Option-cases, length, take, drop, keep, find_first, any_of,
  sum_by, All, length-append, sum_by-append, length-take, length-drop, take-append-drop,
  take-length_append, drop-length_append, take_all, sum_by-keep-not, All-keep, All-append, All-find,
  All-imp, All-map, AllPairs, AllPairs-keep, AllPairs-snoc, AllPairs-map, All-take, AllPairs-take,
  Text, codes, ◌=ᵗ◌, text_eq_refl, text_eq→eq, mem_text, ℤ, pos, negsuc, pos_part, neg_part, ◌≤ℤ◌,
  ltb_ℤ, is_positive, is_zero,
}

-- The buffer sizes of the channels; a bound per peer that is not positive is off, and 0 here.
pub record Limits : Type 0 where
  pub max_in_flight : ℕ
  pub max_per_peer : ℕ

-- `peerSlots`: the tokens in the channel, and the references.
pub record PeerSlots : Type 0 where
  pub held : ℕ
  pub refs : ℕ

-- `Controller`: the tokens in `global`, the counters, and the entries of all shards.
pub record Controller : Type 0 where
  pub global : ℕ
  pub in_flight : ℕ
  pub admitted : ℕ
  pub shed : ℕ
  pub waited : ℕ
  pub peers : Text → Option PeerSlots

-- Where a request stands in `Acquire` or in the release function.
pub data Phase : Type 0 where
  arriving : Phase  -- at the test of maxPerPeer
  asking_peer : Phase  -- at the select on the peer's channel
  asking_global : Phase  -- at the first select on the global channel
  waiting_global : Phase  -- at the second one
  taken : Phase  -- before the counters
  running : Phase  -- the handler runs
  leaving_global : Phase  -- before the receive from the global channel
  leaving_slot : Phase  -- before the receive from the peer's channel
  leaving_peer : Phase  -- before `releasePeer`
  gone : Phase

abbrev pub at_peer : Text → (Option PeerSlots → Option PeerSlots) → Controller → Controller
at_peer key f c = record c { peers = λ k. if k =ᵗ key then f (c.peers k) else c.peers k }

-- `reservePeer`
abbrev pub reserve : Option PeerSlots → Option PeerSlots
reserve none = some (record { held = 0; refs = 1 })
reserve (some e) = some (record { held = e.held; refs = e.refs + 1 })

abbrev pub reserve_peer : Text → Controller → Controller
reserve_peer key c = at_peer key reserve c

-- `releasePeer`
abbrev pub forget : Option PeerSlots → Option PeerSlots
forget none = none
forget (some e) = if leb e.refs 1 then none else some (record { held = e.held; refs = e.refs - 1 })

abbrev pub release_peer : Text → Controller → Controller
release_peer key c = at_peer key forget c

-- A send to and a receive from the peer's channel.
abbrev pub send : Option PeerSlots → Option PeerSlots
send none = none
send (some e) = some (record { held = e.held + 1; refs = e.refs })

abbrev pub receive : Option PeerSlots → Option PeerSlots
receive none = none
receive (some e) = some (record { held = e.held - 1; refs = e.refs })

-- One access of the shared state by a request of the peer `key`: the steps of `Acquire` and of the
-- release function. A peer's channel is that of its entry, which stays while a request refers to it.
pub data Turn (lim : Limits) (c : Controller) (key : Text)
    : Phase → Controller → Phase → Type 0 where
  no_peer_bound : lim.max_per_peer ≡ 0 → Turn lim c key arriving c asking_global
  reserves : 0 < lim.max_per_peer → Turn lim c key arriving (reserve_peer key c) asking_peer
  takes_slot :
      (e : PeerSlots)
      → 0 < lim.max_per_peer
      → c.peers key ≡ some e
      → e.held < lim.max_per_peer
      → Turn lim c key asking_peer (at_peer key send c) asking_global
  takes_global :
      c.global < lim.max_in_flight
      → Turn lim c key asking_global (record c { global = c.global + 1 }) taken
  finds_full :
      lim.max_in_flight ≤ c.global
      → Turn lim c key asking_global (record c { waited = c.waited + 1 }) waiting_global
  takes_after_wait :
      c.global < lim.max_in_flight
      → Turn lim c key waiting_global (record c { global = c.global + 1 }) taken
  counts :
      Turn lim c key taken
        (record c { in_flight = c.in_flight + 1; admitted = c.admitted + 1 })
        running
  returns : Turn lim c key running (record c { in_flight = c.in_flight - 1 }) leaving_global
  frees_global : Turn lim c key leaving_global (record c { global = c.global - 1 }) leaving_slot
  no_slot : lim.max_per_peer ≡ 0 → Turn lim c key leaving_slot c gone
  frees_slot :
      0 < lim.max_per_peer → Turn lim c key leaving_slot (at_peer key receive c) leaving_peer
  forgets : 0 < lim.max_per_peer → Turn lim c key leaving_peer (release_peer key c) gone

-- The turns of a request whose time or whose context has run out.
pub data GivesUp (lim : Limits) (c : Controller) (key : Text)
    : Phase → Controller → Phase → Type 0 where
  peer_timeout :
      0 < lim.max_per_peer
      → GivesUp lim c key asking_peer (record (release_peer key c) { shed = c.shed + 1 }) gone
  peer_cancel : 0 < lim.max_per_peer → GivesUp lim c key asking_peer (release_peer key c) gone
  global_timeout : GivesUp lim c key waiting_global (record c { shed = c.shed + 1 }) leaving_slot
  global_cancel : GivesUp lim c key waiting_global c leaving_slot

pub record Request : Type 0 where
  pub key : Text
  pub phase : Phase

pub record System : Type 0 where
  pub requests : List Request
  pub controller : Controller

abbrev pub no_requests : System
no_requests = record {
  requests = [];
  controller = record {
    global = 0;
    in_flight = 0;
    admitted = 0;
    shed = 0;
    waited = 0;
    peers = λ k. none;
  };
}

-- One step of the server: a request arrives, or one of those there takes a turn or gives up.
pub data Step (lim : Limits) (s : System) : System → Type 0 where
  arrives :
      (key : Text)
      → Step lim s (record s { requests = record { key = key; phase = arriving } ∷ s.requests })
  moves :
      (xs ys : List Request) (key : Text) {p q : Phase} {c : Controller}
      → s.requests ≡ xs ++ record { key = key; phase = p } ∷ ys
      → Turn lim s.controller key p c q
      → Step lim s
          (record { requests = xs ++ record { key = key; phase = q } ∷ ys; controller = c })
  gives_up :
      (xs ys : List Request) (key : Text) {p q : Phase} {c : Controller}
      → s.requests ≡ xs ++ record { key = key; phase = p } ∷ ys
      → GivesUp lim s.controller key p c q
      → Step lim s
          (record { requests = xs ++ record { key = key; phase = q } ∷ ys; controller = c })

pub data Reach (lim : Limits) : System → Type 0 where
  start : Reach lim no_requests
  later : {s t : System} → Reach lim s → Step lim s t → Reach lim t

-- The turns alone: nobody arrives or gives up.
pub data Turns (lim : Limits) : System → System → Type 0 where
  here : {s : System} → Turns lim s s
  next :
      {s t : System} (xs ys : List Request) (key : Text) {p q : Phase} {c : Controller}
      → s.requests ≡ xs ++ record { key = key; phase = p } ∷ ys
      → Turn lim s.controller key p c q
      → Turns lim
          (record { requests = xs ++ record { key = key; phase = q } ∷ ys; controller = c })
          t
      → Turns lim s t

-- The hint of a request that is shed, by the timeout; nanoseconds.
abbrev pub min_retry_hint : ℕ
min_retry_hint = 50 * 1000000

abbrev pub max_retry_hint : ℕ
max_retry_hint = 1000 * 1000000

-- `retryHint`
unfoldable pub retry_hint : ℕ → ℕ
retry_hint timeout =
    let hint = timeout / 4 in
    if ltb hint min_retry_hint
    then min_retry_hint
    else if ltb max_retry_hint hint
    then max_retry_hint
    else hint

-- What a request holds of the global channel and of the count of requests in flight.
abbrev pub global_tokens : Phase → ℕ
global_tokens taken = 1
global_tokens running = 1
global_tokens leaving_global = 1
global_tokens _ = 0

abbrev pub in_flight_count : Phase → ℕ
in_flight_count running = 1
in_flight_count _ = 0

-- What it holds of its peer's channel and entry, where there is a bound per peer.
abbrev pub slot_tokens : Phase → ℕ
slot_tokens asking_global = 1
slot_tokens waiting_global = 1
slot_tokens taken = 1
slot_tokens running = 1
slot_tokens leaving_global = 1
slot_tokens leaving_slot = 1
slot_tokens _ = 0

abbrev pub entry_refs : Phase → ℕ
entry_refs arriving = 0
entry_refs gone = 0
entry_refs _ = 1

abbrev pub of_peer : Limits → Text → Text → ℕ → ℕ
of_peer lim k key n = if ltb 0 lim.max_per_peer && k =ᵗ key then n else 0
