-- ===== src/Admission/Progress.antt =====
-- Some request can take a turn while any is there.
use go_ricochet.Base.{
  ℕ, ◌<◌, ◌≡◌, refl, ap, ◌⊎◌, inl, inr, Bool, true, false, List, [], ◌∷◌, ◌++◌, arith, Bool-cases,
  All, Text,
}
use go_ricochet.Admission.{
  Limits, Controller, Phase, arriving, asking_peer, asking_global, waiting_global, taken, running,
  leaving_global, leaving_slot, leaving_peer, gone, at_peer, reserve_peer, release_peer, receive,
  Turn, no_peer_bound, reserves, takes_slot, takes_global, finds_full, takes_after_wait, counts,
  returns, frees_global, no_slot, frees_slot, forgets, Request, System, global_tokens, slot_tokens,
}
use go_ricochet.Admission.Invariant.{has_bound}
use go_ricochet.Admission.Bounds.{positive_or_zero}

-- How far a request is from its end.
abbrev pub distance : Phase → ℕ
distance arriving = 9
distance asking_peer = 8
distance asking_global = 7
distance waiting_global = 6
distance taken = 5
distance running = 4
distance leaving_global = 3
distance leaving_slot = 2
distance leaving_peer = 1
distance gone = 0

abbrev pub distance_of : Request → ℕ
distance_of r = distance r.phase

abbrev pub IsGone : Request → Type 0
IsGone r = r.phase ≡ gone

pub Turn-nearer :
    {lim : Limits} {c : Controller} {key : Text} {p : Phase} {d : Controller} {q : Phase}
    → Turn lim c key p d q
    → distance q < distance p
Turn-nearer (no_peer_bound off) = omega arith
Turn-nearer (reserves on) = omega arith
Turn-nearer (takes_slot e on there room) = omega arith
Turn-nearer (takes_global room) = omega arith
Turn-nearer (finds_full full) = omega arith
Turn-nearer (takes_after_wait room) = omega arith
Turn-nearer counts = omega arith
Turn-nearer returns = omega arith
Turn-nearer frees_global = omega arith
Turn-nearer (no_slot off) = omega arith
Turn-nearer (frees_slot on) = omega arith
Turn-nearer (forgets on) = omega arith

-- A request that can take a turn.
pub record Ready (lim : Limits) (s : System) : Type 0 where
  pub before : List Request
  pub after : List Request
  pub key : Text
  pub from : Phase
  pub to : Phase
  pub result : Controller
  pub split : s.requests ≡ before ++ record { key = key; phase = from } ∷ after
  pub turn : Turn lim s.controller key from result to

-- The first request in a phase of a kind, or nobody is in one.
pub record Found (kind : Phase → Bool) (rs : List Request) : Type 0 where
  pub before : List Request
  pub after : List Request
  pub key : Text
  pub from : Phase
  pub split : rs ≡ before ++ record { key = key; phase = from } ∷ after
  pub is_kind : kind from ≡ true

pub look_for :
    (kind : Phase → Bool) (rs : List Request) → Found kind rs ⊎ All (λ r. kind r.phase ≡ false) rs
look_for kind [] = inr tt
look_for kind (r ∷ rs) = elim (Bool-cases (kind r.phase)) [
  | inl e ↦
      inl
        (record { before = []; after = rs; key = r.key; from = r.phase; split = refl; is_kind = e })
  | inr e ↦ elim (look_for kind rs) [
    | inl f ↦ inl (record {
      before = r ∷ f.before;
      after = f.after;
      key = f.key;
      from = f.from;
      split = ap (λ z. r ∷ z) f.split;
      is_kind = f.is_kind;
    })
    | inr rest ↦ inr (e, rest)
  ]
]

-- The phases whose turn waits for nobody, and those that wait for a global slot.
abbrev pub free : Phase → Bool
free asking_peer = false
free asking_global = false
free waiting_global = false
free gone = false
free _ = true

abbrev pub wants_global : Phase → Bool
wants_global asking_global = true
wants_global waiting_global = true
wants_global _ = false

abbrev pub wants_slot : Phase → Bool
wants_slot asking_peer = true
wants_slot _ = false

abbrev pub CanTurn : Limits → Controller → Text → Phase → Type 0
CanTurn lim c key p = (q : Phase) × (d : Controller) × Turn lim c key p d q

pub free_turn :
    (lim : Limits) (c : Controller) (key : Text) (p : Phase)
    → (has_bound p ≡ true → 0 < lim.max_per_peer)
    → free p ≡ true
    → CanTurn lim c key p
free_turn lim c key arriving b f = elim (positive_or_zero lim.max_per_peer) [
  | inl off ↦ (asking_global, c, no_peer_bound off)
  | inr on ↦ (asking_peer, reserve_peer key c, reserves on)
]
free_turn lim c key asking_peer b f = absurd (ground arith)
free_turn lim c key asking_global b f = absurd (ground arith)
free_turn lim c key waiting_global b f = absurd (ground arith)
free_turn lim c key taken b f = (running, _, counts)
free_turn lim c key running b f = (leaving_global, _, returns)
free_turn lim c key leaving_global b f = (leaving_slot, _, frees_global)
free_turn lim c key leaving_slot b f = elim (positive_or_zero lim.max_per_peer) [
  | inl off ↦ (gone, c, no_slot off)
  | inr on ↦ (leaving_peer, at_peer key receive c, frees_slot on)
]
free_turn lim c key leaving_peer b f = (gone, release_peer key c, forgets (b refl))
free_turn lim c key gone b f = absurd (ground arith)

pub global_turn :
    (lim : Limits) (c : Controller) (key : Text) (p : Phase)
    → c.global < lim.max_in_flight
    → wants_global p ≡ true
    → CanTurn lim c key p
global_turn lim c key asking_global room w = (taken, _, takes_global room)
global_turn lim c key waiting_global room w = (taken, _, takes_after_wait room)
global_turn lim c key arriving room w = absurd (ground arith)
global_turn lim c key asking_peer room w = absurd (ground arith)
global_turn lim c key taken room w = absurd (ground arith)
global_turn lim c key running room w = absurd (ground arith)
global_turn lim c key leaving_global room w = absurd (ground arith)
global_turn lim c key leaving_slot room w = absurd (ground arith)
global_turn lim c key leaving_peer room w = absurd (ground arith)
global_turn lim c key gone room w = absurd (ground arith)

pub no_tokens : (p : Phase) → free p ≡ false → global_tokens p ≡ 0
no_tokens arriving f = refl
no_tokens asking_peer f = refl
no_tokens asking_global f = refl
no_tokens waiting_global f = refl
no_tokens taken f = absurd (ground arith)
no_tokens running f = absurd (ground arith)
no_tokens leaving_global f = absurd (ground arith)
no_tokens leaving_slot f = refl
no_tokens leaving_peer f = refl
no_tokens gone f = refl

pub no_slots : (p : Phase) → free p ≡ false → wants_global p ≡ false → slot_tokens p ≡ 0
no_slots arriving f w = refl
no_slots asking_peer f w = refl
no_slots asking_global f w = absurd (ground arith)
no_slots waiting_global f w = absurd (ground arith)
no_slots taken f w = absurd (ground arith)
no_slots running f w = absurd (ground arith)
no_slots leaving_global f w = absurd (ground arith)
no_slots leaving_slot f w = absurd (ground arith)
no_slots leaving_peer f w = refl
no_slots gone f w = refl

pub is_gone :
    (p : Phase) → free p ≡ false → wants_global p ≡ false → wants_slot p ≡ false → p ≡ gone
is_gone arriving f w s = absurd (ground arith)
is_gone asking_peer f w s = absurd (ground arith)
is_gone asking_global f w s = absurd (ground arith)
is_gone waiting_global f w s = absurd (ground arith)
is_gone taken f w s = absurd (ground arith)
is_gone running f w s = absurd (ground arith)
is_gone leaving_global f w s = absurd (ground arith)
is_gone leaving_slot f w s = absurd (ground arith)
is_gone leaving_peer f w s = absurd (ground arith)
is_gone gone f w s = refl

pub asks_peer : (p : Phase) → wants_slot p ≡ true → p ≡ asking_peer
asks_peer asking_peer w = refl
asks_peer arriving w = absurd (ground arith)
asks_peer asking_global w = absurd (ground arith)
asks_peer waiting_global w = absurd (ground arith)
asks_peer taken w = absurd (ground arith)
asks_peer running w = absurd (ground arith)
asks_peer leaving_global w = absurd (ground arith)
asks_peer leaving_slot w = absurd (ground arith)
asks_peer leaving_peer w = absurd (ground arith)
asks_peer gone w = absurd (ground arith)
