-- ===== src/Admission/Drains.antt =====
-- The requests that are there can all be served to the end.
use go_ricochet.Base.{
  ℕ, suc, ◌+◌, ◌*◌, ◌≤◌, ◌<◌, ◌≡◌, refl, ap, ◌∙◌, ◌⊎◌, inl, inr, Bool, true, false, ◌&&◌, Option,
  none, some, List, [], ◌∷◌, ◌++◌, arith, ltb, Bool-cases, length, sum_by, All, sum_by-append,
  All-imp, Text, ◌=ᵗ◌, text_eq_refl,
}
use go_ricochet.Admission.{
  Limits, PeerSlots, Phase, arriving, asking_peer, asking_global, waiting_global, taken, running,
  leaving_global, leaving_slot, leaving_peer, gone, takes_slot, Request, System, moves, Reach,
  global_tokens, in_flight_count, slot_tokens, entry_refs, of_peer, Turns, here, next,
}
use go_ricochet.Admission.Entries.{IsEntry}
use go_ricochet.Admission.Invariant.{
  Agrees, Step-Agrees, Reach-Agrees, global_of, counted_of, slot_of, ref_of, IsBounded,
}
use go_ricochet.Admission.Progress.{
  distance, distance_of, IsGone, Turn-nearer, Ready, Found, look_for, free, wants_global,
  wants_slot, CanTurn, free_turn, global_turn, no_tokens, no_slots, is_gone, asks_peer,
}

zero_sum : (f : Request → ℕ) (rs : List Request) → All (λ r. f r ≡ 0) rs → sum_by f rs ≡ 0
zero_sum f [] h = refl
zero_sum f (r ∷ rs) h = omega (arith, h.0, zero_sum f rs h.1)

both : (P Q : Request → Type 0) (rs : List Request) → All P rs → All Q rs → All (λ r. P r × Q r) rs
both P Q [] p q = tt
both P Q (r ∷ rs) p q = ((p.0, q.0), both P Q rs p.1 q.1)

ready :
    (lim : Limits) (s : System) (kind : Phase → Bool) (f : Found kind s.requests)
    → CanTurn lim s.controller f.key f.from
    → Ready lim s
ready lim s kind f (q, d, turn) = record {
  before = f.before;
  after = f.after;
  key = f.key;
  from = f.from;
  to = q;
  result = d;
  split = f.split;
  turn = turn;
}

split-All : (P : Request → Type 0) (xs ys : List Request) (r : Request) → All P (xs ++ r ∷ ys) → P r
split-All P [] ys r h = h.0
split-All P (x ∷ xs) ys r h = split-All P xs ys r h.1

no_share : (lim : Limits) (k key : Text) → of_peer lim k key 0 ≡ 0
no_share lim k key = elim (Bool-cases (ltb 0 lim.max_per_peer && k =ᵗ key)) [
  | inl e ↦ rw e refl
  | inr e ↦ rw e refl
]

-- The peer's channel is empty when none of its requests holds a slot of it.
slot_turn :
    (lim : Limits) (s : System) (f : Found wants_slot s.requests)
    → Agrees lim s
    → All (λ r. slot_tokens r.phase ≡ 0) s.requests
    → CanTurn lim s.controller f.key f.from
slot_turn lim s f a empty =
    let asks = asks_peer f.from f.is_kind in
    let on : 0 < lim.max_per_peer =
      split-All (IsBounded lim) f.before f.after _ (rw f.split at a.bounded) (rw asks refl) in
    let no_slot : sum_by (slot_of lim f.key) s.requests ≡ 0 =
      zero_sum (slot_of lim f.key) s.requests (
        All-imp (λ r. slot_tokens r.phase ≡ 0) (λ r. slot_of lim f.key r ≡ 0)
          (λ r e. rw e (no_share lim f.key r.key)) s.requests empty) in
    let own : 0 < sum_by (ref_of lim f.key) s.requests =
      let under : ltb 0 lim.max_per_peer ≡ true = ground (arith, on) in
      let total =
        ap (sum_by (ref_of lim f.key)) f.split ∙ sum_by-append (ref_of lim f.key) f.before _ in
      let mine : of_peer lim f.key f.key (entry_refs f.from) ≡ 1 =
        rw (asks, under, text_eq_refl f.key) refl in
      omega (arith, total, mine) in
    rw asks (with_entry (s.controller.peers f.key) refl on own no_slot (a.entries f.key))
  where
    with_entry :
        (o : Option PeerSlots)
        → s.controller.peers f.key ≡ o
        → 0 < lim.max_per_peer
        → 0 < sum_by (ref_of lim f.key) s.requests
        → sum_by (slot_of lim f.key) s.requests ≡ 0
        → IsEntry lim.max_per_peer
            (sum_by (ref_of lim f.key) s.requests)
            (sum_by (slot_of lim f.key) s.requests)
            o
        → CanTurn lim s.controller f.key asking_peer
    with_entry none e on own slots i = absurd (omega (arith, own, i.0))
    with_entry (some x) e on own slots i =
        (asking_global, _, takes_slot x on e (omega (arith, on, slots, i.2)))

-- While a request is there one can take a turn.
pub progress :
    (lim : Limits) (s : System)
    → Agrees lim s
    → 0 < lim.max_in_flight
    → Ready lim s ⊎ All IsGone s.requests
progress lim s a room = elim (look_for free s.requests) [
  | inl f ↦ inl (
      ready lim s free f (
        free_turn lim s.controller f.key f.from
          (split-All (IsBounded lim) f.before f.after _ (rw f.split at a.bounded)) f.is_kind))
  | inr stuck ↦ elim (look_for wants_global s.requests) [
    | inl f ↦
        let unused = zero_sum global_of s.requests (
          All-imp (λ r. free r.phase ≡ false) (λ r. global_of r ≡ 0) (λ r e. no_tokens r.phase e)
            s.requests stuck) in
        inl (
          ready lim s wants_global f (
            global_turn lim s.controller f.key f.from (omega (arith, a.tokens, unused, room))
              f.is_kind))
    | inr unasked ↦ elim (look_for wants_slot s.requests) [
      | inl f ↦ inl (
          ready lim s wants_slot f (
            slot_turn lim s f a (
              All-imp _ (λ r. slot_tokens r.phase ≡ 0) (λ r e. no_slots r.phase e.0 e.1) s.requests
                (both _ _ s.requests stuck unasked))))
      | inr none_left ↦ inr (
          All-imp _ IsGone (λ r e. is_gone r.phase e.0 e.1.0 e.1.1) s.requests
            (both _ _ s.requests stuck (both _ _ s.requests unasked none_left)))
    ]
  ]
]

no_entry : (most r h : ℕ) (o : Option PeerSlots) → IsEntry most r h o → r ≡ 0 → o ≡ none
no_entry most r h none i e = refl
no_entry most r h (some x) i e = absurd (omega (arith, i.1, e))

gone-zero : (f : Phase → ℕ) → f gone ≡ 0 → (r : Request) → IsGone r → f r.phase ≡ 0
gone-zero f z r e = rw e z

-- A server with nobody there holds no token and tracks no peer.
pub idle_untracked :
    (lim : Limits) (s : System)
    → Agrees lim s
    → All IsGone s.requests
    → (s.controller.global ≡ 0)
      × (s.controller.in_flight ≡ 0)
      × ((k : Text) → s.controller.peers k ≡ none)
idle_untracked lim s a all_gone = (
  a.tokens
      ∙ zero_sum global_of s.requests (
          All-imp IsGone (λ r. global_of r ≡ 0) (gone-zero global_tokens refl) s.requests all_gone),
  a.counted
      ∙ zero_sum counted_of s.requests (
          All-imp IsGone (λ r. counted_of r ≡ 0) (gone-zero in_flight_count refl) s.requests
            all_gone),
  (λ k. no_entry lim.max_per_peer _ _ (s.controller.peers k) (a.entries k) (
      zero_sum (ref_of lim k) s.requests (
        All-imp IsGone (λ r. ref_of lim k r ≡ 0)
          (λ r e. rw (gone-zero entry_refs refl r e) (no_share lim k r.key)) s.requests all_gone))),
)

unfoldable pub turn_count : {lim : Limits} {s t : System} → Turns lim s t → ℕ
turn_count here = 0
turn_count (next xs ys key split turn rest) = suc (turn_count rest)

Turns-Agrees : {lim : Limits} {s t : System} → Turns lim s t → Agrees lim s → Agrees lim t
Turns-Agrees here a = a
Turns-Agrees (next xs ys key split turn rest) a =
    Turns-Agrees rest (Step-Agrees (moves xs ys key split turn) a)

-- Each turn brings its request nearer to its end.
Turns-nearer :
    {lim : Limits} {s t : System} (ts : Turns lim s t)
    → turn_count ts + sum_by distance_of t.requests ≤ sum_by distance_of s.requests
unfolding turn_count
Turns-nearer here = omega arith
Turns-nearer {lim} {s} {t} (next xs ys key {p} {q} split turn rest) =
    let less = Turn-nearer turn in
    let was = ap (sum_by distance_of) split ∙ sum_by-append distance_of xs _ in
    let is = sum_by-append distance_of xs (record { key = key; phase = q } ∷ ys) in
    let further = Turns-nearer rest in omega (arith, less, was, is, further)

distance_bound : (p : Phase) → distance p ≤ 9
distance_bound arriving = omega arith
distance_bound asking_peer = omega arith
distance_bound asking_global = omega arith
distance_bound waiting_global = omega arith
distance_bound taken = omega arith
distance_bound running = omega arith
distance_bound leaving_global = omega arith
distance_bound leaving_slot = omega arith
distance_bound leaving_peer = omega arith
distance_bound gone = omega arith

total_bound : (rs : List Request) → sum_by distance_of rs ≤ 9 * length rs
total_bound [] = omega arith
total_bound (r ∷ rs) = omega (arith, distance_bound r.phase, total_bound rs)

-- Whatever happened before, and with at least one global slot: while nobody arrives or gives up, the
-- turns that are taken, in any order, are in all at most nine times as many as the requests that are
-- there, and as long as one of them has not left, one can take a turn; when all have left no slot is taken, none is counted in flight and no
-- peer is tracked.
pub all_requests_end :
    {lim : Limits} {s t : System} (ts : Turns lim s t)
    → Reach lim s
    → 0 < lim.max_in_flight
    → (turn_count ts ≤ 9 * length s.requests)
      × (Ready lim t
          ⊎ (All IsGone t.requests
              × (t.controller.global ≡ 0)
              × (t.controller.in_flight ≡ 0)
              × ((k : Text) → t.controller.peers k ≡ none)))
all_requests_end {lim} {s} {t} ts reach room =
    let agrees = Turns-Agrees ts (Reach-Agrees reach) in
    (
      omega (arith, Turns-nearer ts, total_bound s.requests),
      elim (progress lim t agrees room) [
        | inl r ↦ inl r
        | inr all_gone ↦
            let idle = idle_untracked lim t agrees all_gone in
            inr (all_gone, idle.0, idle.1, idle.2)
      ],
    )
