-- ===== src/Admission/Bounds.antt =====
-- How many handlers run at once.
use go_ricochet.Base.{
  ℕ, zero, suc, ◌≤◌, ◌<◌, ◌≡◌, refl, ◌⊎◌, inl, inr, true, Option, none, some, List, [], ◌∷◌, arith,
  ltb, if◌then◌else◌, Bool-cases, sum_by, Text, ◌=ᵗ◌,
}
use go_ricochet.Admission.{
  Limits, PeerSlots, Phase, arriving, asking_peer, asking_global, waiting_global, taken, running,
  leaving_global, leaving_slot, leaving_peer, gone, Request, System, Reach, global_tokens,
  in_flight_count, slot_tokens,
}
use go_ricochet.Admission.Entries.{IsEntry}
use go_ricochet.Admission.Invariant.{Reach-Agrees, global_of, counted_of, slot_of}

-- Whether a request is between its acquisition and its release.
abbrev pub is_running : Request → ℕ
is_running r = in_flight_count r.phase

abbrev pub running_of : Text → Request → ℕ
running_of k r = if k =ᵗ r.key then in_flight_count r.phase else 0

running-tokens : (p : Phase) → in_flight_count p ≤ global_tokens p
running-tokens arriving = omega arith
running-tokens asking_peer = omega arith
running-tokens asking_global = omega arith
running-tokens waiting_global = omega arith
running-tokens taken = omega arith
running-tokens running = omega arith
running-tokens leaving_global = omega arith
running-tokens leaving_slot = omega arith
running-tokens leaving_peer = omega arith
running-tokens gone = omega arith

running-slots : (p : Phase) → in_flight_count p ≤ slot_tokens p
running-slots arriving = omega arith
running-slots asking_peer = omega arith
running-slots asking_global = omega arith
running-slots waiting_global = omega arith
running-slots taken = omega arith
running-slots running = omega arith
running-slots leaving_global = omega arith
running-slots leaving_slot = omega arith
running-slots leaving_peer = omega arith
running-slots gone = omega arith

sum-running : (rs : List Request) → sum_by counted_of rs ≤ sum_by global_of rs
sum-running [] = omega arith
sum-running (r ∷ rs) = omega (arith, running-tokens r.phase, sum-running rs)

peer-running :
    (lim : Limits) (k : Text) (rs : List Request)
    → 0 < lim.max_per_peer
    → sum_by (running_of k) rs ≤ sum_by (slot_of lim k) rs
peer-running lim k [] on = omega arith
peer-running lim k (r ∷ rs) on =
    let under : ltb 0 lim.max_per_peer ≡ true = ground (arith, on) in
    let rest = peer-running lim k rs on in
    let own = running-slots r.phase in
    rw under (elim (Bool-cases (k =ᵗ r.key)) [
      | inl e ↦ rw e (omega (arith, rest, own))
      | inr e ↦ rw e (omega (arith, rest))
    ])

entry_bound : (most r h : ℕ) (o : Option PeerSlots) → IsEntry most r h o → h ≤ most
entry_bound most r h none i = omega (arith, i.1)
entry_bound most r h (some e) i = i.3

pub positive_or_zero : (n : ℕ) → (n ≡ 0) ⊎ (0 < n)
positive_or_zero zero = inl refl
positive_or_zero (suc n) = inr (omega arith)

-- However the requests are interleaved, no more handlers run at once than the global bound, and, where
-- there is a bound per peer, no more of one peer than that bound.
pub running_requests_bound :
    {lim : Limits} {s : System} (k : Text)
    → Reach lim s
    → (sum_by is_running s.requests ≤ lim.max_in_flight)
      × ((lim.max_per_peer ≡ 0) ⊎ (sum_by (running_of k) s.requests ≤ lim.max_per_peer))
running_requests_bound {lim} {s} k r =
    let a = Reach-Agrees r in
    let all = sum-running s.requests in
    let most = entry_bound lim.max_per_peer _ _ (s.controller.peers k) (a.entries k) in
    (
      omega (arith, all, a.tokens, a.within),
      elim (positive_or_zero lim.max_per_peer) [
        | inl off ↦ inl off
        | inr on ↦ inr (omega (arith, peer-running lim k s.requests on, most))
      ],
    )
