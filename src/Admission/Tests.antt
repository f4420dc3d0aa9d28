-- ===== src/Admission/Tests.antt =====
-- Two requests of one peer, one slot each way.
use go_ricochet.Base.{
  ◌*◌, ◌≤◌, ◌≡◌, refl, ◌⊎◌, none, [], ◌∷◌, arith, length, sum_by, All, Text, codes,
}
use go_ricochet.Admission.{
  Limits, arriving, asking_peer, System, no_requests, arrives, Reach, start, later, Turns, here,
  next, reserves, reserve_peer, retry_hint, min_retry_hint, max_retry_hint,
}
use go_ricochet.Admission.Bounds.{running_requests_bound, is_running, running_of}
use go_ricochet.Admission.Progress.{Ready, IsGone}
use go_ricochet.Admission.Drains.{all_requests_end, turn_count}

abbrev one_each : Limits
one_each = record { max_in_flight = 1; max_per_peer = 1 }

abbrev ann : Text
ann = codes "ann"

abbrev two_there : System
two_there = record no_requests {
  requests = record { key = ann; phase = arriving } ∷ record { key = ann; phase = arriving } ∷ [];
}

two_there-Reach : Reach one_each two_there
two_there-Reach = later (later start (arrives ann)) (arrives ann)

abbrev one_reserved : System
one_reserved = record {
  requests =
      record { key = ann; phase = asking_peer } ∷ record { key = ann; phase = arriving } ∷ [];
  controller = reserve_peer ann two_there.controller;
}

one_turn : Turns one_each two_there one_reserved
one_turn =
    next [] (record { key = ann; phase = arriving } ∷ []) ann refl (reserves (omega arith)) here

running_requests_bound_example :
    (sum_by is_running two_there.requests ≤ 1)
    × ((one_each.max_per_peer ≡ 0) ⊎ (sum_by (running_of ann) two_there.requests ≤ 1))
running_requests_bound_example = running_requests_bound ann two_there-Reach

all_requests_end_example :
    (turn_count one_turn ≤ 9 * length two_there.requests)
    × (Ready one_each one_reserved
        ⊎ (All IsGone one_reserved.requests
            × (one_reserved.controller.global ≡ 0)
            × (one_reserved.controller.in_flight ≡ 0)
            × ((k : Text) → one_reserved.controller.peers k ≡ none)))
all_requests_end_example = all_requests_end one_turn two_there-Reach (omega arith)

-- A timeout of 20 seconds hints at one second, one of 100 milliseconds at 50.
hints :
    (retry_hint (20000 * 1000000) ≡ max_retry_hint) × (retry_hint (100 * 1000000) ≡ min_retry_hint)
unfolding retry_hint
hints = (refl, refl)
