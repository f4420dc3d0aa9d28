-- ===== src/Admission/Invariant.antt =====
-- The counters, the channels and the entries against the requests.
use go_ricochet.Base.{
  ℕ, ◌+◌, ◌≤◌, ◌<◌, ◌≡◌, refl, sym, ap, ◌∙◌, subst, inl, inr, Bool, true, false, ◌&&◌, Option, none,
  some, List, [], ◌∷◌, ◌++◌, arith, ltb, Bool-cases, sum_by, All, sum_by-append, Text, ◌=ᵗ◌,
  text_eq→eq,
}
use go_ricochet.Admission.{
  Limits, PeerSlots, Controller, Phase, arriving, asking_peer, asking_global, waiting_global, taken,
  running, leaving_global, leaving_slot, leaving_peer, gone, at_peer, reserve, forget, send,
  receive, Turn, no_peer_bound, reserves, takes_slot, takes_global, finds_full, takes_after_wait,
  counts, returns, frees_global, no_slot, frees_slot, forgets, GivesUp, peer_timeout, peer_cancel,
  global_timeout, global_cancel, Request, System, Step, arrives, moves, gives_up, Reach, start,
  later, global_tokens, in_flight_count, slot_tokens, entry_refs, of_peer,
}
use go_ricochet.Admission.Entries.{
  IsEntry, IsEntry-reserve, IsEntry-send, IsEntry-receive, IsEntry-forget,
}

abbrev pub global_of : Request → ℕ
global_of r = global_tokens r.phase

abbrev pub counted_of : Request → ℕ
counted_of r = in_flight_count r.phase

abbrev pub slot_of : Limits → Text → Request → ℕ
slot_of lim k r = of_peer lim k r.key (slot_tokens r.phase)

abbrev pub ref_of : Limits → Text → Request → ℕ
ref_of lim k r = of_peer lim k r.key (entry_refs r.phase)

-- A request at its peer's channel or entry is under a bound.
abbrev pub has_bound : Phase → Bool
has_bound asking_peer = true
has_bound leaving_peer = true
has_bound _ = false

abbrev pub IsBounded : Limits → Request → Type 0
IsBounded lim r = has_bound r.phase ≡ true → 0 < lim.max_per_peer

-- The channels and counters hold what the requests hold, within the bounds.
pub record Agrees (lim : Limits) (s : System) : Type 0 where
  pub tokens : s.controller.global ≡ sum_by global_of s.requests
  pub counted : s.controller.in_flight ≡ sum_by counted_of s.requests
  pub within : s.controller.global ≤ lim.max_in_flight
  pub entries :
      (k : Text)
      → IsEntry lim.max_per_peer
          (sum_by (ref_of lim k) s.requests)
          (sum_by (slot_of lim k) s.requests)
          (s.controller.peers k)
  pub bounded : All (IsBounded lim) s.requests

-- What a turn from `p` to `q` does to the controller, against what the request holds.
pub record Fits (lim : Limits) (key : Text) (c : Controller) (p : Phase) (d : Controller)
    (q : Phase) : Type 0 where
  pub tokens : global_tokens p ≤ c.global → d.global + global_tokens p ≡ c.global + global_tokens q
  pub counted :
      in_flight_count p ≤ c.in_flight
      → d.in_flight + in_flight_count p ≡ c.in_flight + in_flight_count q
  pub within : c.global ≤ lim.max_in_flight → d.global ≤ lim.max_in_flight
  pub entries :
      (k : Text) (r h : ℕ)
      → h ≤ r
      → IsEntry lim.max_per_peer
          (r + of_peer lim k key (entry_refs p))
          (h + of_peer lim k key (slot_tokens p))
          (c.peers k)
      → IsEntry lim.max_per_peer
          (r + of_peer lim k key (entry_refs q))
          (h + of_peer lim k key (slot_tokens q))
          (d.peers k)
  pub bounded : has_bound q ≡ true → 0 < lim.max_per_peer

-- Entries that stay as they are, while the request holds as much of them.
no_change :
    (lim : Limits) (key k : Text) (r h : ℕ) (p q : Phase) (o : Option PeerSlots)
    → entry_refs p ≡ entry_refs q
    → slot_tokens p ≡ slot_tokens q
    → IsEntry lim.max_per_peer
        (r + of_peer lim k key (entry_refs p))
        (h + of_peer lim k key (slot_tokens p))
        o
    → IsEntry lim.max_per_peer
        (r + of_peer lim k key (entry_refs q))
        (h + of_peer lim k key (slot_tokens q))
        o
no_change lim key k r h p q o refs slots i = rw (refs, slots) at i

-- Without a bound per peer a request holds nothing of an entry.
unbounded :
    (lim : Limits) (key k : Text) (r h : ℕ) (p q : Phase) (o : Option PeerSlots)
    → lim.max_per_peer ≡ 0
    → IsEntry lim.max_per_peer
        (r + of_peer lim k key (entry_refs p))
        (h + of_peer lim k key (slot_tokens p))
        o
    → IsEntry lim.max_per_peer
        (r + of_peer lim k key (entry_refs q))
        (h + of_peer lim k key (slot_tokens q))
        o
unbounded lim key k r h p q o off i =
    let none_held : ltb 0 lim.max_per_peer ≡ false = ground (arith, off) in
    let i' = rw none_held at i in rw none_held i'

-- A change of the entry of the request's own peer.
own_change :
    (lim : Limits) (key k : Text) (r h : ℕ) (p q : Phase) (c : Controller)
    (f : Option PeerSlots → Option PeerSlots)
    → 0 < lim.max_per_peer
    → (IsEntry lim.max_per_peer (r + entry_refs p) (h + slot_tokens p) (c.peers k)
        → k ≡ key
        → IsEntry lim.max_per_peer (r + entry_refs q) (h + slot_tokens q) (f (c.peers k)))
    → IsEntry lim.max_per_peer
        (r + of_peer lim k key (entry_refs p))
        (h + of_peer lim k key (slot_tokens p))
        (c.peers k)
    → IsEntry lim.max_per_peer
        (r + of_peer lim k key (entry_refs q))
        (h + of_peer lim k key (slot_tokens q))
        ((at_peer key f c).peers k)
own_change lim key k r h p q c f on change i =
    let under : ltb 0 lim.max_per_peer ≡ true = ground (arith, on) in
    elim (Bool-cases (k =ᵗ key)) [
      | inl e ↦ let i' = rw (under, e) at i in rw (under, e) (change i' (text_eq→eq k key e))
      | inr e ↦ let i' = rw (under, e) at i in rw (under, e) i'
    ]

-- A request that gives up its reference.
drops :
    (lim : Limits) (key k : Text) (r h : ℕ) (p : Phase) (c : Controller)
    → 0 < lim.max_per_peer
    → h ≤ r
    → entry_refs p ≡ 1
    → slot_tokens p ≡ 0
    → IsEntry lim.max_per_peer
        (r + of_peer lim k key (entry_refs p))
        (h + of_peer lim k key (slot_tokens p))
        (c.peers k)
    → IsEntry lim.max_per_peer
        (r + of_peer lim k key 0)
        (h + of_peer lim k key 0)
        ((at_peer key forget c).peers k)
drops lim key k r h p c on le refs slots i =
    own_change lim key k r h p gone c forget on
      (λ j own.
        let j' : IsEntry lim.max_per_peer (r + 1) (h + 0) (c.peers k) = rw (refs, slots) at j in
        subst (λ z. IsEntry lim.max_per_peer z (h + 0) (forget (c.peers k))) (omega arith)
          (IsEntry-forget lim.max_per_peer r (h + 0) (c.peers k) (omega (arith, le)) j'))
      i

pub Turn-Fits :
    {lim : Limits} {c : Controller} {key : Text} {p : Phase} {d : Controller} {q : Phase}
    → Turn lim c key p d q
    → Fits lim key c p d q
Turn-Fits {lim} {c} {key} (no_peer_bound off) = record {
  tokens = λ t. refl;
  counted = λ t. refl;
  within = λ w. w;
  entries = λ k r h le i. unbounded lim key k r h arriving asking_global _ off i;
  bounded = λ e. cc;
}
Turn-Fits {lim} {c} {key} (reserves on) = record {
  tokens = λ t. refl;
  counted = λ t. refl;
  within = λ w. w;
  entries = λ k r h le i.
      own_change lim key k r h arriving asking_peer c reserve on
        (λ j own.
          subst (λ z. IsEntry lim.max_per_peer (z + 1) (h + 0) (reserve (c.peers k))) (omega arith)
            (IsEntry-reserve lim.max_per_peer (r + 0) (h + 0) (c.peers k) j))
        i;
  bounded = λ e. on;
}
Turn-Fits {lim} {c} {key} (takes_slot e on there room) = record {
  tokens = λ t. refl;
  counted = λ t. refl;
  within = λ w. w;
  entries = λ k r h le i.
      own_change lim key k r h asking_peer asking_global c send on
        (λ j own.
          subst (λ z. IsEntry lim.max_per_peer (r + 1) (z + 1) (send (c.peers k))) (omega arith)
            (IsEntry-send lim.max_per_peer (r + 1) (h + 0) e (c.peers k) (rw own there) room j))
        i;
  bounded = λ f. cc;
}
Turn-Fits {lim} {c} {key} (takes_global room) = record {
  tokens = λ t. omega arith;
  counted = λ t. refl;
  within = λ w. omega (arith, room);
  entries = λ k r h le i. i;
  bounded = λ f. cc;
}
Turn-Fits {lim} {c} {key} (finds_full full) = record {
  tokens = λ t. refl;
  counted = λ t. refl;
  within = λ w. w;
  entries = λ k r h le i. i;
  bounded = λ f. cc;
}
Turn-Fits {lim} {c} {key} (takes_after_wait room) = record {
  tokens = λ t. omega arith;
  counted = λ t. refl;
  within = λ w. omega (arith, room);
  entries = λ k r h le i. i;
  bounded = λ f. cc;
}
Turn-Fits {lim} {c} {key} counts = record {
  tokens = λ t. refl;
  counted = λ t. omega arith;
  within = λ w. w;
  entries = λ k r h le i. i;
  bounded = λ f. cc;
}
Turn-Fits {lim} {c} {key} returns = record {
  tokens = λ t. refl;
  counted = λ t. omega (arith, t);
  within = λ w. w;
  entries = λ k r h le i. i;
  bounded = λ f. cc;
}
Turn-Fits {lim} {c} {key} frees_global = record {
  tokens = λ t. omega (arith, t);
  counted = λ t. refl;
  within = λ w. omega (arith, w);
  entries = λ k r h le i. i;
  bounded = λ f. cc;
}
Turn-Fits {lim} {c} {key} (no_slot off) = record {
  tokens = λ t. refl;
  counted = λ t. refl;
  within = λ w. w;
  entries = λ k r h le i. unbounded lim key k r h leaving_slot gone _ off i;
  bounded = λ f. cc;
}
Turn-Fits {lim} {c} {key} (frees_slot on) = record {
  tokens = λ t. refl;
  counted = λ t. refl;
  within = λ w. w;
  entries = λ k r h le i.
      own_change lim key k r h leaving_slot leaving_peer c receive on
        (λ j own.
          subst (λ z. IsEntry lim.max_per_peer (r + 1) z (receive (c.peers k))) (omega arith)
            (IsEntry-receive lim.max_per_peer (r + 1) h (c.peers k) j))
        i;
  bounded = λ f. on;
}
Turn-Fits {lim} {c} {key} (forgets on) = record {
  tokens = λ t. refl;
  counted = λ t. refl;
  within = λ w. w;
  entries = λ k r h le i. drops lim key k r h leaving_peer c on le refl refl i;
  bounded = λ f. cc;
}

pub GivesUp-Fits :
    {lim : Limits} {c : Controller} {key : Text} {p : Phase} {d : Controller} {q : Phase}
    → GivesUp lim c key p d q
    → Fits lim key c p d q
GivesUp-Fits {lim} {c} {key} (peer_timeout on) = record {
  tokens = λ t. refl;
  counted = λ t. refl;
  within = λ w. w;
  entries = λ k r h le i. drops lim key k r h asking_peer c on le refl refl i;
  bounded = λ f. cc;
}
GivesUp-Fits {lim} {c} {key} (peer_cancel on) = record {
  tokens = λ t. refl;
  counted = λ t. refl;
  within = λ w. w;
  entries = λ k r h le i. drops lim key k r h asking_peer c on le refl refl i;
  bounded = λ f. cc;
}
GivesUp-Fits {lim} {c} {key} global_timeout = record {
  tokens = λ t. refl;
  counted = λ t. refl;
  within = λ w. w;
  entries = λ k r h le i. i;
  bounded = λ f. cc;
}
GivesUp-Fits {lim} {c} {key} global_cancel = record {
  tokens = λ t. refl;
  counted = λ t. refl;
  within = λ w. w;
  entries = λ k r h le i. i;
  bounded = λ f. cc;
}

held_refs : (p : Phase) → slot_tokens p ≤ entry_refs p
held_refs arriving = omega arith
held_refs asking_peer = omega arith
held_refs asking_global = omega arith
held_refs waiting_global = omega arith
held_refs taken = omega arith
held_refs running = omega arith
held_refs leaving_global = omega arith
held_refs leaving_slot = omega arith
held_refs leaving_peer = omega arith
held_refs gone = omega arith

slots-refs :
    (lim : Limits) (k : Text) (rs : List Request)
    → sum_by (slot_of lim k) rs ≤ sum_by (ref_of lim k) rs
slots-refs lim k [] = omega arith
slots-refs lim k (r ∷ rs) =
    let rest = slots-refs lim k rs in
    let here = held_refs r.phase in
    elim (Bool-cases (ltb 0 lim.max_per_peer && k =ᵗ r.key)) [
      | inl e ↦ rw e (omega (arith, rest, here))
      | inr e ↦ rw e (omega (arith, rest))
    ]

-- A sum with one request in the middle.
middle :
    (f : Request → ℕ) (xs ys : List Request) (r : Request)
    → sum_by f (xs ++ r ∷ ys) ≡ sum_by f xs + sum_by f ys + f r
middle f xs ys r = omega (arith, sum_by-append f xs (r ∷ ys))

All-middle :
    (lim : Limits) (xs ys : List Request) (r w : Request)
    → All (IsBounded lim) (xs ++ r ∷ ys)
    → IsBounded lim w
    → All (IsBounded lim) (xs ++ w ∷ ys)
All-middle lim [] ys r w h b = (b, h.1)
All-middle lim (x ∷ xs) ys r w h b = (h.0, All-middle lim xs ys r w h.1 b)

-- A step that fits keeps the agreement.
pub Fits-Agrees :
    (lim : Limits) (s : System) (xs ys : List Request) (key : Text) (p q : Phase) (c : Controller)
    → s.requests ≡ xs ++ record { key = key; phase = p } ∷ ys
    → Fits lim key s.controller p c q
    → Agrees lim s
    → Agrees lim (record { requests = xs ++ record { key = key; phase = q } ∷ ys; controller = c })
Fits-Agrees lim s xs ys key p q c split fits a =
    let was : Request = record { key = key; phase = p } in
    let is : Request = record { key = key; phase = q } in
    let tokens : s.controller.global ≡ sum_by global_of xs + sum_by global_of ys + global_tokens p =
      a.tokens ∙ ap (sum_by global_of) split ∙ middle global_of xs ys was in
    let counted : s.controller.in_flight
        ≡ sum_by counted_of xs + sum_by counted_of ys + in_flight_count p =
      a.counted ∙ ap (sum_by counted_of) split ∙ middle counted_of xs ys was in
    let moved = fits.tokens (omega (arith, tokens)) in
    let recounted = fits.counted (omega (arith, counted)) in
    record {
      tokens = omega (arith, middle global_of xs ys is, moved, tokens);
      counted = omega (arith, middle counted_of xs ys is, recounted, counted);
      within = fits.within a.within;
      entries = λ k.
          let le : sum_by (slot_of lim k) xs + sum_by (slot_of lim k) ys
              ≤ sum_by (ref_of lim k) xs + sum_by (ref_of lim k) ys =
            omega (arith, slots-refs lim k xs, slots-refs lim k ys) in
          let before = a.entries k in
          rw (middle (ref_of lim k) xs ys is, middle (slot_of lim k) xs ys is)
            (fits.entries k _ _ le (
              rw (split, middle (ref_of lim k) xs ys was, middle (slot_of lim k) xs ys was) at
                before));
      bounded = All-middle lim xs ys was is (rw split at a.bounded) fits.bounded;
    }

no_share : (lim : Limits) (k key : Text) → of_peer lim k key 0 ≡ 0
no_share lim k key = elim (Bool-cases (ltb 0 lim.max_per_peer && k =ᵗ key)) [
  | inl e ↦ rw e refl
  | inr e ↦ rw e refl
]

added : (most r h : ℕ) (o : Option PeerSlots) → IsEntry most r h o → IsEntry most (0 + r) (0 + h) o
added most r h none i = (omega (arith, i.0), omega (arith, i.1))
added most r h (some e) i =
    (omega (arith, i.0), omega (arith, i.1), omega (arith, i.2), omega (arith, i.3))

pub Step-Agrees : {lim : Limits} {s t : System} → Step lim s t → Agrees lim s → Agrees lim t
Step-Agrees {lim} {s} (arrives key) a = record {
  tokens = omega (arith, a.tokens);
  counted = omega (arith, a.counted);
  within = a.within;
  entries = λ k.
      subst
        (λ z.
          IsEntry lim.max_per_peer (z + sum_by (ref_of lim k) s.requests)
            (z + sum_by (slot_of lim k) s.requests) (s.controller.peers k))
        (sym (no_share lim k key)) (added _ _ _ (s.controller.peers k) (a.entries k));
  bounded = ((λ e. cc), a.bounded);
}
Step-Agrees {lim} {s} (moves xs ys key {p} {q} {c} split turn) a =
    Fits-Agrees lim s xs ys key p q c split (Turn-Fits turn) a
Step-Agrees {lim} {s} (gives_up xs ys key {p} {q} {c} split turn) a =
    Fits-Agrees lim s xs ys key p q c split (GivesUp-Fits turn) a

pub Reach-Agrees : {lim : Limits} {s : System} → Reach lim s → Agrees lim s
Reach-Agrees start = record {
  tokens = refl;
  counted = refl;
  within = omega arith;
  entries = λ k. (refl, refl);
  bounded = tt;
}
Reach-Agrees (later r st) = Step-Agrees st (Reach-Agrees r)
