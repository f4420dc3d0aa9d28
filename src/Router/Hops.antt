-- ===== src/Router/Hops.antt =====
-- How often forwarders pass a message on.
use go_ricochet.Base.{
  ℕ, suc, ◌+◌, ◌≤◌, ◌≡◌, refl, ap, ◌⊎◌, inl, inr, some, arith, Text, pos, pos_part, neg_part, ◌≤ℤ◌,
  suc_ℤ_parts,
}
use go_ricochet.Wire.{Message, max_hop_count}
use go_ricochet.Router.Accepts.{copy-one_hop_on}
use go_ricochet.Router.{accepted, Router, Node, forwarded_copy, accept_forwarded}

-- A chain of forwarders, each with its own router and clock: the copy that one accepts is submitted
-- to the next.
pub data Forwarded (C L R : Type 0) : ℕ → Message → Message → Type 0 where
  submitted : (msg : Message) → Forwarded C L R 0 msg msg
  hop :
      (n : ℕ) (first msg copy : Message) (router : Router C L R) (now : ℕ) (forwarder id : Text)
      (s : Node C L R)
      → Forwarded C L R n first msg
      → (accept_forwarded router now msg forwarder s).1 ≡ accepted id
      → forwarded_copy router msg ≡ some copy
      → Forwarded C L R (suc n) first copy

hop_count_grows :
    {C L R : Type 0} (n : ℕ) (first last : Message)
    → Forwarded C L R n first last
    → (pos_part last.hop_count + neg_part first.hop_count
        ≡ pos_part first.hop_count + n + neg_part last.hop_count)
      × (n ≡ 0 ⊎ (last.hop_count ≤ℤ pos max_hop_count))
hop_count_grows n first last (submitted msg) = (omega arith, inl refl)
hop_count_grows n first last (hop k _ msg copy router now forwarder id s before e made) =
    let one = copy-one_hop_on router msg copy made in
    let same = ap (λ c. c.hop_count) one.0 in
    let step = suc_ℤ_parts msg.hop_count in
    let ih = hop_count_grows k first msg before in
    rw same (omega (arith, step, ih.0), inr (omega (arith, step, one.1)))

-- However many forwarders pass a message on, each accepting the copy of the one before, there are at
-- most 10 of them, less the hops that the message came with; where it came with a negative count,
-- which no forwarder refuses, at most that many more.
pub hops_bound :
    {C L R : Type 0} (n : ℕ) (first last : Message)
    → Forwarded C L R n first last
    → (n ≡ 0) ⊎ (n + pos_part first.hop_count ≤ 10 + neg_part first.hop_count)
hops_bound n first last f =
    let h = hop_count_grows n first last f in
    elim h.1 [ inl e ↦ inl e | inr b ↦ inr (omega (arith, h.0, b)) ]
