-- ===== src/Admission/Entries.antt =====
-- The entry of a peer and the requests that refer to it.
use go_ricochet.Base.{
  ℕ, ◌+◌, ◌≤◌, ◌<◌, ◌≡◌, sym, ap, inl, inr, Option, none, some, arith, leb, leb→le, Bool-cases,
}
use go_ricochet.Admission.{PeerSlots, reserve, forget, send, receive}

-- The entry counts the references and the tokens; without references there is none.
abbrev pub IsEntry : ℕ → ℕ → ℕ → Option PeerSlots → Type 0
IsEntry most refs held none = (refs ≡ 0) × (held ≡ 0)
IsEntry most refs held (some e) = (e.refs ≡ refs) × (0 < refs) × (e.held ≡ held) × (held ≤ most)

pub IsEntry-reserve :
    (most r h : ℕ) (o : Option PeerSlots) → IsEntry most r h o → IsEntry most (r + 1) h (reserve o)
IsEntry-reserve most r h none i = (omega (arith, i.0), omega arith, sym i.1, omega (arith, i.1))
IsEntry-reserve most r h (some e) i = (omega (arith, i.0), omega arith, i.2, i.3)

pub IsEntry-send :
    (most r h : ℕ) (e : PeerSlots) (o : Option PeerSlots)
    → o ≡ some e
    → e.held < most
    → IsEntry most r h o
    → IsEntry most r (h + 1) (send o)
IsEntry-send most r h e none same room i = absurd (ground arith)
IsEntry-send most r h e (some x) same room i =
    let is_e : x ≡ e = cc in
    let held : x.held ≡ e.held = ap (λ z. z.held) is_e in
    (i.0, i.1, omega (arith, i.2), omega (arith, i.2, held, room))

pub IsEntry-receive :
    (most r h : ℕ) (o : Option PeerSlots) → IsEntry most r (h + 1) o → IsEntry most r h (receive o)
IsEntry-receive most r h none i = absurd (omega (arith, i.1))
IsEntry-receive most r h (some e) i = (i.0, i.1, omega (arith, i.2), omega (arith, i.3))

pub IsEntry-forget :
    (most r h : ℕ) (o : Option PeerSlots)
    → h ≤ r
    → IsEntry most (r + 1) h o
    → IsEntry most r h (forget o)
IsEntry-forget most r h none le i = absurd (omega (arith, i.0))
IsEntry-forget most r h (some e) le i = elim (Bool-cases (leb e.refs 1)) [
  | inl last ↦
      let one = leb→le e.refs 1 last in
      rw last (omega (arith, i.0, one), omega (arith, i.0, one, le))
  | inr more ↦
      let above : 1 < e.refs = ground arith in
      rw more (omega (arith, i.0), omega (arith, i.0, above), i.2, i.3)
]
