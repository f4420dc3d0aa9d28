-- ===== src/Presence/Assembling.antt =====
-- Putting a heartbeat together from its pages.
use go_ricochet.Base.{
  ℕ, ◌<◌, ◌≡◌, refl, sym, ap, ◌∙◌, subst, inl, inr, Bool, true, ◌&&◌, ◌||◌, Option, none, some,
  List, [], ◌∷◌, arith, ltb, ◌==◌, Bool-cases, length, any_of, All, Text, text_eq_refl, mem_text,
}
use go_ricochet.Presence.{
  slice, pages_of, heartbeat_page, Assembly, Partial, pending, mem_page, insert_page, with_page,
  add_page,
}
use go_ricochet.Presence.Pages.{mem-append, slices-all}
use go_ricochet.Presence.Counting.{Distinct, absent, any-range}

already :
    (f : ℕ → Bool) (p : ℕ) (ps : List ℕ) → mem_page p ps ≡ true → (f p || any_of f ps) ≡ any_of f ps
already f p [] h = absurd (ground arith)
already f p (q ∷ ps) h = elim (Bool-cases (q == p)) [
  | inl e ↦ let same : q ≡ p = ground arith in rw same (ground arith)
  | inr e ↦ let ih = already f p ps (ground arith) in ground (arith, ih)
]

any-insert :
    (f : ℕ → Bool) (p : ℕ) (ps : List ℕ) → any_of f (insert_page p ps) ≡ (f p || any_of f ps)
any-insert f p ps = elim (Bool-cases (mem_page p ps)) [
  | inl e ↦ rw e (sym (already f p ps e))
  | inr e ↦ rw e refl
]

insert-Distinct : (p : ℕ) (ps : List ℕ) → Distinct ps → Distinct (insert_page p ps)
insert-Distinct p ps d = elim (Bool-cases (mem_page p ps)) [
  | inl e ↦ rw e d
  | inr e ↦ rw e (absent p ps e, d)
]

insert-below :
    (n p : ℕ) (ps : List ℕ) → p < n → All (λ q. q < n) ps → All (λ q. q < n) (insert_page p ps)
insert-below n p ps h k = elim (Bool-cases (mem_page p ps)) [ inl e ↦ rw e k | inr e ↦ rw e (h, k) ]

-- One heartbeat of a server: its sequence number, its online set and the size of its pages.
module _ (server : Text) (seq : ℕ) (ids : List Text) (size : ℕ) (h_size : 0 < size) where
  abbrev total : ℕ
  total = pages_of (length ids) size

  -- What arrived of this heartbeat: pages of it, and the peers that they carry.
  pub record IsPart (a : Assembly) : Type 0 where
    pub distinct : Distinct a.pages
    pub below : All (λ p. p < pages_of (length ids) size) a.pages
    pub carries :
        (x : Text) → mem_text x a.online ≡ any_of (λ p. mem_text x (slice size ids p)) a.pages

  -- The pending assembly, where it is of this heartbeat, is a part of it.
  abbrev pub IsReceiving : Partial → Type 0
  IsReceiving partial =
      (a : Assembly)
      → partial server ≡ some a
      → (a.sequence == seq && a.total == pages_of (length ids) size) ≡ true
      → IsPart a

  pending-IsPart :
      (o : Option Assembly)
      → ((a : Assembly) → o ≡ some a → (a.sequence == seq && a.total == total) ≡ true → IsPart a)
      → IsPart (pending o seq total) × ((pending o seq total).total ≡ total)
  unfolding pending
  pending-IsPart none r = (record { distinct = tt; below = tt; carries = λ x. refl }, refl)
  pending-IsPart (some a) r = elim (Bool-cases (a.sequence == seq && a.total == total)) [
    | inl e ↦ rw e (r a refl e, ground arith)
    | inr e ↦ rw e (record { distinct = tt; below = tt; carries = λ x. refl }, refl)
  ]

  with_page-IsPart :
      (p : ℕ) (a : Assembly) → p < total → IsPart a → IsPart (with_page p (slice size ids p) a)
  unfolding with_page
  with_page-IsPart p a h r = record {
    distinct = insert-Distinct p a.pages r.distinct;
    below = insert-below total p a.pages h r.below;
    carries = λ x.
        mem-append x (slice size ids p) a.online
        ∙ (ap (λ b. mem_text x (slice size ids p) || b) (r.carries x)
            ∙ sym (any-insert (λ q. mem_text x (slice size ids q)) p a.pages));
  }

  -- A page of the heartbeat keeps the pending assembly a part of it; where it completes the online
  -- set, that set has exactly the heartbeat's peers.
  pub add_page-lem :
      (p : ℕ) (partial : Partial)
      → p < total
      → IsReceiving partial
      → let next = add_page (heartbeat_page server seq ids size p) p total partial in
        IsReceiving next.0
        × ((online : List Text)
            → next.1 ≡ some online
            → (x : Text) → mem_text x online ≡ mem_text x ids)
  unfolding add_page heartbeat_page
  add_page-lem p partial h r =
      let old = pending-IsPart (partial server) r in
      let a = with_page p (slice size ids p) (pending (partial server) seq total) in
      let part : IsPart a = with_page-IsPart p _ h old.0 in
      let self = text_eq_refl server in
      let is_total : a.total ≡ total = unfold with_page in old.1 in
      elim (Bool-cases (ltb (length a.pages) a.total)) [
        | inl e ↦
            rw (e, add_page)
              (
                (λ b is_b same.
                    let mine : some a ≡ some b = rw self at is_b in
                    let is_a : a ≡ b = cc in subst IsPart is_a part),
                (λ online done. absurd (ground arith)),
              )
        | inr e ↦
            rw (e, add_page)
              (
                (λ b is_b same.
                    let mine : none ≡ some b = rw self at is_b in absurd (ground arith)),
                (λ online done x.
                    let is_online : a.online ≡ online = ground arith in
                    ap (mem_text x) (sym is_online)
                    ∙ (part.carries x
                        ∙ (any-range (λ q. mem_text x (slice size ids q)) total a.pages
                              part.distinct part.below (ground arith)
                            ∙ slices-all x size ids h_size))),
              )
      ]
