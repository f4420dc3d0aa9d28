-- ===== src/Presence/Online.antt =====
-- The online set that a tracker gets from the pages of a heartbeat.
use go_ricochet.Base.{
  ℕ, zero, suc, ◌≤◌, ◌<◌, ◌≡◌, refl, sym, ap, ◌∙◌, subst, inl, inr, true, false, ◌&&◌, Option, none,
  some, List, [], ◌∷◌, ◌++◌, arith, ltb, ◌==◌, ltb→lt, lt→ltb, Bool-cases, length, any_of, All,
  All-append, All-imp, Text, text_eq_refl, mem_text,
}
use go_ricochet.Presence.{
  range, slice, pages_of, heartbeat_page, Assembly, Partial, pending, mem_page, with_page, add_page,
  assemble_heartbeat,
}
use go_ricochet.Presence.Pages.{slices-all}
use go_ricochet.Presence.Assembling.{IsReceiving, add_page-lem}

below-absent : (n : ℕ) (ps : List ℕ) → All (λ p. p < n) ps → mem_page n ps ≡ false
below-absent n [] h = refl
below-absent n (p ∷ ps) h = ground (arith, below-absent n ps h.1)

range-below : (k n : ℕ) → k ≤ n → All (λ q. q < n) (range k)
unfolding range
range-below zero n h = tt
range-below (suc k) n h =
    All-append (λ q. q < n) (range k) (k ∷ []) (range-below k n (omega (arith, h)))
      (omega (arith, h), tt)

module _ (server : Text) (seq : ℕ) (ids : List Text) (size : ℕ) where
  -- What the tracker keeps after some pages of the heartbeat, in the order of their arrival.
  abbrev pub receive : List ℕ → Partial → Partial
  receive [] partial = partial
  receive (p ∷ ps) partial =
      receive ps (assemble_heartbeat (heartbeat_page server seq ids size p) partial).0

  receive-snoc :
      (ps : List ℕ) (p : ℕ) (partial : Partial)
      → receive (ps ++ p ∷ []) partial
        ≡ (assemble_heartbeat (heartbeat_page server seq ids size p) (receive ps partial)).0
  receive-snoc [] p partial = refl
  receive-snoc (q ∷ ps) p partial = receive-snoc ps p _

  -- The tracker has no page of this sequence.
  abbrev pub IsFresh : Partial → Type 0
  IsFresh partial = (a : Assembly) → partial server ≡ some a → (a.sequence == seq) ≡ false

  many_pages :
      (p : ℕ) (partial : Partial)
      → p < pages_of (length ids) size
      → 1 < pages_of (length ids) size
      → assemble_heartbeat (heartbeat_page server seq ids size p) partial
        ≡ add_page (heartbeat_page server seq ids size p) p (pages_of (length ids) size) partial
  unfolding assemble_heartbeat heartbeat_page
  many_pages p partial h k =
      let more = lt→ltb 1 (pages_of (length ids) size) k in
      let within = lt→ltb p (pages_of (length ids) size) h in
      rw (more, assemble_heartbeat) (rw within refl)

  single_page :
      (p : ℕ) (partial : Partial)
      → pages_of (length ids) size ≡ 1
      → assemble_heartbeat (heartbeat_page server seq ids size p) partial
        ≡ (partial, some (slice size ids p))
  unfolding assemble_heartbeat heartbeat_page
  single_page p partial e = rw (e, assemble_heartbeat) refl

  -- The pending assembly has the pages below k.
  IsAt : ℕ → Partial → Type 0
  IsAt k partial =
      let a = pending (partial server) seq (pages_of (length ids) size) in
      (length a.pages ≡ k)
      × All (λ p. p < k) a.pages
      × (a.sequence ≡ seq)
      × (a.total ≡ pages_of (length ids) size)

  fresh-IsAt : (partial : Partial) → IsFresh partial → IsAt 0 partial
  unfolding pending IsAt
  fresh-IsAt partial f = by_entry (partial server) f
    where
      by_entry :
          (o : Option Assembly)
          → ((a : Assembly) → o ≡ some a → (a.sequence == seq) ≡ false)
          → let a = pending o seq (pages_of (length ids) size) in
            (length a.pages ≡ 0)
            × All (λ p. p < 0) a.pages
            × (a.sequence ≡ seq)
            × (a.total ≡ pages_of (length ids) size)
      by_entry none g = (refl, tt, refl, refl)
      by_entry (some a) g = let old = g a refl in rw old (refl, tt, refl, refl)

  next-page :
      (k : ℕ) (partial : Partial)
      → IsAt k partial
      → let a =
          with_page k
            (slice size ids k)
            (pending (partial server) seq (pages_of (length ids) size)) in
        (length a.pages ≡ suc k)
        × All (λ p. p < suc k) a.pages
        × (a.sequence ≡ seq)
        × (a.total ≡ pages_of (length ids) size)
  unfolding IsAt with_page
  next-page k partial h =
      let a = pending (partial server) seq (pages_of (length ids) size) in
      let new = below-absent k a.pages h.1 in
      rw new (
        omega (arith, h.0),
        (omega arith, All-imp (λ p. p < k) (λ p. p < suc k) (λ p l. omega (arith, l)) a.pages h.1),
        h.2,
        h.3,
      )

  -- The next page in order is kept, or it is the last and completes the set.
  add-next :
      (k : ℕ) (partial : Partial)
      → IsAt k partial
      → let next =
          add_page (heartbeat_page server seq ids size k) k (pages_of (length ids) size) partial in
        (suc k < pages_of (length ids) size → IsAt (suc k) next.0)
        × (suc k ≡ pages_of (length ids) size → (online : List Text) × (next.1 ≡ some online))
  unfolding add_page heartbeat_page IsAt pending
  add-next k partial h =
      let a =
        with_page k (slice size ids k)
          (pending (partial server) seq (pages_of (length ids) size)) in
      let at = next-page k partial h in
      let self = text_eq_refl server in
      (
        (λ more.
            let e : ltb (length a.pages) a.total ≡ true = ground (arith, at.0, at.3) in
            let here : (a.sequence == seq && a.total == pages_of (length ids) size) ≡ true =
              ground (arith, at.2, at.3) in
            rw (e, add_page) (rw self (rw here at))),
        (λ all.
            let e : ltb (length a.pages) a.total ≡ false = ground (arith, at.0, at.3) in
            (a.online, rw (e, add_page) refl)),
      )

  in_order :
      (k : ℕ) (partial : Partial)
      → IsFresh partial
      → 1 < pages_of (length ids) size
      → k < pages_of (length ids) size
      → IsAt k (receive (range k) partial)
  unfolding range
  in_order zero partial f many h = fresh-IsAt partial f
  in_order (suc k) partial f many h =
      let before = in_order k partial f many (omega (arith, h)) in
      let here = many_pages k (receive (range k) partial) (omega (arith, h)) many in
      rw (receive-snoc (range k) k partial, here)
        ((add-next k (receive (range k) partial) before).0 h)

  module _ (h_size : 0 < size) where
    single_set :
        (p : ℕ)
        → p < pages_of (length ids) size
        → pages_of (length ids) size ≡ 1
        → (x : Text) → mem_text x (slice size ids p) ≡ mem_text x ids
    unfolding range
    single_set p h e x =
        let first : p ≡ 0 = omega (arith, h, e) in
        let whole : any_of (λ q. mem_text x (slice size ids q)) (range 1) ≡ mem_text x ids =
          rw e at (slices-all x size ids h_size) in
        rw first (ground (arith, whole))

    step-lem :
        (p : ℕ) (partial : Partial)
        → p < pages_of (length ids) size
        → IsReceiving server seq ids size h_size partial
        → let next = assemble_heartbeat (heartbeat_page server seq ids size p) partial in
          IsReceiving server seq ids size h_size next.0
          × ((online : List Text)
              → next.1 ≡ some online
              → (x : Text) → mem_text x online ≡ mem_text x ids)
    step-lem p partial h r = elim (Bool-cases (ltb 1 (pages_of (length ids) size))) [
      | inl more ↦
          rw (many_pages p partial h (ltb→lt 1 _ more))
            (add_page-lem server seq ids size h_size p partial h r)
      | inr one ↦
          let at_least : 0 < pages_of (length ids) size = omega (arith, h) in
          let is_one : pages_of (length ids) size ≡ 1 = ground arith in
          rw (single_page p partial is_one) (
            r,
            λ online done x.
                let same : slice size ids p ≡ online = ground arith in
                ap (mem_text x) (sym same) ∙ single_set p h is_one x,
          )
    ]

    receive-IsReceiving :
        (ps : List ℕ) (partial : Partial)
        → All (λ p. p < pages_of (length ids) size) ps
        → IsReceiving server seq ids size h_size partial
        → IsReceiving server seq ids size h_size (receive ps partial)
    receive-IsReceiving [] partial h r = r
    receive-IsReceiving (p ∷ ps) partial h r =
        receive-IsReceiving ps _ h.1 (step-lem p partial h.0 r).0

    fresh-IsReceiving :
        (partial : Partial) → IsFresh partial → IsReceiving server seq ids size h_size partial
    fresh-IsReceiving partial f a e same = let other = f a e in absurd (ground arith)

    -- Whatever pages of a heartbeat a tracker received before, in any order and repeated, from a
    -- state without pages of that sequence: a page that completes the online set completes it with
    -- exactly the peers that the server published.
    pub assembled-online :
        (ps : List ℕ) (p : ℕ) (partial : Partial) (online : List Text)
        → IsFresh partial
        → All (λ q. q < pages_of (length ids) size) ps
        → p < pages_of (length ids) size
        → (assemble_heartbeat (heartbeat_page server seq ids size p) (receive ps partial)).1
          ≡ some online
        → (x : Text) → mem_text x online ≡ mem_text x ids
    assembled-online ps p partial online f hs h done =
        let r = receive-IsReceiving ps partial hs (fresh-IsReceiving partial f) in
        (step-lem p (receive ps partial) h r).1 online done

    -- A tracker without pages of a heartbeat's sequence that receives its pages in order has, with the
    -- last of them, exactly the peers that the server published.
    pub in_order-online :
        (last : ℕ) (partial : Partial)
        → pages_of (length ids) size ≡ suc last
        → IsFresh partial
        → (online : List Text) × ((assemble_heartbeat
              (heartbeat_page server seq ids size last)
              (receive (range last) partial)).1
            ≡ some online)
          × ((x : Text) → mem_text x online ≡ mem_text x ids)
    in_order-online last partial e f =
        let s = receive (range last) partial in
        let below = range-below last (suc last) (omega arith) in
        let same_total = subst (λ n. All (λ q. q < n) (range last)) (sym e) below in
        let here : last < pages_of (length ids) size = omega (arith, e) in
        elim (Bool-cases (ltb 1 (pages_of (length ids) size))) [
          | inl more ↦
              let many = ltb→lt 1 _ more in
              let (online, done) =
                (add-next last s (in_order last partial f many here)).1 (sym e) in
              let complete = ap (λ r. r.1) (many_pages last s here many) ∙ done in
              (
                online,
                complete,
                assembled-online (range last) last partial online f same_total here complete,
              )
          | inr one ↦
              let is_one : pages_of (length ids) size ≡ 1 = ground (arith, e) in
              let complete = ap (λ r. r.1) (single_page last s is_one) in
              (
                slice size ids last,
                complete,
                assembled-online (range last) last partial (slice size ids last) f same_total here
                    complete,
              )
        ]
