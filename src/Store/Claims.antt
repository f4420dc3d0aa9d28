-- ===== src/Store/Claims.antt =====
-- `ClaimMessage`: the oldest live message, handed out once.
use go_ricochet.Base.{
  ℕ, ◌≤◌, ◌<◌, ◌≡◌, refl, sym, ◌∙◌, ◌≢◌, inl, inr, Bool, true, false, not, ◌&&◌, Option, none, some,
  List, [], ◌∷◌, arith, ◌==◌, ==_iff, Bool-cases, Option-cases, keep, find_first, All, All-keep,
  All-find, All-imp, AllPairs,
}
use go_ricochet.Wire.{Message}
use go_ricochet.Store.Rows.{MessageRow, Db, in_mailbox, delete_where}
use go_ricochet.Store.Sort.{insert_by, sort_by}
use go_ricochet.Store.Messages.{is_live, by_sequence, scan_message, oldest_live, claim_message}
use go_ricochet.Store.Invariant.{Precedes, WellFormed}
use go_ricochet.Store.Retrieval.{IsOrder, sort_by-sorted, All-sort_by, keep-All}

by_sequence-IsOrder : IsOrder by_sequence
by_sequence-IsOrder = record { asym = λ a b h. ground arith; trans = λ a b c h k. ground arith }

abbrev candidate : ℕ → ℕ → MessageRow → Bool
candidate now mid r = in_mailbox mid r && is_live now r

-- A property of a row that holds of all that share its standing in a list: kept by sorting.
module _ (r : MessageRow) where
  first_least :
      (xs : List MessageRow)
      → AllPairs (λ a b. by_sequence b a ≡ false) xs
      → find_first (λ x. true) xs ≡ some r
      → All (λ x. r.sequence ≤ x.sequence) xs
  first_least [] h e = cc
  first_least (x ∷ xs) h e = (
    ground arith,
    All-imp (λ b. by_sequence b x ≡ false) (λ b. r.sequence ≤ b.sequence) (λ b k. ground arith) xs
        h.0,
  )

  insert_by-All :
      (P : MessageRow → Type 0) (x : MessageRow) (xs : List MessageRow)
      → All P (insert_by by_sequence x xs)
      → P x × All P xs
  unfolding insert_by
  insert_by-All P x [] h = h
  insert_by-All P x (y ∷ ys) h = elim (Bool-cases (by_sequence y x)) [
    | inl e ↦
        let h' : P y × All P (insert_by by_sequence x ys) = rw (e, insert_by) at h in
        let ih = insert_by-All P x ys h'.1 in (ih.0, (h'.0, ih.1))
    | inr e ↦ let h' : P x × (P y × All P ys) = rw (e, insert_by) at h in (h'.0, h'.1)
  ]

  sort_by-All :
      (P : MessageRow → Type 0) (xs : List MessageRow) → All P (sort_by by_sequence xs) → All P xs
  unfolding sort_by
  sort_by-All P [] h = tt
  sort_by-All P (x ∷ xs) h =
      let both = insert_by-All P x (sort_by by_sequence xs) h in (both.0, sort_by-All P xs both.1)

  find-All :
      (P : MessageRow → Type 0) (xs : List MessageRow)
      → All P xs
      → find_first (λ x. true) xs ≡ some r
      → P r
  find-All P xs h e = All-find P (λ x. true) xs r h e

  -- What is said of every row kept is said of every row that passes.
  keep-imp :
      (p : MessageRow → Bool) (P : MessageRow → Type 0) (xs : List MessageRow)
      → All P (keep p xs)
      → All (λ x. p x ≡ true → P x) xs
  keep-imp p P [] h = tt
  keep-imp p P (x ∷ xs) h = elim (Bool-cases (p x)) [
    | inl e ↦ let h' : P x × All P (keep p xs) = rw e at h in ((λ _. h'.0), keep-imp p P xs h'.1)
    | inr e ↦
        let h' : All P (keep p xs) = rw e at h in ((λ d. absurd (ground arith)), keep-imp p P xs h')
  ]

oldest_live-All :
    (now mid : ℕ) (rows : List MessageRow) (r : MessageRow) (P : MessageRow → Type 0)
    → All P rows
    → oldest_live now mid rows ≡ some r
    → P r
unfolding oldest_live
oldest_live-All now mid rows r P h e =
    find-All r P _ (All-sort_by by_sequence P _ (All-keep P (candidate now mid) rows h)) e

oldest_live-candidate :
    (now mid : ℕ) (rows : List MessageRow) (r : MessageRow)
    → oldest_live now mid rows ≡ some r
    → candidate now mid r ≡ true
unfolding oldest_live
oldest_live-candidate now mid rows r e =
    let P = λ (x : MessageRow). candidate now mid x ≡ true in
    find-All r P _ (All-sort_by by_sequence P _ (keep-All (candidate now mid) rows)) e

oldest_live-least :
    (now mid : ℕ) (rows : List MessageRow) (r : MessageRow)
    → oldest_live now mid rows ≡ some r
    → All (λ x. candidate now mid x ≡ true → r.sequence ≤ x.sequence) rows
unfolding oldest_live
oldest_live-least now mid rows r e =
    keep-imp r (candidate now mid) (λ x. r.sequence ≤ x.sequence) rows
      (sort_by-All r (λ x. r.sequence ≤ x.sequence) _
        (first_least r _ (sort_by-sorted by_sequence by_sequence-IsOrder _) e))

-- What a claim hands out, and the rows it leaves.
abbrev pub Claims : ℕ → ℕ → Db → Db × Option Message → Type 0
Claims now mid db (after, none) =
    (after ≡ db) × All (λ x. (in_mailbox mid x && is_live now x) ≡ false) db.messages
Claims now mid db (after, some m) =
    (r : MessageRow) × (m ≡ scan_message r)
    × (r.mailbox_id ≡ mid)
    × (is_live now r ≡ true)
    × All (λ x. (in_mailbox mid x && is_live now x) ≡ true → r.sequence ≤ x.sequence) db.messages
    × (after.messages ≡ keep (λ x. not (x.id == r.id)) db.messages)

insert_by-first :
    (y : MessageRow) (ys : List MessageRow)
    → find_first (λ x. true) (insert_by by_sequence y ys) ≢ none
unfolding insert_by
insert_by-first y [] e = cc
insert_by-first y (z ∷ zs) e = elim (Bool-cases (by_sequence z y)) [
  | inl h ↦ let e' : some z ≡ none = rw h at e in cc
  | inr h ↦ let e' : some y ≡ none = rw h at e in cc
]

no_candidate :
    (p : MessageRow → Bool) (rows : List MessageRow)
    → find_first (λ x. true) (sort_by by_sequence (keep p rows)) ≡ none
    → All (λ x. p x ≡ false) rows
unfolding sort_by
no_candidate p [] e = tt
no_candidate p (x ∷ xs) e = elim (Bool-cases (p x)) [
  | inl h ↦ absurd (insert_by-first x (sort_by by_sequence (keep p xs)) (rw h at e))
  | inr h ↦ (h, no_candidate p xs (rw h at e))
]

-- A claim that finds nothing changes nothing and there was no live message in the mailbox; one that
-- finds a message returns a live one of the mailbox with the least sequence number among its live
-- ones, and removes the rows with that row's ID and no others.
pub claim-Claims : (now mid : ℕ) (db : Db) → Claims now mid db (claim_message now mid db)
unfolding claim_message
claim-Claims now mid db = elim (Option-cases (oldest_live now mid db.messages)) [
  | inl e ↦
      rw (e, claim_message)
        (refl, unfold oldest_live in no_candidate (candidate now mid) db.messages e)
  | inr (r, e) ↦
      let ok = oldest_live-candidate now mid db.messages r e in
      rw (e, claim_message)
        (
          r,
          refl,
          ground arith,
          ground arith,
          oldest_live-least now mid db.messages r e,
          unfold delete_where in refl,
        )
]

-- Time does not revive a message.
live_earlier :
    (now later : ℕ) (r : MessageRow) → now ≤ later → is_live later r ≡ true → is_live now r ≡ true
live_earlier now later r h e = ground arith

-- Rows of one mailbox that share a sequence number are one row.
abbrev SameRow : MessageRow → MessageRow → Type 0
SameRow a b = a.mailbox_id ≡ b.mailbox_id → a.sequence ≡ b.sequence → a.id ≡ b.id

same_rows : (rows : List MessageRow) → AllPairs Precedes rows → All (λ a. All (SameRow a) rows) rows
same_rows [] h = tt
same_rows (x ∷ xs) h = (
  (
    (λ d e. refl),
    All-imp (Precedes x) (SameRow x) (λ b k d e. absurd (omega (arith, k.2 d))) xs h.0,
  ),
  widen xs
      (All-imp (Precedes x) (λ a. SameRow a x) (λ b k d e. absurd (omega (arith, k.2 (sym d)))) xs
        h.0)
      (same_rows xs h.1),
)
  where
    widen :
        (ys : List MessageRow)
        → All (λ a. SameRow a x) ys
        → All (λ a. All (SameRow a) xs) ys
        → All (λ a. SameRow a x × All (SameRow a) xs) ys
    widen [] p q = tt
    widen (y ∷ ys) p q = ((p.0, q.0), widen ys p.1 q.1)

claimed :
    (now mid : ℕ) (db : Db) (a : Message)
    → (claim_message now mid db).1 ≡ some a
    → (r : MessageRow) × (oldest_live now mid db.messages ≡ some r)
      × (a ≡ scan_message r)
      × ((claim_message now mid db).0.messages ≡ keep (λ x. not (x.id == r.id)) db.messages)
unfolding claim_message delete_where
claimed now mid db a h = elim (Option-cases (oldest_live now mid db.messages)) [
  | inl e ↦ let h' : none ≡ some a = rw (e, claim_message) at h in cc
  | inr (r, e) ↦
      let h' : some (scan_message r) ≡ some a = rw (e, claim_message) at h in
      (r, e, cc, rw (e, claim_message))
]

claim_order :
    (now later mid : ℕ) (r s : MessageRow)
    → now ≤ later
    → candidate now mid r ≡ true
    → candidate later mid s ≡ true
    → not (s.id == r.id) ≡ true
    → SameRow r s
    → (candidate now mid s ≡ true → r.sequence ≤ s.sequence)
    → r.sequence < s.sequence
claim_order now later mid r s le here there other one least =
    let in_r : r.mailbox_id ≡ mid = ground arith in
    let in_s : s.mailbox_id ≡ mid = ground arith in
    let live : candidate now mid s ≡ true = ground arith in
    let apart : r.id ≢ s.id = λ e. absurd (ground arith) in
    let below : r.sequence ≤ s.sequence = least live in
    elim (Bool-cases (r.sequence == s.sequence)) [
      | inl e ↦ absurd (apart (one (in_r ∙ sym in_s) ((==_iff r.sequence s.sequence).0 e)))
      | inr e ↦ ground arith
    ]

-- Of two claims from a mailbox of well-formed tables, the second not at an earlier clock reading and
-- nothing in between, the second message has a greater sequence number, so it is another message.
pub claim_twice :
    (now later mid : ℕ) (db : Db) (a b : Message)
    → WellFormed db
    → now ≤ later
    → (claim_message now mid db).1 ≡ some a
    → (claim_message later mid (claim_message now mid db).0).1 ≡ some b
    → a.sequence < b.sequence
claim_twice now later mid db a b w le ha hb =
    let (r, found, is_r, left) = claimed now mid db a ha in
    let (s, found', is_s, _) = claimed later mid (claim_message now mid db).0 b hb in
    let rows = db.messages in
    let rest = keep (λ x. not (x.id == r.id)) rows in
    let again : oldest_live later mid rest ≡ some s = rw left at found' in
    let here = oldest_live-candidate now mid rows r found in
    let there = oldest_live-candidate later mid rest s again in
    let same =
      oldest_live-All now mid rows r (λ x. All (SameRow x) rows) (same_rows rows w.ordered) found in
    let one =
      oldest_live-All later mid rest s (SameRow r) (All-keep (SameRow r) _ rows same) again in
    let other =
      oldest_live-All later mid rest s (λ x. not (x.id == r.id) ≡ true)
        (keep-All (λ x. not (x.id == r.id)) rows) again in
    let least =
      oldest_live-All later mid rest s (λ x. candidate now mid x ≡ true → r.sequence ≤ x.sequence)
        (All-keep (λ x. candidate now mid x ≡ true → r.sequence ≤ x.sequence) _ rows
          (oldest_live-least now mid rows r found))
        again in
    rw (is_r, is_s) (claim_order now later mid r s le here there other one least)
