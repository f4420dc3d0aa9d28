-- ===== src/Store/Retrieval.antt =====
-- `RetrieveMessages`: which messages come back, and in which order.
use mathlib.Core.List.{Perm}
use mathlib.Core.List.Perm
use go_ricochet.Base.{
  ℕ, suc, ◌≤◌, ◌<◌, ◌≡◌, refl, ◌↔◌, ◌⊎◌, inl, inr, Bool, true, false, Option, none, some, List, [],
  ◌∷◌, map, arith, Bool-cases, keep, All, All-imp, All-map, AllPairs, All-take, AllPairs-take, pos,
  ◌≤ℤ◌,
}
use go_ricochet.Wire.{Message}
use go_ricochet.Store.Rows.{MessageRow, Db, in_mailbox}
use go_ricochet.Store.Sort.{insert_by, sort_by}
use go_ricochet.Store.Messages.{
  is_live, from_passes, priority_passes, matches, limit_to, retrieve_order, scan_message,
  retrieve_messages,
}

module _ {ℓ} {A : Type ℓ} (before : A → A → Bool) where
  insert_by-perm : (x : A) (xs : List A) → Perm (insert_by before x xs) (x ∷ xs)
  unfolding insert_by
  insert_by-perm x [] = Perm.refl (x ∷ [])
  insert_by-perm x (y ∷ ys) = elim (Bool-cases (before y x)) [
    | inl e ↦ rw e (Perm.trans (Perm.cons y (insert_by-perm x ys)) (Perm.swap x y ys))
    | inr e ↦ rw e (Perm.refl (x ∷ y ∷ ys))
  ]

  pub sort_by-perm : (xs : List A) → Perm (sort_by before xs) xs
  unfolding sort_by
  sort_by-perm [] = Perm.refl []
  sort_by-perm (x ∷ xs) =
      Perm.trans (insert_by-perm x (sort_by before xs)) (Perm.cons x (sort_by-perm xs))

  pub All-insert_by {κ} :
      (P : A → Type κ) (x : A) (xs : List A) → P x → All P xs → All P (insert_by before x xs)
  unfolding insert_by
  All-insert_by P x [] p h = (p, tt)
  All-insert_by P x (y ∷ ys) p h = elim (Bool-cases (before y x)) [
    | inl e ↦ rw e (h.0, All-insert_by P x ys p h.1)
    | inr e ↦ rw e (p, h)
  ]

  pub All-sort_by {κ} : (P : A → Type κ) (xs : List A) → All P xs → All P (sort_by before xs)
  unfolding sort_by
  All-sort_by P [] h = tt
  All-sort_by P (x ∷ xs) h = All-insert_by P x (sort_by before xs) h.0 (All-sort_by P xs h.1)

-- `before` is a strict weak order, said of its Boolean test.
pub record IsOrder {ℓ} {A : Type ℓ} (before : A → A → Bool) : Type ℓ where
  pub asym : (a b : A) → before a b ≡ true → before b a ≡ false
  pub trans : (a b c : A) → before b a ≡ false → before c b ≡ false → before c a ≡ false

module _ {ℓ} {A : Type ℓ} (before : A → A → Bool) (o : IsOrder before) where
  insert_by-sorted :
      (x : A) (xs : List A)
      → AllPairs (λ a b. before b a ≡ false) xs
      → AllPairs (λ a b. before b a ≡ false) (insert_by before x xs)
  unfolding insert_by
  insert_by-sorted x [] h = (tt, tt)
  insert_by-sorted x (y ∷ ys) h = elim (Bool-cases (before y x)) [
    | inl e ↦ rw e (
      All-insert_by before (λ b. before b y ≡ false) x ys (o.asym y x e) h.0,
      insert_by-sorted x ys h.1,
    )
    | inr e ↦ rw e (
      (
        e,
        All-imp (λ b. before b y ≡ false) (λ b. before b x ≡ false) (λ b. o.trans x y b e) ys h.0,
      ),
      h,
    )
  ]

  pub sort_by-sorted : (xs : List A) → AllPairs (λ a b. before b a ≡ false) (sort_by before xs)
  unfolding sort_by
  sort_by-sorted [] = tt
  sort_by-sorted (x ∷ xs) = insert_by-sorted x (sort_by before xs) (sort_by-sorted xs)

retrieve_order-IsOrder : IsOrder retrieve_order
unfolding retrieve_order
retrieve_order-IsOrder = record { asym = λ a b h. ground arith; trans = λ a b c h k. ground arith }

-- A message that may stand before another on a page.
abbrev pub Leads : Message → Message → Type 0
Leads a b = (b.priority < a.priority) ⊎ ((b.priority ≡ a.priority) × (a.sequence ≤ b.sequence))

retrieve_order-Leads :
    (a b : MessageRow) → retrieve_order b a ≡ false → Leads (scan_message a) (scan_message b)
unfolding retrieve_order
retrieve_order-Leads a b h = ground arith

module _ (R : MessageRow → MessageRow → Type 0) (S : Message → Message → Type 0)
    (f : (a b : MessageRow) → R a b → S (scan_message a) (scan_message b)) where
  scan-AllPairs : (rows : List MessageRow) → AllPairs R rows → AllPairs S (map scan_message rows)
  scan-AllPairs [] h = tt
  scan-AllPairs (r ∷ rs) h = (
    All-map (S (scan_message r)) scan_message rs
        (All-imp (R r) (λ x. S (scan_message r) (scan_message x)) (f r) rs h.0),
    scan-AllPairs rs h.1,
  )

All-limit {ℓ κ} :
    {A : Type ℓ} (P : A → Type κ) (n : Option ℕ) (xs : List A) → All P xs → All P (limit_to n xs)
All-limit P none xs h = h
All-limit P (some n) xs h = All-take P n xs h

AllPairs-limit {ℓ κ} :
    {A : Type ℓ} (R : A → A → Type κ) (n : Option ℕ) (xs : List A)
    → AllPairs R xs
    → AllPairs R (limit_to n xs)
AllPairs-limit R none xs h = h
AllPairs-limit R (some n) xs h = AllPairs-take R n xs h

pub keep-All {ℓ} : {A : Type ℓ} (p : A → Bool) (xs : List A) → All (λ x. p x ≡ true) (keep p xs)
keep-All p [] = tt
keep-All p (x ∷ xs) = elim (Bool-cases (p x)) [
  | inl e ↦ rw e (e, keep-All p xs)
  | inr e ↦ rw e (keep-All p xs)
]

abbrev pub StartsAt : Option ℕ → ℕ → Type 0
StartsAt none sequence = Unit
StartsAt (some first) sequence = first ≤ sequence

abbrev pub IsAbove : Option ℕ → ℕ → Type 0
IsAbove none priority = Unit
IsAbove (some least) priority = least < priority

-- A row of the mailbox that has not expired, is at or behind the first sequence number where one is
-- named, and above the priority where one is named.
abbrev pub IsWanted : ℕ → ℕ → Option ℕ → Option ℕ → MessageRow → Type 0
IsWanted now mid from min_priority r =
    (r.mailbox_id ≡ mid)
    × (pos (suc now) ≤ℤ r.expires_at)
    × StartsAt from r.sequence
    × IsAbove min_priority r.priority

from-StartsAt :
    (from : Option ℕ) (r : MessageRow) → (from_passes from r ≡ true) ↔ StartsAt from r.sequence
from-StartsAt none r = (λ e. tt, λ h. refl)
from-StartsAt (some n) r = (λ e. ground arith, λ h. ground arith)

priority-IsAbove :
    (p : Option ℕ) (r : MessageRow) → (priority_passes p r ≡ true) ↔ IsAbove p r.priority
priority-IsAbove none r = (λ e. tt, λ h. refl)
priority-IsAbove (some n) r = (λ e. ground arith, λ h. ground arith)

matches-IsWanted :
    (now mid : ℕ) (from min_priority : Option ℕ) (r : MessageRow)
    → (matches now mid from min_priority r ≡ true) ↔ IsWanted now mid from min_priority r
matches-IsWanted now mid from min_priority r =
    let first = from-StartsAt from r in
    let least = priority-IsAbove min_priority r in
    (
      λ e. (ground arith, ground arith, first.0 (ground arith), least.0 (ground arith)),
      λ h.
          let here : in_mailbox mid r ≡ true = ground (arith, h.0) in
          let live : is_live now r ≡ true = ground (arith, h.1) in
          ground (arith, here, live, first.1 h.2, least.1 h.3),
    )

-- With no limit a retrieval returns, each exactly as often as it is stored, the messages that are
-- wanted: those of the mailbox whose expiry is later than now, whose sequence number is at least the
-- first one where one is named, and whose priority is above the one that is named, if one is.
pub retrieve-perm :
    (now mid : ℕ) (from min_priority : Option ℕ) (db : Db)
    → (wanted : MessageRow → Bool) × ((r : MessageRow)
        → (wanted r ≡ true) ↔ IsWanted now mid from min_priority r)
      × Perm
          (retrieve_messages now mid from none min_priority db)
          (map scan_message (keep wanted db.messages))
unfolding retrieve_messages
retrieve-perm now mid from min_priority db = (
  matches now mid from min_priority,
  matches-IsWanted now mid from min_priority,
  Perm.map scan_message (sort_by-perm retrieve_order _),
)

-- A retrieval, limited or not, is in order: a higher priority first, and among equal priorities
-- the smaller sequence number first.
pub retrieve-ordered :
    (now mid : ℕ) (from limit min_priority : Option ℕ) (db : Db)
    → AllPairs Leads (retrieve_messages now mid from limit min_priority db)
unfolding retrieve_messages
retrieve-ordered now mid from limit min_priority db =
    scan-AllPairs (λ a b. retrieve_order b a ≡ false) Leads retrieve_order-Leads _
      (AllPairs-limit (λ a b. retrieve_order b a ≡ false) limit _
        (sort_by-sorted retrieve_order retrieve_order-IsOrder _))

-- A retrieval with a minimum priority returns no message of that priority, only higher ones.
pub retrieve-above_minimum :
    (now mid p : ℕ) (from limit : Option ℕ) (db : Db)
    → All (λ m. p < m.priority) (retrieve_messages now mid from limit (some p) db)
unfolding retrieve_messages
retrieve-above_minimum now mid p from limit db =
    let hit = matches now mid from (some p) in
    All-map (λ m. p < m.priority) scan_message _
      (All-limit (λ r. p < r.priority) limit _
        (All-sort_by retrieve_order (λ r. p < r.priority) _
          (All-imp (λ r. hit r ≡ true) (λ r. p < r.priority) (λ r h. passed r h)
            (keep hit db.messages) (keep-All hit db.messages))))
  where
    passed : (r : MessageRow) → matches now mid from (some p) r ≡ true → p < r.priority
    passed r h = ground arith
