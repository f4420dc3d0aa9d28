-- ===== src/Documents/Prune.antt =====
-- What a prune of the versions leaves.
use go_ricochet.Base.{
  ℕ, zero, suc, ◌+◌, ◌≤◌, ◌<◌, ◌≡◌, refl, ap, ◌∙◌, inl, inr, Bool, true, false, not, some, List, [],
  ◌∷◌, ◌++◌, arith, ltb, ◌==◌, if◌then◌else◌, lt→ltb, eqb_refl, Bool-cases, length, take, drop,
  keep, find_first, any_of, sum_by, All, sum_by-append, length-take, take-append-drop, All-keep,
}
use go_ricochet.Store.Sort.{sort_by, insert_by}
use go_ricochet.Store.Retrieval.{All-sort_by}
use go_ricochet.Documents.{DocumentRow, VersionRow, is_version, beyond_kept, newest_version}
use go_ricochet.Documents.Invariant.{version_of}

-- A sum over a list and over the list sorted.
sum_by-sort :
    (before : VersionRow → VersionRow → Bool) (f : VersionRow → ℕ) (xs : List VersionRow)
    → sum_by f (sort_by before xs) ≡ sum_by f xs
unfolding sort_by insert_by
sum_by-sort before f [] = refl
sum_by-sort before f (x ∷ xs) =
    inserted x (sort_by before xs) ∙ ap (λ n. f x + n) (sum_by-sort before f xs)
  where
    inserted :
        (y : VersionRow) (ys : List VersionRow)
        → sum_by f (insert_by before y ys) ≡ f y + sum_by f ys
    inserted y [] = refl
    inserted y (z ∷ zs) = ground (arith, inserted y zs)

count : (VersionRow → Bool) → VersionRow → ℕ
count p v = if p v then 1 else 0

length-count :
    (p q : VersionRow → Bool) (xs : List VersionRow)
    → length (keep p (keep q xs)) ≡ sum_by (count q) (keep p xs)
unfolding count
length-count p q [] = refl
length-count p q (x ∷ xs) = ground (arith, length-count p q xs)

count_bound : (p : VersionRow → Bool) (xs : List VersionRow) → sum_by (count p) xs ≤ length xs
unfolding count
count_bound p [] = omega arith
count_bound p (x ∷ xs) = ground (arith, count_bound p xs)

-- A pruned version is among those that go.
none_stays :
    (gone all : List VersionRow)
    → ((i : ℕ) → any_of (λ x. x.id == i) gone ≡ true → any_of (λ x. x.id == i) all ≡ true)
    → sum_by (count (λ v. not (any_of (λ x. x.id == v.id) all))) gone ≡ 0
unfolding count
none_stays [] all h = refl
none_stays (x ∷ xs) all h =
    let here = h x.id (ground (arith, eqb_refl x.id)) in
    let rest = none_stays xs all (λ i e. h i (rw e (ground arith))) in rw here (omega (arith, rest))

-- Pruning leaves at most the given number of versions of a document.
pub prune_bound :
    (i most : ℕ) (vs : List VersionRow)
    → length (
        keep
          (λ v. v.document_id == i)
          (keep (λ v. not (any_of (λ x. x.id == v.id) (beyond_kept i most vs))) vs))
      ≤ most
unfolding beyond_kept
prune_bound i most vs =
    let mine = keep (λ v. v.document_id == i) vs in
    let sorted = sort_by newest_version mine in
    let stays : VersionRow → Bool = λ v. not (any_of (λ x. x.id == v.id) (drop most sorted)) in
    let counted = length-count (λ v. v.document_id == i) stays vs in
    let same = sum_by-sort newest_version (count stays) mine in
    let split = ap (sum_by (count stays)) (take-append-drop most sorted) in
    let both = sum_by-append (count stays) (take most sorted) (drop most sorted) in
    let none_left = none_stays (drop most sorted) (drop most sorted) (λ i e. e) in
    let few = count_bound stays (take most sorted) in
    let cut = length-take most sorted in
    omega (arith, counted, same, split, both, none_left, few, cut)

-- The newest version stands first.
sort-newest :
    (ys : List VersionRow) (v : VersionRow)
    → All (λ y. y.version_number < v.version_number) ys
    → sort_by newest_version (ys ++ v ∷ []) ≡ v ∷ sort_by newest_version ys
unfolding sort_by insert_by
sort-newest [] v h = refl
sort-newest (y ∷ ys) v h =
    let before : ltb y.version_number v.version_number ≡ true =
      lt→ltb y.version_number v.version_number h.0 in
    rw (sort-newest ys v h.1) (rw before refl)

keep-snoc :
    (p : VersionRow → Bool) (xs : List VersionRow) (v : VersionRow)
    → p v ≡ true
    → keep p (xs ++ v ∷ []) ≡ keep p xs ++ v ∷ []
keep-snoc p [] v e = rw e refl
keep-snoc p (x ∷ xs) v e = ground (arith, keep-snoc p xs v e)

All-drop : (P : VersionRow → Type 0) (n : ℕ) (xs : List VersionRow) → All P xs → All P (drop n xs)
All-drop P zero xs h = h
All-drop P (suc n) [] h = tt
All-drop P (suc n) (x ∷ xs) h = All-drop P n xs h.1

not_among :
    (i : ℕ) (xs : List VersionRow) → All (λ v. v.id < i) xs → any_of (λ x. x.id == i) xs ≡ false
not_among i [] h = refl
not_among i (x ∷ xs) h = ground (arith, h.0, not_among i xs h.1)

mine-older :
    (d : DocumentRow) (vs : List VersionRow)
    → All (λ v. v.document_id ≡ d.id → v.version_number < d.version_number) vs
    → All (λ v. v.version_number < d.version_number) (keep (λ v. v.document_id == d.id) vs)
mine-older d [] h = tt
mine-older d (v ∷ vs) h = elim (Bool-cases (v.document_id == d.id)) [
  | inl e ↦ rw e (h.0 (ground arith), mine-older d vs h.1)
  | inr e ↦ rw e (mine-older d vs h.1)
]

-- A version that was just kept is not pruned.
pub newest_stays :
    (d : DocumentRow) (next most : ℕ) (vs : List VersionRow)
    → All (λ v. v.document_id ≡ d.id → v.version_number < d.version_number) vs
    → All (λ v. v.id < next) vs
    → 0 < most
    → any_of (λ x. x.id == next) (beyond_kept d.id most (vs ++ version_of next d ∷ [])) ≡ false
unfolding beyond_kept
newest_stays d next zero vs older fresh some_kept = absurd (omega (arith, some_kept))
newest_stays d next (suc most) vs older fresh some_kept =
    let is_mine : VersionRow → Bool = λ v. v.document_id == d.id in
    let mine = keep is_mine vs in
    let added = keep-snoc is_mine vs (version_of next d) (eqb_refl d.id) in
    let first = sort-newest mine (version_of next d) (mine-older d vs older) in
    rw (added, first)
      (not_among next (drop most (sort_by newest_version mine)) (
        All-drop (λ v. v.id < next) most _
          (All-sort_by newest_version (λ v. v.id < next) mine
            (All-keep (λ v. v.id < next) is_mine vs fresh))))

-- A lookup that no earlier row answers.
pub find-last :
    (p q : VersionRow → Bool) (xs : List VersionRow) (v : VersionRow)
    → any_of q xs ≡ false
    → q v ≡ true
    → p v ≡ true
    → find_first q (keep p (xs ++ v ∷ [])) ≡ some v
find-last p q [] v h e f = rw (f, e) refl
find-last p q (x ∷ xs) v h e f =
    let miss : q x ≡ false = ground (arith, h) in
    let rest : any_of q xs ≡ false = ground (arith, h) in
    elim (Bool-cases (p x)) [
      | inl k ↦ rw (k, miss) (find-last p q xs v rest e f)
      | inr k ↦ rw k (find-last p q xs v rest e f)
    ]

pub no_such :
    (d : DocumentRow) (vs : List VersionRow)
    → All (λ v. v.document_id ≡ d.id → v.version_number < d.version_number) vs
    → any_of (is_version d.id d.version_number) vs ≡ false
no_such d [] h = refl
no_such d (v ∷ vs) h = elim (Bool-cases (v.document_id == d.id)) [
  | inl e ↦ ground (arith, h.0 (ground arith), no_such d vs h.1)
  | inr e ↦ ground (arith, no_such d vs h.1)
]
