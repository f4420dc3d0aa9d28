-- ===== src/Documents/Invariant.antt =====
-- What the tables of the documents keep true.
use go_ricochet.Base.{
  ℕ, suc, ◌≤◌, ◌<◌, ◌≡◌, sym, ◌∙◌, subst, inl, inr, Bool, true, false, some, List, [], ◌∷◌, ◌++◌,
  map, arith, Bool-cases, keep, find_first, All, All-keep, All-append, All-find, All-imp, AllPairs,
  AllPairs-keep, AllPairs-snoc,
}
use go_ricochet.Documents.{DocumentRow, VersionRow, Docs, at_path}

abbrev pub IsNewer : VersionRow → DocumentRow → Type 0
IsNewer v d = d.id ≡ v.document_id → v.version_number < d.version_number

abbrev pub Follows : VersionRow → VersionRow → Type 0
Follows v w = (v.id < w.id) × (v.document_id ≡ w.document_id → v.version_number < w.version_number)

-- Kept versions are older than their document and were kept in order.
pub record IsHistory (ds : List DocumentRow) (next_version next_document : ℕ) (vs : List VersionRow)
    : Type 0 where
  pub older : All (λ v. All (IsNewer v) ds) vs
  pub order : AllPairs Follows vs
  pub fresh : All (λ v. v.id < next_version) vs
  pub owned : All (λ v. v.document_id < next_document) vs

-- IDs and paths are distinct, and the versions are a history.
pub record WellFormed (db : Docs) : Type 0 where
  pub ids : AllPairs (λ a b. a.id < b.id) db.documents
  pub fresh : All (λ d. d.id < db.next_document) db.documents
  pub paths : AllPairs (λ a b. at_path a.owner a.path b ≡ false) db.documents
  pub history : IsHistory db.documents db.next_version db.next_document db.versions

pub IsHistory-keep :
    (ds : List DocumentRow) (nv nd : ℕ) (vs : List VersionRow) (p : VersionRow → Bool)
    → IsHistory ds nv nd vs
    → IsHistory ds nv nd (keep p vs)
IsHistory-keep ds nv nd vs p h = record {
  older = All-keep (λ v. All (IsNewer v) ds) p vs h.older;
  order = AllPairs-keep Follows p vs h.order;
  fresh = All-keep (λ v. v.id < nv) p vs h.fresh;
  owned = All-keep (λ v. v.document_id < nd) p vs h.owned;
}

-- A change of the rows that keeps their IDs and lowers no version number.
pub record Keeps (f : DocumentRow → DocumentRow) : Type 0 where
  pub same_id : (d : DocumentRow) → (f d).id ≡ d.id
  pub same_owner : (d : DocumentRow) → (f d).owner ≡ d.owner
  pub same_path : (d : DocumentRow) → (f d).path ≡ d.path
  pub no_older : (d : DocumentRow) → d.version_number ≤ (f d).version_number

older-map :
    (f : DocumentRow → DocumentRow) (v : VersionRow) (ds : List DocumentRow)
    → Keeps f
    → All (IsNewer v) ds
    → All (IsNewer v) (map f ds)
older-map f v [] k h = tt
older-map f v (d ∷ ds) k h =
    ((λ e. omega (arith, k.no_older d, h.0 (sym (k.same_id d) ∙ e))), older-map f v ds k h.1)

pub IsHistory-map :
    (f : DocumentRow → DocumentRow) (ds : List DocumentRow) (nv nd : ℕ) (vs : List VersionRow)
    → Keeps f
    → IsHistory ds nv nd vs
    → IsHistory (map f ds) nv nd vs
IsHistory-map f ds nv nd vs k h = record {
  older =
      All-imp (λ v. All (IsNewer v) ds) (λ v. All (IsNewer v) (map f ds)) (λ v. older-map f v ds k)
        vs h.older;
  order = h.order;
  fresh = h.fresh;
  owned = h.owned;
}

-- The row that is found is the only one with its ID.
pub same_row :
    (p : DocumentRow → Bool) (ds : List DocumentRow) (d : DocumentRow)
    → AllPairs (λ a b. a.id < b.id) ds
    → find_first p ds ≡ some d
    → All (λ x. x.id ≡ d.id → x ≡ d) ds
same_row p [] d w e = tt
same_row p (x ∷ xs) d w e = elim (Bool-cases (p x)) [
  | inl h ↦
      let found : some x ≡ some d = rw h at e in
      let is_d : x ≡ d = cc in
      (
        (λ same. is_d),
        subst (λ (z : DocumentRow). All (λ y. y.id ≡ z.id → y ≡ z) xs) is_d
            (All-imp (λ b. x.id < b.id) (λ y. y.id ≡ x.id → y ≡ x)
              (λ y l same. absurd (omega (arith, l, same))) xs w.0),
      )
  | inr h ↦
      let found : find_first p xs ≡ some d = rw h at e in
      let above : x.id < d.id = All-find (λ b. x.id < b.id) p xs d w.0 found in
      ((λ same. absurd (omega (arith, above, same))), same_row p xs d w.1 found)
]

pub find-holds :
    {A : Type 0} (p : A → Bool) (xs : List A) (a : A) → find_first p xs ≡ some a → p a ≡ true
find-holds p [] a e = absurd (ground arith)
find-holds p (x ∷ xs) a e = elim (Bool-cases (p x)) [
  | inl h ↦
      let found : some x ≡ some a = rw h at e in
      let is_a : x ≡ a = cc in subst (λ z. p z ≡ true) is_a h
  | inr h ↦ find-holds p xs a (rw h at e)
]

-- The row that `archiveDocumentVersion` inserts.
abbrev pub version_of : ℕ → DocumentRow → VersionRow
version_of i d = record {
  id = i;
  document_id = d.id;
  version_number = d.version_number;
  content = d.content;
  content_hash = d.content_hash;
  content_type = d.content_type;
  created_at = d.updated_at;
  created_by = d.updated_by;
}

pub IsHistory-snoc :
    (ds : List DocumentRow) (nv nd : ℕ) (vs : List VersionRow) (d : DocumentRow)
    → IsHistory ds nv nd vs
    → All (λ v. v.document_id ≡ d.id → v.version_number < d.version_number) vs
    → All (IsNewer (version_of nv d)) ds
    → d.id < nd
    → IsHistory ds (suc nv) nd (vs ++ version_of nv d ∷ [])
IsHistory-snoc ds nv nd vs d h older new below = record {
  older = All-append (λ v. All (IsNewer v) ds) vs _ h.older (new, tt);
  order = AllPairs-snoc Follows vs (version_of nv d) h.order (both vs h.fresh older);
  fresh =
      All-append (λ v. v.id < suc nv) vs _
        (All-imp (λ v. v.id < nv) (λ v. v.id < suc nv) (λ v l. omega (arith, l)) vs h.fresh)
        (omega arith, tt);
  owned = All-append (λ v. v.document_id < nd) vs _ h.owned (below, tt);
}
  where
    both :
        (ws : List VersionRow)
        → All (λ v. v.id < nv) ws
        → All (λ v. v.document_id ≡ d.id → v.version_number < d.version_number) ws
        → All (λ v. Follows v (version_of nv d)) ws
    both [] f o = tt
    both (w ∷ ws) f o = ((f.0, o.0), both ws f.1 o.1)
