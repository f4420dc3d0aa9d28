-- ===== src/Sda/Hidden.antt =====
-- What a LIST shows to its caller.
use go_ricochet.Base.{
  ◌+◌, ◌≡◌, refl, sym, ◌∙◌, inl, inr, true, false, ◌&&◌, List, [], ◌∷◌, arith, ltb, Bool-cases,
  length, take, keep, All, All-imp, All-take, Text, ◌=ᵗ◌, text_eq→eq, pos,
}
use go_ricochet.Store.Retrieval.{All-sort_by}
use go_ricochet.Readers.{readable_by, hidden_owner}
use go_ricochet.Readers.Agree.{readable_by-require_reader}
use go_ricochet.Documents.{DocumentRow, DocLibrary, Docs, or_kept}
use go_ricochet.Documents.Listing.{
  resource_of, list_documents, listed_documents, list_limit, after_path,
}
use go_ricochet.Sda.{DocRequest, Scope, Tables, may_read}
use go_ricochet.Sda.Reads.{shown_documents}

-- Each row that the store lists is readable by the rule of the SQL predicate.
listed-readable :
    (lib : DocLibrary) (owner reader after : Text) (db : Docs) (ds : List DocumentRow)
    → All
        (λ d. ((d.owner =ᵗ owner) ≡ true) × (readable_by reader db.readers (resource_of d) ≡ true))
        (keep
          (λ d.
            d.owner =ᵗ owner
            && (after_path lib.text_before after d
                && readable_by reader db.readers (resource_of d)))
          ds)
listed-readable lib owner reader after db [] = tt
listed-readable lib owner reader after db (d ∷ ds) =
    let rest = listed-readable lib owner reader after db ds in
    elim (Bool-cases (
      d.owner =ᵗ owner
      && (after_path lib.text_before after d && readable_by reader db.readers (resource_of d)))) [
        | inl e ↦ rw e ((ground arith, ground arith), rest)
        | inr e ↦ rw e rest
      ]

pub row-may_read :
    (sc : Scope) (owner : Text) (s : Tables) (d : DocumentRow)
    → hidden_owner sc.banned sc.caller owner ≡ false
    → ((d.owner =ᵗ owner) ≡ true) × (readable_by sc.caller s.docs.readers (resource_of d) ≡ true)
    → may_read sc d s ≡ true
row-may_read sc owner s d shown row =
    let same = text_eq→eq d.owner owner row.0 in
    let shown' : hidden_owner sc.banned sc.caller d.owner ≡ false = rw same shown in
    let rule = readable_by-require_reader sc.banned sc.caller s.docs.readers (resource_of d) in
    sym rule ∙ rw (shown', row.1) refl

-- A LIST shows only documents that the caller may read one by one.
pub shown_documents-readable :
    (sc : Scope) (req : DocRequest) (owner : Text) (s : Tables)
    → All (λ d. may_read sc d s ≡ true) (shown_documents sc req owner s).0
unfolding shown_documents list_documents listed_documents
shown_documents-readable sc req owner s =
    elim (Bool-cases (hidden_owner sc.banned sc.caller owner)) [
      | inl e ↦ rw (e, shown_documents) tt
      | inr e ↦
          let limit = list_limit (or_kept req.list_limit (pos 0)) in
          let rows =
            All-imp _ (λ d. may_read sc d s ≡ true) (λ d. row-may_read sc owner s d e) _
              (listed-readable sc.lib.documents owner sc.caller req.list_cursor s.docs
                s.docs.documents) in
          let found =
            All-take (λ d. may_read sc d s ≡ true) (limit + 1) _
              (All-sort_by (λ a b. sc.lib.documents.text_before a.path b.path)
                (λ d. may_read sc d s ≡ true) _ rows) in
          rw (e, shown_documents)
            (elim (Bool-cases (
              ltb limit (
                length (
                  take (limit + 1)
                    (listed_documents sc.lib.documents owner sc.caller req.list_cursor s.docs))))) [
                      | inl f ↦ rw f (All-take (λ d. may_read sc d s ≡ true) limit _ found)
                      | inr f ↦ rw f found
                    ])
    ]
