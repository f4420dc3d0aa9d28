-- ===== src/Documents/Listing.antt =====
-- Reads of the documents of internal/storage/postgres/postgres.go: the listing, the history, and what
-- the ACCESS operation needs of them.
use go_ricochet.Base.{
  ℕ, ◌+◌, Bool, true, false, not, ◌&&◌, Option, none, some, List, [], ◌∷◌, map, ltb, ◌==◌,
  if◌then◌else◌, length, take, keep, find_first, any_of, Text, ◌=ᵗ◌, ℤ, pos_part, is_positive,
}
use go_ricochet.Store.Sort.{sort_by}
use go_ricochet.Readers.{Visibility, Resource, AccessStore, readable_by}
use go_ricochet.Documents.{
  DocumentRow, VersionRow, Docs, DocLibrary, Outcome, ok, error, not_found, at_path, get_document,
  is_version, newest_version,
}

abbrev pub resource_of : DocumentRow → Resource
resource_of d = record { id = d.id; owner = d.owner; visibility = d.visibility }

abbrev pub after_path : (Text → Text → Bool) → Text → DocumentRow → Bool
after_path text_before [] d = true
after_path text_before (c ∷ cs) d = text_before (c ∷ cs) d.path

-- The rows that `ListDocuments` selects, in order of path.
unfoldable pub listed_documents : DocLibrary → Text → Text → Text → Docs → List DocumentRow
listed_documents lib owner reader after db =
    sort_by (λ a b. lib.text_before a.path b.path)
      (keep
        (λ d.
          d.owner =ᵗ owner
          && (after_path lib.text_before after d && readable_by reader db.readers (resource_of d)))
        db.documents)

abbrev pub default_list_limit : ℕ
default_list_limit = 1000

abbrev pub max_list_limit : ℕ
max_list_limit = 5000

unfoldable pub list_limit : ℤ → ℕ
list_limit n =
    if not (is_positive n)
    then default_list_limit
    else if ltb max_list_limit (pos_part n)
    then max_list_limit
    else pos_part n

-- `ListDocuments`: a page, and whether another follows.
unfoldable pub list_documents : DocLibrary → Text → Text → Text → ℤ → Docs → List DocumentRow × Bool
list_documents lib owner reader after n db =
    let limit = list_limit n in
    let found = take (limit + 1) (listed_documents lib owner reader after db) in
    if ltb limit (length found) then (take limit found, true) else (found, false)

-- `GetDocumentHistory`
unfoldable pub document_history : Text → Text → Option ℕ → Docs → Outcome (List VersionRow)
document_history owner path most db = elim (get_document owner path db) [
  | none ↦ error not_found
  | some d ↦
      let all = sort_by newest_version (keep (λ v. v.document_id == d.id) db.versions) in
      ok (elim most [ none ↦ all | some n ↦ take n all ])
]

-- `GetDocumentAtVersion`
unfoldable pub document_at_version : Text → Text → ℕ → Docs → Outcome VersionRow
document_at_version owner path n db = elim (get_document owner path db) [
  | none ↦ error not_found
  | some d ↦ elim (find_first (is_version d.id n) db.versions) [
    | none ↦ error not_found
    | some v ↦ ok v
  ]
]

-- `SetStoreVisibility` of documents, for one of the three visibilities, and the reader lists of the
-- ACCESS operation.
unfoldable pub set_visibility : Text → Text → Visibility → Docs → Docs × Bool
set_visibility owner path v db = (
  record db {
    documents =
        map (λ d. if at_path owner path d then record d { visibility = v } else d) db.documents;
  },
  any_of (at_path owner path) db.documents,
)

abbrev pub document_access : AccessStore Docs
document_access = record {
  set_visibility = set_visibility;
  readers = λ db. db.readers;
  with_readers = λ rs db. record db { readers = rs };
}
