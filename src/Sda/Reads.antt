-- ===== src/Sda/Reads.antt =====
-- The reads of the document protocol: GET, HEAD, LIST and HISTORY of
-- internal/protocol/sda/handler.go.
use go_ricochet.Base.{
  Bool, true, false, not, Option, none, some, List, [], ◌∷◌, if◌then◌else◌, length, Text, codes,
  ◌=ᵗ◌, ℤ, pos, negsuc,
}
use go_ricochet.Readers.{visibility_name, hidden_owner}
use go_ricochet.Documents.{DocumentRow, VersionRow, Outcome, ok, error, get_document, or_kept}
use go_ricochet.Documents.Listing.{list_documents, document_history, document_at_version}
use go_ricochet.Sda.{
  DocRequest, Value, text, number, flag, Reply, reply, forbidden, Scope, Tables, status_only,
  header, history_kept, json_reply, json_type, may_read,
}

-- If-None-Match
abbrev pub not_modified : Option Text → DocumentRow → Bool
not_modified none d = false
not_modified (some hash) d = hash =ᵗ d.content_hash

abbrev pub unchanged_reply : DocumentRow → Reply
unchanged_reply d =
    reply (record { status = 304; headers = (codes "ETag", text d.content_hash) ∷ []; body = [] })

abbrev pub kept_headers : Scope → DocumentRow → List (Text × Value)
kept_headers sc d =
    (codes "Last-Modified", number d.updated_at)
    ∷ (codes "Version", number d.version_number)
    ∷ (codes "Visibility", text (visibility_name sc.lib.visibility_text d.visibility))
    ∷ (codes "History", number (history_kept sc d))
    ∷ []

abbrev pub content_reply : Scope → DocumentRow → Reply
content_reply sc d = reply (record {
  status = 200;
  headers =
      (codes "ETag", text d.content_hash)
      ∷ (codes "Content-Type", text d.content_type)
      ∷ kept_headers sc d;
  body = sc.lib.base64_encode d.content;
})

abbrev pub metadata_reply : Scope → DocumentRow → Reply
metadata_reply sc d = reply (record {
  status = 200;
  headers =
      (codes "ETag", text d.content_hash)
      ∷ (codes "Content-Type", text d.content_type)
      ∷ (codes "Content-Length", number (length d.content))
      ∷ kept_headers sc d;
  body = [];
})

-- A read of one document: the lookup, the reader check, the conditional answer.
abbrev pub read_document :
    Scope → (DocumentRow → Reply) → DocRequest → Tables → Option DocumentRow → Reply
read_document sc answer req s none = reply (status_only 404)
read_document sc answer req s (some d) =
    if not (may_read sc d s)
    then forbidden
    else if not_modified (header (codes "If-None-Match") req.headers) d
    then unchanged_reply d
    else answer d

-- `handleGet`
unfoldable pub handle_get : Scope → DocRequest → Text → Tables → Reply
handle_get sc req owner s =
    read_document sc (content_reply sc) req s (get_document owner req.path s.docs)

-- `handleHead`
unfoldable pub handle_head : Scope → DocRequest → Text → Tables → Reply
handle_head sc req owner s =
    read_document sc (metadata_reply sc) req s (get_document owner req.path s.docs)

abbrev pub last_path : List DocumentRow → Option Text
last_path [] = none
last_path (d ∷ []) = some d.path
last_path (d ∷ e ∷ ds) = last_path (e ∷ ds)

abbrev pub next_cursor : Bool → List DocumentRow → List (Text × Value)
next_cursor false ds = []
next_cursor true ds = elim (last_path ds) [
  | none ↦ []
  | some path ↦ (codes "Next-Cursor", text path) ∷ []
]

abbrev pub list_reply : Scope → List DocumentRow × Bool → Reply
list_reply sc (ds, more) =
    json_reply sc.lib (json_type ∷ (codes "Has-More", flag more) ∷ next_cursor more ds)
      (sc.lib.encode_documents ds)

-- The page that a LIST shows; a banned owner's is empty.
unfoldable pub shown_documents : Scope → DocRequest → Text → Tables → List DocumentRow × Bool
shown_documents sc req owner s =
    if hidden_owner sc.banned sc.caller owner
    then ([], false)
    else list_documents sc.lib.documents owner sc.caller req.list_cursor
        (or_kept req.list_limit (pos 0)) s.docs

-- `handleList`
unfoldable pub handle_list : Scope → DocRequest → Text → Tables → Reply
handle_list sc req owner s = list_reply sc (shown_documents sc req owner s)

abbrev pub version_reply : Scope → Outcome VersionRow → Reply
version_reply sc (error e) = reply (status_only 404)
version_reply sc (ok v) = reply (record {
  status = 200;
  headers =
      (codes "ETag", text v.content_hash)
      ∷ (codes "Content-Type", text v.content_type)
      ∷ (codes "Version", number v.version_number)
      ∷ (codes "Created-At", number v.created_at)
      ∷ [];
  body = sc.lib.base64_encode v.content;
})

abbrev pub versions_reply : Scope → Outcome (List VersionRow) → Reply
versions_reply sc (error e) = reply (status_only 404)
versions_reply sc (ok vs) = json_reply sc.lib (json_type ∷ []) (sc.lib.encode_versions vs)

-- One version: none has a negative number.
abbrev pub one_version : Scope → Text → Text → ℤ → Tables → Reply
one_version sc owner path (pos n) s = version_reply sc (document_at_version owner path n s.docs)
one_version sc owner path (negsuc n) s = reply (status_only 404)

-- A negative LIMIT is an error of the database, which answers only where there is a document.
abbrev pub version_list : Scope → Text → Text → Option ℤ → Tables → Reply
version_list sc owner path none s = versions_reply sc (document_history owner path none s.docs)
version_list sc owner path (some (pos n)) s =
    versions_reply sc (document_history owner path (some n) s.docs)
version_list sc owner path (some (negsuc n)) s = elim (get_document owner path s.docs) [
  | none ↦ reply (status_only 404)
  | some d ↦ reply (status_only 500)
]

abbrev pub history_reply : Scope → DocRequest → Text → Tables → Reply
history_reply sc req owner s = elim req.version_number [
  | some n ↦ one_version sc owner req.path n s
  | none ↦ version_list sc owner req.path req.max_versions s
]

-- The check that a caller other than the owner meets before a version is read.
abbrev pub checked_history : Scope → DocRequest → Text → Tables → Option DocumentRow → Reply
checked_history sc req owner s none = reply (status_only 404)
checked_history sc req owner s (some d) =
    if not (may_read sc d s) then forbidden else history_reply sc req owner s

-- `handleHistory`
unfoldable pub handle_history : Scope → DocRequest → Text → Tables → Reply
handle_history sc req owner s =
    if sc.caller =ᵗ owner
    then history_reply sc req owner s
    else checked_history sc req owner s (get_document owner req.path s.docs)
