-- ===== src/Sda/Writes.antt =====
-- The writes of one document and the ACCESS operation of internal/protocol/sda/handler.go.
use go_ricochet.Base.{
  ℕ, Bool, true, false, not, Option, none, some, List, [], ◌∷◌, ◌++◌, map, if◌then◌else◌, Text,
  codes, ℤ, pos, negsuc,
}
use go_ricochet.Readers.{visibility_name, AccessResult, done, failed, store_access, ReaderRow}
use go_ricochet.Documents.{
  DocumentRow, Docs, Outcome, ok, error, PutResult, get_document, put_document, patch_document,
  restore_version, delete_document, or_kept,
}
use go_ricochet.Documents.Listing.{document_access}
use go_ricochet.Sda.{
  DocRequest, Value, text, number, DocResponse, Reply, reply, Scope, Tables, status_only, header,
  max_content_type_length, check_string, parse_visibility, write_options, write_error_response,
  json_reply, json_type, update_directory_listing, remove_directory_listing,
}

-- An answer to a write, and the listing that follows one that was let through.
abbrev pub written_reply :
    Scope
    → Text
    → Text
    → (PutResult → DocResponse)
    → Tables
    → Docs × Outcome PutResult
    → Tables × Reply
written_reply sc owner path answer s (docs, error e) =
    (record s { docs = docs }, reply (write_error_response e))
written_reply sc owner path answer s (docs, ok r) =
    (update_directory_listing sc owner path (record s { docs = docs }), reply (answer r))

abbrev pub stamp : PutResult → List (Text × Value)
stamp r = (codes "ETag", text r.content_hash) ∷ (codes "Last-Modified", number r.updated_at) ∷ []

abbrev pub put_answer : PutResult → DocResponse
put_answer r = record { status = if r.created then 201 else 200; headers = stamp r; body = [] }

abbrev pub patch_answer : PutResult → DocResponse
patch_answer r = record { status = 200; headers = stamp r; body = [] }

abbrev pub restore_answer : PutResult → DocResponse
restore_answer r = record {
  status = 200;
  headers = stamp r ++ (codes "Version", number r.version_number) ∷ [];
  body = [];
}

abbrev pub is_negative : Option ℤ → Bool
is_negative none = false
is_negative (some (pos n)) = false
is_negative (some (negsuc n)) = true

abbrev pub default_content_type : Text
default_content_type = codes "application/octet-stream"

abbrev pub put_content : Scope → DocRequest → Text → Tables → Text → Tables × Reply
put_content sc req owner s content =
    let content_type = or_kept (header (codes "Content-Type") req.headers) default_content_type in
    if not (check_string sc.lib content_type max_content_type_length)
    then (s, reply (status_only 400))
    else elim (parse_visibility sc.lib req.visibility) [
      | none ↦ (s, reply (status_only 400))
      | some v ↦
          if is_negative req.history
          then (s, reply (status_only 400))
          else written_reply sc owner req.path put_answer s (
              put_document sc.lib.documents sc.now
                (record {
                  owner = owner;
                  path = req.path;
                  content = content;
                  content_type = content_type;
                  updated_by = sc.caller;
                })
                (header (codes "If-Match") req.headers)
                (record (write_options sc) { visibility = v; history = req.history }) s.docs)
    ]

-- `handlePut`
unfoldable pub handle_put : Scope → DocRequest → Text → Tables → Tables × Reply
handle_put sc req owner s = elim (sc.lib.base64_decode req.body) [
  | none ↦ (s, reply (status_only 400))
  | some content ↦ put_content sc req owner s content
]

-- `handleRestore`: no version has a negative number.
unfoldable pub handle_restore : Scope → DocRequest → Text → Tables → Tables × Reply
handle_restore sc req owner s = elim req.version_number [
  | none ↦ (s, reply (status_only 400))
  | some (negsuc n) ↦ (s, reply (status_only 404))
  | some (pos n) ↦ written_reply sc owner req.path restore_answer s (
      restore_version sc.lib.documents sc.now owner req.path n sc.caller
        (header (codes "If-Match") req.headers) (write_options sc) s.docs)
]

-- `handlePatch`
unfoldable pub handle_patch : Scope → DocRequest → Text → Tables → Tables × Reply
handle_patch sc req owner s = elim (sc.lib.base64_decode req.body) [
  | none ↦ (s, reply (status_only 400))
  | some body ↦ elim (sc.lib.decode_patch body) [
    | none ↦ (s, reply (status_only 400))
    | some patch ↦ written_reply sc owner req.path patch_answer s (
        patch_document sc.lib.documents sc.now owner req.path patch sc.caller
          (header (codes "If-Match") req.headers) (write_options sc) s.docs)
  ]
]

abbrev pub deleted_reply : Text → Text → Tables → Docs × Bool → Tables × Reply
deleted_reply owner path s (docs, false) = (record s { docs = docs }, reply (status_only 404))
deleted_reply owner path s (docs, true) =
    (remove_directory_listing owner path (record s { docs = docs }), reply (status_only 204))

-- `handleDelete`
unfoldable pub handle_delete : Scope → DocRequest → Text → Tables → Tables × Reply
handle_delete sc req owner s =
    deleted_reply owner req.path s (delete_document owner req.path s.docs)

abbrev pub reader_entry : ReaderRow → Text × ℕ
reader_entry r = (r.peer, r.granted_at)

abbrev pub access_reply : Scope → AccessResult → Reply
access_reply sc (failed status) = reply (status_only status)
access_reply sc (done v readers) =
    json_reply sc.lib
      (json_type ∷ (codes "Visibility", text (visibility_name sc.lib.visibility_text v)) ∷ [])
      (sc.lib.encode_access v (map reader_entry readers))

abbrev pub access_document : Scope → DocRequest → Tables → DocumentRow → Tables × Reply
access_document sc req s d =
    let (docs, result) =
      store_access document_access sc.lib.access sc.now
        (record {
          owner = sc.caller;
          path = req.path;
          id = d.id;
          current = d.visibility;
          action = req.access_action;
          visibility = req.visibility;
          reader = req.reader_peer_id;
        })
        s.docs in
    (record s { docs = docs }, access_reply sc result)

-- `handleAccess`
unfoldable pub handle_access : Scope → DocRequest → Tables → Tables × Reply
handle_access sc req s = elim (get_document sc.caller req.path s.docs) [
  | none ↦ (s, reply (status_only 404))
  | some d ↦ access_document sc req s d
]
