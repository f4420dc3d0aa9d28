-- ===== src/Sda/Batch.antt =====
-- BATCH_PUT of internal/protocol/sda/handler.go.
use go_ricochet.Base.{
  ℕ, ◌+◌, ◌*◌, Bool, false, not, ◌||◌, Option, none, some, List, [], ◌∷◌, ltb, ◌==◌, if◌then◌else◌,
  length, keep, Text, codes, ◌=ᵗ◌,
}
use go_ricochet.Readers.{Visibility}
use go_ricochet.Documents.{Docs, Outcome, ok, error, PutResult, put_document, or_kept}
use go_ricochet.Sda.{
  BatchDocument, DocRequest, Value, text, number, flag, Reply, reply, BatchDocumentResult, Scope,
  Tables, status_only, validate_path, max_content_type_length, check_string, parse_visibility,
  write_options, write_error_response, json_reply, json_type, update_directory_listing,
}
use go_ricochet.Sda.Writes.{default_content_type}

abbrev pub max_batch_documents : ℕ
max_batch_documents = 100

abbrev pub max_batch_content_bytes : ℕ
max_batch_content_bytes = 6 * 1024 * 1024

-- A document of the batch after decoding: refused with 400, or to be written.
pub data Decoded : Type 0 where
  rejected : Text → Decoded
  pending : Text → Text → Text → Option Text → Option Visibility → Decoded

-- The path test and the decoded body.
abbrev pub batch_content : Scope → BatchDocument → Option Text
batch_content sc bd = if validate_path bd.path then sc.lib.base64_decode bd.body else none

abbrev pub given : Text → Option Text
given [] = none
given (c ∷ cs) = some (c ∷ cs)

-- The checks after the size of the content is counted.
unfoldable pub decode_document : Scope → BatchDocument → Text → Decoded
decode_document sc bd content =
    let content_type = or_kept (given bd.content_type) default_content_type in
    if not (check_string sc.lib content_type max_content_type_length)
    then rejected bd.path
    else elim (parse_visibility sc.lib bd.visibility) [
      | none ↦ rejected bd.path
      | some v ↦ pending bd.path content content_type (given bd.if_match) v
    ]

abbrev pub with_decoded : Decoded → Option (List Decoded) → Option (List Decoded)
with_decoded d none = none
with_decoded d (some ds) = some (d ∷ ds)

-- The decoding loop; none once the batch's content is too large.
unfoldable pub decode_batch : Scope → ℕ → List BatchDocument → Option (List Decoded)
decode_batch sc total [] = some []
decode_batch sc total (bd ∷ bds) = elim (batch_content sc bd) [
  | none ↦ with_decoded (rejected bd.path) (decode_batch sc total bds)
  | some content ↦
      let rest = decode_batch sc (total + length content) bds in
      if ltb max_batch_content_bytes (total + length content)
      then none
      else with_decoded (decode_document sc bd content) rest
]

abbrev pub actual_etag : List (Text × Value) → Text
actual_etag [] = []
actual_etag ((k, text v) ∷ hs) = if k =ᵗ codes "Actual-ETag" then v else actual_etag hs
actual_etag ((k, number n) ∷ hs) = actual_etag hs
actual_etag ((k, flag b) ∷ hs) = actual_etag hs

abbrev pub result_of :
    Scope → Text → Text → Tables → Docs × Outcome PutResult → Tables × BatchDocumentResult
result_of sc owner path s (docs, error e) = (
  record s { docs = docs },
  record {
    path = path;
    status = (write_error_response e).status;
    etag = [];
    created = false;
    actual_etag = actual_etag (write_error_response e).headers;
  },
)
result_of sc owner path s (docs, ok r) = (
  update_directory_listing sc owner path (record s { docs = docs }),
  record {
    path = path;
    status = if r.created then 201 else 200;
    etag = r.content_hash;
    created = r.created;
    actual_etag = [];
  },
)

-- One round of the writing loop.
unfoldable pub apply_document : Scope → Text → Decoded → Tables → Tables × BatchDocumentResult
apply_document sc owner (rejected path) s =
    (s, record { path = path; status = 400; etag = []; created = false; actual_etag = [] })
apply_document sc owner (pending path content content_type if_match v) s =
    result_of sc owner path s (
      put_document sc.lib.documents sc.now
        (record {
          owner = owner;
          path = path;
          content = content;
          content_type = content_type;
          updated_by = sc.caller;
        })
        if_match (record (write_options sc) { visibility = v }) s.docs)

unfoldable pub apply_batch :
    Scope → Text → List Decoded → Tables → Tables × List BatchDocumentResult
apply_batch sc owner [] s = (s, [])
apply_batch sc owner (d ∷ ds) s =
    let (s', r) = apply_document sc owner d s in
    let (last, rs) = apply_batch sc owner ds s' in (last, r ∷ rs)

-- A result that was written.
abbrev pub is_applied : BatchDocumentResult → Bool
is_applied r = r.status == 200 || r.status == 201

abbrev pub batch_reply : Scope → Tables × List BatchDocumentResult → Tables × Reply
batch_reply sc (s, rs) = (
  s,
  json_reply sc.lib
      (json_type
        ∷ (codes "Applied", number (length (keep is_applied rs)))
        ∷ (codes "Total", number (length rs))
        ∷ [])
      (sc.lib.encode_results rs),
)

-- `handleBatchPut`
unfoldable pub handle_batch_put : Scope → DocRequest → Text → Tables → Tables × Reply
handle_batch_put sc req owner s =
    if length req.batch_documents == 0
    then (s, reply (status_only 400))
    else if ltb max_batch_documents (length req.batch_documents)
    then (s, reply (status_only 400))
    else elim (decode_batch sc 0 req.batch_documents) [
      | none ↦ (s, reply (status_only 413))
      | some ds ↦ batch_reply sc (apply_batch sc owner ds s)
    ]
