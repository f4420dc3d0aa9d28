-- ===== src/Sda/SameWrite.antt =====
-- A document of a batch and the same document on its own.
use go_ricochet.Base.{
  ◌≡◌, refl, sym, ap, inl, inr, none, some, Bool-cases, Option-cases, Text, codes,
}
use go_ricochet.Documents.{Docs, Outcome, ok, error, PutResult, or_kept}
use go_ricochet.Sda.{
  BatchDocument, DocRequest, Scope, Tables, header, check_string, max_content_type_length,
  parse_visibility, write_options,
}
use go_ricochet.Sda.Writes.{handle_put, written_reply, put_answer, default_content_type}
use go_ricochet.Sda.Batch.{given, decode_document, apply_document, result_of}
use go_ricochet.Sda.Serve.{response}

same_result :
    (sc : Scope) (owner path : Text) (s : Tables) (p : Docs × Outcome PutResult)
    → ((result_of sc owner path s p).0 ≡ (written_reply sc owner path put_answer s p).0)
      × ((result_of sc owner path s p).1.status
          ≡ (response (written_reply sc owner path put_answer s p).1).status)
unfolding response
same_result sc owner path s (docs, ok r) = (refl, refl)
same_result sc owner path s (docs, error e) = (refl, refl)

-- A document of a batch whose body decodes leaves the tables, and reports the status, of a PUT of its
-- own with the same path, body, visibility, content type and If-Match and without a history setting.
pub apply_document-handle_put :
    (sc : Scope) (req : DocRequest) (bd : BatchDocument) (owner content : Text) (s : Tables)
    → sc.lib.base64_decode req.body ≡ some content
    → req.path ≡ bd.path
    → req.visibility ≡ bd.visibility
    → req.history ≡ none
    → header (codes "Content-Type") req.headers ≡ given bd.content_type
    → header (codes "If-Match") req.headers ≡ given bd.if_match
    → ((apply_document sc owner (decode_document sc bd content) s).0
        ≡ (handle_put sc req owner s).0)
      × ((apply_document sc owner (decode_document sc bd content) s).1.status
          ≡ (response (handle_put sc req owner s).1).status)
unfolding apply_document decode_document handle_put write_options response
apply_document-handle_put sc req bd owner content s body path vis hist ct im =
    let same_type : or_kept (given bd.content_type) default_content_type
        ≡ or_kept (header (codes "Content-Type") req.headers) default_content_type =
      ap (λ t. or_kept t default_content_type) (sym ct) in
    elim (Bool-cases (
      check_string sc.lib (or_kept (header (codes "Content-Type") req.headers) default_content_type)
        max_content_type_length)) [
          | inr e ↦ rw (same_type, e, body, e, handle_put) (refl, refl)
          | inl e ↦ elim (Option-cases (parse_visibility sc.lib bd.visibility)) [
            | inl f ↦
                let f' = rw (sym vis) at f in
                rw (same_type, e, f, body, handle_put) (rw (e, f') (refl, refl))
            | inr (v, f) ↦
                let f' = rw (sym vis) at f in
                rw (same_type, e, f, body, handle_put)
                  (rw (e, f', path, hist, im, ct) (same_result sc owner bd.path s _))
          ]
        ]
