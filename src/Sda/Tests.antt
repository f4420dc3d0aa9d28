-- ===== src/Sda/Tests.antt =====
-- Requests to the small server.
use mathlib.Core.Option.{some-injective}
use go_ricochet.Base.{◌≡◌, refl, sym, ap, true, some, [], ◌∷◌, map, All, codes, ◌=ᵗ◌}
use go_ricochet.Readers.{require_reader, require_owner, require_reader}
use go_ricochet.Documents.{VersionRow, DocumentRow, get_document, delete_document}
use go_ricochet.Sda.{remove_directory_listing, validate_path, Decoders, Scope, Tables, may_read}
use go_ricochet.Sda.Reads.{handle_get, handle_head, handle_list, handle_history, shown_documents}
use go_ricochet.Sda.Writes.{handle_put, handle_delete}
use go_ricochet.Sda.Batch.{apply_document, decode_document}
use go_ricochet.Sda.Serve.{
  serve, response, common_validation, validated, routed, route, needs_path, is_write, dispatch,
}
use go_ricochet.Sda.OwnerOnly.{serve-foreign_owner}
use go_ricochet.Sda.Hidden.{shown_documents-readable}
use go_ricochet.Sda.Silent.{rewritten, elsewhere}
use go_ricochet.Sda.Silent.Reads.{reads-rewritten}
use go_ricochet.Sda.SameWrite.{apply_document-handle_put}
use go_ricochet.Sda.SmallServer.{as_caller, ann_docs, ann_tables, request, batch_note}

-- A frame that is no more than the name of its operation, in which everyone reads that name.
abbrev plain : Decoders
plain = record {
  envelope = λ raw. some (record {
    operation = raw;
    owner_peer_id = codes "ann";
    path = codes "a";
    directory_action = [];
  });
  operation = λ raw. some raw;
  request = λ raw. some (request raw);
}

abbrev bob : Scope
bob = as_caller (codes "bob")

serve-foreign_owner_example : (serve plain bob (codes "PUT") ann_tables).0 ≡ ann_tables
unfolding ◌=ᵗ◌
serve-foreign_owner_example =
    serve-foreign_owner plain bob (codes "PUT")
      (record {
        operation = codes "PUT";
        owner_peer_id = codes "ann";
        path = codes "a";
        directory_action = [];
      })
      (codes "ann") ann_tables refl refl
      (λ req e. ap (λ r. r.directory_action) (sym (some-injective _ _ e))) refl refl

-- Where validation reads GET and the router DELETE, a stranger deletes the document.
abbrev two_keys : Decoders
two_keys = record {
  envelope = λ raw. some (record {
    operation = codes "GET";
    owner_peer_id = codes "ann";
    path = codes "a";
    directory_action = [];
  });
  operation = λ raw. some (codes "DELETE");
  request = λ raw. some (request (codes "GET"));
}

stranger_deletes : (serve two_keys bob [] ann_tables).0.docs.documents ≡ []
unfolding serve common_validation validated routed route needs_path validate_path is_write dispatch
    handle_delete delete_document get_document require_owner remove_directory_listing ◌=ᵗ◌
stranger_deletes = refl

-- Ann's document with one archived version, which Bob may read as little as the document.
abbrev first_version : VersionRow
first_version = record {
  id = 1;
  document_id = 1;
  version_number = 0;
  content = codes "zero";
  content_hash = 104 ∷ codes "zero";
  content_type = codes "text/plain";
  created_at = 9;
  created_by = codes "ann";
}

abbrev old_tables : Tables
old_tables = record ann_tables { docs = record ann_docs { versions = first_version ∷ [] } }

-- Another content for every document, and no content for every version.
abbrev other : DocumentRow → DocumentRow
other d = record d { content = codes "secret"; content_hash = 115 ∷ [] }

abbrev emptied : VersionRow → VersionRow
emptied v = record v { content = []; version_number = 7 }

content_changed :
    map (λ d. d.content) (elsewhere bob other emptied old_tables).docs.documents
    ≡ codes "secret" ∷ []
unfolding rewritten require_reader ◌=ᵗ◌
content_changed = refl

reads-rewritten_example :
    let t = elsewhere bob other emptied old_tables in
    let req = request (codes "GET") in
    (handle_get bob req (codes "ann") t ≡ handle_get bob req (codes "ann") old_tables)
    × (handle_head bob req (codes "ann") t ≡ handle_head bob req (codes "ann") old_tables)
    × (handle_list bob req (codes "ann") t ≡ handle_list bob req (codes "ann") old_tables)
    × (handle_history bob req (codes "ann") t ≡ handle_history bob req (codes "ann") old_tables)
reads-rewritten_example =
    reads-rewritten bob other emptied old_tables (request (codes "GET")) (codes "ann")

shown_documents-readable_example :
    All
      (λ d. may_read (as_caller (codes "ann")) d ann_tables ≡ true)
      (shown_documents
        (as_caller (codes "ann"))
        (request (codes "LIST"))
        (codes "ann")
        ann_tables).0
shown_documents-readable_example =
    shown_documents-readable (as_caller (codes "ann")) (request (codes "LIST")) (codes "ann")
      ann_tables

apply_document-handle_put_example :
    ((apply_document
        (as_caller (codes "ann"))
        (codes "ann")
        (decode_document (as_caller (codes "ann")) batch_note (codes "two"))
        ann_tables).0
      ≡ (handle_put (as_caller (codes "ann")) (request (codes "PUT")) (codes "ann") ann_tables).0)
    × ((apply_document
          (as_caller (codes "ann"))
          (codes "ann")
          (decode_document (as_caller (codes "ann")) batch_note (codes "two"))
          ann_tables).1.status
        ≡ (response
            (handle_put
              (as_caller (codes "ann"))
              (request (codes "PUT"))
              (codes "ann")
              ann_tables).1).status)
apply_document-handle_put_example =
    apply_document-handle_put (as_caller (codes "ann")) (request (codes "PUT")) batch_note
      (codes "ann") (codes "two") ann_tables refl refl refl refl refl refl
