-- ===== src/Sda/SmallServer.antt =====
-- A server with a private document of Ann's, for the tests of the document protocol.
use go_ricochet.Base.{
  Bool, true, false, none, some, [], ◌∷◌, ltb, if◌then◌else◌, length, Text, codes, ◌=ᵗ◌, pos,
}
use go_ricochet.Readers.{private, AccessLibrary}
use go_ricochet.Documents.{DocumentRow, Docs, DocLibrary}
use go_ricochet.Documents.Patch.{end}
use go_ricochet.Directory.{BrowseLibrary}
use go_ricochet.Sda.{BatchDocument, DocRequest, HandlerLibrary, Scope, Tables}

abbrev pub shorter : Text → Text → Bool
shorter a b = ltb (length a) (length b)

abbrev pub toy_documents : DocLibrary
toy_documents = record {
  content_hash = λ c. 104 ∷ c;
  decode_object = λ c. some end;
  encode_object = λ ms. some (codes "{}");
  text_before = shorter;
}

abbrev pub toy_access : AccessLibrary
toy_access = record {
  peer_before = shorter;
  peer_decode = λ t. if t =ᵗ codes "?" then none else some t;
  to_lower = λ t. t;
}

abbrev pub toy_browse : BrowseLibrary
toy_browse = record {
  trim_space = λ t. t;
  words = λ t. t ∷ [];
  matches_query = λ q e. true;
  text_before = shorter;
  parse_time = λ t. some (length t);
  format_time = λ n. n ∷ [];
}

-- Encodings that are the text itself or empty.
abbrev pub toy : HandlerLibrary
toy = record {
  documents = toy_documents;
  access = toy_access;
  browse = toy_browse;
  base64_decode = λ t. some t;
  base64_encode = λ t. t;
  valid_utf8 = λ t. true;
  visibility_text = λ n. [];
  encode_documents = λ ds. some [];
  encode_versions = λ vs. some [];
  encode_results = λ rs. some [];
  encode_access = λ v rs. some [];
  encode_entry = λ e. some [];
  encode_page = λ p. some [];
  encode_extras = λ ms. some [];
  decode_patch = λ t. some end;
  decode_profile = λ t. none;
  decode_listing = λ t. none;
}

abbrev pub as_caller : Text → Scope
as_caller peer = record {
  lib = toy;
  caller = peer;
  now = 50;
  banned = λ p. false;
  max_history = pos 5;
}

abbrev pub ann_row : DocumentRow
ann_row = record {
  id = 1;
  owner = codes "ann";
  path = codes "a";
  content = codes "one";
  content_type = codes "text/plain";
  content_hash = 104 ∷ codes "one";
  created_at = 10;
  updated_at = 10;
  updated_by = codes "ann";
  version_number = 1;
  history_enabled = true;
  max_history = some 2;
  visibility = private;
}

abbrev pub ann_docs : Docs
ann_docs = record {
  documents = ann_row ∷ [];
  versions = [];
  readers = [];
  next_document = 2;
  next_version = 1;
}

abbrev pub ann_tables : Tables
ann_tables = record { docs = ann_docs; listings = record { entries = []; next_entry = 1 } }

abbrev pub request : Text → DocRequest
request operation = record {
  operation = operation;
  owner_peer_id = codes "ann";
  path = codes "a";
  headers = [];
  body = codes "two";
  max_versions = none;
  version_number = none;
  history = none;
  batch_documents = [];
  list_cursor = [];
  list_limit = none;
  directory_action = [];
  directory_query = [];
  directory_cursor = [];
  directory_limit = none;
  visibility = [];
  access_action = [];
  reader_peer_id = [];
}

abbrev pub batch_note : BatchDocument
batch_note = record {
  path = codes "a";
  body = codes "two";
  content_type = [];
  if_match = [];
  visibility = [];
}
