-- ===== src/Sda.antt =====
-- The document protocol, internal/protocol/sda/handler.go: its requests and answers, and what its
-- handlers share. The wording of an error is left out of the answers.
pub mod Reads
pub mod Writes
pub mod Batch
pub mod Entries
pub mod Serve
pub mod OwnerOnly
pub mod Hidden
pub mod Unseen
pub mod Silent
pub mod SameWrite
mod SmallServer
mod Tests
use go_ricochet.Base.{
  ℕ, zero, suc, ◌+◌, ◌-◌, ◌*◌, ◌/◌, ◌%◌, ◌^◌, ◌≤◌, ◌<◌, min, max, ◌≡◌, refl, sym, ap, ◌∙◌, subst,
  ◌≢◌, ◌↔◌, ◌⊎◌, inl, inr, Bool, true, false, not, ◌&&◌, ◌||◌, Option, none, some, List, [], ◌∷◌,
  ◌++◌, map, append-nil, append_assoc, arith, ltb, leb, ◌==◌, if◌then◌else◌, ltb→lt, lt→ltb, leb→le,
  ==_iff, eqb_refl, Bool-cases, ◌>>=◌, Option-cases, length, take, drop, keep, find_first, any_of,
  sum_by, All, length-append, sum_by-append, length-take, length-drop, take-append-drop,
  take-length_append, drop-length_append, take_all, sum_by-keep-not, All-keep, All-append, All-find,
  All-imp, All-map, AllPairs, AllPairs-keep, AllPairs-snoc, AllPairs-map, All-take, AllPairs-take,
  Text, codes, ◌=ᵗ◌, text_eq_refl, text_eq→eq, mem_text, ℤ, pos, negsuc, pos_part, neg_part, ◌≤ℤ◌,
  ltb_ℤ, is_positive, is_zero, suc_ℤ, suc_ℤ_parts,
}
use go_ricochet.Readers.{Visibility, visibility_from_string, AccessLibrary, require_reader}
use go_ricochet.Documents.{
  DocumentRow, VersionRow, Docs, DocLibrary, WriteOptions, DocError, not_found, size_exceeded,
  conflict, bad_json, PutResult, versions_kept, history_ceiling, get_document,
}
use go_ricochet.Documents.Listing.{resource_of}
use go_ricochet.Documents.Patch.{Members}
use go_ricochet.Directory.{
  DirectoryEntry, DirectoryPage, Listings, Profile, BrowseLibrary, upsert_directory_entry,
  remove_directory_entry,
}

pub record BatchDocument : Type 0 where
  pub path : Text
  pub body : Text
  pub content_type : Text
  pub if_match : Text
  pub visibility : Text

pub record DocRequest : Type 0 where
  pub operation : Text
  pub owner_peer_id : Text
  pub path : Text
  pub headers : List (Text × Text)
  pub body : Text
  pub max_versions : Option ℤ
  pub version_number : Option ℤ
  pub history : Option ℤ
  pub batch_documents : List BatchDocument
  pub list_cursor : Text
  pub list_limit : Option ℤ
  pub directory_action : Text
  pub directory_query : Text
  pub directory_cursor : Text
  pub directory_limit : Option ℤ
  pub visibility : Text
  pub access_action : Text
  pub reader_peer_id : Text

-- What common validation decodes of a request.
pub record Envelope : Type 0 where
  pub operation : Text
  pub owner_peer_id : Text
  pub path : Text
  pub directory_action : Text

-- The three reads of the bytes of a frame, each on its own: encoding/json into the struct of common
-- validation, the operation router of the framework at its key, and encoding/json into the request of
-- a handler. None where the read fails. They need not agree: encoding/json takes a key in any case.
pub record Decoders : Type 0 where
  pub envelope : Text → Option Envelope
  pub operation : Text → Option Text
  pub request : Text → Option DocRequest

-- The value of a header of an answer.
pub data Value : Type 0 where
  text : Text → Value
  number : ℕ → Value
  flag : Bool → Value

pub record DocResponse : Type 0 where
  pub status : ℕ
  pub headers : List (Text × Value)
  pub body : Text

-- What a handler leaves: an answer, or an error for the response writer: a refusal, an operation
-- that is not routed, or a request that the decoder refuses.
pub data Reply : Type 0 where
  reply : DocResponse → Reply
  forbidden : Reply
  unrouted : Reply
  undecoded : Reply

pub record Listing : Type 0 where
  pub listed : Option Bool
  pub profile : Profile

pub record BatchDocumentResult : Type 0 where
  pub path : Text
  pub status : ℕ
  pub etag : Text
  pub created : Bool
  pub actual_etag : Text

-- What the handlers call in other modules: base64, encoding/json of each body, utf8.ValidString.
pub record HandlerLibrary : Type 0 where
  pub documents : DocLibrary
  pub access : AccessLibrary
  pub browse : BrowseLibrary
  pub base64_decode : Text → Option Text
  pub base64_encode : Text → Text
  pub valid_utf8 : Text → Bool
  pub visibility_text : ℕ → Text
  pub encode_documents : List DocumentRow → Option Text
  pub encode_versions : List VersionRow → Option Text
  pub encode_results : List BatchDocumentResult → Option Text
  pub encode_access : Visibility → List (Text × ℕ) → Option Text
  pub encode_entry : DirectoryEntry → Option Text
  pub encode_page : DirectoryPage → Option Text
  pub encode_extras : Members → Option Text
  pub decode_patch : Text → Option Members
  pub decode_profile : Text → Option Profile
  pub decode_listing : Text → Option Listing

-- The request's circumstances: the connected peer, the time, the ban list and the configuration's
-- ceiling on kept versions, 0 without one.
pub record Scope : Type 0 where
  pub lib : HandlerLibrary
  pub caller : Text
  pub now : ℕ
  pub banned : Text → Bool
  pub max_history : ℤ

-- The tables that the handlers read and write.
pub record Tables : Type 0 where
  pub docs : Docs
  pub listings : Listings

abbrev pub status_only : ℕ → DocResponse
status_only n = record { status = n; headers = []; body = [] }

-- `req.Headers[name]`
abbrev pub header : Text → List (Text × Text) → Option Text
header name [] = none
header name ((k, v) ∷ hs) = if k =ᵗ name then some v else header name hs

abbrev pub max_path_length : ℕ
max_path_length = 256

-- `containsDotDot`
abbrev pub contains_dot_dot : Text → Bool
contains_dot_dot [] = false
contains_dot_dot (c ∷ []) = false
contains_dot_dot (c ∷ d ∷ cs) = (c == 46 && d == 46) || contains_dot_dot (d ∷ cs)

-- `validPathRe`: letters, digits, hyphens, underscores and slashes.
abbrev pub path_byte : ℕ → Bool
path_byte c =
    (leb 97 c && leb c 122)
    || (leb 65 c && leb c 90)
    || (leb 48 c && leb c 57)
    || c == 45
    || c == 95
    || c == 47

abbrev pub path_bytes : Text → Bool
path_bytes [] = true
path_bytes (c ∷ cs) = path_byte c && path_bytes cs

abbrev pub starts_with_slash : Text → Bool
starts_with_slash [] = false
starts_with_slash (c ∷ cs) = c == 47

-- `validatePath`: whether the path is let through.
unfoldable pub validate_path : Text → Bool
validate_path path =
    if path =ᵗ []
    then false
    else if ltb max_path_length (length path)
    then false
    else if starts_with_slash path
    then false
    else if contains_dot_dot path
    then false
    else path_bytes path

abbrev pub max_content_type_length : ℕ
max_content_type_length = 256

abbrev pub max_display_name_length : ℕ
max_display_name_length = 256

abbrev pub max_bio_length : ℕ
max_bio_length = 4096

abbrev pub max_avatar_hash_length : ℕ
max_avatar_hash_length = 256

abbrev pub max_directory_extras_bytes : ℕ
max_directory_extras_bytes = 4096

-- `CheckString` and `CheckJSONSize` of internal/protocol/wire/fields.go.
unfoldable pub check_string : HandlerLibrary → Text → ℕ → Bool
check_string lib value most = if ltb most (length value) then false else lib.valid_utf8 value

abbrev pub fits_json : Option Text → ℕ → Bool
fits_json none most = false
fits_json (some encoded) most = not (ltb most (length encoded))

unfoldable pub check_json_size : HandlerLibrary → Option Members → ℕ → Bool
check_json_size lib none most = true
check_json_size lib (some ms) most = fits_json (lib.encode_extras ms) most

-- `checkListingFields`
unfoldable pub check_listing_fields : HandlerLibrary → Profile → Bool
check_listing_fields lib p =
    check_string lib p.display_name max_display_name_length
    && check_string lib p.bio max_bio_length
    && check_string lib p.avatar_hash max_avatar_hash_length
    && check_json_size lib p.extras max_directory_extras_bytes

-- `parseVisibility`
unfoldable pub parse_visibility : HandlerLibrary → Text → Option (Option Visibility)
parse_visibility lib [] = some none
parse_visibility lib (c ∷ cs) = do
  v ← visibility_from_string lib.access.to_lower (c ∷ cs)
  some (some v)

-- `writeOptions`
unfoldable pub write_options : Scope → WriteOptions
write_options sc = record { visibility = none; history = none; max_history = sc.max_history }

-- `historyKept`
unfoldable pub history_kept : Scope → DocumentRow → ℕ
unfolding write_options
history_kept sc d =
    if not d.history_enabled
    then 0
    else versions_kept (history_ceiling (write_options sc)) d.max_history

-- `writeErrorResponse`
unfoldable pub write_error_response : DocError → DocResponse
write_error_response not_found = status_only 404
write_error_response (size_exceeded n) = status_only 413
write_error_response (conflict expected actual) = record {
  status = 409;
  headers = (codes "Expected-ETag", text expected) ∷ (codes "Actual-ETag", text actual) ∷ [];
  body = [];
}
write_error_response bad_json = status_only 500

-- An answer with a JSON body; 500 where it cannot be encoded.
abbrev pub json_reply : HandlerLibrary → List (Text × Value) → Option Text → Reply
json_reply lib headers none = reply (status_only 500)
json_reply lib headers (some encoded) =
    reply (record { status = 200; headers = headers; body = lib.base64_encode encoded })

abbrev pub json_type : Text × Value
json_type = (codes "Content-Type", text (codes "application/json"))

-- The directory entry that a stored listing calls for.
unfoldable pub materialize : Scope → Text → Listing → Listings → Listings
materialize sc owner listing l = elim listing.listed [
  | some false ↦ remove_directory_entry owner l
  | _ ↦
      if listing.profile.display_name =ᵗ []
      then l
      else if not (check_listing_fields sc.lib listing.profile)
      then l
      else upsert_directory_entry sc.now owner listing.profile l
]

-- `maybeUpdateDirectoryListing`
unfoldable pub update_directory_listing : Scope → Text → Text → Tables → Tables
update_directory_listing sc owner path s =
    if not (path =ᵗ codes "directory-listing") then s else elim (get_document owner path s.docs) [
      | none ↦ s
      | some d ↦ elim (sc.lib.decode_listing d.content) [
        | none ↦ s
        | some listing ↦ record s { listings = materialize sc owner listing s.listings }
      ]
    ]

-- `maybeRemoveDirectoryListing`
unfoldable pub remove_directory_listing : Text → Text → Tables → Tables
remove_directory_listing owner path s =
    if path =ᵗ codes "directory-listing"
    then record s { listings = remove_directory_entry owner s.listings }
    else s

-- `RequireReader` on a document.
abbrev pub may_read : Scope → DocumentRow → Tables → Bool
may_read sc d s = require_reader sc.banned sc.caller s.docs.readers (resource_of d)
