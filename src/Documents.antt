-- ===== src/Documents.antt =====
-- The documents of internal/storage/postgres/postgres.go: conditional writes, version history,
-- patches, and the listing. Owners and readers are peers by the text of their encoding.
pub mod Patch
pub mod Merge
pub mod Listing
pub mod Invariant
pub mod Writes
pub mod Run
pub mod Conditional
pub mod Prune
pub mod History
mod Tests
use go_ricochet.Base.{
  ℕ, zero, suc, ◌+◌, ◌-◌, ◌*◌, ◌/◌, ◌%◌, ◌^◌, ◌≤◌, ◌<◌, min, max, ◌≡◌, refl, sym, ap, ◌∙◌, subst,
  ◌≢◌, ◌↔◌, ◌⊎◌, inl, inr, Bool, true, false, not, ◌&&◌, ◌||◌, Option, none, some, List, [], ◌∷◌,
  ◌++◌, map, append-nil, append_assoc, arith, ltb, leb, ◌==◌, if◌then◌else◌, ltb→lt, lt→ltb, leb→le,
  ==_iff, eqb_refl, Bool-cases, ◌>>=◌, Option-cases, length, take, drop, keep, find_first, any_of,
  sum_by, All, length-append, sum_by-append, length-take, length-drop, take-append-drop,
  take-length_append, drop-length_append, take_all, sum_by-keep-not, All-keep, All-append, All-find,
  All-imp, All-map, AllPairs, AllPairs-keep, AllPairs-snoc, AllPairs-map, All-take, AllPairs-take,
  Text, codes, ◌=ᵗ◌, text_eq_refl, text_eq→eq, mem_text, ℤ, pos, negsuc, pos_part, neg_part, ◌≤ℤ◌,
  ltb_ℤ, is_positive, is_zero,
}
use go_ricochet.Store.Sort.{sort_by}
use go_ricochet.Readers.{Visibility, private, ReaderRow, Resource, AccessStore, readable_by}
use Patch.{Members, apply_merge_patch}

pub record DocumentRow : Type 0 where
  pub id : ℕ
  pub owner : Text
  pub path : Text
  pub content : Text
  pub content_type : Text
  pub content_hash : Text
  pub created_at : ℕ
  pub updated_at : ℕ
  pub updated_by : Text
  pub version_number : ℕ
  pub history_enabled : Bool
  pub max_history : Option ℕ
  pub visibility : Visibility

pub record VersionRow : Type 0 where
  pub id : ℕ
  pub document_id : ℕ
  pub version_number : ℕ
  pub content : Text
  pub content_hash : Text
  pub content_type : Text
  pub created_at : ℕ
  pub created_by : Text

-- The tables documents, document_versions and document_acls, and the two BIGSERIAL counters.
pub record Docs : Type 0 where
  pub documents : List DocumentRow
  pub versions : List VersionRow
  pub readers : List ReaderRow
  pub next_document : ℕ
  pub next_version : ℕ

abbrev pub no_docs : Docs
no_docs = record {
  documents = [];
  versions = [];
  readers = [];
  next_document = 1;
  next_version = 1;
}

-- What the operations call in other modules: SHA-256 as `computeContentHash` writes it, encoding/json,
-- and the database's order of texts.
pub record DocLibrary : Type 0 where
  pub content_hash : Text → Text
  pub decode_object : Text → Option Members
  pub encode_object : Members → Option Text
  pub text_before : Text → Text → Bool

pub record WriteOptions : Type 0 where
  pub visibility : Option Visibility
  pub history : Option ℤ
  pub max_history : ℤ

pub data DocError : Type 0 where
  not_found : DocError
  size_exceeded : ℕ → DocError
  conflict : Text → Text → DocError
  bad_json : DocError

pub record PutResult : Type 0 where
  pub content_hash : Text
  pub created : Bool
  pub updated_at : ℕ
  pub version_number : ℕ

pub data Outcome {ℓ} (A : Type ℓ) : Type ℓ where
  ok : A → Outcome A
  error : DocError → Outcome A

abbrev pub max_document_size : ℕ
max_document_size = 10 * 1024 * 1024

abbrev pub default_max_document_history : ℕ
default_max_document_history = 10

-- `HistoryCeiling`
unfoldable pub history_ceiling : WriteOptions → ℕ
history_ceiling opts =
    if is_positive opts.max_history then pos_part opts.max_history else default_max_document_history

abbrev pub at_path : Text → Text → DocumentRow → Bool
at_path owner path d = d.owner =ᵗ owner && d.path =ᵗ path

-- `GetDocument`; `HeadDocument` reads the same row without its body.
unfoldable pub get_document : Text → Text → Docs → Option DocumentRow
get_document owner path db = find_first (at_path owner path) db.documents

-- The history setting of a write: on and its maximum.
unfoldable pub history_setting : WriteOptions → Bool × Option ℕ → Bool × Option ℕ
history_setting opts (on, most) = elim opts.history [
  | none ↦ (on, most)
  | some n ↦
      if is_positive n
      then (true, some (min (pos_part n) (history_ceiling opts)))
      else (false, none)
]

-- How many versions a prune keeps.
unfoldable pub versions_kept : ℕ → Option ℕ → ℕ
versions_kept ceiling none = ceiling
versions_kept ceiling (some most) = if ltb most ceiling then most else ceiling

abbrev pub is_version : ℕ → ℕ → VersionRow → Bool
is_version i n v = v.document_id == i && v.version_number == n

-- `archiveDocumentVersion` of a document's row: ON CONFLICT DO NOTHING.
unfoldable pub archive_version : DocumentRow → Docs → Docs
archive_version d db =
    if any_of (is_version d.id d.version_number) db.versions then db else record db {
      versions =
          db.versions
          ++ record {
            id = db.next_version;
            document_id = d.id;
            version_number = d.version_number;
            content = d.content;
            content_hash = d.content_hash;
            content_type = d.content_type;
            created_at = d.updated_at;
            created_by = d.updated_by;
          }
            ∷ [];
      next_version = suc db.next_version;
    }

-- ORDER BY version_number DESC
abbrev pub newest_version : VersionRow → VersionRow → Bool
newest_version a b = ltb b.version_number a.version_number

unfoldable pub beyond_kept : ℕ → ℕ → List VersionRow → List VersionRow
beyond_kept i most vs = drop most (sort_by newest_version (keep (λ v. v.document_id == i) vs))

-- `pruneDocumentVersions`
unfoldable pub prune_versions : ℕ → ℕ → Docs → Docs
prune_versions i most db = record db {
  versions =
      keep (λ v. not (any_of (λ x. x.id == v.id) (beyond_kept i most db.versions))) db.versions;
}

-- A write that sets the history without turning it on removes the versions.
abbrev pub drop_history : Option ℤ → ℕ → Docs → Docs
drop_history none i db = db
drop_history (some n) i db = prune_versions i 0 db

-- The versions before the row is written.
unfoldable pub keep_history : WriteOptions → DocumentRow → Bool → ℕ → Docs → Docs
keep_history opts d on most db =
    if on
    then prune_versions d.id most (archive_version d db)
    else drop_history opts.history d.id db

-- What a write brings besides its options.
pub record Write : Type 0 where
  pub owner : Text
  pub path : Text
  pub content : Text
  pub content_type : Text
  pub updated_by : Text

abbrev pub or_private : Option Visibility → Visibility
or_private none = private
or_private (some v) = v

abbrev pub or_kept {ℓ} : {A : Type ℓ} → Option A → A → A
or_kept none old = old
or_kept (some a) old = a

-- Whether an If-Match refuses the write.
abbrev pub is_conflict : Option Text → DocumentRow → Bool
is_conflict none d = false
is_conflict (some hash) d = not (d.content_hash =ᵗ hash)

-- The options of a patch and of a restored version: the ceiling alone.
abbrev pub ceiling_only : WriteOptions → WriteOptions
ceiling_only opts = record { visibility = none; history = none; max_history = opts.max_history }

module _ (lib : DocLibrary) (now : ℕ) where
  abbrev pub new_document : Write → WriteOptions → ℕ → DocumentRow
  new_document w opts i =
      let (on, most) = history_setting opts (false, none) in
      record {
        id = i;
        owner = w.owner;
        path = w.path;
        content = w.content;
        content_type = w.content_type;
        content_hash = lib.content_hash w.content;
        created_at = now;
        updated_at = now;
        updated_by = w.updated_by;
        version_number = 1;
        history_enabled = on;
        max_history = most;
        visibility = or_private opts.visibility;
      }

  -- ON CONFLICT DO UPDATE
  abbrev pub rewritten : Write → WriteOptions → DocumentRow → DocumentRow
  rewritten w opts d =
      let (on, most) = history_setting opts (d.history_enabled, d.max_history) in
      record d {
        content = w.content;
        content_type = w.content_type;
        content_hash = lib.content_hash w.content;
        updated_at = now;
        updated_by = w.updated_by;
        version_number = d.version_number + 1;
        history_enabled = on;
        max_history = most;
        visibility = or_kept opts.visibility d.visibility;
      }

  abbrev pub put_result : Write → Bool → ℕ → PutResult
  put_result w created version = record {
    content_hash = lib.content_hash w.content;
    created = created;
    updated_at = now;
    version_number = version;
  }

  unfoldable pub insert_document : Write → WriteOptions → Docs → Docs × Outcome PutResult
  insert_document w opts db = (
    record db {
      documents = db.documents ++ new_document w opts db.next_document ∷ [];
      next_document = suc db.next_document;
    },
    ok (put_result w true 1),
  )

  unfoldable pub update_document :
      Write → WriteOptions → DocumentRow → Docs → Docs × Outcome PutResult
  update_document w opts d db =
      let (on, most) = history_setting opts (d.history_enabled, d.max_history) in
      let kept = keep_history opts d on (versions_kept (history_ceiling opts) most) db in
      (
        record kept {
          documents =
              map (λ x. if at_path w.owner w.path x then rewritten w opts x else x) kept.documents;
        },
        ok (put_result w false (d.version_number + 1)),
      )

  -- `putDocumentLocked`: an If-Match on a path without a document is satisfied.
  unfoldable pub put_document_locked :
      Write → Option Text → WriteOptions → Docs → Docs × Outcome PutResult
  put_document_locked w if_match opts db = elim (get_document w.owner w.path db) [
    | none ↦ insert_document w opts db
    | some d ↦
        if is_conflict if_match d
        then (db, error (conflict (or_kept if_match []) d.content_hash))
        else update_document w opts d db
  ]

  -- `PutDocument`
  unfoldable pub put_document : Write → Option Text → WriteOptions → Docs → Docs × Outcome PutResult
  put_document w if_match opts db =
      if ltb max_document_size (length w.content)
      then (db, error (size_exceeded (length w.content)))
      else put_document_locked w if_match opts db

  abbrev pub merged_content : Members → DocumentRow → Option Text
  merged_content patch d = do
    existing ← lib.decode_object d.content
    lib.encode_object (apply_merge_patch existing patch)

  -- `PatchDocument`; its own write has no size limit and no If-Match.
  unfoldable pub patch_document :
      Text → Text → Members → Text → Option Text → WriteOptions → Docs → Docs × Outcome PutResult
  patch_document owner path patch by if_match opts db = elim (get_document owner path db) [
    | none ↦ (db, error not_found)
    | some d ↦
        if is_conflict if_match d
        then (db, error (conflict (or_kept if_match []) d.content_hash))
        else elim (merged_content patch d) [
          | none ↦ (db, error bad_json)
          | some content ↦
              put_document_locked
                (record {
                  owner = owner;
                  path = path;
                  content = content;
                  content_type = codes "application/json";
                  updated_by = by;
                })
                none (ceiling_only opts) db
        ]
  ]

  -- `RestoreDocumentVersion`
  unfoldable pub restore_version :
      Text → Text → ℕ → Text → Option Text → WriteOptions → Docs → Docs × Outcome PutResult
  restore_version owner path n by if_match opts db = elim (get_document owner path db) [
    | none ↦ (db, error not_found)
    | some d ↦ elim (find_first (is_version d.id n) db.versions) [
      | none ↦ (db, error not_found)
      | some v ↦
          put_document_locked
            (record {
              owner = owner;
              path = path;
              content = v.content;
              content_type = v.content_type;
              updated_by = by;
            })
            if_match (ceiling_only opts) db
    ]
  ]

-- `DeleteDocument`, with ON DELETE CASCADE of schema.sql; and whether there was one.
unfoldable pub delete_document : Text → Text → Docs → Docs × Bool
delete_document owner path db = elim (get_document owner path db) [
  | none ↦ (db, false)
  | some d ↦ (
    record db {
      documents = keep (λ x. not (at_path owner path x)) db.documents;
      versions = keep (λ v. not (v.document_id == d.id)) db.versions;
      readers = keep (λ a. not (a.store_id == d.id)) db.readers;
    },
    true,
  )
]
