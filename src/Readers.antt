-- ===== src/Readers.antt =====
-- Who may read a document, feed or collection: pkg/wire/visibility.go, the reader lists of
-- internal/storage/postgres/store_access.go, and the checks and the ACCESS operation of
-- internal/protocol/wire (access.go, authz.go).
pub mod Agree
pub mod Owner
mod Tests
use go_ricochet.Base.{
  ℕ, zero, suc, ◌+◌, ◌-◌, ◌*◌, ◌/◌, ◌%◌, ◌^◌, ◌≤◌, ◌<◌, min, max, ◌≡◌, refl, sym, ap, ◌∙◌, subst,
  ◌≢◌, ◌↔◌, ◌⊎◌, inl, inr, Bool, true, false, not, ◌&&◌, ◌||◌, Option, none, some, List, [], ◌∷◌,
  ◌++◌, map, append-nil, append_assoc, arith, ltb, leb, ◌==◌, if◌then◌else◌, ltb→lt, lt→ltb, leb→le,
  ==_iff, eqb_refl, Bool-cases, ◌>>=◌, Option-cases, length, take, drop, keep, find_first, any_of,
  sum_by, All, length-append, sum_by-append, length-take, length-drop, take-append-drop,
  take-length_append, drop-length_append, take_all, sum_by-keep-not, All-keep, All-append, All-find,
  All-imp, All-map, AllPairs, AllPairs-keep, AllPairs-snoc, AllPairs-map, All-take, AllPairs-take,
  Text, codes, ◌=ᵗ◌, text_eq_refl, text_eq→eq, mem_text, ℤ, pos, negsuc, pos_part, neg_part, ◌≤ℤ◌,
  ltb_ℤ, is_positive, is_zero,
}
use go_ricochet.Store.Sort.{sort_by}

-- The stored number may be none of the three.
pub data Visibility : Type 0 where
  private shared public : Visibility
  unknown : ℕ → Visibility

-- `VisibilityFromString`, with `strings.ToLower` as a parameter.
unfoldable pub visibility_from_string : (Text → Text) → Text → Option Visibility
visibility_from_string to_lower s =
    if to_lower s =ᵗ codes "private"
    then some private
    else if to_lower s =ᵗ codes "shared"
    then some shared
    else if to_lower s =ᵗ codes "public"
    then some public
    else none

-- `String`; the name of an unknown visibility is left to `fmt.Sprintf`.
unfoldable pub visibility_name : (ℕ → Text) → Visibility → Text
visibility_name other private = codes "private"
visibility_name other shared = codes "shared"
visibility_name other public = codes "public"
visibility_name other (unknown n) = other n

-- A row of a reader list: document_acls, feed_acls or collection_acls.
pub record ReaderRow : Type 0 where
  pub store_id : ℕ
  pub peer : Text
  pub granted_at : ℕ

-- What the checks use of a row of documents, feeds or collections.
pub record Resource : Type 0 where
  pub id : ℕ
  pub owner : Text
  pub visibility : Visibility

abbrev pub names_reader : ℕ → Text → ReaderRow → Bool
names_reader i reader a = a.store_id == i && a.peer =ᵗ reader

-- `IsStoreReader`
unfoldable pub is_store_reader : ℕ → Text → List ReaderRow → Bool
is_store_reader i reader acls = any_of (names_reader i reader) acls

-- `GrantStoreReader` at `now`: ON CONFLICT DO NOTHING.
unfoldable pub grant_store_reader : ℕ → ℕ → Text → List ReaderRow → List ReaderRow
grant_store_reader now i reader acls =
    if any_of (names_reader i reader) acls
    then acls
    else acls ++ record { store_id = i; peer = reader; granted_at = now } ∷ []

-- `RevokeStoreReader`
unfoldable pub revoke_store_reader : ℕ → Text → List ReaderRow → List ReaderRow
revoke_store_reader i reader acls = keep (λ a. not (names_reader i reader a)) acls

abbrev pub is_public : Visibility → Bool
is_public public = true
is_public _ = false

abbrev pub is_shared : Visibility → Bool
is_shared shared = true
is_shared _ = false

-- The predicate of `readableBy`.
unfoldable pub readable_by : Text → List ReaderRow → Resource → Bool
readable_by reader acls r =
    r.owner =ᵗ reader
    || is_public r.visibility
    || (is_shared r.visibility && any_of (names_reader r.id reader) acls)

-- `RequireReader`: true where the caller is let through. `banned` is the ban list.
unfoldable pub granted_by : Text → List ReaderRow → ℕ → Visibility → Bool
unfolding is_store_reader
granted_by caller acls i private = false
granted_by caller acls i shared = is_store_reader i caller acls
granted_by caller acls i public = true
granted_by caller acls i (unknown n) = false

unfoldable pub require_reader : (Text → Bool) → Text → List ReaderRow → Resource → Bool
unfolding granted_by
require_reader banned caller acls r =
    if caller =ᵗ r.owner
    then true
    else if banned r.owner
    then false
    else granted_by caller acls r.id r.visibility

-- `HiddenOwner`
unfoldable pub hidden_owner : (Text → Bool) → Text → Text → Bool
hidden_owner banned caller owner = not (caller =ᵗ owner) && banned owner

-- `RequireOwner` and `RequireSelf`: true where the caller is let through.
unfoldable pub require_owner : Text → Text → Bool
require_owner caller owner = caller =ᵗ owner

unfoldable pub require_self : Text → Text → Bool
require_self caller claimed = claimed =ᵗ [] || claimed =ᵗ caller

-- What the ACCESS operation calls of the store of one kind.
pub record AccessStore (S : Type 0) : Type 0 where
  pub set_visibility : Text → Text → Visibility → S → S × Bool
  pub readers : S → List ReaderRow
  pub with_readers : List ReaderRow → S → S

pub record AccessRequest : Type 0 where
  pub owner : Text
  pub path : Text
  pub id : ℕ
  pub current : Visibility
  pub action : Text
  pub visibility : Text
  pub reader : Text

pub data AccessResult : Type 0 where
  done : Visibility → List ReaderRow → AccessResult
  failed : ℕ → AccessResult

-- ORDER BY granted_at, peer_id; `peer_before` is the database's order of texts.
unfoldable pub reader_order : (Text → Text → Bool) → ReaderRow → ReaderRow → Bool
reader_order peer_before a b =
    ltb a.granted_at b.granted_at || (a.granted_at == b.granted_at && peer_before a.peer b.peer)

-- What the operation calls in other modules: the order of texts, `peer.Decode` and `strings.ToLower`.
pub record AccessLibrary : Type 0 where
  pub peer_before : Text → Text → Bool
  pub peer_decode : Text → Option Text
  pub to_lower : Text → Text

-- `ListStoreReaders`
unfoldable pub list_store_readers : AccessLibrary → ℕ → List ReaderRow → List ReaderRow
list_store_readers lib i acls =
    sort_by (reader_order lib.peer_before) (keep (λ a. a.store_id == i) acls)

module _ {S : Type 0} (store : AccessStore S) (lib : AccessLibrary) (now : ℕ) where
  abbrev listed : ℕ → Visibility → S → S × AccessResult
  listed i v s = (s, done v (list_store_readers lib i (store.readers s)))

  abbrev set_action : AccessRequest → Visibility → S → S × AccessResult
  set_action req v s =
      let (s', found) = store.set_visibility req.owner req.path v s in
      if found then listed req.id v s' else (s', failed 404)

  abbrev grant_action : AccessRequest → Text → S → S × AccessResult
  grant_action req reader s =
      listed req.id req.current
        (store.with_readers (grant_store_reader now req.id reader (store.readers s)) s)

  abbrev revoke_action : AccessRequest → Text → S → S × AccessResult
  revoke_action req reader s =
      listed req.id req.current
        (store.with_readers (revoke_store_reader req.id reader (store.readers s)) s)

  -- `StoreAccess`, the text of its refusals left out.
  unfoldable pub store_access : AccessRequest → S → S × AccessResult
  store_access req s =
      if req.action =ᵗ codes "get"
      then listed req.id req.current s
      else if req.action =ᵗ codes "set"
      then elim (visibility_from_string lib.to_lower req.visibility) [
        | none ↦ (s, failed 400)
        | some v ↦ set_action req v s
      ]
      else if req.action =ᵗ codes "grant"
      then elim (lib.peer_decode req.reader) [
        | none ↦ (s, failed 400)
        | some reader ↦ grant_action req reader s
      ]
      else if req.action =ᵗ codes "revoke"
      then elim (lib.peer_decode req.reader) [
        | none ↦ (s, failed 400)
        | some reader ↦ revoke_action req reader s
      ]
      else (s, failed 400)
