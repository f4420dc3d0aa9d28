-- ===== src/Directory.antt =====
-- The directory of peers: the listings of internal/storage/postgres/postgres.go.
use go_ricochet.Base.{
  ℕ, suc, ◌+◌, min, Bool, true, false, not, ◌&&◌, ◌||◌, Option, none, some, List, [], ◌∷◌, ◌++◌,
  map, ltb, ◌==◌, if◌then◌else◌, ◌>>=◌, length, take, keep, find_first, any_of, Text, codes, ◌=ᵗ◌,
  ℤ, pos_part, is_positive,
}
use go_ricochet.Store.Sort.{sort_by}
use go_ricochet.Documents.Patch.{Members}

pub record DirectoryEntry : Type 0 where
  pub id : ℕ
  pub owner : Text
  pub display_name : Text
  pub bio : Text
  pub avatar_hash : Text
  pub listed_at : ℕ
  pub updated_at : ℕ
  pub extras : Option Members

-- The table directory_listings and its counter.
pub record Listings : Type 0 where
  pub entries : List DirectoryEntry
  pub next_entry : ℕ

-- What a listing brings to an upsert.
pub record Profile : Type 0 where
  pub display_name : Text
  pub bio : Text
  pub avatar_hash : Text
  pub extras : Option Members

abbrev pub owned : Text → DirectoryEntry → Bool
owned owner e = e.owner =ᵗ owner

abbrev pub entry_update : ℕ → Profile → DirectoryEntry → DirectoryEntry
entry_update now p e = record e {
  display_name = p.display_name;
  bio = p.bio;
  avatar_hash = p.avatar_hash;
  extras = p.extras;
  updated_at = now;
}

-- `UpsertDirectoryEntry` at `now`; the counter moves also where the owner has an entry.
unfoldable pub upsert_directory_entry : ℕ → Text → Profile → Listings → Listings
upsert_directory_entry now owner p l =
    if any_of (owned owner) l.entries
    then record {
      entries = map (λ e. if owned owner e then entry_update now p e else e) l.entries;
      next_entry = suc l.next_entry;
    }
    else record {
      entries =
          l.entries
          ++ record {
            id = l.next_entry;
            owner = owner;
            display_name = p.display_name;
            bio = p.bio;
            avatar_hash = p.avatar_hash;
            listed_at = now;
            updated_at = now;
            extras = p.extras;
          }
            ∷ [];
      next_entry = suc l.next_entry;
    }

-- `RemoveDirectoryEntry`
unfoldable pub remove_directory_entry : Text → Listings → Listings
remove_directory_entry owner l = record l { entries = keep (λ e. not (owned owner e)) l.entries }

-- `GetDirectoryEntry`
unfoldable pub get_directory_entry : Text → Listings → Option DirectoryEntry
get_directory_entry owner l = find_first (owned owner) l.entries

-- What a search calls in other modules: strings.TrimSpace, the words of the pattern
-- `[\p{L}\p{N}]+`, PostgreSQL's full-text match and order of texts, and the format of a time.
pub record BrowseLibrary : Type 0 where
  pub trim_space : Text → Text
  pub words : Text → List Text
  pub matches_query : Text → DirectoryEntry → Bool
  pub text_before : Text → Text → Bool
  pub parse_time : Text → Option ℕ
  pub format_time : ℕ → Text

pub record DirectoryPage : Type 0 where
  pub entries : List DirectoryEntry
  pub next_cursor : Text
  pub has_more : Bool

pub data BrowseError : Type 0 where
  invalid_cursor : BrowseError
  query_too_long : BrowseError

pub data Browsed : Type 0 where
  page : DirectoryPage → Browsed
  browse_error : BrowseError → Browsed

abbrev pub no_page : DirectoryPage
no_page = record { entries = []; next_cursor = []; has_more = false }

-- 'w':* for each word, with & between.
abbrev pub tsquery_of : List Text → Text
tsquery_of [] = []
tsquery_of (w ∷ []) = codes "'" ++ w ++ codes "':*"
tsquery_of (w ∷ v ∷ ws) = codes "'" ++ w ++ codes "':*" ++ codes " & " ++ tsquery_of (v ∷ ws)

-- `prefixTSQuery`
unfoldable pub prefix_tsquery : BrowseLibrary → Text → Option Text
prefix_tsquery lib query = elim (lib.words query) [
  | [] ↦ none
  | w ∷ ws ↦ some (tsquery_of (w ∷ ws))
]

abbrev pub max_directory_query_length : ℕ
max_directory_query_length = 100

-- `strings.LastIndex` of the colon and the two parts about it.
abbrev pub with_head : ℕ → Option (Text × Text) → Option (Text × Text)
with_head c none = none
with_head c (some (a, b)) = some (c ∷ a, b)

abbrev pub split_last : Text → Option (Text × Text)
split_last [] = none
split_last (c ∷ cs) = elim (split_last cs) [
  | none ↦ if c == 58 then some ([], cs) else none
  | some p ↦ with_head c (some p)
]

-- A cursor's time and peer: none where it cannot be read.
unfoldable pub parse_cursor : BrowseLibrary → Text → Option (ℕ × Text)
parse_cursor lib cursor = do
  (before, after) ← split_last cursor
  time ← if before =ᵗ [] then none else lib.parse_time before
  if after =ᵗ [] then none else some (time, after)

-- (updated_at, owner_peer_id) < (time, peer)
abbrev pub below : BrowseLibrary → ℕ × Text → DirectoryEntry → Bool
below lib (time, peer) e =
    ltb e.updated_at time || (e.updated_at == time && lib.text_before e.owner peer)

abbrev pub newer_listing : BrowseLibrary → DirectoryEntry → DirectoryEntry → Bool
newer_listing lib a b =
    ltb b.updated_at a.updated_at
    || (a.updated_at == b.updated_at && lib.text_before b.owner a.owner)

-- The page size that `BrowseDirectory` serves.
unfoldable pub browse_limit : ℤ → ℕ
browse_limit n = if not (is_positive n) then 20 else min (pos_part n) 100

abbrev pub last_entry : DirectoryEntry → List DirectoryEntry → DirectoryEntry
last_entry e [] = e
last_entry e (x ∷ xs) = last_entry x xs

abbrev pub cursor_after : BrowseLibrary → List DirectoryEntry → Text
cursor_after lib [] = []
cursor_after lib (e ∷ es) =
    let last = last_entry e es in lib.format_time last.updated_at ++ codes ":" ++ last.owner

abbrev pub page_of : BrowseLibrary → ℕ → List DirectoryEntry → DirectoryPage
page_of lib limit found =
    if ltb limit (length found)
    then record {
      entries = take limit found;
      next_cursor = cursor_after lib (take limit found);
      has_more = true;
    }
    else record { entries = found; next_cursor = []; has_more = false }

-- The rows of a browse, given its condition on the text and its cursor.
abbrev pub browse_rows :
    BrowseLibrary → Option Text → Option (ℕ × Text) → List DirectoryEntry → List DirectoryEntry
browse_rows lib query start es = sort_by (newer_listing lib) (
    keep
      (λ e.
        elim query [ none ↦ true | some q ↦ lib.matches_query q e ]
        && elim start [ none ↦ true | some c ↦ below lib c e ])
      es)

abbrev pub browse_from : BrowseLibrary → ℕ → Option Text → Text → Listings → Browsed
browse_from lib limit query [] l =
    page (page_of lib limit (take (limit + 1) (browse_rows lib query none l.entries)))
browse_from lib limit query (c ∷ cursor) l = elim (parse_cursor lib (c ∷ cursor)) [
  | none ↦ browse_error invalid_cursor
  | some start ↦
      page (page_of lib limit (take (limit + 1) (browse_rows lib query (some start) l.entries)))
]

abbrev pub browse_trimmed : BrowseLibrary → ℕ → Text → Text → Listings → Browsed
browse_trimmed lib limit [] cursor l = browse_from lib limit none cursor l
browse_trimmed lib limit (c ∷ query) cursor l = elim (prefix_tsquery lib (c ∷ query)) [
  | none ↦ page no_page
  | some q ↦ browse_from lib limit (some q) cursor l
]

-- `BrowseDirectory`
unfoldable pub browse_directory : BrowseLibrary → Text → Text → ℤ → Listings → Browsed
browse_directory lib query cursor n l =
    if ltb max_directory_query_length (length (lib.trim_space query))
    then browse_error query_too_long
    else browse_trimmed lib (browse_limit n) (lib.trim_space query) cursor l
