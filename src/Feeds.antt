-- ===== src/Feeds.antt =====
-- Feeds, internal/storage/postgres/feeds.go: append-only logs with their own numbering, the reads and
-- the retention. A feed's entry_content_type, which only its column's default sets, is left out.
pub mod Log
pub mod Refinement
mod Tests
use go_ricochet.Base.{
  ℕ, zero, suc, ◌+◌, ◌-◌, ◌*◌, ◌/◌, ◌%◌, ◌^◌, ◌≤◌, ◌<◌, min, max, ◌≡◌, refl, sym, ap, ◌∙◌, subst,
  ◌≢◌, ◌↔◌, ◌⊎◌, inl, inr, Bool, true, false, not, ◌&&◌, ◌||◌, Option, none, some, List, [], ◌∷◌,
  ◌++◌, map, append-nil, append_assoc, arith, ltb, leb, ◌==◌, if◌then◌else◌, ltb→lt, lt→ltb, leb→le,
  ==_iff, eqb_refl, Bool-cases, ◌>>=◌, Option-cases, length, take, drop, keep, find_first, any_of,
  sum_by, All, length-append, sum_by-append, length-take, length-drop, take-append-drop,
  take-length_append, drop-length_append, take_all, sum_by-keep-not, All-keep, All-append, All-find,
  All-imp, All-map, AllPairs, AllPairs-keep, AllPairs-snoc, AllPairs-map, All-take, AllPairs-take,
  Text, codes, ◌=ᵗ◌, text_eq_refl, text_eq→eq, mem_text, ℤ, pos, negsuc, pos_part, neg_part, ◌≤ℤ◌,
  ltb_ℤ, is_positive, is_zero,
}
use go_ricochet.Store.Sort.{sort_by}
use go_ricochet.Readers.{Visibility, ReaderRow, Resource, AccessStore, readable_by}

pub record FeedRow : Type 0 where
  pub id : ℕ
  pub owner : Text
  pub path : Text
  pub title : Text
  pub description : Text
  pub created_at : ℕ
  pub last_entry_at : ℕ
  pub current_sequence : ℕ
  pub max_entries : Option ℤ
  pub max_age_days : Option ℤ
  pub collaborative : Bool
  pub visibility : Visibility

pub record FeedEntry : Type 0 where
  pub id : ℕ
  pub feed_id : ℕ
  pub sequence : ℕ
  pub content : Text
  pub content_hash : Text
  pub created_at : ℕ
  pub created_by : Text
  pub entry_type : Text

-- The tables feeds, feed_entries and feed_acls, and the two BIGSERIAL counters.
pub record Feeds : Type 0 where
  pub feeds : List FeedRow
  pub entries : List FeedEntry
  pub readers : List ReaderRow
  pub next_feed : ℕ
  pub next_entry : ℕ

abbrev pub no_feeds : Feeds
no_feeds = record { feeds = []; entries = []; readers = []; next_feed = 1; next_entry = 1 }

-- SHA-256 as the code writes it, and the database's order of texts.
pub record FeedLibrary : Type 0 where
  pub content_hash : Text → Text
  pub text_before : Text → Text → Bool

abbrev pub feed_at : Text → Text → FeedRow → Bool
feed_at owner path f = f.owner =ᵗ owner && f.path =ᵗ path

-- `GetFeed`
unfoldable pub get_feed : Text → Text → Feeds → Option FeedRow
get_feed owner path db = find_first (feed_at owner path) db.feeds

-- COALESCE(NULLIF(new, ''), old)
abbrev pub unless_empty : Text → Text → Text
unless_empty [] old = old
unless_empty (c ∷ cs) old = c ∷ cs

pub record NewFeed : Type 0 where
  pub owner : Text
  pub path : Text
  pub title : Text
  pub description : Text
  pub collaborative : Bool
  pub visibility : Visibility

abbrev pub feed_row : ℕ → NewFeed → ℕ → FeedRow
feed_row now n i = record {
  id = i;
  owner = n.owner;
  path = n.path;
  title = n.title;
  description = n.description;
  created_at = now;
  last_entry_at = now;
  current_sequence = 0;
  max_entries = none;
  max_age_days = none;
  collaborative = n.collaborative;
  visibility = n.visibility;
}

abbrev pub retitled : NewFeed → FeedRow → FeedRow
retitled n f = record f {
  title = unless_empty n.title f.title;
  description = unless_empty n.description f.description;
}

-- `CreateFeed` at `now`: ON CONFLICT DO UPDATE of the title and the description.
unfoldable pub create_feed : ℕ → NewFeed → Feeds → Feeds × FeedRow
create_feed now n db = elim (get_feed n.owner n.path db) [
  | none ↦ (
    record db {
      feeds = db.feeds ++ feed_row now n db.next_feed ∷ [];
      next_feed = suc db.next_feed;
    },
    feed_row now n db.next_feed,
  )
  | some f ↦ (
    record db { feeds = map (λ x. if feed_at n.owner n.path x then retitled n x else x) db.feeds },
    retitled n f,
  )
]

-- `DeleteFeed`, with ON DELETE CASCADE of schema.sql.
unfoldable pub delete_feed : Text → Text → Feeds → Feeds × Bool
delete_feed owner path db = elim (get_feed owner path db) [
  | none ↦ (db, false)
  | some f ↦ (
    record db {
      feeds = keep (λ x. not (feed_at owner path x)) db.feeds;
      entries = keep (λ e. not (e.feed_id == f.id)) db.entries;
      readers = keep (λ a. not (a.store_id == f.id)) db.readers;
    },
    true,
  )
]

-- `ListFeeds`
unfoldable pub list_feeds : FeedLibrary → Text → Text → Feeds → List FeedRow
list_feeds lib owner reader db =
    sort_by (λ a b. lib.text_before a.path b.path)
      (keep
        (λ f.
          f.owner =ᵗ owner
          && readable_by reader db.readers
              (record { id = f.id; owner = f.owner; visibility = f.visibility }))
        db.feeds)

abbrev pub has_id : ℕ → FeedRow → Bool
has_id i f = f.id == i

-- The sequence UPDATE of an append.
abbrev pub numbered : ℕ → FeedRow → FeedRow
numbered now f = record f { current_sequence = f.current_sequence + 1; last_entry_at = now }

-- What an append brings.
pub record Appended : Type 0 where
  pub feed_id : ℕ
  pub content : Text
  pub created_by : Text
  pub entry_type : Text

abbrev pub entry_row : FeedLibrary → ℕ → Appended → ℕ → ℕ → FeedEntry
entry_row lib now a i n = record {
  id = i;
  feed_id = a.feed_id;
  sequence = n;
  content = a.content;
  content_hash = lib.content_hash a.content;
  created_at = now;
  created_by = a.created_by;
  entry_type = a.entry_type;
}

-- `AppendFeedEntry`: none where there is no such feed, and the transaction is rolled back.
unfoldable pub append_feed_entry : FeedLibrary → ℕ → Appended → Feeds → Feeds × Option FeedEntry
append_feed_entry lib now a db = elim (find_first (has_id a.feed_id) db.feeds) [
  | none ↦ (db, none)
  | some f ↦ (
    record db {
      feeds = map (λ x. if has_id a.feed_id x then numbered now x else x) db.feeds;
      entries = db.entries ++ entry_row lib now a db.next_entry (f.current_sequence + 1) ∷ [];
      next_entry = suc db.next_entry;
    },
    some (entry_row lib now a db.next_entry (f.current_sequence + 1)),
  )
]

abbrev pub is_entry : ℕ → ℕ → FeedEntry → Bool
is_entry i n e = e.feed_id == i && e.sequence == n

-- `GetFeedEntry`
unfoldable pub get_feed_entry : ℕ → ℕ → Feeds → Option FeedEntry
get_feed_entry i n db = find_first (is_entry i n) db.entries

unfoldable pub entries_limit : ℤ → ℕ
entries_limit n = if not (is_positive n) then 50 else min (pos_part n) 1000

abbrev pub from_bound : Option ℤ → FeedEntry → Bool
from_bound none e = true
from_bound (some n) e = not (ltb_ℤ (pos e.sequence) n)

abbrev pub to_bound : Option ℤ → FeedEntry → Bool
to_bound none e = true
to_bound (some n) e = not (ltb_ℤ n (pos e.sequence))

abbrev pub of_type : Text → FeedEntry → Bool
of_type [] e = true
of_type (c ∷ cs) e = e.entry_type =ᵗ c ∷ cs

-- ORDER BY sequence_number ASC
abbrev pub earlier : FeedEntry → FeedEntry → Bool
earlier a b = ltb a.sequence b.sequence

-- The entries that `GetFeedEntries` selects, in order.
unfoldable pub selected_entries : ℕ → Option ℤ → Option ℤ → Text → Feeds → List FeedEntry
selected_entries i from to type db = sort_by earlier (
    keep (λ e. e.feed_id == i && (from_bound from e && (to_bound to e && of_type type e)))
      db.entries)

-- `GetFeedEntries`: a page, and whether another follows.
unfoldable pub get_feed_entries : ℕ → Option ℤ → Option ℤ → Text → ℤ → Feeds → List FeedEntry × Bool
get_feed_entries i from to type n db =
    let limit = entries_limit n in
    let found = take (limit + 1) (selected_entries i from to type db) in
    if ltb limit (length found) then (take limit found, true) else (found, false)

pub record MultiFeedQuery : Type 0 where
  pub owner_peer_id : Text
  pub path : Text
  pub from_sequence : Option ℤ
  pub limit : ℤ

pub data MultiFeedResult : Type 0 where
  invalid_owner : MultiFeedResult
  feed_not_found : MultiFeedResult
  found_entries : List FeedEntry → Bool → MultiFeedResult

-- One query of a batch; the goroutines of `GetMultiFeedEntries` only read.
abbrev pub query_feed : (Text → Option Text) → MultiFeedQuery → Feeds → MultiFeedResult
query_feed peer_decode q db = elim (peer_decode q.owner_peer_id) [
  | none ↦ invalid_owner
  | some owner ↦ elim (get_feed owner q.path db) [
    | none ↦ feed_not_found
    | some f ↦
        let (es, more) =
          get_feed_entries f.id q.from_sequence none []
            (if is_positive q.limit then q.limit else pos 50) db in
        found_entries es more
  ]
]

-- `GetMultiFeedEntries`: a result for each query, by its key "owner/path". Of two queries with one
-- key the code keeps one, whichever it stores last.
unfoldable pub get_multi_feed_entries :
    (Text → Option Text) → List MultiFeedQuery → Feeds → List (Text × MultiFeedResult)
get_multi_feed_entries peer_decode qs db =
    map (λ q. (q.owner_peer_id ++ codes "/" ++ q.path, query_feed peer_decode q db)) qs

abbrev pub day_ns : ℕ
day_ns = 24 * 3600 * 1000000000

-- created_at < NOW() - INTERVAL '1 day' * days, for a positive number of days
abbrev pub too_old : ℕ → Option ℤ → FeedEntry → Bool
too_old now none e = false
too_old now (some days) e = is_positive days && ltb (e.created_at + day_ns * pos_part days) now

abbrev pub is_latest_first : FeedEntry → FeedEntry → Bool
is_latest_first a b = ltb b.sequence a.sequence

-- The entries past the newest `most`.
unfoldable pub surplus : ℕ → ℕ → List FeedEntry → List FeedEntry
surplus i most es = drop most (sort_by is_latest_first (keep (λ e. e.feed_id == i) es))

abbrev pub remove_surplus : ℕ → Option ℤ → List FeedEntry → List FeedEntry
remove_surplus i none es = es
remove_surplus i (some most) es =
    if is_positive most
    then keep (λ e. not (any_of (λ x. x.id == e.id) (surplus i (pos_part most) es))) es
    else es

-- `EnforceFeedRetention`: by age, then by count.
unfoldable pub enforce_feed_retention : ℕ → FeedRow → Feeds → Feeds
enforce_feed_retention now f db = record db {
  entries =
      remove_surplus f.id f.max_entries
        (keep (λ e. not (e.feed_id == f.id && too_old now f.max_age_days e)) db.entries);
}

abbrev pub aged_out : ℕ → List FeedRow → FeedEntry → Bool
aged_out now fs e = any_of (λ f. e.feed_id == f.id && too_old now f.max_age_days e) fs

-- The sequence number of the first entry past the newest `most`: none without one.
abbrev pub first_sequence : List FeedEntry → Option ℕ
first_sequence [] = none
first_sequence (e ∷ es) = some e.sequence

abbrev pub counted_out : List FeedEntry → FeedEntry → FeedRow → Bool
counted_out es e f = elim f.max_entries [
  | none ↦ false
  | some most ↦
      e.feed_id == f.id
      && is_positive most
      && elim (first_sequence (surplus f.id (pos_part most) es)) [
        | none ↦ false
        | some n ↦ leb e.sequence n
      ]
]

-- `EnforceAllFeedRetention`
unfoldable pub enforce_all_feed_retention : ℕ → Feeds → Feeds
enforce_all_feed_retention now db =
    let aged = keep (λ e. not (aged_out now db.feeds e)) db.entries in
    record db { entries = keep (λ e. not (any_of (counted_out aged e) db.feeds)) aged }

-- `CountFeedEntries`
unfoldable pub count_feed_entries : ℕ → Feeds → ℕ
count_feed_entries i db = length (keep (λ e. e.feed_id == i) db.entries)

-- `SetStoreVisibility` of feeds, for one of the three visibilities, and the reader lists.
unfoldable pub set_feed_visibility : Text → Text → Visibility → Feeds → Feeds × Bool
set_feed_visibility owner path v db = (
  record db {
    feeds = map (λ f. if feed_at owner path f then record f { visibility = v } else f) db.feeds;
  },
  any_of (feed_at owner path) db.feeds,
)

abbrev pub feed_access : AccessStore Feeds
feed_access = record {
  set_visibility = set_feed_visibility;
  readers = λ db. db.readers;
  with_readers = λ rs db. record db { readers = rs };
}
