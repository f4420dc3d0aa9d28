-- ===== src/Feeds/Tests.antt =====
-- Ann's feed with two entries, of which one is kept.
use go_ricochet.Base.{
  ℕ, ◌≡◌, refl, false, none, some, List, [], ◌∷◌, ltb, length, Text, codes, ◌=ᵗ◌, pos,
}
use go_ricochet.Readers.{public}
use go_ricochet.Store.Sort.{sort_by, insert_by}
use go_ricochet.Feeds.{
  no_feeds, FeedLibrary, NewFeed, feed_row, create_feed, get_feed, Appended, entry_row,
  append_feed_entry, get_feed_entry, enforce_feed_retention, surplus,
}
use go_ricochet.Feeds.Log.{
  FeedOp, create_op, append_op, retain_op, feed_run, feed_step, log_of, nth,
}
use go_ricochet.Feeds.Refinement.{get_feed_entry-nth}

abbrev toy : FeedLibrary
toy = record { content_hash = λ c. 104 ∷ c; text_before = λ a b. ltb (length a) (length b) }

abbrev news : NewFeed
news = record {
  owner = codes "ann";
  path = codes "news";
  title = codes "News";
  description = [];
  collaborative = false;
  visibility = public;
}

abbrev item : Text → Appended
item content = record { feed_id = 1; content = content; created_by = codes "ann"; entry_type = [] }

abbrev history : List (ℕ × FeedOp)
history =
    (10, create_op news)
    ∷ (20, append_op (item (codes "one")))
    ∷ (30, append_op (item (codes "two")))
    ∷ (40, retain_op (record (feed_row 10 news 1) { max_entries = some (pos 1) }))
    ∷ []

second_kept :
    get_feed_entry 1 2 (feed_run toy history (no_feeds, [])).0
    ≡ some (entry_row toy 30 (item (codes "two")) 2 2)
unfolding feed_run feed_step create_feed get_feed append_feed_entry get_feed_entry
    enforce_feed_retention surplus sort_by insert_by ◌=ᵗ◌
second_kept = refl

first_pruned : get_feed_entry 1 1 (feed_run toy history (no_feeds, [])).0 ≡ none
unfolding feed_run feed_step create_feed get_feed append_feed_entry get_feed_entry
    enforce_feed_retention surplus sort_by insert_by ◌=ᵗ◌
first_pruned = refl

get_feed_entry-nth_example :
    nth 2 (log_of 1 (feed_run toy history (no_feeds, [])).1) ≡ some (item (codes "two"))
get_feed_entry-nth_example =
    get_feed_entry-nth toy history 1 2 (entry_row toy 30 (item (codes "two")) 2 2) second_kept
