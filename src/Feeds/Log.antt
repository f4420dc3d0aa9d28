-- ===== src/Feeds/Log.antt =====
-- The abstract view of the feeds: append-only logs, and how the tables refine them.
use go_ricochet.Base.{
  ℕ, zero, suc, ◌<◌, ◌≡◌, refl, ap, inl, inr, Bool, false, Option, none, some, List, [], ◌∷◌, ◌++◌,
  map, arith, ◌==◌, if◌then◌else◌, Bool-cases, length, keep, All, All-keep, All-imp, All-map, Text,
}
use go_ricochet.Readers.{Visibility, ReaderRow}
use go_ricochet.Feeds.{
  FeedRow, FeedEntry, Feeds, FeedLibrary, NewFeed, create_feed, delete_feed, Appended,
  append_feed_entry, enforce_feed_retention, enforce_all_feed_retention, set_feed_visibility,
}

-- The abstract view of a feed: all that was ever appended to it, in order, numbered from 1.
abbrev pub of_feed : ℕ → Appended → Bool
of_feed i a = a.feed_id == i

abbrev pub log_of : ℕ → List Appended → List Appended
log_of i log = keep (of_feed i) log

abbrev pub nth : ℕ → List Appended → Option Appended
nth zero xs = none
nth (suc n) [] = none
nth (suc zero) (x ∷ xs) = some x
nth (suc (suc n)) (x ∷ xs) = nth (suc n) xs

-- What an entry keeps of the append that made it.
abbrev pub made_by : FeedEntry → Appended
made_by e = record {
  feed_id = e.feed_id;
  content = e.content;
  created_by = e.created_by;
  entry_type = e.entry_type;
}

-- A feed's number is the length of its log, and the entry with number n is the n-th of the log.
pub record Refines (db : Feeds) (log : List Appended) : Type 0 where
  pub numbers : All (λ f. f.current_sequence ≡ length (log_of f.id log)) db.feeds
  pub entries : All (λ e. nth e.sequence (log_of e.feed_id log) ≡ some (made_by e)) db.entries
  pub fresh : All (λ f. f.id < db.next_feed) db.feeds
  pub unused : All (λ a. a.feed_id < db.next_feed) log

pub data FeedOp : Type 0 where
  create_op : NewFeed → FeedOp
  delete_op : Text → Text → FeedOp
  append_op : Appended → FeedOp
  retain_op : FeedRow → FeedOp
  retain_all_op : FeedOp
  visibility_op : Text → Text → Visibility → FeedOp
  readers_op : List ReaderRow → FeedOp

abbrev pub logged : Appended → Option FeedEntry → List Appended → List Appended
logged a none log = log
logged a (some e) log = log ++ a ∷ []

-- A write of the store beside its log, which grows by an append that is let through and by nothing
-- else.
unfoldable pub feed_step : FeedLibrary → ℕ → FeedOp → Feeds × List Appended → Feeds × List Appended
feed_step lib now (create_op n) (db, log) = ((create_feed now n db).0, log)
feed_step lib now (delete_op owner path) (db, log) = ((delete_feed owner path db).0, log)
feed_step lib now (append_op a) (db, log) =
    let (after, result) = append_feed_entry lib now a db in (after, logged a result log)
feed_step lib now (retain_op f) (db, log) = (enforce_feed_retention now f db, log)
feed_step lib now retain_all_op (db, log) = (enforce_all_feed_retention now db, log)
feed_step lib now (visibility_op owner path v) (db, log) =
    ((set_feed_visibility owner path v db).0, log)
feed_step lib now (readers_op rs) (db, log) = (record db { readers = rs }, log)

unfoldable pub feed_run :
    FeedLibrary → List (ℕ × FeedOp) → Feeds × List Appended → Feeds × List Appended
feed_run lib [] s = s
feed_run lib ((now, op) ∷ ops) s = feed_run lib ops (feed_step lib now op s)

pub nth-append :
    (n : ℕ) (xs ys : List Appended) (a : Appended) → nth n xs ≡ some a → nth n (xs ++ ys) ≡ some a
nth-append zero xs ys a h = absurd (ground arith)
nth-append (suc n) [] ys a h = absurd (ground arith)
nth-append (suc zero) (x ∷ xs) ys a h = h
nth-append (suc (suc n)) (x ∷ xs) ys a h = nth-append (suc n) xs ys a h

pub nth-last : (xs : List Appended) (a : Appended) → nth (suc (length xs)) (xs ++ a ∷ []) ≡ some a
nth-last [] a = refl
nth-last (x ∷ xs) a = nth-last xs a

pub log_of-snoc :
    (i : ℕ) (log : List Appended) (a : Appended)
    → log_of i (log ++ a ∷ []) ≡ log_of i log ++ (if of_feed i a then a ∷ [] else [])
log_of-snoc i [] a = ground arith
log_of-snoc i (x ∷ xs) a = elim (Bool-cases (of_feed i x)) [
  | inl e ↦ rw e (ap (λ z. x ∷ z) (log_of-snoc i xs a))
  | inr e ↦ rw e (log_of-snoc i xs a)
]

pub empty_log : (i : ℕ) (log : List Appended) → All (λ a. a.feed_id < i) log → log_of i log ≡ []
empty_log i [] h = refl
empty_log i (x ∷ xs) h =
    let other : of_feed i x ≡ false = ground (arith, h.0) in rw other (empty_log i xs h.1)

-- A change of the rows that keeps their IDs and numbers.
pub change-Refines :
    (g : FeedRow → FeedRow) (db : Feeds) (log : List Appended)
    → ((f : FeedRow) → (g f).id ≡ f.id)
    → ((f : FeedRow) → (g f).current_sequence ≡ f.current_sequence)
    → Refines db log
    → Refines (record db { feeds = map g db.feeds }) log
change-Refines g db log ids same r = record {
  numbers =
      All-map (λ f. f.current_sequence ≡ length (log_of f.id log)) g db.feeds
        (All-imp (λ f. f.current_sequence ≡ length (log_of f.id log))
          (λ f. (g f).current_sequence ≡ length (log_of (g f).id log)) (λ f e. rw (ids f, same f) e)
          db.feeds r.numbers);
  entries = r.entries;
  fresh =
      All-map (λ f. f.id < db.next_feed) g db.feeds
        (All-imp (λ f. f.id < db.next_feed) (λ f. (g f).id < db.next_feed) (λ f l. rw (ids f) l)
          db.feeds r.fresh);
  unused = r.unused;
}

-- Fewer entries.
pub fewer-Refines :
    (p : FeedEntry → Bool) (db : Feeds) (log : List Appended)
    → Refines db log
    → Refines (record db { entries = keep p db.entries }) log
fewer-Refines p db log r = record {
  numbers = r.numbers;
  entries =
      All-keep (λ e. nth e.sequence (log_of e.feed_id log) ≡ some (made_by e)) p db.entries
        r.entries;
  fresh = r.fresh;
  unused = r.unused;
}
