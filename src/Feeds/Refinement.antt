-- ===== src/Feeds/Refinement.antt =====
-- The writes of the feeds refine an append-only log.
use go_ricochet.Base.{
  ℕ, suc, ◌+◌, ◌<◌, ◌≡◌, refl, ap, ◌∙◌, inl, inr, true, false, not, ◌&&◌, Option, none, some, List,
  [], ◌∷◌, ◌++◌, arith, ◌==◌, if◌then◌else◌, eqb_refl, Bool-cases, Option-cases, length, find_first,
  All, length-append, All-keep, All-append, All-find, All-imp, All-map, Text, ℤ, is_positive,
}
use go_ricochet.Feeds.{
  FeedRow, FeedEntry, Feeds, no_feeds, FeedLibrary, feed_at, get_feed, NewFeed, retitled,
  create_feed, delete_feed, has_id, numbered, Appended, append_feed_entry, get_feed_entry, is_entry,
  enforce_feed_retention, remove_surplus, enforce_all_feed_retention, set_feed_visibility,
}
use go_ricochet.Documents.Invariant.{find-holds}
use go_ricochet.Feeds.Log.{
  of_feed, log_of, nth, made_by, Refines, FeedOp, create_op, delete_op, append_op, retain_op,
  retain_all_op, visibility_op, readers_op, logged, feed_step, feed_run, nth-append, nth-last,
  log_of-snoc, empty_log, change-Refines, fewer-Refines,
}

create-Refines :
    (now : ℕ) (n : NewFeed) (db : Feeds) (log : List Appended)
    → Refines db log
    → Refines (create_feed now n db).0 log
unfolding create_feed
create-Refines now n db log r = elim (Option-cases (get_feed n.owner n.path db)) [
  | inr (f, e) ↦
      rw (e, create_feed)
        (change-Refines (λ x. if feed_at n.owner n.path x then retitled n x else x) db log
          (λ x. elim (Bool-cases (feed_at n.owner n.path x)) [
            | inl h ↦ rw h refl
            | inr h ↦ rw h refl
          ])
          (λ x. elim (Bool-cases (feed_at n.owner n.path x)) [
            | inl h ↦ rw h refl
            | inr h ↦ rw h refl
          ])
          r)
  | inl e ↦
      rw (e, create_feed)
        (record {
          numbers =
              All-append (λ f. f.current_sequence ≡ length (log_of f.id log)) db.feeds _ r.numbers
                (rw (empty_log db.next_feed log r.unused) refl, tt);
          entries = r.entries;
          fresh =
              All-append (λ f. f.id < suc db.next_feed) db.feeds _
                (All-imp (λ f. f.id < db.next_feed) (λ f. f.id < suc db.next_feed)
                  (λ f l. omega (arith, l)) db.feeds r.fresh)
                (omega arith, tt);
          unused =
              All-imp (λ a. a.feed_id < db.next_feed) (λ a. a.feed_id < suc db.next_feed)
                (λ a l. omega (arith, l)) log r.unused;
        })
]

delete-Refines :
    (owner path : Text) (db : Feeds) (log : List Appended)
    → Refines db log
    → Refines (delete_feed owner path db).0 log
unfolding delete_feed
delete-Refines owner path db log r = elim (Option-cases (get_feed owner path db)) [
  | inl e ↦ rw (e, delete_feed) r
  | inr (f, e) ↦
      rw (e, delete_feed)
        (record {
          numbers =
              All-keep (λ f. f.current_sequence ≡ length (log_of f.id log))
                (λ x. not (feed_at owner path x)) db.feeds r.numbers;
          entries =
              All-keep (λ e. nth e.sequence (log_of e.feed_id log) ≡ some (made_by e))
                (λ x. not (x.feed_id == f.id)) db.entries r.entries;
          fresh =
              All-keep (λ f. f.id < db.next_feed) (λ x. not (feed_at owner path x)) db.feeds
                r.fresh;
          unused = r.unused;
        })
]

longer :
    (i : ℕ) (log : List Appended) (a : Appended)
    → length (log_of i (log ++ a ∷ [])) ≡ length (log_of i log) + (if of_feed i a then 1 else 0)
longer i log a =
    ap length (log_of-snoc i log a)
    ∙ length-append (log_of i log) (if of_feed i a then a ∷ [] else [])
    ∙ elim (Bool-cases (of_feed i a)) [ inl e ↦ rw e refl | inr e ↦ rw e refl ]

append-Refines :
    (lib : FeedLibrary) (now : ℕ) (a : Appended) (db : Feeds) (log : List Appended)
    → Refines db log
    → Refines (append_feed_entry lib now a db).0 (logged a (append_feed_entry lib now a db).1 log)
unfolding append_feed_entry
append-Refines lib now a db log r = elim (Option-cases (find_first (has_id a.feed_id) db.feeds)) [
  | inl e ↦ rw (e, append_feed_entry) r
  | inr (f, e) ↦
      let own : (f.id == a.feed_id) ≡ true = find-holds (has_id a.feed_id) db.feeds f e in
      let id : f.id ≡ a.feed_id = ground arith in
      let number =
        All-find (λ f. f.current_sequence ≡ length (log_of f.id log)) (has_id a.feed_id) db.feeds f
          r.numbers e in
      let known = All-find (λ f. f.id < db.next_feed) (has_id a.feed_id) db.feeds f r.fresh e in
      rw (e, append_feed_entry)
        (record {
          numbers =
              All-map (λ f. f.current_sequence ≡ length (log_of f.id (log ++ a ∷ [])))
                (λ x. if has_id a.feed_id x then numbered now x else x) db.feeds
                (All-imp (λ f. f.current_sequence ≡ length (log_of f.id log)) _
                  (λ x h. renumbered x h) db.feeds r.numbers);
          entries =
              All-append (λ e. nth e.sequence (log_of e.feed_id (log ++ a ∷ [])) ≡ some (made_by e))
                db.entries _
                (All-imp (λ e. nth e.sequence (log_of e.feed_id log) ≡ some (made_by e)) _
                  (λ x h. rw (log_of-snoc x.feed_id log a) (nth-append x.sequence _ _ _ h))
                  db.entries r.entries)
                (newest f id number, tt);
          fresh =
              All-map (λ f. f.id < db.next_feed)
                (λ x. if has_id a.feed_id x then numbered now x else x) db.feeds
                (All-imp (λ f. f.id < db.next_feed) _
                  (λ x l. elim (Bool-cases (has_id a.feed_id x)) [
                    | inl h ↦ rw h l
                    | inr h ↦ rw h l
                  ])
                  db.feeds r.fresh);
          unused =
              All-append (λ x. x.feed_id < db.next_feed) log (a ∷ []) r.unused
                (omega (arith, known, id), tt);
        })
]
  where
    renumbered :
        (x : FeedRow)
        → x.current_sequence ≡ length (log_of x.id log)
        → (if has_id a.feed_id x then numbered now x else x).current_sequence
          ≡ length (log_of (if has_id a.feed_id x then numbered now x else x).id (log ++ a ∷ []))
    renumbered x h =
        let more = longer x.id log a in
        elim (Bool-cases (x.id == a.feed_id)) [
          | inl e ↦
              let own : (a.feed_id == x.id) ≡ true = ground arith in
              let more' = rw own at more in rw e (omega (arith, more', h))
          | inr e ↦
              let other : (a.feed_id == x.id) ≡ false = ground arith in
              let more' = rw other at more in rw e (omega (arith, more', h))
        ]

    newest :
        (f : FeedRow)
        → f.id ≡ a.feed_id
        → f.current_sequence ≡ length (log_of f.id log)
        → nth (f.current_sequence + 1) (log_of a.feed_id (log ++ a ∷ [])) ≡ some a
    newest f id number =
        let own = eqb_refl a.feed_id in
        let next : f.current_sequence + 1 ≡ suc (length (log_of f.id log)) =
          omega (arith, number) in
        let count : f.current_sequence + 1 ≡ suc (length (log_of a.feed_id log)) = rw id at next in
        rw (count, log_of-snoc a.feed_id log a) (rw own (nth-last (log_of a.feed_id log) a))

surplus-Refines :
    (i : ℕ) (most : Option ℤ) (db : Feeds) (log : List Appended)
    → Refines db log
    → Refines (record db { entries = remove_surplus i most db.entries }) log
surplus-Refines i none db log r = r
surplus-Refines i (some most) db log r = elim (Bool-cases (is_positive most)) [
  | inl e ↦ rw e (fewer-Refines _ db log r)
  | inr e ↦ rw e r
]

-- A state and its log, as one.
abbrev pub IsLog : Feeds × List Appended → Type 0
IsLog (db, log) = Refines db log

step-IsLog :
    (lib : FeedLibrary) (now : ℕ) (op : FeedOp) (db : Feeds) (log : List Appended)
    → Refines db log
    → IsLog (feed_step lib now op (db, log))
unfolding feed_step
step-IsLog lib now (create_op n) db log r = create-Refines now n db log r
step-IsLog lib now (delete_op owner path) db log r = delete-Refines owner path db log r
step-IsLog lib now (append_op a) db log r = append-Refines lib now a db log r
step-IsLog lib now (retain_op f) db log r =
    unfold enforce_feed_retention in
    surplus-Refines f.id f.max_entries _ log (fewer-Refines _ db log r)
step-IsLog lib now retain_all_op db log r =
    unfold enforce_all_feed_retention in fewer-Refines _ _ log (fewer-Refines _ db log r)
step-IsLog lib now (visibility_op owner path v) db log r =
    unfold set_feed_visibility in
    change-Refines (λ f. if feed_at owner path f then record f { visibility = v } else f) db log
      (λ x. elim (Bool-cases (feed_at owner path x)) [ inl h ↦ rw h refl | inr h ↦ rw h refl ])
      (λ x. elim (Bool-cases (feed_at owner path x)) [ inl h ↦ rw h refl | inr h ↦ rw h refl ]) r
step-IsLog lib now (readers_op rs) db log r = record {
  numbers = r.numbers;
  entries = r.entries;
  fresh = r.fresh;
  unused = r.unused;
}

from-IsLog :
    (lib : FeedLibrary) (ops : List (ℕ × FeedOp)) (db : Feeds) (log : List Appended)
    → Refines db log
    → IsLog (feed_run lib ops (db, log))
unfolding feed_run
from-IsLog lib [] db log r = r
from-IsLog lib ((now, op) ∷ ops) db log r =
    from-IsLog lib ops (feed_step lib now op (db, log)).0 (feed_step lib now op (db, log)).1
      (step-IsLog lib now op db log r)

read-nth :
    (i n : ℕ) (es : List FeedEntry) (e : FeedEntry) (log : List Appended)
    → All (λ e. nth e.sequence (log_of e.feed_id log) ≡ some (made_by e)) es
    → find_first (is_entry i n) es ≡ some e
    → nth n (log_of i log) ≡ some (made_by e)
read-nth i n es e log all found =
    let hit : (e.feed_id == i && e.sequence == n) ≡ true = find-holds (is_entry i n) es e found in
    let feed : e.feed_id ≡ i = ground arith in
    let number : e.sequence ≡ n = ground arith in
    rw⁻¹ feed (
      rw⁻¹ number (
        All-find (λ e. nth e.sequence (log_of e.feed_id log) ≡ some (made_by e)) (is_entry i n) es e
          all found))

-- After any sequence of creations, deletions, appends, retention and changes of access, from empty
-- tables, an entry that is read under a number of a feed is what the append of that number, counted
-- from 1 over all that the feed was ever given, brought: retention leaves gaps and no append is
-- renumbered, reordered or altered.
pub get_feed_entry-nth :
    (lib : FeedLibrary) (ops : List (ℕ × FeedOp)) (i n : ℕ) (e : FeedEntry)
    → get_feed_entry i n (feed_run lib ops (no_feeds, [])).0 ≡ some e
    → nth n (log_of i (feed_run lib ops (no_feeds, [])).1) ≡ some (made_by e)
unfolding get_feed_entry
get_feed_entry-nth lib ops i n e found =
    let refines =
      from-IsLog lib ops no_feeds []
        (record { numbers = tt; entries = tt; fresh = tt; unused = tt }) in
    read-nth i n (feed_run lib ops (no_feeds, [])).0.entries e (feed_run lib ops (no_feeds, [])).1
      refines.entries found
