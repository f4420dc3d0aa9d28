-- ===== src/Mailboxes/Cursor.antt =====
-- The reader cursor of shared and public mailboxes.
use go_ricochet.Base.{
  ℕ, ◌+◌, ◌≤◌, ◌<◌, ◌≡◌, refl, ap, ◌≢◌, ◌⊎◌, inl, inr, Bool, true, false, Option, none, some, List,
  [], ◌∷◌, ◌++◌, map, arith, if◌then◌else◌, Bool-cases, Option-cases, length, keep, find_first,
  any_of, All, All-imp, All-map, AllPairs, All-take, AllPairs-take, Text, text_eq_refl,
}
use go_ricochet.Wire.{Message, MailboxType}
use go_ricochet.Store.Rows.{MailboxRow, CursorRow, Db}
use go_ricochet.Store.Messages.{matches, retrieve_order, scan_message, retrieve_messages}
use go_ricochet.Store.Access.{cursor_at, get_cursor, update_cursor}
use go_ricochet.Store.Retrieval.{All-sort_by, keep-All, Leads, retrieve-ordered}
use go_ricochet.Mailboxes.Page.{Library, RetrieveOpts, fetch_page, page_limit}
use go_ricochet.Mailboxes.Paging.{fetch_page_lem}
use go_ricochet.Mailboxes.{ok, start_of, after_read, last_sequence, retrieve_from}

find-upsert :
    (mid : ℕ) (r : Text) (seq : ℕ) (cs : List CursorRow)
    → any_of (cursor_at mid r) cs ≡ true
    → (c : CursorRow) × (find_first
          (cursor_at mid r)
          (map (λ c. if cursor_at mid r c then record c { last_sequence_read = seq } else c) cs)
        ≡ some c)
      × (c.last_sequence_read ≡ seq)
find-upsert mid r seq [] h = cc
find-upsert mid r seq (c ∷ cs) h = elim (Bool-cases (cursor_at mid r c)) [
  | inl hit ↦ (record c { last_sequence_read = seq }, rw hit (rw hit refl), refl)
  | inr miss ↦
      let (x, found, is_seq) = find-upsert mid r seq cs (ground arith) in
      (x, rw miss (rw miss found), is_seq)
]

find-snoc :
    (mid : ℕ) (r : Text) (c : CursorRow) (cs : List CursorRow)
    → any_of (cursor_at mid r) cs ≡ false
    → cursor_at mid r c ≡ true
    → find_first (cursor_at mid r) (cs ++ c ∷ []) ≡ some c
find-snoc mid r c [] h e = rw e refl
find-snoc mid r c (x ∷ xs) h e =
    let miss : cursor_at mid r x ≡ false = ground arith in
    rw miss (find-snoc mid r c xs (ground arith) e)

pub get_cursor-update_cursor :
    (mid : ℕ) (r : Text) (seq : ℕ) (db : Db) → get_cursor mid r (update_cursor mid r seq db) ≡ seq
unfolding get_cursor update_cursor
get_cursor-update_cursor mid r seq db = elim (Bool-cases (any_of (cursor_at mid r) db.cursors)) [
  | inl old ↦
      let (c, found, is_seq) = find-upsert mid r seq db.cursors old in
      rw old (rw (found, get_cursor) is_seq)
  | inr new ↦
      let c : CursorRow = record { mailbox_id = mid; reader = r; last_sequence_read = seq } in
      let here : cursor_at mid r c ≡ true = ground (arith, text_eq_refl r) in
      rw new (rw (find-snoc mid r c db.cursors new here, get_cursor))
]

-- A retrieval from a sequence number has no smaller one.
retrieve-from_bound :
    (now mid s : ℕ) (min_priority : Option ℕ) (db : Db)
    → All (λ m. s ≤ m.sequence) (retrieve_messages now mid (some s) none min_priority db)
unfolding retrieve_messages
retrieve-from_bound now mid s min_priority db =
    let hit = matches now mid (some s) min_priority in
    All-map (λ m. s ≤ m.sequence) scan_message _
      (All-sort_by retrieve_order (λ r. s ≤ r.sequence) _
        (All-imp (λ r. hit r ≡ true) (λ r. s ≤ r.sequence) (λ r h. ground arith)
          (keep hit db.messages) (keep-All hit db.messages)))

abbrev pub KeepsCursor : MailboxType → Type 0
KeepsCursor t = (t ≡ MailboxType.shared) ⊎ (t ≡ MailboxType.public)

-- What a successful read is made of.
read_parts :
    (lib : Library) (now : ℕ) (m : MailboxRow) (r : Text) (opts : RetrieveOpts) (db : Db)
    (msgs : List Message) (more : Bool)
    → (retrieve_from lib now m (some r) opts db).1 ≡ ok (msgs, more)
    → (fetch_page lib now m (start_of m m.mailbox_type (some r) opts.from db) opts db
        ≡ some (msgs, more))
      × ((retrieve_from lib now m (some r) opts db).0
          ≡ after_read m m.mailbox_type (some r) msgs db)
unfolding retrieve_from
read_parts lib now m r opts db msgs more e =
    elim (Option-cases
      (fetch_page lib now m (start_of m m.mailbox_type (some r) opts.from db) opts db)) [
        | inl gone ↦ absurd (ground arith)
        | inr ((kept, flag), made) ↦ (ground arith, ground arith)
      ]

-- The last sequence number of a page, when it is positive, becomes the reader's cursor.
after_read-cursor :
    (m : MailboxRow) (t : MailboxType) (r : Text) (msgs : List Message) (db : Db)
    → KeepsCursor t
    → 0 < last_sequence msgs
    → get_cursor m.id r (after_read m t (some r) msgs db) ≡ last_sequence msgs
unfolding after_read
after_read-cursor m t r msgs db (inl e) h =
    rw (e, after_read) (ground (arith, get_cursor-update_cursor m.id r (last_sequence msgs) db))
after_read-cursor m t r msgs db (inr e) h =
    rw (e, after_read) (ground (arith, get_cursor-update_cursor m.id r (last_sequence msgs) db))

start_of-cursor :
    (m : MailboxRow) (t : MailboxType) (r : Text) (db : Db)
    → KeepsCursor t
    → 0 < get_cursor m.id r db
    → start_of m t (some r) none db ≡ some (get_cursor m.id r db + 1)
unfolding start_of
start_of-cursor m t r db (inl e) h = rw (e, start_of) (ground arith)
start_of-cursor m t r db (inr e) h = rw (e, start_of) (ground arith)

module _ (lib : Library) (now later : ℕ) (m : MailboxRow) (r : Text) (opts opts' : RetrieveOpts)
    (db : Db) where
  -- Of a shared or public mailbox, the page that a reader gets next, naming no sequence number, has
  -- only messages with sequence numbers above that of the last message of its page before.
  pub next_page-past_last :
      (msgs next : List Message) (more more' : Bool)
      → KeepsCursor m.mailbox_type
      → opts'.from ≡ none
      → 0 < last_sequence msgs
      → (retrieve_from lib now m (some r) opts db).1 ≡ ok (msgs, more)
      → (retrieve_from lib later m (some r) opts' (retrieve_from lib now m (some r) opts db).0).1
        ≡ ok (next, more')
      → All (λ x. last_sequence msgs < x.sequence) next
  unfolding fetch_page page_limit
  next_page-past_last msgs next more more' t no_from h e e' =
      let first = read_parts lib now m r opts db msgs more e in
      let db' = after_read m m.mailbox_type (some r) msgs db in
      let second = read_parts lib later m r opts' db' next more' (rw first.1 at e') in
      let cursor = after_read-cursor m m.mailbox_type r msgs db t h in
      let start = start_of-cursor m m.mailbox_type r db' t (rw cursor h) in
      let s = last_sequence msgs + 1 in
      let fetched : fetch_page lib later m (some s) opts' db' ≡ some (next, more') =
        rw (no_from, start, cursor) at second.0 in
      let page = fetch_page_lem lib later m (some s) opts' db' next more' fetched in
      All-imp (λ x. s ≤ x.sequence) (λ x. last_sequence msgs < x.sequence) (λ x k. omega (arith, k))
        next
        (rw page.0 (
          All-take (λ x. s ≤ x.sequence) (length next) _
            (retrieve-from_bound later m.id s opts'.min_priority db')))

last-least :
    (front : List Message) (l : Message)
    → AllPairs Leads (front ++ l ∷ [])
    → All (λ x. l.priority ≤ x.priority) (front ++ l ∷ [])
last-least [] l h = (omega arith, tt)
last-least (x ∷ front) l h = (leads_priority (All-last front h.0), last-least front l h.1)
  where
    All-last : (ys : List Message) → All (Leads x) (ys ++ l ∷ []) → Leads x l
    All-last [] k = k.0
    All-last (y ∷ ys) k = All-last ys k.1

    leads_priority : Leads x l → l.priority ≤ x.priority
    leads_priority k = ground arith

last_sequence-snoc :
    (front : List Message) (l : Message) → last_sequence (front ++ l ∷ []) ≡ l.sequence
last_sequence-snoc [] l = refl
last_sequence-snoc (x ∷ []) l = refl
last_sequence-snoc (x ∷ y ∷ front) l = last_sequence-snoc (y ∷ front) l

-- Of a shared or public mailbox, a message that has a lower priority than the last message of a page
-- and a sequence number no greater is neither on that page nor on the one its reader gets next.
pub overtaken_message_lost :
    (lib : Library) (now later : ℕ) (m : MailboxRow) (r : Text) (opts opts' : RetrieveOpts)
    (db : Db) (lost l : Message) (front next : List Message) (more more' : Bool)
    → KeepsCursor m.mailbox_type
    → opts'.from ≡ none
    → lost.priority < l.priority
    → lost.sequence ≤ l.sequence
    → 0 < l.sequence
    → (retrieve_from lib now m (some r) opts db).1 ≡ ok (front ++ l ∷ [], more)
    → (retrieve_from lib later m (some r) opts' (retrieve_from lib now m (some r) opts db).0).1
      ≡ ok (next, more')
    → All (λ x. x ≢ lost) (front ++ l ∷ []) × All (λ x. x ≢ lost) next
overtaken_message_lost lib now later m r opts opts' db lost l front next more more' t no_from below
      before real e e' =
    let page = front ++ l ∷ [] in
    let is_last = last_sequence-snoc front l in
    let first = read_parts lib now m r opts db page more e in
    let start = start_of m m.mailbox_type (some r) opts.from db in
    let cut = fetch_page_lem lib now m start opts db page more first.0 in
    let all = retrieve_messages now m.id start none opts.min_priority db in
    let ordered : AllPairs Leads page = rw cut.0 (
      AllPairs-take Leads (length page) all
        (retrieve-ordered now m.id start none opts.min_priority db)) in
    let past =
      next_page-past_last lib now later m r opts opts' db page next more more' t no_from
        (rw is_last real) e e' in
    (
      All-imp (λ x. l.priority ≤ x.priority) (λ x. x ≢ lost)
          (λ x h same. omega (arith, h, ap (λ y. y.priority) same)) page
          (last-least front l ordered),
      All-imp (λ x. last_sequence page < x.sequence) (λ x. x ≢ lost)
          (λ x h same. omega (arith, h, is_last, ap (λ y. y.sequence) same)) next past,
    )
