-- ===== src/Mailboxes/Paging.antt =====
-- Every page is a prefix of what is left to read, and the flag tells whether it is all of it.
use go_ricochet.Base.{
  ℕ, zero, suc, ◌+◌, ◌≤◌, ◌<◌, min, ◌≡◌, refl, ap, ◌∙◌, ◌≢◌, ◌⊎◌, inl, inr, Bool, ◌||◌, Option,
  none, some, List, [], ◌∷◌, map, arith, ltb, Bool-cases, Option-cases, length, take, length-take,
  take_all, ℤ, pos, negsuc,
}
use go_ricochet.Wire.{Message}
use go_ricochet.Store.Rows.{MailboxRow, Db}
use go_ricochet.Store.Messages.{scan_message, retrieve_messages}
use go_ricochet.Mailboxes.Page.{
  Library, RetrieveOpts, page_limit, trim_rest, trim_to_bytes, cut_to_limit, cut_to_budget,
  fetch_page,
}

map-take {ℓ κ} :
    {A : Type ℓ} {B : Type κ} (f : A → B) (n : ℕ) (xs : List A)
    → map f (take n xs) ≡ take n (map f xs)
map-take f zero xs = refl
map-take f (suc n) [] = refl
map-take f (suc n) (x ∷ xs) = ap (λ r. f x ∷ r) (map-take f n xs)

retrieve-limited :
    (now mid n : ℕ) (from min_priority : Option ℕ) (db : Db)
    → retrieve_messages now mid from (some n) min_priority db
      ≡ take n (retrieve_messages now mid from none min_priority db)
unfolding retrieve_messages
retrieve-limited now mid n from min_priority db = map-take scan_message n _

-- `kept` is the first part of `all`, and `more` tells whether it is less than all.
abbrev pub IsPageOf : List Message → List Message × Bool → Type 0
IsPageOf all (kept, more) =
    (kept ≡ take (length kept) all) × (more ≡ ltb (length kept) (length all))

take_self : (xs : List Message) → xs ≡ take (length xs) xs
take_self [] = refl
take_self (x ∷ xs) = ap (λ r. x ∷ r) (take_self xs)

take-take : {A : Type 0} (m n : ℕ) (xs : List A) → m ≤ n → take m (take n xs) ≡ take m xs
take-take zero n xs h = refl
take-take (suc m) zero xs h = absurd (omega arith)
take-take (suc m) (suc n) [] h = refl
take-take (suc m) (suc n) (x ∷ xs) h = ap (λ r. x ∷ r) (take-take m n xs (omega arith))

-- Asking for one message past the limit tells whether there is one.
cut_to_limit-IsPageOf :
    (limit : ℕ) (all : List Message) → IsPageOf all (cut_to_limit limit (take (limit + 1) all))
unfolding cut_to_limit
cut_to_limit-IsPageOf limit all = elim (Bool-cases (ltb limit (length (take (limit + 1) all)))) [
  | inl over ↦
      let n = length-take (limit + 1) all in
      let k = length-take limit (take (limit + 1) all) in
      let long : length (take limit (take (limit + 1) all)) ≡ limit = ground arith in
      rw over (rw long (take-take limit (limit + 1) all (omega arith), ground (arith, n)))
  | inr fits ↦
      let n = length-take (limit + 1) all in
      let whole = take_all (limit + 1) all (ground (arith, n)) in
      rw fits (rw whole (take_self all, ground arith))
]

cut_to_limit-size :
    (limit : ℕ) (found : List Message) (n : ℕ)
    → length found ≡ min (limit + 1) n
    → (length (cut_to_limit limit found).0 ≤ limit)
      × (length (cut_to_limit limit found).0 ≡ min limit n)
unfolding cut_to_limit
cut_to_limit-size limit found n e = ground (arith, length-take limit found)

-- What a trim keeps is a first part; it drops something exactly where it says so.
trim_rest-IsPageOf :
    (size : Message → Option ℕ) (budget total : ℕ) (ms kept : List Message) (cut : Bool)
    → trim_rest size budget total ms ≡ some (kept, cut)
    → IsPageOf ms (kept, cut)
unfolding trim_rest
trim_rest-IsPageOf size budget total [] kept cut e = ground arith
trim_rest-IsPageOf size budget total (m ∷ ms) kept cut e = elim (Option-cases (size m)) [
  | inl gone ↦ absurd (ground arith)
  | inr (n, is_n) ↦ elim (Bool-cases (ltb budget (total + (4 + n)))) [
    | inl over ↦ ground arith
    | inr fits ↦ elim (Option-cases (trim_rest size budget (total + (4 + n)) ms)) [
      | inl gone ↦ absurd (ground arith)
      | inr ((rest, tail_cut), more) ↦
          let ih = trim_rest-IsPageOf size budget (total + (4 + n)) ms rest tail_cut more in
          let is_kept : kept ≡ m ∷ rest = ground arith in
          let is_cut : cut ≡ tail_cut = ground arith in
          rw (is_kept, is_cut) (ap (λ r. m ∷ r) ih.0, ground (arith, ih))
    ]
  ]
]

pub trim_to_bytes-IsPageOf :
    (size : Message → Option ℕ) (budget : ℕ) (ms kept : List Message) (cut : Bool)
    → trim_to_bytes size budget ms ≡ some (kept, cut)
    → IsPageOf ms (kept, cut) × (length ms ≢ 0 → length kept ≢ 0)
unfolding trim_to_bytes
trim_to_bytes-IsPageOf size budget [] kept cut e = (ground arith, λ h. absurd (h refl))
trim_to_bytes-IsPageOf size budget (m ∷ ms) kept cut e = elim (Option-cases (size m)) [
  | inl gone ↦ absurd (ground arith)
  | inr (n, is_n) ↦ elim (Option-cases (trim_rest size budget (4 + n) ms)) [
    | inl gone ↦ absurd (ground arith)
    | inr ((rest, tail_cut), more) ↦
        let ih = trim_rest-IsPageOf size budget (4 + n) ms rest tail_cut more in
        let is_kept : kept ≡ m ∷ rest = ground arith in
        let is_cut : cut ≡ tail_cut = ground arith in
        rw (is_kept, is_cut) ((ap (λ r. m ∷ r) ih.0, ground (arith, ih)), λ h. omega arith)
  ]
]

page-page :
    (all kept less : List Message) (more cut : Bool)
    → IsPageOf all (kept, more)
    → IsPageOf kept (less, cut)
    → IsPageOf all (less, more || cut)
page-page all kept less more cut p q =
    let a = ap length p.0 ∙ length-take (length kept) all in
    let b = ap length q.0 ∙ length-take (length less) kept in
    let first : less ≡ take (length less) all =
      q.0
      ∙ (ap (take (length less)) p.0
          ∙ take-take (length less) (length kept) all (omega (arith, b))) in
    (first, ground (arith, a, b))

cut_to_budget-IsPageOf :
    (size : Message → Option ℕ) (budget : ℕ) (all msgs kept : List Message) (more flag : Bool)
    → IsPageOf all (msgs, more)
    → cut_to_budget size budget (msgs, more) ≡ some (kept, flag)
    → IsPageOf all (kept, flag)
      × (length kept ≤ length msgs)
      × ((0 < budget) ⊎ (length kept ≡ length msgs))
      × (length msgs ≢ 0 → length kept ≢ 0)
unfolding cut_to_budget
cut_to_budget-IsPageOf size budget all msgs kept more flag p e = elim (Bool-cases (ltb 0 budget)) [
  | inr free ↦
      let is_kept : kept ≡ msgs = ground arith in
      let is_flag : flag ≡ more = ground arith in
      rw (is_kept, is_flag) (p, omega arith, inr refl, λ h. h)
  | inl bounded ↦ elim (Option-cases (trim_to_bytes size budget msgs)) [
    | inl gone ↦ absurd (ground arith)
    | inr ((less, cut), made) ↦
        let q = trim_to_bytes-IsPageOf size budget msgs less cut made in
        let is_kept : kept ≡ less = ground arith in
        let is_flag : flag ≡ (more || cut) = ground arith in
        let b = ap length q.0.0 ∙ length-take (length less) msgs in
        rw (is_kept, is_flag)
          (page-page all msgs less more cut p q.0, omega (arith, b), inl (ground arith), q.1)
  ]
]

-- How many messages a client may be given: what it asked for where that is positive and 100 where
-- not, and never more than 1000.
abbrev pub allowed : Option ℤ → ℕ
allowed none = 100
allowed (some (negsuc n)) = 100
allowed (some (pos zero)) = 100
allowed (some (pos (suc n))) = min (suc n) 1000

page_limit-allowed :
    (asked : Option ℤ) (opts : RetrieveOpts)
    → opts.max_messages ≡ asked
    → (page_limit opts ≡ allowed asked) × (0 < allowed asked)
unfolding page_limit
page_limit-allowed none opts e = rw e (ground arith, ground arith)
page_limit-allowed (some (negsuc n)) opts e = rw e (ground arith, ground arith)
page_limit-allowed (some (pos zero)) opts e = rw e (ground arith, ground arith)
page_limit-allowed (some (pos (suc n))) opts e = rw e (ground arith, ground arith)

-- A page that is fetched is a first part of all the messages that match, which are in the order of
-- retrieval; it holds at most the number that was asked for, or 100 where none that is positive was,
-- and at most 1000 messages; where there is no limit of bytes it is that long, or holds all that
-- match; it says that more remain exactly where it is shorter than all that match; and it is empty
-- only where nothing does.
pub fetch_page_lem :
    (lib : Library) (now : ℕ) (m : MailboxRow) (from : Option ℕ) (opts : RetrieveOpts) (db : Db)
    (kept : List Message) (more : Bool)
    → fetch_page lib now m from opts db ≡ some (kept, more)
    → let all = retrieve_messages now m.id from none opts.min_priority db in
      (kept ≡ take (length kept) all)
      × (more ≡ ltb (length kept) (length all))
      × (length kept ≤ allowed opts.max_messages)
      × ((0 < opts.max_bytes) ⊎ (length kept ≡ min (allowed opts.max_messages) (length all)))
      × (length all ≢ 0 → length kept ≢ 0)
unfolding fetch_page
fetch_page_lem lib now m from opts db kept more e =
    let all = retrieve_messages now m.id from none opts.min_priority db in
    let limit = page_limit opts in
    let probed = retrieve-limited now m.id (limit + 1) from opts.min_priority db in
    let first = cut_to_limit (limit) (take (limit + 1) all) in
    let whole = cut_to_limit-IsPageOf limit all in
    let size =
      cut_to_limit-size limit (take (limit + 1) all) (length all) (length-take (limit + 1) all) in
    let bound = page_limit-allowed opts.max_messages opts refl in
    let cut =
      cut_to_budget-IsPageOf lib.json_size opts.max_bytes all first.0 kept first.1 more whole
        (rw probed at e) in
    (
      cut.0.0,
      cut.0.1,
      omega (arith, size, cut.1, bound.0),
      ground (arith, size, cut.2, bound.0),
      λ some_left. cut.3 (λ none_kept. some_left (omega (arith, size, bound.0, bound.1))),
    )
