-- ===== src/Status.antt =====
-- What a client is told of an error, internal/protocol/wire/status.go.
pub mod Redacted
mod Tests
use go_ricochet.Base.{
  ℕ, zero, suc, ◌+◌, ◌-◌, ◌*◌, ◌/◌, ◌%◌, ◌^◌, ◌≤◌, ◌<◌, min, max, ◌≡◌, refl, sym, ap, ◌∙◌, subst,
  ◌≢◌, ◌↔◌, ◌⊎◌, inl, inr, Bool, true, false, not, ◌&&◌, ◌||◌, Option, none, some, List, [], ◌∷◌,
  ◌++◌, map, append-nil, append_assoc, arith, ltb, leb, ◌==◌, if◌then◌else◌, ltb→lt, lt→ltb, leb→le,
  ==_iff, eqb_refl, Bool-cases, ◌>>=◌, Option-cases, length, take, drop, keep, find_first, any_of,
  sum_by, All, length-append, sum_by-append, length-take, length-drop, take-append-drop,
  take-length_append, drop-length_append, take_all, sum_by-keep-not, All-keep, All-append, All-find,
  All-imp, All-map, AllPairs, AllPairs-keep, AllPairs-snoc, AllPairs-map, All-take, AllPairs-take,
  Text, codes, ◌=ᵗ◌, text_eq_refl, text_eq→eq, mem_text, ℤ, pos, negsuc, pos_part, neg_part, ◌≤ℤ◌,
  ltb_ℤ, is_positive, is_zero,
}

-- The conditions of the table, in its order, and any other error with its text. A hint is in
-- nanoseconds.
pub data Cause : Type 0 where
  rate_limited_error : ℤ → Cause
  rate_limited : Cause
  mta_rate_limit : Cause
  overloaded_error : ℤ → Cause
  overloaded : Cause
  draining : Cause
  mailbox_full : Cause
  quota_exceeded : Cause
  storage_full : Cause
  invalid_path : Cause
  field_error : Cause
  validation_error : Cause
  document_too_large : Cause
  invalid_cursor : Cause
  invalid_filter : Cause
  invalid_content : Cause
  query_too_long : Cause
  json_syntax : Cause
  json_type : Cause
  unauthorized : Cause
  forwarding_refused : Cause
  no_such_mailbox : Cause
  no_such_row : Cause
  document_conflict : Cause
  item_conflict : Cause
  unknown_operation : Cause
  missing_operation : Cause
  not_sampled : Cause
  unrecognised : Text → Cause

-- The place of a condition in the table; none for an error that is not there.
abbrev pub place : Cause → Option ℕ
place (rate_limited_error d) = some 0
place rate_limited = some 1
place mta_rate_limit = some 2
place (overloaded_error d) = some 3
place overloaded = some 4
place draining = some 5
place mailbox_full = some 6
place quota_exceeded = some 7
place storage_full = some 8
place invalid_path = some 9
place field_error = some 10
place validation_error = some 11
place document_too_large = some 12
place invalid_cursor = some 13
place invalid_filter = some 14
place invalid_content = some 14
place query_too_long = some 15
place json_syntax = some 16
place json_type = some 17
place unauthorized = some 18
place forwarding_refused = some 19
place no_such_mailbox = some 20
place no_such_row = some 21
place document_conflict = some 22
place item_conflict = some 23
place unknown_operation = some 24
place missing_operation = some 25
place not_sampled = some 26
place (unrecognised t) = none

-- The status and the hint of a condition.
abbrev pub verdict : Cause → ℕ × ℤ
verdict (rate_limited_error d) = (429, d)
verdict rate_limited = (429, pos 0)
verdict mta_rate_limit = (429, pos 0)
verdict (overloaded_error d) = (503, d)
verdict overloaded = (503, pos 0)
verdict draining = (503, pos 0)
verdict mailbox_full = (507, pos 0)
verdict quota_exceeded = (507, pos 0)
verdict storage_full = (507, pos 0)
verdict invalid_path = (400, pos 0)
verdict field_error = (400, pos 0)
verdict validation_error = (400, pos 0)
verdict document_too_large = (400, pos 0)
verdict invalid_cursor = (400, pos 0)
verdict invalid_filter = (400, pos 0)
verdict invalid_content = (400, pos 0)
verdict query_too_long = (400, pos 0)
verdict json_syntax = (400, pos 0)
verdict json_type = (400, pos 0)
verdict unauthorized = (403, pos 0)
verdict forwarding_refused = (403, pos 0)
verdict no_such_mailbox = (404, pos 0)
verdict no_such_row = (404, pos 0)
verdict document_conflict = (409, pos 0)
verdict item_conflict = (409, pos 0)
verdict unknown_operation = (400, pos 0)
verdict missing_operation = (400, pos 0)
verdict not_sampled = (503, pos 0)
verdict (unrecognised t) = (500, pos 0)

-- An error is the chain that errors.Is and errors.As walk; the table is tried from the top, each
-- condition on the whole chain, so the first in the table wins, and of equals the first in the chain.
abbrev pub before : Option ℕ → Option ℕ → Bool
before none b = false
before (some m) none = true
before (some m) (some n) = not (ltb n m)

abbrev pub if_named : Option ℕ → Cause → Option Cause
if_named none c = none
if_named (some n) c = some c

abbrev pub better : Cause → Option Cause → Option Cause
better c none = if_named (place c) c
better c (some d) = if before (place c) (place d) then some c else some d

unfoldable pub recognised : List Cause → Option Cause
recognised [] = none
recognised (c ∷ cs) = better c (recognised cs)

-- `Classify`; no error at all is a 200.
unfoldable pub classify : Option (List Cause) → ℕ × ℤ
classify none = (200, pos 0)
classify (some chain) = elim (recognised chain) [ none ↦ (500, pos 0) | some c ↦ verdict c ]

-- The fixed phrase of a status.
abbrev pub phrase : ℕ → Text
phrase status =
    if status == 200
    then []
    else if status == 400
    then codes "bad request"
    else if status == 403
    then codes "forbidden"
    else if status == 404
    then codes "not found"
    else if status == 409
    then codes "conflict"
    else if status == 429
    then codes "rate limited"
    else if status == 503
    then codes "server overloaded"
    else if status == 507
    then codes "insufficient storage"
    else codes "internal error"

-- The wording of the conditions; of a whole error, which a refused filter or content shows; and of a
-- refused path, which shows the error that it wraps.
pub record Wording : Type 0 where
  pub of_cause : Cause → Text
  pub of_chain : List Cause → Text
  pub of_path : List Cause → Text

abbrev pub is_filter : Cause → Bool
is_filter invalid_filter = true
is_filter invalid_content = true
is_filter _ = false

abbrev pub is_path : Cause → Bool
is_path invalid_path = true
is_path _ = false

-- Whether the message has the text of other errors of the chain in it.
abbrev pub shows_chain : Option Cause → Bool
shows_chain none = false
shows_chain (some c) = is_filter c || is_path c

-- `InvalidPathError.Reason` of the first refused path.
abbrev pub reason : List Cause → List Cause
reason [] = []
reason (c ∷ cs) = if is_path c then cs else reason cs

abbrev pub wording : Wording → List Cause → Cause → Text
wording w chain c =
    if is_filter c
    then w.of_chain chain
    else if is_path c
    then w.of_path (reason chain)
    else w.of_cause c

abbrev pub or_phrase : Text → ℕ → Text
or_phrase [] status = phrase status
or_phrase (c ∷ cs) status = c ∷ cs

-- `ClientMessage`
unfoldable pub client_message : Wording → Option (List Cause) → Text
client_message w none = []
client_message w (some chain) = elim (recognised chain) [
  | none ↦ phrase 500
  | some c ↦ or_phrase (wording w chain c) (verdict c).0
]

-- `RetryAfterMs`
unfoldable pub retry_after_ms : ℤ → ℕ
retry_after_ms (negsuc n) = 0
retry_after_ms (pos n) = if n == 0 then 0 else if ltb (n / 1000000) 1 then 1 else n / 1000000
