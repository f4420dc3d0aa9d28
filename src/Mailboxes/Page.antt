-- ===== src/Mailboxes/Page.antt =====
-- internal/mda/mailboxes/mailbox.go: cutting a page to its count and its bytes.
use go_ricochet.Base.{
  ℕ, ◌+◌, Bool, true, false, ◌||◌, Option, none, some, List, [], ◌∷◌, ltb, if◌then◌else◌, length,
  take, Text, ℤ, pos_part, is_positive,
}
use go_ricochet.Wire.{Message}
use go_ricochet.Store.Rows.{MailboxRow, Db}
use go_ricochet.Store.Messages.{retrieve_messages}

-- What the code calls in other modules: `peer.Decode`, which yields the canonical encoding, and the
-- length of `ToJSON` of a message, none where it fails.
pub record Library : Type 0 where
  pub peer_decode : Text → Option Text
  pub json_size : Message → Option ℕ

pub record RetrieveOpts : Type 0 where
  pub from : Option ℕ
  pub max_messages : Option ℤ
  pub min_priority : Option ℕ
  pub max_bytes : ℕ

abbrev pub default_page_size : ℕ
default_page_size = 100

abbrev pub max_page_size : ℕ
max_page_size = 1000

abbrev wanted : Option ℤ → ℕ
wanted none = default_page_size
wanted (some n) = if is_positive n then pos_part n else default_page_size

-- The limit of `fetchPage`.
unfoldable pub page_limit : RetrieveOpts → ℕ
page_limit opts =
    if ltb max_page_size (wanted opts.max_messages) then max_page_size else wanted opts.max_messages

-- The loop of `trimToBytes` behind its first message, with `total` bytes counted so far.
unfoldable pub trim_rest :
    (Message → Option ℕ) → ℕ → ℕ → List Message → Option (List Message × Bool)
trim_rest size budget total [] = some ([], false)
trim_rest size budget total (m ∷ ms) = elim (size m) [
  | none ↦ none
  | some n ↦ elim (ltb budget (total + (4 + n))) [
    | true ↦ some ([], true)
    | false ↦ elim (trim_rest size budget (total + (4 + n)) ms) [
      | none ↦ none
      | some (kept, cut) ↦ some (m ∷ kept, cut)
    ]
  ]
]

-- `trimToBytes`: the first message is kept whatever its size.
unfoldable pub trim_to_bytes :
    (Message → Option ℕ) → ℕ → List Message → Option (List Message × Bool)
trim_to_bytes size budget [] = some ([], false)
trim_to_bytes size budget (m ∷ ms) = elim (size m) [
  | none ↦ none
  | some n ↦ elim (trim_rest size budget (4 + n) ms) [
    | none ↦ none
    | some (kept, cut) ↦ some (m ∷ kept, cut)
  ]
]

-- Past the probe: at most `limit` messages, and whether there was one more.
unfoldable pub cut_to_limit : ℕ → List Message → List Message × Bool
cut_to_limit limit found =
    if ltb limit (length found) then (take limit found, true) else (found, false)

unfoldable pub cut_to_budget :
    (Message → Option ℕ) → ℕ → List Message × Bool → Option (List Message × Bool)
cut_to_budget size budget (msgs, more) =
    if ltb 0 budget
    then elim (trim_to_bytes size budget msgs) [
      | none ↦ none
      | some (kept, cut) ↦ some (kept, more || cut)
    ]
    else some (msgs, more)

-- `fetchPage` from a sequence number; none where a message cannot be encoded.
unfoldable pub fetch_page :
    Library → ℕ → MailboxRow → Option ℕ → RetrieveOpts → Db → Option (List Message × Bool)
fetch_page lib now m from opts db = cut_to_budget lib.json_size opts.max_bytes (
    cut_to_limit (page_limit opts)
      (retrieve_messages now m.id from (some (page_limit opts + 1)) opts.min_priority db))
