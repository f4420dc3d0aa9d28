-- ===== src/Mailboxes/Trim.antt =====
-- The byte budget of a page.
use go_ricochet.Base.{
  ℕ, ◌+◌, ◌≤◌, ◌<◌, ◌≡◌, ◌⊎◌, inl, inr, Bool, Option, none, some, List, [], ◌∷◌, arith, ltb,
  Bool-cases, Option-cases, length, sum_by,
}
use go_ricochet.Wire.{Message}
use go_ricochet.Mailboxes.Page.{trim_rest, trim_to_bytes}

-- What a message takes in the frame: its length prefix and its encoding.
abbrev pub framed_size : (Message → Option ℕ) → Message → ℕ
framed_size size m = elim (size m) [ none ↦ 0 | some n ↦ 4 + n ]

trim_rest-budget :
    (size : Message → Option ℕ) (budget total : ℕ) (ms kept : List Message) (cut : Bool)
    → total ≤ budget
    → trim_rest size budget total ms ≡ some (kept, cut)
    → total + sum_by (framed_size size) kept ≤ budget
unfolding trim_rest
trim_rest-budget size budget total [] kept cut h e = ground arith
trim_rest-budget size budget total (m ∷ ms) kept cut h e = elim (Option-cases (size m)) [
  | inl gone ↦ absurd (ground arith)
  | inr (n, is_n) ↦ elim (Bool-cases (ltb budget (total + (4 + n)))) [
    | inl over ↦ let is_kept : kept ≡ [] = ground arith in rw is_kept (omega arith)
    | inr fits ↦ elim (Option-cases (trim_rest size budget (total + (4 + n)) ms)) [
      | inl gone ↦ absurd (ground arith)
      | inr ((rest, tail_cut), more) ↦
          let ih =
            trim_rest-budget size budget (total + (4 + n)) ms rest tail_cut (ground arith) more in
          let is_kept : kept ≡ m ∷ rest = ground arith in
          let weight : framed_size size m ≡ 4 + n = ground arith in
          rw is_kept (omega (arith, ih, weight))
    ]
  ]
]

-- A first message over the budget stands alone on its page.
trim_rest_over :
    (size : Message → Option ℕ) (budget total : ℕ) (ms kept : List Message) (cut : Bool)
    → budget < total
    → trim_rest size budget total ms ≡ some (kept, cut)
    → kept ≡ []
unfolding trim_rest
trim_rest_over size budget total [] kept cut h e = ground arith
trim_rest_over size budget total (m ∷ ms) kept cut h e = ground arith

-- A page trimmed to a byte budget takes at most the budget in the frame, each message with its
-- length prefix, or it holds a single message.
pub trim_to_bytes-budget :
    (size : Message → Option ℕ) (budget : ℕ) (ms kept : List Message) (cut : Bool)
    → trim_to_bytes size budget ms ≡ some (kept, cut)
    → (sum_by (framed_size size) kept ≤ budget) ⊎ (length kept ≡ 1)
unfolding trim_to_bytes
trim_to_bytes-budget size budget [] kept cut e =
    let is_kept : kept ≡ [] = ground arith in inl (rw is_kept (omega arith))
trim_to_bytes-budget size budget (m ∷ ms) kept cut e = elim (Option-cases (size m)) [
  | inl gone ↦ absurd (ground arith)
  | inr (n, is_n) ↦ elim (Option-cases (trim_rest size budget (4 + n) ms)) [
    | inl gone ↦ absurd (ground arith)
    | inr ((rest, tail_cut), more) ↦
        let is_kept : kept ≡ m ∷ rest = ground arith in
        let weight : framed_size size m ≡ 4 + n = ground arith in
        elim (Bool-cases (ltb budget (4 + n))) [
          | inl over ↦
              let alone = trim_rest_over size budget (4 + n) ms rest tail_cut (ground arith) more in
              inr (rw (is_kept, alone))
          | inr fits ↦
              let within =
                trim_rest-budget size budget (4 + n) ms rest tail_cut (ground arith) more in
              inl (rw is_kept (omega (arith, within, weight)))
        ]
  ]
]
