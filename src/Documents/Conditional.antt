-- ===== src/Documents/Conditional.antt =====
-- Conditional writes.
use go_ricochet.Base.{
  ℕ, ◌+◌, ◌≤◌, ◌≡◌, refl, sym, ap, ◌∙◌, inl, inr, Bool, true, false, not, Option, none, some, List,
  [], ◌∷◌, ◌++◌, map, arith, ltb, if◌then◌else◌, Bool-cases, Option-cases, length, find_first,
  any_of, Text, ◌=ᵗ◌, text_eq_refl, ℤ,
}
use go_ricochet.Documents.{
  DocumentRow, Docs, DocLibrary, WriteOptions, Write, Outcome, PutResult, at_path, get_document,
  history_setting, versions_kept, history_ceiling, is_version, archive_version, prune_versions,
  keep_history, insert_document, update_document, rewritten, new_document, drop_history,
  put_document_locked, put_document, is_conflict, ok, error, DocError, conflict, put_result,
  max_document_size,
}

-- What stands at a path after a write that was let through.
after_insert :
    (w : Write) (ds : List DocumentRow) (d : DocumentRow)
    → find_first (at_path w.owner w.path) ds ≡ none
    → at_path w.owner w.path d ≡ true
    → find_first (at_path w.owner w.path) (ds ++ d ∷ []) ≡ some d
after_insert w [] d e h = rw h refl
after_insert w (x ∷ xs) d e h = elim (Bool-cases (at_path w.owner w.path x)) [
  | inl hit ↦ let found : some x ≡ none = rw hit at e in absurd (ground arith)
  | inr miss ↦ rw miss (after_insert w xs d (rw miss at e) h)
]

after_update :
    (lib : DocLibrary) (now : ℕ) (w : Write) (opts : WriteOptions) (ds : List DocumentRow)
    (d : DocumentRow)
    → find_first (at_path w.owner w.path) ds ≡ some d
    → find_first
        (at_path w.owner w.path)
        (map (λ x. if at_path w.owner w.path x then rewritten lib now w opts x else x) ds)
      ≡ some (rewritten lib now w opts d)
after_update lib now w opts [] d e = absurd (ground arith)
after_update lib now w opts (x ∷ xs) d e = elim (Bool-cases (at_path w.owner w.path x)) [
  | inl hit ↦
      let found : some x ≡ some d = rw hit at e in
      let is_d : x ≡ d = cc in rw (hit, hit) (ap (λ z. some (rewritten lib now w opts z)) is_d)
  | inr miss ↦ rw (miss, miss) (after_update lib now w opts xs d (rw miss at e))
]

-- The history of a write leaves the rows alone.
pub archived_rows : (d : DocumentRow) (db : Docs) → (archive_version d db).documents ≡ db.documents
unfolding archive_version
archived_rows d db = elim (Bool-cases (any_of (is_version d.id d.version_number) db.versions)) [
  | inl e ↦ rw e refl
  | inr e ↦ rw e refl
]

dropped_rows : (o : Option ℤ) (i : ℕ) (db : Docs) → (drop_history o i db).documents ≡ db.documents
unfolding prune_versions
dropped_rows none i db = refl
dropped_rows (some n) i db = refl

pub kept_rows :
    (opts : WriteOptions) (d : DocumentRow) (on : Bool) (most : ℕ) (db : Docs)
    → (keep_history opts d on most db).documents ≡ db.documents
unfolding keep_history prune_versions
kept_rows opts d true most db = archived_rows d db
kept_rows opts d false most db = dropped_rows opts.history d.id db

abbrev pub result_version : Outcome PutResult → ℕ
result_version (ok x) = x.version_number
result_version (error x) = 0

pub error-ok : {x : DocError} {r : PutResult} → error x ≡ ok r → ⊥
error-ok h = cc

-- A write to a document that was let through is an update of it.
pub let_through :
    (lib : DocLibrary) (now : ℕ) (w : Write) (opts : WriteOptions) (m : Option Text)
    (db after : Docs) (r : PutResult) (d : DocumentRow)
    → get_document w.owner w.path db ≡ some d
    → put_document_locked lib now w m opts db ≡ (after, ok r)
    → update_document lib now w opts d db ≡ (after, ok r)
unfolding put_document_locked
let_through lib now w opts m db after r d there e = elim (Bool-cases (is_conflict m d)) [
  | inl c ↦ absurd (error-ok (ap (λ p. p.1) (rw (there, c, put_document_locked) at e)))
  | inr c ↦ rw (there, c, put_document_locked) at e
]

-- What an update leaves at the path.
pub updated_row :
    (lib : DocLibrary) (now : ℕ) (w : Write) (opts : WriteOptions) (db : Docs) (d : DocumentRow)
    → get_document w.owner w.path db ≡ some d
    → get_document w.owner w.path (update_document lib now w opts d db).0
      ≡ some (rewritten lib now w opts d)
unfolding get_document update_document
updated_row lib now w opts db d there =
    rw
      (kept_rows opts d (history_setting opts (d.history_enabled, d.max_history)).0
        (versions_kept (history_ceiling opts)
          (history_setting opts (d.history_enabled, d.max_history)).1)
        db)
      (after_update lib now w opts db.documents d there)

-- After a write that was let through the document at its path has the written content.
pub written :
    (lib : DocLibrary) (now : ℕ) (w : Write) (opts : WriteOptions) (m : Option Text)
    (db after : Docs) (r : PutResult)
    → put_document_locked lib now w m opts db ≡ (after, ok r)
    → (d : DocumentRow) × (get_document w.owner w.path after ≡ some d)
      × (d.content ≡ w.content)
      × (d.content_type ≡ w.content_type)
      × (d.content_hash ≡ lib.content_hash w.content)
      × (d.version_number ≡ r.version_number)
unfolding get_document put_document_locked insert_document update_document
written lib now w opts m db after r e = elim (Option-cases (get_document w.owner w.path db)) [
  | inl none_there ↦
      let result = rw (none_there, put_document_locked) at e in
      let d = new_document lib now w opts db.next_document in
      let rows : db.documents ++ d ∷ [] ≡ after.documents = ap (λ p. p.0.documents) result in
      (
        d,
        rw⁻¹ rows (
            after_insert w db.documents d none_there
              (ground (arith, text_eq_refl w.owner, text_eq_refl w.path))),
        refl,
        refl,
        refl,
        ap result_version (ap (λ p. p.1) result),
      )
  | inr (d, there) ↦
      let result = let_through lib now w opts m db after r d there e in
      (
        rewritten lib now w opts d,
        ap (λ p. get_document w.owner w.path p.0) (sym result)
            ∙ updated_row lib now w opts db d there,
        refl,
        refl,
        refl,
        ap result_version (ap (λ p. p.1) result),
      )
]

-- A write that is let through was not too large.
pub not_too_large :
    (lib : DocLibrary) (now : ℕ) (w : Write) (m : Option Text) (opts : WriteOptions)
    (db after : Docs) (r : PutResult)
    → put_document lib now w m opts db ≡ (after, ok r)
    → put_document_locked lib now w m opts db ≡ (after, ok r)
unfolding put_document
not_too_large lib now w m opts db after r e =
    elim (Bool-cases (ltb max_document_size (length w.content))) [
      | inl big ↦ absurd (error-ok (ap (λ p. p.1) (rw (big, put_document) at e)))
      | inr small ↦ rw (small, put_document) at e
    ]

-- Of two writes to one path that carry the same If-Match, the second is refused with a conflict
-- that names the hash of the first, and changes nothing, when the first was let through and its
-- content has another hash than the If-Match, and the second is not too large.
pub put_document-conflict :
    (lib : DocLibrary) (now later : ℕ) (v w : Write) (hash : Text) (first second : WriteOptions)
    (db after : Docs) (r : PutResult)
    → v.owner ≡ w.owner
    → v.path ≡ w.path
    → put_document lib now v (some hash) first db ≡ (after, ok r)
    → (lib.content_hash v.content =ᵗ hash) ≡ false
    → length w.content ≤ max_document_size
    → put_document lib later w (some hash) second after
      ≡ (after, error (conflict hash (lib.content_hash v.content)))
unfolding put_document put_document_locked
put_document-conflict lib now later v w hash first second db after r owner path e other small =
    let (d, there, content, type, digest, version) =
      written lib now v first (some hash) db after r
        (not_too_large lib now v (some hash) first db after r e) in
    let fits : ltb max_document_size (length w.content) ≡ false = ground (arith, small) in
    let there' : get_document w.owner w.path after ≡ some d = rw (owner, path) at there in
    let differs : is_conflict (some hash) d ≡ true = rw digest (ap not other) in
    rw (fits, there', differs, put_document_locked)
      (ap (λ z. (after, error (conflict hash z))) digest)

-- A write without an If-Match is let through.
pub unconditional :
    (lib : DocLibrary) (now : ℕ) (w : Write) (opts : WriteOptions) (db : Docs)
    → (after : Docs) × (r : PutResult) × (put_document_locked lib now w none opts db
        ≡ (after, ok r))
unfolding put_document_locked insert_document update_document
unconditional lib now w opts db = elim (Option-cases (get_document w.owner w.path db)) [
  | inl e ↦ (
    (insert_document lib now w opts db).0,
    put_result lib now w true 1,
    rw (e, put_document_locked) refl,
  )
  | inr (d, e) ↦ (
    (update_document lib now w opts d db).0,
    put_result lib now w false (d.version_number + 1),
    rw (e, put_document_locked) refl,
  )
]
