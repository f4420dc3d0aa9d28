-- ===== src/Documents/History.antt =====
-- What the history keeps of a write.
use go_ricochet.Base.{
  ℕ, ◌≤◌, ◌<◌, ◌≡◌, refl, sym, ap, ◌∙◌, subst, Bool, true, false, not, Option, none, some, List, [],
  ◌∷◌, ◌++◌, arith, ◌==◌, eqb_refl, length, keep, find_first, any_of, Text,
}
use go_ricochet.Documents.{
  DocumentRow, VersionRow, Docs, DocLibrary, WriteOptions, Write, PutResult, get_document,
  history_setting, versions_kept, history_ceiling, is_version, archive_version, beyond_kept,
  prune_versions, keep_history, update_document, put_document, ok, restore_version, ceiling_only,
}
use go_ricochet.Documents.Listing.{document_at_version}
use go_ricochet.Documents.Invariant.{WellFormed, version_of}
use go_ricochet.Documents.Prune.{prune_bound, newest_stays, find-last, no_such}
use go_ricochet.Documents.Writes.{found-newest}
use go_ricochet.Documents.Conditional.{
  written, not_too_large, let_through, updated_row, unconditional,
}

-- A write with history on is an update of the row, and its versions are these.
archived_versions :
    (d : DocumentRow) (db : Docs)
    → any_of (is_version d.id d.version_number) db.versions ≡ false
    → (archive_version d db).versions ≡ db.versions ++ version_of db.next_version d ∷ []
unfolding archive_version
archived_versions d db h = rw h refl

history_versions :
    (opts : WriteOptions) (d : DocumentRow) (on : Bool) (most : ℕ) (db : Docs)
    → on ≡ true
    → any_of (is_version d.id d.version_number) db.versions ≡ false
    → (vs : List VersionRow) × (vs ≡ db.versions ++ version_of db.next_version d ∷ [])
      × ((keep_history opts d on most db).versions
          ≡ keep (λ v. not (any_of (λ x. x.id == v.id) (beyond_kept d.id most vs))) vs)
unfolding keep_history prune_versions
history_versions opts d true most db e h =
    ((archive_version d db).versions, archived_versions d db h, refl)
history_versions opts d false most db e h = absurd (ground arith)

-- The version that a write replaced is found among those that its history keeps, and no more than
-- the maximum are kept.
kept_version :
    (w : Write) (opts : WriteOptions) (d : DocumentRow) (on : Bool) (most : ℕ) (db : Docs)
    → WellFormed db
    → get_document w.owner w.path db ≡ some d
    → on ≡ true
    → 0 < most
    → (find_first (is_version d.id d.version_number) (keep_history opts d on most db).versions
        ≡ some (version_of db.next_version d))
      × (length (keep (λ v. v.document_id == d.id) (keep_history opts d on most db).versions)
          ≤ most)
unfolding get_document
kept_version w opts d on most db wf there is_on some_kept =
    let older = found-newest w.owner w.path d db.versions db.documents there wf.history.older in
    let absent = no_such d db.versions older in
    let (vs, added, kept) = history_versions opts d on most db is_on absent in
    let stays = newest_stays d db.next_version most db.versions older wf.history.fresh some_kept in
    let found =
      find-last
        (λ v. not (
          any_of (λ x. x.id == v.id)
            (beyond_kept d.id most (db.versions ++ version_of db.next_version d ∷ []))))
        (is_version d.id d.version_number) db.versions (version_of db.next_version d) absent
        (ground (arith, eqb_refl d.id, eqb_refl d.version_number)) (ap not stays) in
    (rw kept (rw added found), rw kept (prune_bound d.id most vs))

-- A write with history on to a document keeps the version that it replaces, with its content, hash
-- and type, under the number that the document had, and leaves no more versions of the document
-- than the maximum, which is not 0.
pub put_document-kept :
    (lib : DocLibrary) (now : ℕ) (w : Write) (m : Option Text) (opts : WriteOptions)
    (db after : Docs) (r : PutResult) (d : DocumentRow)
    → WellFormed db
    → get_document w.owner w.path db ≡ some d
    → put_document lib now w m opts db ≡ (after, ok r)
    → (history_setting opts (d.history_enabled, d.max_history)).0 ≡ true
    → 0
      < versions_kept
          (history_ceiling opts)
          (history_setting opts (d.history_enabled, d.max_history)).1
    → (document_at_version w.owner w.path d.version_number after
        ≡ ok (version_of db.next_version d))
      × (length (keep (λ v. v.document_id == d.id) after.versions)
          ≤ versions_kept
              (history_ceiling opts)
              (history_setting opts (d.history_enabled, d.max_history)).1)
unfolding document_at_version update_document
put_document-kept lib now w m opts db after r d wf there e on some_kept =
    let result =
      let_through lib now w opts m db after r d there
        (not_too_large lib now w m opts db after r e) in
    let same : (update_document lib now w opts d db).0 ≡ after = ap (λ p. p.0) result in
    let kept = kept_version w opts d _ _ db wf there on some_kept in
    let row = updated_row lib now w opts db d there in
    (
      ap (document_at_version w.owner w.path d.version_number) (sym same)
          ∙ rw (row, document_at_version) (rw kept.0 refl),
      subst
          (λ (s : Docs).
            length (keep (λ v. v.document_id == d.id) s.versions)
            ≤ versions_kept (history_ceiling opts)
                (history_setting opts (d.history_enabled, d.max_history)).1)
          same kept.1,
    )

-- To restore the number that a document had before a write with history on, without an If-Match,
-- brings back the content and the type that the document had, when the write was let through and the
-- maximum of kept versions is not 0.
pub restore_version-put_document :
    (lib : DocLibrary) (now later : ℕ) (w : Write) (m : Option Text) (opts change : WriteOptions)
    (by : Text) (db after : Docs) (r : PutResult) (d : DocumentRow)
    → WellFormed db
    → get_document w.owner w.path db ≡ some d
    → put_document lib now w m opts db ≡ (after, ok r)
    → (history_setting opts (d.history_enabled, d.max_history)).0 ≡ true
    → 0
      < versions_kept
          (history_ceiling opts)
          (history_setting opts (d.history_enabled, d.max_history)).1
    → (x : DocumentRow) × (get_document w.owner w.path
          (restore_version lib later w.owner w.path d.version_number by none change after).0
        ≡ some x)
      × (x.content ≡ d.content)
      × (x.content_type ≡ d.content_type)
unfolding restore_version update_document
restore_version-put_document lib now later w m opts change by db after r d wf there e on some_kept =
    let result =
      let_through lib now w opts m db after r d there
        (not_too_large lib now w m opts db after r e) in
    let same : (update_document lib now w opts d db).0 ≡ after = ap (λ p. p.0) result in
    let kept = kept_version w opts d _ _ db wf there on some_kept in
    let row = updated_row lib now w opts db d there in
    let back : Write = record {
      owner = w.owner;
      path = w.path;
      content = d.content;
      content_type = d.content_type;
      updated_by = by;
    } in
    let (last, s, through) =
      unconditional lib later back (ceiling_only change) (update_document lib now w opts d db).0 in
    let (x, found, content, type, digest, version) =
      written lib later back (ceiling_only change) none _ last s through in
    let restored : (restore_version lib later w.owner w.path d.version_number by none change
          (update_document lib now w opts d db).0)
        ≡ (last, ok s) =
      rw (row, restore_version) (rw kept.0 through) in
    (
      x,
      ap
            (λ z.
              get_document w.owner w.path
                (restore_version lib later w.owner w.path d.version_number by none change z).0)
            (sym same)
          ∙ ap (λ p. get_document w.owner w.path p.0) restored
          ∙ found,
      content,
      type,
    )
