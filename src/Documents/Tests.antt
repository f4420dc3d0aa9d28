-- ===== src/Documents/Tests.antt =====
-- A document of Ann's written twice, and the theorems at it.
use go_ricochet.Base.{
  ◌≤◌, ◌≡◌, refl, ap, subst, true, false, none, some, [], ◌∷◌, arith, ltb, length, Text, codes,
  ◌=ᵗ◌, pos,
}
use go_ricochet.Store.Sort.{sort_by, insert_by}
use go_ricochet.Readers.{private}
use go_ricochet.Documents.{
  DocumentRow, Docs, DocLibrary, WriteOptions, Write, no_docs, get_document, put_document,
  put_document_locked, put_result, insert_document, update_document, history_setting,
  history_ceiling, keep_history, archive_version, prune_versions, beyond_kept, versions_kept,
  restore_version, ok, error, conflict,
}
use go_ricochet.Documents.Listing.{document_at_version}
use go_ricochet.Documents.Patch.{
  null, object, atom, Members, end, member, apply_merge_patch, lookup, put, remove,
}
use go_ricochet.Documents.Merge.{apply_merge_patch-rfc, rfc_members, AddsPlain, IsPlain}
use go_ricochet.Documents.Invariant.{WellFormed, version_of}
use go_ricochet.Documents.Run.{put_op, restore_op, delete_op, doc_run, doc_step, doc_run-WellFormed}
use go_ricochet.Documents.Conditional.{put_document-conflict}
use go_ricochet.Documents.History.{put_document-kept, restore_version-put_document}

-- A hash that is the text itself, and JSON that is always empty.
abbrev toy : DocLibrary
toy = record {
  content_hash = λ c. 104 ∷ c;
  decode_object = λ c. some end;
  encode_object = λ ms. some (codes "{}");
  text_before = λ a b. ltb (length a) (length b);
}

abbrev note : Text → Write
note content = record {
  owner = codes "ann";
  path = codes "/a";
  content = content;
  content_type = codes "text/plain";
  updated_by = codes "ann";
}

abbrev two_versions : WriteOptions
two_versions = record { visibility = none; history = some (pos 2); max_history = pos 5 }

abbrev plain : WriteOptions
plain = record { visibility = none; history = none; max_history = pos 5 }

abbrev first_row : DocumentRow
first_row = record {
  id = 1;
  owner = codes "ann";
  path = codes "/a";
  content = codes "one";
  content_type = codes "text/plain";
  content_hash = 104 ∷ codes "one";
  created_at = 10;
  updated_at = 10;
  updated_by = codes "ann";
  version_number = 1;
  history_enabled = true;
  max_history = some 2;
  visibility = private;
}

abbrev one_note : Docs
one_note = record {
  documents = first_row ∷ [];
  versions = [];
  readers = [];
  next_document = 2;
  next_version = 1;
}

abbrev second_row : DocumentRow
second_row = record first_row {
  content = codes "two";
  content_hash = 104 ∷ codes "two";
  updated_at = 20;
  version_number = 2;
}

abbrev two_notes : Docs
two_notes = record {
  documents = second_row ∷ [];
  versions = version_of 1 first_row ∷ [];
  readers = [];
  next_document = 2;
  next_version = 2;
}

first_write :
    put_document toy 10 (note (codes "one")) none two_versions no_docs
    ≡ (one_note, ok (put_result toy 10 (note (codes "one")) true 1))
unfolding put_document put_document_locked insert_document get_document history_setting
    history_ceiling
first_write = refl

second_write :
    put_document toy 20 (note (codes "two")) (some (104 ∷ codes "one")) plain one_note
    ≡ (two_notes, ok (put_result toy 20 (note (codes "two")) false 2))
unfolding put_document put_document_locked update_document get_document history_setting
    history_ceiling keep_history archive_version prune_versions beyond_kept versions_kept ◌=ᵗ◌
    sort_by insert_by
second_write = refl

one_note-WellFormed : WellFormed one_note
unfolding doc_run doc_step
one_note-WellFormed =
    subst WellFormed (ap (λ p. p.0) first_write)
      (doc_run-WellFormed toy ((10, put_op (note (codes "one")) none two_versions) ∷ []))

doc_run-WellFormed_example : WellFormed (
    doc_run toy
      ((10, put_op (note (codes "one")) none two_versions)
        ∷ (20, restore_op (codes "ann") (codes "/a") 1 (codes "ann") none plain)
        ∷ (30, delete_op (codes "ann") (codes "/a"))
        ∷ [])
      no_docs)
doc_run-WellFormed_example = doc_run-WellFormed toy (
    (10, put_op (note (codes "one")) none two_versions)
    ∷ (20, restore_op (codes "ann") (codes "/a") 1 (codes "ann") none plain)
    ∷ (30, delete_op (codes "ann") (codes "/a"))
    ∷ [])

put_document-conflict_example :
    put_document toy 30 (note (codes "six")) (some (104 ∷ codes "one")) plain two_notes
    ≡ (two_notes, error (conflict (104 ∷ codes "one") (104 ∷ codes "two")))
unfolding ◌=ᵗ◌
put_document-conflict_example =
    put_document-conflict toy 20 30 (note (codes "two")) (note (codes "six")) (104 ∷ codes "one")
      plain plain one_note two_notes (put_result toy 20 (note (codes "two")) false 2) refl refl
      second_write refl (omega arith)

put_document-kept_example :
    (document_at_version (codes "ann") (codes "/a") 1 two_notes ≡ ok (version_of 1 first_row))
    × (1 ≤ 2)
unfolding get_document history_setting history_ceiling versions_kept ◌=ᵗ◌
put_document-kept_example =
    put_document-kept toy 20 (note (codes "two")) (some (104 ∷ codes "one")) plain one_note
      two_notes (put_result toy 20 (note (codes "two")) false 2) first_row one_note-WellFormed refl
      second_write refl (omega arith)

restore_version-put_document_example :
    (x : DocumentRow) × (get_document
        (codes "ann")
        (codes "/a")
        (restore_version toy 30 (codes "ann") (codes "/a") 1 (codes "ann") none plain two_notes).0
      ≡ some x)
    × (x.content ≡ codes "one")
    × (x.content_type ≡ codes "text/plain")
unfolding get_document history_setting history_ceiling versions_kept ◌=ᵗ◌
restore_version-put_document_example =
    restore_version-put_document toy 20 30 (note (codes "two")) (some (104 ∷ codes "one")) plain
      plain (codes "ann") one_note two_notes (put_result toy 20 (note (codes "two")) false 2)
      first_row one_note-WellFormed refl second_write refl (omega arith)

-- {"a": {"b": 1}, "c": 2} and the patch {"a": {"b": null, "d": 3}, "c": null, "e": {"f": 4}}.
abbrev stored_object : Members
stored_object =
    member (codes "a") (object (member (codes "b") (atom (codes "1")) end))
      (member (codes "c") (atom (codes "2")) end)

abbrev given_patch : Members
given_patch =
    member (codes "a")
      (object (member (codes "b") null (member (codes "d") (atom (codes "3")) end)))
      (member (codes "c") null
        (member (codes "e") (object (member (codes "f") (atom (codes "4")) end)) end))

abbrev merged : Members
merged =
    member (codes "a") (object (member (codes "d") (atom (codes "3")) end))
      (member (codes "e") (object (member (codes "f") (atom (codes "4")) end)) end)

merges : apply_merge_patch stored_object given_patch ≡ merged
unfolding apply_merge_patch lookup put remove ◌=ᵗ◌
merges = refl

apply_merge_patch-rfc_example :
    apply_merge_patch stored_object given_patch ≡ rfc_members stored_object given_patch
unfolding AddsPlain IsPlain apply_merge_patch lookup put remove ◌=ᵗ◌
apply_merge_patch-rfc_example =
    apply_merge_patch-rfc given_patch stored_object ((tt, (tt, tt)), (tt, ((refl, tt, tt), tt)))
