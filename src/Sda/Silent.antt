-- ===== src/Sda/Silent.antt =====
-- What the reads of the document protocol tell a caller of documents that it may not read.
pub mod Reads
use go_ricochet.Base.{
  ℕ, zero, suc, ◌+◌, ◌-◌, ◌*◌, ◌/◌, ◌%◌, ◌^◌, ◌≤◌, ◌<◌, min, max, ◌≡◌, refl, sym, ap, ◌∙◌, subst,
  ◌≢◌, ◌↔◌, ◌⊎◌, inl, inr, Bool, true, false, not, ◌&&◌, ◌||◌, Option, none, some, List, [], ◌∷◌,
  ◌++◌, map, append-nil, append_assoc, arith, ltb, leb, ◌==◌, if◌then◌else◌, ltb→lt, lt→ltb, leb→le,
  ==_iff, eqb_refl, Bool-cases, ◌>>=◌, Option-cases, length, take, drop, keep, find_first, any_of,
  sum_by, All, length-append, sum_by-append, length-take, length-drop, take-append-drop,
  take-length_append, drop-length_append, take_all, sum_by-keep-not, All-keep, All-append, All-find,
  All-imp, All-map, AllPairs, AllPairs-keep, AllPairs-snoc, AllPairs-map, All-take, AllPairs-take,
  Text, codes, ◌=ᵗ◌, text_eq_refl, text_eq→eq, mem_text, ℤ, pos, negsuc, pos_part, neg_part, ◌≤ℤ◌,
  ltb_ℤ, is_positive, is_zero, suc_ℤ, suc_ℤ_parts,
}
use go_ricochet.Store.Sort.{sort_by}
use go_ricochet.Readers.{require_reader, hidden_owner, readable_by}
use go_ricochet.Documents.{
  DocumentRow, VersionRow, DocLibrary, Docs, Outcome, at_path, get_document, is_version,
  newest_version, or_kept,
}
use go_ricochet.Documents.Listing.{
  resource_of, list_documents, listed_documents, list_limit, after_path, document_history,
  document_at_version,
}
use go_ricochet.Documents.Invariant.{find-holds}
use go_ricochet.Sda.{DocRequest, Reply, Scope, Tables, may_read, forbidden}
use go_ricochet.Sda.Hidden.{row-may_read}
use go_ricochet.Sda.Reads.{
  read_document, content_reply, metadata_reply, handle_get, handle_head, handle_list,
  handle_history, history_reply, one_version, version_list, shown_documents, list_reply,
}
use go_ricochet.Sda.Unseen.{IsUnseen, keep-unseen, find-unseen, under, find-under, any-found}

module _ (sc : Scope) (g : DocumentRow → DocumentRow) (h : VersionRow → VersionRow)
    (s : Tables) where
  -- A document that the caller may not read, with all of it replaced by what `g` makes of it but its
  -- ID, owner, path and visibility; one that the caller may read, as it is.
  unfoldable pub rewritten : DocumentRow → DocumentRow
  rewritten d =
      if may_read sc d s
      then d
      else record (g d) { id = d.id; owner = d.owner; path = d.path; visibility = d.visibility }

  -- Whether the version is one of a document that the caller may read.
  unfoldable pub shows : VersionRow → Bool
  shows v = any_of (λ d. d.id == v.document_id && may_read sc d s) s.docs.documents

  unfoldable pub rewritten_version : VersionRow → VersionRow
  rewritten_version v = if shows v then v else record (h v) { document_id = v.document_id }

  abbrev pub elsewhere : Tables
  elsewhere = record s {
    docs = record s.docs {
      documents = map rewritten s.docs.documents;
      versions = map rewritten_version s.docs.versions;
    };
  }

  pub rewritten-readable : (d : DocumentRow) → may_read sc d s ≡ true → rewritten d ≡ d
  unfolding rewritten
  rewritten-readable d e = rw e refl

  rewritten-outside :
      (d : DocumentRow)
      → (resource_of (rewritten d) ≡ resource_of d)
        × ((rewritten d).owner ≡ d.owner)
        × ((rewritten d).path ≡ d.path)
  unfolding rewritten
  rewritten-outside d = elim (Bool-cases (may_read sc d s)) [
    | inl e ↦ rw e (refl, refl, refl)
    | inr e ↦ rw e (refl, refl, refl)
  ]

  pub may_read-rewritten : (d : DocumentRow) → may_read sc (rewritten d) elsewhere ≡ may_read sc d s
  may_read-rewritten d =
      ap (require_reader sc.banned sc.caller s.docs.readers) (rewritten-outside d).0

  pub get-rewritten :
      (owner path : Text)
      → get_document owner path elsewhere.docs ≡ under rewritten (get_document owner path s.docs)
  unfolding get_document
  get-rewritten owner path =
      find-under (at_path owner path) rewritten s.docs.documents
        (λ d. rw ((rewritten-outside d).1, (rewritten-outside d).2) refl)

  pub read-rewritten :
      (answer : DocumentRow → Reply) (req : DocRequest) (owner : Text)
      → read_document sc answer req elsewhere (get_document owner req.path elsewhere.docs)
        ≡ read_document sc answer req s (get_document owner req.path s.docs)
  read-rewritten answer req owner =
      rw (get-rewritten owner req.path) (elim (Option-cases (get_document owner req.path s.docs)) [
        | inl e ↦ rw e refl
        | inr (d, e) ↦ elim (Bool-cases (may_read sc d s)) [
          | inl seen ↦
              let same = may_read-rewritten d ∙ seen in
              rw e (rw (same, seen) (rw (rewritten-readable d seen) refl))
          | inr hidden ↦ let same = may_read-rewritten d ∙ hidden in rw e (rw (same, hidden) refl)
        ]
      ])

  listed-IsUnseen :
      (owner after : Text)
      → hidden_owner sc.banned sc.caller owner ≡ false
      → IsUnseen
          (λ d.
            d.owner =ᵗ owner
            && (after_path sc.lib.documents.text_before after d
                && readable_by sc.caller s.docs.readers (resource_of d)))
          rewritten
  listed-IsUnseen owner after shown d =
      let outside = rewritten-outside d in
      let place = after_path sc.lib.documents.text_before after in
      let reader = readable_by sc.caller s.docs.readers in
      (
        ap (λ o. o =ᵗ owner && (place (rewritten d) && reader (resource_of (rewritten d))))
              outside.1
            ∙ ap (λ b. d.owner =ᵗ owner && (b && reader (resource_of (rewritten d))))
                (same_place after outside.2)
            ∙ ap (λ r. d.owner =ᵗ owner && (place d && reader r)) outside.0,
        λ e. rewritten-readable d (row-may_read sc owner s d shown (ground arith, ground arith)),
      )
    where
      same_place :
          (after : Text)
          → (rewritten d).path ≡ d.path
          → after_path sc.lib.documents.text_before after (rewritten d)
            ≡ after_path sc.lib.documents.text_before after d
      same_place [] e = refl
      same_place (c ∷ cs) e = rw e refl

  pub list-rewritten :
      (req : DocRequest) (owner : Text)
      → handle_list sc req owner elsewhere ≡ handle_list sc req owner s
  unfolding handle_list shown_documents list_documents listed_documents
  list-rewritten req owner = elim (Bool-cases (hidden_owner sc.banned sc.caller owner)) [
    | inl e ↦ rw (handle_list, shown_documents, e) refl
    | inr e ↦
        let same =
          keep-unseen _ rewritten s.docs.documents (listed-IsUnseen owner req.list_cursor e) in
        rw (handle_list, shown_documents, e) (rw same refl)
  ]
