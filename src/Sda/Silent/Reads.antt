-- ===== src/Sda/Silent/Reads.antt =====
-- The history, and the four reads together, of documents that a caller may not read.
use go_ricochet.Base.{
  ℕ, ◌≡◌, refl, ap, ◌∙◌, inl, inr, Bool, true, false, ◌&&◌, Option, none, some, arith, ◌==◌, ==_iff,
  eqb_refl, Bool-cases, Option-cases, keep, any_of, Text, ◌=ᵗ◌, text_eq→eq, ℤ, pos, negsuc,
}
use go_ricochet.Readers.{require_reader}
use go_ricochet.Documents.{DocumentRow, VersionRow, at_path, get_document, is_version}
use go_ricochet.Documents.Listing.{document_history, document_at_version}
use go_ricochet.Documents.Invariant.{find-holds}
use go_ricochet.Sda.{DocRequest, Scope, Tables, may_read}
use go_ricochet.Sda.Reads.{
  content_reply, metadata_reply, handle_get, handle_head, handle_list, handle_history,
  history_reply, one_version, version_list,
}
use go_ricochet.Sda.Unseen.{IsUnseen, keep-unseen, find-unseen, under, any-found}
use go_ricochet.Sda.Silent.{
  rewritten, shows, rewritten_version, elsewhere, rewritten-readable, may_read-rewritten,
  get-rewritten, read-rewritten, list-rewritten,
}

module _ (sc : Scope) (g : DocumentRow → DocumentRow) (h : VersionRow → VersionRow)
    (s : Tables) where
  -- A test that only versions of a readable document pass.
  versions-IsUnseen :
      (d : DocumentRow) (p : VersionRow → Bool)
      → any_of (λ e. e.id == d.id && may_read sc e s) s.docs.documents ≡ true
      → ((v : VersionRow) → (v.document_id == d.id) ≡ false → p v ≡ false)
      → IsUnseen p (rewritten_version sc g h s)
  unfolding rewritten_version shows
  versions-IsUnseen d p seen only v = elim (Bool-cases (v.document_id == d.id)) [
    | inl e ↦
        let is_id = ==_iff v.document_id d.id in
        let same : (rewritten_version sc g h s) v ≡ v = rw (is_id.0 e, seen) refl in
        rw same (refl, λ k. refl)
    | inr e ↦
        let other : (((rewritten_version sc g h s) v).document_id == d.id) ≡ false =
          elim (Bool-cases ((shows sc g h s) v)) [ inl k ↦ rw k e | inr k ↦ rw k e ] in
        let not_before = only v e in
        rw (only ((rewritten_version sc g h s) v) other, not_before)
          (refl, λ k. absurd (ground arith))
  ]

  -- The versions of a document that is found and may be read.
  module _ (owner path : Text) (d : DocumentRow) (found : get_document owner path s.docs ≡ some d)
      (seen : may_read sc d s ≡ true) where
    still_found : get_document owner path (elsewhere sc g h s).docs ≡ some d
    still_found =
        (get-rewritten sc g h s) owner path
        ∙ ap (under (rewritten sc g h s)) found
        ∙ ap some ((rewritten-readable sc g h s) d seen)

    some_shown : any_of (λ e. e.id == d.id && may_read sc e s) s.docs.documents ≡ true
    unfolding get_document
    some_shown =
        any-found (at_path owner path) (λ e. e.id == d.id && may_read sc e s) s.docs.documents d
          found (rw (eqb_refl d.id, seen) refl)

    same_version :
        (n : ℕ)
        → document_at_version owner path n (elsewhere sc g h s).docs
          ≡ document_at_version owner path n s.docs
    unfolding document_at_version
    same_version n =
        let at = is_version d.id n in
        let found' =
          find-unseen at (rewritten_version sc g h s) s.docs.versions
            (versions-IsUnseen d at some_shown (λ v e. rw e refl)) in
        rw (still_found, document_at_version) (rw (found, document_at_version) (rw found' refl))

    same_rows :
        keep (λ v. v.document_id == d.id) (elsewhere sc g h s).docs.versions
        ≡ keep (λ v. v.document_id == d.id) s.docs.versions
    same_rows =
        keep-unseen (λ v. v.document_id == d.id) (rewritten_version sc g h s) s.docs.versions
          (versions-IsUnseen d (λ v. v.document_id == d.id) some_shown (λ v e. e))

    same_history :
        (most : Option ℕ)
        → document_history owner path most (elsewhere sc g h s).docs
          ≡ document_history owner path most s.docs
    unfolding document_history
    same_history none =
        rw (still_found, document_history) (rw (found, document_history) (rw same_rows refl))
    same_history (some n) =
        rw (still_found, document_history) (rw (found, document_history) (rw same_rows refl))

    same_one :
        (n : ℤ) → one_version sc owner path n (elsewhere sc g h s) ≡ one_version sc owner path n s
    same_one (pos n) = rw (same_version n) refl
    same_one (negsuc n) = refl

    same_list :
        (most : Option ℤ)
        → version_list sc owner path most (elsewhere sc g h s) ≡ version_list sc owner path most s
    same_list none = rw (same_history none) refl
    same_list (some (pos n)) = rw (same_history (some n)) refl
    same_list (some (negsuc n)) = rw (still_found, version_list) (rw (found, version_list) refl)

  history_reply-rewritten :
      (req : DocRequest) (owner : Text) (d : DocumentRow)
      → get_document owner req.path s.docs ≡ some d
      → may_read sc d s ≡ true
      → history_reply sc req owner (elsewhere sc g h s) ≡ history_reply sc req owner s
  history_reply-rewritten req owner d found seen = elim (Option-cases req.version_number) [
    | inl e ↦ rw e (same_list owner req.path d found seen req.max_versions)
    | inr (n, e) ↦ rw e (same_one owner req.path d found seen n)
  ]

  missing_version :
      (req : DocRequest) (owner : Text)
      → get_document owner req.path s.docs ≡ none
      → history_reply sc req owner (elsewhere sc g h s) ≡ history_reply sc req owner s
  unfolding document_at_version document_history
  missing_version req owner gone =
      let gone' : get_document owner req.path (elsewhere sc g h s).docs ≡ none =
        (get-rewritten sc g h s) owner req.path ∙ ap (under (rewritten sc g h s)) gone in
      elim (Option-cases req.version_number) [
        | inr (negsuc n, e) ↦ rw e refl
        | inr (pos n, e) ↦
            rw e (rw (gone', document_at_version) (rw (gone, document_at_version) refl))
        | inl e ↦ elim (Option-cases req.max_versions) [
          | inl f ↦ rw (e, f) (rw (gone', document_history) (rw (gone, document_history) refl))
          | inr (negsuc n, f) ↦ rw (e, f) (rw (gone', version_list) (rw (gone, version_list) refl))
          | inr (pos n, f) ↦
              rw (e, f) (rw (gone', document_history) (rw (gone, document_history) refl))
        ]
      ]

  history-rewritten :
      (req : DocRequest) (owner : Text)
      → handle_history sc req owner (elsewhere sc g h s) ≡ handle_history sc req owner s
  unfolding handle_history require_reader get_document
  history-rewritten req owner = elim (Option-cases (get_document owner req.path s.docs)) [
    | inl gone ↦
        let gone' : get_document owner req.path (elsewhere sc g h s).docs ≡ none =
          (get-rewritten sc g h s) owner req.path ∙ ap (under (rewritten sc g h s)) gone in
        let same = missing_version req owner gone in
        elim (Bool-cases (sc.caller =ᵗ owner)) [
          | inl e ↦ rw (e, handle_history) same
          | inr e ↦ rw (e, handle_history) (rw (gone', gone) refl)
        ]
    | inr (d, found) ↦ elim (Bool-cases (may_read sc d s)) [
      | inl seen ↦
          let same = history_reply-rewritten req owner d found seen in
          let found' = still_found owner req.path d found seen in
          elim (Bool-cases (sc.caller =ᵗ owner)) [
            | inl e ↦ rw (e, handle_history) same
            | inr e ↦
                let readable = (may_read-rewritten sc g h s) d ∙ seen in
                rw (e, handle_history) (rw (found', found) (rw seen same))
          ]
      | inr hidden ↦
          let hit = find-holds (at_path owner req.path) s.docs.documents d found in
          let is_owner : d.owner ≡ owner = text_eq→eq d.owner owner (ground arith) in
          let foreign : (sc.caller =ᵗ owner) ≡ false = elim (Bool-cases (sc.caller =ᵗ d.owner)) [
            | inl e ↦ let let_in : true ≡ false = rw e at hidden in absurd (ground arith)
            | inr e ↦ rw is_owner at e
          ] in
          let found' =
            (get-rewritten sc g h s) owner req.path ∙ ap (under (rewritten sc g h s)) found in
          let hidden' = (may_read-rewritten sc g h s) d ∙ hidden in
          rw (foreign, handle_history) (rw (found', found) (rw (hidden', hidden) refl))
    ]
  ]

  -- The GET, HEAD, LIST and HISTORY of a caller are answered the same whatever the documents that it
  -- may not read hold and whatever their versions are, where only the ID, owner, path and visibility of
  -- such a document and the document that a version belongs to stay: the answers tell nothing of all
  -- that does not stay.
  pub reads-rewritten :
      (req : DocRequest) (owner : Text)
      → (handle_get sc req owner (elsewhere sc g h s) ≡ handle_get sc req owner s)
        × (handle_head sc req owner (elsewhere sc g h s) ≡ handle_head sc req owner s)
        × (handle_list sc req owner (elsewhere sc g h s) ≡ handle_list sc req owner s)
        × (handle_history sc req owner (elsewhere sc g h s) ≡ handle_history sc req owner s)
  unfolding handle_get handle_head
  reads-rewritten req owner = (
    (read-rewritten sc g h s) (content_reply sc) req owner,
    (read-rewritten sc g h s) (metadata_reply sc) req owner,
    (list-rewritten sc g h s) req owner,
    history-rewritten req owner,
  )
