-- ===== src/Documents/Run.antt =====
-- Any history of the documents.
use go_ricochet.Base.{
  ℕ, refl, inl, inr, Option, none, List, [], ◌∷◌, arith, ltb, if◌then◌else◌, Bool-cases,
  Option-cases, length, find_first, Text,
}
use go_ricochet.Readers.{Visibility, ReaderRow}
use go_ricochet.Documents.{
  Docs, DocLibrary, WriteOptions, Write, at_path, get_document, is_version, put_document,
  patch_document, restore_version, delete_document, ceiling_only, is_conflict, no_docs,
  max_document_size, merged_content,
}
use go_ricochet.Documents.Listing.{set_visibility}
use go_ricochet.Documents.Patch.{Members}
use go_ricochet.Documents.Invariant.{WellFormed, Keeps}
use go_ricochet.Documents.Writes.{put_locked-WellFormed, delete-WellFormed, change-WellFormed}

-- The calls that write, each with its arguments.
pub data DocOp : Type 0 where
  put_op : Write → Option Text → WriteOptions → DocOp
  patch_op : Text → Text → Members → Text → Option Text → WriteOptions → DocOp
  restore_op : Text → Text → ℕ → Text → Option Text → WriteOptions → DocOp
  delete_op : Text → Text → DocOp
  visibility_op : Text → Text → Visibility → DocOp
  readers_op : List ReaderRow → DocOp

unfoldable pub doc_step : DocLibrary → ℕ → DocOp → Docs → Docs
doc_step lib now (put_op w m opts) db = (put_document lib now w m opts db).0
doc_step lib now (patch_op owner path patch by m opts) db =
    (patch_document lib now owner path patch by m opts db).0
doc_step lib now (restore_op owner path n by m opts) db =
    (restore_version lib now owner path n by m opts db).0
doc_step lib now (delete_op owner path) db = (delete_document owner path db).0
doc_step lib now (visibility_op owner path v) db = (set_visibility owner path v db).0
doc_step lib now (readers_op rs) db = record db { readers = rs }

unfoldable pub doc_run : DocLibrary → List (ℕ × DocOp) → Docs → Docs
doc_run lib [] db = db
doc_run lib ((now, op) ∷ ops) db = doc_run lib ops (doc_step lib now op db)

put-WellFormed :
    (lib : DocLibrary) (now : ℕ) (w : Write) (m : Option Text) (opts : WriteOptions) (db : Docs)
    → WellFormed db
    → WellFormed (put_document lib now w m opts db).0
unfolding put_document
put-WellFormed lib now w m opts db wf =
    elim (Bool-cases (ltb max_document_size (length w.content))) [
      | inl e ↦ rw (e, put_document) wf
      | inr e ↦ rw (e, put_document) (put_locked-WellFormed lib now w m opts db wf)
    ]

patch-WellFormed :
    (lib : DocLibrary) (now : ℕ) (owner path : Text) (patch : Members) (by : Text) (m : Option Text)
    (opts : WriteOptions) (db : Docs)
    → WellFormed db
    → WellFormed (patch_document lib now owner path patch by m opts db).0
unfolding patch_document
patch-WellFormed lib now owner path patch by m opts db wf =
    elim (Option-cases (get_document owner path db)) [
      | inl e ↦ rw (e, patch_document) wf
      | inr (d, e) ↦ elim (Bool-cases (is_conflict m d)) [
        | inl c ↦ rw (e, c, patch_document) wf
        | inr c ↦ elim (Option-cases (merged_content lib now patch d)) [
          | inl bad ↦ rw (e, c, bad, patch_document) wf
          | inr (content, good) ↦
              rw (e, c, good, patch_document)
                (put_locked-WellFormed lib now _ none (ceiling_only opts) db wf)
        ]
      ]
    ]

restore-WellFormed :
    (lib : DocLibrary) (now : ℕ) (owner path : Text) (n : ℕ) (by : Text) (m : Option Text)
    (opts : WriteOptions) (db : Docs)
    → WellFormed db
    → WellFormed (restore_version lib now owner path n by m opts db).0
unfolding restore_version
restore-WellFormed lib now owner path n by m opts db wf =
    elim (Option-cases (get_document owner path db)) [
      | inl e ↦ rw (e, restore_version) wf
      | inr (d, e) ↦ elim (Option-cases (find_first (is_version d.id n) db.versions)) [
        | inl none_kept ↦ rw (e, none_kept, restore_version) wf
        | inr (v, kept) ↦
            rw (e, kept, restore_version)
              (put_locked-WellFormed lib now _ m (ceiling_only opts) db wf)
      ]
    ]

visibility-Keeps :
    (owner path : Text) (v : Visibility)
    → Keeps (λ d. if at_path owner path d then record d { visibility = v } else d)
visibility-Keeps owner path v = record {
  same_id = λ d. elim (Bool-cases (at_path owner path d)) [ inl e ↦ rw e refl | inr e ↦ rw e refl ];
  same_owner =
      λ d. elim (Bool-cases (at_path owner path d)) [ inl e ↦ rw e refl | inr e ↦ rw e refl ];
  same_path =
      λ d. elim (Bool-cases (at_path owner path d)) [ inl e ↦ rw e refl | inr e ↦ rw e refl ];
  no_older = λ d. elim (Bool-cases (at_path owner path d)) [
    | inl e ↦ rw e (omega arith)
    | inr e ↦ rw e (omega arith)
  ];
}

-- Every operation keeps the tables well formed.
step-WellFormed :
    (lib : DocLibrary) (now : ℕ) (op : DocOp) (db : Docs)
    → WellFormed db
    → WellFormed (doc_step lib now op db)
unfolding doc_step
step-WellFormed lib now (put_op w m opts) db wf = put-WellFormed lib now w m opts db wf
step-WellFormed lib now (patch_op owner path patch by m opts) db wf =
    patch-WellFormed lib now owner path patch by m opts db wf
step-WellFormed lib now (restore_op owner path n by m opts) db wf =
    restore-WellFormed lib now owner path n by m opts db wf
step-WellFormed lib now (delete_op owner path) db wf = delete-WellFormed owner path db wf
step-WellFormed lib now (visibility_op owner path v) db wf =
    unfold set_visibility in change-WellFormed _ db (visibility-Keeps owner path v) wf
step-WellFormed lib now (readers_op rs) db wf = record {
  ids = wf.ids;
  fresh = wf.fresh;
  paths = wf.paths;
  history = wf.history;
}

from-WellFormed :
    (lib : DocLibrary) (ops : List (ℕ × DocOp)) (db : Docs)
    → WellFormed db
    → WellFormed (doc_run lib ops db)
unfolding doc_run
from-WellFormed lib [] db wf = wf
from-WellFormed lib ((now, op) ∷ ops) db wf =
    from-WellFormed lib ops (doc_step lib now op db) (step-WellFormed lib now op db wf)

-- After any sequence of writes, patches, restored versions, deletions, changes of visibility and of
-- reader lists, from empty tables: no two documents share an ID or a path of one owner, every kept
-- version of a document is older than the document itself, the versions of a document were kept in
-- the order of their numbers, each number once, and no ID stands at or past its counter.
pub doc_run-WellFormed :
    (lib : DocLibrary) (ops : List (ℕ × DocOp)) → WellFormed (doc_run lib ops no_docs)
doc_run-WellFormed lib ops = from-WellFormed lib ops no_docs (record {
  ids = tt;
  fresh = tt;
  paths = tt;
  history = record { older = tt; order = tt; fresh = tt; owned = tt };
})
