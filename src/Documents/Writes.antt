-- ===== src/Documents/Writes.antt =====
-- Each write keeps the tables of the documents well formed.
use go_ricochet.Base.{
  ℕ, suc, ◌<◌, ◌≡◌, refl, sym, ◌∙◌, subst, inl, inr, Bool, true, false, not, ◌&&◌, Option, none,
  some, List, [], ◌∷◌, ◌++◌, map, arith, ◌==◌, if◌then◌else◌, Bool-cases, Option-cases, keep,
  find_first, any_of, All, All-keep, All-append, All-find, All-imp, All-map, AllPairs-keep,
  AllPairs-snoc, AllPairs-map, Text, ◌=ᵗ◌, ℤ,
}
use go_ricochet.Readers.Agree.{text_eq_sym}
use go_ricochet.Documents.{
  DocumentRow, VersionRow, Docs, DocLibrary, WriteOptions, Write, at_path, get_document,
  history_setting, is_version, archive_version, prune_versions, keep_history, insert_document,
  update_document, rewritten, new_document, drop_history, put_document_locked, is_conflict,
  delete_document,
}
use go_ricochet.Documents.Invariant.{
  IsNewer, WellFormed, IsHistory-keep, Keeps, IsHistory-map, same_row, find-holds, version_of,
  IsHistory-snoc,
}

-- What a change of the rows that keeps their IDs, owners and paths leaves true.
pub change-WellFormed :
    (f : DocumentRow → DocumentRow) (db : Docs)
    → Keeps f
    → WellFormed db
    → WellFormed (record db { documents = map f db.documents })
change-WellFormed f db k w = record {
  ids =
      AllPairs-map (λ a b. a.id < b.id) f (λ a b l. omega (arith, k.same_id a, k.same_id b, l))
        db.documents w.ids;
  fresh =
      All-map (λ d. d.id < db.next_document) f db.documents
        (All-imp (λ d. d.id < db.next_document) (λ d. (f d).id < db.next_document)
          (λ d l. omega (arith, k.same_id d, l)) db.documents w.fresh);
  paths =
      AllPairs-map (λ a b. at_path a.owner a.path b ≡ false) f
        (λ a b e. rw (k.same_owner a, k.same_path a, k.same_owner b, k.same_path b) e) db.documents
        w.paths;
  history = IsHistory-map f db.documents db.next_version db.next_document db.versions k w.history;
}

pub with_versions-WellFormed :
    (db : Docs) (p : VersionRow → Bool)
    → WellFormed db
    → WellFormed (record db { versions = keep p db.versions })
with_versions-WellFormed db p w = record {
  ids = w.ids;
  fresh = w.fresh;
  paths = w.paths;
  history = IsHistory-keep db.documents db.next_version db.next_document db.versions p w.history;
}

pub prune-WellFormed :
    (i most : ℕ) (db : Docs) → WellFormed db → WellFormed (prune_versions i most db)
unfolding prune_versions
prune-WellFormed i most db w = with_versions-WellFormed db _ w

-- The row that a write finds is newer than each of its kept versions.
pub found-newest :
    (owner path : Text) (d : DocumentRow) (vs : List VersionRow) (ds : List DocumentRow)
    → find_first (at_path owner path) ds ≡ some d
    → All (λ v. All (IsNewer v) ds) vs
    → All (λ v. v.document_id ≡ d.id → v.version_number < d.version_number) vs
found-newest owner path d [] ds e h = tt
found-newest owner path d (v ∷ vs) ds e h = (
  (λ same. All-find (IsNewer v) (at_path owner path) ds d h.0 e (sym same)),
  found-newest owner path d vs ds e h.1,
)

pub write_row-Keeps :
    (lib : DocLibrary) (now : ℕ) (w : Write) (opts : WriteOptions)
    → Keeps (λ x. if at_path w.owner w.path x then rewritten lib now w opts x else x)
write_row-Keeps lib now w opts = record {
  same_id =
      λ d. elim (Bool-cases (at_path w.owner w.path d)) [ inl e ↦ rw e refl | inr e ↦ rw e refl ];
  same_owner =
      λ d. elim (Bool-cases (at_path w.owner w.path d)) [ inl e ↦ rw e refl | inr e ↦ rw e refl ];
  same_path =
      λ d. elim (Bool-cases (at_path w.owner w.path d)) [ inl e ↦ rw e refl | inr e ↦ rw e refl ];
  no_older = λ d. elim (Bool-cases (at_path w.owner w.path d)) [
    | inl e ↦ rw e (omega arith)
    | inr e ↦ rw e (omega arith)
  ];
}

-- The rows are changed at the path of the write, and the found row's version is archived.
archive_write-WellFormed :
    (lib : DocLibrary) (now : ℕ) (w : Write) (opts : WriteOptions) (d : DocumentRow) (db : Docs)
    → get_document w.owner w.path db ≡ some d
    → WellFormed db
    → WellFormed (record (archive_version d db) {
      documents =
          map
            (λ x. if at_path w.owner w.path x then rewritten lib now w opts x else x)
            (archive_version d db).documents;
    })
unfolding get_document archive_version
archive_write-WellFormed lib now w opts d db e wf =
    let f : DocumentRow → DocumentRow =
      λ x. if at_path w.owner w.path x then rewritten lib now w opts x else x in
    let k = write_row-Keeps lib now w opts in
    let changed = change-WellFormed f db k wf in
    elim (Bool-cases (any_of (is_version d.id d.version_number) db.versions)) [
      | inl dup ↦ rw dup changed
      | inr new ↦
          let hit : at_path w.owner w.path d ≡ true =
            find-holds (at_path w.owner w.path) db.documents d e in
          let only = same_row (at_path w.owner w.path) db.documents d wf.ids e in
          let newest : All (λ x. IsNewer (version_of db.next_version d) (f x)) db.documents =
            All-imp (λ x. x.id ≡ d.id → x ≡ d) (λ x. IsNewer (version_of db.next_version d) (f x))
              (λ x u same.
                let is_d : x ≡ d = u (sym (k.same_id x) ∙ same) in
                subst (λ (z : DocumentRow). d.version_number < (f z).version_number) (sym is_d)
                  (rw hit (omega arith)))
              db.documents only in
          rw new (record {
            ids = changed.ids;
            fresh = changed.fresh;
            paths = changed.paths;
            history =
                IsHistory-snoc (map f db.documents) db.next_version db.next_document db.versions d
                  changed.history
                  (found-newest w.owner w.path d db.versions db.documents e wf.history.older)
                  (All-map (IsNewer (version_of db.next_version d)) f db.documents newest)
                  (All-find (λ x. x.id < db.next_document) (at_path w.owner w.path) db.documents d
                    wf.fresh e);
          })
    ]

pub update-WellFormed :
    (lib : DocLibrary) (now : ℕ) (w : Write) (opts : WriteOptions) (d : DocumentRow) (db : Docs)
    → get_document w.owner w.path db ≡ some d
    → WellFormed db
    → WellFormed (update_document lib now w opts d db).0
unfolding update_document keep_history prune_versions
update-WellFormed lib now w opts d db e wf =
    let f : DocumentRow → DocumentRow =
      λ x. if at_path w.owner w.path x then rewritten lib now w opts x else x in
    let k = write_row-Keeps lib now w opts in
    elim (Bool-cases (history_setting opts (d.history_enabled, d.max_history)).0) [
      | inl on ↦
          rw on (with_versions-WellFormed _ _ (archive_write-WellFormed lib now w opts d db e wf))
      | inr off ↦ rw off (dropped opts.history)
    ]
  where
    dropped :
        (o : Option ℤ)
        → WellFormed (record (drop_history o d.id db) {
          documents =
              map
                (λ x. if at_path w.owner w.path x then rewritten lib now w opts x else x)
                (drop_history o d.id db).documents;
        })
    dropped none = change-WellFormed _ db (write_row-Keeps lib now w opts) wf
    dropped (some n) =
        with_versions-WellFormed _ _ (change-WellFormed _ db (write_row-Keeps lib now w opts) wf)

pub insert-WellFormed :
    (lib : DocLibrary) (now : ℕ) (w : Write) (opts : WriteOptions) (db : Docs)
    → get_document w.owner w.path db ≡ none
    → WellFormed db
    → WellFormed (insert_document lib now w opts db).0
unfolding insert_document get_document
insert-WellFormed lib now w opts db e wf =
    let d = new_document lib now w opts db.next_document in
    record {
      ids = AllPairs-snoc (λ a b. a.id < b.id) db.documents d wf.ids wf.fresh;
      fresh =
          All-append (λ d. d.id < suc db.next_document) db.documents _
            (All-imp (λ x. x.id < db.next_document) (λ x. x.id < suc db.next_document)
              (λ x l. omega (arith, l)) db.documents wf.fresh)
            (omega arith, tt);
      paths =
          AllPairs-snoc (λ a b. at_path a.owner a.path b ≡ false) db.documents d wf.paths
            (others db.documents e);
      history = record {
        older = newer db.versions wf.history.older wf.history.owned;
        order = wf.history.order;
        fresh = wf.history.fresh;
        owned =
            All-imp (λ v. v.document_id < db.next_document)
              (λ v. v.document_id < suc db.next_document) (λ v l. omega (arith, l)) db.versions
              wf.history.owned;
      };
    }
  where
    others :
        (ds : List DocumentRow)
        → find_first (at_path w.owner w.path) ds ≡ none
        → All (λ x. (w.owner =ᵗ x.owner && w.path =ᵗ x.path) ≡ false) ds
    others [] h = tt
    others (x ∷ xs) h = elim (Bool-cases (at_path w.owner w.path x)) [
      | inl hit ↦ let found : some x ≡ none = rw hit at h in absurd (ground arith)
      | inr miss ↦ (
        rw (text_eq_sym w.owner x.owner, text_eq_sym w.path x.path) miss,
        others xs (rw miss at h),
      )
    ]

    newer :
        (vs : List VersionRow)
        → All (λ v. All (IsNewer v) db.documents) vs
        → All (λ v. v.document_id < db.next_document) vs
        → All
            (λ v.
              All (IsNewer v) (db.documents ++ new_document lib now w opts db.next_document ∷ []))
            vs
    newer [] h o = tt
    newer (v ∷ vs) h o = (
      All-append (IsNewer v) db.documents _ h.0 ((λ same. absurd (omega (arith, same, o.0))), tt),
      newer vs h.1 o.1,
    )

pub put_locked-WellFormed :
    (lib : DocLibrary) (now : ℕ) (w : Write) (m : Option Text) (opts : WriteOptions) (db : Docs)
    → WellFormed db
    → WellFormed (put_document_locked lib now w m opts db).0
unfolding put_document_locked
put_locked-WellFormed lib now w m opts db wf =
    elim (Option-cases (get_document w.owner w.path db)) [
      | inl e ↦ rw (e, put_document_locked) (insert-WellFormed lib now w opts db e wf)
      | inr (d, e) ↦ elim (Bool-cases (is_conflict m d)) [
        | inl c ↦ rw (e, c, put_document_locked) wf
        | inr c ↦ rw (e, c, put_document_locked) (update-WellFormed lib now w opts d db e wf)
      ]
    ]

pub delete-WellFormed :
    (owner path : Text) (db : Docs) → WellFormed db → WellFormed (delete_document owner path db).0
unfolding delete_document
delete-WellFormed owner path db wf = elim (Option-cases (get_document owner path db)) [
  | inl e ↦ rw (e, delete_document) wf
  | inr (d, e) ↦
      let p : DocumentRow → Bool = λ x. not (at_path owner path x) in
      rw (e, delete_document)
        (record {
          ids = AllPairs-keep (λ a b. a.id < b.id) p db.documents wf.ids;
          fresh = All-keep (λ x. x.id < db.next_document) p db.documents wf.fresh;
          paths = AllPairs-keep (λ a b. at_path a.owner a.path b ≡ false) p db.documents wf.paths;
          history =
              IsHistory-keep (keep p db.documents) db.next_version db.next_document db.versions
                (λ v. not (v.document_id == d.id))
                (record {
                  older =
                      All-imp (λ v. All (IsNewer v) db.documents)
                        (λ v. All (IsNewer v) (keep p db.documents))
                        (λ v h. All-keep (IsNewer v) p db.documents h) db.versions wf.history.older;
                  order = wf.history.order;
                  fresh = wf.history.fresh;
                  owned = wf.history.owned;
                });
        })
]
