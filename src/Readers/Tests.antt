-- ===== src/Readers/Tests.antt =====
-- The rules at a shared document of Ann's that Bob may read.
use go_ricochet.Base.{◌≡◌, false, not, ◌&&◌, List, [], ◌∷◌, codes}
use go_ricochet.Readers.{shared, ReaderRow, Resource, readable_by, require_reader, hidden_owner}
use go_ricochet.Readers.Agree.{readable_by-require_reader}

abbrev bob_reads : List ReaderRow
bob_reads = record { store_id = 7; peer = codes "bob"; granted_at = 5 } ∷ []

abbrev shared_note : Resource
shared_note = record { id = 7; owner = codes "ann"; visibility = shared }

readable_by-require_reader_example :
    (not (hidden_owner (λ o. false) (codes "bob") (codes "ann"))
      && readable_by (codes "bob") bob_reads shared_note)
    ≡ require_reader (λ o. false) (codes "bob") bob_reads shared_note
readable_by-require_reader_example =
    readable_by-require_reader (λ o. false) (codes "bob") bob_reads shared_note
