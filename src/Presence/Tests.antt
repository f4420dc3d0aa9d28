-- ===== src/Presence/Tests.antt =====
-- The theorems of the heartbeat at three peers on two pages.
use go_ricochet.Base.{
  ℕ, ◌≡◌, refl, none, some, List, [], ◌∷◌, map, arith, Text, codes, ◌=ᵗ◌, mem_text, pos,
}
use go_ricochet.Presence.{
  Partial, Heartbeat, range, slice, pages_of, heartbeat_page, heartbeat_pages, pending, with_page,
  add_page, assemble_heartbeat,
}
use go_ricochet.Presence.Online.{receive, assembled-online, in_order-online}

abbrev peers : List Text
peers = codes "a" ∷ codes "b" ∷ codes "c" ∷ []

abbrev hub : Text
hub = codes "hub"

abbrev no_pages : Partial
no_pages s = none

two_pages : map (λ (h : Heartbeat). h.page) (heartbeat_pages hub 7 peers 2) ≡ pos 0 ∷ pos 1 ∷ []
unfolding heartbeat_pages heartbeat_page pages_of range
two_pages = refl

abbrev page : ℕ → Heartbeat
page = heartbeat_page hub 7 peers 2

-- The pages arrive backwards, the second one twice.
completed :
    (assemble_heartbeat (page 0) (receive hub 7 peers 2 (1 ∷ 1 ∷ []) no_pages)).1
    ≡ some (codes "a" ∷ codes "b" ∷ codes "c" ∷ codes "c" ∷ [])
unfolding assemble_heartbeat heartbeat_page pages_of slice pending with_page add_page ◌=ᵗ◌
completed = refl

assembled-online_example :
    mem_text (codes "b") (codes "a" ∷ codes "b" ∷ codes "c" ∷ codes "c" ∷ [])
    ≡ mem_text (codes "b") peers
assembled-online_example =
    assembled-online hub 7 peers 2 (omega arith) (1 ∷ 1 ∷ []) 0 no_pages
      (codes "a" ∷ codes "b" ∷ codes "c" ∷ codes "c" ∷ []) (λ a e. absurd (ground arith))
      (unfold pages_of in (omega arith, (omega arith, tt))) (unfold pages_of in omega arith)
      completed (codes "b")

in_order-online_example :
    (online : List Text) × ((assemble_heartbeat
        (page 1)
        (receive hub 7 peers 2 (range 1) no_pages)).1
      ≡ some online)
    × ((x : Text) → mem_text x online ≡ mem_text x peers)
in_order-online_example =
    in_order-online hub 7 peers 2 (omega arith) 1 no_pages (unfold pages_of in refl)
      (λ a e. absurd (ground arith))
