-- ===== src/Presence.antt =====
-- internal/presence: the heartbeat of a server, split into pages, and the tracker that puts it
-- together (service.go and tracker.go).
pub mod Pages
pub mod Counting
pub mod Assembling
pub mod Online
mod Tests
use go_ricochet.Base.{
  ℕ, zero, suc, ◌+◌, ◌-◌, ◌*◌, ◌/◌, ◌%◌, ◌^◌, ◌≤◌, ◌<◌, min, max, ◌≡◌, refl, sym, ap, ◌∙◌, subst,
  ◌≢◌, ◌↔◌, ◌⊎◌, inl, inr, Bool, true, false, not, ◌&&◌, ◌||◌, Option, none, some, List, [], ◌∷◌,
  ◌++◌, map, append-nil, append_assoc, arith, ltb, leb, ◌==◌, if◌then◌else◌, ltb→lt, lt→ltb, leb→le,
  ==_iff, eqb_refl, Bool-cases, ◌>>=◌, Option-cases, length, take, drop, keep, find_first, any_of,
  sum_by, All, length-append, sum_by-append, length-take, length-drop, take-append-drop,
  take-length_append, drop-length_append, take_all, sum_by-keep-not, All-keep, All-append, All-find,
  All-imp, All-map, AllPairs, AllPairs-keep, AllPairs-snoc, AllPairs-map, All-take, AllPairs-take,
  Text, codes, ◌=ᵗ◌, text_eq_refl, text_eq→eq, mem_text, ℤ, pos, negsuc, pos_part, neg_part, ◌≤ℤ◌,
  ltb_ℤ, is_positive, is_zero,
}

-- What of `PresenceHeartbeat` the tracker reads.
pub record Heartbeat : Type 0 where
  pub server : Text
  pub online_count : ℕ
  pub peers : List Text
  pub sequence : ℕ
  pub page : ℤ
  pub page_count : ℤ

-- 0, …, n - 1
unfoldable pub range : ℕ → List ℕ
range zero = []
range (suc n) = range n ++ n ∷ []

abbrev pub heartbeat_page_size : ℕ
heartbeat_page_size = 4096

-- One page: `peerIDs[start:end]`.
unfoldable pub slice : ℕ → List Text → ℕ → List Text
slice size ids p = take size (drop (p * size) ids)

-- The number of pages; an empty set has one.
unfoldable pub pages_of : ℕ → ℕ → ℕ
pages_of n size = max 1 ((n + size - 1) / size)

unfoldable pub heartbeat_page : Text → ℕ → List Text → ℕ → ℕ → Heartbeat
heartbeat_page server seq ids size p = record {
  server = server;
  online_count = length ids;
  peers = slice size ids p;
  sequence = seq;
  page = pos p;
  page_count = pos (pages_of (length ids) size);
}

-- `heartbeatPages`; a page size of 0 stands for the default.
unfoldable pub heartbeat_pages : Text → ℕ → List Text → ℕ → List Heartbeat
heartbeat_pages server seq ids page_size =
    let size = if page_size == 0 then heartbeat_page_size else page_size in
    map (heartbeat_page server seq ids size) (range (pages_of (length ids) size))

-- `heartbeatAssembly`: the page numbers and the peers that arrived, as sets.
pub record Assembly : Type 0 where
  pub sequence : ℕ
  pub pages : List ℕ
  pub total : ℕ
  pub online : List Text

abbrev pub Partial : Type 0
Partial = Text → Option Assembly

abbrev pub set_partial : Text → Option Assembly → Partial → Partial
set_partial server a partial = λ s. if s =ᵗ server then a else partial s

abbrev pub new_assembly : ℕ → ℕ → Assembly
new_assembly seq total = record { sequence = seq; pages = []; total = total; online = [] }

-- The pending assembly, unless it is of another sequence or another number of pages.
unfoldable pub pending : Option Assembly → ℕ → ℕ → Assembly
pending none seq total = new_assembly seq total
pending (some a) seq total =
    if a.sequence == seq && a.total == total then a else new_assembly seq total

abbrev pub mem_page : ℕ → List ℕ → Bool
mem_page p = any_of (λ q. q == p)

abbrev pub insert_page : ℕ → List ℕ → List ℕ
insert_page p ps = if mem_page p ps then ps else p ∷ ps

-- The page's number and its peers added.
unfoldable pub with_page : ℕ → List Text → Assembly → Assembly
with_page p peers a = record a { pages = insert_page p a.pages; online = peers ++ a.online }

unfoldable pub add_page : Heartbeat → ℕ → ℕ → Partial → Partial × Option (List Text)
add_page hb p total partial =
    let a = with_page p hb.peers (pending (partial hb.server) hb.sequence total) in
    if ltb (length a.pages) a.total
    then (set_partial hb.server (some a) partial, none)
    else (set_partial hb.server none partial, some a.online)

-- A page number in range.
abbrev pub in_range : ℤ → ℤ → Bool
in_range (pos p) total = ltb p (pos_part total)
in_range (negsuc n) total = false

-- `assembleHeartbeat`: the online set, once the last page is in.
unfoldable pub assemble_heartbeat : Heartbeat → Partial → Partial × Option (List Text)
assemble_heartbeat hb partial =
    if not (ltb 1 (pos_part hb.page_count))
    then (partial, some hb.peers)
    else if not (in_range hb.page hb.page_count)
    then (partial, none)
    else add_page hb (pos_part hb.page) (pos_part hb.page_count) partial
