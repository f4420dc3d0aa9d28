-- ===== src/Sda/Serve.antt =====
-- The pipeline of internal/protocol/sda/handler.go from the ban gate on: common validation, the
-- routes and the response writer. The rate limits, the deadline and the admission and capacity gates
-- before them are left out.
use go_ricochet.Base.{
  Bool, true, false, not, ◌&&◌, ◌||◌, Option, none, some, [], if◌then◌else◌, Text, codes, ◌=ᵗ◌,
}
use go_ricochet.Sda.{
  DocRequest, DocResponse, Envelope, Decoders, Reply, reply, forbidden, unrouted, undecoded, Scope,
  Tables, status_only, validate_path,
}
use go_ricochet.Readers.{require_owner}
use go_ricochet.Sda.Reads.{handle_get, handle_head, handle_list, handle_history}
use go_ricochet.Sda.Writes.{handle_put, handle_patch, handle_restore, handle_delete, handle_access}
use go_ricochet.Sda.Batch.{handle_batch_put}
use go_ricochet.Sda.Entries.{handle_directory}

-- The keys of the route table.
pub data Operation : Type 0 where
  op_get op_put op_patch op_head op_delete op_list op_history op_directory op_batch_put op_access
        op_restore :
      Operation

unfoldable pub route : Text → Option Operation
route name =
    if name =ᵗ codes "GET"
    then some op_get
    else if name =ᵗ codes "PUT"
    then some op_put
    else if name =ᵗ codes "PATCH"
    then some op_patch
    else if name =ᵗ codes "HEAD"
    then some op_head
    else if name =ᵗ codes "DELETE"
    then some op_delete
    else if name =ᵗ codes "LIST"
    then some op_list
    else if name =ᵗ codes "BATCH_PUT"
    then some op_batch_put
    else if name =ᵗ codes "HISTORY"
    then some op_history
    else if name =ᵗ codes "DIRECTORY"
    then some op_directory
    else if name =ᵗ codes "ACCESS"
    then some op_access
    else if name =ᵗ codes "RESTORE"
    then some op_restore
    else none

abbrev pub joins_or_leaves : Text → Bool
joins_or_leaves action = action =ᵗ codes "join" || action =ᵗ codes "leave"

-- Whether the operation needs the owner.
unfoldable pub is_write : Option Operation → Text → Bool
is_write none action = false
is_write (some op_get) action = false
is_write (some op_put) action = true
is_write (some op_patch) action = true
is_write (some op_head) action = false
is_write (some op_delete) action = true
is_write (some op_list) action = false
is_write (some op_history) action = false
is_write (some op_directory) action = joins_or_leaves action
is_write (some op_batch_put) action = true
is_write (some op_access) action = true
is_write (some op_restore) action = true

-- Whether common validation checks the request's path.
unfoldable pub needs_path : Option Operation → Bool
needs_path (some op_list) = false
needs_path (some op_directory) = false
needs_path (some op_batch_put) = false
needs_path _ = true

unfoldable pub dispatch : Operation → Scope → DocRequest → Text → Tables → Tables × Reply
dispatch op_get sc req owner s = (s, handle_get sc req owner s)
dispatch op_put sc req owner s = handle_put sc req owner s
dispatch op_patch sc req owner s = handle_patch sc req owner s
dispatch op_head sc req owner s = (s, handle_head sc req owner s)
dispatch op_delete sc req owner s = handle_delete sc req owner s
dispatch op_list sc req owner s = (s, handle_list sc req owner s)
dispatch op_history sc req owner s = (s, handle_history sc req owner s)
dispatch op_directory sc req owner s = handle_directory sc req owner s
dispatch op_batch_put sc req owner s = handle_batch_put sc req owner s
dispatch op_access sc req owner s = handle_access sc req s
dispatch op_restore sc req owner s = handle_restore sc req owner s

-- The `JSONDeserialize` of a route, and its handler.
abbrev pub decoded : Operation → Scope → Option DocRequest → Text → Tables → Tables × Reply
decoded op sc none owner s = (s, undecoded)
decoded op sc (some req) owner s = dispatch op sc req owner s

abbrev pub route_of : Option Text → Option Operation
route_of none = none
route_of (some name) = route name

-- `OperationRouter`, by the operation that it reads itself.
unfoldable pub routed : Decoders → Scope → Text → Text → Tables → Tables × Reply
routed dec sc raw owner s = elim (route_of (dec.operation raw)) [
  | none ↦ (s, unrouted)
  | some op ↦ decoded op sc (dec.request raw) owner s
]

-- The rest of common validation, by the operation that it decoded, after the owner's ID is parsed.
unfoldable pub validated : Decoders → Scope → Text → Envelope → Tables → Text → Tables × Reply
validated dec sc raw env s owner =
    let op = route env.operation in
    if needs_path op && not (validate_path env.path)
    then (s, reply (status_only 400))
    else if is_write op env.directory_action && not (require_owner sc.caller owner)
    then (s, forbidden)
    else routed dec sc raw owner s

-- `commonValidation` and the routes, on the bytes of a frame.
unfoldable pub common_validation : Decoders → Scope → Text → Tables → Tables × Reply
common_validation dec sc raw s = elim (dec.envelope raw) [
  | none ↦ (s, reply (status_only 400))
  | some env ↦
      if env.owner_peer_id =ᵗ []
      then (s, reply (status_only 400))
      else elim (sc.lib.access.peer_decode env.owner_peer_id) [
        | none ↦ (s, reply (status_only 400))
        | some owner ↦ validated dec sc raw env s owner
      ]
]

-- `BanGate` with nothing let through, then the request.
unfoldable pub serve : Decoders → Scope → Text → Tables → Tables × Reply
serve dec sc raw s = if sc.banned sc.caller then (s, forbidden) else common_validation dec sc raw s

-- `docResponseWriter`: a refusal is a 403, an unknown operation and a request that does not decode a
-- 400.
unfoldable pub response : Reply → DocResponse
response (reply r) = r
response forbidden = status_only 403
response unrouted = status_only 400
response undecoded = status_only 400
