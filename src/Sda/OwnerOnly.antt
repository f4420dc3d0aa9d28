-- ===== src/Sda/OwnerOnly.antt =====
-- Only the owner changes anything.
use go_ricochet.Base.{
  ◌≡◌, refl, inl, inr, false, not, ◌&&◌, some, [], arith, Bool-cases, Option-cases, Text, codes,
  ◌=ᵗ◌,
}
use go_ricochet.Readers.{require_owner}
use go_ricochet.Sda.{DocRequest, Envelope, Decoders, Scope, Tables, validate_path}
use go_ricochet.Sda.Entries.{handle_directory}
use go_ricochet.Sda.Serve.{
  Operation, op_get, op_put, op_patch, op_head, op_delete, op_list, op_history, op_directory,
  op_batch_put, op_access, op_restore, route, joins_or_leaves, is_write, needs_path, dispatch,
  routed, validated, common_validation, serve,
}

directory_read :
    (sc : Scope) (req : DocRequest) (owner : Text) (s : Tables)
    → joins_or_leaves req.directory_action ≡ false
    → (handle_directory sc req owner s).0 ≡ s
unfolding handle_directory
directory_read sc req owner s h =
    let join : (req.directory_action =ᵗ codes "join") ≡ false = ground arith in
    let leave : (req.directory_action =ᵗ codes "leave") ≡ false = ground arith in
    rw (join, leave, handle_directory)
      (elim (Bool-cases (req.directory_action =ᵗ codes "browse")) [
        | inl e ↦ rw e refl
        | inr e ↦ rw e (elim (Bool-cases (req.directory_action =ᵗ codes "get")) [
          | inl f ↦ rw f refl
          | inr f ↦ rw f refl
        ])
      ])

read-dispatch :
    (op : Operation) (sc : Scope) (req : DocRequest) (owner : Text) (s : Tables)
    → is_write (some op) req.directory_action ≡ false
    → (dispatch op sc req owner s).0 ≡ s
unfolding dispatch is_write
read-dispatch op_get sc req owner s h = refl
read-dispatch op_put sc req owner s h = absurd (ground arith)
read-dispatch op_patch sc req owner s h = absurd (ground arith)
read-dispatch op_head sc req owner s h = refl
read-dispatch op_delete sc req owner s h = absurd (ground arith)
read-dispatch op_list sc req owner s h = refl
read-dispatch op_history sc req owner s h = refl
read-dispatch op_directory sc req owner s h = directory_read sc req owner s h
read-dispatch op_batch_put sc req owner s h = absurd (ground arith)
read-dispatch op_access sc req owner s h = absurd (ground arith)
read-dispatch op_restore sc req owner s h = absurd (ground arith)

-- What routing a read leaves, where the router and the handler read what validation read.
read-routed :
    (dec : Decoders) (sc : Scope) (raw name action owner : Text) (s : Tables)
    → dec.operation raw ≡ some name
    → ((req : DocRequest) → dec.request raw ≡ some req → req.directory_action ≡ action)
    → is_write (route name) action ≡ false
    → (routed dec sc raw owner s).0 ≡ s
unfolding routed
read-routed dec sc raw name action owner s same_name same_action h =
    rw (same_name, routed)
      (elim (Option-cases (route name)) [
        | inl e ↦ rw e refl
        | inr (op, e) ↦ elim (Option-cases (dec.request raw)) [
          | inl f ↦ rw (e, f) refl
          | inr (req, f) ↦
              let read : is_write (some op) req.directory_action ≡ false =
                rw (same_action req f) (rw e at h) in
              rw (e, f) (read-dispatch op sc req owner s read)
        ]
      ])

-- A request that names another owner than the connected peer changes no table, whatever its
-- operation, where the router reads the operation that common validation read, and the handler the
-- directory action that it read. The source does not make sure of the first.
pub serve-foreign_owner :
    (dec : Decoders) (sc : Scope) (raw : Text) (env : Envelope) (owner : Text) (s : Tables)
    → dec.envelope raw ≡ some env
    → dec.operation raw ≡ some env.operation
    → ((req : DocRequest)
        → dec.request raw ≡ some req
        → req.directory_action ≡ env.directory_action)
    → sc.lib.access.peer_decode env.owner_peer_id ≡ some owner
    → (sc.caller =ᵗ owner) ≡ false
    → (serve dec sc raw s).0 ≡ s
unfolding serve common_validation validated require_owner
serve-foreign_owner dec sc raw env owner s read same_name same_action parsed other =
    elim (Bool-cases (sc.banned sc.caller)) [
      | inl e ↦ rw (e, serve) refl
      | inr e ↦
          rw (e, serve)
            (elim (Bool-cases (env.owner_peer_id =ᵗ [])) [
              | inl f ↦ rw (read, common_validation) (rw f refl)
              | inr f ↦ rw (read, common_validation) (rw (f, parsed) checked)
            ])
    ]
  where
    checked : (validated dec sc raw env s owner).0 ≡ s
    checked = elim (Bool-cases (needs_path (route env.operation) && not (validate_path env.path))) [
      | inl f ↦ rw (f, validated) refl
      | inr f ↦ elim (Bool-cases (is_write (route env.operation) env.directory_action)) [
        | inl g ↦ rw (f, g, other, validated) refl
        | inr g ↦
            rw (f, g, validated)
              (read-routed dec sc raw env.operation env.directory_action owner s same_name
                same_action g)
      ]
    ]
