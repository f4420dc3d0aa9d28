-- ===== src/Documents/Patch.antt =====
-- JSON objects and `applyMergePatch` of internal/storage/postgres/postgres.go.
use go_ricochet.Base.{Option, none, some, if◌then◌else◌, Text, ◌=ᵗ◌}

-- An `any` of encoding/json: nil, a map, or a value that is neither, by its encoding. The members of
-- a map are a list with distinct keys.
mutual
  pub data Json : Type 0 where
    null : Json
    object : Members → Json
    atom : Text → Json

  pub data Members : Type 0 where
    end : Members
    member : Text → Json → Members → Members

-- `m[k]`
unfoldable pub lookup : Text → Members → Option Json
lookup k end = none
lookup k (member j v ms) = if j =ᵗ k then some v else lookup k ms

-- `m[k] = v`
unfoldable pub put : Text → Json → Members → Members
put k v end = member k v end
put k v (member j w ms) = let rest = put k v ms in if j =ᵗ k then member j v ms else member j w rest

-- `delete(m, k)`
unfoldable pub remove : Text → Members → Members
remove k end = end
remove k (member j w ms) = let rest = remove k ms in if j =ᵗ k then rest else member j w rest

-- What a member of the patch that is an object is merged with: the target's member, if it is one.
abbrev pub object_of : Option Json → Option Members
object_of none = none
object_of (some null) = none
object_of (some (object ms)) = some ms
object_of (some (atom t)) = none

-- By whether the target has an object to merge with.
abbrev pub on_object {ℓ} : {A : Type ℓ} → Option Members → A → (Members → A) → A
on_object none a f = a
on_object (some ms) a f = f ms

-- `applyMergePatch`: `merge_member` is one round of its second loop.
unfoldable mutual
  pub apply_merge_patch : Members → Members → Members
  apply_merge_patch target end = target
  apply_merge_patch target (member k v patch) = apply_merge_patch (merge_member k v target) patch

  pub merge_member : Text → Json → Members → Members
  merge_member k null result = remove k result
  merge_member k (atom t) result = put k (atom t) result
  merge_member k (object patch) result =
      put k
        (object (
          on_object (object_of (lookup k result)) patch (λ target. apply_merge_patch target patch)))
        result
