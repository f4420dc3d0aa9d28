-- ===== src/Documents/Merge.antt =====
-- Merge patches against RFC 7396.
use go_ricochet.Base.{
  ◌≡◌, refl, sym, ap, ◌∙◌, inl, inr, false, Option, none, some, arith, Bool-cases, Option-cases,
  Text, ◌=ᵗ◌,
}
use go_ricochet.Readers.Agree.{text_eq_sym}
use go_ricochet.Documents.Patch.{
  Json, null, object, atom, Members, end, member, lookup, put, remove, object_of, apply_merge_patch,
  merge_member, on_object,
}

-- MergePatch of RFC 7396: a target that is not an object is an empty one.
abbrev pub as_object : Option Json → Members
as_object none = end
as_object (some null) = end
as_object (some (object ms)) = ms
as_object (some (atom t)) = end

unfoldable mutual
  pub rfc_members : Members → Members → Members
  rfc_members target end = target
  rfc_members target (member k v patch) = rfc_members (rfc_member k v target) patch

  pub rfc_member : Text → Json → Members → Members
  rfc_member k null target = remove k target
  rfc_member k (atom t) target = put k (atom t) target
  rfc_member k (object patch) target =
      put k (object (rfc_members (as_object (lookup k target)) patch)) target

-- No member is nil, on any level, and the keys are distinct on each.
unfoldable mutual
  pub IsPlain : Members → Type 0
  IsPlain end = Unit
  IsPlain (member k v ms) = (lookup k ms ≡ none) × IsPlainValue v × IsPlain ms

  pub IsPlainValue : Json → Type 0
  IsPlainValue null = ⊥
  IsPlainValue (object ms) = IsPlain ms
  IsPlainValue (atom t) = Unit

-- Every object of the patch is plain where the target has no object to merge it with.
unfoldable mutual
  pub AddsPlain : Members → Members → Type 0
  AddsPlain target end = Unit
  AddsPlain target (member k v patch) =
      AddsPlainMember k v target × AddsPlain (merge_member k v target) patch

  pub AddsPlainMember : Text → Json → Members → Type 0
  AddsPlainMember k null target = Unit
  AddsPlainMember k (atom t) target = Unit
  AddsPlainMember k (object patch) target =
      on_object (object_of (lookup k target)) (IsPlain patch) (λ old. AddsPlain old patch)

join : Members → Members → Members
join end ms = ms
join (member k v ns) ms = member k v (join ns ms)

join-end : (ms : Members) → join ms end ≡ ms
unfolding join
join-end end = refl
join-end (member k v ms) = ap (member k v) (join-end ms)

put-new :
    (k : Text) (v : Json) (ms : Members)
    → lookup k ms ≡ none
    → put k v ms ≡ join ms (member k v end)
unfolding put lookup join
put-new k v end h = refl
put-new k v (member j w ms) h = elim (Bool-cases (j =ᵗ k)) [
  | inl e ↦ let found : some w ≡ none = rw e at h in absurd (ground arith)
  | inr e ↦ rw e (ap (member j w) (put-new k v ms (rw e at h)))
]

join-member :
    (k : Text) (v : Json) (ns ms : Members)
    → join (join ns (member k v end)) ms ≡ join ns (member k v ms)
unfolding join
join-member k v end ms = refl
join-member k v (member j w ns) ms = ap (member j w) (join-member k v ns ms)

-- None of the keys of a map is in the other.
IsFresh : Members → Members → Type 0
IsFresh ns end = Unit
IsFresh ns (member k v ms) = (lookup k ns ≡ none) × IsFresh ns ms

lookup-join :
    (j k : Text) (v : Json) (ns : Members)
    → lookup j ns ≡ none
    → (k =ᵗ j) ≡ false
    → lookup j (join ns (member k v end)) ≡ none
unfolding lookup join
lookup-join j k v end h e = rw e refl
lookup-join j k v (member i w ns) h e = elim (Bool-cases (i =ᵗ j)) [
  | inl f ↦ let found : some w ≡ none = rw f at h in absurd (ground arith)
  | inr f ↦ rw f (lookup-join j k v ns (rw f at h) e)
]

IsFresh-join :
    (k : Text) (v : Json) (ns ms : Members)
    → lookup k ms ≡ none
    → IsFresh ns ms
    → IsFresh (join ns (member k v end)) ms
unfolding IsFresh lookup
IsFresh-join k v ns end h f = tt
IsFresh-join k v ns (member j w ms) h f = elim (Bool-cases (j =ᵗ k)) [
  | inl e ↦ let found : some w ≡ none = rw e at h in absurd (ground arith)
  | inr e ↦
      let other = text_eq_sym k j ∙ e in
      (lookup-join j k v ns f.0 other, IsFresh-join k v ns ms (rw e at h) f.1)
]

IsFresh-end : (ms : Members) → IsFresh end ms
unfolding IsFresh lookup
IsFresh-end end = tt
IsFresh-end (member k v ms) = (refl, IsFresh-end ms)

-- A plain patch is added as it is to a map without its keys.
plain-rfc :
    (patch acc : Members)
    → IsPlain patch
    → IsFresh acc patch
    → rfc_members acc patch ≡ join acc patch
unfolding rfc_members IsPlain IsFresh join
plain-rfc end acc p f = sym (join-end acc)
plain-rfc (member k null ms) acc p f = absurd p.1
plain-rfc (member k (atom t) ms) acc p f =
    let new = put-new k (atom t) acc f.0 in
    rw new (
      plain-rfc ms (join acc (member k (atom t) end)) p.2 (IsFresh-join k (atom t) acc ms p.0 f.1)
      ∙ join-member k (atom t) acc ms)
plain-rfc (member k (object q) ms) acc p f =
    let inner = plain-rfc q end p.1 (IsFresh-end q) in
    let v = object q in
    let new = put-new k v acc f.0 in
    rw (f.0, inner)
      (rw new (
        plain-rfc ms (join acc (member k v end)) p.2 (IsFresh-join k v acc ms p.0 f.1)
        ∙ join-member k v acc ms))

as-object : (o : Option Json) (ms : Members) → object_of o ≡ some ms → as_object o ≡ ms
as-object none ms e = absurd (ground arith)
as-object (some null) ms e = absurd (ground arith)
as-object (some (object ns)) ms e = cc
as-object (some (atom t)) ms e = absurd (ground arith)

as-object_none : (o : Option Json) → object_of o ≡ none → as_object o ≡ end
as-object_none none e = refl
as-object_none (some null) e = refl
as-object_none (some (object ns)) e = absurd (ground arith)
as-object_none (some (atom t)) e = refl

-- The merge of the code is that of RFC 7396 for every patch whose objects, where the target has no
-- object to merge them with, have no nil member on any level.
pub apply_merge_patch-rfc :
    (patch target : Members)
    → AddsPlain target patch
    → apply_merge_patch target patch ≡ rfc_members target patch
unfolding apply_merge_patch rfc_members AddsPlain join
apply_merge_patch-rfc end target a = refl
apply_merge_patch-rfc (member k null ms) target a = apply_merge_patch-rfc ms (remove k target) a.1
apply_merge_patch-rfc (member k (atom t) ms) target a =
    apply_merge_patch-rfc ms (put k (atom t) target) a.1
apply_merge_patch-rfc (member k (object q) ms) target a =
    elim (Option-cases (object_of (lookup k target))) [
      | inl e ↦
          let plain : IsPlain q = rw e at a.0 in
          let whole = plain-rfc q end plain (IsFresh-end q) in
          let rest = apply_merge_patch-rfc ms (put k (object q) target) (rw e at a.1) in
          rw (e, as-object_none (lookup k target) e) (rw whole rest)
      | inr (old, e) ↦
          let given : AddsPlain old q = rw e at a.0 in
          let inner = apply_merge_patch-rfc q old given in
          let both : AddsPlain (put k (object (apply_merge_patch old q)) target) ms = rw e at a.1 in
          let rest = apply_merge_patch-rfc ms _ both in
          rw (e, as-object (lookup k target) old e)
            (rest ∙ ap (λ z. rfc_members (put k (object z) target) ms) inner)
    ]
