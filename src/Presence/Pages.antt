-- ===== src/Presence/Pages.antt =====
-- The pages of a heartbeat carry the whole online set.
use go_ricochet.Base.{
  ℕ, zero, suc, ◌+◌, ◌-◌, ◌*◌, ◌/◌, ◌≤◌, ◌<◌, max, ◌≡◌, refl, sym, ap, ◌∙◌, Bool, ◌||◌, List, [],
  ◌∷◌, ◌++◌, arith, length, take, drop, any_of, take_all, Text, mem_text,
}
use native.Mathlib.Nat.{lt-div-mul-add}
use go_ricochet.Presence.{range, slice, pages_of}

any-append :
    {A : Type 0} (p : A → Bool) (xs ys : List A)
    → any_of p (xs ++ ys) ≡ (any_of p xs || any_of p ys)
any-append p [] ys = refl
any-append p (x ∷ xs) ys = ground (arith, any-append p xs ys)

module _ {A : Type 0} where
  take_none : (k : ℕ) → take {A = A} k [] ≡ []
  take_none zero = refl
  take_none (suc k) = refl

  take-plus : (m n : ℕ) (xs : List A) → take (m + n) xs ≡ take m xs ++ take n (drop m xs)
  take-plus zero n xs = ap (λ k. take k xs) (omega arith)
  take-plus (suc m) n [] = take_none (suc m + n) ∙ sym (take_none n)
  take-plus (suc m) n (x ∷ xs) =
      let next : suc m + n ≡ suc (m + n) = omega arith in
      ap (λ k. take k (x ∷ xs)) next ∙ ap (λ r. x ∷ r) (take-plus m n xs)

pub mem-append :
    (x : Text) (xs ys : List Text) → mem_text x (xs ++ ys) ≡ (mem_text x xs || mem_text x ys)
mem-append x [] ys = refl
mem-append x (y ∷ xs) ys = ground (arith, mem-append x xs ys)

next_start : (k size : ℕ) → suc k * size ≡ k * size + size
next_start k size = omega arith

-- The first pages together are a first part of the set.
slices-take :
    (x : Text) (size k : ℕ) (ids : List Text)
    → any_of (λ p. mem_text x (slice size ids p)) (range k) ≡ mem_text x (take (k * size) ids)
unfolding range slice
slices-take x size zero ids = let none_yet : 0 * size ≡ 0 = omega arith in rw none_yet refl
slices-take x size (suc k) ids =
    let ih = slices-take x size k ids in
    let split : take (suc k * size) ids ≡ take (k * size) ids ++ take size (drop (k * size) ids) =
      ap (λ n. take n ids) (next_start k size) ∙ take-plus (k * size) size ids in
    any-append (λ p. mem_text x (slice size ids p)) (range k) (k ∷ [])
    ∙ (rw (ih, split, mem-append x (take (k * size) ids) (take size (drop (k * size) ids)))
        (ground arith))

enough_pages : (n size : ℕ) → 0 < size → n ≤ pages_of n size * size
unfolding pages_of
enough_pages n size h =
    let q = (n + size - 1) / size in
    let above : n + size - 1 < q * size + size = lt-div-mul-add h in
    let most : q * size ≤ max 1 q * size = mul-mono q (max 1 q) size (omega arith) in
    omega (arith, above, most)
  where
    mul-mono : (a b c : ℕ) → a ≤ b → a * c ≤ b * c
    mul-mono a b zero k = omega arith
    mul-mono a b (suc c) k = let ih = mul-mono a b c k in omega (arith, ih)

-- All pages together are the set.
pub slices-all :
    (x : Text) (size : ℕ) (ids : List Text)
    → 0 < size
    → any_of (λ p. mem_text x (slice size ids p)) (range (pages_of (length ids) size))
      ≡ mem_text x ids
slices-all x size ids h =
    slices-take x size (pages_of (length ids) size) ids
    ∙ ap (mem_text x)
        (take_all (pages_of (length ids) size * size) ids (enough_pages (length ids) size h))
