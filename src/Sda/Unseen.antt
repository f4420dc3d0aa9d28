-- ===== src/Sda/Unseen.antt =====
-- Changes of the rows of a table that a test does not see.
use go_ricochet.Base.{
  ◌≡◌, refl, inl, inr, Bool, true, Option, none, some, List, [], ◌∷◌, map, arith, Bool-cases, keep,
  find_first, any_of,
}

-- A change that a test does not see, and that leaves alone what passes it.
abbrev pub IsUnseen : {A : Type 0} → (A → Bool) → (A → A) → Type 0
IsUnseen {A} p f = (x : A) → (p (f x) ≡ p x) × (p x ≡ true → f x ≡ x)

pub keep-unseen :
    {A : Type 0} (p : A → Bool) (f : A → A) (xs : List A)
    → IsUnseen p f
    → keep p (map f xs) ≡ keep p xs
keep-unseen p f [] u = refl
keep-unseen p f (x ∷ xs) u = elim (Bool-cases (p x)) [
  | inl e ↦ rw ((u x).0, e) (rw ((u x).1 e, keep-unseen p f xs u) refl)
  | inr e ↦ rw ((u x).0, e) (keep-unseen p f xs u)
]

pub find-unseen :
    {A : Type 0} (p : A → Bool) (f : A → A) (xs : List A)
    → IsUnseen p f
    → find_first p (map f xs) ≡ find_first p xs
find-unseen p f [] u = refl
find-unseen p f (x ∷ xs) u = elim (Bool-cases (p x)) [
  | inl e ↦ rw ((u x).0, e) (rw ((u x).1 e) refl)
  | inr e ↦ rw ((u x).0, e) (find-unseen p f xs u)
]

abbrev pub under : {A : Type 0} → (A → A) → Option A → Option A
under f none = none
under f (some x) = some (f x)

pub find-under :
    {A : Type 0} (p : A → Bool) (f : A → A) (xs : List A)
    → ((x : A) → p (f x) ≡ p x)
    → find_first p (map f xs) ≡ under f (find_first p xs)
find-under p f [] u = refl
find-under p f (x ∷ xs) u = elim (Bool-cases (p x)) [
  | inl e ↦ rw (u x, e) refl
  | inr e ↦ rw (u x, e) (find-under p f xs u)
]

pub any-found :
    {A : Type 0} (p q : A → Bool) (xs : List A) (a : A)
    → find_first p xs ≡ some a
    → q a ≡ true
    → any_of q xs ≡ true
any-found p q [] a e h = absurd (ground arith)
any-found p q (x ∷ xs) a e h = elim (Bool-cases (p x)) [
  | inl f ↦ let found : some x ≡ some a = rw f at e in let is_a : x ≡ a = cc in rw is_a (rw h refl)
  | inr f ↦ let rest = any-found p q xs a (rw f at e) h in rw rest (ground arith)
]
