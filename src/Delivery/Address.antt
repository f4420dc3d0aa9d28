-- ===== src/Delivery/Address.antt =====
-- internal/core/mailbox.go: mailbox addresses and the folder paths that they take.
use go_ricochet.Base.{
  ℕ, ◌≡◌, refl, ◌∙◌, inl, inr, Bool, true, false, not, ◌&&◌, ◌||◌, Option, none, some, List, [],
  ◌∷◌, ◌++◌, arith, ltb, leb, ◌==◌, if◌then◌else◌, Bool-cases, length, any_of, Text,
}
use go_ricochet.Wire.{MailboxType}

-- `utf8.ValidString`, and whether a character of the text is `unicode.IsControl`.
pub record TextTests : Type 0 where
  pub is_valid : Text → Bool
  pub has_control : Text → Bool

pub record MailboxAddress : Type 0 where
  pub owner : Text
  pub folder : Text
  pub mailbox_type : MailboxType

abbrev pub slash : ℕ
slash = 47

-- `FullPath`
unfoldable pub full_path : Text → Text → Text
full_path owner folder = owner ++ slash ∷ folder

abbrev pub max_folder_path_length : ℕ
max_folder_path_length = 256

abbrev pub is_empty : Text → Bool
is_empty [] = true
is_empty (c ∷ cs) = false

abbrev pub has_slash_prefix : Text → Bool
has_slash_prefix [] = false
has_slash_prefix (c ∷ cs) = c == slash

abbrev pub has_slash_suffix : Text → Bool
has_slash_suffix [] = false
has_slash_suffix (c ∷ cs) = if is_empty cs then c == slash else has_slash_suffix cs

abbrev pub has_double_slash : Text → Bool
has_double_slash [] = false
has_double_slash (c ∷ cs) = (c == slash && has_slash_prefix cs) || has_double_slash cs

-- `validateFolderPath`: true where it returns no error.
unfoldable pub validate_folder_path : TextTests → Text → Bool
validate_folder_path tests path =
    if is_empty path
    then false
    else if ltb max_folder_path_length (length path)
    then false
    else if not (tests.is_valid path)
    then false
    else if tests.has_control path
    then false
    else if has_slash_prefix path
    then false
    else if has_slash_suffix path
    then false
    else not (has_double_slash path)

-- `NewMailboxAddress`
unfoldable pub new_mailbox_address : TextTests → Text → Text → MailboxType → Option MailboxAddress
new_mailbox_address tests owner folder type =
    if validate_folder_path tests folder
    then some (record { owner = owner; folder = folder; mailbox_type = type })
    else none

-- The parts of a path between its slashes.
abbrev pub put_first : ℕ → List Text → List Text
put_first c [] = (c ∷ []) ∷ []
put_first c (s ∷ ss) = (c ∷ s) ∷ ss

pub segments : Text → List Text
segments [] = [] ∷ []
segments (c ∷ cs) = if c == slash then [] ∷ segments cs else put_first c (segments cs)

abbrev pub none_empty : List Text → Bool
none_empty ss = not (any_of is_empty ss)

abbrev rest_of : List Text → List Text
rest_of [] = []
rest_of (s ∷ ss) = ss

put_first-none :
    (c : ℕ) (ss : List Text)
    → (none_empty (put_first c ss) ≡ none_empty (rest_of ss))
      × (none_empty (rest_of (put_first c ss)) ≡ none_empty (rest_of ss))
put_first-none c [] = (refl, refl)
put_first-none c (s ∷ ss) = (refl, refl)

abbrev clean : Text → Bool
clean p = not (has_slash_suffix p) && not (has_double_slash p)

abbrev proper : Text → Bool
proper p = not (is_empty p) && (not (has_slash_prefix p) && clean p)

segments-clean :
    (p : Text)
    → (none_empty (segments p) ≡ proper p) × (none_empty (rest_of (segments p)) ≡ clean p)
unfolding segments
segments-clean [] = (refl, refl)
segments-clean (c ∷ []) = elim (Bool-cases (c == slash)) [
  | inl e ↦ rw e (refl, refl)
  | inr e ↦ rw e (refl, refl)
]
segments-clean (c ∷ d ∷ cs) =
    let ih = segments-clean (d ∷ cs) in
    elim (Bool-cases (c == slash)) [
      | inl e ↦ rw e (refl, ground (arith, ih))
      | inr e ↦
          let p = put_first-none c (segments (d ∷ cs)) in
          rw e (p.0 ∙ (ih.1 ∙ ground arith), p.1 ∙ (ih.1 ∙ ground arith))
    ]

-- A folder path is accepted exactly where it has at most 256 bytes, is valid UTF-8, has no control
-- character, and each of its parts between slashes is non-empty.
pub validate_folder_path_lem :
    (tests : TextTests) (path : Text)
    → validate_folder_path tests path ≡ (
        leb (length path) 256
        && (tests.is_valid path && (not (tests.has_control path) && none_empty (segments path))))
unfolding validate_folder_path
validate_folder_path_lem tests path = let parts = segments-clean path in rw parts.0 (ground arith)

-- Addresses whose owners have no slash in their encoding have the same full path only where they
-- have the same owner and folder.
pub full_path-injective :
    (o p f g : Text)
    → any_of (λ c. c == slash) o ≡ false
    → any_of (λ c. c == slash) p ≡ false
    → full_path o f ≡ full_path p g
    → (o ≡ p) × (f ≡ g)
unfolding full_path
full_path-injective [] [] f g h k e = (refl, cc)
full_path-injective [] (c ∷ cs) f g h k e = absurd (ground arith)
full_path-injective (c ∷ cs) [] f g h k e = absurd (ground arith)
full_path-injective (c ∷ cs) (d ∷ ds) f g h k e =
    let ih = full_path-injective cs ds f g (ground arith) (ground arith) cc in
    let same : c ≡ d = cc in (cc, ih.1)
