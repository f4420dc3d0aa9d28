-- ===== src/Readers/Agree.antt =====
-- The SQL predicate of the lists and the check of the reads are one rule.
use go_ricochet.Base.{
  ℕ, ◌≡◌, refl, sym, ap, ◌∙◌, inl, inr, Bool, true, false, not, ◌&&◌, ◌||◌, List, [], ◌∷◌, arith,
  Bool-cases, Text, ◌=ᵗ◌,
}
use go_ricochet.Readers.{
  Visibility, private, shared, public, unknown, ReaderRow, Resource, is_store_reader, readable_by,
  granted_by, require_reader, hidden_owner,
}

pub text_eq_sym : (s t : Text) → (s =ᵗ t) ≡ (t =ᵗ s)
unfolding ◌=ᵗ◌
text_eq_sym [] [] = refl
text_eq_sym [] (y ∷ ys) = refl
text_eq_sym (x ∷ xs) [] = refl
text_eq_sym (x ∷ xs) (y ∷ ys) = ground (arith, text_eq_sym xs ys)

by_visibility :
    (reader : Text) (acls : List ReaderRow) (i : ℕ) (o : Text) (v : Visibility)
    → readable_by reader acls (record { id = i; owner = o; visibility = v })
      ≡ (o =ᵗ reader || granted_by reader acls i v)
unfolding readable_by granted_by is_store_reader
by_visibility reader acls i o private = ground arith
by_visibility reader acls i o shared = ground arith
by_visibility reader acls i o public = ground arith
by_visibility reader acls i o (unknown n) = ground arith

-- A list shows a document, feed or collection to a caller exactly where a read of it lets the caller
-- through: the owner's list is not hidden from the caller and the SQL predicate admits the row.
pub readable_by-require_reader :
    (banned : Text → Bool) (caller : Text) (acls : List ReaderRow) (r : Resource)
    → (not (hidden_owner banned caller r.owner) && readable_by caller acls r)
      ≡ require_reader banned caller acls r
unfolding require_reader hidden_owner
readable_by-require_reader banned caller acls r =
    let rule = by_visibility caller acls r.id r.owner r.visibility in
    let same = text_eq_sym caller r.owner in
    elim (Bool-cases (caller =ᵗ r.owner)) [
      | inl e ↦ let e' : (r.owner =ᵗ caller) ≡ true = sym same ∙ e in rw e (rule ∙ ground arith)
      | inr e ↦
          let e' : (r.owner =ᵗ caller) ≡ false = sym same ∙ e in
          rw e (ap (λ b. not (true && banned r.owner) && b) rule ∙ ground arith)
    ]
