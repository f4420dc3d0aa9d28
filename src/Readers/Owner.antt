-- ===== src/Readers/Owner.antt =====
-- What the ACCESS operation changes.
use go_ricochet.Base.{
  ℕ, ◌≡◌, refl, sym, ap, ◌∙◌, ◌≢◌, ◌⊎◌, inl, inr, true, false, not, ◌||◌, List, [], ◌∷◌, ◌++◌,
  arith, Bool-cases, keep, any_of, Text, ◌=ᵗ◌, text_eq_refl, text_eq→eq,
}
use go_ricochet.Readers.{
  ReaderRow, names_reader, is_store_reader, grant_store_reader, revoke_store_reader,
}

reader-snoc :
    (i : ℕ) (reader : Text) (acls : List ReaderRow) (a : ReaderRow)
    → any_of (names_reader i reader) (acls ++ a ∷ [])
      ≡ (any_of (names_reader i reader) acls || names_reader i reader a)
reader-snoc i reader [] a = ground arith
reader-snoc i reader (x ∷ xs) a = ground (arith, reader-snoc i reader xs a)

revoked_none :
    (i : ℕ) (reader : Text) (acls : List ReaderRow)
    → any_of (names_reader i reader) (keep (λ a. not (names_reader i reader a)) acls) ≡ false
revoked_none i reader [] = refl
revoked_none i reader (x ∷ xs) = ground (arith, revoked_none i reader xs)

other_reader :
    (i j : ℕ) (p q : Text) (a : ReaderRow)
    → (i ≢ j) ⊎ (p ≢ q)
    → names_reader i p a ≡ true
    → names_reader j q a ≡ false
other_reader i j p q a (inl ne) h = ground arith
other_reader i j p q a (inr ne) h = elim (Bool-cases (a.peer =ᵗ q)) [
  | inr e ↦ ground arith
  | inl e ↦
      let is_q = text_eq→eq a.peer q e in
      let is_p = text_eq→eq a.peer p (ground arith) in absurd (ne (sym is_p ∙ is_q))
]

revoked_others :
    (i j : ℕ) (p q : Text) (acls : List ReaderRow)
    → (i ≢ j) ⊎ (p ≢ q)
    → any_of (names_reader j q) (keep (λ a. not (names_reader i p a)) acls)
      ≡ any_of (names_reader j q) acls
revoked_others i j p q [] ne = refl
revoked_others i j p q (x ∷ xs) ne = elim (Bool-cases (names_reader i p x)) [
  | inl e ↦ let miss = other_reader i j p q x ne e in rw (e, miss) (revoked_others i j p q xs ne)
  | inr e ↦ rw e (ap (λ b. names_reader j q x || b) (revoked_others i j p q xs ne))
]

-- A grant makes the peer a reader and a revocation ends it, whatever the list held; neither changes
-- whether another peer is a reader, or the readers of another document, feed or collection.
pub readers_lem :
    (now i j : ℕ) (p q : Text) (acls : List ReaderRow)
    → (i ≢ j) ⊎ (p ≢ q)
    → (is_store_reader i p (grant_store_reader now i p acls) ≡ true)
      × (is_store_reader i p (revoke_store_reader i p acls) ≡ false)
      × (is_store_reader j q (grant_store_reader now i p acls) ≡ is_store_reader j q acls)
      × (is_store_reader j q (revoke_store_reader i p acls) ≡ is_store_reader j q acls)
unfolding is_store_reader grant_store_reader revoke_store_reader
readers_lem now i j p q acls ne =
    let new : ReaderRow = record { store_id = i; peer = p; granted_at = now } in
    let self : names_reader i p new ≡ true = ground (arith, text_eq_refl p) in
    (
      elim (Bool-cases (any_of (names_reader i p) acls)) [
        | inl e ↦ rw e e
        | inr e ↦ rw e (reader-snoc i p acls new ∙ ground arith)
      ],
      revoked_none i p acls,
      elim (Bool-cases (any_of (names_reader i p) acls)) [
        | inl e ↦ rw e refl
        | inr e ↦
            let miss = other_reader i j p q new ne self in
            rw e (reader-snoc j q acls new ∙ ground arith)
      ],
      revoked_others i j p q acls ne,
    )
