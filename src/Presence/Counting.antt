-- ===== src/Presence/Counting.antt =====
-- As many distinct pages as there are, are all of them.
use go_ricochet.Base.{
  ℕ, zero, suc, ◌+◌, ◌≤◌, ◌<◌, ◌≡◌, refl, sym, ap, ◌∙◌, subst, ◌≢◌, inl, inr, Bool, false, not,
  ◌&&◌, ◌||◌, List, [], ◌∷◌, ◌++◌, arith, ◌==◌, Bool-cases, length, keep, any_of, All, AllPairs,
  AllPairs-keep,
}
use go_ricochet.Presence.{range, mem_page}

abbrev pub Distinct : List ℕ → Type 0
Distinct = AllPairs (λ a b. a ≢ b)

abbrev others : ℕ → List ℕ → List ℕ
others n = keep (λ q. not (q == n))

others_below : (n : ℕ) (ps : List ℕ) → All (λ p. p < suc n) ps → All (λ p. p < n) (others n ps)
others_below n [] h = tt
others_below n (p ∷ ps) h = elim (Bool-cases (p == n)) [
  | inl e ↦ rw e (others_below n ps h.1)
  | inr e ↦ rw e (ground arith, others_below n ps h.1)
]

others_none : (n : ℕ) (ps : List ℕ) → All (λ q. n ≢ q) ps → others n ps ≡ ps
others_none n [] h = refl
others_none n (p ∷ ps) h =
    let other : (p == n) ≡ false = ground arith in rw other (ap (λ r. p ∷ r) (others_none n ps h.1))

others-length : (n : ℕ) (ps : List ℕ) → Distinct ps → length ps ≤ length (others n ps) + 1
others-length n [] h = omega arith
others-length n (p ∷ ps) h = elim (Bool-cases (p == n)) [
  | inl e ↦
      let same : p ≡ n = ground arith in
      let kept = others_none n ps (subst (λ k. All (λ q. k ≢ q) ps) same h.0) in
      rw e (omega (arith, ap length kept))
  | inr e ↦ let ih = others-length n ps h.1 in rw e (omega (arith, ih))
]

length-bound : (n : ℕ) (ps : List ℕ) → Distinct ps → All (λ p. p < n) ps → length ps ≤ n
length-bound zero [] d h = omega arith
length-bound zero (p ∷ ps) d h = absurd (omega (arith, h.0))
length-bound (suc n) ps d h =
    let ih =
      length-bound n (others n ps) (AllPairs-keep (λ a b. a ≢ b) _ ps d) (others_below n ps h) in
    let one = others-length n ps d in omega (arith, ih, one)

any-others :
    (f : ℕ → Bool) (n : ℕ) (ps : List ℕ)
    → any_of f ps ≡ (any_of f (others n ps) || (mem_page n ps && f n))
any-others f n [] = refl
any-others f n (p ∷ ps) = elim (Bool-cases (p == n)) [
  | inl e ↦
      let same : p ≡ n = ground arith in
      let ih = any-others f n ps in rw e (rw same (ground (arith, ih)))
  | inr e ↦ let ih = any-others f n ps in rw e (ground (arith, ih))
]

pub absent : (n : ℕ) (ps : List ℕ) → mem_page n ps ≡ false → All (λ q. n ≢ q) ps
absent n [] h = tt
absent n (p ∷ ps) h = (λ e. absurd (ground arith), absent n ps (ground arith))

any-snoc : (f : ℕ → Bool) (ps : List ℕ) (n : ℕ) → any_of f (ps ++ n ∷ []) ≡ (any_of f ps || f n)
any-snoc f [] n = ground arith
any-snoc f (p ∷ ps) n = ground (arith, any-snoc f ps n)

pub any-range :
    (f : ℕ → Bool) (n : ℕ) (ps : List ℕ)
    → Distinct ps
    → All (λ p. p < n) ps
    → n ≤ length ps
    → any_of f ps ≡ any_of f (range n)
unfolding range
any-range f zero [] d h long = refl
any-range f zero (p ∷ ps) d h long = absurd (omega (arith, h.0))
any-range f (suc n) ps d h long =
    let rest = others n ps in
    let one = others-length n ps d in
    let distinct = AllPairs-keep (λ a b. a ≢ b) (λ q. not (q == n)) ps d in
    let below = others_below n ps h in
    let bound = length-bound n rest distinct below in
    let ih = any-range f n rest distinct below (omega (arith, one, long)) in
    elim (Bool-cases (mem_page n ps)) [
      | inr missing ↦
          let same = others_none n ps (absent n ps missing) in
          absurd (omega (arith, ap length same, bound, long))
      | inl there ↦ any-others f n ps ∙ (rw (there, ih) (sym (any-snoc f (range n) n)))
    ]
