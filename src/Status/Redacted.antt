-- ===== src/Status/Redacted.antt =====
-- What a client learns of an error that the table does not name: nothing, but where a refused path,
-- filter or content shows the error that it wraps or is part of.
use go_ricochet.Base.{
  ℕ, ◌≡◌, refl, ap, inl, inr, false, Option, none, some, List, [], ◌∷◌, map, arith, Option-cases,
  Text,
}
use go_ricochet.Status.{
  Cause, unrecognised, place, verdict, better, recognised, classify, is_filter, is_path,
  shows_chain, Wording, wording, or_phrase, client_message,
}

-- Another text for each error that the table does not name.
abbrev pub reworded : Option ℕ → Text → Cause → Cause
reworded none t c = unrecognised t
reworded (some n) t c = c

abbrev pub redact : (Cause → Text) → Cause → Cause
redact f c = reworded (place c) (f c) c

better-unnamed :
    (c d : Cause) (r : Option Cause) → place c ≡ none → place d ≡ none → better c r ≡ better d r
better-unnamed c d none h k = rw (h, k) refl
better-unnamed c d (some e) h k = rw (h, k) refl

recognised-redact :
    (f : Cause → Text) (chain : List Cause) → recognised (map (redact f) chain) ≡ recognised chain
unfolding recognised
recognised-redact f [] = refl
recognised-redact f (c ∷ cs) = elim (Option-cases (place c)) [
  | inl h ↦
      rw (h, recognised-redact f cs) (better-unnamed (unrecognised (f c)) c (recognised cs) refl h)
  | inr (n, h) ↦ rw (h, recognised-redact f cs) refl
]

other_wording :
    (w : Wording) (xs ys : List Cause) (c : Cause)
    → shows_chain (some c) ≡ false
    → wording w xs c ≡ wording w ys c
other_wording w xs ys c h =
    let filter : is_filter c ≡ false = ground arith in
    let path : is_path c ≡ false = ground arith in rw (filter, path) refl

-- The status, the hint and the message of an error stay the same whatever the texts of the errors in
-- it that the table does not name, where the condition that decides is not a refused filter or
-- content, whose message is the whole error's, nor a refused path, whose message has the text of the
-- error that it wraps.
pub client_message-redact :
    (w : Wording) (f : Cause → Text) (chain : List Cause)
    → shows_chain (recognised chain) ≡ false
    → (classify (some (map (redact f) chain)) ≡ classify (some chain))
      × (client_message w (some (map (redact f) chain)) ≡ client_message w (some chain))
unfolding classify client_message
client_message-redact w f chain h =
    let same = recognised-redact f chain in
    elim (Option-cases (recognised chain)) [
      | inl e ↦ (rw (classify, same) refl, rw (client_message, same, e) refl)
      | inr (c, e) ↦ (
        rw (classify, same) refl,
        rw (client_message, same, e)
            (ap (λ t. or_phrase t (verdict c).0)
              (other_wording w (map (redact f) chain) chain c (rw e at h))),
      )
    ]
