-- ===== src/Status/Tests.antt =====
-- A refusal wrapped by the database's words.
use go_ricochet.Base.{◌≡◌, refl, some, List, [], ◌∷◌, map, codes, pos}
use go_ricochet.Status.{
  Cause, unauthorized, document_conflict, unrecognised, overloaded_error, overloaded, recognised,
  classify, Wording, client_message, retry_after_ms,
}
use go_ricochet.Status.Redacted.{redact, client_message-redact}

abbrev words : Wording
words = record {
  of_cause = λ c. codes "known";
  of_chain = λ cs. codes "whole";
  of_path = λ cs. codes "path";
}

abbrev wrapped : List Cause
wrapped = unrecognised (codes "pq: table") ∷ document_conflict ∷ unauthorized ∷ []

-- The first in the table decides, not the first in the chain.
refused : classify (some wrapped) ≡ (403, pos 0)
unfolding classify recognised
refused = refl

-- A hint of half a millisecond is sent as one.
hint :
    (classify (some (overloaded_error (pos 500000) ∷ overloaded ∷ [])) ≡ (503, pos 500000))
    × (retry_after_ms (pos 500000) ≡ 1)
unfolding classify recognised retry_after_ms
hint = (refl, refl)

client_message-redact_example :
    (classify (some (map (redact (λ c. [])) wrapped)) ≡ classify (some wrapped))
    × (client_message words (some (map (redact (λ c. [])) wrapped))
        ≡ client_message words (some wrapped))
unfolding recognised
client_message-redact_example = client_message-redact words (λ c. []) wrapped refl
