-- ===== src/Delivery/SmallCache.antt =====
-- A cache of a single entry, which has what the delivery agent uses of its LRU cache.
use go_ricochet.Base.{
  ℕ, ◌-◌, ◌≡◌, refl, sym, ◌⊎◌, inl, inr, true, false, Option, none, some, [], ◌∷◌, arith, ltb,
  if◌then◌else◌, Bool-cases, any_of, Text, codes, ◌=ᵗ◌, text_eq→eq, pos,
}
use go_ricochet.Wire.{Message}
use go_ricochet.Store.Rows.{MailboxRow}
use go_ricochet.Delivery.{Cache, Setup}

abbrev pub Slot : Type 0
Slot = Option (Text × MailboxRow)

abbrev pub slot_peek : Text → Slot → Option MailboxRow
slot_peek k none = none
slot_peek k (some (j, m)) = if j =ᵗ k then some m else none

abbrev pub slot_remove : Text → Slot → Slot
slot_remove k none = none
slot_remove k (some (j, m)) = if j =ᵗ k then none else some (j, m)

pub slot-add :
    (j k : Text) (m r : MailboxRow) (c : Slot)
    → slot_peek j (some (k, m)) ≡ some r
    → ((j ≡ k) × (r ≡ m)) ⊎ (slot_peek j c ≡ some r)
slot-add j k m r c e = elim (Bool-cases (k =ᵗ j)) [
  | inl h ↦ let same : some m ≡ some r = rw h at e in inl (sym (text_eq→eq k j h), cc)
  | inr h ↦ let same : none ≡ some r = rw h at e in absurd (ground arith)
]

pub slot-drops : (k : Text) (c : Slot) → slot_peek k (slot_remove k c) ≡ none
slot-drops k none = refl
slot-drops k (some (j, m)) = elim (Bool-cases (j =ᵗ k)) [
  | inl h ↦ rw h refl
  | inr h ↦ rw h (rw h refl)
]

pub slot-holds :
    (j k : Text) (r : MailboxRow) (c : Slot)
    → slot_peek j (slot_remove k c) ≡ some r
    → slot_peek j c ≡ some r
slot-holds j k r none e = e
slot-holds j k r (some (i, m)) e = elim (Bool-cases (i =ᵗ k)) [
  | inl h ↦ let same : none ≡ some r = rw h at e in absurd (ground arith)
  | inr h ↦ rw h at e
]

abbrev pub small_cache : Cache Slot
small_cache = record {
  peek = slot_peek;
  lookup = λ k c. (c, slot_peek k c);
  add = λ k m c. some (k, m);
  remove = slot_remove;
  lookup_result = λ k c. refl;
  lookup_keeps = λ j k c. refl;
  add_holds = slot-add;
  remove_drops = slot-drops;
  remove_holds = slot-holds;
}

-- A server whose names are their own encodings and whose messages take 10 bytes each, with two
-- mailboxes for an owner and a bucket of claims that counts down.
abbrev pub small_setup : Setup Slot ℕ
small_setup = record {
  cache = small_cache;
  allow = λ now mid left. (left - 1, ltb 0 left);
  library = record { peer_decode = λ t. some t; json_size = λ m. some 10 };
  text_tests = record { is_valid = λ t. true; has_control = any_of (λ c. ltb c 32) };
  defaults = record {
    max_messages = pos 3;
    retention_days = pos 30;
    max_per_owner = pos 2;
    max_mailboxes = pos 5;
  };
}

abbrev pub letter : Text → Text → Message
letter id folder = record {
  message_id = id;
  recipient = codes "bob";
  sender = codes "ann";
  payload = 1 ∷ 2 ∷ [];
  priority = 1;
  expiry = pos 0;
  hop_count = pos 0;
  flags = 0;
  created = pos 5;
  folder_path = folder;
  sequence = 0;
  msg_flags = 0;
  persistent = false;
}
