-- ===== src/Frame/RoundTrip.antt =====
-- Reading a frame undoes writing it, and what is read was framed.
use go_ricochet.Base.{
  ℕ, ◌+◌, ◌*◌, ◌/◌, ◌%◌, ◌^◌, ◌≤◌, ◌<◌, ◌≡◌, refl, sym, ap, ◌∙◌, inl, inr, false, Option, none,
  some, [], ◌∷◌, ◌++◌, append_assoc, arith, ltb, Bool-cases, Option-cases, length, take, drop, All,
  length-append, length-take, take-append-drop, take-length_append, drop-length_append, Text,
}
use go_ricochet.Frame.{
  max_frame_size, put_u32, get_u32, Result, ok, err, too_large, short_length, short_data,
  write_frame, read_full, read_body, read_frame,
}

pub get_u32-put_u32 : (n : ℕ) → n < 2 ^ 32 → get_u32 (put_u32 n) ≡ n
unfolding get_u32 put_u32
get_u32-put_u32 n h = omega arith

pub get_u32-append : (n : ℕ) (rest : Text) → get_u32 (put_u32 n ++ rest) ≡ get_u32 (put_u32 n)
unfolding get_u32 put_u32
get_u32-append n rest = refl

pub length-put_u32 : (n : ℕ) → length (put_u32 n) ≡ 4
unfolding put_u32
length-put_u32 n = refl

read_full-append : (xs ys : Text) → read_full (length xs) (xs ++ ys) ≡ some (xs, ys)
unfolding read_full
read_full-append xs ys =
    let e : ltb (length (xs ++ ys)) (length xs) ≡ false = ground (arith, length-append xs ys) in
    rw (e, take-length_append xs ys, drop-length_append xs ys)

pub read_prefix : (n : ℕ) (rest : Text) → read_full 4 (put_u32 n ++ rest) ≡ some (put_u32 n, rest)
read_prefix n rest = rw (length-put_u32 n) at (read_full-append (put_u32 n) rest)

read_body-append :
    (content rest : Text)
    → length content ≤ max_frame_size
    → read_body (length content) (content ++ rest) ≡ ok (content, rest)
unfolding read_body
read_body-append content rest le =
    let e : ltb max_frame_size (length content) ≡ false = ground arith in
    rw (e, read_body, read_full-append content rest)

read_written :
    (content rest : Text)
    → length content ≤ max_frame_size
    → read_frame (put_u32 (length content) ++ (content ++ rest)) ≡ ok (content, rest)
unfolding read_frame
read_written content rest le =
    rw
      (
        read_prefix (length content) (content ++ rest),
        read_frame,
        get_u32-put_u32 (length content) (omega arith),
      )
      (read_body-append content rest le)

-- A frame that was written is read back whole, whatever follows it on the stream, and the read
-- stops behind it.
pub read_frame-write_frame :
    (content bytes rest : Text)
    → write_frame content ≡ ok bytes
    → read_frame (bytes ++ rest) ≡ ok (content, rest)
unfolding write_frame
read_frame-write_frame content bytes rest h =
    elim (Bool-cases (ltb max_frame_size (length content))) [
      | inl big ↦ let h' : err (too_large (length content)) ≡ ok bytes = rw big at h in cc
      | inr fits ↦
          let h' : ok (put_u32 (length content) ++ content) ≡ ok bytes = rw fits at h in
          let e : bytes ≡ put_u32 (length content) ++ content = cc in
          rw (e, append_assoc) (read_written content rest (ground arith))
    ]

-- Bytes are below 256.
abbrev pub IsBytes : Text → Type 0
IsBytes = All (λ b. b < 256)

put_u32-get_u32 :
    (a b c d : ℕ)
    → a < 256
    → b < 256
    → c < 256
    → d < 256
    → put_u32 (get_u32 (a ∷ b ∷ c ∷ d ∷ [])) ≡ a ∷ b ∷ c ∷ d ∷ []
unfolding put_u32 get_u32
put_u32-get_u32 a b c d ha hb hc hd =
    let n = ((a * 256 + b) * 256 + c) * 256 + d in
    let e₁ : n / 2 ^ 24 % 256 ≡ a = omega arith in
    let e₂ : n / 2 ^ 16 % 256 ≡ b = omega arith in
    let e₃ : n / 2 ^ 8 % 256 ≡ c = omega arith in let e₄ : n % 256 ≡ d = omega arith in cc

IsBytes-prefix : (xs ys : Text) → IsBytes (xs ++ ys) → IsBytes xs
IsBytes-prefix [] ys h = tt
IsBytes-prefix (x ∷ xs) ys h = (h.0, IsBytes-prefix xs ys h.1)

-- What the read of n bytes splits off.
read_full_split :
    (n : ℕ) (stream xs ys : Text)
    → read_full n stream ≡ some (xs, ys)
    → (stream ≡ xs ++ ys) × (length xs ≡ n)
unfolding read_full
read_full_split n stream xs ys h = elim (Bool-cases (ltb (length stream) n)) [
  | inl short ↦ let h' : ◌≡◌ {A = Option (Text × Text)} none (some (xs, ys)) = rw short at h in cc
  | inr long ↦
      let h' : ◌≡◌ {A = Option (Text × Text)} (some (take n stream, drop n stream))
          (some (xs, ys)) =
        rw long at h in
      let e₁ : xs ≡ take n stream = cc in
      let e₂ : ys ≡ drop n stream = cc in
      rw (e₁, e₂) (sym (take-append-drop n stream), ground (arith, length-take n stream))
]

read_body_split :
    (n : ℕ) (stream content rest : Text)
    → read_body n stream ≡ ok (content, rest)
    → (stream ≡ content ++ rest) × (length content ≡ n) × (n ≤ max_frame_size)
unfolding read_body
read_body_split n stream content rest h = elim (Bool-cases (ltb max_frame_size n)) [
  | inl big ↦
      let h' : ◌≡◌ {A = Result (Text × Text)} (err (too_large n)) (ok (content, rest)) =
        rw big at h in
      cc
  | inr fits ↦ elim (Option-cases (read_full n stream)) [
    | inl e ↦
        let h' : ◌≡◌ {A = Result (Text × Text)} (err short_data) (ok (content, rest)) =
          rw (fits, e, read_body) at h in
        cc
    | inr ((xs, ys), e) ↦
        let h' : ◌≡◌ {A = Result (Text × Text)} (ok (xs, ys)) (ok (content, rest)) =
          rw (fits, e, read_body) at h in
        let e' : read_full n stream ≡ some (content, rest) = cc in
        let parts = read_full_split n stream content rest e' in (parts.0, parts.1, ground arith)
  ]
]

prefix-put_u32 :
    (prefix : Text) → length prefix ≡ 4 → IsBytes prefix → put_u32 (get_u32 prefix) ≡ prefix
prefix-put_u32 [] h b = absurd (omega arith)
prefix-put_u32 (x ∷ []) h b = absurd (omega arith)
prefix-put_u32 (x ∷ y ∷ []) h b = absurd (omega arith)
prefix-put_u32 (x ∷ y ∷ z ∷ []) h b = absurd (omega arith)
prefix-put_u32 (x ∷ y ∷ z ∷ t ∷ []) h b = put_u32-get_u32 x y z t b.0 b.1.0 b.1.1.0 b.1.1.1.0
prefix-put_u32 (x ∷ y ∷ z ∷ t ∷ u ∷ rest) h b = absurd (omega arith)

-- A frame that is read was no larger than the limit, and the stream held its length prefix, its
-- content and then what is left.
pub write_frame-read_frame :
    (stream content rest : Text)
    → IsBytes stream
    → read_frame stream ≡ ok (content, rest)
    → (bytes : Text) × (write_frame content ≡ ok bytes) × (stream ≡ bytes ++ rest)
unfolding write_frame read_frame
write_frame-read_frame stream content rest b h = elim (Option-cases (read_full 4 stream)) [
  | inl e ↦
      let h' : ◌≡◌ {A = Result (Text × Text)} (err short_length) (ok (content, rest)) =
        rw (e, read_frame) at h in
      cc
  | inr ((prefix, tail), e) ↦
      let h' : read_body (get_u32 prefix) tail ≡ ok (content, rest) = rw (e, read_frame) at h in
      let front = read_full_split 4 stream prefix tail e in
      let back = read_body_split (get_u32 prefix) tail content rest h' in
      let fits : ltb max_frame_size (length content) ≡ false = ground arith in
      let is_prefix =
        prefix-put_u32 prefix front.1 (IsBytes-prefix prefix tail (rw front.0 at b)) in
      let whole : stream ≡ prefix ++ (content ++ rest) = front.0 ∙ ap (λ t. prefix ++ t) back.0 in
      (
        put_u32 (length content) ++ content,
        rw fits refl,
        rw (back.1, is_prefix, append_assoc) whole,
      )
]
