-- ===== src/Frame.antt =====
-- internal/protocol/frame/frame.go: length-prefixed frames and the compound retrieve response. A
-- stream is the bytes still to be read; a slice's capacity is its length, as `ReadFrame` makes it.
pub mod RoundTrip
pub mod Response
pub mod Wrap
mod Tests
use go_ricochet.Base.{
  ℕ, zero, suc, ◌+◌, ◌-◌, ◌*◌, ◌/◌, ◌%◌, ◌^◌, ◌≤◌, ◌<◌, min, max, ◌≡◌, refl, sym, ap, ◌∙◌, subst,
  ◌≢◌, ◌↔◌, ◌⊎◌, inl, inr, Bool, true, false, not, ◌&&◌, ◌||◌, Option, none, some, List, [], ◌∷◌,
  ◌++◌, map, append-nil, append_assoc, arith, ltb, leb, ◌==◌, if◌then◌else◌, ltb→lt, lt→ltb, leb→le,
  ==_iff, eqb_refl, Bool-cases, Option-cases, length, take, drop, keep, find_first, any_of, sum_by,
  All, length-append, sum_by-append, length-take, length-drop, take-append-drop, take-length_append,
  drop-length_append, take_all, sum_by-keep-not, All-keep, All-append, All-find, All-imp, All-map,
  AllPairs, AllPairs-keep, AllPairs-snoc, AllPairs-map, All-take, AllPairs-take, Text, codes, ◌=ᵗ◌,
  text_eq_refl, text_eq→eq, mem_text, ℤ, pos, negsuc, pos_part, neg_part, ◌≤ℤ◌, ltb_ℤ, is_positive,
  is_zero,
}
use go_ricochet.Wire.{Message}

abbrev pub max_frame_size : ℕ
max_frame_size = 10 * 1024 * 1024

abbrev pub length_prefix_size : ℕ
length_prefix_size = 4

abbrev pub u32_mod : ℕ
u32_mod = 2 ^ 32

-- `binary.BigEndian.PutUint32` of `uint32(n)`.
unfoldable pub put_u32 : ℕ → Text
put_u32 n = n / 2 ^ 24 % 256 ∷ n / 2 ^ 16 % 256 ∷ n / 2 ^ 8 % 256 ∷ n % 256 ∷ []

-- `binary.BigEndian.Uint32`; the code never hands it fewer than four bytes.
unfoldable pub get_u32 : Text → ℕ
get_u32 (a ∷ b ∷ c ∷ d ∷ rest) = ((a * 256 + b) * 256 + c) * 256 + d
get_u32 _ = 0

pub data FrameError : Type 0 where
  too_large : ℕ → FrameError
  short_length short_data : FrameError

pub data Result {ℓ} (A : Type ℓ) : Type ℓ where
  ok : A → Result A
  err : FrameError → Result A

-- `WriteFrame`: the bytes written.
unfoldable pub write_frame : Text → Result Text
write_frame content =
    if ltb max_frame_size (length content)
    then err (too_large (length content))
    else ok (put_u32 (length content) ++ content)

-- `io.ReadFull` of n bytes: the bytes, and what is left of the stream.
unfoldable pub read_full : ℕ → Text → Option (Text × Text)
read_full n stream = if ltb (length stream) n then none else some (take n stream, drop n stream)

-- The second half of `ReadFrame`, behind the length prefix.
unfoldable pub read_body : ℕ → Text → Result (Text × Text)
read_body n stream =
    if ltb max_frame_size n
    then err (too_large n)
    else elim (read_full n stream) [ none ↦ err short_data | some r ↦ ok r ]

-- `ReadFrame`
unfoldable pub read_frame : Text → Result (Text × Text)
unfolding read_body read_full
read_frame stream = elim (read_full length_prefix_size stream) [
  | none ↦ err short_length
  | some (prefix, rest) ↦ read_body (get_u32 prefix) rest
]

-- The JSON encodings, which are library code: of the metadata (message count, has more) and of a
-- message. A decoded count may be negative.
pub record Codec : Type 0 where
  pub encode_meta : ℕ → Bool → Option Text
  pub decode_meta : Text → Option (ℤ × Bool)
  pub encode_message : Message → Option Text
  pub decode_message : Text → Option Message

pub data Decoded : Type 0 where
  decoded : List Message → Bool → Decoded
  rejected : Decoded
  -- A slice expression out of range.
  panicked : Decoded

-- Prefix and bytes of each message; none if one cannot be encoded.
unfoldable pub encode_parts : Codec → List Message → Option Text
encode_parts c [] = some []
encode_parts c (m ∷ ms) = elim (c.encode_message m) [
  | none ↦ none
  | some t ↦ elim (encode_parts c ms) [
    | none ↦ none
    | some rest ↦ some (put_u32 (length t) ++ (t ++ rest))
  ]
]

-- `EncodeRetrieveResponse`
unfoldable pub encode_response : Codec → List Message → Bool → Option Text
encode_response c ms more = elim (c.encode_meta (length ms) more) [
  | none ↦ none
  | some meta ↦ elim (encode_parts c ms) [
    | none ↦ none
    | some parts ↦ some (put_u32 (length meta) ++ (meta ++ parts))
  ]
]

-- data[from:to], none where it panics.
unfoldable pub slice : Text → ℕ → ℕ → Option Text
slice bytes from to =
    if ltb (length bytes) to || ltb to from then none else some (take (to - from) (drop from bytes))

-- uint32(len(data)) < uint32(offset)+n
unfoldable pub is_truncated : Text → ℕ → ℕ → Bool
is_truncated bytes offset n = ltb (length bytes % u32_mod) ((offset + n) % u32_mod)

-- What a length-prefixed part of the response reads as: its bytes and the offset behind it.
pub data Part : Type 0 where
  cut_short overrun : Part
  part : Text → ℕ → Part

-- The part of n bytes at `start`, behind its prefix.
unfoldable pub read_content : Text → ℕ → ℕ → Part
unfolding is_truncated slice
read_content bytes start n =
    if is_truncated bytes start n
    then cut_short
    else elim (slice bytes start (start + n)) [ none ↦ overrun | some t ↦ part t (start + n) ]

-- The steps that the function takes for the metadata and for each message.
unfoldable pub read_part : Text → ℕ → Part
read_part bytes offset =
    if ltb (length bytes) (offset + length_prefix_size)
    then cut_short
    else read_content bytes (offset + length_prefix_size)
        (get_u32 (take length_prefix_size (drop offset bytes)))

-- The loop of `DecodeRetrieveResponse`, with `rounds` messages left to read at `offset`.
unfoldable pub decode_loop : Codec → Text → Bool → ℕ → ℕ → List Message → Decoded
decode_loop c bytes more zero offset ms = decoded ms more
decode_loop c bytes more (suc rounds) offset ms = elim (read_part bytes offset) [
  | cut_short ↦ rejected
  | overrun ↦ panicked
  | part t next ↦ elim (c.decode_message t) [
    | none ↦ rejected
    | some m ↦ decode_loop c bytes more rounds next (ms ++ m ∷ [])
  ]
]

-- `DecodeRetrieveResponse`
unfoldable pub decode_response : Codec → Text → Decoded
decode_response c bytes = elim (read_part bytes 0) [
  | cut_short ↦ rejected
  | overrun ↦ panicked
  | part t next ↦ elim (c.decode_meta t) [
    | none ↦ rejected
    | some (count, more) ↦ decode_loop c bytes more (pos_part count) next []
  ]
]
