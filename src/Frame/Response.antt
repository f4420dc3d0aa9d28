-- ===== src/Frame/Response.antt =====
-- Decoding a retrieve response undoes encoding it.
use go_ricochet.Base.{
  ℕ, ◌+◌, ◌-◌, ◌^◌, ◌<◌, ◌≡◌, ap, ◌∙◌, inl, inr, Bool, false, ◌||◌, some, List, [], ◌∷◌, ◌++◌,
  append-nil, append_assoc, arith, ltb, Option-cases, length, take, drop, All, length-append,
  take-length_append, drop-length_append, Text, pos,
}
use go_ricochet.Wire.{Message}
use go_ricochet.Frame.{
  length_prefix_size, u32_mod, put_u32, get_u32, Codec, decoded, encode_parts, encode_response,
  slice, is_truncated, part, read_content, read_part, decode_loop, decode_response,
}
use go_ricochet.Frame.RoundTrip.{get_u32-put_u32, length-put_u32}

-- The JSON of this message decodes to it: so of a message whose texts are valid UTF-8.
abbrev pub RoundTrips : Codec → Message → Type 0
RoundTrips c m = (t : Text) × (c.encode_message m ≡ some t) × (c.decode_message t ≡ some m)

slice-middle : (a t b : Text) → slice (a ++ (t ++ b)) (length a) (length a + length t) ≡ some t
unfolding slice
slice-middle a t b =
    let e : (ltb (length (a ++ (t ++ b))) (length a + length t)
          || ltb (length a + length t) (length a))
        ≡ false =
      ground (arith, length-append a (t ++ b), length-append t b) in
    let d : length a + length t - length a ≡ length t = omega arith in
    rw (e, d, drop-length_append a (t ++ b), take-length_append t b)

prefix_at :
    (pre rest : Text) (n : ℕ)
    → n < 2 ^ 32
    → get_u32 (take length_prefix_size (drop (length pre) (pre ++ (put_u32 n ++ rest)))) ≡ n
prefix_at pre rest n h = rw (drop-length_append pre (put_u32 n ++ rest)) (
    ap get_u32 (rw (length-put_u32 n) at (take-length_append (put_u32 n) rest))
    ∙ get_u32-put_u32 n h)

slice-part :
    (pre t rest : Text)
    → slice
        (pre ++ (put_u32 (length t) ++ (t ++ rest)))
        (length pre + length_prefix_size)
        (length pre + length_prefix_size + length t)
      ≡ some t
slice-part pre t rest =
    let front = pre ++ put_u32 (length t) in
    let e : length front ≡ length pre + length_prefix_size =
      omega (arith, length-append pre (put_u32 (length t)), length-put_u32 (length t)) in
    rw (← append_assoc pre (put_u32 (length t)) (t ++ rest), ← e) (slice-middle front t rest)

module _ (pre t rest : Text) where
  abbrev around : Text
  around = pre ++ (put_u32 (length t) ++ (t ++ rest))

  length-around : length around ≡ length pre + (4 + (length t + length rest))
  length-around = omega (
    arith,
    length-append pre (put_u32 (length t) ++ (t ++ rest)),
    length-append (put_u32 (length t)) (t ++ rest),
    length-append t rest,
    length-put_u32 (length t),
  )

  read_content-middle :
      length around < u32_mod
      → let start = length pre + length_prefix_size in
        read_content around start (length t) ≡ part t (start + length t)
  unfolding read_content
  read_content-middle bound =
      let whole : is_truncated around (length pre + length_prefix_size) (length t) ≡ false =
        unfold is_truncated in ground (arith, length-around) in
      rw whole (rw (slice-part pre t rest, read_content))

  -- The part that stands at an offset is read, as long as the response is shorter than 4 GiB.
  read_part-middle :
      length around < u32_mod
      → read_part around (length pre) ≡ part t (length pre + length_prefix_size + length t)
  unfolding read_part
  read_part-middle bound =
      let enough : ltb (length around) (length pre + length_prefix_size) ≡ false =
        ground (arith, length-around) in
      rw (enough, prefix_at pre (t ++ rest) (length t) (omega (arith, length-around)))
        (read_content-middle bound)

encode_parts-cons :
    (c : Codec) (m : Message) (ms : List Message) (t suf : Text)
    → c.encode_message m ≡ some t
    → encode_parts c (m ∷ ms) ≡ some suf
    → (rest : Text) × (encode_parts c ms ≡ some rest) × (suf ≡ put_u32 (length t) ++ (t ++ rest))
unfolding encode_parts
encode_parts-cons c m ms t suf enc e = elim (Option-cases (encode_parts c ms)) [
  | inl gone ↦ absurd (ground arith)
  | inr (rest, made) ↦ (rest, made, ground arith)
]

module _ (c : Codec) (more : Bool) where
  decode_loop-parts :
      (ms : List Message) (pre suf : Text) (acc : List Message)
      → All (RoundTrips c) ms
      → encode_parts c ms ≡ some suf
      → length (pre ++ suf) < u32_mod
      → decode_loop c (pre ++ suf) more (length ms) (length pre) acc ≡ decoded (acc ++ ms) more
  unfolding decode_loop encode_parts
  decode_loop-parts [] pre suf acc h e bound = rw (append-nil acc)
  decode_loop-parts (m ∷ ms) pre suf acc ((t, enc, dec), hs) e bound =
      let (rest, made, is_suf) = encode_parts-cons c m ms t suf enc e in
      let front = pre ++ (put_u32 (length t) ++ t) in
      let same : front ++ rest ≡ pre ++ suf = rw (
        is_suf,
        append_assoc pre (put_u32 (length t) ++ t) rest,
        append_assoc (put_u32 (length t)) t rest,
      ) in
      let behind : length front ≡ length pre + length_prefix_size + length t = omega (
        arith,
        length-append pre (put_u32 (length t) ++ t),
        length-append (put_u32 (length t)) t,
        length-put_u32 (length t),
      ) in
      let read : read_part (pre ++ suf) (length pre)
          ≡ part t (length pre + length_prefix_size + length t) =
        rw is_suf (read_part-middle pre t rest (rw is_suf at bound)) in
      let ih = decode_loop-parts ms front rest (acc ++ m ∷ []) hs made (rw (← same) at bound) in
      let ih' : decode_loop c (pre ++ suf) more (length ms)
            (length pre + length_prefix_size + length t) (acc ++ m ∷ [])
          ≡ decoded (acc ++ m ∷ ms) more =
        rw (same, behind, append_assoc acc (m ∷ []) ms) at ih in
      rw (read, decode_loop) (rw (dec, decode_loop) ih')

encode_response_parts :
    (c : Codec) (ms : List Message) (more : Bool) (bytes : Text)
    → encode_response c ms more ≡ some bytes
    → (meta parts : Text) × (c.encode_meta (length ms) more ≡ some meta)
      × (encode_parts c ms ≡ some parts)
      × (bytes ≡ put_u32 (length meta) ++ (meta ++ parts))
unfolding encode_response
encode_response_parts c ms more bytes e = elim (Option-cases (c.encode_meta (length ms) more)) [
  | inl gone ↦ absurd (ground arith)
  | inr (meta, is_meta) ↦ elim (Option-cases (encode_parts c ms)) [
    | inl gone ↦ absurd (ground arith)
    | inr (parts, made) ↦ (meta, parts, is_meta, made, ground arith)
  ]
]

-- If the JSON of the metadata and of each message decodes to what it encodes, and the response is
-- shorter than 4 GiB, then decoding an encoded retrieve response returns the same messages in the
-- same order and the same has-more flag.
pub decode_response-encode_response :
    (c : Codec) (ms : List Message) (more : Bool) (bytes : Text)
    → All (RoundTrips c) ms
    → ((t : Text)
        → c.encode_meta (length ms) more ≡ some t
        → c.decode_meta t ≡ some (pos (length ms), more))
    → encode_response c ms more ≡ some bytes
    → length bytes < u32_mod
    → decode_response c bytes ≡ decoded ms more
unfolding decode_response
decode_response-encode_response c ms more bytes h meta_law e bound =
    let (meta, parts, is_meta, made, is_bytes) = encode_response_parts c ms more bytes e in
    let read : read_part bytes 0 ≡ part meta (0 + length_prefix_size + length meta) =
      rw is_bytes (read_part-middle [] meta parts (rw is_bytes at bound)) in
    let front = put_u32 (length meta) ++ meta in
    let same : front ++ parts ≡ bytes =
      rw is_bytes (append_assoc (put_u32 (length meta)) meta parts) in
    let behind : length front ≡ 0 + length_prefix_size + length meta =
      omega (arith, length-append (put_u32 (length meta)) meta, length-put_u32 (length meta)) in
    let rest = decode_loop-parts c more ms front parts [] h made (rw (← same) at bound) in
    let rest' : decode_loop c bytes more (length ms) (0 + length_prefix_size + length meta) []
        ≡ decoded ms more =
      rw (same, behind) at rest in
    rw (read, decode_response) (rw (meta_law meta is_meta, decode_response) rest')
