-- ===== src/Frame/Wrap.antt =====
-- The truncation test of `DecodeRetrieveResponse` adds in 32 bits.
use go_ricochet.Base.{ℕ, ◌+◌, ◌≤◌, ◌<◌, ◌≡◌, ◌≢◌, false, none, arith, ltb, length, take, Text}
use go_ricochet.Frame.{
  length_prefix_size, u32_mod, get_u32, Codec, panicked, overrun, slice, is_truncated, read_content,
  read_part, decode_response,
}

read_content-overrun :
    (bytes : Text) (n : ℕ)
    → 4 ≤ length bytes
    → length bytes < u32_mod
    → u32_mod ≤ n + 4
    → n < u32_mod
    → read_content bytes 4 n ≡ overrun
unfolding read_content
read_content-overrun bytes n h k wraps w =
    let whole : is_truncated bytes 4 n ≡ false = unfold is_truncated in ground arith in
    let out : slice bytes 4 (4 + n) ≡ none = unfold slice in ground arith in
    rw whole (rw (out, read_content))

-- A response of at least four bytes and less than 4 GiB whose metadata length is one of the last
-- four 32-bit numbers passes the truncation test and panics at the slice, whatever the codec and
-- the bytes behind the prefix.
pub decode_response-panics :
    (c : Codec) (bytes : Text)
    → 4 ≤ length bytes
    → length bytes < u32_mod
    → u32_mod ≤ get_u32 (take length_prefix_size bytes) + 4
    → get_u32 (take length_prefix_size bytes) < u32_mod
    → decode_response c bytes ≡ panicked
unfolding decode_response read_part
decode_response-panics c bytes h k wraps w =
    let enough : ltb (length bytes) (0 + length_prefix_size) ≡ false = ground arith in
    let out = read_content-overrun bytes (get_u32 (take length_prefix_size bytes)) h k wraps w in
    let read : read_part bytes 0 ≡ overrun = unfold read_part in rw enough out in
    rw (read, decode_response)

-- Without the wrap the test is right: a part that it passes lies inside the response.
pub read_content-fits :
    (bytes : Text) (start n : ℕ)
    → length bytes < u32_mod
    → start + n < u32_mod
    → read_content bytes start n ≢ overrun
unfolding read_content
read_content-fits bytes start n h k e = ground arith
