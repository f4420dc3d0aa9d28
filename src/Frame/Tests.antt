-- ===== src/Frame/Tests.antt =====
-- The theorems on frames at concrete bytes.
use go_ricochet.Base.{
  ◌≡◌, refl, true, false, none, some, [], ◌∷◌, ◌++◌, arith, ◌==◌, if◌then◌else◌, any_of, Text,
  codes, pos,
}
use go_ricochet.Wire.{Message}
use go_ricochet.Frame.{
  put_u32, get_u32, Codec, decoded, panicked, ok, write_frame, read_frame, encode_response,
  encode_parts, decode_response,
}
use go_ricochet.Frame.RoundTrip.{read_frame-write_frame, write_frame-read_frame}
use go_ricochet.Frame.Response.{decode_response-encode_response}
use go_ricochet.Frame.Wrap.{decode_response-panics}

read_frame-write_frame_example :
    read_frame ((0 ∷ 0 ∷ 0 ∷ 2 ∷ 7 ∷ 8 ∷ []) ++ (9 ∷ [])) ≡ ok (7 ∷ 8 ∷ [], 9 ∷ [])
unfolding write_frame put_u32
read_frame-write_frame_example =
    read_frame-write_frame (7 ∷ 8 ∷ []) (0 ∷ 0 ∷ 0 ∷ 2 ∷ 7 ∷ 8 ∷ []) (9 ∷ []) refl

write_frame-read_frame_example :
    (bytes : Text) × (write_frame (7 ∷ 8 ∷ []) ≡ ok bytes)
    × (0 ∷ 0 ∷ 0 ∷ 2 ∷ 7 ∷ 8 ∷ 9 ∷ [] ≡ bytes ++ 9 ∷ [])
unfolding read_frame get_u32
write_frame-read_frame_example =
    write_frame-read_frame (0 ∷ 0 ∷ 0 ∷ 2 ∷ 7 ∷ 8 ∷ 9 ∷ []) (7 ∷ 8 ∷ []) (9 ∷ []) (omega arith) refl

abbrev note : Message
note = record {
  message_id = codes "m1";
  recipient = codes "bob";
  sender = codes "ann";
  payload = 5 ∷ [];
  priority = 1;
  expiry = pos 0;
  hop_count = pos 0;
  flags = 0;
  created = pos 0;
  folder_path = [];
  sequence = 1;
  msg_flags = 0;
  persistent = false;
}

-- A codec of one message, as small as can be.
abbrev tiny : Codec
tiny = record {
  encode_meta = λ n more. some (n ∷ (if more then 1 else 0) ∷ []);
  decode_meta = λ t. elim t [ [] ↦ none | n ∷ r ↦ some (pos n, any_of (λ b. b == 1) r) ];
  encode_message = λ m. some m.payload;
  decode_message = λ t. some (record note { payload = t });
}

decode_response-encode_response_example :
    decode_response tiny (0 ∷ 0 ∷ 0 ∷ 2 ∷ 1 ∷ 1 ∷ 0 ∷ 0 ∷ 0 ∷ 1 ∷ 5 ∷ []) ≡ decoded (note ∷ []) true
unfolding encode_response encode_parts put_u32
decode_response-encode_response_example =
    decode_response-encode_response tiny (note ∷ []) true
      (0 ∷ 0 ∷ 0 ∷ 2 ∷ 1 ∷ 1 ∷ 0 ∷ 0 ∷ 0 ∷ 1 ∷ 5 ∷ []) ((5 ∷ [], refl, refl), tt)
      (λ t e. ground arith) refl (omega arith)

-- Five bytes from a server crash the client.
decode_response-panics_example : decode_response tiny (255 ∷ 255 ∷ 255 ∷ 255 ∷ 0 ∷ []) ≡ panicked
unfolding get_u32
decode_response-panics_example =
    decode_response-panics tiny (255 ∷ 255 ∷ 255 ∷ 255 ∷ 0 ∷ []) (omega arith) (omega arith)
      (omega arith) (omega arith)
