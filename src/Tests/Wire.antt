-- ===== src/Tests/Wire.antt =====
-- Streams, packets and base64 at concrete inputs.
use echo_server_cpp.Prelude.{ℕ, ◌≡◌, true, false, some, List, [], ◌∷◌, ◌++◌, arith, drop}
use echo_server_cpp.Prelude.Results.{ok}
use echo_server_cpp.Stream.{Stream, read_text}
use echo_server_cpp.Stream.Words.{at}
use echo_server_cpp.Stream.Text.{text_field, read_text-text_field}
use echo_server_cpp.Protocol.{ProtocolHead, get_template_buf}
use echo_server_cpp.Protocol.RoundTrip.{heartbeat_head, heartbeat_packet, get_template_buf-packet}
use echo_server_cpp.Base64.{encode_base64, decode_base64}
use echo_server_cpp.Base64.RoundTrip.{decode-encode, decode-encode_extra}

abbrev roomy : Stream
roomy = record { before = 7 ∷ []; after = 0 ∷ 0 ∷ 0 ∷ 0 ∷ []; bigendian = false }

abbrev narrow : Stream
narrow = record { before = 7 ∷ []; after = 0 ∷ []; bigendian = true }

abbrev hello : List ℕ
hello = b'h' ∷ b'i' ∷ []

abbrev head : ProtocolHead
head = record { len = 8; xyid = 1 }

read_text-text_field_example :
    read_text true (at true [] (text_field true hello ++ 9 ∷ []))
    ≡ ok (hello, at true ([] ++ text_field true hello) (9 ∷ []))
read_text-text_field_example = read_text-text_field true true [] hello (9 ∷ []) (omega arith)

get_template_buf-packet_example :
    get_template_buf true
      (0 ∷ 0 ∷ 0 ∷ 0 ∷ 0 ∷ 0 ∷ 0 ∷ 0 ∷ 9 ∷ [])
      (record { len = 0; xyid = 0 })
      (record { timestamp = 77 })
    ≡ ok (
      heartbeat_head,
      heartbeat_packet (record { timestamp = 77 })
          ++ drop 8 (0 ∷ 0 ∷ 0 ∷ 0 ∷ 0 ∷ 0 ∷ 0 ∷ 0 ∷ 9 ∷ []),
    )
get_template_buf-packet_example =
    get_template_buf-packet true (0 ∷ 0 ∷ 0 ∷ 0 ∷ 0 ∷ 0 ∷ 0 ∷ 0 ∷ 9 ∷ [])
      (record { len = 0; xyid = 0 }) (record { timestamp = 77 }) (ground arith)

decode-encode_example :
    (t : List ℕ) × (encode_base64 (77 ∷ 97 ∷ []) ≡ some t) × (decode_base64 t ≡ some (77 ∷ 97 ∷ []))
decode-encode_example = decode-encode 77 (97 ∷ []) (omega arith, (omega arith, tt)) (ground arith)

decode-encode_extra_example :
    (t : List ℕ) × (encode_base64 (77 ∷ []) ≡ some t) × (decode_base64 t ≡ some (77 ∷ [] ++ 0 ∷ []))
decode-encode_extra_example = decode-encode_extra 77 [] (omega arith, tt) (ground arith)
