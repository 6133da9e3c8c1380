-- ===== src/Tests/Sockets.antt =====
-- The receive paths at concrete inputs.
use echo_server_cpp.Prelude.{
  concat, ℕ, ◌+◌, ◌≡◌, ◌≢◌, ◌<◌, ◌⊎◌, true, false, ◌≤◌, refl, inl, true, some, List, [], ◌∷◌, ◌++◌,
  arith, length,
}
use echo_server_cpp.SocketBase.{max_buffer_size}
use echo_server_cpp.Prelude.Bytes.{bytes_le, All, IsByte}
use echo_server_cpp.Stream.Words.{wire}
use echo_server_cpp.Protocol.{ProtocolHead}
use echo_server_cpp.Protocol.RoundTrip.{head_bytes}
use echo_server_cpp.SocketBase.{connected, is_web_socket, max_ws_tmp_buffer_size}
use echo_server_cpp.ClientIo
use echo_server_cpp.ClientIo.Framing.{IsPacket}
use echo_server_cpp.ClientIo.Segments.{feed-packets}
use echo_server_cpp.ServerIo
use echo_server_cpp.ServerIo.{
  ServerIo, done, fault, stuck, frame_head, expand_send_buf, consume_send_buf,
}
use echo_server_cpp.ServerIo.Frame.{unmask}
use echo_server_cpp.ServerIo.Receive
use echo_server_cpp.ServerIo.Receive.{recv_frame, cut_packets}
use echo_server_cpp.ServerIo.Packets.{Headed, AllLength, parse-AllLength, parse-zero, parse-mixed}
use echo_server_cpp.ServerIo.SendBuffer.{reserve, expand_send_buf-cases}
use echo_server_cpp.ServerIo.FrameLaws.{frame_length, client_frame}

-- A packet of five bytes, one of eight, and one of length zero.
abbrev five : ProtocolHead
five = record { len = 5; xyid = 7 }

abbrev five_packet : List ℕ
five_packet = 5 ∷ 0 ∷ 7 ∷ 0 ∷ 99 ∷ []

abbrev eight : ProtocolHead
eight = record { len = 8; xyid = 1 }

abbrev eight_packet : List ℕ
eight_packet = 8 ∷ 0 ∷ 1 ∷ 0 ∷ 77 ∷ 0 ∷ 0 ∷ 0 ∷ []

abbrev empty_head : ProtocolHead
empty_head = record { len = 0; xyid = 7 }

abbrev packets : List (List ℕ)
packets = five_packet ∷ eight_packet ∷ []

five-IsPacket : IsPacket five_packet
unfolding head_bytes wire bytes_le
five-IsPacket = record {
  head = five;
  body = 99 ∷ [];
  shape = refl;
  counts = refl;
  len_fits = omega arith;
  xyid_fits = omega arith;
}

eight-IsPacket : IsPacket eight_packet
unfolding head_bytes wire bytes_le
eight-IsPacket = record {
  head = eight;
  body = 77 ∷ 0 ∷ 0 ∷ 0 ∷ [];
  shape = refl;
  counts = refl;
  len_fits = omega arith;
  xyid_fits = omega arith;
}

feed-packets_example :
    ClientIo.feed true 5 []
      ((5 ∷ []) ∷ (0 ∷ 7 ∷ 0 ∷ 99 ∷ 8 ∷ 0 ∷ []) ∷ (1 ∷ 0 ∷ 77 ∷ 0 ∷ 0 ∷ 0 ∷ 3 ∷ []) ∷ [])
    ≡ some (packets, 3 ∷ [])
feed-packets_example =
    feed-packets true 5 []
      ((5 ∷ []) ∷ (0 ∷ 7 ∷ 0 ∷ 99 ∷ 8 ∷ 0 ∷ []) ∷ (1 ∷ 0 ∷ 77 ∷ 0 ∷ 0 ∷ 0 ∷ 3 ∷ []) ∷ []) packets
      (3 ∷ []) (five-IsPacket, (eight-IsPacket, tt)) (inl (ground arith)) (inl (ground arith)) refl
      (ground arith)

-- A whole packet of five bytes, and another one after it.
twice-Headed : Headed (concat (five_packet ∷ five_packet ∷ []) ++ []) 10 five
unfolding head_bytes wire bytes_le
twice-Headed = record {
  body = 99 ∷ five_packet;
  shape = refl;
  enough = omega arith;
  len_fits = omega arith;
  xyid_fits = omega arith;
}

mixed-Headed : Headed (five_packet ++ eight_packet) 13 five
unfolding head_bytes wire bytes_le
mixed-Headed = record {
  body = 99 ∷ eight_packet;
  shape = refl;
  enough = omega arith;
  len_fits = omega arith;
  xyid_fits = omega arith;
}

zero-Headed : Headed (0 ∷ 0 ∷ 7 ∷ 0 ∷ []) 4 empty_head
unfolding head_bytes wire bytes_le
zero-Headed = record {
  body = [];
  shape = refl;
  enough = omega arith;
  len_fits = omega arith;
  xyid_fits = omega arith;
}

parse-AllLength_example :
    (ps : List (List ℕ)) × (end : ℕ) × (Receive.parse true 20 (five_packet ++ eight_packet) 13 0
      ≡ done (ps, end))
    × (end ≤ length (five_packet ++ eight_packet))
    × AllLength 5 ps
parse-AllLength_example =
    parse-AllLength true 20 (five_packet ++ eight_packet) 13 five mixed-Headed (omega arith)
      (ground arith)

parse-zero_example : Receive.parse true 1000 (0 ∷ 0 ∷ 7 ∷ 0 ∷ []) 4 0 ≡ stuck
parse-zero_example =
    parse-zero true 1000 (0 ∷ 0 ∷ 7 ∷ 0 ∷ []) 4 0 empty_head zero-Headed refl (ground arith)

parse-mixed_example :
    Receive.parse true 20 (five_packet ++ eight_packet) 13 0
    ≢ done (five_packet ∷ eight_packet ∷ [], 13)
parse-mixed_example =
    parse-mixed true 20 13 13 five five_packet eight_packet mixed-Headed refl (omega arith)
      (ground arith) (ground arith)

-- A websocket connection whose buffer holds what came last, and zeros behind it.
abbrev web : List ℕ → ServerIo
web tmp = record (ServerIo.make 9) { status = connected; ws = is_web_socket; tmp = tmp }

abbrev key : List ℕ
key = 1 ∷ 2 ∷ 3 ∷ 4 ∷ []

key-bytes : All IsByte key
key-bytes = (omega arith, (omega arith, (omega arith, (omega arith, tt))))

five-bytes : All IsByte five_packet
five-bytes = (omega arith, (omega arith, (omega arith, (omega arith, (omega arith, tt)))))

frame-fits : length (client_frame key five_packet) ≤ max_ws_tmp_buffer_size
unfolding client_frame unmask frame_length
frame-fits = ground arith

expand_send_buf-cases_example :
    ((expand_send_buf five_packet (web [])
        ≡ (true, record (web []) { send_buf = [] ++ five_packet }))
      × (length ([] ++ five_packet) + reserve (web []) < max_buffer_size))
    ⊎ ((expand_send_buf five_packet (web []) ≡ (false, web []))
        × (max_buffer_size ≤ length ([] ++ five_packet) + reserve (web [])))
unfolding ServerIo.make
expand_send_buf-cases_example =
    expand_send_buf-cases five_packet (web []) (ground arith) (ground arith)

abbrev filled : ServerIo
filled = record (web []) { send_buf = five_packet }
