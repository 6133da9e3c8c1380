-- ===== src/SocketBase.antt =====
-- include/socket/SocketBase.h: sizes and states of a connection.
use echo_server_cpp.Prelude.{ℕ}

abbrev pub max_buffer_size : ℕ
max_buffer_size = 8192

abbrev pub max_ws_tmp_buffer_size : ℕ
max_ws_tmp_buffer_size = 4096

pub data WebSocketFlag : Type 0 where
  unknown not_web_socket is_web_socket : WebSocketFlag

-- The operation codes of a frame, as numbers: a received code may be none of them.
abbrev pub continue_frame : ℕ
continue_frame = 0x0

abbrev pub text_frame : ℕ
text_frame = 0x1

abbrev pub binary_frame : ℕ
binary_frame = 0x2

abbrev pub close_frame : ℕ
close_frame = 0x8

pub data Status : Type 0 where
  unconnected wait_connect connected while_close closed : Status
