-- ===== src/Protocol.antt =====
-- include/protocol/ProtocolBase.h and EchoServer/SomeDefine.h: the packet head, the heartbeat and
-- the macros that read and build packets. Every stream there is made with `bigendian = false`.
pub mod RoundTrip
use echo_server_cpp.Prelude.{
  ℕ, ◌+◌, ◌%◌, ◌^◌, ◌<◌, Bool, true, false, List, ◌++◌, length, take, drop,
}
use echo_server_cpp.Prelude.Results.{Result, ok, throw, ◌>>=◌}
use echo_server_cpp.Stream.{Stream, Thrown, make, attach, used, write_int, read_int}

abbrev pub headlen : ℕ
headlen = 4

abbrev pub xyid_heartbeat : ℕ
xyid_heartbeat = 1

-- Both fields are `unsigned short`.
pub record ProtocolHead : Type 0 where
  pub len : ℕ
  pub xyid : ℕ

pub record Heartbeat : Type 0 where
  pub timestamp : ℕ

abbrev pub sizeof_heartbeat : ℕ
sizeof_heartbeat = 4

unfoldable pub write_head : Bool → ProtocolHead → Stream → Result Thrown Stream
write_head host msg s = do s' ← write_int host 2 msg.len s; write_int host 2 msg.xyid s'

unfoldable pub read_head : Bool → Stream → Result Thrown (ProtocolHead × Stream)
read_head host s = do
  (len, s₁) ← read_int host 2 s
  (xyid, s₂) ← read_int host 2 s₁
  ok (record { len = len; xyid = xyid }, s₂)

unfoldable pub write_heartbeat : Bool → Heartbeat → Stream → Result Thrown Stream
write_heartbeat host msg s = write_int host 4 msg.timestamp s

unfoldable pub read_heartbeat : Bool → Stream → Result Thrown (Heartbeat × Stream)
read_heartbeat host s = do (t, s') ← read_int host 4 s; ok (record { timestamp = t }, s')

-- A bistream that is attached to `buffer`.
unfoldable pub reader : List ℕ → Stream
unfolding attach make
reader buffer = attach buffer (make false)

-- READXY for a heartbeat: it reads from the start of the buffer.
unfoldable pub readxy : Bool → List ℕ → Result Thrown (Heartbeat × Stream)
unfolding reader
readxy host buffer = read_heartbeat host (reader buffer)

-- GET_TEMPLATE_BUF for a heartbeat: the body is written behind the place of the head, then the head
-- is filled in. The result is the head with its new fields and the whole of `buffer`.
unfoldable pub get_template_buf :
    Bool → List ℕ → ProtocolHead → Heartbeat → Result Thrown (ProtocolHead × List ℕ)
unfolding reader
get_template_buf host buffer head xy = do
  bos ← write_heartbeat host xy (reader (take sizeof_heartbeat (drop headlen buffer)))
  let head' : ProtocolHead = record head {
    xyid = xyid_heartbeat;
    len = (used bos % 2 ^ 16 + headlen) % 2 ^ 16;
  }
  let body = bos.before ++ bos.after
  bos' ← write_head host head' (reader (take headlen buffer))
  ok (head', (bos'.before ++ bos'.after) ++ (body ++ drop (headlen + sizeof_heartbeat) buffer))
