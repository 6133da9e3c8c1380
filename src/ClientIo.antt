-- ===== src/ClientIo.antt =====
-- libsocket/ClientIOSocket.cpp: the receive loop of a connection to another server.
-- The receive buffer is the list of its `_nRecvBufLen` valid bytes.
pub mod Framing
pub mod Segments
pub mod Connection
use echo_server_cpp.Prelude.{
  ℕ, zero, suc, ◌+◌, ◌-◌, Bool, Option, none, some, List, [], ◌∷◌, ◌++◌, length, take, drop, ltb,
  if◌then◌else◌,
}
use echo_server_cpp.Prelude.Results.{Result, ok, throw}
use echo_server_cpp.Stream.{Stream, Thrown}
use echo_server_cpp.Protocol.{ProtocolHead, headlen, read_head, reader}

-- The packets handed up, and `tmpIndex` behind the last of them.
abbrev pub Parsed : Type 0
Parsed = List (List ℕ) × ℕ

-- What one round does with the head that it has read; `next` is the rest of the loop.
unfoldable pub take_packet :
    List ℕ → ℕ → Result Thrown (ProtocolHead × Stream) → (ℕ → Option Parsed) → Option Parsed
take_packet buf index (throw e) next = some ([], index)
take_packet buf index (ok (head, s)) next =
    if ltb (length buf - index) head.len then some ([], index) else elim (next (index + head.len)) [
      | none ↦ none
      | some (packets, end) ↦ some (take head.len (drop index buf) ∷ packets, end)
    ]

-- The `while (true)` of recv on fuel; `none` means that the fuel ran out.
unfoldable pub parse : Bool → ℕ → List ℕ → ℕ → Option Parsed
unfolding take_packet
parse host zero buf index = none
parse host (suc fuel) buf index =
    let round =
      take_packet buf index (read_head host (reader (take headlen (drop index buf))))
        (parse host fuel buf) in
    if ltb (length buf - index) headlen then some ([], index) else round

-- recv: `chunk` is what bufferevent_read stored behind the valid bytes. The result is what goes to
-- asynRecive, and the valid bytes after the memmove.
unfoldable pub recv : Bool → ℕ → List ℕ → List ℕ → Option (List (List ℕ) × List ℕ)
recv host fuel recv_buf chunk = elim (parse host fuel (recv_buf ++ chunk) 0) [
  | none ↦ none
  | some (packets, index) ↦ some (packets, drop index (recv_buf ++ chunk))
]

-- readCallback as often as data arrives: the packets handed up in all, and what is left over.
unfoldable pub feed : Bool → ℕ → List ℕ → List (List ℕ) → Option (List (List ℕ) × List ℕ)
feed host fuel recv_buf [] = some ([], recv_buf)
feed host fuel recv_buf (chunk ∷ chunks) = elim (recv host fuel recv_buf chunk) [
  | none ↦ none
  | some (packets, left) ↦ elim (feed host fuel left chunks) [
    | none ↦ none
    | some (more, rest) ↦ some (packets ++ more, rest)
  ]
]
