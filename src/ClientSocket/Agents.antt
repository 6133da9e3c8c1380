-- ===== src/ClientSocket/Agents.antt =====
-- libsocket/ClientSocket.cpp: the agents of the main thread and what a connection tells it.
use echo_server_cpp.Prelude.{
  ℕ, ◌≡◌, Bool, true, Option, none, some, List, [], ◌∷◌, arith, ◌==◌, if◌then◌else◌,
}
use echo_server_cpp.Prelude.Assoc.{lookup, is_some}
use echo_server_cpp.Stream.{Stream}
use echo_server_cpp.ClientIo.Connection.{Connection, Notice, received, closed}
use echo_server_cpp.ClientSocket.{
  Message, connect_end, recv_buf, close, ClientCallback, ClientHub, get_server, deal_server_close,
  deal_message,
}

-- What the socket pushes for a notice.
abbrev pub message_of : ℕ → Notice → Message
message_of socket (Notice.connect_end flag) = connect_end (some socket) flag
message_of socket (received buf) = recv_buf (some socket) buf
message_of socket closed = close (some socket)

abbrev pub messages_of : ℕ → List Notice → List Message
messages_of socket [] = []
messages_of socket (n ∷ notices) = message_of socket n ∷ messages_of socket notices

-- Every agent stands under the descriptor of its socket.
abbrev pub Keyed : {A : Type 0} → ClientHub A → Type 0
Keyed s = (fd a : ℕ) → lookup fd s.servers ≡ some a → s.fds a ≡ fd

abbrev pub has_server : {A : Type 0} → ℕ → ClientHub A → Bool
has_server socket s = is_some (get_server socket s)

-- The agents after a step, in which no socket got another descriptor.
record Holds {A : Type 0} (socket : ℕ) (b : Bool) (s t : ClientHub A) : Type 0 where
  keyed : Keyed t
  agent : has_server socket t ≡ b
  same_fds : t.fds ≡ s.fds

module _ {A : Type 0} (cb : ClientCallback A) (host : Bool) where
  -- A close that is dealt with after the socket has got another descriptor finds no agent, and the
  -- agent under the old descriptor stays.
  pub deal_message-late_close :
      (socket old new : ℕ) (s : ClientHub A)
      → lookup old s.servers ≡ some socket
      → lookup new s.servers ≡ none
      → lookup old
          (deal_message cb host
            (close (some socket))
            (record s { fds = λ a. if a == socket then new else s.fds a })).servers
        ≡ some socket
  unfolding deal_message deal_server_close get_server
  deal_message-late_close socket old new s e f =
      let same : (socket == socket) ≡ true = ground arith in rw (same, f) e
