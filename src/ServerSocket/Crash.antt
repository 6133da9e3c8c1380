-- ===== src/ServerSocket/Crash.antt =====
-- libsocket/ServerSocket.cpp: closeByLogic reads the agent that it has deleted.
use echo_server_cpp.Prelude.{◌≡◌, true, none, arith, ◌==◌}
use echo_server_cpp.Prelude.Assoc.{lookup-erase}
use echo_server_cpp.ServerSocket.{
  Socket, CallBack, Hub, get_agent, get_socket, delete_agent, close_by_logic,
}

module _ {A : Type 0} (cb : CallBack A) where
  -- closeByLogic crashes, in every state.
  pub close_by_logic-crash : (agent : Socket) (s : Hub A) → close_by_logic cb agent s ≡ none
  unfolding close_by_logic get_socket get_agent delete_agent
  close_by_logic-crash agent s =
      let e : (agent.fd == agent.fd) ≡ true = ground arith in
      rw (close_by_logic, lookup-erase agent.fd agent.fd s.agents, e)
