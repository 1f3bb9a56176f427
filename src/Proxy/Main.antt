-- ===== src/Proxy/Main.antt =====
-- proxyServer/proxyServer.cpp: `main`; include/tcpServer.hpp: what `startTcpServer` does before its loop,
-- and the clients it makes. The environment and the results of the sockets are parameters.
use home_keeper.Prelude.{
  ℕ, ◌%◌, not, List, [], ◌∷◌, ◌++◌, Option, none, some, if◌then◌else◌, Bytes, codes, ℤ, pos, negsuc,
  eq_ℤ,
}
use home_keeper.Prelude.{◌^◌}
use home_keeper.StdMap
use home_keeper.StdMap.{nat_key}
use home_keeper.Proxy.{Event, accepts, reads, closes, fails, TcpServer, step, run}

-- The variables of `main`; the ports are 32-bit words.
pub record Ports : Type 0 where
  pub out_port : ℕ
  pub in_port : ℕ
  pub stderr_flag : ℕ

abbrev chosen : (Bytes → ℕ) → Option Bytes → ℕ → ℕ
chosen atoi none default_port = default_port
chosen atoi (some value) default_port = atoi value

-- `main` up to the server: LOG_FLAG goes to `outPort`. The server is made with all three values and reads
-- `inPort` alone.
pub read_ports : (Bytes → Option Bytes) → (Bytes → ℕ) → Ports
read_ports getenv atoi =
    let flagged = chosen atoi (getenv (codes "LOG_FLAG")) 21 in
    record {
      out_port = chosen atoi (getenv (codes "OUT_PORT")) flagged;
      in_port = chosen atoi (getenv (codes "IN_PORT")) 19870;
      stderr_flag = 0;
    }

-- What the calls that open the server return.
pub record Sockets : Type 0 where
  pub bind : ℤ
  pub listen : ℤ
  pub epoll_ctl : ℤ

-- A call with its port, and for `connect` its address.
pub data Call : Type 0 where
  bound : ℕ → Call
  connected : Bytes → ℕ → Call

-- How `startTcpServer` ends or goes on: at an error, or in the loop, as the events leave it.
pub data Served : Type 0 where
  bind_error listen_error epoll_error : Served
  served : Option TcpServer → Served

abbrev dial : Option ℕ → List Call
dial none = connected (codes "0.0.0.0") (21 % 2 ^ 16) ∷ []
dial (some client) = []

-- The call of `connect` in the constructor of `tcpClient`, for a descriptor that is new to the map.
abbrev pub connects : Event → TcpServer → List Call
connects (accepts fd id) s = dial (StdMap.lookup fd s.clients)
connects (reads fd b) s = []
connects (closes fd) s = []
connects (fails fd) s = []

-- The calls of `connect` over the events.
pub connect_all : Bytes → List Event → TcpServer → List Call
connect_all behind [] s = []
connect_all behind (e ∷ es) s = elim (step behind e s) [
  | none ↦ connects e s
  | some s' ↦ connects e s ++ connect_all behind es s'
]

-- `startTcpServer`: its calls and its end, from the server's first state.
pub start_tcp_server : Sockets → ℕ → Bytes → List Event → TcpServer → List Call × Served
start_tcp_server net in_port behind events s =
    let listening = bound (in_port % 2 ^ 16) in
    if eq_ℤ net.bind (negsuc 0)
    then (listening ∷ [], bind_error)
    else if eq_ℤ net.listen (negsuc 0)
    then (listening ∷ [], listen_error)
    else if not (eq_ℤ net.epoll_ctl (pos 0))
    then (listening ∷ [], epoll_error)
    else (listening ∷ connect_all behind events s, served (run behind events s))
