-- ===== src/Device/Sockets.antt =====
-- include/device.hpp: `udpServer` and `udpClient`. The calls of the socket library are lists of what
-- they return; `sleep` and the log's heads are left out.
use home_keeper.Prelude.{
  ℕ, suc, ◌%◌, ◌^◌, List, [], ◌∷◌, ◌++◌, Option, none, some, ltb, ◌==◌, if◌then◌else◌, length, drop,
  replicate, Bytes, codes, c_str, ℤ, is_negative,
}
use home_keeper.Device.{
  Device, no_work, udp_server_broadcast, udp_client_broadcast, read_info, init, name_of,
}
use home_keeper.ThreadPool.{Funcs, start_func}

-- A datagram: address and port, both as the numbers that `htonl` and `htons` take, and the bytes.
pub record Datagram : Type 0 where
  pub address : ℕ
  pub port : ℕ
  pub text : Bytes

-- INADDR_BROADCAST and INADDR_ANY
abbrev pub inaddr_broadcast : ℕ
inaddr_broadcast = 4294967295

abbrev pub inaddr_any : ℕ
inaddr_any = 0

-- One pass of the loop of `udpServer` for each result of `sendto`: a failure is only logged.
pub send_loop : List ℤ → Datagram → List Datagram
send_loop [] d = []
send_loop (ret ∷ rets) d = let rest = send_loop rets d in if is_negative ret then rest else d ∷ rest

-- `udpServer`, by the result of `socket`, the results of `sendto` and the address that `inet_addr`
-- reads of `info->ip`: the datagrams it sends; `none` where it reads behind the block.
unfoldable pub udp_server : ℤ → List ℤ → ℕ → Option (List ℕ) → Option (List Datagram)
udp_server socket rets ip para = elim (read_info para) [
  | none ↦ none
  | some (type, sock) ↦ some (
      if is_negative socket
      then []
      else send_loop rets (record {
        address = if type == udp_server_broadcast then inaddr_broadcast else ip;
        port = sock % 2 ^ 16;
        text = codes "test";
      }))
]

-- What `recvfrom` puts over the bytes of `buff`.
abbrev pub received : Bytes → Bytes → Bytes
received bytes buff = bytes ++ drop (length bytes) buff

-- The loop of `udpClient` over the results of `recvfrom` (`none` for a failure): the texts it logs;
-- `none` where `buff` has no end.
pub receive_loop : List (Option Bytes) → Bytes → Option (List Bytes)
receive_loop [] buff = some []
receive_loop (none ∷ calls) buff = receive_loop calls buff
receive_loop (some bytes ∷ calls) buff =
    let buff' = received bytes buff in
    let rest = receive_loop calls buff' in
    if ltb (length (c_str buff')) (length buff')
    then elim rest [ none ↦ none | some texts ↦ some (c_str buff' ∷ texts) ]
    else none

abbrev pub buff_size : ℕ
buff_size = 10240

-- What `udpClient` gives to `bind`.
abbrev pub bound_to : ℕ × ℕ → ℕ × ℕ
bound_to (type, sock) =
    (if type == udp_client_broadcast then inaddr_broadcast else inaddr_any, sock % 2 ^ 16)

-- `udpClient`, by the results of `socket`, `bind` and `recvfrom`: what it binds to, if it comes to
-- that, and the texts it logs.
unfoldable pub udp_client :
    ℤ → ℤ → List (Option Bytes) → Option (List ℕ) → Option (Option (ℕ × ℕ) × List Bytes)
udp_client socket bind calls para = elim (read_info para) [
  | none ↦ none
  | some info ↦
      if is_negative socket
      then some (none, [])
      else if is_negative bind
      then some (some (bound_to info), [])
      else elim (receive_loop calls (replicate buff_size 0)) [
        | none ↦ none
        | some texts ↦ some (some (bound_to info), texts)
      ]
]

-- Every call of `sendto` that succeeds sends the same datagram.
abbrev pub successes : List ℤ → ℕ
successes [] = 0
successes (ret ∷ rets) = if is_negative ret then successes rets else suc (successes rets)

-- What the pool hands to the thread that it starts for a device.
abbrev pub block_of : Device → Funcs no_work → Option (List ℕ)
block_of d funcs = (start_func no_work (init d funcs) (name_of d.type)).1
