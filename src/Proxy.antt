-- ===== src/Proxy.antt =====
-- include/tcpServer.hpp and include/tcpClient.hpp: the proxy, which takes bytes from its connections
-- and sends them to the clients it holds for them.
pub mod Greeting
pub mod Sent
pub mod Main
pub mod Routing
use home_keeper.Prelude.{
  ℕ, zero, suc, ◌+◌, ◌-◌, ◌*◌, ◌/◌, ◌%◌, ◌<◌, ◌≤◌, Bool, true, false, not, ◌&&◌, ◌||◌, List, [],
  ◌∷◌, ◌++◌, append-nil, append_assoc, map, Option, none, some, ◌≡◌, ◌≢◌, ◌⊎◌, inl, inr, refl, sym,
  ap, ◌∙◌, subst, ltb, leb, ◌==◌, ==_iff, if◌then◌else◌, ltb→lt, lt→ltb, leb→le, Bool-cases,
  Option-cases, arith, length, length-append, take, drop, replicate, take-append-drop, length-drop,
  length-take, get_elem?, get_or, Bytes, codes, c_str, print_into, NoZero, c_str-NoZero, ◌↔◌,
  bytes_eq, bytes_eq_refl, bytes_eq_sound, bytes_eq_iff, All, All-append, IsByte, ℤ, pos, negsuc,
  eq_ℤ, is_negative, success, failed, set, length-set, NoZero-c_str,
}
use home_keeper.StdMap
use home_keeper.StdMap.{Key, nat_key, lookup-insert}

-- The state of a `tcpServer`: the descriptor of the last `accept`, the map `clients` from
-- descriptors to `tcpClient` objects, which are numbered, and what each client was told to send.
pub record TcpServer : Type 0 where
  pub clnt_sock : ℕ
  pub clients : List (ℕ × ℕ)
  pub sent : List (ℕ × Bytes)

-- An event of the loop: a connection with its descriptor and the number a new client would have;
-- one byte that `read` puts into `buf`; the end of a connection; a `read` that fails.
pub data Event : Type 0 where
  accepts : ℕ → ℕ → Event
  reads : ℕ → ℕ → Event
  closes : ℕ → Event
  fails : ℕ → Event

-- `buf` has one byte and no end: `behind` is what stands behind it in memory.
abbrev pub message : Bytes → ℕ → Bytes
message behind b = c_str (b ∷ behind)

-- One event; `none` is a use of `clients.end ()`.
pub step : Bytes → Event → TcpServer → Option TcpServer
step behind (accepts fd id) s = some (record s {
  clnt_sock = fd;
  clients = elim (StdMap.lookup fd s.clients) [
    | none ↦ StdMap.insert fd id s.clients
    | some client ↦ s.clients
  ];
})
step behind (reads fd b) s = elim (StdMap.lookup s.clnt_sock s.clients) [
  | none ↦ none
  | some client ↦ some (record s { sent = s.sent ++ (client, message behind b) ∷ [] })
]
step behind (closes fd) s = elim (StdMap.lookup fd s.clients) [
  | none ↦ none
  | some client ↦ some (record s { clients = StdMap.erase fd s.clients })
]
step behind (fails fd) s = some s

-- The events in order.
pub run : Bytes → List Event → TcpServer → Option TcpServer
run behind [] s = some s
run behind (e ∷ es) s = elim (step behind e s) [ none ↦ none | some s' ↦ run behind es s' ]

-- Bytes that connections deliver.
abbrev pub deliveries : List (ℕ × ℕ) → List Event
deliveries bytes = map (λ (fd, b). reads fd b) bytes

-- Bytes for one client.
abbrev pub addressed : ℕ → Bytes → List (ℕ × ℕ) → List (ℕ × Bytes)
addressed id behind bytes = map (λ (fd, b). (id, message behind b)) bytes

run-deliveries :
    (behind : Bytes) (bytes : List (ℕ × ℕ)) (s : TcpServer) (id : ℕ)
    → StdMap.lookup s.clnt_sock s.clients ≡ some id
    → run behind (deliveries bytes) s
      ≡ some (record s { sent = s.sent ++ addressed id behind bytes })
unfolding run step
run-deliveries behind [] s id e = ap (λ x. some (record s { sent = x })) (sym (append-nil s.sent))
run-deliveries behind ((fd, b) ∷ bytes) s id e =
    let s' : TcpServer = record s { sent = s.sent ++ (id, message behind b) ∷ [] } in
    ground (
      arith,
      e,
      run-deliveries behind bytes s' id e,
      append_assoc s.sent ((id, message behind b) ∷ []) (addressed id behind bytes),
    )

-- After a connection that is new to the map is accepted, every byte that any connection delivers,
-- up to the next `accept` or end of a connection, is sent by the client of that last connection,
-- whichever connection it came from.
pub accepted_takes_all :
    (behind : Bytes) (fd id : ℕ) (bytes : List (ℕ × ℕ)) (s : TcpServer)
    → StdMap.lookup fd s.clients ≡ none
    → run behind (accepts fd id ∷ deliveries bytes) s
      ≡ some (record s {
        clnt_sock = fd;
        clients = StdMap.insert fd id s.clients;
        sent = s.sent ++ addressed id behind bytes;
      })
unfolding run step
accepted_takes_all behind fd id bytes s e =
    let s' : TcpServer = record s { clnt_sock = fd; clients = StdMap.insert fd id s.clients } in
    ground
      (arith, e, ==_iff fd fd, lookup-insert fd fd id s.clients, run-deliveries behind bytes s' id)
