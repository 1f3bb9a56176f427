-- ===== src/Proxy/Routing.antt =====
-- include/tcpServer.hpp: who sends the bytes, described without the map of the clients.
use home_keeper.Prelude.{
  ℕ, Bool, true, false, not, ◌&&◌, ◌||◌, List, [], ◌∷◌, ◌++◌, append-nil, append_assoc, Option,
  none, some, ◌≡◌, inl, inr, refl, sym, ap, ◌==◌, ==_iff, if◌then◌else◌, Option-cases, arith, Bytes,
}
use home_keeper.StdMap
use home_keeper.StdMap.{Key, nat_key, lookup-insert, lookup-erase}
use home_keeper.Proxy.{TcpServer, Event, accepts, reads, closes, fails, message, step, run}

-- The open connections, as the kernel gives their descriptors: a new one is not in use, and only an
-- open one ends.
abbrev pub is_in : ℕ → List ℕ → Bool
is_in fd [] = false
is_in fd (g ∷ open_fds) = g == fd || is_in fd open_fds

abbrev pub without : ℕ → List ℕ → List ℕ
without fd [] = []
without fd (g ∷ open_fds) = let rest = without fd open_fds in if g == fd then rest else g ∷ rest

abbrev pub Kernel : List ℕ → List Event → Type 0
Kernel open_fds [] = Unit
Kernel open_fds (accepts fd id ∷ es) = (is_in fd open_fds ≡ false) × Kernel (fd ∷ open_fds) es
Kernel open_fds (reads fd b ∷ es) = Kernel open_fds es
Kernel open_fds (closes fd ∷ es) = (is_in fd open_fds ≡ true) × Kernel (without fd open_fds) es
Kernel open_fds (fails fd ∷ es) = Kernel open_fds es

-- What is sent, by the connection accepted last and its client, `none` once it has ended; `none` where
-- a byte arrives then.
pub routed : Bytes → ℕ → Option ℕ → List Event → Option (List (ℕ × Bytes))
routed behind last client [] = some []
routed behind last client (accepts fd id ∷ es) = routed behind fd (some id) es
routed behind last none (reads fd b ∷ es) = none
routed behind last (some id) (reads fd b ∷ es) = elim (routed behind last (some id) es) [
  | none ↦ none
  | some sent ↦ some ((id, message behind b) ∷ sent)
]
routed behind last client (closes fd ∷ es) =
    routed behind last (if last == fd then none else client) es
routed behind last client (fails fd ∷ es) = routed behind last client es

-- What the server was told to send, if no use of `clients.end ()` ended it.
abbrev pub sent_of : Option TcpServer → Option (List (ℕ × Bytes))
sent_of none = none
sent_of (some s) = some s.sent

abbrev pub after : List (ℕ × Bytes) → Option (List (ℕ × Bytes)) → Option (List (ℕ × Bytes))
after front none = none
after front (some sent) = some (front ++ sent)

abbrev pub is_some {ℓ} : {A : Type ℓ} → Option A → Bool
is_some none = false
is_some (some a) = true

after-cons :
    (front : List (ℕ × Bytes)) (m : ℕ × Bytes) (o : Option (List (ℕ × Bytes)))
    → after (front ++ m ∷ []) o ≡ after front (elim o [ none ↦ none | some sent ↦ some (m ∷ sent) ])
after-cons front m none = refl
after-cons front m (some sent) = ap some (append_assoc front (m ∷ []) sent)

-- The map has a client for each open connection.
Serves : List ℕ → TcpServer → Type 0
Serves open_fds s = (fd : ℕ) → is_some (StdMap.lookup fd s.clients) ≡ is_in fd open_fds

is_in-without :
    (fd g : ℕ) (open_fds : List ℕ)
    → is_in g (without fd open_fds) ≡ (not (fd == g) && is_in g open_fds)
is_in-without fd g [] = ground arith
is_in-without fd g (o ∷ open_fds) =
    ground (arith, is_in-without fd g open_fds, ==_iff o fd, ==_iff o g, ==_iff fd g)

accepts-Serves :
    (fd id : ℕ) (open_fds : List ℕ) (s : TcpServer)
    → Serves open_fds s
    → Serves (fd ∷ open_fds) (record s { clnt_sock = fd; clients = StdMap.insert fd id s.clients })
unfolding Serves
accepts-Serves fd id open_fds s serves g = ground (arith, lookup-insert fd g id s.clients, serves g)

closes-Serves :
    (fd : ℕ) (open_fds : List ℕ) (s : TcpServer)
    → Serves open_fds s
    → Serves (without fd open_fds) (record s { clients = StdMap.erase fd s.clients })
unfolding Serves
closes-Serves fd open_fds s serves g =
    ground (arith, lookup-erase fd g s.clients, serves g, is_in-without fd g open_fds)

-- Where the kernel gives a new connection a descriptor that is not in use and ends only open ones, and
-- the map has a client for each open connection and no other: the server sends every byte, of whatever
-- connection, by the client of the connection that was accepted last, and uses `clients.end ()` exactly
-- when a byte arrives after that connection has ended.
pub run-routed :
    (behind : Bytes) (es : List Event) (open_fds : List ℕ) (s : TcpServer)
    → Kernel open_fds es
    → ((fd : ℕ) → is_some (StdMap.lookup fd s.clients) ≡ is_in fd open_fds)
    → sent_of (run behind es s)
      ≡ after s.sent (routed behind s.clnt_sock (StdMap.lookup s.clnt_sock s.clients) es)
unfolding run step routed Serves
run-routed behind [] open_fds s k serves = ap some (sym (append-nil s.sent))
run-routed behind (accepts fd id ∷ es) open_fds s (new, k) serves =
    let s' : TcpServer = record s { clnt_sock = fd; clients = StdMap.insert fd id s.clients } in
    let ih = run-routed behind es (fd ∷ open_fds) s' k (accepts-Serves fd id open_fds s serves) in
    ground (arith, serves fd, new, lookup-insert fd fd id s.clients, ==_iff fd fd, ih)
run-routed behind (reads fd b ∷ es) open_fds s k serves =
    elim (Option-cases (StdMap.lookup s.clnt_sock s.clients)) [
      | inl e ↦ ground (arith, e)
      | inr (id, e) ↦
          let m : ℕ × Bytes = (id, message behind b) in
          let s' : TcpServer = record s { sent = s.sent ++ m ∷ [] } in
          let ih = run-routed behind es open_fds s' k serves in
          ground (arith, e, ih, after-cons s.sent m (routed behind s.clnt_sock (some id) es))
    ]
run-routed behind (closes fd ∷ es) open_fds s (old, k) serves =
    let s' : TcpServer = record s { clients = StdMap.erase fd s.clients } in
    let ih = run-routed behind es (without fd open_fds) s' k (closes-Serves fd open_fds s serves) in
    ground (
      arith,
      serves fd,
      old,
      lookup-erase fd s.clnt_sock s.clients,
      ==_iff s.clnt_sock fd,
      ==_iff fd s.clnt_sock,
      ih,
    )
run-routed behind (fails fd ∷ es) open_fds s k serves = run-routed behind es open_fds s k serves
