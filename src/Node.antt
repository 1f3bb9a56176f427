-- ===== src/Node.antt =====
-- node/node.cpp: `main`, with the constructor of `device` (include/device.hpp). `start` waits for its
-- threads, so that a result with threads is reached only once they have ended.
use home_keeper.Prelude.{
  ℕ, not, List, [], ◌∷◌, Option, none, some, ◌≡◌, refl, if◌then◌else◌, arith, take, Bytes, codes, ℤ,
  pos, negsuc, eq_ℤ,
}
use home_keeper.File.{History}
use home_keeper.HmLog.Setup.{Host, Settings, init}
use home_keeper.StdMap.{bytes_key, insert, lookup}
use home_keeper.ThreadPool.{Funcs, set_function, start, start_lem}
use home_keeper.Device
use home_keeper.Device.{
  Device, Work, no_work, run_udp_server, run_udp_client, from_info, info_words,
  udp_server_broadcast, udp_client_broadcast,
}
use home_keeper.Device.Sockets.{inaddr_broadcast, send_loop, udp_server, udp_client}

-- What the machine puts into a device: the words of the empty string `ip`, and those of `info.ip`.
pub record Memory : Type 0 where
  pub string_words : List ℕ
  pub info_ip : List ℕ

-- The constructor of `device`, for an empty address.
abbrev pub new_device : ℕ → ℕ → Memory → Device
new_device type socket m = record {
  type = type;
  sock = socket;
  string_words = m.string_words;
  info_ip = m.info_ip;
}

abbrev pub node_port : ℕ
node_port = 57950

-- The two calls of `init` of the devices; both return 0.
pub node_funcs : Memory → Memory → Funcs no_work
node_funcs m_s m_c =
    let d_s = new_device udp_server_broadcast node_port m_s in
    let d_c = new_device udp_client_broadcast node_port m_c in Device.init d_c (Device.init d_s [])

-- `main`: its result and the threads of the pool, by what they run; `none` where `init` of the log
-- ends the process.
pub node_main :
    Host
    → Option Bytes
    → Settings
    → History
    → Memory
    → Memory
    → Option (ℤ × List (Work × Option (List ℕ)))
node_main e link s h m_s m_c = elim (init e link s h) [
  | none ↦ none
  | some (ret, s', h') ↦ some (
      if not (eq_ℤ ret (pos 0))
      then (negsuc 0, [])
      else (pos 0, start no_work (node_funcs m_s m_c)))
]

-- What the pool starts.
abbrev pub client_thread : Work × Option (List ℕ)
client_thread = (run_udp_client, some (node_port ∷ []))

abbrev pub server_thread : Memory → Work × Option (List ℕ)
server_thread m =
    (run_udp_server, some (take info_words (udp_server_broadcast ∷ node_port ∷ m.info_ip)))

start-node_funcs :
    (m_s m_c : Memory) → start no_work (node_funcs m_s m_c) ≡ client_thread ∷ server_thread m_s ∷ []
unfolding node_funcs Device.init set_function insert lookup
start-node_funcs m_s m_c = start_lem no_work (node_funcs m_s m_c) refl

-- Where `init` of the log succeeds, `main` starts `udpClient` and then `udpServer`, in the order of
-- their names; the client reads behind its block, and the server, where its socket opens, sends the
-- text to port 57950 of the broadcast address once for each call of `sendto` that succeeds. Where
-- `init` fails, `main` returns -1 and starts nothing.
pub node_main_lem :
    (e : Host) (link : Option Bytes) (s : Settings) (h : History) (m_s m_c : Memory)
    → (ret : ℤ) (s' : Settings) (h' : History) → init e link s h ≡ some (ret, s', h')
    → (socket ip : ℕ) (rets : List ℤ) (bind : ℤ) (calls : List (Option Bytes))
    → (node_main e link s h m_s m_c
        ≡ some (
            if eq_ℤ ret (pos 0)
            then (pos 0, client_thread ∷ server_thread m_s ∷ [])
            else (negsuc 0, [])))
      × (udp_client (pos socket) bind calls client_thread.1 ≡ none)
      × (udp_server (pos socket) rets ip (server_thread m_s).1
          ≡ some (
              send_loop rets
                (record { address = inaddr_broadcast; port = node_port; text = codes "test" })))
unfolding node_main udp_client udp_server
node_main_lem e link s h m_s m_c ret s' h' i socket ip rets bind calls =
    (rw (i, node_main) (ground (arith, start-node_funcs m_s m_c)), refl, refl)
