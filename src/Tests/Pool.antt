-- ===== src/Tests/Pool.antt =====
-- The theorems on the pool, the proxy, the node and the days of `sendFile` at concrete inputs.
use home_keeper.Prelude.{
  ℕ, Bool, true, false, List, [], ◌∷◌, ◌++◌, none, some, ◌≡◌, refl, if◌then◌else◌, Bytes, codes,
  pos, negsuc, eq_ℤ, success, failed,
}
use native.Mathlib.Nat.{ℕ_set}
use home_keeper.StdMap
use home_keeper.StdMap.{nat_key}
use home_keeper.HmLog.Setup.{new_settings}
use home_keeper.HmLog.Setup.Names.{set_settings, init_lem}
use home_keeper.ThreadPool.Blocks
use home_keeper.ThreadPool.Blocks.Frees
use home_keeper.ThreadPool.Blocks.Frees.{destroy_lem}
use home_keeper.ThreadPool.Classes.{Calls, SortedTable, table_of, calls_of, calls-tables}
use home_keeper.Proxy.{TcpServer, Event, accepts, reads, closes, fails, message}
use home_keeper.Proxy
use home_keeper.Proxy.Routing.{routed, sent_of, after, run-routed}
use home_keeper.Tables.DownloadFile.{FileInfo, new_download_file, read_row}
use home_keeper.Tables.EmailInfo
use home_keeper.Tests.Work.{recipient}
use home_keeper.Jobs.SendFile
use home_keeper.Jobs.Retries.{
  Day, Offers, send_file, outer, events, day_events, delivered, gives_up, marks, send_file_retries,
}
use home_keeper.Device.Sockets.{udp_client, udp_server, send_loop, inaddr_broadcast}
use home_keeper.Node.{Memory, node_main, client_thread, server_thread, node_port, node_main_lem}
use home_keeper.Tests.Files.{host, node-Deployed}

-- Two names, one of them twice: its first block is lost.
abbrev three_calls : List (Bytes × Bool)
three_calls = (codes "a", true) ∷ (codes "b", false) ∷ (codes "a", true) ∷ []

destroy_lem_example :
    let s = Blocks.set_all three_calls Blocks.empty_store in
    let r = Blocks.start_threads s.funcs s.heap in
    (s' : Blocks.Store) × (Blocks.destroy r.0 (record s { heap = r.1 }) ≡ some s')
    × ((q : ℕ) → s'.heap.is_live q ≡ Frees.left s q)
    × ((p : ℕ) (ps : List ℕ) → Blocks.blocks s.funcs ≡ p ∷ ps → Blocks.destroy [] s' ≡ none)
destroy_lem_example = destroy_lem three_calls

-- Functions are numbers here, and 0 stands for the empty one.
abbrev nothing : ℕ
nothing = 0

calls-tables_example :
    ((q : Calls nothing) → calls_of nothing (table_of nothing ℕ_set q) ≡ q)
    × ((t : SortedTable nothing) → table_of nothing ℕ_set (calls_of nothing t) ≡ t)
calls-tables_example = calls-tables nothing ℕ_set

abbrev no_client : TcpServer
no_client = record { clnt_sock = 0; clients = []; sent = [] }

-- The first connection's byte goes to the second client, and the second connection ends.
abbrev two_connections : List Event
two_connections = accepts 5 1 ∷ accepts 6 2 ∷ reads 5 65 ∷ closes 6 ∷ fails 5 ∷ []

run-routed_example :
    sent_of (Proxy.run [] two_connections no_client) ≡ after [] (routed [] 0 none two_connections)
unfolding StdMap.lookup
run-routed_example =
    run-routed [] two_connections [] no_client (refl, (refl, (refl, tt))) (λ fd. refl)

abbrev good_round : SendFile.Round
good_round = record {
  query = record {
    execute = success;
    store = success;
    rows = record { file_name = codes "n" ++ 0 ∷ []; path = codes "/n" ++ 0 ∷ [] } ∷ [];
    last = pos 100;
  };
  mail_rows = recipient ∷ [];
  mail_last = pos 100;
  execute = success;
  commit = success;
  deliver = λ k s. true;
}

abbrev one_info : FileInfo
one_info = record { file_name = codes "n"; path = codes "/n" }

good_round-Offers : Offers (codes "?") one_info good_round
unfolding new_download_file read_row
good_round-Offers = record { others = []; through = refl; first = refl }

abbrev bad_round : SendFile.Round
bad_round = record good_round { deliver = λ k s. false }

bad_round-Offers : Offers [] one_info bad_round
unfolding new_download_file read_row
bad_round-Offers = record { others = []; through = refl; first = refl }

abbrev bad_day : Day
bad_day = record { failures = []; memory = []; round = bad_round }

abbrev good_day : Day
good_day = record { failures = (failed, success) ∷ []; memory = codes "?"; round = good_round }

is_delivered : delivered one_info good_round ≡ true
is_delivered = rw (EmailInfo.get_res_fresh (recipient ∷ []) (pos 100)) refl

is_refused : delivered one_info bad_round ≡ false
is_refused = rw (EmailInfo.get_res_fresh (recipient ∷ []) (pos 100)) refl

send_file_retries_example :
    send_file
      (events (bad_day ∷ []) (day_events good_day.failures good_day.memory good_round []))
      (outer [])
    ≡ some (gives_up ∷ marks one_info ∷ [])
send_file_retries_example =
    send_file_retries one_info (bad_day ∷ []) good_day [] (tt, (bad_round-Offers, is_refused), tt)
      (refl, tt) good_round-Offers is_delivered

abbrev no_memory : Memory
no_memory = record { string_words = []; info_ip = [] }

node_main_lem_example :
    let link = some (codes "/bin/node") in
    (node_main host link new_settings [] no_memory no_memory
      ≡ some (
          if eq_ℤ success (pos 0)
          then (pos 0, client_thread ∷ server_thread no_memory ∷ [])
          else (negsuc 0, [])))
    × (udp_client (pos 3) (pos 0) [] client_thread.1 ≡ none)
    × (udp_server (pos 3) (pos 4 ∷ negsuc 0 ∷ []) 0 (server_thread no_memory).1
        ≡ some (
            send_loop
              (pos 4 ∷ negsuc 0 ∷ [])
              (record { address = inaddr_broadcast; port = node_port; text = codes "test" })))
node_main_lem_example =
    let (h', e) =
      init_lem host (codes "/bin") (codes "node") (codes "/log") new_settings [] node-Deployed in
    node_main_lem host (some (codes "/bin/node")) new_settings [] no_memory no_memory success
      (set_settings host (codes "node") (codes "/log")) h' e 3 0 (pos 4 ∷ negsuc 0 ∷ []) (pos 0) []
