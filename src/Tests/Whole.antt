-- ===== src/Tests/Whole.antt =====
-- The theorems on whole programs and on the threads that they start, at concrete inputs.
use home_keeper.Prelude.{
  ℤ, ◌==◌, ℕ, ◌-◌, true, List, [], ◌∷◌, ◌++◌, none, some, ◌≡◌, refl, if◌then◌else◌, arith, codes,
  pos, negsuc, success,
}
use home_keeper.Prelude.{◌^◌}
use home_keeper.File.{Stdio, History, new_file, get_res}
use home_keeper.Keeper.{func_map_of, start_keeper, start_keeper_lem}
use home_keeper.HmLog.Setup
use home_keeper.HmLog.Setup.{Settings, new_settings, init, node_init}
use home_keeper.HmLog.Setup.Names.{Configured, set_settings, node_init_lem}
use home_keeper.Device.{Device}
use home_keeper.Proxy.Greeting.{crlf, delivered}
use home_keeper.Proxy.Sent.{greeting, greeting_lem}
use home_keeper.SqlGen.{fields_of, gen_sql}
use home_keeper.SqlGen.Code.{Answers, sql_main, outside, sql_main_lem}
use home_keeper.Watch.{Worker, all_restarts}
use home_keeper.Watch.Start
use home_keeper.Watch.Start.{
  any_pass, again, configured, get_json_int, first_workers, looping, master_main,
  master_main_commands,
}

-- Functions are numbers here, and 0 stands for the empty one.
abbrev nothing : ℕ
nothing = 0

start_keeper_lem_example :
    start_keeper nothing (pos 0) (func_map_of nothing 1 2) [] ≡ (pos 0, (1, none) ∷ (2, none) ∷ [])
start_keeper_lem_example = start_keeper_lem nothing (pos 0) (func_map_of nothing 1 2) refl

-- A library whose files hold two bytes.
abbrev braces : Stdio
braces = record {
  fopen = λ h path mode. some 3;
  fprintf = λ h fp text. pos 0;
  fflush = λ h fp. pos 0;
  fclose = λ h fp. pos 0;
  fread = λ h fp n. codes "{}";
}

abbrev log_host : Setup.Host
log_host = record {
  getenv = λ name. some (codes "1");
  atoi = λ text. 1;
  json_string = λ text key. some (codes "/log");
  stdio = braces;
  today = codes "2020-1-2";
}

log_host-Configured : Configured log_host [] (codes "/log")
log_host-Configured = record {
  fp = 3;
  text = codes "{}";
  opens = refl;
  reads = refl;
  not_empty = λ e. cc;
  no_zero = (omega arith, (omega arith, tt));
  fits = omega arith;
  parsed = refl;
}

node_init_lem_example :
    let link = codes "/bin/node" in
    let s' = set_settings log_host (codes "node") (codes "/log") in
    (h' : History) × (node_init log_host (some link) (some link) new_settings []
      ≡ some (success, codes "node", s', h'))
    × ((e' : Setup.Host) (h2 : History) → init e' (some link) s' h2 ≡ some (success, s', h2))
node_init_lem_example =
    node_init_lem log_host (codes "/bin") (codes "node") (codes "/log") new_settings []
      (omega arith, (omega arith, (omega arith, (omega arith, tt)))) (omega arith) (omega arith)
      refl log_host-Configured

greeting_lem_example :
    greeting (pos 5) (pos 0) (delivered (codes "220 ok" ∷ []) crlf)
      ≡ some (codes "220 ok" ++ crlf, 7)
    × greeting (pos 5) (negsuc 0) (delivered (codes "220 ok" ∷ []) crlf) ≡ some ([], 2 ^ 64 - 1)
greeting_lem_example =
    greeting_lem (codes "220 ok") crlf (codes "220 ok" ∷ []) 5 (omega arith, refl, tt) refl
      (omega arith) (omega arith)

-- A device on port 8080, whose string object starts with the word 7.
abbrev on_8080 : Device
on_8080 = record { type = 0; sock = 8080; string_words = 7 ∷ []; info_ip = [] }

-- One of two calls of `sendto` fails.
abbrev one_fails : List ℤ
one_fails = negsuc 0 ∷ pos 4 ∷ []

abbrev described : Answers
described = record {
  connects = true;
  query = pos 0;
  rows = (codes "ip", codes "varchar(100)") ∷ [];
}

sql_main_lem_example :
    sql_main (λ n. codes "0") 2 described
    ≡ (some (codes "desc "), outside (gen_sql (fields_of described.rows []) []))
sql_main_lem_example = sql_main_lem (λ n. codes "0") 2 described

abbrev two_workers : List Worker
two_workers = record { file = codes "a"; number = 1 } ∷ record { file = codes "b"; number = 2 } ∷ []

-- The commands print a line in the second pass.
abbrev watch_host : Start.Host
watch_host = record {
  getenv = λ name. some (codes "/bin");
  stdio = braces;
  worker_no = λ text. some (pos 2);
  workers = λ text. some two_workers;
  expand = λ format. format;
  output = λ k command. if k == 1 then codes "line" else [];
}

watch_host-configured : configured watch_host (new_file (codes "/bin") none) [] ≡ some two_workers
unfolding configured get_json_int get_res first_workers
watch_host-configured = refl

master_main_commands_example :
    master_main watch_host (pos 0) 2 []
    ≡ looping (codes "/bin/a" ∷ codes "/bin/b" ∷ []) (
        if any_pass watch_host two_workers 0 2
        then none
        else some (again 2 (all_restarts (codes "/bin") two_workers)))
master_main_commands_example =
    master_main_commands watch_host 2 [] two_workers watch_host-configured
