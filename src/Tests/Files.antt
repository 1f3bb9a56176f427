-- ===== src/Tests/Files.antt =====
-- The theorems on the files that the program writes and on its log at concrete inputs.
use home_keeper.Prelude.{
  ℕ, ◌≤◌, List, [], ◌∷◌, ◌++◌, Option, none, some, ◌≡◌, refl, ap, if◌then◌else◌, leb, arith, length,
  take, Bytes, codes, NoZero, bytes_eq, pos, negsuc, success, NoZero-c_str,
}
use home_keeper.File.{
  Stdio, History, opened, printed, flushed, closed, fetched, File, new_file, write, get_res,
}
use home_keeper.File.Contents.{Disk, Works, added, appends_to, opened-appends_to, get_res-write}
use home_keeper.HmLog.{Entry, Step, inserts, prints, logged, print_logs, log_in}
use home_keeper.HmLog.Setup.{Host, Settings, new_settings, log_name, init}
use home_keeper.HmLog.Setup.Names.{Deployed, Configured, set_settings}
use home_keeper.HmLog.Output.{Output, tem_buf}
use home_keeper.HmLog.Output.Lines.{line, tem_buf_lem, Dated, records, filed, Shown}
use home_keeper.HmLog.Output.Missing.{session_missing}
use home_keeper.HmLog.Shutdown.{is_empty}
use mathlib.Core.Option
use home_keeper.HmLog.Output.Session.{session, session_lem}

-- The configuration file holds two bytes, the others nothing.
abbrev pub at_first : Bytes → Bytes
at_first path = if bytes_eq path (codes "/cfg") then codes "{}" else []

-- What a file holds in memory, by the calls.
abbrev pub held : History → Bytes → Bytes
held [] q = at_first q
held (opened path mode r ∷ h) q = held h q
held (printed fp text (pos n) ∷ h) q = elim (appends_to fp h) [
  | none ↦ held h q
  | some path ↦ held h q ++ added path text q
]
held (printed fp text (negsuc n) ∷ h) q = held h q
held (flushed fp r ∷ h) q = held h q
held (closed fp r ∷ h) q = held h q
held (fetched fp ∷ h) q = held h q

-- The file that the last call opened.
abbrev pub read_now : History → ℕ → Bytes
read_now h fp = elim (appends_to fp h) [ none ↦ [] | some path ↦ held h path ]

abbrev pub memory : Stdio
memory = record {
  fopen = λ h path mode. some 3;
  fprintf = λ h fp text. pos (length text);
  fflush = λ h fp. pos 0;
  fclose = λ h fp. pos 0;
  fread = λ h fp n. take n (read_now h fp);
}

pub memory-Works : Works memory
memory-Works = record {
  fopen_lem = λ h path mode. (3, refl);
  fprintf_lem = λ h fp text. (length text, refl);
  fflush_lem = λ h fp. (0, refl);
  fclose_lem = λ h fp. (0, refl);
}

pub held-printed :
    (h : History) (fp n : ℕ) (path text q : Bytes)
    → appends_to fp h ≡ some path
    → held (printed fp text (pos n) ∷ h) q ≡ held h q ++ added path text q
held-printed h fp n path text q e = rw (e, held) refl

pub read_now-opened :
    (h : History) (fp : ℕ) (path mode : Bytes)
    → mode ≡ codes "at+"
    → read_now (opened path mode (some fp) ∷ h) fp ≡ held h path
read_now-opened h fp path mode m =
    ap
      (λ (o : Option Bytes). elim o [
        | none ↦ []
        | some file ↦ held (opened path mode (some fp) ∷ h) file
      ])
      (opened-appends_to fp path mode h m)

abbrev pub memory-Disk : Disk memory
memory-Disk = record {
  holds = held;
  holds-opened = λ h path mode r q m. refl;
  holds-printed = held-printed;
  holds-flushed = λ h fp n q. refl;
  holds-closed = λ h fp n q. refl;
  fread_lem = λ h fp n path mode m. ap (take n) (read_now-opened h fp path mode m);
}

abbrev notes : File
notes = new_file (codes "/notes") none

get_res-write_example :
    (get_res memory notes (write memory notes (codes "abc") []).1).0 ≡ some (codes "abc")
get_res-write_example =
    get_res-write memory memory-Works memory-Disk notes (codes "abc") [] refl
      (omega arith, (omega arith, (omega arith, tt))) tt (omega arith)

abbrev pub late : Entry
late = record {
  level = 2;
  time = codes "2020-1-2 3:4:5";
  head = codes "1:1:f:g:1:";
  text = codes "late";
}

tem_buf_lem_example :
    (tem_buf (log_in late) ≡ some (line (log_in late)))
    × (length (line (log_in late)) ≤ 10501)
    × NoZero (line (log_in late))
tem_buf_lem_example = tem_buf_lem late (omega arith)

abbrev pub host : Host
host = record {
  getenv = λ name. some (if bytes_eq name (codes "cfg_path") then codes "/cfg" else codes "1");
  atoi = λ text. 1;
  json_string = λ text key. some (codes "/log");
  stdio = memory;
  today = codes "2020-1-2";
}

abbrev some_steps : List Step
some_steps = prints ∷ inserts late ∷ prints ∷ inserts late ∷ []

abbrev pub log_settings : Settings
log_settings = set_settings host (codes "node") (codes "/log")

-- Midnight comes after six calls of stdio.
abbrev pub clock : History → Bytes
clock h = if leb 6 (length h) then codes "2020-1-3" else codes "2020-1-2"

host-Configured : Configured host [] (codes "/log")
host-Configured = record {
  fp = 3;
  text = codes "{}";
  opens = refl;
  reads = refl;
  not_empty = λ e. cc;
  no_zero = (omega arith, (omega arith, tt));
  fits = omega arith;
  parsed = refl;
}

pub node-Deployed : Deployed host (codes "/bin") (codes "node") (codes "/log") new_settings []
node-Deployed = record {
  lacks = (omega arith, (omega arith, (omega arith, (omega arith, tt))));
  no_zero = NoZero-c_str (codes "/bin/node");
  short = omega arith;
  not_set = refl;
  configured = host-Configured;
}

session_lem_example :
    (h' : History) × (o : Output) × (ds : Dated) × (init host
        (some (codes "/bin/node"))
        new_settings
        []
      ≡ some (success, log_settings, h'))
    × (session host clock (some (codes "/bin/node")) new_settings [] some_steps ≡ some o)
    × (records ds ≡ print_logs 1 (logged some_steps))
    × Shown clock ds
    × ((q : Bytes)
        → held o.calls q
          ≡ held h' q ++ filed (λ day. log_name (codes "/log") day (codes "node")) ds q)
session_lem_example =
    session_lem host clock (codes "/bin") (codes "node") (codes "/log") new_settings [] some_steps
      memory-Works memory-Disk node-Deployed (omega arith, (omega arith, tt))

session_missing_example :
    Option.map (λ o. o.calls) (session host clock none new_settings [] some_steps)
    ≡ (if is_empty (print_logs 1 (logged some_steps)) then some [] else none)
session_missing_example = session_missing host clock new_settings [] some_steps refl
