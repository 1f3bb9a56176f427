-- ===== src/HmLog/Setup.antt =====
-- include/hmLog.hpp: `init` and `setLogPath`, which choose the level and the log file; include/env.hpp:
-- `getValue`; include/file.hpp: `getJsonString`; include/node.hpp: `init`. The environment, the clock and
-- the JSON parser are parameters.
pub mod Names
use home_keeper.Prelude.{
  ℕ, zero, suc, ◌+◌, ◌-◌, ◌*◌, ◌/◌, ◌%◌, ◌<◌, ◌≤◌, Bool, true, false, not, ◌&&◌, ◌||◌, List, [],
  ◌∷◌, ◌++◌, append-nil, append_assoc, map, Option, none, some, ◌≡◌, ◌≢◌, ◌⊎◌, inl, inr, refl, sym,
  ap, ◌∙◌, subst, ltb, leb, ◌==◌, ==_iff, if◌then◌else◌, ltb→lt, lt→ltb, leb→le, Bool-cases,
  Option-cases, arith, length, length-append, take, drop, replicate, take-append-drop, length-drop,
  length-take, get_elem?, get_or, Bytes, codes, c_str, print_into, NoZero, c_str-NoZero, ◌↔◌,
  bytes_eq, bytes_eq_refl, bytes_eq_sound, bytes_eq_iff, All, All-append, IsByte, ℤ, pos, negsuc,
  eq_ℤ, is_negative, success, failed, set, length-set, NoZero-c_str,
}
use home_keeper.Email.{find_last_of, slash}
use home_keeper.File.{Stdio, History, File, new_file, set_path, get_res}

-- `getValue`, by what `getenv` finds.
abbrev pub get_value : Option Bytes → Bytes
get_value none = []
get_value (some text) = text

-- What `js[key]` of the parsed text gives as a string; `none` for an exception.
abbrev pub JsonString : Type 0
JsonString = Bytes → Bytes → Option Bytes

-- `getJsonString`; `none` for an exception of the parser and for a text that overruns `buf`.
pub get_json_string : Stdio → JsonString → Bytes → File → History → Option Bytes × History
get_json_string c json_string key f h = elim (get_res c f h).0 [
  | none ↦ (none, (get_res c f h).1)
  | some [] ↦ (some [], (get_res c f h).1)
  | some (b ∷ text) ↦ (json_string (b ∷ text) key, (get_res c f h).1)
]

-- The end of `getNodeName` and of `processName`: what follows the last slash of what `readlink` puts
-- into 1024 bytes. `none` where `readlink` fills the buffer, so that the text has no end, and where
-- there is no slash and `strrchr` gives a null pointer.
pub process_name : Bytes → Option Bytes
process_name link =
    if ltb (length link) 1024
    then elim (find_last_of (c_str link) slash) [
      | none ↦ none
      | some n ↦ some (drop (n + 1) (c_str link))
    ]
    else none

-- The fields that `init` sets: `processName`, `cfgPath`, `logPath`, the level, `logfile` and `initFlag`.
pub record Settings : Type 0 where
  pub process_name : Bytes
  pub cfg_path : Bytes
  pub log_path : Bytes
  pub current_log_level : ℕ
  pub logfile : Option File
  pub init_flag : ℕ

abbrev pub new_settings : Settings
new_settings = record {
  process_name = [];
  cfg_path = [];
  log_path = [];
  current_log_level = 1;
  logfile = none;
  init_flag = 0;
}

-- The name of a log file: `today` is what the time's numbers print, as in 2020-1-2.
pub log_name : Bytes → Bytes → Bytes → Bytes
log_name log_path today name =
    log_path ++ codes "/" ++ print_into 100 (today ++ codes "-" ++ name) ++ codes ".log"

abbrev map_file : (File → File) → Option File → Option File
map_file f none = none
map_file f (some file) = some (f file)

-- `setLogPath`
abbrev pub set_log_path : Bytes → Settings → Settings
set_log_path today s = record s {
  logfile = map_file (set_path (log_name s.log_path today s.process_name)) s.logfile;
}

-- What `init` asks: the environment, `atoi` (for levels from 0 on), the parser, stdio and the day.
pub record Host : Type 0 where
  pub getenv : Bytes → Option Bytes
  pub atoi : Bytes → ℕ
  pub json_string : JsonString
  pub stdio : Stdio
  pub today : Bytes

-- The body of `init` once the name is known and `initFlag` is 0; `none` where the process ends.
abbrev pub set_up : Host → Settings → History → Option (ℤ × Settings × History)
set_up e s h =
    let cfg_path = get_value (e.getenv (codes "cfg_path")) in
    let level = e.atoi (get_value (e.getenv (codes "LOG_LEVEL"))) in
    let (read, h') =
      get_json_string e.stdio e.json_string (codes "log_path") (new_file cfg_path none) h in
    elim read [
      | none ↦ none
      | some log_path ↦ some (
        success,
        record {
          process_name = s.process_name;
          cfg_path = cfg_path;
          log_path = log_path;
          current_log_level = level;
          logfile = some (new_file (log_name log_path e.today s.process_name) none);
          init_flag = 1;
        },
        h',
      )
    ]

-- `init` with a name.
abbrev pub init_named : Host → Bytes → Settings → History → Option (ℤ × Settings × History)
init_named e name s h =
    if s.init_flag == 0
    then set_up e (record s { process_name = name }) h
    else some (success, record s { process_name = name }, h)

-- `init`, by what `readlink` gives (`none` for -1). Its parameter, the level, is not used.
unfoldable pub init : Host → Option Bytes → Settings → History → Option (ℤ × Settings × History)
init e none s h = some (negsuc 0, s, h)
init e (some []) s h = some (negsuc 0, s, h)
init e (some (b ∷ link)) s h = elim (process_name (b ∷ link)) [
  | none ↦ none
  | some name ↦ init_named e name s h
]

-- `node::init`: the result, `nodeName` and the log, by the results of both calls of `readlink`.
pub node_init :
    Host
    → Option Bytes
    → Option Bytes
    → Settings
    → History
    → Option (ℤ × Bytes × Settings × History)
node_init e link again s h = elim (init e link s h) [
  | none ↦ none
  | some (ret, s', h') ↦ if not (eq_ℤ ret success) then some (failed, [], s', h') else elim again [
    | none ↦ some (failed, [], s', h')
    | some [] ↦ some (failed, [], s', h')
    | some (b ∷ text) ↦ elim (process_name (b ∷ text)) [
      | none ↦ none
      | some name ↦ some (success, name, s', h')
    ]
  ]
]
