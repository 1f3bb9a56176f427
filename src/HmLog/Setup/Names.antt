-- ===== src/HmLog/Setup/Names.antt =====
-- include/hmLog.hpp and include/node.hpp: what `init` finds and leaves.
use home_keeper.Prelude.{
  ℕ, ◌*◌, ◌<◌, [], ◌∷◌, ◌++◌, none, some, ◌≡◌, ◌≢◌, refl, ◌∙◌, lt→ltb, length, Bytes, codes, NoZero,
  c_str-NoZero, success,
}
use home_keeper.Email.{slash}
use home_keeper.Email.Names.{Lacks, drop_front, find_last_of-append}
use home_keeper.File.{History, File, opened, new_file, get_res}
use home_keeper.File.Safety.{get_res_bytes}
use home_keeper.HmLog.Setup.{
  Host, Settings, get_value, get_json_string, process_name, log_name, init_named, init, node_init,
  set_up,
}

-- Where the text is shorter than the buffer, `processName` is what follows its last slash.
pub process_name_lem :
    (front name : Bytes)
    → Lacks slash name
    → NoZero (front ++ slash ∷ name)
    → length (front ++ slash ∷ name) < 1024
    → process_name (front ++ slash ∷ name) ≡ some name
unfolding process_name
process_name_lem front name h z l =
    rw
      (
        lt→ltb _ _ l,
        c_str-NoZero (front ++ slash ∷ name) z,
        find_last_of-append front name slash h,
        c_str-NoZero (front ++ slash ∷ name) z,
        drop_front front name slash,
      )
      refl

-- Once the name is known, `init` answers from it.
init_by_name :
    (e : Host) (link name : Bytes) (s : Settings) (h : History)
    → process_name link ≡ some name
    → link ≢ []
    → init e (some link) s h ≡ init_named e name s h
unfolding init
init_by_name e [] name s h p n = absurd (n refl)
init_by_name e (b ∷ link) name s h p n = rw (init, p) refl

node_init_by_name :
    (e : Host) (link name : Bytes) (s s' : Settings) (h h' : History)
    → process_name link ≡ some name
    → link ≢ []
    → init_named e name s h ≡ some (success, s', h')
    → node_init e (some link) (some link) s h ≡ some (success, name, s', h')
unfolding node_init init
node_init_by_name e [] name s s' h h' p n d = absurd (n refl)
node_init_by_name e (b ∷ link) name s s' h h' p n d = rw (node_init, init, p, d, p) refl

not_nil : (front name : Bytes) (c : ℕ) → front ++ c ∷ name ≢ []
not_nil [] name c e = cc
not_nil (b ∷ front) name c e = cc

-- What `init` leaves at its first success.
abbrev pub set_settings : Host → Bytes → Bytes → Settings
set_settings e name log_path = record {
  process_name = name;
  cfg_path = get_value (e.getenv (codes "cfg_path"));
  log_path = log_path;
  current_log_level = e.atoi (get_value (e.getenv (codes "LOG_LEVEL")));
  logfile = some (new_file (log_name log_path e.today name) none);
  init_flag = 1;
}

-- The configuration file opens, holds `text`, and the parser finds `log_path` in it.
pub record Configured (e : Host) (h : History) (log_path : Bytes) : Type 0 where
  pub fp : ℕ
  pub text : Bytes
  pub opens : e.stdio.fopen h (get_value (e.getenv (codes "cfg_path"))) (codes "at+") ≡ some fp
  pub reads :
      e.stdio.fread
        (opened (get_value (e.getenv (codes "cfg_path"))) (codes "at+") (some fp) ∷ h)
        fp
        (1024 * 1024)
      ≡ text
  pub not_empty : text ≢ []
  pub no_zero : NoZero text
  pub fits : length text < 1024
  pub parsed : e.json_string text (codes "log_path") ≡ some log_path

get_json_string_found :
    (e : Host) (f : File) (h : History) (text key : Bytes)
    → (get_res e.stdio f h).0 ≡ some text
    → text ≢ []
    → (get_json_string e.stdio e.json_string key f h).0 ≡ e.json_string text key
unfolding get_json_string
get_json_string_found e f h [] key g n = absurd (n refl)
get_json_string_found e f h (b ∷ text) key g n = rw (get_json_string, g) refl

config_lem :
    (e : Host) (h : History) (log_path : Bytes)
    → Configured e h log_path
    → (get_json_string e.stdio e.json_string
        (codes "log_path")
        (new_file (get_value (e.getenv (codes "cfg_path"))) none)
        h).0
      ≡ some log_path
config_lem e h log_path c =
    let f = new_file (get_value (e.getenv (codes "cfg_path"))) none in
    let read : (get_res e.stdio f h).0 ≡ some c.text =
      get_res_bytes e.stdio f h c.fp c.opens c.text c.reads c.no_zero
      ∙ rw (lt→ltb _ _ c.fits) refl in
    get_json_string_found e f h c.text (codes "log_path") read c.not_empty ∙ c.parsed

-- A program that stands at a path shorter than 1024 bytes, with a configuration file that holds a
-- log path, and whose log is not set up yet: `node::init` succeeds, takes what follows the last slash
-- for the name of the node, and gives the log the level, the path and the file that the environment,
-- the configuration and the day say. Every later `init` from the same path succeeds and changes
-- nothing, whatever the environment.
pub node_init_lem :
    (e : Host) (front name log_path : Bytes) (s : Settings) (h : History)
    → Lacks slash name
    → NoZero (front ++ slash ∷ name)
    → length (front ++ slash ∷ name) < 1024
    → s.init_flag ≡ 0
    → Configured e h log_path
    → let link = front ++ slash ∷ name in
      let s' = set_settings e name log_path in
      (h' : History) × (node_init e (some link) (some link) s h ≡ some (success, name, s', h'))
      × ((e' : Host) (h2 : History) → init e' (some link) s' h2 ≡ some (success, s', h2))
node_init_lem e front name log_path s h l z fits fresh c =
    let link = front ++ slash ∷ name in
    let s' = set_settings e name log_path in
    let p = process_name_lem front name l z fits in
    let n = not_nil front name slash in
    let f = new_file (get_value (e.getenv (codes "cfg_path"))) none in
    (
      (get_json_string e.stdio e.json_string (codes "log_path") f h).1,
      node_init_by_name e link name s s' h _ p n
          (rw (fresh, set_up, config_lem e h log_path c) refl),
      λ e' h2. init_by_name e' link name s' h2 p n,
    )

-- A program stands at a path shorter than 1024 bytes, its log is not set up yet, and a configuration
-- file holds the path for logs.
pub record Deployed (e : Host) (front name log_path : Bytes) (s : Settings) (h : History)
    : Type 0 where
  pub lacks : Lacks slash name
  pub no_zero : NoZero (front ++ slash ∷ name)
  pub short : length (front ++ slash ∷ name) < 1024
  pub not_set : s.init_flag ≡ 0
  pub configured : Configured e h log_path

-- The first `init` of such a program.
pub init_lem :
    (e : Host) (front name log_path : Bytes) (s : Settings) (h : History)
    → Deployed e front name log_path s h
    → (h' : History) × (init e (some (front ++ slash ∷ name)) s h
        ≡ some (success, set_settings e name log_path, h'))
init_lem e front name log_path s h d =
    let link = front ++ slash ∷ name in
    let p = process_name_lem front name d.lacks d.no_zero d.short in
    let f = new_file (get_value (e.getenv (codes "cfg_path"))) none in
    (
      (get_json_string e.stdio e.json_string (codes "log_path") f h).1,
      init_by_name e link name s h p (not_nil front name slash)
          ∙ rw (d.not_set, set_up, config_lem e h log_path d.configured) refl,
    )
