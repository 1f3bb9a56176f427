-- ===== src/HmLog/Output.antt =====
-- include/hmLog.hpp: the loop of `printLog` that prints each record and appends it to the log file. The
-- clock is a parameter; what level 0 prints to the terminal is left out.
pub mod Lines
pub mod Files
pub mod Machine
pub mod Whole
pub mod Session
pub mod Missing
use home_keeper.Prelude.{
  ℕ, zero, suc, ◌+◌, ◌-◌, ◌*◌, ◌/◌, ◌%◌, ◌<◌, ◌≤◌, Bool, true, false, not, ◌&&◌, ◌||◌, List, [],
  ◌∷◌, ◌++◌, append-nil, append_assoc, map, Option, none, some, ◌≡◌, ◌≢◌, ◌⊎◌, inl, inr, refl, sym,
  ap, ◌∙◌, subst, ltb, leb, ◌==◌, ==_iff, if◌then◌else◌, ltb→lt, lt→ltb, leb→le, Bool-cases,
  Option-cases, arith, length, length-append, take, drop, replicate, take-append-drop, length-drop,
  length-take, get_elem?, get_or, Bytes, codes, c_str, print_into, NoZero, c_str-NoZero, ◌↔◌,
  bytes_eq, bytes_eq_refl, bytes_eq_sound, bytes_eq_iff, All, All-append, IsByte, ℤ, pos, negsuc,
  eq_ℤ, is_negative, success, failed, set, length-set, NoZero-c_str,
}
use home_keeper.Prelude.{NoZero-append, take_below, print_into-NoZero, All-map}
use home_keeper.File.{Stdio, History, File, write, write_chars, set_path}
use home_keeper.File.Contents.{Disk, Works, added, holds-write}
use home_keeper.HmLog.{
  LogT, Entry, HmLog, log_in, insert_log, log_signal, print_logs, print_log, Step, inserts, prints,
  wakes, step, run, logged, seen, run-seen, new_log,
}
use home_keeper.HmLog.Setup.{Settings, log_name, set_log_path}

-- `log_str`, for the levels that it has.
abbrev pub log_str : ℕ → Option Bytes
log_str level =
    if level == 0
    then some (codes "debug")
    else if level == 1
    then some (codes "info")
    else if level == 2
    then some (codes "warn")
    else if level == 3
    then some (codes "error")
    else if level == 4
    then some (codes "fatal")
    else none

-- What `snprintf` prints for a record: the level, the time and the message.
abbrev line_of : Bytes → LogT → Bytes
line_of name log = name ++ codes ":" ++ log.time ++ codes ":" ++ log.msg ++ 10 ∷ []

-- `temBuf`, of 11240 bytes; `none`: the level has no name, and `snprintf` gets a null pointer.
pub tem_buf : LogT → Option Bytes
tem_buf log = elim (log_str log.level) [
  | none ↦ none
  | some name ↦ some (print_into 11240 (line_of name log))
]

-- The log, the settings and the calls of stdio.
pub record Output : Type 0 where
  pub log : HmLog
  pub settings : Settings
  pub calls : History

module _ (c : Stdio) (clock : History → Bytes) where
  -- `logfile->write`; `none` for a null pointer.
  pub write_text : Bytes → Settings → History → Option (Settings × History)
  write_text text s h = elim s.logfile [
    | none ↦ none
    | some f ↦ some (s, (write_chars c f text 11240 h).1)
  ]

  -- The body of the loop for a record that the level lets through; `none` where it uses a null pointer.
  pub write_log : LogT → Settings → History → Option (Settings × History)
  write_log log s h = elim (tem_buf log) [
    | none ↦ none
    | some text ↦ write_text text (set_log_path (clock h) s) h
  ]

  -- The loop over the records that were in the queue.
  pub write_logs : ℕ → List LogT → Settings → History → Option (Settings × History)
  write_logs level [] s h = some (s, h)
  write_logs level (log ∷ logs) s h = elim (leb level log.level) [
    | false ↦ write_logs level logs s h
    | true ↦ elim (write_log log s h) [ none ↦ none | some (s', h') ↦ write_logs level logs s' h' ]
  ]

  -- `printLog` while it holds the mutex, with its output.
  pub print_files : Output → Option Output
  print_files o = elim (o.log.waiting && o.log.woken) [
    | false ↦ some (record o { log = print_log o.log })
    | true ↦ elim (write_logs o.log.current_log_level o.log.logs o.settings o.calls) [
      | none ↦ none
      | some (s, h) ↦ some (record { log = print_log o.log; settings = s; calls = h })
    ]
  ]

  -- The steps of the threads.
  pub step_files : Step → Output → Option Output
  step_files (inserts e) o = some (record o { log = insert_log e o.log })
  step_files prints o = print_files o
  step_files wakes o = some (record o { log = log_signal o.log })

  pub run_files : List Step → Output → Option Output
  run_files [] o = some o
  run_files (s ∷ steps) o = elim (step_files s o) [ none ↦ none | some o' ↦ run_files steps o' ]
