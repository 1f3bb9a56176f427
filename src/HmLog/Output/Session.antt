-- ===== src/HmLog/Output/Session.antt =====
-- include/hmLog.hpp: the log of a process from its `init` to the destructor.
use home_keeper.Prelude.{List, ◌∷◌, ◌++◌, Option, none, some, ◌≡◌, refl, Bytes, success}
use home_keeper.Email.{slash}
use home_keeper.File.{History, new_file}
use home_keeper.File.Contents.{Disk, Works}
use home_keeper.HmLog.{Step, new_log, logged, print_logs}
use home_keeper.HmLog.Setup.{Host, Settings, log_name, init}
use home_keeper.HmLog.Setup.Names.{Deployed, set_settings, init_lem}
use home_keeper.HmLog.Shutdown.{last_pass}
use home_keeper.HmLog.Output.{Output, run_files}
use home_keeper.HmLog.Output.Lines.{Leveled, Dated, records, filed, Shown}
use home_keeper.HmLog.Output.Whole.{shut_down_files, shut_down_files_lem}

-- A process: `init`, the steps of its threads from the empty queue, and the destructor.
unfoldable pub session :
    Host → (History → Bytes) → Option Bytes → Settings → History → List Step → Option Output
session e clock link s h steps = elim (init e link s h) [
  | none ↦ none
  | some (ret, s', h') ↦
      elim (run_files e.stdio clock steps
        (record { log = new_log s'.current_log_level; settings = s'; calls = h' })) [
          | none ↦ none
          | some o ↦ shut_down_files e.stdio clock last_pass o
        ]
]

-- A program at a path shorter than 1024 bytes, whose log is not set up yet and whose configuration file
-- holds a path for logs; no call of stdio fails, and every entry is logged at one of the five levels.
-- However the steps of its threads interleave, and where the printing thread runs between the passes
-- of the destructor and no other thread logs then: in the end all non-empty entries that the level of
-- the environment lets through have been written, in their order. Since `init`, every file has grown by
-- exactly the lines of those written on a day whose file `<log_path>/<day>-<program>.log` it is, and
-- each such day is one that the clock showed.
pub session_lem :
    (e : Host) (clock : History → Bytes) (front name log_path : Bytes) (s : Settings) (h : History)
    → (steps : List Step) → Works e.stdio
    → (disk : Disk e.stdio) → Deployed e front name log_path s h
    → Leveled steps
    → let link = front ++ slash ∷ name in
      let level = (set_settings e name log_path).current_log_level in
      (h' : History) × (o : Output) × (ds : Dated) × (init e (some link) s h
        ≡ some (success, set_settings e name log_path, h'))
      × (session e clock (some link) s h steps ≡ some o)
      × (records ds ≡ print_logs level (logged steps))
      × Shown clock ds
      × ((q : Bytes)
          → disk.holds o.calls q
            ≡ disk.holds h' q ++ filed (λ day. log_name log_path day name) ds q)
unfolding session
session_lem e clock front name log_path s h steps works disk d u =
    let s' = set_settings e name log_path in
    let (h', i) = init_lem e front name log_path s h d in
    let file = new_file (log_name log_path e.today name) none in
    let (o, o', ds, e1, e2, empty, same, shown, held) =
      shut_down_files_lem e.stdio works disk clock log_path name steps s'.current_log_level s' h' u
        (refl, refl, file, refl, refl) in
    (h', o', ds, i, rw (i, session, e1, e2) refl, same, shown, held)
