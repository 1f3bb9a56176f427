-- ===== src/Tests/Threads.antt =====
-- The theorems on the threads of include/hmLog.hpp at concrete inputs.
use home_keeper.Prelude.{
  arith, ◌↔◌, some, none, Bytes, List, [], ◌∷◌, ◌++◌, ◌≡◌, ◌≢◌, refl, length, codes,
}
use home_keeper.HmLog.{Step, inserts, prints, log_in, new_log, run, logged, print_logs}
use home_keeper.HmLog.Threads.{
  Machine, the_printer, start, Turn, call, enter, push, signal, leave, lock, wait, resume, move,
  print, unlock, destroy, look, cancel, Reach, here, later,
}
use home_keeper.HmLog.Threads.Progress.{GivesBack, inside-GivesBack}
use home_keeper.HmLog.Threads.Order.{Reach-run}
use home_keeper.HmLog.Threads.Adequate.{Left, run-Left}
use home_keeper.HmLog.Threads.Files.{cancel-files}
use home_keeper.HmLog.Setup.{log_name}
use home_keeper.HmLog.Output.{Output, run_files}
use home_keeper.HmLog.Output.Lines.{Dated, records, filed, Shown}
use home_keeper.File.{new_file}
use home_keeper.Tests.Files.{memory, memory-Works, memory-Disk, held, late, log_settings, clock}

late_text : length late.text ≢ 0
late_text e = cc e

-- A machine that threads reach with these steps of the log.
abbrev Reached : List Step → Type 0
Reached steps = (m : Machine) × Reach 1 steps m

abbrev go :
    {steps more : List Step} (r : Reached steps) {m' : Machine}
    → Turn r.0 more m'
    → Reached (steps ++ more)
go (m, r) {m'} t = (m', later r t)

-- The printing thread waits, and a thread has pushed the entry and signalled.
abbrev woken : Reached (prints ∷ inserts late ∷ [])
woken =
    let waits = go (go (start 1, here) (lock refl refl refl)) (wait refl) in
    go (go (go (go waits (call 0 late refl late_text)) (enter 0 late refl refl)) (push 0 late refl))
      (signal 0 refl)

-- The printing thread has moved the queue.
abbrev moved : Reached (prints ∷ inserts late ∷ prints ∷ [])
moved = go (go (go woken (leave 0 refl)) (resume refl refl refl refl)) (move refl)

-- The entry is written.
abbrev printed : Reached (prints ∷ inserts late ∷ prints ∷ [])
printed = go (go moved (print (log_in late) [] refl)) (unlock refl)

-- The destructor cancels the printing thread.
abbrev ended : Reached (prints ∷ inserts late ∷ prints ∷ [])
ended = go (go (go printed (destroy refl)) (look refl refl)) (cancel refl refl)

Reach-run_example : run (prints ∷ inserts late ∷ prints ∷ []) (new_log 1) ≡ printed.0.log
Reach-run_example = Reach-run printed.1 refl

cancel-files_example :
    let start : Output = record { log = new_log 1; settings = log_settings; calls = [] } in
    (o : Output) × (ds : Dated) × (run_files memory clock
        (prints ∷ inserts late ∷ prints ∷ [])
        start
      ≡ some o)
    × (o.log ≡ ended.0.log)
    × (ended.0.log.logs ≡ [])
    × (records ds ≡ print_logs 1 (logged (prints ∷ inserts late ∷ prints ∷ [])))
    × (ended.0.log.written ≡ records ds)
    × Shown clock ds
    × ((q : Bytes)
        → held o.calls q
          ≡ held [] q ++ filed (λ day. log_name (codes "/log") day (codes "node")) ds q)
cancel-files_example =
    cancel-files memory memory-Works memory-Disk clock (codes "/log") (codes "node")
      (prints ∷ inserts late ∷ prints ∷ []) ended.0 1 log_settings [] ended.1 refl (omega arith, tt)
      (
        refl,
        refl,
        new_file (log_name (codes "/log") (codes "2020-1-2") (codes "node")) none,
        refl,
        refl,
      )

run-Left_example :
    Left 1 printed.0.log ↔ ((steps : List Step) × (run steps (new_log 1) ≡ printed.0.log))
run-Left_example = run-Left 1 printed.0.log

inside-GivesBack_example : (moved.0.owner ≡ the_printer) × GivesBack the_printer moved.0
inside-GivesBack_example = inside-GivesBack moved.1 refl the_printer refl tt (omega arith, tt)
