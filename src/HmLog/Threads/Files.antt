-- ===== src/HmLog/Threads/Files.antt =====
-- include/hmLog.hpp: the log files where the destructor cancels the printing thread.
use home_keeper.Prelude.{List, [], ◌++◌, some, ◌≡◌, sym, ap, ◌∙◌, append-nil, ℕ, Bytes}
use home_keeper.File.{Stdio, History}
use home_keeper.File.Contents.{Disk, Works}
use home_keeper.HmLog.{Step, new_log, print_logs, logged}
use home_keeper.HmLog.Setup.{Settings}
use home_keeper.HmLog.Output.{Output, run_files}
use home_keeper.HmLog.Output.Lines.{Leveled, Dated, records, filed, Shown}
use home_keeper.HmLog.Output.Files.{path_on, Ready}
use home_keeper.HmLog.Output.Whole.{run_files_lem}
use home_keeper.HmLog.Threads.{Machine, Reach, cancelled}
use home_keeper.HmLog.Threads.Order.{cancel-written, cancel-run}

module _ (c : Stdio) (works : Works c) (disk : Disk c) (clock : History → Bytes)
    (log_path name : Bytes) where
  open disk use {holds}

  abbrev paths : Bytes → Bytes
  paths = path_on c works disk clock log_path name

  -- Where no call of stdio fails, every entry is logged at one of the five levels and the log has a
  -- path, a name and a file that is opened for appending; however the threads interleave between their
  -- calls of pthread, and however often they are woken without a signal: where the destructor has
  -- cancelled the printing thread and still holds the mutex, the queue is empty, and all non-empty
  -- entries until then that the level lets through have been written, once each and in their order;
  -- each file has grown by exactly the lines of those written on a day that has this file.
  pub cancel-files :
      (steps : List Step) (m : Machine) (level : ℕ) (s : Settings) (h : History)
      → Reach level steps m
      → m.destructor ≡ cancelled
      → Leveled steps
      → Ready c works disk clock log_path name s
      → (o : Output) × (ds : Dated) × (run_files c clock steps
            (record { log = new_log level; settings = s; calls = h })
          ≡ some o)
        × (o.log ≡ m.log)
        × (m.log.logs ≡ [])
        × (records ds ≡ print_logs level (logged steps))
        × (m.log.written ≡ records ds)
        × Shown clock ds
        × ((q : Bytes) → holds o.calls q ≡ holds h q ++ filed paths ds q)
  unfolding print_logs
  cancel-files steps m level s h r d u ready =
      let (empty, written) = cancel-written r d in
      let (o, ds, e, log, all, shown, held) =
        run_files_lem c works disk clock log_path name steps level s h u ready in
      let same : o.log ≡ m.log = log ∙ cancel-run r d in
      let none_left : o.log.logs ≡ [] = ap (λ l. l.logs) same ∙ empty in
      let every : records ds ≡ print_logs level (logged steps) =
        sym (append-nil (records ds))
        ∙ ap (λ xs. records ds ++ print_logs o.log.current_log_level xs) (sym none_left)
        ∙ all in
      (o, ds, e, same, empty, every, written ∙ sym every, shown, held)
