-- ===== src/HmLog/Output/Whole.antt =====
-- include/hmLog.hpp: runs of the threads from the empty queue, and the destructor, with the log file.
use home_keeper.Prelude.{
  Option, none, zero, suc, ℕ, true, false, List, [], ◌++◌, some, ◌≡◌, inl, inr, refl, sym, ap, ◌∙◌,
  Bool-cases, Bytes,
}
use home_keeper.File.{Stdio, History}
use home_keeper.File.Contents.{Disk, Works}
use home_keeper.HmLog.{
  HmLog, log_signal, print_logs, Step, prints, step, run, logged, seen, run-seen, new_log,
}
use home_keeper.HmLog.Setup.{Settings}
use home_keeper.HmLog.Output.{Output, print_files, step_files, run_files}
use home_keeper.HmLog.Output.Lines.{Leveled, Dated, records, filed, Shown}
use home_keeper.HmLog.Output.Files.{path_on, Ready}
use home_keeper.HmLog.Shutdown.{
  is_empty, shut_down, last_pass, shut_down_lem, shut_down_empty, shut_down_pass,
}
use home_keeper.HmLog.Output.Machine.{
  Good, Advanced, step_files_lem, run_files_on, Advanced-trans, Advanced-refl,
}

module _ (c : Stdio) (clock : History → Bytes) where
  -- The destructor, as in `shut_down`, with the log file.
  unfoldable pub shut_down_files : ℕ → Output → Option Output
  shut_down_files zero o = none
  shut_down_files (suc n) o = elim (is_empty o.log.logs) [
    | true ↦ some o
    | false ↦ elim (print_files c clock (record o { log = log_signal o.log })) [
      | none ↦ none
      | some o' ↦ shut_down_files n o'
    ]
  ]

module _ (c : Stdio) (works : Works c) (disk : Disk c) (clock : History → Bytes)
    (log_path name : Bytes) where
  open disk use {holds}

  abbrev paths : Bytes → Bytes
  paths = path_on c works disk clock log_path name

  shut_down_on :
      (n : ℕ) (o : Output) (l : HmLog)
      → Good c works disk clock log_path name o
      → shut_down n o.log ≡ some l
      → (o' : Output) × (shut_down_files c clock n o ≡ some o')
        × (o'.log ≡ l)
        × Advanced c works disk clock log_path name o o'
  unfolding shut_down shut_down_files step_files step
  shut_down_on zero o l good e = cc
  shut_down_on (suc n) o l good e = elim (Bool-cases (is_empty o.log.logs)) [
    | inl b ↦ (
      o,
      rw (b, shut_down_files) refl,
      cc (e, shut_down_empty n o.log b),
      Advanced-refl c works disk clock log_path name o good,
    )
    | inr b ↦
        let sig : Output = record o { log = log_signal o.log } in
        let (o1, e1, log1, a1) =
          step_files_lem c works disk clock log_path name prints sig tt good in
        let rest : shut_down n o1.log ≡ some l =
          ap (shut_down n) log1 ∙ sym (shut_down_pass n o.log b) ∙ e in
        let (o2, e2, log2, a2) = shut_down_on n o1 l a1.3 rest in
        (
          o2,
          rw (b, shut_down_files, e1) e2,
          log2,
          Advanced-trans c works disk clock log_path name o o1 o2 a1 a2,
        )
  ]

  -- Where no call of stdio fails, every entry is logged at one of the five levels and the log has a
  -- path, a name and a file that is opened for appending: whatever the order in which threads insert
  -- and the printing thread runs, starting with an empty queue, no null pointer is used, and what has
  -- been written and the queue behind it are the non-empty entries that the level lets through, in
  -- their order. Each file grows by exactly the lines of those written on a day that has this file,
  -- and each such day is one that the clock showed.
  pub run_files_lem :
      (steps : List Step) (level : ℕ) (s : Settings) (h : History)
      → Leveled steps
      → Ready c works disk clock log_path name s
      → (o : Output) × (ds : Dated) × (run_files c clock steps
            (record { log = new_log level; settings = s; calls = h })
          ≡ some o)
        × (o.log ≡ run steps (new_log level))
        × (records ds ++ print_logs o.log.current_log_level o.log.logs
            ≡ print_logs level (logged steps))
        × Shown clock ds
        × ((q : Bytes) → holds o.calls q ≡ holds h q ++ filed paths ds q)
  unfolding print_logs
  run_files_lem steps level s h u ready =
      let start : Output = record { log = new_log level; settings = s; calls = h } in
      let (o, e, log, (ds, written, shown, good, held)) =
        run_files_on c works disk clock log_path name steps start u (tt, ready) in
      (
        o,
        ds,
        e,
        log,
        ap (λ w. w ++ print_logs o.log.current_log_level o.log.logs) (sym written)
            ∙ ap seen log
            ∙ run-seen steps (new_log level),
        shown,
        held,
      )

  -- Where no call of stdio fails, every entry is logged at one of the five levels, the log has a path, a
  -- name and a file that is opened for appending, and where the printing thread runs between two
  -- passes of the destructor and no other thread logs then: after any run from an empty queue the
  -- destructor takes three passes at most, the queue is empty then, and all non-empty entries that the
  -- level lets through have been written, in their order, each file growing by exactly the lines of
  -- those written on a day that has this file.
  pub shut_down_files_lem :
      (steps : List Step) (level : ℕ) (s : Settings) (h : History)
      → Leveled steps
      → Ready c works disk clock log_path name s
      → (o : Output) × (o' : Output) × (ds : Dated) × (run_files c clock steps
            (record { log = new_log level; settings = s; calls = h })
          ≡ some o)
        × (shut_down_files c clock last_pass o ≡ some o')
        × (o'.log.logs ≡ [])
        × (records ds ≡ print_logs level (logged steps))
        × Shown clock ds
        × ((q : Bytes) → holds o'.calls q ≡ holds h q ++ filed paths ds q)
  unfolding print_logs
  shut_down_files_lem steps level s h u ready =
      let start : Output = record { log = new_log level; settings = s; calls = h } in
      let (o, e, log, a1) =
        run_files_on c works disk clock log_path name steps start u (tt, ready) in
      let (l', e2, written, empty) = shut_down_lem o.log in
      let (o', e3, log', a2) = shut_down_on last_pass o l' a1.3 e2 in
      let (ds, all, shown, good, held) =
        Advanced-trans c works disk clock log_path name start o o' a1 a2 in
      (
        o,
        o',
        ds,
        e,
        e3,
        ap (λ l. l.logs) log' ∙ empty,
        sym all ∙ ap (λ l. l.written) log' ∙ written ∙ ap seen log ∙ run-seen steps (new_log level),
        shown,
        held,
      )
