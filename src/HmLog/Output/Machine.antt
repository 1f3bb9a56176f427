-- ===== src/HmLog/Output/Machine.antt =====
-- include/hmLog.hpp: the threads that log and the printing thread, with the log file.
use home_keeper.Prelude.{
  ◌≤◌, true, false, ◌&&◌, List, [], ◌∷◌, ◌++◌, append-nil, append_assoc, some, ◌≡◌, inl, inr, refl,
  sym, ap, ◌∙◌, subst, ◌==◌, Bool-cases, arith, length, Bytes, All, All-append,
}
use home_keeper.File.{Stdio, History}
use home_keeper.File.Contents.{Disk, Works}
use home_keeper.HmLog.{
  Entry, HmLog, log_in, insert_log, log_signal, print_logs, print_log, Step, inserts, prints, wakes,
  step, run,
}
use home_keeper.HmLog.Output.{Output, print_files, step_files, run_files}
use home_keeper.HmLog.Output.Lines.{
  Fits, Leveled, log_in-Fits, Dated, records, filed, Shown, records-append, filed-append,
  Shown-append,
}
use home_keeper.HmLog.Output.Files.{path_on, Ready, write_logs_lem}

pub insert_log-written : (e : Entry) (l : HmLog) → (insert_log e l).written ≡ l.written
unfolding insert_log
insert_log-written e l = ground arith

pub print_log-idle :
    (l : HmLog)
    → l.waiting && l.woken ≡ false
    → ((print_log l).written ≡ l.written) × ((print_log l).logs ≡ l.logs)
unfolding print_log
print_log-idle l e = ground (arith, e)

pub print_log-writes :
    (l : HmLog)
    → l.waiting && l.woken ≡ true
    → ((print_log l).written ≡ l.written ++ print_logs l.current_log_level l.logs)
      × ((print_log l).logs ≡ [])
unfolding print_log
print_log-writes l e = ground (arith, e)

module _ (c : Stdio) (works : Works c) (disk : Disk c) (clock : History → Bytes)
    (log_path name : Bytes) where
  open disk use {holds}

  abbrev paths : Bytes → Bytes
  paths = path_on c works disk clock log_path name

  -- The queue holds records that fit, and the log file is ready.
  abbrev pub Good : Output → Type 0
  Good o = All Fits o.log.logs × Ready c works disk clock log_path name o.settings

  -- What the machine has done: the lines of what it has written more are in the files of the days on
  -- which it wrote them.
  abbrev pub Advanced : Output → Output → Type 0
  Advanced o o' =
      (more : Dated) × (o'.log.written ≡ o.log.written ++ records more)
      × Shown clock more
      × Good o'
      × ((q : Bytes) → holds o'.calls q ≡ holds o.calls q ++ filed paths more q)

  -- A step that writes nothing.
  quiet :
      (o : Output) (l : HmLog)
      → l.written ≡ o.log.written
      → All Fits l.logs
      → Ready c works disk clock log_path name o.settings
      → Advanced o (record o { log = l })
  quiet o l w fits ready = (
    [],
    w ∙ sym (append-nil o.log.written),
    tt,
    (fits, ready),
    λ q. sym (append-nil (holds o.calls q)),
  )

  insert_log-Fits :
      (e : Entry) (l : HmLog) → e.level ≤ 4 → All Fits l.logs → All Fits (insert_log e l).logs
  unfolding insert_log
  insert_log-Fits e l level fits =
      let longer = All-append Fits l.logs (log_in e ∷ []) fits (log_in-Fits e level, tt) in
      elim (Bool-cases (length e.text == 0)) [ inl b ↦ rw b fits | inr b ↦ rw b longer ]

  pub step_files_lem :
      (s : Step) (o : Output)
      → Leveled (s ∷ [])
      → Good o
      → (o' : Output) × (step_files c clock s o ≡ some o') × (o'.log ≡ step s o.log) × Advanced o o'
  unfolding step_files print_files step
  step_files_lem (inserts e) o (level, u) (fits, ready) = (
    record o { log = insert_log e o.log },
    refl,
    refl,
    quiet o (insert_log e o.log) (insert_log-written e o.log) (insert_log-Fits e o.log level fits)
        ready,
  )
  step_files_lem prints o u (fits, ready) = elim (Bool-cases (o.log.waiting && o.log.woken)) [
    | inl e ↦
        let level = o.log.current_log_level in
        let (written, empty) = print_log-writes o.log e in
        let (s', h', ds, e', ready', same, shown, held) =
          write_logs_lem c works disk clock log_path name level o.log.logs o.settings o.calls fits
            ready in
        (
          record { log = print_log o.log; settings = s'; calls = h' },
          rw (e, print_files, e') refl,
          refl,
          (
            ds,
            written ∙ ap (λ xs. o.log.written ++ xs) (sym same),
            shown,
            (subst (All Fits) (sym empty) tt, ready'),
            held,
          ),
        )
    | inr e ↦
        let (written, same) = print_log-idle o.log e in
        (
          record o { log = print_log o.log },
          rw (e, print_files) refl,
          refl,
          quiet o (print_log o.log) written (subst (All Fits) (sym same) fits) ready,
        )
  ]
  step_files_lem wakes o u (fits, ready) =
      (record o { log = log_signal o.log }, refl, refl, quiet o (log_signal o.log) refl fits ready)

  -- One part of a run after the other.
  pub Advanced-trans : (o o1 o2 : Output) → Advanced o o1 → Advanced o1 o2 → Advanced o o2
  Advanced-trans o o1 o2 (xs, written1, shown1, good1, held1) (ys, written2, shown2, good2, held2) =
      (
        xs ++ ys,
        written2
            ∙ ap (λ w. w ++ records ys) written1
            ∙ append_assoc o.log.written (records xs) (records ys)
            ∙ ap (λ rs. o.log.written ++ rs) (sym (records-append xs ys)),
        Shown-append clock xs ys shown1 shown2,
        good2,
        λ q.
            held2 q
            ∙ ap (λ t. t ++ filed paths ys q) (held1 q)
            ∙ append_assoc (holds o.calls q) (filed paths xs q) (filed paths ys q)
            ∙ ap (λ t. holds o.calls q ++ t) (sym (filed-append paths xs ys q)),
      )

  pub Advanced-refl : (o : Output) → Good o → Advanced o o
  Advanced-refl o good = quiet o o.log refl good.0 good.1

  Leveled-split :
      (s : Step) (steps : List Step) → Leveled (s ∷ steps) → Leveled (s ∷ []) × Leveled steps
  Leveled-split (inserts e) steps (l, u) = ((l, tt), u)
  Leveled-split prints steps u = (tt, u)
  Leveled-split wakes steps u = (tt, u)

  pub run_files_on :
      (steps : List Step) (o : Output)
      → Leveled steps
      → Good o
      → (o' : Output) × (run_files c clock steps o ≡ some o')
        × (o'.log ≡ run steps o.log)
        × Advanced o o'
  unfolding run_files run
  run_files_on [] o u good = (o, refl, refl, Advanced-refl o good)
  run_files_on (s ∷ steps) o u good =
      let (u0, us) = Leveled-split s steps u in
      let (o1, e1, log1, a1) = step_files_lem s o u0 good in
      let (o2, e2, log2, a2) = run_files_on steps o1 us a1.3 in
      (o2, rw (e1, run_files) e2, log2 ∙ ap (run steps) log1, Advanced-trans o o1 o2 a1 a2)
