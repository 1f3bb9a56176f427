-- ===== src/HmLog/Output/Missing.antt =====
-- include/hmLog.hpp: a process whose log has no file, since `init` has failed.
use home_keeper.Prelude.{
  subst, ℕ, zero, suc, false, ◌&&◌, List, [], ◌∷◌, ◌++◌, Option, none, some, ◌≡◌, inl, inr, refl,
  sym, ap, ◌∙◌, leb, if◌then◌else◌, Bool-cases, Option-cases, arith, Bytes,
}
use mathlib.Core.Option
use home_keeper.File.{Stdio, History}
use home_keeper.HmLog.{
  LogT, HmLog, insert_log, log_signal, print_logs, print_log, Step, inserts, prints, wakes, step,
  run, logged, seen, run-seen, new_log,
}
use home_keeper.HmLog.Setup.{Host, Settings, init}
use home_keeper.HmLog.Shutdown.{
  is_empty, empty_lem, shut_down, last_pass, shut_down_lem, shut_down_empty, shut_down_pass,
}
use home_keeper.HmLog.Output.{
  Output, tem_buf, write_text, write_log, write_logs, print_files, step_files, run_files,
}
use home_keeper.HmLog.Output.Machine.{insert_log-written, print_log-idle, print_log-writes}
use home_keeper.HmLog.Output.Whole.{shut_down_files}
use home_keeper.HmLog.Output.Session.{session}

-- A process goes on as long as nothing is written.
abbrev pub if_unwritten : Output → HmLog → Option Output
if_unwritten o l = if is_empty l.written then some (record o { log = l }) else none

append-nonempty : (xs ys : List LogT) → is_empty xs ≡ false → is_empty (xs ++ ys) ≡ false
append-nonempty [] ys h = cc
append-nonempty (x ∷ xs) ys h = refl

module _ (c : Stdio) (clock : History → Bytes) where
  write_log_missing :
      (log : LogT) (s : Settings) (h : History)
      → s.logfile ≡ none
      → write_log c clock log s h ≡ none
  unfolding write_log write_text
  write_log_missing log s h e = elim (Option-cases (tem_buf log)) [
    | inl t ↦ rw (t, write_log) refl
    | inr (text, t) ↦ rw (t, e, write_log) refl
  ]

  write_logs_missing :
      (level : ℕ) (logs : List LogT) (s : Settings) (h : History)
      → s.logfile ≡ none
      → write_logs c clock level logs s h
        ≡ (if is_empty (print_logs level logs) then some (s, h) else none)
  unfolding write_logs print_logs
  write_logs_missing level [] s h e = refl
  write_logs_missing level (log ∷ logs) s h e = elim (Bool-cases (leb level log.level)) [
    | inl through ↦ rw (through, write_logs, write_log_missing log s h e) refl
    | inr kept ↦ rw (kept, write_logs) (write_logs_missing level logs s h e)
  ]

  unwritten :
      (o : Output) (l : HmLog) → l.written ≡ [] → if_unwritten o l ≡ some (record o { log = l })
  unwritten o l e = rw e refl

  print_files_missing :
      (o : Output)
      → o.settings.logfile ≡ none
      → o.log.written ≡ []
      → print_files c clock o ≡ if_unwritten o (print_log o.log)
  unfolding print_files print_log
  print_files_missing o m w = elim (Bool-cases (o.log.waiting && o.log.woken)) [
    | inr idle ↦
        let same : (print_log o.log).written ≡ [] = (print_log-idle o.log idle).0 ∙ w in
        rw (idle, print_files) (sym (unwritten o (print_log o.log) same))
    | inl busy ↦
        let all = print_logs o.log.current_log_level o.log.logs in
        let same : (print_log o.log).written ≡ all =
          (print_log-writes o.log busy).0 ∙ ap (λ xs. xs ++ all) w in
        let ret = write_logs_missing o.log.current_log_level o.log.logs o.settings o.calls m in
        elim (Bool-cases (is_empty all)) [
          | inl e ↦ rw (busy, print_files, ret, same, e) refl
          | inr e ↦ rw (busy, print_files, ret, same, e) refl
        ]
  ]

  step_missing :
      (s : Step) (o : Output)
      → o.settings.logfile ≡ none
      → o.log.written ≡ []
      → step_files c clock s o ≡ if_unwritten o (step s o.log)
  unfolding step_files step
  step_missing (inserts e) o m w =
      sym (unwritten o (insert_log e o.log) (insert_log-written e o.log ∙ w))
  step_missing wakes o m w = sym (unwritten o (log_signal o.log) w)
  step_missing prints o m w = print_files_missing o m w

  -- What has been written stays.
  stays_step :
      (s : Step) (l : HmLog) → is_empty l.written ≡ false → is_empty (step s l).written ≡ false
  unfolding step insert_log print_log
  stays_step (inserts e) l h = ground arith
  stays_step prints l h =
      ground (arith, append-nonempty l.written (print_logs l.current_log_level l.logs) h)
  stays_step wakes l h = h

  stays_run :
      (steps : List Step) (l : HmLog)
      → is_empty l.written ≡ false
      → is_empty (run steps l).written ≡ false
  unfolding run
  stays_run [] l h = h
  stays_run (s ∷ steps) l h = stays_run steps (step s l) (stays_step s l h)

  run_missing :
      (steps : List Step) (o : Output)
      → o.settings.logfile ≡ none
      → o.log.written ≡ []
      → run_files c clock steps o ≡ if_unwritten o (run steps o.log)
  unfolding run_files run
  run_missing [] o m w = sym (unwritten o o.log w)
  run_missing (s ∷ steps) o m w = elim (Bool-cases (is_empty (step s o.log).written)) [
    | inl none_yet ↦
        let o' : Output = record o { log = step s o.log } in
        let on : step_files c clock s o ≡ some o' = step_missing s o m w ∙ rw none_yet refl in
        rw (on, run_files) (run_missing steps o' m (empty_lem (step s o.log).written none_yet))
    | inr some_yet ↦
        let off : step_files c clock s o ≡ none = step_missing s o m w ∙ rw some_yet refl in
        rw (off, run_files, stays_run steps (step s o.log) some_yet) refl
  ]

  stays_shut_down :
      (n : ℕ) (l l' : HmLog)
      → is_empty l.written ≡ false
      → shut_down n l ≡ some l'
      → is_empty l'.written ≡ false
  unfolding shut_down step
  stays_shut_down zero l l' h e = cc
  stays_shut_down (suc n) l l' h e = elim (Bool-cases (is_empty l.logs)) [
    | inl b ↦
        let same : l ≡ l' = cc (e, shut_down_empty n l b) in
        subst (λ x. is_empty x.written ≡ false) same h
    | inr b ↦
        stays_shut_down n (print_log (log_signal l)) l' (stays_step prints (log_signal l) h)
          (sym (shut_down_pass n l b) ∙ e)
  ]

  shut_down_missing :
      (n : ℕ) (o : Output) (l : HmLog)
      → o.settings.logfile ≡ none
      → o.log.written ≡ []
      → shut_down n o.log ≡ some l
      → shut_down_files c clock n o ≡ if_unwritten o l
  unfolding shut_down shut_down_files
  shut_down_missing zero o l m w e = cc
  shut_down_missing (suc n) o l m w e = elim (Bool-cases (is_empty o.log.logs)) [
    | inl b ↦
        let same : o.log ≡ l = cc (e, shut_down_empty n o.log b) in
        rw (b, shut_down_files)
          (subst (λ x. some o ≡ if_unwritten o x) same (sym (unwritten o o.log w)))
    | inr b ↦
        let sig : Output = record o { log = log_signal o.log } in
        let l1 = print_log sig.log in
        let rest : shut_down n l1 ≡ some l = sym (shut_down_pass n o.log b) ∙ e in
        elim (Bool-cases (is_empty l1.written)) [
          | inl none_yet ↦
              let o1 : Output = record sig { log = l1 } in
              let on : print_files c clock sig ≡ some o1 =
                print_files_missing sig m w ∙ rw none_yet refl in
              rw (b, shut_down_files, on)
                (shut_down_missing n o1 l m (empty_lem l1.written none_yet) rest)
          | inr some_yet ↦
              let off : print_files c clock sig ≡ none =
                print_files_missing sig m w ∙ rw some_yet refl in
              rw (b, shut_down_files, off, stays_shut_down n l1 l some_yet rest) refl
        ]
  ]

calls_unwritten :
    (o : Output) (l : HmLog)
    → Option.map (λ x. x.calls) (if_unwritten o l)
      ≡ (if is_empty l.written then some o.calls else none)
calls_unwritten o l = elim (Bool-cases (is_empty l.written)) [
  | inl e ↦ rw e refl
  | inr e ↦ rw e refl
]

-- A process whose executable cannot be read by `readlink`, so that `init` of the log fails, and that goes
-- on: however the steps of its threads interleave, and where the printing thread runs between the
-- passes of the destructor and no other thread logs then: it uses a null pointer exactly if it logs an
-- entry with a text that the level lets through; else it ends, and makes no call of stdio for its log.
pub session_missing :
    (e : Host) (clock : History → Bytes) (s : Settings) (h : History) (steps : List Step)
    → s.logfile ≡ none
    → let level = s.current_log_level in
      Option.map (λ o. o.calls) (session e clock none s h steps)
      ≡ (if is_empty (print_logs level (logged steps)) then some h else none)
unfolding session init print_logs
session_missing e clock s h steps m =
    let level = s.current_log_level in
    let l = run steps (new_log level) in
    let start : Output = record { log = new_log level; settings = s; calls = h } in
    let all : seen l ≡ print_logs level (logged steps) = run-seen steps (new_log level) in
    let ran = run_missing e.stdio clock steps start m refl in
    elim (Bool-cases (is_empty l.written)) [
      | inr some_yet ↦
          let off : run_files e.stdio clock steps start ≡ none = ran ∙ rw some_yet refl in
          let shown = append-nonempty l.written (print_logs l.current_log_level l.logs) some_yet in
          let gone : session e clock none s h steps ≡ none = rw (off, session) refl in
          rw (gone, ← all, shown) refl
      | inl none_yet ↦
          let o : Output = record start { log = l } in
          let on : run_files e.stdio clock steps start ≡ some o = ran ∙ rw none_yet refl in
          let (l', ended, written, empty) = shut_down_lem l in
          let down : shut_down_files e.stdio clock last_pass o ≡ if_unwritten o l' =
            shut_down_missing e.stdio clock last_pass o l' m (empty_lem l.written none_yet) ended in
          let gone : session e clock none s h steps ≡ if_unwritten o l' = rw (on, session) down in
          ap (Option.map (λ x. x.calls)) gone
          ∙ calls_unwritten o l'
          ∙ ap (λ xs. if is_empty xs then some h else none) (written ∙ all)
    ]
