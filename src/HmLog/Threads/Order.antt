-- ===== src/HmLog/Threads/Order.antt =====
-- include/hmLog.hpp: the threads of the log do what the steps of the log do, one after the other.
use home_keeper.Prelude.{
  ℕ, true, List, [], ◌∷◌, ◌++◌, append-nil, append_assoc, ◌≡◌, refl, sym, ap, ◌∙◌, ==_iff, arith,
}
use home_keeper.HmLog.{
  Entry, HmLog, insert_log, print_log, log_signal, new_log, Step, step, run, logged, print_logs,
  seen, run-seen,
}
use home_keeper.HmLog.Shutdown.{empty_lem, written_lem}
use home_keeper.HmLog.Threads.{
  WriterPc, outside, calling, pushed, PrinterPc, awake, printing, asks, cancelled, Owner, free,
  the_printer, a_writer, the_destructor, Machine, update, Turn, call, enter, push, signal, leave,
  lock, wait, wake, resume, move, print, unlock, destroy, look, rouse, sleep, cancel, join, Reach,
  here, later,
}
use home_keeper.HmLog.Threads.Inside.{IsSound, owner_inside}
use home_keeper.HmLog.Threads.Sound.{Reach-IsSound}

-- The log as the holder of the mutex will leave it: the signal of a thread that has pushed, and the
-- records that are still to be printed.
abbrev writer_view : WriterPc → HmLog → HmLog
writer_view pushed l = log_signal l
writer_view pc l = l

abbrev printer_view : PrinterPc → HmLog → HmLog
printer_view awake l = record l { waiting = true; woken = true }
printer_view (printing rest) l = record l {
  written = l.written ++ print_logs l.current_log_level rest;
}
printer_view pc l = l

abbrev view : Owner → Machine → HmLog
view free m = m.log
view the_printer m = printer_view m.printer m.log
view (a_writer i) m = writer_view (m.writers i) m.log
view the_destructor m = m.log

module _ (m : Machine) (s : IsSound m) where
  -- A thread that comes to `lock` changes nothing for the holder.
  view_call :
      (o : Owner) (i : ℕ) (e : Entry)
      → owner_inside o m ≡ true
      → m.writers i ≡ outside
      → view o m ≡ view o (record m { writers = update m.writers i (calling e) })
  view_call free i e h out = refl
  view_call the_printer i e h out = refl
  view_call (a_writer k) i e h out = ground (arith, ==_iff i k)
  view_call the_destructor i e h out = refl

  view_destroy : (o : Owner) → view o m ≡ view o (record m { destructor = asks })
  view_destroy free = refl
  view_destroy the_printer = refl
  view_destroy (a_writer k) = refl
  view_destroy the_destructor = refl

  -- A wake-up comes while the printing thread is inside `log_wait`.
  view_wake :
      (o : Owner)
      → owner_inside o m ≡ true
      → m.log.waiting ≡ true
      → log_signal (view o m) ≡ view o (record m { log = log_signal m.log })
  view_wake free h w = refl
  view_wake the_printer h w = ground (arith, s.waits)
  view_wake (a_writer k) h w = ground arith
  view_wake the_destructor h w = refl

  Turn-run :
      {m' : Machine} {steps : List Step}
      → Turn m steps m'
      → run steps (view m.owner m) ≡ view m'.owner m'
  unfolding run step insert_log print_log print_logs
  Turn-run (call i e o n) = view_call m.owner i e s.owner o
  Turn-run (enter i e o f) = ground (arith)
  Turn-run (push i e o) = ground (arith, s.writer i, s.text i)
  Turn-run (signal i o) = ground (arith, s.writer i)
  Turn-run (leave i o) = ground (arith, s.writer i)
  Turn-run (lock p c o) = ground arith
  Turn-run (wait p) = ground (arith, s.printer, s.waits)
  Turn-run (wake w) = view_wake m.owner s.owner w
  Turn-run (resume p c w o) = ground (arith, s.woken, s.waits)
  Turn-run (move p) = ground (arith, s.printer, s.waits)
  Turn-run (print x rest p) = ground (
    arith,
    s.printer,
    append_assoc m.log.written (x ∷ []) (print_logs m.log.current_log_level rest),
  )
  Turn-run (unlock p) = ground (arith, s.printer, append-nil m.log.written)
  Turn-run (destroy d) = view_destroy m.owner
  Turn-run (look d o) = ground arith
  Turn-run (rouse d e) = ground (arith, s.destructor)
  Turn-run (sleep d) = ground (arith, s.destructor)
  Turn-run (cancel d e) = ground (arith, s.destructor)
  Turn-run (join d) = ground (arith, s.destructor)

run-append : (steps more : List Step) (l : HmLog) → run (steps ++ more) l ≡ run more (run steps l)
unfolding run
run-append [] more l = refl
run-append (s ∷ steps) more l = run-append steps more (step s l)

Reach-view :
    {level : ℕ} {steps : List Step} {m : Machine}
    → Reach level steps m
    → run steps (new_log level) ≡ view m.owner m
unfolding run
Reach-view here = refl
Reach-view {level} (later {steps} {more} {m} r t) =
    run-append steps more (new_log level)
    ∙ ap (run more) (Reach-view r)
    ∙ Turn-run m (Reach-IsSound r) t

-- However the threads interleave, and however often they are woken without a signal: whenever nobody
-- holds the mutex, the log is what the steps of the log leave, one after the other, in the order in
-- which they took place: an `insertLog` where it pushes its record, `printLog` where it starts to wait
-- and where it moves the queue out, and a signal of the destructor.
pub Reach-run :
    {level : ℕ} {steps : List Step} {m : Machine}
    → Reach level steps m
    → m.owner ≡ free
    → run steps (new_log level) ≡ m.log
Reach-run {m} r f = Reach-view r ∙ ap (λ o. view o m) f

-- The destructor holds the mutex where it has cancelled the thread.
pub cancel-run :
    {level : ℕ} {steps : List Step} {m : Machine}
    → Reach level steps m
    → m.destructor ≡ cancelled
    → run steps (new_log level) ≡ m.log
cancel-run {m} r d =
    let s = Reach-IsSound r in Reach-view r ∙ ap (λ o. view o m) (s.destructor (rw d refl))

-- However the threads interleave: where the destructor has cancelled the printing thread and still
-- holds the mutex, the queue is empty, and what has been written are all records that were logged until
-- then and that the level lets through, once each and in their order.
pub cancel-written :
    {level : ℕ} {steps : List Step} {m : Machine}
    → Reach level steps m
    → m.destructor ≡ cancelled
    → (m.log.logs ≡ []) × (m.log.written ≡ print_logs level (logged steps))
unfolding print_logs
cancel-written {level} {steps} {m} r d =
    let s = Reach-IsSound r in
    let done : run steps (new_log level) ≡ m.log = cancel-run r d in
    let empty : m.log.logs ≡ [] = empty_lem m.log.logs (rw d at s.drained) in
    (empty, written_lem m.log empty ∙ ap seen (sym done) ∙ run-seen steps (new_log level))
