-- ===== src/HmLog/Threads/Inside.antt =====
-- include/hmLog.hpp: who stands between `lock` and `unlock`, and what else holds of the threads.
use home_keeper.Prelude.{ℕ, Bool, true, false, List, [], ◌∷◌, ◌≡◌, ◌≢◌, length}
use home_keeper.HmLog.{HmLog, Step}
use home_keeper.HmLog.Shutdown.{is_empty}
use home_keeper.HmLog.Threads.{
  WriterPc, outside, calling, entered, pushed, signalled, PrinterPc, begins, holds, in_wait, awake,
  printing, DestructorPc, away, asks, looks, woke, cancelled, Owner, free, the_printer, a_writer,
  the_destructor, Machine, Turn, call, enter, push, signal, leave, lock, wait, wake, resume, move,
  print, unlock, destroy, look, rouse, sleep, cancel, join,
}

-- Who stands between `lock` and `unlock`; `pthread_cond_wait` gives the mutex back.
abbrev pub writer_inside : WriterPc → Bool
writer_inside outside = false
writer_inside (calling e) = false
writer_inside pc = true

abbrev pub printer_inside : PrinterPc → Bool
printer_inside begins = false
printer_inside in_wait = false
printer_inside pc = true

abbrev pub destructor_inside : DestructorPc → Bool
destructor_inside looks = true
destructor_inside woke = true
destructor_inside cancelled = true
destructor_inside pc = false

-- An owner stands between `lock` and `unlock`.
abbrev pub owner_inside : Owner → Machine → Bool
owner_inside free m = true
owner_inside the_printer m = printer_inside m.printer
owner_inside (a_writer i) m = writer_inside (m.writers i)
owner_inside the_destructor m = destructor_inside m.destructor

abbrev pub is_waiting : PrinterPc → Bool
is_waiting in_wait = true
is_waiting pc = false

-- The entry that a thread has yet to push has a text.
abbrev pub HasText : WriterPc → Type 0
HasText (calling e) = length e.text ≢ 0
HasText (entered e) = length e.text ≢ 0
HasText pc = Unit

-- The queue is empty while the destructor holds the mutex behind the cancel.
abbrev pub IsDrained : DestructorPc → HmLog → Type 0
IsDrained cancelled l = is_empty l.logs ≡ true
IsDrained pc l = Unit

pub record IsSound (m : Machine) : Type 0 where
  pub writer : (i : ℕ) → writer_inside (m.writers i) ≡ true → m.owner ≡ a_writer i
  pub printer : printer_inside m.printer ≡ true → m.owner ≡ the_printer
  pub destructor : destructor_inside m.destructor ≡ true → m.owner ≡ the_destructor
  pub owner : owner_inside m.owner m ≡ true
  pub waits : m.log.waiting ≡ is_waiting m.printer
  pub woken : m.log.woken ≡ true → m.log.waiting ≡ true
  pub text : (i : ℕ) → HasText (m.writers i)
  pub drained : IsDrained m.destructor m.log

-- The premises of a turn, for the clauses below that stand for several turns.
abbrev pub Guard : {m m' : Machine} {steps : List Step} → Turn m steps m' → Type 0
Guard {m} (call i e o n) = m.writers i ≡ outside
Guard {m} (enter i e o f) = (m.writers i ≡ calling e) × (m.owner ≡ free)
Guard {m} (push i e o) = m.writers i ≡ entered e
Guard {m} (signal i o) = m.writers i ≡ pushed
Guard {m} (leave i o) = m.writers i ≡ signalled
Guard {m} (lock p c o) = (m.printer ≡ begins) × (m.owner ≡ free)
Guard {m} (wait p) = m.printer ≡ holds
Guard {m} (wake w) = m.log.waiting ≡ true
Guard {m} (resume p c w o) = (m.printer ≡ in_wait) × (m.owner ≡ free)
Guard {m} (move p) = m.printer ≡ awake
Guard {m} (print x rest p) = m.printer ≡ printing (x ∷ rest)
Guard {m} (unlock p) = m.printer ≡ printing []
Guard {m} (destroy d) = m.destructor ≡ away
Guard {m} (look d o) = (m.destructor ≡ asks) × (m.owner ≡ free)
Guard {m} (rouse d e) = m.destructor ≡ looks
Guard {m} (sleep d) = m.destructor ≡ woke
Guard {m} (cancel d e) = (m.destructor ≡ looks) × (is_empty m.log.logs ≡ true)
Guard {m} (join d) = m.destructor ≡ cancelled

pub guard : {m m' : Machine} {steps : List Step} (t : Turn m steps m') → Guard t
guard (call i e o n) = o
guard (enter i e o f) = (o, f)
guard (push i e o) = o
guard (signal i o) = o
guard (leave i o) = o
guard (lock p c o) = (p, o)
guard (wait p) = p
guard (wake w) = w
guard (resume p c w o) = (p, o)
guard (move p) = p
guard (print x rest p) = p
guard (unlock p) = p
guard (destroy d) = d
guard (look d o) = (d, o)
guard (rouse d e) = d
guard (sleep d) = d
guard (cancel d e) = (d, e)
guard (join d) = d
