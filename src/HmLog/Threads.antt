-- ===== src/HmLog/Threads.antt =====
-- include/hmLog.hpp: the threads of the log between their calls of `lock`, `log_wait`, `log_signal` and
-- `unlock`: any number of threads in `insertLog`, the thread of `printLog`, and the destructor. The
-- mutex and the condition variable behave as pthread documents, wake-ups without a signal included.
-- The level stays as it is. Behind `pthread_cancel` the printing thread takes no step.
pub mod Inside
pub mod Exclusion
pub mod Sound
pub mod Order
pub mod Progress
pub mod Adequate
pub mod Files
use home_keeper.Prelude.{
  ℕ, Bool, true, false, List, [], ◌∷◌, ◌++◌, ◌≡◌, ◌≢◌, leb, ◌==◌, if◌then◌else◌, length,
}
use home_keeper.HmLog.{
  LogT, Entry, HmLog, log_in, log_signal, new_log, Step, inserts, prints, wakes, print_logs,
}
use home_keeper.HmLog.Shutdown.{is_empty}

-- Where a thread stands in `insertLog`: outside, before `lock`, behind it, before the signal, before
-- `unlock`.
pub data WriterPc : Type 0 where
  outside : WriterPc
  calling : Entry → WriterPc
  entered : Entry → WriterPc
  pushed : WriterPc
  signalled : WriterPc

-- Where the thread of `printLog` stands: before `lock`, behind it, inside `log_wait`, behind it, and in
-- the loop with the records that are left.
pub data PrinterPc : Type 0 where
  begins : PrinterPc
  holds : PrinterPc
  in_wait : PrinterPc
  awake : PrinterPc
  printing : List LogT → PrinterPc

-- Where the destructor stands: not called, before `lock`, behind it, behind the signal, behind
-- `pthread_cancel`, and in `pthread_join`.
pub data DestructorPc : Type 0 where
  away : DestructorPc
  asks : DestructorPc
  looks : DestructorPc
  woke : DestructorPc
  cancelled : DestructorPc
  joins : DestructorPc

-- Who holds `logsMutex`.
pub data Owner : Type 0 where
  free : Owner
  the_printer : Owner
  a_writer : ℕ → Owner
  the_destructor : Owner

-- `logsMutex`, what it guards together with the condition variable, and the threads.
pub record Machine : Type 0 where
  pub owner : Owner
  pub log : HmLog
  pub printer : PrinterPc
  pub writers : ℕ → WriterPc
  pub destructor : DestructorPc

abbrev pub update {ℓ} : {A : Type ℓ} → (ℕ → A) → ℕ → A → ℕ → A
update f i a j = if i == j then a else f j

-- The log before any thread has called it.
abbrev pub start : ℕ → Machine
start level = record {
  owner = free;
  log = new_log level;
  printer = PrinterPc.begins;
  writers = λ i. outside;
  destructor = away;
}

-- What the loop of `printLog` does with a record.
abbrev pub print_one : LogT → HmLog → HmLog
print_one x l = record l {
  written = if leb l.current_log_level x.level then l.written ++ x ∷ [] else l.written;
}

-- Whether the printing thread has been cancelled.
abbrev pub is_cancelled : DestructorPc → Bool
is_cancelled cancelled = true
is_cancelled joins = true
is_cancelled d = false

-- One step of one thread, with the step of the log that takes place there, if one does. The machine is
-- that of a log whose files are open and of levels with a name, where no print fails. Up to the
-- cancel it has the steps of the source; behind it, the handler of the cancelled thread, which unlocks
-- the mutex once more, is left out, and so is what other threads log from there on under a mutex
-- that two of them may hold.
pub data Turn (m : Machine) : List Step → Machine → Type 0 where
  -- `insertLog`; a text that is empty is not logged
  call :
      (i : ℕ) (e : Entry)
      → m.writers i ≡ outside
      → length e.text ≢ 0
      → Turn m [] (record m { writers = update m.writers i (calling e) })
  enter :
      (i : ℕ) (e : Entry)
      → m.writers i ≡ calling e
      → m.owner ≡ free
      → Turn m [] (record m { owner = a_writer i; writers = update m.writers i (entered e) })
  push :
      (i : ℕ) (e : Entry)
      → m.writers i ≡ entered e
      → Turn m (inserts e ∷ []) (record m {
        log = record m.log { logs = m.log.logs ++ log_in e ∷ [] };
        writers = update m.writers i pushed;
      })
  signal :
      (i : ℕ)
      → m.writers i ≡ pushed
      → Turn m [] (record m { log = log_signal m.log; writers = update m.writers i signalled })
  leave :
      (i : ℕ)
      → m.writers i ≡ signalled
      → Turn m [] (record m { owner = free; writers = update m.writers i outside })
  -- `printLog`
  lock :
      m.printer ≡ begins
      → is_cancelled m.destructor ≡ false
      → m.owner ≡ free
      → Turn m [] (record m { owner = the_printer; printer = holds })
  wait :
      m.printer ≡ holds
      → Turn m
          (prints ∷ [])
          (record m { owner = free; log = record m.log { waiting = true }; printer = in_wait })
  wake : m.log.waiting ≡ true → Turn m (wakes ∷ []) (record m { log = log_signal m.log })
  resume :
      m.printer ≡ in_wait
      → is_cancelled m.destructor ≡ false
      → m.log.woken ≡ true
      → m.owner ≡ free
      → Turn m [] (record m {
        owner = the_printer;
        log = record m.log { waiting = false; woken = false };
        printer = awake;
      })
  move :
      m.printer ≡ awake
      → Turn m
          (prints ∷ [])
          (record m { log = record m.log { logs = [] }; printer = printing m.log.logs })
  print :
      (x : LogT) (rest : List LogT)
      → m.printer ≡ printing (x ∷ rest)
      → Turn m [] (record m { log = print_one x m.log; printer = printing rest })
  unlock : m.printer ≡ printing [] → Turn m [] (record m { owner = free; printer = begins })
  -- the destructor
  destroy : m.destructor ≡ away → Turn m [] (record m { destructor = asks })
  look :
      m.destructor ≡ asks
      → m.owner ≡ free
      → Turn m [] (record m { owner = the_destructor; destructor = looks })
  rouse :
      m.destructor ≡ looks
      → is_empty m.log.logs ≡ false
      → Turn m (wakes ∷ []) (record m { log = log_signal m.log; destructor = woke })
  sleep : m.destructor ≡ woke → Turn m [] (record m { owner = free; destructor = asks })
  cancel :
      m.destructor ≡ looks
      → is_empty m.log.logs ≡ true
      → Turn m [] (record m { destructor = cancelled })
  join : m.destructor ≡ cancelled → Turn m [] (record m { owner = free; destructor = joins })

-- The machines that threads reach, with the steps of the log in the order in which they took place.
pub data Reach (level : ℕ) : List Step → Machine → Type 0 where
  here : Reach level [] (start level)
  later :
      {steps more : List Step} {m m' : Machine}
      → Reach level steps m
      → Turn m more m'
      → Reach level (steps ++ more) m'
