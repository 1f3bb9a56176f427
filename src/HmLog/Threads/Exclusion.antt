-- ===== src/HmLog/Threads/Exclusion.antt =====
-- include/hmLog.hpp: a turn of a thread leaves the mutex with the one that is between `lock` and `unlock`.
use home_keeper.Prelude.{ℕ, true, List, [], ◌∷◌, ◌++◌, ◌≡◌, refl, arith}
use home_keeper.HmLog.{log_in, log_signal, Step}
use home_keeper.HmLog.Threads.{
  calling, pushed, signalled, printing, asks, woke, cancelled, Owner, free, the_printer, a_writer,
  the_destructor, Machine, update, print_one, Turn, call, enter, push, signal, leave, lock, wait,
  wake, resume, move, print, unlock, destroy, look, rouse, sleep, cancel, join,
}
use home_keeper.HmLog.Threads.Inside.{
  writer_inside, printer_inside, destructor_inside, owner_inside, IsSound, guard,
}

module _ (m : Machine) (s : IsSound m) where
  pub Turn-writer :
      {m' : Machine} {steps : List Step}
      → Turn m steps m'
      → (j : ℕ) → writer_inside (m'.writers j) ≡ true
      → m'.owner ≡ a_writer j
  Turn-writer (call i e o n) j h = ground (arith, s.writer j)
  Turn-writer (push i e o) j h = ground (arith, s.writer j, s.writer i)
  Turn-writer (signal i o) j h = ground (arith, s.writer j, s.writer i)
  Turn-writer (leave i o) j h = ground (arith, s.writer j, s.writer i)
  Turn-writer t j h = ground (arith, guard t, s.writer j, s.printer, s.destructor)

  pub Turn-printer :
      {m' : Machine} {steps : List Step}
      → Turn m steps m'
      → printer_inside m'.printer ≡ true
      → m'.owner ≡ the_printer
  Turn-printer (call i e o n) h = s.printer h
  Turn-printer (leave i o) h = ground (arith, s.printer, s.writer i)
  Turn-printer t h = ground (arith, guard t, s.printer, s.destructor)

  pub Turn-destructor :
      {m' : Machine} {steps : List Step}
      → Turn m steps m'
      → destructor_inside m'.destructor ≡ true
      → m'.owner ≡ the_destructor
  Turn-destructor (call i e o n) h = s.destructor h
  Turn-destructor (leave i o) h = ground (arith, s.destructor, s.writer i)
  Turn-destructor t h = ground (arith, guard t, s.destructor, s.printer)

  -- An owner stays inside where nobody leaves.
  owner_kept :
      (o : Owner) (m' : Machine)
      → owner_inside o m ≡ true
      → (printer_inside m.printer ≡ true → printer_inside m'.printer ≡ true)
      → ((i : ℕ) → writer_inside (m.writers i) ≡ true → writer_inside (m'.writers i) ≡ true)
      → (destructor_inside m.destructor ≡ true → destructor_inside m'.destructor ≡ true)
      → owner_inside o m' ≡ true
  owner_kept free m' h p w d = refl
  owner_kept the_printer m' h p w d = p h
  owner_kept (a_writer i) m' h p w d = w i h
  owner_kept the_destructor m' h p w d = d h

  pub Turn-owner :
      {m' : Machine} {steps : List Step} → Turn m steps m' → owner_inside m'.owner m' ≡ true
  Turn-owner (call i e o n) =
      owner_kept m.owner (record m { writers = update m.writers i (calling e) }) s.owner (λ h. h)
        (λ j h. ground arith) (λ h. h)
  Turn-owner (enter i e o n) = ground arith
  Turn-owner (push i e o) =
      owner_kept m.owner
        (record m {
          log = record m.log { logs = m.log.logs ++ log_in e ∷ [] };
          writers = update m.writers i pushed;
        })
        s.owner (λ h. h) (λ j h. ground arith) (λ h. h)
  Turn-owner (signal i o) =
      owner_kept m.owner
        (record m { log = log_signal m.log; writers = update m.writers i signalled }) s.owner
        (λ h. h) (λ j h. ground arith) (λ h. h)
  Turn-owner (leave i o) = refl
  Turn-owner (lock p c o) = refl
  Turn-owner (wait p) = refl
  Turn-owner (wake w) =
      owner_kept m.owner (record m { log = log_signal m.log }) s.owner (λ h. h) (λ j h. h) (λ h. h)
  Turn-owner (resume p c w o) = refl
  Turn-owner (move p) =
      owner_kept m.owner
        (record m { log = record m.log { logs = [] }; printer = printing m.log.logs }) s.owner
        (λ h. refl) (λ j h. h) (λ h. h)
  Turn-owner (print x rest p) =
      owner_kept m.owner (record m { log = print_one x m.log; printer = printing rest }) s.owner
        (λ h. refl) (λ j h. h) (λ h. h)
  Turn-owner (unlock p) = refl
  Turn-owner (destroy d) =
      owner_kept m.owner (record m { destructor = asks }) s.owner (λ h. h) (λ j h. h)
        (λ h. ground arith)
  Turn-owner (look d o) = refl
  Turn-owner (rouse d e) =
      owner_kept m.owner (record m { log = log_signal m.log; destructor = woke }) s.owner (λ h. h)
        (λ j h. h) (λ h. refl)
  Turn-owner (sleep d) = refl
  Turn-owner (cancel d e) =
      owner_kept m.owner (record m { destructor = cancelled }) s.owner (λ h. h) (λ j h. h)
        (λ h. refl)
  Turn-owner (join d) = refl
