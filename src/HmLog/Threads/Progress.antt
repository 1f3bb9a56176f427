-- ===== src/HmLog/Threads/Progress.antt =====
-- include/hmLog.hpp: the mutex of the log is held by one thread, which gives it back.
use home_keeper.Prelude.{
  ℕ, Bool, true, false, List, [], ◌∷◌, ◌≡◌, inl, inr, refl, ==_iff, arith, Bool-cases, ◌<◌, All,
}
use home_keeper.HmLog.{LogT, Step}
use home_keeper.HmLog.Shutdown.{is_empty}
use home_keeper.HmLog.Threads.{
  WriterPc, outside, calling, entered, pushed, signalled, PrinterPc, begins, holds, in_wait, awake,
  printing, DestructorPc, away, asks, looks, woke, cancelled, joins, Owner, free, the_printer,
  a_writer, the_destructor, Machine, is_cancelled, Turn, call, enter, push, signal, leave, wait,
  wake, move, print, unlock, destroy, look, rouse, sleep, cancel, join, Reach,
}
use home_keeper.HmLog.Threads.Inside.{IsSound, writer_inside, printer_inside, destructor_inside}
use home_keeper.HmLog.Threads.Sound.{Reach-IsSound}

-- Whether a thread stands between `lock` and `unlock`.
abbrev pub inside : Owner → Machine → Bool
inside free m = false
inside the_printer m = printer_inside m.printer
inside (a_writer i) m = writer_inside (m.writers i)
inside the_destructor m = destructor_inside m.destructor

-- Who takes a turn; a wake-up without a signal is nobody's.
abbrev pub who : {m m' : Machine} {steps : List Step} → Turn m steps m' → Owner
who (call i e o n) = a_writer i
who (enter i e o f) = a_writer i
who (push i e o) = a_writer i
who (signal i o) = a_writer i
who (leave i o) = a_writer i
who (wake w) = free
who (destroy d) = the_destructor
who (look d o) = the_destructor
who (rouse d e) = the_destructor
who (sleep d) = the_destructor
who (cancel d e) = the_destructor
who (join d) = the_destructor
who t = the_printer

-- The level of a record has a name in `log_str`.
abbrev pub IsNamed : LogT → Type 0
IsNamed x = x.level < 5

-- A turn at which the thread does not fail: it prints no record whose level has no name.
abbrev pub Works : {m m' : Machine} {steps : List Step} → Turn m steps m' → Type 0
Works (print x rest p) = IsNamed x
Works t = Unit

-- The records that the printing thread has in hand.
abbrev pub in_hand : PrinterPc → List LogT
in_hand (printing rest) = rest
in_hand pc = []

-- Turns of one thread only.
pub data Alone (o : Owner) : Machine → Machine → Type 0 where
  stop : {m : Machine} → Alone o m m
  turn :
      {steps : List Step} {m m' m'' : Machine} (t : Turn m steps m')
      → who t ≡ o
      → Works t
      → Alone o m' m''
      → Alone o m m''

-- A thread that gives the mutex back by turns of its own.
abbrev pub GivesBack : Owner → Machine → Type 0
GivesBack o m = (m' : Machine) × Alone o m m' × (m'.owner ≡ free)

gives_on :
    {o : Owner} {steps : List Step} {m m' : Machine} (t : Turn m steps m')
    → who t ≡ o
    → Works t
    → GivesBack o m'
    → GivesBack o m
gives_on t w k (m'', alone, f) = (m'', turn t w k alone, f)

gives_now :
    {o : Owner} {steps : List Step} {m m' : Machine} (t : Turn m steps m')
    → who t ≡ o
    → Works t
    → m'.owner ≡ free
    → GivesBack o m
gives_now t w k f = (_, turn t w k stop, f)

module _ (i : ℕ) where
  signalled_gives : (m : Machine) → m.writers i ≡ signalled → GivesBack (a_writer i) m
  signalled_gives m e = gives_now (leave i e) refl tt refl

  pushed_gives : (m : Machine) → m.writers i ≡ pushed → GivesBack (a_writer i) m
  pushed_gives m e = gives_on (signal i e) refl tt (signalled_gives _ (ground (arith, ==_iff i i)))

  writer_gives :
      (m : Machine) (pc : WriterPc)
      → m.writers i ≡ pc
      → writer_inside pc ≡ true
      → GivesBack (a_writer i) m
  writer_gives m outside e h = cc
  writer_gives m (calling entry) e h = cc
  writer_gives m signalled e h = signalled_gives m e
  writer_gives m pushed e h = pushed_gives m e
  writer_gives m (entered entry) e h =
      gives_on (push i entry e) refl tt (pushed_gives _ (ground (arith, ==_iff i i)))

printing_gives :
    (rest : List LogT) (m : Machine)
    → All IsNamed rest
    → m.printer ≡ printing rest
    → GivesBack the_printer m
printing_gives [] m h e = gives_now (unlock e) refl tt refl
printing_gives (x ∷ rest) m h e =
    gives_on (print x rest e) refl h.0 (printing_gives rest _ h.1 refl)

printer_gives :
    (m : Machine) (pc : PrinterPc)
    → All IsNamed m.log.logs
    → All IsNamed (in_hand pc)
    → m.printer ≡ pc
    → printer_inside pc ≡ true
    → GivesBack the_printer m
printer_gives m begins q n e h = cc
printer_gives m in_wait q n e h = cc
printer_gives m holds q n e h = gives_now (wait e) refl tt refl
printer_gives m awake q n e h = gives_on (move e) refl tt (printing_gives m.log.logs _ q refl)
printer_gives m (printing rest) q n e h = printing_gives rest m n e

destructor_gives :
    (m : Machine) (pc : DestructorPc)
    → m.destructor ≡ pc
    → destructor_inside pc ≡ true
    → GivesBack the_destructor m
destructor_gives m away e h = cc
destructor_gives m asks e h = cc
destructor_gives m joins e h = cc
destructor_gives m woke e h = gives_now (sleep e) refl tt refl
destructor_gives m cancelled e h = gives_now (join e) refl tt refl
destructor_gives m looks e h = elim (Bool-cases (is_empty m.log.logs)) [
  | inl b ↦ gives_on (cancel e b) refl tt (gives_now (join refl) refl tt refl)
  | inr b ↦ gives_on (rouse e b) refl tt (gives_now (sleep refl) refl tt refl)
]

inside_gives :
    (o : Owner) (m : Machine)
    → All IsNamed m.log.logs
    → All IsNamed (in_hand m.printer)
    → inside o m ≡ true
    → GivesBack o m
inside_gives free m q n h = cc
inside_gives the_printer m q n h = printer_gives m m.printer q n refl h
inside_gives (a_writer i) m q n h = writer_gives i m (m.writers i) refl h
inside_gives the_destructor m q n h = destructor_gives m m.destructor refl h

inside_owns : (o : Owner) (m : Machine) → IsSound m → inside o m ≡ true → m.owner ≡ o
inside_owns free m s h = cc
inside_owns the_printer m s h = s.printer h
inside_owns (a_writer i) m s h = s.writer i h
inside_owns the_destructor m s h = s.destructor h

-- However the threads interleave, up to the cancel of the printing thread, in a log whose files are
-- open: a thread that stands between `lock` and `unlock` holds the mutex, so that no two threads stand
-- there; and where every record in the queue and in the hand of the printing thread has a level with
-- a name, the thread comes by its own turns alone, at none of which it fails, to where it gives the
-- mutex back.
pub inside-GivesBack :
    {level : ℕ} {steps : List Step} {m : Machine}
    → Reach level steps m
    → is_cancelled m.destructor ≡ false
    → (o : Owner) → inside o m ≡ true
    → All IsNamed m.log.logs
    → All IsNamed (in_hand m.printer)
    → (m.owner ≡ o) × GivesBack o m
inside-GivesBack {m} r c o h q n = (inside_owns o m (Reach-IsSound r) h, inside_gives o m q n h)
