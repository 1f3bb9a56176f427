-- ===== src/HmLog/Threads/Sound.antt =====
-- include/hmLog.hpp: what holds of the threads in every machine that they reach.
use home_keeper.Prelude.{ℕ, true, List, ◌≡◌, refl, arith}
use home_keeper.HmLog.{Step}
use home_keeper.HmLog.Threads.{Machine, start, Turn, call, enter, push, Reach, here, later}
use home_keeper.HmLog.Threads.Inside.{is_waiting, HasText, IsDrained, IsSound, guard}
use home_keeper.HmLog.Threads.Exclusion.{Turn-writer, Turn-printer, Turn-destructor, Turn-owner}

start-IsSound : (level : ℕ) → IsSound (start level)
start-IsSound level = record {
  writer = λ i e. cc;
  printer = λ e. cc;
  destructor = λ e. cc;
  owner = refl;
  waits = refl;
  woken = λ e. cc;
  text = λ i. tt;
  drained = tt;
}

module _ (m : Machine) (s : IsSound m) where
  Turn-waits :
      {m' : Machine} {steps : List Step} → Turn m steps m' → m'.log.waiting ≡ is_waiting m'.printer
  Turn-waits (call i e o n) = s.waits
  Turn-waits t = ground (arith, guard t, s.waits)

  Turn-woken :
      {m' : Machine} {steps : List Step}
      → Turn m steps m'
      → m'.log.woken ≡ true
      → m'.log.waiting ≡ true
  Turn-woken (call i e o n) h = s.woken h
  Turn-woken t h = ground (arith, guard t, s.woken)

  Turn-HasText :
      {m' : Machine} {steps : List Step} → Turn m steps m' → (j : ℕ) → HasText (m'.writers j)
  Turn-HasText (call i e o n) j = ground (arith, s.text j)
  Turn-HasText (enter i e o n) j = ground (arith, s.text j, s.text i)
  Turn-HasText t j = ground (arith, s.text j)

  Turn-IsDrained :
      {m' : Machine} {steps : List Step} → Turn m steps m' → IsDrained m'.destructor m'.log
  Turn-IsDrained (call i e o n) = s.drained
  Turn-IsDrained (push i e o) = ground (arith, s.drained, s.writer i, s.destructor)
  Turn-IsDrained t = ground (arith, guard t, s.drained, s.printer, s.destructor)

pub Turn-IsSound : {m m' : Machine} {steps : List Step} → Turn m steps m' → IsSound m → IsSound m'
Turn-IsSound {m} t s = record {
  writer = Turn-writer m s t;
  printer = Turn-printer m s t;
  destructor = Turn-destructor m s t;
  owner = Turn-owner m s t;
  waits = Turn-waits m s t;
  woken = Turn-woken m s t;
  text = Turn-HasText m s t;
  drained = Turn-IsDrained m s t;
}

pub Reach-IsSound : {level : ℕ} {steps : List Step} {m : Machine} → Reach level steps m → IsSound m
Reach-IsSound {level} here = start-IsSound level
Reach-IsSound (later r t) = Turn-IsSound t (Reach-IsSound r)
