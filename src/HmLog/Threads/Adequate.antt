-- ===== src/HmLog/Threads/Adequate.antt =====
-- include/hmLog.hpp: threads that do what any steps of the log do.
use home_keeper.Prelude.{
  ℕ, true, false, ◌&&◌, List, [], ◌∷◌, ◌++◌, append-nil, append_assoc, ◌≡◌, ◌↔◌, ◌≢◌, inl, inr,
  refl, sym, ap, ◌∙◌, subst, ◌==◌, arith, length, Bool-cases,
}
use home_keeper.HmLog.{
  LogT, Entry, HmLog, log_in, insert_log, print_log, log_signal, new_log, Step, inserts, prints,
  wakes, step, run, print_logs,
}
use home_keeper.HmLog.Threads.{
  outside, begins, in_wait, printing, away, free, Machine, start, print_one, call, enter, push,
  signal, leave, lock, wait, wake, resume, move, print, unlock, Reach, here, later,
}
use home_keeper.HmLog.Threads.Order.{Reach-run}

-- A machine at rest with a given log: the first thread is outside, and the printing thread waits or
-- stands before `lock`.
record Rest (level : ℕ) (l : HmLog) : Type 0 where
  steps : List Step
  machine : Machine
  reach : Reach level steps machine
  log : machine.log ≡ l
  owner : machine.owner ≡ free
  writer : machine.writers 0 ≡ outside
  destructor : machine.destructor ≡ away
  waiting : l.waiting ≡ true → machine.printer ≡ in_wait
  begins' : l.waiting ≡ false → machine.printer ≡ begins

-- The machine once the loop of `printLog` has written `w`.
abbrev ended : Machine → List LogT → Machine
ended m w = record m { owner = free; log = record m.log { written = w }; printer = begins }

print_one-print_logs :
    (x : LogT) (rest : List LogT) (l : HmLog)
    → (print_one x l).written ++ print_logs l.current_log_level rest
      ≡ l.written ++ print_logs l.current_log_level (x ∷ rest)
unfolding print_logs
print_one-print_logs x rest l =
    ground (arith, append_assoc l.written (x ∷ []) (print_logs l.current_log_level rest))

print_log-waiting :
    (l : HmLog)
    → l.waiting && l.woken ≡ true
    → print_log l ≡ record l {
      logs = [];
      written = l.written ++ print_logs l.current_log_level l.logs;
      waiting = false;
      woken = false;
    }
unfolding print_log
print_log-waiting l h = ground (arith, h)

module _ (level : ℕ) where
  -- The loop of `printLog`, from where it has moved the queue out.
  printing_all :
      (rest : List LogT) (steps : List Step) (m : Machine)
      → Reach level steps m
      → m.printer ≡ printing rest
      → (steps' : List Step) × Reach level steps'
          (ended m (m.log.written ++ print_logs m.log.current_log_level rest))
  unfolding print_logs
  printing_all [] steps m r e =
      subst (λ w. (steps' : List Step) × Reach level steps' (ended m w))
        (sym (append-nil m.log.written)) (steps ++ [], later r (unlock e))
  printing_all (x ∷ rest) steps m r e =
      let m1 : Machine = record m { log = print_one x m.log; printer = printing rest } in
      subst (λ w. (steps' : List Step) × Reach level steps' (ended m w))
        (print_one-print_logs x rest m.log)
        (printing_all rest (steps ++ []) m1 (later r (print x rest e)) refl)

  insert_log-Rest : (e : Entry) (l : HmLog) → Rest level l → Rest level (insert_log e l)
  unfolding insert_log
  insert_log-Rest e l q = elim (Bool-cases (length e.text == 0)) [
    | inl empty ↦ rw empty q
    | inr text ↦
        let some_text : length e.text ≢ 0 = ground arith in
        let r1 = later q.reach (call 0 e q.writer some_text) in
        let r2 = later r1 (enter 0 e refl q.owner) in
        let r3 = later (later r2 (push 0 e refl)) (signal 0 refl) in
        rw text (record {
          steps = _;
          machine = _;
          reach = later r3 (leave 0 refl);
          log = ap (λ (x : HmLog). log_signal (record x { logs = x.logs ++ log_in e ∷ [] })) q.log;
          owner = refl;
          writer = refl;
          destructor = q.destructor;
          waiting = q.waiting;
          begins' = q.begins';
        })
  ]

  print_log-still : (l : HmLog) → l.waiting ≡ true → l.woken ≡ false → print_log l ≡ l
  unfolding print_log
  print_log-still l w k = ground (arith, w, k)

  print_log-begins : (l : HmLog) → l.waiting ≡ false → print_log l ≡ record l { waiting = true }
  unfolding print_log
  print_log-begins l w = ground (arith, w)

  -- The printing thread waits and has been woken.
  written-Rest :
      (l : HmLog) → l.waiting ≡ true → l.woken ≡ true → Rest level l → Rest level (print_log l)
  written-Rest l w k q =
      let r1 =
        later q.reach
          (resume (q.waiting w) (rw q.destructor refl) (ap (λ x. x.woken) q.log ∙ k) q.owner) in
      let r2 = later r1 (move refl) in
      let (steps, r3) = printing_all q.machine.log.logs _ _ r2 refl in
      subst (Rest level) (sym (print_log-waiting l (rw (w, k) refl))) (record {
        steps = steps;
        machine = _;
        reach = r3;
        log =
            ap
              (λ (x : HmLog). record x {
                logs = [];
                written = x.written ++ print_logs x.current_log_level x.logs;
                waiting = false;
                woken = false;
              })
              q.log;
        owner = refl;
        writer = q.writer;
        destructor = q.destructor;
        waiting = λ e. cc;
        begins' = λ e. refl;
      })

  -- The printing thread starts to wait.
  waiting-Rest : (l : HmLog) → l.waiting ≡ false → Rest level l → Rest level (print_log l)
  waiting-Rest l w q =
      let r1 = later q.reach (lock (q.begins' w) (rw q.destructor refl) q.owner) in
      subst (Rest level) (sym (print_log-begins l w)) (record {
        steps = _;
        machine = _;
        reach = later r1 (wait refl);
        log = ap (λ (x : HmLog). record x { waiting = true }) q.log;
        owner = refl;
        writer = q.writer;
        destructor = q.destructor;
        waiting = λ e. refl;
        begins' = λ e. cc;
      })

  log_signal-Rest : (l : HmLog) → Rest level l → Rest level (log_signal l)
  log_signal-Rest l q = elim (Bool-cases l.waiting) [
    | inl w ↦ record {
      steps = _;
      machine = _;
      reach = later q.reach (wake (ap (λ x. x.waiting) q.log ∙ w));
      log = ap log_signal q.log;
      owner = q.owner;
      writer = q.writer;
      destructor = q.destructor;
      waiting = q.waiting;
      begins' = q.begins';
    }
    | inr w ↦ let same : log_signal l ≡ l = ground (arith, w) in subst (Rest level) (sym same) q
  ]

  step-Rest : (s : Step) (l : HmLog) → Rest level l → Rest level (step s l)
  unfolding step
  step-Rest (inserts e) l q = insert_log-Rest e l q
  step-Rest wakes l q = log_signal-Rest l q
  step-Rest prints l q = elim (Bool-cases l.waiting) [
    | inr w ↦ waiting-Rest l w q
    | inl w ↦ elim (Bool-cases l.woken) [
      | inl k ↦ written-Rest l w k q
      | inr k ↦ subst (Rest level) (sym (print_log-still l w k)) q
    ]
  ]

  run-Rest : (steps : List Step) (l : HmLog) → Rest level l → Rest level (run steps l)
  unfolding run
  run-Rest [] l q = q
  run-Rest (s ∷ steps) l q = run-Rest steps (step s l) (step-Rest s l q)

  start-Rest : Rest level (new_log level)
  start-Rest = record {
    steps = [];
    machine = start level;
    reach = here;
    log = refl;
    owner = refl;
    writer = refl;
    destructor = refl;
    waiting = λ e. cc;
    begins' = λ e. refl;
  }

-- A log that threads leave at a level, whenever nobody holds the mutex.
abbrev pub Left : ℕ → HmLog → Type 0
Left level l =
    (steps : List Step) × (m : Machine) × Reach level steps m × (m.owner ≡ free) × (m.log ≡ l)

-- The logs that threads leave whenever nobody holds the mutex are exactly the logs that sequences of
-- steps of the log leave.
pub run-Left :
    (level : ℕ) (l : HmLog) → Left level l ↔ ((steps : List Step) × (run steps (new_log level) ≡ l))
run-Left level l = (
  λ (steps, m, r, f, e). (steps, Reach-run r f ∙ e),
  λ (steps, e).
      let q = run-Rest level steps (new_log level) (start-Rest level) in
      (q.steps, q.machine, q.reach, q.owner, q.log ∙ e),
)
