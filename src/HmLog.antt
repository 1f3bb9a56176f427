-- ===== src/HmLog.antt =====
-- include/hmLog.hpp: the queue of log records between `insertLog` and the thread `printLog`.
pub mod Shutdown
pub mod Setup
pub mod Output
pub mod Threads
use home_keeper.Prelude.{
  ℕ, zero, suc, Bool, true, false, ◌||◌, List, [], ◌∷◌, ◌++◌, append-nil, append_assoc, ◌≡◌, refl,
  sym, ap, ◌∙◌, leb, ◌==◌, if◌then◌else◌, arith, length, replicate, Bytes, print_into,
}

-- `log_t`
pub record LogT : Type 0 where
  pub level : ℕ
  pub time : Bytes
  pub msg : Bytes

-- What `insertLog` is given: `text` is what `vsnprintf` prints, and `head` is what stands before it
-- (process, thread, file, function and line); `time` is what the numbers of the local time print.
pub record Entry : Type 0 where
  pub level : ℕ
  pub time : Bytes
  pub head : Bytes
  pub text : Bytes

-- The queue `logs`, the level, what has been written to the log files, and whether the thread is
-- inside `log_wait` and has been signalled.
pub record HmLog : Type 0 where
  pub logs : List LogT
  pub current_log_level : ℕ
  pub written : List LogT
  pub waiting : Bool
  pub woken : Bool

-- A new log, before the thread has run.
abbrev pub new_log : ℕ → HmLog
new_log level = record {
  logs = [];
  current_log_level = level;
  written = [];
  waiting = false;
  woken = false;
}

-- The record `insertLog` makes: `time` has room for 255 bytes and `msg` for 10240.
abbrev pub log_in : Entry → LogT
log_in e = record {
  level = e.level;
  time = print_into 255 e.time;
  msg = print_into 10240 (e.head ++ e.text);
}

-- `insertLog`: an empty text is not logged. A signal is lost when no thread waits.
pub insert_log : Entry → HmLog → HmLog
insert_log e l =
    if length e.text == 0
    then l
    else record l { logs = l.logs ++ log_in e ∷ []; woken = l.woken || l.waiting }

-- The records a level lets through, in the loop of `printLog`.
unfoldable pub print_logs : ℕ → List LogT → List LogT
print_logs level [] = []
print_logs level (log ∷ logs) =
    let rest = print_logs level logs in if leb level log.level then log ∷ rest else rest

-- `printLog` while it holds the mutex: from the lock to where it waits, or from a signal to the
-- unlock. Nothing happens while it waits for a signal.
unfoldable pub print_log : HmLog → HmLog
print_log l =
    if l.waiting
    then if l.woken
      then record l {
        logs = [];
        written = l.written ++ print_logs l.current_log_level l.logs;
        waiting = false;
        woken = false;
      }
      else l
    else record l { waiting = true }

-- `setLevel`
abbrev pub set_level : ℕ → HmLog → HmLog
set_level level l = record l { current_log_level = level }

-- `log_signal`, and a wake-up without a signal.
abbrev pub log_signal : HmLog → HmLog
log_signal l = record l { woken = l.woken || l.waiting }

-- The steps of the threads in the order of the mutex, and wake-ups without an entry.
pub data Step : Type 0 where
  inserts : Entry → Step
  prints : Step
  wakes : Step

pub step : Step → HmLog → HmLog
step (inserts e) l = insert_log e l
step prints l = print_log l
step wakes l = log_signal l

pub run : List Step → HmLog → HmLog
run [] l = l
run (s ∷ steps) l = run steps (step s l)

-- The records of the entries among the steps that are not empty.
pub logged : List Step → List LogT
logged [] = []
logged (inserts e ∷ steps) =
    let rest = logged steps in if length e.text == 0 then rest else log_in e ∷ rest
logged (prints ∷ steps) = logged steps
logged (wakes ∷ steps) = logged steps

print_logs-append :
    (level : ℕ) (xs ys : List LogT)
    → print_logs level (xs ++ ys) ≡ print_logs level xs ++ print_logs level ys
unfolding print_logs
print_logs-append level [] ys = refl
print_logs-append level (x ∷ xs) ys = ground (arith, print_logs-append level xs ys)

-- What has been written, and what is waiting and will be.
abbrev pub seen : HmLog → List LogT
seen l = l.written ++ print_logs l.current_log_level l.logs

step-level : (s : Step) (l : HmLog) → (step s l).current_log_level ≡ l.current_log_level
unfolding step insert_log print_log
step-level (inserts e) l = ground arith
step-level prints l = ground arith
step-level wakes l = refl

seen-step :
    (s : Step) (l : HmLog)
    → seen (step s l) ≡ seen l ++ print_logs l.current_log_level (logged (s ∷ []))
unfolding step insert_log print_log logged print_logs
seen-step (inserts e) l = ground (
  arith,
  print_logs-append l.current_log_level l.logs (log_in e ∷ []),
  append_assoc l.written (print_logs l.current_log_level l.logs)
      (print_logs l.current_log_level (log_in e ∷ [])),
  append-nil (seen l),
)
seen-step prints l =
    ground
      (arith, append-nil (seen l), append-nil (l.written ++ print_logs l.current_log_level l.logs))
seen-step wakes l = sym (append-nil (seen l))

logged-cons : (s : Step) (steps : List Step) → logged (s ∷ steps) ≡ logged (s ∷ []) ++ logged steps
unfolding logged
logged-cons (inserts e) steps = ground arith
logged-cons prints steps = refl
logged-cons wakes steps = refl

-- Whatever the order in which threads insert and the printing thread runs: what has been written,
-- followed by what the level lets through of the queue, grows by exactly the non-empty entries of
-- the steps that the level lets through, in their order. Nothing is lost, repeated or reordered.
pub run-seen :
    (steps : List Step) (l : HmLog)
    → seen (run steps l) ≡ seen l ++ print_logs l.current_log_level (logged steps)
unfolding run print_logs logged
run-seen [] l = sym (append-nil (seen l))
run-seen (s ∷ steps) l =
    let level = l.current_log_level in
    run-seen steps (step s l)
    ∙ ap (λ x. x ++ print_logs (step s l).current_log_level (logged steps)) (seen-step s l)
    ∙ ap (λ x. (seen l ++ print_logs level (logged (s ∷ []))) ++ print_logs x (logged steps))
        (step-level s l)
    ∙ append_assoc (seen l) (print_logs level (logged (s ∷ []))) (print_logs level (logged steps))
    ∙ ap (λ x. seen l ++ x)
        (sym (print_logs-append level (logged (s ∷ [])) (logged steps))
          ∙ ap (print_logs level) (sym (logged-cons s steps)))

prints_idle :
    (n : ℕ) (l : HmLog) → l.woken ≡ false → (run (replicate n prints) l).written ≡ l.written
unfolding run step print_log
prints_idle zero l k = refl
prints_idle (suc n) l k =
    ground (arith, prints_idle n l k, prints_idle n (record l { waiting = true }) k)

-- An entry that is logged while the printing thread does not wait, with no signal on its way, is
-- not written, however often the thread runs, until another entry is logged or the thread is woken without one.
pub lost_signal :
    (n : ℕ) (e : Entry) (l : HmLog)
    → l.waiting ≡ false
    → l.woken ≡ false
    → (run (replicate n prints) (insert_log e l)).written ≡ l.written
unfolding insert_log
lost_signal n e l w k = ground (arith, prints_idle n (insert_log e l))
