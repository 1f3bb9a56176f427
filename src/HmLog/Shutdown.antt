-- ===== src/HmLog/Shutdown.antt =====
-- include/hmLog.hpp: the destructor, which waits until the queue is empty.
use home_keeper.Prelude.{
  ℕ, zero, suc, Bool, true, false, ◌||◌, List, [], ◌∷◌, append-nil, Option, none, some, ◌≡◌, inl,
  inr, refl, sym, ap, ◌∙◌, subst, Bool-cases, arith,
}
use home_keeper.HmLog.{LogT, HmLog, log_signal, print_log, print_logs, seen}

abbrev pub is_empty : List LogT → Bool
is_empty [] = true
is_empty (log ∷ logs) = false

-- The destructor: each pass signals where the queue is not empty, and the printing thread runs while
-- the destructor sleeps; where the queue is empty, the thread is ended.
unfoldable pub shut_down : ℕ → HmLog → Option HmLog
shut_down zero l = none
shut_down (suc n) l = elim (is_empty l.logs) [
  | true ↦ some l
  | false ↦ shut_down n (print_log (log_signal l))
]

-- Three passes: a thread that does not wait starts to, then it writes, and the queue is empty.
abbrev pub last_pass : ℕ
last_pass = 3

pub empty_lem : (logs : List LogT) → is_empty logs ≡ true → logs ≡ []
empty_lem [] e = refl
empty_lem (log ∷ logs) e = cc

pub shut_down_empty : (n : ℕ) (l : HmLog) → is_empty l.logs ≡ true → shut_down (suc n) l ≡ some l
unfolding shut_down
shut_down_empty n l e = rw (e, shut_down)

pub shut_down_pass :
    (n : ℕ) (l : HmLog)
    → is_empty l.logs ≡ false
    → shut_down (suc n) l ≡ shut_down n (print_log (log_signal l))
unfolding shut_down
shut_down_pass n l e = rw (e, shut_down)

-- What the thread that waits and is signalled leaves.
abbrev flushed : HmLog → HmLog
flushed l = record l { logs = []; written = seen l; waiting = false; woken = false }

waiting_pass : (l : HmLog) → l.waiting ≡ true → print_log (log_signal l) ≡ flushed l
unfolding print_log
waiting_pass l w = ground (arith, w)

-- The thread that waits is signalled, writes, and leaves the queue empty.
shut_down_writes :
    (n : ℕ) (l : HmLog)
    → is_empty l.logs ≡ false
    → l.waiting ≡ true
    → (l' : HmLog) × (shut_down (suc (suc n)) l ≡ some l') × (l'.written ≡ seen l) × (l'.logs ≡ [])
shut_down_writes n l e w = (
  flushed l,
  shut_down_pass (suc n) l e
      ∙ ap (shut_down (suc n)) (waiting_pass l w)
      ∙ shut_down_empty n (flushed l) refl,
  refl,
  refl,
)

not_waiting_pass :
    (l : HmLog)
    → l.waiting ≡ false
    → print_log (log_signal l) ≡ record l { woken = l.woken || l.waiting; waiting = true }
unfolding print_log
not_waiting_pass l w = ground (arith, w)

pub written_lem : (l : HmLog) → l.logs ≡ [] → l.written ≡ seen l
unfolding print_logs
written_lem l e = sym (rw (e, print_logs) (append-nil l.written))

-- From any state of the log, where the printing thread runs between two passes of the destructor and
-- no other thread logs, the destructor ends after three passes at most; then the queue is empty, and
-- what the level lets through of it has been written behind what was written before.
pub shut_down_lem :
    (l : HmLog)
    → (l' : HmLog) × (shut_down last_pass l ≡ some l') × (l'.written ≡ seen l) × (l'.logs ≡ [])
shut_down_lem l = elim (Bool-cases (is_empty l.logs)) [
  | inl e ↦ (l, shut_down_empty 2 l e, written_lem l (empty_lem l.logs e), empty_lem l.logs e)
  | inr e ↦ elim (Bool-cases l.waiting) [
    | inl w ↦ shut_down_writes 1 l e w
    | inr w ↦
        subst (λ x. (l' : HmLog) × (x ≡ some l') × (l'.written ≡ seen l) × (l'.logs ≡ []))
          (sym (shut_down_pass 2 l e ∙ ap (shut_down 2) (not_waiting_pass l w)))
          (shut_down_writes 0 (record l { woken = l.woken || l.waiting; waiting = true }) e refl)
  ]
]
