-- ===== src/Watch/Start.antt =====
-- master/master.cpp: `main`, from the configuration to the loop; include/file.hpp: `getJsonInt`. The
-- environment, stdio and the JSON parser are parameters.
use home_keeper.Prelude.{
  Bool, ◌+◌, ◌||◌, map, ℕ, zero, suc, false, not, List, [], ◌∷◌, ◌++◌, Option, none, some, ◌≡◌, inl,
  inr, refl, if◌then◌else◌, Bool-cases, Bytes, codes, ℤ, pos, negsuc, eq_ℤ,
}
use home_keeper.File.{Stdio, History, File, new_file, get_res}
use home_keeper.HmLog.Setup.{get_value}
use home_keeper.Watch.{Worker, watch, all_restarts, any_output, watch_lem}

-- What `main` asks: the environment, stdio, the number `workerNo` and the list `worker` of a parsed
-- text (`none` for an exception), what `snprintf` makes of a format without arguments, and the first
-- line that a command prints in a pass of the loop.
pub record Host : Type 0 where
  pub getenv : Bytes → Option Bytes
  pub stdio : Stdio
  pub worker_no : Bytes → Option ℤ
  pub workers : Bytes → Option (List Worker)
  pub expand : Bytes → Bytes
  pub output : ℕ → Bytes → Bytes

-- `getJsonInt` of "workerNo": -1 for an empty text; `none` for an exception or a text that overruns
-- `buf`.
unfoldable pub get_json_int : Host → File → History → Option ℤ × History
get_json_int e f h = elim (get_res e.stdio f h).0 [
  | none ↦ (none, (get_res e.stdio f h).1)
  | some [] ↦ (some (negsuc 0), (get_res e.stdio f h).1)
  | some (b ∷ text) ↦ (e.worker_no (b ∷ text), (get_res e.stdio f h).1)
]

-- The rounds of a loop from 0 to an `int`.
abbrev pub rounds : ℤ → ℕ
rounds (pos n) = n
rounds (negsuc n) = 0

-- The first workers; `none` where the list is shorter, so that the conversion of a null value ends
-- the process.
unfoldable pub first_workers : ℕ → List Worker → Option (List Worker)
first_workers zero ws = some []
first_workers (suc n) [] = none
first_workers (suc n) (w ∷ ws) = elim (first_workers n ws) [
  | none ↦ none
  | some more ↦ some (w ∷ more)
]

-- The commands of the first start.
pub starts : Bytes → List Worker → List Bytes
starts bin_path [] = []
starts bin_path (w ∷ ws) = (bin_path ++ (codes "/" ++ w.file)) ∷ starts bin_path ws

-- Passes of the loop from the `k`-th on: the commands that they run, or `none` at the call of
-- `strtok_r` without a text.
pub passes : Host → Bytes → List Worker → ℕ → ℕ → Option (List Bytes)
passes e bin_path ws k zero = some []
passes e bin_path ws k (suc n) = elim (watch bin_path e.expand (e.output k) ws) [
  | none ↦ none
  | some now ↦ elim (passes e bin_path ws (k + 1) n) [
    | none ↦ none
    | some more ↦ some (now ++ more)
  ]
]

-- How `main` ends or goes on: with -1, by an exception or an overrun, or in its loop.
pub data Ran : Type 0 where
  no_log : Ran
  ended : Ran
  looping : List Bytes → Option (List Bytes) → Ran

-- The workers as `main` reads them: the number in one reading of the file, the list in the third.
unfoldable pub configured : Host → File → History → Option (List Worker)
configured e f h =
    let (number, h1) = get_json_int e f h in
    let (logged, h2) = get_res e.stdio f h1 in
    let (text, h3) = get_res e.stdio f h2 in
    elim number [
      | none ↦ none
      | some n ↦ elim logged [
        | none ↦ none
        | some shown ↦ elim text [
          | none ↦ none
          | some bytes ↦ elim (e.workers bytes) [
            | none ↦ none
            | some ws ↦ first_workers (rounds n) ws
          ]
        ]
      ]
    ]

-- `main`, by the result of the log's `init` and a number of passes: the commands of the start, and
-- those of the passes.
pub master_main : Host → ℤ → ℕ → History → Ran
master_main e ret n h =
    let cfg_path = get_value (e.getenv (codes "cfg_path")) in
    let bin_path = get_value (e.getenv (codes "BIN_PATH")) in
    if not (eq_ℤ ret (pos 0)) then no_log else elim (configured e (new_file cfg_path none) h) [
      | none ↦ ended
      | some ws ↦ looping (starts bin_path ws) (passes e bin_path ws 0 n)
    ]

-- What the first start should run: each worker once, in order.
abbrev pub all_starts : Bytes → List Worker → List Bytes
all_starts bin_path ws = map (λ (w : Worker). bin_path ++ (codes "/" ++ w.file)) ws

-- The same commands again and again.
abbrev pub again : ℕ → List Bytes → List Bytes
again zero commands = []
again (suc n) commands = commands ++ again n commands

-- One of `n` passes from the `k`-th on finds a name that, run as a command, prints a line.
abbrev pub any_pass : Host → List Worker → ℕ → ℕ → Bool
any_pass e ws k zero = false
any_pass e ws k (suc n) = any_output e.expand (e.output k) ws || any_pass e ws (k + 1) n

starts-map : (bin_path : Bytes) (ws : List Worker) → starts bin_path ws ≡ all_starts bin_path ws
unfolding starts
starts-map bin_path [] = refl
starts-map bin_path (w ∷ ws) = rw (starts-map bin_path ws) refl

passes_lem :
    (e : Host) (bin_path : Bytes) (ws : List Worker) (k n : ℕ)
    → passes e bin_path ws k n
      ≡ (if any_pass e ws k n then none else some (again n (all_restarts bin_path ws)))
unfolding passes
passes_lem e bin_path ws k zero = refl
passes_lem e bin_path ws k (suc n) = elim (Bool-cases (any_output e.expand (e.output k) ws)) [
  | inl b ↦ rw (passes, watch_lem bin_path e.expand (e.output k) ws, b) refl
  | inr b ↦ elim (Bool-cases (any_pass e ws (k + 1) n)) [
    | inl c ↦
        rw
          (
            passes,
            watch_lem bin_path e.expand (e.output k) ws,
            b,
            passes_lem e bin_path ws (k + 1) n,
            c,
          )
          refl
    | inr c ↦
        rw
          (
            passes,
            watch_lem bin_path e.expand (e.output k) ws,
            b,
            passes_lem e bin_path ws (k + 1) n,
            c,
          )
          refl
  ]
]

-- A master whose log is set up and whose configuration is read: it starts each worker of the list once,
-- in order; then every pass of its loop restarts each worker as often as the worker's number says,
-- whether or not it runs, up to the first pass in which the name of a worker, run as a command, prints
-- a line: that pass calls `strtok_r` without a text.
pub master_main_commands :
    (e : Host) (n : ℕ) (h : History) (ws : List Worker)
    → configured e (new_file (get_value (e.getenv (codes "cfg_path"))) none) h ≡ some ws
    → let bin_path = get_value (e.getenv (codes "BIN_PATH")) in
      master_main e (pos 0) n h
      ≡ looping
          (all_starts bin_path ws)
          (if any_pass e ws 0 n then none else some (again n (all_restarts bin_path ws)))
unfolding master_main
master_main_commands e n h ws c =
    let bin_path = get_value (e.getenv (codes "BIN_PATH")) in
    rw (c, starts-map bin_path ws, passes_lem e bin_path ws 0 n) refl
