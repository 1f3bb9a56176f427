-- ===== src/Watch.antt =====
-- master/master.cpp: one pass of the loop of `main` over the workers.
pub mod Start
use home_keeper.Prelude.{
  ℕ, zero, suc, Bool, false, ◌||◌, List, [], ◌∷◌, ◌++◌, Option, none, some, ◌≡◌, refl, ltb,
  if◌then◌else◌, arith, length, Bytes, codes, c_str, print_into, replicate,
}

-- A worker of the configuration: its file, and the value that `atoi` reads of its number.
pub record Worker : Type 0 where
  pub file : Bytes
  pub number : ℕ

-- The command that goes to `popen`: `cmd` starts as a pattern for `ps`, but `snprintf` overwrites it.
-- The name of the file is the format itself, and `expand` is what `snprintf` makes of a format
-- without arguments.
pub command : (Bytes → Bytes) → Worker → Bytes
command expand w = print_into 200 (expand w.file)

-- The commands that restart a worker, each with `bin_path` in front.
pub restarts : Bytes → Bytes → ℕ → List Bytes
restarts bin_path file zero = []
restarts bin_path file (suc n) =
    (bin_path ++ (codes "/" ++ (file ++ codes " &"))) ∷ restarts bin_path file n

-- One worker, by the first line that its command prints (empty if it prints none). A line that is
-- not empty goes to `strtok_r`, whose first call has neither a text nor a `saveptr1` that was set:
-- `none`. `pid` stays 0 else.
pub watch_one : Bytes → (Bytes → Bytes) → (Bytes → Bytes) → Worker → Option (List Bytes)
watch_one bin_path expand output w =
    if ltb 0 (length (c_str (output (command expand w))))
    then none
    else some (restarts bin_path w.file w.number)

-- One pass: the commands that it runs.
pub watch : Bytes → (Bytes → Bytes) → (Bytes → Bytes) → List Worker → Option (List Bytes)
watch bin_path expand output [] = some []
watch bin_path expand output (w ∷ ws) = elim (watch_one bin_path expand output w) [
  | none ↦ none
  | some now ↦ elim (watch bin_path expand output ws) [
    | none ↦ none
    | some more ↦ some (now ++ more)
  ]
]

-- What a pass should run: each worker as often as its number says, in order.
abbrev pub all_restarts : Bytes → List Worker → List Bytes
all_restarts bin_path [] = []
all_restarts bin_path (w ∷ ws) =
    replicate w.number (bin_path ++ (codes "/" ++ (w.file ++ codes " &")))
    ++ all_restarts bin_path ws

-- The name of a worker, run as a command, prints a line.
abbrev pub any_output : (Bytes → Bytes) → (Bytes → Bytes) → List Worker → Bool
any_output expand output [] = false
any_output expand output (w ∷ ws) =
    ltb 0 (length (c_str (output (print_into 200 (expand w.file))))) || any_output expand output ws

restarts-replicate :
    (bin_path file : Bytes) (n : ℕ)
    → restarts bin_path file n ≡ replicate n (bin_path ++ (codes "/" ++ (file ++ codes " &")))
unfolding restarts
restarts-replicate bin_path file zero = refl
restarts-replicate bin_path file (suc n) = rw (restarts-replicate bin_path file n) refl

-- A pass never finds a worker running: it restarts every worker as often as its number says, and
-- where one of the commands prints a line, `strtok_r` is called without a text.
pub watch_lem :
    (bin_path : Bytes) (expand output : Bytes → Bytes) (ws : List Worker)
    → watch bin_path expand output ws
      ≡ (if any_output expand output ws then none else some (all_restarts bin_path ws))
unfolding watch watch_one command
watch_lem bin_path expand output [] = refl
watch_lem bin_path expand output (w ∷ ws) =
    ground (arith, watch_lem bin_path expand output ws, restarts-replicate bin_path w.file w.number)
