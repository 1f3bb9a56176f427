-- ===== src/Frame/Main.antt =====
-- frame/master.cpp: `initParams`, `runWorkers` and `main` as a whole, from the environment to the end.
use home_keeper.Prelude.{
  ℕ, zero, suc, Bool, true, false, ◌&&◌, ◌||◌, List, [], ◌∷◌, Option, none, some, ◌≡◌, inl, inr,
  refl, ◌∙◌, ltb, ◌==◌, if◌then◌else◌, Bool-cases, arith, Bytes, NoZero, ℤ, pos, negsuc, eq_ℤ,
}
use home_keeper.StdMap
use home_keeper.Common.{get_file, lines_fit, without_ends, get_file_lem}
use home_keeper.Frame.Processes.{
  Fd, Kernel, Pids, pid_key, eq_ℤ_iff, run_workers, IsPosix, AllForked, has_pid,
}
use home_keeper.Frame.Serve.{Read, Master, run_main, run_main_ended}

-- What `main` meets before it serves: the variables cfg_path and BIN_PATH, the files, the values
-- workerNo and worker[i].file that the JSON parser finds in a text (`none` is an exception), and
-- what the i-th `fork` returns in the parent.
pub record Start : Type 0 where
  pub cfg_path : Option Bytes
  pub bin_path : Option Bytes
  pub files : Bytes → Option Bytes
  pub parse : Bytes → Option (ℕ × List Bytes)
  pub fork : ℕ → ℤ

-- `initParams`: the path of the configuration, or `none` for -1.
pub init_params : Start → Option Bytes
init_params s = elim s.cfg_path [
  | none ↦ none
  | some cfg ↦ elim s.bin_path [ none ↦ none | some bin ↦ some cfg ]
]

-- The forks of `runWorkers` from the i-th on. A number that is greater than that of the entries
-- makes the access of a missing entry throw: `none`.
unfoldable pub forked : Start → ℕ → ℕ → List Bytes → Option (List (Bytes × ℤ))
forked s i zero files = some []
forked s i (suc n) [] = none
forked s i (suc n) (file ∷ files) = elim (forked s (suc i) n files) [
  | none ↦ none
  | some workers ↦ some ((file, s.fork i) ∷ workers)
]

module _ (k : Kernel) where
  -- How `main` ends: with a return value before it serves, by an exception or a write behind an
  -- array, or after it has served.
  pub data Ending : Type 0 where
    returned : ℤ → Ending
    broken_off : Ending
    served : Master k → Ending

  -- `main`, from the last of its steps
  abbrev with_workers : Option (List (Bytes × ℤ)) → List Read → Master k → Ending
  with_workers none reads m = broken_off
  with_workers (some workers) reads m =
      served (run_main k reads (record m { pids = run_workers workers [] }))

  abbrev with_config : Start → Option (ℕ × List Bytes) → List Read → Master k → Ending
  with_config s none reads m = broken_off
  with_config s (some (number, files)) reads m = with_workers (forked s 0 number files) reads m

  abbrev with_text : Start → Option (ℤ × Bytes) → List Read → Master k → Ending
  with_text s none reads m = broken_off
  with_text s (some (ret, text)) reads m =
      let rest = with_config s (s.parse text) reads m in
      if eq_ℤ ret (pos 0) then rest else returned (pos 1)

  pub master_main : Start → List Read → Master k → Ending
  master_main s reads m = elim (init_params s) [
    | none ↦ returned (negsuc 0)
    | some cfg ↦ with_text s (get_file (s.files cfg) []) reads m
  ]

has_pid-insert :
    (k : Kernel) (q : ℕ) (pid : ℤ) (f : Fd) (pids : Pids)
    → has_pid k q (StdMap.insert pid f pids) ≡ eq_ℤ pid (pos q) || has_pid k q pids
unfolding StdMap.insert
has_pid-insert k q pid f [] = refl
has_pid-insert k q pid f ((j, g) ∷ pids) =
    ground (
      arith,
      eq_ℤ_iff j pid,
      eq_ℤ_iff j (pos q),
      eq_ℤ_iff pid (pos q),
      has_pid-insert k q pid f pids,
    )

AllForked-insert :
    (k : Kernel) (p : ℕ) (f : Fd) (pids : Pids)
    → AllForked k pids
    → AllForked k (StdMap.insert (pos p) f pids)
unfolding StdMap.insert
AllForked-insert k p f [] h = tt
AllForked-insert k p f ((pos j, g) ∷ pids) h = elim (Bool-cases (j == p)) [
  | inl same ↦ rw same h
  | inr other ↦ elim (Bool-cases (ltb p j)) [
    | inl first ↦ rw (other, first) h
    | inr later ↦ rw (other, later) (AllForked-insert k p f pids h)
  ]
]
AllForked-insert k p f ((negsuc j, g) ∷ pids) h = absurd h

-- Every fork gave the id of a process.
abbrev pub AllIds : List (Bytes × ℤ) → Type 0
AllIds [] = Unit
AllIds ((file, pos p) ∷ workers) = AllIds workers
AllIds ((file, negsuc n) ∷ workers) = ⊥

abbrev pub is_worker : ℕ → List (Bytes × ℤ) → Bool
is_worker q [] = false
is_worker q ((file, pid) ∷ workers) = eq_ℤ pid (pos q) || is_worker q workers

AllForked-run_workers :
    (k : Kernel) (workers : List (Bytes × ℤ)) (pids : Pids)
    → AllIds workers
    → AllForked k pids
    → AllForked k (run_workers workers pids)
unfolding run_workers
AllForked-run_workers k [] pids a h = h
AllForked-run_workers k ((file, pos p) ∷ workers) pids a h =
    let f : Fd = record { fd = 0; file = file } in
    AllForked-run_workers k workers (StdMap.insert (pos p) f pids) a (AllForked-insert k p f pids h)
AllForked-run_workers k ((file, negsuc n) ∷ workers) pids a h = absurd a

has_pid-run_workers :
    (k : Kernel) (q : ℕ) (workers : List (Bytes × ℤ)) (pids : Pids)
    → has_pid k q (run_workers workers pids) ≡ is_worker q workers || has_pid k q pids
unfolding run_workers
has_pid-run_workers k q [] pids = refl
has_pid-run_workers k q ((file, pid) ∷ workers) pids =
    let f : Fd = record { fd = 0; file = file } in
    ground (
      arith,
      has_pid-run_workers k q workers (StdMap.insert pid f pids),
      has_pid-insert k q pid f pids,
    )

-- What `main` needs to serve: both variables, a configuration that opens, holds no zero and has
-- lines of fewer than 256 characters, a parser that finds at least as many entries as their number
-- says, and forks that succeed.
pub record Serves (s : Start) (workers : List (Bytes × ℤ)) : Type 0 where
  pub cfg : Bytes
  pub bin : Bytes
  pub text : Bytes
  pub number : ℕ
  pub entries : List Bytes
  pub cfg_set : s.cfg_path ≡ some cfg
  pub bin_set : s.bin_path ≡ some bin
  pub opens : s.files cfg ≡ some text
  pub no_zero : NoZero text
  pub short : lines_fit text 0 ≡ true
  pub parsed : s.parse (without_ends text) ≡ some (number, entries)
  pub forks : forked s 0 number entries ≡ some workers
  pub ids : AllIds workers

module _ (k : Kernel) (exists' : ℕ → k.World → Bool) (posix : IsPosix k exists') where
  served_lem :
      (s : Start) (workers : List (Bytes × ℤ)) (reads : List Read) (m : Master k)
      → Serves s workers
      → master_main k s reads m
        ≡ served (run_main k reads (record m { pids = run_workers workers [] }))
  unfolding master_main init_params
  served_lem s workers reads m c =
      let read : get_file (s.files c.cfg) [] ≡ some (pos 0, without_ends c.text) =
        rw c.opens (get_file_lem c.text [] c.no_zero ∙ rw c.short) in
      rw (c.cfg_set, c.bin_set, master_main) (rw (read, c.parsed, c.forks))

  -- Where `main` has what it needs to serve, it serves and ends; and unless LOG(FATAL) aborted it,
  -- none of the workers it started exists then, whatever it read, as long as `scanThread` makes no
  -- pass meanwhile.
  pub master_main_lem :
      (s : Start) (workers : List (Bytes × ℤ)) (reads : List Read) (m : Master k) (q : ℕ)
      → Serves s workers
      → is_worker q workers ≡ true
      → (m' : Master k) × (master_main k s reads m ≡ served m')
        × (exists' q m'.world ≡ m'.aborted && exists' q m'.world)
  master_main_lem s workers reads m q c w =
      let m0 : Master k = record m { pids = run_workers workers [] } in
      let started : has_pid k q m0.pids ≡ true = has_pid-run_workers k q workers [] ∙ rw w in
      (
        run_main k reads m0,
        served_lem s workers reads m c,
        run_main_ended k exists' posix reads m0 q (AllForked-run_workers k workers [] c.ids tt)
            started,
      )
