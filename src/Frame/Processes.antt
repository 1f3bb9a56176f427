-- ===== src/Frame/Processes.antt =====
-- frame/master.cpp: the map of the worker processes: `runWorkers`, `scanThread`, `cleanSource` and
-- `cleanSources`. The kernel is a parameter, with the documented behaviour of `kill` and `waitpid`.
use home_keeper.Prelude.{
  ◌++◌, codes, ℕ, Bool, true, false, ◌&&◌, ◌||◌, List, [], ◌∷◌, Option, none, some, ◌≡◌, inl, inr,
  refl, ◌∙◌, ltb, ◌==◌, ==_iff, if◌then◌else◌, Bool-cases, arith, Bytes, ◌↔◌, bytes_eq, ℤ, pos,
  negsuc, eq_ℤ,
}
use home_keeper.StdMap
use home_keeper.StdMap.{Key}

-- A process id is a `pid_t`: -1 stands in the map where `fork` failed.
abbrev pub before_ℤ : ℤ → ℤ → Bool
before_ℤ (pos a) (pos b) = ltb a b
before_ℤ (pos a) (negsuc b) = false
before_ℤ (negsuc a) (pos b) = true
before_ℤ (negsuc a) (negsuc b) = ltb b a

pub eq_ℤ_iff : (a b : ℤ) → (eq_ℤ a b ≡ true) ↔ (a ≡ b)
eq_ℤ_iff a b = ground arith

pub before_ℤ_irrefl : (a : ℤ) → before_ℤ a a ≡ false
before_ℤ_irrefl (pos a) = ground arith
before_ℤ_irrefl (negsuc a) = ground arith

pub before_ℤ_trans : (a b c : ℤ) → before_ℤ a b ≡ true → before_ℤ b c ≡ true → before_ℤ a c ≡ true
before_ℤ_trans a b c h k = ground arith

pub before_ℤ_total : (a b : ℤ) → eq_ℤ a b ≡ false → before_ℤ b a ≡ false → before_ℤ a b ≡ true
before_ℤ_total a b h k = ground arith

instance abbrev pub pid_key : Key ℤ
pid_key = record {
  same = eq_ℤ;
  before = before_ℤ;
  same_iff = eq_ℤ_iff;
  before_irrefl = before_ℤ_irrefl;
  before_trans = before_ℤ_trans;
  before_total = before_ℤ_total;
}

-- `fd_t`
pub record Fd : Type 0 where
  pub fd : ℕ
  pub file : Bytes

abbrev pub Pids : Type 0
Pids = List (ℤ × Fd)

-- The calls of the kernel: the result and the state behind it.
pub record Kernel : Type 1 where
  pub World : Type 0
  pub kill : ℤ → ℕ → World → ℤ × World
  pub waitpid : ℤ → ℕ → World → ℤ × World

abbrev pub wnohang : ℕ
wnohang = 1

-- The call of `execl`, and the value with which the child ends where the call returns.
pub record Child : Type 0 where
  pub path : Bytes
  pub arguments : List Bytes
  pub ends : ℕ

-- `runWorker` in the child, for the directory in BIN_PATH; the number of the entry is not used.
pub run_worker : Bytes → Bytes → Bytes → Child
run_worker bin_path file number =
    let total_file = bin_path ++ codes "/" ++ file in
    record { path = total_file; arguments = total_file ∷ codes "1" ∷ []; ends = 0 }

-- The loop of `runWorkers` in the parent: one `fork` for each worker, and `pids[pid] = {0, file}`
-- whatever it returned.
unfoldable pub run_workers : List (Bytes × ℤ) → Pids → Pids
run_workers [] pids = pids
run_workers ((file, pid) ∷ workers) pids =
    run_workers workers (StdMap.insert pid (record { fd = 0; file = file }) pids)

module _ (k : Kernel) where
  open k use {World, kill, waitpid}

  -- One pass of `scanThread`. A process that is gone is erased from the map inside the loop over
  -- the map, and the loop then steps on from the erased entry: `none`.
  pub scan : Pids → World → Option World
  scan [] w = some w
  scan ((pid, f) ∷ pids) w =
      let (ret, w') = kill pid 0 w in
      let rest = scan pids (waitpid pid wnohang w').1 in if eq_ℤ ret (negsuc 0) then none else rest

  -- What `cleanSource` and `cleanSources` do to one process.
  abbrev pub finish : ℤ → World → World
  finish pid w =
      let (ret, w') = kill pid 9 w in if eq_ℤ ret (negsuc 0) then w' else (waitpid pid 0 w').1

  -- `cleanSources`, but for the pipe. The map is left as it is.
  pub clean_sources : Pids → World → World
  clean_sources [] w = w
  clean_sources ((pid, f) ∷ pids) w = clean_sources pids (finish pid w)

  -- `cleanSource` of a file. The map is left as it is.
  pub clean_source : Bytes → Pids → World → World
  clean_source file [] w = w
  clean_source file ((pid, f) ∷ pids) w =
      clean_source file pids (if bytes_eq f.file file then finish pid w else w)

  -- The documented behaviour for child processes: a signal to a process that exists is delivered,
  -- and the process stays as a zombie until it is waited for; waiting for it removes it, and polling
  -- removes nothing but that process.
  pub record IsPosix (exists' : ℕ → World → Bool) : Type 0 where
    pub kill_result :
        (p sig : ℕ) (w : World) → (kill (pos p) sig w).0 ≡ (if exists' p w then pos 0 else negsuc 0)
    pub kill_exists : (p sig q : ℕ) (w : World) → exists' q (kill (pos p) sig w).1 ≡ exists' q w
    pub wait_exists :
        (p q : ℕ) (w : World)
        → exists' q (waitpid (pos p) 0 w).1 ≡ (if p == q then false else exists' q w)
    pub poll_exists :
        (p q : ℕ) (w : World) → exists' q (waitpid (pos p) wnohang w).1 ≡ true → exists' q w ≡ true

  -- Every key is the id of a process.
  abbrev pub AllForked : Pids → Type 0
  AllForked [] = Unit
  AllForked ((pos p, f) ∷ pids) = AllForked pids
  AllForked ((negsuc n, f) ∷ pids) = ⊥

  -- The keys, and those of one file.
  abbrev pub has_pid : ℕ → Pids → Bool
  has_pid q [] = false
  has_pid q ((pid, f) ∷ pids) = eq_ℤ pid (pos q) || has_pid q pids

  abbrev pub runs_file : Bytes → ℕ → Pids → Bool
  runs_file file q [] = false
  runs_file file q ((pid, f) ∷ pids) =
      (bytes_eq f.file file && eq_ℤ pid (pos q)) || runs_file file q pids

  pub runs_file-has_pid :
      (file : Bytes) (q : ℕ) (pids : Pids) → runs_file file q pids ≡ true → has_pid q pids ≡ true
  runs_file-has_pid file q [] r = cc
  runs_file-has_pid file q ((pid, f) ∷ pids) r = ground (arith, runs_file-has_pid file q pids)

  module _ (exists' : ℕ → World → Bool) (posix : IsPosix exists') where
    finish_exists :
        (p q : ℕ) (w : World)
        → exists' q (finish (pos p) w) ≡ (if p == q then false else exists' q w)
    finish_exists p q w = ground (
      arith,
      posix.kill_result p 9 w,
      posix.kill_exists p 9 q w,
      posix.kill_exists p 9 p w,
      posix.wait_exists p q (kill (pos p) 9 w).1,
      ==_iff p q,
    )

    -- After `cleanSources` no process of the map exists, and every other process is as before.
    pub clean_sources_lem :
        (pids : Pids) (w : World) (q : ℕ)
        → AllForked pids
        → exists' q (clean_sources pids w) ≡ (if has_pid q pids then false else exists' q w)
    unfolding clean_sources
    clean_sources_lem [] w q h = refl
    clean_sources_lem ((pos p, f) ∷ pids) w q h =
        ground (arith, clean_sources_lem pids (finish (pos p) w) q h, finish_exists p q w)
    clean_sources_lem ((negsuc n, f) ∷ pids) w q h = absurd h

    -- `cleanSource` ends exactly the processes of the map that run the file.
    pub clean_source_lem :
        (file : Bytes) (pids : Pids) (w : World) (q : ℕ)
        → AllForked pids
        → exists' q (clean_source file pids w)
          ≡ (if runs_file file q pids then false else exists' q w)
    unfolding clean_source
    clean_source_lem file [] w q h = refl
    clean_source_lem file ((pos p, f) ∷ pids) w q h = ground (
      arith,
      clean_source_lem file pids (finish (pos p) w) q h,
      clean_source_lem file pids w q h,
      finish_exists p q w,
    )
    clean_source_lem file ((negsuc n, f) ∷ pids) w q h = absurd h

    polled_stays :
        (p q : ℕ) (w : World)
        → exists' q w ≡ false
        → exists' q (waitpid (pos p) wnohang (kill (pos p) 0 w).1).1 ≡ false
    polled_stays p q w g =
        let w' = (kill (pos p) 0 w).1 in
        elim (Bool-cases (exists' q (waitpid (pos p) wnohang w').1)) [
          | inr gone ↦ gone
          | inl there ↦ cc (posix.poll_exists p q w' there, posix.kill_exists p 0 q w)
        ]

    -- A pass over a map with a process that is gone steps on from an erased entry.
    pub scan_gone :
        (pids : Pids) (w : World) (q : ℕ)
        → AllForked pids
        → has_pid q pids ≡ true
        → exists' q w ≡ false
        → scan pids w ≡ none
    unfolding scan
    scan_gone [] w q h m g = cc
    scan_gone ((pos p, f) ∷ pids) w q h m g = ground (
      arith,
      ==_iff p q,
      posix.kill_result p 0 w,
      scan_gone pids (waitpid (pos p) wnohang (kill (pos p) 0 w).1).1 q h,
      polled_stays p q w g,
    )
    scan_gone ((negsuc n, f) ∷ pids) w q h m g = absurd h

    -- Where the map holds a process that runs the file, `cleanSource` of that file makes the next
    -- pass of `scanThread` step on from an erased entry of the map.
    pub scan-clean_source :
        (file : Bytes) (pids : Pids) (w : World) (q : ℕ)
        → AllForked pids
        → runs_file file q pids ≡ true
        → scan pids (clean_source file pids w) ≡ none
    scan-clean_source file pids w q h r =
        scan_gone pids (clean_source file pids w) q h (runs_file-has_pid file q pids r)
          (clean_source_lem file pids w q h ∙ rw r)
