-- ===== src/Tests/Host.antt =====
-- The theorems on the master and its parts at concrete inputs.
use home_keeper.Prelude.{
  List, true, ◌&&◌, ℕ, zero, suc, Bool, false, ◌||◌, [], ◌∷◌, ◌++◌, none, some, ◌≡◌, refl, ◌==◌,
  if◌then◌else◌, arith, replicate, Bytes, codes, print_into, ℤ, pos, negsuc,
}
use home_keeper.StdMap.{bytes_key}
use home_keeper.Frame.Log.{Log}
use home_keeper.Common.{lines_fit}
use home_keeper.Frame.Main.{Start, forked, served, Serves, master_main, master_main_lem}
use home_keeper.Frame.Message.{tools, type_of, msg_of, tools-message}
use home_keeper.Frame.Processes.{runs_file, Kernel, Pids, IsPosix}
use home_keeper.Frame.Threads.{turns, reads, scans, end_one_scan}
use home_keeper.Frame.Serve.{got, empty, Master}

abbrev no_log : Log
no_log = record {
  stderrthreshold = 2;
  minloglevel = 0;
  logbufsecs = 30;
  logtostderr = false;
  alsologtostderr = false;
  colorlogtostderr = false;
  destinations = [];
  initialised = 0;
  flag = false;
}

tools-message_example :
    (buf : Bytes) × (tools 4 (codes "master") (some (codes "worker")) (λ i. []) ≡ some buf)
    × (type_of buf ≡ 4)
    × (msg_of buf ≡ print_into 512 (codes "worker"))
tools-message_example = tools-message 4 (codes "master") (codes "worker") (λ i. []) (omega arith)

-- A kernel whose state is the test that a process exists.
abbrev after_kill : ℤ → ℕ → (ℕ → Bool) → ℤ × (ℕ → Bool)
after_kill (pos p) sig w = (if w p then pos 0 else negsuc 0, w)
after_kill (negsuc n) sig w = (negsuc 0, w)

abbrev after_wait : ℤ → ℕ → (ℕ → Bool) → ℤ × (ℕ → Bool)
after_wait (pos p) zero w = (pos p, λ q. if p == q then false else w q)
after_wait (pos p) (suc flags) w = (pos 0, w)
after_wait (negsuc n) flags w = (negsuc 0, w)

abbrev small_kernel : Kernel
small_kernel = record { World = ℕ → Bool; kill = after_kill; waitpid = after_wait }

small-IsPosix : IsPosix small_kernel (λ q w. w q)
small-IsPosix = record {
  kill_result = λ p sig w. refl;
  kill_exists = λ p sig q w. refl;
  wait_exists = λ p q w. refl;
  poll_exists = λ p q w e. e;
}

abbrev two_pids : Pids
two_pids =
    (pos 3, record { fd = 0; file = codes "a" }) ∷ (pos 5, record { fd = 0; file = codes "b" }) ∷ []

abbrev both : ℕ → Bool
both q = q == 3 || q == 5

abbrev running : Master small_kernel
running = record {
  button = 0;
  log = no_log;
  pids = two_pids;
  world = both;
  failed_wait = false;
  aborted = false;
}

-- A message of type UL_END.
abbrev end_message : Bytes
end_message = replicate 2560 0 ++ 1 ∷ []

-- One worker, whose process is 3.
abbrev start : Start
start = record {
  cfg_path = some (codes "/cfg");
  bin_path = some (codes "/bin");
  files = λ path. some (codes "{}\n");
  parse = λ text. some (1, codes "a" ∷ []);
  fork = λ i. pos 3;
}

abbrev one_worker : List (Bytes × ℤ)
one_worker = (codes "a", pos 3) ∷ []

short_lines : lines_fit (codes "{}\n") 0 ≡ true
short_lines = refl

one_fork : forked start 0 1 (codes "a" ∷ []) ≡ some one_worker
unfolding forked
one_fork = refl

start-Serves : Serves start one_worker
start-Serves = record {
  cfg = codes "/cfg";
  bin = codes "/bin";
  text = codes "{}\n";
  number = 1;
  entries = codes "a" ∷ [];
  cfg_set = refl;
  bin_set = refl;
  opens = refl;
  no_zero = (omega arith, (omega arith, (omega arith, tt)));
  short = short_lines;
  parsed = refl;
  forks = one_fork;
  ids = tt;
}

master_main_lem_example :
    (m' : Master small_kernel) × (master_main small_kernel start (got end_message ∷ []) running
      ≡ served m')
    × (m'.world 3 ≡ m'.aborted && m'.world 3)
master_main_lem_example =
    master_main_lem small_kernel (λ q w. w q) small-IsPosix start one_worker (got end_message ∷ [])
      running 3 start-Serves refl

-- A message of type UL_END_ONE for the file a.
abbrev end_one_message : Bytes
end_one_message = replicate 1024 0 ++ (codes "a" ++ (replicate 1535 0 ++ 4 ∷ []))

end_one_type : type_of end_one_message ≡ 4
unfolding type_of
end_one_type = refl

end_one_file : runs_file small_kernel (msg_of end_one_message) 3 two_pids ≡ true
unfolding msg_of
end_one_file = refl

end_one_scan_example :
    turns small_kernel (reads (got end_one_message) ∷ reads empty ∷ scans ∷ []) running ≡ none
end_one_scan_example =
    end_one_scan small_kernel (λ q w. w q) small-IsPosix end_one_message (empty ∷ []) [] running 3
      end_one_type refl tt end_one_file
