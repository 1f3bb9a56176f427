-- ===== src/Frame/Serve.antt =====
-- frame/master.cpp: `main`, which serves the messages of the pipe until it is told to end.
use home_keeper.Prelude.{
  ◌&&◌, ℕ, Bool, true, false, not, ◌||◌, List, [], ◌∷◌, ◌++◌, Option, none, some, ◌≡◌, inl, inr,
  refl, sym, subst, ◌==◌, if◌then◌else◌, Bool-cases, Option-cases, arith, Bytes,
}
use home_keeper.Frame.Log.{Log, set_level}
use home_keeper.Frame.Message.{msg_of, type_of}
use home_keeper.Frame.Processes.{
  Kernel, Pids, clean_source, clean_sources, clean_sources_lem, IsPosix, AllForked, has_pid,
}

-- The result of one call of `read`: bytes, nothing, EAGAIN or another error; or `epoll_wait` fails
-- before it.
pub data Read : Type 0 where
  got : Bytes → Read
  empty again broken epoll_error : Read

module _ (k : Kernel) where
  open k use {World}

  -- The variables of `main` and the globals. `stopped` says that a loop was left by `break` or by
  -- `button`, and `aborted` that LOG(FATAL) ended the process.
  pub record Master : Type 0 where
    pub button : ℕ
    pub log : Log
    pub pids : Pids
    pub world : World
    pub failed_wait : Bool
    pub aborted : Bool

  abbrev with_log : Master → Option Log → Master
  with_log m none = record m { aborted = true }
  with_log m (some l) = record m { log = l }

  -- The `switch` over the type of a message; `buf` is zero behind what was read.
  unfoldable pub dispatch : Bytes → Master → Master
  dispatch buf m =
      let type = type_of buf in
      if type == 0
      then with_log m (set_level (msg_of buf) m.log)
      else if type == 1
      then record m { button = 1 }
      else if type == 2
      then m
      else if type == 4
      then record m { world = clean_source k (msg_of buf) m.pids m.world }
      else m

  -- One result of `read` or of `epoll_wait`.
  unfoldable pub receive : Read → Master → Master
  unfolding dispatch
  receive (got buf) m = dispatch buf m
  receive epoll_error m = record m { failed_wait = true }
  receive empty m = m
  receive again m = m
  receive broken m = m

  abbrev pub is_over : Master → Bool
  is_over m = not (m.button == 0) || m.failed_wait || m.aborted

  -- The two `while (button == 0)` loops, over what the calls return; the loops are left as soon as
  -- they are over.
  pub serve : List Read → Master → Master
  unfolding receive
  serve [] m = m
  serve (r ∷ rs) m = let rest = serve rs (receive r m) in if is_over m then m else rest

  -- `main` from the loop on: a process that was not aborted ends its workers.
  pub run_main : List Read → Master → Master
  unfolding serve
  run_main rs m =
      let m' = serve rs m in
      if m'.aborted then m' else record m' { world = clean_sources k m'.pids m'.world }

  serve_over : (rs : List Read) (m : Master) → is_over m ≡ true → serve rs m ≡ m
  unfolding serve
  serve_over [] m h = refl
  serve_over (r ∷ rs) m h = rw (h, serve)

  serve-append :
      (rs more : List Read) (m : Master)
      → is_over (serve rs m) ≡ true
      → serve (rs ++ more) m ≡ serve rs m
  unfolding serve
  serve-append [] more m h = serve_over more m h
  serve-append (r ∷ rs) more m h = elim (Bool-cases (is_over m)) [
    | inl over ↦ rw over
    | inr on ↦
        let rest = subst (λ b. is_over (if b then m else serve rs (receive r m)) ≡ true) on h in
        rw (on, serve-append rs more (receive r m) rest)
  ]

  dispatch_end : (buf : Bytes) (m : Master) → type_of buf ≡ 1 → (dispatch buf m).button ≡ 1
  unfolding dispatch
  dispatch_end buf m h = rw h

  serve_end :
      (rs : List Read) (buf : Bytes) (m : Master)
      → type_of buf ≡ 1
      → is_over (serve (rs ++ got buf ∷ []) m) ≡ true
  unfolding serve receive
  serve_end [] buf m h = ground (arith, dispatch_end buf m h)
  serve_end (r ∷ rs) buf m h = ground (arith, serve_end rs buf (receive r m) h)

  dispatch-pids : (buf : Bytes) (m : Master) → (dispatch buf m).pids ≡ m.pids
  unfolding dispatch
  dispatch-pids buf m = elim (Option-cases (set_level (msg_of buf) m.log)) [
    | inl e ↦ ground (arith, e)
    | inr (l, e) ↦ ground (arith, e)
  ]

  pub receive-pids : (r : Read) (m : Master) → (receive r m).pids ≡ m.pids
  unfolding receive
  receive-pids (got buf) m = dispatch-pids buf m
  receive-pids epoll_error m = refl
  receive-pids empty m = refl
  receive-pids again m = refl
  receive-pids broken m = refl

  serve-pids : (rs : List Read) (m : Master) → (serve rs m).pids ≡ m.pids
  unfolding serve
  serve-pids [] m = refl
  serve-pids (r ∷ rs) m = elim (Bool-cases (is_over m)) [
    | inl over ↦ rw over
    | inr on ↦ rw (on, serve-pids rs (receive r m), receive-pids r m)
  ]

  -- Once a message of type UL_END has been read, nothing that the pipe delivers behind it has an
  -- effect, whatever was read before it.
  pub run_main_end :
      (rs more : List Read) (buf : Bytes) (m : Master)
      → type_of buf ≡ 1
      → run_main ((rs ++ got buf ∷ []) ++ more) m ≡ run_main (rs ++ got buf ∷ []) m
  unfolding run_main
  run_main_end rs more buf m h =
      rw (serve-append (rs ++ got buf ∷ []) more m (serve_end rs buf m h))

  -- When every key of the map is the id of a process, and the kernel behaves as documented, a
  -- master that was not aborted by LOG(FATAL) leaves no process of the map behind, whatever it
  -- read: a master that was aborted ends none of them.
  pub run_main_lem :
      (exists' : ℕ → World → Bool)
      → IsPosix k exists'
      → (rs : List Read) (m : Master) (q : ℕ) → AllForked k m.pids
      → has_pid k q m.pids ≡ true
      → exists' q (run_main rs m).world
        ≡ (if (serve rs m).aborted then exists' q (serve rs m).world else false)
  unfolding run_main
  run_main_lem exists' posix rs m q forked has = elim (Bool-cases (serve rs m).aborted) [
    | inl aborted ↦ rw aborted
    | inr ended ↦
        let forked' = subst (AllForked k) (sym (serve-pids rs m)) forked in
        rw (
          ended,
          clean_sources_lem k exists' posix (serve rs m).pids (serve rs m).world q forked',
          serve-pids rs m,
          has,
        )
  ]

  pub aborted-run_main :
      (rs : List Read) (m : Master) → (run_main rs m).aborted ≡ (serve rs m).aborted
  unfolding run_main
  aborted-run_main rs m = ground arith

  -- The same by the state at the end.
  pub run_main_ended :
      (exists' : ℕ → World → Bool)
      → IsPosix k exists'
      → (rs : List Read) (m : Master) (q : ℕ) → AllForked k m.pids
      → has_pid k q m.pids ≡ true
      → exists' q (run_main rs m).world ≡ (run_main rs m).aborted && exists' q (run_main rs m).world
  run_main_ended exists' posix rs m q forked has =
      ground (arith, run_main_lem exists' posix rs m q forked has, aborted-run_main rs m)
