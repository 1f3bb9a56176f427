-- ===== src/Frame/Threads.antt =====
-- frame/master.cpp: the loop of `main` and the passes of `scanThread`, in the order in which they hold
-- `scanMutex`.
use home_keeper.Prelude.{
  ℕ, Bool, true, false, List, [], ◌∷◌, ◌++◌, Option, none, some, ◌≡◌, inl, inr, refl, sym, ◌∙◌,
  subst, if◌then◌else◌, Bool-cases, Option-cases, arith, Bytes,
}
use home_keeper.Frame.Log.{set_level}
use home_keeper.Frame.Message.{msg_of, type_of}
use home_keeper.Frame.Processes.{
  Kernel, scan, scan_gone, clean_source, clean_source_lem, IsPosix, AllForked, has_pid, runs_file,
  runs_file-has_pid,
}
use home_keeper.Frame.Serve.{
  Read, got, empty, again, broken, epoll_error, Master, dispatch, receive, receive-pids, is_over,
}

-- A turn of `main`, with what it reads, or a pass of `scanThread`.
pub data Turn : Type 0 where
  reads : Read → Turn
  scans : Turn

abbrev pub reads_of : List Read → List Turn
reads_of [] = []
reads_of (r ∷ rs) = reads r ∷ reads_of rs

module _ (k : Kernel) where
  open k use {World}

  -- One turn; `none` is a pass that steps on from an erased entry of the map.
  pub turn : Turn → Master k → Option (Master k)
  turn (reads r) m = some (if is_over k m then m else receive k r m)
  turn scans m = elim (scan k m.pids m.world) [
    | none ↦ none
    | some w ↦ some (record m { world = w })
  ]

  -- The turns in their order.
  pub turns : List Turn → Master k → Option (Master k)
  unfolding turn
  turns [] m = some m
  turns (t ∷ ts) m = elim (turn t m) [ none ↦ none | some m' ↦ turns ts m' ]

  first_turn :
      (t : Turn) (ts : List Turn) (m m' : Master k)
      → turn t m ≡ some m'
      → turns (t ∷ ts) m ≡ turns ts m'
  unfolding turns
  first_turn t ts m m' e = rw (turns, e) refl

  module _ (exists' : ℕ → World → Bool) (posix : IsPosix k exists') where
    -- A process that is gone stays gone, whatever is read.
    gone-dispatch :
        (buf : Bytes) (m : Master k) (q : ℕ)
        → AllForked k m.pids
        → exists' q m.world ≡ false
        → exists' q (dispatch k buf m).world ≡ false
    unfolding dispatch
    gone-dispatch buf m q h g = elim (Option-cases (set_level (msg_of buf) m.log)) [
      | inl e ↦
          ground (arith, e, g, clean_source_lem k exists' posix (msg_of buf) m.pids m.world q h)
      | inr (l, e) ↦
          ground (arith, e, g, clean_source_lem k exists' posix (msg_of buf) m.pids m.world q h)
    ]

    gone-receive :
        (r : Read) (m : Master k) (q : ℕ)
        → AllForked k m.pids
        → exists' q m.world ≡ false
        → exists' q (receive k r m).world ≡ false
    unfolding receive
    gone-receive (got buf) m q h g = gone-dispatch buf m q h g
    gone-receive epoll_error m q h g = g
    gone-receive empty m q h g = g
    gone-receive again m q h g = g
    gone-receive broken m q h g = g

    -- Where a process of the map is gone, the next pass steps on from an erased entry.
    gone-turns :
        (rs : List Read) (more : List Turn) (m : Master k) (q : ℕ)
        → AllForked k m.pids
        → has_pid k q m.pids ≡ true
        → exists' q m.world ≡ false
        → turns (reads_of rs ++ scans ∷ more) m ≡ none
    unfolding turns turn
    gone-turns [] more m q h p g =
        rw (turns, turn, scan_gone k exists' posix m.pids m.world q h p g) refl
    gone-turns (r ∷ rs) more m q h p g = elim (Bool-cases (is_over k m)) [
      | inl over ↦ rw over (gone-turns rs more m q h p g)
      | inr on ↦
          let m' = receive k r m in
          let same = receive-pids k r m in
          rw on (
            gone-turns rs more m' q (subst (AllForked k) (sym same) h) (rw same p)
              (gone-receive r m q h g))
    ]

    -- Where the kernel behaves as documented, every key of the map is the id of a process and `main`
    -- is in its loops: once `main` has read a message of type UL_END_ONE for a file that a process of
    -- the map runs, the next pass of `scanThread` steps on from an erased entry of the map, whatever
    -- `main` reads before it.
    pub end_one_scan :
        (buf : Bytes) (rs : List Read) (more : List Turn) (m : Master k) (q : ℕ)
        → type_of buf ≡ 4
        → is_over k m ≡ false
        → AllForked k m.pids
        → runs_file k (msg_of buf) q m.pids ≡ true
        → turns (reads (got buf) ∷ reads_of rs ++ scans ∷ more) m ≡ none
    unfolding turn receive dispatch
    end_one_scan buf rs more m q t on h r =
        let m' : Master k = record m { world = clean_source k (msg_of buf) m.pids m.world } in
        let gone : exists' q m'.world ≡ false =
          clean_source_lem k exists' posix (msg_of buf) m.pids m.world q h ∙ rw r refl in
        let first : turn (reads (got buf)) m ≡ some m' = rw (on, t) refl in
        first_turn (reads (got buf)) (reads_of rs ++ scans ∷ more) m m' first
        ∙ gone-turns rs more m' q h (runs_file-has_pid k (msg_of buf) q m.pids r) gone
