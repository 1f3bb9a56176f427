-- ===== src/ThreadPool/Blocks/Frees.antt =====
-- include/threadPool.hpp: what the destructor frees and leaves.
use home_keeper.Prelude.{
  ℕ, ◌≤◌, Bool, true, false, not, ◌&&◌, ◌||◌, List, [], ◌∷◌, Option, none, some, ◌≡◌, inl, inr,
  refl, ap, ◌∙◌, ◌==◌, ==_iff, Bool-cases, arith, Bytes,
}
use home_keeper.StdMap.{bytes_key}
use home_keeper.ThreadPool.Blocks.{
  Heap, malloc, Store, empty_store, start_threads, blocks, free_all, destroy, set_all,
}
use home_keeper.ThreadPool.Blocks.Sound.{
  has, distinct, all_live, free_all_lem, Fresh, Sound, set_all-Sound,
}

-- The blocks of the threads are new, and different from one another.
start_threads_lem :
    (funcs : List (Bytes × Option ℕ)) (h : Heap)
    → let r = start_threads funcs h in
      (distinct r.0 ≡ true)
      × (all_live r.1.is_live r.0 ≡ true)
      × ((q : ℕ) → has q r.0 ≡ true → h.next ≤ q)
      × ((q : ℕ) → r.1.is_live q ≡ (has q r.0 || h.is_live q))
unfolding start_threads
start_threads_lem [] h = (refl, refl, λ q e. cc, λ q. refl)
start_threads_lem (f ∷ funcs) h =
    let r = start_threads funcs (malloc h) in
    let (d, l, above, live) = start_threads_lem funcs (malloc h) in
    let other : has h.next r.0 ≡ false = elim (Bool-cases (has h.next r.0)) [
      | inl e ↦ absurd (omega (arith, above h.next e))
      | inr e ↦ e
    ] in
    let here : r.1.is_live h.next ≡ true = live h.next ∙ ground (arith, ==_iff h.next h.next) in
    (
      ground (arith, d, other),
      ground (arith, l, here),
      λ q e. elim (Bool-cases (q == h.next)) [
        | inl same ↦ omega (arith, (==_iff q h.next).0 same)
        | inr differs ↦ omega (arith, above q (ground (arith, e, differs)))
      ],
      λ q. live q ∙ ground arith,
    )

all_live_mono :
    (ps : List ℕ) (live live' : ℕ → Bool)
    → ((q : ℕ) → live' q ≡ live q)
    → all_live live ps ≡ true
    → all_live live' ps ≡ true
all_live_mono [] live live' f l = refl
all_live_mono (p ∷ ps) live live' f l = ground (arith, f p, all_live_mono ps live live' f)

-- What the pool frees of its own leaves what was live before `start`.
free_threads :
    (s : Store)
    → Sound s
    → let r = start_threads s.funcs s.heap in
      (h : Heap) × (free_all r.0 r.1 ≡ some h) × ((q : ℕ) → h.is_live q ≡ s.heap.is_live q)
unfolding Fresh
free_threads s i =
    let r = start_threads s.funcs s.heap in
    let (d, l, above, live) = start_threads_lem s.funcs s.heap in
    let (h, e, freed) = free_all_lem r.0 r.1 d l in
    (
      h,
      e,
      λ q. freed q ∙ elim (Bool-cases (has q r.0)) [
        | inl b ↦ ground (arith, b, i.fresh q (above q b))
        | inr b ↦ ground (arith, b, live q)
      ],
    )

-- What a pool leaves: the blocks that were live before it started, but for those of the table.
abbrev pub left : Store → ℕ → Bool
left s q = not (has q (blocks s.funcs)) && s.heap.is_live q

destroy-Sound :
    (s : Store)
    → Sound s
    → let r = start_threads s.funcs s.heap in
      (s' : Store) × (destroy r.0 (record s { heap = r.1 }) ≡ some s')
      × (s'.funcs ≡ s.funcs)
      × ((q : ℕ) → s'.heap.is_live q ≡ left s q)
unfolding destroy
destroy-Sound s i =
    let r = start_threads s.funcs s.heap in
    let (h, e, same) = free_threads s i in
    let (h', e', freed) =
      free_all_lem (blocks s.funcs) h i.no_repeat
        (all_live_mono (blocks s.funcs) s.heap.is_live h.is_live same i.live) in
    (
      record { funcs = s.funcs; heap = h' },
      rw (e, destroy, e') refl,
      refl,
      λ q. freed q ∙ ap (λ b. not (has q (blocks s.funcs)) && b) (same q),
    )

-- The destructor of a pool that never started, after the table's blocks have been freed.
destroy_again :
    (s : Store) (p : ℕ) (ps : List ℕ)
    → blocks s.funcs ≡ p ∷ ps
    → s.heap.is_live p ≡ false
    → destroy [] s ≡ none
unfolding destroy free_all
destroy_again s p ps e d = rw (e, destroy, d) refl

-- After any calls of `setFunction` and one `start`, the destructor frees every block of the threads
-- and of the table once: what stays are the blocks of `setFunction` that a later call for the same
-- name replaced. The table keeps its pointers: if it has a block, the destructor of another pool,
-- which never started, frees one again.
pub destroy_lem :
    (calls : List (Bytes × Bool))
    → let s = set_all calls empty_store in
      let r = start_threads s.funcs s.heap in
      (s' : Store) × (destroy r.0 (record s { heap = r.1 }) ≡ some s')
      × ((q : ℕ) → s'.heap.is_live q ≡ left s q)
      × ((p : ℕ) (ps : List ℕ) → blocks s.funcs ≡ p ∷ ps → destroy [] s' ≡ none)
unfolding Fresh
destroy_lem calls =
    let s = set_all calls empty_store in
    let start : Sound empty_store = record { no_repeat = refl; live = refl; fresh = λ q l. refl } in
    let (s', e, same, live) = destroy-Sound s (set_all-Sound calls empty_store start) in
    (
      s',
      e,
      live,
      λ p ps b. destroy_again s' p ps (rw same b) (live p ∙ rw b (ground (arith, ==_iff p p))),
    )
