-- ===== src/ThreadPool/Blocks.antt =====
-- include/threadPool.hpp: the blocks that `setFunction` and `start` allocate, and the destructor, which
-- frees those of its threads and those of the static table. The block of a `para_t`, which `startFunc`
-- deletes, is left out; `malloc` gives a new address.
pub mod Sound
pub mod Frees
use home_keeper.Prelude.{
  ℕ, suc, ◌≤◌, Bool, true, false, not, ◌&&◌, ◌||◌, List, [], ◌∷◌, Option, none, some, ◌≡◌, inl, inr,
  refl, ap, ◌∙◌, ◌==◌, ==_iff, if◌then◌else◌, Bool-cases, Option-cases, arith, Bytes,
}
use home_keeper.StdMap.{bytes_key, insert, lookup}

-- The heap: the next address, and the blocks that are not freed.
pub record Heap : Type 0 where
  pub next : ℕ
  pub is_live : ℕ → Bool

abbrev pub empty_heap : Heap
empty_heap = record { next = 0; is_live = λ q. false }

abbrev pub malloc : Heap → Heap
malloc h = record { next = suc h.next; is_live = λ q. q == h.next || h.is_live q }

-- `none`: the block is not live.
abbrev pub free : ℕ → Heap → Option Heap
free p h =
    if h.is_live p then some (record h { is_live = λ q. not (q == p) && h.is_live q }) else none

-- The static table, by the pointer `data` of each name, and the heap.
pub record Store : Type 0 where
  pub funcs : List (Bytes × Option ℕ)
  pub heap : Heap

abbrev pub empty_store : Store
empty_store = record { funcs = []; heap = empty_heap }

-- `setFunction`, by whether it is given a parameter.
pub set_function : Bytes → Bool → Store → Store
set_function name true s = record {
  funcs = insert name (some s.heap.next) s.funcs;
  heap = malloc s.heap;
}
set_function name false s = elim (lookup name s.funcs) [
  | none ↦ record s { funcs = insert name none s.funcs }
  | some p ↦ s
]

-- `start`: the vector `threads` and the heap, for a table with so many names.
pub start_threads : List (Bytes × Option ℕ) → Heap → List ℕ × Heap
start_threads [] h = ([], h)
start_threads (f ∷ funcs) h =
    let (threads, h') = start_threads funcs (malloc h) in (h.next ∷ threads, h')

-- The blocks of the table.
abbrev pub blocks : List (Bytes × Option ℕ) → List ℕ
blocks [] = []
blocks ((name, none) ∷ funcs) = blocks funcs
blocks ((name, some p) ∷ funcs) = p ∷ blocks funcs

-- The loops of the destructor; `free` of a null pointer does nothing.
pub free_all : List ℕ → Heap → Option Heap
free_all [] h = some h
free_all (p ∷ ps) h = elim (free p h) [ none ↦ none | some h' ↦ free_all ps h' ]

-- The destructor.
pub destroy : List ℕ → Store → Option Store
destroy threads s = elim (free_all threads s.heap) [
  | none ↦ none
  | some h ↦ elim (free_all (blocks s.funcs) h) [
    | none ↦ none
    | some h' ↦ some (record s { heap = h' })
  ]
]

-- The calls of `setFunction`.
pub set_all : List (Bytes × Bool) → Store → Store
set_all [] s = s
set_all ((name, given) ∷ calls) s = set_all calls (set_function name given s)
