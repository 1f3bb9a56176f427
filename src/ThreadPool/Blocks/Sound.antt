-- ===== src/ThreadPool/Blocks/Sound.antt =====
-- include/threadPool.hpp: the blocks of the table are different and live.
use home_keeper.Prelude.{
  ℕ, ◌≤◌, Bool, true, false, not, ◌&&◌, ◌||◌, List, [], ◌∷◌, Option, none, some, ◌≡◌, inl, inr,
  refl, ◌∙◌, ◌==◌, ==_iff, Option-cases, arith, Bytes,
}
use home_keeper.StdMap.{bytes_key, insert, lookup}
use home_keeper.ThreadPool.Blocks.{Heap, malloc, Store, set_function, blocks, free_all, set_all}

-- The list has the address; no address stands twice; every address is live.
abbrev pub has : ℕ → List ℕ → Bool
has q [] = false
has q (p ∷ ps) = q == p || has q ps

abbrev pub distinct : List ℕ → Bool
distinct [] = true
distinct (p ∷ ps) = not (has p ps) && distinct ps

abbrev pub all_live : (ℕ → Bool) → List ℕ → Bool
all_live live [] = true
all_live live (p ∷ ps) = live p && all_live live ps

all_live-freed :
    (p : ℕ) (ps : List ℕ) (live : ℕ → Bool)
    → has p ps ≡ false
    → all_live live ps ≡ true
    → all_live (λ q. not (q == p) && live q) ps ≡ true
all_live-freed p [] live h l = refl
all_live-freed p (r ∷ ps) live h l =
    ground (arith, all_live-freed p ps live, ==_iff p r, ==_iff r p)

-- Different live blocks are freed, and no others.
pub free_all_lem :
    (ps : List ℕ) (h : Heap)
    → distinct ps ≡ true
    → all_live h.is_live ps ≡ true
    → (h' : Heap) × (free_all ps h ≡ some h')
      × ((q : ℕ) → h'.is_live q ≡ (not (has q ps) && h.is_live q))
unfolding free_all
free_all_lem [] h d l = (h, refl, λ q. refl)
free_all_lem (p ∷ ps) h d l =
    let freed : Heap = record h { is_live = λ q. not (q == p) && h.is_live q } in
    let here : h.is_live p ≡ true = ground (arith, l) in
    let (h', e, live) =
      free_all_lem ps freed (ground (arith, d))
        (all_live-freed p ps h.is_live (ground (arith, d)) (ground (arith, l))) in
    (h', rw (here, free_all) e, λ q. live q ∙ ground arith)

-- No block is live at an address that `malloc` has not given yet.
unfoldable pub Fresh : Heap → Type 0
Fresh h = (q : ℕ) → h.next ≤ q → h.is_live q ≡ false

not_live-has :
    (p : ℕ) (ps : List ℕ) (live : ℕ → Bool)
    → live p ≡ false
    → all_live live ps ≡ true
    → has p ps ≡ false
not_live-has p [] live d l = refl
not_live-has p (r ∷ ps) live d l = ground (arith, not_live-has p ps live, ==_iff p r)

all_live-malloc :
    (n : ℕ) (ps : List ℕ) (live : ℕ → Bool)
    → all_live live ps ≡ true
    → all_live (λ q. q == n || live q) ps ≡ true
all_live-malloc n [] live l = refl
all_live-malloc n (p ∷ ps) live l = ground (arith, all_live-malloc n ps live)

malloc-Fresh : (h : Heap) → Fresh h → Fresh (malloc h)
unfolding Fresh
malloc-Fresh h f q l =
    let old : h.is_live q ≡ false = f q (omega arith) in ground (arith, old, ==_iff q h.next)

has-insert :
    (q p : ℕ) (k : Bytes) (m : List (Bytes × Option ℕ))
    → has q (blocks (insert k (some p) m)) ≡ true
    → q == p || has q (blocks m) ≡ true
unfolding insert
has-insert q p k [] h = ground arith
has-insert q p k ((j, none) ∷ m) h = ground (arith, has-insert q p k m)
has-insert q p k ((j, some r) ∷ m) h = ground (arith, has-insert q p k m)

distinct-insert :
    (p : ℕ) (k : Bytes) (m : List (Bytes × Option ℕ))
    → has p (blocks m) ≡ false
    → distinct (blocks m) ≡ true
    → distinct (blocks (insert k (some p) m)) ≡ true
unfolding insert
distinct-insert p k [] h d = refl
distinct-insert p k ((j, none) ∷ m) h d = ground (arith, distinct-insert p k m)
distinct-insert p k ((j, some r) ∷ m) h d =
    ground (arith, distinct-insert p k m, has-insert r p k m, ==_iff p r, ==_iff r p)

all_live-insert :
    (p : ℕ) (k : Bytes) (m : List (Bytes × Option ℕ)) (live : ℕ → Bool)
    → live p ≡ true
    → all_live live (blocks m) ≡ true
    → all_live live (blocks (insert k (some p) m)) ≡ true
unfolding insert
all_live-insert p k [] live h l = ground (arith, h)
all_live-insert p k ((j, none) ∷ m) live h l = ground (arith, h, all_live-insert p k m live)
all_live-insert p k ((j, some r) ∷ m) live h l = ground (arith, h, all_live-insert p k m live)

-- A name that is new, with a null pointer, brings no block.
blocks-insert :
    (k : Bytes) (m : List (Bytes × Option ℕ))
    → lookup k m ≡ none
    → blocks (insert k none m) ≡ blocks m
unfolding insert lookup
blocks-insert k [] e = refl
blocks-insert k ((j, none) ∷ m) e = ground (arith, blocks-insert k m)
blocks-insert k ((j, some r) ∷ m) e = ground (arith, blocks-insert k m)

-- The blocks of the table are different, and live.
pub record Sound (s : Store) : Type 0 where
  pub no_repeat : distinct (blocks s.funcs) ≡ true
  pub live : all_live s.heap.is_live (blocks s.funcs) ≡ true
  pub fresh : Fresh s.heap

set_function-Sound :
    (name : Bytes) (given : Bool) (s : Store) → Sound s → Sound (set_function name given s)
unfolding set_function Fresh
set_function-Sound name true s i =
    let p = s.heap.next in
    let unused : has p (blocks s.funcs) ≡ false =
      not_live-has p (blocks s.funcs) s.heap.is_live (i.fresh p (omega arith)) i.live in
    record {
      no_repeat = distinct-insert p name s.funcs unused i.no_repeat;
      live =
          all_live-insert p name s.funcs (malloc s.heap).is_live (ground (arith, ==_iff p p))
            (all_live-malloc p (blocks s.funcs) s.heap.is_live i.live);
      fresh = malloc-Fresh s.heap i.fresh;
    }
set_function-Sound name false s i = elim (Option-cases (lookup name s.funcs)) [
  | inl e ↦
      let same = blocks-insert name s.funcs e in
      rw (e, set_function)
        (record { no_repeat = rw same i.no_repeat; live = rw same i.live; fresh = i.fresh })
  | inr (p, e) ↦ rw (e, set_function) i
]

pub set_all-Sound : (calls : List (Bytes × Bool)) (s : Store) → Sound s → Sound (set_all calls s)
unfolding set_all
set_all-Sound [] s i = i
set_all-Sound ((name, given) ∷ calls) s i =
    set_all-Sound calls (set_function name given s) (set_function-Sound name given s i)
