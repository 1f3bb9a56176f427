-- ===== src/Worker.antt =====
-- common/worker.cpp, frame/bus.cpp and frame/slave.cpp: a worker, which calls its functions when it is
-- made and when it is destroyed, and the processes of the frame that only log. What is logged is a
-- list, after so many seconds; a log that has no files leaves the lines as they are.
use home_keeper.Prelude.{
  ℕ, Bool, true, false, List, [], ◌∷◌, ◌++◌, append-nil, append_assoc, Option, none, some, ◌≡◌,
  refl, sym, ap, ◌∙◌, replicate,
}

-- The lines that these processes log.
pub data Line : Type 0 where
  bus_started bus_running slave_started slave_running : Line

-- A function of a worker: what it logs before it returns, or what it logs every second, for ever.
pub data Func : Type 0 where
  returns : List Line → Func
  loops : Line → Func

-- What has been logged, and whether the call has returned.
pub record Progress : Type 0 where
  pub lines : List Line
  pub returned : Bool

-- A call, some seconds after it; a null pointer is not called.
abbrev pub call : ℕ → Option Func → Progress
call n none = record { lines = []; returned = true }
call n (some (returns lines)) = record { lines = lines; returned = true }
call n (some (loops line)) = record { lines = replicate n line; returned = false }

-- What follows a call is reached only once it has returned.
abbrev pub and_then : Progress → Progress → Progress
and_then p q = elim p.returned [
  | true ↦ record { lines = p.lines ++ q.lines; returned = q.returned }
  | false ↦ p
]

-- `worker`: its functions.
pub record Worker : Type 0 where
  pub process : Option Func
  pub init : Option Func
  pub done : Option Func

-- The constructor, and the life of a worker up to the end of its destructor.
pub construct : ℕ → Worker → Progress
construct n w = and_then (call n w.init) (call n w.process)

pub life : ℕ → Worker → Progress
life n w = and_then (construct n w) (call n w.done)

-- `main` of frame/bus.cpp and of frame/slave.cpp, so many seconds after the first line.
pub bus_main : ℕ → Progress
bus_main n =
    let f = some (loops bus_running) in
    and_then (record { lines = bus_started ∷ []; returned = true })
      (life n (record { process = f; init = f; done = f }))

pub slave_main : ℕ → Progress
slave_main n = record { lines = slave_started ∷ replicate n slave_running; returned = false }

-- The functions of a worker in the order of their calls.
abbrev pub in_order : Worker → List (Option Func)
in_order w = w.init ∷ w.process ∷ w.done ∷ []

-- The lines of the functions up to the first that does not return, and whether there is none.
abbrev pub reached : ℕ → List (Option Func) → List Line
reached n [] = []
reached n (none ∷ fs) = reached n fs
reached n (some (returns lines) ∷ fs) = lines ++ reached n fs
reached n (some (loops line) ∷ fs) = replicate n line

abbrev pub all_return : List (Option Func) → Bool
all_return [] = true
all_return (none ∷ fs) = all_return fs
all_return (some (returns lines) ∷ fs) = all_return fs
all_return (some (loops line) ∷ fs) = false

-- What a last call adds.
last_call :
    (n : ℕ) (xs : List Line) (f : Option Func)
    → and_then (record { lines = xs; returned = true }) (call n f)
      ≡ record { lines = xs ++ reached n (f ∷ []); returned = all_return (f ∷ []) }
last_call n xs none = refl
last_call n xs (some (returns lines)) =
    ap (λ ys. record { lines = xs ++ ys; returned = true }) (sym (append-nil lines))
last_call n xs (some (loops line)) = refl

-- The same lines, written otherwise.
with_lines :
    (p : Progress) (xs ys : List Line) (b : Bool)
    → p ≡ record { lines = xs; returned = b }
    → xs ≡ ys
    → p ≡ record { lines = ys; returned = b }
with_lines p xs ys b e same = e ∙ ap (λ zs. record { lines = zs; returned = b }) same

life_of :
    (n : ℕ) (i p d : Option Func)
    → and_then (and_then (call n i) (call n p)) (call n d)
      ≡ record { lines = reached n (i ∷ p ∷ d ∷ []); returned = all_return (i ∷ p ∷ d ∷ []) }
life_of n (some (loops line)) p d = refl
life_of n none (some (loops line)) d = refl
life_of n (some (returns lines)) (some (loops line)) d = refl
life_of n none none d = last_call n [] d
life_of n none (some (returns lines)) d = last_call n lines d
life_of n (some (returns lines)) none d =
    with_lines _ _ _ _ (last_call n (lines ++ []) d)
      (ap (λ xs. xs ++ reached n (d ∷ [])) (append-nil lines))
life_of n (some (returns lines)) (some (returns more)) d =
    with_lines _ _ _ _ (last_call n (lines ++ more) d)
      (append_assoc lines more (reached n (d ∷ [])))

-- A worker calls `init`, `process` and `done` in this order: at any time it has logged what the
-- functions log up to the first that does not return, and its destructor ends exactly when all of them
-- return.
pub life_lem :
    (n : ℕ) (w : Worker)
    → life n w ≡ record { lines = reached n (in_order w); returned = all_return (in_order w) }
unfolding life construct
life_lem n w = life_of n w.init w.process w.done

-- The bus runs inside the `init` of its worker for ever.
pub bus_main_lem :
    (n : ℕ)
    → bus_main n ≡ record { lines = bus_started ∷ replicate n bus_running; returned = false }
unfolding bus_main
bus_main_lem n = rw life_lem refl
