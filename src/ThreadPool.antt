-- ===== src/ThreadPool.antt =====
-- include/threadPool.hpp: the table of work functions and the threads that run them.
pub mod Orders
pub mod Blocks
pub mod Finals
pub mod Classes
use home_keeper.Prelude.{
  ℕ, ◌++◌, true, List, [], ◌∷◌, map, Option, none, some, ◌≡◌, refl, ap, ◌∙◌, ◌==◌, if◌then◌else◌,
  arith, length, Bytes, bytes_eq,
}
use home_keeper.StdMap
use home_keeper.StdMap.Sorted.{
  is_sorted, all_before, insert-is_sorted, insert-last, lookup-after, lookup-before,
}
use home_keeper.StdMap.{Key, bytes_key, lookup-insert, lookup_here, lookup_later}

-- `funcAndPara_t`; the parameter is a block of 32-bit words, `none` for a null pointer.
pub record FuncAndPara {ℓ} (F : Type ℓ) : Type ℓ where
  pub func : F
  pub argument : Option (List ℕ)

module _ {ℓ} {F : Type ℓ} (nothing : F) where
  abbrev pub Funcs : Type ℓ
  Funcs = List (Bytes × FuncAndPara F)

  -- `funcs[name]`: a missing entry is an empty function and a null pointer.
  abbrev pub entry : Bytes → Funcs → FuncAndPara F
  entry name funcs = elim (StdMap.lookup name funcs) [
    | none ↦ record { func = nothing; argument = none }
    | some f ↦ f
  ]

  -- `setFunction`; `para` is `none` for a null pointer or a length of 0, and the data stay as they
  -- are then.
  unfoldable pub set_function : Bytes → F → Option (List ℕ) → Funcs → Funcs
  set_function name func none funcs =
      StdMap.insert name (record { func = func; argument = (entry name funcs).argument }) funcs
  set_function name func (some para) funcs =
      StdMap.insert name (record { func = func; argument = some para }) funcs

  -- `getFun`
  pub get_fun : Bytes → Funcs → FuncAndPara F × Funcs
  get_fun name funcs = elim (StdMap.lookup name funcs) [
    | none ↦ (entry name funcs, StdMap.insert name (entry name funcs) funcs)
    | some f ↦ (f, funcs)
  ]

  abbrev pub get_fun_no : Funcs → ℕ
  get_fun_no funcs = length funcs

  -- What `startFunc` runs in the thread of a name: the function and its argument.
  abbrev pub start_func : Funcs → Bytes → F × Option (List ℕ)
  start_func funcs name = let f = (get_fun name funcs).0 in (f.func, f.argument)

  -- `start`: the threads it makes, in order, by what they run, where the table stays as it is until
  -- they have started.
  pub start : Funcs → List (F × Option (List ℕ))
  start funcs = if get_fun_no funcs == 0 then [] else map (λ (name, f). start_func funcs name) funcs

  -- Once `setFunction` has registered a function, `startFunc` of the name runs it, on the new
  -- parameter if there is one and on the old one otherwise, and every other name is as before.
  pub start_func-set_function :
      (name other : Bytes) (func : F) (para : Option (List ℕ)) (funcs : Funcs)
      → start_func (set_function name func para funcs) other ≡ (
          if bytes_eq name other
          then (func, elim para [ none ↦ (entry name funcs).argument | some block ↦ some block ])
          else start_func funcs other)
  unfolding get_fun set_function
  start_func-set_function name other func none funcs =
      let f : FuncAndPara F = record { func = func; argument = (entry name funcs).argument } in
      ground (arith, lookup-insert name other f funcs)
  start_func-set_function name other func (some block) funcs =
      let f : FuncAndPara F = record { func = func; argument = some block } in
      ground (arith, lookup-insert name other f funcs)

  -- `setFunction` keeps the order of the table.
  pub set_function-is_sorted :
      (name : Bytes) (func : F) (para : Option (List ℕ)) (funcs : Funcs)
      → is_sorted funcs ≡ true
      → is_sorted (set_function name func para funcs) ≡ true
  unfolding set_function
  set_function-is_sorted name func none funcs s =
      insert-is_sorted name (record { func = func; argument = (entry name funcs).argument }) funcs s
  set_function-is_sorted name func (some block) funcs s =
      insert-is_sorted name (record { func = func; argument = some block }) funcs s

  -- A name that comes after all others is registered at the end.
  pub set_function-last :
      (name : Bytes) (func : F) (funcs : Funcs)
      → all_before name funcs ≡ true
      → set_function name func none funcs
        ≡ funcs ++ (name, record { func = func; argument = none }) ∷ []
  unfolding set_function
  set_function-last name func funcs b =
      let old = (entry name funcs).argument in
      let e : old ≡ none = ground (arith, lookup-before name funcs b) in
      insert-last name (record { func = func; argument = old }) funcs b
      ∙ ap (λ (x : Option (List ℕ)). funcs ++ (name, record { func = func; argument = x }) ∷ []) e

  start_in :
      (whole funcs : Funcs)
      → ((name : Bytes) (f : FuncAndPara F)
          → StdMap.lookup name funcs ≡ some f
          → StdMap.lookup name whole ≡ some f)
      → is_sorted funcs ≡ true
      → map (λ (name, f). start_func whole name) funcs
        ≡ map (λ (name, f). (f.func, f.argument)) funcs
  unfolding get_fun
  start_in whole [] found m = refl
  start_in whole ((name, f) ∷ funcs) found m =
      let here : StdMap.lookup name whole ≡ some f = found name f (lookup_here name f funcs) in
      let gone : StdMap.lookup name funcs ≡ none = lookup-after name funcs (ground (arith, m)) in
      let tail : is_sorted funcs ≡ true = ground (arith, m) in
      ground (
        arith,
        here,
        start_in whole funcs (λ other g e. found other g (lookup_later name other f g funcs gone e))
            tail,
      )

  -- When the table is in the order of its names, as `set_function-is_sorted` keeps it, `start` makes
  -- one thread for each entry, in that order, which runs the function of the entry on its parameter.
  pub start_lem :
      (funcs : Funcs)
      → is_sorted funcs ≡ true
      → start funcs ≡ map (λ (name, f). (f.func, f.argument)) funcs
  unfolding start
  start_lem [] m = refl
  start_lem (f ∷ funcs) m = ground (arith, start_in (f ∷ funcs) (f ∷ funcs) (λ name g e. e) m)
