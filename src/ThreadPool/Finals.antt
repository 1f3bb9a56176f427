-- ===== src/ThreadPool/Finals.antt =====
-- include/threadPool.hpp: what any calls of `setFunction` leave, by the last calls for each name.
use home_keeper.Prelude.{
  ℕ, true, List, [], ◌∷◌, Option, none, some, ◌≡◌, refl, sym, ap, ◌∙◌, ◌↔◌, if◌then◌else◌, arith,
  Bytes, bytes_eq, bytes_eq_iff,
}
use home_keeper.StdMap
use home_keeper.StdMap.{bytes_key, lookup-insert}
use home_keeper.StdMap.Sorted.{is_sorted}
use home_keeper.StdMap.Unique.{is_sorted_unique}
use home_keeper.ThreadPool.{FuncAndPara, Funcs, entry, set_function, set_function-is_sorted}
use home_keeper.ThreadPool.Orders.{Registration, register}

module _ {ℓ} {F : Type ℓ} (nothing : F) where
  -- The function of the last call for a name, and the parameter of the last that gives one; `func` and
  -- `block` are those of the calls before.
  abbrev pub last_func : Bytes → Option F → List (Registration nothing) → Option F
  last_func name func [] = func
  last_func name func ((other, f, para) ∷ rs) =
      last_func name (if bytes_eq other name then some f else func) rs

  abbrev given : Option (List ℕ) → Option (List ℕ) → Option (List ℕ)
  given block none = block
  given block (some para) = some para

  abbrev pub last_block : Bytes → Option (List ℕ) → List (Registration nothing) → Option (List ℕ)
  last_block name block [] = block
  last_block name block ((other, f, para) ∷ rs) =
      last_block name (if bytes_eq other name then given block para else block) rs

  -- What stands under a name: nothing where no call was for it.
  abbrev held : Option F → Option (List ℕ) → Option (FuncAndPara F)
  held none block = none
  held (some f) block = some (record { func = f; argument = block })

  abbrev func_at : Bytes → Funcs nothing → Option F
  func_at name funcs = elim (StdMap.lookup name funcs) [ none ↦ none | some f ↦ some f.func ]

  abbrev block_at : Bytes → Funcs nothing → Option (List ℕ)
  block_at name funcs = (entry nothing name funcs).argument

  func_at-set_function :
      (name other : Bytes) (f : F) (para : Option (List ℕ)) (funcs : Funcs nothing)
      → func_at name (set_function nothing other f para funcs)
        ≡ (if bytes_eq other name then some f else func_at name funcs)
  unfolding set_function
  func_at-set_function name other f none funcs =
      let new : FuncAndPara F = record { func = f; argument = block_at other funcs } in
      ground (arith, lookup-insert other name new funcs)
  func_at-set_function name other f (some para) funcs =
      let new : FuncAndPara F = record { func = f; argument = some para } in
      ground (arith, lookup-insert other name new funcs)

  block_at-set_function :
      (name other : Bytes) (f : F) (para : Option (List ℕ)) (funcs : Funcs nothing)
      → block_at name (set_function nothing other f para funcs)
        ≡ (if bytes_eq other name then given (block_at name funcs) para else block_at name funcs)
  unfolding set_function
  block_at-set_function name other f none funcs =
      let new : FuncAndPara F = record { func = f; argument = block_at other funcs } in
      ground (arith, lookup-insert other name new funcs, bytes_eq_iff other name)
  block_at-set_function name other f (some para) funcs =
      let new : FuncAndPara F = record { func = f; argument = some para } in
      ground (arith, lookup-insert other name new funcs)

  held-parts :
      (o : Option (FuncAndPara F))
      → let f : FuncAndPara F = elim o [
        | none ↦ record { func = nothing; argument = none }
        | some f ↦ f
      ] in
        let func : Option F = elim o [ none ↦ none | some f ↦ some f.func ] in
        o ≡ held func f.argument
  held-parts none = refl
  held-parts (some f) = refl

  lookup-held :
      (name : Bytes) (funcs : Funcs nothing)
      → StdMap.lookup name funcs ≡ held (func_at name funcs) (block_at name funcs)
  lookup-held name funcs = held-parts (StdMap.lookup name funcs)

  register_lem :
      (name : Bytes) (rs : List (Registration nothing)) (funcs : Funcs nothing)
      → (func_at name (register nothing rs funcs) ≡ last_func name (func_at name funcs) rs)
        × (block_at name (register nothing rs funcs) ≡ last_block name (block_at name funcs) rs)
  unfolding register
  register_lem name [] funcs = (refl, refl)
  register_lem name ((other, f, para) ∷ rs) funcs =
      let (func, block) = register_lem name rs (set_function nothing other f para funcs) in
      (
        func ∙ ap (λ x. last_func name x rs) (func_at-set_function name other f para funcs),
        block ∙ ap (λ x. last_block name x rs) (block_at-set_function name other f para funcs),
      )

  pub register-is_sorted :
      (rs : List (Registration nothing)) (funcs : Funcs nothing)
      → is_sorted funcs ≡ true
      → is_sorted (register nothing rs funcs) ≡ true
  unfolding register
  register-is_sorted [] funcs s = s
  register-is_sorted ((other, f, para) ∷ rs) funcs s =
      register-is_sorted rs (set_function nothing other f para funcs)
        (set_function-is_sorted nothing other f para funcs s)

  -- The calls agree for every name on the last function, and on the last parameter that is given.
  abbrev pub SameFinals : List (Registration nothing) → List (Registration nothing) → Type ℓ
  SameFinals rs rs' =
      (name : Bytes)
      → (last_func name none rs ≡ last_func name none rs')
        × (last_block name none rs ≡ last_block name none rs')

  -- From the empty table, two sequences of calls of `setFunction`, with repeated names or not, leave
  -- the same table exactly when they agree for every name on the function of the last call, and on the
  -- parameter of the last call that gives one.
  pub register-SameFinals :
      (rs rs' : List (Registration nothing))
      → (register nothing rs [] ≡ register nothing rs' []) ↔ SameFinals rs rs'
  unfolding StdMap.lookup
  register-SameFinals rs rs' = (
    λ same name.
        let (func, block) = register_lem name rs [] in
        let (func', block') = register_lem name rs' [] in
        (sym func ∙ ap (func_at name) same ∙ func', sym block ∙ ap (block_at name) same ∙ block'),
    λ finals.
        is_sorted_unique (register nothing rs []) (register nothing rs' [])
          (register-is_sorted rs [] refl) (register-is_sorted rs' [] refl)
          (λ name.
            let (func, block) = register_lem name rs [] in
            let (func', block') = register_lem name rs' [] in
            lookup-held name (register nothing rs [])
            ∙ ap (λ x. held x (block_at name (register nothing rs [])))
                (func ∙ (finals name).0 ∙ sym func')
            ∙ ap (held (func_at name (register nothing rs' [])))
                (block ∙ (finals name).1 ∙ sym block')
            ∙ sym (lookup-held name (register nothing rs' []))),
  )
