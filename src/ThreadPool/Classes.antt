-- ===== src/ThreadPool/Classes.antt =====
-- include/threadPool.hpp: the calls of `setFunction` up to what they leave.
use mathlib.Core.HLevel.{Σ_prop_path}
use mathlib.Core.Quot
use mathlib.Core.Quot.{Quot, Quot-set}
use native.Mathlib.Nat.{ℕ_set}
use mathlib.Core.Bool.{Bool-set}
use home_keeper.Prelude.{
  append-nil, append_assoc, ℕ, true, List, [], ◌∷◌, ◌++◌, Option, none, some, ◌≡◌, refl, sym, ◌∙◌,
  Bytes,
}
use home_keeper.StdMap.{bytes_key}
use home_keeper.StdMap.Sorted.{is_sorted, all_before, all_before-front, insert-last}
use home_keeper.ThreadPool.{Funcs, set_function, set_function-last}
use home_keeper.ThreadPool.Orders.{Registration, register}
use home_keeper.ThreadPool.Finals.{SameFinals, register-SameFinals, register-is_sorted}

module _ {ℓ} {F : Type ℓ} (nothing : F) where
  -- The calls, of which only what they leave counts.
  abbrev pub Calls : Type ℓ
  Calls = Quot (SameFinals nothing)

  abbrev pub SortedTable : Type ℓ
  SortedTable = (funcs : Funcs nothing) × (is_sorted funcs ≡ true)

  Funcs-set : IsSet F → IsSet (Funcs nothing)
  Funcs-set s = hlevel (ℕ_set)

  SortedTable-set : IsSet F → IsSet SortedTable
  SortedTable-set s = hlevel (ℕ_set, Bool-set)

  SortedTable-path : (t t' : SortedTable) → t.0 ≡ t'.0 → t ≡ t'
  SortedTable-path t t' e = Σ_prop_path (λ funcs. Bool-set _ _) e

  -- The table that the calls leave, and calls that leave a table.
  pub table_of : IsSet F → Calls → SortedTable
  table_of s =
      Quot.lift (SortedTable-set s)
        (λ rs. (register nothing rs [], register-is_sorted nothing rs [] refl))
        (λ rs rs' same. SortedTable-path _ _ ((register-SameFinals nothing rs rs').1 same))

  abbrev pub entries : Funcs nothing → List (Registration nothing)
  entries [] = []
  entries ((name, f) ∷ funcs) = (name, f.func, f.argument) ∷ entries funcs

  pub calls_of : SortedTable → Calls
  calls_of t = Quot.mk (entries t.0)

  set_function-behind :
      (name : Bytes) (func : F) (para : Option (List ℕ)) (funcs : Funcs nothing)
      → all_before name funcs ≡ true
      → set_function nothing name func para funcs
        ≡ funcs ++ (name, record { func = func; argument = para }) ∷ []
  unfolding set_function
  set_function-behind name func none funcs b = set_function-last nothing name func funcs b
  set_function-behind name func (some block) funcs b =
      insert-last name (record { func = func; argument = some block }) funcs b

  register-entries :
      (m front : Funcs nothing)
      → is_sorted (front ++ m) ≡ true
      → register nothing (entries m) front ≡ front ++ m
  unfolding register
  register-entries [] front s = sym (append-nil front)
  register-entries ((name, f) ∷ m) front s =
      let last =
        set_function-behind name f.func f.argument front (all_before-front name f front m s) in
      let moved = append_assoc front ((name, f) ∷ []) m in
      rw (last, register) (register-entries m (front ++ (name, f) ∷ []) (rw moved s) ∙ moved)

  -- Where functions form a set: calls of `setFunction` from the empty table, up to the last function
  -- and the last given parameter of each name, are one and the same as tables in the order of their
  -- names. The table that calls leave gives the calls back, and every such table is left by some calls.
  pub calls-tables :
      (s : IsSet F)
      → ((q : Calls) → calls_of (table_of s q) ≡ q)
        × ((t : SortedTable) → table_of s (calls_of t) ≡ t)
  unfolding table_of calls_of
  calls-tables s = (
    Quot.ind (λ q. Quot-set _ _)
        (λ rs.
          let t = register nothing rs [] in
          Quot.sound (
            (register-SameFinals nothing (entries t) rs).0
              (register-entries t [] (register-is_sorted nothing rs [] refl)))),
    λ t. SortedTable-path _ t (register-entries t.0 [] t.1),
  )
