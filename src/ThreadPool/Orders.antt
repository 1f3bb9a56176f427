-- ===== src/ThreadPool/Orders.antt =====
-- include/threadPool.hpp: the calls of `setFunction` in one order or another.
use mathlib.Core.List.{Permᴰ, Mem, Nodup, mem-cons_self, Nodup-cons}
use mathlib.Core.List.Permᴰ
use mathlib.Core.List.Perm
use home_keeper.Prelude.{
  ℕ, true, false, List, [], ◌∷◌, map, Option, none, some, ◌≡◌, ◌≢◌, inl, inr, refl, sym, ap, ◌∙◌,
  subst, Bool-cases, arith, Bytes, bytes_eq, bytes_eq_sound,
}
use home_keeper.StdMap
use home_keeper.StdMap.{bytes_key, lookup-insert}
use home_keeper.StdMap.Sorted.{is_sorted}
use home_keeper.StdMap.Unique.{insert-insert}
use home_keeper.ThreadPool.{FuncAndPara, Funcs, entry, set_function, set_function-is_sorted}

module _ {ℓ} {F : Type ℓ} (nothing : F) where
  -- A call of `setFunction`: the name, the function and the parameter.
  abbrev pub Registration : Type ℓ
  Registration = Bytes × F × Option (List ℕ)

  abbrev pub name_of : Registration → Bytes
  name_of r = r.0

  -- The calls in their order.
  unfoldable pub register : List Registration → Funcs nothing → Funcs nothing
  register [] funcs = funcs
  register ((name, func, para) ∷ rs) funcs = register rs (set_function nothing name func para funcs)

  -- The parameter that `setFunction` leaves in the table.
  abbrev kept : Bytes → Option (List ℕ) → Funcs nothing → Option (List ℕ)
  kept name none funcs = (entry nothing name funcs).argument
  kept name (some block) funcs = some block

  set_function-insert :
      (name : Bytes) (func : F) (para : Option (List ℕ)) (funcs : Funcs nothing)
      → set_function nothing name func para funcs
        ≡ StdMap.insert name (record { func = func; argument = kept name para funcs }) funcs
  unfolding set_function
  set_function-insert name func none funcs = refl
  set_function-insert name func (some block) funcs = refl

  kept_other :
      (name other : Bytes) (para : Option (List ℕ)) (f : FuncAndPara F) (funcs : Funcs nothing)
      → bytes_eq other name ≡ false
      → kept name para (StdMap.insert other f funcs) ≡ kept name para funcs
  kept_other name other none f funcs e = ground (arith, lookup-insert other name f funcs, e)
  kept_other name other (some block) f funcs e = refl

  bytes_eq_other : (a b : Bytes) → a ≢ b → bytes_eq a b ≡ false
  bytes_eq_other a b n = elim (Bool-cases (bytes_eq a b)) [
    | inl e ↦ absurd (n (bytes_eq_sound a b e))
    | inr other ↦ other
  ]

  -- Two calls for different names may be swapped.
  set_function-set_function :
      (a b : Bytes) (f g : F) (p q : Option (List ℕ)) (funcs : Funcs nothing)
      → a ≢ b
      → is_sorted funcs ≡ true
      → set_function nothing a f p (set_function nothing b g q funcs)
        ≡ set_function nothing b g q (set_function nothing a f p funcs)
  set_function-set_function a b f g p q funcs n s =
      let ab = bytes_eq_other a b n in
      let ba = bytes_eq_other b a (λ e. n (sym e)) in
      let x : FuncAndPara F = record { func = f; argument = kept a p funcs } in
      let y : FuncAndPara F = record { func = g; argument = kept b q funcs } in
      rw
        (
          set_function-insert b g q funcs,
          set_function-insert a f p funcs,
          set_function-insert a f p (StdMap.insert b y funcs),
          set_function-insert b g q (StdMap.insert a x funcs),
          kept_other a b p y funcs ba,
          kept_other b a q x funcs ab,
        )
        (insert-insert a b x y funcs ab s)

  abbrev pub names : List Registration → List Bytes
  names rs = map name_of rs

  -- From a table in the order of its names, calls for different names leave the same table in every
  -- order of the calls.
  pub register-permuted :
      {xs ys : List Registration}
      → Permᴰ xs ys
      → (funcs : Funcs nothing) → Nodup (names xs)
      → is_sorted funcs ≡ true
      → register xs funcs ≡ register ys funcs
  unfolding register
  register-permuted Permᴰ.nil funcs d s = refl
  register-permuted (Permᴰ.cons {a = a} {b = b} {l₁ = xs} {l₂ = ys} e q) funcs d s =
      let funcs' = set_function nothing a.0 a.1 a.2 funcs in
      register-permuted q funcs' ((Nodup-cons.0 d).1)
        (set_function-is_sorted nothing a.0 a.1 a.2 funcs s)
      ∙ ap (λ x. register (x ∷ ys) funcs) e
  register-permuted (Permᴰ.swap {a = a} {b = b} {a' = a'} {b' = b'} {l = xs} e e') funcs d s =
      let n : b.0 ≢ a.0 = λ same.
        (Nodup-cons.0 d).0 (subst (λ x. Mem a.0 (x ∷ names xs)) (sym same) (mem-cons_self)) in
      ap (register xs) (set_function-set_function b.0 a.0 b.1 a.1 b.2 a.2 funcs n s)
      ∙ ap (λ x. register (x ∷ a ∷ xs) funcs) e'
      ∙ ap (λ x. register (a' ∷ x ∷ xs) funcs) e
  register-permuted (Permᴰ.trans {l₁ = xs} {l₂ = zs} {l₃ = ys} q r) funcs d s =
      register-permuted q funcs d s
      ∙ register-permuted r funcs (Perm.nodup (∣ Permᴰ.map name_of q ∣₁) d) s
