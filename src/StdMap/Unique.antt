-- ===== src/StdMap/Unique.antt =====
-- `std::map`: when two maps are equal, and the order of insertions.
use home_keeper.Prelude.{
  true, false, List, [], ◌∷◌, none, some, ◌≡◌, inl, inr, refl, sym, ap, ◌∙◌, Bool-cases, arith,
}
use home_keeper.StdMap.{Key, lookup, insert, lookup-insert, lookup_here}
use home_keeper.StdMap.Sorted.{
  is_sorted, all_after, all_after_trans, lookup-after, insert-is_sorted,
}

module _ {ℓ κ} {K : Type ℓ} {V : Type κ} ⦃key : Key K⦄ where
  -- Every key finds the same.
  abbrev pub Agree : List (K × V) → List (K × V) → Type (ℓ ⊔ κ)
  Agree m m' = (k : K) → lookup k m ≡ lookup k m'

  nothing_at : (k : K) → lookup {V = V} k [] ≡ none
  unfolding lookup
  nothing_at k = refl

  not_before :
      (k j : K) (v w : V) (m m' : List (K × V))
      → all_after j m' ≡ true
      → Agree ((k, v) ∷ m) ((j, w) ∷ m')
      → key.before k j ≡ false
  not_before k j v w m m' a h = elim (Bool-cases (key.before k j)) [
    | inl first ↦
        let later = all_after_trans k j m' first a in
        let gone = lookup-after k ((j, w) ∷ m') (ground (arith, first, later)) in
        cc (lookup_here k v m, gone, h k)
    | inr other ↦ other
  ]

  tails-Agree :
      (k : K) (v w : V) (m m' : List (K × V))
      → all_after k m ≡ true
      → all_after k m' ≡ true
      → Agree ((k, v) ∷ m) ((k, w) ∷ m')
      → Agree m m'
  unfolding lookup
  tails-Agree k v w m m' a a' h i = elim (Bool-cases (key.same k i)) [
    | inl e ↦
        ap (λ x. lookup x m) (sym ((key.same_iff k i).0 e))
        ∙ lookup-after k m a
        ∙ sym (lookup-after k m' a')
        ∙ ap (λ x. lookup x m') ((key.same_iff k i).0 e)
    | inr other ↦ ground (arith, other, h i)
  ]

  -- Two maps in the order of their keys in which every key finds the same are the same list.
  pub is_sorted_unique :
      (m m' : List (K × V)) → is_sorted m ≡ true → is_sorted m' ≡ true → Agree m m' → m ≡ m'
  is_sorted_unique [] [] s s' h = refl
  is_sorted_unique [] ((j, w) ∷ m') s s' h = cc (nothing_at j, h j, lookup_here j w m')
  is_sorted_unique ((k, v) ∷ m) [] s s' h = cc (nothing_at k, h k, lookup_here k v m)
  is_sorted_unique ((k, v) ∷ m) ((j, w) ∷ m') s s' h =
      let a : all_after k m ≡ true = ground (arith, s) in
      let a' : all_after j m' ≡ true = ground (arith, s') in
      let t : is_sorted m ≡ true = ground (arith, s) in
      let t' : is_sorted m' ≡ true = ground (arith, s') in
      elim (Bool-cases (key.same k j)) [
        | inr other ↦ cc (
          not_before k j v w m m' a' h,
          key.before_total k j other (not_before j k w v m' m a (λ i. sym (h i))),
        )
        | inl e ↦
            let p : k ≡ j = (key.same_iff k j).0 e in
            let h' : Agree ((k, v) ∷ m) ((k, w) ∷ m') =
              λ i. h i ∙ ap (λ x. lookup i ((x, w) ∷ m')) (sym p) in
            let found : some v ≡ some w = sym (lookup_here k v m) ∙ h' k ∙ lookup_here k w m' in
            let after : all_after k m' ≡ true = ap (λ x. all_after x m') p ∙ a' in
            let rest = is_sorted_unique m m' t t' (tails-Agree k v w m m' a after h') in
            cc (p, found, rest)
      ]

  swapped :
      (k j i : K) (v w : V) (m : List (K × V))
      → key.same k j ≡ false
      → lookup i (insert k v (insert j w m)) ≡ lookup i (insert j w (insert k v m))
  swapped k j i v w m other = ground (
    arith,
    lookup-insert k i v (insert j w m),
    lookup-insert j i w m,
    lookup-insert j i w (insert k v m),
    lookup-insert k i v m,
    key.same_iff k i,
    key.same_iff j i,
    key.same_iff k j,
  )

  -- Two insertions at different keys may be swapped.
  pub insert-insert :
      (k j : K) (v w : V) (m : List (K × V))
      → key.same k j ≡ false
      → is_sorted m ≡ true
      → insert k v (insert j w m) ≡ insert j w (insert k v m)
  insert-insert k j v w m other s =
      is_sorted_unique (insert k v (insert j w m)) (insert j w (insert k v m))
        (insert-is_sorted k v (insert j w m) (insert-is_sorted j w m s))
        (insert-is_sorted j w (insert k v m) (insert-is_sorted k v m s))
        (λ i. swapped k j i v w m other)
