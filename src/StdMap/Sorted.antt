-- ===== src/StdMap/Sorted.antt =====
-- `std::map`: the order of the keys, which every operation keeps.
use home_keeper.Prelude.{
  Bool, true, false, ◌&&◌, List, [], ◌∷◌, ◌++◌, none, ◌≡◌, inl, inr, refl, ap, Bool-cases, arith,
}
use home_keeper.StdMap.{Key, lookup, insert, erase}

module _ {ℓ} {K : Type ℓ} ⦃key : Key K⦄ where
  before_same : (j k : K) → key.before j k ≡ true → key.same j k ≡ false
  before_same j k h = elim (Bool-cases (key.same j k)) [
    | inl e ↦ cc (h, (key.same_iff j k).0 e, key.before_irrefl k)
    | inr other ↦ other
  ]

  before_asym : (j k : K) → key.before j k ≡ true → key.before k j ≡ false
  before_asym j k h = elim (Bool-cases (key.before k j)) [
    | inl e ↦ cc (key.before_trans j k j h e, key.before_irrefl j)
    | inr other ↦ other
  ]

module _ {ℓ κ} {K : Type ℓ} {V : Type κ} ⦃key : Key K⦄ where
  -- Every key of the map comes after this one; every key comes before this one.
  abbrev pub all_after : K → List (K × V) → Bool
  all_after k [] = true
  all_after k ((j, v) ∷ m) = key.before k j && all_after k m

  abbrev pub all_before : K → List (K × V) → Bool
  all_before k [] = true
  all_before k ((j, v) ∷ m) = key.before j k && all_before k m

  abbrev pub is_sorted : List (K × V) → Bool
  is_sorted [] = true
  is_sorted ((k, v) ∷ m) = all_after k m && is_sorted m

  pub all_after_trans :
      (k j : K) (m : List (K × V))
      → key.before k j ≡ true
      → all_after j m ≡ true
      → all_after k m ≡ true
  all_after_trans k j [] h a = refl
  all_after_trans k j ((i, v) ∷ m) h a =
      ground (arith, key.before_trans k j i h, all_after_trans k j m h)

  all_after-insert :
      (k j : K) (v : V) (m : List (K × V))
      → key.before j k ≡ true
      → all_after j m ≡ true
      → all_after j (insert k v m) ≡ true
  unfolding insert
  all_after-insert k j v [] h a = ground arith
  all_after-insert k j v ((i, w) ∷ m) h a = ground (arith, all_after-insert k j v m h)

  pub insert-is_sorted :
      (k : K) (v : V) (m : List (K × V)) → is_sorted m ≡ true → is_sorted (insert k v m) ≡ true
  unfolding insert
  insert-is_sorted k v [] s = refl
  insert-is_sorted k v ((j, w) ∷ m) s = elim (Bool-cases (key.same j k)) [
    | inl e ↦
        let moved = ap (λ x. all_after x m) ((key.same_iff j k).0 e) in ground (arith, e, moved)
    | inr other ↦ ground (
      arith,
      other,
      insert-is_sorted k v m,
      all_after_trans k j m,
      all_after-insert k j v m,
      key.before_total j k,
    )
  ]

  all_after-erase :
      (k j : K) (m : List (K × V)) → all_after j m ≡ true → all_after j (erase k m) ≡ true
  unfolding erase
  all_after-erase k j [] a = refl
  all_after-erase k j ((i, w) ∷ m) a = ground (arith, all_after-erase k j m)

  pub erase-is_sorted :
      (k : K) (m : List (K × V)) → is_sorted m ≡ true → is_sorted (erase k m) ≡ true
  unfolding erase
  erase-is_sorted k [] s = refl
  erase-is_sorted k ((j, w) ∷ m) s = ground (arith, erase-is_sorted k m, all_after-erase k j m)

  -- A key that comes before all others is not in the map.
  pub lookup-after : (k : K) (m : List (K × V)) → all_after k m ≡ true → lookup k m ≡ none
  unfolding lookup
  lookup-after k [] a = refl
  lookup-after k ((j, w) ∷ m) a = ground (
    arith,
    before_same k j,
    key.same_iff j k,
    key.same_iff k j,
    key.before_irrefl k,
    lookup-after k m,
  )

  -- A key that comes after all others goes to the end.
  pub insert-last :
      (k : K) (v : V) (m : List (K × V)) → all_before k m ≡ true → insert k v m ≡ m ++ (k, v) ∷ []
  unfolding insert
  insert-last k v [] a = refl
  insert-last k v ((j, w) ∷ m) a =
      ground (arith, before_same j k, before_asym j k, insert-last k v m)

  pub lookup-before : (k : K) (m : List (K × V)) → all_before k m ≡ true → lookup k m ≡ none
  unfolding lookup
  lookup-before k [] a = refl
  lookup-before k ((j, w) ∷ m) a = ground (arith, before_same j k, lookup-before k m)

  all_after-middle :
      (j k : K) (v : V) (front m : List (K × V))
      → all_after j (front ++ (k, v) ∷ m) ≡ true
      → key.before j k ≡ true
  all_after-middle j k v [] m a = ground arith
  all_after-middle j k v ((i, w) ∷ front) m a = ground (arith, all_after-middle j k v front m)

  -- What stands in front of a key comes before it.
  pub all_before-front :
      (k : K) (v : V) (front m : List (K × V))
      → is_sorted (front ++ (k, v) ∷ m) ≡ true
      → all_before k front ≡ true
  all_before-front k v [] m s = refl
  all_before-front k v ((j, w) ∷ front) m s =
      ground (arith, all_after-middle j k v front m, all_before-front k v front m)
