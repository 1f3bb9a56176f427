-- ===== src/StdMap.antt =====
-- `std::map`, which the program uses for statements, work functions, processes and clients: a list
-- of pairs in the order of the keys.
pub mod Sorted
pub mod Unique
use home_keeper.Prelude.{
  ℕ, Bool, true, false, ◌&&◌, ◌||◌, List, [], ◌∷◌, Option, none, some, ◌≡◌, inl, inr, refl, sym,
  subst, ltb, ◌==◌, ==_iff, if◌then◌else◌, Bool-cases, arith, Bytes, ◌↔◌, bytes_eq, bytes_eq_iff,
}

pub record Key {ℓ} (K : Type ℓ) : Type ℓ where
  pub same : K → K → Bool
  pub before : K → K → Bool
  pub same_iff : (a b : K) → (same a b ≡ true) ↔ (a ≡ b)
  pub before_irrefl : (a : K) → before a a ≡ false
  pub before_trans : (a b c : K) → before a b ≡ true → before b c ≡ true → before a c ≡ true
  pub before_total : (a b : K) → same a b ≡ false → before b a ≡ false → before a b ≡ true

pub ltb_irrefl : (a : ℕ) → ltb a a ≡ false
ltb_irrefl a = ground arith

pub ltb_trans : (a b c : ℕ) → ltb a b ≡ true → ltb b c ≡ true → ltb a c ≡ true
ltb_trans a b c h k = ground arith

pub ltb_total : (a b : ℕ) → (a == b) ≡ false → ltb b a ≡ false → ltb a b ≡ true
ltb_total a b h k = ground arith

instance abbrev pub nat_key : Key ℕ
nat_key = record {
  same = ◌==◌;
  before = ltb;
  same_iff = ==_iff;
  before_irrefl = ltb_irrefl;
  before_trans = ltb_trans;
  before_total = ltb_total;
}

-- `operator<` of two strings.
abbrev pub bytes_before : Bytes → Bytes → Bool
bytes_before a [] = false
bytes_before [] (b ∷ bs) = true
bytes_before (a ∷ as') (b ∷ bs) = ltb a b || (a == b && bytes_before as' bs)

pub bytes_before_irrefl : (a : Bytes) → bytes_before a a ≡ false
bytes_before_irrefl [] = refl
bytes_before_irrefl (a ∷ as') = ground (arith, bytes_before_irrefl as')

pub bytes_before_trans :
    (a b c : Bytes) → bytes_before a b ≡ true → bytes_before b c ≡ true → bytes_before a c ≡ true
bytes_before_trans a b [] h k = cc
bytes_before_trans a [] (z ∷ c) h k = cc
bytes_before_trans [] (y ∷ b) (z ∷ c) h k = refl
bytes_before_trans (x ∷ a) (y ∷ b) (z ∷ c) h k = ground (arith, bytes_before_trans a b c)

pub bytes_before_total :
    (a b : Bytes) → bytes_eq a b ≡ false → bytes_before b a ≡ false → bytes_before a b ≡ true
bytes_before_total [] [] h k = cc
bytes_before_total [] (y ∷ b) h k = refl
bytes_before_total (x ∷ a) [] h k = cc
bytes_before_total (x ∷ a) (y ∷ b) h k = ground (arith, bytes_before_total a b)

instance abbrev pub bytes_key : Key Bytes
bytes_key = record {
  same = bytes_eq;
  before = bytes_before;
  same_iff = bytes_eq_iff;
  before_irrefl = bytes_before_irrefl;
  before_trans = bytes_before_trans;
  before_total = bytes_before_total;
}

module _ {ℓ κ} {K : Type ℓ} {V : Type κ} ⦃key : Key K⦄ where
  -- `find`
  unfoldable pub lookup : K → List (K × V) → Option V
  lookup k [] = none
  lookup k ((j, v) ∷ m) = if key.same j k then some v else lookup k m

  -- `m[k] = v`
  unfoldable pub insert : K → V → List (K × V) → List (K × V)
  insert k v [] = (k, v) ∷ []
  insert k v ((j, w) ∷ m) =
      let rest = insert k v m in
      if key.same j k
      then (k, v) ∷ m
      else if key.before k j
      then (k, v) ∷ (j, w) ∷ m
      else (j, w) ∷ rest

  -- `erase`
  unfoldable pub erase : K → List (K × V) → List (K × V)
  erase k [] = []
  erase k ((j, w) ∷ m) = let rest = erase k m in if key.same j k then rest else (j, w) ∷ rest

  pub lookup-insert :
      (k j : K) (v : V) (m : List (K × V))
      → lookup j (insert k v m) ≡ (if key.same k j then some v else lookup j m)
  unfolding lookup insert
  lookup-insert k j v [] = refl
  lookup-insert k j v ((i, w) ∷ m) =
      ground (arith, key.same_iff k j, key.same_iff i k, key.same_iff i j, lookup-insert k j v m)

  pub lookup-erase :
      (k j : K) (m : List (K × V))
      → lookup j (erase k m) ≡ (if key.same k j then none else lookup j m)
  unfolding lookup erase
  lookup-erase k j [] = ground arith
  lookup-erase k j ((i, w) ∷ m) =
      ground (arith, key.same_iff k j, key.same_iff i k, key.same_iff i j, lookup-erase k j m)

  pub lookup_here : (k : K) (v : V) (m : List (K × V)) → lookup k ((k, v) ∷ m) ≡ some v
  unfolding lookup
  lookup_here k v m = ground (arith, key.same_iff k k)

  pub lookup_later :
      (k j : K) (v w : V) (m : List (K × V))
      → lookup k m ≡ none
      → lookup j m ≡ some w
      → lookup j ((k, v) ∷ m) ≡ some w
  unfolding lookup
  lookup_later k j v w m gone e = elim (Bool-cases (key.same k j)) [
    | inl same ↦
        let e' = subst (λ x. lookup x m ≡ some w) (sym ((key.same_iff k j).0 same)) e in
        cc (gone, e')
    | inr other ↦ rw (other, e)
  ]
