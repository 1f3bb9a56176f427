-- ===== src/Prelude/Text.antt =====
-- A `std::string` is the list of its bytes; a C string ends before its first zero byte.
use Prim.Native.Nat.{ℕ, zero, suc, ◌-◌, ◌≤◌, ◌<◌}
use Prim.Native.Char.{code}
use Prim.Native.String.{String}
use mathlib.Core.Path.{◌≡◌, refl, ap}
use mathlib.Core.Logic.{◌≢◌, ◌↔◌}
use mathlib.Core.Bool.{Bool, true, false, ◌&&◌}
use mathlib.Core.List.{List, [], ◌∷◌, ◌++◌}
use native.Mathlib.Omega.{arith}
use home_keeper.Prelude.Tests.{◌==◌}
use home_keeper.Prelude.Lists.{take, length}

abbrev pub Bytes : Type 0
Bytes = List ℕ

-- The bytes of an ASCII literal.
abbrev pub codes : String → Bytes
codes String.[] = []
codes (String.◌∷◌ c s) = code c ∷ codes s

module _ {ℓ κ} {A : Type ℓ} (P : A → Type κ) where
  abbrev pub All : List A → Type κ
  All [] = Unit
  All (x ∷ xs) = P x × All xs

  pub All-append : (xs ys : List A) → All xs → All ys → All (xs ++ ys)
  All-append [] ys hx hy = hy
  All-append (x ∷ xs) ys (p, hx) hy = (p, All-append xs ys hx hy)

module _ {ℓ κ μ} {A : Type ℓ} {P : A → Type κ} {Q : A → Type μ} where
  pub All-map : ((x : A) → P x → Q x) → (xs : List A) → All P xs → All Q xs
  All-map f [] h = tt
  All-map f (x ∷ xs) (p, h) = (f x p, All-map f xs h)

abbrev pub IsByte : ℕ → Type 0
IsByte c = c < 256

-- `operator==` of two strings.
abbrev pub bytes_eq : Bytes → Bytes → Bool
bytes_eq [] [] = true
bytes_eq [] (b ∷ bs) = false
bytes_eq (a ∷ as') [] = false
bytes_eq (a ∷ as') (b ∷ bs) = (a == b) && bytes_eq as' bs

pub bytes_eq_refl : (a : Bytes) → bytes_eq a a ≡ true
bytes_eq_refl [] = refl
bytes_eq_refl (a ∷ as') = ground (arith, bytes_eq_refl as')

pub bytes_eq_sound : (a b : Bytes) → bytes_eq a b ≡ true → a ≡ b
bytes_eq_sound [] [] h = refl
bytes_eq_sound [] (b ∷ bs) h = cc
bytes_eq_sound (a ∷ as') [] h = cc
bytes_eq_sound (a ∷ as') (b ∷ bs) h = ground (arith, bytes_eq_sound as' bs)

pub bytes_eq_iff : (a b : Bytes) → (bytes_eq a b ≡ true) ↔ (a ≡ b)
bytes_eq_iff a b = (bytes_eq_sound a b, λ e. rw e (bytes_eq_refl b))

-- What `std::string (p)` and `%s` read: the bytes before the first zero.
abbrev pub c_str : Bytes → Bytes
c_str [] = []
c_str (zero ∷ bs) = []
c_str (suc b ∷ bs) = suc b ∷ c_str bs

-- `snprintf (buf, size, "%s", s)` keeps `size - 1` bytes of the text and ends it by a zero.
abbrev pub print_into : ℕ → Bytes → Bytes
print_into size s = take (size - 1) (c_str s)

abbrev pub NoZero : Bytes → Type 0
NoZero = All (λ c. c ≢ 0)

pub c_str-NoZero : (s : Bytes) → NoZero s → c_str s ≡ s
c_str-NoZero [] h = refl
c_str-NoZero (zero ∷ s) h = absurd (h.0 refl)
c_str-NoZero (suc c ∷ s) h = ap (◌∷◌ (suc c)) (c_str-NoZero s h.1)

pub NoZero-c_str : (s : Bytes) → NoZero (c_str s)
NoZero-c_str [] = tt
NoZero-c_str (zero ∷ s) = tt
NoZero-c_str (suc c ∷ s) = (omega arith, NoZero-c_str s)

-- A zero byte ends the text, whatever follows it.
pub c_str-append_zero : (s rest : Bytes) → NoZero s → c_str (s ++ 0 ∷ rest) ≡ s
c_str-append_zero [] rest h = refl
c_str-append_zero (zero ∷ s) rest h = absurd (h.0 refl)
c_str-append_zero (suc c ∷ s) rest h = ap (◌∷◌ (suc c)) (c_str-append_zero s rest h.1)

pub c_str-cons : (c : ℕ) (s : Bytes) → c ≢ 0 → c_str (c ∷ s) ≡ c ∷ c_str s
c_str-cons zero s h = absurd (h refl)
c_str-cons (suc c) s h = refl

pub NoZero-take : (n : ℕ) (s : Bytes) → NoZero s → NoZero (take n s)
NoZero-take zero s h = tt
NoZero-take (suc n) [] h = tt
NoZero-take (suc n) (b ∷ s) h = (h.0, NoZero-take n s h.1)

-- What `snprintf` leaves holds no zero, and reads back whole.
pub print_into-NoZero : (size : ℕ) (s : Bytes) → NoZero (print_into size s)
print_into-NoZero size s = NoZero-take (size - 1) (c_str s) (NoZero-c_str s)

pub c_str-print_into :
    (size : ℕ) (s rest : Bytes) → c_str (print_into size s ++ 0 ∷ rest) ≡ print_into size s
c_str-print_into size s rest = c_str-append_zero (print_into size s) rest (print_into-NoZero size s)

pub take_below : (n : ℕ) (s : Bytes) → length s ≤ n → take n s ≡ s
take_below zero [] h = refl
take_below zero (b ∷ s) h = elim h [ ]
take_below (suc n) [] h = refl
take_below (suc n) (b ∷ s) h = ap (◌∷◌ b) (take_below n s (omega arith))
