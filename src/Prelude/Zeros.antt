-- ===== src/Prelude/Zeros.antt =====
-- Buffers that hold zeros behind a text.
use Prim.Native.Nat.{ℕ, zero, suc, ◌-◌}
use mathlib.Core.Path.{◌≡◌, ap, ◌∙◌}
use mathlib.Core.Logic.{◌≢◌}
use mathlib.Core.List.{[], ◌∷◌, ◌++◌, append-nil}
use native.Mathlib.Omega.{arith}
use home_keeper.Prelude.Lists.{length, drop, replicate}
use home_keeper.Prelude.Text.{Bytes, c_str, NoZero, All-append, c_str-NoZero, c_str-append_zero}

abbrev pub zeros : ℕ → Bytes
zeros n = replicate n 0

pub drop-replicate : (n m : ℕ) → drop n (zeros m) ≡ zeros (m - n)
drop-replicate zero m = let e : m ≡ m - 0 = omega arith in ap zeros e
drop-replicate (suc n) zero = let e : 0 ≡ 0 - suc n = omega arith in ap zeros e
drop-replicate (suc n) (suc m) =
    let e : m - n ≡ suc m - suc n = omega arith in drop-replicate n m ∙ ap zeros e

-- What is left of a text with zeros behind it.
pub drop-append-zeros :
    (n : ℕ) (s : Bytes) (k : ℕ) → drop n (s ++ zeros k) ≡ drop n s ++ zeros (k - (n - length s))
drop-append-zeros zero s k =
    let e : k ≡ k - (0 - length s) = omega arith in ap (λ j. s ++ zeros j) e
drop-append-zeros (suc n) [] k =
    let e : k - suc n ≡ k - (suc n - 0) = omega arith in drop-replicate (suc n) k ∙ ap zeros e
drop-append-zeros (suc n) (b ∷ s) k =
    let e : k - (n - length s) ≡ k - (suc n - suc (length s)) = omega arith in
    drop-append-zeros n s k ∙ ap (λ j. drop n s ++ zeros j) e

pub c_str-zeros : (whole : Bytes) (n : ℕ) → NoZero whole → c_str (whole ++ zeros n) ≡ whole
c_str-zeros whole zero z = ap c_str (append-nil whole) ∙ c_str-NoZero whole z
c_str-zeros whole (suc n) z = c_str-append_zero whole (zeros n) z

pub NoZero-append : (xs ys : Bytes) → NoZero xs → NoZero ys → NoZero (xs ++ ys)
NoZero-append xs ys p q = All-append (λ c. c ≢ 0) xs ys p q

pub NoZero-drop : (n : ℕ) (s : Bytes) → NoZero s → NoZero (drop n s)
NoZero-drop zero s h = h
NoZero-drop (suc n) [] h = tt
NoZero-drop (suc n) (b ∷ s) h = NoZero-drop n s h.1
