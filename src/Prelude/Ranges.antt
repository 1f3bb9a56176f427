-- ===== src/Prelude/Ranges.antt =====
-- A test on every number below a bound, for facts about bytes that evaluation decides.
use Prim.Native.Nat.{ℕ, zero, suc, ◌<◌}
use mathlib.Core.Path.{◌≡◌}
use mathlib.Core.Bool.{Bool, true, ◌&&◌}
use native.Mathlib.Omega.{arith}
use home_keeper.Prelude.Tests.{◌==◌, ==_iff}

unfoldable pub every_below : (ℕ → Bool) → ℕ → Bool
every_below test zero = true
every_below test (suc n) = test n && every_below test n

pub every_below_at : (test : ℕ → Bool) (n x : ℕ) → every_below test n ≡ true → x < n → test x ≡ true
unfolding every_below
every_below_at test zero x h lt = absurd (omega arith)
every_below_at test (suc n) x h lt = ground (arith, every_below_at test n x)

-- Two functions that agree on a range by evaluation.
pub agree_below :
    (f g : ℕ → ℕ) (n x : ℕ) → every_below (λ k. f k == g k) n ≡ true → x < n → f x ≡ g x
agree_below f g n x h lt = (==_iff (f x) (g x)).0 (every_below_at (λ k. f k == g k) n x h lt)
