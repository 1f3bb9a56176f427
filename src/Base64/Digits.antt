-- ===== src/Base64/Digits.antt =====
-- The bit masks of include/base64.hpp as division and remainder, and the alphabet as a bijection
-- between the numbers below 64 and its characters.
use Prim.Native.Nat.{bit_and}
use home_keeper.Prelude.{
  ℕ, ◌+◌, ◌*◌, ◌/◌, ◌%◌, ◌<◌, Bool, true, not, ◌&&◌, [], ◌∷◌, ◌≡◌, refl, arith, ◌==◌, every_below,
  every_below_at, agree_below, IsByte, take,
}
use home_keeper.Base64.{sextets, octets, digit_of, char_of, is_base64, pad}

mask_fc : (x : ℕ) → IsByte x → bit_and x 0xfc / 4 ≡ x / 4
unfolding every_below
mask_fc x h = agree_below (λ k. bit_and k 0xfc / 4) (λ k. k / 4) 256 x refl h

mask_03 : (x : ℕ) → IsByte x → bit_and x 0x03 ≡ x % 4
unfolding every_below
mask_03 x h = agree_below (λ k. bit_and k 0x03) (λ k. k % 4) 256 x refl h

mask_f0 : (x : ℕ) → IsByte x → bit_and x 0xf0 / 16 ≡ x / 16
unfolding every_below
mask_f0 x h = agree_below (λ k. bit_and k 0xf0 / 16) (λ k. k / 16) 256 x refl h

mask_0f : (x : ℕ) → IsByte x → bit_and x 0x0f ≡ x % 16
unfolding every_below
mask_0f x h = agree_below (λ k. bit_and k 0x0f) (λ k. k % 16) 256 x refl h

mask_c0 : (x : ℕ) → IsByte x → bit_and x 0xc0 / 64 ≡ x / 64
unfolding every_below
mask_c0 x h = agree_below (λ k. bit_and k 0xc0 / 64) (λ k. k / 64) 256 x refl h

mask_3f : (x : ℕ) → IsByte x → bit_and x 0x3f ≡ x % 64
unfolding every_below
mask_3f x h = agree_below (λ k. bit_and k 0x3f) (λ k. k % 64) 256 x refl h

mask_30 : (x : ℕ) → IsByte x → bit_and x 0x30 / 16 ≡ x / 16 % 4
unfolding every_below
mask_30 x h = agree_below (λ k. bit_and k 0x30 / 16) (λ k. k / 16 % 4) 256 x refl h

mask_3c : (x : ℕ) → IsByte x → bit_and x 0x3c / 4 ≡ x / 4 % 16
unfolding every_below
mask_3c x h = agree_below (λ k. bit_and k 0x3c / 4) (λ k. k / 4 % 16) 256 x refl h

-- The four digits of three bytes by division.
pub sextets_lem :
    (a b c : ℕ)
    → IsByte a
    → IsByte b
    → IsByte c
    → sextets (a ∷ b ∷ c ∷ []) ≡ a / 4 ∷ (a % 4 * 16 + b / 16) ∷ (b % 16 * 4 + c / 64) ∷ c % 64 ∷ []
unfolding sextets
sextets_lem a b c ha hb hc =
    ground
      (arith, mask_fc a ha, mask_03 a ha, mask_f0 b hb, mask_0f b hb, mask_c0 c hc, mask_3f c hc)

-- The three bytes of four digits below 64, by division.
pub octets_lem :
    (p q r s : ℕ)
    → p < 64
    → q < 64
    → r < 64
    → s < 64
    → octets (p ∷ q ∷ r ∷ s ∷ []) ≡ (p * 4 + q / 16) ∷ (q % 16 * 16 + r / 4) ∷ (r % 4 * 64 + s) ∷ []
unfolding octets
octets_lem p q r s hp hq hr hs = ground (
  arith,
  mask_30 q (omega arith),
  mask_0f q (omega arith),
  mask_3c r (omega arith),
  mask_03 r (omega arith),
)

-- The bytes that the last group keeps do not depend on the digits of its pads.
pub octets-take_one :
    (p q r s : ℕ) → p < 64 → q < 64 → take 1 (octets (p ∷ q ∷ r ∷ s ∷ [])) ≡ (p * 4 + q / 16) ∷ []
unfolding octets
octets-take_one p q r s hp hq = ground (arith, mask_30 q (omega arith))

pub octets-take_two :
    (p q r s : ℕ)
    → p < 64
    → q < 64
    → r < 64
    → take 2 (octets (p ∷ q ∷ r ∷ s ∷ [])) ≡ (p * 4 + q / 16) ∷ (q % 16 * 16 + r / 4) ∷ []
unfolding octets
octets-take_two p q r s hp hq hr =
    ground (arith, mask_30 q (omega arith), mask_0f q (omega arith), mask_3c r (omega arith))

-- The characters of the alphabet are looked up at their own index.
pub digit_of-char_of : (d : ℕ) → d < 64 → digit_of (char_of d) ≡ d
unfolding every_below digit_of char_of
digit_of-char_of d h = agree_below (λ k. digit_of (char_of k)) (λ k. k) 64 d refl h

abbrev pub continues : ℕ → Bool
continues c = not (c == pad) && is_base64 c

-- The decoder's loop goes on at every character of the alphabet.
pub continues-char_of : (d : ℕ) → d < 64 → continues (char_of d) ≡ true
unfolding every_below char_of is_base64
continues-char_of d h = every_below_at (λ k. continues (char_of k)) 64 d refl h
