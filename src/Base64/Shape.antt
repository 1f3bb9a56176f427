-- ===== src/Base64/Shape.antt =====
-- include/base64.hpp: the length and the alphabet of a code.
use home_keeper.Prelude.{
  ℕ, ◌+◌, ◌*◌, ◌/◌, ◌<◌, true, List, [], ◌∷◌, ◌≡◌, refl, ◌⊎◌, inr, arith, Bytes, All, All-append,
  IsByte, length,
}
use home_keeper.Base64.{sextets, char_of, pad, is_base64, chars_of, base64_encode, encode_rest}
use home_keeper.Base64.Digits.{sextets_lem, continues-char_of}
use home_keeper.Base64.RoundTrip.{code_of, encode-code_of}

length-code_of : (bs : Bytes) → length (code_of bs) ≡ 4 * ((length bs + 2) / 3)
unfolding code_of encode_rest chars_of sextets
length-code_of [] = refl
length-code_of (a ∷ []) = refl
length-code_of (a ∷ b ∷ []) = refl
length-code_of (a ∷ b ∷ c ∷ bs) = omega (arith, length-code_of bs)

-- A code has four characters for every three bytes begun.
pub length-encode : (bs : Bytes) → length (base64_encode bs) ≡ 4 * ((length bs + 2) / 3)
length-encode bs = rw (encode-code_of bs) (length-code_of bs)

abbrev pub IsCodeChar : ℕ → Type 0
IsCodeChar c = (is_base64 c ≡ true) ⊎ (c ≡ pad)

char_of-IsCodeChar : (d : ℕ) → d < 64 → IsCodeChar (char_of d)
char_of-IsCodeChar d h = ground (arith, continues-char_of d h)

chars_of-All : (ds : List ℕ) → All (λ d. d < 64) ds → All IsCodeChar (chars_of ds)
unfolding chars_of
chars_of-All [] h = tt
chars_of-All (d ∷ ds) h = (char_of-IsCodeChar d h.0, chars_of-All ds h.1)

sextets-All :
    (a b c : ℕ) → IsByte a → IsByte b → IsByte c → All (λ d. d < 64) (sextets (a ∷ b ∷ c ∷ []))
sextets-All a b c ha hb hc = rw (sextets_lem a b c ha hb hc) (omega arith)

code_of-All : (bs : Bytes) → All IsByte bs → All IsCodeChar (code_of bs)
unfolding code_of encode_rest sextets chars_of
code_of-All [] h = tt
code_of-All (a ∷ []) h =
    let full =
      chars_of-All (sextets (a ∷ 0 ∷ 0 ∷ [])) (sextets-All a 0 0 h.0 (omega arith) (omega arith)) in
    (full.0, (full.1.0, (inr refl, (inr refl, tt))))
code_of-All (a ∷ b ∷ []) h =
    let full =
      chars_of-All (sextets (a ∷ b ∷ 0 ∷ [])) (sextets-All a b 0 h.0 h.1.0 (omega arith)) in
    (full.0, (full.1.0, (full.1.1.0, (inr refl, tt))))
code_of-All (a ∷ b ∷ c ∷ bs) h =
    All-append IsCodeChar (chars_of (sextets (a ∷ b ∷ c ∷ []))) (code_of bs)
      (chars_of-All (sextets (a ∷ b ∷ c ∷ [])) (sextets-All a b c h.0 h.1.0 h.1.1.0))
      (code_of-All bs h.1.1.1)

-- The code of a text of bytes holds characters of the alphabet and pads only.
pub encode-All : (bs : Bytes) → All IsByte bs → All IsCodeChar (base64_encode bs)
encode-All bs h = rw (encode-code_of bs) (code_of-All bs h)
