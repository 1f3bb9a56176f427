-- ===== src/Base64/RoundTrip.antt =====
-- include/base64.hpp: `base64_decode` undoes `base64_encode`.
use home_keeper.Prelude.{
  ℕ, ◌+◌, ◌*◌, ◌/◌, ◌%◌, ◌<◌, true, false, List, [], ◌∷◌, ◌++◌, append-nil, append_assoc, ◌≡◌, refl,
  sym, ap, ◌∙◌, arith, Bytes, All, IsByte, length, ◌==◌, take, ◌^◌, some,
}
use home_keeper.Base64.{
  sextets, octets, digit_of, char_of, pad, chars_of, digits_of, encode_loop, encode_rest,
  decode_loop, decode_rest, base64_encode, base64_decode, decode_from,
}
use home_keeper.Base64.Digits.{
  sextets_lem, octets_lem, octets-take_one, octets-take_two, digit_of-char_of, continues,
  continues-char_of,
}

-- The code of a text, three bytes at a time and with no accumulator.
unfoldable pub code_of : Bytes → Bytes
unfolding encode_rest
code_of [] = []
code_of (a ∷ []) = encode_rest (a ∷ []) []
code_of (a ∷ b ∷ []) = encode_rest (a ∷ b ∷ []) []
code_of (a ∷ b ∷ c ∷ bs) = chars_of (sextets (a ∷ b ∷ c ∷ [])) ++ code_of bs

encode_loop-code_of : (bs ret : Bytes) → encode_loop bs [] ret ≡ ret ++ code_of bs
unfolding encode_loop code_of encode_rest
encode_loop-code_of [] ret = sym (append-nil ret)
encode_loop-code_of (a ∷ []) ret = refl
encode_loop-code_of (a ∷ b ∷ []) ret = refl
encode_loop-code_of (a ∷ b ∷ c ∷ bs) ret =
    encode_loop-code_of bs (ret ++ chars_of (sextets (a ∷ b ∷ c ∷ [])))
    ∙ append_assoc ret (chars_of (sextets (a ∷ b ∷ c ∷ []))) (code_of bs)

pub encode-code_of : (bs : Bytes) → base64_encode bs ≡ code_of bs
unfolding base64_encode
encode-code_of bs = encode_loop-code_of bs []

-- The three ways of a round of the decoder.
pub decode_loop_stop :
    (c : ℕ) (cs g ret : Bytes)
    → continues c ≡ false
    → decode_loop (c ∷ cs) g ret ≡ decode_rest g ret
unfolding decode_loop
decode_loop_stop c cs g ret h = rw (h, decode_loop)

decode_loop_fill :
    (c : ℕ) (cs g ret : Bytes)
    → continues c ≡ true
    → (length (g ++ c ∷ []) == 4) ≡ false
    → decode_loop (c ∷ cs) g ret ≡ decode_loop cs (g ++ c ∷ []) ret
unfolding decode_loop
decode_loop_fill c cs g ret h k = rw (h, k, decode_loop)

decode_loop_full :
    (c : ℕ) (cs g ret : Bytes)
    → continues c ≡ true
    → (length (g ++ c ∷ []) == 4) ≡ true
    → decode_loop (c ∷ cs) g ret ≡ decode_loop cs [] (ret ++ octets (digits_of (g ++ c ∷ [])))
unfolding decode_loop
decode_loop_full c cs g ret h k = rw (h, k, decode_loop)

digits_of-chars_of : (ds : List ℕ) → All (λ d. d < 64) ds → digits_of (chars_of ds) ≡ ds
unfolding digits_of chars_of
digits_of-chars_of [] h = refl
digits_of-chars_of (d ∷ ds) h = rw (digit_of-char_of d h.0, digits_of-chars_of ds h.1)

-- One full group of the decoder.
decode_loop_group :
    (p q r s : ℕ) (rest ret : Bytes)
    → All (λ d. d < 64) (p ∷ q ∷ r ∷ s ∷ [])
    → decode_loop (chars_of (p ∷ q ∷ r ∷ s ∷ []) ++ rest) [] ret
      ≡ decode_loop rest [] (ret ++ octets (p ∷ q ∷ r ∷ s ∷ []))
unfolding chars_of
decode_loop_group p q r s rest ret h =
    decode_loop_fill (char_of p) _ [] ret (continues-char_of p h.0) refl
    ∙ decode_loop_fill (char_of q) _ (char_of p ∷ []) ret (continues-char_of q h.1.0) refl
    ∙ decode_loop_fill (char_of r) _ (char_of p ∷ char_of q ∷ []) ret (continues-char_of r h.1.1.0)
        refl
    ∙ decode_loop_full (char_of s) rest (char_of p ∷ char_of q ∷ char_of r ∷ []) ret
        (continues-char_of s h.1.1.1.0) refl
    ∙ ap (λ ds. decode_loop rest [] (ret ++ octets ds)) (digits_of-chars_of (p ∷ q ∷ r ∷ s ∷ []) h)

digit_bounds :
    (a b c : ℕ)
    → IsByte a
    → IsByte b
    → IsByte c
    → All (λ d. d < 64) (a / 4 ∷ (a % 4 * 16 + b / 16) ∷ (b % 16 * 4 + c / 64) ∷ c % 64 ∷ [])
digit_bounds a b c ha hb hc = omega arith

octets-sextets :
    (a b c : ℕ)
    → IsByte a
    → IsByte b
    → IsByte c
    → octets (sextets (a ∷ b ∷ c ∷ [])) ≡ a ∷ b ∷ c ∷ []
octets-sextets a b c ha hb hc = rw (sextets_lem a b c ha hb hc) (
    octets_lem (a / 4) (a % 4 * 16 + b / 16) (b % 16 * 4 + c / 64) (c % 64) (omega arith)
      (omega arith) (omega arith) (omega arith)
    ∙ ground arith)

decode_loop-group :
    (a b c : ℕ) (rest ret : Bytes)
    → IsByte a
    → IsByte b
    → IsByte c
    → decode_loop (chars_of (sextets (a ∷ b ∷ c ∷ [])) ++ rest) [] ret
      ≡ decode_loop rest [] (ret ++ a ∷ b ∷ c ∷ [])
decode_loop-group a b c rest ret ha hb hc = rw (sextets_lem a b c ha hb hc) (
    decode_loop_group (a / 4) (a % 4 * 16 + b / 16) (b % 16 * 4 + c / 64) (c % 64) rest ret
      (digit_bounds a b c ha hb hc)
    ∙ ap (λ xs. decode_loop rest [] (ret ++ xs))
        (rw (sextets_lem a b c ha hb hc) at (octets-sextets a b c ha hb hc)))

pub sextets_one : (a : ℕ) → IsByte a → sextets (a ∷ []) ≡ a / 4 ∷ (a % 4 * 16) ∷ 0 ∷ 0 ∷ []
unfolding sextets
sextets_one a ha = sextets_lem a 0 0 ha (omega arith) (omega arith) ∙ ground arith

pub sextets_two :
    (a b : ℕ)
    → IsByte a
    → IsByte b
    → sextets (a ∷ b ∷ []) ≡ a / 4 ∷ (a % 4 * 16 + b / 16) ∷ (b % 16 * 4) ∷ 0 ∷ []
unfolding sextets
sextets_two a b ha hb = sextets_lem a b 0 ha hb (omega arith) ∙ ground arith

digit_of-zero : digit_of 0 ≡ 255
unfolding digit_of
digit_of-zero = refl

continues-pad : continues pad ≡ false
continues-pad = refl

-- Two characters and then a pad; three characters and then a pad.
decode_loop_two_chars :
    (p q : ℕ) (rest ret : Bytes)
    → p < 64
    → q < 64
    → decode_loop (char_of p ∷ char_of q ∷ pad ∷ rest) [] ret
      ≡ ret ++ take 1 (octets (p ∷ q ∷ 255 ∷ 255 ∷ []))
unfolding decode_rest digits_of
decode_loop_two_chars p q rest ret hp hq =
    decode_loop_fill (char_of p) _ [] ret (continues-char_of p hp) refl
    ∙ decode_loop_fill (char_of q) _ (char_of p ∷ []) ret (continues-char_of q hq) refl
    ∙ decode_loop_stop pad rest (char_of p ∷ char_of q ∷ []) ret continues-pad
    ∙ rw (digit_of-char_of p hp, digit_of-char_of q hq, digit_of-zero)

decode_loop_three_chars :
    (p q r : ℕ) (ret : Bytes)
    → p < 64
    → q < 64
    → r < 64
    → decode_loop (char_of p ∷ char_of q ∷ char_of r ∷ pad ∷ []) [] ret
      ≡ ret ++ take 2 (octets (p ∷ q ∷ r ∷ 255 ∷ []))
unfolding decode_rest digits_of
decode_loop_three_chars p q r ret hp hq hr =
    decode_loop_fill (char_of p) _ [] ret (continues-char_of p hp) refl
    ∙ decode_loop_fill (char_of q) _ (char_of p ∷ []) ret (continues-char_of q hq) refl
    ∙ decode_loop_fill (char_of r) _ (char_of p ∷ char_of q ∷ []) ret (continues-char_of r hr) refl
    ∙ decode_loop_stop pad [] (char_of p ∷ char_of q ∷ char_of r ∷ []) ret continues-pad
    ∙ rw (digit_of-char_of p hp, digit_of-char_of q hq, digit_of-char_of r hr, digit_of-zero)

-- The last group of one byte, and of two.
decode_loop_one :
    (a : ℕ) (ret : Bytes) → IsByte a → decode_loop (code_of (a ∷ [])) [] ret ≡ ret ++ a ∷ []
unfolding code_of encode_rest chars_of
decode_loop_one a ret ha = rw (sextets_one a ha) (
    decode_loop_two_chars (a / 4) (a % 4 * 16) (pad ∷ []) ret (omega arith) (omega arith)
    ∙ ap (◌++◌ ret)
        (octets-take_one (a / 4) (a % 4 * 16) 255 255 (omega arith) (omega arith) ∙ ground arith))

decode_loop_two :
    (a b : ℕ) (ret : Bytes)
    → IsByte a
    → IsByte b
    → decode_loop (code_of (a ∷ b ∷ [])) [] ret ≡ ret ++ a ∷ b ∷ []
unfolding code_of encode_rest chars_of
decode_loop_two a b ret ha hb = rw (sextets_two a b ha hb) (
    decode_loop_three_chars (a / 4) (a % 4 * 16 + b / 16) (b % 16 * 4) ret (omega arith)
      (omega arith) (omega arith)
    ∙ ap (◌++◌ ret) (
        octets-take_two (a / 4) (a % 4 * 16 + b / 16) (b % 16 * 4) 255 (omega arith) (omega arith)
          (omega arith)
        ∙ ground arith))

decode_loop-code_of : (bs ret : Bytes) → All IsByte bs → decode_loop (code_of bs) [] ret ≡ ret ++ bs
unfolding code_of
decode_loop-code_of [] ret h = unfold decode_loop decode_rest in sym (append-nil ret)
decode_loop-code_of (a ∷ []) ret h = decode_loop_one a ret h.0
decode_loop-code_of (a ∷ b ∷ []) ret h = decode_loop_two a b ret h.0 h.1.0
decode_loop-code_of (a ∷ b ∷ c ∷ bs) ret h =
    decode_loop-group a b c (code_of bs) ret h.0 h.1.0 h.1.1.0
    ∙ decode_loop-code_of bs (ret ++ a ∷ b ∷ c ∷ []) h.1.1.1
    ∙ append_assoc ret (a ∷ b ∷ c ∷ []) bs

-- The counters of the decoder have no part where the text is shorter than 2 ^ 31.
decode_from-decode_loop :
    (in_ : ℕ) (cs g ret : Bytes)
    → in_ + length cs < 2 ^ 31
    → decode_from (length cs) in_ cs g ret ≡ some (decode_loop cs g ret)
unfolding decode_from decode_loop
decode_from-decode_loop in_ [] g ret l = refl
decode_from-decode_loop in_ (c ∷ cs) g ret l =
    let next : in_ + 1 + length cs < 2 ^ 31 = omega arith in
    let full =
      decode_from-decode_loop (in_ + 1) cs [] (ret ++ octets (digits_of (g ++ c ∷ []))) next in
    let fill = decode_from-decode_loop (in_ + 1) cs (g ++ c ∷ []) ret next in
    ground (arith, full, fill)

-- Decoding the code of a text of bytes gives the text back, whatever its bytes and the remainder of its
-- length by 3, where the code is shorter than 2 ^ 31, so that the counters of the decoder, which are
-- of the type `int`, hold its length.
pub decode-encode :
    (bs : Bytes)
    → All IsByte bs
    → length (base64_encode bs) < 2 ^ 31
    → base64_decode (base64_encode bs) ≡ some bs
unfolding base64_decode
decode-encode bs h l =
    let word : length (base64_encode bs) % 2 ^ 32 ≡ length (base64_encode bs) = omega arith in
    let loops : decode_loop (base64_encode bs) [] [] ≡ bs =
      rw (encode-code_of bs) (decode_loop-code_of bs [] h) in
    rw (word, decode_from-decode_loop 0 (base64_encode bs) [] [] (omega (arith, l)), loops) refl
