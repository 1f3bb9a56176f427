-- ===== src/Base64/Bits.antt =====
-- include/base64.hpp against the definition of RFC 4648: the bits of the text, regrouped by six.
use home_keeper.Prelude.{
  ℕ, zero, suc, ◌+◌, ◌-◌, ◌*◌, ◌/◌, ◌%◌, List, [], ◌∷◌, ◌++◌, append_assoc, ◌≡◌, refl, sym, ap, ◌∙◌,
  arith, length, drop, replicate, get_or, Bytes, All, IsByte,
}
use home_keeper.Base64.{pad, char_of, chars_of, sextets, encode_rest, base64_encode}
use home_keeper.Base64.Digits.{sextets_lem}
use home_keeper.Base64.RoundTrip.{code_of, encode-code_of, sextets_one, sextets_two}

-- The bits of a text, the highest of each byte first.
abbrev pub bits_of : ℕ → List ℕ
bits_of b =
    b / 128 % 2
    ∷ b / 64 % 2
    ∷ b / 32 % 2
    ∷ b / 16 % 2
    ∷ b / 8 % 2
    ∷ b / 4 % 2
    ∷ b / 2 % 2
    ∷ b % 2
    ∷ []

abbrev pub bit_string : Bytes → List ℕ
bit_string [] = []
bit_string (b ∷ bs) = bits_of b ++ bit_string bs

-- The number that the first six bits are, with zeros behind the end.
abbrev pub six_bits : List ℕ → ℕ
six_bits bits =
    get_or bits 0 0 * 32
    + get_or bits 1 0 * 16
    + get_or bits 2 0 * 8
    + get_or bits 3 0 * 4
    + get_or bits 4 0 * 2
    + get_or bits 5 0

-- The characters of `n` groups of six bits.
abbrev pub groups : ℕ → List ℕ → Bytes
groups zero bits = []
groups (suc n) bits = char_of (six_bits bits) ∷ groups n (drop 6 bits)

-- As many groups as there are bits for, and pads up to a multiple of four characters.
abbrev pub rfc_code : Bytes → Bytes
rfc_code bs =
    groups ((8 * length bs + 5) / 6) (bit_string bs) ++ replicate ((3 - length bs % 3) % 3) pad

-- The numbers of the groups of three bytes.
group_0 :
    (a : ℕ)
    → IsByte a
    → a / 128 % 2 * 32
        + a / 64 % 2 * 16
        + a / 32 % 2 * 8
        + a / 16 % 2 * 4
        + a / 8 % 2 * 2
        + a / 4 % 2
      ≡ a / 4
group_0 a h = omega arith

group_1 :
    (a b : ℕ)
    → IsByte b
    → a / 2 % 2 * 32 + a % 2 * 16 + b / 128 % 2 * 8 + b / 64 % 2 * 4 + b / 32 % 2 * 2 + b / 16 % 2
      ≡ a % 4 * 16 + b / 16
group_1 a b h = omega arith

group_2 :
    (b c : ℕ)
    → IsByte c
    → b / 8 % 2 * 32 + b / 4 % 2 * 16 + b / 2 % 2 * 8 + b % 2 * 4 + c / 128 % 2 * 2 + c / 64 % 2
      ≡ b % 16 * 4 + c / 64
group_2 b c h = omega arith

group_3 :
    (c : ℕ)
    → c / 32 % 2 * 32 + c / 16 % 2 * 16 + c / 8 % 2 * 8 + c / 4 % 2 * 4 + c / 2 % 2 * 2 + c % 2
      ≡ c % 64
group_3 c = omega arith

three_bytes :
    (a b c : ℕ) (rest : List ℕ) (n : ℕ)
    → IsByte a
    → IsByte b
    → IsByte c
    → groups (suc (suc (suc (suc n)))) (bits_of a ++ (bits_of b ++ (bits_of c ++ rest)))
      ≡ chars_of (sextets (a ∷ b ∷ c ∷ [])) ++ groups n rest
unfolding chars_of
three_bytes a b c rest n ha hb hc =
    rw (sextets_lem a b c ha hb hc, group_0 a ha, group_1 a b hb, group_2 b c hc, group_3 c)

one_byte : (a : ℕ) → IsByte a → rfc_code (a ∷ []) ≡ code_of (a ∷ [])
unfolding code_of encode_rest chars_of
one_byte a ha = rw (sextets_one a ha) (
    let last : a / 2 % 2 * 32 + a % 2 * 16 + 0 * 8 + 0 * 4 + 0 * 2 + 0 ≡ a % 4 * 16 = omega arith in
    rw (group_0 a ha, last))

two_bytes : (a b : ℕ) → IsByte a → IsByte b → rfc_code (a ∷ b ∷ []) ≡ code_of (a ∷ b ∷ [])
unfolding code_of encode_rest chars_of
two_bytes a b ha hb = rw (sextets_two a b ha hb) (
    let last : b / 8 % 2 * 32 + b / 4 % 2 * 16 + b / 2 % 2 * 8 + b % 2 * 4 + 0 * 2 + 0
        ≡ b % 16 * 4 =
      omega arith in
    rw (group_0 a ha, group_1 a b hb, last))

count_groups : (n : ℕ) → (8 * suc (suc (suc n)) + 5) / 6 ≡ suc (suc (suc (suc ((8 * n + 5) / 6))))
count_groups n = omega arith

count_pads : (n : ℕ) → (3 - suc (suc (suc n)) % 3) % 3 ≡ (3 - n % 3) % 3
count_pads n = omega arith

code_of-rfc_code : (bs : Bytes) → All IsByte bs → code_of bs ≡ rfc_code bs
unfolding code_of
code_of-rfc_code [] h = refl
code_of-rfc_code (a ∷ []) h = sym (one_byte a h.0)
code_of-rfc_code (a ∷ b ∷ []) h = sym (two_bytes a b h.0 h.1.0)
code_of-rfc_code (a ∷ b ∷ c ∷ bs) (ha, (hb, (hc, h))) =
    let chars = chars_of (sextets (a ∷ b ∷ c ∷ [])) in
    let n = length bs in
    let pads = replicate ((3 - n % 3) % 3) pad in
    ap (λ x. chars ++ x) (code_of-rfc_code bs h)
    ∙ sym (append_assoc chars (groups ((8 * n + 5) / 6) (bit_string bs)) pads)
    ∙ ap (λ x. x ++ pads) (sym (three_bytes a b c (bit_string bs) ((8 * n + 5) / 6) ha hb hc))
    ∙ rw (count_groups n, count_pads n)

-- `base64_encode` is the code of RFC 4648: the bits of the text, highest first, regrouped by six
-- with zeros behind the end, each group as its character of the alphabet, and pads up to a multiple
-- of four characters.
pub encode-rfc_code : (bs : Bytes) → All IsByte bs → base64_encode bs ≡ rfc_code bs
encode-rfc_code bs h = encode-code_of bs ∙ code_of-rfc_code bs h
