-- ===== src/Base64.antt =====
-- include/base64.hpp: the table, `is_base64`, `base64_encode` and `base64_decode`. A string is the
-- list of its bytes, and an `unsigned char` is stored modulo 256.
pub mod Digits
pub mod RoundTrip
pub mod Shape
pub mod Bits
use Prim.Native.Nat.{bit_and}
use home_keeper.Prelude.{
  ℕ, zero, suc, ◌+◌, ◌-◌, ◌*◌, ◌/◌, ◌%◌, ◌^◌, Bool, true, false, not, ◌&&◌, ◌||◌, List, [], ◌∷◌,
  Option, none, some, ◌++◌, ◌≡◌, refl, ltb, leb, ◌==◌, if◌then◌else◌, length, get_or, take,
  replicate, Bytes, codes,
}

abbrev pub base64_chars : Bytes
base64_chars = codes "ABCDEFGHIJKLMNOPQRSTUVWXYZabcdefghijklmnopqrstuvwxyz0123456789+/"

abbrev pub pad : ℕ
pad = b'='

abbrev isalnum : ℕ → Bool
isalnum c = leb b'0' c && leb c b'9' || leb b'A' c && leb c b'Z' || leb b'a' c && leb c b'z'

unfoldable pub is_base64 : ℕ → Bool
is_base64 c = isalnum c || c == b'+' || c == b'/'

-- `std::string::find` of one byte; `npos` is 2 ^ 64 - 1.
abbrev npos : ℕ
npos = 2 ^ 64 - 1

find_from : ℕ → Bytes → ℕ → ℕ
find_from c [] i = npos
find_from c (b ∷ bs) i = let next = find_from c bs (i + 1) in if b == c then i else next

-- `char_array_4[k] = base64_chars.find (c)`.
pub digit_of : ℕ → ℕ
unfolding find_from
digit_of c = find_from c base64_chars 0 % 256

-- `ret += base64_chars[d]`; the byte past the end of a string is a zero.
pub char_of : ℕ → ℕ
char_of d = get_or base64_chars d 0

-- Three bytes as four digits.
abbrev sextet_0 : ℕ → ℕ
sextet_0 a = bit_and a 0xfc / 4

abbrev sextet_1 : ℕ → ℕ → ℕ
sextet_1 a b = (bit_and a 0x03 * 16 + bit_and b 0xf0 / 16) % 256

abbrev sextet_2 : ℕ → ℕ → ℕ
sextet_2 b c = (bit_and b 0x0f * 4 + bit_and c 0xc0 / 64) % 256

abbrev sextet_3 : ℕ → ℕ
sextet_3 c = bit_and c 0x3f

abbrev byte_at : Bytes → ℕ → ℕ
byte_at xs i = get_or xs i 0

-- `char_array_4` from `char_array_3`, whose cells that were not written are zero.
pub sextets : Bytes → List ℕ
sextets g =
    sextet_0 (byte_at g 0)
    ∷ sextet_1 (byte_at g 0) (byte_at g 1)
    ∷ sextet_2 (byte_at g 1) (byte_at g 2)
    ∷ sextet_3 (byte_at g 2)
    ∷ []

pub chars_of : List ℕ → Bytes
chars_of [] = []
chars_of (d ∷ ds) = char_of d ∷ chars_of ds

-- After the loop: `i` cells are written, `i + 1` characters and `3 - i` pads are appended.
pub encode_rest : Bytes → Bytes → Bytes
encode_rest [] ret = ret
encode_rest (a ∷ g) ret =
    let i = length (a ∷ g) in
    ret ++ (chars_of (take (i + 1) (sextets (a ∷ g))) ++ replicate (3 - i) pad)

-- The loop over the input; `g` is the part of `char_array_3` below `i`.
pub encode_loop : Bytes → Bytes → Bytes → Bytes
encode_loop [] g ret = encode_rest g ret
encode_loop (b ∷ bs) g ret =
    let g' = g ++ b ∷ [] in
    elim (length g' == 3) [
      | true ↦ encode_loop bs [] (ret ++ chars_of (sextets g'))
      | false ↦ encode_loop bs g' ret
    ]

unfoldable pub base64_encode : Bytes → Bytes
unfolding encode_loop encode_rest chars_of char_of sextets
base64_encode bytes = encode_loop bytes [] []

-- Four digits as three bytes.
pub octets : List ℕ → Bytes
octets g =
    (byte_at g 0 * 4 + bit_and (byte_at g 1) 0x30 / 16) % 256
    ∷ (bit_and (byte_at g 1) 0x0f * 16 + bit_and (byte_at g 2) 0x3c / 4) % 256
    ∷ (bit_and (byte_at g 2) 0x03 * 64 + byte_at g 3) % 256
    ∷ []

pub digits_of : Bytes → List ℕ
digits_of [] = []
digits_of (c ∷ cs) = digit_of c ∷ digits_of cs

-- After the loop: the cells from `i` on are set to zero before all four are looked up, and `i - 1`
-- bytes are appended.
pub decode_rest : Bytes → Bytes → Bytes
decode_rest [] ret = ret
decode_rest (a ∷ g) ret =
    let i = length (a ∷ g) in
    ret ++ take (i - 1) (octets (digits_of ((a ∷ g) ++ replicate (4 - i) 0)))

-- The loop stops at the end, at the pad, and at a byte that is not in the alphabet: this is what it
-- does where its counters do not leave the range of an `int`.
pub decode_loop : Bytes → Bytes → Bytes → Bytes
decode_loop [] g ret = decode_rest g ret
decode_loop (c ∷ cs) g ret =
    let g' = g ++ c ∷ [] in
    elim (not (c == pad) && is_base64 c) [
      | false ↦ decode_rest g ret
      | true ↦ elim (length g' == 4) [
        | true ↦ decode_loop cs [] (ret ++ octets (digits_of g'))
        | false ↦ decode_loop cs g' ret
      ]
    ]

-- The least `int` as a 32-bit word.
abbrev pub int_min : ℕ
int_min = 2 ^ 31

-- The loop with its counters: `in_len` is an `int` as a 32-bit word, and `in_` is the position of the
-- first byte of the text. At the end of the text `operator[]` reads a zero, which is not in the
-- alphabet. `none`: `in_len--` or `in_++` leaves the range of an `int`.
pub decode_from : ℕ → ℕ → Bytes → Bytes → Bytes → Option Bytes
decode_from in_len in_ [] g ret = if in_len == int_min then none else some (decode_rest g ret)
decode_from in_len in_ (c ∷ cs) g ret =
    let g' = g ++ c ∷ [] in
    if in_len == 0
    then some (decode_rest g ret)
    else if in_len == int_min
    then none
    else elim (not (c == pad) && is_base64 c) [
      | false ↦ some (decode_rest g ret)
      | true ↦ if in_ + 1 == int_min then none else elim (length g' == 4) [
        | true ↦ decode_from (in_len - 1) (in_ + 1) cs [] (ret ++ octets (digits_of g'))
        | false ↦ decode_from (in_len - 1) (in_ + 1) cs g' ret
      ]
    ]

-- `int in_len = encoded_string.size()` keeps the size modulo 2 ^ 32.
unfoldable pub base64_decode : Bytes → Option Bytes
unfolding decode_from decode_rest octets digits_of digit_of is_base64
base64_decode text = decode_from (length text % 2 ^ 32) 0 text [] []
