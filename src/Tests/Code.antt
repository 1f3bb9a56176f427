-- ===== src/Tests/Code.antt =====
-- The theorems on include/base64.hpp and include/curl.hpp at concrete inputs.
use home_keeper.Prelude.{some, true, [], ◌∷◌, ◌≡◌, ◌⊎◌, arith, Bytes, codes, All, pos, IsByte}
use home_keeper.Base64.{base64_encode, base64_decode}
use home_keeper.Base64.Bits.{rfc_code, encode-rfc_code}
use home_keeper.Base64.RoundTrip.{decode-encode}
use home_keeper.Curl.{Transfer, curl_util, IsAddressChar, curl_util_lem}

-- Four bytes, the last of which stands alone in its group.
abbrev four : Bytes
four = 77 ∷ 0 ∷ 255 ∷ 33 ∷ []

four_bytes : All IsByte four
four_bytes = (omega arith, (omega arith, (omega arith, (omega arith, tt))))

decode-encode_example : base64_decode (base64_encode four) ≡ some four
unfolding base64_encode
decode-encode_example = decode-encode four four_bytes (omega arith)

abbrev answer : Transfer
answer = record { has_handle = true; chunks = (codes "10.0.0.1\n", 0 ∷ []) ∷ []; res = pos 0 }

curl_util_lem_example :
    ((curl_util answer []).0 ≡ codes "failed") ⊎ All IsAddressChar (curl_util answer []).0
curl_util_lem_example = curl_util_lem answer []

encode-rfc_code_example : base64_encode four ≡ rfc_code four
encode-rfc_code_example = encode-rfc_code four four_bytes
