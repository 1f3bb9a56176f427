-- ===== src/Curl.antt =====
-- include/curl.hpp: `copy_data` and `curlUtil`, which asks a server for the public address.
use native.Mathlib.Nat.{zero-add}
use home_keeper.Prelude.{
  ℕ, ◌+◌, Bool, false, not, ◌&&◌, ◌||◌, List, [], ◌∷◌, ◌++◌, ◌≡◌, ◌⊎◌, inl, inr, refl, ltb, ◌==◌,
  if◌then◌else◌, Bool-cases, arith, length, take, Bytes, codes, c_str, All, ℤ, pos, eq_ℤ,
}

-- What libcurl does in one call of `curlUtil`: the handle, the chunks that it hands to `copy_data`,
-- each with the bytes that stand behind it in memory, and the result of `curl_easy_perform`.
pub record Transfer : Type 0 where
  pub has_handle : Bool
  pub chunks : List (Bytes × Bytes)
  pub res : ℤ

-- `copy_data`: the global `result` is set anew by each chunk, up to the first zero byte; the buffer
-- has no final zero, so the text runs on into what stands behind it.
unfoldable pub copy_data : Bytes × Bytes → Bytes → Bytes
copy_data (chunk, behind) result = c_str (chunk ++ behind)

unfoldable pub copy_all : List (Bytes × Bytes) → Bytes → Bytes
unfolding copy_data
copy_all [] result = result
copy_all (chunk ∷ chunks) result = copy_all chunks (copy_data chunk result)

-- The test of the scan: `result[i] < '0' || result[i] > '9'`, and not '.'. A byte from 128 on is a
-- negative `char`, and passes the first test.
abbrev pub is_foreign : ℕ → Bool
is_foreign c = (ltb c b'0' || ltb b'9' c) && not (c == b'.')

-- `position`: the index of the first foreign character, and 0 if there is none.
unfoldable pub position_from : Bytes → ℕ → ℕ
position_from [] i = 0
position_from (c ∷ cs) i = let rest = position_from cs (i + 1) in if is_foreign c then i else rest

unfoldable pub address_of : Bytes → Bytes
unfolding position_from
address_of result = take (position_from result 0) result

-- `curlUtil`: its result, and the global `result` after it.
unfoldable pub curl_util : Transfer → Bytes → Bytes × Bytes
unfolding copy_all address_of
curl_util t result =
    let result' = copy_all t.chunks result in
    if not t.has_handle
    then (address_of result, result)
    else if not (eq_ℤ t.res (pos 0))
    then (codes "failed", result')
    else (address_of result', result')

-- The digits and dots at the front.
abbrev pub front : Bytes → Bytes
front [] = []
front (c ∷ cs) = if is_foreign c then [] else c ∷ front cs

abbrev pub has_foreign : Bytes → Bool
has_foreign [] = false
has_foreign (c ∷ cs) = is_foreign c || has_foreign cs

position_from_lem :
    (cs : Bytes) (i : ℕ)
    → position_from cs i ≡ (if has_foreign cs then i + length (front cs) else 0)
unfolding position_from
position_from_lem [] i = refl
position_from_lem (c ∷ cs) i = ground (arith, position_from_lem cs (i + 1))

take-front : (cs : Bytes) → take (length (front cs)) cs ≡ front cs
take-front [] = refl
take-front (c ∷ cs) = ground (arith, take-front cs)

-- The address is the digits and dots at the front of the answer, but only if another character
-- follows them somewhere; an answer of digits and dots alone gives the empty address.
pub address_of_lem : (cs : Bytes) → address_of cs ≡ (if has_foreign cs then front cs else [])
unfolding address_of
address_of_lem cs = elim (Bool-cases (has_foreign cs)) [
  | inl some_foreign ↦ rw (position_from_lem cs 0, some_foreign, zero-add) (take-front cs)
  | inr all_plain ↦ rw (position_from_lem cs 0, all_plain)
]

abbrev pub IsAddressChar : ℕ → Type 0
IsAddressChar c = is_foreign c ≡ false

front-All : (cs : Bytes) → All IsAddressChar (front cs)
front-All [] = tt
front-All (c ∷ cs) = elim (Bool-cases (is_foreign c)) [
  | inl hit ↦ rw hit tt
  | inr miss ↦ rw miss (miss, front-All cs)
]

address_of-All : (cs : Bytes) → All IsAddressChar (address_of cs)
address_of-All cs = elim (Bool-cases (has_foreign cs)) [
  | inl some_foreign ↦ rw (address_of_lem cs, some_foreign) (front-All cs)
  | inr all_plain ↦ rw (address_of_lem cs, all_plain) tt
]

-- `curlUtil` returns "failed" or a text of digits and dots.
pub curl_util_lem :
    (t : Transfer) (result : Bytes)
    → ((curl_util t result).0 ≡ codes "failed") ⊎ All IsAddressChar (curl_util t result).0
unfolding curl_util
curl_util_lem t result =
    ground (arith, address_of-All result, address_of-All (copy_all t.chunks result))
