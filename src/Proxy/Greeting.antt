-- ===== src/Proxy/Greeting.antt =====
-- include/tcpClient.hpp: `getMsg`, which collects a line from a server, and what include/tcpServer.hpp
-- writes of it to the connection.
use home_keeper.Prelude.{
  ◌≤◌, false, true, zeros, drop-replicate, c_str-zeros, NoZero-append, ℕ, zero, suc, ◌^◌, ◌+◌, ◌-◌,
  ◌%◌, ◌<◌, Bool, ◌&&◌, ◌||◌, List, [], ◌∷◌, ◌++◌, append_assoc, Option, none, some, ◌≡◌, refl, sym,
  ap, ◌∙◌, ltb, ◌==◌, if◌then◌else◌, arith, length, length-append, take, drop, get_or, Bytes, c_str,
  NoZero,
}

-- How `getMsg` ends: with the text of `message`, with -1, still reading when the calls of `read`
-- that are given are used up, or outside `message`.
pub data Result : Type 0 where
  text : Bytes → Result
  error reading outside : Result

-- The byte at an index, and the bytes of `message` once `bytes` stand at `recv_len`.
abbrev pub at : Bytes → ℕ → ℕ
at bytes i = get_or bytes i 0

abbrev pub store : ℕ → Bytes → Bytes → Bytes
store recv_len bytes buf = take recv_len buf ++ bytes ++ drop (recv_len + length bytes) buf

abbrev pub message_size : ℕ
message_size = 1024

-- `getMsg` from the loop on, over what the calls of `read` return (`none` for -1).
pub get_msg : List (Option Bytes) → ℕ → Bytes → Result
get_msg [] recv_len buf = reading
get_msg (none ∷ calls) recv_len buf = error
get_msg (some bytes ∷ calls) recv_len buf =
    let buf' = store recv_len bytes buf in
    let n = recv_len + length bytes in
    let rest = get_msg calls n buf' in
    if ltb message_size n || ltb n 2
    then outside
    else if at buf' (n - 2) == 13 && at buf' (n - 1) == 10
    then if ltb (length (c_str buf')) message_size then text (c_str buf') else outside
    else rest

-- The length that the server passes to `write` for a message: `message.length () - 1` in 64 bits.
abbrev pub write_length : Bytes → ℕ
write_length m = (length m + (2 ^ 64 - 1)) % 2 ^ 64

-- The same by concatenation: what has come so far, and whether it ends a line.
abbrev pub ends_line : Bytes → Bool
ends_line whole = at whole (length whole - 2) == 13 && at whole (length whole - 1) == 10

pub collect : List (Option Bytes) → Bytes → Result
collect [] so_far = reading
collect (none ∷ calls) so_far = error
collect (some bytes ∷ calls) so_far =
    let whole = so_far ++ bytes in
    let rest = collect calls whole in
    if ltb message_size (length whole) || ltb (length whole) 2
    then outside
    else if ends_line whole
    then if ltb (length whole) message_size then text whole else outside
    else rest

-- Every call delivers bytes without a zero.
abbrev pub NoZeros : List (Option Bytes) → Type 0
NoZeros [] = Unit
NoZeros (none ∷ calls) = NoZeros calls
NoZeros (some bytes ∷ calls) = NoZero bytes × NoZeros calls

abbrev pub padded : Bytes → Bytes
padded bytes = bytes ++ zeros (message_size - length bytes)

at-append : (xs ys : Bytes) (i : ℕ) → i < length xs → at (xs ++ ys) i ≡ at xs i
at-append [] ys i l = ground arith
at-append (x ∷ xs) ys zero l = refl
at-append (x ∷ xs) ys (suc i) l = at-append xs ys i (omega arith)

pub take_front : (xs ys : Bytes) → take (length xs) (xs ++ ys) ≡ xs
take_front [] ys = refl
take_front (x ∷ xs) ys = ap (◌∷◌ x) (take_front xs ys)

drop_behind : (xs ys : Bytes) (n : ℕ) → drop (length xs + n) (xs ++ ys) ≡ drop n ys
drop_behind [] ys n = ap (λ k. drop k ys) (omega arith)
drop_behind (x ∷ xs) ys n =
    let e : suc (length xs) + n ≡ suc (length xs + n) = omega arith in
    ap (λ k. drop k (x ∷ xs ++ ys)) e ∙ drop_behind xs ys n

store_padded :
    (so_far bytes : Bytes) → store (length so_far) bytes (padded so_far) ≡ padded (so_far ++ bytes)
store_padded so_far bytes =
    let rest = zeros (message_size - length so_far) in
    let n = message_size - length so_far in
    let e : n - length bytes ≡ message_size - (length so_far + length bytes) = omega arith in
    rw (
      take_front so_far rest,
      drop_behind so_far rest (length bytes),
      drop-replicate (length bytes) n,
      length-append so_far bytes,
      e,
      append_assoc so_far bytes (zeros (message_size - (length so_far + length bytes))),
    )

-- When `message` holds what has come so far and zeros behind it, and no call of `read` delivers a
-- zero, `getMsg` ends as `collect` does, which looks at nothing but the concatenation of what the
-- calls deliver: each call puts its bytes behind the earlier ones, and the text is all of them.
pub get_msg_lem :
    (calls : List (Option Bytes)) (so_far : Bytes)
    → NoZero so_far
    → NoZeros calls
    → get_msg calls (length so_far) (padded so_far) ≡ collect calls so_far
unfolding get_msg collect
get_msg_lem [] so_far z zs = refl
get_msg_lem (none ∷ calls) so_far z zs = refl
get_msg_lem (some bytes ∷ calls) so_far z zs =
    let whole = so_far ++ bytes in
    let rest = zeros (message_size - length whole) in
    let no_zero : NoZero whole = NoZero-append so_far bytes z zs.0 in
    rw (store_padded so_far bytes, sym (length-append so_far bytes))
      (ground (
        arith,
        get_msg_lem calls whole no_zero zs.1,
        at-append whole rest (length whole - 2),
        at-append whole rest (length whole - 1),
        c_str-zeros whole (message_size - length whole) no_zero,
      ))

abbrev pub crlf : Bytes
crlf = 13 ∷ 10 ∷ []

-- What chunks put behind a text, and the calls of `read` that deliver them and a last one.
abbrev pub gathered : Bytes → List Bytes → Bytes
gathered so_far [] = so_far
gathered so_far (c ∷ cs) = gathered (so_far ++ c) cs

abbrev pub delivered : List Bytes → Bytes → List (Option Bytes)
delivered [] last = some last ∷ []
delivered (c ∷ cs) last = some c ∷ delivered cs last

-- No chunk ends a line, and there are two bytes from the first on.
abbrev pub Unended : Bytes → List Bytes → Type 0
Unended so_far [] = Unit
Unended so_far (c ∷ cs) =
    (2 ≤ length (so_far ++ c)) × (ends_line (so_far ++ c) ≡ false) × Unended (so_far ++ c) cs

at_behind : (xs ys : Bytes) (i : ℕ) → at (xs ++ ys) (length xs + i) ≡ at ys i
at_behind [] ys i = ap (at ys) (omega arith)
at_behind (x ∷ xs) ys i =
    let e : suc (length xs) + i ≡ suc (length xs + i) = omega arith in
    ap (at (x ∷ xs ++ ys)) e ∙ at_behind xs ys i

ends_line-crlf : (line : Bytes) → ends_line (line ++ crlf) ≡ true
ends_line-crlf line =
    let n : length (line ++ crlf) - 2 ≡ length line + 0 = omega (arith, length-append line crlf) in
    let m : length (line ++ crlf) - 1 ≡ length line + 1 = omega (arith, length-append line crlf) in
    rw (n, m, at_behind line crlf 0, at_behind line crlf 1) refl

length-gathered : (so_far : Bytes) (cs : List Bytes) → length so_far ≤ length (gathered so_far cs)
length-gathered so_far [] = omega arith
length-gathered so_far (c ∷ cs) =
    omega (arith, length-append so_far c, length-gathered (so_far ++ c) cs)

collect-line :
    (line last so_far : Bytes) (chunks : List Bytes)
    → Unended so_far chunks
    → gathered so_far chunks ++ last ≡ line ++ crlf
    → length line + 2 < message_size
    → collect (delivered chunks last) so_far ≡ text (line ++ crlf)
unfolding collect
collect-line line last so_far [] u e fits =
    rw e (ground (arith, ends_line-crlf line, length-append line crlf))
collect-line line last so_far (c ∷ cs) u e fits =
    let whole = so_far ++ c in
    let total : length (gathered whole cs) + length last ≡ length line + 2 =
      omega (
        arith,
        sym (length-append (gathered whole cs) last),
        ap length e,
        length-append line crlf,
      ) in
    ground
      (arith, u.0, u.1, collect-line line last whole cs u.2 e fits, length-gathered whole cs, total)

-- A line with its end that comes in such chunks is what `getMsg` gives.
pub line_lem :
    (line last : Bytes) (chunks : List Bytes)
    → Unended [] chunks
    → gathered [] chunks ++ last ≡ line ++ crlf
    → NoZeros (delivered chunks last)
    → length line + 2 < message_size
    → get_msg (delivered chunks last) 0 (padded []) ≡ text (line ++ crlf)
line_lem line last chunks u e z fits =
    get_msg_lem (delivered chunks last) [] tt z ∙ collect-line line last [] chunks u e fits

pub get_msg-error :
    (calls : List (Option Bytes)) (n : ℕ) (buf : Bytes) → get_msg (none ∷ calls) n buf ≡ error
unfolding get_msg
get_msg-error calls n buf = refl

pub write_length-line :
    (line : Bytes) → length line + 2 < message_size → write_length (line ++ crlf) ≡ length line + 1
write_length-line line fits = omega (arith, length-append line crlf)
