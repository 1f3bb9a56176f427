-- ===== src/Proxy/Sent.antt =====
-- include/tcpClient.hpp: `connectToServer`, and include/tcpServer.hpp: what a new connection is sent.
use home_keeper.Prelude.{
  ℕ, ◌+◌, ◌-◌, ◌<◌, List, [], ◌∷◌, ◌++◌, Option, none, some, ◌≡◌, ap, ◌∙◌, if◌then◌else◌, length,
  replicate, Bytes, ℤ, pos, negsuc, eq_ℤ,
}
use home_keeper.Prelude.{◌^◌}
use home_keeper.Proxy.Greeting.{
  Result, text, error, reading, outside, get_msg, write_length, message_size, Unended, gathered,
  crlf, NoZeros, delivered, line_lem, get_msg-error, write_length-line, padded,
}

-- `connectToServer`, by what `socket` and `connect` return.
abbrev pub connect_to_server : ℤ → ℤ → ℤ
connect_to_server socket connect =
    if eq_ℤ socket (negsuc 0) then negsuc 0 else if eq_ℤ connect (negsuc 0) then negsuc 0 else pos 0

-- What `getMsg` leaves in the string of the server, which does not look at its result: `none` where
-- it does not return or leaves its buffer.
abbrev pub message_out : Result → Option Bytes
message_out (text bytes) = some bytes
message_out error = some []
message_out reading = none
message_out outside = none

abbrev answered : Option Bytes → Option (Bytes × ℕ)
answered none = none
answered (some m) = some (m, write_length m)

-- The greeting of a connection: the string and the length that are given to `write`. Where the
-- client has no connection, `read` returns -1 at once.
pub greeting : ℤ → ℤ → List (Option Bytes) → Option (Bytes × ℕ)
greeting socket connect calls =
    let got = if eq_ℤ (connect_to_server socket connect) (pos 0) then calls else none ∷ [] in
    answered (message_out (get_msg got 0 (replicate message_size 0)))

-- A line of the server that ends in CR and LF, fits the buffer, has no zero, and comes in calls of
-- `read` of which the first gives two bytes or more and none but the last ends a line: the connection
-- is sent the line and the CR, but not the LF. Where the client is not connected, `write` is given an
-- empty string and the length 2 ^ 64 - 1.
pub greeting_lem :
    (line last : Bytes) (chunks : List Bytes) (socket : ℕ)
    → Unended [] chunks
    → gathered [] chunks ++ last ≡ line ++ crlf
    → NoZeros (delivered chunks last)
    → length line + 2 < message_size
    → greeting (pos socket) (pos 0) (delivered chunks last) ≡ some (line ++ crlf, length line + 1)
      × greeting (pos socket) (negsuc 0) (delivered chunks last) ≡ some ([], 2 ^ 64 - 1)
unfolding greeting
greeting_lem line last chunks socket u e z fits = (
  ap (λ r. answered (message_out r)) (line_lem line last chunks u e z fits)
      ∙ ap (λ n. some (line ++ crlf, n)) (write_length-line line fits),
  ap (λ r. answered (message_out r)) (get_msg-error [] 0 (padded [])),
)
