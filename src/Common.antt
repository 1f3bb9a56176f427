-- ===== src/Common.antt =====
-- common/common.cpp: `getfile`, and the named pipe `U::pipe` by the results of the calls it makes.
use home_keeper.Prelude.{
  ℕ, ◌+◌, Bool, true, false, not, ◌&&◌, [], ◌∷◌, ◌++◌, append-nil, append_assoc, Option, none, some,
  ◌≡◌, ◌≢◌, ltb, ◌==◌, if◌then◌else◌, arith, length, length-append, Bytes, c_str, NoZero,
  c_str-NoZero, All-append, ℤ, pos, negsuc, eq_ℤ, is_negative,
}

-- The array of 256 bytes that `getline` may fill with up to 10000.
abbrev pub buffer_size : ℕ
buffer_size = 256

-- The loop over the lines, behind the characters of a line so far; `none` is a write behind the
-- array. What is appended is the line up to its first zero.
pub get_lines : Bytes → Bytes → Bytes → Option Bytes
get_lines [] line result =
    if ltb (length line) buffer_size then some (result ++ c_str line) else none
get_lines (c ∷ text) line result =
    let next = get_lines text [] (result ++ c_str line) in
    let longer = get_lines text (line ++ c ∷ []) result in
    if c == 10 then if ltb (length line) buffer_size then next else none else longer

-- `getfile`, by the text of the file if it opens: the return value and `result`.
pub get_file : Option Bytes → Bytes → Option (ℤ × Bytes)
get_file none result = some (negsuc 0, result)
get_file (some text) result = elim (get_lines text [] result) [
  | none ↦ none
  | some whole ↦ some (pos 0, whole)
]

-- The members of a pipe; -1 is a descriptor that is not open.
pub record Pipe : Type 0 where
  pub fd : ℤ
  pub fifo : Bytes
  pub owner : Bool

-- What the constructor meets: the result of `open` and its error number, that of `mkfifo`, and that
-- of the second `open`.
pub record Opening : Type 0 where
  pub first : ℤ
  pub errno : ℕ
  pub mkfifo : ℤ
  pub second : ℤ

-- The constructor
pub new_pipe : Opening → Bytes → Pipe
new_pipe o name =
    let opened : Pipe = record { fd = o.first; fifo = name; owner = false } in
    if is_negative o.first && o.errno == 2
    then if eq_ℤ o.mkfifo (negsuc 0) then opened else record opened { fd = o.second; owner = true }
    else opened

-- What the destructor removes.
pub end_pipe : Pipe → Option Bytes
end_pipe p = if p.owner then some p.fifo else none

-- `senMsg` by the result of `write`.
pub sen_msg : ℤ → ℤ
sen_msg written = if is_negative written then negsuc 0 else pos 0

-- The text without its line ends, and whether every line fits, behind `n` characters of a line.
abbrev pub without_ends : Bytes → Bytes
without_ends [] = []
without_ends (c ∷ text) = if c == 10 then without_ends text else c ∷ without_ends text

abbrev pub lines_fit : Bytes → ℕ → Bool
lines_fit [] n = ltb n buffer_size
lines_fit (c ∷ text) n =
    if c == 10 then ltb n buffer_size && lines_fit text 0 else lines_fit text (n + 1)

get_lines_lem :
    (text line result : Bytes)
    → NoZero text
    → NoZero line
    → get_lines text line result ≡ (
        if lines_fit text (length line) then some (result ++ (line ++ without_ends text)) else none)
unfolding get_lines
get_lines_lem [] line result z h = ground (arith, c_str-NoZero line h, append-nil line)
get_lines_lem (c ∷ text) line result z h =
    let one : NoZero (c ∷ []) = (z.0, tt) in
    let longer : NoZero (line ++ c ∷ []) = All-append (λ b. b ≢ 0) line (c ∷ []) h one in
    ground (
      arith,
      c_str-NoZero line h,
      length-append line (c ∷ []),
      get_lines_lem text [] (result ++ line) z.1 tt,
      get_lines_lem text (line ++ c ∷ []) result z.1 longer,
      append_assoc result line (without_ends text),
      append_assoc line (c ∷ []) (without_ends text),
    )

-- `getfile` of a file that opens and holds no zero byte appends the text without its line ends, if
-- every line has fewer than 256 characters, and writes behind its array otherwise.
pub get_file_lem :
    (text result : Bytes)
    → NoZero text
    → get_file (some text) result
      ≡ (if lines_fit text 0 then some (pos 0, result ++ without_ends text) else none)
unfolding get_file
get_file_lem text result z = ground (arith, get_lines_lem text [] result z tt)

-- The destructor removes the pipe's file exactly if the constructor made it.
pub end_pipe-new_pipe :
    (o : Opening) (name : Bytes)
    → end_pipe (new_pipe o name) ≡ (
        if is_negative o.first && (o.errno == 2 && not (eq_ℤ o.mkfifo (negsuc 0)))
        then some name
        else none)
unfolding end_pipe new_pipe
end_pipe-new_pipe o name = ground arith
