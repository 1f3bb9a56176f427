-- ===== src/Frame/Message.antt =====
-- include/common.h and frame/tools.cpp: the message `internal_msg_t` as the bytes that go through the
-- pipe, and how frame/master.cpp reads them.
use native.Mathlib.Nat.{zero-add}
use home_keeper.Prelude.{
  ℕ, zero, suc, ◌+◌, ◌-◌, ◌*◌, ◌/◌, ◌%◌, ◌^◌, ◌<◌, ◌≤◌, [], ◌∷◌, ◌++◌, append_assoc, Option, none,
  some, ◌≡◌, refl, ap, ◌∙◌, arith, length, length-append, take, drop, replicate, length-drop,
  length-take, get_or, Bytes, codes, c_str, print_into, c_str-print_into,
}

-- The bytes of a `char` array of 512 after `snprintf`: the text, a zero, and what stood there.
unfoldable pub array_512 : Bytes → Bytes → Bytes
array_512 text old =
    let t = print_into 512 text in t ++ 0 ∷ drop (length t + 1) (take 512 (old ++ replicate 512 0))

-- An `int` in memory, the lowest byte first.
unfoldable pub int_bytes : ℕ → Bytes
int_bytes n = n % 256 ∷ n / 256 % 256 ∷ n / 65536 % 256 ∷ n / 16777216 % 256 ∷ []

-- The fields of the message in their order. The members that `tools` does not set keep the bytes
-- `old` that stood in memory.
unfoldable pub message_bytes : Bytes → Bytes → Bytes → ℕ → (ℕ → Bytes) → Bytes
unfolding array_512 int_bytes
message_bytes src dest msg type old =
    array_512 src (old 0)
    ++ (array_512 dest (old 1)
        ++ (array_512 msg (old 2)
            ++ (take 512 (old 3 ++ replicate 512 0)
                ++ (take 512 (old 4 ++ replicate 512 0) ++ int_bytes type))))

-- `main` of frame/tools.cpp: the message in a zeroed buffer of 10240 bytes; the first argument is
-- the value of `atoi (argv[1])` as a 32-bit word. With no fourth argument `none`: `argv[3]` is a
-- null pointer that `snprintf` reads, though the test `argc < 3` lets it pass.
pub tools : ℕ → Bytes → Option Bytes → (ℕ → Bytes) → Option Bytes
unfolding message_bytes
tools type dest none old = none
tools type dest (some msg) old =
    let m = message_bytes (codes "tools") dest msg type old in
    some (m ++ replicate (10240 - length m) 0)

-- `msg->msg` and `msg->type` of the buffer that `read` filled.
unfoldable pub msg_of : Bytes → Bytes
msg_of buf = c_str (drop 1024 buf)

abbrev pub byte_at : Bytes → ℕ → ℕ
byte_at buf i = get_or (drop i buf) 0 0

unfoldable pub type_of : Bytes → ℕ
type_of buf =
    byte_at buf 2560
    + byte_at buf 2561 * 256
    + byte_at buf 2562 * 65536
    + byte_at buf 2563 * 16777216

length-replicate_ℕ : (n : ℕ) → length (replicate {A = ℕ} n 0) ≡ n
length-replicate_ℕ zero = refl
length-replicate_ℕ (suc n) = ap suc (length-replicate_ℕ n)

length-old : (old : Bytes) → length (take 512 (old ++ replicate 512 0)) ≡ 512
length-old old =
    length-take 512 _ ∙ omega (arith, length-append old (replicate 512 0), length-replicate_ℕ 512)

length-print_into : (s : Bytes) → length (print_into 512 s) ≤ 511
length-print_into s = omega (arith, length-take 511 (c_str s))

length-array_512 : (s old : Bytes) → length (array_512 s old) ≡ 512
unfolding array_512
length-array_512 s old = omega (
  arith,
  length-append (print_into 512 s)
      (0 ∷ drop (length (print_into 512 s) + 1) (take 512 (old ++ replicate 512 0))),
  length-drop (length (print_into 512 s) + 1) (take 512 (old ++ replicate 512 0)),
  length-old old,
  length-print_into s,
)

drop_past : (n m : ℕ) (xs ys : Bytes) → length xs ≡ n → drop (n + m) (xs ++ ys) ≡ drop m ys
drop_past zero m [] ys e = rw zero-add
drop_past zero m (x ∷ xs) ys e = absurd (omega arith)
drop_past (suc n) m [] ys e = absurd (omega arith)
drop_past (suc n) m (x ∷ xs) ys e =
    let shifted : suc n + m ≡ suc (n + m) = omega arith in
    rw shifted (drop_past n m xs ys (omega arith))

c_str-array_512 : (s old rest : Bytes) → c_str (array_512 s old ++ rest) ≡ print_into 512 s
unfolding array_512
c_str-array_512 s old rest =
    ap c_str (append_assoc (print_into 512 s) _ rest) ∙ c_str-print_into 512 s _

module _ (src dest msg : Bytes) (type : ℕ) (old : ℕ → Bytes) (pad : Bytes) where
  abbrev old_3 : Bytes
  old_3 = take 512 (old 3 ++ replicate 512 0)

  abbrev old_4 : Bytes
  old_4 = take 512 (old 4 ++ replicate 512 0)

  -- The message up to its type.
  abbrev fields : Bytes
  fields =
      array_512 src (old 0)
      ++ (array_512 dest (old 1) ++ (array_512 msg (old 2) ++ (old_3 ++ old_4)))

  message_bytes-fields :
      message_bytes src dest msg type old ++ pad ≡ fields ++ (int_bytes type ++ pad)
  unfolding message_bytes
  message_bytes-fields = simp append_assoc

  length-fields : length fields ≡ 2560
  length-fields = omega (
    arith,
    length-append (array_512 src (old 0))
        (array_512 dest (old 1) ++ (array_512 msg (old 2) ++ (old_3 ++ old_4))),
    length-append (array_512 dest (old 1)) (array_512 msg (old 2) ++ (old_3 ++ old_4)),
    length-append (array_512 msg (old 2)) (old_3 ++ old_4),
    length-append old_3 old_4,
    length-array_512 src (old 0),
    length-array_512 dest (old 1),
    length-array_512 msg (old 2),
    length-old (old 3),
    length-old (old 4),
  )

  byte_at-message :
      (k : ℕ)
      → byte_at (message_bytes src dest msg type old ++ pad) (2560 + k)
        ≡ byte_at (int_bytes type ++ pad) k
  byte_at-message k =
      rw message_bytes-fields
        (ap (λ bs. get_or bs 0 0) (drop_past 2560 k fields (int_bytes type ++ pad) length-fields))

  type_of-message : type < 2 ^ 32 → type_of (message_bytes src dest msg type old ++ pad) ≡ type
  unfolding type_of int_bytes
  type_of-message h =
      omega (arith, byte_at-message 0, byte_at-message 1, byte_at-message 2, byte_at-message 3)

  abbrev behind : Bytes
  behind = old_3 ++ (old_4 ++ (int_bytes type ++ pad))

  message_bytes-parts :
      message_bytes src dest msg type old ++ pad
      ≡ array_512 src (old 0) ++ (array_512 dest (old 1) ++ (array_512 msg (old 2) ++ behind))
  unfolding message_bytes
  message_bytes-parts = simp append_assoc

  msg_of-message : msg_of (message_bytes src dest msg type old ++ pad) ≡ print_into 512 msg
  unfolding msg_of
  msg_of-message = rw message_bytes-parts (
      ap c_str (
        drop_past 512 512 (array_512 src (old 0))
          (array_512 dest (old 1) ++ (array_512 msg (old 2) ++ behind))
          (length-array_512 src (old 0))
        ∙ drop_past 512 0 (array_512 dest (old 1)) (array_512 msg (old 2) ++ behind)
            (length-array_512 dest (old 1)))
      ∙ c_str-array_512 msg (old 2) behind)

-- Of a type below 2 ^ 32, the master reads from the buffer that `tools` writes the type and the text
-- that `tools` was given, whatever stood in memory before: the text up to its first zero and cut to
-- 511 bytes.
pub tools-message :
    (type : ℕ) (dest msg : Bytes) (old : ℕ → Bytes)
    → type < 2 ^ 32
    → (buf : Bytes) × (tools type dest (some msg) old ≡ some buf)
      × (type_of buf ≡ type)
      × (msg_of buf ≡ print_into 512 msg)
unfolding tools
tools-message type dest msg old h =
    let m = message_bytes (codes "tools") dest msg type old in
    let pad = replicate (10240 - length m) 0 in
    (
      m ++ pad,
      refl,
      type_of-message (codes "tools") dest msg type old pad h,
      msg_of-message (codes "tools") dest msg type old pad,
    )
