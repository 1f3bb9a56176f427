-- ===== src/HmLog/Output/Lines.antt =====
-- include/hmLog.hpp: the lines of records whose level is one of the five.
use home_keeper.Prelude.{
  ℕ, zero, suc, ◌+◌, ◌-◌, ◌<◌, ◌≤◌, List, [], ◌∷◌, ◌++◌, append_assoc, none, some, ◌≡◌, refl, sym,
  ap, ◌∙◌, arith, length, length-append, take, length-take, Bytes, codes, c_str, print_into, NoZero,
  c_str-NoZero, NoZero-c_str,
}
use home_keeper.Prelude.{NoZero-append, take_below, print_into-NoZero}
use home_keeper.File.{History}
use home_keeper.File.Contents.{added}
use home_keeper.HmLog.{LogT, Entry, log_in, Step, inserts, prints, wakes}
use home_keeper.HmLog.Output.{log_str, line_of, tem_buf}

-- A record that `insertLog` makes at one of the five levels.
pub record Fits (log : LogT) : Type 0 where
  pub level : log.level ≤ 4
  pub time : (length log.time < 255) × NoZero log.time
  pub msg : (length log.msg < 10240) × NoZero log.msg

-- Every entry has one of the five levels.
abbrev pub Leveled : List Step → Type 0
Leveled [] = Unit
Leveled (inserts e ∷ steps) = (e.level ≤ 4) × Leveled steps
Leveled (prints ∷ steps) = Leveled steps
Leveled (wakes ∷ steps) = Leveled steps

-- The line of a record.
abbrev pub line : LogT → Bytes
line log = line_of (elim (log_str log.level) [ none ↦ [] | some name ↦ name ]) log

print_into-short : (size : ℕ) (s : Bytes) → 0 < size → length (print_into size s) < size
print_into-short size s l = omega (arith, length-take (size - 1) (c_str s))

pub log_in-Fits : (e : Entry) → e.level ≤ 4 → Fits (log_in e)
log_in-Fits e l = record {
  level = l;
  time = (print_into-short 255 e.time (omega arith), print_into-NoZero 255 e.time);
  msg = (
    print_into-short 10240 (e.head ++ e.text) (omega arith),
    print_into-NoZero 10240 (e.head ++ e.text),
  );
}

-- The five names are short.
log_str_lem :
    (level : ℕ)
    → level ≤ 4
    → (name : Bytes) × (log_str level ≡ some name) × (length name ≤ 5) × NoZero name
log_str_lem zero l = (codes "debug", refl, omega arith, NoZero-c_str (codes "debug"))
log_str_lem (suc zero) l = (codes "info", refl, omega arith, NoZero-c_str (codes "info"))
log_str_lem (suc (suc zero)) l = (codes "warn", refl, omega arith, NoZero-c_str (codes "warn"))
log_str_lem (suc (suc (suc zero))) l =
    (codes "error", refl, omega arith, NoZero-c_str (codes "error"))
log_str_lem (suc (suc (suc (suc zero)))) l =
    (codes "fatal", refl, omega arith, NoZero-c_str (codes "fatal"))
log_str_lem (suc (suc (suc (suc (suc n))))) l = absurd (omega arith)

NoZero-line_of : (name : Bytes) (log : LogT) → NoZero name → Fits log → NoZero (line_of name log)
NoZero-line_of name log z f =
    let colon : NoZero (codes ":") = (omega arith, tt) in
    let s1 = name ++ codes ":" in
    let s2 = s1 ++ log.time in
    let s3 = s2 ++ codes ":" in
    let z1 : NoZero s1 = NoZero-append name (codes ":") z colon in
    let z2 : NoZero s2 = NoZero-append s1 log.time z1 f.time.1 in
    let z3 : NoZero s3 = NoZero-append s2 (codes ":") z2 colon in
    NoZero-append (s3 ++ log.msg) (10 ∷ []) (NoZero-append s3 log.msg z3 f.msg.1) (omega arith, tt)

length-line_of :
    (name : Bytes) (log : LogT) → length name ≤ 5 → Fits log → length (line_of name log) ≤ 10501
length-line_of name log l f =
    let s1 = name ++ codes ":" in
    let s2 = s1 ++ log.time in
    let s3 = s2 ++ codes ":" in
    let l1 : length s1 ≡ length name + 1 = length-append name (codes ":") in
    let l3 : length s3 ≡ length s2 + 1 = length-append s2 (codes ":") in
    let whole : length (line_of name log) ≡ length (s3 ++ log.msg) + 1 =
      length-append (s3 ++ log.msg) (10 ∷ []) in
    omega (
      arith,
      l,
      f.time.0,
      f.msg.0,
      l1,
      length-append s1 log.time,
      l3,
      length-append s3 log.msg,
      whole,
    )

pub tem_buf_whole :
    (log : LogT)
    → Fits log
    → (tem_buf log ≡ some (line log)) × (length (line log) ≤ 10501) × NoZero (line log)
unfolding tem_buf
tem_buf_whole log f =
    let (name, e, l, z) = log_str_lem log.level f.level in
    let short = length-line_of name log l f in
    let no_zero = NoZero-line_of name log z f in
    rw (e, tem_buf)
      (
        ap some (
            ap (take 11239) (c_str-NoZero (line_of name log) no_zero)
            ∙ take_below 11239 (line_of name log) (omega (arith, short))),
        short,
        no_zero,
      )

-- The line of a record that `insertLog` makes at one of the five levels is never cut: it has at most
-- 10501 bytes and no zero, and `temBuf`, of 11240, takes it whole.
pub tem_buf_lem :
    (e : Entry)
    → e.level ≤ 4
    → (tem_buf (log_in e) ≡ some (line (log_in e)))
      × (length (line (log_in e)) ≤ 10501)
      × NoZero (line (log_in e))
tem_buf_lem e l = tem_buf_whole (log_in e) (log_in-Fits e l)

-- Records with the day on which each was written.
abbrev pub Dated : Type 0
Dated = List (Bytes × LogT)

abbrev pub records : Dated → List LogT
records [] = []
records ((day, log) ∷ ds) = log ∷ records ds

-- The lines of those records whose day has the file of a path.
abbrev pub filed : (Bytes → Bytes) → Dated → Bytes → Bytes
filed path_on [] q = []
filed path_on ((day, log) ∷ ds) q = added (path_on day) (line log) q ++ filed path_on ds q

-- Every day is one that the clock shows.
abbrev pub Shown : (History → Bytes) → Dated → Type 0
Shown clock [] = Unit
Shown clock ((day, log) ∷ ds) = ((h : History) × (clock h ≡ day)) × Shown clock ds

pub records-append : (xs ys : Dated) → records (xs ++ ys) ≡ records xs ++ records ys
records-append [] ys = refl
records-append ((day, log) ∷ xs) ys = ap (◌∷◌ log) (records-append xs ys)

pub filed-append :
    (path_on : Bytes → Bytes) (xs ys : Dated) (q : Bytes)
    → filed path_on (xs ++ ys) q ≡ filed path_on xs q ++ filed path_on ys q
filed-append path_on [] ys q = refl
filed-append path_on ((day, log) ∷ xs) ys q =
    ap (λ t. added (path_on day) (line log) q ++ t) (filed-append path_on xs ys q)
    ∙ sym
        (append_assoc (added (path_on day) (line log) q) (filed path_on xs q) (filed path_on ys q))

pub Shown-append :
    (clock : History → Bytes) (xs ys : Dated)
    → Shown clock xs
    → Shown clock ys
    → Shown clock (xs ++ ys)
Shown-append clock [] ys a b = b
Shown-append clock ((day, log) ∷ xs) ys (d, a) b = (d, Shown-append clock xs ys a b)
