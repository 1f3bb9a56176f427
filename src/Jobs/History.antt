-- ===== src/Jobs/History.antt =====
-- homeKeeper/workFunctions.hpp: the table of the addresses over time, when `getIp` is the only thread
-- that inserts and `sendEmail` marks rows at any moment. The server is a parameter.
use home_keeper.Prelude.{
  ℕ, zero, suc, ◌<◌, true, not, List, [], ◌∷◌, ◌++◌, append_assoc, Option, none, some, ◌≡◌, ◌≢◌,
  inl, inr, refl, sym, ap, ◌∙◌, ◌==◌, if◌then◌else◌, Bool-cases, arith, length, Bytes, c_str,
  print_into, NoZero, c_str-append_zero, take_below, c_str-NoZero, bytes_eq, bytes_eq_refl, All, ℤ,
  pos, eq_ℤ, success,
}
use home_keeper.Tables.IpInfo.{Row, Query, read_row, seen}
use home_keeper.Curl.{Transfer, curl_util, curl_util_lem, IsAddressChar}
use home_keeper.Jobs.GetIp.{
  Round, State, get_ip_round, get_ip_round_lem, looked_at, is_new, drained-get_ip_round,
}

-- A row of the table `ipInfo`.
pub record Stored : Type 0 where
  pub rec_id : ℕ
  pub ip : Bytes
  pub flag : ℕ

abbrev pub mark : ℕ → List Stored → List Stored
mark id [] = []
mark id (s ∷ rows) = (if s.rec_id == id then record s { flag = b'1' } else s) ∷ mark id rows

-- The server: the rows of the table, those with a larger `rec_id` first, and what the insert and the
-- update of include/tblIpInfo.hpp do to them.
pub record Server : Type 1 where
  pub Db : Type 0
  pub rows : Db → List Stored
  pub insert_row : Bytes → Db → Db
  pub mark_row : ℕ → Db → Db
  pub next_id : Db → ℕ
  pub rows_insert :
      (ip : Bytes) (d : Db)
      → rows (insert_row ip d) ≡ record { rec_id = next_id d; ip = ip; flag = b'0' } ∷ rows d
  pub rows_mark : (id : ℕ) (d : Db) → rows (mark_row id d) ≡ mark id (rows d)

-- A stored text stands in its buffer with a zero behind it.
abbrev pub row_of : Stored → Row
row_of s = record { number = s.rec_id; address = s.ip ++ 0 ∷ []; flag = s.flag }

abbrev pub newest : List Stored → List Row
newest [] = []
newest (s ∷ rows) = row_of s ∷ []

-- The select of the newest row, when it runs through.
abbrev pub query_of : List Stored → Query
query_of rows = record { execute = success; store = success; rows = newest rows; last = pos 100 }

abbrev pub ips : List Stored → List Bytes
ips [] = []
ips (s ∷ rows) = s.ip ∷ ips rows

pub ips-mark : (id : ℕ) (rows : List Stored) → ips (mark id rows) ≡ ips rows
ips-mark id [] = refl
ips-mark id (s ∷ rows) = ground (arith, ips-mark id rows)

-- No two rows that follow one another hold the same address.
abbrev pub Alternates : List Bytes → Type 0
Alternates [] = Unit
Alternates (ip ∷ []) = Unit
Alternates (ip ∷ next ∷ more) = (ip ≢ next) × Alternates (next ∷ more)

-- What happens to the table: a round of `getIp`, with the rows that `sendEmail` marks between its
-- select and its insert, or a mark between two rounds.
pub data Event : Type 0 where
  asks : Transfer → ℤ → List ℕ → Event
  marks : ℕ → Event

IsAddressChar-NoZero : (s : Bytes) → All IsAddressChar s → NoZero s
IsAddressChar-NoZero [] h = tt
IsAddressChar-NoZero (zero ∷ s) h = cc (h.0)
IsAddressChar-NoZero (suc c ∷ s) h = (omega arith, IsAddressChar-NoZero s h.1)

-- The text of the newest row is read back.
read-row_of : (insert : Bytes) (s : Stored) → NoZero s.ip → (read_row insert (row_of s)).ip ≡ s.ip
unfolding read_row
read-row_of insert s h =
    ap c_str (append_assoc s.ip (0 ∷ []) (s.flag ∷ (insert ++ 0 ∷ [])))
    ∙ c_str-append_zero s.ip (s.flag ∷ (insert ++ 0 ∷ [])) h

not-bytes_eq_self : (ip : Bytes) → not (bytes_eq ip ip) ≡ true → ⊥
not-bytes_eq_self ip h = cc (bytes_eq_refl ip)

-- An address that the round finds new differs from the one in the newest row.
pub Alternates-cons :
    (stored : List Stored) (insert ip : Bytes)
    → All NoZero (ips stored)
    → is_new (seen insert (newest stored)) ip ≡ true
    → Alternates (ips stored)
    → Alternates (ip ∷ ips stored)
Alternates-cons [] insert ip t h a = tt
Alternates-cons (s ∷ stored) insert ip t h a =
    let h' : not (bytes_eq s.ip ip) ≡ true = rw (read-row_of insert s t.0) at h in
    ((λ e. not-bytes_eq_self ip (rw (← e) at h')), a)

pub print_into-fits : (ip : Bytes) → NoZero ip → length ip < 100 → print_into 100 ip ≡ ip
print_into-fits ip h l = rw (c_str-NoZero ip h) (take_below 99 ip (omega arith))

pub curl_util-NoZero : (t : Transfer) (result : Bytes) → NoZero (curl_util t result).0
curl_util-NoZero t result = elim (curl_util_lem t result) [
  | inl e ↦ rw e (omega arith)
  | inr h ↦ IsAddressChar-NoZero _ h
]

module _ (server : Server) where
  open server use {Db, rows, insert_row, mark_row, next_id, rows_insert, rows_mark}

  abbrev mark_all : List ℕ → Db → Db
  mark_all [] d = d
  mark_all (id ∷ ids) d = mark_all ids (mark_row id d)

  -- The insert stores the text that `insertToDb` left in the buffer of 100 bytes.
  abbrev pub apply_insert : Option Bytes → ℤ → Db → Db
  apply_insert none ret d = d
  apply_insert (some ip) ret d = if eq_ℤ ret success then insert_row (print_into 100 ip) d else d

  abbrev pub round_of : Transfer → ℤ → Db → Round
  round_of t ret d = record { transfer = t; query = query_of (rows d); insertion = ret }

  pub step : Event → Db × State → Db × State
  step (asks t ret ids) (d, s) = (
    apply_insert (get_ip_round (round_of t ret d) s).1 ret (mark_all ids d),
    (get_ip_round (round_of t ret d) s).0,
  )
  step (marks id) (d, s) = (mark_row id d, s)

  pub run : List Event → Db × State → Db × State
  unfolding step
  run [] x = x
  run (e ∷ es) x = run es (step e x)

  pub record IsConsistent (x : Db × State) : Type 0 where
    pub changes : Alternates (ips (rows x.0))
    pub texts : All NoZero (ips (rows x.0))
    pub drained : x.1.table.ip_infos ≡ []

  ips-mark_all : (ids : List ℕ) (d : Db) → ips (rows (mark_all ids d)) ≡ ips (rows d)
  ips-mark_all [] d = refl
  ips-mark_all (id ∷ ids) d =
      ips-mark_all ids (mark_row id d) ∙ rw (rows_mark id d) (ips-mark id (rows d))

  -- The addresses of a round fit into the buffer of the insert.
  abbrev pub Fits : Event → Type 0
  Fits (asks t ret ids) = (result : Bytes) → length (curl_util t result).0 < 100
  Fits (marks id) = Unit

  -- What the round inserts, if anything.
  pub inserted_lem :
      (t : Transfer) (ret : ℤ) (d : Db) (s : State) (ip : Bytes)
      → (get_ip_round (round_of t ret d) s).1 ≡ some ip
      → (ip ≡ (curl_util t s.result).0) × (is_new (looked_at (query_of (rows d)) s.table) ip ≡ true)
  inserted_lem t ret d s ip e =
      let same = sym (get_ip_round_lem (round_of t ret d) s) ∙ e in (ground arith, ground arith)

  asks-IsConsistent :
      (t : Transfer) (ret : ℤ) (ids : List ℕ) (d : Db) (s : State) {o : Option Bytes}
      → (get_ip_round (round_of t ret d) s).1 ≡ o
      → Fits (asks t ret ids)
      → IsConsistent (d, s)
      → Alternates (ips (rows (apply_insert o ret (mark_all ids d))))
        × All NoZero (ips (rows (apply_insert o ret (mark_all ids d))))
  asks-IsConsistent t ret ids d s {o = none} e f c = rw (ips-mark_all ids d) (c.changes, c.texts)
  asks-IsConsistent t ret ids d s {o = some ip} e f c = elim (Bool-cases (eq_ℤ ret success)) [
    | inr refused ↦ rw (refused, ips-mark_all ids d) (c.changes, c.texts)
    | inl done ↦
        let (given, fresh) = inserted_lem t ret d s ip e in
        let text : NoZero ip = rw given (curl_util-NoZero t s.result) in
        let fits : print_into 100 ip ≡ ip = print_into-fits ip text (rw given (f s.result)) in
        rw (done, fits, rows_insert ip (mark_all ids d), ips-mark_all ids d)
          (
            Alternates-cons (rows d) s.table.ip_insert ip c.texts (rw c.drained at fresh) c.changes,
            (text, c.texts),
          )
  ]

  step-IsConsistent :
      (e : Event) (x : Db × State) → Fits e → IsConsistent x → IsConsistent (step e x)
  unfolding step
  step-IsConsistent (asks t ret ids) (d, s) f c =
      let (a, b) = asks-IsConsistent t ret ids d s refl f c in
      record {
        changes = a;
        texts = b;
        drained = drained-get_ip_round (round_of t ret d) s refl c.drained;
      }
  step-IsConsistent (marks id) (d, s) f c = record {
    changes = rw (rows_mark id d, ips-mark id (rows d)) c.changes;
    texts = rw (rows_mark id d, ips-mark id (rows d)) c.texts;
    drained = c.drained;
  }

  -- Over any history of rounds of `getIp`, of failed transfers and failed inserts, and of rows
  -- marked by `sendEmail` at any moment, no two rows that follow one another hold the same address:
  -- `getIp` records changes of the address only, if every address fits into its buffer, the table
  -- is consistent at the start and the server inserts and marks rows as the statements say.
  pub run-IsConsistent :
      (es : List Event) (x : Db × State) → All Fits es → IsConsistent x → IsConsistent (run es x)
  unfolding run
  run-IsConsistent [] x f c = c
  run-IsConsistent (e ∷ es) x f c = run-IsConsistent es (step e x) f.1 (step-IsConsistent e x f.0 c)
