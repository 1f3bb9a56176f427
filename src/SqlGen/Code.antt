-- ===== src/SqlGen/Code.antt =====
-- sqlGenerate/sqlGen.cpp: the code that binds the fields, and `main`. The database, the printing of a
-- number and the result of the write are parameters.
use home_keeper.Prelude.{
  ℕ, zero, suc, ◌+◌, Bool, not, List, [], ◌∷◌, ◌++◌, append-nil, append_assoc, Option, none, some,
  ◌≡◌, refl, sym, ap, ◌∙◌, ltb, if◌then◌else◌, arith, length, get_elem?, Bytes, codes, print_into,
  bytes_eq, ℤ, pos, eq_ℤ,
}
use home_keeper.SqlGen.{FieldT, fields_of, gen_sql}

-- The three lines that bind a field, each through `char buf[512]`.
pub bind_lines : (ℕ → Bytes) → Bytes → ℕ → FieldT → Bytes
bind_lines shown struct_name i info =
    let head = codes "    params[" ++ shown i in
    let member = struct_name ++ codes "." ++ info.name in
    if bytes_eq info.type (codes "varchar")
    then print_into 512 (head ++ codes "].buffer_type = MYSQL_TYPE_STRING;\n")
      ++ print_into 512 (head ++ codes "].buffer = " ++ member ++ codes ";\n")
      ++ print_into 512 (head ++ codes "].buffer_length = sizeof(" ++ member ++ codes ");\n")
      ++ codes "\n"
    else []

-- The loop, in its last `rounds` rounds; `none` where it reads behind the vector.
pub code_loop : (ℕ → Bytes) → Bytes → List FieldT → ℕ → ℕ → Bytes → Option Bytes
code_loop shown struct_name fields zero i file_code = some file_code
code_loop shown struct_name fields (suc rounds) i file_code = elim (get_elem? fields i) [
  | none ↦ none
  | some info ↦
      code_loop shown struct_name fields rounds (i + 1)
        (file_code ++ bind_lines shown struct_name i info)
]

-- `fileCode`: `i` runs from 0 to the number of the fields.
pub gen_code : (ℕ → Bytes) → Bytes → List FieldT → Option Bytes
gen_code shown struct_name fields =
    code_loop shown struct_name fields (length fields + 1) 0
      (codes "    memset(params, 0, sizeof(params));\n")

-- What `main` meets: whether the connection is made, the result of the query, and the rows, each
-- with its name and its type.
pub record Answers : Type 0 where
  pub connects : Bool
  pub query : ℤ
  pub rows : List (Bytes × Bytes)

-- How `main` ends: before the statement, with the text for the file, or outside the vector.
pub data Ended : Type 0 where
  no_argument no_connection no_description : Ended
  generated : Bytes → Bytes → Ended
  outside : Bytes → Ended

-- The statement that describes the table.
abbrev pub describe : Bytes → Bytes
describe table_name = codes "desc " ++ table_name

-- `main`, from the number of its arguments: the statement that it sends, if any, and its end. The
-- names of the table and of the struct are never set.
pub sql_main : (ℕ → Bytes) → ℕ → Answers → Option Bytes × Ended
sql_main shown argc a =
    let table_name : Bytes = [] in
    let struct_name : Bytes = [] in
    let fields = fields_of a.rows [] in
    if ltb argc 2
    then (none, no_argument)
    else if not a.connects
    then (none, no_connection)
    else if not (eq_ℤ a.query (pos 0))
    then (some (describe table_name), no_description)
    else (
      some (describe table_name),
      elim (gen_code shown struct_name fields) [
        | none ↦ outside (gen_sql fields table_name)
        | some file_code ↦ generated (gen_sql fields table_name) file_code
      ],
    )

-- The code of a run of fields.
abbrev pub bound_from : (ℕ → Bytes) → Bytes → ℕ → List FieldT → Bytes
bound_from shown struct_name i [] = []
bound_from shown struct_name i (info ∷ fields) =
    bind_lines shown struct_name i info ++ bound_from shown struct_name (i + 1) fields

get_elem?-length : (fields : List FieldT) → get_elem? fields (length fields) ≡ none
get_elem?-length [] = refl
get_elem?-length (x ∷ fields) = get_elem?-length fields

-- The rounds of the fields that stand from an index on.
code_loop_lem :
    (shown : ℕ → Bytes) (struct_name : Bytes) (whole fields : List FieldT) (extra i : ℕ)
    (code : Bytes)
    → ((k : ℕ) → get_elem? whole (i + k) ≡ get_elem? fields k)
    → code_loop shown struct_name whole (length fields + extra) i code
      ≡ code_loop shown struct_name whole extra
          (i + length fields)
          (code ++ bound_from shown struct_name i fields)
unfolding code_loop
code_loop_lem shown struct_name whole [] extra i code h =
    let e : i ≡ i + 0 = omega arith in
    let none_left : 0 + extra ≡ extra = omega arith in
    ap (λ n. code_loop shown struct_name whole n i code) none_left
    ∙ ap (λ k. code_loop shown struct_name whole extra k code) e
    ∙ ap (code_loop shown struct_name whole extra (i + 0)) (sym (append-nil code))
code_loop_lem shown struct_name whole (info ∷ fields) extra i code h =
    let now = bind_lines shown struct_name i info in
    let here : get_elem? whole i ≡ some info = ap (get_elem? whole) (omega arith) ∙ h 0 in
    let later : (k : ℕ) → get_elem? whole (i + 1 + k) ≡ get_elem? fields k =
      λ k. ap (get_elem? whole) (omega arith) ∙ h (suc k) in
    let rounds : length (info ∷ fields) + extra ≡ suc (length fields + extra) = omega arith in
    let end : i + 1 + length fields ≡ i + suc (length fields) = omega arith in
    rw (rounds, code_loop, here)
      (code_loop_lem shown struct_name whole fields extra (i + 1) (code ++ now) later
        ∙ rw (end, append_assoc code now (bound_from shown struct_name (i + 1) fields)) refl)

whole_loop :
    (shown : ℕ → Bytes) (struct_name : Bytes) (fields : List FieldT) (extra : ℕ) (code : Bytes)
    → code_loop shown struct_name fields (length fields + extra) 0 code
      ≡ code_loop shown struct_name fields extra
          (length fields)
          (code ++ bound_from shown struct_name 0 fields)
whole_loop shown struct_name fields extra code =
    let start : 0 + length fields ≡ length fields = omega arith in
    code_loop_lem shown struct_name fields fields extra 0 code
      (λ k. ap (get_elem? fields) (omega arith))
    ∙ ap
        (λ n.
          code_loop shown struct_name fields extra n
            (code ++ bound_from shown struct_name 0 fields))
        start

last_round :
    (shown : ℕ → Bytes) (struct_name : Bytes) (fields : List FieldT) (code : Bytes)
    → code_loop shown struct_name fields 1 (length fields) code ≡ none
unfolding code_loop
last_round shown struct_name fields code = rw (code_loop, get_elem?-length fields) refl

-- Over its first rounds, one for each field, the loop puts the lines of all fields in their order
-- behind the first line; but it has one round more, in which it reads behind the vector.
pub gen_code_lem :
    (shown : ℕ → Bytes) (struct_name : Bytes) (fields : List FieldT)
    → let first = codes "    memset(params, 0, sizeof(params));\n" in
      (code_loop shown struct_name fields (length fields) 0 first
        ≡ some (first ++ bound_from shown struct_name 0 fields))
      × (gen_code shown struct_name fields ≡ none)
unfolding gen_code code_loop
gen_code_lem shown struct_name fields =
    let first = codes "    memset(params, 0, sizeof(params));\n" in
    let rounds : length fields ≡ length fields + 0 = omega arith in
    (
      ap (λ n. code_loop shown struct_name fields n 0 first) rounds
          ∙ whole_loop shown struct_name fields 0 first,
      whole_loop shown struct_name fields 1 first
          ∙ last_round shown struct_name fields (first ++ bound_from shown struct_name 0 fields),
    )

-- Whatever the arguments and the database: the only statement that `main` sends describes a table
-- without a name, and no file is generated; it ends early or reads behind its vector.
pub sql_main_lem :
    (shown : ℕ → Bytes) (argc : ℕ) (a : Answers)
    → sql_main shown argc a ≡ (
        if ltb argc 2
        then (none, no_argument)
        else if not a.connects
        then (none, no_connection)
        else if not (eq_ℤ a.query (pos 0))
        then (some (codes "desc "), no_description)
        else (some (codes "desc "), outside (gen_sql (fields_of a.rows []) [])))
unfolding sql_main
sql_main_lem shown argc a = rw ((gen_code_lem shown [] (fields_of a.rows [])).1) refl
