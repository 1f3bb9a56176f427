-- ===== src/SqlGen.antt =====
-- sqlGenerate/sqlGen.cpp: the fields and the select statement that are made from the description of
-- a table. `desc` gives six columns, so that the inner loop over a row runs once.
pub mod Code
use home_keeper.Prelude.{
  ℕ, suc, ◌+◌, ◌-◌, false, ◌||◌, List, [], ◌∷◌, ◌++◌, append-nil, append_assoc, Option, none, some,
  ◌≡◌, ◌≢◌, refl, sym, ap, ◌∙◌, ◌==◌, ==_iff, if◌then◌else◌, arith, length, length-append, take,
  drop, Bytes, codes, bytes_eq, All,
}

-- `field_t`
pub record FieldT : Type 0 where
  pub name : Bytes
  pub type : Bytes
  pub length' : Bytes

-- `find` of one character.
pub find : ℕ → Bytes → Option ℕ
find c [] = none
find c (b ∷ bs) =
    let rest = find c bs in
    if b == c then some 0 else elim rest [ none ↦ none | some i ↦ some (suc i) ]

-- `getTypeAndLength`
pub get_type_and_length : Bytes → FieldT → FieldT
get_type_and_length res field = elim (find b'(' res) [
  | none ↦ record field { type = res }
  | some i ↦
      let type = take i res in
      let field' : FieldT = record field { type = type } in
      if bytes_eq type (codes "varchar") || bytes_eq type (codes "char")
      then record field' { length' = take (length res - i - 2) (drop (i + 1) res) }
      else field'
]

-- The loop over the rows, each with its name and its type.
pub fields_of : List (Bytes × Bytes) → List FieldT → List FieldT
fields_of [] fields = fields
fields_of ((name, type) ∷ rows) fields =
    let info : FieldT = record { name = name; type = []; length' = [] } in
    fields_of rows (fields ++ get_type_and_length type info ∷ [])

-- The loop that lists the names; `size` is the number of all fields.
pub gen_loop : ℕ → ℕ → List FieldT → Bytes → Bytes
gen_loop size p [] gen_sql = gen_sql
gen_loop size p (info ∷ fields) gen_sql = gen_loop size (p + 1) fields (
    if size == p + 1
    then gen_sql ++ (info.name ++ codes " ")
    else gen_sql ++ (info.name ++ codes ", "))

-- `genSql`
pub gen_sql : List FieldT → Bytes → Bytes
gen_sql fields table_name =
    gen_loop (length fields) 0 fields (codes "select ") ++ (codes " from " ++ table_name)

-- The names with a comma between two of them.
abbrev pub listed : List FieldT → Bytes
listed [] = []
listed (info ∷ []) = info.name ++ codes " "
listed (info ∷ next ∷ fields) = info.name ++ (codes ", " ++ listed (next ∷ fields))

gen_loop-listed :
    (size p : ℕ) (fields : List FieldT) (sql : Bytes)
    → size ≡ p + length fields
    → gen_loop size p fields sql ≡ sql ++ listed fields
unfolding gen_loop
gen_loop-listed size p [] sql e = sym (append-nil sql)
gen_loop-listed size p (info ∷ []) sql e = ground (arith, ==_iff size (p + 1))
gen_loop-listed size p (info ∷ next ∷ fields) sql e =
    let other : (size == p + 1) ≡ false = ground (arith, ==_iff size (p + 1)) in
    rw other (
      gen_loop-listed size (p + 1) (next ∷ fields) (sql ++ (info.name ++ codes ", ")) (omega arith)
      ∙ append_assoc sql (info.name ++ codes ", ") (listed (next ∷ fields))
      ∙ ap (λ x. sql ++ x) (append_assoc info.name (codes ", ") (listed (next ∷ fields))))

-- The statement selects the names of all fields in order, with a comma between two of them.
pub gen_sql-listed :
    (fields : List FieldT) (table_name : Bytes)
    → gen_sql fields table_name
      ≡ codes "select " ++ (listed fields ++ (codes " from " ++ table_name))
unfolding gen_sql
gen_sql-listed fields table_name =
    rw (gen_loop-listed (length fields) 0 fields (codes "select ") (omega arith))
      (append_assoc (codes "select ") (listed fields) (codes " from " ++ table_name))

find_first :
    (front back : Bytes)
    → All (λ b. b ≢ b'(') front
    → find b'(' (front ++ b'(' ∷ back) ≡ some (length front)
unfolding find
find_first [] back h = refl
find_first (b ∷ front) back h = ground (arith, ==_iff b b'(', find_first front back h.1)

take_front : (xs ys : Bytes) → take (length xs) (xs ++ ys) ≡ xs
take_front [] ys = refl
take_front (x ∷ xs) ys = ap (◌∷◌ x) (take_front xs ys)

drop_front : (xs : Bytes) (y : ℕ) (ys : Bytes) → drop (suc (length xs)) (xs ++ y ∷ ys) ≡ ys
drop_front [] y ys = refl
drop_front (x ∷ xs) y ys = drop_front xs y ys

-- A type text of a name, which holds no parenthesis, and a size in parentheses is taken apart: the
-- type is the name, and the length is the size for varchar and char and as before for all others.
pub get_type_and_length_lem :
    (name size : Bytes) (field : FieldT)
    → All (λ b. b ≢ b'(') name
    → get_type_and_length (name ++ b'(' ∷ (size ++ b')' ∷ [])) field ≡ record field {
      type = name;
      length' =
          if bytes_eq name (codes "varchar") || bytes_eq name (codes "char")
          then size
          else field.length';
    }
unfolding get_type_and_length
get_type_and_length_lem name size field h =
    let back = size ++ b')' ∷ [] in
    let res = name ++ b'(' ∷ back in
    let len : length res - length name - 2 ≡ length size =
      omega (arith, length-append name (b'(' ∷ back), length-append size (b')' ∷ [])) in
    let shift : length name + 1 ≡ suc (length name) = omega arith in
    let inside : take (length res - length name - 2) (drop (length name + 1) res) ≡ size =
      rw (len, shift, drop_front name b'(' back, take_front size (b')' ∷ [])) in
    ground (arith, find_first name back h, take_front name (b'(' ∷ back), inside)
