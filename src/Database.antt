-- ===== src/Database.antt =====
-- include/MysqlDataBase.hpp: the base class of the tables: `setSql`, `init`, `initDb` and the
-- destructor. The MySQL client, the JSON parser and the environment are parameters.
use home_keeper.Prelude.{
  ℕ, zero, suc, ◌+◌, ◌-◌, ◌*◌, ◌/◌, ◌%◌, ◌<◌, ◌≤◌, Bool, true, false, not, ◌&&◌, ◌||◌, List, [],
  ◌∷◌, ◌++◌, append-nil, append_assoc, map, Option, none, some, ◌≡◌, ◌≢◌, ◌⊎◌, inl, inr, refl, sym,
  ap, ◌∙◌, subst, ltb, leb, ◌==◌, ==_iff, if◌then◌else◌, ltb→lt, lt→ltb, leb→le, Bool-cases,
  Option-cases, arith, length, length-append, take, drop, replicate, take-append-drop, length-drop,
  length-take, get_elem?, get_or, Bytes, codes, c_str, print_into, NoZero, c_str-NoZero, ◌↔◌,
  bytes_eq, bytes_eq_refl, bytes_eq_sound, bytes_eq_iff, All, All-append, IsByte, ℤ, pos, negsuc,
  eq_ℤ, is_negative, success, failed, set, length-set, NoZero-c_str,
}
pub mod Statements
use home_keeper.StdMap
use home_keeper.StdMap.{bytes_key}

-- `sql_stmt_t`: the handle is `none` for a null pointer, the flag `none` while it is indeterminate.
pub record SqlStmt : Type 0 where
  pub sql : Bytes
  pub stmt : Option ℕ
  pub flag : Option ℕ

-- The connection parameters that the configuration file holds.
pub record Config : Type 0 where
  pub ip : Bytes
  pub port : Bytes
  pub date_base : Bytes
  pub user : Bytes
  pub passwd : Bytes

-- The object; `conn` says whether `conn` is set.
pub record MysqlDataBase : Type 0 where
  pub config_file : Bytes
  pub config : Config
  pub conn : Bool
  pub sql_stmts : List (Bytes × SqlStmt)

abbrev no_config : Config
no_config = record { ip = []; port = []; date_base = []; user = []; passwd = [] }

unfoldable pub new_data_base : MysqlDataBase
new_data_base = record { config_file = []; config = no_config; conn = false; sql_stmts = [] }

-- `setSql`: the copy goes into the map before the flag of the local variable is set to 0.
unfoldable pub set_sql : Bytes → Bytes → MysqlDataBase → MysqlDataBase
set_sql id sql d =
    let stmt : SqlStmt = record { sql = sql; stmt = none; flag = none } in
    let stored = StdMap.insert id stmt d.sql_stmts in record d { sql_stmts = stored }

-- What the calls outside the program give to one run of `init`: the variable CONFIG_FILE, the text
-- of that file, the parser (`none` is an exception), `mysql_init` and `mysql_real_connect`.
pub record Outside : Type 0 where
  pub config_path : Option Bytes
  pub file_text : Bytes → Bytes
  pub parse : Bytes → Option Config
  pub mysql_init : Bool
  pub connect : Config → Bool

-- The two virtual functions that a table overrides.
pub record Table : Type 0 where
  pub set_all_sql : MysqlDataBase → ℤ × MysqlDataBase
  pub sql_bind : MysqlDataBase → ℤ × MysqlDataBase

abbrev check : ℤ × MysqlDataBase → (MysqlDataBase → ℤ × MysqlDataBase) → ℤ × MysqlDataBase
check (ret, d) next = if eq_ℤ ret success then next d else (failed, d)

unfoldable pub init_db : Outside → Table → MysqlDataBase → ℤ × MysqlDataBase
init_db o t d =
    let connected = record d { conn = true } in
    let bound =
      check (t.set_all_sql connected) (λ d'. check (t.sql_bind d') (λ d''. (success, d''))) in
    if not o.mysql_init
    then (failed, d)
    else if not (o.connect d.config)
    then (failed, connected)
    else bound

abbrev pub read_config : Outside → Bytes → MysqlDataBase → MysqlDataBase
read_config o path d = record d { config_file = o.file_text path }

abbrev pub configured : Config → MysqlDataBase → MysqlDataBase
configured c d = record d { config = c }

-- `init`; `none` is the exception of the parser.
unfoldable pub init : Outside → Table → MysqlDataBase → Option (ℤ × MysqlDataBase)
unfolding init_db
init o t d = elim o.config_path [
  | none ↦ some (failed, d)
  | some [] ↦ some (failed, d)
  | some (b ∷ path) ↦
      let d' = read_config o (b ∷ path) d in
      elim (o.parse d'.config_file) [
        | none ↦ none
        | some c ↦ some (check (init_db o t (configured c d')) (λ d''. (success, d'')))
      ]
]

-- The loop of the destructor: the statements that it closes, or `none` where it reads an
-- indeterminate flag.
unfoldable pub close_all : List (Bytes × SqlStmt) → Option (List (Option ℕ))
close_all [] = some []
close_all ((id, s) ∷ m) =
    let rest = close_all m in
    elim s.flag [
      | none ↦ none
      | some f ↦ elim rest [
        | none ↦ none
        | some closed ↦ if f == 0 then some (s.stmt ∷ closed) else some closed
      ]
    ]

-- The destructor: what its loop closes, and whether it closes the connection.
unfoldable pub destroy : MysqlDataBase → Option (List (Option ℕ) × Bool)
destroy d = elim (close_all d.sql_stmts) [ none ↦ none | some closed ↦ some (closed, d.conn) ]

-- The iconv library: `iconv_open` (its descriptor), and `iconv` (its return value and what it leaves
-- in the output buffer, which holds zeros).
pub record Iconv : Type 0 where
  pub open_cd : Bytes → Bytes → ℤ
  pub convert : ℤ → Bytes → ℕ → ℤ × Bytes

-- `code_convert`, with the output buffer; it tests the descriptor against 0.
pub code_convert : Iconv → Bytes → Bytes → Bytes → Bytes → ℤ × Bytes
code_convert i from to inbuf outbuf =
    let cd = i.open_cd to from in
    let (rc, out) = i.convert cd inbuf (length outbuf) in
    if eq_ℤ cd (pos 0)
    then (negsuc 0, outbuf)
    else if eq_ℤ rc (negsuc 0)
    then (negsuc 0, out)
    else (pos 0, out)

-- `u2g` and `g2u`
pub u2g : Iconv → Bytes → Bytes → ℤ × Bytes
u2g i = code_convert i (codes "utf-8") (codes "gb2312")

pub g2u : Iconv → Bytes → Bytes → ℤ × Bytes
g2u i = code_convert i (codes "gb2312") (codes "utf-8")
