-- ===== src/Database/Statements.antt =====
-- include/MysqlDataBase.hpp: what `setSql`, `init` and the destructor do.
use home_keeper.Prelude.{
  true, false, ◌&&◌, List, [], ◌∷◌, none, some, ◌≡◌, ◌≢◌, ◌⊎◌, inl, inr, refl, if◌then◌else◌,
  Bool-cases, arith, Bytes, bytes_eq, All, success, failed,
}
use home_keeper.StdMap
use home_keeper.StdMap.{bytes_key, lookup-insert}
use home_keeper.Database.{
  SqlStmt, MysqlDataBase, Config, Outside, Table, set_sql, init, init_db, close_all, configured,
  read_config, new_data_base,
}

abbrev pub stored : Bytes → SqlStmt
stored sql = record { sql = sql; stmt = none; flag = none }

-- `setSql` stores the statement under its id, with a null handle and with a flag that was never
-- set, and leaves all other ids alone.
pub lookup-set_sql :
    (id other sql : Bytes) (d : MysqlDataBase)
    → StdMap.lookup other (set_sql id sql d).sql_stmts
      ≡ (if bytes_eq id other then some (stored sql) else StdMap.lookup other d.sql_stmts)
unfolding set_sql
lookup-set_sql id other sql d = lookup-insert id other (stored sql) d.sql_stmts

-- No call of `setSql` for any ids leaves a map that the destructor can read.
abbrev pub set_all : List (Bytes × Bytes) → MysqlDataBase → MysqlDataBase
set_all [] d = d
set_all ((id, sql) ∷ more) d = set_all more (set_sql id sql d)

abbrev Unset : List (Bytes × SqlStmt) → Type 0
Unset = All (λ entry. entry.1.flag ≡ none)

insert-Unset :
    (id sql : Bytes) (m : List (Bytes × SqlStmt))
    → Unset m
    → Unset (StdMap.insert id (stored sql) m) × (StdMap.insert id (stored sql) m ≢ [])
unfolding StdMap.insert
insert-Unset id sql [] h = ((refl, tt), cc)
insert-Unset id sql ((j, s) ∷ m) h = (ground (arith, insert-Unset id sql m h.1), ground arith)

set_all-Unset :
    (calls : List (Bytes × Bytes)) (d : MysqlDataBase)
    → Unset d.sql_stmts
    → d.sql_stmts ≢ []
    → Unset (set_all calls d).sql_stmts × ((set_all calls d).sql_stmts ≢ [])
unfolding set_sql
set_all-Unset [] d h k = (h, k)
set_all-Unset ((id, sql) ∷ more) d h k =
    let (h', k') = insert-Unset id sql d.sql_stmts h in set_all-Unset more (set_sql id sql d) h' k'

close_all-Unset : (m : List (Bytes × SqlStmt)) → Unset m → m ≢ [] → close_all m ≡ none
unfolding close_all
close_all-Unset [] h k = absurd (k refl)
close_all-Unset ((id, s) ∷ m) h k = rw (h.0, close_all)

-- After `setSql` was called for at least one statement, and before anything else, the destructor
-- reads an indeterminate flag.
pub close_all-set_sql :
    (id sql : Bytes) (more : List (Bytes × Bytes))
    → close_all (set_all ((id, sql) ∷ more) new_data_base).sql_stmts ≡ none
unfolding set_sql new_data_base StdMap.insert
close_all-set_sql id sql more =
    let (h, k) = set_all-Unset more (set_sql id sql new_data_base) (refl, tt) (λ e. cc) in
    close_all-Unset _ h k

-- What it takes for `init` to succeed: the variable is set and not empty, and the parser, the
-- library, the connection and the two virtual functions succeed in turn.
abbrev pub Connects : Outside → Table → MysqlDataBase → Config → MysqlDataBase → Type 0
Connects o t d c d' =
    (path : Bytes) × (o.config_path ≡ some path)
    × (path ≢ [])
    × (o.parse (o.file_text path) ≡ some c)
    × (o.mysql_init ≡ true)
    × (o.connect c ≡ true)
    × (d₁ : MysqlDataBase) × (t.set_all_sql
          (record (configured c (read_config o path d)) { conn = true })
        ≡ (success, d₁))
    × (t.sql_bind d₁ ≡ (success, d'))

-- `init` succeeds under these conditions, and its result is what `sqlBind` leaves.
pub init-Connects :
    (o : Outside) (t : Table) (d : MysqlDataBase) (c : Config) (d' : MysqlDataBase)
    → Connects o t d c d'
    → init o t d ≡ some (success, d')
unfolding init
init-Connects o t d c d' ([], e, k, p, m, n, d₁, s, q) = absurd (k refl)
init-Connects o t d c d' (b ∷ path, e, k, p, m, n, d₁, s, q) = rw (e, p, m, n, s, q, init, init_db)

-- `init` fails and registers no statement where the variable is not set or empty, or where it is
-- set, its file parses, and the library gives no handle or the server refuses.
pub init_fails :
    (o : Outside) (t : Table) (d : MysqlDataBase) (path : Bytes) (c : Config)
    → (o.config_path ≡ none)
      ⊎ (o.config_path ≡ some [])
      ⊎ (o.config_path ≡ some path)
        × (path ≢ [])
        × (o.parse (o.file_text path) ≡ some c)
        × (o.mysql_init && o.connect c ≡ false)
    → (d' : MysqlDataBase) × (init o t d ≡ some (failed, d')) × (d'.sql_stmts ≡ d.sql_stmts)
unfolding init
init_fails o t d path c (inl e) = (d, rw (e, init), refl)
init_fails o t d path c (inr (inl e)) = (d, rw (e, init), refl)
init_fails o t d [] c (inr (inr (e, k, p, m))) = absurd (k refl)
init_fails o t d (b ∷ path) c (inr (inr (e, k, p, m))) = elim (Bool-cases o.mysql_init) [
  | inl on ↦
      let refused : o.connect c ≡ false = ground arith in
      (
        record (configured c (read_config o (b ∷ path) d)) { conn = true },
        rw (e, p, on, refused, init, init_db),
        refl,
      )
  | inr off ↦ (configured c (read_config o (b ∷ path) d), rw (e, p, off, init, init_db), refl)
]
