-- ===== src/Tables/Lifetime.antt =====
-- include/MysqlDataBase.hpp: the destructor behind `init`, for the three tables of
-- include/tblIpInfo.hpp, include/tblEmailInfo.hpp and homeKeeper/downloadfile.hpp.
use home_keeper.Prelude.{
  ℕ, Bool, true, false, ◌&&◌, List, [], ◌∷◌, Option, none, some, ◌≡◌, inl, inr, refl, ◌∙◌,
  if◌then◌else◌, arith, ℤ, eq_ℤ, success, failed, Bool-cases, Option-cases,
}
use home_keeper.StdMap
use home_keeper.StdMap.{bytes_key}
use home_keeper.Database.{
  Config, Outside, Table, MysqlDataBase, set_sql, init_db, init, close_all, destroy, new_data_base,
  configured, read_config,
}
use home_keeper.Tables.Bind.{
  Client, ip_set_all_sql, email_set_all_sql, file_set_all_sql, prepare_all, ip_sql_bind,
  email_sql_bind, file_sql_bind, select_emails,
}

-- The classes that derive from `MysqlDataBase`.
pub data Kind : Type 0 where
  ip_info : Kind
  email_info : Kind
  download_file : Kind

unfoldable pub table : Client → Kind → Table
table c ip_info = record { set_all_sql = ip_set_all_sql; sql_bind = ip_sql_bind c }
table c email_info = record { set_all_sql = email_set_all_sql; sql_bind = email_sql_bind c }
table c download_file = record { set_all_sql = file_set_all_sql; sql_bind = file_sql_bind c }

-- The configuration that `init` comes to read.
abbrev pub read_by : Outside → Option Config
read_by o = elim o.config_path [
  | none ↦ none
  | some [] ↦ none
  | some (b ∷ path) ↦ o.parse (o.file_text (b ∷ path))
]

-- Whether a flag is left indeterminate once the statements are set: the one statement of the mail
-- table gets its flag where it cannot be prepared.
abbrev pub unset : Client → Kind → Bool
unset c ip_info = true
unset c email_info = eq_ℤ (c.prepare select_emails) success
unset c download_file = true

-- What the destructor does behind `init`.
abbrev pub end_of : Outside → Client → Kind → Option Config → Option (List (Option ℕ) × Bool)
end_of o c k none = some ([], false)
end_of o c k (some cfg) =
    if o.mysql_init && o.connect cfg
    then (if unset c k then none else some ([], true))
    else some ([], o.mysql_init)

-- The object once it has connected.
bound_lem :
    (c : Client) (k : Kind) (d : MysqlDataBase)
    → d.sql_stmts ≡ []
    → d.conn ≡ true
    → destroy ((table c k).sql_bind ((table c k).set_all_sql d).1).1
      ≡ (if unset c k then none else some ([], true))
unfolding table ip_set_all_sql email_set_all_sql file_set_all_sql set_sql StdMap.insert ip_sql_bind
    email_sql_bind file_sql_bind prepare_all close_all destroy
bound_lem c ip_info d e conn = rw e (ground arith)
bound_lem c email_info d e conn = rw e (ground arith)
bound_lem c download_file d e conn = rw e (ground arith)

sets_lem : (c : Client) (k : Kind) (d : MysqlDataBase) → ((table c k).set_all_sql d).0 ≡ success
unfolding table ip_set_all_sql email_set_all_sql file_set_all_sql
sets_lem c ip_info d = refl
sets_lem c email_info d = refl
sets_lem c download_file d = refl

-- `initDb` on every branch.
init_db_lem :
    (o : Outside) (c : Client) (k : Kind) (d : MysqlDataBase)
    → d.sql_stmts ≡ []
    → d.conn ≡ false
    → destroy (init_db o (table c k) d).1 ≡ end_of o c k (some d.config)
unfolding init_db destroy close_all
init_db_lem o c k d e conn = elim (Bool-cases o.mysql_init) [
  | inr off ↦ rw (off, e, conn) refl
  | inl on ↦ elim (Bool-cases (o.connect d.config)) [
    | inr off ↦ rw (on, off, e) refl
    | inl connected ↦
        let d' : MysqlDataBase = record d { conn = true } in
        let bound = bound_lem c k d' e refl in
        rw (on, connected, sets_lem c k d')
          (elim (Bool-cases
            (eq_ℤ ((table c k).sql_bind ((table c k).set_all_sql d').1).0 success)) [
              | inl h ↦ rw h bound
              | inr h ↦ rw h bound
            ])
  ]
]

from_result :
    (r : Option (ℤ × MysqlDataBase)) (x y : ℤ × MysqlDataBase)
    → r ≡ some x
    → r ≡ some y
    → destroy y.1 ≡ destroy x.1
from_result r x y e e' = cc

-- The last test of `init`.
abbrev tested : ℤ × MysqlDataBase → ℤ × MysqlDataBase
tested x = if eq_ℤ x.0 success then (success, x.1) else (failed, x.1)

destroy-tested : (x : ℤ × MysqlDataBase) → destroy (tested x).1 ≡ destroy x.1
destroy-tested x = elim (Bool-cases (eq_ℤ x.0 success)) [ inl h ↦ rw h refl | inr h ↦ rw h refl ]

-- Of each of the three tables, an object that is made, given to `init` and destroyed, whatever `init`
-- returns and whatever the calls of the client give: the destructor reads a flag that was never set
-- exactly if `init` has connected, but for the mail table where its one statement cannot be prepared. Else it closes no statement,
-- and the connection exactly if `mysql_init` gave one.
pub destroy-init :
    (o : Outside) (c : Client) (k : Kind) (ret : ℤ) (d : MysqlDataBase)
    → init o (table c k) new_data_base ≡ some (ret, d)
    → destroy d ≡ end_of o c k (read_by o)
unfolding init destroy close_all new_data_base
destroy-init o c k ret d e = elim (Option-cases o.config_path) [
  | inl absent ↦
      from_result _ (failed, new_data_base) (ret, d) (rw (absent, init) refl) e ∙ rw absent refl
  | inr ([], empty) ↦
      from_result _ (failed, new_data_base) (ret, d) (rw (empty, init) refl) e ∙ rw empty refl
  | inr (b ∷ path, given) ↦ elim (Option-cases (o.parse (o.file_text (b ∷ path)))) [
    | inl thrown ↦
        let r : init o (table c k) new_data_base ≡ none = rw (given, thrown, init) refl in cc (r, e)
    | inr (cfg, parsed) ↦
        let d0 = configured cfg (read_config o (b ∷ path) new_data_base) in
        let x = init_db o (table c k) d0 in
        from_result _ (tested x) (ret, d) (rw (given, parsed, init) refl) e
        ∙ destroy-tested x
        ∙ init_db_lem o c k d0 refl refl
        ∙ rw (given, parsed) refl
  ]
]
