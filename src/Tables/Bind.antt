-- ===== src/Tables/Bind.antt =====
-- `setAllSql` and `sqlBind` of include/tblIpInfo.hpp, include/tblEmailInfo.hpp and
-- homeKeeper/downloadfile.hpp, over the calls of the MySQL client.
use home_keeper.Prelude.{
  ℕ, Bool, true, false, not, List, [], ◌∷◌, Option, none, some, ◌≡◌, refl, if◌then◌else◌, arith,
  Bytes, codes, ℤ, eq_ℤ, eq_ℤ→eq, success, failed,
}
use home_keeper.StdMap
use home_keeper.StdMap.{bytes_key}
use home_keeper.Database.{SqlStmt, MysqlDataBase, set_sql, close_all, new_data_base}

-- The results of the calls: the handle that `mysql_stmt_init` gives for a text, and the return
-- values of preparing, binding and executing a statement.
pub record Client : Type 0 where
  pub handle : Bytes → Option ℕ
  pub prepare : Bytes → ℤ
  pub bind_result : Option ℕ → ℤ
  pub bind_param : Option ℕ → ℤ
  pub execute : Option ℕ → ℤ
  pub store : Option ℕ → ℤ

abbrev pub select : Bytes
select = codes "select"

abbrev pub insert : Bytes
insert = codes "insert"

abbrev pub update : Bytes
update = codes "update"

unfoldable pub ip_set_all_sql : MysqlDataBase → ℤ × MysqlDataBase
ip_set_all_sql d = (
  success,
  set_sql insert (codes "insert into ipInfo (ip,crt_ts,upd_ts,send_flag) values (?,now(),now(),0)")
      (set_sql update (codes "update ipInfo set send_flag=1,upd_ts=now() where rec_id=?") (
        set_sql select
          (codes
            "select rec_id,ip,send_flag from ipInfo where rec_id=(select max(rec_id) from ipInfo) for update")
          d)),
)

-- `sqlForSelect` of the mail table
abbrev pub select_emails : Bytes
select_emails = codes "select username,passwd,smtpServer,recipient,mailfrom from emailInfo"

unfoldable pub email_set_all_sql : MysqlDataBase → ℤ × MysqlDataBase
email_set_all_sql d = (success, set_sql select select_emails d)

unfoldable pub file_set_all_sql : MysqlDataBase → ℤ × MysqlDataBase
file_set_all_sql d = (
  success,
  set_sql update
      (codes "update downloadfile set send_flag=1,upd_ts=now(),send_ts=now() where fileName=?")
      (set_sql select
        (codes
          "select fileName,path from downloadfile where send_flag=0 and fileSize<3000000000 limit 1")
        d),
)

-- The handle of a statement, as `getStmt()[id].stmt`.
abbrev pub stmt_of : Bytes → List (Bytes × SqlStmt) → Option ℕ
stmt_of id m = elim (StdMap.lookup id m) [ none ↦ none | some s ↦ s.stmt ]

module _ (c : Client) where
  abbrev opened : SqlStmt → SqlStmt
  opened s = record s { stmt = c.handle s.sql }

  -- The loop that prepares every statement in the order of the ids, and stops at the first failure.
  unfoldable pub prepare_all : List (Bytes × SqlStmt) → Bool × List (Bytes × SqlStmt)
  prepare_all [] = (true, [])
  prepare_all ((id, s) ∷ m) =
      let rest = prepare_all m in
      if not (eq_ℤ (c.prepare s.sql) success)
      then (false, (id, record (opened s) { flag = some 1 }) ∷ m)
      else (rest.0, (id, opened s) ∷ rest.1)

  abbrev pub with_stmts : MysqlDataBase → List (Bytes × SqlStmt) → MysqlDataBase
  with_stmts d m = record d { sql_stmts = m }

  unfoldable pub ip_sql_bind : MysqlDataBase → ℤ × MysqlDataBase
  unfolding prepare_all
  ip_sql_bind d =
      let (prepared, m) = prepare_all d.sql_stmts in
      let d' = with_stmts d m in
      if not prepared
      then (failed, d')
      else if not (eq_ℤ (c.bind_result (stmt_of select m)) success)
      then (failed, d')
      else if not (eq_ℤ (c.bind_param (stmt_of insert m)) success)
      then (failed, d')
      else if not (eq_ℤ (c.bind_param (stmt_of update m)) success)
      then (failed, d')
      else (success, d')

  unfoldable pub file_sql_bind : MysqlDataBase → ℤ × MysqlDataBase
  unfolding prepare_all
  file_sql_bind d =
      let (prepared, m) = prepare_all d.sql_stmts in
      let d' = with_stmts d m in
      if not prepared
      then (failed, d')
      else if not (eq_ℤ (c.bind_result (stmt_of select m)) success)
      then (failed, d')
      else if not (eq_ℤ (c.bind_param (stmt_of update m)) success)
      then (failed, d')
      else (success, d')

  -- The mail table works on a copy of the map from here on, so its flags are set in the copy only.
  unfoldable pub email_sql_bind : MysqlDataBase → ℤ × MysqlDataBase
  unfolding prepare_all
  email_sql_bind d =
      let (prepared, m) = prepare_all d.sql_stmts in
      let d' = with_stmts d m in
      if not prepared
      then (failed, d')
      else if not (eq_ℤ (c.bind_result (stmt_of select m)) success)
      then (failed, d')
      else if not (eq_ℤ (c.execute (stmt_of select m)) success)
      then (failed, d')
      else if not (eq_ℤ (c.store (stmt_of select m)) success)
      then (failed, d')
      else (success, d')

  abbrev pub all_opened : List (Bytes × SqlStmt) → List (Bytes × SqlStmt)
  all_opened [] = []
  all_opened ((id, s) ∷ m) = (id, opened s) ∷ all_opened m

  prepare_all_lem :
      (m : List (Bytes × SqlStmt)) → (prepare_all m).0 ≡ true → (prepare_all m).1 ≡ all_opened m
  unfolding prepare_all
  prepare_all_lem [] h = refl
  prepare_all_lem ((id, s) ∷ m) h = ground (arith, prepare_all_lem m)

  -- Where `sqlBind` of the addresses succeeds, every statement has the handle of its own text, and
  -- every flag is as `setSql` left it; the three statements were bound by their own handles.
  pub ip_sql_bind_lem :
      (d d' : MysqlDataBase)
      → ip_sql_bind d ≡ (success, d')
      → let m = all_opened d.sql_stmts in
        (d' ≡ with_stmts d m)
        × (c.bind_result (stmt_of select m) ≡ success)
        × (c.bind_param (stmt_of insert m) ≡ success)
        × (c.bind_param (stmt_of update m) ≡ success)
  unfolding ip_sql_bind
  ip_sql_bind_lem d d' e =
      let m = (prepare_all d.sql_stmts).1 in
      let all : (prepare_all d.sql_stmts).0 ≡ true = ground arith in
      let same : m ≡ all_opened d.sql_stmts = prepare_all_lem d.sql_stmts all in
      rw (← same) (
        ground arith,
        eq_ℤ→eq _ _ (ground arith),
        eq_ℤ→eq _ _ (ground arith),
        eq_ℤ→eq _ _ (ground arith),
      )

-- Whatever the calls of the client return, the destructor of the addresses reads an indeterminate
-- flag after `setAllSql` and `sqlBind`.
pub close_all-ip_sql_bind :
    (c : Client) → close_all (ip_sql_bind c (ip_set_all_sql new_data_base).1).1.sql_stmts ≡ none
unfolding ip_sql_bind ip_set_all_sql set_sql StdMap.insert new_data_base close_all
close_all-ip_sql_bind c = ground arith
