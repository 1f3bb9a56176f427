-- ===== src/Tests/Store.antt =====
-- The theorems on the database and its tables at concrete inputs.
use home_keeper.Prelude.{true, [], ◌∷◌, ◌++◌, some, ◌≡◌, refl, length, codes, pos, success, failed}
use home_keeper.StdMap
use home_keeper.StdMap.{bytes_key}
use home_keeper.Database.{
  MysqlDataBase, Config, Outside, new_data_base, set_sql, init, init_db, destroy,
}
use home_keeper.Tables.IpInfo
use home_keeper.Tables.IpInfo.{
  IpInfo, TblIpInfo, new_tbl_ip_info, get_res_lem, send_flag-insert_to_db,
}
use home_keeper.Tables.Bind.{
  Client, ip_set_all_sql, ip_sql_bind, all_opened, with_stmts, prepare_all, email_set_all_sql,
  email_sql_bind,
}
use home_keeper.Tables.Lifetime.{email_info, table, read_by, end_of, destroy-init}

-- A query that is cut off behind its first row.
abbrev cut_off : IpInfo.Query
cut_off = record {
  execute = success;
  store = success;
  rows = record { number = 7; address = codes "10.0.0.1" ++ 0 ∷ []; flag = 48 } ∷ [];
  last = pos 1;
}

get_res_lem_example :
    IpInfo.get_res cut_off [] new_tbl_ip_info
    ≡ (failed, [], record new_tbl_ip_info { ip_infos = IpInfo.left_over new_tbl_ip_info cut_off })
get_res_lem_example = get_res_lem cut_off [] new_tbl_ip_info

abbrev willing : Client
willing = record {
  handle = λ text. some (length text);
  prepare = λ text. success;
  bind_result = λ h. success;
  bind_param = λ h. success;
  execute = λ h. success;
  store = λ h. success;
}

abbrev with_sql : MysqlDataBase
with_sql = (ip_set_all_sql new_data_base).1

bound :
    ip_sql_bind willing with_sql
    ≡ (success, with_stmts willing with_sql (all_opened willing with_sql.sql_stmts))
unfolding ip_sql_bind prepare_all ip_set_all_sql set_sql StdMap.insert new_data_base
bound = refl

-- A server that refuses the statement of the mail table.
abbrev refusing : Client
refusing = record willing { prepare = λ text. pos 1 }

abbrev some_config : Config
some_config = record {
  ip = codes "10.0.0.2";
  port = codes "3306";
  date_base = codes "home";
  user = codes "u";
  passwd = codes "p";
}

abbrev up : Outside
up = record {
  config_path = some (codes "/c");
  file_text = λ path. codes "{}";
  parse = λ text. some some_config;
  mysql_init = true;
  connect = λ c. true;
}

abbrev after_init : MysqlDataBase
after_init =
    (email_sql_bind refusing
      (email_set_all_sql
        (record new_data_base { config_file = codes "{}"; config = some_config; conn = true })).1).1

refused : init up (table refusing email_info) new_data_base ≡ some (failed, after_init)
unfolding init init_db new_data_base email_set_all_sql email_sql_bind prepare_all set_sql
    StdMap.insert table
refused = refl

destroy-init_example : destroy after_init ≡ end_of up refusing email_info (read_by up)
destroy-init_example = destroy-init up refusing email_info failed after_init refused
