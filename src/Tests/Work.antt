-- ===== src/Tests/Work.antt =====
-- The theorems on homeKeeper/workFunctions.hpp at concrete inputs.
use home_keeper.Prelude.{
  ◌<◌, true, false, not, ◌&&◌, [], ◌∷◌, ◌++◌, none, some, ◌≡◌, if◌then◌else◌, arith, length, Bytes,
  codes, bytes_eq, pos, success,
}
use home_keeper.Curl.{Transfer, curl_util, copy_data, copy_all, position_from, address_of}
use home_keeper.Tables.IpInfo.{new_tbl_ip_info, runs_through}
use home_keeper.Tables.EmailInfo
use home_keeper.Tables.DownloadFile
use home_keeper.Jobs.GetIp
use home_keeper.Jobs.GetIp.{get_ip_round, is_new, get_ip_round_lem}
use home_keeper.Jobs.SendEmail
use home_keeper.Jobs.SendEmail.{send_email_round, send_email_round_lem}
use home_keeper.Jobs.SendFile
use home_keeper.Jobs.SendFile.{send_file_round, send_file_round_lem}
use home_keeper.Tables.DownloadFile.{FileInfo}
use home_keeper.Jobs.History.{query_of}

abbrev pub answer : Transfer
answer = record { has_handle = true; chunks = (codes "10.0.0.1\n", 0 ∷ []) ∷ []; res = pos 0 }

abbrev empty_table : GetIp.Round
empty_table = record { transfer = answer; query = query_of []; insertion = success }

abbrev pub fresh : GetIp.State
fresh = record { table = new_tbl_ip_info; result = [] }

get_ip_round_lem_example : (get_ip_round empty_table fresh).1 ≡ (
    let ip = (curl_util answer []).0 in
    if not (bytes_eq ip (codes "failed"))
      && (runs_through (query_of []) && is_new (GetIp.looked_at (query_of []) new_tbl_ip_info) ip)
    then some ip
    else none)
get_ip_round_lem_example = get_ip_round_lem empty_table fresh

abbrev pub recipient : EmailInfo.Row
recipient = record {
  user_name = codes "u" ++ 0 ∷ [];
  passwd = codes "p" ++ 0 ∷ [];
  smtp_server = codes "s" ++ 0 ∷ [];
  recipient = codes "r" ++ 0 ∷ [];
  mail_from = codes "f" ++ 0 ∷ [];
}

-- No delivery succeeds.
abbrev pub unsent_row : SendEmail.Round
unsent_row = record {
  query = query_of (record { rec_id = 3; ip = codes "10.0.0.1"; flag = 48 } ∷ []);
  mail_rows = recipient ∷ [];
  mail_last = pos 100;
  execute = success;
  commit = success;
  encode = λ bs. bs;
  deliver = λ k s. false;
}

abbrev pub no_mails : SendEmail.State
no_mails = record { table = new_tbl_ip_info; emails = [] }

send_email_round_lem_example : (send_email_round unsent_row no_mails).1 ≡ record {
  mails =
      SendEmail.mails_of unsent_row no_mails (SendEmail.looked_at unsent_row.query new_tbl_ip_info);
  marked = SendEmail.unsent (SendEmail.looked_at unsent_row.query new_tbl_ip_info);
  leaves = false;
}
send_email_round_lem_example = send_email_round_lem unsent_row no_mails

-- There is no file to send.
abbrev no_file : SendFile.Round
no_file = record {
  query = record { execute = success; store = success; rows = []; last = pos 100 };
  mail_rows = recipient ∷ [];
  mail_last = pos 100;
  execute = success;
  commit = success;
  deliver = λ k s. true;
}

abbrev no_files : SendFile.State
no_files = record { table = (DownloadFile.new_download_file []); emails = []; files = [] }

send_file_round_lem_example :
    SendFile.outcome_of (send_file_round no_file no_files)
    ≡ SendFile.expected no_file
        (EmailInfo.get_res no_file.mail_rows no_file.mail_last [])
        (SendFile.looked_at no_file.query (DownloadFile.new_download_file []))
send_file_round_lem_example = send_file_round_lem no_file no_files

pub answer_fits : (result : Bytes) → length (curl_util answer result).0 < 100
unfolding curl_util copy_all copy_data address_of position_from
answer_fits result = omega arith
