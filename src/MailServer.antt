-- ===== src/MailServer.antt =====
-- mailServer/mailServer.cpp and mailServer/mailTest.cpp: the mails that the two programs hand to
-- `SendMail`.
use home_keeper.Prelude.{
  ap, Option, none, some, pos, eq_ℤ, not, c_str, if◌then◌else◌, Bool, true, false, List, [], ◌∷◌,
  ◌++◌, map, ◌≡◌, refl, Bytes, codes, ℤ,
}
use home_keeper.Curl.{Transfer, curl_util}
use home_keeper.Email.{
  EmailSender, new_sender, set_smtp_server, set_send_name, set_send_mail, add_recv_mail,
  set_subject, set_body_content, add_attachment, encoded_word,
}
use home_keeper.Payload.{new_stream}
use mathlib.Core.List.{map-append}
use home_keeper.Tables.EmailInfo.{EmailInfo, Row, get_res, read_row, get_res_fresh}

-- `resNew`, which nothing changes.
abbrev pub res_new : Bytes
res_new = codes "new"

-- The mail to one account, with the default port.
pub server_mail : (Bytes → Bytes) → EmailInfo → EmailSender
server_mail encode info = set_body_content encode res_new (
    set_subject (codes "ip changed") (
      add_recv_mail info.recipient (
        set_send_mail info.mail_from (
          set_send_name info.mail_from (
            set_smtp_server info.user_name info.passwd info.smtp_server (codes "25")
              (new_sender (codes "gb2312")))))))

-- One round of `main`: `init` fails, or the rows of the accounts are read by an object made anew.
pub data Pass : Type 0 where
  init_fails : Pass
  accounts : List Row → ℤ → Pass

abbrev pub mails : (Bytes → Bytes) → List EmailInfo → List EmailSender
mails encode [] = []
mails encode (info ∷ infos) = server_mail encode info ∷ mails encode infos

-- The loop of `main`: the mails of all passes, up to the first `init` that fails, and whether `main`
-- has returned.
pub serve_mails : (Bytes → Bytes) → List Pass → List EmailSender × Bool
serve_mails encode [] = ([], false)
serve_mails encode (init_fails ∷ passes) = ([], true)
serve_mails encode (accounts rows last ∷ passes) =
    let (later, returned) = serve_mails encode passes in
    (mails encode (get_res rows last []) ++ later, returned)

-- The rows that are read before the first `init` that fails.
abbrev pub rows_before : List Pass → List Row
rows_before [] = []
rows_before (init_fails ∷ passes) = []
rows_before (accounts rows last ∷ passes) = rows ++ rows_before passes

abbrev pub fails_once : List Pass → Bool
fails_once [] = false
fails_once (init_fails ∷ passes) = true
fails_once (accounts rows last ∷ passes) = fails_once passes

-- The mail that an account should get: `resNew` as its body, to the recipient alone, by the server and
-- the names of the account.
abbrev pub letter : (Bytes → Bytes) → EmailInfo → EmailSender
letter encode info = record {
  charset = codes "gb2312";
  subject = codes "ip changed";
  content = encode (codes "new");
  file_name = [];
  message = new_stream;
  user_name = info.user_name;
  password = info.passwd;
  server_name = info.smtp_server;
  port = codes "25";
  send_name = encoded_word (codes "gb2312") info.mail_from;
  send_mail = info.mail_from;
  content_type = [];
  recv_mail = info.recipient ∷ [];
  attachments = [];
}

mails-letter :
    (encode : Bytes → Bytes) (infos : List EmailInfo)
    → mails encode infos ≡ map (letter encode) infos
unfolding server_mail new_sender set_smtp_server set_send_name set_send_mail add_recv_mail
    set_subject set_body_content
mails-letter encode [] = refl
mails-letter encode (info ∷ infos) =
    ap (λ rest. letter encode info ∷ rest) (mails-letter encode infos)

-- The loop sends one mail for each row that it reads, in order, whether or not the reading of
-- its pass ended well, and returns at the first `init` that fails.
pub serve_mails_lem :
    (encode : Bytes → Bytes) (passes : List Pass)
    → serve_mails encode passes
      ≡ (map (letter encode) (map read_row (rows_before passes)), fails_once passes)
unfolding serve_mails
serve_mails_lem encode [] = refl
serve_mails_lem encode (init_fails ∷ passes) = refl
serve_mails_lem encode (accounts rows last ∷ passes) =
    rw
      (
        get_res_fresh rows last,
        serve_mails_lem encode passes,
        mails-letter encode (map read_row rows),
        map-append read_row rows (rows_before passes),
        map-append (letter encode) (map read_row rows) (map read_row (rows_before passes)),
      )
      refl

-- What a run of `main` prints itself, the mails, and its return value, if it has returned.
pub record Run : Type 0 where
  pub printed : List Bytes
  pub mails : List EmailSender
  pub ret : Option ℤ

-- Where the log's `init` fails, `main` prints this and goes on, but the log has no file: the first entry
-- that passes the level ends the process in the printing thread. Such a run is not followed.
pub data Ran : Type 0 where
  unlogged : Bytes → Ran
  logged : Run → Ran

-- `main` of mailServer.cpp
pub server_main : (Bytes → Bytes) → ℤ → List Pass → Ran
server_main encode log_ret passes =
    let (mails, returned) = serve_mails encode passes in
    if not (eq_ℤ log_ret (pos 0))
    then unlogged (codes "log init error")
    else logged
        (record { printed = []; mails = mails; ret = if returned then some (pos 0) else none })

-- Where the log's `init` succeeds, and whether or not the reading of a pass ends well: the mail server
-- hands a mail to `SendMail` for each row of the accounts that it reads, in their order, to the
-- recipient of the row alone and by the server and the names of the row; and it ends exactly where
-- `init` of the accounts fails, with the value 0, before any mail of that pass or of a later one.
pub server_main_lem :
    (encode : Bytes → Bytes) (passes : List Pass)
    → server_main encode (pos 0) passes
      ≡ logged (record {
        printed = [];
        mails = map (letter encode) (map read_row (rows_before passes));
        ret = if fails_once passes then some (pos 0) else none;
      })
unfolding server_main
server_main_lem encode passes = rw (serve_mails_lem encode passes) refl

-- The mail of mailTest.cpp, by the constant PASSWORD, the transfer of `curlUtil` and the global
-- `result` before it.
pub test_mail : Bytes → (Bytes → Bytes) → Transfer → Bytes → EmailSender
test_mail password encode t result =
    add_attachment (codes "/home/siwei/work/github/homeKeeper/CMakeLists.txt") (
      set_body_content encode (curl_util t result).0 (
        set_subject (codes "ip changed") (
          add_recv_mail (codes "<251826184@qq.com>") (
            set_send_mail (codes "<siweilxy@163.com>") (
              set_send_name (codes "<siweilxy@163.com>") (
                set_smtp_server (codes "siweilxy@163.com") password (codes "smtp.163.com")
                  (codes "25") (new_sender (codes "gb2312"))))))))

-- `main` of mailTest.cpp
pub test_main : Bytes → (Bytes → Bytes) → ℤ → Transfer → Bytes → Ran
test_main password encode log_ret t result =
    if not (eq_ℤ log_ret (pos 0))
    then unlogged (codes "log init error")
    else logged (record {
      printed = (codes " resNew is " ++ c_str (curl_util t result).0 ++ codes "\n") ∷ [];
      mails = test_mail password encode t result ∷ [];
      ret = some (pos 0);
    })
