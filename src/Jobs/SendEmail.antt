-- ===== src/Jobs/SendEmail.antt =====
-- homeKeeper/workFunctions.hpp: `sendEmail`, which mails an address that was not sent yet.
use home_keeper.Prelude.{
  length, length-map, map, arith, ℕ, ◌+◌, Bool, true, false, ◌||◌, List, [], ◌∷◌, ◌++◌, Option,
  none, some, ◌≡◌, inl, inr, refl, if◌then◌else◌, Bool-cases, Bytes, codes, bytes_eq, ℤ, eq_ℤ,
  failed,
}
use home_keeper.Tables.IpInfo.{
  TblIpInfo, IpInfo, Query, get_res, get_res_lem, update_to_db, runs_through, seen,
}
use home_keeper.Tables.EmailInfo.{EmailInfo}
use home_keeper.Tables.EmailInfo
use home_keeper.Email.{
  EmailSender, new_sender, set_smtp_server, set_send_name, set_send_mail, add_recv_mail,
  set_subject, set_body_content, encoded_word,
}
use home_keeper.Payload.{new_stream}

-- What one round meets: the query of the addresses, the rows of the mail table that its fetches give
-- with the result that ends their loop (Jobs/Sessions takes them from the one select of the object),
-- the results of the update, the encoder, and the result of the k-th `SendMail`.
pub record Round : Type 0 where
  pub query : Query
  pub mail_rows : List EmailInfo.Row
  pub mail_last : ℤ
  pub execute : ℤ
  pub commit : ℤ
  pub encode : Bytes → Bytes
  pub deliver : ℕ → EmailSender → Bool

-- The two objects of the thread.
pub record State : Type 0 where
  pub table : TblIpInfo
  pub emails : List EmailInfo

-- `infos[0].ip + " url is " + infos[0].ip + ":19870"`
abbrev pub body_text : Bytes → Bytes
body_text ip = ip ++ (codes " url is " ++ (ip ++ codes ":19870"))

-- The mail to one recipient.
pub mail_to : (Bytes → Bytes) → Bytes → EmailInfo → EmailSender
unfolding new_sender set_smtp_server set_send_name set_send_mail add_recv_mail set_subject
    set_body_content
mail_to encode ip info = set_body_content encode (body_text ip) (
    set_subject (codes "ip changed") (
      add_recv_mail info.recipient (
        set_send_mail info.mail_from (
          set_send_name info.mail_from (
            set_smtp_server info.user_name info.passwd info.smtp_server (codes "25")
              (new_sender (codes "gb2312")))))))

-- The loop over the recipients: `result = sendMail.SendMail () | result`, and the mails for which
-- `SendMail` is called.
send_all : Round → Bytes → ℕ → List EmailInfo → Bool → List EmailSender × Bool
unfolding mail_to
send_all r ip k [] result = ([], result)
send_all r ip k (info ∷ infos) result =
    let mail = mail_to r.encode ip info in
    let (mails, sent) = send_all r ip (k + 1) infos (r.deliver k mail || result) in
    (mail ∷ mails, sent)

-- What a round did: the mails that were handed to `SendMail`, the row for which `updateToDb` was
-- called (its result is not looked at), and whether it leaves the inner loop.
pub record Outcome : Type 0 where
  pub mails : List EmailSender
  pub marked : Option ℕ
  pub leaves : Bool

abbrev idle : Outcome
idle = record { mails = []; marked = none; leaves = false }

-- The branch of a row that was not sent yet.
mail_row : Round → IpInfo → State → State × Outcome
unfolding send_all EmailInfo.get_res
mail_row r info s =
    let emails = EmailInfo.get_res r.mail_rows r.mail_last s.emails in
    let s' : State = record s { emails = emails } in
    let (mails, result) = send_all r info.ip 0 emails true in
    if result
    then (
      record s' { table = (update_to_db r.execute r.commit info.rec_id s.table).1 },
      record { mails = mails; marked = some info.rec_id; leaves = false },
    )
    else (s', record { mails = mails; marked = none; leaves = true })

choose : Round → List IpInfo → State → State × Outcome
unfolding mail_row
choose r [] s = (s, idle)
choose r (info ∷ infos) s =
    if bytes_eq info.send_flag (codes "0") then mail_row r info s else (s, idle)

-- One round of the inner loop of `sendEmail`.
unfoldable pub send_email_round : Round → State → State × Outcome
unfolding choose
send_email_round r s =
    let (ret, infos, table) = get_res r.query [] s.table in
    let s' : State = record s { table = table } in
    if eq_ℤ ret failed then (s', idle) else choose r infos s'

abbrev pub looked_at : Query → TblIpInfo → List IpInfo
looked_at q t = t.ip_infos ++ seen t.ip_insert q.rows

-- The mail that an account should get, of an encoder and an address: it goes to the recipient alone,
-- by the server and the names of the account.
abbrev pub notice : (Bytes → Bytes) → Bytes → EmailInfo → EmailSender
notice encode ip info = record {
  charset = codes "gb2312";
  subject = codes "ip changed";
  content = encode (body_text ip);
  file_name = [];
  message = new_stream;
  user_name = info.user_name;
  password = info.passwd;
  server_name = info.smtp_server;
  port = codes "25";
  send_name = encoded_word (codes "gb2312") info.mail_from;
  send_mail = info.mail_from;
  content_type = [];
  recv_mail = info.recipient ∷ [];
  attachments = [];
}

abbrev pub notices : Round → Bytes → List EmailInfo → List EmailSender
notices r ip infos = map (notice r.encode ip) infos

-- `result` starts as true and is only joined by `|`, so it stays true.
send_all_lem :
    (r : Round) (ip : Bytes) (k : ℕ) (infos : List EmailInfo)
    → send_all r ip k infos true ≡ (notices r ip infos, true)
unfolding send_all mail_to new_sender set_smtp_server set_send_name set_send_mail add_recv_mail
    set_subject set_body_content
send_all_lem r ip k [] = refl
send_all_lem r ip k (info ∷ infos) = elim (Bool-cases (r.deliver k (mail_to r.encode ip info))) [
  | inl accepted ↦ rw (accepted, send_all_lem r ip (k + 1) infos) refl
  | inr refused ↦ rw (refused, send_all_lem r ip (k + 1) infos) refl
]

-- The row that a round should mark: the first, if its flag is "0".
abbrev pub unsent : List IpInfo → Option ℕ
unsent [] = none
unsent (info ∷ infos) = if bytes_eq info.send_flag (codes "0") then some info.rec_id else none

-- What a round should mail.
abbrev pub mails_of : Round → State → List IpInfo → List EmailSender
mails_of r s [] = []
mails_of r s (info ∷ infos) =
    if bytes_eq info.send_flag (codes "0")
    then notices r info.ip (EmailInfo.get_res r.mail_rows r.mail_last s.emails)
    else []

choose_lem :
    (r : Round) (infos : List IpInfo) (s : State)
    → (choose r infos s).1
      ≡ record { mails = mails_of r s infos; marked = unsent infos; leaves = false }
unfolding choose
choose_lem r [] s = refl
choose_lem r (info ∷ infos) s =
    let all = send_all_lem r info.ip 0 (EmailInfo.get_res r.mail_rows r.mail_last s.emails) in
    elim (Bool-cases (bytes_eq info.send_flag (codes "0"))) [
      | inl fresh ↦ rw (fresh, choose, all)
      | inr done ↦ rw (done, choose)
    ]

-- A round of `sendEmail` on every branch, on the rows that earlier failed queries left in the object
-- and behind them those of its own query. Where the query runs through and the first of these rows
-- has the flag "0", `SendMail` is called once for each account that the object holds behind `getRes`,
-- in order, with the mail of the address to the recipient of the account alone, and `updateToDb` is
-- called for the row, whatever the deliveries return; else neither is called. The round never leaves
-- the inner loop, also where the update fails.
pub send_email_round_lem :
    (r : Round) (s : State)
    → (send_email_round r s).1 ≡ (
        if runs_through r.query
        then record {
          mails = mails_of r s (looked_at r.query s.table);
          marked = unsent (looked_at r.query s.table);
          leaves = false;
        }
        else record { mails = []; marked = none; leaves = false })
unfolding send_email_round
send_email_round_lem r s = elim (Bool-cases (runs_through r.query)) [
  | inl through ↦
      let table : TblIpInfo = record (s.table) { ip_infos = [] } in
      rw (get_res_lem r.query [] s.table, through)
        (choose_lem r (looked_at r.query s.table) (record s { table = table }))
  | inr broken ↦ rw (get_res_lem r.query [] s.table, broken)
]

kept-choose :
    (r : Round) (infos : List IpInfo) (s : State)
    → ((choose r infos s).0.table.ip_infos ≡ s.table.ip_infos)
      × ((choose r infos s).0.table.ip_insert ≡ s.table.ip_insert)
unfolding choose mail_row update_to_db
kept-choose r [] s = (refl, refl)
kept-choose r (info ∷ infos) s = (ground arith, ground arith)

-- A query that runs through leaves no row in the object, and the insert buffer is not touched.
pub drained-send_email_round :
    (r : Round) (s : State)
    → runs_through r.query ≡ true
    → ((send_email_round r s).0.table.ip_infos ≡ [])
      × ((send_email_round r s).0.table.ip_insert ≡ s.table.ip_insert)
unfolding send_email_round
drained-send_email_round r s through =
    let table : TblIpInfo = record (s.table) { ip_infos = [] } in
    rw (get_res_lem r.query [] s.table, through)
      (kept-choose r (looked_at r.query s.table) (record s { table = table }))

length-notices :
    (r : Round) (ip : Bytes) (infos : List EmailInfo) → length (notices r ip infos) ≡ length infos
length-notices r ip infos = length-map infos (notice r.encode ip)

taken-choose :
    (r : Round) (s : State) (infos : List IpInfo) (id : ℕ)
    → unsent infos ≡ some id
    → let emails = EmailInfo.get_res r.mail_rows r.mail_last s.emails in
      (length (mails_of r s infos) ≡ length emails) × ((choose r infos s).0.emails ≡ emails)
unfolding choose mail_row
taken-choose r s [] id e = cc
taken-choose r s (info ∷ infos) id e =
    let emails = EmailInfo.get_res r.mail_rows r.mail_last s.emails in
    let mails = length-notices r info.ip emails in (ground (arith, e, mails), ground (arith, e))

-- A round that takes a row mails everybody of the accounts that were ever read, and keeps them.
pub taken-send_email_round :
    (r : Round) (s : State) (id : ℕ)
    → runs_through r.query ≡ true
    → unsent (looked_at r.query s.table) ≡ some id
    → let emails = EmailInfo.get_res r.mail_rows r.mail_last s.emails in
      (length (send_email_round r s).1.mails ≡ length emails)
      × ((send_email_round r s).1.leaves ≡ false)
      × ((send_email_round r s).0.emails ≡ emails)
      × ((send_email_round r s).1.marked ≡ some id)
unfolding send_email_round
taken-send_email_round r s id through e =
    let table : TblIpInfo = record (s.table) { ip_infos = [] } in
    let infos = looked_at r.query s.table in
    let taken = taken-choose r (record s { table = table }) infos id e in
    rw (get_res_lem r.query [] s.table, through, choose_lem r infos (record s { table = table }))
      (taken.0, refl, taken.1, e)
