-- ===== src/Jobs/SendFile.antt =====
-- homeKeeper/workFunctions.hpp: `sendFile`, which mails a file (the table of work functions names it
-- in a comment only).
use home_keeper.Prelude.{
  ℕ, ◌+◌, Bool, true, false, ◌&&◌, List, [], ◌∷◌, ◌++◌, Option, none, some, ◌≡◌, inl, inr, refl,
  ◌∙◌, if◌then◌else◌, Bool-cases, arith, Bytes, codes, ℤ, eq_ℤ, failed,
}
use home_keeper.Tables.DownloadFile.{
  DownloadFile, FileInfo, Query, get_res, get_files_lem, update_to_db, runs_through, seen,
}
use home_keeper.Tables.EmailInfo.{EmailInfo}
use home_keeper.Tables.EmailInfo
use home_keeper.Email.{
  EmailSender, new_sender, set_smtp_server, set_send_name, set_send_mail, add_recv_mail,
  set_subject, add_attachment,
}

-- What one round meets, as in `sendEmail`.
pub record Round : Type 0 where
  pub query : Query
  pub mail_rows : List EmailInfo.Row
  pub mail_last : ℤ
  pub execute : ℤ
  pub commit : ℤ
  pub deliver : ℕ → EmailSender → Bool

-- The two objects of the thread, and the vector that it keeps across the rounds.
pub record State : Type 0 where
  pub table : DownloadFile
  pub emails : List EmailInfo
  pub files : List FileInfo

-- The mail to one recipient, of the first file.
pub mail_to : FileInfo → EmailInfo → EmailSender
unfolding new_sender set_smtp_server set_send_name set_send_mail add_recv_mail set_subject
    add_attachment
mail_to file info = add_attachment file.path (
    set_subject file.file_name (
      add_recv_mail info.recipient (
        set_send_mail info.mail_from (
          set_send_name info.mail_from (
            set_smtp_server info.user_name info.passwd info.smtp_server (codes "25")
              (new_sender (codes "gb2312")))))))

-- The loop over the recipients: `result = sendMail.SendMail () & result`.
send_all : Round → FileInfo → ℕ → List EmailInfo → Bool → Bool
unfolding mail_to
send_all r file k [] result = result
send_all r file k (info ∷ infos) result =
    send_all r file (k + 1) infos (r.deliver k (mail_to file info) && result)

-- The file that a round marked as sent, and whether it leaves the inner loop.
pub record Outcome : Type 0 where
  pub marked : Option Bytes
  pub leaves : Bool

-- The part of a round behind the query. `downloadFiles[0]` is read in any case: by the mails, or by
-- the update if there is no recipient; `none` is that read of an empty vector.
send_first : Round → List FileInfo → State → Option (State × Outcome)
unfolding send_all EmailInfo.get_res
send_first r [] s = none
send_first r (file ∷ files) s =
    let emails = EmailInfo.get_res r.mail_rows r.mail_last s.emails in
    let s' : State = record s { emails = emails } in
    if send_all r file 0 emails true
    then some (
      record s' { table = (update_to_db r.execute r.commit file.file_name s.table).1 },
      record { marked = some file.file_name; leaves = false },
    )
    else some (s', record { marked = none; leaves = true })

-- One round of the inner loop of `sendFile`.
unfoldable pub send_file_round : Round → State → Option (State × Outcome)
unfolding send_first
send_file_round r s =
    let (ret, files, table) = get_res r.query s.files s.table in
    let s' : State = record s { table = table; files = files } in
    if eq_ℤ ret failed
    then some (s', record { marked = none; leaves = false })
    else send_first r files s'

-- Whether every delivery from the k-th on succeeds.
abbrev pub all_delivered : Round → FileInfo → ℕ → List EmailInfo → Bool
all_delivered r file k [] = true
all_delivered r file k (info ∷ infos) =
    r.deliver k (mail_to file info) && all_delivered r file (k + 1) infos

send_all_lem :
    (r : Round) (file : FileInfo) (k : ℕ) (infos : List EmailInfo) (result : Bool)
    → send_all r file k infos result ≡ (result && all_delivered r file k infos)
unfolding send_all
send_all_lem r file k [] result = ground arith
send_all_lem r file k (info ∷ infos) result =
    send_all_lem r file (k + 1) infos (r.deliver k (mail_to file info) && result) ∙ ground arith

abbrev pub looked_at : Query → DownloadFile → List FileInfo
looked_at q t = t.dl_files ++ seen t.file_name_update q.rows

-- What a round does with the first of the files at hand.
abbrev pub expected : Round → List EmailInfo → List FileInfo → Option Outcome
expected r emails [] = none
expected r emails (file ∷ files) =
    if all_delivered r file 0 emails
    then some (record { marked = some file.file_name; leaves = false })
    else some (record { marked = none; leaves = true })

abbrev pub outcome_of : Option (State × Outcome) → Option Outcome
outcome_of none = none
outcome_of (some (s, o)) = some o

send_first_lem :
    (r : Round) (files : List FileInfo) (s : State)
    → outcome_of (send_first r files s)
      ≡ expected r (EmailInfo.get_res r.mail_rows r.mail_last s.emails) files
unfolding send_first
send_first_lem r [] s = refl
send_first_lem r (file ∷ files) s =
    let all = send_all_lem r file 0 (EmailInfo.get_res r.mail_rows r.mail_last s.emails) true in
    ground (arith, all)

-- A round of `sendFile`: a file is marked as sent only if every delivery succeeded, and else the
-- round leaves the inner loop; where the query runs through and there is no file at hand, it reads
-- the first element of an empty vector.
pub send_file_round_lem :
    (r : Round) (s : State)
    → outcome_of (send_file_round r s) ≡ (
        if runs_through r.query
        then expected r
            (EmailInfo.get_res r.mail_rows r.mail_last s.emails)
            (looked_at r.query s.table)
        else some (record { marked = none; leaves = false }))
unfolding send_file_round
send_file_round_lem r s = elim (Bool-cases (runs_through r.query)) [
  | inl through ↦ rw (get_files_lem r.query s.files s.table, through) (send_first_lem r _ _)
  | inr broken ↦ rw (get_files_lem r.query s.files s.table, broken)
]
