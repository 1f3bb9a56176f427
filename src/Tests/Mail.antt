-- ===== src/Tests/Mail.antt =====
-- The theorems on include/EmailSender.hpp and on the mail server at concrete inputs.
use home_keeper.Prelude.{
  map, List, ◌++◌, pos, if◌then◌else◌, true, false, [], ◌∷◌, Option, none, some, ◌≡◌, refl, length,
  ◌<◌, ◌^◌, ap, subst, ◌==◌, arith, replicate, Bytes, codes, NoZero,
}
use home_keeper.Tables.EmailInfo.{Row, read_row}
use home_keeper.MailServer.{
  Pass, accounts, init_fails, server_main, letter, logged, rows_before, fails_once, server_main_lem,
}
use home_keeper.Payload.{payload_source, insert_text}
use home_keeper.Email.{EmailSender, new_sender}
use home_keeper.Email.Message.{
  attach_all, Outside, build_mail, create_message, body_part, growing_parts, TextFiles,
  parts-build_mail,
}
use home_keeper.Email.Delivery.{
  Transport, Sent, Ends, pull, send_mail, attempts, send_mail_total, send_mail_again,
}

-- A sender with two recipients and two attachments.
abbrev two_files : EmailSender
two_files = record (new_sender (codes "gb2312")) {
  recv_mail = codes "a@x" ∷ codes "b@x" ∷ [];
  attachments = codes "/one" ∷ codes "/two" ∷ [];
}

-- Every file holds the same two bytes.
abbrev same_files : Outside
same_files = record {
  encode = λ bs. bs;
  load = λ e bs. record e { body = bs };
  render = λ m. m.subject;
  files = λ path. some (codes "hi");
}

hi_text :
    (path content : Bytes)
    → same_files.files path ≡ some content
    → NoZero content × (length content < 2 ^ 31)
hi_text path content e =
    let text : Option Bytes → Bytes = λ o. elim o [ none ↦ [] | some bs ↦ bs ] in
    subst (λ bs. NoZero bs × (length bs < 2 ^ 31)) (ap text e)
      ((omega arith, (omega arith, tt)), omega arith)

text_files : TextFiles same_files two_files.attachments
text_files = (hi_text (codes "/one"), (hi_text (codes "/two"), tt))

parts-build_mail_example :
    (build_mail same_files two_files).parts
    ≡ body_part same_files two_files ∷ growing_parts same_files [] two_files.attachments
parts-build_mail_example = parts-build_mail same_files two_files text_files

-- The first attempt is refused and the second one accepted; each asks for all of the message.
abbrev second_try : Transport
second_try = record { has_handle = true; accepts = λ k. k == 1; pulls = λ k. 3; buffer = 64 }

send_mail_total_example : Ends second_try same_files two_files
send_mail_total_example = send_mail_total second_try same_files two_files

abbrev plain_sender : EmailSender
plain_sender = record two_files { attachments = [] }

-- The mail is empty.
abbrev no_text : Outside
no_text = record same_files { render = λ m. [] }

reads_to_end : (pull 3 64 (create_message no_text plain_sender).message).1.at_end ≡ true
unfolding pull payload_source insert_text create_message attach_all new_sender
reads_to_end = refl

send_mail_again_example :
    (sent : Sent) × (send_mail second_try no_text plain_sender ≡ some sent)
    × (sent.bodies
        ≡ (pull 3 64 (create_message no_text plain_sender).message).0
          ∷ replicate (attempts second_try 5 1) [])
    × (sent.ok ≡ false)
send_mail_again_example = send_mail_again second_try no_text plain_sender refl refl reads_to_end

-- An account, as it stands in its buffers.
abbrev account : Row
account = record {
  user_name = codes "u" ++ 0 ∷ [];
  passwd = codes "p" ++ 0 ∷ [];
  smtp_server = codes "s" ++ 0 ∷ [];
  recipient = codes "r@x" ++ 0 ∷ [];
  mail_from = codes "m@x" ++ 0 ∷ [];
}

abbrev two_passes : List Pass
two_passes = accounts (account ∷ []) (pos 100) ∷ init_fails ∷ []

server_main_lem_example :
    server_main (λ bs. bs) (pos 0) two_passes
    ≡ logged (record {
      printed = [];
      mails = map (letter (λ bs. bs)) (map read_row (rows_before two_passes));
      ret = if fails_once two_passes then some (pos 0) else none;
    })
server_main_lem_example = server_main_lem (λ bs. bs) two_passes
