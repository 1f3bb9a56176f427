-- ===== src/Tests/Rows.antt =====
-- The theorems on the rows that `sendEmail` marks and on its mails, at a concrete server, which keeps
-- the rows in a list and numbers them from its end.
use home_keeper.Prelude.{
  none, some, failed, map, ◌++◌, ℕ, suc, ◌+◌, ◌<◌, false, List, [], ◌∷◌, ◌≡◌, refl, ap, ◌==◌,
  if◌then◌else◌, arith, length, Bytes, codes, All, pos, success,
}
use home_keeper.Tables.IpInfo.{new_tbl_ip_info}
use home_keeper.Jobs.History.{Stored, Server, mark}
use home_keeper.Jobs.MailedOnce.{Meeting, Numbers}
use home_keeper.Tables.IpInfo.{read_row}
use home_keeper.Tables.EmailInfo.{Fetches}
use home_keeper.Jobs.Sessions.{
  Takes, mail_counts, send_email, inits_of, inits, meets, outer, send_email_counts,
}
use home_keeper.Jobs.Both
use home_keeper.Jobs.Both.Sound.{run-IsSound}
use home_keeper.Jobs.Openings
use home_keeper.Jobs.Sessions
use home_keeper.Tests.Work.{unsent_row, recipient, answer, answer_fits}

abbrev Rows : Type 0
Rows = List (Bytes × ℕ)

abbrev numbered : Rows → List Stored
numbered [] = []
numbered ((ip, flag) ∷ d) = record { rec_id = length d + 1; ip = ip; flag = flag } ∷ numbered d

abbrev mark_number : ℕ → Rows → Rows
mark_number id [] = []
mark_number id ((ip, flag) ∷ d) = (ip, if length d + 1 == id then 49 else flag) ∷ mark_number id d

length-mark_number : (id : ℕ) (d : Rows) → length (mark_number id d) ≡ length d
length-mark_number id [] = refl
length-mark_number id ((ip, flag) ∷ d) = ap suc (length-mark_number id d)

numbered-mark_number : (id : ℕ) (d : Rows) → numbered (mark_number id d) ≡ mark id (numbered d)
numbered-mark_number id [] = refl
numbered-mark_number id ((ip, flag) ∷ d) =
    ground (arith, numbered-mark_number id d, length-mark_number id d)

numbers_below : (n : ℕ) (d : Rows) → length d < n → All (λ (s : Stored). s.rec_id < n) (numbered d)
numbers_below n [] l = tt
numbers_below n ((ip, flag) ∷ d) l = (omega arith, numbers_below n d (omega arith))

abbrev numbered_server : Server
numbered_server = record {
  Db = Rows;
  rows = numbered;
  insert_row = λ ip d. (ip, 48) ∷ d;
  mark_row = mark_number;
  next_id = λ d. length d + 1;
  rows_insert = λ ip d. refl;
  rows_mark = numbered-mark_number;
}

numbered_numbers : Numbers numbered_server
numbered_numbers = record {
  below = λ d. numbers_below (length d + 1) d (omega arith);
  grows = λ ip d. omega arith;
  stays = λ id d. ap (λ n. n + 1) (length-mark_number id d);
}

-- A round in which `getIp` inserts an address between the select and the update.
abbrev met : Meeting
met = record {
  inserted = codes "10.0.0.2" ∷ [];
  mail_rows = recipient ∷ [];
  mail_last = pos 100;
  execute = success;
  commit = success;
  encode = λ bs. bs;
  deliver = λ k s. false;
}

unsent_row-Takes : Takes unsent_row
unfolding read_row
unsent_row-Takes = record { id = 3; through = refl; found = refl }

-- Two accounts are read whole, and a row between them is cut.
abbrev cut_between : Fetches
cut_between = some recipient ∷ none ∷ some recipient ∷ []

send_email_counts_example :
    mail_counts (
      send_email
        (inits_of ((failed, success, []) ∷ [])
          ++ inits success success cut_between
            ∷ map meets (unsent_row ∷ unsent_row ∷ unsent_row ∷ []))
        outer)
    ≡ 1 ∷ 2 ∷ 2 ∷ []
send_email_counts_example =
    send_email_counts ((failed, success, []) ∷ []) cut_between
      (unsent_row ∷ unsent_row ∷ unsent_row ∷ []) (refl, tt)
      (unsent_row-Takes, (unsent_row-Takes, (unsent_row-Takes, tt)))

-- `sendEmail` looks while the second insert of `getIp` is to come, and marks the row behind it.
abbrev both_events : List Both.Event
both_events =
    Both.opens failed
    ∷ Both.opens success
    ∷ Both.inits success success (some recipient ∷ [])
    ∷ Both.asks answer success
    ∷ Both.inserts
    ∷ Both.looks met
    ∷ Both.asks answer success
    ∷ Both.inserts
    ∷ Both.marks
    ∷ Both.looks met
    ∷ []

both_events_fit : All (Both.Fits numbered_server numbered_numbers) both_events
both_events_fit = (
  tt,
  (tt, (tt, (answer_fits, (tt, ((refl, refl), (answer_fits, (tt, (tt, ((refl, refl), tt))))))))),
)

abbrev both_start : Both.Both numbered_server
both_start = record {
  db = [];
  get_ip = Openings.starting [];
  insertion = none;
  send_email = Sessions.outer;
  marking = none;
  settled = [];
}

both_start-IsSound : Both.IsSound numbered_server numbered_numbers both_start
unfolding new_tbl_ip_info
both_start-IsSound = record {
  changes = tt;
  texts = tt;
  insert_fits = tt;
  mark_fits = tt;
  kept = tt;
  distinct = tt;
  drained = tt;
  mails_drained = tt;
}

run-IsSound_example :
    Both.IsSound numbered_server numbered_numbers
      (Both.run numbered_server numbered_numbers both_events both_start)
run-IsSound_example =
    run-IsSound numbered_server numbered_numbers both_events both_start both_events_fit
      both_start-IsSound
