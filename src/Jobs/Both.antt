-- ===== src/Jobs/Both.antt =====
-- homeKeeper/workFunctions.hpp: `getIp` and `sendEmail` on one table of addresses, as two threads with
-- their outer loops, whose selects and writes interleave. The server is a parameter; what a round keeps in its own objects is
-- computed with its select. The rows that a `Meeting` inserts have no part here.
pub mod Sound
use home_keeper.Prelude.{
  Bool, true, false, if◌then◌else◌, ℕ, ◌<◌, List, [], ◌∷◌, Option, none, some, ◌≡◌, inl, inr, refl,
  sym, ◌∙◌, Bool-cases, Option-cases, arith, Bytes, All, ℤ, eq_ℤ, success, NoZero, length,
}
use home_keeper.Curl.{Transfer, curl_util}
use home_keeper.Jobs.GetIp.{get_ip_round, drained-get_ip_round}
use home_keeper.Jobs.SendEmail
use home_keeper.Jobs.SendEmail.{Outcome, send_email_round, unsent, drained-send_email_round}
use home_keeper.Tables.IpInfo.{new_tbl_ip_info}
use home_keeper.Tables.EmailInfo.{Fetches}
use home_keeper.Jobs.Openings
use home_keeper.Jobs.Openings.{starting, running}
use home_keeper.Jobs.Sessions
use home_keeper.Jobs.Sessions.{outer, inner}
use home_keeper.Jobs.History
use home_keeper.Jobs.History.{
  Stored, Server, Alternates, ips, ips-mark, newest, query_of, Alternates-cons, print_into-fits,
  curl_util-NoZero, inserted_lem,
}
use home_keeper.Jobs.Marks.{Distinct}
use home_keeper.Jobs.MailedOnce
use home_keeper.Jobs.MailedOnce.{
  Numbers, Meeting, Kept, Kept-insert_all, Kept-mark_row, mark_row-Kept, fresh_lem, number_lem,
  marked_lem,
}
use home_keeper.Jobs.Writes.{
  later, pending_id, InsertFits, MarkFits, insertion_after, marking_after, insert_lem, mark_lem,
}

-- The table, what both threads keep, the insert of `getIp` and the update of `sendEmail` that are still
-- to come, and the rows that finished rounds of `sendEmail` took, the last first.
pub record Both (server : Server) : Type 0 where
  pub db : server.Db
  pub get_ip : Openings.Loop
  pub insertion : Option (Bytes × ℤ)
  pub send_email : Sessions.Loop
  pub marking : Option (ℕ × Meeting)
  pub settled : List ℕ

-- The result of `init` in `getIp`; its transfer and its select, with the result that its insert will
-- have; its insert; the results of both calls of `init` in `sendEmail`, with what the select of the
-- accounts gives; its select and its mails, where the accounts of the meeting have no part; its update.
pub data Event : Type 0 where
  opens : ℤ → Event
  inits : ℤ → ℤ → Fetches → Event
  asks : Transfer → ℤ → Event
  inserts : Event
  looks : Meeting → Event
  marks : Event

-- The row that a round of `sendEmail` took.
abbrev pub marked_of : List Outcome → Option ℕ
marked_of [] = none
marked_of (o ∷ os) = o.marked

-- The objects of a loop hold no rows of a query that failed.
abbrev pub Drained : Openings.Loop → Type 0
Drained (starting result) = Unit
Drained (running s) = s.table.ip_infos ≡ []

abbrev pub MailsDrained : Sessions.Loop → Type 0
MailsDrained outer = Unit
MailsDrained (inner fetches s) = (s.table.ip_infos ≡ []) × (s.table.ip_insert ≡ [])

module _ (server : Server) (numbers : Numbers server) where
  open server use {Db, rows}

  -- One step of a thread. A round begins only once the one before has ended.
  pub step : Event → Both server → Both server
  step (opens ret) b = record b { get_ip = (Openings.step (Openings.opens ret) b.get_ip).0 }
  step (inits email ip fetches) b = record b {
    send_email = (Sessions.step (Sessions.inits email ip fetches) b.send_email).0;
  }
  step (asks t ret) b = elim b.insertion [
    | some p ↦ b
    | none ↦
        let round = Openings.asks (History.round_of server t ret b.db) in
        let (l, o) = Openings.step round b.get_ip in
        record b { get_ip = l; insertion = later o ret }
  ]
  step inserts b = elim b.insertion [
    | none ↦ b
    | some (ip, ret) ↦ record b {
      db = History.apply_insert server (some ip) ret b.db;
      insertion = none;
    }
  ]
  step (looks m) b = elim b.marking [
    | some p ↦ b
    | none ↦
        let round = Sessions.meets (MailedOnce.round_of server numbers m b.db) in
        let (l, os) = Sessions.step round b.send_email in
        record b { send_email = l; marking = later (marked_of os) m }
  ]
  step marks b = elim b.marking [
    | none ↦ b
    | some (id, m) ↦ record b {
      db = MailedOnce.apply_mark server numbers m (some id) b.db;
      marking = none;
      settled = id ∷ b.settled;
    }
  ]

  pub run : List Event → Both server → Both server
  run [] b = b
  run (e ∷ es) b = run es (step e b)

  -- The rows that rounds of `sendEmail` took, the one whose update is to come too.
  abbrev pub taken : Both server → List ℕ
  taken b = MailedOnce.noted server numbers (pending_id b.marking) b.settled

  -- Every address fits into the buffer of the insert, and every update runs through.
  abbrev pub Fits : Event → Type 0
  Fits (opens ret) = Unit
  Fits (inits email ip fetches) = Unit
  Fits (asks t ret) = (result : Bytes) → length (curl_util t result).0 < 100
  Fits inserts = Unit
  Fits (looks m) = (m.execute ≡ success) × (m.commit ≡ success)
  Fits marks = Unit

  pub record IsSound (b : Both server) : Type 0 where
    pub changes : Alternates (ips (rows b.db))
    pub texts : All NoZero (ips (rows b.db))
    pub insert_fits : InsertFits server numbers b.insertion b.db
    pub mark_fits : MarkFits server numbers b.marking b.db
    pub kept : All (Kept server numbers b.db) b.settled
    pub distinct : Distinct (taken b)
    pub drained : Drained b.get_ip
    pub mails_drained : MailsDrained b.send_email
