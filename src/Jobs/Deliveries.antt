-- ===== src/Jobs/Deliveries.antt =====
-- homeKeeper/workFunctions.hpp with include/EmailSender.hpp: `sendFile` where every delivery is a run
-- of `SendMail`, each with its own transport.
use home_keeper.Prelude.{
  ℕ, zero, suc, ◌+◌, Bool, true, false, not, ◌&&◌, ◌||◌, List, [], ◌∷◌, none, some, ◌≡◌, refl, ◌∙◌,
  if◌then◌else◌, arith, length,
}
use home_keeper.Email.{EmailSender}
use home_keeper.Email.Message.{Outside}
use home_keeper.Email.Delivery.{Transport, send_mail, send_mail_total}
use home_keeper.Tables.EmailInfo
use home_keeper.Tables.EmailInfo.{EmailInfo}
use home_keeper.Tables.DownloadFile.{FileInfo, runs_through}
use home_keeper.Jobs.SendFile.{
  Round, State, mail_to, all_delivered, send_file_round, outcome_of, looked_at, send_file_round_lem,
}

-- The result of the k-th `SendMail`.
pub delivered : Outside → (ℕ → Transport) → ℕ → EmailSender → Bool
delivered o transports k s = elim (send_mail (transports k) o s) [
  | none ↦ false
  | some sent ↦ sent.ok
]

-- The transport has no handle, or accepts its first attempt.
abbrev pub at_once : Transport → Bool
at_once t = not t.has_handle || t.accepts 0

delivered_lem :
    (o : Outside) (transports : ℕ → Transport) (k : ℕ) (s : EmailSender)
    → delivered o transports k s ≡ at_once (transports k)
unfolding delivered
delivered_lem o transports k s =
    let (sent, run, len, few, ok) = send_mail_total (transports k) o s in rw (run, delivered) ok

-- The transports of `n` mails from the k-th on.
abbrev pub all_at_once : (ℕ → Transport) → ℕ → ℕ → Bool
all_at_once transports k zero = true
all_at_once transports k (suc n) = at_once (transports k) && all_at_once transports (k + 1) n

-- A round whose deliveries are runs of `SendMail`.
abbrev pub with_transports : Outside → (ℕ → Transport) → Round → Round
with_transports o transports r = record r { deliver = delivered o transports }

all_delivered_lem :
    (o : Outside) (transports : ℕ → Transport) (r : Round) (file : FileInfo) (k : ℕ)
    (infos : List EmailInfo)
    → all_delivered (with_transports o transports r) file k infos
      ≡ all_at_once transports k (length infos)
all_delivered_lem o transports r file k [] = refl
all_delivered_lem o transports r file k (info ∷ infos) = rw (
  delivered_lem o transports k (mail_to file info),
  all_delivered_lem o transports r file (k + 1) infos,
)

-- Where the query of a round of `sendFile` runs through and there is a file at hand, the round marks
-- it as sent if `SendMail` has no handle or its first attempt accepted for every recipient, and else
-- leaves the inner loop with no file marked: a mail that a later attempt delivered counts as failed.
pub send_file_marks :
    (o : Outside) (transports : ℕ → Transport) (r : Round) (s : State) (file : FileInfo)
    (files : List FileInfo)
    → runs_through r.query ≡ true
    → looked_at r.query s.table ≡ file ∷ files
    → let infos = EmailInfo.get_res r.mail_rows r.mail_last s.emails in
      outcome_of (send_file_round (with_transports o transports r) s)
      ≡ some (
          if all_at_once transports 0 (length infos)
          then record { marked = some file.file_name; leaves = false }
          else record { marked = none; leaves = true })
send_file_marks o transports r s file files q l =
    let r' = with_transports o transports r in
    let infos = EmailInfo.get_res r.mail_rows r.mail_last s.emails in
    let all = all_delivered_lem o transports r file 0 infos in
    send_file_round_lem r' s ∙ rw (q, l) (ground (arith, all))
