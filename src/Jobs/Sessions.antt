-- ===== src/Jobs/Sessions.antt =====
-- homeKeeper/workFunctions.hpp: `sendEmail` with its outer loop, which makes its objects anew after an
-- `init` that fails and after a round that leaves the inner loop.
use home_keeper.Prelude.{
  ℕ, zero, suc, ◌+◌, true, false, not, ◌&&◌, List, [], ◌∷◌, ◌++◌, map, none, some, ◌≡◌, refl, ap,
  ◌∙◌, if◌then◌else◌, arith, length, All, ℤ, eq_ℤ, success,
}
use home_keeper.Tables.IpInfo.{new_tbl_ip_info, runs_through, seen}
use home_keeper.Tables.EmailInfo
use home_keeper.Tables.EmailInfo.{
  Fetches, fetched, rows_before, rest_after, fetched_lem, length-get_res,
}
use home_keeper.Jobs.SendEmail.{
  Round, State, Outcome, send_email_round, looked_at, unsent, drained-send_email_round,
  taken-send_email_round,
}

-- Where the thread is: before the calls of `init`, or in the inner loop with its two objects and what
-- the select of the accounts still gives.
pub data Loop : Type 0 where
  outer : Loop
  inner : Fetches → State → Loop

-- What the loops meet: the results of both calls of `init` (the second is not made where the first
-- fails) with what the select of the accounts gives, which the first call executes; or a round of the
-- inner loop, whose accounts are those that the select gives.
pub data Event : Type 0 where
  inits : ℤ → ℤ → Fetches → Event
  meets : Round → Event

-- The objects that were made anew.
abbrev pub fresh : State
fresh = record { table = new_tbl_ip_info; emails = [] }

-- The round with the accounts that the select still gives.
abbrev pub reading : Fetches → Round → Round
reading fetches r = record r { mail_rows = (fetched fetches).0; mail_last = (fetched fetches).1 }

-- A round that leaves the row alone does not call `getRes` of the accounts.
abbrev pub left_after : Fetches → Outcome → Fetches
left_after fetches o = elim o.marked [ none ↦ fetches | some id ↦ (fetched fetches).2 ]

-- One event, with what a round did. An event that does not belong to the loop is passed over.
unfoldable pub step : Event → Loop → Loop × List Outcome
unfolding fetched
step (inits email ip fetches) outer =
    if not (eq_ℤ email success)
    then (outer, [])
    else if not (eq_ℤ ip success)
    then (outer, [])
    else (inner fetches fresh, [])
step (inits email ip fetches) (inner left s) = (inner left s, [])
step (meets r) outer = (outer, [])
step (meets r) (inner fetches s) =
    let (s', o) = send_email_round (reading fetches r) s in
    ((if o.leaves then outer else inner (left_after fetches o) s'), o ∷ [])

-- What the rounds of all events did.
pub send_email : List Event → Loop → List Outcome
unfolding step
send_email [] l = []
send_email (e ∷ es) l = (step e l).1 ++ send_email es (step e l).0

-- The query of a round runs through and finds a row that was not sent.
pub record Takes (r : Round) : Type 0 where
  pub id : ℕ
  pub through : runs_through r.query ≡ true
  pub found : unsent (seen [] r.query.rows) ≡ some id

abbrev pub inits_of : List (ℤ × ℤ × Fetches) → List Event
inits_of [] = []
inits_of ((email, ip, fetches) ∷ rest) = inits email ip fetches ∷ inits_of rest

-- One call or both fail.
abbrev pub Fails : ℤ × ℤ × Fetches → Type 0
Fails (email, ip, fetches) = (eq_ℤ email success && eq_ℤ ip success) ≡ false

-- The numbers of mails of rounds, from `k` accounts that the object holds.
abbrev pub accounts_read : ℕ → Fetches → ℕ → List ℕ
accounts_read k fetches zero = []
accounts_read k fetches (suc n) =
    (k + rows_before fetches) ∷ accounts_read (k + rows_before fetches) (rest_after fetches) n

abbrev pub mail_counts : List Outcome → List ℕ
mail_counts outcomes = map (λ (o : Outcome). length o.mails) outcomes

record IsDrained (s : State) : Type 0 where
  rows : s.table.ip_infos ≡ []
  buffer : s.table.ip_insert ≡ []

-- A round that takes a row, from a table that holds none.
round_lem :
    (fetches : Fetches) (r : Round) (s : State)
    → IsDrained s
    → Takes r
    → let (s', o) = send_email_round (reading fetches r) s in
      let n = length s.emails + rows_before fetches in
      (length o.mails ≡ n)
      × (o.leaves ≡ false)
      × (left_after fetches o ≡ rest_after fetches)
      × (length s'.emails ≡ n)
      × IsDrained s'
round_lem fetches r s d t =
    let r' = reading fetches r in
    let e : unsent (looked_at r.query s.table) ≡ some t.id = rw (d.rows, d.buffer) t.found in
    let (mails, stays, emails, marks) = taken-send_email_round r' s t.id t.through e in
    let (rows, buffer) = drained-send_email_round r' s t.through in
    let (count, left) = fetched_lem fetches in
    let all : length (EmailInfo.get_res r'.mail_rows r'.mail_last s.emails)
        ≡ length s.emails + rows_before fetches =
      length-get_res r'.mail_rows r'.mail_last s.emails ∙ ap (λ n. length s.emails + n) count in
    (
      mails ∙ all,
      stays,
      rw (left_after, marks) left,
      ap length emails ∙ all,
      record { rows = rows; buffer = buffer ∙ d.buffer },
    )

inner_lem :
    (k : ℕ) (fetches : Fetches) (rs : List Round) (s : State)
    → IsDrained s
    → length s.emails ≡ k
    → All Takes rs
    → mail_counts (send_email (map meets rs) (inner fetches s))
      ≡ accounts_read k fetches (length rs)
unfolding send_email step
inner_lem k fetches [] s d e t = refl
inner_lem k fetches (r ∷ rs) s d e t =
    let (mails, stays, left, emails, drained) = round_lem fetches r s d t.0 in
    let s' = (send_email_round (reading fetches r) s).0 in
    let more = ap (λ n. n + rows_before fetches) e in
    rw
      (
        stays,
        left,
        mails ∙ more,
        inner_lem (k + rows_before fetches) (rest_after fetches) rs s' drained (emails ∙ more) t.1,
      )
      refl

failed_inits :
    (email ip : ℤ) (fetches : Fetches)
    → Fails (email, ip, fetches)
    → step (inits email ip fetches) outer ≡ (outer, [])
unfolding step
failed_inits email ip fetches h = ground (arith, h)

-- After any number of failed calls of `init`, from the first time that both succeed, where every round
-- takes a row: a round hands to `SendMail` one mail for each account that its object has read so far.
-- The select is executed once, so that a round reads on where the one before it stopped: each reads up
-- to the next row that is reported as cut, and where none is cut, the first round reads all accounts
-- and the later ones mail the same again.
pub send_email_counts :
    (fails : List (ℤ × ℤ × Fetches)) (fetches : Fetches) (rs : List Round)
    → All Fails fails
    → All Takes rs
    → mail_counts
        (send_email (inits_of fails ++ inits success success fetches ∷ map meets rs) outer)
      ≡ accounts_read 0 fetches (length rs)
unfolding send_email step new_tbl_ip_info
send_email_counts [] fetches rs f t =
    inner_lem 0 fetches rs fresh (record { rows = refl; buffer = refl }) refl t
send_email_counts ((email, ip, others) ∷ fails) fetches rs (h, f) t =
    ap
      (λ x.
        mail_counts
          (x.1 ++ send_email (inits_of fails ++ inits success success fetches ∷ map meets rs) x.0))
      (failed_inits email ip others h)
    ∙ send_email_counts fails fetches rs f t
