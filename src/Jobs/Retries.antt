-- ===== src/Jobs/Retries.antt =====
-- homeKeeper/workFunctions.hpp: `sendFile` with its outer loop, which makes the objects anew after an
-- `init` that fails and after a round that leaves the inner loop. The vector `downloadFiles` stands
-- outside both loops. The sleeps are left out.
use home_keeper.Prelude.{
  Bool, Bool-cases, inl, inr, true, false, not, ◌&&◌, List, [], ◌∷◌, ◌++◌, Option, none, some, ◌≡◌,
  Bytes, refl, ap, ◌∙◌, if◌then◌else◌, arith, length, replicate, ℤ, eq_ℤ, success,
}
use home_keeper.Tables.DownloadFile.{FileInfo, new_download_file, runs_through}
use home_keeper.Tables.EmailInfo
use home_keeper.Jobs.SendFile.{
  Round, State, Outcome, send_file_round, send_file_round_lem, all_delivered, outcome_of, looked_at,
}

-- Where `sendFile` is: in front of both calls of `init`, with the vector, or in the inner loop.
pub data Loop : Type 0 where
  outer : List FileInfo → Loop
  inner : State → Loop

-- The results of both calls of `init` (the second is not made where the first fails) with the bytes that
-- the memory of the new object of the files holds, or a round.
pub data Event : Type 0 where
  inits : ℤ → ℤ → Bytes → Event
  meets : Round → Event

abbrev fresh : Bytes → List FileInfo → State
fresh memory files = record { table = new_download_file memory; emails = []; files = files }

-- Behind a round.
abbrev next_loop : State → Outcome → Loop
next_loop s o = if o.leaves then outer s.files else inner s

-- One event, with what a round did; `none` where it reads the first element of an empty vector.
pub step : Event → Loop → Option (Loop × List Outcome)
step (inits email file memory) (outer files) =
    if not (eq_ℤ email success)
    then some (outer files, [])
    else if not (eq_ℤ file success)
    then some (outer files, [])
    else some (inner (fresh memory files), [])
step (inits email file memory) (inner s) = some (inner s, [])
step (meets r) (outer files) = some (outer files, [])
step (meets r) (inner s) = elim (send_file_round r s) [
  | none ↦ none
  | some (s', o) ↦ some (next_loop s' o, o ∷ [])
]

-- What was done, and then the rest.
abbrev pub before : List Outcome → Option (List Outcome) → Option (List Outcome)
before os none = none
before os (some rest) = some (os ++ rest)

-- What the rounds of all events did.
pub send_file : List Event → Loop → Option (List Outcome)
send_file [] l = some []
send_file (e ∷ es) l = elim (step e l) [ none ↦ none | some (l', os) ↦ before os (send_file es l') ]

-- The query runs through and gives the file first, to an object made anew in this memory; and whether every mail of
-- it to the accounts that the round reads is delivered.
pub record Offers (memory : Bytes) (file : FileInfo) (r : Round) : Type 0 where
  pub others : List FileInfo
  pub through : runs_through r.query ≡ true
  pub first : looked_at r.query (new_download_file memory) ≡ file ∷ others

abbrev pub delivered : FileInfo → Round → Bool
delivered file r = all_delivered r file 0 (EmailInfo.get_res r.mail_rows r.mail_last [])

abbrev pub Refused : Bytes → FileInfo → Round → Type 0
Refused memory file r = Offers memory file r × (delivered file r ≡ false)

-- A day: calls of `init` that fail, both succeeding, and one round.
pub record Day : Type 0 where
  pub failures : List (ℤ × ℤ)
  pub memory : Bytes
  pub round : Round

abbrev pub FailsAll : List (ℤ × ℤ) → Type 0
FailsAll [] = Unit
FailsAll ((email, file) ∷ rest) =
    ((eq_ℤ email success && eq_ℤ file success) ≡ false) × FailsAll rest

abbrev pub day_events : List (ℤ × ℤ) → Bytes → Round → List Event → List Event
day_events [] memory r es = inits success success memory ∷ meets r ∷ es
day_events ((email, file) ∷ rest) memory r es =
    inits email file memory ∷ day_events rest memory r es

abbrev pub events : List Day → List Event → List Event
events [] es = es
events (d ∷ days) es = day_events d.failures d.memory d.round (events days es)

abbrev pub gives_up : Outcome
gives_up = record { marked = none; leaves = true }

abbrev pub marks : FileInfo → Outcome
marks file = record { marked = some file.file_name; leaves = false }

outcome_cases :
    (x : Option (State × Outcome)) (o : Outcome)
    → outcome_of x ≡ some o
    → (s : State) × (x ≡ some (s, o))
outcome_cases none o e = cc
outcome_cases (some (s, p)) o e = (s, cc)

-- What a fresh round does that offers the file.
offered :
    (memory : Bytes) (file : FileInfo) (r : Round) (files : List FileInfo)
    → Offers memory file r
    → (s : State) × (send_file_round r (fresh memory files)
        ≡ some (s, if delivered file r then marks file else gives_up))
offered memory file r files o =
    let emails = EmailInfo.get_res r.mail_rows r.mail_last [] in
    let all : outcome_of (send_file_round r (fresh memory files))
        ≡ some (if delivered file r then marks file else gives_up) =
      send_file_round_lem r (fresh memory files)
      ∙ rw (o.through, o.first)
          (elim (Bool-cases (delivered file r)) [ inl e ↦ rw e refl | inr e ↦ rw e refl ]) in
    outcome_cases (send_file_round r (fresh memory files))
      (if delivered file r then marks file else gives_up) all

before_nothing : (x : Option (List Outcome)) → before [] x ≡ x
before_nothing none = refl
before_nothing (some rest) = refl

failed_init :
    (email file : ℤ) (memory : Bytes) (files : List FileInfo) (es : List Event)
    → (eq_ℤ email success && eq_ℤ file success) ≡ false
    → send_file (inits email file memory ∷ es) (outer files) ≡ send_file es (outer files)
unfolding send_file step
failed_init email file memory files es f =
    let same : step (inits email file memory) (outer files) ≡ some (outer files, []) =
      ground (arith, f) in
    rw (send_file, same) (before_nothing (send_file es (outer files)))

first_round :
    (memory : Bytes) (r : Round) (files : List FileInfo) (es : List Event) (s : State) (o : Outcome)
    → send_file_round r (fresh memory files) ≡ some (s, o)
    → send_file (inits success success memory ∷ meets r ∷ es) (outer files)
      ≡ before (o ∷ []) (send_file es (next_loop s o))
unfolding send_file step
first_round memory r files es s o e =
    rw (send_file, e) (before_nothing (before (o ∷ []) (send_file es (next_loop s o))))

-- A day from its first call of `init` on.
day_lem :
    (file : FileInfo) (failures : List (ℤ × ℤ)) (memory : Bytes) (r : Round) (files : List FileInfo)
    (es : List Event)
    → FailsAll failures
    → Offers memory file r
    → (s : State) × (let o = if delivered file r then marks file else gives_up in
        send_file (day_events failures memory r es) (outer files)
        ≡ before (o ∷ []) (send_file es (next_loop s o)))
day_lem file [] memory r files es f offers =
    let (s, e) = offered memory file r files offers in
    (s, first_round memory r files es s (if delivered file r then marks file else gives_up) e)
day_lem file ((email, ret) ∷ failures) memory r files es (f, fs) offers =
    let (s, e) = day_lem file failures memory r files es fs offers in
    (s, failed_init email ret memory files (day_events failures memory r es) f ∙ e)

-- Each day's query runs through and gives the file first; on the days no mail of it is delivered to
-- all.
abbrev pub RefusedDays : FileInfo → List Day → Type 0
RefusedDays file [] = Unit
RefusedDays file (d ∷ days) =
    FailsAll d.failures × Refused d.memory file d.round × RefusedDays file days

-- Whatever number of calls of `init` fail, and however many days pass on which some mail of the file
-- is not delivered, where the query of each day runs through and gives the file first: `sendFile` marks
-- nothing on those days, leaves the inner loop after one round of each, and marks the file on the first
-- day on which all its mails are delivered.
pub send_file_retries :
    (file : FileInfo) (days : List Day) (last : Day) (files : List FileInfo)
    → RefusedDays file days
    → FailsAll last.failures
    → Offers last.memory file last.round
    → delivered file last.round ≡ true
    → send_file (events days (day_events last.failures last.memory last.round [])) (outer files)
      ≡ some (replicate (length days) gives_up ++ marks file ∷ [])
unfolding send_file
send_file_retries file [] last files refused fails offers ok =
    let (s, e) = day_lem file last.failures last.memory last.round files [] fails offers in
    e ∙ rw ok refl
send_file_retries file (d ∷ days) last files (fails_d, (offers_d, no_d), refused) fails offers ok =
    let es = events days (day_events last.failures last.memory last.round []) in
    let (s, e) = day_lem file d.failures d.memory d.round files es fails_d offers_d in
    e
    ∙ rw no_d (
        ap (before (gives_up ∷ []))
          (send_file_retries file days last s.files refused fails offers ok))
