-- ===== src/Jobs/Both/Sound.antt =====
-- homeKeeper/workFunctions.hpp: what `getIp` and `sendEmail` leave of the table of addresses together.
use home_keeper.Prelude.{
  Bool, true, false, if◌then◌else◌, ℕ, List, [], ◌∷◌, inl, inr, refl, sym, ◌∙◌, Bool-cases,
  Option-cases, arith, All, ℤ, eq_ℤ, success, NoZero,
}
use home_keeper.Curl.{Transfer}
use home_keeper.Jobs.GetIp.{get_ip_round, drained-get_ip_round}
use home_keeper.Jobs.SendEmail
use home_keeper.Jobs.SendEmail.{Outcome, send_email_round, unsent, drained-send_email_round}
use home_keeper.Tables.IpInfo.{new_tbl_ip_info}
use home_keeper.Jobs.Openings
use home_keeper.Jobs.Openings.{starting, running}
use home_keeper.Jobs.Sessions
use home_keeper.Jobs.Sessions.{outer, inner, reading, left_after}
use home_keeper.Tables.EmailInfo.{Fetches}
use home_keeper.Jobs.History
use home_keeper.Jobs.History.{
  Stored, Server, Alternates, ips, ips-mark, newest, query_of, Alternates-cons, print_into-fits,
  curl_util-NoZero, inserted_lem,
}
use home_keeper.Jobs.Marks.{Distinct}
use home_keeper.Jobs.MailedOnce
use home_keeper.Jobs.MailedOnce.{
  Numbers, Meeting, Kept, Kept-insert_all, Kept-mark_row, mark_row-Kept, fresh_lem, number_lem,
  marked_lem,
}
use home_keeper.Jobs.Writes.{
  later, pending_id, InsertFits, MarkFits, insertion_after, marking_after, insert_lem, mark_lem,
}
use home_keeper.Jobs.Both
use home_keeper.Jobs.Both.{
  Event, opens, inits, asks, inserts, looks, marks, marked_of, Drained, MailsDrained, step, run,
  Fits, IsSound,
}

-- The loop behind a round.
MailsDrained-if :
    (leaves : Bool) (fetches : Fetches) (s : SendEmail.State)
    → MailsDrained (inner fetches s)
    → MailsDrained (if leaves then outer else inner fetches s)
MailsDrained-if true fetches s h = tt
MailsDrained-if false fetches s h = h

module _ (server : Server) (numbers : Numbers server) where
  open server use {Db, rows}

  Drained-opens :
      (ret : ℤ) (l : Openings.Loop) → Drained l → Drained (Openings.step (Openings.opens ret) l).0
  unfolding Openings.step new_tbl_ip_info
  Drained-opens ret (starting result) h = ground arith
  Drained-opens ret (running s) h = h

  MailsDrained-inits :
      (email ip : ℤ) (fetches : Fetches) (l : Sessions.Loop)
      → MailsDrained l
      → MailsDrained (Sessions.step (Sessions.inits email ip fetches) l).0
  unfolding Sessions.step new_tbl_ip_info
  MailsDrained-inits email ip fetches outer h = elim (Bool-cases (eq_ℤ email success)) [
    | inr e ↦ rw e tt
    | inl e ↦ elim (Bool-cases (eq_ℤ ip success)) [
      | inr i ↦ rw (e, i) tt
      | inl i ↦ rw (e, i) (refl, refl)
    ]
  ]
  MailsDrained-inits email ip fetches (inner left s) h = h

  -- A round of `getIp`, in whichever loop the thread is.
  asks_lem :
      (t : Transfer) (ret : ℤ) (d : Db) (l : Openings.Loop)
      → Fits server numbers (asks t ret)
      → Alternates (ips (rows d))
      → All NoZero (ips (rows d))
      → Drained l
      → let (l', o) = Openings.step (Openings.asks (History.round_of server t ret d)) l in
        InsertFits server numbers (later o ret) d × Drained l'
  unfolding Openings.step
  asks_lem t ret d (starting result) f a z h = (tt, tt)
  asks_lem t ret d (running s) f a z h =
      let r = History.round_of server t ret d in
      (
        insertion_after server numbers t ret d s (get_ip_round r s).1 refl f a z h,
        drained-get_ip_round r s refl h,
      )

  -- A round of `sendEmail`, in whichever loop the thread is.
  looks_lem :
      (m : Meeting) (d : Db) (ids : List ℕ) (l : Sessions.Loop)
      → Fits server numbers (looks m)
      → All (Kept server numbers d) ids
      → Distinct ids
      → MailsDrained l
      → let (l', os) = Sessions.step (Sessions.meets (MailedOnce.round_of server numbers m d)) l in
        MarkFits server numbers (later (marked_of os) m) d
        × Distinct (MailedOnce.noted server numbers (pending_id (later (marked_of os) m)) ids)
        × MailsDrained l'
  unfolding Sessions.step
  looks_lem m d ids outer f k distinct h = (tt, distinct, tt)
  looks_lem m d ids (inner fetches s) f k distinct (none_left, clear) =
      let r = reading fetches (MailedOnce.round_of server numbers m d) in
      let m' = record m { mail_rows = r.mail_rows; mail_last = r.mail_last } in
      let marked = marked_lem server numbers m' d s none_left clear in
      let (drained, untouched) = drained-send_email_round r s refl in
      let (fits, apart) =
        marking_after server numbers m d ids (send_email_round r s).1.marked (sym marked) f k
          distinct in
      (
        fits,
        apart,
        MailsDrained-if (send_email_round r s).1.leaves
            (left_after fetches (send_email_round r s).1) (send_email_round r s).0
            (drained, untouched ∙ clear),
      )

  step-IsSound :
      (e : Event) (b : Both.Both server)
      → Fits server numbers e
      → IsSound server numbers b
      → IsSound server numbers (step server numbers e b)
  unfolding step
  step-IsSound (opens ret) b f c = record {
    changes = c.changes;
    texts = c.texts;
    insert_fits = c.insert_fits;
    mark_fits = c.mark_fits;
    kept = c.kept;
    distinct = c.distinct;
    drained = Drained-opens ret b.get_ip c.drained;
    mails_drained = c.mails_drained;
  }
  step-IsSound (inits email ip fetches) b f c = record {
    changes = c.changes;
    texts = c.texts;
    insert_fits = c.insert_fits;
    mark_fits = c.mark_fits;
    kept = c.kept;
    distinct = c.distinct;
    drained = c.drained;
    mails_drained = MailsDrained-inits email ip fetches b.send_email c.mails_drained;
  }
  step-IsSound (asks t ret) b f c = elim (Option-cases b.insertion) [
    | inr (p, e) ↦ rw (e, step) c
    | inl e ↦
        let (fits, drained) = asks_lem t ret b.db b.get_ip f c.changes c.texts c.drained in
        rw (e, step)
          (record {
            changes = c.changes;
            texts = c.texts;
            insert_fits = fits;
            mark_fits = c.mark_fits;
            kept = c.kept;
            distinct = c.distinct;
            drained = drained;
            mails_drained = c.mails_drained;
          })
  ]
  step-IsSound inserts b f c = elim (Option-cases b.insertion) [
    | inl e ↦ rw (e, step) c
    | inr ((ip, ret), e) ↦
        let (a, t, m, k) =
          insert_lem server numbers ip ret b.db b.marking b.settled (rw e at c.insert_fits)
            c.changes c.texts c.mark_fits c.kept in
        rw (e, step)
          (record {
            changes = a;
            texts = t;
            insert_fits = tt;
            mark_fits = m;
            kept = k;
            distinct = c.distinct;
            drained = c.drained;
            mails_drained = c.mails_drained;
          })
  ]
  step-IsSound (looks m) b f c = elim (Option-cases b.marking) [
    | inr (p, e) ↦ rw (e, step) c
    | inl e ↦
        let before : Distinct b.settled = rw e at c.distinct in
        let (fits, distinct, drained) =
          looks_lem m b.db b.settled b.send_email f c.kept before c.mails_drained in
        rw (e, step)
          (record {
            changes = c.changes;
            texts = c.texts;
            insert_fits = c.insert_fits;
            mark_fits = fits;
            kept = c.kept;
            distinct = distinct;
            drained = c.drained;
            mails_drained = drained;
          })
  ]
  step-IsSound marks b f c = elim (Option-cases b.marking) [
    | inl e ↦ rw (e, step) c
    | inr ((id, m), e) ↦
        let before : Distinct (id ∷ b.settled) = rw e at c.distinct in
        let (a, t, i, k) =
          mark_lem server numbers id m b.db b.insertion b.settled (rw e at c.mark_fits) c.changes
            c.texts c.insert_fits c.kept in
        rw (e, step)
          (record {
            changes = a;
            texts = t;
            insert_fits = i;
            mark_fits = tt;
            kept = k;
            distinct = before;
            drained = c.drained;
            mails_drained = c.mails_drained;
          })
  ]

  -- However the calls of `init`, the selects and the writes of `getIp` and `sendEmail` interleave,
  -- whatever the calls of `init`, the transfers, the inserts and the deliveries give: no two rows that follow one another hold the same address, no row
  -- is taken by two rounds of `sendEmail`, and every row that a finished round took is marked; if every
  -- address fits into its buffer, every select and every update runs through, the server keeps the rows
  -- as the statements say and numbers them in increasing order, and this holds at the start.
  pub run-IsSound :
      (es : List Event) (b : Both.Both server)
      → All (Fits server numbers) es
      → IsSound server numbers b
      → IsSound server numbers (run server numbers es b)
  unfolding run
  run-IsSound [] b f c = c
  run-IsSound (e ∷ es) b f c = run-IsSound es (step server numbers e b) f.1 (step-IsSound e b f.0 c)
