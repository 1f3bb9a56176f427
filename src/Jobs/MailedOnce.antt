-- ===== src/Jobs/MailedOnce.antt =====
-- homeKeeper/workFunctions.hpp: `sendEmail` against the table of the addresses, while `getIp` inserts
-- rows at any moment. The server is a parameter.
use home_keeper.Prelude.{
  All-map, ℕ, ◌<◌, ◌≤◌, Bool, ◌&&◌, List, [], ◌∷◌, Option, none, some, ◌≡◌, ◌≢◌, refl, sym, ap, ◌∙◌,
  subst, if◌then◌else◌, arith, Bytes, All, ℤ, eq_ℤ, success,
}
use home_keeper.Tables.IpInfo.{seen}
use home_keeper.Tables.EmailInfo
use home_keeper.Jobs.SendEmail.{
  Round, State, send_email_round, send_email_round_lem, unsent, drained-send_email_round,
}
use home_keeper.Email.{EmailSender}
use home_keeper.Jobs.Marks.{Marked, Distinct, Marked-mark, mark-Marked, unsent_lem}
use home_keeper.Jobs.History.{Stored, Server, query_of, newest}

-- What the server promises of the numbers of its rows.
pub record Numbers (server : Server) : Type 1 where
  pub below : (d : server.Db) → All (λ (s : Stored). s.rec_id < server.next_id d) (server.rows d)
  pub grows :
      (ip : Bytes) (d : server.Db) → server.next_id d < server.next_id (server.insert_row ip d)
  pub stays : (id : ℕ) (d : server.Db) → server.next_id (server.mark_row id d) ≡ server.next_id d

-- What a round of `sendEmail` meets, its query left out: the rows that `getIp` inserts between its
-- select and its update, the mail table, the result of the update, the encoder and the deliveries.
pub record Meeting : Type 0 where
  pub inserted : List Bytes
  pub mail_rows : List EmailInfo.Row
  pub mail_last : ℤ
  pub execute : ℤ
  pub commit : ℤ
  pub encode : Bytes → Bytes
  pub deliver : ℕ → EmailSender → Bool

-- A round, or a row that `getIp` inserts between two rounds.
pub data Event : Type 0 where
  asks : Meeting → Event
  inserts : Bytes → Event

module _ (server : Server) (numbers : Numbers server) where
  open server use {Db, rows, insert_row, mark_row, next_id, rows_insert, rows_mark}

  abbrev insert_all : List Bytes → Db → Db
  insert_all [] d = d
  insert_all (ip ∷ ips) d = insert_all ips (insert_row ip d)

  -- The update, where it runs through.
  abbrev pub apply_mark : Meeting → Option ℕ → Db → Db
  apply_mark m none d = d
  apply_mark m (some id) d =
      if eq_ℤ m.execute success && eq_ℤ m.commit success then mark_row id d else d

  abbrev pub round_of : Meeting → Db → Round
  round_of m d = record {
    query = query_of (rows d);
    mail_rows = m.mail_rows;
    mail_last = m.mail_last;
    execute = m.execute;
    commit = m.commit;
    encode = m.encode;
    deliver = m.deliver;
  }

  abbrev pub noted : Option ℕ → List ℕ → List ℕ
  noted none ids = ids
  noted (some id) ids = id ∷ ids

  -- One event: the table, the objects of the thread, and the numbers of the rows that rounds took,
  -- the last first.
  pub step : Event → Db × State × List ℕ → Db × State × List ℕ
  step (inserts ip) (d, s, ids) = (insert_row ip d, s, ids)
  step (asks m) (d, s, ids) =
      let (s', o) = send_email_round (round_of m d) s in
      (apply_mark m o.marked (insert_all m.inserted d), s', noted o.marked ids)

  pub run : List Event → Db × State × List ℕ → Db × State × List ℕ
  unfolding step
  run [] x = x
  run (e ∷ es) x = run es (step e x)

  -- The update of every round runs through.
  abbrev pub Updates : Event → Type 0
  Updates (asks m) = (m.execute ≡ success) × (m.commit ≡ success)
  Updates (inserts ip) = Unit

  next_id-insert_all : (ips : List Bytes) (d : Db) → next_id d ≤ next_id (insert_all ips d)
  next_id-insert_all [] d = omega arith
  next_id-insert_all (ip ∷ ips) d =
      omega (arith, numbers.grows ip d, next_id-insert_all ips (insert_row ip d))

  Marked-insert_all :
      (ips : List Bytes) (d : Db) (id : ℕ)
      → id < next_id d
      → Marked (rows d) id
      → Marked (rows (insert_all ips d)) id
  Marked-insert_all [] d id l h = h
  Marked-insert_all (ip ∷ ips) d id l h =
      Marked-insert_all ips (insert_row ip d) id (omega (arith, numbers.grows ip d))
        (rw (rows_insert ip d) ((λ e. absurd (omega arith)), h))

  -- A number that the server has given, and whose row is marked.
  abbrev pub Kept : Db → ℕ → Type 0
  Kept d id = (id < next_id d) × Marked (rows d) id

  pub Kept-insert_all :
      (ips : List Bytes) (d : Db) (id : ℕ) → Kept d id → Kept (insert_all ips d) id
  Kept-insert_all ips d id (l, h) =
      (omega (arith, next_id-insert_all ips d), Marked-insert_all ips d id l h)

  pub Kept-mark_row : (k : ℕ) (d : Db) (id : ℕ) → Kept d id → Kept (mark_row k d) id
  Kept-mark_row k d id (l, h) =
      (rw (numbers.stays k d) l, rw (rows_mark k d) (Marked-mark (rows d) k id h))

  pub mark_row-Kept : (d : Db) (id : ℕ) → id < next_id d → Kept (mark_row id d) id
  mark_row-Kept d id l = (rw (numbers.stays id d) l, rw (rows_mark id d) (mark-Marked (rows d) id))

  pub record IsOnce (x : Db × State × List ℕ) : Type 0 where
    pub kept : All (Kept x.0) x.2
    pub distinct : Distinct x.2
    pub drained : x.1.table.ip_infos ≡ []
    pub untouched : x.1.table.ip_insert ≡ []

  -- The number of an unmarked row that comes first is none of those whose rows are marked.
  pub fresh_lem :
      (d : Db) (s : Stored) (rest : List Stored) (ids : List ℕ)
      → rows d ≡ s ∷ rest
      → s.flag ≢ b'1'
      → All (Kept d) ids
      → All (λ other. s.rec_id ≢ other) ids
  fresh_lem d s rest ids e f h =
      All-map
        (λ other (k : Kept d other).
          λ (same : s.rec_id ≡ other). f ((subst (λ x. Marked x other) e k.1).0 same))
        ids h

  pub number_lem :
      (d : Db) (s : Stored) (rest : List Stored) → rows d ≡ s ∷ rest → s.rec_id < next_id d
  number_lem d s rest e =
      (subst (λ x. All (λ (t : Stored). t.rec_id < next_id d) x) e (numbers.below d)).0

  noted-Kept :
      (m : Meeting) (d : Db) (ids : List ℕ) (o : Option ℕ)
      → unsent (seen [] (newest (rows d))) ≡ o
      → Updates (asks m)
      → All (Kept d) ids
      → Distinct ids
      → All (Kept (apply_mark m o (insert_all m.inserted d))) (noted o ids) × Distinct (noted o ids)
  noted-Kept m d ids none e u k distinct = (All-map (Kept-insert_all m.inserted d) ids k, distinct)
  noted-Kept m d ids (some id) e u k distinct =
      let (s, rest, first, same, f) = unsent_lem (rows d) id e in
      let d' = insert_all m.inserted d in
      let l : id < next_id d' =
        omega (arith, next_id-insert_all m.inserted d, number_lem d s rest first, same) in
      let done : apply_mark m (some id) d' ≡ mark_row id d' = rw (u.0, u.1) refl in
      subst (λ y. All (Kept y) (id ∷ ids) × Distinct (id ∷ ids)) (sym done)
        (
          (
            mark_row-Kept d' id l,
            All-map (λ other h. Kept-mark_row id d' other (Kept-insert_all m.inserted d other h))
                ids k,
          ),
          (
            subst (λ x. All (λ other. x ≢ other) ids) same (fresh_lem d s rest ids first f k),
            distinct,
          ),
        )

  pub marked_lem :
      (m : Meeting) (d : Db) (s : State)
      → s.table.ip_infos ≡ []
      → s.table.ip_insert ≡ []
      → (send_email_round (round_of m d) s).1.marked ≡ unsent (seen [] (newest (rows d)))
  marked_lem m d s drained untouched =
      ap (λ o. o.marked) (send_email_round_lem (round_of m d) s) ∙ rw (drained, untouched) refl

  step-IsOnce : (e : Event) (x : Db × State × List ℕ) → Updates e → IsOnce x → IsOnce (step e x)
  unfolding step
  step-IsOnce (inserts ip) (d, s, ids) u c = record {
    kept = All-map (Kept-insert_all (ip ∷ []) d) ids c.kept;
    distinct = c.distinct;
    drained = c.drained;
    untouched = c.untouched;
  }
  step-IsOnce (asks m) (d, s, ids) u c =
      let marked = marked_lem m d s c.drained c.untouched in
      let (kept, distinct) =
        noted-Kept m d ids (send_email_round (round_of m d) s).1.marked (sym marked) u c.kept
          c.distinct in
      let (drained, untouched) = drained-send_email_round (round_of m d) s refl in
      record {
        kept = kept;
        distinct = distinct;
        drained = drained;
        untouched = untouched ∙ c.untouched;
      }

  -- Over any history of rounds of `sendEmail`, whatever its deliveries return, and of rows that `getIp`
  -- inserts at any moment, between the select and the update of a round too: no row is taken by two
  -- rounds, and every row that a round took is marked, if every select and every update runs through,
  -- the server keeps the rows as the statements say and numbers them in increasing order, and this
  -- holds at the start.
  pub run-IsOnce :
      (es : List Event) (x : Db × State × List ℕ) → All Updates es → IsOnce x → IsOnce (run es x)
  unfolding run
  run-IsOnce [] x u c = c
  run-IsOnce (e ∷ es) x u c = run-IsOnce es (step e x) u.1 (step-IsOnce e x u.0 c)
