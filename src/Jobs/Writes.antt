-- ===== src/Jobs/Writes.antt =====
-- homeKeeper/workFunctions.hpp: what the insert of `getIp` and the update of `sendEmail` leave of the table
-- of addresses, where other writes may come between a select and its write.
use home_keeper.Prelude.{
  All-map, ℕ, ◌<◌, List, [], ◌∷◌, Option, none, some, ◌≡◌, ◌≢◌, inl, inr, refl, sym, subst,
  Bool-cases, arith, Bytes, All, ℤ, eq_ℤ, success, NoZero, length,
}
use home_keeper.Curl.{Transfer, curl_util}
use home_keeper.Tables.IpInfo.{seen}
use home_keeper.Jobs.GetIp.{State, get_ip_round}
use home_keeper.Jobs.SendEmail.{unsent}
use home_keeper.Jobs.History
use home_keeper.Jobs.History.{
  Stored, Server, Alternates, ips, ips-mark, newest, query_of, Alternates-cons, print_into-fits,
  curl_util-NoZero, inserted_lem,
}
use home_keeper.Jobs.Marks.{Distinct, unsent_lem}
use home_keeper.Jobs.MailedOnce
use home_keeper.Jobs.MailedOnce.{
  Numbers, Meeting, Kept, Kept-insert_all, Kept-mark_row, mark_row-Kept, fresh_lem, number_lem,
  marked_lem,
}

-- What a round leaves to be done.
abbrev pub later {ℓ κ} : {A : Type ℓ} {B : Type κ} → Option A → B → Option (A × B)
later none b = none
later (some a) b = some (a, b)

abbrev pub pending_id : Option (ℕ × Meeting) → Option ℕ
pending_id none = none
pending_id (some (id, m)) = some id

module _ (server : Server) (numbers : Numbers server) where
  open server use {Db, rows, insert_row, mark_row, next_id, rows_insert, rows_mark}

  -- What an insert to come meets, and an update.
  abbrev pub InsertFits : Option (Bytes × ℤ) → Db → Type 0
  InsertFits none d = Unit
  InsertFits (some (ip, ret)) d = (NoZero ip) × (length ip < 100) × Alternates (ip ∷ ips (rows d))

  abbrev pub MarkFits : Option (ℕ × Meeting) → Db → Type 0
  MarkFits none d = Unit
  MarkFits (some (id, m)) d = (id < next_id d) × (m.execute ≡ success) × (m.commit ≡ success)

  pub insertion_after :
      (t : Transfer) (ret : ℤ) (d : Db) (s : State) (o : Option Bytes)
      → (get_ip_round (History.round_of server t ret d) s).1 ≡ o
      → ((result : Bytes) → length (curl_util t result).0 < 100)
      → Alternates (ips (rows d))
      → All NoZero (ips (rows d))
      → s.table.ip_infos ≡ []
      → InsertFits (later o ret) d
  insertion_after t ret d s none e f a z drained = tt
  insertion_after t ret d s (some ip) e f a z drained =
      let (given, fresh) = inserted_lem server t ret d s ip e in
      let text : NoZero ip = rw given (curl_util-NoZero t s.result) in
      (
        text,
        rw given (f s.result),
        Alternates-cons (rows d) s.table.ip_insert ip z (rw drained at fresh) a,
      )

  pub marking_after :
      (m : Meeting) (d : Db) (ids : List ℕ) (o : Option ℕ)
      → unsent (seen [] (newest (rows d))) ≡ o
      → (m.execute ≡ success) × (m.commit ≡ success)
      → All (Kept server numbers d) ids
      → Distinct ids
      → MarkFits (later o m) d
        × Distinct (MailedOnce.noted server numbers (pending_id (later o m)) ids)
  marking_after m d ids none e u k distinct = (tt, distinct)
  marking_after m d ids (some id) e u k distinct =
      let (s, rest, first, same, f) = unsent_lem (rows d) id e in
      (
        (omega (arith, number_lem server numbers d s rest first, same), u.0, u.1),
        (
          subst (λ x. All (λ other. x ≢ other) ids) same
              (fresh_lem server numbers d s rest ids first f k),
          distinct,
        ),
      )

  MarkFits-grows :
      (ip : Bytes) (d : Db) (p : Option (ℕ × Meeting)) → MarkFits p d → MarkFits p (insert_row ip d)
  MarkFits-grows ip d none m = tt
  MarkFits-grows ip d (some (id, met)) (l, ex, co) = (omega (arith, numbers.grows ip d), ex, co)

  InsertFits-same :
      (p : Option (Bytes × ℤ)) (d d' : Db)
      → ips (rows d') ≡ ips (rows d)
      → InsertFits p d
      → InsertFits p d'
  InsertFits-same none d d' same i = tt
  InsertFits-same (some (ip, ret)) d d' same (z, l, a) = (z, l, rw same a)

  -- The table after the insert.
  pub insert_lem :
      (ip : Bytes) (ret : ℤ) (d : Db) (p : Option (ℕ × Meeting)) (ids : List ℕ)
      → InsertFits (some (ip, ret)) d
      → Alternates (ips (rows d))
      → All NoZero (ips (rows d))
      → MarkFits p d
      → All (Kept server numbers d) ids
      → let d' = History.apply_insert server (some ip) ret d in
        Alternates (ips (rows d'))
        × All NoZero (ips (rows d'))
        × MarkFits p d'
        × All (Kept server numbers d') ids
  insert_lem ip ret d p ids (z, l, a') a t m k = elim (Bool-cases (eq_ℤ ret success)) [
    | inr refused ↦ rw refused (a, t, m, k)
    | inl done ↦
        rw (done, print_into-fits ip z l)
          (
            rw (rows_insert ip d) a',
            rw (rows_insert ip d) (z, t),
            MarkFits-grows ip d p m,
            All-map (Kept-insert_all server numbers (ip ∷ []) d) ids k,
          )
  ]

  -- The table after the update.
  pub mark_lem :
      (id : ℕ) (m : Meeting) (d : Db) (p : Option (Bytes × ℤ)) (ids : List ℕ)
      → MarkFits (some (id, m)) d
      → Alternates (ips (rows d))
      → All NoZero (ips (rows d))
      → InsertFits p d
      → All (Kept server numbers d) ids
      → let d' = MailedOnce.apply_mark server numbers m (some id) d in
        Alternates (ips (rows d'))
        × All NoZero (ips (rows d'))
        × InsertFits p d'
        × All (Kept server numbers d') (id ∷ ids)
  mark_lem id m d p ids (l, ex, co) a t i k =
      let same : ips (rows (mark_row id d)) ≡ ips (rows d) =
        rw (rows_mark id d) (ips-mark id (rows d)) in
      let done : MailedOnce.apply_mark server numbers m (some id) d ≡ mark_row id d =
        rw (ex, co) refl in
      subst
        (λ y.
          Alternates (ips (rows y))
          × All NoZero (ips (rows y))
          × InsertFits p y
          × All (Kept server numbers y) (id ∷ ids))
        (sym done)
        (
          rw same a,
          rw same t,
          InsertFits-same p d (mark_row id d) same i,
          (
            mark_row-Kept server numbers d id l,
            All-map (λ other h. Kept-mark_row server numbers id d other h) ids k,
          ),
        )
