-- ===== src/Tables/EmailInfo.antt =====
-- include/tblEmailInfo.hpp: the table of the mail accounts and recipients.
use home_keeper.Prelude.{
  ℕ, suc, Option, none, some, refl, ◌+◌, length, length-append, length-map, ap, List, [], ◌∷◌, ◌++◌,
  append-nil, append_assoc, map, ◌≡◌, ◌∙◌, if◌then◌else◌, arith, Bytes, c_str, ℤ, pos, eq_ℤ,
  success, failed,
}

-- `emailInfo_t`
pub record EmailInfo : Type 0 where
  pub user_name : Bytes
  pub passwd : Bytes
  pub smtp_server : Bytes
  pub recipient : Bytes
  pub mail_from : Bytes

-- What `mysql_stmt_fetch` leaves in the five buffers of 100 bytes for one row.
pub record Row : Type 0 where
  pub user_name : Bytes
  pub passwd : Bytes
  pub smtp_server : Bytes
  pub recipient : Bytes
  pub mail_from : Bytes

-- A buffer that holds no zero is read on into the next member.
unfoldable pub read_row : Row → EmailInfo
read_row r = record {
  user_name = c_str (r.user_name ++ (r.passwd ++ (r.smtp_server ++ (r.recipient ++ r.mail_from))));
  passwd = c_str (r.passwd ++ (r.smtp_server ++ (r.recipient ++ r.mail_from)));
  smtp_server = c_str (r.smtp_server ++ (r.recipient ++ r.mail_from));
  recipient = c_str (r.recipient ++ r.mail_from);
  mail_from = c_str r.mail_from;
}

-- The `while (1)` of `getResFromDb`: the rows for which `mysql_stmt_fetch` returns 0, then its first
-- other result; `infos` is the member `emailInfos`.
pub get_res_from_db : List Row → ℤ → List EmailInfo → ℤ × List EmailInfo
unfolding read_row
get_res_from_db [] last infos = if eq_ℤ last (pos 100) then (success, infos) else (failed, infos)
get_res_from_db (r ∷ rows) last infos = get_res_from_db rows last (infos ++ read_row r ∷ [])

-- `getRes`: a failure is logged only; the member is copied. The result and the member are the same.
unfoldable pub get_res : List Row → ℤ → List EmailInfo → List EmailInfo
get_res rows last infos = (get_res_from_db rows last infos).1

-- What the stored result of the select, which `sqlBind` executes once, still gives to
-- `mysql_stmt_fetch`: a row, or `none` for a row that it reports as cut (a result other than 0 and 100).
-- Behind the last it returns 100.
abbrev pub Fetches : Type 0
Fetches = List (Option Row)

-- The rows and the last result of one loop of fetches, and what is left for the next call.
unfoldable pub fetched : Fetches → List Row × ℤ × Fetches
fetched [] = ([], pos 100, [])
fetched (none ∷ fetches) = ([], pos 101, fetches)
fetched (some row ∷ fetches) = let (rows, last, left) = fetched fetches in (row ∷ rows, last, left)

get_res_from_db_lem :
    (rows : List Row) (last : ℤ) (infos : List EmailInfo)
    → (get_res_from_db rows last infos).1 ≡ infos ++ map read_row rows
unfolding get_res_from_db
get_res_from_db_lem [] last infos = ground (arith, append-nil infos)
get_res_from_db_lem (r ∷ rows) last infos =
    get_res_from_db_lem rows last (infos ++ read_row r ∷ [])
    ∙ append_assoc infos (read_row r ∷ []) _

-- The first call of an object.
pub get_res_fresh : (rows : List Row) (last : ℤ) → get_res rows last [] ≡ map read_row rows
unfolding get_res
get_res_fresh rows last = get_res_from_db_lem rows last []

-- The number of rows before the first fetch that fails, and what is behind that.
abbrev pub rows_before : Fetches → ℕ
rows_before [] = 0
rows_before (none ∷ fetches) = 0
rows_before (some row ∷ fetches) = suc (rows_before fetches)

abbrev pub rest_after : Fetches → Fetches
rest_after [] = []
rest_after (none ∷ fetches) = fetches
rest_after (some row ∷ fetches) = rest_after fetches

pub fetched_lem :
    (fetches : Fetches)
    → (length (fetched fetches).0 ≡ rows_before fetches)
      × ((fetched fetches).2 ≡ rest_after fetches)
unfolding fetched
fetched_lem [] = (refl, refl)
fetched_lem (none ∷ fetches) = (refl, refl)
fetched_lem (some row ∷ fetches) = let (rows, left) = fetched_lem fetches in (ap suc rows, left)

pub length-get_res :
    (rows : List Row) (last : ℤ) (infos : List EmailInfo)
    → length (get_res rows last infos) ≡ length infos + length rows
unfolding get_res
length-get_res rows last infos =
    ap length (get_res_from_db_lem rows last infos)
    ∙ length-append infos (map read_row rows)
    ∙ ap (λ n. length infos + n) (length-map rows read_row)
