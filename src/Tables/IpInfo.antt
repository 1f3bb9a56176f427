-- ===== src/Tables/IpInfo.antt =====
-- include/tblIpInfo.hpp: the table of the addresses. The results of the calls of the MySQL client are
-- parameters; the buffers that they fill stand in the order of the members.
use home_keeper.Prelude.{
  ℕ, Bool, not, ◌&&◌, List, [], ◌∷◌, ◌++◌, append-nil, append_assoc, ◌≡◌, ◌≢◌, ap, ◌∙◌,
  if◌then◌else◌, arith, Bytes, c_str, print_into, c_str-cons, c_str-print_into, ℤ, pos, eq_ℤ,
  success, failed,
}

-- `ipInfo_t`, as far as the program sets it.
pub record IpInfo : Type 0 where
  pub rec_id : ℕ
  pub ip : Bytes
  pub send_flag : Bytes

-- The members: the rows read so far, and the buffers.
pub record TblIpInfo : Type 0 where
  pub ip_infos : List IpInfo
  pub ip_insert : Bytes
  pub rec_id_update : ℕ

unfoldable pub new_tbl_ip_info : TblIpInfo
new_tbl_ip_info = record { ip_infos = []; ip_insert = []; rec_id_update = 0 }

-- What `mysql_stmt_fetch` leaves in the buffers for one row: the number, the bytes of `char ip[100]`
-- and the one byte of `char send_flag[1]`.
pub record Row : Type 0 where
  pub number : ℕ
  pub address : Bytes
  pub flag : ℕ

-- One run of the select: the results of `mysql_stmt_execute` and `mysql_stmt_store_result`, the rows
-- for which `mysql_stmt_fetch` returns 0, and its first other result.
pub record Query : Type 0 where
  pub execute : ℤ
  pub store : ℤ
  pub rows : List Row
  pub last : ℤ

-- The strings that are made from the buffers. `send_flag` has no room for a final zero, so its text
-- runs on into `ip_insert`, the next member, which ends by one.
unfoldable pub read_row : Bytes → Row → IpInfo
read_row ip_insert r = record {
  rec_id = r.number;
  ip = c_str (r.address ++ r.flag ∷ (ip_insert ++ 0 ∷ []));
  send_flag = c_str (r.flag ∷ (ip_insert ++ 0 ∷ []));
}

abbrev push_row : TblIpInfo → Row → TblIpInfo
push_row t r = record t { ip_infos = t.ip_infos ++ read_row t.ip_insert r ∷ [] }

-- The `while (1)` of `getResFromDb`.
fetch_loop : List Row → ℤ → TblIpInfo → ℤ × TblIpInfo
unfolding read_row
fetch_loop [] last t = if eq_ℤ last (pos 100) then (success, t) else (failed, t)
fetch_loop (r ∷ rows) last t = fetch_loop rows last (push_row t r)

unfoldable pub get_res_from_db : Query → TblIpInfo → ℤ × TblIpInfo
unfolding fetch_loop
get_res_from_db q t =
    let fetched = fetch_loop q.rows q.last t in
    if not (eq_ℤ q.execute success)
    then (failed, t)
    else if not (eq_ℤ q.store success)
    then (failed, t)
    else fetched

-- `getRes`: the rows are moved to the caller's vector, whose old value stands on failure.
unfoldable pub get_res : Query → List IpInfo → TblIpInfo → ℤ × List IpInfo × TblIpInfo
unfolding get_res_from_db
get_res q res t =
    let (ret, t') = get_res_from_db q t in
    if not (eq_ℤ ret success)
    then (failed, res, t')
    else (success, t'.ip_infos, record t' { ip_infos = [] })

-- `insertToDb`: the text goes into `char ip_insert[100]`; the first part is what is executed.
unfoldable pub insert_to_db : ℤ → Bytes → TblIpInfo → ℤ × TblIpInfo
insert_to_db execute ip t =
    let t' : TblIpInfo = record t { ip_insert = print_into 100 ip } in
    if not (eq_ℤ execute success) then (failed, t') else (success, t')

-- `updateToDb`, by the results of the execution and of `mysql_commit`.
unfoldable pub update_to_db : ℤ → ℤ → ℕ → TblIpInfo → ℤ × TblIpInfo
update_to_db execute commit rec_id t =
    let t' : TblIpInfo = record t { rec_id_update = rec_id } in
    if not (eq_ℤ execute success)
    then (failed, t')
    else if not (eq_ℤ commit success)
    then (failed, t')
    else (success, t')

-- The rows of a query as the program sees them.
abbrev pub seen : Bytes → List Row → List IpInfo
seen ip_insert [] = []
seen ip_insert (r ∷ rows) = read_row ip_insert r ∷ seen ip_insert rows

fetch_loop_lem :
    (rows : List Row) (last : ℤ) (t : TblIpInfo)
    → fetch_loop rows last t ≡ (
      (if eq_ℤ last (pos 100) then success else failed),
      record t { ip_infos = t.ip_infos ++ seen t.ip_insert rows },
    )
unfolding fetch_loop
fetch_loop_lem [] last t = ground (arith, append-nil t.ip_infos)
fetch_loop_lem (r ∷ rows) last t = fetch_loop_lem rows last (push_row t r) ∙ rw append_assoc

-- Whether a query runs to its end.
abbrev pub runs_through : Query → Bool
runs_through q = eq_ℤ q.execute success && eq_ℤ q.store success && eq_ℤ q.last (pos 100)

-- The rows that a failed query leaves in the object.
abbrev pub left_over : TblIpInfo → Query → List IpInfo
left_over t q =
    if eq_ℤ q.execute success && eq_ℤ q.store success
    then t.ip_infos ++ seen t.ip_insert q.rows
    else t.ip_infos

-- `getRes` on every branch: it succeeds exactly if the query runs through, and then hands over the
-- rows that earlier failures left, followed by all rows of this query; on failure the caller's
-- vector stands, and the rows that were read stay in the object for a later call.
pub get_res_lem :
    (q : Query) (res : List IpInfo) (t : TblIpInfo)
    → get_res q res t ≡ (
        if runs_through q
        then (success, t.ip_infos ++ seen t.ip_insert q.rows, record t { ip_infos = [] })
        else (failed, res, record t { ip_infos = left_over t q }))
unfolding get_res
get_res_lem q res t = ground (arith, fetch_loop_lem q.rows q.last t)

ip_insert-insert_to_db :
    (execute : ℤ) (ip : Bytes) (t : TblIpInfo)
    → (insert_to_db execute ip t).1.ip_insert ≡ print_into 100 ip
unfolding insert_to_db
ip_insert-insert_to_db execute ip t = ground arith

-- The flag of a row reads as one byte only while nothing was inserted through the same object: its
-- text is the flag's byte with the last inserted address behind it.
pub send_flag-insert_to_db :
    (execute : ℤ) (ip : Bytes) (t : TblIpInfo) (r : Row)
    → r.flag ≢ 0
    → (read_row (insert_to_db execute ip t).1.ip_insert r).send_flag ≡ r.flag ∷ print_into 100 ip
unfolding read_row
send_flag-insert_to_db execute ip t r h =
    rw (ip_insert-insert_to_db execute ip t)
      (c_str-cons r.flag _ h ∙ ap (◌∷◌ r.flag) (c_str-print_into 100 ip []))
