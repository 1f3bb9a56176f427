-- ===== src/Tables/DownloadFile.antt =====
-- homeKeeper/downloadfile.hpp: the table of the files to send.
use home_keeper.Prelude.{
  Bool, not, ◌&&◌, List, [], ◌∷◌, ◌++◌, append-nil, append_assoc, ◌≡◌, ◌∙◌, if◌then◌else◌, arith,
  Bytes, c_str, print_into, ℤ, pos, eq_ℤ, success, failed,
}

-- `downloadFile_t`, as far as the program sets it.
pub record FileInfo : Type 0 where
  pub file_name : Bytes
  pub path : Bytes

-- The members: the rows read so far, and the buffer of the update.
pub record DownloadFile : Type 0 where
  pub dl_files : List FileInfo
  pub file_name_update : Bytes

-- The constructor leaves the 512 bytes of `fileNameUpdate` as they are in the memory of the object.
unfoldable pub new_download_file : Bytes → DownloadFile
new_download_file memory = record { dl_files = []; file_name_update = memory }

-- What `mysql_stmt_fetch` leaves in `char fileName[512]` and `char path[512]` for one row.
pub record Row : Type 0 where
  pub file_name : Bytes
  pub path : Bytes

-- The buffers stand in the order fileName, fileNameUpdate, path.
unfoldable pub read_row : Bytes → Row → FileInfo
read_row update r = record {
  file_name = c_str (r.file_name ++ (update ++ 0 ∷ []));
  path = c_str r.path;
}

-- One run of the select, as in `tblIpInfo`.
pub record Query : Type 0 where
  pub execute : ℤ
  pub store : ℤ
  pub rows : List Row
  pub last : ℤ

-- The `while (1)` of `getResFromDb`.
fetch_loop : List Row → ℤ → DownloadFile → ℤ × DownloadFile
unfolding read_row
fetch_loop [] last t = if eq_ℤ last (pos 100) then (success, t) else (failed, t)
fetch_loop (r ∷ rows) last t =
    fetch_loop rows last (record t { dl_files = t.dl_files ++ read_row t.file_name_update r ∷ [] })

unfoldable pub get_res_from_db : Query → DownloadFile → ℤ × DownloadFile
unfolding fetch_loop
get_res_from_db q t =
    let fetched = fetch_loop q.rows q.last t in
    if not (eq_ℤ q.execute success)
    then (failed, t)
    else if not (eq_ℤ q.store success)
    then (failed, t)
    else fetched

-- `getRes`
unfoldable pub get_res : Query → List FileInfo → DownloadFile → ℤ × List FileInfo × DownloadFile
unfolding get_res_from_db
get_res q res t =
    let (ret, t') = get_res_from_db q t in
    if not (eq_ℤ ret success)
    then (failed, res, t')
    else (success, t'.dl_files, record t' { dl_files = [] })

-- `updateToDb`: the name goes into `char fileNameUpdate[512]`.
unfoldable pub update_to_db : ℤ → ℤ → Bytes → DownloadFile → ℤ × DownloadFile
update_to_db execute commit file_name t =
    let t' : DownloadFile = record t { file_name_update = print_into 512 file_name } in
    if not (eq_ℤ execute success)
    then (failed, t')
    else if not (eq_ℤ commit success)
    then (failed, t')
    else (success, t')

abbrev pub seen : Bytes → List Row → List FileInfo
seen update [] = []
seen update (r ∷ rows) = read_row update r ∷ seen update rows

abbrev pub runs_through : Query → Bool
runs_through q = eq_ℤ q.execute success && eq_ℤ q.store success && eq_ℤ q.last (pos 100)

abbrev pub left_over : DownloadFile → Query → List FileInfo
left_over t q =
    if eq_ℤ q.execute success && eq_ℤ q.store success
    then t.dl_files ++ seen t.file_name_update q.rows
    else t.dl_files

fetch_loop_lem :
    (rows : List Row) (last : ℤ) (t : DownloadFile)
    → fetch_loop rows last t ≡ (
      (if eq_ℤ last (pos 100) then success else failed),
      record t { dl_files = t.dl_files ++ seen t.file_name_update rows },
    )
unfolding fetch_loop
fetch_loop_lem [] last t = ground (arith, append-nil t.dl_files)
fetch_loop_lem (r ∷ rows) last t =
    fetch_loop_lem rows last
      (record t { dl_files = t.dl_files ++ read_row t.file_name_update r ∷ [] })
    ∙ rw append_assoc

-- `getRes` of the files behaves on every branch as that of the addresses: success hands over what
-- earlier failures left and all rows of the query; failure leaves the caller's vector alone and
-- keeps the rows that were read.
pub get_files_lem :
    (q : Query) (res : List FileInfo) (t : DownloadFile)
    → get_res q res t ≡ (
        if runs_through q
        then (success, t.dl_files ++ seen t.file_name_update q.rows, record t { dl_files = [] })
        else (failed, res, record t { dl_files = left_over t q }))
unfolding get_res
get_files_lem q res t = ground (arith, fetch_loop_lem q.rows q.last t)
