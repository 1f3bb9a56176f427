-- ===== src/Jobs/GetIp.antt =====
-- homeKeeper/workFunctions.hpp: `getIp`, which records the public address when it changes.
use home_keeper.Prelude.{
  Bool, true, not, ◌&&◌, List, [], ◌∷◌, ◌++◌, Option, none, some, ◌≡◌, if◌then◌else◌, arith, Bytes,
  codes, bytes_eq, ℤ, eq_ℤ, success,
}
use home_keeper.Tables.IpInfo.{
  TblIpInfo, IpInfo, Query, get_res, get_res_lem, insert_to_db, runs_through, seen,
}
use home_keeper.Curl.{Transfer, curl_util}

-- What one round meets: the transfer, the query, and the result of the insertion.
pub record Round : Type 0 where
  pub transfer : Transfer
  pub query : Query
  pub insertion : ℤ

-- What the thread keeps: the table, and the global `result` of include/curl.hpp.
pub record State : Type 0 where
  pub table : TblIpInfo
  pub result : Bytes

-- `infos.empty () || infos[0].ip != resNew`
abbrev pub is_new : List IpInfo → Bytes → Bool
is_new [] ip = true
is_new (info ∷ infos) ip = not (bytes_eq info.ip ip)

-- The part of a round behind the transfer. The second component is the address that was handed to
-- `insertToDb`.
pub record_ip : Bytes → Query → ℤ → TblIpInfo → TblIpInfo × Option Bytes
record_ip res_new query insertion table =
    let (ret, infos, table') = get_res query [] table in
    if not (eq_ℤ ret success)
    then (table', none)
    else if is_new infos res_new
    then ((insert_to_db insertion res_new table').1, some res_new)
    else (table', none)

-- One round of the inner loop of `getIp`.
unfoldable pub get_ip_round : Round → State → State × Option Bytes
unfolding record_ip
get_ip_round r s =
    let (res_new, result) = curl_util r.transfer s.result in
    let (table, inserted) = record_ip res_new r.query r.insertion s.table in
    if bytes_eq res_new (codes "failed")
    then (record s { result = result }, none)
    else (record { table = table; result = result }, inserted)

-- The rows that the round looks at, first those that a failed query left in the object.
abbrev pub looked_at : Query → TblIpInfo → List IpInfo
looked_at q t = t.ip_infos ++ seen t.ip_insert q.rows

record_ip_lem :
    (ip : Bytes) (q : Query) (ins : ℤ) (t : TblIpInfo)
    → (record_ip ip q ins t).1
      ≡ (if runs_through q && is_new (looked_at q t) ip then some ip else none)
unfolding record_ip
record_ip_lem ip q ins t = ground (arith, get_res_lem q [] t)

-- `getIp` looks at the rows that earlier failed queries left in the object and behind them at those of
-- its own query. It inserts an address exactly if the transfer did not fail, the query runs through,
-- and the first of these rows is missing or holds another address (so that a row that was left over
-- decides before the newest row of the table); it inserts the address that it was given.
pub get_ip_round_lem :
    (r : Round) (s : State)
    → let ip = (curl_util r.transfer s.result).0 in
      (get_ip_round r s).1 ≡ (
        if not (bytes_eq ip (codes "failed"))
          && (runs_through r.query && is_new (looked_at r.query s.table) ip)
        then some ip
        else none)
unfolding get_ip_round
get_ip_round_lem r s =
    ground (arith, record_ip_lem (curl_util r.transfer s.result).0 r.query r.insertion s.table)

drained-record_ip :
    (ip : Bytes) (q : Query) (ins : ℤ) (t : TblIpInfo)
    → runs_through q ≡ true
    → (record_ip ip q ins t).0.ip_infos ≡ []
unfolding record_ip insert_to_db
drained-record_ip ip q ins t h = ground (arith, get_res_lem q [] t)

-- A query that runs through leaves no row in the object.
pub drained-get_ip_round :
    (r : Round) (s : State)
    → runs_through r.query ≡ true
    → s.table.ip_infos ≡ []
    → (get_ip_round r s).0.table.ip_infos ≡ []
unfolding get_ip_round
drained-get_ip_round r s h e =
    let kept = drained-record_ip (curl_util r.transfer s.result).0 r.query r.insertion s.table h in
    ground (arith, kept)
