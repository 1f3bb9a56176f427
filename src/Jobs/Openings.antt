-- ===== src/Jobs/Openings.antt =====
-- homeKeeper/workFunctions.hpp: `getIp` with its outer loop, which makes its object anew after an `init`
-- that fails. The sleeps are left out.
use home_keeper.Prelude.{
  suc, false, not, List, [], ◌∷◌, ◌++◌, map, Option, none, ◌≡◌, refl, ap, ◌∙◌, if◌then◌else◌, arith,
  length, replicate, All, ℤ, eq_ℤ, success, Bytes,
}
use home_keeper.Tables.IpInfo.{new_tbl_ip_info}
use home_keeper.Jobs.GetIp
use home_keeper.Jobs.GetIp.{get_ip_round}

-- Where `getIp` is: in front of `init`, with the global `result`, or in the inner loop.
pub data Loop : Type 0 where
  starting : Bytes → Loop
  running : GetIp.State → Loop

-- The result of `init`, or a round of the inner loop.
pub data Event : Type 0 where
  opens : ℤ → Event
  asks : GetIp.Round → Event

-- One event of `getIp`, with the address that it hands to `insertToDb`. An event that does not belong
-- to the loop is passed over.
unfoldable pub step : Event → Loop → Loop × Option Bytes
step (opens ret) (starting result) =
    if not (eq_ℤ ret success)
    then (starting result, none)
    else (running (record { table = new_tbl_ip_info; result = result }), none)
step (opens ret) (running s) = (running s, none)
step (asks r) (starting result) = (starting result, none)
step (asks r) (running s) = let (s', o) = get_ip_round r s in (running s', o)

-- All events, with the addresses that they hand over.
pub get_ip : List Event → Loop → List (Option Bytes)
get_ip [] l = []
get_ip (e ∷ es) l = (step e l).1 ∷ get_ip es (step e l).0

-- The rounds of the inner loop alone.
abbrev pub rounds : List GetIp.Round → GetIp.State → List (Option Bytes)
rounds [] s = []
rounds (r ∷ rs) s = (get_ip_round r s).1 ∷ rounds rs (get_ip_round r s).0

get_ip-running :
    (rs : List GetIp.Round) (s : GetIp.State) → get_ip (map asks rs) (running s) ≡ rounds rs s
unfolding get_ip step
get_ip-running [] s = refl
get_ip-running (r ∷ rs) s = ap (◌∷◌ (get_ip_round r s).1) (get_ip-running rs (get_ip_round r s).0)

-- After any number of failed calls of `init` and one that succeeds, `getIp` hands over what the rounds
-- of its inner loop hand over from a new object: it never leaves that loop.
pub get_ip-rounds :
    (fails : List ℤ) (rs : List GetIp.Round) (result : Bytes)
    → All (λ ret. eq_ℤ ret success ≡ false) fails
    → get_ip (map opens fails ++ opens success ∷ map asks rs) (starting result)
      ≡ replicate (suc (length fails)) none
        ++ rounds rs (record { table = new_tbl_ip_info; result = result })
unfolding get_ip step
get_ip-rounds [] rs result f =
    ap (◌∷◌ none) (get_ip-running rs (record { table = new_tbl_ip_info; result = result }))
get_ip-rounds (ret ∷ fails) rs result (f, fs) =
    let failed_open : step (opens ret) (starting result) ≡ (starting result, none) =
      ground (arith, f) in
    ap (λ x. x.1 ∷ get_ip (map opens fails ++ opens success ∷ map asks rs) x.0) failed_open
    ∙ ap (◌∷◌ none) (get_ip-rounds fails rs result fs)
