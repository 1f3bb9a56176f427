-- ===== src/Tests/Parts.antt =====
-- The theorems on include/file.hpp, include/tcpServer.hpp and common/common.cpp at concrete inputs.
use home_keeper.Prelude.{
  true, [], ◌∷◌, none, some, ◌≡◌, refl, ltb, ◌==◌, if◌then◌else◌, arith, length, replicate, codes,
  pos, negsuc,
}
use home_keeper.Common.{get_file, get_file_lem}
use home_keeper.StdMap.{nat_key}
use home_keeper.File.{Stdio, File, new_file, opened, printed, re_open, write}
use home_keeper.File.Safety.{is_safe, last_opened, is_safe-write}
use home_keeper.Proxy.Greeting.{get_msg, collect, get_msg_lem}

-- A library whose first `fprintf` fails, and which gives a new handle each time.
abbrev failing : Stdio
failing = record {
  fopen = λ h path mode. some (length h);
  fprintf = λ h fp text. if ltb (length h) 3 then negsuc 0 else pos 1;
  fflush = λ h fp. pos 0;
  fclose = λ h fp. pos 0;
  fread = λ h fp n. codes "{}";
}

abbrev notes : File
notes = new_file (codes "/notes") none

is_safe-write_example : is_safe (write failing notes (codes "x") []).1 ≡ (
    let h1 = opened notes.path notes.mode (some 0) ∷ [] in
    let again =
      last_opened (re_open failing notes (some 0) (printed 0 (codes "x") (negsuc 0) ∷ h1)).1 in
    elim again [ none ↦ true | some g ↦ 0 == g ])
is_safe-write_example = is_safe-write failing notes (codes "x") [] 0 refl refl

get_msg_lem_example :
    get_msg (some (codes "k\r") ∷ some (codes "\n") ∷ []) 0 (replicate 1024 0)
    ≡ collect (some (codes "k\r") ∷ some (codes "\n") ∷ []) []
get_msg_lem_example =
    get_msg_lem (some (codes "k\r") ∷ some (codes "\n") ∷ []) [] tt
      ((omega arith, (omega arith, tt)), ((omega arith, tt), tt))

get_file_lem_example : get_file (some (codes "a\nb\n")) [] ≡ some (pos 0, codes "ab")
get_file_lem_example =
    get_file_lem (codes "a\nb\n") [] (omega arith, (omega arith, (omega arith, (omega arith, tt))))
