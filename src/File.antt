-- ===== src/File.antt =====
-- include/file.hpp: the class `file`. The stdio library is a parameter: a call answers from the
-- history of the calls before it.
pub mod Safety
pub mod Contents
use home_keeper.Prelude.{
  ℕ, zero, suc, ◌+◌, ◌-◌, ◌*◌, ◌/◌, ◌%◌, ◌<◌, ◌≤◌, Bool, true, false, not, ◌&&◌, ◌||◌, List, [],
  ◌∷◌, ◌++◌, append-nil, append_assoc, map, Option, none, some, ◌≡◌, ◌≢◌, ◌⊎◌, inl, inr, refl, sym,
  ap, ◌∙◌, subst, ltb, leb, ◌==◌, ==_iff, if◌then◌else◌, ltb→lt, lt→ltb, leb→le, Bool-cases,
  Option-cases, arith, length, length-append, take, drop, replicate, take-append-drop, length-drop,
  length-take, get_elem?, get_or, Bytes, codes, c_str, print_into, NoZero, c_str-NoZero, ◌↔◌,
  bytes_eq, bytes_eq_refl, bytes_eq_sound, bytes_eq_iff, All, All-append, IsByte, ℤ, pos, negsuc,
  eq_ℤ, is_negative, success, failed, set, length-set, NoZero-c_str,
}

-- The calls of stdio with their results, the newest first: `fopen` of a path in a mode, and what the
-- others do with a handle; `fprintf` prints a text.
pub data Call : Type 0 where
  opened : Bytes → Bytes → Option ℕ → Call
  printed : ℕ → Bytes → ℤ → Call
  flushed closed : ℕ → ℤ → Call
  fetched : ℕ → Call

abbrev pub History : Type 0
History = List Call

-- stdio: what each call returns, given the calls before it.
pub record Stdio : Type 0 where
  pub fopen : History → Bytes → Bytes → Option ℕ
  pub fprintf : History → ℕ → Bytes → ℤ
  pub fflush : History → ℕ → ℤ
  pub fclose : History → ℕ → ℤ
  pub fread : History → ℕ → ℕ → Bytes

-- `file`, without `buf` and the unused `res`.
pub record File : Type 0 where
  pub path : Bytes
  pub mode : Bytes
  pub re_try_time : ℕ

-- The constructor, for the default type too.
abbrev pub new_file : Bytes → Option Bytes → File
new_file path none = record { path = path; mode = codes "at+"; re_try_time = 5 }
new_file path (some mode) = record { path = path; mode = mode; re_try_time = 5 }

abbrev pub set_path : Bytes → File → File
set_path path f = record f { path = path }

module _ (c : Stdio) where
  open c use {fopen, fprintf, fflush, fclose, fread}

  -- The loop of `reOpen`; the handle it opens is not given back.
  pub re_open_loop : File → ℕ → History → ℤ × History
  re_open_loop f zero h = (failed, h)
  re_open_loop f (suc n) h = elim (fopen h f.path f.mode) [
    | none ↦ re_open_loop f n (opened f.path f.mode none ∷ h)
    | some fp ↦ (success, opened f.path f.mode (some fp) ∷ h)
  ]

  -- `reOpen`
  pub re_open : File → Option ℕ → History → ℤ × History
  re_open f none h = re_open_loop f f.re_try_time h
  re_open f (some fp) h = re_open_loop f f.re_try_time (closed fp (fclose h fp) ∷ h)

  -- The end of `write`: the result of `fflush` is overwritten.
  abbrev finish_write : ℕ → History → ℤ × History
  finish_write fp h =
      let h' = flushed fp (fflush h fp) ∷ h in (fclose h' fp, closed fp (fclose h' fp) ∷ h')

  -- `write`, once the file is open.
  abbrev write_opened : File → Bytes → ℕ → History → ℤ × History
  write_opened f text fp h =
      let ret = fprintf h fp (c_str text) in
      let h1 = printed fp (c_str text) ret ∷ h in
      let (again, h2) = re_open f (some fp) h1 in
      if is_negative ret
      then if eq_ℤ again success
        then finish_write fp (printed fp (c_str text) (fprintf h2 fp (c_str text)) ∷ h2)
        else (again, h2)
      else finish_write fp h1

  -- `write` of a string
  pub write : File → Bytes → History → ℤ × History
  write f text h = elim (fopen h f.path f.mode) [
    | none ↦ (failed, opened f.path f.mode none ∷ h)
    | some fp ↦ write_opened f text fp (opened f.path f.mode (some fp) ∷ h)
  ]

  -- `write` of a `char*`, which does not look at the length; its second test of `fp` never holds.
  abbrev pub write_chars : File → Bytes → ℕ → History → ℤ × History
  write_chars f text size h = write f text h

  -- `getRes`: `fread` may put 1024 * 1024 bytes into the 1024 bytes of `buf`, and a full `buf` has
  -- no end: `none`. The count it returns is not negative, so that its error branch is not reached.
  unfoldable pub get_res : File → History → Option Bytes × History
  get_res f h = elim (fopen h f.path f.mode) [
    | none ↦ (some [], opened f.path f.mode none ∷ h)
    | some fp ↦
        let h1 = opened f.path f.mode (some fp) ∷ h in
        let bytes = fread h1 fp (1024 * 1024) in
        let h2 = fetched fp ∷ h1 in
        if ltb (length bytes) 1024
        then (some (c_str bytes), closed fp (fclose h2 fp) ∷ h2)
        else (none, h2)
  ]
