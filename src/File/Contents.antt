-- ===== src/File/Contents.antt =====
-- include/file.hpp: what `write` leaves in a file and what `getRes` reads of it. What a file holds is
-- a parameter, with the documented effect that each call of stdio has on it.
use home_keeper.Prelude.{
  ℕ, ◌*◌, ◌<◌, false, [], ◌∷◌, ◌++◌, Option, none, some, ◌≡◌, refl, ap, ◌∙◌, ◌==◌, ==_iff,
  if◌then◌else◌, lt→ltb, arith, length, take, Bytes, codes, c_str, NoZero, c_str-NoZero, bytes_eq,
  bytes_eq_refl, bytes_eq_iff, pos, is_negative,
}
use home_keeper.Prelude.{take_below, NoZero-append}
use home_keeper.File.Safety.{get_res_bytes}
use home_keeper.File.{
  opened, printed, flushed, closed, fetched, History, Stdio, File, write, get_res,
}

-- The file that a handle appends to: of the last call that opened it, where it is not closed.
abbrev pub appends_to : ℕ → History → Option Bytes
appends_to fp [] = none
appends_to fp (opened path mode none ∷ h) = appends_to fp h
appends_to fp (opened path mode (some g) ∷ h) =
    if fp == g then if bytes_eq mode (codes "at+") then some path else none else appends_to fp h
appends_to fp (closed g r ∷ h) = if fp == g then none else appends_to fp h
appends_to fp (printed g text r ∷ h) = appends_to fp h
appends_to fp (flushed g r ∷ h) = appends_to fp h
appends_to fp (fetched g ∷ h) = appends_to fp h

-- What a text adds to the file of a path, when it is appended to another or the same.
abbrev pub added : Bytes → Bytes → Bytes → Bytes
added path text q = if bytes_eq path q then text else []

pub opened-appends_to :
    (fp : ℕ) (path mode : Bytes) (h : History)
    → mode ≡ codes "at+"
    → appends_to fp (opened path mode (some fp) ∷ h) ≡ some path
opened-appends_to fp path mode h m =
    ground (arith, ==_iff fp fp, (bytes_eq_iff mode (codes "at+")).1 m)

-- The files: what each holds once the buffers are written. Opening with "at+" leaves a file as it is
-- and reads from its start; a `fprintf` that does not fail appends its text.
pub record Disk (c : Stdio) : Type 0 where
  pub holds : History → Bytes → Bytes
  pub holds-opened :
      (h : History) (path mode : Bytes) (r : Option ℕ) (q : Bytes)
      → mode ≡ codes "at+"
      → holds (opened path mode r ∷ h) q ≡ holds h q
  pub holds-printed :
      (h : History) (fp n : ℕ) (path text q : Bytes)
      → appends_to fp h ≡ some path
      → holds (printed fp text (pos n) ∷ h) q ≡ holds h q ++ added path text q
  pub holds-flushed :
      (h : History) (fp n : ℕ) (q : Bytes) → holds (flushed fp (pos n) ∷ h) q ≡ holds h q
  pub holds-closed :
      (h : History) (fp n : ℕ) (q : Bytes) → holds (closed fp (pos n) ∷ h) q ≡ holds h q
  pub fread_lem :
      (h : History) (fp n : ℕ) (path mode : Bytes)
      → mode ≡ codes "at+"
      → c.fread (opened path mode (some fp) ∷ h) fp n ≡ take n (holds h path)

-- No call of stdio fails.
pub record Works (c : Stdio) : Type 0 where
  pub fopen_lem : (h : History) (path mode : Bytes) → (fp : ℕ) × (c.fopen h path mode ≡ some fp)
  pub fprintf_lem : (h : History) (fp : ℕ) (text : Bytes) → (n : ℕ) × (c.fprintf h fp text ≡ pos n)
  pub fflush_lem : (h : History) (fp : ℕ) → (n : ℕ) × (c.fflush h fp ≡ pos n)
  pub fclose_lem : (h : History) (fp : ℕ) → (n : ℕ) × (c.fclose h fp ≡ pos n)

module _ (c : Stdio) (works : Works c) (disk : Disk c) where
  open works use {fopen_lem, fprintf_lem, fflush_lem, fclose_lem}
  open disk use {holds, holds-opened, holds-printed, holds-flushed, holds-closed, fread_lem}

  -- The calls that `write` makes.
  write_calls :
      (f : File) (text : Bytes) (h : History)
      → (fp n n2 n3 : ℕ) × (write c f text h ≡ (
        pos n3,
        closed fp (pos n3)
            ∷ flushed fp (pos n2)
            ∷ printed fp (c_str text) (pos n)
            ∷ opened f.path f.mode (some fp)
            ∷ h,
      ))
  unfolding write
  write_calls f text h =
      let (fp, e) = fopen_lem h f.path f.mode in
      let h1 : History = opened f.path f.mode (some fp) ∷ h in
      let (n, e1) = fprintf_lem h1 fp (c_str text) in
      let h2 : History = printed fp (c_str text) (pos n) ∷ h1 in
      let (n2, e2) = fflush_lem h2 fp in
      let h3 : History = flushed fp (pos n2) ∷ h2 in
      let (n3, e3) = fclose_lem h3 fp in (fp, n, n2, n3, rw (e, write, e1, e2, e3) refl)

  -- Where no call of stdio fails, `write` appends a text without zeros to its file, which it opens with
  -- "at+", and changes no other; its result is not negative.
  pub holds-write :
      (f : File) (text : Bytes) (h : History) (q : Bytes)
      → f.mode ≡ codes "at+"
      → NoZero text
      → (holds (write c f text h).1 q ≡ holds h q ++ added f.path text q)
        × (is_negative (write c f text h).0 ≡ false)
  holds-write f text h q m z =
      let (fp, n, n2, n3, e) = write_calls f text h in
      let h1 : History = opened f.path f.mode (some fp) ∷ h in
      let h2 : History = printed fp text (pos n) ∷ h1 in
      let appends = opened-appends_to fp f.path f.mode h m in
      (
        rw (e, c_str-NoZero text z)
            (holds-closed (flushed fp (pos n2) ∷ h2) fp n3 q
              ∙ holds-flushed h2 fp n2 q
              ∙ holds-printed h1 fp n f.path text q appends
              ∙ ap (λ x. x ++ added f.path text q) (holds-opened h f.path f.mode (some fp) q m)),
        ap (λ r. is_negative r.0) e,
      )

  -- Where no call of stdio fails, `getRes` after `write` of a text without zeros to the same file, which
  -- both open with "at+", reads what the file held before, if that has no zero, and the text behind it,
  -- if both together are shorter than 1024 bytes.
  pub get_res-write :
      (f : File) (text : Bytes) (h : History)
      → f.mode ≡ codes "at+"
      → NoZero text
      → NoZero (holds h f.path)
      → length (holds h f.path ++ text) < 1024
      → (get_res c f (write c f text h).1).0 ≡ some (holds h f.path ++ text)
  get_res-write f text h m z zh l =
      let h' = (write c f text h).1 in
      let (fp, e) = fopen_lem h' f.path f.mode in
      let whole = holds h f.path ++ text in
      let here : holds h' f.path ≡ whole =
        (holds-write f text h f.path m z).0 ∙ rw (bytes_eq_refl f.path) refl in
      let read : c.fread (opened f.path f.mode (some fp) ∷ h') fp (1024 * 1024) ≡ whole =
        fread_lem h' fp (1024 * 1024) f.path f.mode m
        ∙ ap (take (1024 * 1024)) here
        ∙ take_below (1024 * 1024) whole (omega (arith, l)) in
      get_res_bytes c f h' fp e whole read (NoZero-append (holds h f.path) text zh z)
      ∙ rw (lt→ltb _ _ l) refl
