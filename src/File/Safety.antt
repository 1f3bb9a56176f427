-- ===== src/File/Safety.antt =====
-- include/file.hpp: which calls of `file` use a handle that is open, and what they return.
use home_keeper.Prelude.{
  ℕ, zero, suc, ◌+◌, ◌*◌, ◌≤◌, Bool, true, false, not, ◌&&◌, ◌||◌, [], ◌∷◌, Option, none, some, ◌≡◌,
  inl, inr, refl, ltb, ◌==◌, ==_iff, if◌then◌else◌, Option-cases, arith, length, Bytes, c_str,
  NoZero, c_str-NoZero, eq_ℤ, is_negative, success,
}
use home_keeper.File.{
  opened, printed, flushed, closed, fetched, History, Stdio, File, re_open_loop, re_open, write,
  get_res,
}

-- The handle is open after the calls.
abbrev pub is_open : ℕ → History → Bool
is_open fp [] = false
is_open fp (opened p m none ∷ h) = is_open fp h
is_open fp (opened p m (some g) ∷ h) = fp == g || is_open fp h
is_open fp (closed g r ∷ h) = not (fp == g) && is_open fp h
is_open fp (printed g t r ∷ h) = is_open fp h
is_open fp (flushed g r ∷ h) = is_open fp h
is_open fp (fetched g ∷ h) = is_open fp h

-- No call was given a handle that was not open.
abbrev pub is_safe : History → Bool
is_safe [] = true
is_safe (opened p m r ∷ h) = is_safe h
is_safe (closed g r ∷ h) = is_open g h && is_safe h
is_safe (printed g t r ∷ h) = is_open g h && is_safe h
is_safe (flushed g r ∷ h) = is_open g h && is_safe h
is_safe (fetched g ∷ h) = is_open g h && is_safe h

-- What the last call opened.
abbrev pub last_opened : History → Option ℕ
last_opened (opened p m r ∷ h) = r
last_opened h = none

-- The handle the last call opened, if any, is this one.
abbrev pub gave : ℕ → Option ℕ → Bool
gave fp none = false
gave fp (some g) = fp == g

module _ (c : Stdio) where
  open c use {fopen, fprintf, fflush, fclose, fread}

  re_open_loop-is_safe :
      (f : File) (n : ℕ) (h : History) → is_safe (re_open_loop c f n h).1 ≡ is_safe h
  unfolding re_open_loop
  re_open_loop-is_safe f zero h = refl
  re_open_loop-is_safe f (suc n) h = elim (Option-cases (fopen h f.path f.mode)) [
    | inl e ↦ ground (arith, e, re_open_loop-is_safe f n (opened f.path f.mode none ∷ h))
    | inr (fp, e) ↦ ground (arith, e)
  ]

  re_open_loop-is_open :
      (f : File) (n fp : ℕ) (h : History)
      → last_opened h ≡ none
      → is_open fp (re_open_loop c f n h).1
        ≡ gave fp (last_opened (re_open_loop c f n h).1) || is_open fp h
  unfolding re_open_loop
  re_open_loop-is_open f zero fp h e = rw e
  re_open_loop-is_open f (suc n) fp h e = elim (Option-cases (fopen h f.path f.mode)) [
    | inl e' ↦ ground (arith, e', re_open_loop-is_open f n fp (opened f.path f.mode none ∷ h) refl)
    | inr (g, e') ↦ ground (arith, e')
  ]

  re_open_loop-success :
      (f : File) (n : ℕ) (h : History)
      → last_opened h ≡ none
      → eq_ℤ (re_open_loop c f n h).0 success
        ≡ (elim (last_opened (re_open_loop c f n h).1) [ none ↦ false | some g ↦ true ])
  unfolding re_open_loop
  re_open_loop-success f zero h e = rw e
  re_open_loop-success f (suc n) h e = elim (Option-cases (fopen h f.path f.mode)) [
    | inl e' ↦ ground (arith, e', re_open_loop-success f n (opened f.path f.mode none ∷ h) refl)
    | inr (g, e') ↦ ground (arith, e')
  ]

  length-re_open_loop :
      (f : File) (n : ℕ) (h : History) → length (re_open_loop c f n h).1 ≤ n + length h
  unfolding re_open_loop
  length-re_open_loop f zero h = omega arith
  length-re_open_loop f (suc n) h = elim (Option-cases (fopen h f.path f.mode)) [
    | inl e ↦ ground (arith, e, length-re_open_loop f n (opened f.path f.mode none ∷ h))
    | inr (fp, e) ↦ ground (arith, e)
  ]

  -- `reOpen` makes at most `reTryTime` calls of `fopen` behind the `fclose`, and returns SUCCESS
  -- exactly when the last of its calls opened the file.
  pub re_open_lem :
      (f : File) (fp : ℕ) (h : History)
      → length (re_open c f (some fp) h).1 ≤ f.re_try_time + suc (length h)
        × eq_ℤ (re_open c f (some fp) h).0 success
          ≡ (elim (last_opened (re_open c f (some fp) h).1) [ none ↦ false | some g ↦ true ])
  unfolding re_open
  re_open_lem f fp h =
      let h' = closed fp (fclose h fp) ∷ h in
      (length-re_open_loop f f.re_try_time h', re_open_loop-success f f.re_try_time h' refl)

  -- Where the calls before are safe and `write` of a string opens the file, the calls it makes are
  -- safe exactly when the first `fprintf` does not fail, or `reOpen` does not open the file again,
  -- or what it opens has the same handle: `write` goes on with the handle that `reOpen` closed.
  pub is_safe-write :
      (f : File) (text : Bytes) (h : History) (fp : ℕ)
      → is_safe h ≡ true
      → fopen h f.path f.mode ≡ some fp
      → is_safe (write c f text h).1 ≡ (
          let h1 = opened f.path f.mode (some fp) ∷ h in
          let ret = fprintf h1 fp (c_str text) in
          let again = last_opened (re_open c f (some fp) (printed fp (c_str text) ret ∷ h1)).1 in
          not (is_negative ret) || (elim again [ none ↦ true | some g ↦ fp == g ]))
  unfolding write re_open
  is_safe-write f text h fp s e =
      let h1 = opened f.path f.mode (some fp) ∷ h in
      let ret = fprintf h1 fp (c_str text) in
      let h2 = printed fp (c_str text) ret ∷ h1 in
      let h3 = closed fp (fclose h2 fp) ∷ h2 in
      let n = f.re_try_time in
      ground (
        arith,
        e,
        s,
        re_open_loop-is_safe f n h3,
        re_open_loop-is_open f n fp h3 refl,
        re_open_loop-success f n h3 refl,
        ==_iff fp fp,
      )

  -- When `getRes` opens the file and reads bytes without a zero, it returns them all if they are
  -- fewer than 1024, and overruns `buf` otherwise.
  pub get_res_bytes :
      (f : File) (h : History) (fp : ℕ)
      → fopen h f.path f.mode ≡ some fp
      → (bytes : Bytes) → fread (opened f.path f.mode (some fp) ∷ h) fp (1024 * 1024) ≡ bytes
      → NoZero bytes
      → (get_res c f h).0 ≡ (if ltb (length bytes) 1024 then some bytes else none)
  unfolding get_res
  get_res_bytes f h fp e bytes e' z = ground (arith, e, e', c_str-NoZero bytes z)
