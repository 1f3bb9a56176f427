-- ===== src/Keeper.antt =====
-- homeKeeper/keeper.cpp: `start`, which registers the work functions and runs the pool.
use home_keeper.Prelude.{
  ℕ, true, not, List, [], ◌∷◌, ◌++◌, append-nil, append_assoc, map, Option, none, ◌≡◌, refl, sym,
  ap, ◌∙◌, if◌then◌else◌, arith, Bytes, codes, ℤ, pos, negsuc, eq_ℤ,
}
use home_keeper.StdMap.{bytes_key}
use home_keeper.StdMap.Sorted.{is_sorted, all_before, all_before-front, all_after}
use home_keeper.ThreadPool.{Funcs, set_function, start, start_lem, set_function-last}

module _ {ℓ} {F : Type ℓ} (nothing : F) where
  -- The loop over `funcMap`.
  pub register_all : List (Bytes × F) → Funcs nothing → Funcs nothing
  register_all [] funcs = funcs
  register_all ((name, f) ∷ func_map) funcs =
      register_all func_map (set_function nothing name f none funcs)

  -- `funcMap`
  abbrev pub func_map_of : F → F → List (Bytes × F)
  func_map_of get_ip send_email = (codes "getIp", get_ip) ∷ (codes "sendEmail", send_email) ∷ []

  -- `start`, by the result of the log's `init`, from the table `funcs`: the return value and the
  -- threads, by what they run.
  pub start_keeper : ℤ → List (Bytes × F) → Funcs nothing → ℤ × List (F × Option (List ℕ))
  start_keeper ret func_map funcs =
      if not (eq_ℤ ret (pos 0))
      then (negsuc 0, [])
      else (pos 0, start nothing (register_all func_map funcs))

  abbrev pub registered : List (Bytes × F) → Funcs nothing
  registered [] = []
  registered ((name, f) ∷ func_map) =
      (name, record { func = f; argument = none }) ∷ registered func_map

  registered-append :
      (xs ys : List (Bytes × F)) → registered (xs ++ ys) ≡ registered xs ++ registered ys
  registered-append [] ys = refl
  registered-append ((name, f) ∷ xs) ys = rw (registered-append xs ys)

  all_before-registered :
      (name : Bytes) (xs : List (Bytes × F)) → all_before name (registered xs) ≡ all_before name xs
  all_before-registered name [] = refl
  all_before-registered name ((other, f) ∷ xs) = rw (all_before-registered name xs)

  register_all_lem :
      (func_map front : List (Bytes × F))
      → is_sorted (front ++ func_map) ≡ true
      → register_all func_map (registered front) ≡ registered (front ++ func_map)
  unfolding register_all
  register_all_lem [] front s = ap registered (sym (append-nil front))
  register_all_lem ((name, f) ∷ func_map) front s =
      let b = all_before-registered name front ∙ all_before-front name f front func_map s in
      let moved = append_assoc front ((name, f) ∷ []) func_map in
      rw
        (
          set_function-last nothing name f (registered front) b,
          sym (registered-append front ((name, f) ∷ [])),
        )
        (register_all_lem func_map (front ++ (name, f) ∷ []) (rw moved s) ∙ ap registered moved)

  all_after-registered :
      (name : Bytes) (xs : List (Bytes × F)) → all_after name (registered xs) ≡ all_after name xs
  all_after-registered name [] = refl
  all_after-registered name ((other, f) ∷ xs) = rw (all_after-registered name xs)

  is_sorted-registered : (xs : List (Bytes × F)) → is_sorted (registered xs) ≡ is_sorted xs
  is_sorted-registered [] = refl
  is_sorted-registered ((name, f) ∷ xs) = rw (all_after-registered name xs, is_sorted-registered xs)

  map-registered :
      (xs : List (Bytes × F))
      → map {B = F × Option (List ℕ)} (λ (name, f). (f.func, f.argument)) (registered xs)
        ≡ map {B = F × Option (List ℕ)} (λ (name, f). (f, none)) xs
  map-registered [] = refl
  map-registered ((name, f) ∷ xs) = rw (map-registered xs)

  -- Where the log is initialised, and `funcMap` is in the order of its names, as every `std::map` is:
  -- `start` makes one thread for each entry of `funcMap`, in order, which runs the function of the
  -- entry with a null argument. Where the log is not initialised, it makes none and returns -1.
  pub start_keeper_lem :
      (ret : ℤ) (func_map : List (Bytes × F))
      → is_sorted func_map ≡ true
      → start_keeper ret func_map [] ≡ (
          if eq_ℤ ret (pos 0)
          then (pos 0, map (λ (name, f). (f, none)) func_map)
          else (negsuc 0, []))
  unfolding start_keeper
  start_keeper_lem ret func_map s =
      let sorted = is_sorted-registered func_map ∙ s in
      let threads =
        ap (start nothing) (register_all_lem func_map [] s)
        ∙ start_lem nothing (registered func_map) sorted
        ∙ map-registered func_map in
      ground (arith, threads)
