-- ===== src/Jobs/Marks.antt =====
-- homeKeeper/workFunctions.hpp: the rows of the table of the addresses that are marked as sent, and the
-- row that a round of `sendEmail` takes.
use home_keeper.Prelude.{
  ℕ, Bool, true, false, List, [], ◌∷◌, none, some, ◌≡◌, ◌≢◌, inl, inr, refl, ◌==◌, ==_iff,
  if◌then◌else◌, Bool-cases, arith, codes, c_str, bytes_eq, All,
}
use home_keeper.Tables.IpInfo.{read_row, seen}
use home_keeper.Jobs.SendEmail.{unsent}
use home_keeper.Jobs.History.{Stored, mark, newest}

-- All rows of this number are marked.
abbrev pub Marked : List Stored → ℕ → Type 0
Marked rows id = All (λ (s : Stored). s.rec_id ≡ id → s.flag ≡ b'1') rows

-- No number occurs twice.
abbrev pub Distinct : List ℕ → Type 0
Distinct [] = Unit
Distinct (id ∷ ids) = All (λ other. id ≢ other) ids × Distinct ids

pub Marked-mark : (rows : List Stored) (k id : ℕ) → Marked rows id → Marked (mark k rows) id
Marked-mark [] k id h = tt
Marked-mark (s ∷ rows) k id (p, h) = elim (Bool-cases (s.rec_id == k)) [
  | inl e ↦ rw e ((λ q. refl), Marked-mark rows k id h)
  | inr e ↦ rw e (p, Marked-mark rows k id h)
]

pub mark-Marked : (rows : List Stored) (id : ℕ) → Marked (mark id rows) id
mark-Marked [] id = tt
mark-Marked (s ∷ rows) id = elim (Bool-cases (s.rec_id == id)) [
  | inl e ↦ rw e ((λ q. refl), mark-Marked rows id)
  | inr e ↦ rw e ((λ q. ground (arith, e, q, ==_iff s.rec_id id)), mark-Marked rows id)
]

some_if : (b : Bool) (k id : ℕ) → (if b then some k else none) ≡ some id → (b ≡ true) × (k ≡ id)
some_if true k id e = (refl, cc)
some_if false k id e = cc

flag_lem : (flag : ℕ) → bytes_eq (c_str (flag ∷ 0 ∷ [])) (codes "0") ≡ true → flag ≢ b'1'
flag_lem flag h q = cc (rw q at h)

-- The row that a round mails is not marked.
pub unsent_lem :
    (rows : List Stored) (id : ℕ)
    → unsent (seen [] (newest rows)) ≡ some id
    → (s : Stored) × (rest : List Stored) × (rows ≡ s ∷ rest) × (s.rec_id ≡ id) × (s.flag ≢ b'1')
unfolding read_row
unsent_lem [] id e = cc
unsent_lem (s ∷ rest) id e =
    let (fresh, same) = some_if (bytes_eq (c_str (s.flag ∷ 0 ∷ [])) (codes "0")) s.rec_id id e in
    (s, rest, refl, same, flag_lem s.flag fresh)
