-- ===== src/Payload.antt =====
-- `std::stringstream m_strMessage` of include/EmailSender.hpp, and `payload_source`, by which
-- libcurl reads it.
use home_keeper.Prelude.{
  ℕ, zero, suc, ◌+◌, ◌*◌, ◌<◌, Bool, true, false, [], ◌∷◌, ◌++◌, Option, none, some, ◌≡◌, refl, ltb,
  if◌then◌else◌, length, take, drop, Bytes, arith, ap, Bool-cases, ltb→lt, lt→ltb, inl, inr,
  length-drop, append-nil, take-append-drop,
}

-- The bytes that were not read yet, and whether the stream has met its end (eofbit and failbit).
pub record Stream : Type 0 where
  pub unread : Bytes
  pub at_end : Bool

abbrev pub new_stream : Stream
new_stream = record { unread = []; at_end = false }

-- `stream << text`; a stream that has failed takes nothing.
unfoldable pub insert_text : Stream → Bytes → Stream
insert_text s text = if s.at_end then s else record s { unread = s.unread ++ text }

-- `payload_source`: `read` of size * nmemb bytes, and `gcount`.
unfoldable pub payload_source : ℕ → ℕ → Stream → Bytes × Stream
payload_source size nmemb s =
    let n = size * nmemb in
    if s.at_end
    then ([], s)
    else (take n s.unread, record { unread = drop n s.unread; at_end = ltb (length s.unread) n })

abbrev prepend : Bytes → Option (Bytes × Stream) → Option (Bytes × Stream)
prepend bs none = none
prepend bs (some (more, s)) = some (bs ++ more, s)

abbrev carry_on : (Stream → Option (Bytes × Stream)) → Bytes × Stream → Option (Bytes × Stream)
carry_on again ([], s) = some ([], s)
carry_on again (b ∷ bs, s) = prepend (b ∷ bs) (again s)

-- One transfer: libcurl calls `payload_source` for `n` bytes at a time until it returns none.
pub transfer : ℕ → ℕ → Stream → Option (Bytes × Stream)
transfer zero n s = none
transfer (suc fuel) n s = carry_on (transfer fuel n) (payload_source 1 n s)

abbrev pub spent : Stream
spent = record { unread = []; at_end = true }

one-mul : (n : ℕ) → 1 * n ≡ n
one-mul n = omega arith

payload_source_fresh :
    (n : ℕ) (u : Bytes)
    → payload_source 1 n (record { unread = u; at_end = false })
      ≡ (take n u, record { unread = drop n u; at_end = ltb (length u) n })
unfolding payload_source
payload_source_fresh n u = rw (one-mul n)

pub payload_source_end : (n : ℕ) (s : Stream) → s.at_end ≡ true → payload_source 1 n s ≡ ([], s)
unfolding payload_source
payload_source_end n s h = ground arith

transfer_at_end :
    (fuel n : ℕ) (s : Stream) → s.at_end ≡ true → 0 < fuel → transfer fuel n s ≡ some ([], s)
unfolding transfer
transfer_at_end zero n s h f = elim f [ ]
transfer_at_end (suc fuel) n s h f = rw (payload_source_end n s h, transfer)

take_short : (n : ℕ) (u : Bytes) → length u < n → (take n u ≡ u) × (drop n u ≡ [])
take_short zero u h = elim h [ ]
take_short (suc n) [] h = (refl, refl)
take_short (suc n) (b ∷ u) h =
    let rest = take_short n u (omega arith) in (ap (◌∷◌ b) rest.0, rest.1)

transfer_all :
    (fuel n : ℕ) (u : Bytes)
    → length u + 1 < fuel
    → transfer fuel (suc n) (record { unread = u; at_end = false }) ≡ some (u, spent)
unfolding transfer
transfer_all zero n u f = elim f [ ]
transfer_all (suc fuel) n [] f =
    rw (payload_source_fresh (suc n) [], lt→ltb 0 (suc n) (omega arith), transfer)
transfer_all (suc fuel) n (b ∷ bs) f = elim (Bool-cases (ltb (suc (length bs)) (suc n))) [
  | inl short ↦
      let (all, none_left) = take_short n bs (omega (arith, ltb→lt _ _ short)) in
      rw
        (
          payload_source_fresh (suc n) (b ∷ bs),
          transfer,
          short,
          none_left,
          all,
          transfer_at_end fuel (suc n) spent refl (omega arith),
        )
        (ap (λ xs. some (b ∷ xs, spent)) (append-nil bs))
  | inr long ↦
      rw
        (
          payload_source_fresh (suc n) (b ∷ bs),
          transfer,
          long,
          transfer_all fuel n (drop n bs) (omega (arith, length-drop n bs)),
        )
        (ap (λ xs. some (b ∷ xs, spent)) (take-append-drop n bs))
]

-- On fuel for two more calls than the message has bytes, a transfer in buffers of any positive size
-- ends and sends the whole message, in order; any later transfer of the same stream sends nothing.
pub transfer_once :
    (fuel n : ℕ) (u : Bytes)
    → 0 < n
    → length u + 1 < fuel
    → (transfer fuel n (record { unread = u; at_end = false }) ≡ some (u, spent))
      × (transfer fuel n spent ≡ some ([], spent))
transfer_once fuel zero u p f = elim p [ ]
transfer_once fuel (suc n) u p f =
    (transfer_all fuel n u f, transfer_at_end fuel (suc n) spent refl (omega arith))
