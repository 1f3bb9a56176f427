-- ===== src/Email/Delivery.antt =====
-- include/EmailSender.hpp: `SendMail`, which hands the mail to libcurl and tries again.
use home_keeper.Prelude.{
  ℕ, zero, suc, ◌+◌, ◌<◌, ◌≤◌, Bool, true, false, not, ◌&&◌, ◌||◌, List, [], ◌∷◌, ◌++◌,
  append_assoc, Option, none, some, ◌≡◌, inl, inr, refl, ◌∙◌, ltb, if◌then◌else◌, Bool-cases, arith,
  length, length-append, replicate, Bytes,
}
use home_keeper.Payload.{Stream, payload_source, payload_source_end}
use home_keeper.Email.{EmailSender}
use home_keeper.Email.Message.{Outside, create_message}

-- What libcurl does: whether `curl_easy_init` gives a handle, whether the k-th call of
-- `curl_easy_perform` returns CURLE_OK, and how often and with what buffer it calls
-- `payload_source` in that call.
pub record Transport : Type 0 where
  pub has_handle : Bool
  pub accepts : ℕ → Bool
  pub pulls : ℕ → ℕ
  pub buffer : ℕ

-- The bytes of `n` calls of `payload_source`.
unfoldable pub pull : ℕ → ℕ → Stream → Bytes × Stream
pull zero size s = ([], s)
pull (suc n) size s =
    let (bs, s') = payload_source 1 size s in let (more, s'') = pull n size s' in (bs ++ more, s'')

-- The result of `SendMail`, the object after it, and the body of each attempt.
pub record Sent : Type 0 where
  pub ok : Bool
  pub sender : EmailSender
  pub bodies : List Bytes

module _ (t : Transport) where
  -- `res = curl_easy_perform (curl)` and the `while` loop behind it; `k` is `nTimes`.
  perform_loop : ℕ → ℕ → Bool → EmailSender → List Bytes → Option Sent
  perform_loop zero k ret s bodies = none
  perform_loop (suc fuel) k ret s bodies =
      let (body, message) = pull (t.pulls k) t.buffer s.message in
      let s' : EmailSender = record s { message = message } in
      let bodies' = bodies ++ body ∷ [] in
      let finished : Option Sent = some (record { ok = ret; sender = s'; bodies = bodies' }) in
      let again = perform_loop fuel (k + 1) false s' bodies' in
      if t.accepts k then finished else if ltb 5 (k + 1) then finished else again

  -- `SendMail`; six rounds are fuel enough, as `send_mail_total` shows.
  pub send_mail : Outside → EmailSender → Option Sent
  unfolding perform_loop
  send_mail o s =
      let s' = create_message o s in
      let sent = perform_loop 6 0 true s' [] in
      if t.has_handle then sent else some (record { ok = true; sender = s'; bodies = [] })

  -- How many attempts are made from attempt `k` on, when `n` more are allowed.
  abbrev pub attempts : ℕ → ℕ → ℕ
  attempts zero k = 0
  attempts (suc n) k = if t.accepts k then 1 else suc (attempts n (k + 1))

  perform_loop_lem :
      (fuel k : ℕ) (ret : Bool) (s : EmailSender) (bodies : List Bytes)
      → fuel + k ≡ 6
      → 0 < fuel
      → (sent : Sent) × (perform_loop fuel k ret s bodies ≡ some sent)
        × (length sent.bodies ≡ length bodies + attempts fuel k)
        × (sent.ok ≡ (ret && (t.accepts k || ltb 5 (k + 1))))
  unfolding perform_loop
  perform_loop_lem zero k ret s bodies e h = elim h [ ]
  perform_loop_lem (suc fuel) k ret s bodies e h =
      let r = pull (t.pulls k) t.buffer s.message in
      let s' : EmailSender = record s { message = r.1 } in
      let bodies' = bodies ++ r.0 ∷ [] in
      let done : Sent = record { ok = ret; sender = s'; bodies = bodies' } in
      let longer : length bodies' ≡ length bodies + 1 = length-append bodies (r.0 ∷ []) in
      elim (Bool-cases (t.accepts k)) [
        | inl yes' ↦ (done, rw (yes', perform_loop), ground arith, ground arith)
        | inr no' ↦ elim (Bool-cases (ltb 5 (k + 1))) [
          | inl last ↦ (done, rw (no', last, perform_loop), ground arith, ground arith)
          | inr more ↦
              let (sent, run, len, ok) =
                perform_loop_lem fuel (k + 1) false s' bodies' (omega arith) (ground arith) in
              (sent, rw (no', more, perform_loop) run, ground arith, ground arith)
        ]
      ]

  attempts-le : (n k : ℕ) → attempts n k ≤ n
  attempts-le zero k = omega arith
  attempts-le (suc n) k = ground (arith, attempts-le n (k + 1))

  attempts_none : (n k : ℕ) → n ≡ 0 → attempts n k ≡ 0
  attempts_none zero k e = refl
  attempts_none (suc n) k e = absurd (omega arith)

  abbrev pub Ends : Outside → EmailSender → Type 0
  Ends o s =
      (sent : Sent) × (send_mail o s ≡ some sent)
      × (length sent.bodies ≡ (if t.has_handle then attempts 6 0 else 0))
      × (length sent.bodies ≤ 6)
      × (sent.ok ≡ (not t.has_handle || t.accepts 0))

  with_handle :
      (o : Outside) (s : EmailSender) (sent : Sent)
      → t.has_handle ≡ true
      → perform_loop 6 0 true (create_message o s) [] ≡ some sent
      → length sent.bodies ≡ 0 + attempts 6 0
      → sent.ok ≡ (true && (t.accepts 0 || ltb 5 (0 + 1)))
      → Ends o s
  unfolding send_mail
  with_handle o s sent h run len ok = (
    sent,
    ground arith,
    ground (arith, attempts-le 6 0),
    omega (arith, attempts-le 6 0, len),
    ground arith,
  )

  without_handle : (o : Outside) (s : EmailSender) → t.has_handle ≡ false → Ends o s
  unfolding send_mail
  without_handle o s h = (
    record { ok = true; sender = create_message o s; bodies = [] },
    ground arith,
    ground arith,
    omega arith,
    ground arith,
  )

  -- `SendMail` always ends, after six attempts at most. It makes attempts until the first that is
  -- accepted; its result is true exactly if there is no handle, or if the first attempt was accepted.
  pub send_mail_total : (o : Outside) (s : EmailSender) → Ends o s
  send_mail_total o s =
      let (sent, run, len, ok) =
        perform_loop_lem 6 0 true (create_message o s) [] (omega arith) (omega arith) in
      elim (Bool-cases t.has_handle) [
        | inl h ↦ with_handle o s sent h run len ok
        | inr h ↦ without_handle o s h
      ]

  pull_at_end : (n size : ℕ) (s : Stream) → s.at_end ≡ true → pull n size s ≡ ([], s)
  unfolding pull
  pull_at_end zero size s h = refl
  pull_at_end (suc n) size s h = rw (payload_source_end size s h, pull, pull_at_end n size s h)

  perform_loop_at_end :
      (fuel k : ℕ) (s : EmailSender) (bodies : List Bytes)
      → s.message.at_end ≡ true
      → fuel + k ≡ 6
      → 0 < fuel
      → (sent : Sent) × (perform_loop fuel k false s bodies ≡ some sent)
        × (sent.bodies ≡ bodies ++ replicate (attempts fuel k) [])
        × (sent.ok ≡ false)
  unfolding perform_loop
  perform_loop_at_end zero k s bodies m e h = elim h [ ]
  perform_loop_at_end (suc fuel) k s bodies m e h =
      let empty = pull_at_end (t.pulls k) t.buffer s.message m in
      let done : Sent = record { ok = false; sender = s; bodies = bodies ++ [] ∷ [] } in
      elim (Bool-cases (t.accepts k)) [
        | inl hit ↦ (done, rw (empty, hit, perform_loop), rw hit, refl)
        | inr miss ↦ elim (Bool-cases (ltb 5 (k + 1))) [
          | inl last ↦ (
            done,
            rw (empty, miss, last, perform_loop),
            rw (miss, attempts_none fuel (k + 1) (ground arith)),
            refl,
          )
          | inr more ↦
              let (sent, run, same, ok) =
                perform_loop_at_end fuel (k + 1) s (bodies ++ [] ∷ []) m (omega arith)
                  (ground arith) in
              (
                sent,
                rw (empty, miss, more, perform_loop) run,
                rw miss (same ∙ append_assoc bodies ([] ∷ []) _),
                ok,
              )
        ]
      ]

  -- With a handle, where the first attempt is refused after it has read the message to its end,
  -- `SendMail` returns false, and every further attempt sends an empty body: the stream is never
  -- rewound.
  pub send_mail_again :
      (o : Outside) (s : EmailSender)
      → t.has_handle ≡ true
      → t.accepts 0 ≡ false
      → (pull (t.pulls 0) t.buffer (create_message o s).message).1.at_end ≡ true
      → (sent : Sent) × (send_mail o s ≡ some sent)
        × (sent.bodies
            ≡ (pull (t.pulls 0) t.buffer (create_message o s).message).0
              ∷ replicate (attempts 5 1) [])
        × (sent.ok ≡ false)
  unfolding send_mail
  send_mail_again o s h refused read =
      let s' = create_message o s in
      let first = pull (t.pulls 0) t.buffer s'.message in
      let (sent, run, same, ok) =
        perform_loop_at_end 5 1 (record s' { message = first.1 }) (first.0 ∷ []) read (omega arith)
          (omega arith) in
      (sent, simp (h, refused) run, same, ok)
