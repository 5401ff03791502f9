-- ===== src/Reports/Telegram/Attempts.antt =====
-- src/reports/ReportManager.cpp: what has been sent when the messages of a report end.
use monk_skud_unex.Base.{
  ℕ, zero, suc, List, [], ◌∷◌, ◌++◌, Bool, Text, if◌then◌else◌, is_empty, ◌≡◌, refl, sym, ap, ◌∙◌,
  arith, append_assoc, append-nil, Bool-cases, inl, inr,
}
use monk_skud_unex.Reports.Telegram.{attempt, send_all}

module _ {W : Type 0} (send : Text → W → Bool × W) where
  -- The network with a log of the messages that it accepted.
  unfoldable pub logged : Text → W × List Text → Bool × (W × List Text)
  logged m (w, log) = let r = send m w in (r.0, (r.1, if r.0 then log ++ m ∷ [] else log))

  pub attempt-logged :
      (n : ℕ) (m : Text) (s : W × List Text)
      → let r = attempt n (logged m) s in r.1.1 ≡ (if r.0 then s.1 ++ m ∷ [] else s.1)
  unfolding attempt logged
  attempt-logged zero m (w, log) = refl
  attempt-logged (suc n) m (w, log) =
      let r = send m w in
      elim (Bool-cases r.0) [
        | inl yes_sent ↦ ground (arith, yes_sent)
        | inr not_sent ↦ ground (arith, not_sent, attempt-logged n m (r.1, log))
      ]

  -- Whatever the number of attempts, the messages that were accepted are the first ones, each once and in
  -- their order, and the answer tells whether they are all.
  pub send_all-logged :
      (retries : ℕ) (ms : List Text) (s : W × List Text)
      → let r = send_all retries logged ms s in
        (done left : List Text) × (done ++ left ≡ ms)
        × (r.1.1 ≡ s.1 ++ done)
        × (r.0 ≡ is_empty left)
  unfolding send_all
  send_all-logged retries [] s = ([], [], refl, sym (append-nil s.1), refl)
  send_all-logged retries (m ∷ ms) s =
      let r = attempt retries (logged m) s in
      let log = attempt-logged retries m s in
      elim (Bool-cases r.0) [
        | inl yes_sent ↦
            let grown : r.1.1 ≡ s.1 ++ m ∷ [] = ground (arith, yes_sent, log) in
            let ih = send_all-logged retries ms r.1 in
            (
              m ∷ ih.0,
              ih.1,
              ap (λ (t : List Text). m ∷ t) ih.2,
              rw (yes_sent, send_all)
                  (ih.3 ∙ ap (λ (t : List Text). t ++ ih.0) grown ∙ append_assoc s.1 (m ∷ []) ih.0),
              rw (yes_sent, send_all) ih.4,
            )
        | inr not_sent ↦ (
          [],
          m ∷ ms,
          refl,
          rw (not_sent, send_all) (ground (arith, not_sent, log, append-nil s.1)),
          rw (not_sent, send_all) refl,
        )
      ]
