-- ===== src/Download/Rounds.antt =====
-- The loop of `downloadWithProgress`, round by round.
use rampardos.Prelude.{ltb, ◌≡◌, ◌≢◌, ◌⊎◌, inl, inr, refl, ap, true, false, List, [], ◌∷◌, arith}
use rampardos.Download.{retries_exhausted}
use rampardos.Download.Transfer.{
  max_retries, Attempt, Outcome, success, failure, Transfer, Step, return_with, go_on, attempt,
  download_loop,
}
use rampardos.Download.Transfer.{give_up}

module _ (a : Attempt) (attempts : List Attempt) (t : Transfer) where
  pub loop_exhausted :
      ltb max_retries t.retries ≡ true
      → download_loop (a ∷ attempts) t ≡ (failure retries_exhausted, give_up t)
  unfolding download_loop
  loop_exhausted m = rw m refl

  pub loop_go_on :
      (t' : Transfer)
      → ltb max_retries t.retries ≡ false
      → attempt a t ≡ (go_on, t')
      → download_loop (a ∷ attempts) t ≡ download_loop attempts t'
  unfolding download_loop
  loop_go_on t' m s = rw (m, ap (λ r. r.0) s, ap (λ r. r.1) s) refl

  pub loop_return :
      (o : Outcome) (t' : Transfer)
      → ltb max_retries t.retries ≡ false
      → attempt a t ≡ (return_with o, t')
      → download_loop (a ∷ attempts) t ≡ (o, t')
  unfolding download_loop
  loop_return o t' m s = rw (m, ap (λ r. r.0) s, ap (λ r. r.1) s) refl

pub Result-cases :
    (r : Step × Transfer)
    → ((t' : Transfer) × (r ≡ (go_on, t')))
      ⊎ ((o : Outcome) × (t' : Transfer) × (r ≡ (return_with o, t')))
Result-cases (go_on, t') = inl (t', refl)
Result-cases (return_with o, t') = inr (o, t', refl)

pub loop_nil : (t : Transfer) → (download_loop [] t).0 ≢ success
unfolding download_loop
loop_nil t e = ground (arith, e)
