-- ===== src/Reliable/Tests.antt =====
-- CompleteOne with a job at its second of three attempts.
use zoa.Base.{ℕ, ◌≡◌, ◌≢◌, Option, ◌⊎◌, true, none, some, [], ◌∷◌}
use zoa.Base.Text.{Text, codes}
use zoa.Base.Sql.{Result, ok}
use zoa.Reliable.Completer.{ClaimedJob, complete_one}
use zoa.Reliable.Settling.{claimed, recorder, Settles, complete_one-Settles}

abbrev job : ClaimedJob ℕ
job = record { id = 7; attempt = 2; value = 0 }

abbrev claim : Result Text (Option (ClaimedJob ℕ))
claim = ok (some job)

complete_one-Settles_example :
    let did =
      (complete_one
        (λ text. text)
        (some (recorder claim (some (codes "timeout")) (ok tt) (ok tt) (ok tt) (λ _. true) none 3))
        10
        20
        []).1 in
    ((j : ClaimedJob ℕ) × (claim ≡ ok (some j))
      × Settles claim (some (codes "timeout")) (ok tt) (ok tt) (ok tt) (λ _. true) none 3 j did)
    ⊎ (((j : ClaimedJob ℕ) → claim ≢ ok (some j)) × (did ≡ claimed ∷ []))
complete_one-Settles_example =
    complete_one-Settles (λ text. text) claim (some (codes "timeout")) (ok tt) (ok tt) (ok tt)
      (λ _. true) none 3 10 20
