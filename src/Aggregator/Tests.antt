-- ===== src/Aggregator/Tests.antt =====
-- Three of four validators sign.
use mainsail.Prelude.{ℕ, ◌≡◌, refl, true, false, List, [], ◌∷◌, length, trues}
use mainsail.Prelude.Outcome.{ok, err, index_out_of_range, majority_not_reached}
use mainsail.Contracts.{AggregatedSignature}
use mainsail.Aggregator.{Worker, aggregate, signers, verify}
use mainsail.Aggregator.Laws.{verify-aggregate}

-- A toy scheme: a joined signature counts the signatures.
abbrev worker : Worker
worker = record {
  aggregate_signatures = length;
  aggregate_keys = length;
  verify_signature = λ signature message keys. true;
}

abbrev signatures : List (ℕ × ℕ)
signatures = (0, 50) ∷ (3, 53) ∷ (1, 51) ∷ []

abbrev certificate : AggregatedSignature
certificate = record { signature = 3; validators = true ∷ true ∷ false ∷ true ∷ [] }

aggregate_run : aggregate worker signatures 4 ≡ ok certificate
unfolding aggregate
aggregate_run = refl

aggregate_out_of_range :
    aggregate worker ((0, 50) ∷ (4, 53) ∷ (1, 51) ∷ []) 4 ≡ err (index_out_of_range 4)
unfolding aggregate
aggregate_out_of_range = refl

aggregate_too_few : aggregate worker ((0, 50) ∷ []) 4 ≡ err majority_not_reached
unfolding aggregate
aggregate_too_few = refl

verify-aggregate_example :
    (length certificate.validators ≡ 4)
    × (trues certificate.validators ≡ 3)
    × (verify worker (λ i. i) certificate 9 4
        ≡ worker.verify_signature 3 9
            (worker.aggregate_keys (signers (λ i. i) 0 certificate.validators)))
verify-aggregate_example =
    verify-aggregate worker (λ i. i) signatures 4 9 (refl, (refl, (refl, tt))) aggregate_run
