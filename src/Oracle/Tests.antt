-- ===== src/Oracle/Tests.antt =====
-- Two messages to two consumers, one of which gets them in the wrong order.
use myelon.Common.{◌≡◌, ◌↔◌, refl, arith, none, List, [], ◌∷◌, All}
use myelon.Common.Outcome.{done}
use myelon.Common.Result.{Result, ok, err}
use myelon.Oracle.Defs.{
  OracleMessage, OracleViolation, with_broadcast_consumers, extend_published, record_publish,
  verify_complete,
}
use myelon.Oracle.Verdicts.{Agrees}
use myelon.Oracle.Complete.{run, verify_complete-Agrees}

abbrev first : OracleMessage
first = record { sequence = 0; payload_hash = 71; payload_len = 5; timestamp_ns = 10 }

abbrev second : OracleMessage
second = record { sequence = 1; payload_hash = 72; payload_len = 6; timestamp_ns = 20 }

swapped :
    verify_complete
      ((first ∷ second ∷ []) ∷ (second ∷ first ∷ []) ∷ [])
      (run 2 (first ∷ second ∷ []))
    ≡ done (
        err (
          OracleViolation.sequence_gap 1 0 1
          ∷ OracleViolation.sequence_reorder 1 1 0
          ∷ OracleViolation.sequence_gap 1 1 0
          ∷ []))
unfolding verify_complete extend_published with_broadcast_consumers record_publish
swapped = refl

verify_complete-Agrees_example :
    (result : Result (Unit {0}) (List OracleViolation)) × (verify_complete
        ((first ∷ second ∷ []) ∷ (second ∷ first ∷ []) ∷ [])
        (run 2 (first ∷ second ∷ []))
      ≡ done result)
    × ((result ≡ ok tt)
        ↔ All
            (λ report. Agrees none report (first ∷ second ∷ []))
            ((first ∷ second ∷ []) ∷ (second ∷ first ∷ []) ∷ []))
verify_complete-Agrees_example =
    verify_complete-Agrees 2 (first ∷ second ∷ [])
      ((first ∷ second ∷ []) ∷ (second ∷ first ∷ []) ∷ []) (omega arith)
