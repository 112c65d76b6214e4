-- ===== src/Oracle/Defs.antt =====
-- `MessageOracle` and its checks. A slice that is walked with its index is the list of what is left.
use myelon.Common.{
  ℕ, ◌+◌, Bool, not, Option, none, some, List, [], ◌∷◌, ◌++◌, map, ltb, leb, ◌==◌, length,
  get_elem?, replicate, if◌then◌else◌,
}
use myelon.Common.Outcome.{Outcome, done, panic, ◌>>=◌}
use myelon.Common.Result.{Result, ok, err}

pub record OracleMessage : Type 0 where
  pub sequence : ℕ
  pub payload_hash : ℕ
  pub payload_len : ℕ
  pub timestamp_ns : ℕ

pub data OracleViolation : Type 0 where
  sequence_gap : (consumer expected got : ℕ) → OracleViolation
  sequence_reorder : (consumer prev got : ℕ) → OracleViolation
  payload_mismatch : (consumer sequence expected_hash got_hash : ℕ) → OracleViolation
  payload_size_mismatch : (consumer sequence expected got : ℕ) → OracleViolation
  missing_messages : (consumer expected consumed : ℕ) → OracleViolation
  extra_messages : (consumer expected consumed : ℕ) → OracleViolation

pub record MessageOracle : Type 0 where
  pub published : List OracleMessage
  pub expected_per_consumer : List (List OracleMessage)

unfoldable pub with_broadcast_consumers : ℕ → MessageOracle
with_broadcast_consumers consumers = record {
  published = [];
  expected_per_consumer = replicate consumers [];
}

unfoldable pub record_publish : OracleMessage → MessageOracle → MessageOracle
record_publish msg o = record {
  published = o.published ++ (msg ∷ []);
  expected_per_consumer =
      map (λ (consumer : List OracleMessage). consumer ++ (msg ∷ [])) o.expected_per_consumer;
}

unfoldable pub extend_published : List OracleMessage → MessageOracle → MessageOracle
extend_published [] o = o
extend_published (msg ∷ iter) o = extend_published iter (record_publish msg o)

-- An index out of range panics.
unfoldable pub expected_for_consumer : ℕ → MessageOracle → Outcome (List OracleMessage)
expected_for_consumer consumer_id o = elim (get_elem? o.expected_per_consumer consumer_id) [
  | none ↦ panic
  | some expected ↦ done expected
]

abbrev pub only : Bool → OracleViolation → List OracleViolation
only test violation = if test then violation ∷ [] else []

abbrev pub reorder : ℕ → Option ℕ → OracleMessage → List OracleViolation
reorder consumer none actual_msg = []
reorder consumer (some prev) actual_msg =
    only (leb actual_msg.sequence prev)
      (OracleViolation.sequence_reorder consumer prev actual_msg.sequence)

abbrev pub payload : ℕ → OracleMessage → OracleMessage → List OracleViolation
payload consumer actual_msg expected_msg =
    only (not (actual_msg.payload_hash == expected_msg.payload_hash)) (
      OracleViolation.payload_mismatch consumer actual_msg.sequence expected_msg.payload_hash
        actual_msg.payload_hash)
    ++ only (not (actual_msg.payload_len == expected_msg.payload_len)) (
        OracleViolation.payload_size_mismatch consumer actual_msg.sequence expected_msg.payload_len
          actual_msg.payload_len)

-- The loop of `verify_consumer_messages`, with the lengths of both slices.
unfoldable pub verify_loop :
    ℕ → ℕ → ℕ → Option ℕ → List OracleMessage → List OracleMessage → List OracleViolation
verify_loop consumer expected_len actual_len previous [] expected = []
verify_loop consumer expected_len actual_len previous (actual_msg ∷ actual) [] =
    reorder consumer previous actual_msg
    ++ (OracleViolation.extra_messages consumer expected_len actual_len ∷ [])
verify_loop consumer expected_len actual_len previous (actual_msg ∷ actual)
      (expected_msg ∷ expected) =
    let more =
      verify_loop consumer expected_len actual_len (some actual_msg.sequence) actual expected in
    reorder consumer previous actual_msg
    ++ (if not (actual_msg.sequence == expected_msg.sequence)
        then OracleViolation.sequence_gap consumer expected_msg.sequence actual_msg.sequence ∷ more
        else payload consumer actual_msg expected_msg ++ more)

abbrev pub verdict : List OracleViolation → Result (Unit {0}) (List OracleViolation)
verdict [] = ok tt
verdict (violation ∷ violations) = err (violation ∷ violations)

unfoldable pub verify_consumer_messages :
    ℕ → List OracleMessage → MessageOracle → Outcome (Result (Unit {0}) (List OracleViolation))
unfolding expected_for_consumer verify_loop
verify_consumer_messages consumer_id actual o = do
  expected ← expected_for_consumer consumer_id o
  done (
      verdict (
        verify_loop consumer_id (length expected) (length actual) none actual expected
        ++ only (ltb (length actual) (length expected))
            (OracleViolation.missing_messages consumer_id (length expected) (length actual))))

abbrev pub errors : Result (Unit {0}) (List OracleViolation) → List OracleViolation
errors (ok _) = []
errors (err errs) = errs

unfoldable pub complete_loop :
    ℕ → List (List OracleMessage) → MessageOracle → Outcome (List OracleViolation)
unfolding verify_consumer_messages
complete_loop consumer_id [] o = done []
complete_loop consumer_id (report ∷ reports) o = do
  result ← verify_consumer_messages consumer_id report o
  more ← complete_loop (consumer_id + 1) reports o
  done (errors result ++ more)

unfoldable pub verify_complete :
    List (List OracleMessage) → MessageOracle → Outcome (Result (Unit {0}) (List OracleViolation))
unfolding complete_loop
verify_complete reports o = do violations ← complete_loop 0 reports o; done (verdict violations)
