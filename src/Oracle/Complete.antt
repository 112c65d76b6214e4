-- ===== src/Oracle/Complete.antt =====
-- The oracle of a whole run.
use myelon.Common.{
  ℕ, zero, suc, ◌+◌, ◌≤◌, ◌<◌, ◌≡◌, ◌↔◌, refl, sym, ap, ap₂, ◌∙◌, arith, none, some, List, [], ◌∷◌,
  ◌++◌, map, length, get_elem?, replicate, All, append-nil, append_assoc,
}
use myelon.Common.Outcome.{done}
use myelon.Common.Result.{Result, ok}
use myelon.Oracle.Defs.{
  OracleMessage, OracleViolation, MessageOracle, with_broadcast_consumers, record_publish,
  extend_published, expected_for_consumer, verdict, verify_consumer_messages, errors, complete_loop,
  verify_complete,
}
use myelon.Oracle.Verdicts.{Agrees, found, found-Agrees, nil_parts}

get_elem?-map_append :
    (msg : OracleMessage) (xss : List (List OracleMessage)) (i : ℕ) (xs : List OracleMessage)
    → get_elem? xss i ≡ some xs
    → get_elem? (map (λ (c : List OracleMessage). c ++ (msg ∷ [])) xss) i ≡ some (xs ++ (msg ∷ []))
get_elem?-map_append msg [] i xs h = absurd (cc)
get_elem?-map_append msg (ys ∷ xss) zero xs h = cc
get_elem?-map_append msg (ys ∷ xss) (suc i) xs h = get_elem?-map_append msg xss i xs h

extend_published_expected :
    (msgs : List OracleMessage) (o : MessageOracle) (c : ℕ) (xs : List OracleMessage)
    → get_elem? o.expected_per_consumer c ≡ some xs
    → get_elem? (extend_published msgs o).expected_per_consumer c ≡ some (xs ++ msgs)
unfolding extend_published record_publish
extend_published_expected [] o c xs h = h ∙ ap some (sym (append-nil xs))
extend_published_expected (msg ∷ msgs) o c xs h =
    extend_published_expected msgs (record_publish msg o) c (xs ++ (msg ∷ []))
      (get_elem?-map_append msg o.expected_per_consumer c xs h)
    ∙ ap some (append_assoc xs (msg ∷ []) msgs)

get_elem?-replicate :
    (n i : ℕ) (xs : List OracleMessage) → i < n → get_elem? (replicate n xs) i ≡ some xs
get_elem?-replicate zero i xs h = absurd (omega arith)
get_elem?-replicate (suc n) zero xs h = refl
get_elem?-replicate (suc n) (suc i) xs h = get_elem?-replicate n i xs (omega arith)

-- What was published to `n` consumers.
abbrev pub run : ℕ → List OracleMessage → MessageOracle
run n msgs = extend_published msgs (with_broadcast_consumers n)

expected-run :
    (n : ℕ) (msgs : List OracleMessage) (c : ℕ)
    → c < n
    → expected_for_consumer c (run n msgs) ≡ done msgs
unfolding expected_for_consumer with_broadcast_consumers
expected-run n msgs c h =
    rw
      (
        extend_published_expected msgs (with_broadcast_consumers n) c []
            (get_elem?-replicate n c [] h),
        expected_for_consumer,
      )
      refl

verify_run :
    (n : ℕ) (msgs : List OracleMessage) (c : ℕ) (actual : List OracleMessage)
    → c < n
    → verify_consumer_messages c actual (run n msgs) ≡ done (verdict (found c actual msgs))
unfolding verify_consumer_messages
verify_run n msgs c actual h = rw (expected-run n msgs c h) refl

errors-verdict : (vs : List OracleViolation) → errors (verdict vs) ≡ vs
errors-verdict [] = refl
errors-verdict (v ∷ vs) = refl

all_found : ℕ → List (List OracleMessage) → List OracleMessage → List OracleViolation
all_found c [] msgs = []
all_found c (report ∷ reports) msgs = found c report msgs ++ all_found (c + 1) reports msgs

complete_loop-run :
    (n : ℕ) (msgs : List OracleMessage) (c : ℕ) (reports : List (List OracleMessage))
    → c + length reports ≤ n
    → complete_loop c reports (run n msgs) ≡ done (all_found c reports msgs)
unfolding complete_loop all_found
complete_loop-run n msgs c [] h = refl
complete_loop-run n msgs c (report ∷ reports) h =
    rw
      (
        verify_run n msgs c report (omega arith),
        complete_loop-run n msgs (c + 1) reports (omega arith),
        errors-verdict (found c report msgs),
      )
      refl

all_found-Agrees :
    (msgs : List OracleMessage) (c : ℕ) (reports : List (List OracleMessage))
    → (all_found c reports msgs ≡ []) ↔ All (λ report. Agrees none report msgs) reports
unfolding all_found
all_found-Agrees msgs c [] = (λ _. tt, λ _. refl)
all_found-Agrees msgs c (report ∷ reports) = (
  (λ h.
      let parts = nil_parts (found c report msgs) (all_found (c + 1) reports msgs) h in
      ((found-Agrees c report msgs).0 parts.0, (all_found-Agrees msgs (c + 1) reports).0 parts.1)),
  (λ h.
      ap₂ (λ (xs ys : List OracleViolation). xs ++ ys) ((found-Agrees c report msgs).1 h.0)
        ((all_found-Agrees msgs (c + 1) reports).1 h.1)),
)

verdict_ok : (vs : List OracleViolation) → (verdict vs ≡ ok tt) ↔ (vs ≡ [])
verdict_ok [] = (λ _. refl, λ _. refl)
verdict_ok (v ∷ vs) = (λ h. absurd (cc), λ h. absurd (cc))

-- Messages were published to `n` consumers, and there are reports of at most `n` of them: then
-- `verify_complete` does not panic, and it accepts exactly when every report holds the messages that were
-- published, in their order and each once, with ascending sequences; times do not matter.
pub verify_complete-Agrees :
    (n : ℕ) (msgs : List OracleMessage) (reports : List (List OracleMessage))
    → length reports ≤ n
    → (result : Result (Unit {0}) (List OracleViolation)) × (verify_complete reports (run n msgs)
        ≡ done result)
      × ((result ≡ ok tt) ↔ All (λ report. Agrees none report msgs) reports)
unfolding verify_complete
verify_complete-Agrees n msgs reports h =
    let all = all_found-Agrees msgs 0 reports in
    let ok_lem = verdict_ok (all_found 0 reports msgs) in
    (
      verdict (all_found 0 reports msgs),
      rw (complete_loop-run n msgs 0 reports (omega arith)) refl,
      (λ e. all.0 (ok_lem.0 e), λ agreed. ok_lem.1 (all.1 agreed)),
    )
