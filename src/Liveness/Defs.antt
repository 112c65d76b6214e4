-- ===== src/Liveness/Defs.antt =====
-- `RequiredConsumerLivenessConfig`, `RequiredConsumerLivenessState` and its operations. Nanoseconds stand
-- for `Duration` and `Instant`; what a stall prints, and hands to the hook where there is one, is a list
-- of alerts. Looking up a sequence may change the state `S` that it looks in.
use myelon.Common.{
  ℕ, ◌-◌, ◌*◌, Bool, true, false, not, Option, none, some, List, [], ◌∷◌, ◌++◌, ltb, leb, ◌==◌,
  length, map, if◌then◌else◌,
}
use myelon.Common.Int.{ℤ, negsuc, ltb_ℤ, leb_ℤ}
use myelon.Common.Outcome.{Outcome, done, panic, assert, ◌>>=◌, ◌>>◌}
use myelon.Common.Text.{Text, ◌==ₜ◌}

pub data RequiredConsumerFailureAction : Type 0 where
  graceful_shutdown : RequiredConsumerFailureAction

pub record RequiredConsumerAlert : Type 0 where
  pub consumer_id : Text
  pub last_sequence : ℤ
  pub stalled_for : ℕ

pub record RequiredConsumerLivenessConfig : Type 0 where
  pub required_consumer_ids : List Text
  pub startup_wait_timeout : ℕ
  pub progress_timeout : ℕ
  pub progress_check_interval : ℕ
  pub shutdown_grace_period : ℕ
  pub failure_action : RequiredConsumerFailureAction

pub data RequiredConsumerError : Type 0 where
  startup_timeout : (missing : List Text) → RequiredConsumerError
  graceful_shutdown_triggered :
      (consumer_id : Text) (last_sequence : ℤ) (stalled_for : ℕ) → RequiredConsumerError

pub record RequiredConsumerProgress : Type 0 where
  pub last_observed_sequence : ℤ
  pub last_progress_at : ℕ
  pub stall_started_at : Option ℕ
  pub alert_emitted : Bool

pub record RequiredConsumerLivenessState : Type 0 where
  pub config : RequiredConsumerLivenessConfig
  pub consumers : List (Text × RequiredConsumerProgress)
  pub startup_completed : Bool
  pub last_check_at : ℕ
  pub terminal_error : Option RequiredConsumerError

abbrev pub millisecond : ℕ
millisecond = 1_000_000

-- `RequiredConsumerLivenessConfig::new` and its overrides.
unfoldable pub new_config : List Text → Outcome RequiredConsumerLivenessConfig
new_config required_consumer_ids = do
  assert (not (length required_consumer_ids == 0))
  done (record {
    required_consumer_ids = required_consumer_ids;
    startup_wait_timeout = 5_000 * millisecond;
    progress_timeout = 250 * millisecond;
    progress_check_interval = 5 * millisecond;
    shutdown_grace_period = 1_000 * millisecond;
    failure_action = RequiredConsumerFailureAction.graceful_shutdown;
  })

unfoldable pub with_startup_wait_timeout :
    ℕ → RequiredConsumerLivenessConfig → Outcome RequiredConsumerLivenessConfig
with_startup_wait_timeout timeout c = do
  assert (ltb 0 timeout)
  done (record c { startup_wait_timeout = timeout })

unfoldable pub with_progress_timeout :
    ℕ → RequiredConsumerLivenessConfig → Outcome RequiredConsumerLivenessConfig
with_progress_timeout timeout c = do
  assert (ltb 0 timeout)
  done (record c { progress_timeout = timeout })

unfoldable pub with_progress_check_interval :
    ℕ → RequiredConsumerLivenessConfig → Outcome RequiredConsumerLivenessConfig
with_progress_check_interval interval c = do
  assert (ltb 0 interval)
  done (record c { progress_check_interval = interval })

unfoldable pub with_shutdown_grace_period :
    ℕ → RequiredConsumerLivenessConfig → RequiredConsumerLivenessConfig
with_shutdown_grace_period period c = record c { shutdown_grace_period = period }

-- The map from consumer ids, and `get_mut`.
unfoldable pub progress_of :
    Text → List (Text × RequiredConsumerProgress) → Option RequiredConsumerProgress
progress_of k [] = none
progress_of k ((j, p) ∷ m) = if j ==ₜ k then some p else progress_of k m

unfoldable pub set_progress :
    Text
    → RequiredConsumerProgress
    → List (Text × RequiredConsumerProgress)
    → List (Text × RequiredConsumerProgress)
set_progress k q [] = []
set_progress k q ((j, p) ∷ m) = if j ==ₜ k then (j, q) ∷ m else (j, p) ∷ set_progress k q m

abbrev pub fresh_progress : ℕ → Text → Text × RequiredConsumerProgress
fresh_progress now consumer_id = (
  consumer_id,
  record {
    last_observed_sequence = negsuc 0;
    last_progress_at = now;
    stall_started_at = none;
    alert_emitted = false;
  },
)

unfoldable pub new_state : ℕ → RequiredConsumerLivenessConfig → RequiredConsumerLivenessState
new_state now config = record {
  config = config;
  consumers = map (fresh_progress now) config.required_consumer_ids;
  startup_completed = false;
  last_check_at = now;
  terminal_error = none;
}

unfoldable pub mark_startup_completed :
    ℕ → RequiredConsumerLivenessState → RequiredConsumerLivenessState
mark_startup_completed now st = record st { startup_completed = true; last_check_at = now }

-- `saturating_duration_since` is `-`.
unfoldable pub should_check : ℕ → RequiredConsumerLivenessState → Bool
should_check now st = leb st.config.progress_check_interval (now - st.last_check_at)

-- What a consumer that is behind gets: the grace of the timeout, then an alert, then the error.
unfoldable pub judge_stall :
    RequiredConsumerLivenessConfig
    → ℕ
    → Text
    → RequiredConsumerProgress
    → RequiredConsumerProgress × List RequiredConsumerAlert × Option RequiredConsumerError
judge_stall config now consumer_id progress =
    let stalled_for = now - progress.last_progress_at in
    if ltb stalled_for config.progress_timeout
    then (progress, [], none)
    else let stall_started_at : ℕ = elim progress.stall_started_at [
      | none ↦ now
      | some since ↦ since
    ] in
      let alert : RequiredConsumerAlert = record {
        consumer_id = consumer_id;
        last_sequence = progress.last_observed_sequence;
        stalled_for = stalled_for;
      } in
      (
        record progress { stall_started_at = some stall_started_at; alert_emitted = true },
        (if progress.alert_emitted then [] else alert ∷ []),
        (if ltb (now - stall_started_at) config.shutdown_grace_period
            then none
            else some (
                RequiredConsumerError.graceful_shutdown_triggered consumer_id
                  progress.last_observed_sequence stalled_for)),
      )

abbrev pub moving : ℕ → ℤ → RequiredConsumerProgress
moving now sequence = record {
  last_observed_sequence = sequence;
  last_progress_at = now;
  stall_started_at = none;
  alert_emitted = false;
}

-- The body of the loop of `evaluate_blocked`, for one consumer.
unfoldable pub judge :
    RequiredConsumerLivenessConfig
    → ℕ
    → ℤ
    → Text
    → Option ℤ
    → RequiredConsumerProgress
    → RequiredConsumerProgress × List RequiredConsumerAlert × Option RequiredConsumerError
unfolding judge_stall
judge config now producer_sequence consumer_id none progress =
    judge_stall config now consumer_id progress
judge config now producer_sequence consumer_id (some sequence) progress =
    if ltb_ℤ progress.last_observed_sequence sequence
    then (moving now sequence, [], none)
    else if leb_ℤ producer_sequence sequence
    then (moving now progress.last_observed_sequence, [], none)
    else judge_stall config now consumer_id progress

-- What `evaluate_blocked` answers, what it has printed, and the state it leaves.
pub record Verdict {ℓ} (S : Type ℓ) : Type ℓ where
  pub failure : Option RequiredConsumerError
  pub alerts : List RequiredConsumerAlert
  pub state : RequiredConsumerLivenessState
  pub seen : S

module _ {ℓ} {S : Type ℓ} (observe_sequence : Text → S → Option ℤ × S) where
  unfoldable pub evaluate_loop :
      ℕ → ℤ → List Text → RequiredConsumerLivenessState → S → Outcome (Verdict S)
  unfolding judge progress_of set_progress
  evaluate_loop now producer_sequence [] st s =
      done (record { failure = none; alerts = []; state = st; seen = s })
  evaluate_loop now producer_sequence (consumer_id ∷ ids) st s =
      let (observed, s') = observe_sequence consumer_id s in
      elim (progress_of consumer_id st.consumers) [
        | none ↦ panic
        | some progress ↦
            let (progress', alerts, failure) =
              judge st.config now producer_sequence consumer_id observed progress in
            let st' = record st { consumers = set_progress consumer_id progress' st.consumers } in
            elim failure [
              | some error ↦ done (record {
                failure = some error;
                alerts = alerts;
                state = record st' { terminal_error = some error };
                seen = s';
              })
              | none ↦
                  (evaluate_loop now producer_sequence ids st' s' >>= λ v.
                  done (record v { alerts = alerts ++ v.alerts }))
            ]
      ]

  unfoldable pub evaluate_blocked : ℕ → ℤ → RequiredConsumerLivenessState → S → Outcome (Verdict S)
  unfolding should_check evaluate_loop
  evaluate_blocked now producer_sequence st s = elim st.terminal_error [
    | some error ↦ done (record { failure = some error; alerts = []; state = st; seen = s })
    | none ↦
        if not (should_check now st)
        then done (record { failure = none; alerts = []; state = st; seen = s })
        else evaluate_loop now producer_sequence st.config.required_consumer_ids
            (record st { last_check_at = now }) s
  ]

  unfoldable pub seed_loop :
      ℕ
      → List Text
      → RequiredConsumerLivenessState
      → S
      → Outcome (RequiredConsumerLivenessState × S)
  unfolding progress_of set_progress
  seed_loop now [] st s = done (st, s)
  seed_loop now (consumer_id ∷ ids) st s =
      let (observed, s') = observe_sequence consumer_id s in
      let observed_sequence : ℤ = elim observed [ none ↦ negsuc 0 | some sequence ↦ sequence ] in
      elim (progress_of consumer_id st.consumers) [
        | none ↦ panic
        | some progress ↦
            seed_loop now ids
              (record st {
                consumers = set_progress consumer_id (moving now observed_sequence) st.consumers;
              })
              s'
      ]

  unfoldable pub seed_progress :
      ℕ → RequiredConsumerLivenessState → S → Outcome (RequiredConsumerLivenessState × S)
  unfolding seed_loop
  seed_progress now st s = seed_loop now st.config.required_consumer_ids st s

module _ {ℓ} {S : Type ℓ} (is_present : Text → S → Bool × S) where
  -- The filter asks for each required consumer, in order.
  unfoldable pub missing_of : List Text → S → List Text × S
  missing_of [] s = ([], s)
  missing_of (consumer_id ∷ ids) s =
      let (present, s') = is_present consumer_id s in
      let (missing, s'') = missing_of ids s' in
      ((if present then missing else consumer_id ∷ missing), s'')

  unfoldable pub missing_required_consumers : RequiredConsumerLivenessState → S → List Text × S
  unfolding missing_of
  missing_required_consumers st s = missing_of st.config.required_consumer_ids s
