-- ===== src/Barrier/Defs.antt =====
-- `DiscoveryMode`, the names of cursors, and the state of a `SharedConsumerBarrier`. A cursor in shared
-- memory is a named segment.
use myelon.Common.{
  ℕ, Bool, true, false, ◌||◌, Option, none, some, List, [], ◌∷◌, ◌++◌, ltb, if◌then◌else◌,
}
use myelon.Common.Int.{ℤ}
use myelon.Common.Text.{Text, codes, ◌==ₜ◌, decimal}
use myelon.Common.Outcome.{Outcome, done, assert, ◌>>◌}

-- Nanoseconds stand for `Duration` and `Instant`.
pub data DiscoveryMode : Type 0 where
  disabled : DiscoveryMode
  enabled :
      (max_consumers : ℕ) → (consumer_prefix : Option Text) → (scan_interval : ℕ) → DiscoveryMode

-- The constructors of `DiscoveryMode`; `default_poll` is `default_discovery_poll_duration()`.
unfoldable pub enabled_mode : ℕ → ℕ → Outcome DiscoveryMode
enabled_mode default_poll max_consumers = do
  assert (ltb 0 max_consumers)
  done (DiscoveryMode.enabled max_consumers none default_poll)

unfoldable pub with_consumer_prefix : ℕ → ℕ → Text → Outcome DiscoveryMode
with_consumer_prefix default_poll max_consumers prefix = do
  assert (ltb 0 max_consumers)
  done (DiscoveryMode.enabled max_consumers (some prefix) default_poll)

unfoldable pub with_scan_interval : ℕ → ℕ → Outcome DiscoveryMode
with_scan_interval max_consumers scan_interval = do
  assert (ltb 0 scan_interval)
  assert (ltb 0 max_consumers)
  done (DiscoveryMode.enabled max_consumers none scan_interval)

unfoldable pub with_consumer_prefix_and_interval : ℕ → Text → ℕ → Outcome DiscoveryMode
with_consumer_prefix_and_interval max_consumers prefix scan_interval = do
  assert (ltb 0 scan_interval)
  assert (ltb 0 max_consumers)
  done (DiscoveryMode.enabled max_consumers (some prefix) scan_interval)

abbrev pub consumer_readiness_cursor_name : Text → Text
consumer_readiness_cursor_name base_name = base_name ++ codes "_cr"

abbrev pub consumer_registration_cursor_name : Text → Text
consumer_registration_cursor_name base_name = base_name ++ codes "_ci"

abbrev pub auto_consumer_id : ℕ → Text
auto_consumer_id slot = codes "ad_" ++ decimal slot

-- `format!("{}_{}_seq", base_name, consumer_name)`
abbrev pub sequence_name : Text → Text → Text
sequence_name base_name consumer_name = base_name ++ (codes "_" ++ (consumer_name ++ codes "_seq"))

abbrev pub uses_registered_auto_ids : DiscoveryMode → Bool
uses_registered_auto_ids DiscoveryMode.disabled = false
uses_registered_auto_ids (DiscoveryMode.enabled m none i) = true
uses_registered_auto_ids (DiscoveryMode.enabled m (some p) i) = false

-- The cursors in shared memory as one process sees them: the names that `SharedCursor::attach` finds, and
-- what a load through the handle for a name returns. A barrier has one handle for a name at most, so that
-- the name stands for it; a load goes to the handle's own mapping, whatever became of the name since.
pub record Segments : Type 0 where
  pub opens : Text → Bool
  pub load : Text → ℤ

pub record Barrier : Type 0 where
  pub consumer_cursors : List (Text × Text)
  pub base_name : Text
  pub last_scan : ℕ
  pub consumers_ready : Option Text
  pub consumer_registration : Option Text
  pub discovery_mode : DiscoveryMode
  pub discovery_completed : Bool
  pub producer_sequence : Option Text

-- The process that runs an operation, and what it sees of shared memory meanwhile.
pub record View : Type 0 where
  pub segments : Segments
  pub now : ℕ
  pub pid : ℕ

unfoldable pub contains_key : Text → List (Text × Text) → Bool
contains_key k [] = false
contains_key k ((j, s) ∷ m) = j ==ₜ k || contains_key k m

abbrev pub attach : Segments → Text → Option Text
attach segments name = if segments.opens name then some name else none

-- The body of the discovery loops: known consumers are skipped, a missing segment is ignored.
unfoldable pub attach_consumer : Segments → Text → Text → List (Text × Text) → List (Text × Text)
unfolding contains_key
attach_consumer segments base_name consumer_name cursors =
    if contains_key consumer_name cursors
    then cursors
    else elim (attach segments (sequence_name base_name consumer_name)) [
      | none ↦ cursors
      | some cursor ↦ cursors ++ ((consumer_name, cursor) ∷ [])
    ]
