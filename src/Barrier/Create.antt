-- ===== src/Barrier/Create.antt =====
-- Creation of a barrier, its references to other cursors, and the lookup of one consumer.
use myelon.Common.{false, not, ◌==◌, Option, none, some, List, [], ◌∷◌, length, if◌then◌else◌}
use myelon.Common.Int.{ℤ}
use myelon.Common.Outcome.{Outcome, done, assert, ◌>>◌}
use myelon.Common.Text.{Text, ◌==ₜ◌}
use myelon.Barrier.Defs.{DiscoveryMode, Segments, Barrier, View}
use myelon.Barrier.Discovery.{discover_consumers, discover_consumer_id}

unfoldable pub new_with_discovery : View → Text → DiscoveryMode → Outcome Barrier
new_with_discovery v base_name discovery_mode = do
  assert (not (length base_name == 0))
  let barrier : Barrier = record {
    consumer_cursors = [];
    base_name = base_name;
    last_scan = v.now;
    consumers_ready = none;
    consumer_registration = none;
    discovery_mode = discovery_mode;
    discovery_completed = false;
    producer_sequence = none;
  }
  done (elim discovery_mode [
    | DiscoveryMode.disabled ↦ barrier
    | DiscoveryMode.enabled _ _ _ ↦ discover_consumers v barrier
  ])

unfoldable pub set_producer_sequence : Text → Barrier → Barrier
set_producer_sequence producer_sequence b = record b { producer_sequence = some producer_sequence }

unfoldable pub set_consumer_registration : Text → Barrier → Barrier
set_consumer_registration consumer_registration b = record b {
  consumer_registration = some consumer_registration;
}

unfoldable pub lookup : Text → List (Text × Text) → Option Text
lookup k [] = none
lookup k ((j, cursor) ∷ m) = if j ==ₜ k then some cursor else lookup k m

-- `consumer_sequence`: a known consumer's cursor, discovered first where it is not known.
unfoldable pub consumer_sequence : Segments → Text → Barrier → Option ℤ × Barrier
unfolding lookup discover_consumer_id
consumer_sequence segments consumer_id b =
    let (known, b') = discover_consumer_id segments consumer_id b in
    (
      if known
          then elim (lookup consumer_id b'.consumer_cursors) [
            | none ↦ none
            | some cursor ↦ some (segments.load cursor)
          ]
          else none,
      b',
    )
