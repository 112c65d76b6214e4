-- ===== src/Barrier/Tests.antt =====
-- A barrier for one known consumer and a second one that registers later.
use myelon.Common.{◌||◌, ◌&&◌, ℕ, List, ◌≡◌, refl, false, none, some, [], ◌∷◌, if◌then◌else◌}
use myelon.Common.Int.{pos}
use myelon.Common.Text.{codes, ◌==ₜ◌, decimal}
use myelon.Barrier.Defs.{DiscoveryMode, Segments, Barrier, View, attach_consumer, contains_key}
use myelon.Barrier.Discovery.{
  discover_consumers, attach_each, discover_with_registered_slots, find_registration, find_by,
  complete, discovery_scan_plan,
}
use myelon.Barrier.Create.{consumer_sequence}
use myelon.Barrier.Known.{Extends}
use myelon.Barrier.Wait.{Turn, millis}
use myelon.Barrier.Polled.{Waited}
use myelon.Barrier.Unique.{
  IsKnown, Runs, start, discover, read, Runs-IsKnown, consumer_sequence_lem,
}

abbrev segments : Segments
segments = record {
  opens = λ name.
      name ==ₜ codes "ring_ci" || name ==ₜ codes "ring_ad_0_seq" || name ==ₜ codes "ring_a_seq";
  load = λ name. if name ==ₜ codes "ring_ci" then pos 1 else pos 7;
}

abbrev view : View
view = record { segments = segments; now = 5; pid = 100 }

abbrev barrier : Barrier
barrier = record {
  consumer_cursors = (codes "a", codes "ring_a_seq") ∷ [];
  base_name = codes "ring";
  last_scan = 0;
  consumers_ready = none;
  consumer_registration = none;
  discovery_mode = DiscoveryMode.enabled 2 none 0;
  discovery_completed = false;
  producer_sequence = none;
}

barrier-IsKnown : IsKnown barrier
unfolding contains_key
barrier-IsKnown = record { once = refl; named = (refl, tt) }

abbrev later : Barrier
later = (consumer_sequence segments (codes "ad_0") (discover_consumers view barrier)).1

barrier-runs : Runs barrier later
barrier-runs =
    read (discover_consumers view barrier) segments (codes "ad_0") (discover barrier view start)

discovered :
    (discover_consumers view barrier).consumer_cursors
    ≡ (codes "a", codes "ring_a_seq") ∷ (codes "ad_0", codes "ring_ad_0_seq") ∷ []
unfolding discover_consumers discovery_scan_plan find_by discover_with_registered_slots
    find_registration attach_each attach_consumer complete ◌==ₜ◌ decimal
discovered = refl

Runs-IsKnown_example :
    IsKnown later × Extends (codes "ring") barrier.consumer_cursors later.consumer_cursors
Runs-IsKnown_example = Runs-IsKnown barrier later barrier-IsKnown barrier-runs

consumer_sequence_lem_example :
    (let name = codes "ring_ad_0_seq" in
      let known = contains_key (codes "ad_0") barrier.consumer_cursors || segments.opens name in
      let (sequence, after) = consumer_sequence segments (codes "ad_0") barrier in
      (sequence ≡ (if known then some (segments.load name) else none))
      × (contains_key (codes "b") after.consumer_cursors ≡ (
          contains_key (codes "b") barrier.consumer_cursors
          || (known && codes "ad_0" ==ₜ codes "b"))))
consumer_sequence_lem_example =
    consumer_sequence_lem segments (codes "ad_0") (codes "b") barrier barrier-IsKnown

abbrev waiting : Barrier
waiting = record barrier { consumers_ready = some (codes "ring_ci") }

abbrev turn : ℕ → Turn
turn elapsed = record { elapsed = millis elapsed; view = view }

-- One consumer is ready where two are wanted.
abbrev turns : List Turn
turns = turn 1 ∷ turn 700 ∷ turn 1300 ∷ turn 1900 ∷ turn 2000 ∷ turn 2001 ∷ []
