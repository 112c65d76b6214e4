-- ===== src/Barrier/Wait.antt =====
-- The wait for consumers at start-up: `wait_for_consumers_ready` and its loops. A turn of a loop has the
-- time since the start and what the process sees then; a call is blocked when the turns end.
use myelon.Common.{
  ℕ, ◌*◌, Bool, true, false, ◌&&◌, not, ltb, leb, ◌==◌, min, if◌then◌else◌, none, some, List, [],
  ◌∷◌, length,
}
use myelon.Common.Int.{ℤ, pos, negsuc, pos_part, leb_ℤ, ltb_ℤ}
use myelon.Common.Outcome.{Outcome, done, blocked, assert, ◌>>=◌, ◌>>◌}
use myelon.Common.Text.{Text}
use myelon.Barrier.Defs.{
  Barrier, View, consumer_readiness_cursor_name, consumer_registration_cursor_name,
}
use myelon.Barrier.Discovery.{discover_consumers}

pub record Turn : Type 0 where
  pub elapsed : ℕ
  pub view : View

abbrev pub millis : ℕ → ℕ
millis n = n * 1000000

unfoldable pub coordination_timeout_for : ℤ → ℕ
coordination_timeout_for (negsuc n) = millis 100
coordination_timeout_for (pos n) =
    if n == 1
    then millis 200
    else if n == 2
    then millis 1200
    else if leb 3 n && leb n 4
    then millis 800
    else if leb 5 n && leb n 8
    then millis 400
    else millis 100

-- With the turns that are left.
unfoldable pub spin_until_ready_count : Text → ℤ → ℕ → List Turn → Outcome (Bool × List Turn)
spin_until_ready_count consumers_ready min_consumers timeout [] = blocked
spin_until_ready_count consumers_ready min_consumers timeout (t ∷ turns) =
    let again = spin_until_ready_count consumers_ready min_consumers timeout turns in
    let ready_count = t.view.segments.load consumers_ready in
    if not (ltb t.elapsed timeout)
    then done (false, turns)
    else if leb_ℤ min_consumers ready_count
    then done (true, turns)
    else again

unfoldable pub wait_for_coordination_minimum : Text → ℤ → ℕ → ℕ → List Turn → Outcome Bool
wait_for_coordination_minimum consumers_ready min_consumers timeout coordination_timeout turns =
    let effective_timeout = min timeout coordination_timeout in
    do
      first ← spin_until_ready_count consumers_ready min_consumers effective_timeout turns
      if first.0
          then done true
          else if ltb effective_timeout timeout
          then (do
            second ← spin_until_ready_count consumers_ready min_consumers timeout first.1
            done second.0)
          else done false

-- The map of a clone is empty; it attaches the readiness and the registration cursor again, or shares
-- the handle.
unfoldable pub clone : View → Barrier → Barrier
clone v b =
    let again = λ (name : Text) (cursor : Text). if v.segments.opens name then name else cursor in
    record b {
      consumer_cursors = [];
      last_scan = v.now;
      consumers_ready = elim b.consumers_ready [
        | none ↦ none
        | some cursor ↦ some (again (consumer_readiness_cursor_name b.base_name) cursor)
      ];
      consumer_registration = elim b.consumer_registration [
        | none ↦ none
        | some cursor ↦ some (again (consumer_registration_cursor_name b.base_name) cursor)
      ];
      discovery_completed = false;
    }

-- Each turn discovers with a clone of the barrier; the turn's view has the loads of the clone.
unfoldable pub wait_for_discovery_minimum : Barrier → ℕ → ℕ → List Turn → Outcome Bool
unfolding clone
wait_for_discovery_minimum b min_consumers timeout [] = blocked
wait_for_discovery_minimum b min_consumers timeout (t ∷ turns) =
    let again = wait_for_discovery_minimum b min_consumers timeout turns in
    let discovery_probe = discover_consumers t.view (clone t.view b) in
    if not (ltb t.elapsed timeout)
    then done false
    else if leb min_consumers (length discovery_probe.consumer_cursors)
    then done true
    else again

-- A positive `i64` fits a 64-bit `usize`.
unfoldable pub wait_for_consumers_ready : ℤ → ℕ → List Turn → Barrier → Outcome Bool
unfolding coordination_timeout_for wait_for_coordination_minimum wait_for_discovery_minimum
wait_for_consumers_ready min_consumers timeout turns b = do
  assert (ltb 0 timeout)
  assert (ltb_ℤ (pos 0) min_consumers)
  elim b.consumers_ready [
    | some consumers_ready ↦
        wait_for_coordination_minimum consumers_ready min_consumers timeout
          (coordination_timeout_for min_consumers) turns
    | none ↦ wait_for_discovery_minimum b (pos_part min_consumers) timeout turns
  ]
