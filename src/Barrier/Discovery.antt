-- ===== src/Barrier/Discovery.antt =====
-- Discovery: `discover_consumers` with its plan and its three ways to find consumers, and the explicit
-- `discover_consumer_id`.
use myelon.Common.{
  ℕ, zero, suc, ◌-◌, ◌+◌, ◌%◌, Bool, true, false, ◌||◌, ◌&&◌, not, Option, none, some, List, [],
  ◌∷◌, ◌++◌, ltb, leb, length, if◌then◌else◌, ◌==◌, max, min,
}
use myelon.Common.Int.{ℤ, pos, negsuc}
use myelon.Common.Text.{Text, codes, decimal}
use myelon.Barrier.Defs.{
  DiscoveryMode, disabled, enabled, Segments, Barrier, View, contains_key, attach, attach_consumer,
  sequence_name, auto_consumer_id, consumer_registration_cursor_name, uses_registered_auto_ids,
}

-- `discovery_scan_plan`; `duration_since` saturates at zero.
abbrev pub scan_plan : Barrier → ℕ → DiscoveryMode → Bool × ℕ × Option Text
scan_plan b now disabled = (false, 0, none)
scan_plan b now (enabled max_consumers consumer_prefix scan_interval) =
    if b.discovery_completed
    then (false, max_consumers, none)
    else if leb max_consumers (length b.consumer_cursors)
    then (false, max_consumers, none)
    else if ltb (now - b.last_scan) scan_interval && not (length b.consumer_cursors == 0)
    then (false, max_consumers, none)
    else (true, max_consumers, consumer_prefix)

unfoldable pub discovery_scan_plan : Barrier → ℕ → Bool × ℕ × Option Text
discovery_scan_plan b now = scan_plan b now b.discovery_mode

-- A counted `for` loop of `attach_consumer` over the names `name 0`, `name 1`, …
unfoldable pub attach_each :
    Segments → Text → (ℕ → Text) → ℕ → ℕ → List (Text × Text) → List (Text × Text)
attach_each segments base_name name from zero cursors = cursors
attach_each segments base_name name from (suc count) cursors =
    attach_each segments base_name name (from + 1) count
      (attach_consumer segments base_name (name from) cursors)

abbrev pub prefix_name : Text → ℕ → Text
prefix_name prefix counter = prefix ++ (codes "_" ++ decimal counter)

unfoldable pub discover_with_consumer_prefix : View → Text → Barrier → Barrier
unfolding attach_each
discover_with_consumer_prefix v prefix b =
    let max_consumers : ℕ = elim b.discovery_mode [ disabled ↦ 16 | enabled m _ _ ↦ m ] in
    record b {
      consumer_cursors =
          attach_each v.segments b.base_name (prefix_name prefix) 0 max_consumers
            b.consumer_cursors;
    }

-- `registered.clamp(0, max_consumers as i64) as usize`, for a `max_consumers` below 2 ^ 63: with a larger
-- one `clamp` would panic.
abbrev pub clamp_registered : ℤ → ℕ → ℕ
clamp_registered (pos n) max_consumers = min n max_consumers
clamp_registered (negsuc n) max_consumers = 0

-- The registration cursor is attached on demand.
unfoldable pub find_registration : View → Barrier → Barrier
find_registration v b = elim b.consumer_registration [
  | some _ ↦ b
  | none ↦
      if uses_registered_auto_ids b.discovery_mode
      then record b {
        consumer_registration = attach v.segments (consumer_registration_cursor_name b.base_name);
      }
      else b
]

unfoldable pub discover_with_registered_slots : View → ℕ → Barrier → ℕ × Barrier
unfolding attach_each find_registration
discover_with_registered_slots v max_consumers b =
    let b₁ = find_registration v b in
    elim b₁.consumer_registration [
      | none ↦ (0, b₁)
      | some registration ↦
          let registered = clamp_registered (v.segments.load registration) max_consumers in
          (
            registered,
            record b₁ {
              consumer_cursors =
                  attach_each v.segments b₁.base_name auto_consumer_id 0 registered
                    b₁.consumer_cursors;
            },
          )
    ]

-- `format!("c{}_{}", pid % 10000, counter)`
abbrev pub pid_name : ℕ → ℕ → Text
pid_name pid counter = codes "c" ++ (decimal (pid % 10000) ++ (codes "_" ++ decimal counter))

-- The loop over `start_pid..=end_pid`.
unfoldable pub attach_pids : Segments → Text → ℕ → ℕ → ℕ → List (Text × Text) → List (Text × Text)
unfolding attach_each
attach_pids segments base_name max_consumers pid zero cursors = cursors
attach_pids segments base_name max_consumers pid (suc count) cursors =
    attach_pids segments base_name max_consumers (pid + 1) count
      (attach_each segments base_name (pid_name pid) 0 max_consumers cursors)

-- Process ids are far below 2 ^ 32, so `current_pid + 20` does not overflow.
unfoldable pub discover_with_pid_based_scanning : View → Barrier → Barrier
unfolding attach_pids
discover_with_pid_based_scanning v b =
    let max_consumers : ℕ = elim b.discovery_mode [
      | disabled ↦ 8
      | enabled m _ _ ↦ min (max m 32) 128
    ] in
    let start_pid = v.pid - 20 in
    let end_pid = v.pid + 20 in
    record b {
      consumer_cursors =
          attach_pids v.segments b.base_name max_consumers start_pid (end_pid + 1 - start_pid)
            b.consumer_cursors;
    }

unfoldable pub complete : ℕ → Barrier → Barrier
complete max_consumers b =
    if leb max_consumers (length b.consumer_cursors)
    then record b { discovery_completed = true }
    else b

unfoldable pub find_by : View → ℕ → Option Text → Barrier → Barrier
unfolding discover_with_consumer_prefix discover_with_registered_slots
    discover_with_pid_based_scanning
find_by v max_consumers (some prefix) b = discover_with_consumer_prefix v prefix b
find_by v max_consumers none b =
    let (registered_slots, b') = discover_with_registered_slots v max_consumers b in
    if registered_slots == 0 || ltb (length b'.consumer_cursors) registered_slots
    then discover_with_pid_based_scanning v b'
    else b'

unfoldable pub discover_consumers : View → Barrier → Barrier
unfolding discovery_scan_plan complete find_by
discover_consumers v b =
    let (should_scan, max_consumers, consumer_prefix) = discovery_scan_plan b v.now in
    if not should_scan
    then b
    else complete max_consumers
        (find_by v max_consumers consumer_prefix (record b { last_scan = v.now }))

unfoldable pub discover_consumer_id : Segments → Text → Barrier → Bool × Barrier
unfolding contains_key
discover_consumer_id segments consumer_id b =
    if contains_key consumer_id b.consumer_cursors
    then (true, b)
    else elim (attach segments (sequence_name b.base_name consumer_id)) [
      | some cursor ↦
          (true, record b { consumer_cursors = b.consumer_cursors ++ ((consumer_id, cursor) ∷ []) })
      | none ↦ (false, b)
    ]
