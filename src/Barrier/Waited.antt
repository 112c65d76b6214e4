-- ===== src/Barrier/Waited.antt =====
-- How the wait for consumers ends.
use myelon.Common.{Bool, leb, none, some, length}
use myelon.Common.Int.{ℤ, pos_part, leb_ℤ}
use myelon.Common.Outcome.{◌>>=◌}
use myelon.Common.Text.{Text}
use myelon.Barrier.Defs.{Barrier}
use myelon.Barrier.Discovery.{discover_consumers}
use myelon.Barrier.Wait.{Turn, clone}
use myelon.Barrier.Polled.{Polled}

-- Whether a process finds enough consumers at a turn: by the readiness cursor, or by discovery with a
-- clone of the barrier.
abbrev pub enough : ℤ → Barrier → Turn → Bool
enough min_consumers b t = elim b.consumers_ready [
  | some consumers_ready ↦ leb_ℤ min_consumers (t.view.segments.load consumers_ready)
  | none ↦
      leb (pos_part min_consumers)
        (length (discover_consumers t.view (clone t.view b)).consumer_cursors)
]
