-- ===== src/Protocol/Code.antt =====
-- `try_publish` of `crates/disruptor-mp/src/producer.rs` in the protocol.
use myelon.Common.{
  ℕ, ◌+◌, ◌-◌, ◌^◌, ◌≤◌, ◌<◌, ◌≡◌, false, Bool-cases, inl, inr, refl, ◌∙◌, ap, arith, List, All,
  length,
}
use myelon.Common.Int.{
  ℤ, pos, negsuc, pos_part, neg_part, ◌<ℤ◌, ◌+ℤ◌, ◌-ℤ◌, leb_ℤ, leb_ℤ→le, +ℤ_parts,
}
use myelon.Common.Outcome.{Outcome, done, ◌>>=◌}
use myelon.Common.Result.{Result, ok, err}
use myelon.Barrier.{View}
use myelon.Ring.Laws.{IsSeq}
use myelon.Producer.Defs.{Producer, apply_update, try_publish, count_published, count_full}
use myelon.Producer.Reserve.{IsValid, rear, looked, reservation, next_sequences-eq-reservation}
use myelon.Protocol.Safety.{All-map}
use myelon.Protocol.System.{look, stay, onward, IsSafe}
use myelon.Protocol.Store.{system, Shows, Says, Ran, earlier, valid_of, run_granted}

-- The sequence after `z`, for a cursor `z`.
abbrev count_of : ℤ → ℕ
count_of (pos n) = n + 1
count_of (negsuc n) = 0

count_of_lem : (z : ℤ) → neg_part z ≤ 1 → count_of z + neg_part z ≡ pos_part z + 1
count_of_lem (pos n) h = omega arith
count_of_lem (negsuc n) h = omega arith

module _ {ℓ} {E : Type ℓ} where
  after_reserve : (E → E) → Result ℤ ℕ × Producer E → Outcome (Result ℤ (Unit {0}) × Producer E)
  after_reserve update reserved = elim reserved.0 [
    | err _ ↦ done (err tt, count_full reserved.1)
    | ok _ ↦ do
      applied ← apply_update update reserved.1
      done (ok applied.0, count_published applied.1)
  ]

  -- For a ring whose slots and cursors fit, fewer than 2 ^ 61 events published, a producer whose fields
  -- and cursor fit what is published, and a gating sequence that is not ahead of any consumer,
  -- `try_publish` returns: it takes steps of the protocol, and the producer's fields and its cursor fit
  -- again. When it answers with a sequence, that is the next one, exactly the updated event was
  -- published, and the cursor stands at it; when the ring is full, nothing was.
  pub try_publish-Ran :
      (v : View) (p : Producer E) (update : E → E) (log : List E) (window : ℕ) (readers : List ℕ)
      → Shows p log window
      → IsSafe (system p log window readers)
      → length log < 2 ^ 61
      → IsSeq (rear v p)
      → All (λ a. rear v p <ℤ pos a) readers
      → Ran p update log window readers (try_publish v update p)
  unfolding try_publish system reservation after_reserve Says
  try_publish-Ran v p update log window readers shows safe small seq stale =
      let r = count_of (rear v p) in
      let p' = record (looked v p) { sequence_clear_of_consumers = end } in
      elim (Bool-cases (leb_ℤ last p.sequence_clear_of_consumers)) [
        | inl c ↦
            let inside : reservation v (length log) 1 p ≡ (ok last, p) = rw c refl in
            earlier p p update log window window readers (try_publish v update p)
              (after_reserve update (ok last, p)) refl refl
              (call ∙ ap (after_reserve update) inside) (λ m steps. steps)
              (run_granted p update log window readers shows safe.slots_eq small
                (omega (arith, leb_ℤ→le last p.sequence_clear_of_consumers c, shows.window_le)))
        | inr c ↦ elim (Bool-cases (leb_ℤ last end)) [
          | inl d ↦
              let grown : reservation v (length log) 1 p ≡ (ok last, p') = rw (c, d) refl in
              earlier p p' update log window (r + p.ring_buffer.size) readers
                (try_publish v update p) (after_reserve update (ok last, p')) refl refl
                (call ∙ ap (after_reserve update) grown)
                (λ m steps. onward (look (system p log window readers) r slowest) steps)
                (run_granted p' update log (r + p.ring_buffer.size) readers
                  (record {
                    ring = shows.ring;
                    next_eq = shows.next_eq;
                    cursor_eq = shows.cursor_eq;
                    window_le = ahead;
                  })
                  safe.slots_eq small (omega (arith, leb_ℤ→le last end d, ahead)))
          | inr d ↦ record {
            answer = err tt;
            after = count_full (looked v p);
            log' = log;
            window' = window;
            returns = call ∙ ap (after_reserve update) (full c d);
            steps = stay (system p log window readers);
            shows = record {
              ring = shows.ring;
              next_eq = shows.next_eq;
              cursor_eq = shows.cursor_eq;
              window_le = shows.window_le;
            };
            says = refl;
          }
        ]
      ]
    where
      last : ℤ
      last = pos (length log + 1 - 1)

      end : ℤ
      end = rear v p +ℤ pos p.ring_buffer.size

      valid : IsValid p
      valid = valid_of p log window shows small

      ahead : end <ℤ pos (count_of (rear v p) + p.ring_buffer.size)
      ahead =
          omega
            (arith, count_of_lem (rear v p) seq.above, +ℤ_parts (rear v p) (pos p.ring_buffer.size))

      full :
          leb_ℤ last p.sequence_clear_of_consumers ≡ false
          → leb_ℤ last end ≡ false
          → reservation v (length log) 1 p ≡ (err (pos_part (last -ℤ end)), looked v p)
      full c d = rw (c, d) refl

      slowest : All (λ a. count_of (rear v p) ≤ a) readers
      slowest =
          All-map (λ a. rear v p <ℤ pos a) (λ a. count_of (rear v p) ≤ a)
            (λ a h. omega (arith, h, count_of_lem (rear v p) seq.above)) readers stale

      call : try_publish v update p ≡ after_reserve update (reservation v (length log) 1 p)
      call =
          ap (λ m. m >>= λ reserved. after_reserve update reserved)
            (next_sequences-eq-reservation v p 1 valid (omega arith) (omega arith) seq)
