-- ===== src/Protocol/Delivery.antt =====
-- `try_consume_next` of `crates/disruptor-mp/src/consumer.rs` in the protocol.
use myelon.Common.{
  get_elem?-some, if◌then◌else◌, ℕ, zero, suc, ◌+◌, ◌%◌, ◌^◌, ◌≤◌, ◌<◌, ◌≡◌, true, Bool-cases, inl,
  inr, refl, ◌∙◌, ap, arith, Option, none, some, List, [], ◌∷◌, get_elem?, set, length,
  get_elem?-set_self,
}
use myelon.Common.Int.{
  ℤ, pos, negsuc, pos_part, neg_part, ◌<ℤ◌, ◌+ℤ◌, leb_ℤ, ltb_ℤ, ltb_ℤ→lt, ltb_ℤ→ge, +ℤ_parts,
  eq_of_parts,
}
use myelon.Common.Word.{add_i64, wrap_i64, wrap_i64_id}
use myelon.Common.Outcome.{Outcome, done, panic, assert, ◌>>◌, ◌>>=◌}
use myelon.Ring.Laws.{IsRing, get_lem}
use myelon.Consumer.Defs.{
  Consumer, Seen, available_batch_bounds, try_consume_next, read, count_empty, count_lag,
  count_consumed, publish_consumed_sequence,
}
use myelon.Protocol.System.{System, Step, consume, IsSafe}
use myelon.Protocol.Safety.{Held, All-get_elem?}

get_elem?-lt : (xs : List ℕ) (j b : ℕ) → get_elem? xs j ≡ some b → j < length xs
get_elem?-lt [] j b h = absurd (cc h)
get_elem?-lt (x ∷ xs) zero b h = omega arith
get_elem?-lt (x ∷ xs) (suc j) b h = omega (arith, get_elem?-lt xs j b h)

module _ {ℓ} {E : Type ℓ} where
  -- The consumer is reader `i` of the system, and has read `a` events.
  pub record Reads (c : Consumer) (m : System E) (i a : ℕ) : Type ℓ where
    pub ring : IsRing c.ring_buffer
    pub size_eq : c.ring_buffer.size ≡ m.size
    pub listed : get_elem? m.readers i ≡ some a
    pub low : neg_part c.last_processed_sequence ≤ 1
    pub next : pos_part c.last_processed_sequence + 1 ≡ a + neg_part c.last_processed_sequence
    pub small : a < 2 ^ 61

  -- The call found nothing beyond what it had loaded, or it delivered the event `a` of the log.
  pub data Delivers (c : Consumer) (m : System E) (i a : ℕ) (seen : Seen E) : Type ℓ where
    nothing :
        try_consume_next seen c ≡ done (none, count_empty c)
        → seen.producer_sequence <ℤ pos a
        → Delivers c m i a seen
    delivered :
        (e : E) (c' : Consumer)
        → try_consume_next seen c ≡ done (some (pos a, e), c')
        → get_elem? m.log a ≡ some e
        → c'.consumer_sequence ≡ pos a
        → Step m (record m { readers = set m.readers i (a + 1) })
        → Reads c' (record m { readers = set m.readers i (a + 1) }) i (a + 1)
        → Delivers c m i a seen

  -- For a consumer among the readers of a system whose slots and cursors fit, that has read fewer
  -- than 2 ^ 61 - 1 events and has loaded a cursor that is perhaps stale: `try_consume_next` either
  -- finds that it had nothing to read up to that cursor, or delivers the event that was published
  -- with the next sequence, publishes that sequence and takes the protocol's step.
  pub try_consume_next-Delivers :
      (c : Consumer) (m : System E) (i a : ℕ) (seen : Seen E)
      → IsSafe m
      → Reads c m i a
      → a + 1 < 2 ^ 61
      → seen.slots ≡ m.slots
      → seen.producer_sequence <ℤ pos (length m.log)
      → Delivers c m i a seen
  unfolding try_consume_next available_batch_bounds read publish_consumed_sequence
  try_consume_next-Delivers c m i a seen safe reads small same stale =
      elim (Bool-cases (ltb_ℤ seen.producer_sequence (pos a))) [
        | inl none_left ↦
            nothing
              (call
                ∙ ap (λ b. upon (done (if b then none else some (pos a, seen.producer_sequence))))
                    none_left)
              (ltb_ℤ→lt seen.producer_sequence (pos a) none_left)
        | inr more ↦
            let published : a < length m.log =
              omega (arith, ltb_ℤ→ge seen.producer_sequence (pos a) more) in
            let (e, got) = get_elem?-some m.log a published in
            delivered e (after e)
              (call
                ∙ ap (λ b. upon (done (if b then none else some (pos a, seen.producer_sequence))))
                    more
                ∙ ap (λ o. o >>= λ event. done (some (pos a, event), after event))
                    (event e (held published ∙ got)))
              got refl (consume m i a (a + 1) reads.listed (omega arith) (omega arith))
              (record {
                ring = reads.ring;
                size_eq = reads.size_eq;
                listed =
                    get_elem?-set_self m.readers i (a + 1)
                      (get_elem?-lt m.readers i a reads.listed);
                low = omega arith;
                next = omega arith;
                small = small;
              })
      ]
    where
      started : leb_ℤ (negsuc 0) c.last_processed_sequence ≡ true
      started = ground (arith, reads.low)

      next_eq : add_i64 c.last_processed_sequence (pos 1) ≡ pos a
      next_eq =
          ap wrap_i64 (
            eq_of_parts (c.last_processed_sequence +ℤ pos 1) (pos a)
              (omega (arith, reads.next, +ℤ_parts c.last_processed_sequence (pos 1))))
          ∙ wrap_i64_id (pos a) (omega arith) (omega arith)

      after : E → Consumer
      after e =
          count_lag (pos a) seen.producer_sequence
            (count_consumed 1 (publish_consumed_sequence (pos a) c))

      upon : Outcome (Option (ℤ × ℤ)) → Outcome (Option (ℤ × E) × Consumer)
      upon o = o >>= λ found. elim found [
        | none ↦ done (none, count_empty c)
        | some (next_sequence, upper) ↦ do
          event ← read c.ring_buffer seen.slots next_sequence
          done (
            some (next_sequence, event),
            count_lag next_sequence upper
                (count_consumed 1 (publish_consumed_sequence next_sequence c)),
          )
      ]

      looked : ℤ → Outcome (Option (ℤ × ℤ))
      looked z =
          done (if ltb_ℤ seen.producer_sequence z then none else some (z, seen.producer_sequence))

      call :
          try_consume_next seen c
          ≡ upon (
              done (
                if ltb_ℤ seen.producer_sequence (pos a)
                then none
                else some (pos a, seen.producer_sequence)))
      call = ap upon (
          ap (λ b. assert b >> looked (add_i64 c.last_processed_sequence (pos 1))) started
          ∙ ap looked next_eq)

      held : a < length m.log → get_elem? m.slots (a % m.size) ≡ get_elem? m.log a
      held h = All-get_elem? (Held m m.log) m.readers i a safe.held reads.listed a (omega arith) h

      from_slot : Option E → Outcome E
      from_slot o = elim o [ none ↦ panic | some event ↦ done event ]

      at_index : ℕ → Outcome E
      at_index j = from_slot (get_elem? seen.slots j)

      event :
          (e : E)
          → get_elem? m.slots (a % m.size) ≡ some e
          → read c.ring_buffer seen.slots (pos a) ≡ done e
      event e h =
          ap (λ o. o >>= at_index) (get_lem a reads.ring).0
          ∙ ap from_slot (
              ap (λ xs. get_elem? xs (a % c.ring_buffer.size)) same
              ∙ ap (λ z. get_elem? m.slots (a % z)) reads.size_eq
              ∙ h)
