-- ===== src/Protocol/Batches.antt =====
-- `process_snapshot_batch` of `crates/disruptor-mp/src/consumer.rs` in the protocol.
use myelon.Common.{
  ℕ, suc, ◌+◌, ◌%◌, ◌<◌, ◌≡◌, refl, sym, ◌∙◌, ap, arith, Option, none, some, List, [], ◌∷◌, ◌++◌,
  get_elem?, set, length, length-append,
}
use myelon.Common.Int.{ℤ, pos, ◌+ℤ◌, ◌-ℤ◌, pos_part, +ℤ_parts, -ℤ_parts, eq_of_parts}
use myelon.Common.Outcome.{Outcome, done, panic, ◌>>=◌}
use myelon.Ring.{RingBuffer}
use myelon.Ring.Laws.{IsRing, get_lem}
use myelon.Producer.Write.{sum-eq}
use myelon.Consumer.Defs.{
  Consumer, read, read_range, range_length, process_snapshot_batch, publish_consumed_sequence,
  count_lag, count_consumed,
}
use myelon.Protocol.System.{System, Written, Step, consume, IsSafe}
use myelon.Protocol.Safety.{Held, All-get_elem?, get_elem?-append_lt, get_elem?-append_ge}
use myelon.Protocol.Delivery.{Reads}

module _ {ℓ} {E : Type ℓ} where
  -- Events with their sequences, as a processor gets them.
  unfoldable pub numbered : List E → ℕ → List (E × ℤ)
  numbered [] s = []
  numbered (e ∷ es) s = (e, pos s) ∷ numbered es (s + 1)

  Written-of :
      (m : System E) (s : ℕ) (es : List E)
      → ((i : ℕ) → i < length es → get_elem? m.slots ((s + i) % m.size) ≡ get_elem? es i)
      → Written m s es
  Written-of m s [] h = tt
  Written-of m s (e ∷ es) h = (
    ap (λ t. get_elem? m.slots (t % m.size)) (omega arith) ∙ h 0 (omega arith),
    Written-of m (s + 1) es
        (λ i lt. ap (λ t. get_elem? m.slots (t % m.size)) (omega arith) ∙ h (suc i) (omega arith)),
  )

  read_range-Written :
      (m : System E) (r : RingBuffer) (s : ℕ) (es : List E)
      → IsRing r
      → r.size ≡ m.size
      → Written m s es
      → read_range r m.slots (pos s) (length es) ≡ done (numbered es s)
  unfolding read_range numbered read
  read_range-Written m r s [] ring size_eq w = refl
  read_range-Written m r s (e ∷ es) ring size_eq w =
      rw (first, sum-eq s, read_range-Written m r (s + 1) es ring size_eq w.1) refl
    where
      from_slot : Option E → Outcome E
      from_slot o = elim o [ none ↦ panic | some event ↦ done event ]

      first : read r m.slots (pos s) ≡ done e
      first =
          ap (λ o. o >>= λ j. from_slot (get_elem? m.slots j)) (get_lem s ring).0
          ∙ ap from_slot (ap (λ z. get_elem? m.slots (s % z)) size_eq ∙ w.0)

  run_Written :
      (m : System E) (i a : ℕ) (before es later : List E)
      → IsSafe m
      → get_elem? m.readers i ≡ some a
      → m.log ≡ before ++ (es ++ later)
      → length before ≡ a
      → Written m a es
  run_Written m i a before es later safe listed log_eq at = Written-of m a es (λ j lt.
      All-get_elem? (Held m m.log) m.readers i a safe.held listed (a + j) (omega arith) (
        omega (arith, ap length log_eq, length-append before (es ++ later), length-append es later))
      ∙ ap (λ l. get_elem? l (a + j)) log_eq
      ∙ ap (λ t. get_elem? (before ++ (es ++ later)) (t + j)) (sym at)
      ∙ get_elem?-append_ge before (es ++ later) j
      ∙ get_elem?-append_lt es later j lt)

  -- A batch over the sequences of the events `es`, which were published after the `a` events that the
  -- consumer has read, hands the processor exactly these events, in order and with their sequences,
  -- publishes the last of the sequences and takes the protocol's step.
  pub process_snapshot_batch-Written :
      (c : Consumer) (m : System E) (i a : ℕ) (before : List E) (e : E) (es later : List E)
      → IsSafe m
      → Reads c m i a
      → m.log ≡ before ++ ((e ∷ es) ++ later)
      → length before ≡ a
      → (c' : Consumer) × (process_snapshot_batch (pos a) (pos (a + length es)) m.slots c
          ≡ done (numbered (e ∷ es) a, c'))
        × (c'.consumer_sequence ≡ pos (a + length es))
        × Step m (record m { readers = set m.readers i (a + length (e ∷ es)) })
  unfolding process_snapshot_batch publish_consumed_sequence
  process_snapshot_batch-Written c m i a before e es later safe reads log_eq at = (
    count_consumed (length (numbered (e ∷ es) a)) (
        publish_consumed_sequence (pos (a + length es))
          (count_lag (pos a) (pos (a + length es)) c)),
    ap (λ n. read_range c.ring_buffer m.slots (pos a) n >>= finish) whole
        ∙ ap (λ o. o >>= finish)
            (read_range-Written m c.ring_buffer a (e ∷ es) reads.ring reads.size_eq
              (run_Written m i a before (e ∷ es) later safe reads.listed log_eq at)),
    refl,
    consume m i a (a + length (e ∷ es)) reads.listed (omega arith) (
        omega (
          arith,
          ap length log_eq,
          length-append before ((e ∷ es) ++ later),
          length-append (e ∷ es) later,
        )),
  )
    where
      finish : List (E × ℤ) → Outcome (List (E × ℤ) × Consumer)
      finish calls = done (
        calls,
        count_consumed (length calls) (
            publish_consumed_sequence (pos (a + length es))
              (count_lag (pos a) (pos (a + length es)) c)),
      )

      whole : range_length (pos a) (pos (a + length es)) ≡ length (e ∷ es)
      whole = ap pos_part (
          eq_of_parts (pos (a + length es) +ℤ pos 1 -ℤ pos a) (pos (length (e ∷ es))) (
            omega (
              arith,
              +ℤ_parts (pos (a + length es)) (pos 1),
              -ℤ_parts (pos (a + length es) +ℤ pos 1) (pos a),
            )))
