-- ===== src/Producer/Write.antt =====
-- What `apply_update` and `apply_batch_updates` of `crates/disruptor-mp/src/producer.rs` write.
use myelon.Common.{
  ℕ, zero, suc, ◌+◌, ◌%◌, ◌^◌, ◌≤◌, ◌<◌, ◌≡◌, refl, sym, ◌∙◌, ap, arith, true, lt→ltb, ltb, leb,
  some, List,
}
use myelon.Common.Int.{ℤ, pos, ◌-ℤ◌, ◌+ℤ◌, eq_of_parts, +ℤ_parts, -ℤ_parts}
use myelon.Common.Word.{
  add_i64, checked_add_i64, checked_sub_i64, i64_try_from, wrap_i64, wrap_i64_id, checked_i64,
  checked_i64_id,
}
use myelon.Common.Outcome.{Outcome, done, assert, ◌>>◌, ◌>>=◌}
use myelon.Ring.{RingBuffer}
use myelon.Ring.Laws.{IsRing, get_lem}
use myelon.Producer.Defs.{
  Producer, apply_update, apply_batch_updates, update_loop, update_slot, expect,
}
use myelon.Producer.Reserve.{IsValid}

abbrev pub last_of : ℤ → ℕ → ℕ → ℤ
last_of q s zero = q
last_of q s (suc n) = pos (s + n)

pub sum-eq : (s : ℕ) → pos s +ℤ pos 1 ≡ pos (s + 1)
sum-eq s = eq_of_parts (pos s +ℤ pos 1) (pos (s + 1)) (omega (arith, +ℤ_parts (pos s) (pos 1)))

next-eq : (s : ℕ) → s < 2 ^ 61 → add_i64 (pos s) (pos 1) ≡ pos (s + 1)
next-eq s h = ap wrap_i64 (sum-eq s) ∙ wrap_i64_id (pos (s + 1)) (omega arith) (omega arith)

last_step : (s n : ℕ) → last_of (pos s) (s + 1) n ≡ pos (s + n)
last_step s zero = ap pos (omega arith)
last_step s (suc n) = ap pos (omega arith)

nonneg : (s : ℕ) → leb 0 (s + 0) ≡ true
nonneg s = ground arith

checked_eq : (z : ℤ) (m : ℕ) → z ≡ pos m → m < 2 ^ 63 → checked_i64 z ≡ some (pos m)
checked_eq z m e h = ap checked_i64 e ∙ checked_i64_id (pos m) (omega arith) (omega arith)

module _ {ℓ} {E : Type ℓ} where
  -- `n` single events in a row, with the sequence of the last.
  unfoldable pub each : ℤ → ℕ → ℕ → (ℕ → E → E) → Producer E → Outcome (ℤ × Producer E)
  unfolding apply_update
  each last i zero update_fn p = done (last, p)
  each last i (suc n) update_fn p = do
    applied ← apply_update (update_fn i) p
    each applied.0 (i + 1) n update_fn applied.1

  -- The slots after `n` updates from the sequence `s` on.
  unfoldable pub written : ℕ → (ℕ → E → E) → List E → ℕ → ℕ → ℕ → List E
  written size update_fn slots s i zero = slots
  written size update_fn slots s i (suc n) =
      written size update_fn (update_slot slots (s % size) (update_fn i)) (s + 1) (i + 1) n

  -- The producer when `s` is next and `q` is published.
  abbrev pub moved : Producer E → List E → ℤ → ℤ → Producer E
  moved p slots q s = record p { slots = slots; producer_sequence = q; sequence = s }

  -- One event goes to the slot of its sequence, and the sequence is published.
  apply_update_lem :
      (p : Producer E) (slots : List E) (q : ℤ) (s : ℕ) (update : E → E)
      → IsRing p.ring_buffer
      → s < 2 ^ 61
      → apply_update update (moved p slots q (pos s))
        ≡ done (
          pos s,
          moved p (update_slot slots (s % p.ring_buffer.size) update) (pos s) (pos (s + 1)),
        )
  unfolding apply_update
  apply_update_lem p slots q s update ring h = rw (nonneg s, (get_lem s ring).0, next-eq s h) refl

  each_lem :
      (p : Producer E) (update_fn : ℕ → E → E) (n i s : ℕ) (slots : List E) (last q : ℤ)
      → IsRing p.ring_buffer
      → s + n ≤ 2 ^ 61
      → each last i n update_fn (moved p slots q (pos s))
        ≡ done (
          last_of last s n,
          moved p (written p.ring_buffer.size update_fn slots s i n) (last_of q s n) (pos (s + n)),
        )
  unfolding each written
  each_lem p update_fn zero i s slots last q ring h =
      ap (λ t. done (last, moved p slots q (pos t))) stay
    where
      stay : s ≡ s + 0
      stay = omega arith
  each_lem p update_fn (suc n) i s slots last q ring h =
      rw (apply_update_lem p slots q s (update_fn i) ring (omega arith)) (
        each_lem p update_fn n (i + 1) (s + 1)
          (update_slot slots (s % p.ring_buffer.size) (update_fn i)) (pos s) (pos s) ring
          (omega arith)
        ∙ rw (last_step s n, shift) refl)
    where
      shift : s + 1 + n ≡ s + suc n
      shift = omega arith

  update_loop_lem :
      (r : RingBuffer) (update_fn : ℕ → E → E) (n i s : ℕ) (slots : List E)
      → IsRing r
      → update_loop r update_fn slots (pos s) i n ≡ done (written r.size update_fn slots s i n)
  unfolding update_loop written
  update_loop_lem r update_fn zero i s slots ring = refl
  update_loop_lem r update_fn (suc n) i s slots ring =
      rw ((get_lem s ring).0, sum-eq s)
        (update_loop_lem r update_fn n (i + 1) (s + 1)
          (update_slot slots (s % r.size) (update_fn i)) ring)

  pub batch_lem :
      (p : Producer E) (update_fn : ℕ → E → E) (n s : ℕ) (slots : List E) (q : ℤ)
      → IsRing p.ring_buffer
      → s + suc n ≤ 2 ^ 61
      → apply_batch_updates (suc n) update_fn (moved p slots q (pos s))
        ≡ done (
          pos (s + n),
          moved p
              (written p.ring_buffer.size update_fn slots s 0 (suc n))
              (pos (s + n))
              (pos (s + suc n)),
        )
  unfolding apply_batch_updates
  batch_lem p update_fn n s slots q ring h =
      ap (λ o. assert (ltb 0 (suc n)) >> (expect o >>= finish)) size_n
      ∙ ap (λ c. assert c >> finish (pos (suc n))) (lt→ltb 0 (suc n) (omega arith))
      ∙ ap
          (λ o. expect o >>= λ upper_offset.
            expect (checked_add_i64 (pos s) upper_offset) >>= store (pos (suc n)))
          offset
      ∙ ap (λ o. expect o >>= store (pos (suc n))) upper_n
      ∙ ap
          (λ m. m >>= λ slots'.
            done (pos (s + n), moved p slots' (pos (s + n)) (add_i64 (pos s) (pos (suc n)))))
          (update_loop_lem p.ring_buffer update_fn (suc n) 0 s slots ring)
      ∙ ap
          (λ z. done (
            pos (s + n),
            moved p (written p.ring_buffer.size update_fn slots s 0 (suc n)) (pos (s + n)) z,
          ))
          next_n
    where
      store : ℤ → ℤ → Outcome (ℤ × Producer E)
      store n_seq upper = do
        slots' ← update_loop p.ring_buffer update_fn slots (pos s) 0 (suc n)
        done (upper, moved p slots' upper (add_i64 (pos s) n_seq))

      finish : ℤ → Outcome (ℤ × Producer E)
      finish n_seq = do
        upper_offset ← expect (checked_sub_i64 n_seq (pos 1))
        upper ← expect (checked_add_i64 (pos s) upper_offset)
        store n_seq upper

      size_n : i64_try_from (suc n) ≡ some (pos (suc n))
      size_n = ground arith

      offset : checked_sub_i64 (pos (suc n)) (pos 1) ≡ some (pos n)
      offset =
          checked_eq (pos (suc n) -ℤ pos 1) n
            (eq_of_parts (pos (suc n) -ℤ pos 1) (pos n)
              (omega (arith, -ℤ_parts (pos (suc n)) (pos 1))))
            (omega arith)

      upper_n : checked_add_i64 (pos s) (pos n) ≡ some (pos (s + n))
      upper_n =
          checked_eq (pos s +ℤ pos n) (s + n)
            (eq_of_parts (pos s +ℤ pos n) (pos (s + n)) (omega (arith, +ℤ_parts (pos s) (pos n))))
            (omega arith)

      next_n : add_i64 (pos s) (pos (suc n)) ≡ pos (s + suc n)
      next_n =
          ap wrap_i64 (
            eq_of_parts (pos s +ℤ pos (suc n)) (pos (s + suc n))
              (omega (arith, +ℤ_parts (pos s) (pos (suc n)))))
          ∙ wrap_i64_id (pos (s + suc n)) (omega arith) (omega arith)

  -- For a producer at work and a batch that is not empty and ends at 2 ^ 61 at the latest, a batch
  -- is so many single events: same slots, same cursor, same next sequence, same result.
  pub apply_batch_updates-eq-each :
      (p : Producer E) (n : ℕ) (update_fn : ℕ → E → E) (valid : IsValid p)
      → 0 < n
      → valid.next + n ≤ 2 ^ 61
      → apply_batch_updates n update_fn p ≡ each (pos 0) 0 n update_fn p
  apply_batch_updates-eq-each p zero update_fn valid h hn = absurd (omega arith)
  apply_batch_updates-eq-each p (suc n) update_fn valid h hn =
      ap (apply_batch_updates (suc n) update_fn) same
      ∙ batch_lem p update_fn n valid.next p.slots p.producer_sequence valid.ring hn
      ∙ sym (
          ap (each (pos 0) 0 (suc n) update_fn) same
          ∙ each_lem p update_fn (suc n) 0 valid.next p.slots (pos 0) p.producer_sequence valid.ring
              hn)
    where
      same : p ≡ moved p p.slots p.producer_sequence (pos valid.next)
      same = ap (λ z. moved p p.slots p.producer_sequence z) valid.next_eq

  -- One event: the slot of its sequence is updated, the sequence is published, and the next one is due.
  pub apply_update-moved :
      (p : Producer E) (update : E → E) (valid : IsValid p)
      → apply_update update p
        ≡ done (
          pos valid.next,
          moved p
              (update_slot p.slots (valid.next % p.ring_buffer.size) update)
              (pos valid.next)
              (pos (valid.next + 1)),
        )
  apply_update-moved p update valid =
      ap (λ z. apply_update update (moved p p.slots p.producer_sequence z)) valid.next_eq
      ∙ apply_update_lem p p.slots p.producer_sequence valid.next update valid.ring valid.small
