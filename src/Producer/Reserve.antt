-- ===== src/Producer/Reserve.antt =====
-- Reservations of `crates/disruptor-mp/src/producer.rs`: the window of sequences that are clear of the
-- consumers.
use myelon.Common.{
  ℕ, ◌+◌, ◌-◌, ◌^◌, ◌≤◌, ◌<◌, ◌≡◌, refl, ◌∙◌, ap, inl, inr, arith, true, false, Bool-cases, lt→ltb,
  Option, none, some, if◌then◌else◌,
}
use myelon.Common.Int.{
  ℤ, pos, negsuc, pos_part, neg_part, ◌<ℤ◌, ◌-ℤ◌, ◌+ℤ◌, leb_ℤ, ltb_ℤ, +ℤ_parts, -ℤ_parts, int_laws,
  eq_of_parts, leb_ℤ→gt,
}
use myelon.Common.Word.{
  add_i64, sub_i64, checked_add_i64, checked_sub_i64, i64_as_u64, wrap_i64, wrap_i64_id,
  checked_i64_id, u64_max, i64_try_from,
}
use myelon.Common.Outcome.{Outcome, done, assert, ◌>>◌}
use myelon.Common.Result.{Result, ok, err}
use myelon.Barrier.{View}
use myelon.Barrier.Min.{get_min_consumer_sequence}
use myelon.Ring.{free_slots}
use myelon.Ring.Laws.{IsRing, IsSeq, free_slots_lem, sub_i64-eq, sub_bounds}
use myelon.Producer.Defs.{
  Producer, next_sequences, last_reserved_sequence, update_min_consumer_clearance_window,
}

add_bounds :
    (a b : ℤ)
    → (pos_part (a +ℤ b) ≤ pos_part a + pos_part b) × (neg_part (a +ℤ b) ≤ neg_part a + neg_part b)
unfolding ◌+ℤ◌
add_bounds a b = ground arith

diff_pos : (a b : ℤ) → b <ℤ a → neg_part (a -ℤ b) ≡ 0
unfolding ◌-ℤ◌
diff_pos a b h = ground arith

as_u64_pos : (z : ℤ) → neg_part z ≡ 0 → pos_part z < 2 ^ 63 → i64_as_u64 z ≡ pos_part z
as_u64_pos (pos n) h k = omega arith
as_u64_pos (negsuc n) h k = absurd (omega arith)

-- The arithmetic of a reservation, for the sequence `s`, the rear `r` and the free slots `free`.
module _ (s n size : ℕ) (r free : ℤ) where
  before-IsSeq : s < 2 ^ 61 → IsSeq (pos s -ℤ pos 1)
  unfolding ◌-ℤ◌
  before-IsSeq h = record { above = ground arith; below = ground arith }

  before_i64 : s < 2 ^ 61 → sub_i64 (pos s) (pos 1) ≡ (pos s -ℤ pos 1)
  before_i64 h = sub_i64-eq (pos s) (pos 1) (omega arith) (omega arith)

  n_next-eq : 0 < n → (pos s -ℤ pos 1) +ℤ pos n ≡ pos (s + n - 1)
  n_next-eq h =
      eq_of_parts ((pos s -ℤ pos 1) +ℤ pos n) (pos (s + n - 1))
        (omega (arith, -ℤ_parts (pos s) (pos 1), +ℤ_parts (pos s -ℤ pos 1) (pos n)))

  reserved :
      s < 2 ^ 61
      → n < 2 ^ 61
      → 0 < n
      → checked_add_i64 (pos s -ℤ pos 1) (pos n) ≡ some (pos (s + n - 1))
  reserved hs hn h =
      checked_i64_id ((pos s -ℤ pos 1) +ℤ pos n) (omega (arith, ap pos_part (n_next-eq h)))
        (omega (arith, ap neg_part (n_next-eq h)))
      ∙ ap some (n_next-eq h)

  Balance : Type 0
  Balance =
      pos_part free + pos_part (pos s -ℤ pos 1) + neg_part r
      ≡ neg_part free + pos_part r + neg_part (pos s -ℤ pos 1) + size

  fits :
      Balance → 0 < n → ltb_ℤ free (pos n) ≡ false → leb_ℤ (pos (s + n - 1)) (r +ℤ pos size) ≡ true
  unfolding Balance
  fits b h c = ground (arith, -ℤ_parts (pos s) (pos 1), +ℤ_parts r (pos size))

  short :
      Balance → 0 < n → ltb_ℤ free (pos n) ≡ true → leb_ℤ (pos (s + n - 1)) (r +ℤ pos size) ≡ false
  unfolding Balance
  short b h c = ground (arith, -ℤ_parts (pos s) (pos 1), +ℤ_parts r (pos size))

  limit :
      Balance → IsSeq r → s < 2 ^ 61 → size ≤ 2 ^ 61 → add_i64 (pos s -ℤ pos 1) free ≡ r +ℤ pos size
  unfolding Balance
  limit b hr hs hz =
      let sum : (pos s -ℤ pos 1) +ℤ free ≡ r +ℤ pos size =
        eq_of_parts ((pos s -ℤ pos 1) +ℤ free) (r +ℤ pos size) (omega (int_laws, b)) in
      ap wrap_i64 sum
      ∙ wrap_i64_id (r +ℤ pos size) (omega (arith, add_bounds r (pos size), hr.below))
          (omega (arith, add_bounds r (pos size), hr.above))

  missing :
      Balance
      → IsSeq r
      → s < 2 ^ 61
      → n < 2 ^ 61
      → size ≤ 2 ^ 61
      → 0 < n
      → ltb_ℤ free (pos n) ≡ true
      → i64_as_u64 (sub_i64 (pos n) free) ≡ pos_part (pos (s + n - 1) -ℤ (r +ℤ pos size))
  unfolding Balance
  missing b hr hs hn hz h c =
      let same : pos n -ℤ free ≡ pos (s + n - 1) -ℤ (r +ℤ pos size) =
        eq_of_parts (pos n -ℤ free) (pos (s + n - 1) -ℤ (r +ℤ pos size)) (omega (int_laws, b)) in
      let gap : neg_part (pos (s + n - 1) -ℤ (r +ℤ pos size)) ≡ 0 =
        diff_pos (pos (s + n - 1)) (r +ℤ pos size)
          (leb_ℤ→gt (pos (s + n - 1)) (r +ℤ pos size) (short b h c)) in
      let low : pos_part (pos (s + n - 1) -ℤ (r +ℤ pos size)) < 2 ^ 63 =
        omega (
          arith,
          sub_bounds (pos (s + n - 1)) (r +ℤ pos size),
          add_bounds r (pos size),
          hr.above,
        ) in
      ap (λ z. i64_as_u64 (wrap_i64 z)) same
      ∙ ap i64_as_u64 (wrap_i64_id (pos (s + n - 1) -ℤ (r +ℤ pos size)) low (omega (arith, gap)))
      ∙ as_u64_pos (pos (s + n - 1) -ℤ (r +ℤ pos size)) gap low

module _ {ℓ} {E : Type ℓ} where
  -- A producer at work: its ring is one, and its next sequence is a number below the bound.
  pub record IsValid (p : Producer E) : Type ℓ where
    pub ring : IsRing p.ring_buffer
    pub next : ℕ
    pub next_eq : p.sequence ≡ pos next
    pub small : next < 2 ^ 61

  -- The gating sequence that a call reads, and the barrier it leaves.
  abbrev pub rear : View → Producer E → ℤ
  rear v p = (get_min_consumer_sequence v p.consumer_barrier).0

  abbrev pub looked : View → Producer E → Producer E
  looked v p = record p { consumer_barrier = (get_min_consumer_sequence v p.consumer_barrier).1 }

  -- What a reservation is to do, over the integers: within the window it looks at nothing; else the
  -- window grows to one turn of the ring beyond the slowest consumer, if that is enough.
  unfoldable pub reservation : View → ℕ → ℕ → Producer E → Result ℤ ℕ × Producer E
  reservation v next n p =
      let last = pos (next + n - 1) in
      let end = rear v p +ℤ pos p.ring_buffer.size in
      if leb_ℤ last p.sequence_clear_of_consumers
      then (ok last, p)
      else if leb_ℤ last end
      then (ok last, record (looked v p) { sequence_clear_of_consumers = end })
      else (err (pos_part (last -ℤ end)), looked v p)

  reserve_chain :
      (v : View) (p : Producer E) (n : ℕ) (valid : IsValid p)
      → 0 < n
      → n < 2 ^ 61
      → last_reserved_sequence p (pos n) ≡ ok (pos (valid.next + n - 1))
  unfolding last_reserved_sequence
  reserve_chain v p n valid h hn =
      ap (λ z. upon (checked_sub_i64 z (pos 1))) valid.next_eq
      ∙ ap upon first
      ∙ ap (λ o. elim o [ none ↦ err u64_max | some n_next ↦ ok n_next ])
          (reserved valid.next n p.ring_buffer.size (pos 0) (pos 0) valid.small hn h)
    where
      upon : Option ℤ → Result ℤ ℕ
      upon o = elim o [
        | none ↦ err u64_max
        | some current ↦ elim (checked_add_i64 current (pos n)) [
          | none ↦ err u64_max
          | some n_next ↦ ok n_next
        ]
      ]

      first : checked_sub_i64 (pos valid.next) (pos 1) ≡ some (pos valid.next -ℤ pos 1)
      first =
          checked_i64_id (pos valid.next -ℤ pos 1)
            (omega (arith, sub_bounds (pos valid.next) (pos 1), valid.small))
            (omega (arith, sub_bounds (pos valid.next) (pos 1)))

  clearance_lem :
      (v : View) (p : Producer E) (n : ℕ) (valid : IsValid p)
      → 0 < n
      → n < 2 ^ 61
      → IsSeq (rear v p)
      → (let (cleared, p') =
            update_min_consumer_clearance_window v (pos n) (pos (valid.next + n - 1)) p in
          (elim cleared [ err missing ↦ err missing | ok _ ↦ ok (pos (valid.next + n - 1)) ], p'))
        ≡ reservation v valid.next n p
  unfolding update_min_consumer_clearance_window reservation Balance
  clearance_lem v p n valid h hn hr =
      let last : sub_i64 p.sequence (pos 1) ≡ pos valid.next -ℤ pos 1 =
        ap (λ z. sub_i64 z (pos 1)) valid.next_eq
        ∙ before_i64 valid.next n p.ring_buffer.size (rear v p) (pos 0) valid.small in
      let free : ℤ = free_slots p.ring_buffer (pos valid.next -ℤ pos 1) (rear v p) in
      let b : Balance valid.next n p.ring_buffer.size (rear v p) free =
        free_slots_lem (pos valid.next -ℤ pos 1) (rear v p) valid.ring
          (before-IsSeq valid.next n p.ring_buffer.size (rear v p) (pos 0) valid.small) hr in
      elim (Bool-cases (leb_ℤ (pos (valid.next + n - 1)) p.sequence_clear_of_consumers)) [
        | inl c ↦ rw c refl
        | inr c ↦ elim (Bool-cases (ltb_ℤ free (pos n))) [
          | inl d ↦
              rw (last, c, d, short valid.next n p.ring_buffer.size (rear v p) free b h d)
                (rw
                  (missing valid.next n p.ring_buffer.size (rear v p) free b hr valid.small hn
                    valid.ring.small h d)
                  refl)
          | inr d ↦
              rw (last, c, d, fits valid.next n p.ring_buffer.size (rear v p) free b h d)
                (rw
                  (limit valid.next n p.ring_buffer.size (rear v p) free b hr valid.small
                    valid.ring.small)
                  refl)
        ]
      ]

  -- For a producer at work, a request of 1 to 2 ^ 61 - 1 sequences and a gating sequence between -1
  -- and 2 ^ 62, a reservation does what the integers say: it grants the sequences up to the last one
  -- asked for exactly when they are within the window or within one turn of the ring beyond the
  -- slowest consumer, and otherwise says how many slots are missing and leaves all but the barrier
  -- as it is.
  pub next_sequences-eq-reservation :
      (v : View) (p : Producer E) (n : ℕ) (valid : IsValid p)
      → 0 < n
      → n < 2 ^ 61
      → IsSeq (rear v p)
      → next_sequences v n p ≡ done (reservation v valid.next n p)
  unfolding next_sequences
  next_sequences-eq-reservation v p n valid h hn hr =
      ap tried small_n
      ∙ ap (λ c. assert c >> done (asked (last_reserved_sequence p (pos n))))
          (lt→ltb 0 (n + 0) (omega arith))
      ∙ ap (λ r. done (asked r)) (reserve_chain v p n valid h hn)
      ∙ ap done (clearance_lem v p n valid h hn hr)
    where
      small_n : i64_try_from n ≡ some (pos n)
      small_n = ground arith

      asked : Result ℤ ℕ → Result ℤ ℕ × Producer E
      asked (err missing) = (err missing, p)
      asked (ok n_next) =
          let (cleared, p') = update_min_consumer_clearance_window v (pos n) n_next p in
          (elim cleared [ err missing ↦ err missing | ok _ ↦ ok n_next ], p')

      tried : Option ℤ → Outcome (Result ℤ ℕ × Producer E)
      tried none = done (err u64_max, p)
      tried (some m) = do
        assert (ltb_ℤ (pos 0) m)
        done (elim (last_reserved_sequence p m) [
          | err missing ↦ (err missing, p)
          | ok n_next ↦
              let (cleared, p') = update_min_consumer_clearance_window v m n_next p in
              (elim cleared [ err missing ↦ err missing | ok _ ↦ ok n_next ], p')
        ])
