-- ===== src/Counters/Snapshot.antt =====
-- What `snapshot` shows after `register`.
use myelon.Common.{
  ℕ, zero, suc, ◌+◌, ◌-◌, ◌^◌, ◌≤◌, ◌<◌, ◌≡◌, refl, ap, ◌∙◌, arith, Bool-cases, inl, inr, ◌⊎◌,
  get_elem?-some, none, some, List, [], ◌∷◌, ◌++◌, leb, leb→le, leb→gt, ◌==◌, ne→==, length, take,
  get_elem?, set, replicate, min, bit_and, bit_or, bit_and_mask, All, take-append,
}
use Prim.Native.Nat.{bit_or-bitwise}
use myelon.Common.Word.{u32}
use myelon.Counters.Defs.{
  CountersFile, CounterSlot, CounterSnapshot, max_counter_slots, counter_label_bytes,
  counter_flag_in_use, label_bytes, label_len, populate, register, snapshot_of, snapshot_loop,
  snapshot, with_slot_count,
}

in_use : (flags : ℕ) → bit_and (bit_or flags 1) 1 ≡ 1
in_use zero = refl
in_use (suc flags) = bit_and_mask 1 (bit_or (suc flags) 1) ∙ simp bit_or-bitwise (omega arith)

label_len-padded :
    (bytes : List ℕ) (k : ℕ)
    → All (λ b. 0 < b) bytes
    → label_len (bytes ++ replicate k 0) ≡ length bytes
unfolding label_len
label_len-padded [] zero h = refl
label_len-padded [] (suc k) h = refl
label_len-padded (b ∷ bytes) k h =
    rw (ne→== b 0 (omega (arith, h.0))) (ap suc (label_len-padded bytes k h.1))

All-take : (n : ℕ) (bytes : List ℕ) → All (λ b. 0 < b) bytes → All (λ b. 0 < b) (take n bytes)
All-take zero bytes h = tt
All-take (suc n) [] h = tt
All-take (suc n) (b ∷ bytes) h = (h.0, All-take n bytes h.1)

-- The bytes of a label without a zero that a snapshot reads: the first 48.
label_read :
    (label : List ℕ)
    → All (λ b. 0 < b) label
    → take (label_len (label_bytes label)) (label_bytes label)
      ≡ take (min (length label) counter_label_bytes) label
unfolding label_bytes
label_read label h =
    let n = min (length label) counter_label_bytes in
    let kept = take n label in
    rw (label_len-padded kept (counter_label_bytes - n) (All-take n label h))
      (take-append kept (replicate (counter_label_bytes - n) 0))

take-set_end :
    (n : ℕ) (slots : List CounterSlot) (v : CounterSlot)
    → n < length slots
    → take (n + 1) (set slots n v) ≡ take n slots ++ (v ∷ [])
take-set_end n [] v h = absurd (omega arith)
take-set_end zero (x ∷ slots) v h = refl
take-set_end (suc n) (x ∷ slots) v h =
    let more : suc n + 1 ≡ suc (n + 1) = omega arith in
    rw more (ap (λ r. x ∷ r) (take-set_end n slots v (omega arith)))

module _ {L : Type 0} (from_utf8_lossy : List ℕ → L) where
  snapshot_loop-append :
      (xs ys : List CounterSlot)
      → snapshot_loop from_utf8_lossy (xs ++ ys)
        ≡ snapshot_loop from_utf8_lossy xs ++ snapshot_loop from_utf8_lossy ys
  unfolding snapshot_loop
  snapshot_loop-append [] ys = refl
  snapshot_loop-append (x ∷ xs) ys = elim (Bool-cases (bit_and x.flags counter_flag_in_use == 0)) [
    | inl free ↦ rw free (snapshot_loop-append xs ys)
    | inr used ↦ rw used (ap (λ r. snapshot_of from_utf8_lossy x ∷ r) (snapshot_loop-append xs ys))
  ]

  -- The entry of a counter that has just been registered, with what its slot's value was.
  abbrev pub entry : ℕ → ℕ → List ℕ → ℕ → CounterSnapshot L
  entry id flags label value = record {
    id = id;
    flags = bit_or flags counter_flag_in_use;
    value = value;
    label = from_utf8_lossy (take (min (length label) counter_label_bytes) label);
  }

  snapshot_loop-populate :
      (id flags : ℕ) (label : List ℕ) (slot : CounterSlot)
      → All (λ b. 0 < b) label
      → snapshot_loop from_utf8_lossy (populate id flags label slot ∷ [])
        ≡ entry id flags label slot.value ∷ []
  unfolding snapshot_loop snapshot_of populate
  snapshot_loop-populate id flags label slot h = rw (in_use flags, label_read label h) refl

  -- A file has 62 slots, of which at most 62 are counted; a label has no zero byte. `register` finds no
  -- slot exactly when 62 are counted, and leaves the file as it is; else it hands out the slot behind
  -- the counted ones and counts it, and a snapshot afterwards shows what it did before and one entry
  -- more: the identifier, the flags with the one for use, the value that the slot had, and the first 48
  -- bytes of the label.
  pub register-snapshot :
      (id flags : ℕ) (label : List ℕ) (file : CountersFile)
      → length file.slots ≡ max_counter_slots
      → file.header.slot_count ≤ max_counter_slots
      → All (λ b. 0 < b) label
      → ((file.header.slot_count ≡ max_counter_slots)
          × (register id flags label file ≡ (none, file)))
        ⊎ ((after : CountersFile) × (slot : CounterSlot) × (get_elem? file.slots
                file.header.slot_count
              ≡ some slot)
            × (register id flags label file ≡ (some file.header.slot_count, after))
            × (after.header.slot_count ≡ file.header.slot_count + 1)
            × (snapshot from_utf8_lossy after
                ≡ snapshot from_utf8_lossy file ++ (entry id flags label slot.value ∷ [])))
  unfolding register snapshot
  register-snapshot id flags label file size counted h =
      elim (Bool-cases (leb max_counter_slots file.header.slot_count)) [
        | inl full ↦ inl (
          omega (arith, leb→le max_counter_slots file.header.slot_count full),
          rw full (
              ap (λ n. (none, with_slot_count file n))
                (let back : u32 (u32 (file.header.slot_count + 1) + 2 ^ 32 - 1)
                      ≡ file.header.slot_count =
                    omega arith in
                  back)),
        )
        | inr free ↦
            let count = file.header.slot_count in
            let room : count < length file.slots =
              omega (arith, leb→gt max_counter_slots count free) in
            let (slot, found) = get_elem?-some file.slots count room in
            let next : u32 (count + 1) ≡ count + 1 = omega arith in
            let slots' = set file.slots count (populate id flags label slot) in
            let shown : min (count + 1) max_counter_slots ≡ count + 1 =
              omega (arith, leb→gt max_counter_slots count free) in
            let before : min count max_counter_slots ≡ count = omega arith in
            inr (
              record (with_slot_count file (count + 1)) { slots = slots' },
              slot,
              found,
              rw (free, found, next) refl,
              refl,
              rw (shown, before, take-set_end count file.slots (populate id flags label slot) room)
                  (snapshot_loop-append (take count file.slots) (populate id flags label slot ∷ [])
                    ∙ ap (λ r. snapshot_loop from_utf8_lossy (take count file.slots) ++ r)
                        (snapshot_loop-populate id flags label slot h)),
            )
      ]
