-- ===== src/Counters/Defs.antt =====
-- `CountersFile`: a header and 62 slots of 64 bytes. A handle is the index of its slot; a label is its
-- bytes. What the lossy decoding of a label gives is `from_utf8_lossy`, a parameter.
use myelon.Common.{
  ℕ, suc, ◌+◌, ◌-◌, ◌*◌, ◌^◌, Option, none, some, List, [], ◌∷◌, ◌++◌, ltb, leb, ◌==◌, length, take,
  get_elem?, set, replicate, if◌then◌else◌, min, bit_and, bit_or,
}
use myelon.Common.Word.{u32, u64}
use myelon.Common.Result.{Result, ok, err}

-- `u32::from_le_bytes(*b"MYC0")`
abbrev pub counters_magic : ℕ
counters_magic = 0x3043594D

abbrev pub counters_file_reserved_bytes : ℕ
counters_file_reserved_bytes = 4096

abbrev pub max_counter_slots : ℕ
max_counter_slots = 62

abbrev pub counter_label_bytes : ℕ
counter_label_bytes = 48

abbrev pub counter_flag_in_use : ℕ
counter_flag_in_use = 1

-- `size_of::<CountersHeader>()` and `size_of::<CounterSlot>()`.
abbrev pub cache_line_bytes : ℕ
cache_line_bytes = 64

pub record CountersHeader : Type 0 where
  pub magic : ℕ
  pub version : ℕ
  pub slot_count : ℕ
  pub slot_capacity : ℕ
  pub slot_stride : ℕ
  pub slots_offset : ℕ

pub record CounterSlot : Type 0 where
  pub id : ℕ
  pub flags : ℕ
  pub value : ℕ
  pub label : List ℕ

pub record CountersFile : Type 0 where
  pub header : CountersHeader
  pub slots : List CounterSlot

pub record CounterSnapshot (L : Type 0) : Type 0 where
  pub id : ℕ
  pub flags : ℕ
  pub value : ℕ
  pub label : L

pub data AttachError : Type 0 where
  bad_magic : ℕ → AttachError
  unsupported_version : ℕ → AttachError

abbrev pub zeroed : CounterSlot
zeroed = record { id = 0; flags = 0; value = 0; label = replicate 48 0 }

-- `init`, on slots that the caller has zeroed.
unfoldable pub init : List CounterSlot → CountersFile
init slots = record {
  header = record {
    magic = counters_magic;
    version = 0;
    slot_count = 0;
    slot_capacity = max_counter_slots;
    slot_stride = cache_line_bytes;
    slots_offset = cache_line_bytes;
  };
  slots = slots;
}

unfoldable pub attach : CountersFile → Result CountersFile AttachError
attach file =
    if file.header.magic == counters_magic
    then (if file.header.version == 0
        then ok file
        else err (AttachError.unsupported_version file.header.version))
    else err (AttachError.bad_magic file.header.magic)

-- The offset of a slot.
unfoldable pub slot_ptr : CountersHeader → ℕ → ℕ
slot_ptr header idx = header.slots_offset + idx * cache_line_bytes

abbrev pub with_slot_count : CountersFile → ℕ → CountersFile
with_slot_count file n = record file { header = record file.header { slot_count = n } }

-- The label, null-padded.
unfoldable pub label_bytes : List ℕ → List ℕ
label_bytes label =
    let n = min (length label) counter_label_bytes in
    take n label ++ replicate (counter_label_bytes - n) 0

-- The fields that `register` writes; the value stays.
unfoldable pub populate : ℕ → ℕ → List ℕ → CounterSlot → CounterSlot
unfolding label_bytes
populate id flags label slot = record slot {
  id = id;
  flags = bit_or flags counter_flag_in_use;
  label = label_bytes label;
}

unfoldable pub register : ℕ → ℕ → List ℕ → CountersFile → Option ℕ × CountersFile
unfolding populate
register id flags label file =
    let idx = file.header.slot_count in
    let claimed = with_slot_count file (u32 (idx + 1)) in
    if leb max_counter_slots idx
    then (none, with_slot_count claimed (u32 (claimed.header.slot_count + 2 ^ 32 - 1)))
    else (
      some idx,
      elim (get_elem? file.slots idx) [
        | none ↦ claimed
        | some slot ↦ record claimed { slots = set file.slots idx (populate id flags label slot) }
      ],
    )

-- `position(|b| *b == 0)`, or the length.
unfoldable pub label_len : List ℕ → ℕ
label_len [] = 0
label_len (b ∷ bytes) = if b == 0 then 0 else suc (label_len bytes)

module _ {L : Type 0} (from_utf8_lossy : List ℕ → L) where
  unfoldable pub snapshot_of : CounterSlot → CounterSnapshot L
  unfolding label_len
  snapshot_of slot = record {
    id = slot.id;
    flags = slot.flags;
    value = slot.value;
    label = from_utf8_lossy (take (label_len slot.label) slot.label);
  }

  -- The loop over the first slots.
  unfoldable pub snapshot_loop : List CounterSlot → List (CounterSnapshot L)
  unfolding snapshot_of
  snapshot_loop [] = []
  snapshot_loop (slot ∷ slots) =
      if bit_and slot.flags counter_flag_in_use == 0
      then snapshot_loop slots
      else snapshot_of slot ∷ snapshot_loop slots

  unfoldable pub snapshot : CountersFile → List (CounterSnapshot L)
  unfolding snapshot_loop
  snapshot file = snapshot_loop (take (min file.header.slot_count max_counter_slots) file.slots)

-- A change of the value of a slot.
abbrev pub on_value : (ℕ → ℕ) → ℕ → CountersFile → CountersFile
on_value change idx file = elim (get_elem? file.slots idx) [
  | none ↦ file
  | some slot ↦ record file {
    slots = set file.slots idx (record slot { value = change slot.value });
  }
]

unfoldable pub add : ℕ → ℕ → CountersFile → CountersFile
add n idx file = on_value (λ value. u64 (value + n)) idx file

unfoldable pub inc : ℕ → CountersFile → CountersFile
inc idx file = on_value (λ value. u64 (value + 1)) idx file

-- `record_max`: the value that it leaves, where its loop has loaded `current`, and its exchanges fail
-- with the values of the list first.
unfoldable pub record_max_loop : ℕ → List ℕ → ℕ → ℕ
record_max_loop value [] current = if ltb current value then value else current
record_max_loop value (actual ∷ more) current =
    let again = record_max_loop value more actual in if ltb current value then again else current
