-- ===== src/Framing/Frame.antt =====
-- Frame types: `FixedFrame`, `AlignedFixedFrame`, and the trait `FramedTransportFrame` as a record
-- of operations and laws. A `[u8; DATA_BYTES]` is a list of that length; a byte is a number.
use myelon.Common.{
  ℕ, ◌^◌, ◌≤◌, ◌<◌, ◌≡◌, Option, none, List, ◌++◌, arith, leb, length, take, drop, replicate,
  length-append, length-drop, length-replicate, take-append, if◌then◌else◌,
}
use myelon.Common.Word.{u32}
use myelon.Common.Outcome.{Outcome, done, panic, assert, ◌>>=◌, ◌>>◌}

pub record FrameMeta : Type 0 where
  pub len : ℕ
  pub kind : ℕ
  pub flags : ℕ
  pub msg_id : ℕ
  pub timestamp_ns : Option ℕ
  pub payload : List ℕ

pub record FixedFrame : Type 0 where
  pub len : ℕ
  pub kind : ℕ
  pub flags : ℕ
  pub msg_id : ℕ
  pub bytes : List ℕ

pub record AlignedFixedFrame : Type 0 where
  pub len : ℕ
  pub kind : ℕ
  pub flags : ℕ
  pub reserved : List ℕ
  pub msg_id : ℕ
  pub padding : List ℕ
  pub bytes : List ℕ

-- `&data[..len]`, which panics when the slice is out of range.
abbrev pub slice_to : List ℕ → ℕ → Outcome (List ℕ)
slice_to xs n = if leb n (length xs) then done (take n xs) else panic

-- `data[..src.len()].copy_from_slice(src)`, which panics when it does not fit.
abbrev pub copy_prefix : List ℕ → List ℕ → Outcome (List ℕ)
copy_prefix dst src =
    if leb (length src) (length dst) then done (src ++ drop (length src) dst) else panic

unfoldable pub fixed_default : ℕ → FixedFrame
fixed_default data_bytes = record {
  len = 0;
  kind = 0;
  flags = 0;
  msg_id = 0;
  bytes = replicate data_bytes 0;
}

unfoldable pub fixed_meta : FixedFrame → Outcome FrameMeta
fixed_meta f = do
  payload ← slice_to f.bytes f.len
  done (record {
    len = f.len;
    kind = f.kind;
    flags = f.flags;
    msg_id = f.msg_id;
    timestamp_ns = none;
    payload = payload;
  })

unfoldable pub fixed_write : ℕ → FixedFrame → List ℕ → ℕ → ℕ → ℕ → Outcome FixedFrame
fixed_write data_bytes f payload kind msg_id flags = do
  assert (leb (length payload) data_bytes)
  bytes ← copy_prefix f.bytes payload
  done (record {
    len = u32 (length payload);
    kind = kind;
    flags = flags;
    msg_id = msg_id;
    bytes = bytes;
  })

unfoldable pub aligned_default : ℕ → AlignedFixedFrame
aligned_default data_bytes = record {
  len = 0;
  kind = 0;
  flags = 0;
  reserved = replicate 2 0;
  msg_id = 0;
  padding = replicate 4 0;
  bytes = replicate data_bytes 0;
}

unfoldable pub aligned_meta : AlignedFixedFrame → Outcome FrameMeta
aligned_meta f = do
  payload ← slice_to f.bytes f.len
  done (record {
    len = f.len;
    kind = f.kind;
    flags = f.flags;
    msg_id = f.msg_id;
    timestamp_ns = none;
    payload = payload;
  })

unfoldable pub aligned_write :
    ℕ → AlignedFixedFrame → List ℕ → ℕ → ℕ → ℕ → Outcome AlignedFixedFrame
aligned_write data_bytes f payload kind msg_id flags = do
  assert (leb (length payload) data_bytes)
  bytes ← copy_prefix f.bytes payload
  done (record f {
    len = u32 (length payload);
    kind = kind;
    flags = flags;
    msg_id = msg_id;
    bytes = bytes;
  })

-- What a reader sees of a frame written with these arguments.
abbrev pub meta_of : List ℕ → ℕ → ℕ → ℕ → FrameMeta
meta_of payload kind msg_id flags = record {
  len = length payload;
  kind = kind;
  flags = flags;
  msg_id = msg_id;
  timestamp_ns = none;
  payload = payload;
}

-- The trait `FramedTransportFrame`: its operations, and the law that its clients rely on.
pub record FrameType : Type 1 where
  pub T : Type 0
  pub capacity : ℕ
  pub default : T
  pub meta : T → Outcome FrameMeta
  pub write : T → List ℕ → ℕ → ℕ → ℕ → Outcome T
  -- The payload region has the declared size.
  pub IsSized : T → Type 0
  pub default-IsSized : IsSized default
  pub write-meta :
      (t : T) (payload : List ℕ) (kind msg_id flags : ℕ)
      → IsSized t
      → length payload ≤ capacity
      → length payload < 2 ^ 32
      → (t' : T) × (write t payload kind msg_id flags ≡ done t')
        × IsSized t'
        × (meta t' ≡ done (meta_of payload kind msg_id flags))

copy_prefix_lem :
    (dst src : List ℕ)
    → length src ≤ length dst
    → (copy_prefix dst src ≡ done (src ++ drop (length src) dst))
      × (length (src ++ drop (length src) dst) ≡ length dst)
      × (slice_to (src ++ drop (length src) dst) (length src) ≡ done src)
copy_prefix_lem dst src h = (
  ground arith,
  omega (arith, length-append src (drop (length src) dst), length-drop (length src) dst),
  ground
      (arith, take-append src (drop (length src) dst), length-append src (drop (length src) dst)),
)

-- A payload that fits a slot of the declared size and is shorter than 2 ^ 32 is written without a
-- panic, whatever the slot held, and read back with its kind, message id and flags; the slot keeps
-- its size.
pub fixed_write-meta :
    (data_bytes : ℕ) (t : FixedFrame) (payload : List ℕ) (kind msg_id flags : ℕ)
    → length t.bytes ≡ data_bytes
    → length payload ≤ data_bytes
    → length payload < 2 ^ 32
    → (t' : FixedFrame) × (fixed_write data_bytes t payload kind msg_id flags ≡ done t')
      × (length t'.bytes ≡ data_bytes)
      × (fixed_meta t' ≡ done (meta_of payload kind msg_id flags))
unfolding fixed_write fixed_meta
fixed_write-meta data_bytes t payload kind msg_id flags sized fits small = (
  record {
    len = length payload;
    kind = kind;
    flags = flags;
    msg_id = msg_id;
    bytes = payload ++ drop (length payload) t.bytes;
  },
  ground (arith, copy_prefix_lem t.bytes payload),
  ground (arith, copy_prefix_lem t.bytes payload),
  ground (arith, copy_prefix_lem t.bytes payload),
)

pub aligned_write-meta :
    (data_bytes : ℕ) (t : AlignedFixedFrame) (payload : List ℕ) (kind msg_id flags : ℕ)
    → length t.bytes ≡ data_bytes
    → length payload ≤ data_bytes
    → length payload < 2 ^ 32
    → (t' : AlignedFixedFrame) × (aligned_write data_bytes t payload kind msg_id flags ≡ done t')
      × (length t'.bytes ≡ data_bytes)
      × (aligned_meta t' ≡ done (meta_of payload kind msg_id flags))
unfolding aligned_write aligned_meta
aligned_write-meta data_bytes t payload kind msg_id flags sized fits small = (
  record t {
    len = length payload;
    kind = kind;
    flags = flags;
    msg_id = msg_id;
    bytes = payload ++ drop (length payload) t.bytes;
  },
  ground (arith, copy_prefix_lem t.bytes payload),
  ground (arith, copy_prefix_lem t.bytes payload),
  ground (arith, copy_prefix_lem t.bytes payload),
)

pub fixed_default-IsSized : (n : ℕ) → length (fixed_default n).bytes ≡ n
unfolding fixed_default
fixed_default-IsSized n = length-replicate n 0

pub aligned_default-IsSized : (n : ℕ) → length (aligned_default n).bytes ≡ n
unfolding aligned_default
aligned_default-IsSized n = length-replicate n 0

-- The two implementations of the trait.
abbrev pub fixed_frame : ℕ → FrameType
fixed_frame n = record {
  T = FixedFrame;
  capacity = n;
  default = fixed_default n;
  meta = fixed_meta;
  write = fixed_write n;
  IsSized = λ t. length t.bytes ≡ n;
  default-IsSized = fixed_default-IsSized n;
  write-meta = fixed_write-meta n;
}

abbrev pub aligned_frame : ℕ → FrameType
aligned_frame n = record {
  T = AlignedFixedFrame;
  capacity = n;
  default = aligned_default n;
  meta = aligned_meta;
  write = aligned_write n;
  IsSized = λ t. length t.bytes ≡ n;
  default-IsSized = aligned_default-IsSized n;
  write-meta = aligned_write-meta n;
}
