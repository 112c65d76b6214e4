-- ===== src/Layout/Validate.antt =====
-- Writing a header into a segment, reading it, and what a process that attaches checks.
use myelon.Common.{
  ℕ, ◌+◌, ◌^◌, not, ◌||◌, Option, none, some, List, ◌++◌, ltb, ◌==◌, length, drop, take,
  if◌then◌else◌, max,
}
use myelon.Common.Result.{ok, err, ◌>>=◌}
use myelon.Common.Text.{◌==ₜ◌}
use myelon.Layout.Bytes.{split_le, checksum32}
use myelon.Layout.Defs.{
  SegmentKind, MultiProcessError, MultiProcessResult, LayoutHeader, LayoutContract, layout_magic,
  current_layout_version, header_alignment_min, header_size, header_align, kind_as_u16, eq_kind,
  segment_kind_from_u16, is_power_of_two, align_up, bytes_of_header, is_valid_checksum,
}

-- `ptr::read_unaligned` of a header.
unfoldable pub header_of_bytes : List ℕ → LayoutHeader
header_of_bytes bytes =
    let (version, r) = split_le 2 (drop 8 bytes) in
    let (kind, r) = split_le 2 r in
    let (size, r) = split_le 2 r in
    let (alignment, r) = split_le 2 r in
    let (payload_size, r) = split_le 8 r in
    let (element_size, r) = split_le 8 r in
    let (capacity, r) = split_le 8 r in
    let (reserved, r) = split_le 8 r in
    let (checksum, r) = split_le 4 r in
    let (reserved2, r) = split_le 4 r in
    record {
      magic = take 8 bytes;
      version = version;
      kind = kind;
      header_size = size;
      alignment = alignment;
      payload_size = payload_size;
      element_size = element_size;
      capacity = capacity;
      reserved = reserved;
      checksum = checksum;
      reserved2 = reserved2;
    }

-- The checks of `read_header` on the header itself.
unfoldable pub check_header : LayoutHeader → MultiProcessResult LayoutHeader
check_header header =
    if not (header.magic ==ₜ layout_magic)
    then err (MultiProcessError.magic_mismatch header.magic)
    else if not (header.version == current_layout_version)
    then err (MultiProcessError.version_mismatch header.version)
    else if not (is_valid_checksum header)
    then err MultiProcessError.checksum_failed
    else if not (header.header_size == header_size)
    then err (MultiProcessError.header_size_mismatch header.header_size)
    else if header.alignment == 0 || not (is_power_of_two header.alignment)
    then err MultiProcessError.alignment_invalid
    else ok header

unfoldable pub read_header : Option (List ℕ) → ℕ → MultiProcessResult LayoutHeader
read_header none region_len = err MultiProcessError.pointer_is_null
read_header (some region) region_len =
    if ltb region_len header_size
    then err (MultiProcessError.too_small_for_header region_len)
    else check_header (header_of_bytes region)

unfoldable pub validate_kind : ℕ → SegmentKind → MultiProcessResult (Unit {0})
validate_kind header_kind expected = segment_kind_from_u16 header_kind >>= λ observed_kind.
    if not (eq_kind observed_kind expected)
    then err (MultiProcessError.kind_mismatch observed_kind expected)
    else ok tt

abbrev pub payload_align : ℕ → ℕ
payload_align payload_alignment = max (max payload_alignment header_align) header_alignment_min

unfoldable pub payload_offset : ℕ → MultiProcessResult ℕ
payload_offset payload_alignment = align_up header_size (payload_align payload_alignment)

-- `try_from` to an unsigned integer of `width` bits.
unfoldable pub try_from : ℕ → ℕ → MultiProcessResult ℕ
try_from width n = if ltb n (2 ^ width) then ok n else err MultiProcessError.does_not_fit

unfoldable pub make_layout_header : ℕ → ℕ → ℕ → ℕ → SegmentKind → MultiProcessResult LayoutHeader
make_layout_header payload_size element_size capacity payload_alignment kind = do
  size ← try_from 16 header_size
  alignment ← try_from 16 (payload_align payload_alignment)
  payload_size ← try_from 64 payload_size
  element_size ← try_from 64 element_size
  capacity ← try_from 64 capacity
  let header : LayoutHeader = record {
    magic = layout_magic;
    version = current_layout_version;
    kind = kind_as_u16 kind;
    header_size = size;
    alignment = alignment;
    payload_size = payload_size;
    element_size = element_size;
    capacity = capacity;
    reserved = 0;
    checksum = 0;
    reserved2 = 0;
  }
  ok (record header { checksum = checksum32 (bytes_of_header header) })

unfoldable pub make_contract : ℕ → ℕ → MultiProcessResult LayoutContract
make_contract payload_size payload_alignment = do
  offset ← payload_offset payload_alignment
  if ltb (payload_size + offset) (2 ^ 64)
      then ok (record { payload_offset = offset; total_size = payload_size + offset })
      else err MultiProcessError.size_overflow

unfoldable pub required_layout_size : ℕ → ℕ → MultiProcessResult ℕ
required_layout_size payload_size payload_alignment = do
  contract ← make_contract payload_size payload_alignment
  ok contract.total_size

-- The contract, and the bytes of the segment afterwards.
unfoldable pub write_layout_bytes :
    List ℕ → ℕ → ℕ → ℕ → ℕ → ℕ → SegmentKind → MultiProcessResult (LayoutContract × List ℕ)
write_layout_bytes region region_len payload_size element_size capacity payload_alignment kind = do
  contract ← make_contract payload_size payload_alignment
  if ltb region_len contract.total_size then err MultiProcessError.segment_too_small else do
    header ← make_layout_header payload_size element_size capacity payload_alignment kind
    let bytes = bytes_of_header header
    ok (contract, bytes ++ drop (length bytes) region)

-- The checks of `validate_layout_bytes` once the header is read.
unfoldable pub check_layout :
    ℕ → LayoutHeader → ℕ → ℕ → ℕ → ℕ → SegmentKind → MultiProcessResult LayoutContract
check_layout region_len header payload_size element_size capacity payload_alignment kind = do
  _ ← validate_kind header.kind kind
  expected_payload_size ← try_from 64 payload_size
  if not (header.payload_size == expected_payload_size)
      then err (MultiProcessError.payload_size_mismatch header.payload_size expected_payload_size)
      else do
        expected_element_size ← try_from 64 element_size
        if not (header.element_size == expected_element_size)
            then err
                (MultiProcessError.element_size_mismatch header.element_size expected_element_size)
            else do
              expected_capacity ← try_from 64 capacity
              if not (header.capacity == expected_capacity)
                  then err (MultiProcessError.capacity_mismatch header.capacity expected_capacity)
                  else do
                    contract ← make_contract payload_size (max payload_alignment header.alignment)
                    if ltb region_len contract.total_size
                        then err
                            (MultiProcessError.too_small_for_layout region_len contract.total_size)
                        else ok contract

unfoldable pub validate_layout_bytes :
    Option (List ℕ) → ℕ → ℕ → ℕ → ℕ → ℕ → SegmentKind → MultiProcessResult LayoutContract
validate_layout_bytes base region_len payload_size element_size capacity payload_alignment kind = do
  header ← read_header base region_len
  check_layout region_len header payload_size element_size capacity payload_alignment kind
