-- ===== src/Layout/RoundTrip.antt =====
-- A header that is written is read again.
use myelon.Common.{
  ℕ, ◌+◌, ◌^◌, ◌≤◌, ◌<◌, ◌≡◌, refl, sym, ap, ◌∙◌, arith, true, false, some, List, ◌++◌, ltb, ◌==◌,
  length, drop, append_assoc, lt→ltb, ne→==, ==_refl, length-append, length-drop,
}
use myelon.Common.Result.{ok}
use myelon.Common.Text.{◌==ₜ◌}
use myelon.Layout.Bytes.{
  checksum32, split_le-to_le_bytes, take-append_length, drop-append_length, checksum32-lt,
  length-to_le_bytes,
}
use myelon.Layout.Defs.{
  SegmentKind, LayoutHeader, LayoutContract, layout_magic, bytes_of_header, is_valid_checksum,
  is_power_of_two, kind_as_u16, current_layout_version, header_size,
}
use myelon.Layout.Validate.{
  header_of_bytes, check_header, read_header, make_layout_header, payload_align, try_from,
  make_contract, write_layout_bytes,
}
use myelon.Layout.Align.{offset_of, make_contract-eq}

-- The fields lie in their ranges.
pub record InRange (h : LayoutHeader) : Type 0 where
  pub magic_size : length h.magic ≡ 8
  pub version_lt : h.version < 256 ^ 2
  pub kind_lt : h.kind < 256 ^ 2
  pub header_size_lt : h.header_size < 256 ^ 2
  pub alignment_lt : h.alignment < 256 ^ 2
  pub payload_size_lt : h.payload_size < 256 ^ 8
  pub element_size_lt : h.element_size < 256 ^ 8
  pub capacity_lt : h.capacity < 256 ^ 8
  pub reserved_lt : h.reserved < 256 ^ 8
  pub checksum_lt : h.checksum < 256 ^ 4
  pub reserved2_lt : h.reserved2 < 256 ^ 4

pub header_of_bytes-bytes_of_header :
    (h : LayoutHeader) (rest : List ℕ) → InRange h → header_of_bytes (bytes_of_header h ++ rest) ≡ h
unfolding header_of_bytes bytes_of_header
header_of_bytes-bytes_of_header h rest r =
    let rd =
      λ (k : ℕ) (n : ℕ) (lt : n < 256 ^ k) (more : List ℕ). split_le-to_le_bytes k n more lt in
    simp (
      append_assoc,
      λ (more : List ℕ). take-append_length 8 h.magic more r.magic_size,
      λ (more : List ℕ). drop-append_length 8 h.magic more r.magic_size,
      rd 2 h.version r.version_lt,
      rd 2 h.kind r.kind_lt,
      rd 2 h.header_size r.header_size_lt,
      rd 2 h.alignment r.alignment_lt,
      rd 8 h.payload_size r.payload_size_lt,
      rd 8 h.element_size r.element_size_lt,
      rd 8 h.capacity r.capacity_lt,
      rd 8 h.reserved r.reserved_lt,
      rd 4 h.checksum r.checksum_lt,
      rd 4 h.reserved2 r.reserved2_lt,
    )

pub length-bytes_of_header :
    (h : LayoutHeader) → length h.magic ≡ 8 → length (bytes_of_header h) ≡ 56
unfolding bytes_of_header
length-bytes_of_header h e = simp (length-append, length-to_le_bytes) (omega (arith, e))

-- A region is overwritten at its start.
length-overwrite :
    (bytes region : List ℕ)
    → length bytes ≤ length region
    → length (bytes ++ drop (length bytes) region) ≡ length region
length-overwrite bytes region h = simp (length-append, length-drop) (omega arith)

kind_lt : (kind : SegmentKind) → kind_as_u16 kind < 256 ^ 2
kind_lt SegmentKind.ring_buffer = omega arith
kind_lt SegmentKind.cursor = omega arith

pub le→ltb : (a b : ℕ) → a ≤ b → ltb b a ≡ false
le→ltb a b h = ground arith

module _ (payload_size element_size capacity payload_alignment : ℕ) (kind : SegmentKind)
    (power : is_power_of_two (payload_align payload_alignment) ≡ true)
    (small : payload_align payload_alignment < 2 ^ 16) (payload_small : payload_size < 2 ^ 64)
    (element_small : element_size < 2 ^ 64) (capacity_small : capacity < 2 ^ 64) where
  abbrev pub unsigned : LayoutHeader
  unsigned = record {
    magic = layout_magic;
    version = current_layout_version;
    kind = kind_as_u16 kind;
    header_size = header_size;
    alignment = payload_align payload_alignment;
    payload_size = payload_size;
    element_size = element_size;
    capacity = capacity;
    reserved = 0;
    checksum = 0;
    reserved2 = 0;
  }

  abbrev pub signed : LayoutHeader
  signed = record unsigned { checksum = checksum32 (bytes_of_header unsigned) }

  make_layout_header-signed :
      make_layout_header payload_size element_size capacity payload_alignment kind ≡ ok signed
  unfolding make_layout_header try_from
  make_layout_header-signed =
      rw
        (
          lt→ltb (payload_align payload_alignment) (2 ^ 16) small,
          lt→ltb payload_size (2 ^ 64) payload_small,
          lt→ltb element_size (2 ^ 64) element_small,
          lt→ltb capacity (2 ^ 64) capacity_small,
        )
        refl

  signed-InRange : InRange signed
  signed-InRange = record {
    magic_size = refl;
    version_lt = omega arith;
    kind_lt = kind_lt kind;
    header_size_lt = omega arith;
    alignment_lt = omega arith;
    payload_size_lt = omega arith;
    element_size_lt = omega arith;
    capacity_lt = omega arith;
    reserved_lt = omega arith;
    checksum_lt = omega (arith, checksum32-lt (bytes_of_header unsigned));
    reserved2_lt = omega arith;
  }

  check_header-signed : check_header signed ≡ ok signed
  unfolding check_header is_valid_checksum ◌==ₜ◌
  check_header-signed =
      let positive : (payload_align payload_alignment == 0) ≡ false =
        ne→== (payload_align payload_alignment) 0 (omega arith) in
      rw (==_refl (checksum32 (bytes_of_header unsigned)), positive, power) refl

  abbrev pub offset : ℕ
  offset = offset_of (payload_align payload_alignment)

  abbrev pub contract : LayoutContract
  contract = record { payload_offset = offset; total_size = payload_size + offset }

  pub make_contract-contract :
      payload_size + offset < 2 ^ 64 → make_contract payload_size payload_alignment ≡ ok contract
  make_contract-contract fits =
      rw
        (
          make_contract-eq payload_size payload_alignment power small,
          lt→ltb (payload_size + offset) (2 ^ 64) fits,
        )
        refl

  abbrev pub written : List ℕ → List ℕ
  written region = bytes_of_header signed ++ drop 56 region

  pub read_header-written :
      (region : List ℕ) (region_len : ℕ)
      → 56 ≤ region_len
      → read_header (some (written region)) region_len ≡ ok signed
  unfolding read_header
  read_header-written region region_len h =
      rw
        (
          le→ltb 56 region_len h,
          header_of_bytes-bytes_of_header signed (drop 56 region) signed-InRange,
        )
        check_header-signed

  pub write_layout_bytes-written :
      (region : List ℕ) (region_len : ℕ)
      → region_len < 2 ^ 64
      → payload_size + offset ≤ region_len
      → write_layout_bytes region region_len payload_size element_size capacity payload_alignment
          kind
        ≡ ok (contract, written region)
  unfolding write_layout_bytes
  write_layout_bytes-written region region_len small_len fits =
      rw
        (
          make_contract-contract (omega arith),
          le→ltb (payload_size + offset) region_len fits,
          make_layout_header-signed,
          length-bytes_of_header signed refl,
        )
        refl

  pub length-written :
      (region : List ℕ) → 56 ≤ length region → length (written region) ≡ length region
  length-written region h =
      let size = length-bytes_of_header signed refl in
      ap (λ k. length (bytes_of_header signed ++ drop k region)) (sym size)
      ∙ length-overwrite (bytes_of_header signed) region (omega (arith, size))
