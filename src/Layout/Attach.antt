-- ===== src/Layout/Attach.antt =====
-- One process writes the header of a segment, another attaches to it.
use myelon.Common.{
  ℕ, zero, suc, ◌+◌, ◌%◌, ◌^◌, ◌≤◌, ◌<◌, ◌≡◌, refl, sym, ap, subst, ◌∙◌, arith, true, Bool-cases,
  inl, inr, ◌⊎◌, some, List, [], ◌∷◌, ◌++◌, lt→ltb, ◌==◌, ==_refl, ==→eq, length, drop, max,
}
use myelon.Common.Result.{ok, err}
use myelon.Layout.Defs.{
  SegmentKind, MultiProcessError, MultiProcessResult, LayoutContract, bytes_of_header,
  is_power_of_two, kind_as_u16, segment_kind_from_u16,
}
use myelon.Layout.Validate.{
  payload_align, try_from, make_contract, write_layout_bytes, validate_layout_bytes, validate_kind,
  check_layout,
}
use myelon.Layout.Align.{offset_of, offset_bounds}
use myelon.Layout.RoundTrip.{
  le→ltb, signed, contract, written, make_contract-contract, read_header-written,
  write_layout_bytes-written, length-written, length-bytes_of_header,
}

abbrev no_bytes : List ℕ
no_bytes = []

drop_nil : (n : ℕ) → drop n no_bytes ≡ []
drop_nil zero = refl
drop_nil (suc n) = refl

drop_behind :
    (bytes region : List ℕ) (o : ℕ)
    → length bytes ≤ o
    → drop o (bytes ++ drop (length bytes) region) ≡ drop o region
drop_behind [] region o h = refl
drop_behind (b ∷ bytes) region zero h = absurd (omega arith)
drop_behind (b ∷ bytes) [] (suc o) h =
    ap (λ r. drop o (bytes ++ r)) (sym (drop_nil (length bytes)))
    ∙ drop_behind bytes [] o (omega arith)
    ∙ drop_nil o
drop_behind (b ∷ bytes) (x ∷ region) (suc o) h = drop_behind bytes region o (omega arith)

validate_kind_self : (kind : SegmentKind) → validate_kind (kind_as_u16 kind) kind ≡ ok tt
unfolding validate_kind segment_kind_from_u16
validate_kind_self SegmentKind.ring_buffer = refl
validate_kind_self SegmentKind.cursor = refl

validate_kind_other :
    (kind kind' : SegmentKind)
    → (kind' ≡ kind)
      ⊎ (validate_kind (kind_as_u16 kind) kind' ≡ err (MultiProcessError.kind_mismatch kind kind'))
unfolding validate_kind segment_kind_from_u16
validate_kind_other SegmentKind.ring_buffer SegmentKind.ring_buffer = inl refl
validate_kind_other SegmentKind.ring_buffer SegmentKind.cursor = inr refl
validate_kind_other SegmentKind.cursor SegmentKind.ring_buffer = inr refl
validate_kind_other SegmentKind.cursor SegmentKind.cursor = inl refl

module _ (payload_size element_size capacity payload_alignment : ℕ) (kind : SegmentKind)
    (power : is_power_of_two (payload_align payload_alignment) ≡ true)
    (small : payload_align payload_alignment < 2 ^ 16) (payload_small : payload_size < 2 ^ 64)
    (element_small : element_size < 2 ^ 64) (capacity_small : capacity < 2 ^ 64) (region : List ℕ)
    (region_small : length region < 2 ^ 64)
    (fits : payload_size + offset_of (payload_align payload_alignment) ≤ length region) where
  abbrev layout : LayoutContract
  layout = record {
    payload_offset = offset_of (payload_align payload_alignment);
    total_size = payload_size + offset_of (payload_align payload_alignment);
  }

  abbrev after : List ℕ
  after =
      written payload_size element_size capacity payload_alignment kind power small payload_small
        element_small capacity_small region

  contract_again :
      make_contract payload_size (max payload_alignment (payload_align payload_alignment))
      ≡ ok layout
  contract_again =
      let same : payload_align payload_alignment
          ≡ payload_align (max payload_alignment (payload_align payload_alignment)) =
        omega arith in
      subst
        (λ a.
          make_contract payload_size (max payload_alignment (payload_align payload_alignment))
          ≡ ok (record { payload_offset = offset_of a; total_size = payload_size + offset_of a }))
        (sym same)
        (make_contract-contract payload_size element_size capacity
          (max payload_alignment (payload_align payload_alignment)) kind
          (subst (λ a. is_power_of_two a ≡ true) same power) (omega arith) payload_small
          element_small capacity_small
          (subst (λ a. payload_size + offset_of a < 2 ^ 64) same (omega arith)))

  check_layout-after :
      check_layout
        (length region)
        (signed payload_size element_size capacity payload_alignment kind power small payload_small
          element_small capacity_small)
        payload_size
        element_size
        capacity
        payload_alignment
        kind
      ≡ ok layout
  unfolding check_layout try_from
  check_layout-after =
      rw
        (
          validate_kind_self kind,
          lt→ltb payload_size (2 ^ 64) payload_small,
          lt→ltb element_size (2 ^ 64) element_small,
          lt→ltb capacity (2 ^ 64) capacity_small,
          ==_refl payload_size,
          ==_refl element_size,
          ==_refl capacity,
        )
        (rw
          (
            contract_again,
            le→ltb (payload_size + offset_of (payload_align payload_alignment)) (length region)
                fits,
          )
          refl)

  room : 56 ≤ length region
  room = omega (
    arith,
    offset_bounds (payload_align payload_alignment)
        (let p : 0 < payload_align payload_alignment = omega arith in p),
  )

  -- A segment has room for a payload behind its header, at the first multiple of the alignment, which is
  -- a power of two below 2 ^ 16 once it is raised to 8; sizes are below 2 ^ 64. Then `write_layout_bytes`
  -- succeeds: the segment keeps its length and every byte from the payload on, and a process that
  -- attaches and validates it with the same sizes, alignment and kind gets the same contract. The
  -- payload begins behind the header, less than one alignment after it, and ends within the segment.
  pub validate_layout_bytes-write_layout_bytes :
      (segment : List ℕ) × (write_layout_bytes region
          (length region)
          payload_size
          element_size
          capacity
          payload_alignment
          kind
        ≡ ok (layout, segment))
      × (length segment ≡ length region)
      × (drop layout.payload_offset segment ≡ drop layout.payload_offset region)
      × (validate_layout_bytes
            (some segment)
            (length region)
            payload_size
            element_size
            capacity
            payload_alignment
            kind
          ≡ ok layout)
      × (layout.payload_offset % payload_align payload_alignment ≡ 0)
      × (56 ≤ layout.payload_offset)
      × (layout.payload_offset < 56 + payload_align payload_alignment)
      × (layout.total_size ≤ length region)
  unfolding validate_layout_bytes
  validate_layout_bytes-write_layout_bytes =
      let bounds = offset_bounds (payload_align payload_alignment) (omega arith) in
      let header =
        signed payload_size element_size capacity payload_alignment kind power small payload_small
          element_small capacity_small in
      let size = length-bytes_of_header header refl in
      (
        after,
        write_layout_bytes-written payload_size element_size capacity payload_alignment kind power
            small payload_small element_small capacity_small region (length region) region_small
            fits,
        length-written payload_size element_size capacity payload_alignment kind power small
            payload_small element_small capacity_small region room,
        ap (λ k. drop layout.payload_offset (bytes_of_header header ++ drop k region)) (sym size)
            ∙ drop_behind (bytes_of_header header) region layout.payload_offset
                (omega (arith, size, bounds)),
        rw
            (read_header-written payload_size element_size capacity payload_alignment kind power
              small payload_small element_small capacity_small region (length region) room)
            check_layout-after,
        bounds.2,
        bounds.0,
        bounds.1,
        fits,
      )

  -- The same segment under other sizes or another kind.
  module _ (payload_size' element_size' capacity' payload_alignment' : ℕ) (kind' : SegmentKind)
      (payload_small' : payload_size' < 2 ^ 64) (element_small' : element_size' < 2 ^ 64)
      (capacity_small' : capacity' < 2 ^ 64) where
    abbrev pub Refused : MultiProcessResult LayoutContract → Type 0
    Refused r =
        ((kind' ≡ kind)
          × (payload_size' ≡ payload_size)
          × (element_size' ≡ element_size)
          × (capacity' ≡ capacity))
        ⊎ ((error : MultiProcessError) × (r ≡ err error))

    check_layout_refuses : Refused (
        check_layout
          (length region)
          (signed payload_size element_size capacity payload_alignment kind power small
            payload_small element_small capacity_small)
          payload_size'
          element_size'
          capacity'
          payload_alignment'
          kind')
    unfolding check_layout try_from
    check_layout_refuses = elim (validate_kind_other kind kind') [
      | inr mismatch ↦ rw mismatch (inr (MultiProcessError.kind_mismatch kind kind', refl))
      | inl same ↦
          rw
            (
              same,
              validate_kind_self kind,
              lt→ltb payload_size' (2 ^ 64) payload_small',
              lt→ltb element_size' (2 ^ 64) element_small',
              lt→ltb capacity' (2 ^ 64) capacity_small',
            )
            (elim (Bool-cases (payload_size == payload_size')) [
              | inr other ↦
                  rw other
                    (inr (MultiProcessError.payload_size_mismatch payload_size payload_size', refl))
              | inl payload_same ↦
                  rw payload_same (elim (Bool-cases (element_size == element_size')) [
                    | inr other ↦ rw other (
                        inr (
                          MultiProcessError.element_size_mismatch element_size element_size',
                          refl,
                        ))
                    | inl element_same ↦
                        rw element_same (elim (Bool-cases (capacity == capacity')) [
                          | inr other ↦
                              rw other
                                (inr (MultiProcessError.capacity_mismatch capacity capacity', refl))
                          | inl capacity_same ↦ inl (
                            refl,
                            sym (==→eq payload_size payload_size' payload_same),
                            sym (==→eq element_size element_size' element_same),
                            sym (==→eq capacity capacity' capacity_same),
                          )
                        ])
                  ])
            ])
    ]

    -- A process that validates what `write_layout_bytes` has written, with sizes below 2 ^ 64 and whatever
    -- alignment, gets an error, unless the kind, the payload size, the element size and the capacity that
    -- it asks for are those that were written.
    pub validate_layout_bytes_refuses :
        (segment : List ℕ) (contract : LayoutContract)
        → write_layout_bytes region
            (length region)
            payload_size
            element_size
            capacity
            payload_alignment
            kind
          ≡ ok (contract, segment)
        → Refused (
            validate_layout_bytes
              (some segment)
              (length region)
              payload_size'
              element_size'
              capacity'
              payload_alignment'
              kind')
    unfolding validate_layout_bytes
    validate_layout_bytes_refuses segment contract wrote =
        let same : after ≡ segment = ap segment_of (
          sym (
            write_layout_bytes-written payload_size element_size capacity payload_alignment kind
              power small payload_small element_small capacity_small region (length region)
              region_small fits)
          ∙ wrote) in
        rw
          (
            ← same,
            read_header-written payload_size element_size capacity payload_alignment kind power
                small payload_small element_small capacity_small region (length region) room,
          )
          check_layout_refuses
      where
        segment_of : MultiProcessResult (LayoutContract × List ℕ) → List ℕ
        segment_of (ok (c, bytes)) = bytes
        segment_of (err e) = []
