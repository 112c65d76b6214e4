-- ===== src/Layout/Align.antt =====
-- Where the payload of a segment begins.
use myelon.Common.{
  ℕ, zero, suc, ◌+◌, ◌-◌, ◌*◌, ◌/◌, ◌%◌, ◌^◌, ◌≤◌, ◌<◌, ◌≡◌, refl, sym, ap, ◌∙◌, arith, true, false,
  Bool-cases, inl, inr, ◌==◌, ltb, if◌then◌else◌, ==→eq, ne→==, bit_and, bit_and_clear, pow_add,
}
use native.Mathlib.Nat.{one-le-pow, mod-lt, suc-mul, div-add-mod', div-lt_iff_lt-mul, mul-mod_left}
use myelon.Common.Word.{u64}
use myelon.Common.Result.{ok, err}
use myelon.Layout.Defs.{
  is_power_below, is_power_of_two, complement, align_up, header_size, MultiProcessError,
}
use myelon.Layout.Validate.{payload_align, payload_offset, make_contract}

-- The exponent of a power of two.
exponent : (k n : ℕ) → is_power_below k n ≡ true → (e : ℕ) × (e < k) × (n ≡ 2 ^ e)
unfolding is_power_below
exponent zero n h = absurd (ground arith)
exponent (suc k) n h = elim (Bool-cases (n == 2 ^ k)) [
  | inl same ↦ (k, omega arith, ==→eq n (2 ^ k) same)
  | inr other ↦ let (e, below, eq) = exponent k n (rw other at h) in (e, omega arith, eq)
]

mask_eq : (a b w : ℕ) → w ≡ a * b → 1 ≤ a → 1 ≤ b → w - 1 - (b - 1) ≡ (a - 1) * b
mask_eq zero b w e h k = absurd (omega arith)
mask_eq (suc a) b w e h k =
    let one : suc a * b ≡ a * b + b = suc-mul a b in
    let less : suc a - 1 ≡ a = omega arith in rw less (omega (arith, e, one))

-- The bits of `align_up`, for the alignment `2 ^ e`.
cleared : (e v : ℕ) → e < 64 → v < 2 ^ 64 → bit_and v (complement (2 ^ e - 1)) ≡ v / 2 ^ e * 2 ^ e
cleared e v small h =
    let pos_e : 1 ≤ 2 ^ e = one-le-pow e 2 (omega arith) in
    let whole : 2 ^ 64 ≡ 2 ^ (64 - e) * 2 ^ e =
      ap (λ (t : ℕ). 2 ^ t) (let sum : 64 ≡ 64 - e + e = omega arith in sum) ∙ pow_add (64 - e) e in
    let mask =
      mask_eq (2 ^ (64 - e)) (2 ^ e) (2 ^ 64) whole (one-le-pow (64 - e) 2 (omega arith)) pos_e in
    let high : v / 2 ^ e < 2 ^ (64 - e) = (div-lt_iff_lt-mul pos_e).1 (omega (arith, whole)) in
    let low : v % 2 ^ e < 2 ^ e = mod-lt v pos_e in
    ap (λ t. bit_and t (complement (2 ^ e - 1))) (sym (div-add-mod' v (2 ^ e)))
    ∙ ap (bit_and (v / 2 ^ e * 2 ^ e + v % 2 ^ e)) mask
    ∙ bit_and_clear e (64 - e) (v / 2 ^ e) (v % 2 ^ e) high low

pub align_up_lem :
    (value align : ℕ)
    → is_power_of_two align ≡ true
    → value + align < 2 ^ 64
    → align_up value align ≡ ok ((value + align - 1) / align * align)
unfolding align_up
align_up_lem value align p h =
    let (e, small, eq) = exponent 64 align p in
    let positive : (align == 0) ≡ false = ne→== align 0 (omega (arith, one-le-pow e 2)) in
    let plain : u64 (value + align - 1) ≡ value + align - 1 = omega arith in
    let bits : bit_and (value + align - 1) (complement (align - 1))
        ≡ (value + align - 1) / align * align =
      rw eq (cleared e (value + 2 ^ e - 1) small (omega (arith, eq))) in
    rw (positive, p, plain, bits) refl

-- The first multiple of the alignment behind the header.
abbrev pub offset_of : ℕ → ℕ
offset_of align = (header_size + align - 1) / align * align

pub offset_bounds :
    (align : ℕ)
    → 0 < align
    → (header_size ≤ offset_of align)
      × (offset_of align < header_size + align)
      × (offset_of align % align ≡ 0)
offset_bounds align h =
    let parts = div-add-mod' (header_size + align - 1) align in
    (
      omega (arith, parts, mod-lt (header_size + align - 1) h),
      omega (arith, parts, mod-lt (header_size + align - 1) h),
      mul-mod_left ((header_size + align - 1) / align) align,
    )

-- With an alignment that is a power of two, the contract puts the payload there, or there are too many
-- bytes for a `usize`.
pub make_contract-eq :
    (payload_size payload_alignment : ℕ)
    → is_power_of_two (payload_align payload_alignment) ≡ true
    → payload_align payload_alignment < 2 ^ 16
    → make_contract payload_size payload_alignment ≡ (
        if ltb (payload_size + offset_of (payload_align payload_alignment)) (2 ^ 64)
        then ok (record {
          payload_offset = offset_of (payload_align payload_alignment);
          total_size = payload_size + offset_of (payload_align payload_alignment);
        })
        else err MultiProcessError.size_overflow)
unfolding make_contract payload_offset
make_contract-eq payload_size payload_alignment p small =
    rw (align_up_lem header_size (payload_align payload_alignment) p (omega arith)) refl
