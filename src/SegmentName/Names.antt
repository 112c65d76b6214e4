-- ===== src/SegmentName/Names.antt =====
-- What the generated names are like.
use myelon.Common.{
  leb, ==→eq, ==→ne, ◌&&◌, ◌||◌, ℕ, zero, suc, ◌+◌, ◌-◌, ◌*◌, ◌/◌, ◌%◌, ◌^◌, ◌≤◌, ◌<◌, ◌≡◌, ◌≢◌,
  refl, sym, ap, ◌∙◌, arith, Bool, true, false, Bool-cases, inl, inr, [], ◌∷◌, ◌++◌, ltb, ◌==◌,
  length, take, drop, drop-append, All, length-append, length-take, if◌then◌else◌,
}
use native.Mathlib.Nat.{
  pow-suc, mod-lt, one-le-pow, div-add-mod', add-mul-mod_self_right, mod-eq_of_lt, mul_assoc,
}
use myelon.Common.Text.{Text}
use myelon.Naming.Layout.{filtered, is_ascii_alphanumeric}
use myelon.SegmentName.Defs.{
  digit_at, encode_loop, encode_base36, short_prefix, suffix_seed, portable_shm_segment_name,
}

-- Reading base 36.
abbrev pub digit_value : ℕ → ℕ
digit_value c = if ltb c 58 then c - 48 else c - 87

unfoldable pub decode : ℕ → Text → ℕ
decode value [] = value
decode value (c ∷ text) = decode (36 * value + digit_value c) text

and_parts : (a b : Bool) → (a && b) ≡ true → (a ≡ true) × (b ≡ true)
and_parts true true h = (refl, refl)
and_parts true false h = (refl, h)
and_parts false b h = (h, absurd (cc))

-- A digit, or a letter in lower case.
abbrev pub is_portable : ℕ → Bool
is_portable c = leb 48 c && leb c 57 || leb 97 c && leb c 122

abbrev pub Portable : ℕ → Type 0
Portable c = is_portable c ≡ true

unfoldable digits_below : ℕ → Bool
unfolding digit_at
digits_below zero = true
digits_below (suc n) = (digit_value (digit_at n) == n && is_portable (digit_at n)) && digits_below n

digits_table : digits_below 36 ≡ true
unfolding digits_below
digits_table = refl

digit_in :
    (n d : ℕ)
    → digits_below n ≡ true
    → d < n
    → (digit_value (digit_at d) ≡ d) × Portable (digit_at d)
unfolding digits_below
digit_in zero d h lt = absurd (omega arith)
digit_in (suc n) d h lt = elim (Bool-cases (d == n)) [
  | inl same ↦
      let e : d ≡ n = ==→eq d n same in
      let here =
        and_parts (digit_value (digit_at n) == n && is_portable (digit_at n)) (digits_below n) h in
      let both = and_parts (digit_value (digit_at n) == n) (is_portable (digit_at n)) here.0 in
      rw e (==→eq (digit_value (digit_at n)) n both.0, both.1)
  | inr other ↦
      digit_in n d
        (and_parts (digit_value (digit_at n) == n && is_portable (digit_at n)) (digits_below n) h).1
        (omega (arith, ==→ne d n other, lt))
]

digit_at_lem :
    (value : ℕ)
    → (digit_value (digit_at (value % 36)) ≡ value % 36) × Portable (digit_at (value % 36))
digit_at_lem value = digit_in 36 (value % 36) digits_table (omega arith)

mod_digit : (value p : ℕ) → 0 < p → value % (p * 36) ≡ 36 * (value / 36 % p) + value % 36
mod_digit value p h =
    let q = value / 36 in
    let low : 36 * (q % p) + value % 36 < p * 36 = omega (arith, mod-lt q h) in
    let parts : value ≡ 36 * (q % p) + value % 36 + q / p * (p * 36) =
      omega (arith, div-add-mod' value 36, div-add-mod' q p, mul_assoc (q / p) p 36) in
    ap (λ t. t % (p * 36)) parts
    ∙ add-mul-mod_self_right (36 * (q % p) + value % 36) (q / p) (p * 36)
    ∙ mod-eq_of_lt low

decode-encode_loop :
    (width value : ℕ) (rest : Text)
    → decode 0 (encode_loop width value rest) ≡ decode (value % 36 ^ width) rest
unfolding encode_loop decode
decode-encode_loop zero value rest = ap (λ n. decode n rest) (omega arith)
decode-encode_loop (suc width) value rest =
    (decode-encode_loop width (value / 36) (digit_at (value % 36) ∷ rest)
      ∙ ap (λ n. decode n rest)
          (let step : 36 * (value / 36 % 36 ^ width) + digit_value (digit_at (value % 36))
                ≡ value % 36 ^ suc width =
              rw ((digit_at_lem value).0, pow-suc 36 width)
                (sym (mod_digit value (36 ^ width) (one-le-pow width 36 (omega arith)))) in
            step))

encode_loop-Portable :
    (width value : ℕ) (rest : Text)
    → All Portable rest
    → All Portable (encode_loop width value rest)
unfolding encode_loop
encode_loop-Portable zero value rest h = h
encode_loop-Portable (suc width) value rest h =
    encode_loop-Portable width (value / 36) (digit_at (value % 36) ∷ rest)
      ((digit_at_lem value).1, h)

length-encode_loop :
    (width value : ℕ) (rest : Text) → length (encode_loop width value rest) ≡ width + length rest
unfolding encode_loop
length-encode_loop zero value rest = omega arith
length-encode_loop (suc width) value rest =
    omega (arith, length-encode_loop width (value / 36) (digit_at (value % 36) ∷ rest))

-- A value in base 36 has as many characters as slots, all of them digits or letters in lower case, and is
-- read again as what it is up to multiples of 36 ^ width.
pub encode_base36_lem :
    (value width : ℕ)
    → (length (encode_base36 value width) ≡ width)
      × All Portable (encode_base36 value width)
      × (decode 0 (encode_base36 value width) ≡ value % 36 ^ width)
unfolding encode_base36
encode_base36_lem value width = (
  omega (arith, length-encode_loop width value []),
  encode_loop-Portable width value [] tt,
  unfold decode in decode-encode_loop width value [],
)

filtered-Portable : (text : Text) → All Portable (filtered text)
unfolding filtered
filtered-Portable [] = tt
filtered-Portable (c ∷ text) = elim (Bool-cases (is_ascii_alphanumeric c)) [
  | inl kept ↦ rw kept (ground (arith), filtered-Portable text)
  | inr dropped ↦ rw dropped (filtered-Portable text)
]

All-take : (n : ℕ) (text : Text) → All Portable text → All Portable (take n text)
All-take zero text h = tt
All-take (suc n) [] h = tt
All-take (suc n) (c ∷ text) h = (h.0, All-take n text h.1)

All-append : (xs ys : Text) → All Portable xs → All Portable ys → All Portable (xs ++ ys)
All-append [] ys h k = k
All-append (x ∷ xs) ys h k = (h.0, All-append xs ys h.1 k)

short_prefix_lem :
    (prefix : Text)
    → (1 ≤ length (short_prefix prefix))
      × (length (short_prefix prefix) ≤ 6)
      × All Portable (short_prefix prefix)
unfolding short_prefix
short_prefix_lem prefix = elim (Bool-cases (length (take 6 (filtered prefix)) == 0)) [
  | inl empty ↦ rw empty (omega arith, omega arith, (refl, tt))
  | inr some_kept ↦ rw some_kept (
    omega (arith, ==→ne (length (take 6 (filtered prefix))) 0 some_kept),
    omega (arith, length-take 6 (filtered prefix)),
    All-take 6 (filtered prefix) (filtered-Portable prefix),
  )
]

suffix_seed-lt : (time pid counter : ℕ) → suffix_seed time pid counter < 36 ^ 8
unfolding suffix_seed
suffix_seed-lt time pid counter = omega arith

-- Whatever the prefix, the clock, the process id and the counter: a generated name has 9 to 14 characters,
-- all of them digits or letters in lower case.
pub portable_shm_segment_name_lem :
    (time pid counter : ℕ) (prefix : Text)
    → (9 ≤ length (portable_shm_segment_name time pid counter prefix).0)
      × (length (portable_shm_segment_name time pid counter prefix).0 ≤ 14)
      × All Portable (portable_shm_segment_name time pid counter prefix).0
unfolding portable_shm_segment_name
portable_shm_segment_name_lem time pid counter prefix =
    let start = short_prefix_lem prefix in
    let end = encode_base36_lem (suffix_seed time pid counter) 8 in
    let size =
      length-append (short_prefix prefix) (encode_base36 (suffix_seed time pid counter) 8) in
    (
      omega (arith, size, start, end),
      omega (arith, size, start, end),
      All-append (short_prefix prefix) (encode_base36 (suffix_seed time pid counter) 8) start.2
          end.1,
    )

-- Two calls for one prefix whose seeds differ, up to the modulus, generate different names.
pub portable_shm_segment_name-ne :
    (time pid counter time' pid' counter' : ℕ) (prefix : Text)
    → suffix_seed time pid counter ≢ suffix_seed time' pid' counter'
    → (portable_shm_segment_name time pid counter prefix).0
      ≢ (portable_shm_segment_name time' pid' counter' prefix).0
unfolding portable_shm_segment_name
portable_shm_segment_name-ne time pid counter time' pid' counter' prefix differ same =
    let seed = suffix_seed time pid counter in
    let seed' = suffix_seed time' pid' counter' in
    let tails : encode_base36 seed 8 ≡ encode_base36 seed' 8 =
      sym (drop-append (short_prefix prefix) (encode_base36 seed 8))
      ∙ ap (drop (length (short_prefix prefix))) same
      ∙ drop-append (short_prefix prefix) (encode_base36 seed' 8) in
    let values : seed % 36 ^ 8 ≡ seed' % 36 ^ 8 =
      sym (encode_base36_lem seed 8).2 ∙ ap (decode 0) tails ∙ (encode_base36_lem seed' 8).2 in
    differ
      (omega (arith, values, suffix_seed-lt time pid counter, suffix_seed-lt time' pid' counter'))
