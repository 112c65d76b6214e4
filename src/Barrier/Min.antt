-- ===== src/Barrier/Min.antt =====
-- The gating sequence: the minimum over the known consumers, or a fallback.
use myelon.Common.{
  ℕ, suc, ◌∙◌, ap, subst, get_elem?, ◌≡◌, refl, sym, arith, Bool, false, ◌&&◌, Option, none, some,
  List, [], ◌∷◌, if◌then◌else◌, All, length, Bool-cases, inl, inr, ◌⊎◌,
}
use myelon.Common.Int.{ℤ, negsuc, leb_ℤ, min_ℤ, ◌≤ℤ◌, ◌<ℤ◌}
use myelon.Common.Word.{i64_max}
use myelon.Common.Text.{Text}
use myelon.Barrier.Defs.{disabled, enabled, Segments, Barrier, View}
use myelon.Barrier.Discovery.{discover_consumers}

abbrev pub eq_ℤ : ℤ → ℤ → Bool
eq_ℤ a b = leb_ℤ a b && leb_ℤ b a

-- The loop of `discovered_min_sequence`, over the values that its loads return.
unfoldable pub min_loop : ℤ → List ℤ → ℤ
min_loop min_sequence [] = min_sequence
min_loop min_sequence (sequence ∷ rest) =
    min_loop (if leb_ℤ (negsuc 0) sequence then min_ℤ min_sequence sequence else min_sequence) rest

abbrev pub loads : Segments → List (Text × Text) → List ℤ
loads segments [] = []
loads segments ((consumer_id, cursor) ∷ rest) = segments.load cursor ∷ loads segments rest

unfoldable pub discovered_min_sequence : Segments → Barrier → Option ℤ
unfolding min_loop
discovered_min_sequence segments b =
    let min_sequence = min_loop i64_max (loads segments b.consumer_cursors) in
    if eq_ℤ min_sequence i64_max then none else some min_sequence

unfoldable pub min_sequence_fallback : Segments → Barrier → ℤ
min_sequence_fallback segments b = elim b.discovery_mode [
  | enabled _ _ _ ↦ negsuc 0
  | disabled ↦ elim b.producer_sequence [ some cursor ↦ segments.load cursor | none ↦ negsuc 0 ]
]

-- The discovery that gating and counting start with.
unfoldable pub refresh : View → Barrier → Barrier
refresh v b = elim b.discovery_mode [
  | disabled ↦ b
  | enabled _ _ _ ↦ if b.discovery_completed then b else discover_consumers v b
]

unfoldable pub get_min_consumer_sequence : View → Barrier → ℤ × Barrier
unfolding refresh discovered_min_sequence min_sequence_fallback
get_min_consumer_sequence v b =
    let b' = refresh v b in
    let sequence : ℤ = elim (discovered_min_sequence v.segments b') [
      | some min_sequence ↦ min_sequence
      | none ↦ min_sequence_fallback v.segments b'
    ] in
    (sequence, b')

unfoldable pub best_effort_consumer_count : View → Barrier → ℕ × Barrier
unfolding refresh
best_effort_consumer_count v b = let b' = refresh v b in (length b'.consumer_cursors, b')

min_loop-le : (m : ℤ) (zs : List ℤ) → min_loop m zs ≤ℤ m
unfolding min_loop
min_loop-le m [] = omega arith
min_loop-le m (z ∷ zs) =
    ground (arith, min_loop-le (if leb_ℤ (negsuc 0) z then min_ℤ m z else m) zs)

min_loop-All :
    (m : ℤ) (zs : List ℤ) → All (λ z. negsuc 0 ≤ℤ z) zs → All (λ z. min_loop m zs ≤ℤ z) zs
unfolding min_loop
min_loop-All m [] h = tt
min_loop-All m (z ∷ zs) h = (
  ground (arith, min_loop-le (if leb_ℤ (negsuc 0) z then min_ℤ m z else m) zs),
  min_loop-All (if leb_ℤ (negsuc 0) z then min_ℤ m z else m) zs h.1,
)

-- It is the start value, or one of the values.
min_loop-attained :
    (m : ℤ) (zs : List ℤ)
    → (min_loop m zs ≡ m) ⊎ ((i : ℕ) × (get_elem? zs i ≡ some (min_loop m zs)))
unfolding min_loop
min_loop-attained m [] = inl refl
min_loop-attained m (z ∷ zs) =
    elim (min_loop-attained (if leb_ℤ (negsuc 0) z then min_ℤ m z else m) zs) [
      | inr (i, e) ↦ inr (suc i, e)
      | inl e ↦ elim (Bool-cases (leb_ℤ (negsuc 0) z)) [
        | inl small ↦ elim (Bool-cases (leb_ℤ m z)) [
          | inl keep ↦ inl (e ∙ rw (small, keep) refl)
          | inr take ↦ inr (0, ap some (sym (e ∙ rw (small, take) refl)))
        ]
        | inr big ↦ inl (e ∙ rw big refl)
      ]
    ]

-- What the gating sequence is, for cursors that hold sequences.
pub record Gates (zs : List ℤ) (m : ℤ) : Type 0 where
  pub bound : All (λ z. m ≤ℤ z) zs
  pub attained : (i : ℕ) × (get_elem? zs i ≡ some m)

min_loop-Gates :
    (z : ℤ) (zs : List ℤ)
    → All (λ z. negsuc 0 ≤ℤ z) (z ∷ zs)
    → All (λ z. z <ℤ i64_max) (z ∷ zs)
    → (eq_ℤ (min_loop i64_max (z ∷ zs)) i64_max ≡ false)
      × Gates (z ∷ zs) (min_loop i64_max (z ∷ zs))
min_loop-Gates z zs low high =
    let bound : All (λ y. min_loop i64_max (z ∷ zs) ≤ℤ y) (z ∷ zs) =
      min_loop-All i64_max (z ∷ zs) low in
    let below : min_loop i64_max (z ∷ zs) <ℤ i64_max = omega (arith, bound.0, high.0) in
    (
      ground arith,
      record {
        bound = bound;
        attained = elim (min_loop-attained i64_max (z ∷ zs)) [
          | inl e ↦ absurd (not_max (min_loop i64_max (z ∷ zs)) below e)
          | inr found ↦ found
        ];
      },
    )
  where
    not_max : (m : ℤ) → m <ℤ i64_max → m ≡ i64_max → ⊥
    not_max m h e = ground arith

-- A minimum that was found is the gating sequence.
min_found :
    (v : View) (b : Barrier) (m : ℤ)
    → discovered_min_sequence v.segments (refresh v b) ≡ some m
    → (get_min_consumer_sequence v b).0 ≡ m
unfolding get_min_consumer_sequence
min_found v b m e =
    ap
      (λ o. elim o [
        | some min_sequence ↦ min_sequence
        | none ↦ min_sequence_fallback v.segments (refresh v b)
      ])
      e

unfoldable discovered : List ℤ → Option ℤ
discovered l = if eq_ℤ (min_loop i64_max l) i64_max then none else some (min_loop i64_max l)

min_known :
    (segments : Segments) (b : Barrier) (l : List ℤ)
    → loads segments b.consumer_cursors ≡ l
    → eq_ℤ (min_loop i64_max l) i64_max ≡ false
    → discovered_min_sequence segments b ≡ some (min_loop i64_max l)
unfolding discovered_min_sequence discovered
min_known segments b l e h = ap discovered e ∙ rw h refl

-- With at least one known consumer, each of whose cursors holds a sequence, the gating sequence is
-- the least of the cursors: a lower bound of all of them that one of them attains.
pub get_min_consumer_sequence-Gates :
    (v : View) (b : Barrier) (z : ℤ) (zs : List ℤ)
    → loads v.segments (refresh v b).consumer_cursors ≡ z ∷ zs
    → All (λ z. negsuc 0 ≤ℤ z) (z ∷ zs)
    → All (λ z. z <ℤ i64_max) (z ∷ zs)
    → Gates (z ∷ zs) (get_min_consumer_sequence v b).0
get_min_consumer_sequence-Gates v b z zs e low high =
    let (ne, gates) = min_loop-Gates z zs low high in
    let found =
      min_found v b (min_loop i64_max (z ∷ zs))
        (min_known v.segments (refresh v b) (z ∷ zs) e ne) in
    subst (Gates (z ∷ zs)) (sym found) gates
