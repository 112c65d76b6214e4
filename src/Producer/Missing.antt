-- ===== src/Producer/Missing.antt =====
-- The required consumers that the startup of managed publishing does not find.
use myelon.Common.{
  ◌≡◌, refl, ◌∙◌, ap, arith, true, false, Bool-cases, inl, inr, List, [], ◌∷◌, if◌then◌else◌,
}
use myelon.Common.Text.{Text, ◌==ₜ◌, ==ₜ→eq, ==ₜ_refl}
use myelon.Barrier.{Barrier, View}
use myelon.Barrier.Defs.{contains_key}
use myelon.Barrier.Keys.{is_reachable, discover_consumer_id-Keys}
use myelon.Barrier.Known.{discover_consumer_id-Grows}
use myelon.Liveness.Defs.{missing_of}
use myelon.Producer.Managed.{find}

-- Those of the ids that a barrier does not know.
abbrev pub unknown_of : Barrier → List Text → List Text
unknown_of b [] = []
unknown_of b (k ∷ ids) =
    let rest = unknown_of b ids in if contains_key k b.consumer_cursors then rest else k ∷ rest

missing_of_keeps :
    (v : View) (j : Text) (ids : List Text) (b : Barrier)
    → contains_key j b.consumer_cursors ≡ true
    → contains_key j (missing_of (find v) ids b).1.consumer_cursors ≡ true
unfolding missing_of
missing_of_keeps v j [] b h = h
missing_of_keeps v j (k ∷ ids) b h =
    missing_of_keeps v j ids (find v k b).1
      ((discover_consumer_id-Keys v.segments k j b).1 ∙ rw h refl)

discover_leaves :
    (v : View) (k j : Text) (b : Barrier)
    → is_reachable v.segments j b ≡ false
    → is_reachable v.segments j (find v k b).1 ≡ false
discover_leaves v k j b h =
    rw
      (
        (discover_consumer_id-Keys v.segments k j b).1,
        (discover_consumer_id-Grows v.segments k b).base_eq,
      )
      (elim (Bool-cases (k ==ₜ j)) [
        | inl same ↦
            let eq : k ≡ j = ==ₜ→eq k j same in
            let none_there : is_reachable v.segments k b ≡ false = rw eq h in
            rw none_there (ground arith)
        | inr other ↦ rw other (ground arith)
      ])

missing_of_leaves :
    (v : View) (j : Text) (ids : List Text) (b : Barrier)
    → is_reachable v.segments j b ≡ false
    → contains_key j (missing_of (find v) ids b).1.consumer_cursors ≡ false
unfolding missing_of
missing_of_leaves v j [] b h = ground arith
missing_of_leaves v j (k ∷ ids) b h =
    missing_of_leaves v j ids (find v k b).1 (discover_leaves v k j b h)

pub missing_of-eq-unknown_of :
    (v : View) (ids : List Text) (b : Barrier)
    → (missing_of (find v) ids b).0 ≡ unknown_of (missing_of (find v) ids b).1 ids
unfolding missing_of
missing_of-eq-unknown_of v [] b = refl
missing_of-eq-unknown_of v (k ∷ ids) b =
    let keys = discover_consumer_id-Keys v.segments k k b in
    let rest = missing_of-eq-unknown_of v ids (find v k b).1 in
    elim (Bool-cases (is_reachable v.segments k b)) [
      | inl there ↦
          let known : contains_key k (find v k b).1.consumer_cursors ≡ true =
            keys.1 ∙ rw (there, ==ₜ_refl k) (ground arith) in
          rw (keys.0 ∙ there, missing_of_keeps v k ids (find v k b).1 known) rest
      | inr missing ↦
          rw
            (
              keys.0 ∙ missing,
              missing_of_leaves v k ids (find v k b).1 (discover_leaves v k k b missing),
            )
            (ap (λ ks. k ∷ ks) rest)
    ]
