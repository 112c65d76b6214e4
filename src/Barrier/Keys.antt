-- ===== src/Barrier/Keys.antt =====
-- The ids that a barrier knows, before and after the explicit discovery of one.
use myelon.Common.{
  ◌≡◌, refl, arith, Bool, true, Bool-cases, inl, inr, ◌&&◌, ◌||◌, List, [], ◌∷◌, ◌++◌,
}
use myelon.Common.Text.{Text, ◌==ₜ◌, ==ₜ→eq}
use myelon.Barrier.Defs.{Segments, Barrier, contains_key, sequence_name}
use myelon.Barrier.Discovery.{discover_consumer_id}

pub contains_key-append :
    (k j c : Text) (m : List (Text × Text))
    → contains_key k (m ++ ((j, c) ∷ [])) ≡ (contains_key k m || j ==ₜ k)
unfolding contains_key
contains_key-append k j c [] = ground arith
contains_key-append k j c ((i, d) ∷ m) = ground (arith, contains_key-append k j c m)

pub contains_key_self :
    (k j : Text) (m : List (Text × Text))
    → contains_key k m ≡ true
    → contains_key j m ≡ (contains_key j m || k ==ₜ j)
contains_key_self k j m known = elim (Bool-cases (k ==ₜ j)) [
  | inl same ↦
      let eq : k ≡ j = ==ₜ→eq k j same in
      let there : contains_key j m ≡ true = rw (← eq) known in rw there refl
  | inr other ↦ ground arith
]

-- Whether a consumer is known, or can be.
abbrev pub is_reachable : Segments → Text → Barrier → Bool
is_reachable segments k b =
    contains_key k b.consumer_cursors || segments.opens (sequence_name b.base_name k)

pub discover_consumer_id-Keys :
    (segments : Segments) (k j : Text) (b : Barrier)
    → ((discover_consumer_id segments k b).0 ≡ is_reachable segments k b)
      × (contains_key j (discover_consumer_id segments k b).1.consumer_cursors
          ≡ (contains_key j b.consumer_cursors || (is_reachable segments k b && k ==ₜ j)))
unfolding discover_consumer_id
discover_consumer_id-Keys segments k j b = elim (Bool-cases (contains_key k b.consumer_cursors)) [
  | inl known ↦ rw known (refl, contains_key_self k j b.consumer_cursors known)
  | inr new ↦ elim (Bool-cases (segments.opens (sequence_name b.base_name k))) [
    | inr missing ↦ rw (new, missing) (refl, ground arith)
    | inl there ↦
        rw (new, there)
          (refl, contains_key-append j k (sequence_name b.base_name k) b.consumer_cursors)
  ]
]
