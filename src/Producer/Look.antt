-- ===== src/Producer/Look.antt =====
-- What a producer sees of one required consumer: a barrier that knows each of its consumers once loads
-- the consumer's own sequence, and no other.
use myelon.Common.{
  ◌≡◌, refl, ◌∙◌, ap, subst, Bool, true, false, Bool-cases, inl, inr, Option, none, some,
  if◌then◌else◌,
}
use myelon.Common.Int.{ℤ}
use myelon.Common.Text.{Text, ◌==ₜ◌, ==ₜ→eq, ==ₜ_refl}
use myelon.Barrier.{Barrier, View, sequence_name}
use myelon.Barrier.Create.{consumer_sequence}
use myelon.Barrier.Discovery.{discover_consumer_id}
use myelon.Barrier.Known.{Grows, discover_consumer_id-Grows}
use myelon.Barrier.Keys.{is_reachable}
use myelon.Barrier.Unique.{IsKnown, Grows-IsKnown, consumer_sequence_lem}
use myelon.Producer.Managed.{look}
use myelon.Liveness.Judge.{Behind}

abbrev pub Knows : Text → Barrier → Type 0
Knows base_name b = IsKnown b × (b.base_name ≡ base_name)

pub Grows-Knows :
    (base_name : Text) (b b' : Barrier) → Grows b b' → Knows base_name b → Knows base_name b'
Grows-Knows base_name b b' g (h, e) = (Grows-IsKnown b b' g h, g.base_eq ∙ e)

module _ (v : View) (base_name k : Text) where
  -- What a load of the consumer's own sequence returns.
  abbrev pub own : ℤ
  own = v.segments.load (sequence_name base_name k)

  abbrev only_own : Option ℤ → Option ℤ
  only_own none = none
  only_own (some _) = some own

  -- A look that has no other answer for the consumer than a load of its own sequence, or none.
  abbrev pub look_own : Text → Barrier → Option ℤ × Barrier
  look_own j b = (if j ==ₜ k then only_own (look v j b).0 else (look v j b).0, (look v j b).1)

  pub look-Knows : (j : Text) (b : Barrier) → Knows base_name b → Knows base_name (look v j b).1
  unfolding consumer_sequence
  look-Knows j b h =
      Grows-Knows base_name b (discover_consumer_id v.segments j b).1
        (discover_consumer_id-Grows v.segments j b) h

  only_own_lem : (c : Bool) (o : Option ℤ) → o ≡ (if c then some own else none) → o ≡ only_own o
  only_own_lem true o e = rw e refl
  only_own_lem false o e = rw e refl

  pub look-eq-look_own : (j : Text) (b : Barrier) → Knows base_name b → look v j b ≡ look_own j b
  look-eq-look_own j b (h, base_eq) = elim (Bool-cases (j ==ₜ k)) [
    | inr other ↦ rw other refl
    | inl same ↦
        let eq : j ≡ k = ==ₜ→eq j k same in
        let found = (consumer_sequence_lem v.segments k k b h).0 in
        let only : (look v k b).0 ≡ only_own (look v k b).0 =
          only_own_lem (is_reachable v.segments k b) (look v k b).0 (
            subst
              (λ n. (look v k b).0 ≡ (
                if is_reachable v.segments k b
                then some (v.segments.load (sequence_name n k))
                else none))
              base_eq found) in
        rw (eq, ==ₜ_refl k) (ap (λ o. (o, (look v k b).1)) only)
  ]

  pub look_own-Behind :
      (last q : ℤ) → Behind (some own) last q → (b : Barrier) → Behind (look_own k b).0 last q
  look_own-Behind last q stuck b = rw (==ₜ_refl k) (at_most (look v k b).0)
    where
      at_most : (o : Option ℤ) → Behind (only_own o) last q
      at_most none = tt
      at_most (some _) = stuck
