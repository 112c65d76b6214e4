-- ===== src/Counters/Tests.antt =====
-- A fresh file, and one with a counter.
use myelon.Common.{
  ◌<◌, ◌≤◌, ◌+◌, ◌≡◌, ◌⊎◌, refl, arith, none, some, [], ◌∷◌, ◌++◌, replicate, get_elem?,
}
use myelon.Common.Text.{codes}
use myelon.Counters.Defs.{CountersFile, CounterSlot, init, register, snapshot, zeroed}
use myelon.Counters.Claims.{
  Claims, Reach, here, next, claim, unclaimed, claims_of, IsClaimed, Reach-IsClaimed,
  register-Claim, Claim,
}
use myelon.Counters.Snapshot.{entry, register-snapshot}

abbrev fresh : CountersFile
fresh = init (replicate 62 zeroed)

abbrev two : Claims
two = record { slot_count = 2; granted = 1 ∷ 0 ∷ []; pending = 0 }

two_claims : Reach unclaimed two
two_claims =
    next (next here (claim unclaimed (omega arith)))
      (claim (record { slot_count = 1; granted = 0 ∷ []; pending = 0 }) (omega arith))

Reach-IsClaimed_example : IsClaimed two
Reach-IsClaimed_example = Reach-IsClaimed two_claims

register-Claim_example :
    (let (handle, after) = register 16 2 (codes "events_published") fresh in
      ((0 < 62) × (handle ≡ some 0) × Claim (claims_of fresh []) (claims_of after (0 ∷ [])))
      ⊎ ((62 ≤ 0)
          × (handle ≡ none)
          × (over : Claims) × Claim (claims_of fresh []) over
          × (over.pending ≡ 1)
          × Claim over (claims_of after [])))
unfolding init
register-Claim_example = register-Claim 16 2 (codes "events_published") fresh []

register-snapshot_example :
    ((fresh.header.slot_count ≡ 62)
      × (register 16 2 (codes "events_published") fresh ≡ (none, fresh)))
    ⊎ ((after : CountersFile) × (slot : CounterSlot) × (get_elem? fresh.slots
            fresh.header.slot_count
          ≡ some slot)
        × (register 16 2 (codes "events_published") fresh ≡ (some fresh.header.slot_count, after))
        × (after.header.slot_count ≡ fresh.header.slot_count + 1)
        × (snapshot (λ bytes. bytes) after
            ≡ snapshot (λ bytes. bytes) fresh
              ++ (entry (λ bytes. bytes) 16 2 (codes "events_published") slot.value ∷ [])))
unfolding init
register-snapshot_example =
    register-snapshot (λ bytes. bytes) 16 2 (codes "events_published") fresh refl (omega arith)
      (omega arith)
