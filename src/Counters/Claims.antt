-- ===== src/Counters/Claims.antt =====
-- Processes that register counters at the same time: the two updates of `slot_count` in `register`,
-- interleaved. `pending` counts those between the update that went too far and the one that takes it
-- back; at most 2 ^ 31 are there at once.
use myelon.Common.{
  ℕ, zero, suc, ◌+◌, ◌-◌, ◌^◌, ◌≤◌, ◌<◌, ◌≡◌, refl, ap₂, arith, List, [], ◌∷◌, Bool-cases, ltb,
  ltb→lt, ltb→ge, inl, inr, ◌⊎◌, leb, leb→le, leb→gt, Option-cases, none, some, get_elem?,
}
use myelon.Common.Word.{u32}
use myelon.Counters.Defs.{max_counter_slots, CountersFile, register}

pub record Claims : Type 0 where
  pub slot_count : ℕ
  pub granted : List ℕ
  pub pending : ℕ

pub data Claim : Claims → Claims → Type 0 where
  claim :
      (c : Claims)
      → c.slot_count < max_counter_slots
      → Claim c
          (record c { slot_count = u32 (c.slot_count + 1); granted = c.slot_count ∷ c.granted })
  overrun :
      (c : Claims)
      → max_counter_slots ≤ c.slot_count
      → c.pending < 2 ^ 31
      → Claim c (record c { slot_count = u32 (c.slot_count + 1); pending = c.pending + 1 })
  roll_back :
      (c : Claims)
      → 0 < c.pending
      → Claim c (record c { slot_count = u32 (c.slot_count + 2 ^ 32 - 1); pending = c.pending - 1 })

pub data Reach (c : Claims) : Claims → Type 0 where
  here : Reach c c
  next : {d e : Claims} → Reach c d → Claim d e → Reach c e

abbrev pub unclaimed : Claims
unclaimed = record { slot_count = 0; granted = []; pending = 0 }

-- The numbers below `n`, the last first.
abbrev pub below : ℕ → List ℕ
below zero = []
below (suc n) = n ∷ below n

pub record IsClaimed (c : Claims) : Type 0 where
  pub handed : ℕ
  pub granted_eq : c.granted ≡ below handed
  pub handed_le : handed ≤ max_counter_slots
  pub count_eq : c.slot_count ≡ handed + c.pending
  pub pending_le : c.pending ≤ 2 ^ 31
  pub full : 0 < c.pending → handed ≡ max_counter_slots

nothing_pending : (c : Claims) → IsClaimed c → c.slot_count < max_counter_slots → c.pending ≡ 0
nothing_pending c i h = elim (Bool-cases (ltb 0 c.pending)) [
  | inl some_pending ↦ absurd (omega (arith, i.full (ltb→lt 0 c.pending some_pending), i.count_eq))
  | inr no_more ↦ omega (arith, ltb→ge 0 c.pending no_more)
]

all_handed :
    (c : Claims) (i : IsClaimed c) → max_counter_slots ≤ c.slot_count → i.handed ≡ max_counter_slots
all_handed c i h = elim (Bool-cases (ltb 0 c.pending)) [
  | inl some_pending ↦ i.full (ltb→lt 0 c.pending some_pending)
  | inr no_more ↦ omega (arith, ltb→ge 0 c.pending no_more, i.count_eq, i.handed_le)
]

Claim-IsClaimed : {c d : Claims} → Claim c d → IsClaimed c → IsClaimed d
Claim-IsClaimed (claim c h) i =
    let none_pending : c.pending ≡ 0 = nothing_pending c i h in
    let index : c.slot_count ≡ i.handed = omega (arith, i.count_eq) in
    record {
      handed = suc i.handed;
      granted_eq = ap₂ (λ (n : ℕ) (xs : List ℕ). n ∷ xs) index i.granted_eq;
      handed_le = omega arith;
      count_eq = omega arith;
      pending_le = i.pending_le;
      full = λ some_pending. absurd (omega arith);
    }
Claim-IsClaimed (overrun c h k) i = record {
  handed = i.handed;
  granted_eq = i.granted_eq;
  handed_le = i.handed_le;
  count_eq = omega (arith, i.count_eq, i.handed_le);
  pending_le = omega arith;
  full = λ _. all_handed c i h;
}
Claim-IsClaimed (roll_back c h) i = record {
  handed = i.handed;
  granted_eq = i.granted_eq;
  handed_le = i.handed_le;
  count_eq = omega (arith, i.count_eq, i.handed_le, i.pending_le);
  pending_le = omega (arith, i.pending_le);
  full = λ _. i.full h;
}

unclaimed-IsClaimed : IsClaimed unclaimed
unclaimed-IsClaimed = record {
  handed = 0;
  granted_eq = refl;
  handed_le = omega arith;
  count_eq = omega arith;
  pending_le = omega arith;
  full = λ h. absurd (omega arith);
}

-- However the two updates of concurrent calls of `register` interleave, from a fresh file on: the slots
-- that are handed out are the first ones, each to one call, and no more than 62; the count is their
-- number and the updates still to be taken back, and there are none of these before all 62 are out.
pub Reach-IsClaimed : {c : Claims} → Reach unclaimed c → IsClaimed c
Reach-IsClaimed here = unclaimed-IsClaimed
Reach-IsClaimed (next r step) = Claim-IsClaimed step (Reach-IsClaimed r)

-- What a file that no call is at work on has claimed.
abbrev pub claims_of : CountersFile → List ℕ → Claims
claims_of file granted = record {
  slot_count = file.header.slot_count;
  granted = granted;
  pending = 0;
}

-- A call of `register` with no other at work takes exactly these steps of the relation: with fewer than
-- 62 slots counted it claims the first free one and hands it out; else it overruns, rolls back, and
-- hands out none.
pub register-Claim :
    (id flags : ℕ) (label : List ℕ) (file : CountersFile) (granted : List ℕ)
    → (let (handle, after) = register id flags label file in
        let count = file.header.slot_count in
        ((count < max_counter_slots)
          × (handle ≡ some count)
          × Claim (claims_of file granted) (claims_of after (count ∷ granted)))
        ⊎ ((max_counter_slots ≤ count)
            × (handle ≡ none)
            × (over : Claims) × Claim (claims_of file granted) over
            × (over.pending ≡ 1)
            × Claim over (claims_of after granted)))
unfolding register
register-Claim id flags label file granted =
    elim (Bool-cases (leb max_counter_slots file.header.slot_count)) [
      | inl full ↦
          let far = leb→le max_counter_slots file.header.slot_count full in
          let over : Claims = record {
            slot_count = u32 (file.header.slot_count + 1);
            granted = granted;
            pending = 1;
          } in
          rw full (
            inr (
              far,
              refl,
              over,
              overrun (claims_of file granted) far (omega arith),
              refl,
              roll_back over (omega arith),
            ))
      | inr free ↦
          let near = leb→gt max_counter_slots file.header.slot_count free in
          elim (Option-cases (get_elem? file.slots file.header.slot_count)) [
            | inl missing ↦
                rw (free, missing) (inl (near, refl, claim (claims_of file granted) near))
            | inr (slot, found) ↦
                rw (free, found) (inl (near, refl, claim (claims_of file granted) near))
          ]
    ]
