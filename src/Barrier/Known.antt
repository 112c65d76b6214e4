-- ===== src/Barrier/Known.antt =====
-- What discovery keeps: consumers are only added, each once, under the segment of its own id.
use myelon.Common.{
  ℕ, zero, suc, ◌+◌, ◌-◌, ◌≡◌, ◌∙◌, refl, Bool, true, false, Bool-cases, inl, inr, ◌||◌, ltb, leb,
  ◌==◌, min, max, if◌then◌else◌, Option, none, some, Option-cases, List, [], ◌∷◌, ◌++◌, length,
}
use myelon.Common.Text.{Text}
use myelon.Barrier.Defs.{
  disabled, enabled, Segments, Barrier, View, contains_key, attach_consumer, sequence_name,
  uses_registered_auto_ids, auto_consumer_id,
}
use myelon.Barrier.Discovery.{
  attach_each, attach_pids, prefix_name, pid_name, discover_with_consumer_prefix,
  discover_with_registered_slots, discover_with_pid_based_scanning, find_registration,
  clamp_registered, find_by, complete, discover_consumers, discover_consumer_id,
  discovery_scan_plan,
}
use myelon.Barrier.Min.{refresh}

-- A map grows by ids that it does not hold, each with the name of its own sequence.
pub data Extends (base_name : Text) : List (Text × Text) → List (Text × Text) → Type 0 where
  same : (m : List (Text × Text)) → Extends base_name m m
  also :
      (m m' : List (Text × Text)) (k : Text)
      → Extends base_name m m'
      → contains_key k m' ≡ false
      → Extends base_name m (m' ++ ((k, sequence_name base_name k) ∷ []))

pub Extends-trans :
    {base_name : Text} (m m' m'' : List (Text × Text))
    → Extends base_name m m'
    → Extends base_name m' m''
    → Extends base_name m m''
Extends-trans m m' _ h (same _) = h
Extends-trans m m' _ h (also _ n k r new) = also m n k (Extends-trans m m' n h r) new

attach_consumer-Extends :
    (segments : Segments) (base_name k : Text) (m : List (Text × Text))
    → Extends base_name m (attach_consumer segments base_name k m)
unfolding attach_consumer
attach_consumer-Extends segments base_name k m = elim (Bool-cases (contains_key k m)) [
  | inl known ↦ rw known (same m)
  | inr new ↦ elim (Bool-cases (segments.opens (sequence_name base_name k))) [
    | inr missing ↦ rw (new, missing) (same m)
    | inl there ↦ rw (new, there) (also m m k (same m) new)
  ]
]

attach_each-Extends :
    (segments : Segments) (base_name : Text) (name : ℕ → Text) (from count : ℕ)
    (m : List (Text × Text))
    → Extends base_name m (attach_each segments base_name name from count m)
unfolding attach_each
attach_each-Extends segments base_name name from zero m = same m
attach_each-Extends segments base_name name from (suc count) m =
    let m' = attach_consumer segments base_name (name from) m in
    Extends-trans m m' (attach_each segments base_name name (from + 1) count m')
      (attach_consumer-Extends segments base_name (name from) m)
      (attach_each-Extends segments base_name name (from + 1) count m')

attach_pids-Extends :
    (segments : Segments) (base_name : Text) (max_consumers pid count : ℕ) (m : List (Text × Text))
    → Extends base_name m (attach_pids segments base_name max_consumers pid count m)
unfolding attach_pids
attach_pids-Extends segments base_name max_consumers pid zero m = same m
attach_pids-Extends segments base_name max_consumers pid (suc count) m =
    let m' = attach_each segments base_name (pid_name pid) 0 max_consumers m in
    Extends-trans m m' (attach_pids segments base_name max_consumers (pid + 1) count m')
      (attach_each-Extends segments base_name (pid_name pid) 0 max_consumers m)
      (attach_pids-Extends segments base_name max_consumers (pid + 1) count m')

-- The barrier keeps its name while its map grows.
pub record Grows (b b' : Barrier) : Type 0 where
  pub base_eq : b'.base_name ≡ b.base_name
  pub extends : Extends b.base_name b.consumer_cursors b'.consumer_cursors

pub Grows-refl : (b : Barrier) → Grows b b
Grows-refl b = record { base_eq = refl; extends = same b.consumer_cursors }

pub Grows-trans : (b b' b'' : Barrier) → Grows b b' → Grows b' b'' → Grows b b''
Grows-trans b b' b'' h k = record {
  base_eq = k.base_eq ∙ h.base_eq;
  extends =
      Extends-trans b.consumer_cursors b'.consumer_cursors b''.consumer_cursors h.extends
        (rw (← h.base_eq) k.extends);
}

prefix-Grows :
    (v : View) (prefix : Text) (b : Barrier) → Grows b (discover_with_consumer_prefix v prefix b)
unfolding discover_with_consumer_prefix
prefix-Grows v prefix b = record {
  base_eq = refl;
  extends =
      attach_each-Extends v.segments b.base_name (prefix_name prefix) 0
        (elim b.discovery_mode [ disabled ↦ 16 | enabled m _ _ ↦ m ]) b.consumer_cursors;
}

pids-Grows : (v : View) (b : Barrier) → Grows b (discover_with_pid_based_scanning v b)
unfolding discover_with_pid_based_scanning
pids-Grows v b = record {
  base_eq = refl;
  extends =
      attach_pids-Extends v.segments b.base_name
        (elim b.discovery_mode [ disabled ↦ 8 | enabled m _ _ ↦ min (max m 32) 128 ]) (v.pid - 20)
        (v.pid + 20 + 1 - (v.pid - 20)) b.consumer_cursors;
}

find_registration-Grows : (v : View) (b : Barrier) → Grows b (find_registration v b)
unfolding find_registration
find_registration-Grows v b = elim (Option-cases b.consumer_registration) [
  | inr (r, known) ↦ rw known (record { base_eq = refl; extends = same b.consumer_cursors })
  | inl unknown ↦ elim (Bool-cases (uses_registered_auto_ids b.discovery_mode)) [
    | inl uses ↦ rw (unknown, uses) (record { base_eq = refl; extends = same b.consumer_cursors })
    | inr other ↦ rw (unknown, other) (record { base_eq = refl; extends = same b.consumer_cursors })
  ]
]

slots-Grows :
    (v : View) (max_consumers : ℕ) (b : Barrier)
    → Grows b (discover_with_registered_slots v max_consumers b).1
unfolding discover_with_registered_slots
slots-Grows v max_consumers b =
    let b₁ = find_registration v b in
    elim (Option-cases b₁.consumer_registration) [
      | inl none_yet ↦ rw (discover_with_registered_slots, none_yet) (find_registration-Grows v b)
      | inr (r, known) ↦
          rw (discover_with_registered_slots, known)
            (Grows-trans b b₁ _ (find_registration-Grows v b) (record {
              base_eq = refl;
              extends =
                  attach_each-Extends v.segments b₁.base_name auto_consumer_id 0
                    (clamp_registered (v.segments.load r) max_consumers) b₁.consumer_cursors;
            }))
    ]

find_by-Grows :
    (v : View) (max_consumers : ℕ) (o : Option Text) (b : Barrier)
    → Grows b (find_by v max_consumers o b)
unfolding find_by
find_by-Grows v max_consumers (some prefix) b = prefix-Grows v prefix b
find_by-Grows v max_consumers none b =
    let r = discover_with_registered_slots v max_consumers b in
    elim (Bool-cases (r.0 == 0 || ltb (length r.1.consumer_cursors) r.0)) [
      | inr enough ↦ rw (find_by, enough) (slots-Grows v max_consumers b)
      | inl few ↦
          rw (find_by, few)
            (Grows-trans b r.1 (discover_with_pid_based_scanning v r.1)
              (slots-Grows v max_consumers b) (pids-Grows v r.1))
    ]

complete-Grows :
    (max_consumers : ℕ) (b b' : Barrier) → Grows b b' → Grows b (complete max_consumers b')
unfolding complete
complete-Grows max_consumers b b' h =
    elim (Bool-cases (leb max_consumers (length b'.consumer_cursors))) [
      | inl all ↦ rw all (record { base_eq = h.base_eq; extends = h.extends })
      | inr more ↦ rw more h
    ]

pub discover_consumers-Grows : (v : View) (b : Barrier) → Grows b (discover_consumers v b)
unfolding discover_consumers
discover_consumers-Grows v b =
    let (should_scan, max_consumers, consumer_prefix) = discovery_scan_plan b v.now in
    elim (Bool-cases should_scan) [
      | inr skip ↦ rw (discover_consumers, skip) (Grows-refl b)
      | inl scan ↦
          rw (discover_consumers, scan)
            (let b₁ : Barrier = record b { last_scan = v.now } in
              let h = find_by-Grows v max_consumers consumer_prefix b₁ in
              complete-Grows max_consumers b (find_by v max_consumers consumer_prefix b₁)
                (record { base_eq = h.base_eq; extends = h.extends }))
    ]

if-Grows : (c : Bool) (b b' : Barrier) → Grows b b' → Grows b (if c then b else b')
if-Grows true b b' h = Grows-refl b
if-Grows false b b' h = h

pub refresh-Grows : (v : View) (b : Barrier) → Grows b (refresh v b)
unfolding refresh
refresh-Grows v b =
    elim b.discovery_mode
      as (λ d. Grows b (elim d [
        | disabled ↦ b
        | enabled _ _ _ ↦ if b.discovery_completed then b else discover_consumers v b
      ])) [
        | disabled ↦ Grows-refl b
        | enabled m o i ↦
            if-Grows b.discovery_completed b (discover_consumers v b) (discover_consumers-Grows v b)
      ]

pub discover_consumer_id-Grows :
    (segments : Segments) (k : Text) (b : Barrier) → Grows b (discover_consumer_id segments k b).1
unfolding discover_consumer_id
discover_consumer_id-Grows segments k b = elim (Bool-cases (contains_key k b.consumer_cursors)) [
  | inl known ↦ rw known (Grows-refl b)
  | inr new ↦ elim (Bool-cases (segments.opens (sequence_name b.base_name k))) [
    | inr missing ↦ rw (new, missing) (Grows-refl b)
    | inl there ↦
        rw (new, there)
          (record {
            base_eq = refl;
            extends = also b.consumer_cursors b.consumer_cursors k (same b.consumer_cursors) new;
          })
  ]
]
