-- ===== src/Barrier/Unique.antt =====
-- The invariant of the barrier's map, through every run of its operations, and what a lookup reads.
use myelon.Common.{
  if◌then◌else◌, ◌≡◌, ◌∙◌, refl, sym, ap, arith, Bool, true, false, Bool-cases, inl, inr, ◌&&◌,
  ◌||◌, not, ◌==◌, none, some, List, [], ◌∷◌, ◌++◌, All, length,
}
use myelon.Common.Outcome.{Ends}
use myelon.Common.Text.{Text, ◌==ₜ◌, ==ₜ_iff, ==ₜ→eq}
use myelon.Barrier.Defs.{DiscoveryMode, Segments, Barrier, View, contains_key, sequence_name}
use myelon.Barrier.Discovery.{discover_consumers, discover_consumer_id}
use myelon.Barrier.Create.{
  lookup, consumer_sequence, new_with_discovery, set_producer_sequence, set_consumer_registration,
}
use myelon.Barrier.Min.{refresh, get_min_consumer_sequence, best_effort_consumer_count}
use myelon.Barrier.Keys.{contains_key-append, contains_key_self}
use myelon.Barrier.Known.{
  Extends, same, also, Grows, Grows-trans, discover_consumers-Grows, refresh-Grows,
  discover_consumer_id-Grows,
}

-- No id stands twice in a map.
abbrev pub unique : List (Text × Text) → Bool
unique [] = true
unique ((k, _) ∷ m) = not (contains_key k m) && unique m

-- The invariant of a barrier's map: each consumer once, under the name of its own sequence.
pub record IsKnown (b : Barrier) : Type 0 where
  pub once : unique b.consumer_cursors ≡ true
  pub named : All (λ e. e.1 ≡ sequence_name b.base_name e.0) b.consumer_cursors

unique-append :
    (k c : Text) (m : List (Text × Text))
    → unique m ≡ true
    → contains_key k m ≡ false
    → unique (m ++ ((k, c) ∷ [])) ≡ true
unfolding contains_key
unique-append k c [] h new = refl
unique-append k c ((j, d) ∷ m) h new =
    ground (arith, unique-append k c m, contains_key-append j k c m, ==ₜ_iff j k, ==ₜ_iff k j)

contains_key-lookup :
    (k : Text) (m : List (Text × Text))
    → contains_key k m ≡ true
    → (c : Text) × (lookup k m ≡ some c)
unfolding contains_key lookup
contains_key-lookup k [] h = absurd (cc h)
contains_key-lookup k ((j, c) ∷ m) h = elim (Bool-cases (j ==ₜ k)) [
  | inl here ↦ (c, rw here refl)
  | inr there ↦ rw there (contains_key-lookup k m (ground arith))
]

lookup-append_new :
    (k c : Text) (m : List (Text × Text))
    → contains_key k m ≡ false
    → lookup k (m ++ ((k, c) ∷ [])) ≡ some c
unfolding contains_key lookup
lookup-append_new k c [] h = ground (arith, ==ₜ_iff k k)
lookup-append_new k c ((j, d) ∷ m) h = ground (arith, lookup-append_new k c m)

-- Each entry names the sequence of its own id.
abbrev pub Named : Text → List (Text × Text) → Type 0
Named base_name m = All (λ e. e.1 ≡ sequence_name base_name e.0) m

Named-append :
    (base_name k : Text) (m : List (Text × Text))
    → Named base_name m
    → Named base_name (m ++ ((k, sequence_name base_name k) ∷ []))
Named-append base_name k [] h = (refl, tt)
Named-append base_name k (e ∷ m) h = (h.0, Named-append base_name k m h.1)

lookup-Named :
    (base_name k c : Text) (m : List (Text × Text))
    → Named base_name m
    → lookup k m ≡ some c
    → c ≡ sequence_name base_name k
unfolding lookup
lookup-Named base_name k c [] h e = absurd (cc e)
lookup-Named base_name k c ((j, d) ∷ m) h e = elim (Bool-cases (j ==ₜ k)) [
  | inl here ↦
      let id_eq : j ≡ k = ==ₜ→eq j k here in
      let cursor_eq : d ≡ c = ground arith in
      sym cursor_eq ∙ (h.0 ∙ ap (sequence_name base_name) id_eq)
  | inr there ↦ lookup-Named base_name k c m h.1 (ground arith)
]

Extends-unique :
    {base_name : Text} (m m' : List (Text × Text))
    → Extends base_name m m'
    → unique m ≡ true
    → unique m' ≡ true
Extends-unique m _ (same _) h = h
Extends-unique m _ (also _ n k r new) h = unique-append k _ n (Extends-unique m n r h) new

Extends-Named :
    {base_name : Text} (m m' : List (Text × Text))
    → Extends base_name m m'
    → Named base_name m
    → Named base_name m'
Extends-Named m _ (same _) h = h
Extends-Named {base_name} m _ (also _ n k r new) h =
    Named-append base_name k n (Extends-Named m n r h)

pub Grows-IsKnown : (b b' : Barrier) → Grows b b' → IsKnown b → IsKnown b'
Grows-IsKnown b b' g h = record {
  once = Extends-unique b.consumer_cursors b'.consumer_cursors g.extends h.once;
  named = rw g.base_eq (Extends-Named b.consumer_cursors b'.consumer_cursors g.extends h.named);
}

-- What may be done with a barrier, by any process and in any order.
pub data Runs (b : Barrier) : Barrier → Type 0 where
  start : Runs b b
  discover : (b' : Barrier) (v : View) → Runs b b' → Runs b (discover_consumers v b')
  gate : (b' : Barrier) (v : View) → Runs b b' → Runs b (get_min_consumer_sequence v b').1
  count : (b' : Barrier) (v : View) → Runs b b' → Runs b (best_effort_consumer_count v b').1
  discover_id :
      (b' : Barrier) (segments : Segments) (k : Text)
      → Runs b b'
      → Runs b (discover_consumer_id segments k b').1
  read :
      (b' : Barrier) (segments : Segments) (k : Text)
      → Runs b b'
      → Runs b (consumer_sequence segments k b').1
  set_producer : (b' : Barrier) (c : Text) → Runs b b' → Runs b (set_producer_sequence c b')
  set_registration : (b' : Barrier) (c : Text) → Runs b b' → Runs b (set_consumer_registration c b')

Runs-Grows : (b b' : Barrier) → Runs b b' → Grows b b'
unfolding get_min_consumer_sequence best_effort_consumer_count consumer_sequence
    set_producer_sequence set_consumer_registration
Runs-Grows b _ start = record { base_eq = refl; extends = same b.consumer_cursors }
Runs-Grows b _ (discover b' v r) =
    Grows-trans b b' (discover_consumers v b') (Runs-Grows b b' r) (discover_consumers-Grows v b')
Runs-Grows b _ (gate b' v r) =
    Grows-trans b b' (refresh v b') (Runs-Grows b b' r) (refresh-Grows v b')
Runs-Grows b _ (count b' v r) =
    Grows-trans b b' (refresh v b') (Runs-Grows b b' r) (refresh-Grows v b')
Runs-Grows b _ (discover_id b' segments k r) =
    Grows-trans b b' (discover_consumer_id segments k b').1 (Runs-Grows b b' r)
      (discover_consumer_id-Grows segments k b')
Runs-Grows b _ (read b' segments k r) =
    Grows-trans b b' (discover_consumer_id segments k b').1 (Runs-Grows b b' r)
      (discover_consumer_id-Grows segments k b')
Runs-Grows b _ (set_producer b' c r) =
    let h = Runs-Grows b b' r in record { base_eq = h.base_eq; extends = h.extends }
Runs-Grows b _ (set_registration b' c r) =
    let h = Runs-Grows b b' r in record { base_eq = h.base_eq; extends = h.extends }

-- With a name, a new barrier is made, and it knows each consumer once.
pub new_with_discovery-IsKnown :
    (v : View) (base_name : Text) (mode : DiscoveryMode)
    → (length base_name == 0) ≡ false
    → Ends IsKnown (new_with_discovery v base_name mode)
unfolding new_with_discovery
new_with_discovery-IsKnown v base_name mode named = rw named (made mode)
  where
    bare : Barrier
    bare = record {
      consumer_cursors = [];
      base_name = base_name;
      last_scan = v.now;
      consumers_ready = none;
      consumer_registration = none;
      discovery_mode = mode;
      discovery_completed = false;
      producer_sequence = none;
    }

    bare-IsKnown : IsKnown bare
    bare-IsKnown = record { once = refl; named = tt }

    made :
        (m : DiscoveryMode)
        → IsKnown (elim m [
          | DiscoveryMode.disabled ↦ bare
          | DiscoveryMode.enabled _ _ _ ↦ discover_consumers v bare
        ])
    made DiscoveryMode.disabled = bare-IsKnown
    made (DiscoveryMode.enabled m o i) =
        Grows-IsKnown bare (discover_consumers v bare) (discover_consumers-Grows v bare)
          bare-IsKnown

-- However a barrier that knows each of its consumers once is used, it still does, and each consumer
-- that it knew is still known, in its place and under the same cursor.
pub Runs-IsKnown :
    (b b' : Barrier)
    → IsKnown b
    → Runs b b'
    → IsKnown b' × Extends b.base_name b.consumer_cursors b'.consumer_cursors
Runs-IsKnown b b' h r = let g = Runs-Grows b b' r in (Grows-IsKnown b b' g h, g.extends)

-- Of a barrier that knows each of its consumers once, `consumer_sequence` answers exactly for a consumer
-- that is known or whose sequence can be attached: with a load of the consumer's own sequence. In the
-- end it knows those that it knew before, and the one asked for where it has an answer, and no others.
pub consumer_sequence_lem :
    (segments : Segments) (k j : Text) (b : Barrier)
    → IsKnown b
    → (let name = sequence_name b.base_name k in
        let known = contains_key k b.consumer_cursors || segments.opens name in
        let (sequence, after) = consumer_sequence segments k b in
        (sequence ≡ (if known then some (segments.load name) else none))
        × (contains_key j after.consumer_cursors
            ≡ (contains_key j b.consumer_cursors || (known && k ==ₜ j))))
unfolding consumer_sequence discover_consumer_id
consumer_sequence_lem segments k j b h = elim (Bool-cases (contains_key k b.consumer_cursors)) [
  | inl known ↦
      let (c, found) = contains_key-lookup k b.consumer_cursors known in
      rw (known, found)
        (
          ap (λ n. some (segments.load n))
              (lookup-Named b.base_name k c b.consumer_cursors h.named found),
          contains_key_self k j b.consumer_cursors known,
        )
  | inr new ↦ elim (Bool-cases (segments.opens (sequence_name b.base_name k))) [
    | inr missing ↦ rw (new, missing) (refl, ground arith)
    | inl there ↦
        rw (new, there, lookup-append_new k (sequence_name b.base_name k) b.consumer_cursors new)
          (refl, contains_key-append j k (sequence_name b.base_name k) b.consumer_cursors)
  ]
]
