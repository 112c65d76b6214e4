-- ===== src/Barrier/Polled.antt =====
-- Loops that poll until they find enough consumers or the time is over.
use myelon.Common.{
  ℕ, suc, ◌≤◌, ◌<◌, ◌≡◌, ap, refl, ◌∙◌, arith, Bool, true, false, Bool-cases, inl, inr, ◌⊎◌, ltb,
  if◌then◌else◌, List, [], ◌∷◌, ◌++◌, All, length,
}
use myelon.Common.Int.{ℤ, leb_ℤ}
use myelon.Common.Outcome.{Ends, Ends-weaken}
use myelon.Common.Text.{Text}
use myelon.Barrier.Wait.{Turn, spin_until_ready_count}

-- The turns at or after a time.
abbrev pub late : ℕ → List Turn → ℕ
late timeout [] = 0
late timeout (t ∷ turns) =
    if ltb t.elapsed timeout then late timeout turns else suc (late timeout turns)

-- A turn in time that finds too few.
abbrev pub Few : (Turn → Bool) → ℕ → Turn → Type 0
Few test timeout t = (t.elapsed < timeout) × (test t ≡ false)

-- A loop that polled turns with too few, up to one that ends it.
abbrev pub Polled : (Turn → Bool) → ℕ → List Turn → Bool × List Turn → Type 0
Polled test timeout turns (found, rest) =
    (before : List Turn) × (t : Turn) × (turns ≡ before ++ (t ∷ rest))
    × All (Few test timeout) before
    × (if found then (t.elapsed < timeout) × (test t ≡ true) else (timeout ≤ t.elapsed))

-- A predicate on some member.
abbrev pub Any : (Turn → Type 0) → List Turn → Type 0
Any P [] = ⊥
Any P (t ∷ turns) = P t ⊎ Any P turns

Any-append : (P : Turn → Type 0) (before turns : List Turn) → Any P turns → Any P (before ++ turns)
Any-append P [] turns h = h
Any-append P (t ∷ before) turns h = inr (Any-append P before turns h)

-- How a wait ends: in time at a turn that finds enough; or at a turn past the timeout, when all turns
-- before it, but one at most that was passed over, found too few.
abbrev pub Waited : (Turn → Bool) → ℕ → List Turn → Bool → Type 0
Waited test timeout turns true = Any (λ t. (t.elapsed < timeout) × (test t ≡ true)) turns
Waited test timeout turns false =
    (before skipped again rest : List Turn) × (t : Turn) × (turns
      ≡ before ++ (skipped ++ (again ++ (t ∷ rest))))
    × (length skipped ≤ 1)
    × All (Few test timeout) before
    × All (Few test timeout) again
    × (timeout ≤ t.elapsed)

Few-weaken :
    (test : Turn → Bool) (a b : ℕ) (turns : List Turn)
    → a ≤ b
    → All (Few test a) turns
    → All (Few test b) turns
Few-weaken test a b [] le h = tt
Few-weaken test a b (t ∷ turns) le h =
    ((omega (arith, h.0.0), h.0.1), Few-weaken test a b turns le h.1)

Polled-onward :
    (test : Turn → Bool) (timeout : ℕ) (t : Turn) (turns : List Turn) (r : Bool × List Turn)
    → Few test timeout t
    → Polled test timeout turns r
    → Polled test timeout (t ∷ turns) r
Polled-onward test timeout t turns (found, rest) few (before, last, e, all, ended) =
    (t ∷ before, last, ap (λ ts. t ∷ ts) e, (few, all), ended)

-- A spin that has a late turn ahead ends, and uses up one late turn at most.
pub spin_until_ready_count-Polled :
    (name : Text) (m : ℤ) (timeout limit : ℕ) (turns : List Turn)
    → timeout ≤ limit
    → 1 ≤ late limit turns
    → Ends
        (λ r.
          Polled (λ t. leb_ℤ m (t.view.segments.load name)) timeout turns r
          × (late limit turns ≤ suc (late limit r.1)))
        (spin_until_ready_count name m timeout turns)
unfolding spin_until_ready_count
spin_until_ready_count-Polled name m timeout limit [] le h = absurd (omega arith)
spin_until_ready_count-Polled name m timeout limit (t ∷ turns) le h =
    elim (Bool-cases (ltb t.elapsed timeout)) [
      | inr over ↦ rw over (([], t, refl, tt, ground arith), ground arith)
      | inl early ↦ elim (Bool-cases (leb_ℤ m (t.view.segments.load name))) [
        | inl found ↦ rw (early, found) (([], t, refl, tt, (ground arith, found)), ground arith)
        | inr few ↦
            rw (early, few)
              (Ends-weaken _ _ (spin_until_ready_count name m timeout turns)
                (λ r p.
                  (Polled-onward _ timeout t turns r (ground arith, few) p.0, ground (arith, p.1)))
                (spin_until_ready_count-Polled name m timeout limit turns le (ground arith)))
      ]
    ]

pub Polled-Any :
    (test : Turn → Bool) (timeout limit : ℕ) (turns rest : List Turn)
    → timeout ≤ limit
    → Polled test timeout turns (true, rest)
    → Waited test limit turns true
Polled-Any test timeout limit turns rest le (before, t, e, all, (early, found)) =
    rw e (Any-append _ before (t ∷ rest) (inl (omega (arith, early, le), found)))

-- A second loop on the turns that a first one left.
pub Polled-Waited :
    (test : Turn → Bool) (first limit : ℕ) (turns rest rest' : List Turn) (found : Bool)
    → first ≤ limit
    → Polled test first turns (false, rest)
    → Polled test limit rest (found, rest')
    → Waited test limit turns found
Polled-Waited test first limit turns rest rest' true le (before, t, e, all, ended) p =
    rw e (
      Any-append _ before (t ∷ rest) (inr (Polled-Any test limit limit rest rest' (omega arith) p)))
Polled-Waited test first limit turns rest rest' false le (before, t, e, all, ended)
      (again, t', e', all', ended') =
    (
      before,
      t ∷ [],
      again,
      rest',
      t',
      e ∙ ap (λ ts. before ++ (t ∷ ts)) e',
      omega arith,
      Few-weaken test first limit before le all,
      all',
      ended',
    )

pub Polled-over :
    (test : Turn → Bool) (first limit : ℕ) (turns rest : List Turn)
    → first ≤ limit
    → limit ≤ first
    → Polled test first turns (false, rest)
    → Waited test limit turns false
Polled-over test first limit turns rest le ge (before, t, e, all, ended) = (
  before,
  [],
  [],
  rest,
  t,
  e,
  omega arith,
  Few-weaken test first limit before le all,
  tt,
  omega (arith, ended, ge),
)
