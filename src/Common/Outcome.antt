-- ===== src/Common/Outcome.antt =====
-- How a call ends: with a value, in a Rust panic, or not at all while it waits for input.
use mathlib.Core.Path.{◌≡◌, refl}
use mathlib.Core.Bool.{Bool, true, false}
use myelon.Common.Tests.{if◌then◌else◌}

pub data Outcome {ℓ} (A : Type ℓ) : Type ℓ where
  done : A → Outcome A
  panic : Outcome A
  blocked : Outcome A

infixl 5 ◌>>=◌ ◌>>◌
abbrev pub ◌>>=◌ {ℓ κ} : {A : Type ℓ} {B : Type κ} → Outcome A → (A → Outcome B) → Outcome B
done a >>= f = f a
panic >>= f = panic
blocked >>= f = blocked

abbrev pub ◌>>◌ {ℓ} : {B : Type ℓ} → Outcome (Unit {0}) → Outcome B → Outcome B
m >> k = m >>= λ _. k

-- `assert!`.
abbrev pub assert : Bool → Outcome (Unit {0})
assert true = done tt
assert false = panic

pub >>=_done {ℓ} : {A : Type ℓ} (m : Outcome A) → (m >>= λ a. done a) ≡ m
>>=_done (done a) = refl
>>=_done panic = refl
>>=_done blocked = refl

pub >>=_assoc {ℓ κ ν} :
    {A : Type ℓ} {B : Type κ} {C : Type ν} (m : Outcome A) (f : A → Outcome B) (g : B → Outcome C)
    → (m >>= f >>= g) ≡ (m >>= λ a. f a >>= g)
>>=_assoc (done a) f g = refl
>>=_assoc panic f g = refl
>>=_assoc blocked f g = refl

-- A call that returns, with a value that meets `P`.
abbrev pub Ends {ℓ} : {A : Type ℓ} → (A → Type 0) → Outcome A → Type 0
Ends P (done a) = P a
Ends P panic = ⊥
Ends P blocked = ⊥

pub Ends->>= {ℓ κ} :
    {A : Type ℓ} {B : Type κ} (P : A → Type 0) (Q : B → Type 0) (m : Outcome A) (f : A → Outcome B)
    → Ends P m
    → ((a : A) → P a → Ends Q (f a))
    → Ends Q (m >>= f)
Ends->>= P Q (done a) f h step = step a h
Ends->>= P Q panic f h step = elim h [ ]
Ends->>= P Q blocked f h step = elim h [ ]

pub Ends-result {ℓ} :
    {A : Type ℓ} (P : A → Type 0) (m : Outcome A) → Ends P m → (a : A) × (m ≡ done a) × P a
Ends-result P (done a) h = (a, refl, h)
Ends-result P panic h = elim h [ ]
Ends-result P blocked h = elim h [ ]

pub Ends-weaken {ℓ} :
    {A : Type ℓ} (P Q : A → Type 0) (m : Outcome A) → ((a : A) → P a → Q a) → Ends P m → Ends Q m
Ends-weaken P Q (done a) f h = f a h
Ends-weaken P Q panic f h = h
Ends-weaken P Q blocked f h = h

pub Ends-both {ℓ} :
    {A : Type ℓ} (P Q : A → Type 0) (m : Outcome A) → Ends P m → Ends Q m → Ends (λ a. P a × Q a) m
Ends-both P Q (done a) h k = (h, k)
Ends-both P Q panic h k = h
Ends-both P Q blocked h k = h

-- A call that does not panic: it waits, or returns with a value that meets `P`.
abbrev pub NoPanic {ℓ} : {A : Type ℓ} → (A → Type 0) → Outcome A → Type 0
NoPanic P (done a) = P a
NoPanic P panic = ⊥
NoPanic P blocked = Unit

pub NoPanic->>= {ℓ κ} :
    {A : Type ℓ} {B : Type κ} (P : A → Type 0) (Q : B → Type 0) (m : Outcome A) (f : A → Outcome B)
    → NoPanic P m
    → ((a : A) → P a → NoPanic Q (f a))
    → NoPanic Q (m >>= f)
NoPanic->>= P Q (done a) f h step = step a h
NoPanic->>= P Q panic f h step = elim h [ ]
NoPanic->>= P Q blocked f h step = tt

pub Ends-NoPanic {ℓ} : {A : Type ℓ} (P : A → Type 0) (m : Outcome A) → Ends P m → NoPanic P m
Ends-NoPanic P (done a) h = h
Ends-NoPanic P panic h = h
Ends-NoPanic P blocked h = tt

pub NoPanic-weaken {ℓ} :
    {A : Type ℓ} (P Q : A → Type 0) (m : Outcome A)
    → ((a : A) → P a → Q a)
    → NoPanic P m
    → NoPanic Q m
NoPanic-weaken P Q (done a) f h = f a h
NoPanic-weaken P Q panic f h = h
NoPanic-weaken P Q blocked f h = tt

pub NoPanic-if {ℓ} :
    {A : Type ℓ} (P : A → Type 0) (c : Bool) (m n : Outcome A)
    → (c ≡ true → NoPanic P m)
    → (c ≡ false → NoPanic P n)
    → NoPanic P (if c then m else n)
NoPanic-if P true m n h k = h refl
NoPanic-if P false m n h k = k refl

-- The same rule where the first call returns.
pub NoPanic-after {ℓ κ} :
    {A : Type ℓ} {B : Type κ} (P : A → Type 0) (Q : B → Type 0) (m : Outcome A) (f : A → Outcome B)
    → Ends P m
    → ((a : A) → P a → NoPanic Q (f a))
    → NoPanic Q (m >>= f)
NoPanic-after P Q (done a) f h step = step a h
NoPanic-after P Q panic f h step = elim h [ ]
NoPanic-after P Q blocked f h step = elim h [ ]
