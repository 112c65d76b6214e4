-- ===== src/Protocol/Safety.antt =====
-- The steps of the protocol and the events that consumers have not read: the discipline of
-- `crates/disruptor-mp/src/producer.rs` and `consumer.rs` for cursors and slots.
use myelon.Common.{
  ℕ, zero, suc, ◌+◌, ◌-◌, ◌%◌, ◌≤◌, ◌<◌, ◌≡◌, ◌≢◌, ltb, ltb→lt, ltb→ge, Bool-cases, inl, inr, refl,
  sym, ◌∙◌, ap, subst, arith, some, List, [], ◌∷◌, ◌++◌, All, get_elem?, set, length, length-append,
  get_elem?-set_ne, length-set,
}
use myelon.Protocol.System.{
  System, Written, Step, look, write, commit, consume, Steps, stay, onward, IsSafe,
}

mod-ne : (a b m : ℕ) → a < b → b < a + m → a % m ≢ b % m
mod-ne a b m h k e = grind arith

module _ {ℓ κ ν} {A : Type ℓ} (P : A → Type κ) (Q : A → Type ν) where
  pub All-map : ((a : A) → P a → Q a) → (xs : List A) → All P xs → All Q xs
  All-map f [] h = tt
  All-map f (x ∷ xs) h = (f x h.0, All-map f xs h.1)

  All-and : (xs : List A) → All P xs → All Q xs → All (λ a. P a × Q a) xs
  All-and [] h k = tt
  All-and (x ∷ xs) h k = ((h.0, k.0), All-and xs h.1 k.1)

module _ {ℓ κ} {A : Type ℓ} (P : A → Type κ) where
  All-set : (xs : List A) (i : ℕ) (v : A) → P v → All P xs → All P (set xs i v)
  All-set [] i v p h = tt
  All-set (x ∷ xs) zero v p h = (p, h.1)
  All-set (x ∷ xs) (suc i) v p h = (h.0, All-set xs i v p h.1)

  pub All-get_elem? : (xs : List A) (i : ℕ) (a : A) → All P xs → get_elem? xs i ≡ some a → P a
  All-get_elem? [] i a h e = absurd (cc e)
  All-get_elem? (x ∷ xs) zero a h e = subst P (some_inj e) h.0
    where
      some_inj : some x ≡ some a → x ≡ a
      some_inj e = cc e
  All-get_elem? (x ∷ xs) (suc i) a h e = All-get_elem? xs i a h.1 e

module _ {ℓ} {E : Type ℓ} where
  pub get_elem?-append_lt :
      (xs ys : List E) (i : ℕ) → i < length xs → get_elem? (xs ++ ys) i ≡ get_elem? xs i
  get_elem?-append_lt [] ys i h = absurd (omega arith)
  get_elem?-append_lt (x ∷ xs) ys zero h = refl
  get_elem?-append_lt (x ∷ xs) ys (suc i) h = get_elem?-append_lt xs ys i (omega arith)

  pub get_elem?-append_ge :
      (xs ys : List E) (i : ℕ) → get_elem? (xs ++ ys) (length xs + i) ≡ get_elem? ys i
  get_elem?-append_ge [] ys i = ap (get_elem? ys) (omega arith)
  get_elem?-append_ge (x ∷ xs) ys i =
      ap (get_elem? (x ∷ xs ++ ys)) next ∙ get_elem?-append_ge xs ys i
    where
      next : length (x ∷ xs) + i ≡ suc (length xs + i)
      next = omega arith

  Written-get :
      (m : System E) (s i : ℕ) (es : List E)
      → Written m s es
      → i < length es
      → get_elem? m.slots ((s + i) % m.size) ≡ get_elem? es i
  Written-get m s i [] w h = absurd (omega arith)
  Written-get m s zero (e ∷ es) w h = ap (λ t. get_elem? m.slots (t % m.size)) (omega arith) ∙ w.0
  Written-get m s (suc i) (e ∷ es) w h =
      ap (λ t. get_elem? m.slots (t % m.size)) (omega arith)
      ∙ Written-get m (s + 1) i es w.1 (omega arith)

  abbrev pub Held : System E → List E → ℕ → Type ℓ
  Held m log a = (q : ℕ) → a ≤ q → q < length log → get_elem? m.slots (q % m.size) ≡ get_elem? log q

  -- Each step keeps the slots and cursors fitting.
  pub Step-IsSafe : {m m' : System E} → Step m m' → IsSafe m → IsSafe m'
  Step-IsSafe (look m r low) v = record {
    size_pos = v.size_pos;
    slots_eq = v.slots_eq;
    clear =
        All-map (λ b. r ≤ b) (λ b. r + m.size ≤ b + m.size) (λ a h. omega (arith, h)) m.readers low;
    behind = v.behind;
    held = v.held;
  }
  Step-IsSafe (write m s e above within) v = record {
    size_pos = v.size_pos;
    slots_eq = length-set m.slots (s % m.size) e ∙ v.slots_eq;
    clear = v.clear;
    behind = v.behind;
    held =
        All-map (λ b. (m.window ≤ b + m.size) × Held m m.log b)
          (Held (record m { slots = set m.slots (s % m.size) e }) m.log)
          (λ a h q from to.
            get_elem?-set_ne m.slots (s % m.size) (q % m.size) e
              (λ same. mod-ne q s m.size (omega arith) (omega (arith, h.0)) (sym same))
            ∙ h.1 q from to)
          m.readers (All-and (λ b. m.window ≤ b + m.size) (Held m m.log) m.readers v.clear v.held);
  }
  Step-IsSafe (commit m es w within) v = record {
    size_pos = v.size_pos;
    slots_eq = v.slots_eq;
    clear = v.clear;
    behind =
        All-map (λ b. b ≤ length m.log) (λ b. b ≤ length (m.log ++ es))
          (λ a h. omega (arith, h, length-append m.log es)) m.readers v.behind;
    held =
        All-map (Held m m.log) (Held m (m.log ++ es)) (λ a h q from to. kept a h q from to)
          m.readers v.held;
  }
    where
      kept :
          (a : ℕ)
          → ((q : ℕ)
              → a ≤ q
              → q < length m.log
              → get_elem? m.slots (q % m.size) ≡ get_elem? m.log q)
          → (q : ℕ) → a ≤ q
          → q < length (m.log ++ es)
          → get_elem? m.slots (q % m.size) ≡ get_elem? (m.log ++ es) q
      kept a h q from to = elim (Bool-cases (ltb q (length m.log))) [
        | inl old ↦
            h q from (ltb→lt q (length m.log) old)
            ∙ sym (get_elem?-append_lt m.log es q (ltb→lt q (length m.log) old))
        | inr new ↦
            let past = ltb→ge q (length m.log) new in
            subst (λ t. get_elem? m.slots (t % m.size) ≡ get_elem? (m.log ++ es) t) (omega arith)
              (Written-get m (length m.log) (q - length m.log) es w
                  (omega (arith, length-append m.log es))
                ∙ sym (get_elem?-append_ge m.log es (q - length m.log)))
      ]
  Step-IsSafe (consume m i a k at up published) v = record {
    size_pos = v.size_pos;
    slots_eq = v.slots_eq;
    clear =
        All-set (λ b. m.window ≤ b + m.size) m.readers i k
          (omega (arith, All-get_elem? (λ b. m.window ≤ b + m.size) m.readers i a v.clear at))
          v.clear;
    behind = All-set (λ b. b ≤ length m.log) m.readers i k published v.behind;
    held =
        All-set (Held m m.log) m.readers i k
          (λ q from to. All-get_elem? (Held m m.log) m.readers i a v.held at q (omega arith) to)
          v.held;
  }

  -- Nor do any number of steps.
  pub Steps-IsSafe : {m m' : System E} → Steps m m' → IsSafe m → IsSafe m'
  Steps-IsSafe (stay m) v = v
  Steps-IsSafe (onward s rest) v = Steps-IsSafe rest (Step-IsSafe s v)

  Step-log :
      {m m' : System E}
      → Step m m'
      → (q : ℕ) → q < length m.log
      → (get_elem? m'.log q ≡ get_elem? m.log q) × (length m.log ≤ length m'.log)
  Step-log (look m r low) q h = (refl, omega arith)
  Step-log (write m s e above within) q h = (refl, omega arith)
  Step-log (commit m es w within) q h =
      (get_elem?-append_lt m.log es q h, omega (arith, length-append m.log es))
  Step-log (consume m i a k at up published) q h = (refl, omega arith)

  -- What is published stays published.
  Steps-log :
      {m m' : System E}
      → Steps m m'
      → (q : ℕ) → q < length m.log
      → get_elem? m'.log q ≡ get_elem? m.log q
  Steps-log (stay m) q h = refl
  Steps-log (onward s rest) q h =
      Steps-log rest q (omega (arith, (Step-log s q h).1)) ∙ (Step-log s q h).0

  -- From any state whose slots and cursors fit, whatever steps the producer and the consumers take in
  -- whatever order, a published event that a consumer has not yet read is in its slot, and stays the
  -- event with that sequence for good.
  pub unread_event_kept :
      (m m' m'' : System E) (i a q : ℕ)
      → IsSafe m
      → Steps m m'
      → Steps m' m''
      → get_elem? m'.readers i ≡ some a
      → a ≤ q
      → q < length m'.log
      → (get_elem? m'.slots (q % m'.size) ≡ get_elem? m'.log q)
        × (get_elem? m''.log q ≡ get_elem? m'.log q)
  unread_event_kept m m' m'' i a q v steps later at from to = (
    All-get_elem? (Held m' m'.log) m'.readers i a (Steps-IsSafe steps v).held at q from to,
    Steps-log later q to,
  )
