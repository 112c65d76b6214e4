-- ===== src/Protocol/System.antt =====
-- The protocol: what the shared memory holds, and the steps that change it. Sequences are counted from
-- 0, so that a cursor is one less than the number that stands for it here.
use myelon.Common.{
  ℕ, ◌+◌, ◌%◌, ◌≤◌, ◌<◌, ◌≡◌, some, List, [], ◌∷◌, ◌++◌, All, get_elem?, set, length,
}

-- `log` is every event ever published; `window` counts the sequences that are clear of the consumers,
-- `readers` those that each consumer has read.
pub record System {ℓ} (E : Type ℓ) : Type ℓ where
  pub size : ℕ
  pub slots : List E
  pub log : List E
  pub window : ℕ
  pub readers : List ℕ

module _ {ℓ} {E : Type ℓ} where
  -- The events of the next `n` sequences from `s` on are in their slots.
  abbrev pub Written : System E → ℕ → List E → Type ℓ
  Written m s [] = Unit
  Written m s (e ∷ es) = (get_elem? m.slots (s % m.size) ≡ some e) × Written m (s + 1) es

  -- `look`: the producer reads cursors, each perhaps stale. `write`: an unpublished slot of the window.
  -- `commit`: the store to the producer's cursor. `consume`: the store to a consumer's cursor.
  pub data Step : System E → System E → Type ℓ where
    look :
        (m : System E) (r : ℕ)
        → All (λ a. r ≤ a) m.readers
        → Step m (record m { window = r + m.size })
    write :
        (m : System E) (s : ℕ) (e : E)
        → length m.log ≤ s
        → s < m.window
        → Step m (record m { slots = set m.slots (s % m.size) e })
    commit :
        (m : System E) (es : List E)
        → Written m (length m.log) es
        → length m.log + length es ≤ m.window
        → Step m (record m { log = m.log ++ es })
    consume :
        (m : System E) (i a k : ℕ)
        → get_elem? m.readers i ≡ some a
        → a ≤ k
        → k ≤ length m.log
        → Step m (record m { readers = set m.readers i k })

  pub data Steps : System E → System E → Type ℓ where
    stay : (m : System E) → Steps m m
    onward : {m m' m'' : System E} → Step m m' → Steps m' m'' → Steps m m''

  -- The slots and cursors fit: the window is at most one turn beyond the slowest consumer, and each
  -- published event that a consumer has not read is in its slot.
  pub record IsSafe (m : System E) : Type ℓ where
    pub size_pos : 0 < m.size
    pub slots_eq : length m.slots ≡ m.size
    pub clear : All (λ a. m.window ≤ a + m.size) m.readers
    pub behind : All (λ a. a ≤ length m.log) m.readers
    pub held :
        All
          (λ a.
            (q : ℕ) → a ≤ q → q < length m.log → get_elem? m.slots (q % m.size) ≡ get_elem? m.log q)
          m.readers
