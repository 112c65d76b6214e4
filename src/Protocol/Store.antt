-- ===== src/Protocol/Store.antt =====
-- One event that `apply_update` of `crates/disruptor-mp/src/producer.rs` stores, as steps of the protocol.
use myelon.Common.{
  ℕ, ◌+◌, ◌%◌, ◌^◌, ◌<◌, ◌≡◌, refl, sym, subst, ◌∙◌, ap, arith, Option, none, some, List, [], ◌∷◌,
  ◌++◌, get_elem?, set, length, get_elem?-set_self, get_elem?-some, length-append,
}
use native.Mathlib.Nat.{mod-lt}
use myelon.Common.Int.{ℤ, pos, ◌<ℤ◌, ◌-ℤ◌, -ℤ_parts, eq_of_parts}
use myelon.Common.Outcome.{Outcome, done, ◌>>=◌}
use myelon.Common.Result.{Result, ok, err}
use myelon.Ring.Laws.{IsRing, size-pos}
use myelon.Producer.Defs.{Producer, apply_update, count_published}
use myelon.Producer.Reserve.{IsValid}
use myelon.Producer.Write.{moved, apply_update-moved}
use myelon.Protocol.System.{System, write, commit, Steps, stay, onward}

module _ {ℓ} {E : Type ℓ} where
  -- The memory that a producer writes, with the log, the window and the readers.
  unfoldable pub system : Producer E → List E → ℕ → List ℕ → System E
  system p log window readers = record {
    size = p.ring_buffer.size;
    slots = p.slots;
    log = log;
    window = window;
    readers = readers;
  }

  -- The producer's own fields and its published cursor fit what is published; its cached window is
  -- within the system's.
  pub record Shows (p : Producer E) (log : List E) (window : ℕ) : Type ℓ where
    pub ring : IsRing p.ring_buffer
    pub next_eq : p.sequence ≡ pos (length log)
    pub cursor_eq : p.producer_sequence ≡ pos (length log) -ℤ pos 1
    pub window_le : p.sequence_clear_of_consumers <ℤ pos window

  -- One event later, the cursor stands where the next sequence stood.
  cursor_after : (log : List E) (e : E) → pos (length log) ≡ pos (length (log ++ (e ∷ []))) -ℤ pos 1
  cursor_after log e =
      eq_of_parts _ _ (
        omega
          (arith, length-append log (e ∷ []), -ℤ_parts (pos (length (log ++ (e ∷ [])))) (pos 1)))

  -- What the answer of a call says of the log before and after it.
  unfoldable pub Says : List E → ℕ → (E → E) → Result ℤ (Unit {0}) → List E → List E → Type ℓ
  Says slots size update (err _) log log' = log' ≡ log
  Says slots size update (ok sequence) log log' =
      (sequence ≡ pos (length log))
      × (old : E) × (get_elem? slots (length log % size) ≡ some old)
      × (log' ≡ log ++ (update old ∷ []))

  -- A call that returns, with the steps that it took.
  pub record Ran (p : Producer E) (update : E → E) (log : List E) (window : ℕ) (readers : List ℕ)
      (call : Outcome (Result ℤ (Unit {0}) × Producer E)) : Type ℓ where
    pub answer : Result ℤ (Unit {0})
    pub after : Producer E
    pub log' : List E
    pub window' : ℕ
    pub returns : call ≡ done (answer, after)
    pub steps : Steps (system p log window readers) (system after log' window' readers)
    pub shows : Shows after log' window'
    pub says : Says p.slots p.ring_buffer.size update answer log log'

  -- The same call, written otherwise, from a state some steps earlier.
  pub earlier :
      (p p' : Producer E) (update : E → E) (log : List E) (window w' : ℕ) (readers : List ℕ)
      → (call call' : Outcome (Result ℤ (Unit {0}) × Producer E)) → p.slots ≡ p'.slots
      → p.ring_buffer.size ≡ p'.ring_buffer.size
      → call ≡ call'
      → ((m : System E)
          → Steps (system p' log w' readers) m
          → Steps (system p log window readers) m)
      → Ran p' update log w' readers call'
      → Ran p update log window readers call
  earlier p p' update log window w' readers call call' es ez e first ran = record {
    answer = ran.answer;
    after = ran.after;
    log' = ran.log';
    window' = ran.window';
    returns = e ∙ ran.returns;
    steps = first (system ran.after ran.log' ran.window' readers) ran.steps;
    shows = ran.shows;
    says =
        subst (λ xs. Says xs p.ring_buffer.size update ran.answer log ran.log') (sym es)
          (subst (λ z. Says p'.slots z update ran.answer log ran.log') (sym ez) ran.says);
  }

  abbrev pub valid_of :
      (p : Producer E) (log : List E) (window : ℕ)
      → Shows p log window
      → length log < 2 ^ 61
      → IsValid p
  valid_of p log window shows h = record {
    ring = shows.ring;
    next = length log;
    next_eq = shows.next_eq;
    small = h;
  }

  -- The producer after one event `e`.
  abbrev stored : Producer E → ℕ → E → Producer E
  stored p s e =
      count_published (moved p (set p.slots (s % p.ring_buffer.size) e) (pos s) (pos (s + 1)))

  publish-Steps :
      (p : Producer E) (log : List E) (window : ℕ) (readers : List ℕ) (e : E)
      → 0 < p.ring_buffer.size
      → length p.slots ≡ p.ring_buffer.size
      → length log < window
      → Steps
          (system p log window readers)
          (system (stored p (length log) e) (log ++ (e ∷ [])) window readers)
  unfolding system
  publish-Steps p log window readers e h k w =
      let m = system p log window readers in
      let i = length log % p.ring_buffer.size in
      onward (write m (length log) e (omega arith) w) (
        onward
          (commit (record m { slots = set p.slots i e }) (e ∷ [])
            (get_elem?-set_self p.slots i e (omega (arith, k, mod-lt (length log) h)), tt)
            (omega arith))
          (stay (record m { slots = set p.slots i e; log = log ++ (e ∷ []) })))

  publish_call :
      (p : Producer E) (log : List E) (window : ℕ) (update : E → E) (old : E)
      (shows : Shows p log window) (small : length log < 2 ^ 61)
      → get_elem? p.slots (length log % p.ring_buffer.size) ≡ some old
      → apply_update update p
        ≡ done (
          pos (length log),
          moved p
              (set p.slots (length log % p.ring_buffer.size) (update old))
              (pos (length log))
              (pos (length log + 1)),
        )
  publish_call p log window update old shows small e =
      apply_update-moved p update (valid_of p log window shows small)
      ∙ ap
          (λ o.
            done (
              pos (length log),
              moved p (written_slots o) (pos (length log)) (pos (length log + 1)),
            ))
          e
    where
      written_slots : Option E → List E
      written_slots o = elim o [
        | none ↦ p.slots
        | some event ↦ set p.slots (length log % p.ring_buffer.size) (update event)
      ]

  -- Once the window holds the next sequence, the event is stored.
  pub run_granted :
      (p : Producer E) (update : E → E) (log : List E) (window : ℕ) (readers : List ℕ)
      → Shows p log window
      → length p.slots ≡ p.ring_buffer.size
      → length log < 2 ^ 61
      → length log < window
      → Ran p update log window readers
          (do applied ← apply_update update p; done (ok applied.0, count_published applied.1))
  unfolding Says
  run_granted p update log window readers shows slots_eq small w =
      let h = size-pos shows.ring in
      let (old, got) =
        get_elem?-some p.slots (length log % p.ring_buffer.size)
          (omega (arith, slots_eq, mod-lt (length log) h)) in
      record {
        answer = ok (pos (length log));
        after = stored p (length log) (update old);
        log' = log ++ (update old ∷ []);
        window' = window;
        returns =
            ap (λ m. m >>= λ applied. done (ok applied.0, count_published applied.1))
              (publish_call p log window update old shows small got);
        steps = publish-Steps p log window readers (update old) h slots_eq w;
        shows = record {
          ring = shows.ring;
          next_eq = ap pos (omega (arith, length-append log (update old ∷ [])));
          cursor_eq = cursor_after log (update old);
          window_le = shows.window_le;
        };
        says = (refl, old, got, refl);
      }
