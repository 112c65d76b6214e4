-- ===== src/Oracle/Verdicts.antt =====
-- When the oracle finds nothing.
use myelon.Common.{
  ℕ, suc, ◌≤◌, ◌<◌, ◌≡◌, ◌↔◌, refl, ap, arith, true, false, Bool-cases, inl, inr, not, Option, none,
  some, List, [], ◌∷◌, ◌++◌, ltb, ◌==◌, ==→eq, eq→==, ◌⊎◌, length, if◌then◌else◌,
}
use myelon.Oracle.Defs.{OracleMessage, OracleViolation, only, reorder, payload, verify_loop}

-- The same message, whenever it was sent.
abbrev pub SameMessage : OracleMessage → OracleMessage → Type 0
SameMessage a e =
    (a.sequence ≡ e.sequence) × (a.payload_hash ≡ e.payload_hash) × (a.payload_len ≡ e.payload_len)

abbrev pub After : Option ℕ → OracleMessage → Type 0
After none a = Unit
After (some prev) a = prev < a.sequence

-- The messages that were expected, one by one, and in ascending order.
abbrev pub Agrees : Option ℕ → List OracleMessage → List OracleMessage → Type 0
Agrees previous [] [] = Unit
Agrees previous [] (e ∷ expected) = ⊥
Agrees previous (a ∷ actual) [] = ⊥
Agrees previous (a ∷ actual) (e ∷ expected) =
    After previous a × SameMessage a e × Agrees (some a.sequence) actual expected

pub nil_parts {ℓ} : {A : Type ℓ} (xs ys : List A) → xs ++ ys ≡ [] → (xs ≡ []) × (ys ≡ [])
nil_parts [] ys h = (refl, h)
nil_parts (x ∷ xs) ys h = absurd (cc)

reorder-After :
    (c : ℕ) (previous : Option ℕ) (a : OracleMessage)
    → (reorder c previous a ≡ []) ↔ After previous a
reorder-After c none a = (λ _. tt, λ _. refl)
reorder-After c (some prev) a = (λ h. ground arith, λ h. ground arith)

payload_same :
    (c : ℕ) (a e : OracleMessage)
    → (payload c a e ≡ []) ↔ ((a.payload_hash ≡ e.payload_hash) × (a.payload_len ≡ e.payload_len))
payload_same c a e = (λ h. ground arith, λ h. ground arith)

module _ (c x y : ℕ) where
  loop_silent :
      (previous : Option ℕ) (actual expected : List OracleMessage)
      → Agrees previous actual expected
      → verify_loop c x y previous actual expected ≡ []
  unfolding verify_loop
  loop_silent previous [] [] h = refl
  loop_silent previous [] (e ∷ expected) h = refl
  loop_silent previous (a ∷ actual) [] h = elim h [ ]
  loop_silent previous (a ∷ actual) (e ∷ expected) h =
      rw
        (
          (reorder-After c previous a).1 h.0,
          eq→== a.sequence e.sequence h.1.0,
          (payload_same c a e).1 (h.1.1, h.1.2),
          loop_silent (some a.sequence) actual expected h.2,
        )
        refl

  loop-Agrees :
      (previous : Option ℕ) (actual expected : List OracleMessage)
      → verify_loop c x y previous actual expected ≡ []
      → length expected ≤ length actual
      → Agrees previous actual expected
  unfolding verify_loop
  loop-Agrees previous [] [] h k = tt
  loop-Agrees previous [] (e ∷ expected) h k = absurd (omega arith)
  loop-Agrees previous (a ∷ actual) [] h k =
      absurd (let p = nil_parts (reorder c previous a) _ h in cc)
  loop-Agrees previous (a ∷ actual) (e ∷ expected) h k =
      let more = verify_loop c x y (some a.sequence) actual expected in
      let rest =
        (if not (a.sequence == e.sequence)
          then OracleViolation.sequence_gap c e.sequence a.sequence ∷ more
          else payload c a e ++ more) in
      let ordered = nil_parts (reorder c previous a) rest h in
      let both =
        same (Bool-cases (a.sequence == e.sequence)) ordered.1
          (λ silent. loop-Agrees (some a.sequence) actual expected silent (omega arith)) in
      ((reorder-After c previous a).0 ordered.0, both.0, both.1)
    where
      same :
          ((a.sequence == e.sequence) ≡ true) ⊎ ((a.sequence == e.sequence) ≡ false)
          → (if not (a.sequence == e.sequence)
              then OracleViolation.sequence_gap c e.sequence a.sequence
                ∷ verify_loop c x y (some a.sequence) actual expected
              else payload c a e ++ verify_loop c x y (some a.sequence) actual expected)
            ≡ []
          → (verify_loop c x y (some a.sequence) actual expected ≡ []
              → Agrees (some a.sequence) actual expected)
          → SameMessage a e × Agrees (some a.sequence) actual expected
      same (inl eq) h ih =
          let parts =
            nil_parts (payload c a e) (verify_loop c x y (some a.sequence) actual expected)
              (rw eq at h) in
          let fields = (payload_same c a e).0 parts.0 in
          ((==→eq a.sequence e.sequence eq, fields.0, fields.1), ih parts.1)
      same (inr ne) h ih = absurd (let cons = rw ne at h in cc)

Agrees-length :
    (previous : Option ℕ) (actual expected : List OracleMessage)
    → Agrees previous actual expected
    → length actual ≡ length expected
Agrees-length previous [] [] h = refl
Agrees-length previous [] (e ∷ expected) h = elim h [ ]
Agrees-length previous (a ∷ actual) [] h = elim h [ ]
Agrees-length previous (a ∷ actual) (e ∷ expected) h =
    ap suc (Agrees-length (some a.sequence) actual expected h.2)

-- All that one check finds.
abbrev pub found : ℕ → List OracleMessage → List OracleMessage → List OracleViolation
found c actual expected =
    verify_loop c (length expected) (length actual) none actual expected
    ++ only (ltb (length actual) (length expected))
        (OracleViolation.missing_messages c (length expected) (length actual))

pub found-Agrees :
    (c : ℕ) (actual expected : List OracleMessage)
    → (found c actual expected ≡ []) ↔ Agrees none actual expected
found-Agrees c actual expected = (silent, λ h. agreed h)
  where
    silent : found c actual expected ≡ [] → Agrees none actual expected
    silent h =
        let parts =
          nil_parts (verify_loop c (length expected) (length actual) none actual expected) _ h in
        loop-Agrees c (length expected) (length actual) none actual expected parts.0 (ground arith)

    agreed : Agrees none actual expected → found c actual expected ≡ []
    agreed h =
        let size = Agrees-length none actual expected h in
        let short : ltb (length actual) (length expected) ≡ false = ground (arith, size) in
        rw (loop_silent c (length expected) (length actual) none actual expected h, short) refl
