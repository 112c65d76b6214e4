-- ===== src/Framing/Channel.antt =====
-- Frames on their way: `FramedTransportProducer::publish` writes each fragment over what its slot
-- held before; a reader sees the fragments' metadata.
use myelon.Common.{
  suc, ◌⊎◌, inl, inr, Option, none, some, Option-cases, subst, ℕ, ◌+◌, ◌^◌, ◌≤◌, ◌<◌, ◌≡◌, refl,
  sym, ◌∙◌, ap, List, [], ◌∷◌, ◌++◌, append-nil, append_assoc, arith, length, All, Bool, true,
  false, ◌≢◌,
}
use myelon.Common.Outcome.{Outcome, done, blocked, ◌>>=◌}
use myelon.Framing.Frame.{FrameType, meta_of}
use myelon.Framing.Publish.{chunks, publish_framed_payload_in_place}
use myelon.Framing.Fragments.{
  flagged, fragments, write_all, length-chunks_fuel, publish_framed_payload_in_place-eq-write_all,
}
use myelon.Common.Word.{u32}

module _ (F : FrameType) where
  -- The closure `|slot| slot.write_frame(chunk, kind, msg_id, flags)` in `inner.publish`, which spins while
  -- the ring is full: `grants n` is what the slot for the n-th event holds, and none where no slot ever
  -- gets free. The events published so far are the state.
  unfoldable pub write_slot : (ℕ → Option F.T) → List ℕ → ℕ → ℕ → ℕ → List F.T → Outcome (List F.T)
  write_slot grants chunk kind msg_id flags out = elim (grants (length out)) [
    | none ↦ blocked
    | some stale ↦ F.write stale chunk kind msg_id flags >>= λ t. done (out ++ (t ∷ []))
  ]

  unfoldable pub publish : (ℕ → Option F.T) → List ℕ → ℕ → ℕ × List F.T → Outcome (ℕ × List F.T)
  publish grants payload kind =
      publish_framed_payload_in_place (write_slot grants) payload kind F.capacity

  -- Each slot that is granted has the declared size.
  abbrev pub Sized : Option F.T → Type 0
  Sized none = Unit
  Sized (some stale) = F.IsSized stale

  -- A call that waits for ever at a slot that is not granted.
  abbrev pub Waits {ℓ} : {A : Type ℓ} → (ℕ → Option F.T) → Outcome A → Type ℓ
  Waits grants o = (n : ℕ) × (grants n ≡ none) × (o ≡ blocked)

  -- The frames `ts` carry the fragments `ps` of message `msg_id`.
  abbrev pub Carries : ℕ → ℕ → List F.T → List (List ℕ × ℕ) → Type 0
  Carries kind msg_id [] [] = Unit
  Carries kind msg_id [] (p ∷ ps) = ⊥
  Carries kind msg_id (t ∷ ts) [] = ⊥
  Carries kind msg_id (t ∷ ts) (p ∷ ps) =
      (F.meta t ≡ done (meta_of p.0 kind msg_id p.1)) × Carries kind msg_id ts ps

  pub Carries-length :
      (kind msg_id : ℕ) (ts : List F.T) (ps : List (List ℕ × ℕ))
      → Carries kind msg_id ts ps
      → length ts ≡ length ps
  Carries-length kind msg_id [] [] h = refl
  Carries-length kind msg_id [] (p ∷ ps) h = elim h [ ]
  Carries-length kind msg_id (t ∷ ts) [] h = elim h [ ]
  Carries-length kind msg_id (t ∷ ts) (p ∷ ps) h = ap suc (Carries-length kind msg_id ts ps h.1)

  abbrev pub Fits : List (List ℕ × ℕ) → Type 0
  Fits ps = All (λ p. (length p.0 ≤ F.capacity) × (length p.0 < 2 ^ 32)) ps

  flagged-Fits :
      (is_first : Bool) (cs : List (List ℕ))
      → F.capacity < 2 ^ 32
      → All (λ c. length c ≤ F.capacity) cs
      → Fits (flagged is_first cs)
  flagged-Fits is_first [] small h = tt
  flagged-Fits is_first (c ∷ []) small h = ((h.0, omega arith), tt)
  flagged-Fits is_first (c ∷ d ∷ cs) small h =
      ((h.0, omega arith), flagged-Fits false (d ∷ cs) small h.1)

  fragments-Fits : (payload : List ℕ) → F.capacity < 2 ^ 32 → Fits (fragments F.capacity payload)
  fragments-Fits [] small = ((omega arith, omega arith), tt)
  fragments-Fits (b ∷ bs) small =
      flagged-Fits true (chunks F.capacity (b ∷ bs)) small
        (length-chunks_fuel (length (b ∷ bs)) F.capacity (b ∷ bs))

  write_all-Carries :
      (grants : ℕ → Option F.T) (kind msg_id : ℕ) (ps : List (List ℕ × ℕ)) (out : List F.T)
      → ((n : ℕ) → Sized (grants n))
      → Fits ps
      → Waits grants (write_all (write_slot grants) kind msg_id ps out)
        ⊎ ((ts : List F.T) × (write_all (write_slot grants) kind msg_id ps out ≡ done (out ++ ts))
            × Carries kind msg_id ts ps)
  unfolding write_slot
  write_all-Carries grants kind msg_id [] out sized fits =
      inr ([], ap done (sym (append-nil out)), tt)
  write_all-Carries grants kind msg_id (p ∷ ps) out sized fits =
      elim (Option-cases (grants (length out))) [
        | inl full ↦ inl (length out, full, rw (write_slot, full) refl)
        | inr (held, free) ↦
            let (t, wrote, _, shows) =
              F.write-meta held p.0 kind msg_id p.1 (subst Sized free (sized (length out))) fits.0.0
                fits.0.1 in
            elim (write_all-Carries grants kind msg_id ps (out ++ (t ∷ [])) sized fits.1) [
              | inl (n, full, waits) ↦ inl (n, full, rw (write_slot, free, wrote) waits)
              | inr (ts, rest, carried) ↦ inr (
                t ∷ ts,
                rw (write_slot, free, wrote) (rest ∙ ap done (append_assoc out (t ∷ []) ts)),
                (shows, carried),
              )
            ]
      ]

  -- A publish into slots of the declared size waits at a slot that never gets free, or succeeds,
  -- whatever the slots held before: it appends frames that carry exactly the fragments of the payload.
  pub publish-Carries :
      (grants : ℕ → Option F.T) (payload : List ℕ) (kind msg_id : ℕ) (out : List F.T)
      → ((n : ℕ) → Sized (grants n))
      → F.capacity ≢ 0
      → F.capacity < 2 ^ 32
      → length payload < 2 ^ 63
      → Waits grants (publish grants payload kind (msg_id, out))
        ⊎ ((ts : List F.T) × (publish grants payload kind (msg_id, out)
              ≡ done (u32 (msg_id + 1), out ++ ts))
            × Carries kind msg_id ts (fragments F.capacity payload))
  unfolding publish
  publish-Carries grants payload kind msg_id out sized pos small len =
      let whole =
        publish_framed_payload_in_place-eq-write_all (write_slot grants) payload kind F.capacity
          msg_id out pos (omega arith) len in
      elim (write_all-Carries grants kind msg_id (fragments F.capacity payload) out sized
        (fragments-Fits payload small)) [
          | inl (n, full, waits) ↦ inl (n, full, whole ∙ (rw waits refl))
          | inr (ts, wrote, carried) ↦ inr (ts, whole ∙ (rw wrote refl), carried)
        ]
