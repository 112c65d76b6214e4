-- ===== src/Framing/Session.antt =====
-- A session: many messages published one after the other, and many batch calls that receive them.
use mathlib.Core.List.{flatten}
use myelon.Common.{
  length-append, ◌⊎◌, inl, inr, Option, ℕ, ◌+◌, ◌^◌, ◌<◌, ◌≡◌, refl, sym, ◌∙◌, ap, ap₂, List, [],
  ◌∷◌, ◌++◌, append-nil, append_assoc, arith, length, ◌≢◌, All,
}
use myelon.Common.Outcome.{Outcome, done, panic, blocked, ◌>>=◌}
use myelon.Common.Word.{u32}
use myelon.Framing.Frame.{FrameMeta, FrameType}
use myelon.Framing.Buffer.{ReassemblyBuffer, IsValid}
use myelon.Framing.Fragments.{fragments}
use myelon.Framing.Channel.{Carries-length, Sized, Waits, publish, publish-Carries}
use myelon.Framing.Batch.{Batch, on_frame, process_frames, process_available_messages}
use myelon.Framing.Delivery.{process_frames-append, deliver_fragments}

-- A message: its kind and its payload.
abbrev pub Message : Type 0
Message = ℕ × List ℕ

unfoldable pub publish_all :
    (F : FrameType) → (ℕ → Option F.T) → List Message → ℕ × List F.T → Outcome (ℕ × List F.T)
publish_all F grants [] s = done s
publish_all F grants ((kind, payload) ∷ rest) s =
    publish F grants payload kind s >>= publish_all F grants rest

-- How many frames a list of messages takes.
abbrev pub frame_count : ℕ → List Message → ℕ
frame_count capacity [] = 0
frame_count capacity ((kind, payload) ∷ rest) =
    length (fragments capacity payload) + frame_count capacity rest

module _ {T H : Type 0} (meta : T → Outcome FrameMeta) (handler : ℕ → List ℕ → H → H) where
  -- Calls of `process_available_messages` one after the other; each gets the frames that are there.
  unfoldable pub process_calls :
      List (List T) → ReassemblyBuffer × H → Outcome (ℕ × (ReassemblyBuffer × H))
  process_calls [] s = done (0, s)
  process_calls (frames ∷ calls) s = process_available_messages meta handler frames s >>= λ (n, s').
      process_calls calls s' >>= λ (m, s''). done (n + m, s'')

  abbrev shift : ℕ → Batch H → Batch H
  shift k b = record b { delivered = k + b.delivered }

  on_frame-shift :
      (t : T) (k : ℕ) (b : Batch H)
      → on_frame meta handler t (shift k b)
        ≡ (on_frame meta handler t b >>= λ b'. done (shift k b'))
  unfolding on_frame
  on_frame-shift t k b = ground arith

  process_frames-shift :
      (ts : List T) (k : ℕ) (b : Batch H)
      → process_frames meta handler ts (shift k b)
        ≡ (process_frames meta handler ts b >>= λ b'. done (shift k b'))
  unfolding process_frames
  process_frames-shift [] k b = refl
  process_frames-shift (t ∷ ts) k b =
      rw (on_frame-shift t k b) (shift_bind (on_frame meta handler t b) (process_frames-shift ts k))
    where
      shift_bind :
          (o : Outcome (Batch H))
          → ((b' : Batch H)
              → process_frames meta handler ts (shift k b')
                ≡ (process_frames meta handler ts b' >>= λ b''. done (shift k b'')))
          → (o >>= (λ b'. done (shift k b')) >>= process_frames meta handler ts)
            ≡ (o >>= process_frames meta handler ts >>= λ b'. done (shift k b'))
      shift_bind (done b') ih = ih b'
      shift_bind panic ih = refl
      shift_bind blocked ih = refl

  abbrev report : Batch H → Outcome (ℕ × (ReassemblyBuffer × H))
  report b = done (b.delivered, (b.reassembly, b.handled))

  abbrev at_start : ReassemblyBuffer → H → Batch H
  at_start r h = record { reassembly = r; delivered = 0; handled = h }

  abbrev add_count : ℕ → ℕ × (ReassemblyBuffer × H) → Outcome (ℕ × (ReassemblyBuffer × H))
  add_count n (m, s) = done (n + m, s)

  report_shift :
      (ts : List T) (b : Batch H)
      → (process_frames meta handler ts (at_start b.reassembly b.handled)
          >>= report
          >>= add_count b.delivered)
        ≡ (process_frames meta handler ts b >>= report)
  report_shift ts b =
      sym (counted (process_frames meta handler ts (at_start b.reassembly b.handled)))
      ∙ ap (λ o. o >>= report)
          (sym (process_frames-shift ts b.delivered (at_start b.reassembly b.handled)))
      ∙ ap (λ n. process_frames meta handler ts (record b { delivered = n }) >>= report)
          (omega arith)
    where
      counted :
          (o : Outcome (Batch H))
          → (o >>= (λ b'. done (shift b.delivered b')) >>= report)
            ≡ (o >>= report >>= add_count b.delivered)
      counted (done b') = refl
      counted panic = refl
      counted blocked = refl

  -- How the frames are split over the calls makes no difference.
  process_calls-eq :
      (calls : List (List T)) (r : ReassemblyBuffer) (h : H)
      → process_calls calls (r, h)
        ≡ (process_frames meta handler (flatten calls) (at_start r h) >>= report)
  unfolding process_calls process_available_messages flatten
  process_calls-eq [] r h = refl
  process_calls-eq (frames ∷ calls) r h =
      rw (process_frames-append meta handler frames (flatten calls) (at_start r h))
        (next (process_frames meta handler frames (at_start r h)) (process_calls-eq calls))
    where
      next :
          (o : Outcome (Batch H))
          → ((r' : ReassemblyBuffer) (h' : H)
              → process_calls calls (r', h')
                ≡ (process_frames meta handler (flatten calls) (at_start r' h') >>= report))
          → (o >>= report >>= λ (n, s'). process_calls calls s' >>= add_count n)
            ≡ (o >>= process_frames meta handler (flatten calls) >>= report)
      next (done b) ih = rw (ih b.reassembly b.handled) (report_shift (flatten calls) b)
      next panic ih = refl
      next blocked ih = refl

-- What a list of messages does to the handler's environment.
abbrev pub handle_all : {H : Type 0} → (ℕ → List ℕ → H → H) → List Message → H → H
handle_all handler [] h = h
handle_all handler ((kind, payload) ∷ rest) h = handle_all handler rest (handler kind payload h)

module _ (F : FrameType) (grants : ℕ → Option F.T) {H : Type 0} (handler : ℕ → List ℕ → H → H)
    (sized : (n : ℕ) → Sized F (grants n)) (pos : F.capacity ≢ 0)
    (small : F.capacity < 2 ^ 32) where
  -- What receiving the frames `ts` of the messages `msgs` does, from any batch state.
  record Handles (msgs : List Message) (ts : List F.T) (b b' : Batch H) : Type 0 where
    ran : process_frames F.meta handler ts b ≡ done b'
    valid : IsValid b'.reassembly
    count : b'.delivered ≡ b.delivered + length msgs
    handled : b'.handled ≡ handle_all handler msgs b.handled

  publish_all-Handles :
      (msgs : List Message) (next : ℕ) (out : List F.T)
      → All (λ m. length m.1 < 2 ^ 63) msgs
      → Waits F grants (publish_all F grants msgs (next, out))
        ⊎ ((next' : ℕ) × (ts : List F.T) × (publish_all F grants msgs (next, out)
              ≡ done (next', out ++ ts))
            × (length ts ≡ frame_count F.capacity msgs)
            × ((b : Batch H) → IsValid b.reassembly → (b' : Batch H) × Handles msgs ts b b'))
  unfolding publish_all process_frames
  publish_all-Handles [] next out h = inr (
    next,
    [],
    ap (λ o. done (next, o)) (sym (append-nil out)),
    omega arith,
    λ b v. (b, record { ran = refl; valid = v; count = omega arith; handled = refl }),
  )
  publish_all-Handles ((kind, payload) ∷ msgs) next out h =
      elim (publish-Carries F grants payload kind next out sized pos small h.0) [
        | inl (n, full, waits) ↦ inl (n, full, rw (publish_all, waits) refl)
        | inr (ts, wrote, carried) ↦
            elim (publish_all-Handles msgs (u32 (next + 1)) (out ++ ts) h.1) [
              | inl (n, full, waits) ↦ inl (n, full, rw (publish_all, wrote) waits)
              | inr (next', us, rest, counted, handles) ↦ inr (
                next',
                ts ++ us,
                rw (publish_all, wrote) (rest ∙ ap (λ o. done (next', o)) (append_assoc out ts us)),
                omega (
                  arith,
                  length-append ts us,
                  counted,
                  Carries-length F kind next ts (fragments F.capacity payload) carried,
                ),
                λ b v.
                    let (b₁, ran, d) =
                      deliver_fragments F handler kind next payload ts b pos h.0 carried v in
                    let (b', later) = handles b₁ d.valid in
                    (
                      b',
                      record {
                        ran = process_frames-append F.meta handler ts us b ∙ rw ran later.ran;
                        valid = later.valid;
                        count = omega (arith, later.count, d.count);
                        handled = later.handled ∙ ap (handle_all handler msgs) d.handled;
                      },
                    ),
              )
            ]
      ]

  -- The frames of a list of messages, each below 2 ^ 63 bytes, that were published into slots of the
  -- declared size (positive, below 2 ^ 32), split in any way over calls of
  -- `process_available_messages`, cause one delivery for each message: the handler sees kind and
  -- payload of each, in the order of publishing, and the calls count as many messages; the
  -- reassembly buffer stays well formed.
  pub process_calls-publish_all :
      (msgs : List Message) (msg_id : ℕ) {next : ℕ} {ts : List F.T} (calls : List (List F.T))
      (r : ReassemblyBuffer) (h : H)
      → All (λ m. length m.1 < 2 ^ 63) msgs
      → publish_all F grants msgs (msg_id, []) ≡ done (next, ts)
      → flatten calls ≡ ts
      → IsValid r
      → (r' : ReassemblyBuffer) × (process_calls F.meta handler calls (r, h)
          ≡ done (length msgs, (r', handle_all handler msgs h)))
        × IsValid r'
  process_calls-publish_all msgs msg_id {ts = ts} calls r h fits wrote split v =
      elim (publish_all-Handles msgs msg_id [] fits) [
        | inl (n, full, waits) ↦ absurd (cc)
        | inr (next', ts', wrote', _, handles) ↦
            let same : ts' ≡ flatten calls = cc in
            let (b', got) = handles (record { reassembly = r; delivered = 0; handled = h }) v in
            (
              b'.reassembly,
              process_calls-eq F.meta handler calls r h
                  ∙ rw (rw same at got.ran) (
                      ap₂ (λ n e. done (n, (b'.reassembly, e))) (omega (arith, got.count))
                        got.handled),
              got.valid,
            )
      ]
