-- ===== src/Framing/Delivery.antt =====
-- Batch receiving, frame by frame: the messages of one publish over `process_frames`.
use mathlib.Core.List.{flatten}
use mathlib.Core.Path.{fun_ext}
use myelon.Common.{
  ℕ, take, drop, ◌+◌, ◌^◌, ◌<◌, ◌≡◌, refl, sym, ◌∙◌, ap, ap₂, none, List, [], ◌∷◌, ◌++◌, append-nil,
  append_assoc, arith, length, Bool, true, false, ◌≢◌, ◌&&◌, eq→==, length-append, if◌then◌else◌,
}
use myelon.Common.Outcome.{Outcome, done, ◌>>=◌, >>=_assoc}
use myelon.Framing.Flags.{
  frame_flags, is_first_frame-frame_flags, is_last_frame-frame_flags, is_single_frame-frame_flags,
}
use myelon.Framing.Frame.{FrameMeta, FrameType, meta_of}
use myelon.Framing.Buffer.{
  ReassemblyBuffer, IsValid, Holds, start, append, reset, start-Holds, append-Holds, reset-IsValid,
}
use myelon.Framing.Publish.{chunks_fuel}
use myelon.Framing.Fragments.{flagged, fragments, flatten-chunks_fuel}
use myelon.Framing.Channel.{Carries}
use myelon.Framing.Batch.{Batch, accumulate, on_frame, process_frames}

module _ {T H : Type 0} (meta : T → Outcome FrameMeta) (handler : ℕ → List ℕ → H → H) where
  pub process_frames-append :
      (xs ys : List T) (b : Batch H)
      → process_frames meta handler (xs ++ ys) b
        ≡ (process_frames meta handler xs b >>= process_frames meta handler ys)
  unfolding process_frames
  process_frames-append [] ys b = refl
  process_frames-append (x ∷ xs) ys b =
      ap (λ k. on_frame meta handler x b >>= k) (fun_ext (process_frames-append xs ys))
      ∙ sym (
          >>=_assoc (on_frame meta handler x b) (process_frames meta handler xs)
            (process_frames meta handler ys))

accumulate_next :
    (r : ReassemblyBuffer) (c : List ℕ) (kind msg_id : ℕ) (l : Bool)
    → r.msg_id ≡ msg_id
    → accumulate (meta_of c kind msg_id (frame_flags false l)) r ≡ append r c
unfolding accumulate
accumulate_next r c kind msg_id l e =
    rw (is_first_frame-frame_flags false l, eq→== r.msg_id msg_id e)

accumulate_first :
    (r : ReassemblyBuffer) (c : List ℕ) (kind msg_id : ℕ) (l : Bool)
    → accumulate (meta_of c kind msg_id (frame_flags true l)) r
      ≡ start r msg_id kind c (length c) none
unfolding accumulate
accumulate_first r c kind msg_id l = rw (is_first_frame-frame_flags true l)

module _ {T H : Type 0} (meta : T → Outcome FrameMeta) (handler : ℕ → List ℕ → H → H) where
  on_frame-lone :
      (t : T) (c : List ℕ) (kind msg_id : ℕ) (b : Batch H)
      → meta t ≡ done (meta_of c kind msg_id (frame_flags true true))
      → on_frame meta handler t b
        ≡ done (record b { delivered = b.delivered + 1; handled = handler kind c b.handled })
  unfolding on_frame
  on_frame-lone t c kind msg_id b shows = rw (shows, is_single_frame-frame_flags true true)

  -- A frame that does not end its message only fills the buffer.
  on_frame-more :
      (t : T) (c : List ℕ) (kind msg_id : ℕ) (f : Bool) (b : Batch H) (r : ReassemblyBuffer)
      → meta t ≡ done (meta_of c kind msg_id (frame_flags f false))
      → accumulate (meta_of c kind msg_id (frame_flags f false)) b.reassembly ≡ done r
      → on_frame meta handler t b ≡ done (record b { reassembly = r })
  unfolding on_frame
  on_frame-more t c kind msg_id f b r shows e =
      rw (shows, is_single_frame-frame_flags f false, e, is_last_frame-frame_flags f false) (more f)
    where
      more :
          (f : Bool)
          → (if f && false
              then done
                  (record b { delivered = b.delivered + 1; handled = handler kind c b.handled })
              else done (record b { reassembly = r }))
            ≡ done (record b { reassembly = r })
      more true = refl
      more false = refl

  -- The last frame hands the gathered message over and resets the buffer.
  on_frame-last :
      (t : T) (c : List ℕ) (kind msg_id : ℕ) (b : Batch H) (r : ReassemblyBuffer) (payload : List ℕ)
      → meta t ≡ done (meta_of c kind msg_id (frame_flags false true))
      → accumulate (meta_of c kind msg_id (frame_flags false true)) b.reassembly ≡ done r
      → Holds r msg_id kind none payload
      → on_frame meta handler t b
        ≡ done (record {
          reassembly = reset r;
          delivered = b.delivered + 1;
          handled = handler kind payload b.handled;
        })
  unfolding on_frame
  on_frame-last t c kind msg_id b r payload shows e held =
      rw
        (
          shows,
          is_single_frame-frame_flags false true,
          e,
          is_last_frame-frame_flags false true,
          eq→== r.msg_id msg_id held.id_eq,
        )
        (ap₂
          (λ k p. done (record {
            reassembly = reset r;
            delivered = b.delivered + 1;
            handled = handler k p b.handled;
          }))
          held.kind_eq held.gathered)

module _ (F : FrameType) {H : Type 0} (handler : ℕ → List ℕ → H → H) (kind msg_id : ℕ) where
  -- What handling one whole message leaves.
  pub record Delivered (payload : List ℕ) (b b' : Batch H) : Type 0 where
    pub valid : IsValid b'.reassembly
    pub count : b'.delivered ≡ b.delivered + 1
    pub handled : b'.handled ≡ handler kind payload b.handled

  continue_lem :
      (c : List ℕ) (cs : List (List ℕ)) (ts : List F.T) (b : Batch H) (acc : List ℕ)
      → Carries F kind msg_id ts (flagged false (c ∷ cs))
      → Holds b.reassembly msg_id kind none acc
      → length acc + length (flatten (c ∷ cs)) < 2 ^ 63
      → (b' : Batch H) × (process_frames F.meta handler ts b ≡ done b')
        × Delivered (acc ++ flatten (c ∷ cs)) b b'
  unfolding process_frames flatten
  continue_lem c [] [] b acc h held small = absurd h
  continue_lem c (d ∷ cs) [] b acc h held small = absurd h
  continue_lem c [] (t ∷ u ∷ ts) b acc h held small = absurd h.1
  continue_lem c [] (t ∷ []) b acc h held small =
      let (r', added, held') =
        append-Holds b.reassembly c held (omega (arith, length-append c [])) in
      (
        record {
          reassembly = reset r';
          delivered = b.delivered + 1;
          handled = handler kind (acc ++ c) b.handled;
        },
        rw
            (on_frame-last F.meta handler t c kind msg_id b r' (acc ++ c) h.0
              (accumulate_next b.reassembly c kind msg_id true held.id_eq ∙ added) held')
            refl,
        record {
          valid = reset-IsValid r' held'.valid;
          count = refl;
          handled = rw (append-nil c) refl;
        },
      )
  continue_lem c (d ∷ cs) (t ∷ ts) b acc h held small =
      let (r', added, held') =
        append-Holds b.reassembly c held (omega (arith, length-append c (flatten (d ∷ cs)))) in
      let b₁ : Batch H = record b { reassembly = r' } in
      let (b', rest, delivered) =
        continue_lem d cs ts b₁ (acc ++ c) h.1 held'
          (omega (arith, length-append acc c, length-append c (flatten (d ∷ cs)))) in
      (
        b',
        rw
            (on_frame-more F.meta handler t c kind msg_id false b r' h.0
              (accumulate_next b.reassembly c kind msg_id false held.id_eq ∙ added))
            rest,
        record {
          valid = delivered.valid;
          count = delivered.count;
          handled =
              delivered.handled
              ∙ ap (λ p. handler kind p b.handled) (append_assoc acc c (flatten (d ∷ cs)));
        },
      )

  deliver_flagged :
      (c : List ℕ) (cs : List (List ℕ)) (ts : List F.T) (b : Batch H)
      → Carries F kind msg_id ts (flagged true (c ∷ cs))
      → IsValid b.reassembly
      → length (flatten (c ∷ cs)) < 2 ^ 63
      → (b' : Batch H) × (process_frames F.meta handler ts b ≡ done b')
        × Delivered (flatten (c ∷ cs)) b b'
  unfolding process_frames flatten
  deliver_flagged c [] [] b h v small = absurd h
  deliver_flagged c (d ∷ cs) [] b h v small = absurd h
  deliver_flagged c [] (t ∷ u ∷ ts) b h v small = absurd h.1
  deliver_flagged c [] (t ∷ []) b h v small = (
    record b { delivered = b.delivered + 1; handled = handler kind c b.handled },
    rw (on_frame-lone F.meta handler t c kind msg_id b h.0) refl,
    record { valid = v; count = refl; handled = rw (append-nil c) refl },
  )
  deliver_flagged c (d ∷ cs) (t ∷ ts) b h v small =
      let bound : length c + length (flatten (d ∷ cs)) < 2 ^ 63 =
        omega (arith, length-append c (flatten (d ∷ cs))) in
      let (r', started, held) =
        start-Holds b.reassembly msg_id kind c (length c) none v (omega arith) (omega arith) in
      let (b', rest, delivered) =
        continue_lem d cs ts (record b { reassembly = r' }) c h.1 held bound in
      (
        b',
        rw
            (on_frame-more F.meta handler t c kind msg_id true b r' h.0
              (accumulate_first b.reassembly c kind msg_id false ∙ started))
            rest,
        record { valid = delivered.valid; count = delivered.count; handled = delivered.handled },
      )

  -- The frames of one message cause one delivery.
  pub deliver_fragments :
      (payload : List ℕ) (ts : List F.T) (b : Batch H)
      → F.capacity ≢ 0
      → length payload < 2 ^ 63
      → Carries F kind msg_id ts (fragments F.capacity payload)
      → IsValid b.reassembly
      → (b' : Batch H) × (process_frames F.meta handler ts b ≡ done b') × Delivered payload b b'
  unfolding chunks_fuel flatten
  deliver_fragments [] ts b pos small h v = deliver_flagged [] [] ts b h v (omega arith)
  deliver_fragments (x ∷ xs) ts b pos small h v =
      let joined = flatten-chunks_fuel (length (x ∷ xs)) F.capacity (x ∷ xs) pos (omega arith) in
      rw joined at (
        deliver_flagged (take F.capacity (x ∷ xs))
          (chunks_fuel (length xs) F.capacity (drop F.capacity (x ∷ xs))) ts b h v
          (rw joined small))
