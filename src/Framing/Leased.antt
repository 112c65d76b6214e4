-- ===== src/Framing/Leased.antt =====
-- The lease-scoped receiver, which reassembles into the caller's buffer.
use mathlib.Core.List.{flatten}
use myelon.Common.{
  Option, inl, inr, ℕ, take, drop, ◌+◌, ◌^◌, ◌<◌, ◌≡◌, none, List, [], ◌∷◌, ◌++◌, append-nil,
  append_assoc, arith, length, true, false, ◌≢◌, ne→==, ==_refl, length-append,
}
use myelon.Common.Outcome.{done}
use myelon.Framing.Flags.{is_last_frame-frame_flags, is_single_frame-frame_flags}
use myelon.Framing.Frame.{FrameType}
use myelon.Framing.Buffer.{ReassemblyBuffer, IsValid, Holds, start-Holds, append-Holds}
use myelon.Framing.Publish.{chunks_fuel}
use myelon.Framing.Fragments.{flagged, fragments, flatten-chunks_fuel}
use myelon.Framing.Channel.{Sized, publish, Carries, publish-Carries}
use myelon.Framing.Receive.{
  ReceivedMessageMeta, gather_leased, recv_framed_message_leased_with_meta,
}
use myelon.Framing.RoundTrip.{Weave, end, own, other, Stream, opened}

module _ (F : FrameType) (kind msg_id : ℕ) {left : List F.T} where
  gather_leased_lem :
      (c : List ℕ) (cs : List (List ℕ)) {ts s : List F.T} (r : ReassemblyBuffer) (acc : List ℕ)
      → Weave F msg_id left ts s
      → Carries F kind msg_id ts (flagged false (c ∷ cs))
      → Holds r msg_id kind none acc
      → length acc + length (flatten (c ∷ cs)) < 2 ^ 63
      → (r' : ReassemblyBuffer) × (gather_leased F.meta msg_id r s ≡ done (r', left))
        × Holds r' msg_id kind none (acc ++ flatten (c ∷ cs))
  unfolding gather_leased flatten
  gather_leased_lem c [] r acc end h held small = absurd h
  gather_leased_lem c (d ∷ cs) r acc end h held small = absurd h
  gather_leased_lem c cs r acc (other e ne w) h held small =
      rw (e, ne→== _ msg_id ne) (gather_leased_lem c cs r acc w h held small)
  gather_leased_lem c [] r acc (own end) h held small =
      let (r', added, held') = append-Holds r c held (omega (arith, length-append c [])) in
      (
        r',
        rw (h.0, ==_refl msg_id, added, is_last_frame-frame_flags false true),
        rw (append-nil c) held',
      )
  gather_leased_lem c [] r acc (own (own w)) h held small = absurd h.1
  gather_leased_lem c [] r acc (own (other e ne w)) h held small = absurd h.1
  gather_leased_lem c (d ∷ cs) r acc (own w) h held small =
      let (r', added, held') =
        append-Holds r c held (omega (arith, length-append c (flatten (d ∷ cs)))) in
      let (r'', rest, held'') =
        gather_leased_lem d cs r' (acc ++ c) w h.1 held'
          (omega (arith, length-append acc c, length-append c (flatten (d ∷ cs)))) in
      (
        r'',
        rw (h.0, ==_refl msg_id, added, is_last_frame-frame_flags false false) rest,
        rw (append_assoc acc c (flatten (d ∷ cs))) at held'',
      )

  module _ {R : Type 0} (handler : ReceivedMessageMeta → List ℕ → R) where
    leased_flagged :
        (now : ℕ) (c : List ℕ) (cs : List (List ℕ)) {ts s : List F.T} (r : ReassemblyBuffer)
        → Stream F msg_id left ts s
        → Carries F kind msg_id ts (flagged true (c ∷ cs))
        → IsValid r
        → length (flatten (c ∷ cs)) < 2 ^ 63
        → (r' : ReassemblyBuffer) × (recv_framed_message_leased_with_meta F.meta handler now r s
            ≡ done (
              handler
                  (record {
                    kind = kind;
                    msg_id = msg_id;
                    sent_timestamp_ns = none;
                    received_timestamp_ns = now;
                  })
                  (flatten (c ∷ cs)),
              r',
              left,
            ))
          × IsValid r'
    unfolding recv_framed_message_leased_with_meta flatten
    leased_flagged now c [] r (opened end) h v small =
        (r, rw (h.0, is_single_frame-frame_flags true true, append-nil c), v)
    leased_flagged now c [] r (opened (own w)) h v small = absurd h.1
    leased_flagged now c [] r (opened (other e ne w)) h v small = absurd h.1
    leased_flagged now c (d ∷ cs) r (opened w) h v small =
        let bound : length c + length (flatten (d ∷ cs)) < 2 ^ 63 =
          omega (arith, length-append c (flatten (d ∷ cs))) in
        let (r', started, held) =
          start-Holds r msg_id kind c (length c) none v (omega arith) (omega arith) in
        let (r'', gathered, held') = gather_leased_lem d cs r' c w h.1 held bound in
        (
          r'',
          rw (
            h.0,
            is_single_frame-frame_flags true false,
            started,
            is_last_frame-frame_flags true false,
            gathered,
            held'.gathered,
          ),
          held'.valid,
        )

    leased_fragments :
        (now : ℕ) (payload : List ℕ) {ts s : List F.T} (r : ReassemblyBuffer)
        → F.capacity ≢ 0
        → length payload < 2 ^ 63
        → Stream F msg_id left ts s
        → Carries F kind msg_id ts (fragments F.capacity payload)
        → IsValid r
        → (r' : ReassemblyBuffer) × (recv_framed_message_leased_with_meta F.meta handler now r s
            ≡ done (
              handler
                  (record {
                    kind = kind;
                    msg_id = msg_id;
                    sent_timestamp_ns = none;
                    received_timestamp_ns = now;
                  })
                  payload,
              r',
              left,
            ))
          × IsValid r'
    unfolding chunks_fuel flatten
    leased_fragments now [] r pos small w h v = leased_flagged now [] [] r w h v (omega arith)
    leased_fragments now (b ∷ bs) r pos small w h v =
        let joined = flatten-chunks_fuel (length (b ∷ bs)) F.capacity (b ∷ bs) pos (omega arith) in
        rw joined at (
          leased_flagged now (take F.capacity (b ∷ bs))
            (chunks_fuel (length bs) F.capacity (drop F.capacity (b ∷ bs))) r w h v
            (rw joined small))

-- The lease-scoped receiver, with a well-formed buffer whatever it held before, hands the handler
-- the message of less than 2 ^ 63 bytes that was published into slots of the declared size
-- (positive, below 2 ^ 32), also when frames of other messages stand between its frames, and
-- leaves the buffer well formed.
pub recv_framed_message_leased_with_meta-publish :
    (F : FrameType) (grants : ℕ → Option F.T) (payload : List ℕ) (kind msg_id now : ℕ) {next : ℕ}
    {ts left s : List F.T} {R : Type 0} (handler : ReceivedMessageMeta → List ℕ → R)
    (r : ReassemblyBuffer)
    → ((n : ℕ) → Sized F (grants n))
    → F.capacity ≢ 0
    → F.capacity < 2 ^ 32
    → length payload < 2 ^ 63
    → publish F grants payload kind (msg_id, []) ≡ done (next, ts)
    → Stream F msg_id left ts s
    → IsValid r
    → (r' : ReassemblyBuffer) × (recv_framed_message_leased_with_meta F.meta handler now r s
        ≡ done (
          handler
              (record {
                kind = kind;
                msg_id = msg_id;
                sent_timestamp_ns = none;
                received_timestamp_ns = now;
              })
              payload,
          r',
          left,
        ))
      × IsValid r'
recv_framed_message_leased_with_meta-publish F grants payload kind msg_id now {ts = ts} handler r
      sized pos small len wrote w v =
    elim (publish-Carries F grants payload kind msg_id [] sized pos small len) [
      | inl (n, full, waits) ↦ absurd (cc)
      | inr (ts', wrote', carried) ↦
          let same : ts' ≡ ts = cc in
          leased_fragments F kind msg_id handler now payload r pos len w (rw same at carried) v
    ]
