-- ===== src/Framing/RoundTrip.antt =====
-- Receiving what was published, with frames of other messages in between.
use mathlib.Core.List.{flatten}
use myelon.Common.{
  Option, inl, inr, ℕ, take, drop, ◌^◌, ◌<◌, ◌≡◌, ◌∙◌, ap, none, List, [], ◌∷◌, ◌++◌, append-nil,
  append_assoc, arith, length, true, false, ◌≢◌, ne→==, ==_refl,
}
use myelon.Common.Outcome.{done}
use myelon.Framing.Flags.{is_last_frame-frame_flags, is_single_frame-frame_flags}
use myelon.Framing.Frame.{FrameMeta, FrameType}
use myelon.Framing.Publish.{chunks_fuel}
use myelon.Framing.Fragments.{flagged, fragments, flatten-chunks_fuel}
use myelon.Framing.Channel.{Sized, publish, Carries, publish-Carries}
use myelon.Framing.Receive.{gather, recv_framed_message_with_meta}

-- `stream` holds the frames `own` in their order, then `left`; before the last of `own` it may hold
-- frames of other messages than `msg_id`.
pub data Weave (F : FrameType) (msg_id : ℕ) (left : List F.T) : List F.T → List F.T → Type 0 where
  end : Weave F msg_id left [] left
  own :
      {t : F.T} {ts s : List F.T} → Weave F msg_id left ts s → Weave F msg_id left (t ∷ ts) (t ∷ s)
  other :
      {t g : F.T} {ts s : List F.T} {m : FrameMeta}
      → F.meta g ≡ done m
      → m.msg_id ≢ msg_id
      → Weave F msg_id left (t ∷ ts) s
      → Weave F msg_id left (t ∷ ts) (g ∷ s)

-- The first frame of the message comes first.
pub data Stream (F : FrameType) (msg_id : ℕ) (left : List F.T) : List F.T → List F.T → Type 0 where
  opened :
      {t : F.T} {ts s : List F.T} → Weave F msg_id left ts s → Stream F msg_id left (t ∷ ts) (t ∷ s)

module _ (F : FrameType) (kind msg_id : ℕ) {left : List F.T} where
  gather_lem :
      (c : List ℕ) (cs : List (List ℕ)) {ts s : List F.T} (acc : List ℕ)
      → Weave F msg_id left ts s
      → Carries F kind msg_id ts (flagged false (c ∷ cs))
      → gather F.meta msg_id acc s ≡ done (acc ++ flatten (c ∷ cs), left)
  unfolding gather flatten
  gather_lem c [] acc end h = absurd h
  gather_lem c (d ∷ cs) acc end h = absurd h
  gather_lem c cs acc (other e ne w) h = rw (e, ne→== _ msg_id ne) (gather_lem c cs acc w h)
  gather_lem c [] acc (own end) h =
      rw (h.0, ==_refl msg_id, is_last_frame-frame_flags false true, append-nil c)
  gather_lem c [] acc (own (own w)) h = absurd h.1
  gather_lem c [] acc (own (other e ne w)) h = absurd h.1
  gather_lem c (d ∷ cs) acc (own w) h =
      rw (h.0, ==_refl msg_id, is_last_frame-frame_flags false false)
        (gather_lem d cs (acc ++ c) w h.1
          ∙ ap (λ r. done (r, left)) (append_assoc acc c (flatten (d ∷ cs))))

  recv_flagged :
      (now : ℕ) (c : List ℕ) (cs : List (List ℕ)) {ts s : List F.T}
      → Stream F msg_id left ts s
      → Carries F kind msg_id ts (flagged true (c ∷ cs))
      → recv_framed_message_with_meta F.meta now s
        ≡ done (
          (
            record {
              kind = kind;
              msg_id = msg_id;
              sent_timestamp_ns = none;
              received_timestamp_ns = now;
            },
            flatten (c ∷ cs),
          ),
          left,
        )
  unfolding recv_framed_message_with_meta flatten
  recv_flagged now c [] (opened end) h =
      rw (h.0, is_single_frame-frame_flags true true, append-nil c)
  recv_flagged now c [] (opened (own w)) h = absurd h.1
  recv_flagged now c [] (opened (other e ne w)) h = absurd h.1
  recv_flagged now c (d ∷ cs) (opened w) h = rw (
    h.0,
    is_single_frame-frame_flags true false,
    is_last_frame-frame_flags true false,
    gather_lem d cs c w h.1,
  )

  recv_fragments :
      (now : ℕ) (payload : List ℕ) {ts s : List F.T}
      → F.capacity ≢ 0
      → Stream F msg_id left ts s
      → Carries F kind msg_id ts (fragments F.capacity payload)
      → recv_framed_message_with_meta F.meta now s
        ≡ done (
          (
            record {
              kind = kind;
              msg_id = msg_id;
              sent_timestamp_ns = none;
              received_timestamp_ns = now;
            },
            payload,
          ),
          left,
        )
  unfolding chunks_fuel flatten
  recv_fragments now [] pos w h = recv_flagged now [] [] w h
  recv_fragments now (b ∷ bs) pos w h =
      rw (flatten-chunks_fuel (length (b ∷ bs)) F.capacity (b ∷ bs) pos (omega arith)) at (
        recv_flagged now (take F.capacity (b ∷ bs))
          (chunks_fuel (length bs) F.capacity (drop F.capacity (b ∷ bs))) w h)

-- Round trip: what a publish of less than 2 ^ 63 bytes has written, into slots of the declared
-- size (positive, below 2 ^ 32), is received as the same message, payload and kind unchanged and
-- with the time of receipt, also when frames of other messages stand between its frames; the
-- frames behind it are left in the stream.
pub recv_framed_message_with_meta-publish :
    (F : FrameType) (grants : ℕ → Option F.T) (payload : List ℕ) (kind msg_id now : ℕ) {next : ℕ}
    {ts left s : List F.T}
    → ((n : ℕ) → Sized F (grants n))
    → F.capacity ≢ 0
    → F.capacity < 2 ^ 32
    → length payload < 2 ^ 63
    → publish F grants payload kind (msg_id, []) ≡ done (next, ts)
    → Stream F msg_id left ts s
    → recv_framed_message_with_meta F.meta now s
      ≡ done (
        (
          record {
            kind = kind;
            msg_id = msg_id;
            sent_timestamp_ns = none;
            received_timestamp_ns = now;
          },
          payload,
        ),
        left,
      )
recv_framed_message_with_meta-publish F grants payload kind msg_id now {ts = ts} sized pos small len
      wrote w =
    elim (publish-Carries F grants payload kind msg_id [] sized pos small len) [
      | inl (n, full, waits) ↦ absurd (cc)
      | inr (ts', wrote', carried) ↦
          let same : ts' ≡ ts = cc in
          recv_fragments F kind msg_id now payload pos w (rw same at carried)
    ]
