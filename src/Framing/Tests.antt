-- ===== src/Framing/Tests.antt =====
-- The framing on a message of six bytes in frames of four, and the theorems applied to it.
use mathlib.Core.List.{flatten}
use myelon.Common.{
  some, length, Option, ℕ, ◌≡◌, refl, none, List, [], ◌∷◌, ◌++◌, arith, length, replicate,
}
use myelon.Common.Outcome.{Outcome, done, ◌>>=◌}
use myelon.Common.Result.{ok, err}
use myelon.Common.Word.{u32}
use myelon.Framing.Flags.{frame_flags}
use myelon.Framing.Frame.{
  FixedFrame, FrameType, meta_of, fixed_frame, fixed_write, fixed_meta, fixed_write-meta,
}
use myelon.Framing.Buffer.{
  ReassemblyBuffer, bytes, new, IsValid, Holds, append, new-IsValid, append-Holds,
}
use myelon.Framing.Publish.{
  chunks_fuel, in_place_loop, publish_framed_payload_in_place, Fallible,
  publish_framed_payload_result_in_place, publish_framed_payload, publish_framed_payload_result,
  make_then_write, make_then_try,
}
use myelon.Framing.Fragments.{
  fragments, write_all, try_all, publish_framed_payload_in_place-eq-write_all,
}
use myelon.Framing.Variants.{
  publish_framed_payload_result_in_place-eq-try_all, whole_frame_variants-eq,
}
use myelon.Framing.Channel.{publish, write_slot}
use myelon.Framing.Receive.{
  ReceivedMessageMeta, recv_framed_message_with_meta, recv_framed_message_leased_with_meta,
}
use myelon.Framing.RoundTrip.{
  end, own, other, Stream, opened, recv_framed_message_with_meta-publish,
}
use myelon.Framing.Leased.{recv_framed_message_leased_with_meta-publish}
use myelon.Framing.Session.{Message, publish_all, process_calls, process_calls-publish_all}

abbrev payload : List ℕ
payload = 1 ∷ 2 ∷ 3 ∷ 4 ∷ 5 ∷ 6 ∷ []

abbrev frame : FrameType
frame = fixed_frame 4

abbrev stale : FixedFrame
stale = record { len = 9; kind = 9; flags = 9; msg_id = 9; bytes = replicate 4 9 }

-- A slot gets free for each event.
abbrev grants : ℕ → Option FixedFrame
grants n = some stale

abbrev head_frame : FixedFrame
head_frame = record { len = 4; kind = 7; flags = 1; msg_id = 3; bytes = 1 ∷ 2 ∷ 3 ∷ 4 ∷ [] }

abbrev tail_frame : FixedFrame
tail_frame = record { len = 2; kind = 7; flags = 2; msg_id = 3; bytes = 5 ∷ 6 ∷ 9 ∷ 9 ∷ [] }

abbrev foreign_frame : FixedFrame
foreign_frame = record { len = 1; kind = 5; flags = 3; msg_id = 8; bytes = 0 ∷ 0 ∷ 0 ∷ 0 ∷ [] }

published : publish frame grants payload 7 (3, []) ≡ done (4, head_frame ∷ tail_frame ∷ [])
unfolding publish publish_framed_payload_in_place in_place_loop chunks_fuel write_slot fixed_write
    frame_flags
published = refl

foreign_meta : fixed_meta foreign_frame ≡ done (meta_of (0 ∷ []) 5 8 3)
unfolding fixed_meta
foreign_meta = refl

woven :
    Stream frame 3
      (foreign_frame ∷ [])
      (head_frame ∷ tail_frame ∷ [])
      (head_frame ∷ foreign_frame ∷ tail_frame ∷ foreign_frame ∷ [])
woven = opened (other foreign_meta (λ e. absurd (omega arith)) (own end))

abbrev seen : ReceivedMessageMeta
seen = record { kind = 7; msg_id = 3; sent_timestamp_ns = none; received_timestamp_ns = 100 }

recv_framed_message_with_meta-publish_example :
    recv_framed_message_with_meta frame.meta 100
      (head_frame ∷ foreign_frame ∷ tail_frame ∷ foreign_frame ∷ [])
    ≡ done ((seen, payload), foreign_frame ∷ [])
recv_framed_message_with_meta-publish_example =
    recv_framed_message_with_meta-publish frame grants payload 7 3 100 (λ i. refl)
      (λ e. absurd (omega arith)) (omega arith) (omega arith) published woven

recv_framed_message_leased_with_meta-publish_example :
    (r' : ReassemblyBuffer) × (recv_framed_message_leased_with_meta frame.meta
        (λ m received. received)
        100
        (new 3)
        (head_frame ∷ foreign_frame ∷ tail_frame ∷ foreign_frame ∷ [])
      ≡ done (payload, r', foreign_frame ∷ []))
    × IsValid r'
recv_framed_message_leased_with_meta-publish_example =
    recv_framed_message_leased_with_meta-publish frame grants payload 7 3 100
      (λ m received. received) (new 3) (λ i. refl) (λ e. absurd (omega arith)) (omega arith)
      (omega arith) published woven (new-IsValid 3)

abbrev messages : List Message
messages = (7, payload) ∷ (2, []) ∷ []

abbrev session : List FixedFrame
session =
    head_frame
    ∷ tail_frame
    ∷ record { len = 0; kind = 2; flags = 3; msg_id = 4; bytes = replicate 4 9 }
    ∷ []

session_published : publish_all frame grants messages (3, []) ≡ done (5, session)
unfolding publish_all publish publish_framed_payload_in_place in_place_loop chunks_fuel write_slot
    fixed_write frame_flags
session_published = refl

-- The first call gets one frame, the second the rest.
abbrev calls : List (List FixedFrame)
calls =
    (head_frame ∷ [])
    ∷ (tail_frame ∷ record { len = 0; kind = 2; flags = 3; msg_id = 4; bytes = replicate 4 9 } ∷ [])
    ∷ []

calls_flat : flatten calls ≡ session
unfolding flatten
calls_flat = refl

abbrev collect : ℕ → List ℕ → List Message → List Message
collect kind received got = got ++ ((kind, received) ∷ [])

process_calls-publish_all_example :
    (r' : ReassemblyBuffer) × (process_calls frame.meta collect calls (new 0, [])
      ≡ done (2, (r', messages)))
    × IsValid r'
process_calls-publish_all_example =
    process_calls-publish_all frame grants collect (λ i. refl) (λ e. absurd (omega arith))
      (omega arith) messages 3 calls (new 0) [] (omega arith, (omega arith, tt)) session_published
      calls_flat (new-IsValid 0)

abbrev empty_message : ReassemblyBuffer
empty_message = record { buf = []; len = 0; msg_id = 3; kind = 7; sent_timestamp_ns = none }

empty_message-Holds : Holds empty_message 3 7 none []
unfolding bytes
empty_message-Holds = record {
  valid = record { whole = omega arith; within = omega arith };
  gathered = refl;
  len_eq = refl;
  id_eq = refl;
  kind_eq = refl;
  sent_eq = refl;
}

append-Holds_example :
    (r' : ReassemblyBuffer) × (append empty_message payload ≡ done r') × Holds r' 3 7 none payload
append-Holds_example = append-Holds empty_message payload empty_message-Holds (omega arith)

fixed_write-meta_example :
    (t' : FixedFrame) × (fixed_write 4 stale (5 ∷ 6 ∷ []) 7 3 2 ≡ done t')
    × (length t'.bytes ≡ 4)
    × (fixed_meta t' ≡ done (meta_of (5 ∷ 6 ∷ []) 7 3 2))
fixed_write-meta_example =
    fixed_write-meta 4 stale (5 ∷ 6 ∷ []) 7 3 2 refl (omega arith) (omega arith)

-- A writer that keeps its calls, and one that refuses the second.
abbrev Calls : Type 0
Calls = List (List ℕ × ℕ)

abbrev note : List ℕ → ℕ → ℕ → ℕ → Calls → Outcome Calls
note chunk kind msg_id flags s = done (s ++ ((chunk, flags) ∷ []))

abbrev refuse : List ℕ → ℕ → ℕ → ℕ → Calls → Fallible Calls ℕ
refuse chunk kind msg_id flags [] = done (ok tt, (chunk, flags) ∷ [])
refuse chunk kind msg_id flags (c ∷ s) = done (err 5, c ∷ s)

publish_framed_payload_in_place-eq-write_all_example :
    publish_framed_payload_in_place note payload 7 4 (3, [])
    ≡ (write_all note 7 3 (fragments 4 payload) [] >>= λ s'. done (u32 4, s'))
publish_framed_payload_in_place-eq-write_all_example =
    publish_framed_payload_in_place-eq-write_all note payload 7 4 3 [] (λ e. absurd (omega arith))
      (omega arith) (omega arith)

publish_framed_payload_result_in_place-eq-try_all_example :
    publish_framed_payload_result_in_place refuse payload 7 4 (3, [])
    ≡ (try_all refuse 7 3 (fragments 4 payload) [] >>= λ r. done (u32 4, r))
publish_framed_payload_result_in_place-eq-try_all_example =
    publish_framed_payload_result_in_place-eq-try_all refuse payload 7 4 3 []
      (λ e. absurd (omega arith)) (omega arith) (omega arith)

abbrev make : List ℕ → ℕ → ℕ → ℕ → Calls → Outcome ((List ℕ × ℕ) × Calls)
make chunk kind msg_id flags s = done ((chunk, flags), s)

abbrev send : List ℕ × ℕ → Calls → Outcome Calls
send frame s = done (s ++ (frame ∷ []))

abbrev try_send : List ℕ × ℕ → Calls → Fallible Calls ℕ
try_send frame s = done (ok tt, s ++ (frame ∷ []))

whole_frame_variants-eq_example :
    (publish_framed_payload send make payload 7 4 (3, [])
      ≡ publish_framed_payload_in_place (make_then_write send make) payload 7 4 (3, []))
    × (publish_framed_payload_result try_send make payload 7 4 (3, [])
        ≡ publish_framed_payload_result_in_place (make_then_try try_send make) payload 7 4 (3, []))
whole_frame_variants-eq_example = whole_frame_variants-eq send try_send make payload 7 4 3 []
