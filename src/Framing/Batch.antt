-- ===== src/Framing/Batch.antt =====
-- `process_available_messages` and its variant with metadata: each frame that `process_available`
-- yields updates the reassembly buffer, and a complete message goes to the handler, whose
-- environment is a state `H`. `now` is what `wall_clock_ns` returns.
use myelon.Common.{ℕ, ◌+◌, List, [], ◌∷◌, ◌==◌, ◌&&◌, if◌then◌else◌}
use myelon.Common.Outcome.{Outcome, done, ◌>>=◌}
use myelon.Framing.Flags.{is_single_frame, is_first_frame, is_last_frame}
use myelon.Framing.Frame.{FrameMeta}
use myelon.Framing.Buffer.{ReassemblyBuffer, start, append, bytes, reset}
use myelon.Framing.Receive.{ReceivedMessageMeta, received}

-- What a call carries from frame to frame.
pub record Batch (H : Type 0) : Type 0 where
  pub reassembly : ReassemblyBuffer
  pub delivered : ℕ
  pub handled : H

-- The buffer after a frame that is not a whole message.
unfoldable pub accumulate : FrameMeta → ReassemblyBuffer → Outcome ReassemblyBuffer
accumulate m r =
    if is_first_frame m.flags
    then start r m.msg_id m.kind m.payload m.len m.timestamp_ns
    else if r.msg_id == m.msg_id
    then append r m.payload
    else done r

module _ {T H : Type 0} (meta : T → Outcome FrameMeta) (handler : ℕ → List ℕ → H → H) where
  -- The closure of `process_available_messages`.
  unfoldable pub on_frame : T → Batch H → Outcome (Batch H)
  on_frame t b = meta t >>= λ m.
      if is_single_frame m.flags
      then done
          (record b { delivered = b.delivered + 1; handled = handler m.kind m.payload b.handled })
      else (accumulate m b.reassembly >>= λ r. done (
          if is_last_frame m.flags && r.msg_id == m.msg_id
          then record {
            reassembly = reset r;
            delivered = b.delivered + 1;
            handled = handler r.kind (bytes r) b.handled;
          }
          else record b { reassembly = r }))

  -- The frames of one `process_available`, in order.
  unfoldable pub process_frames : List T → Batch H → Outcome (Batch H)
  process_frames [] b = done b
  process_frames (t ∷ ts) b = on_frame t b >>= process_frames ts

  -- One call starts with nothing delivered, and returns the count.
  unfoldable pub process_available_messages :
      List T → ReassemblyBuffer × H → Outcome (ℕ × (ReassemblyBuffer × H))
  unfolding process_frames
  process_available_messages frames (r, h) =
      process_frames frames (record { reassembly = r; delivered = 0; handled = h }) >>= λ b.
      done (b.delivered, (b.reassembly, b.handled))

module _ {T H : Type 0} (meta : T → Outcome FrameMeta)
    (handler : ReceivedMessageMeta → List ℕ → H → H) (now : ℕ) where
  unfoldable pub on_frame_with_meta : T → Batch H → Outcome (Batch H)
  on_frame_with_meta t b = meta t >>= λ m.
      if is_single_frame m.flags
      then done (record b {
        delivered = b.delivered + 1;
        handled = handler (received m now) m.payload b.handled;
      })
      else (accumulate m b.reassembly >>= λ r.
          let message : ReceivedMessageMeta = record {
            kind = r.kind;
            msg_id = r.msg_id;
            sent_timestamp_ns = r.sent_timestamp_ns;
            received_timestamp_ns = now;
          } in
          done (
            if is_last_frame m.flags && r.msg_id == m.msg_id
            then record {
              reassembly = reset r;
              delivered = b.delivered + 1;
              handled = handler message (bytes r) b.handled;
            }
            else record b { reassembly = r }))

  unfoldable pub process_frames_with_meta : List T → Batch H → Outcome (Batch H)
  process_frames_with_meta [] b = done b
  process_frames_with_meta (t ∷ ts) b = on_frame_with_meta t b >>= process_frames_with_meta ts

  unfoldable pub process_available_messages_with_meta :
      List T → ReassemblyBuffer × H → Outcome (ℕ × (ReassemblyBuffer × H))
  unfolding process_frames_with_meta
  process_available_messages_with_meta frames (r, h) =
      process_frames_with_meta frames (record { reassembly = r; delivered = 0; handled = h })
      >>= λ b. done (b.delivered, (b.reassembly, b.handled))
