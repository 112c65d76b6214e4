-- ===== src/Framing/Receive.antt =====
-- Blocking reassembly: `recv_framed_message_with_meta` and the lease-scoped variant. The frames that
-- `next_frame` will yield are a list, and a call that needs one more than it holds blocks. `now` is
-- what `wall_clock_ns` returns.
use myelon.Common.{ℕ, Option, none, List, [], ◌∷◌, ◌++◌, ltb, ◌-◌, some, ◌==◌, if◌then◌else◌, not}
use myelon.Common.Outcome.{Outcome, done, blocked, ◌>>=◌}
use myelon.Framing.Flags.{is_single_frame, is_last_frame}
use myelon.Framing.Frame.{FrameMeta}
use myelon.Framing.Buffer.{ReassemblyBuffer, start, append, bytes}

pub record ReceivedMessageMeta : Type 0 where
  pub kind : ℕ
  pub msg_id : ℕ
  pub sent_timestamp_ns : Option ℕ
  pub received_timestamp_ns : ℕ

-- `filter` keeps a timestamp that lies before the receipt.
unfoldable pub one_way_latency_ns : ReceivedMessageMeta → Option ℕ
one_way_latency_ns m = elim m.sent_timestamp_ns [
  | none ↦ none
  | some sent ↦
      if ltb sent m.received_timestamp_ns then some (m.received_timestamp_ns - sent) else none
]

abbrev pub received : FrameMeta → ℕ → ReceivedMessageMeta
received first now = record {
  kind = first.kind;
  msg_id = first.msg_id;
  sent_timestamp_ns = first.timestamp_ns;
  received_timestamp_ns = now;
}

-- A received message, and the frames that are left.
abbrev pub Received : Type 0 → Type 0
Received T = Outcome ((ReceivedMessageMeta × List ℕ) × List T)

module _ {T : Type 0} (meta : T → Outcome FrameMeta) where
  -- The `loop` over continuation frames; frames of other messages are dropped.
  unfoldable pub gather : ℕ → List ℕ → List T → Outcome (List ℕ × List T)
  gather msg_id payload [] = blocked
  gather msg_id payload (t ∷ rest) = meta t >>= λ frame.
      let skipped = gather msg_id payload rest in
      let payload' = payload ++ frame.payload in
      let more = gather msg_id payload' rest in
      if not (frame.msg_id == msg_id)
      then skipped
      else if is_last_frame frame.flags
      then done (payload', rest)
      else more

  unfoldable pub recv_framed_message_with_meta : ℕ → List T → Received T
  unfolding gather
  recv_framed_message_with_meta now [] = blocked
  recv_framed_message_with_meta now (t ∷ rest) = meta t >>= λ first.
      let message_meta = received first now in
      if is_single_frame first.flags
      then done ((message_meta, first.payload), rest)
      else if is_last_frame first.flags
      then done ((message_meta, first.payload), rest)
      else (gather first.msg_id first.payload rest >>= λ (payload, left).
          done ((message_meta, payload), left))

  unfoldable pub recv_framed_message : ℕ → List T → Outcome ((ℕ × List ℕ) × List T)
  unfolding recv_framed_message_with_meta
  recv_framed_message now stream =
      recv_framed_message_with_meta now stream >>= λ ((m, payload), left).
      done ((m.kind, payload), left)

  -- The same loop into the caller's buffer.
  unfoldable pub gather_leased : ℕ → ReassemblyBuffer → List T → Outcome (ReassemblyBuffer × List T)
  gather_leased msg_id r [] = blocked
  gather_leased msg_id r (t ∷ rest) = meta t >>= λ frame.
      let skipped = gather_leased msg_id r rest in
      let taken = append r frame.payload >>= (λ r'.
        let more = gather_leased msg_id r' rest in
        if is_last_frame frame.flags then done (r', rest) else more) in
      if not (frame.msg_id == msg_id) then skipped else taken

  module _ {R : Type 0} (handler : ReceivedMessageMeta → List ℕ → R) where
    -- What the handler returns, the buffer, and the frames that are left.
    unfoldable pub recv_framed_message_leased_with_meta :
        ℕ → ReassemblyBuffer → List T → Outcome (R × ReassemblyBuffer × List T)
    unfolding gather_leased
    recv_framed_message_leased_with_meta now r [] = blocked
    recv_framed_message_leased_with_meta now r (t ∷ rest) = meta t >>= λ first.
        let message_meta = received first now in
        if is_single_frame first.flags
        then done (handler message_meta first.payload, r, rest)
        else (start r first.msg_id first.kind first.payload first.len first.timestamp_ns >>= λ r'.
            if is_last_frame first.flags
            then done (handler message_meta (bytes r'), r', rest)
            else (gather_leased first.msg_id r' rest >>= λ (r'', left).
                done (handler message_meta (bytes r''), r'', left)))
