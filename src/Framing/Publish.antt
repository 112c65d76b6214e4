-- ===== src/Framing/Publish.antt =====
-- Fragmentation: `publish_framed_payload` and its three variants. The closures' environment is a
-- state `S`, passed along; `NEXT_MESSAGE_ID` is the first component of what a call takes and
-- returns. `#[cfg(dst)]` instrumentation is left out.
use myelon.Common.{
  ℕ, zero, suc, ◌+◌, ◌*◌, ◌%◌, ◌^◌, Bool, true, List, [], ◌∷◌, leb, ◌==◌, length, take, drop,
  if◌then◌else◌,
}
use myelon.Common.Word.{u32}
use myelon.Common.Outcome.{Outcome, done, panic, ◌>>=◌}
use myelon.Common.Result.{Result, ok, err}
use myelon.Framing.Flags.{frame_flags}

-- `slice::chunks` for a positive size: a chunk takes at least one element.
unfoldable pub chunks_fuel {ℓ} : {A : Type ℓ} → ℕ → ℕ → List A → List (List A)
chunks_fuel zero n xs = []
chunks_fuel (suc f) n [] = []
chunks_fuel (suc f) n (x ∷ xs) = take n (x ∷ xs) ∷ chunks_fuel f n (drop n (x ∷ xs))

abbrev pub chunks {ℓ} : {A : Type ℓ} → ℕ → List A → List (List A)
chunks n xs = chunks_fuel (length xs) n xs

-- `(index + 1) * chunk_size >= payload.len()`, in `usize`.
abbrev pub is_last_index : ℕ → ℕ → ℕ → Bool
is_last_index index chunk_size total = leb total ((index + 1) * chunk_size % 2 ^ 64)

module _ {S : Type 0} (write_frame : List ℕ → ℕ → ℕ → ℕ → S → Outcome S) where
  -- The `for` loop of `publish_framed_payload_in_place`.
  unfoldable pub in_place_loop : ℕ → ℕ → ℕ → ℕ → ℕ → List (List ℕ) → S → Outcome S
  in_place_loop total chunk_size kind msg_id index [] s = done s
  in_place_loop total chunk_size kind msg_id index (chunk ∷ rest) s = do
    let last = is_last_index index chunk_size total
    let flags = frame_flags (index == 0) last
    s' ← write_frame chunk kind msg_id flags s
    in_place_loop total chunk_size kind msg_id (index + 1) rest s'

  unfoldable pub publish_framed_payload_in_place : List ℕ → ℕ → ℕ → ℕ × S → Outcome (ℕ × S)
  unfolding in_place_loop
  publish_framed_payload_in_place payload kind chunk_size (next_message_id, s) =
      let next = u32 (next_message_id + 1) in
      if length payload == 0
      then (write_frame payload kind next_message_id (frame_flags true true) s >>= λ s'.
          done (next, s'))
      else if chunk_size == 0
      then panic
      else (in_place_loop (length payload) chunk_size kind next_message_id 0
            (chunks chunk_size payload) s
          >>= λ s'. done (next, s'))

-- The variant over whole frames: `make_frame` builds a frame, `write_frame` publishes it.
module _ {S T : Type 0} (write_frame : T → S → Outcome S)
    (make_frame : List ℕ → ℕ → ℕ → ℕ → S → Outcome (T × S)) where
  abbrev pub make_then_write : List ℕ → ℕ → ℕ → ℕ → S → Outcome S
  make_then_write chunk kind msg_id flags s =
      make_frame chunk kind msg_id flags s >>= λ (frame, s'). write_frame frame s'

  unfoldable pub frame_loop : ℕ → ℕ → ℕ → ℕ → ℕ → List (List ℕ) → S → Outcome S
  frame_loop total chunk_size kind msg_id index [] s = done s
  frame_loop total chunk_size kind msg_id index (chunk ∷ rest) s = do
    let last = is_last_index index chunk_size total
    let flags = frame_flags (index == 0) last
    s' ← make_then_write chunk kind msg_id flags s
    frame_loop total chunk_size kind msg_id (index + 1) rest s'

  unfoldable pub publish_framed_payload : List ℕ → ℕ → ℕ → ℕ × S → Outcome (ℕ × S)
  unfolding frame_loop
  publish_framed_payload payload kind chunk_size (next_message_id, s) =
      let next = u32 (next_message_id + 1) in
      if length payload == 0
      then (make_then_write payload kind next_message_id (frame_flags true true) s >>= λ s'.
          done (next, s'))
      else if chunk_size == 0
      then panic
      else (frame_loop (length payload) chunk_size kind next_message_id 0
            (chunks chunk_size payload) s
          >>= λ s'. done (next, s'))

-- A fallible write returns its `Result` beside the new state.
abbrev pub Fallible : Type 0 → Type 0 → Type 0
Fallible S E = Outcome (Result (Unit {0}) E × S)

-- `e?; k`: go on after a success, return a failure.
abbrev pub and_then : {S E : Type 0} → Result (Unit {0}) E × S → (S → Fallible S E) → Fallible S E
and_then (ok _, s) k = k s
and_then (err e, s) k = done (err e, s)

module _ {S E : Type 0} (write_frame : List ℕ → ℕ → ℕ → ℕ → S → Fallible S E) where
  unfoldable pub result_in_place_loop : ℕ → ℕ → ℕ → ℕ → ℕ → List (List ℕ) → S → Fallible S E
  result_in_place_loop total chunk_size kind msg_id index [] s = done (ok tt, s)
  result_in_place_loop total chunk_size kind msg_id index (chunk ∷ rest) s = do
    let last = is_last_index index chunk_size total
    let flags = frame_flags (index == 0) last
    written ← write_frame chunk kind msg_id flags s
    and_then written (result_in_place_loop total chunk_size kind msg_id (index + 1) rest)

  unfoldable pub publish_framed_payload_result_in_place :
      List ℕ → ℕ → ℕ → ℕ × S → Outcome (ℕ × (Result (Unit {0}) E × S))
  unfolding result_in_place_loop
  publish_framed_payload_result_in_place payload kind chunk_size (next_message_id, s) =
      let next = u32 (next_message_id + 1) in
      if length payload == 0
      then (write_frame payload kind next_message_id (frame_flags true true) s >>= λ r.
          done (next, r))
      else if chunk_size == 0
      then panic
      else (result_in_place_loop (length payload) chunk_size kind next_message_id 0
            (chunks chunk_size payload) s
          >>= λ r. done (next, r))

module _ {S E T : Type 0} (write_frame : T → S → Fallible S E)
    (make_frame : List ℕ → ℕ → ℕ → ℕ → S → Outcome (T × S)) where
  abbrev pub make_then_try : List ℕ → ℕ → ℕ → ℕ → S → Fallible S E
  make_then_try chunk kind msg_id flags s =
      make_frame chunk kind msg_id flags s >>= λ (frame, s'). write_frame frame s'

  unfoldable pub result_loop : ℕ → ℕ → ℕ → ℕ → ℕ → List (List ℕ) → S → Fallible S E
  result_loop total chunk_size kind msg_id index [] s = done (ok tt, s)
  result_loop total chunk_size kind msg_id index (chunk ∷ rest) s = do
    let last = is_last_index index chunk_size total
    let flags = frame_flags (index == 0) last
    written ← make_then_try chunk kind msg_id flags s
    and_then written (result_loop total chunk_size kind msg_id (index + 1) rest)

  unfoldable pub publish_framed_payload_result :
      List ℕ → ℕ → ℕ → ℕ × S → Outcome (ℕ × (Result (Unit {0}) E × S))
  unfolding result_loop
  publish_framed_payload_result payload kind chunk_size (next_message_id, s) =
      let next = u32 (next_message_id + 1) in
      if length payload == 0
      then (make_then_try payload kind next_message_id (frame_flags true true) s >>= λ r.
          done (next, r))
      else if chunk_size == 0
      then panic
      else (result_loop (length payload) chunk_size kind next_message_id 0
            (chunks chunk_size payload) s
          >>= λ r. done (next, r))
