-- ===== src/Framing/Variants.antt =====
-- The four publishing functions of `crates/myelon/src/transport.rs`, compared.
use mathlib.Core.Path.{fun_ext}
use myelon.Common.{ℕ, ◌+◌, ◌^◌, ◌≤◌, ◌<◌, ◌≡◌, refl, sym, ap, ◌∙◌, ◌≢◌, List, [], ◌∷◌, ◌==◌, length}
use myelon.Common.Word.{u32}
use myelon.Common.Outcome.{Outcome, done, ◌>>=◌}
use myelon.Common.Result.{Result, ok, err}
use myelon.Framing.Flags.{frame_flags}
use myelon.Framing.Publish.{
  chunks, is_last_index, in_place_loop, publish_framed_payload_in_place, frame_loop,
  publish_framed_payload, make_then_write, Fallible, and_then, result_in_place_loop,
  publish_framed_payload_result_in_place, result_loop, publish_framed_payload_result, make_then_try,
}
use myelon.Framing.Fragments.{
  write_all, try_all, fragments, publish_framed_payload_in_place-eq-write_all,
}

module _ {S T : Type 0} (write : T → S → Outcome S)
    (make : List ℕ → ℕ → ℕ → ℕ → S → Outcome (T × S)) where
  frame_loop-eq :
      (total n kind msg_id index : ℕ) (cs : List (List ℕ)) (s : S)
      → frame_loop write make total n kind msg_id index cs s
        ≡ in_place_loop (make_then_write write make) total n kind msg_id index cs s
  unfolding frame_loop in_place_loop
  frame_loop-eq total n kind msg_id index [] s = refl
  frame_loop-eq total n kind msg_id index (c ∷ cs) s =
      ap
        (λ k.
          make_then_write write make c kind msg_id
            (frame_flags (index == 0) (is_last_index index n total)) s
          >>= k)
        (fun_ext (frame_loop-eq total n kind msg_id (index + 1) cs))

  publish_framed_payload-eq :
      (payload : List ℕ) (kind n next : ℕ) (s : S)
      → publish_framed_payload write make payload kind n (next, s)
        ≡ publish_framed_payload_in_place (make_then_write write make) payload kind n (next, s)
  unfolding publish_framed_payload publish_framed_payload_in_place
  publish_framed_payload-eq payload kind n next s =
      rw (frame_loop-eq (length payload) n kind next 0 (chunks n payload) s)

module _ {S E T : Type 0} (write : T → S → Fallible S E)
    (make : List ℕ → ℕ → ℕ → ℕ → S → Outcome (T × S)) where
  result_loop-eq :
      (total n kind msg_id index : ℕ) (cs : List (List ℕ)) (s : S)
      → result_loop write make total n kind msg_id index cs s
        ≡ result_in_place_loop (make_then_try write make) total n kind msg_id index cs s
  unfolding result_loop result_in_place_loop
  result_loop-eq total n kind msg_id index [] s = refl
  result_loop-eq total n kind msg_id index (c ∷ cs) s =
      ap
        (λ k.
          make_then_try write make c kind msg_id
            (frame_flags (index == 0) (is_last_index index n total)) s
          >>= λ w. and_then w k)
        (fun_ext (result_loop-eq total n kind msg_id (index + 1) cs))

  publish_framed_payload_result-eq :
      (payload : List ℕ) (kind n next : ℕ) (s : S)
      → publish_framed_payload_result write make payload kind n (next, s)
        ≡ publish_framed_payload_result_in_place (make_then_try write make) payload kind n (next, s)
  unfolding publish_framed_payload_result publish_framed_payload_result_in_place
  publish_framed_payload_result-eq payload kind n next s =
      rw (result_loop-eq (length payload) n kind next 0 (chunks n payload) s)

-- A fallible write as an infallible one on a state that remembers the failure and then does nothing.
abbrev pub sticky :
    {S E : Type 0}
    → (List ℕ → ℕ → ℕ → ℕ → S → Fallible S E)
    → List ℕ
    → ℕ
    → ℕ
    → ℕ
    → Result (Unit {0}) E × S
    → Fallible S E
sticky write c kind msg_id flags w = and_then w (write c kind msg_id flags)

module _ {S E : Type 0} (write : List ℕ → ℕ → ℕ → ℕ → S → Fallible S E) where
  write_all-failed :
      (kind msg_id : ℕ) (ps : List (List ℕ × ℕ)) (e : E) (s : S)
      → write_all (sticky write) kind msg_id ps (err e, s) ≡ done (err e, s)
  write_all-failed kind msg_id [] e s = refl
  write_all-failed kind msg_id ((c, fl) ∷ ps) e s = write_all-failed kind msg_id ps e s

  loop-failed :
      (total n kind msg_id index : ℕ) (cs : List (List ℕ)) (e : E) (s : S)
      → in_place_loop (sticky write) total n kind msg_id index cs (err e, s) ≡ done (err e, s)
  unfolding in_place_loop
  loop-failed total n kind msg_id index [] e s = refl
  loop-failed total n kind msg_id index (c ∷ cs) e s =
      loop-failed total n kind msg_id (index + 1) cs e s

  -- One round: the loops agree on what a write returns if they agree after a success.
  after_write :
      (total n kind msg_id index : ℕ) (cs : List (List ℕ))
      → ((s : S)
          → result_in_place_loop write total n kind msg_id index cs s
            ≡ in_place_loop (sticky write) total n kind msg_id index cs (ok tt, s))
      → (w : Result (Unit {0}) E × S)
      → and_then w (result_in_place_loop write total n kind msg_id index cs)
        ≡ in_place_loop (sticky write) total n kind msg_id index cs w
  after_write total n kind msg_id index cs ih (ok u, s) = ih s
  after_write total n kind msg_id index cs ih (err e, s) =
      sym (loop-failed total n kind msg_id index cs e s)

  result_in_place_loop-eq :
      (total n kind msg_id index : ℕ) (cs : List (List ℕ)) (s : S)
      → result_in_place_loop write total n kind msg_id index cs s
        ≡ in_place_loop (sticky write) total n kind msg_id index cs (ok tt, s)
  unfolding result_in_place_loop in_place_loop
  result_in_place_loop-eq total n kind msg_id index [] s = refl
  result_in_place_loop-eq total n kind msg_id index (c ∷ cs) s =
      ap (λ k. write c kind msg_id (frame_flags (index == 0) (is_last_index index n total)) s >>= k)
        (fun_ext (
          after_write total n kind msg_id (index + 1) cs
            (result_in_place_loop-eq total n kind msg_id (index + 1) cs)))

  after_try :
      (kind msg_id : ℕ) (ps : List (List ℕ × ℕ))
      → ((s : S)
          → write_all (sticky write) kind msg_id ps (ok tt, s) ≡ try_all write kind msg_id ps s)
      → (w : Result (Unit {0}) E × S)
      → write_all (sticky write) kind msg_id ps w ≡ and_then w (try_all write kind msg_id ps)
  after_try kind msg_id ps ih (ok u, s) = ih s
  after_try kind msg_id ps ih (err e, s) = write_all-failed kind msg_id ps e s

  write_all-sticky :
      (kind msg_id : ℕ) (ps : List (List ℕ × ℕ)) (s : S)
      → write_all (sticky write) kind msg_id ps (ok tt, s) ≡ try_all write kind msg_id ps s
  write_all-sticky kind msg_id [] s = refl
  write_all-sticky kind msg_id ((c, fl) ∷ ps) s =
      ap (λ k. write c kind msg_id fl s >>= k)
        (fun_ext (after_try kind msg_id ps (write_all-sticky kind msg_id ps)))

  result_in_place-eq-in_place :
      (payload : List ℕ) (kind n next : ℕ) (s : S)
      → publish_framed_payload_result_in_place write payload kind n (next, s)
        ≡ publish_framed_payload_in_place (sticky write) payload kind n (next, (ok tt, s))
  unfolding publish_framed_payload_result_in_place publish_framed_payload_in_place
  result_in_place-eq-in_place payload kind n next s =
      rw (result_in_place_loop-eq (length payload) n kind next 0 (chunks n payload) s)

  -- Fallible publishing of less than 2 ^ 63 bytes with a positive chunk size of at most 2 ^ 63 tries
  -- the fragments of the payload in order and stops at the first failed write, whose error it
  -- returns; the counter advances in any case.
  pub publish_framed_payload_result_in_place-eq-try_all :
      (payload : List ℕ) (kind n next : ℕ) (s : S)
      → n ≢ 0
      → n ≤ 2 ^ 63
      → length payload < 2 ^ 63
      → publish_framed_payload_result_in_place write payload kind n (next, s)
        ≡ (try_all write kind next (fragments n payload) s >>= λ r. done (u32 (next + 1), r))
  publish_framed_payload_result_in_place-eq-try_all payload kind n next s pos size small =
      result_in_place-eq-in_place payload kind n next s
      ∙ publish_framed_payload_in_place-eq-write_all (sticky write) payload kind n next (ok tt, s)
          pos size small
      ∙ ap (λ o. o >>= λ r. done (u32 (next + 1), r))
          (write_all-sticky kind next (fragments n payload) s)

-- The variants that build whole frames publish what the in-place variants publish when each write
-- builds the frame and publishes it.
pub whole_frame_variants-eq :
    {S T E : Type 0} (write : T → S → Outcome S) (try_write : T → S → Fallible S E)
    (make : List ℕ → ℕ → ℕ → ℕ → S → Outcome (T × S)) (payload : List ℕ) (kind n next : ℕ) (s : S)
    → (publish_framed_payload write make payload kind n (next, s)
        ≡ publish_framed_payload_in_place (make_then_write write make) payload kind n (next, s))
      × (publish_framed_payload_result try_write make payload kind n (next, s)
          ≡ publish_framed_payload_result_in_place
              (make_then_try try_write make)
              payload
              kind
              n
              (next, s))
whole_frame_variants-eq write try_write make payload kind n next s = (
  publish_framed_payload-eq write make payload kind n next s,
  publish_framed_payload_result-eq try_write make payload kind n next s,
)
