-- ===== src/Framing/Fragments.antt =====
-- What a publish writes: the chunks of the payload, the first and the last of them flagged.
use mathlib.Core.List.{flatten}
use mathlib.Core.Path.{fun_ext}
use myelon.Common.{
  ℕ, zero, suc, ◌+◌, ◌*◌, ◌^◌, ◌≤◌, ◌<◌, ◌≡◌, refl, sym, ap, ◌∙◌, ◌≢◌, Bool, true, false, List, [],
  ◌∷◌, ◌++◌, arith, ◌==◌, length, take, drop, ne→==, length-drop, length-take, take-append-drop,
  All,
}
use myelon.Common.Word.{u32}
use myelon.Common.Outcome.{Outcome, done, ◌>>=◌, >>=_done}
use myelon.Common.Result.{ok}
use myelon.Framing.Flags.{frame_flags}
use myelon.Framing.Publish.{
  chunks_fuel, chunks, is_last_index, in_place_loop, publish_framed_payload_in_place, Fallible,
  and_then,
}

-- Chunks with their flag bytes: the specification, with no index arithmetic.
abbrev pub flagged : Bool → List (List ℕ) → List (List ℕ × ℕ)
flagged is_first [] = []
flagged is_first (c ∷ []) = (c, frame_flags is_first true) ∷ []
flagged is_first (c ∷ d ∷ rest) = (c, frame_flags is_first false) ∷ flagged false (d ∷ rest)

abbrev pub fragments : ℕ → List ℕ → List (List ℕ × ℕ)
fragments chunk_size [] = ([], frame_flags true true) ∷ []
fragments chunk_size (b ∷ bs) = flagged true (chunks chunk_size (b ∷ bs))

-- Writing fragments one after the other.
abbrev pub write_all :
    {S : Type 0} → (List ℕ → ℕ → ℕ → ℕ → S → Outcome S) → ℕ → ℕ → List (List ℕ × ℕ) → S → Outcome S
write_all write kind msg_id [] s = done s
write_all write kind msg_id ((c, flags) ∷ rest) s =
    write c kind msg_id flags s >>= write_all write kind msg_id rest

abbrev pub try_all :
    {S E : Type 0}
    → (List ℕ → ℕ → ℕ → ℕ → S → Fallible S E)
    → ℕ
    → ℕ
    → List (List ℕ × ℕ)
    → S
    → Fallible S E
try_all write kind msg_id [] s = done (ok tt, s)
try_all write kind msg_id ((c, flags) ∷ rest) s =
    write c kind msg_id flags s >>= λ w. and_then w (try_all write kind msg_id rest)

chunks_fuel-nil {ℓ} : {A : Type ℓ} (f n : ℕ) → chunks_fuel {A = A} f n [] ≡ []
unfolding chunks_fuel
chunks_fuel-nil zero n = refl
chunks_fuel-nil (suc f) n = refl

-- Joined, the chunks are the payload.
pub flatten-chunks_fuel :
    (f n : ℕ) (xs : List ℕ) → n ≢ 0 → length xs ≤ f → flatten (chunks_fuel f n xs) ≡ xs
unfolding chunks_fuel flatten
flatten-chunks_fuel zero n [] pos h = refl
flatten-chunks_fuel zero n (x ∷ xs) pos h = absurd (omega arith)
flatten-chunks_fuel (suc f) n [] pos h = refl
flatten-chunks_fuel (suc f) n (x ∷ xs) pos h =
    ap (λ r. take n (x ∷ xs) ++ r)
      (flatten-chunks_fuel f n (drop n (x ∷ xs)) pos (omega (arith, length-drop n (x ∷ xs))))
    ∙ take-append-drop n (x ∷ xs)

-- No chunk is longer than the chunk size.
pub length-chunks_fuel : (f n : ℕ) (xs : List ℕ) → All (λ c. length c ≤ n) (chunks_fuel f n xs)
unfolding chunks_fuel
length-chunks_fuel zero n xs = tt
length-chunks_fuel (suc f) n [] = tt
length-chunks_fuel (suc f) n (x ∷ xs) =
    (omega (arith, length-take n (x ∷ xs)), length-chunks_fuel f n (drop n (x ∷ xs)))

flagged_cons :
    (is_first : Bool) (c ys : List ℕ) (f n : ℕ)
    → length ys ≤ f
    → flagged is_first (c ∷ chunks_fuel f n ys)
      ≡ (c, frame_flags is_first (length ys == 0)) ∷ flagged false (chunks_fuel f n ys)
unfolding chunks_fuel
flagged_cons is_first c [] zero n h = refl
flagged_cons is_first c [] (suc f) n h = refl
flagged_cons is_first c (y ∷ ys) zero n h = absurd (omega arith)
flagged_cons is_first c (y ∷ ys) (suc f) n h = rw (ne→== (suc (length ys)) 0 (omega arith))

-- The arithmetic test of the loops picks out the last chunk, and does not wrap.
is_last_index_lem :
    (index chunk_size total : ℕ) (xs : List ℕ)
    → total ≡ index * chunk_size + length xs
    → length xs ≢ 0
    → total < 2 ^ 63
    → chunk_size ≤ 2 ^ 63
    → is_last_index index chunk_size total ≡ (length (drop chunk_size xs) == 0)
is_last_index_lem index n total xs e some_left small size = ground (arith, length-drop n xs, next)
  where
    next : (index + 1) * n ≡ index * n + n
    next = omega arith

-- Where a loop stands after `index` chunks, with `xs` left to send.
record At (index chunk_size total : ℕ) (xs : List ℕ) : Type 0 where
  sent : total ≡ index * chunk_size + length xs
  positive : chunk_size ≢ 0
  small : total < 2 ^ 63
  size : chunk_size ≤ 2 ^ 63

At-next :
    {index chunk_size total : ℕ} {x : ℕ} {xs : List ℕ}
    → At index chunk_size total (x ∷ xs)
    → length (drop chunk_size (x ∷ xs)) ≢ 0
    → At (index + 1) chunk_size total (drop chunk_size (x ∷ xs))
At-next {index} {chunk_size = n} {total} {x} {xs} a more = record {
  sent = omega (arith, a.sent, length-drop n (x ∷ xs));
  positive = a.positive;
  small = a.small;
  size = a.size;
}

module _ {S : Type 0} (write : List ℕ → ℕ → ℕ → ℕ → S → Outcome S) (n total kind msg_id : ℕ) where
  in_place_loop-eq :
      (f index : ℕ) (xs : List ℕ)
      → length xs ≤ f
      → (length xs ≢ 0 → At index n total xs)
      → (s : S)
      → in_place_loop write total n kind msg_id index (chunks_fuel f n xs) s
        ≡ write_all write kind msg_id (flagged (index == 0) (chunks_fuel f n xs)) s
  unfolding in_place_loop chunks_fuel
  in_place_loop-eq zero index xs h a s = refl
  in_place_loop-eq (suc f) index [] h a s = refl
  in_place_loop-eq (suc f) index (x ∷ xs) h a s =
      let ys : List ℕ = drop n (x ∷ xs) in
      let here : At index n total (x ∷ xs) = a (omega arith) in
      let fits : length ys ≤ f = omega (arith, length-drop n (x ∷ xs), here.positive) in
      let rest : (s' : S)
          → in_place_loop write total n kind msg_id (index + 1) (chunks_fuel f n ys) s'
            ≡ write_all write kind msg_id (flagged false (chunks_fuel f n ys)) s' =
        λ s'.
          rw (ne→== (index + 1) 0 (omega arith)) at
            (in_place_loop-eq f (index + 1) ys fits (At-next here) s') in
      rw
        (
          is_last_index_lem index n total (x ∷ xs) here.sent (omega arith) here.small here.size,
          flagged_cons (index == 0) (take n (x ∷ xs)) ys f n fits,
        )
        (ap
          (λ k.
            write (take n (x ∷ xs)) kind msg_id (frame_flags (index == 0) (length ys == 0)) s >>= k)
          (fun_ext rest))

-- Publishing less than 2 ^ 63 bytes with a positive chunk size of at most 2 ^ 63 writes exactly
-- the fragments of the payload, in order, all under the message id drawn from the counter, and
-- then advances the counter modulo 2 ^ 32.
pub publish_framed_payload_in_place-eq-write_all :
    {S : Type 0} (write : List ℕ → ℕ → ℕ → ℕ → S → Outcome S) (payload : List ℕ) (kind n next : ℕ)
    (s : S)
    → n ≢ 0
    → n ≤ 2 ^ 63
    → length payload < 2 ^ 63
    → publish_framed_payload_in_place write payload kind n (next, s)
      ≡ (write_all write kind next (fragments n payload) s >>= λ s'. done (u32 (next + 1), s'))
unfolding publish_framed_payload_in_place
publish_framed_payload_in_place-eq-write_all write [] kind n next s pos size small =
    ap (λ o. o >>= λ s'. done (u32 (next + 1), s'))
      (sym (>>=_done (write [] kind next (frame_flags true true) s)))
publish_framed_payload_in_place-eq-write_all write (b ∷ bs) kind n next s pos size small =
    rw (ne→== (suc (length bs)) 0 (omega arith), ne→== n 0 pos)
      (ap (λ o. o >>= λ s'. done (u32 (next + 1), s'))
        (in_place_loop-eq write n (suc (length bs)) kind next (suc (length bs)) 0 (b ∷ bs)
          (omega arith)
          (λ _. record { sent = omega arith; positive = pos; small = small; size = size }) s))
