-- ===== src/Framing/Buffer.antt =====
-- `ReassemblyBuffer`: a buffer of 16-byte words that grows as fragments are gathered.
use myelon.Common.{
  ℕ, ◌+◌, ◌-◌, ◌*◌, ◌/◌, ◌%◌, ◌^◌, ◌≤◌, ◌<◌, min, max, ◌≡◌, refl, sym, ap, ◌∙◌, Option, none, List,
  [], ◌++◌, arith, ltb, leb, length, take, drop, replicate, length-append, length-drop, length-take,
  length-replicate, take-append, take-append_le, if◌then◌else◌, append_assoc,
}
use myelon.Common.Outcome.{Outcome, done, panic, ◌>>=◌}

-- `buf` is given by its bytes, 16 to a word.
pub record ReassemblyBuffer : Type 0 where
  pub buf : List ℕ
  pub len : ℕ
  pub msg_id : ℕ
  pub kind : ℕ
  pub sent_timestamp_ns : Option ℕ

-- `saturating_add` on `usize`.
abbrev pub saturating_add : ℕ → ℕ → ℕ
saturating_add a b = min (a + b) (2 ^ 64 - 1)

unfoldable pub word_capacity : ℕ → ℕ
word_capacity byte_capacity = saturating_add byte_capacity (16 - 1) / 16

-- `Vec::with_capacity` reserves room and leaves the vector empty.
unfoldable pub new : ℕ → ReassemblyBuffer
new capacity = record { buf = []; len = 0; msg_id = 0; kind = 0; sent_timestamp_ns = none }

unfoldable pub ensure_capacity : ReassemblyBuffer → ℕ → ReassemblyBuffer
unfolding word_capacity
ensure_capacity r needed_bytes =
    let needed_words = word_capacity needed_bytes in
    let words = length r.buf / 16 in
    if ltb words needed_words
    then record r { buf = r.buf ++ replicate ((needed_words - words) * 16) 0 }
    else r

-- `dst[start..end].copy_from_slice(src)`, with `end = start + src.len()`.
abbrev pub copy_range : List ℕ → ℕ → List ℕ → Outcome (List ℕ)
copy_range dst start src =
    if leb (start + length src) (length dst)
    then done (take start dst ++ (src ++ drop (start + length src) dst))
    else panic

unfoldable pub start : ReassemblyBuffer → ℕ → ℕ → List ℕ → ℕ → Option ℕ → Outcome ReassemblyBuffer
start r msg_id kind first_data total_len sent_timestamp_ns = do
  let needed_len = max total_len (length first_data)
  let grown = ensure_capacity r needed_len
  buf ← copy_range grown.buf 0 first_data
  done (record {
    buf = buf;
    len = length first_data;
    msg_id = msg_id;
    kind = kind;
    sent_timestamp_ns = sent_timestamp_ns;
  })

unfoldable pub append : ReassemblyBuffer → List ℕ → Outcome ReassemblyBuffer
append r more = do
  let end = r.len + length more
  let grown = ensure_capacity r end
  buf ← copy_range grown.buf r.len more
  done (record grown { buf = buf; len = end })

unfoldable pub reset : ReassemblyBuffer → ReassemblyBuffer
reset r = record r { len = 0; msg_id = 0; sent_timestamp_ns = none }

unfoldable pub bytes : ReassemblyBuffer → List ℕ
bytes r = take r.len r.buf

-- Whole words, and `len` within them.
pub record IsValid (r : ReassemblyBuffer) : Type 0 where
  pub whole : length r.buf % 16 ≡ 0
  pub within : r.len ≤ length r.buf

pub new-IsValid : (n : ℕ) → IsValid (new n)
unfolding new
new-IsValid n = omega arith

pub reset-IsValid : (r : ReassemblyBuffer) → IsValid r → IsValid (reset r)
unfolding reset
reset-IsValid r v = record { whole = v.whole; within = omega arith }

-- `ensure_capacity` keeps the gathered bytes and makes room for the requested ones.
record Grown (r : ReassemblyBuffer) (n : ℕ) (r' : ReassemblyBuffer) : Type 0 where
  valid : IsValid r'
  room : n ≤ length r'.buf
  same : take r.len r'.buf ≡ take r.len r.buf
  len_same : r'.len ≡ r.len
  id_same : r'.msg_id ≡ r.msg_id
  kind_same : r'.kind ≡ r.kind
  time_same : r'.sent_timestamp_ns ≡ r.sent_timestamp_ns

ensure_capacity-Grown :
    (r : ReassemblyBuffer) (n : ℕ) → IsValid r → n < 2 ^ 63 → Grown r n (ensure_capacity r n)
unfolding ensure_capacity
ensure_capacity-Grown r n v small =
    let extra : ℕ = (word_capacity n - length r.buf / 16) * 16 in
    ground (
      arith,
      length-append r.buf (replicate extra 0),
      length-replicate {A = ℕ} extra 0,
      take-append_le r.len r.buf (replicate extra 0),
    )

copy_range_lem :
    (dst : List ℕ) (from : ℕ) (src : List ℕ)
    → from + length src ≤ length dst
    → let out = take from dst ++ (src ++ drop (from + length src) dst) in
      (copy_range dst from src ≡ done out)
      × (length out ≡ length dst)
      × (take (from + length src) out ≡ take from dst ++ src)
copy_range_lem dst from src h =
    let rest : List ℕ = drop (from + length src) dst in
    (
      ground arith,
      omega (
        arith,
        length-append (take from dst) (src ++ rest),
        length-append src rest,
        length-take from dst,
        length-drop (from + length src) dst,
      ),
      ap (λ n. take n (take from dst ++ (src ++ rest)))
            (omega (arith, length-append (take from dst) src, length-take from dst))
          ∙ ap (take (length (take from dst ++ src))) (sym (append_assoc (take from dst) src rest))
          ∙ take-append (take from dst ++ src) rest,
    )

-- A buffer in which `payload` has been gathered for message `msg_id`.
pub record Holds (r : ReassemblyBuffer) (msg_id kind : ℕ) (sent : Option ℕ) (payload : List ℕ)
    : Type 0 where
  pub valid : IsValid r
  pub gathered : bytes r ≡ payload
  pub len_eq : r.len ≡ length payload
  pub id_eq : r.msg_id ≡ msg_id
  pub kind_eq : r.kind ≡ kind
  pub sent_eq : r.sent_timestamp_ns ≡ sent

-- The buffer that `start` leaves.
start_held :
    (buf first : List ℕ) (msg_id kind : ℕ) (sent : Option ℕ)
    → length buf % 16 ≡ 0
    → length first ≤ length buf
    → Holds
        (record {
          buf = first ++ drop (length first) buf;
          len = length first;
          msg_id = msg_id;
          kind = kind;
          sent_timestamp_ns = sent;
        })
        msg_id
        kind
        sent
        first
unfolding bytes
start_held buf first msg_id kind sent whole h = record {
  valid = record {
    whole =
        omega
          (arith, length-append first (drop (length first) buf), length-drop (length first) buf);
    within = omega (arith, length-append first (drop (length first) buf));
  };
  gathered = take-append first (drop (length first) buf);
  len_eq = refl;
  id_eq = refl;
  kind_eq = refl;
  sent_eq = refl;
}

-- `start` never panics on a well-formed buffer, for lengths below 2 ^ 63, and leaves exactly the first
-- fragment in the buffer.
pub start-Holds :
    (r : ReassemblyBuffer) (msg_id kind : ℕ) (first : List ℕ) (total : ℕ) (sent : Option ℕ)
    → IsValid r
    → total < 2 ^ 63
    → length first < 2 ^ 63
    → (r' : ReassemblyBuffer) × (start r msg_id kind first total sent ≡ done r')
      × Holds r' msg_id kind sent first
unfolding start
start-Holds r msg_id kind first total sent v ht hf =
    let g : ReassemblyBuffer = ensure_capacity r (max total (length first)) in
    let grown : Grown r (max total (length first)) g =
      ensure_capacity-Grown r (max total (length first)) v (omega arith) in
    let out : List ℕ = first ++ drop (length first) g.buf in
    let r' : ReassemblyBuffer = record {
      buf = out;
      len = length first;
      msg_id = msg_id;
      kind = kind;
      sent_timestamp_ns = sent;
    } in
    (
      r',
      ground (arith, copy_range_lem g.buf 0 first),
      start_held g.buf first msg_id kind sent grown.valid.whole (omega arith),
    )

-- `append` to a buffer that holds a fragment of a message never panics while the message stays
-- below 2 ^ 63 bytes, and adds exactly the new fragment to what the buffer holds, also where the
-- buffer has to grow.
pub append-Holds :
    (r : ReassemblyBuffer) {msg_id kind : ℕ} {sent : Option ℕ} {payload : List ℕ} (more : List ℕ)
    → Holds r msg_id kind sent payload
    → length payload + length more < 2 ^ 63
    → (r' : ReassemblyBuffer) × (append r more ≡ done r')
      × Holds r' msg_id kind sent (payload ++ more)
unfolding append bytes
append-Holds r {msg_id} {kind} {sent} {payload} more h small =
    let g : ReassemblyBuffer = ensure_capacity r (r.len + length more) in
    let grown : Grown r (r.len + length more) g =
      ensure_capacity-Grown r (r.len + length more) h.valid (omega arith) in
    let out : List ℕ = take r.len g.buf ++ (more ++ drop (r.len + length more) g.buf) in
    let r' : ReassemblyBuffer = record g { buf = out; len = r.len + length more } in
    (
      r',
      ground (arith, copy_range_lem g.buf r.len more),
      record {
        valid = ground (arith, copy_range_lem g.buf r.len more, grown.valid.whole);
        gathered = ground (arith, copy_range_lem g.buf r.len more, grown.same, h.gathered);
        len_eq = omega (arith, length-append payload more);
        id_eq = cc;
        kind_eq = cc;
        sent_eq = cc;
      },
    )
