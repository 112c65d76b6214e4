-- ===== src/Naming/Layout.antt =====
-- The layout of a session and the configurations drawn from it. A name is the list of its bytes; the
-- texts of errors are left out, the checks that report them are told apart.
use myelon.Common.{
  ℕ, zero, suc, ◌+◌, ◌-◌, Bool, true, ◌&&◌, ◌||◌, not, ltb, leb, ◌==◌, if◌then◌else◌, none, some,
  List, [], ◌∷◌, ◌++◌, get_elem?, length, drop, replicate,
}
use myelon.Common.Text.{Text, codes, hex}
use myelon.Common.Result.{Result, ok, err}
use myelon.Common.Word.{u32}

pub data TransportError : Type 0 where
  empty_prefix bad_prefix no_runners no_rpc_depth no_response_depth : TransportError
  empty_name long_name bad_name no_room rank_out_of_range : TransportError

pub data MyelonWaitStrategy : Type 0 where
  busy_spin block : MyelonWaitStrategy

pub record MyelonTransportLayout : Type 0 where
  pub transport_prefix : Text
  pub session_tag : Text
  pub rpc_ring_name : Text
  pub response_ring_names : List Text
  pub rpc_depth : ℕ
  pub response_depth : ℕ

pub record MyelonTransportConfig : Type 0 where
  pub rpc_depth : ℕ
  pub response_depth : ℕ
  pub wait_strategy : MyelonWaitStrategy

pub record RunnerMyelonTransportConfig : Type 0 where
  pub rpc_ring_name : Text
  pub rpc_depth : ℕ
  pub response_ring_name : Text
  pub response_depth : ℕ
  pub wait_strategy : MyelonWaitStrategy

-- `is_ascii_alphanumeric` and `to_ascii_lowercase`.
abbrev pub is_upper : ℕ → Bool
is_upper c = leb 65 c && leb c 90

abbrev pub is_ascii_alphanumeric : ℕ → Bool
is_ascii_alphanumeric c = leb 48 c && leb c 57 || is_upper c || leb 97 c && leb c 122

abbrev pub to_ascii_lowercase : ℕ → ℕ
to_ascii_lowercase c = if is_upper c then c + 32 else c

unfoldable pub alphanumeric : Text → Bool
alphanumeric [] = true
alphanumeric (c ∷ cs) = is_ascii_alphanumeric c && alphanumeric cs

unfoldable pub filtered : Text → Text
filtered [] = []
filtered (c ∷ cs) =
    let rest = filtered cs in if is_ascii_alphanumeric c then to_ascii_lowercase c ∷ rest else rest

-- `{:08x}` pads with zeros on the left.
unfoldable pub hex8 : ℕ → Text
hex8 n = replicate (8 - length (hex n)) 48 ++ hex n

-- `hash` is what a fresh `DefaultHasher` returns for the label.
unfoldable pub compact_session_tag : (Text → ℕ) → Text → Text
unfolding filtered hex8
compact_session_tag hash session_label =
    let name = filtered session_label in
    if leb 8 (length name) then drop (length name - 8) name else hex8 (u32 (hash session_label))

abbrev pub coordination_cursor_name : Text → Text
coordination_cursor_name base_name = base_name ++ codes "_cr"

abbrev pub segment_name_limit_macos : ℕ
segment_name_limit_macos = 14

abbrev pub darwin_shared_memory_object_limit : ℕ
darwin_shared_memory_object_limit = 31

abbrev pub producer_sequence_suffix : Text
producer_sequence_suffix = codes "_producer_seq"

unfoldable pub validate_segment_name : Text → Result (Unit {0}) TransportError
unfolding alphanumeric
validate_segment_name name =
    if length name == 0
    then err TransportError.empty_name
    else if ltb segment_name_limit_macos (length name)
    then err TransportError.long_name
    else if not (alphanumeric name)
    then err TransportError.bad_name
    else if ltb darwin_shared_memory_object_limit (length (coordination_cursor_name name))
        || ltb darwin_shared_memory_object_limit (length (name ++ producer_sequence_suffix))
    then err TransportError.no_room
    else ok tt

-- `m?; k`.
abbrev pub try_then {ℓ κ} :
    {A : Type ℓ} {B : Type κ}
    → Result A TransportError
    → (A → Result B TransportError)
    → Result B TransportError
try_then (err e) k = err e
try_then (ok a) k = k a

-- The loop over the ranks `rank`, `rank + 1`, …
unfoldable pub response_names : Text → ℕ → ℕ → Result (List Text) TransportError
unfolding validate_segment_name
response_names stem rank zero = ok []
response_names stem rank (suc count) =
    let name = stem ++ (codes "r" ++ hex rank) in
    try_then (validate_segment_name name)
      (λ _. try_then (response_names stem (rank + 1) count) (λ names. ok (name ∷ names)))

unfoldable pub for_session_with_prefix :
    (Text → ℕ) → Text → Text → ℕ → ℕ → ℕ → Result MyelonTransportLayout TransportError
unfolding alphanumeric compact_session_tag validate_segment_name response_names
for_session_with_prefix hash transport_prefix session_label runner_count rpc_depth response_depth =
    if length transport_prefix == 0
    then err TransportError.empty_prefix
    else if not (alphanumeric transport_prefix)
    then err TransportError.bad_prefix
    else if runner_count == 0
    then err TransportError.no_runners
    else if rpc_depth == 0
    then err TransportError.no_rpc_depth
    else if response_depth == 0
    then err TransportError.no_response_depth
    else let session_tag = compact_session_tag hash session_label in
      let stem = transport_prefix ++ session_tag in
      let rpc_ring_name = stem ++ codes "p" in
      try_then (validate_segment_name rpc_ring_name) (λ _.
        try_then (response_names stem 0 runner_count) (λ names. ok (record {
          transport_prefix = transport_prefix;
          session_tag = session_tag;
          rpc_ring_name = rpc_ring_name;
          response_ring_names = names;
          rpc_depth = rpc_depth;
          response_depth = response_depth;
        })))

unfoldable pub response_ring_name : MyelonTransportLayout → ℕ → Result Text TransportError
response_ring_name layout rank = elim (get_elem? layout.response_ring_names rank) [
  | none ↦ err TransportError.rank_out_of_range
  | some name ↦ ok name
]

unfoldable pub for_rank :
    MyelonTransportLayout
    → ℕ
    → MyelonWaitStrategy
    → Result RunnerMyelonTransportConfig TransportError
unfolding response_ring_name
for_rank layout rank wait_strategy = try_then (response_ring_name layout rank) (λ name. ok (record {
  rpc_ring_name = layout.rpc_ring_name;
  rpc_depth = layout.rpc_depth;
  response_ring_name = name;
  response_depth = layout.response_depth;
  wait_strategy = wait_strategy;
}))

unfoldable pub config : ℕ → ℕ → MyelonWaitStrategy → Result MyelonTransportConfig TransportError
config rpc_depth response_depth wait_strategy =
    if rpc_depth == 0
    then err TransportError.no_rpc_depth
    else if response_depth == 0
    then err TransportError.no_response_depth
    else ok (record {
      rpc_depth = rpc_depth;
      response_depth = response_depth;
      wait_strategy = wait_strategy;
    })
