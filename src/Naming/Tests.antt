-- ===== src/Naming/Tests.antt =====
-- A session of two runners, and the limits on a name.
use myelon.Common.{◌≡◌, refl, not, ltb, ◌==◌, if◌then◌else◌, [], ◌∷◌, length}
use myelon.Common.Text.{codes, hex}
use myelon.Common.Result.{ok, err}
use myelon.Naming.Layout.{
  TransportError, alphanumeric, filtered, compact_session_tag, validate_segment_name,
  response_names, for_session_with_prefix,
}
use myelon.Naming.Limits.{validate_segment_name_lem}

two_runners :
    for_session_with_prefix (λ label. 0) (codes "vmy") (codes "Session-Alpha1") 2 8 4
    ≡ ok (record {
      transport_prefix = codes "vmy";
      session_tag = codes "onalpha1";
      rpc_ring_name = codes "vmyonalpha1p";
      response_ring_names = codes "vmyonalpha1r0" ∷ codes "vmyonalpha1r1" ∷ [];
      rpc_depth = 8;
      response_depth = 4;
    })
unfolding for_session_with_prefix alphanumeric filtered compact_session_tag validate_segment_name
    response_names hex
two_runners = refl

validate_segment_name_lem_example : validate_segment_name (codes "vmy_1") ≡ (
    if length (codes "vmy_1") == 0
    then err TransportError.empty_name
    else if ltb 14 (length (codes "vmy_1"))
    then err TransportError.long_name
    else if not (alphanumeric (codes "vmy_1"))
    then err TransportError.bad_name
    else ok tt)
validate_segment_name_lem_example = validate_segment_name_lem (codes "vmy_1")
