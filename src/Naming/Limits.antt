-- ===== src/Naming/Limits.antt =====
-- Which names `validate_segment_name` lets pass.
use myelon.Common.{◌≡◌, arith, not, ltb, ◌==◌, if◌then◌else◌, length, length-append}
use myelon.Common.Text.{Text, codes}
use myelon.Common.Result.{ok, err}
use myelon.Naming.Layout.{TransportError, alphanumeric, validate_segment_name}

-- `validate_segment_name` accepts exactly the names of 1 to 14 letters and digits, and answers every
-- other name from its first three checks: a name of at most 14 bytes leaves room for both suffixes, so
-- that the fourth check never reports anything.
pub validate_segment_name_lem :
    (name : Text)
    → validate_segment_name name ≡ (
        if length name == 0
        then err TransportError.empty_name
        else if ltb 14 (length name)
        then err TransportError.long_name
        else if not (alphanumeric name)
        then err TransportError.bad_name
        else ok tt)
unfolding validate_segment_name
validate_segment_name_lem name =
    ground (arith, length-append name (codes "_cr"), length-append name (codes "_producer_seq"))
