-- ===== src/Producer/Spin.antt =====
-- The spinning `publish` as attempts of `try_publish`.
use myelon.Common.Outcome.{Outcome}
use myelon.Common.Result.{Result}
use myelon.Producer.Defs.{Producer}
