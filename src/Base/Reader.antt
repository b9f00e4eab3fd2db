-- ===== src/Base/Reader.antt =====
-- `io.ReadAll` of an `io.LimitReader`.
use Prim.Native.Nat.{ℕ}
use mathlib.Core.List.{List}
use mathlib.Core.Option.{Option, none, some}
use tunnet_lite.Base.Tests.{leb, if◌then◌else◌}
use tunnet_lite.Base.Lists.{length, take}
use tunnet_lite.Base.Results.{Error, Result, ok, err}

-- `io.ReadAll(io.LimitReader(body, n))`, of a body that an error may end: the error is met only if the
-- limit is not.
unfoldable pub read_limited : ℕ → List ℕ → Option Error → Result (List ℕ)
read_limited n body none = ok (take n body)
read_limited n body (some e) = if leb n (length body) then ok (take n body) else err e
