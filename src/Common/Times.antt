-- ===== src/Common/Times.antt =====
-- Python's `datetime`, as far as the service uses it: it is compared, never computed with.
use Prim.Native.Nat.{ℕ}
use mathlib.Core.Bool.{Bool}
use mathlib.Core.Option.{Option, none, some}
use flowtona.Common.Tests.{leb}

-- An aware value is an instant, in microseconds of UTC; a naive one is a wall-clock reading.
pub data DateTime : Type 0 where
  aware naive : ℕ → DateTime

-- `a <= b`; `none` is the TypeError for an aware and a naive value.
unfoldable pub le_datetime : DateTime → DateTime → Option Bool
le_datetime (aware a) (aware b) = some (leb a b)
le_datetime (naive a) (naive b) = some (leb a b)
le_datetime _ _ = none
