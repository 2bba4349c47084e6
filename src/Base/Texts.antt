-- ===== src/Base/Texts.antt =====
-- A test on texts.
use Prim.Native.Nat.{◌-◌}
use Prim.Native.String.{String, len, slice}
use mathlib.Core.Bool.{Bool, ◌&&◌}
use text.Mathlib.Text.{◌==◌}
use ebind.Base.Tests.{leb}

-- `strings.HasSuffix`.
abbrev pub has_suffix : String → String → Bool
has_suffix s t = leb (len t) (len s) && slice s (len s - len t) (len s) == t
