-- ===== src/Base/Texts.antt =====
-- Texts that are not empty.
use Prim.Native.String.{String, ◌++◌}
use mathlib.Core.Logic.{◌≢◌}
use text.Mathlib.TextLemmas.{append-eq-nil_iff}

pub append-ne_empty : (s t : String) → s ≢ "" → s ++ t ≢ ""
append-ne_empty s t n e = n (append-eq-nil_iff.0 e).0
