-- ===== src/Prelude/Maps.antt =====
-- Go maps as functions from the key into `Option`, and the decisions on their keys.
use Prim.Native.String.{String}
use text.Mathlib.Text.{◌==◌}
use text.Mathlib.TextEquality.{eq_iff}
use mathlib.Core.Option.{Option, none, some}
use mathlib.Core.Logic.{ite}
use mathlib.Core.Bool.{Bool, true, false}
use mlist.Prelude.Tests.{dec_of_test}

-- Decided equality of Go strings, and as a Boolean test.
unfoldable pub str_dec : Discrete String
unfolding dec_of_test
str_dec s t = dec_of_test (s == t) (eq_iff s t)

abbrev pub same : String → String → Bool
same s t = elim (str_dec s t) [ yes _ ↦ true | no _ ↦ false ]

module _ {K V : Type 0} (dec : Discrete K) where
  -- `m[k] = v`
  abbrev pub insert : K → V → (K → Option V) → K → Option V
  insert k v m j = ite (dec k j) (some v) (m j)

  -- `delete(m, k)`
  abbrev pub delete : K → (K → Option V) → K → Option V
  delete k m j = ite (dec k j) none (m j)
