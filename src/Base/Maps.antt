-- ===== src/Base/Maps.antt =====
-- Maps from texts, as lists of their entries.
use mathlib.Core.Path.{◌≡◌}
use mathlib.Core.Option.{Option, none, some}
use mathlib.Core.List.{List, [], ◌∷◌}
use Prim.Native.String.{String}
use native.Mathlib.Omega.{arith}
use text.Mathlib.Text.{◌==◌ as str_eq}
use text.Mathlib.TextEquality.{eq_iff as str_eq_iff}
use helm_operator.Base.Tests.{if◌then◌else◌}

-- `m[key]`, if the key is there.
unfoldable pub lookup {ℓ} : {V : Type ℓ} → String → List (String × V) → Option V
lookup key [] = none
lookup key ((k, v) ∷ m) = if str_eq k key then some v else lookup key m

-- `m[key] = value`
unfoldable pub put {ℓ} : {V : Type ℓ} → String → V → List (String × V) → List (String × V)
put key value [] = (key, value) ∷ []
put key value ((k, v) ∷ m) = if str_eq k key then (k, value) ∷ m else (k, v) ∷ put key value m

pub lookup-put {ℓ} :
    {V : Type ℓ} (k j : String) (v : V) (m : List (String × V))
    → lookup k (put j v m) ≡ (if str_eq j k then some v else lookup k m)
unfolding lookup put
lookup-put k j v [] = ground arith
lookup-put k j v ((i, u) ∷ m) =
    ground (arith, str_eq_iff i j, str_eq_iff i k, str_eq_iff j k, lookup-put k j v m)
