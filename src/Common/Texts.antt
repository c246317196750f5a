-- ===== src/Common/Texts.antt =====
-- What the program asks of a `str`: prefixes, slices and `in`, over its code points.
use Prim.Native.Nat.{ℕ}
use Prim.Native.Char.{code}
use Prim.Native.String.{String}
use mathlib.Core.Path.{◌≡◌, refl}
use mathlib.Core.Bool.{Bool, true, false, ◌&&◌, ◌||◌}
use mathlib.Core.List.{List, [], ◌∷◌, ◌++◌}
use native.Mathlib.Omega.{arith}
use gemini_web_mcp.Common.Tests.{eqb, eqb_iff}
use gemini_web_mcp.Common.Lists.{length, drop}

-- A text as the list of its code points.
abbrev pub Points : Type 0
Points = List ℕ

abbrev pub points : String → Points
points String.[] = []
points (String.◌∷◌ c s) = code c ∷ points s

-- `value.startswith(prefix)`
unfoldable pub starts_with : Points → Points → Bool
starts_with value [] = true
starts_with [] (p ∷ prefix) = false
starts_with (c ∷ value) (p ∷ prefix) = eqb c p && starts_with value prefix

-- `marker in value`
unfoldable pub contains : Points → Points → Bool
unfolding starts_with
contains [] marker = starts_with [] marker
contains (c ∷ value) marker = starts_with (c ∷ value) marker || contains value marker

-- A prefix and what follows it make the text.
pub append-drop :
    (value prefix : Points)
    → starts_with value prefix ≡ true
    → prefix ++ drop (length prefix) value ≡ value
unfolding starts_with
append-drop value [] h = refl
append-drop [] (p ∷ prefix) h = cc
append-drop (c ∷ value) (p ∷ prefix) h = ground (arith, append-drop value prefix, eqb_iff c p)

pub starts_with-append : (prefix rest : Points) → starts_with (prefix ++ rest) prefix ≡ true
unfolding starts_with
starts_with-append [] rest = refl
starts_with-append (p ∷ prefix) rest = ground (arith, starts_with-append prefix rest)

pub drop-append : (prefix rest : Points) → drop (length prefix) (prefix ++ rest) ≡ rest
drop-append [] rest = refl
drop-append (p ∷ prefix) rest = drop-append prefix rest
