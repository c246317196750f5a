-- ===== src/Store/Labels.antt =====
-- The checks that infrastructure/state_store.py makes of a text before it stores it: the regular
-- expressions `_IDENTIFIER` and `_LABEL`, and the file name test.
use gemini_web_mcp.Common.{
  ℕ, String, Bool, false, not, ◌&&◌, ◌||◌, Option, none, some, [], ◌∷◌, ltb, leb, eqb, length, any,
  every, points, starts_with, Outcome, returned, raise_if, value_error, ◌==◌,
}

abbrev pub between : ℕ → ℕ → ℕ → Bool
between low high c = leb low c && leb c high

-- `[A-Za-z0-9_:\-]`
abbrev pub is_identifier_point : ℕ → Bool
is_identifier_point c =
    between 65 90 c || between 97 122 c || between 48 57 c || eqb c 95 || eqb c 58 || eqb c 45

-- `_IDENTIFIER.fullmatch`
unfoldable pub matches_identifier : String → Bool
unfolding every
matches_identifier value =
    between 1 256 (length (points value)) && every is_identifier_point (points value)

-- `_LABEL.fullmatch`: identifiers with dots, of at most 96 characters.
unfoldable pub matches_label : String → Bool
unfolding every
matches_label value =
    between 1 96 (length (points value))
    && every (λ c. is_identifier_point c || eqb c 46) (points value)

-- `_identifier`
unfoldable pub identifier : String → Outcome (Unit {0})
unfolding matches_identifier
identifier value =
    raise_if (not (matches_identifier value)) (value_error "Invalid state identifier.")

-- `if value is not None: _identifier(value)`
unfoldable pub identifier_if : Option String → Outcome (Unit {0})
unfolding identifier
identifier_if none = returned tt
identifier_if (some value) = identifier value

-- `value and not value.startswith(("https://", "http://", "file://"))`
unfoldable pub is_bad_uri : Option String → Bool
unfolding any starts_with
is_bad_uri none = false
is_bad_uri (some uri) =
    not (uri == "")
    && not
        (any (λ p. starts_with (points uri) (points p)) ("https://" ∷ "http://" ∷ "file://" ∷ []))

-- `value and not Path(value).is_absolute()`
unfoldable pub is_relative_path : Option String → Bool
unfolding starts_with
is_relative_path none = false
is_relative_path (some path) = not (path == "") && not (starts_with (points path) (points "/"))

-- The white space that `str.strip` removes.
abbrev pub is_space : ℕ → Bool
is_space c =
    between 9 13 c
    || between 28 32 c
    || eqb c 133
    || eqb c 160
    || eqb c 5760
    || between 8192 8202 c
    || eqb c 8232
    || eqb c 8233
    || eqb c 8239
    || eqb c 8287
    || eqb c 12288

-- `Path(value).name` for a text without a slash: "" and "." have no name. A text with a slash fails
-- the test on its characters whatever its name is.
abbrev pub has_own_name : String → Bool
has_own_name value = not (value == "") && not (value == ".")

-- the test of `_artifact_filename`
unfoldable pub is_bad_filename : Option String → Bool
unfolding every any
is_bad_filename none = false
is_bad_filename (some value) =
    every is_space (points value)
    || value == "."
    || value == ".."
    || not (has_own_name value)
    || any (λ c. eqb c 47 || eqb c 92 || ltb c 32) (points value)

-- `_artifact_filename`
unfoldable pub artifact_filename : Option String → Outcome (Unit {0})
unfolding is_bad_filename
artifact_filename value =
    raise_if (is_bad_filename value)
      (value_error "Persistent artifact filename must be a single file name.")
