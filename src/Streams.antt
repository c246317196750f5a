-- ===== src/Streams.antt =====
-- services/streams.py: `StreamTextAccumulator`, over the code points of the texts. A response is
-- what `_text_value` reads of it: each attribute that is a `str`.
pub mod Counts
pub mod Text
use gemini_web_mcp.Common.{
  ℕ, ◌+◌, Bool, true, false, not, ◌&&◌, ◌≡◌, refl, Option, none, some, List, [], ◌∷◌, ◌++◌, arith,
  eqb, eqb_iff, if◌then◌else◌, length, drop, Points, starts_with, ltb, ◌↔◌,
}
use gemini_web_mcp.Domain.Conversations.{
  StreamChunkSemantics, empty, delta, cumulative, mixed, StreamDelivery, collected,
  StreamCollectionMetadata,
}

pub record Response : Type 0 where
  pub text_delta : Option Points
  pub text : Option Points

pub record StreamTextAccumulator : Type 0 where
  pub text : Points
  pub chunk_count : ℕ
  pub emitted_piece_count : ℕ
  pub duplicate_chunk_count : ℕ
  pub observed_semantics : List StreamChunkSemantics

-- `__init__`
abbrev pub new_accumulator : StreamTextAccumulator
new_accumulator = record {
  text = [];
  chunk_count = 0;
  emitted_piece_count = 0;
  duplicate_chunk_count = 0;
  observed_semantics = [];
}

-- `if text:`
abbrev pub is_nonempty : Points → Bool
is_nonempty [] = false
is_nonempty (c ∷ t) = true

-- `==` on texts
unfoldable pub same_points : Points → Points → Bool
same_points [] [] = true
same_points [] (d ∷ t) = false
same_points (c ∷ s) [] = false
same_points (c ∷ s) (d ∷ t) = eqb c d && same_points s t

pub same_points_iff : (s t : Points) → (same_points s t ≡ true) ↔ (s ≡ t)
unfolding same_points
same_points_iff [] [] = (λ h. refl, λ h. refl)
same_points_iff [] (d ∷ t) = (λ h. cc, λ h. cc)
same_points_iff (c ∷ s) [] = (λ h. cc, λ h. cc)
same_points_iff (c ∷ s) (d ∷ t) = (
  λ h. ground (arith, eqb_iff c d, same_points_iff s t),
  λ h. ground (arith, eqb_iff c d, same_points_iff s t),
)

-- `_text_value`
abbrev pub text_value : Option Points → Points
text_value none = []
text_value (some t) = t

-- `semantics in self._observed_semantics`
unfoldable pub observed : StreamChunkSemantics → List StreamChunkSemantics → Bool
observed s [] = false
observed delta (delta ∷ set) = true
observed cumulative (cumulative ∷ set) = true
observed s (t ∷ set) = observed s set

-- `_observe`: a set keeps one copy.
unfoldable pub observe : StreamChunkSemantics → StreamTextAccumulator → StreamTextAccumulator
unfolding observed
observe s a =
    if observed s a.observed_semantics
    then a
    else record a { observed_semantics = s ∷ a.observed_semantics }

-- `_consume_explicit_delta`
unfoldable pub consume_explicit_delta :
    Points → Points → StreamTextAccumulator → StreamTextAccumulator × Points
unfolding observe
consume_explicit_delta d full_text a =
    let suffix = drop (length a.text) full_text in
    if is_nonempty full_text && (same_points full_text a.text && not (same_points full_text d))
    then (observe delta (observe cumulative a), [])
    else if (is_nonempty full_text && starts_with full_text a.text)
        && (is_nonempty suffix && not (same_points suffix d))
    then (observe delta (observe cumulative a), suffix)
    else (observe delta a, d)

-- `_consume_unlabelled_text`
unfoldable pub consume_unlabelled_text :
    Points → StreamTextAccumulator → StreamTextAccumulator × Points
unfolding observe
consume_unlabelled_text value a =
    if not (is_nonempty a.text)
    then (observe cumulative a, value)
    else if starts_with value a.text
    then (observe cumulative a, drop (length a.text) value)
    else if starts_with a.text value
    then (observe cumulative a, [])
    else (observe delta a, value)

-- The dispatch of `consume` on what the response carries.
unfoldable pub new_piece : Points → Points → StreamTextAccumulator → StreamTextAccumulator × Points
unfolding consume_explicit_delta consume_unlabelled_text
new_piece d full_text a =
    if is_nonempty d
    then consume_explicit_delta d full_text a
    else if is_nonempty full_text
    then consume_unlabelled_text full_text a
    else (a, [])

-- The end of `consume`: the piece is appended and counted.
unfoldable pub emit : StreamTextAccumulator × Points → StreamTextAccumulator × Points
emit (a, piece) =
    if is_nonempty piece
    then (
      record a { text = a.text ++ piece; emitted_piece_count = a.emitted_piece_count + 1 },
      piece,
    )
    else (record a { duplicate_chunk_count = a.duplicate_chunk_count + 1 }, piece)

-- `consume`
unfoldable pub consume : Response → StreamTextAccumulator → StreamTextAccumulator × Points
unfolding new_piece emit
consume response a = emit (
    new_piece (text_value response.text_delta) (text_value response.text)
      (record a { chunk_count = a.chunk_count + 1 }))

-- `metadata`
unfoldable pub semantics_of : List StreamChunkSemantics → StreamChunkSemantics
semantics_of [] = empty
semantics_of (s ∷ []) = s
semantics_of (s ∷ t ∷ set) = mixed

unfoldable pub metadata : StreamTextAccumulator → StreamCollectionMetadata
unfolding semantics_of
metadata a = record {
  delivery = collected;
  chunk_semantics = semantics_of a.observed_semantics;
  chunk_count = a.chunk_count;
  emitted_piece_count = a.emitted_piece_count;
  duplicate_chunk_count = a.duplicate_chunk_count;
  text_length = length a.text;
  upstream_stream = true;
}

-- A whole stream, as the callers consume it: the accumulator at the end and the pieces in order.
unfoldable pub collect : List Response → StreamTextAccumulator → StreamTextAccumulator × List Points
unfolding consume
collect [] a = (a, [])
collect (response ∷ responses) a =
    let (b, piece) = consume response a in
    let (c, pieces) = collect responses b in (c, piece ∷ pieces)
