-- ===== src/Streams/Counts.antt =====
-- The counters and the semantics that the metadata reports.
use gemini_web_mcp.Common.{
  ℕ, ◌+◌, ◌≡◌, ◌≢◌, refl, ◌∙◌, List, [], ◌∷◌, arith, length, Points, All, inl, inr, List-cases,
}
use gemini_web_mcp.Domain.Conversations.{StreamChunkSemantics, empty, delta, cumulative, mixed}
use gemini_web_mcp.Streams.{
  consume_explicit_delta, consume_unlabelled_text, Response, StreamTextAccumulator, new_accumulator,
  text_value, observe, new_piece, emit, consume, collect, metadata, semantics_of,
}

-- The accumulator only observes DELTA and CUMULATIVE.
abbrev IsLabel : StreamChunkSemantics → Type 0
IsLabel delta = Unit
IsLabel cumulative = Unit
IsLabel _ = ⊥

-- Every chunk is counted once, as emitted or as duplicate, and a collected text has semantics.
pub record IsConsistent (a : StreamTextAccumulator) : Type 0 where
  pub counted : a.chunk_count ≡ a.emitted_piece_count + a.duplicate_chunk_count
  pub explained : a.observed_semantics ≡ [] → a.text ≡ []
  pub labels : All IsLabel a.observed_semantics

observe-ne-nil :
    (s : StreamChunkSemantics) (a : StreamTextAccumulator) → (observe s a).observed_semantics ≢ []
unfolding observe
observe-ne-nil s a h = elim (List-cases a.observed_semantics) [
  | inl e ↦ ground (arith, e)
  | inr (t, set, e) ↦ ground (arith, e)
]

-- The fields that observing leaves alone.
abbrev SameCounts : StreamTextAccumulator → StreamTextAccumulator → Type 0
SameCounts b a =
    (b.text ≡ a.text)
    × (b.chunk_count ≡ a.chunk_count)
    × (b.emitted_piece_count ≡ a.emitted_piece_count)
    × (b.duplicate_chunk_count ≡ a.duplicate_chunk_count)

pub observe-same :
    (s : StreamChunkSemantics) (a : StreamTextAccumulator) → SameCounts (observe s a) a
unfolding observe
observe-same s a = ground arith

pub new_piece-same :
    (d full_text : Points) (a : StreamTextAccumulator) → SameCounts (new_piece d full_text a).0 a
unfolding new_piece consume_explicit_delta consume_unlabelled_text
new_piece-same d full_text a = ground (
  arith,
  observe-same cumulative a,
  observe-same delta a,
  observe-same delta (observe cumulative a),
)

observe-labels :
    (s : StreamChunkSemantics) (a : StreamTextAccumulator)
    → IsLabel s
    → All IsLabel a.observed_semantics
    → All IsLabel (observe s a).observed_semantics
unfolding observe
observe-labels s a l h = ground arith

new_piece-labels :
    (d full_text : Points) (a : StreamTextAccumulator)
    → All IsLabel a.observed_semantics
    → All IsLabel (new_piece d full_text a).0.observed_semantics
unfolding new_piece consume_explicit_delta consume_unlabelled_text
new_piece-labels d full_text a h = ground (
  arith,
  observe-labels cumulative a tt h,
  observe-labels delta a tt h,
  observe-labels delta (observe cumulative a) tt (observe-labels cumulative a tt h),
)

-- A chunk that leaves no semantics observed brings no text.
new_piece-explained :
    (d full_text : Points) (a : StreamTextAccumulator)
    → (new_piece d full_text a).0.observed_semantics ≡ []
    → (a.observed_semantics ≡ []) × ((new_piece d full_text a).1 ≡ [])
unfolding new_piece consume_explicit_delta consume_unlabelled_text
new_piece-explained d full_text a h = ground (
  arith,
  observe-ne-nil cumulative a,
  observe-ne-nil delta a,
  observe-ne-nil delta (observe cumulative a),
)

emit-IsConsistent :
    (r : StreamTextAccumulator × Points) (a : StreamTextAccumulator)
    → IsConsistent a
    → SameCounts r.0 (record a { chunk_count = a.chunk_count + 1 })
    → (r.0.observed_semantics ≡ [] → (a.observed_semantics ≡ []) × (r.1 ≡ []))
    → All IsLabel r.0.observed_semantics
    → IsConsistent (emit r).0
unfolding emit
emit-IsConsistent (b, []) a h same explained labels = record {
  counted = ground arith;
  explained = λ e. same.0 ∙ h.explained (explained e).0;
  labels = labels;
}
emit-IsConsistent (b, c ∷ piece) a h same explained labels = record {
  counted = ground arith;
  explained = λ e. cc ((explained e).1);
  labels = labels;
}

-- Consuming a chunk keeps the counters consistent.
pub consume-IsConsistent :
    (response : Response) (a : StreamTextAccumulator)
    → IsConsistent a
    → IsConsistent (consume response a).0
unfolding consume
consume-IsConsistent response a h =
    let b : StreamTextAccumulator = record a { chunk_count = a.chunk_count + 1 } in
    let d = text_value response.text_delta in
    let t = text_value response.text in
    emit-IsConsistent (new_piece d t b) a h (new_piece-same d t b) (new_piece-explained d t b)
      (new_piece-labels d t b h.labels)

new-IsConsistent : IsConsistent new_accumulator
new-IsConsistent = record { counted = omega arith; explained = λ e. refl; labels = tt }

pub collect-IsConsistent :
    (responses : List Response) (a : StreamTextAccumulator)
    → IsConsistent a
    → IsConsistent (collect responses a).0
unfolding collect
collect-IsConsistent [] a h = h
collect-IsConsistent (response ∷ responses) a h =
    collect-IsConsistent responses (consume response a).0 (consume-IsConsistent response a h)

consume_chunks :
    (response : Response) (a : StreamTextAccumulator)
    → (consume response a).0.chunk_count ≡ a.chunk_count + 1
unfolding consume
consume_chunks response a =
    let b : StreamTextAccumulator = record a { chunk_count = a.chunk_count + 1 } in
    ground (arith, new_piece-same (text_value response.text_delta) (text_value response.text) b)

collect_chunks :
    (responses : List Response) (a : StreamTextAccumulator)
    → (collect responses a).0.chunk_count ≡ a.chunk_count + length responses
unfolding collect
collect_chunks [] a = omega arith
collect_chunks (response ∷ responses) a =
    omega (arith, collect_chunks responses (consume response a).0, consume_chunks response a)

semantics_of-nil :
    (set : List StreamChunkSemantics) → All IsLabel set → semantics_of set ≡ empty → set ≡ []
unfolding semantics_of
semantics_of-nil [] h e = refl
semantics_of-nil (delta ∷ []) h e = cc
semantics_of-nil (cumulative ∷ []) h e = cc
semantics_of-nil (empty ∷ []) h e = absurd h.0
semantics_of-nil (mixed ∷ []) h e = absurd h.0
semantics_of-nil (s ∷ t ∷ set) h e = cc

-- The pieces that brought text, and those that did not.
abbrev pub nonempty_count : List Points → ℕ
nonempty_count [] = 0
nonempty_count ([] ∷ pieces) = nonempty_count pieces
nonempty_count ((c ∷ piece) ∷ pieces) = 1 + nonempty_count pieces

abbrev pub empty_count : List Points → ℕ
empty_count [] = 0
empty_count ([] ∷ pieces) = 1 + empty_count pieces
empty_count ((c ∷ piece) ∷ pieces) = empty_count pieces

-- Between `a` and `b` each of the pieces was counted, by whether it brought text.
abbrev HasCounted : List Points → StreamTextAccumulator → StreamTextAccumulator → Type 0
HasCounted pieces a b =
    (b.emitted_piece_count ≡ a.emitted_piece_count + nonempty_count pieces)
    × (b.duplicate_chunk_count ≡ a.duplicate_chunk_count + empty_count pieces)

emit-HasCounted :
    (b : StreamTextAccumulator) (piece : Points)
    → HasCounted ((emit (b, piece)).1 ∷ []) b (emit (b, piece)).0
unfolding emit
emit-HasCounted b [] = (omega arith, omega arith)
emit-HasCounted b (c ∷ piece) = (omega arith, omega arith)

consume-HasCounted :
    (response : Response) (a : StreamTextAccumulator)
    → HasCounted ((consume response a).1 ∷ []) a (consume response a).0
unfolding consume
consume-HasCounted response a =
    let b : StreamTextAccumulator = record a { chunk_count = a.chunk_count + 1 } in
    let r = new_piece (text_value response.text_delta) (text_value response.text) b in
    let same = new_piece-same (text_value response.text_delta) (text_value response.text) b in
    let counts = emit-HasCounted r.0 r.1 in
    (omega (arith, counts.0, same.2), omega (arith, counts.1, same.3))

HasCounted-trans :
    (piece : Points) (pieces : List Points) (a b c : StreamTextAccumulator)
    → HasCounted (piece ∷ []) a b
    → HasCounted pieces b c
    → HasCounted (piece ∷ pieces) a c
HasCounted-trans [] pieces a b c x y = (omega (arith, x.0, y.0), omega (arith, x.1, y.1))
HasCounted-trans (k ∷ piece) pieces a b c x y = (omega (arith, x.0, y.0), omega (arith, x.1, y.1))

collect-HasCounted :
    (responses : List Response) (a : StreamTextAccumulator)
    → HasCounted (collect responses a).1 a (collect responses a).0
unfolding collect
collect-HasCounted [] a = (omega arith, omega arith)
collect-HasCounted (response ∷ responses) a =
    let b = consume response a in
    let c = collect responses b.0 in
    HasCounted-trans b.1 c.1 a b.0 c.0 (consume-HasCounted response a)
      (collect-HasCounted responses b.0)

-- After a whole stream the metadata count every response once: the emitted pieces are the calls of
-- consume that returned text, and the duplicates are those that returned none; and they give the
-- length of the text.
pub metadata_of_stream :
    (responses : List Response)
    → ((metadata (collect responses new_accumulator).0).chunk_count ≡ length responses)
      × ((metadata (collect responses new_accumulator).0).emitted_piece_count
          ≡ nonempty_count (collect responses new_accumulator).1)
      × ((metadata (collect responses new_accumulator).0).duplicate_chunk_count
          ≡ empty_count (collect responses new_accumulator).1)
      × ((metadata (collect responses new_accumulator).0).emitted_piece_count
            + (metadata (collect responses new_accumulator).0).duplicate_chunk_count
          ≡ length responses)
      × ((metadata (collect responses new_accumulator).0).text_length
          ≡ length (collect responses new_accumulator).0.text)
unfolding metadata
metadata_of_stream responses =
    let h = collect-IsConsistent responses new_accumulator new-IsConsistent in
    let n = collect_chunks responses new_accumulator in
    let c = collect-HasCounted responses new_accumulator in
    (omega (arith, n), omega (arith, c.0), omega (arith, c.1), omega (arith, n, h.counted), refl)

-- The metadata of a stream report EMPTY only if no text was collected.
pub empty_of_stream :
    (responses : List Response)
    → (metadata (collect responses new_accumulator).0).chunk_semantics ≡ empty
    → (collect responses new_accumulator).0.text ≡ []
unfolding metadata
empty_of_stream responses e =
    let a = (collect responses new_accumulator).0 in
    let h = collect-IsConsistent responses new_accumulator new-IsConsistent in
    h.explained (semantics_of-nil a.observed_semantics h.labels e)
