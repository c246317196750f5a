-- ===== src/Tests/StreamTests.antt =====
-- The theorems on services/streams.py at concrete streams.
use gemini_web_mcp.Common.{
  inl, inr, ◌+◌, ◌≡◌, refl, none, some, List, [], ◌∷◌, ◌++◌, length, points,
}
use gemini_web_mcp.Domain.Conversations.{StreamChunkSemantics}
use gemini_web_mcp.Streams.{Response, new_accumulator, metadata, collect}
use gemini_web_mcp.Streams.Counts.{nonempty_count, empty_count, metadata_of_stream, empty_of_stream}
use gemini_web_mcp.Streams.Text.{
  joined, delta_only, text_only, delta_and_text, Reports, finished, by_delta, by_text, by_both,
  collect-joined, collect-Reports,
}

abbrev stream : List Response
stream =
    delta_only (points "Hel")
    ∷ delta_and_text (points "o") (points "Hello")
    ∷ delta_and_text (points "lo") (points "Hello")
    ∷ text_only (points "Hello!")
    ∷ []

stream-Reports : Reports [] stream (points "Hello!")
stream-Reports = by_delta (points "Hel") (
    by_both (points "o") (points "lo") (inl (λ h. cc))
      (by_both (points "lo") [] (inr (λ h. cc, λ h. cc)) (by_text (points "!") finished)))

collect-Reports_example : (collect stream new_accumulator).0.text ≡ points "Hello!"
collect-Reports_example = collect-Reports new_accumulator stream-Reports refl

collect-joined_example :
    (collect stream new_accumulator).0.text
    ≡ new_accumulator.text ++ joined (collect stream new_accumulator).1
collect-joined_example = collect-joined stream new_accumulator

metadata_of_stream_example :
    ((metadata (collect stream new_accumulator).0).chunk_count ≡ length stream)
    × ((metadata (collect stream new_accumulator).0).emitted_piece_count
        ≡ nonempty_count (collect stream new_accumulator).1)
    × ((metadata (collect stream new_accumulator).0).duplicate_chunk_count
        ≡ empty_count (collect stream new_accumulator).1)
    × ((metadata (collect stream new_accumulator).0).emitted_piece_count
          + (metadata (collect stream new_accumulator).0).duplicate_chunk_count
        ≡ length stream)
    × ((metadata (collect stream new_accumulator).0).text_length
        ≡ length (collect stream new_accumulator).0.text)
metadata_of_stream_example = metadata_of_stream stream

abbrev silent : List Response
silent = record { text_delta = none; text = some [] } ∷ []

silent-empty :
    (metadata (collect silent new_accumulator).0).chunk_semantics ≡ StreamChunkSemantics.empty
unfolding metadata collect
silent-empty = refl

empty_of_stream_example : (collect silent new_accumulator).0.text ≡ []
empty_of_stream_example = empty_of_stream silent silent-empty
