-- ===== src/Streams/Text.antt =====
-- Which text an accumulator collects from each kind of stream.
use gemini_web_mcp.Common.{
  ℕ, ◌+◌, true, false, ◌≡◌, ◌≢◌, refl, ap, ◌∙◌, sym, Option, none, some, List, [], ◌∷◌, ◌++◌, arith,
  length, length-append, Points, inl, inr, ◌⊎◌, List-cases, starts_with, drop, starts_with-append,
  drop-append,
}
use mathlib.Core.List.{append-nil, append_assoc}
use gemini_web_mcp.Streams.{
  Response, StreamTextAccumulator, is_nonempty, text_value, same_points_iff, new_piece, emit,
  consume, collect, consume_explicit_delta, consume_unlabelled_text,
}
use gemini_web_mcp.Domain.Conversations.{delta}
use gemini_web_mcp.Streams.Counts.{new_piece-same, observe-same}

-- The pieces one after the other.
abbrev pub joined : List Points → Points
joined [] = []
joined (p ∷ ps) = p ++ joined ps

append_longer : (t : Points) (x : ℕ) (q : Points) → t ++ x ∷ q ≢ t
append_longer t x q h = omega (arith, ap length h, length-append t (x ∷ q))

emit_appends :
    (b : StreamTextAccumulator) (piece : Points)
    → ((emit (b, piece)).0.text ≡ b.text ++ piece) × ((emit (b, piece)).1 ≡ piece)
unfolding emit
emit_appends b [] = (sym (append-nil b.text), refl)
emit_appends b (c ∷ piece) = (refl, refl)

-- The state and the pieces that `consume` dispatches on.
abbrev counted : StreamTextAccumulator → StreamTextAccumulator
counted a = record a { chunk_count = a.chunk_count + 1 }

-- `consume` appends exactly the piece that it returns.
pub consume_appends :
    (response : Response) (a : StreamTextAccumulator)
    → (consume response a).0.text ≡ a.text ++ (consume response a).1
unfolding consume
consume_appends response a =
    let d = text_value response.text_delta in
    let t = text_value response.text in
    let (b, piece) = new_piece d t (counted a) in
    let e = emit_appends b piece in rw (e.0, e.1, (new_piece-same d t (counted a)).0)

-- The text of a stream is the text before it and the pieces that the calls returned, in order.
pub collect-joined :
    (responses : List Response) (a : StreamTextAccumulator)
    → (collect responses a).0.text ≡ a.text ++ joined (collect responses a).1
unfolding collect
collect-joined [] a = sym (append-nil a.text)
collect-joined (response ∷ responses) a =
    let b = (consume response a).0 in
    collect-joined responses b
    ∙ ap (λ t. t ++ joined (collect responses b).1) (consume_appends response a)
    ∙ append_assoc a.text (consume response a).1 (joined (collect responses b).1)

is_nonempty-append : (t : Points) (x : ℕ) (q : Points) → is_nonempty (t ++ x ∷ q) ≡ true
is_nonempty-append [] x q = refl
is_nonempty-append (c ∷ t) x q = refl

nil_of : (t : Points) → is_nonempty t ≡ false → t ≡ []
nil_of [] h = refl
nil_of (c ∷ t) h = cc

starts_with_self : (t : Points) → starts_with t t ≡ true
starts_with_self t = rw append-nil at (starts_with-append t [])

drop_self : (t : Points) → drop (length t) t ≡ []
drop_self t = rw append-nil at (drop-append t [])

new_piece_extends :
    (q d : Points) (a : StreamTextAccumulator)
    → (q ≢ []) ⊎ ((d ≢ a.text) × (a.text ≢ []))
    → (new_piece d (a.text ++ q) a).1 ≡ q
unfolding new_piece consume_explicit_delta consume_unlabelled_text
new_piece_extends [] [] a h =
    rw append-nil (ground (arith, List-cases a.text, starts_with_self a.text, drop_self a.text))
new_piece_extends [] (y ∷ d) a h = rw append-nil (
    ground
      (arith, List-cases a.text, same_points_iff a.text a.text, same_points_iff a.text (y ∷ d)))
new_piece_extends (x ∷ q) [] a h = ground (
  arith,
  is_nonempty-append a.text x q,
  starts_with-append a.text (x ∷ q),
  drop-append a.text (x ∷ q),
  nil_of a.text,
)
new_piece_extends (x ∷ q) (y ∷ d) a h = ground (
  arith,
  starts_with-append a.text (x ∷ q),
  drop-append a.text (x ∷ q),
  same_points_iff (a.text ++ x ∷ q) a.text,
  same_points_iff (x ∷ q) (y ∷ d),
  append_longer a.text x q,
  is_nonempty-append a.text x q,
)

-- A response whose full text extends the collected text by `q` brings the text up to that full
-- text, whatever its delta says. Where it brings nothing new this needs a delta that differs from the
-- collected text, and a collected text that is not empty.
pub consume_catches_up :
    (a : StreamTextAccumulator) (q : Points) (d : Option Points)
    → (q ≢ []) ⊎ ((text_value d ≢ a.text) × (a.text ≢ []))
    → (consume (record { text_delta = d; text = some (a.text ++ q) }) a).0.text ≡ a.text ++ q
unfolding consume
consume_catches_up a q d h =
    let r = new_piece (text_value d) (a.text ++ q) (counted a) in
    rw (
      (emit_appends r.0 r.1).0,
      new_piece_extends q (text_value d) (counted a) h,
      (new_piece-same (text_value d) (a.text ++ q) (counted a)).0,
    )

-- A response with a delta alone.
abbrev pub delta_only : Points → Response
delta_only d = record { text_delta = some d; text = none }

-- A response with a full text alone.
abbrev pub text_only : Points → Response
text_only t = record { text_delta = none; text = some t }

abbrev pub delta_and_text : Points → Points → Response
delta_and_text d t = record { text_delta = some d; text = some t }

delta_only-text :
    (a : StreamTextAccumulator) (d : Points) → (consume (delta_only d) a).0.text ≡ a.text ++ d
unfolding consume new_piece consume_explicit_delta
delta_only-text a [] = sym (append-nil a.text)
delta_only-text a (c ∷ d) = rw ((emit_appends _ (c ∷ d)).0, (observe-same delta (counted a)).0)

nothing_new : (a : StreamTextAccumulator) → (consume (text_only []) a).0.text ≡ a.text ++ []
unfolding consume new_piece
nothing_new a = (emit_appends (counted a) []).0

text_only-text :
    (a : StreamTextAccumulator) (q : Points)
    → (consume (text_only (a.text ++ q)) a).0.text ≡ a.text ++ q
text_only-text a (x ∷ q) = consume_catches_up a (x ∷ q) none (inl (λ h. cc))
text_only-text a [] = elim (List-cases a.text) [
  | inl e ↦ ap (λ t. (consume (text_only t) a).0.text) (append-nil a.text ∙ e) ∙ nothing_new a
  | inr (c, t, e) ↦ consume_catches_up a [] none (inr (λ h. cc, λ h. cc))
]

-- `Reports t responses u`: a stream that tells of a text growing from `t` to `u`. Each response
-- names the next part as a delta, the text so far with the next part, or both. One that gives both
-- brings a part that is not empty, and then its delta may be any text, so that deltas may be lost on
-- the way; or it repeats a text so far that is neither empty nor its delta.
pub data Reports : Points → List Response → Points → Type 0 where
  finished : {t : Points} → Reports t [] t
  by_delta :
      {t u : Points} {rest : List Response} (q : Points)
      → Reports (t ++ q) rest u
      → Reports t (delta_only q ∷ rest) u
  by_text :
      {t u : Points} {rest : List Response} (q : Points)
      → Reports (t ++ q) rest u
      → Reports t (text_only (t ++ q) ∷ rest) u
  by_both :
      {t u : Points} {rest : List Response} (d q : Points)
      → (q ≢ []) ⊎ ((d ≢ t) × (t ≢ []))
      → Reports (t ++ q) rest u
      → Reports t (delta_and_text d (t ++ q) ∷ rest) u

-- Whatever mix of deltas and full texts reports a growing text, the accumulator that holds the
-- text at the start holds the text at the end, if each response that gives both a delta and a full
-- text brings something new, or repeats a text so far that is neither empty nor its delta: nothing is
-- lost and nothing is doubled.
pub collect-Reports :
    {t u : Points} {responses : List Response} (a : StreamTextAccumulator)
    → Reports t responses u
    → a.text ≡ t
    → (collect responses a).0.text ≡ u
unfolding collect
collect-Reports a finished e = e
collect-Reports a (by_delta q r) e =
    collect-Reports (consume (delta_only q) a).0 r (delta_only-text a q ∙ ap (λ s. s ++ q) e)
collect-Reports {t} a (by_text q r) e =
    collect-Reports (consume (text_only (t ++ q)) a).0 r (rw (← e) (text_only-text a q))
collect-Reports {t} a (by_both d q fit r) e =
    collect-Reports (consume (delta_and_text d (t ++ q)) a).0 r
      (rw (← e) (consume_catches_up a q (some d) (rw (e) fit)))
