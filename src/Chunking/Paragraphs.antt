-- ===== src/Chunking/Paragraphs.antt =====
-- chunking/semantic_chunker.py. `matches` is what `_PARAGRAPH_RE.finditer` gives: where each match starts
-- and ends. `index` is `len(chunks)`, and the buffer holds its pieces joined.
use Prim.Native.String.{◌++◌ as append}
use z3rno_core.Prelude.{
  ℕ, zero, suc, ◌+◌, ◌-◌, ◌/◌, max, Bool, true, false, not, String, Option, none, some, List, [],
  ◌∷◌, filter, ltb, if◌then◌else◌, ◌==◌,
}
use z3rno_core.Result.{Result, ok, value_error, refuse, ◌>>=◌}
use z3rno_core.Engine.State.{is_blank}
use z3rno_core.Text.{text_length, text_slice}
use z3rno_core.Chunking.Tokens.{Chunk}
pub mod Slices
pub mod Packed

-- A start and an end.
abbrev pub Span : Type 0
Span = ℕ × ℕ

-- The loop over the matches from `pos` on.
unfoldable pub spans_from : String → ℕ → List Span → List Span
spans_from text pos [] = if ltb pos (text_length text) then (pos, text_length text) ∷ [] else []
spans_from text pos (m ∷ ms) =
    let rest = spans_from text m.1 ms in if ltb pos m.0 then (pos, m.0) ∷ rest else rest

unfoldable pub split_paragraphs : (String → List Span) → String → List Span
unfolding spans_from is_blank
split_paragraphs matches text =
    filter (λ span. not (is_blank (text_slice span.0 span.1 text)))
      (spans_from text 0 (matches text))

pub record Buffer : Type 0 where
  pub buf_start : ℕ
  pub buf_end : ℕ
  pub buf_text : String

-- What `flush` appends.
abbrev pub flushed : ℕ → Buffer → Chunk
flushed index b = record {
  index = index;
  text = b.buf_text;
  char_start = b.buf_start;
  char_end = b.buf_end;
  token_count = max 1 (text_length b.buf_text / 4);
}

-- A paragraph on its own.
abbrev pub alone : String → ℕ → Span → Chunk
alone text index span = record {
  index = index;
  text = text_slice span.0 span.1 text;
  char_start = span.0;
  char_end = span.1;
  token_count = max 1 ((span.1 - span.0) / 4);
}

abbrev pub opened : String → Span → Buffer
opened text span = record {
  buf_start = span.0;
  buf_end = span.1;
  buf_text = text_slice span.0 span.1 text;
}

-- The separator and the paragraph join the buffer.
abbrev pub extended : String → Buffer → Span → Buffer
extended text b span = record b {
  buf_end = span.1;
  buf_text =
      append b.buf_text (append (text_slice b.buf_end span.0 text) (text_slice span.0 span.1 text));
}

-- The loop over the spans, and the last `flush`.
unfoldable pub pack : String → ℕ → ℕ → Option Buffer → List Span → List Chunk
pack text max_chars index none [] = []
pack text max_chars index (some b) [] = flushed index b ∷ []
pack text max_chars index none (span ∷ spans) =
    let after_large = pack text max_chars (suc index) none spans in
    let after_open = pack text max_chars index (some (opened text span)) spans in
    if ltb max_chars (span.1 - span.0) then alone text index span ∷ after_large else after_open
pack text max_chars index (some b) (span ∷ spans) =
    let after_large = pack text max_chars (suc (suc index)) none spans in
    let after_flush = pack text max_chars (suc index) (some (opened text span)) spans in
    let after_join = pack text max_chars index (some (extended text b span)) spans in
    if ltb max_chars (span.1 - span.0)
    then flushed index b ∷ (alone text (suc index) span ∷ after_large)
    else (if ltb max_chars (span.1 - b.buf_start)
        then flushed index b ∷ after_flush
        else after_join)

unfoldable pub chunk_by_paragraphs : (String → List Span) → ℕ → String → Result (List Chunk)
unfolding split_paragraphs pack is_blank
chunk_by_paragraphs matches max_chars text = refuse (max_chars == 0) value_error >>= λ _.
    ok (if is_blank text then [] else pack text max_chars 0 none (split_paragraphs matches text))
