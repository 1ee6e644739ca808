-- ===== src/Chunking/Paragraphs/Packed.antt =====
-- What the chunks of a text hold.
use Prim.Native.String.{◌++◌ as append}
use z3rno_core.Prelude.{
  ℕ, suc, ◌-◌, ◌≡◌, ◌≤◌, ◌<◌, refl, sym, ap, ◌∙◌, subst, Bool, true, false, not, ◌&&◌, String,
  Option, none, some, List, [], ◌∷◌, any, ltb, leb, ◌==◌, Bool-cases, ◌⊎◌, inl, inr, In, arith,
}
use z3rno_core.Result.{ok}
use z3rno_core.Engine.State.{is_blank}
use z3rno_core.Text.{text_slice}
use z3rno_core.Chunking.Tokens.{Chunk}
use z3rno_core.Chunking.Paragraphs.{
  Span, spans_from, split_paragraphs, Buffer, flushed, alone, opened, extended, pack,
  chunk_by_paragraphs,
}
use z3rno_core.Chunking.Paragraphs.Slices.{
  AreSpans, AreMatches, spans_from-AreSpans, filter-AreSpans, slice-join,
}

-- Chunks from the number `index` on: each holds its slice of the text, starts at `lo` or after the end of
-- the one before, and is of at most `max_chars` characters unless it is a paragraph on its own.
abbrev pub AreChunks : String → ℕ → List Span → ℕ → ℕ → List Chunk → Type 0
AreChunks text max_chars spans index lo [] = Unit
AreChunks text max_chars spans index lo (c ∷ cs) =
    (c.index ≡ index)
    × (c.text ≡ text_slice c.char_start c.char_end text)
    × (lo ≤ c.char_start)
    × (c.char_start < c.char_end)
    × ((c.char_end - c.char_start ≤ max_chars) ⊎ In (c.char_start, c.char_end) spans)
    × AreChunks text max_chars spans (suc index) c.char_end cs

abbrev pub contains : Span → Chunk → Bool
contains s c = leb c.char_start s.0 && leb s.1 c.char_end

-- What the buffer holds: its slice of the text, of at most `max_chars` characters.
abbrev IsBuffer : String → ℕ → ℕ → Buffer → Type 0
IsBuffer text max_chars lo b =
    (b.buf_text ≡ text_slice b.buf_start b.buf_end text)
    × (lo ≤ b.buf_start)
    × (b.buf_start < b.buf_end)
    × (b.buf_end - b.buf_start ≤ max_chars)

module _ (text : String) (max_chars : ℕ) (all : List Span) where
  abbrev Good : ℕ → ℕ → List Chunk → Type 0
  Good = AreChunks text max_chars all

  -- The buffer, and the spans after it.
  abbrev Ready : ℕ → Option Buffer → List Span → Type 0
  Ready lo none ss = AreSpans lo ss
  Ready lo (some b) ss = IsBuffer text max_chars lo b × AreSpans b.buf_end ss

  opened-Ready :
      (lo : ℕ) (s : Span) (ss : List Span)
      → ltb max_chars (s.1 - s.0) ≡ false
      → AreSpans lo (s ∷ ss)
      → Ready lo (some (opened text s)) ss
  opened-Ready lo s ss small a = ((refl, a.0, a.1, ground arith), a.2)

  extended-Ready :
      (lo : ℕ) (b : Buffer) (s : Span) (ss : List Span)
      → ltb max_chars (s.1 - b.buf_start) ≡ false
      → Ready lo (some b) (s ∷ ss)
      → Ready lo (some (extended text b s)) ss
  extended-Ready lo b s ss small (held, a) =
      let x = a.0 in
      let y = a.1 in
      let z = held.2 in
      (
        (
          ap (λ t. append t (append (text_slice b.buf_end s.0 text) (text_slice s.0 s.1 text)))
                held.0
              ∙ ap (append (text_slice b.buf_start b.buf_end text))
                  (slice-join b.buf_end s.0 s.1 text x (omega (arith, y)))
              ∙ slice-join b.buf_start b.buf_end s.1 text (omega (arith, z)) (omega (arith, x, y)),
          held.1,
          omega (arith, x, y, z),
          ground arith,
        ),
        a.2,
      )

  pack-AreChunks :
      (index lo : ℕ) (buf : Option Buffer) (ss : List Span)
      → Ready lo buf ss
      → ((s : Span) → In s ss → In s all)
      → Good index lo (pack text max_chars index buf ss)
  unfolding pack
  pack-AreChunks index lo none [] r inc = tt
  pack-AreChunks index lo (some b) [] (held, a) inc = (refl, held.0, held.1, held.2, inl held.3, tt)
  pack-AreChunks index lo none (s ∷ ss) a inc = elim (Bool-cases (ltb max_chars (s.1 - s.0))) [
    | inl e ↦ rw e (
      refl,
      refl,
      a.0,
      a.1,
      inr (inc s (inl refl)),
      pack-AreChunks (suc index) s.1 none ss a.2 (λ z i. inc z (inr i)),
    )
    | inr e ↦ rw e (
        pack-AreChunks index lo (some (opened text s)) ss (opened-Ready lo s ss e a)
          (λ z i. inc z (inr i)))
  ]
  pack-AreChunks index lo (some b) (s ∷ ss) (held, a) inc =
      elim (Bool-cases (ltb max_chars (s.1 - s.0))) [
        | inl e ↦ rw e (
          refl,
          held.0,
          held.1,
          held.2,
          inl held.3,
          (
            refl,
            refl,
            a.0,
            a.1,
            inr (inc s (inl refl)),
            pack-AreChunks (suc (suc index)) s.1 none ss a.2 (λ z i. inc z (inr i)),
          ),
        )
        | inr e ↦ elim (Bool-cases (ltb max_chars (s.1 - b.buf_start))) [
          | inl f ↦
              rw (e, f)
                (
                  refl,
                  held.0,
                  held.1,
                  held.2,
                  inl held.3,
                  pack-AreChunks (suc index) b.buf_end (some (opened text s)) ss
                      (opened-Ready b.buf_end s ss e a) (λ z i. inc z (inr i)),
                )
          | inr f ↦
              rw (e, f)
                (pack-AreChunks index lo (some (extended text b s)) ss
                  (extended-Ready lo b s ss f (held, a)) (λ z i. inc z (inr i)))
        ]
      ]

  -- What the buffer holds already is in a chunk at last.
  abbrev in_buffer : Span → Option Buffer → Bool
  in_buffer s none = false
  in_buffer s (some b) = leb b.buf_start s.0 && leb s.1 b.buf_end

  kept :
      (s : Span) (b : Buffer) (t : Span)
      → b.buf_end ≤ t.1
      → in_buffer s (some b) ≡ true
      → in_buffer s (some (extended text b t)) ≡ true
  kept s b t h k = ground arith

  pack-buffer :
      (index lo : ℕ) (buf : Option Buffer) (ss : List Span) (s : Span)
      → Ready lo buf ss
      → in_buffer s buf ≡ true
      → any (contains s) (pack text max_chars index buf ss) ≡ true
  unfolding pack
  pack-buffer index lo none ss s r h = absurd (cc h)
  pack-buffer index lo (some b) [] s r h = rw h
  pack-buffer index lo (some b) (t ∷ ss) s (held, a) h =
      elim (Bool-cases (ltb max_chars (t.1 - t.0))) [
        | inl e ↦ rw (e, h)
        | inr e ↦ elim (Bool-cases (ltb max_chars (t.1 - b.buf_start))) [
          | inl f ↦ rw (e, f, h)
          | inr f ↦
              let x = a.0 in
              let y = a.1 in
              rw (e, f)
                (pack-buffer index lo (some (extended text b t)) ss s
                  (extended-Ready lo b t ss f (held, a)) (kept s b t (omega (arith, x, y)) h))
        ]
      ]

  self : (index : ℕ) (s : Span) → contains s (alone text index s) ≡ true
  self index s = ground arith

  joins :
      (b : Buffer) (t : Span)
      → b.buf_start < b.buf_end
      → b.buf_end ≤ t.0
      → in_buffer t (some (extended text b t)) ≡ true
  joins b t h k = ground arith

  pack-contains :
      (index lo : ℕ) (buf : Option Buffer) (ss : List Span) (s : Span)
      → Ready lo buf ss
      → In s ss
      → any (contains s) (pack text max_chars index buf ss) ≡ true
  unfolding pack
  pack-contains index lo buf [] s r i = elim i [ ]
  pack-contains index lo none (t ∷ ss) s a (inl same) =
      elim (Bool-cases (ltb max_chars (t.1 - t.0))) [
        | inl e ↦
            (let c =
                subst (λ z. contains z (alone text index t) ≡ true) (sym same) (self index t) in
              rw (e, c))
        | inr e ↦ rw e (
            pack-buffer index lo (some (opened text t)) ss s (opened-Ready lo t ss e a)
              (subst (λ z. in_buffer z (some (opened text t)) ≡ true) (sym same) (self index t)))
      ]
  pack-contains index lo none (t ∷ ss) s a (inr later) =
      elim (Bool-cases (ltb max_chars (t.1 - t.0))) [
        | inl e ↦
            let ih = pack-contains (suc index) t.1 none ss s a.2 later in
            let own = contains s (alone text index t) in rw (e, ih) (ground arith)
        | inr e ↦
            rw e
              (pack-contains index lo (some (opened text t)) ss s (opened-Ready lo t ss e a) later)
      ]
  pack-contains index lo (some b) (t ∷ ss) s (held, a) (inl same) =
      elim (Bool-cases (ltb max_chars (t.1 - t.0))) [
        | inl e ↦
            let own =
              subst (λ z. contains z (alone text (suc index) t) ≡ true) (sym same)
                (self (suc index) t) in
            let first = contains s (flushed index b) in rw (e, own) (ground arith)
        | inr e ↦ elim (Bool-cases (ltb max_chars (t.1 - b.buf_start))) [
          | inl f ↦
              let ih =
                pack-buffer (suc index) b.buf_end (some (opened text t)) ss s
                  (opened-Ready b.buf_end t ss e a)
                  (subst (λ z. in_buffer z (some (opened text t)) ≡ true) (sym same)
                    (self index t)) in
              let first = contains s (flushed index b) in rw (e, f, ih) (ground arith)
          | inr f ↦
              rw (e, f)
                (pack-buffer index lo (some (extended text b t)) ss s
                  (extended-Ready lo b t ss f (held, a))
                  (subst (λ z. in_buffer z (some (extended text b t)) ≡ true) (sym same)
                    (joins b t held.2 a.0)))
        ]
      ]
  pack-contains index lo (some b) (t ∷ ss) s (held, a) (inr later) =
      elim (Bool-cases (ltb max_chars (t.1 - t.0))) [
        | inl e ↦
            let ih = pack-contains (suc (suc index)) t.1 none ss s a.2 later in
            let first = contains s (flushed index b) in
            let own = contains s (alone text (suc index) t) in rw (e, ih) (ground arith)
        | inr e ↦ elim (Bool-cases (ltb max_chars (t.1 - b.buf_start))) [
          | inl f ↦
              let ih =
                pack-contains (suc index) b.buf_end (some (opened text t)) ss s
                  (opened-Ready b.buf_end t ss e a) later in
              let first = contains s (flushed index b) in rw (e, f, ih) (ground arith)
          | inr f ↦
              rw (e, f)
                (pack-contains index lo (some (extended text b t)) ss s
                  (extended-Ready lo b t ss f (held, a)) later)
        ]
      ]

-- Under a positive `max_chars`, and where the matches of the pattern come in order and apart, the chunks
-- of a text that is not blank are numbered from 0 and hold their slices of the text, one after another
-- and apart. Each is of at most `max_chars` characters unless it is one paragraph on its own, and each
-- paragraph `s` is whole in one of them.
pub chunk_by_paragraphs-AreChunks :
    (matches : String → List Span) (max_chars : ℕ) (text : String) (s : Span)
    → 0 < max_chars
    → is_blank text ≡ false
    → AreMatches 0 (matches text)
    → In s (split_paragraphs matches text)
    → (chunks : List Chunk) × (chunk_by_paragraphs matches max_chars text ≡ ok chunks)
      × AreChunks text max_chars (split_paragraphs matches text) 0 0 chunks
      × (any (contains s) chunks ≡ true)
unfolding chunk_by_paragraphs split_paragraphs
chunk_by_paragraphs-AreChunks matches max_chars text s positive given apart here =
    let spans = split_paragraphs matches text in
    let ordered : AreSpans 0 spans =
      filter-AreSpans (λ span. not (is_blank (text_slice span.0 span.1 text))) 0
        (spans_from text 0 (matches text)) (spans_from-AreSpans text 0 (matches text) apart) in
    let allowed : (max_chars == 0) ≡ false = ground arith in
    (
      pack text max_chars 0 none spans,
      rw (allowed, given),
      pack-AreChunks text max_chars spans 0 0 none spans ordered (λ z i. i),
      pack-contains text max_chars spans 0 0 none spans s ordered here,
    )
