-- ===== src/Tests/Chunking.antt =====
-- Three tokens, in chunks of two that overlap by one.
use z3rno_core.Prelude.{
  ◌≡◌, refl, sym, subst, String, any, false, true, none, In, inl, inr, List, [], ◌∷◌, arith,
}
use z3rno_core.Result.{ok}
use z3rno_core.Engine.State.{is_blank}
use z3rno_core.Chunking.Paragraphs.{Span, split_paragraphs, pack, chunk_by_paragraphs}
use z3rno_core.Chunking.Paragraphs.Packed.{AreChunks, contains, chunk_by_paragraphs-AreChunks}
use z3rno_core.Chunking.Tokens.{Encoding, Chunk}

abbrev toy : Encoding
toy = record { encode = λ s. 1 ∷ 2 ∷ 3 ∷ []; decode = λ ts. "t" }

-- Three paragraphs; the first two fit into one chunk, and the last is too large for any.
abbrev paragraphs : String
paragraphs = "aa\n\nb\n\ncccccccc"

abbrev blank_lines : String → List Span
blank_lines text = (2, 4) ∷ (5, 7) ∷ []

packed :
    pack paragraphs 6 0 none ((0, 2) ∷ (4, 5) ∷ (7, 15) ∷ [])
    ≡ record { index = 0; text = "aa\n\nb"; char_start = 0; char_end = 5; token_count = 1 }
      ∷ record { index = 1; text = "cccccccc"; char_start = 7; char_end = 15; token_count = 2 }
      ∷ []
unfolding pack
packed = refl

not_blank : is_blank paragraphs ≡ false
unfolding is_blank
not_blank = refl

split : split_paragraphs blank_lines paragraphs ≡ (0, 2) ∷ (4, 5) ∷ (7, 15) ∷ []
unfolding split_paragraphs
split = refl

chunk_by_paragraphs-AreChunks_example :
    (chunks : List Chunk) × (chunk_by_paragraphs blank_lines 6 paragraphs ≡ ok chunks)
    × AreChunks paragraphs 6 (split_paragraphs blank_lines paragraphs) 0 0 chunks
    × (any (contains (4, 5)) chunks ≡ true)
chunk_by_paragraphs-AreChunks_example =
    chunk_by_paragraphs-AreChunks blank_lines 6 paragraphs (4, 5) (omega arith) not_blank
      (omega arith, omega arith, (omega arith, omega arith, tt))
      (subst (In (4, 5)) (sym split) (inr (inl refl)))
