-- ===== src/Chunking/Tokens.antt =====
-- `chunk_by_tokens` and `count_tokens`. The tokenizer is a parameter; a negative overlap, which the
-- code refuses, is no natural number.
use z3rno_core.Prelude.{
  ℕ, zero, suc, ◌+◌, ◌-◌, String, Option, none, some, List, [], ◌∷◌, length, take, drop, leb, ltb,
  if◌then◌else◌, ◌==◌,
}
use z3rno_core.Result.{Result, ok, value_error, refuse, ◌>>=◌}
use z3rno_core.Engine.State.{is_blank}
use z3rno_core.Text.{text_length}

pub record Encoding : Type 0 where
  pub encode : String → List ℕ
  pub decode : List ℕ → String

pub record Chunk : Type 0 where
  pub index : ℕ
  pub text : String
  pub char_start : ℕ
  pub char_end : ℕ
  pub token_count : ℕ

-- `prefix_text` is the empty string at the start.
abbrev prefix_length : Encoding → ℕ → List ℕ → ℕ
prefix_length enc i tokens = if ltb 0 i then text_length (enc.decode (take i tokens)) else 0

abbrev pub window : ℕ → ℕ → List ℕ → List ℕ
window chunk_size i tokens = take chunk_size (drop i tokens)

abbrev pub chunk_at : Encoding → ℕ → ℕ → ℕ → List ℕ → Chunk
chunk_at enc chunk_size index i tokens =
    let chunk_text = enc.decode (window chunk_size i tokens) in
    record {
      index = index;
      text = chunk_text;
      char_start = prefix_length enc i tokens;
      char_end = prefix_length enc i tokens + text_length chunk_text;
      token_count = length (window chunk_size i tokens);
    }

-- The `while` loop. `index` is `len(chunks)`, and the fuel bounds the rounds: `none` is a loop that
-- has not ended.
unfoldable pub chunks_from : Encoding → ℕ → ℕ → ℕ → ℕ → ℕ → List ℕ → Option (List Chunk)
chunks_from enc chunk_size step zero index i tokens =
    if ltb i (length tokens) then none else some []
chunks_from enc chunk_size step (suc fuel) index i tokens =
    let rest = chunks_from enc chunk_size step fuel (suc index) (i + step) tokens in
    let chunk = chunk_at enc chunk_size index i tokens in
    if ltb i (length tokens)
    then (if leb (length tokens) (i + chunk_size) then some (chunk ∷ []) else cons chunk rest)
    else some []
  where
    cons : Chunk → Option (List Chunk) → Option (List Chunk)
    cons c none = none
    cons c (some cs) = some (c ∷ cs)

-- The fuel is the number of tokens: each round takes a step of one token at least.
unfoldable pub chunk_by_tokens : Encoding → ℕ → ℕ → String → Result (Option (List Chunk))
unfolding chunks_from is_blank
chunk_by_tokens enc chunk_size overlap text = refuse (chunk_size == 0) value_error >>= λ _.
    (refuse (leb chunk_size overlap) value_error >>= λ _. ok (
      if is_blank text
      then some []
      else chunks_from enc chunk_size (chunk_size - overlap) (length (enc.encode text)) 0 0
          (enc.encode text)))

unfoldable pub count_tokens : Encoding → String → ℕ
count_tokens enc String.[] = 0
count_tokens enc (String.◌∷◌ c s) = length (enc.encode (String.◌∷◌ c s))
