-- ===== src/Text/Chunk.antt =====
-- `chunk_text` of src/app/domain/text.py.
pub mod Cut
pub mod Spans
pub mod Cover
use ai_text.Prelude.{
  ℕ, zero, suc, ◌+◌, ◌-◌, ◌/◌, min, max, Bool, true, false, ◌&&◌, Option, none, some, List, [], ◌∷◌,
  ◌++◌, ltb, leb, ◌==◌, if◌then◌else◌, drop, length, get_elem?, slice,
}
use ai_text.Text.Unicode.{Unicode, Text, space, newline}
use ai_text.Text.Normalize.{is_in, count_spaces}

pub record ChunkSpan : Type 0 where
  pub ordinal : ℕ
  pub start : ℕ
  pub end : ℕ
  pub text : Text

-- `window.rfind("\n\n")`, `i` being the place of this rest of the window.
unfoldable pub rfind_break : ℕ → Text → Option ℕ
rfind_break i [] = none
rfind_break i (c ∷ []) = none
rfind_break i (c ∷ d ∷ t) = elim (rfind_break (i + 1) (d ∷ t)) [
  | some k ↦ some k
  | none ↦ if c == newline && d == newline then some i else none
]

-- `window.rfind(" ")`
unfoldable pub rfind_space : ℕ → Text → Option ℕ
rfind_space i [] = none
rfind_space i (c ∷ t) = elim (rfind_space (i + 1) t) [
  | some k ↦ some k
  | none ↦ if c == space then some i else none
]

abbrev terminators : List ℕ
terminators = 0x2e ∷ 0x21 ∷ 0x3f ∷ 0x2026 ∷ []

abbrev closers : List ℕ
closers = 0x22 ∷ 0x27 ∷ 0xbb ∷ 0x201d ∷ 0x29 ∷ 0x5d ∷ []

module _ (u : Unicode) where
  -- The rest of `_SENTENCE_END` behind its first character: the length of a match of `[…]*\s`.
  unfoldable pub closing : Text → Option ℕ
  unfolding is_in
  closing [] = none
  closing (c ∷ t) = elim (closing t) [
    | some n ↦ if is_in c closers then some (n + 1) else if u.is_space c then some 1 else none
    | none ↦ if is_in c closers then none else if u.is_space c then some 1 else none
  ]

  -- The end of the last match of `_SENTENCE_END` in the window. A match holds no terminator but its
  -- first character, so no two overlap.
  unfoldable pub last_sentence : ℕ → Text → Option ℕ
  unfolding closing is_in
  last_sentence i [] = none
  last_sentence i (c ∷ t) = elim (last_sentence (i + 1) t) [
    | some k ↦ some k
    | none ↦
        if is_in c terminators
        then elim (closing t) [ none ↦ none | some n ↦ some (i + 1 + n) ]
        else none
  ]

  -- Where the text is cut in the window that starts at `base`, before `hard_end`.
  unfoldable pub cut_in : Text → ℕ → ℕ → ℕ
  unfolding rfind_break rfind_space last_sentence
  cut_in window base hard_end = elim (rfind_break 0 window) [
    | some cut ↦ base + cut + 2
    | none ↦ elim (last_sentence 0 window) [
      | some last ↦ base + last
      | none ↦ elim (rfind_space 0 window) [ some space ↦ base + space + 1 | none ↦ hard_end ]
    ]
  ]

  -- `end` of the chunk that starts at `pos`.
  unfoldable pub end_of : Text → ℕ → ℕ → ℕ
  unfolding cut_in
  end_of text target pos =
      let hard_end = min (pos + target) (length text) in
      let base = pos + max (target / 2) 1 in
      if ltb hard_end (length text)
      then cut_in (slice base hard_end text) base hard_end
      else hard_end

  -- The inner loop at the end of a chunk, with `k` rounds left: `stop` is `pos + k`.
  unfoldable pub trim_end : Text → ℕ → ℕ → ℕ
  trim_end text pos zero = pos
  trim_end text pos (suc k) = elim (get_elem? text (pos + k)) [
    | none ↦ pos + suc k
    | some c ↦ let rest = trim_end text pos k in if u.is_space c then rest else pos + suc k
  ]

  unfoldable pub span_at : Text → ℕ → ℕ → ℕ → List ChunkSpan
  span_at text ordinal pos stop =
      if ltb pos stop
      then record { ordinal = ordinal; start = pos; end = stop; text = slice pos stop text } ∷ []
      else []

  -- `spans.append(…)` before the spans of the later rounds.
  unfoldable pub before_rest : List ChunkSpan → Option (List ChunkSpan) → Option (List ChunkSpan)
  before_rest spans none = none
  before_rest spans (some rest) = some (spans ++ rest)

  -- The outer loop, one round for each unit of fuel; `none` says that there was too little.
  unfoldable pub chunks_from : ℕ → Text → ℕ → ℕ → ℕ → Option (List ChunkSpan)
  unfolding before_rest count_spaces end_of trim_end span_at
  chunks_from zero text target ordinal pos = none
  chunks_from (suc fuel) text target ordinal pos =
      let start = pos + count_spaces u (drop pos text) in
      let end = end_of text target start in
      let spans = span_at text ordinal start (trim_end text start (end - start)) in
      let rest = before_rest spans (chunks_from fuel text target (ordinal + length spans) end) in
      if leb (length text) start then some [] else rest

  unfoldable pub chunk_text : Text → ℕ → Option (List ChunkSpan)
  unfolding chunks_from
  chunk_text text target = chunks_from (length text + 1) text target 0 0
