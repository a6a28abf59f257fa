-- ===== src/Text/Chunk/Spans.antt =====
-- The chunks that `chunk_text` of src/app/domain/text.py returns.
use ai_text.Prelude.{
  ℕ, zero, suc, ◌+◌, ◌-◌, ◌≤◌, ◌<◌, ◌≡◌, refl, ap, subst, sym, Bool, true, false, Option, none,
  some, List, [], ◌∷◌, ◌++◌, arith, leb, leb→le, if◌then◌else◌, drop, length, slice,
}
use ai_text.Text.Unicode.{Unicode, Text}
use ai_text.Text.Normalize.{count_spaces}
use ai_text.Text.Chunk.{ChunkSpan, end_of, trim_end, span_at, before_rest, chunks_from, chunk_text}
use ai_text.Text.Chunk.Cut.{end_of_bounds}
use ai_text.Text.Chunk.Cover.{
  IsBlank, IsInk, IsBlank-join, skip-IsBlank, skip-IsInk, trim_end-IsTrimmed,
}

module _ (u : Unicode) where
  -- The next chunk, after a place up to which the text is taken care of.
  pub record IsChunk (text : Text) (target ordinal from : ℕ) (s : ChunkSpan) : Type 0 where
    pub numbered : s.ordinal ≡ ordinal
    pub behind : from ≤ s.start
    pub filled : s.start < s.end
    pub inside : s.end ≤ length text
    pub short : s.end ≤ s.start + target
    pub exact : s.text ≡ slice s.start s.end text
    pub blank : IsBlank u text from s.start
    pub first : IsInk u text s.start
    pub last : IsInk u text (s.end - 1)

  -- The chunks follow one another, and nothing but white space stands outside them.
  abbrev pub AreChunks : Text → ℕ → ℕ → ℕ → List ChunkSpan → Type 0
  AreChunks text target ordinal from [] = IsBlank u text from (length text)
  AreChunks text target ordinal from (s ∷ l) =
      IsChunk text target ordinal from s × AreChunks text target (ordinal + 1) s.end l

  abbrev pub IsDone : (List ChunkSpan → Type 0) → Option (List ChunkSpan) → Type 0
  IsDone P none = ⊥
  IsDone P (some l) = P l

  IsDone-before :
      (P Q : List ChunkSpan → Type 0) (spans : List ChunkSpan) (o : Option (List ChunkSpan))
      → ((l : List ChunkSpan) → P l → Q (spans ++ l))
      → IsDone P o
      → IsDone Q (before_rest u spans o)
  unfolding before_rest
  IsDone-before P Q spans none f h = h
  IsDone-before P Q spans (some l) f h = f l h

  AreChunks-earlier :
      (text : Text) (target ordinal a b : ℕ) (l : List ChunkSpan)
      → a ≤ b
      → IsBlank u text a b
      → AreChunks text target ordinal b l
      → AreChunks text target ordinal a l
  AreChunks-earlier text target ordinal a b [] le blank h =
      IsBlank-join u text a b (length text) blank h
  AreChunks-earlier text target ordinal a b (s ∷ l) le blank (h, rest) = (
    record {
      numbered = h.numbered;
      behind = omega (arith, h.behind, le);
      filled = h.filled;
      inside = h.inside;
      short = h.short;
      exact = h.exact;
      blank = IsBlank-join u text a b s.start blank h.blank;
      first = h.first;
      last = h.last;
    },
    rest,
  )

  -- One round adds one chunk.
  span_at-filled :
      (text : Text) (ordinal pos stop : ℕ)
      → pos < stop
      → span_at u text ordinal pos stop
        ≡ record { ordinal = ordinal; start = pos; end = stop; text = slice pos stop text } ∷ []
  unfolding span_at
  span_at-filled text ordinal pos stop h = ground arith

  next-AreChunks :
      (text : Text) (target ordinal pos : ℕ) (o : Option (List ChunkSpan))
      → 0 < target
      → let start = pos + count_spaces u (drop pos text) in
        let end = end_of u text target start in
        start < length text
        → let spans = span_at u text ordinal start (trim_end u text start (end - start)) in
          IsDone (AreChunks text target (ordinal + length spans) end) o
          → IsDone (AreChunks text target ordinal pos) (before_rest u spans o)
  next-AreChunks text target ordinal pos o positive inside h =
      let start = pos + count_spaces u (drop pos text) in
      let end = end_of u text target start in
      let (ahead, short, in_text) = end_of_bounds u text target start positive inside in
      let ink = skip-IsInk u text pos inside in
      let stop = trim_end u text start (end - start) in
      let (low, high, blank, last) =
        trim_end-IsTrimmed u text start (end - start) (omega (arith, ahead))
          (omega (arith, ahead, in_text)) ink in
      let stop_le : stop ≤ end = omega (arith, high, ahead) in
      subst (λ spans. IsDone (AreChunks text target ordinal pos) (before_rest u spans o))
        (sym (span_at-filled text ordinal start stop low))
        (IsDone-before (AreChunks text target (ordinal + 1) end) (AreChunks text target ordinal pos)
          _ o
          (λ l rest. (
            record {
              numbered = refl;
              behind = omega arith;
              filled = low;
              inside = omega (arith, stop_le, in_text);
              short = omega (arith, stop_le, short);
              exact = refl;
              blank = skip-IsBlank u text pos;
              first = ink;
              last = last;
            },
            AreChunks-earlier text target (ordinal + 1) stop end l stop_le
                (λ i c from to at. blank i c from (omega (arith, to, ahead)) at) rest,
          ))
          (subst (λ n. IsDone (AreChunks text target n end) o)
            (ap (λ spans. ordinal + length spans) (span_at-filled text ordinal start stop low)) h))

  IsDone-if :
      (P : List ChunkSpan → Type 0) (b : Bool) (x y : Option (List ChunkSpan))
      → (b ≡ true → IsDone P x)
      → (b ≡ false → IsDone P y)
      → IsDone P (if b then x else y)
  IsDone-if P true x y f g = f refl
  IsDone-if P false x y f g = g refl

  chunks_from-AreChunks :
      (fuel : ℕ) (text : Text) (target ordinal pos : ℕ)
      → 0 < target
      → pos ≤ length text
      → length text < fuel + pos
      → IsDone (AreChunks text target ordinal pos) (chunks_from u fuel text target ordinal pos)
  unfolding chunks_from
  chunks_from-AreChunks zero text target ordinal pos positive le fuel_left = absurd (omega arith)
  chunks_from-AreChunks (suc fuel) text target ordinal pos positive le fuel_left =
      let start = pos + count_spaces u (drop pos text) in
      IsDone-if (AreChunks text target ordinal pos) (leb (length text) start) _ _
        (λ over i c from to at.
          skip-IsBlank u text pos i c from (omega (arith, to, leb→le (length text) start over)) at)
        (λ more.
          let inside : start < length text = ground arith in
          next-AreChunks text target ordinal pos _ positive inside (
            chunks_from-AreChunks fuel text target _ (end_of u text target start) positive
              (end_of_bounds u text target start positive inside).2
              (omega (arith, (end_of_bounds u text target start positive inside).0, fuel_left))))

-- With a positive target the splitting ends. The chunks are numbered from 0 and follow one another
-- without overlap; each is the exact slice of the text at its offsets, is not longer than the target,
-- and neither starts nor ends with white space; all that stands outside them is white space.
pub chunk_text-AreChunks :
    (u : Unicode) (text : Text) (target : ℕ)
    → 0 < target
    → IsDone u (AreChunks u text target 0 0) (chunk_text u text target)
unfolding chunk_text
chunk_text-AreChunks u text target positive =
    chunks_from-AreChunks u (length text + 1) text target 0 0 positive (omega arith) (omega arith)
