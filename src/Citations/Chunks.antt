-- ===== src/Citations/Chunks.antt =====
-- The chunks that src/app/domain/ingest.py stores for a version are those of `chunk_text`
-- (src/app/domain/text.py), and the citations of src/app/domain/citations.py rest on their shape.
use ai_text.Prelude.{
  some_inj, ℕ, ◌+◌, ◌≤◌, ◌<◌, ◌≡◌, ap, sym, subst, ◌∙◌, some, List, [], ◌∷◌, arith, slice, Among,
  inl, inr,
}
use ai_text.Text.Unicode.{Unicode, Text}
use ai_text.Text.Chunk.{ChunkSpan, chunk_text}
use ai_text.Text.Chunk.Cover.{IsBlank}
use ai_text.Text.Chunk.Spans.{IsChunk, AreChunks, IsDone, chunk_text-AreChunks}
use ai_text.Citations.{Chunk}
use ai_text.Citations.Runs.{IsSource}

-- A row of `chunks`: one of the spans that the version's text is split into.
pub record IsStored (u : Unicode) (content : ℕ → Text) (target : ℕ) (c : Chunk) : Type 0 where
  pub spans : List ChunkSpan
  pub span : ChunkSpan
  pub split : chunk_text u (content c.version_id) target ≡ some spans
  pub among : Among span spans
  pub ordinal : c.ordinal ≡ span.ordinal
  pub start : c.start ≡ span.start
  pub end : c.end ≡ span.end
  pub text : c.text ≡ span.text

module _ (u : Unicode) (text : Text) (target : ℕ) where
  spans-AreChunks :
      (l : List ChunkSpan)
      → 0 < target
      → chunk_text u text target ≡ some l
      → AreChunks u text target 0 0 l
  spans-AreChunks l positive h =
      subst (IsDone u (AreChunks u text target 0 0)) h (chunk_text-AreChunks u text target positive)

  Among-IsChunk :
      (n from : ℕ) (l : List ChunkSpan) (s : ChunkSpan)
      → AreChunks u text target n from l
      → Among s l
      → (m : ℕ) × (f : ℕ) × (n ≤ m) × IsChunk u text target m f s
  Among-IsChunk n from [] s h a = absurd a
  Among-IsChunk n from (x ∷ l) s (h, rest) (inl same) =
      (n, from, omega arith, subst (IsChunk u text target n from) (sym same) h)
  Among-IsChunk n from (x ∷ l) s (h, rest) (inr later) =
      let (m, f, le, k) = Among-IsChunk (n + 1) x.end l s rest later in (m, f, omega (arith, le), k)

  -- The chunk with the next number stands behind the one before, after white space.
  next-IsChunk :
      (n from : ℕ) (l : List ChunkSpan) (s : ChunkSpan)
      → AreChunks u text target n from l
      → Among s l
      → s.ordinal ≡ n
      → IsChunk u text target n from s
  next-IsChunk n from [] s h a e = absurd a
  next-IsChunk n from (x ∷ l) s (h, rest) (inl same) e =
      subst (IsChunk u text target n from) (sym same) h
  next-IsChunk n from (x ∷ l) s (h, rest) (inr later) e =
      let (m, f, le, k) = Among-IsChunk (n + 1) x.end l s rest later in
      absurd (omega (arith, le, k.numbered, e))

  follow :
      (n from : ℕ) (l : List ChunkSpan) (s t : ChunkSpan)
      → AreChunks u text target n from l
      → Among s l
      → Among t l
      → t.ordinal ≡ s.ordinal + 1
      → (s.end ≤ t.start) × IsBlank u text s.end t.start
  follow n from [] s t h a b e = absurd a
  follow n from (x ∷ l) s t (h, rest) (inl same) (inl same') e =
      absurd (omega (arith, e, ap (λ (c : ChunkSpan). c.ordinal) (same ∙ sym same')))
  follow n from (x ∷ l) s t (h, rest) (inl same) (inr b) e =
      let number : s.ordinal ≡ n = ap (λ c. c.ordinal) same ∙ h.numbered in
      let end : x.end ≡ s.end = ap (λ c. c.end) (sym same) in
      let k = next-IsChunk (n + 1) x.end l t rest b (omega (arith, e, number)) in
      (omega (arith, k.behind, end), subst (λ p. IsBlank u text p t.start) end k.blank)
  follow n from (x ∷ l) s t (h, rest) (inr a) (inl same') e =
      let (m, f, le, k) = Among-IsChunk (n + 1) x.end l s rest a in
      let number : t.ordinal ≡ n = ap (λ c. c.ordinal) same' ∙ h.numbered in
      absurd (omega (arith, le, k.numbered, e, number))
  follow n from (x ∷ l) s t (h, rest) (inr a) (inr b) e = follow (n + 1) x.end l s t rest a b e

module _ (u : Unicode) (content : ℕ → Text) (target : ℕ) (positive : 0 < target) where
  stored-AreChunks :
      (c : Chunk) (h : IsStored u content target c)
      → AreChunks u (content c.version_id) target 0 0 h.spans
  stored-AreChunks c h = spans-AreChunks u (content c.version_id) target h.spans positive h.split

  stored-IsChunk :
      (c : Chunk) (h : IsStored u content target c)
      → (m : ℕ) × (f : ℕ) × (0 ≤ m) × IsChunk u (content c.version_id) target m f h.span
  stored-IsChunk c h =
      Among-IsChunk u (content c.version_id) target 0 0 h.spans h.span (stored-AreChunks c h)
        h.among

  same_spans :
      (c d : Chunk) (h : IsStored u content target c) (k : IsStored u content target d)
      → d.version_id ≡ c.version_id
      → k.spans ≡ h.spans
  same_spans c d h k e =
      some_inj (sym k.split ∙ ap (λ v. chunk_text u (content v) target) e ∙ h.split)

  -- A chunk of the context that is stored so.
  abbrev pub IsGiven : List Chunk → Chunk → Type 0
  IsGiven context c = Among c context × IsStored u content target c

  pub stored-IsSource : (context : List Chunk) → IsSource u content (IsGiven context)
  stored-IsSource context = record {
    ordered = λ c (a, h).
        let (m, f, le, k) = stored-IsChunk c h in omega (arith, k.filled, h.start, h.end);
    inside = λ c (a, h). let (m, f, le, k) = stored-IsChunk c h in omega (arith, k.inside, h.end);
    exact = λ c (a, h).
        let (m, f, le, k) = stored-IsChunk c h in
        h.text ∙ k.exact ∙ (λ i. slice (sym h.start i) (sym h.end i) (content c.version_id));
    follows = λ c d (a, h) (b, k) version next.
        let (low, blank) =
          follow u (content c.version_id) target 0 0 h.spans h.span k.span (stored-AreChunks c h)
            h.among (subst (Among k.span) (same_spans c d h k version) k.among)
            (omega (arith, next, h.ordinal, k.ordinal)) in
        (
          omega (arith, low, h.end, k.start),
          λ i e from to at. blank i e (omega (arith, from, h.end)) (omega (arith, to, k.start)) at,
        );
  }
