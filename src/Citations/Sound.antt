-- ===== src/Citations/Sound.antt =====
-- What `CitationResolver.resolve` (src/app/domain/citations.py) returns, from the texts that were
-- ingested to the citation that is stored.
use ai_text.Prelude.{
  ℕ, ◌+◌, ◌-◌, ◌≤◌, ◌<◌, ◌≡◌, refl, ap, ◌∙◌, String, Bool, true, false, not, Option, none, some,
  List, [], ◌∷◌, ◌++◌, arith, length, get_elem?, All, All-append, Among, inl, inr, if◌then◌else◌,
}
use ai_text.Text.Unicode.{Unicode, Text}
use ai_text.Text.Normalize.{normalize_with_map}
use ai_text.Text.Quote.{
  Match, Found, absent, found, index_error, out_of_fuel, find_quote, quote_parts,
}
use ai_text.Text.Quote.Place.{IsPlace, IsGood}
use ai_text.Text.Quote.Sound.{find_quote-IsGood}
use ai_text.Text.Chunk.Cut.{length-slice}
use ai_text.Text.Chunk.Cover.{get_elem?-some}
use ai_text.Citations.{
  Chunk, Run, Version, Resolved, CitationResolver, resolver, versions_of, runs_with, has_key, cite,
  resolve_in, resolve, find_chunk,
}
use ai_text.Citations.Runs.{IsFaithful, get_elem?-slice, get_elem?-inside}
use ai_text.Citations.Growth.{All-if, IsRun, runs_of-IsRun}
use ai_text.Citations.Chunks.{IsStored, IsGiven, stored-IsSource}

module _ (u : Unicode) (content : ℕ → Text) where
  -- The citation is a fragment of the text of its version, which a chunk of the context belongs to,
  -- and the fragment is where the model's quote was found.
  pub record IsCitation (context : List Chunk) (quote : Text) (r : Resolved) : Type 0 where
    pub chunk : Chunk
    pub among : Among chunk context
    pub version : chunk.version_id ≡ r.version_id
    pub filled : r.start < r.end
    pub inside : r.end ≤ length (content r.version_id)
    pub size : length r.quote ≡ r.end - r.start
    pub faithful : IsFaithful u (content r.version_id) r.start r.quote
    pub run : Run
    pub searched : IsFaithful u (content r.version_id) run.start run.text
    pub place : Match
    pub quoted :
        IsPlace (normalize_with_map u run.text) (length run.text) (quote_parts u quote) place
    pub start : r.start ≡ run.start + place.start
    pub end : r.end ≡ run.start + place.end

  abbrev pub IsSound : List Chunk → Text → Option Resolved → Type 0
  IsSound context quote none = Unit
  IsSound context quote (some r) = IsCitation context quote r

module _ (u : Unicode) (content : ℕ → Text) (target : ℕ) (positive : 0 < target)
    (versions : ℕ → Version) where
  cite-IsCitation :
      (context : List Chunk) (c : CitationResolver) (quote : Text) (r : Run) (m : Match)
      → IsRun u content
          (IsGiven u content target positive context)
          (stored-IsSource u content target positive context)
          r
      → IsPlace (normalize_with_map u r.text) (length r.text) (quote_parts u quote) m
      → IsCitation u content context quote (cite u versions c r m)
  unfolding cite
  cite-IsCitation context c quote r m h p =
      let (e, at) = get_elem?-some r.text (m.end - 1) (omega (arith, p.inside, p.filled)) in
      let (d, there, same) = h.faithful (m.end - 1) e at in
      let in_whole = get_elem?-inside (content r.version_id) (r.start + (m.end - 1)) d there in
      record {
        chunk = h.chunk;
        among = h.given.0;
        version = h.version;
        filled = omega (arith, p.filled);
        inside = omega (arith, in_whole, p.filled);
        size = omega (arith, length-slice m.start m.end r.text p.inside);
        faithful = λ i k from.
            let (f, got, mark) =
              h.faithful (m.start + i) k (get_elem?-slice m.start m.end i k r.text from) in
            (f, ap (get_elem? (content r.version_id)) (omega arith) ∙ got, mark);
        run = r;
        searched = h.faithful;
        place = m;
        quoted = p;
        start = refl;
        end = refl;
      }

  abbrev AreRuns : List Chunk → List Run → Type 0
  AreRuns context = All (
      IsRun u content (IsGiven u content target positive context)
        (stored-IsSource u content target positive context))

  -- One round of the loop: a run in which the quote is found ends it.
  found-IsSound :
      (context : List Chunk) (c : CitationResolver) (quote : Text) (r : Run)
      (rest : Option Resolved) (f : Found)
      → IsRun u content
          (IsGiven u content target positive context)
          (stored-IsSource u content target positive context)
          r
      → IsGood (normalize_with_map u r.text) (length r.text) (quote_parts u quote) f
      → IsSound u content context quote rest
      → IsSound u content context quote (elim f [
        | found m ↦ some (cite u versions c r m)
        | absent ↦ rest
        | index_error ↦ none
        | out_of_fuel ↦ none
      ])
  found-IsSound context c quote r rest absent h good sound = sound
  found-IsSound context c quote r rest (found m) h good sound =
      cite-IsCitation context c quote r m h good
  found-IsSound context c quote r rest index_error h good sound = tt
  found-IsSound context c quote r rest out_of_fuel h good sound = tt

  resolve_in-IsSound :
      (context : List Chunk) (c : CitationResolver) (quote : Text) (runs : List Run)
      → AreRuns context runs
      → IsSound u content context quote (resolve_in u versions c quote runs)
  unfolding resolve_in
  resolve_in-IsSound context c quote [] h = tt
  resolve_in-IsSound context c quote (r ∷ runs) (h, hs) =
      found-IsSound context c quote r (resolve_in u versions c quote runs)
        (find_quote u r.text quote) h (find_quote-IsGood u r.text quote)
        (resolve_in-IsSound context c quote runs hs)

  runs_with-AreRuns :
      (context : List Chunk) (wanted : Bool) (k : String) (runs : List Run)
      → AreRuns context runs
      → AreRuns context (runs_with wanted k runs)
  unfolding runs_with
  runs_with-AreRuns context wanted k [] h = tt
  runs_with-AreRuns context wanted k (r ∷ runs) (h, hs) =
      let rest = runs_with-AreRuns context wanted k runs hs in
      All-if
        (IsRun u content (IsGiven u content target positive context)
          (stored-IsSource u content target positive context))
        (if has_key k r.chunk_keys then wanted else not wanted) _ _ (λ _. (h, rest)) (λ _. rest)

  All-Among :
      (l : List Chunk)
      → ((c : Chunk) → Among c l → IsStored u content target c)
      → (whole : List Chunk) → ((c : Chunk) → Among c l → Among c whole)
      → All (IsGiven u content target positive whole) l
  All-Among [] f whole g = tt
  All-Among (c ∷ l) f whole g = (
    (g c (inl refl), f c (inl refl)),
    All-Among l (λ d a. f d (inr a)) whole (λ d a. g d (inr a)),
  )

  named-IsSound :
      (context : List Chunk) (c : CitationResolver) (k : String) (quote : Text)
      (named : Option Chunk)
      → AreRuns context c.runs
      → IsSound u content context quote (elim named [
        | none ↦ none
        | some _ ↦
            resolve_in u versions c quote (runs_with true k c.runs ++ runs_with false k c.runs)
      ])
  named-IsSound context c k quote none h = tt
  named-IsSound context c k quote (some named) h = resolve_in-IsSound context c quote _ (
      All-append _ (runs_with true k c.runs) (runs_with false k c.runs)
        (runs_with-AreRuns context true k c.runs h) (runs_with-AreRuns context false k c.runs h))

  -- Over a context whose chunks are those that `chunk_text` splits the versions' texts into, with a
  -- positive target length, whatever `resolve` returns for a key and a quote is a citation: it names a
  -- version that a chunk of the context belongs to, its offsets are a non-empty range inside that
  -- version's text, the stored quote has exactly the length of the range and agrees with the text there
  -- character by character, save that a space may stand for other white space, and the range is that
  -- of a match: the parts of the model's quote stand in their order in the normalised text of the
  -- run that was searched.
  pub resolve-IsSound :
      (context : List Chunk) (k : String) (quote : Text)
      → ((c : Chunk) → Among c context → IsStored u content target c)
      → IsSound u content context quote (resolve u versions (resolver context) k quote)
  unfolding resolve resolver
  resolve-IsSound context k quote stored =
      named-IsSound context (resolver context) k quote (find_chunk k (resolver context).chunks) (
        runs_of-IsRun u content (IsGiven u content target positive context)
          (stored-IsSource u content target positive context) (versions_of [] context) context
          (All-Among context stored context (λ c a. a)))
