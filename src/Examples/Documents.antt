-- ===== src/Examples/Documents.antt =====
-- The theorems about src/app/domain/text.py and src/app/domain/citations.py at concrete inputs.
use ai_text.Prelude.{
  ℕ, ◌+◌, ◌≡◌, refl, sym, subst, ◌&&◌, none, some, List, [], ◌∷◌, arith, leb, ◌==◌, ◌||◌,
  if◌then◌else◌, length, slice, Among, inl, inr,
}
use ai_text.Text.Unicode.{Unicode, Text}
use ai_text.Text.Normalize.{normalize_with_map}
use ai_text.Text.Quote.{Match, found, find, find_quote, quote_parts}
use ai_text.Text.Quote.Place.{IsGood}
use ai_text.Text.Quote.Sound.{find_quote-IsGood}
use ai_text.Text.Quote.Complete.{find_quote_complete}
use ai_text.Text.Chunk.{ChunkSpan, chunk_text}
use ai_text.Text.Chunk.Spans.{AreChunks, IsDone, chunk_text-AreChunks}
use ai_text.Citations.{Chunk, Version, Resolved, resolver, resolve}
use ai_text.Citations.Chunks.{IsStored}
use ai_text.Citations.Sound.{IsSound, resolve-IsSound}
use ai_text.Citations.Table.{ident, empty_table, add, IsAdded, add-IsAdded, empty-IsTable}
use ai_text.Citations.Numbers.{numbered, add-numbered}
use ai_text.Citations.Claims.{idents, RawClaim, VerificationStats, verify_claims}
use ai_text.Citations.Claims.Outcome.{IsOutcome, IsProposed, verify_claims-IsOutcome}

-- The tables of ASCII.
abbrev ascii : Unicode
ascii = record {
  is_space = λ c. c == 32 || c == 10;
  is_alpha = λ c. leb 65 c && leb c 90 || leb 97 c && leb c 122;
  is_lower = λ c. leb 97 c && leb c 122;
  nfkc_lower = λ c. if leb 65 c && leb c 90 then (c + 32) ∷ [] else (c ∷ []);
}

-- "Cats sleep a lot. Dogs run."
abbrev story : Text
story =
    67 ∷ 97 ∷ 116 ∷ 115 ∷ 32 ∷ 115 ∷ 108 ∷ 101 ∷ 101 ∷ 112 ∷ 32 ∷ 97 ∷ 32 ∷ 108 ∷ 111 ∷ 116 ∷ 46
    ∷ 32 ∷ 68 ∷ 111 ∷ 103 ∷ 115 ∷ 32 ∷ 114 ∷ 117 ∷ 110 ∷ 46 ∷ []

-- "sleep a lot. dogs"
abbrev quoted : Text
quoted =
    115 ∷ 108 ∷ 101 ∷ 101 ∷ 112 ∷ 32 ∷ 97 ∷ 32 ∷ 108 ∷ 111 ∷ 116 ∷ 46 ∷ 32 ∷ 100 ∷ 111 ∷ 103 ∷ 115
    ∷ []

find_quote-IsGood_example :
    IsGood
      (normalize_with_map ascii story)
      (length story)
      (quote_parts ascii quoted)
      (find_quote ascii story quoted)
find_quote-IsGood_example = find_quote-IsGood ascii story quoted

find_quote_complete_example : (m : Match) × (find_quote ascii story quoted ≡ found m)
unfolding quote_parts normalize_with_map
find_quote_complete_example =
    find_quote_complete ascii story quoted 5 22 (omega arith)
      (record { here = refl; inside = omega arith }, refl) tt

chunk_text-AreChunks_example :
    IsDone ascii (AreChunks ascii story 20 0 0) (chunk_text ascii story 20)
chunk_text-AreChunks_example = chunk_text-AreChunks ascii story 20 (omega arith)

-- A version with the text, and its two chunks as the context.
abbrev content : ℕ → Text
content version_id = story

abbrev versions : ℕ → Version
versions version_id = record { source_id = 7; pages = [] }

abbrev one : ChunkSpan
one = record { ordinal = 0; start = 0; end = 17; text = slice 0 17 story }

abbrev two : ChunkSpan
two = record { ordinal = 1; start = 18; end = 27; text = slice 18 27 story }

abbrev stored : ChunkSpan → Chunk
stored s = record {
  key = if s.ordinal == 0 then "c1" else "c2";
  chunk_id = 40 + s.ordinal;
  version_id = 5;
  ordinal = s.ordinal;
  start = s.start;
  end = s.end;
  text = s.text;
}

abbrev context : List Chunk
context = stored one ∷ stored two ∷ []

split : chunk_text ascii story 20 ≡ some (one ∷ two ∷ [])
unfolding chunk_text
split = refl

context-IsStored : (c : Chunk) → Among c context → IsStored ascii content 20 c
context-IsStored c (inl first) = subst (IsStored ascii content 20) (sym first) (record {
  spans = one ∷ two ∷ [];
  span = one;
  split = split;
  among = inl refl;
  ordinal = refl;
  start = refl;
  end = refl;
  text = refl;
})
context-IsStored c (inr (inl second)) = subst (IsStored ascii content 20) (sym second) (record {
  spans = one ∷ two ∷ [];
  span = two;
  split = split;
  among = inr (inl refl);
  ordinal = refl;
  start = refl;
  end = refl;
  text = refl;
})
context-IsStored c (inr (inr never)) = absurd never

resolve-IsSound_example :
    IsSound ascii content context quoted (resolve ascii versions (resolver context) "c1" quoted)
resolve-IsSound_example =
    resolve-IsSound ascii content 20 (omega arith) versions context "c1" quoted context-IsStored

abbrev cited : Resolved
cited = record {
  source_id = 7;
  version_id = 5;
  chunk_id = some 40;
  quote = slice 5 22 story;
  start = 5;
  end = 22;
  page = none;
  page_end = none;
}

-- The quote goes from the first chunk into the second one.
crosses : resolve ascii versions (resolver context) "c1" quoted ≡ some cited
unfolding resolve resolver find_quote find
crosses = refl

-- Two citations of one place count once.
abbrev raws : List RawClaim
raws =
    record {
      text = quoted;
      citations =
          record { chunk = "c1"; quote = quoted } ∷ record { chunk = "c2"; quote = quoted } ∷ [];
    }
    ∷ record { text = quoted; citations = record { chunk = "c9"; quote = quoted } ∷ [] }
    ∷ []

abbrev no_stats : VerificationStats
no_stats = record {
  proposed_claims = 0;
  dropped_claims = 0;
  proposed_citations = 0;
  dropped_citations = 0;
}

verify_claims-IsOutcome_example :
    IsOutcome
      (IsProposed ascii content context raws)
      raws
      no_stats
      (verify_claims ascii versions (resolver context) raws no_stats)
verify_claims-IsOutcome_example =
    verify_claims-IsOutcome ascii content 20 versions context raws no_stats (omega arith)
      context-IsStored

add-IsAdded_example : IsAdded cited empty_table (add cited empty_table)
add-IsAdded_example = add-IsAdded cited empty_table empty-IsTable

add-numbered_example :
    (idents (add cited empty_table).0.items, (add cited empty_table).1) ≡ numbered (ident cited) []
add-numbered_example = add-numbered cited empty_table empty-IsTable
