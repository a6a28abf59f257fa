-- ===== src/Citations/Claims/Outcome.antt =====
-- The outer loop of `verify_claims` (src/app/domain/citations.py), over a context of stored chunks.
use ai_text.Prelude.{
  ℕ, ◌+◌, ◌≤◌, ◌<◌, ◌≡◌, refl, subst, inl, inr, Bool, true, false, ◌||◌, List, [], ◌∷◌, arith,
  if◌then◌else◌, length, All, Among,
}
use ai_text.Text.Unicode.{Unicode, Text}
use ai_text.Citations.{Chunk, Version, Resolved, CitationResolver, resolver}
use ai_text.Citations.Table.{Ident}
use ai_text.Citations.Chunks.{IsStored}
use ai_text.Citations.Sound.{IsCitation, IsSound, resolve-IsSound}
use ai_text.Citations.Claims.{
  RawCitation, RawClaim, VerifiedClaim, VerificationStats, max_citations_per_claim, is_empty,
  verify_claims, idents, AreDistinct,
}
use ai_text.Citations.Claims.Verified.{IsKept, IsCounted, AreGood, keep-IsKeeping}

-- The citations that are proposed, and those that are kept.
abbrev pub size_proposed : List RawClaim → ℕ
size_proposed [] = 0
size_proposed (raw ∷ l) = length raw.citations + size_proposed l

abbrev pub size_kept : List VerifiedClaim → ℕ
size_kept [] = 0
size_kept (claim ∷ l) = length claim.citations + size_kept l

pub record IsVerified (P : Resolved → Type 0) (claim : VerifiedClaim) : Type 0 where
  pub filled : is_empty claim.text ≡ false
  pub cited : 0 < length claim.citations
  pub few : length claim.citations ≤ max_citations_per_claim
  pub distinct : AreDistinct (idents claim.citations)
  pub good : All P claim.citations

-- What the loop returns and adds to the counters.
pub record IsOutcome (P : Resolved → Type 0) (raws : List RawClaim) (before : VerificationStats)
    (result : List VerifiedClaim × VerificationStats) : Type 0 where
  pub verified : All (IsVerified P) result.0
  pub claims : result.1.proposed_claims ≡ before.proposed_claims + length raws
  pub kept_or_dropped :
      result.1.dropped_claims + length result.0 ≡ before.dropped_claims + length raws
  pub citations : result.1.proposed_citations ≡ before.proposed_citations + size_proposed raws
  pub within :
      result.1.dropped_citations + size_kept result.0
      ≤ before.dropped_citations + size_proposed raws

not_empty : {A : Type 0} (l : List A) → is_empty l ≡ false → 0 < length l
unfolding is_empty
not_empty [] h = absurd (cc)
not_empty (x ∷ l) h = omega arith

module _ (P : Resolved → Type 0) where
  -- The counters after the inner loop, and after the claim.
  abbrev dropped_if : Bool → VerificationStats → VerificationStats
  dropped_if dropped counted =
      if dropped then record counted { dropped_claims = counted.dropped_claims + 1 } else counted

  next-IsOutcome :
      (before counted : VerificationStats) (raw : RawClaim) (raws : List RawClaim) (text : Text)
      (kept : List Resolved) (all : List Ident) (dropped : Bool)
      (result : List VerifiedClaim × VerificationStats)
      → IsKept P kept all
      → IsCounted
          (record before { proposed_claims = before.proposed_claims + 1 })
          counted
          (length raw.citations)
          0
          (length kept)
      → (is_empty text || is_empty kept) ≡ dropped
      → IsOutcome P raws (dropped_if dropped counted) result
      → IsOutcome P (raw ∷ raws) before (
        if dropped then result.0 else record { text = text; citations = kept } ∷ result.0,
        result.1,
      )
  next-IsOutcome before counted raw raws text kept all true result k n e h = record {
    verified = h.verified;
    claims = omega (arith, h.claims, n.proposed_claims);
    kept_or_dropped = omega (arith, h.kept_or_dropped, n.dropped_claims);
    citations = omega (arith, h.citations, n.proposed);
    within = omega (arith, h.within, n.dropped);
  }
  next-IsOutcome before counted raw raws text kept all false result k n e h = record {
    verified = (
      record {
        filled = ground arith;
        cited = not_empty kept (ground arith);
        few = k.few;
        distinct = k.distinct;
        good = k.good;
      },
      h.verified,
    );
    claims = omega (arith, h.claims, n.proposed_claims);
    kept_or_dropped = omega (arith, h.kept_or_dropped, n.dropped_claims);
    citations = omega (arith, h.citations, n.proposed);
    within = omega (arith, h.within, n.dropped);
  }

  module _ (u : Unicode) (versions : ℕ → Version) (c : CitationResolver) where
    outcome :
        (raws : List RawClaim) (stats : VerificationStats)
        → ((raw : RawClaim) → Among raw raws → AreGood u versions c P raw.citations)
        → IsOutcome P raws stats (verify_claims u versions c raws stats)
    unfolding verify_claims
    outcome [] stats good = record {
      verified = tt;
      claims = omega arith;
      kept_or_dropped = omega arith;
      citations = omega arith;
      within = omega arith;
    }
    outcome (raw ∷ raws) stats good =
        let proposed = record stats { proposed_claims = stats.proposed_claims + 1 } in
        let inner =
          keep-IsKeeping u versions c P raw.citations [] [] proposed (good raw (inl refl))
            (record { tracked = refl; distinct = tt; few = omega arith; good = tt }) in
        next-IsOutcome stats _ raw raws _ _ inner.all _ _ inner.kept inner.counted refl
          (outcome raws _ (λ r a. good r (inr a)))

-- One of the proposed citations, which are resolved to this one.
abbrev pub IsProposed : Unicode → (ℕ → Text) → List Chunk → List RawClaim → Resolved → Type 0
IsProposed u content context raws r =
    (raw : RawClaim) × (x : RawCitation) × Among raw raws
    × Among x raw.citations
    × IsCitation u content context x.quote r

-- Over a context of stored chunks, every claim that `verify_claims` returns has a text that is not
-- empty and one to three citations, no two with the same version and offsets, and each of them is a
-- citation of the context for the quote of some proposed citation (in the sense of `resolve`). The
-- counters add up: the claims returned and those counted as dropped are all claims proposed, all
-- proposed citations are counted, and no more are dropped or kept than were proposed.
pub verify_claims-IsOutcome :
    (u : Unicode) (content : ℕ → Text) (target : ℕ) (versions : ℕ → Version) (context : List Chunk)
    (raws : List RawClaim) (stats : VerificationStats)
    → 0 < target
    → ((c : Chunk) → Among c context → IsStored u content target c)
    → IsOutcome
        (IsProposed u content context raws)
        raws
        stats
        (verify_claims u versions (resolver context) raws stats)
verify_claims-IsOutcome u content target versions context raws stats positive stored =
    outcome (IsProposed u content context raws) u versions (resolver context) raws stats
      (λ raw a x r b e. (
        raw,
        x,
        a,
        b,
        subst (IsSound u content context x.quote) e
            (resolve-IsSound u content target positive versions context x.chunk x.quote stored),
      ))
