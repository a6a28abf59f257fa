-- ===== src/Citations/Claims.antt =====
-- `CitationResolver.verify_claims` of src/app/domain/citations.py: the claims that keep a citation.
-- The set `seen` is the list of the identities of the citations that are kept.
pub mod Verified
pub mod Outcome
use ai_text.Prelude.{
  ℕ, suc, ◌+◌, ◌≤◌, ◌<◌, ◌≡◌, refl, ap, sym, subst, ◌∙◌, ◌⊎◌, inl, inr, String, Bool, true, false,
  ◌||◌, Option, none, some, List, [], ◌∷◌, ◌++◌, arith, leb, if◌then◌else◌, length, length-append,
  All, All-append, Bool-cases, Option-cases, Among,
}
use ai_text.Text.Unicode.{Unicode, Text, drop_spaces}
use ai_text.Text.Quote.{drop_last_spaces}
use ai_text.Citations.{Chunk, Version, Resolved, CitationResolver, resolver, resolve}
use ai_text.Citations.Table.{Ident, ident, same_ident, same_ident_sym, same_ident_refl}

abbrev pub max_citations_per_claim : ℕ
max_citations_per_claim = 3

pub record RawCitation : Type 0 where
  pub chunk : String
  pub quote : Text

-- A claim that the model proposes.
pub record RawClaim : Type 0 where
  pub text : Text
  pub citations : List RawCitation

pub record VerifiedClaim : Type 0 where
  pub text : Text
  pub citations : List Resolved

pub record VerificationStats : Type 0 where
  pub proposed_claims : ℕ
  pub dropped_claims : ℕ
  pub proposed_citations : ℕ
  pub dropped_citations : ℕ

unfoldable pub has_ident : Ident → List Ident → Bool
unfolding same_ident
has_ident i [] = false
has_ident i (j ∷ l) = same_ident j i || has_ident i l

unfoldable pub is_empty : {A : Type 0} → List A → Bool
is_empty [] = true
is_empty (x ∷ l) = false

abbrev pub one_citation_more : VerificationStats → VerificationStats
one_citation_more stats = record stats { proposed_citations = stats.proposed_citations + 1 }

abbrev pub one_citation_less : VerificationStats → VerificationStats
one_citation_less stats = record stats { dropped_citations = stats.dropped_citations + 1 }

module _ (u : Unicode) (versions : ℕ → Version) (c : CitationResolver) where
  -- The inner loop, with `kept` and `seen` so far.
  unfoldable pub keep_citations :
      List RawCitation
      → List Resolved
      → List Ident
      → VerificationStats
      → List Resolved × VerificationStats
  unfolding has_ident
  keep_citations [] kept seen stats = (kept, stats)
  keep_citations (citation ∷ citations) kept seen stats =
      elim (resolve u versions c citation.chunk citation.quote) [
        | none ↦ keep_citations citations kept seen (one_citation_less (one_citation_more stats))
        | some r ↦
            let skipped = has_ident (ident r) seen || leb max_citations_per_claim (length kept) in
            keep_citations citations (if skipped then kept else kept ++ r ∷ [])
              (if skipped then seen else seen ++ ident r ∷ []) (one_citation_more stats)
      ]

  unfoldable pub verify_claims :
      List RawClaim → VerificationStats → List VerifiedClaim × VerificationStats
  unfolding keep_citations is_empty drop_spaces drop_last_spaces
  verify_claims [] stats = ([], stats)
  verify_claims (raw ∷ raw_claims) stats =
      let proposed = record stats { proposed_claims = stats.proposed_claims + 1 } in
      let text = drop_last_spaces u (drop_spaces u raw.text) in
      let (kept, counted) = keep_citations raw.citations [] [] proposed in
      let dropped = is_empty text || is_empty kept in
      let (verified, final) = verify_claims raw_claims (
        if dropped
        then record counted { dropped_claims = counted.dropped_claims + 1 }
        else counted) in
      (if dropped then verified else record { text = text; citations = kept } ∷ verified, final)

abbrev pub idents : List Resolved → List Ident
idents [] = []
idents (r ∷ l) = ident r ∷ idents l

-- No two of them are the same.
abbrev pub AreDistinct : List Ident → Type 0
AreDistinct [] = Unit
AreDistinct (i ∷ l) = (has_ident i l ≡ false) × AreDistinct l

has_ident-append :
    (i j : Ident) (l : List Ident)
    → has_ident i l ≡ false
    → same_ident j i ≡ false
    → has_ident i (l ++ j ∷ []) ≡ false
unfolding has_ident
has_ident-append i j [] h k = rw k refl
has_ident-append i j (x ∷ l) h k = ground (arith, has_ident-append i j l)

pub append-AreDistinct :
    (i : Ident) (l : List Ident) → AreDistinct l → has_ident i l ≡ false → AreDistinct (l ++ i ∷ [])
unfolding has_ident
append-AreDistinct i [] h k = (refl, tt)
append-AreDistinct i (x ∷ l) (h, hs) k = (
  has_ident-append x i l h (same_ident_sym i x ∙ ground arith),
  append-AreDistinct i l hs (ground arith),
)

pub idents-append :
    (l : List Resolved) (r : Resolved) → idents (l ++ r ∷ []) ≡ idents l ++ ident r ∷ []
idents-append [] r = refl
idents-append (x ∷ l) r = ap (λ k. ident x ∷ k) (idents-append l r)
