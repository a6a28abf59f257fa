-- ===== src/Citations/Claims/Verified.antt =====
-- What `verify_claims` of src/app/domain/citations.py returns, and what it counts.
use ai_text.Prelude.{
  ℕ, suc, ◌+◌, ◌≤◌, ◌≡◌, refl, ap, sym, subst, ◌∙◌, inl, inr, Bool, true, false, ◌||◌, some, List,
  [], ◌∷◌, ◌++◌, arith, leb, if◌then◌else◌, length, length-append, All, All-append, Option-cases,
  Among,
}
use ai_text.Text.Unicode.{Unicode}
use ai_text.Citations.{Version, Resolved, CitationResolver, resolve}
use ai_text.Citations.Table.{Ident, ident}
use ai_text.Citations.Claims.{
  RawCitation, VerificationStats, max_citations_per_claim, has_ident, one_citation_more,
  one_citation_less, keep_citations, idents, AreDistinct, append-AreDistinct, idents-append,
}

-- The citations kept so far.
pub record IsKept (P : Resolved → Type 0) (kept : List Resolved) (seen : List Ident) : Type 0 where
  pub tracked : seen ≡ idents kept
  pub distinct : AreDistinct (idents kept)
  pub few : length kept ≤ max_citations_per_claim
  pub good : All P kept

-- What the counters of the claims and citations have gained.
pub record IsCounted (before after : VerificationStats) (size from kept : ℕ) : Type 0 where
  pub proposed : after.proposed_citations ≡ before.proposed_citations + size
  pub dropped : after.dropped_citations + kept ≤ before.dropped_citations + size + from
  pub grown : before.dropped_citations ≤ after.dropped_citations
  pub proposed_claims : after.proposed_claims ≡ before.proposed_claims
  pub dropped_claims : after.dropped_claims ≡ before.dropped_claims

module _ (u : Unicode) (versions : ℕ → Version) (c : CitationResolver) (P : Resolved → Type 0) where
  -- Whatever a citation of the list resolves to is good.
  abbrev pub AreGood : List RawCitation → Type 0
  AreGood l =
      (x : RawCitation) (r : Resolved)
      → Among x l
      → resolve u versions c x.chunk x.quote ≡ some r
      → P r

  pub record IsKeeping (stats : VerificationStats) (size from : ℕ)
      (result : List Resolved × VerificationStats) : Type 0 where
    pub all : List Ident
    pub kept : IsKept P result.0 all
    pub counted : IsCounted stats result.1 size from (length result.0)

  next-IsKept :
      (r : Resolved) (kept : List Resolved) (seen : List Ident) (skipped : Bool)
      → P r
      → IsKept P kept seen
      → (has_ident (ident r) seen || leb max_citations_per_claim (length kept)) ≡ skipped
      → IsKept P
          (if skipped then kept else kept ++ r ∷ [])
          (if skipped then seen else seen ++ ident r ∷ [])
  next-IsKept r kept seen true p h e = h
  next-IsKept r kept seen false p h e = record {
    tracked = ap (λ l. l ++ ident r ∷ []) h.tracked ∙ sym (idents-append kept r);
    distinct = subst AreDistinct (sym (idents-append kept r)) (
        append-AreDistinct (ident r) (idents kept) h.distinct (
          ap (has_ident (ident r)) (sym h.tracked)
          ∙ (let e : has_ident (ident r) seen ≡ false = ground arith in e)));
    few = ground (arith, length-append {0} kept (r ∷ []));
    good = All-append P kept (r ∷ []) h.good (p, tt);
  }

  none-IsKeeping :
      (stats : VerificationStats) (size from : ℕ) (result : List Resolved × VerificationStats)
      → IsKeeping (one_citation_less (one_citation_more stats)) size from result
      → IsKeeping stats (suc size) from result
  none-IsKeeping stats size from result h = record {
    all = h.all;
    kept = h.kept;
    counted = record {
      proposed = omega (arith, h.counted.proposed);
      dropped = omega (arith, h.counted.dropped);
      grown = omega (arith, h.counted.grown);
      proposed_claims = h.counted.proposed_claims;
      dropped_claims = h.counted.dropped_claims;
    };
  }

  some-IsKeeping :
      (stats : VerificationStats) (size from next : ℕ) (result : List Resolved × VerificationStats)
      → next ≤ from + 1
      → IsKeeping (one_citation_more stats) size next result
      → IsKeeping stats (suc size) from result
  some-IsKeeping stats size from next result le h = record {
    all = h.all;
    kept = h.kept;
    counted = record {
      proposed = omega (arith, h.counted.proposed);
      dropped = omega (arith, h.counted.dropped, le);
      grown = h.counted.grown;
      proposed_claims = h.counted.proposed_claims;
      dropped_claims = h.counted.dropped_claims;
    };
  }

  length-next :
      (r : Resolved) (kept : List Resolved) (skipped : Bool)
      → length (if skipped then kept else kept ++ r ∷ []) ≤ length kept + 1
  length-next r kept true = omega arith
  length-next r kept false = omega (arith, length-append {0} kept (r ∷ []))

  pub keep-IsKeeping :
      (l : List RawCitation) (kept : List Resolved) (seen : List Ident) (stats : VerificationStats)
      → AreGood l
      → IsKept P kept seen
      → IsKeeping stats (length l) (length kept) (keep_citations u versions c l kept seen stats)
  unfolding keep_citations
  keep-IsKeeping [] kept seen stats good h = record {
    all = seen;
    kept = h;
    counted = record {
      proposed = omega arith;
      dropped = omega arith;
      grown = omega arith;
      proposed_claims = refl;
      dropped_claims = refl;
    };
  }
  keep-IsKeeping (x ∷ l) kept seen stats good h =
      let later : AreGood l = λ y r a e. good y r (inr a) e in
      elim (Option-cases (resolve u versions c x.chunk x.quote)) [
        | inl gone ↦
            rw (gone, keep_citations)
              (none-IsKeeping stats (length l) (length kept) _
                (keep-IsKeeping l kept seen (one_citation_less (one_citation_more stats)) later h))
        | inr (r, got) ↦
            rw (got, keep_citations)
              (let skipped =
                  has_ident (ident r) seen || leb max_citations_per_claim (length kept) in
                some-IsKeeping stats (length l) (length kept) _ _ (length-next r kept skipped) (
                  keep-IsKeeping l (if skipped then kept else kept ++ r ∷ [])
                    (if skipped then seen else seen ++ ident r ∷ []) (one_citation_more stats) later
                    (next-IsKept r kept seen skipped (good x r (inl refl) got) h refl)))
      ]
