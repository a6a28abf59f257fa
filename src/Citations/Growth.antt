-- ===== src/Citations/Growth.antt =====
-- How the runs of src/app/domain/citations.py are built from chunks.
use ai_text.Prelude.{
  ℕ, ◌+◌, ◌-◌, ◌≤◌, ◌≡◌, refl, ap, sym, subst, ◌∙◌, Bool, true, false, List, [], ◌∷◌, ◌++◌, arith,
  leb, ◌==◌, if◌then◌else◌, length, length-append, All, All-append, get_elem?,
}
use ai_text.Text.Unicode.{Unicode, Text}
use ai_text.Text.Chunk.Cut.{length-slice}
use ai_text.Citations.{
  Chunk, Run, of_version, insert_by_ordinal, sort_by_ordinal, spaces, run_of, extended, runs_from,
  runs_of_items, runs_of,
}
use ai_text.Citations.Runs.{
  IsSource, IsFaithful, slice-IsFaithful, spaces-IsFaithful, append-IsFaithful, length-spaces,
}

pub All-if :
    {A : Type 0} (P : A → Type 0) (b : Bool) (x y : List A)
    → (b ≡ true → All P x)
    → (b ≡ false → All P y)
    → All P (if b then x else y)
All-if P true x y f g = f refl
All-if P false x y f g = g refl

insert-All :
    (P : Chunk → Type 0) (c : Chunk) (l : List Chunk)
    → P c
    → All P l
    → All P (insert_by_ordinal c l)
unfolding insert_by_ordinal
insert-All P c [] p h = (p, tt)
insert-All P c (d ∷ l) p h =
    All-if P (leb c.ordinal d.ordinal) _ _ (λ _. (p, h)) (λ _. (h.0, insert-All P c l p h.1))

sort-All : (P : Chunk → Type 0) (l : List Chunk) → All P l → All P (sort_by_ordinal l)
unfolding sort_by_ordinal
sort-All P [] h = tt
sort-All P (c ∷ l) h = insert-All P c (sort_by_ordinal l) h.0 (sort-All P l h.1)

module _ (u : Unicode) (content : ℕ → Text) (G : Chunk → Type 0)
    (source : IsSource u content G) where
  pub record IsRun (r : Run) : Type 0 where
    pub chunk : Chunk
    pub given : G chunk
    pub version : chunk.version_id ≡ r.version_id
    pub faithful : IsFaithful u (content r.version_id) r.start r.text

  -- The run that is being built ends where its last chunk does.
  record IsGrowing (r : Run) (prev : Chunk) : Type 0 where
    pub made : IsRun r
    pub given : G prev
    pub version : r.version_id ≡ prev.version_id
    pub size : r.start + length r.text ≡ prev.end

  chunk-IsFaithful : (c : Chunk) → G c → IsFaithful u (content c.version_id) c.start c.text
  chunk-IsFaithful c g =
      subst (IsFaithful u (content c.version_id) c.start) (sym (source.exact c g))
        (slice-IsFaithful u (content c.version_id) c.start c.end)

  chunk-length : (c : Chunk) → G c → c.start + length c.text ≡ c.end
  chunk-length c g = omega (
    arith,
    ap length (source.exact c g),
    length-slice c.start c.end (content c.version_id) (source.inside c g),
    source.ordered c g,
  )

  run_of-IsGrowing : (c : Chunk) → G c → IsGrowing (run_of c) c
  run_of-IsGrowing c g = record {
    made = record { chunk = c; given = g; version = refl; faithful = chunk-IsFaithful c g };
    given = g;
    version = refl;
    size = chunk-length c g;
  }

  extended-IsGrowing :
      (r : Run) (prev c : Chunk)
      → IsGrowing r prev
      → G c
      → c.version_id ≡ prev.version_id
      → c.ordinal ≡ prev.ordinal + 1
      → IsGrowing (extended r prev c) c
  extended-IsGrowing r prev c h g version next =
      let (gap, blank) = source.follows prev c h.given g version next in
      let whole : Text = content r.version_id in
      let same : c.version_id ≡ r.version_id = version ∙ sym h.version in
      let n : ℕ = c.start - prev.end in
      let inside : c.end ≤ length whole =
        subst (λ v. c.end ≤ length (content v)) same (source.inside c g) in
      let middle : IsFaithful u whole prev.end (spaces n) =
        spaces-IsFaithful u whole prev.end n (omega (arith, gap, inside, source.ordered c g))
          (λ i d low high at.
            blank i d low (omega (arith, high, gap))
              (ap (λ v. get_elem? (content v) i) (sym h.version) ∙ at)) in
      let last : IsFaithful u whole c.start c.text =
        subst (λ v. IsFaithful u (content v) c.start c.text) same (chunk-IsFaithful c g) in
      record {
        made = record {
          chunk = h.made.chunk;
          given = h.made.given;
          version = h.made.version;
          faithful = append-IsFaithful u whole r.start r.text (spaces n ++ c.text) h.made.faithful (
              subst (λ s. IsFaithful u whole s (spaces n ++ c.text)) (sym h.size)
                (append-IsFaithful u whole prev.end (spaces n) c.text middle (
                  subst (λ s. IsFaithful u whole s c.text) (omega (arith, length-spaces n, gap))
                    last)));
        };
        given = g;
        version = sym same;
        size = omega (
          arith,
          length-append {0} r.text (spaces n ++ c.text),
          length-append {0} (spaces n) c.text,
          length-spaces n,
          gap,
          chunk-length c g,
          h.size,
        );
      }

  runs_from-IsRun :
      (v : ℕ) (r : Run) (prev : Chunk) (l : List Chunk)
      → IsGrowing r prev
      → prev.version_id ≡ v
      → All (λ c. G c × (c.version_id ≡ v)) l
      → All IsRun (runs_from r prev l)
  unfolding runs_from
  runs_from-IsRun v r prev [] h here l = (h.made, tt)
  runs_from-IsRun v r prev (c ∷ cs) h here ((g, version), l) =
      All-if IsRun (c.ordinal == prev.ordinal + 1) _ _
        (λ next.
          runs_from-IsRun v (extended r prev c) c cs
            (extended-IsGrowing r prev c h g (version ∙ sym here) (ground arith)) version l)
        (λ apart. (h.made, runs_from-IsRun v (run_of c) c cs (run_of-IsGrowing c g) version l))

  of_version-All :
      (v : ℕ) (l : List Chunk) → All G l → All (λ c. G c × (c.version_id ≡ v)) (of_version v l)
  unfolding of_version
  of_version-All v [] h = tt
  of_version-All v (c ∷ l) (g, h) =
      All-if (λ c. G c × (c.version_id ≡ v)) (c.version_id == v) _ _
        (λ here. ((g, ground arith), of_version-All v l h)) (λ other. of_version-All v l h)

  runs_of_items-IsRun :
      (v : ℕ) (l : List Chunk) → All (λ c. G c × (c.version_id ≡ v)) l → All IsRun (runs_of_items l)
  unfolding runs_of_items
  runs_of_items-IsRun v [] h = tt
  runs_of_items-IsRun v (c ∷ l) ((g, here), h) =
      runs_from-IsRun v (run_of c) c l (run_of-IsGrowing c g) here h

  -- Every run is faithful to the text of its version.
  pub runs_of-IsRun :
      (vs : List ℕ) (chunks : List Chunk) → All G chunks → All IsRun (runs_of vs chunks)
  unfolding runs_of
  runs_of-IsRun [] chunks h = tt
  runs_of-IsRun (v ∷ vs) chunks h =
      All-append IsRun (runs_of_items (sort_by_ordinal (of_version v chunks))) (runs_of vs chunks)
        (runs_of_items-IsRun v (sort_by_ordinal (of_version v chunks)) (
          sort-All (λ c. G c × (c.version_id ≡ v)) (of_version v chunks)
            (of_version-All v chunks h)))
        (runs_of-IsRun vs chunks h)
