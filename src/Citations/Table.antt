-- ===== src/Citations/Table.antt =====
-- `CitationTable` of src/app/domain/citations.py: the numbered citations of one answer. The
-- dictionary `_index` is a list of its entries, the last one first.
use ai_text.Prelude.{
  some_inj, ℕ, zero, suc, ◌≡◌, refl, ap, sym, ◌∙◌, ◌⊎◌, inl, inr, Bool, true, ◌&&◌, Option, none,
  some, List, [], ◌∷◌, ◌++◌, arith, ◌==◌, if◌then◌else◌, length, get_elem?, Bool-cases,
  Option-cases,
}
use ai_text.Citations.{Resolved}
use ai_text.Citations.Runs.{get_elem?-append_left, get_elem?-inside}

-- `(citation.version_id, citation.start, citation.end)`
pub record Ident : Type 0 where
  pub version_id : ℕ
  pub start : ℕ
  pub end : ℕ

abbrev pub ident : Resolved → Ident
ident c = record { version_id = c.version_id; start = c.start; end = c.end }

unfoldable pub same_ident : Ident → Ident → Bool
same_ident i j = i.version_id == j.version_id && i.start == j.start && i.end == j.end

pub record CitationTable : Type 0 where
  pub items : List Resolved
  pub index : List (Ident × ℕ)

abbrev pub empty_table : CitationTable
empty_table = record { items = []; index = [] }

unfoldable pub index_of : Ident → List (Ident × ℕ) → Option ℕ
unfolding same_ident
index_of i [] = none
index_of i ((j, n) ∷ l) = if same_ident j i then some n else index_of i l

unfoldable pub add : Resolved → CitationTable → CitationTable × ℕ
unfolding index_of
add citation table = elim (index_of (ident citation) table.index) [
  | some n ↦ (table, n)
  | none ↦
      let n = length table.items in
      (
        record { items = table.items ++ citation ∷ []; index = (ident citation, n) ∷ table.index },
        n,
      )
]

pub same_ident→eq : (i j : Ident) → same_ident i j ≡ true → i ≡ j
unfolding same_ident
same_ident→eq i j h = λ k. record {
  version_id = (let e : i.version_id ≡ j.version_id = ground (arith, h) in e) k;
  start = (let e : i.start ≡ j.start = ground (arith, h) in e) k;
  end = (let e : i.end ≡ j.end = ground (arith, h) in e) k;
}

pub same_ident_refl : (i : Ident) → same_ident i i ≡ true
unfolding same_ident
same_ident_refl i = ground arith

pub same_ident_sym : (i j : Ident) → same_ident i j ≡ same_ident j i
unfolding same_ident
same_ident_sym i j = ground arith

-- The index holds exactly the items, each under its place.
pub record IsTable (t : CitationTable) : Type 0 where
  pub known :
      (i : Ident) (n : ℕ)
      → index_of i t.index ≡ some n
      → (c : Resolved) × (get_elem? t.items n ≡ some c) × (ident c ≡ i)
  pub indexed :
      (n : ℕ) (c : Resolved) → get_elem? t.items n ≡ some c → index_of (ident c) t.index ≡ some n

pub empty-IsTable : IsTable empty_table
unfolding index_of
empty-IsTable = record { known = λ i n h. absurd (cc); indexed = λ n c h. absurd (cc) }

-- What `add` promises: `r` is the table afterwards and the number that it returns.
pub record IsAdded (c : Resolved) (t : CitationTable) (r : CitationTable × ℕ) : Type 0 where
  pub table : IsTable r.0
  pub item : Resolved
  pub there : get_elem? r.0.items r.1 ≡ some item
  pub same : ident item ≡ ident c
  pub kept : (n : ℕ) (e : Resolved) → get_elem? t.items n ≡ some e → get_elem? r.0.items n ≡ some e
  pub again : add c r.0 ≡ r

known_again :
    (c : Resolved) (t : CitationTable) (n : ℕ)
    → index_of (ident c) t.index ≡ some n
    → add c t ≡ (t, n)
unfolding add
known_again c t n h = rw (h, add) refl

get_elem?-last :
    {A : Type 0} (l : List A) (x y : A) (n : ℕ)
    → get_elem? (l ++ x ∷ []) n ≡ some y
    → (get_elem? l n ≡ some y) ⊎ ((n ≡ length l) × (x ≡ y))
get_elem?-last [] x y zero h = inr (omega arith, cc)
get_elem?-last [] x y (suc n) h = absurd (cc)
get_elem?-last (z ∷ l) x y zero h = inl h
get_elem?-last (z ∷ l) x y (suc n) h = elim (get_elem?-last l x y n h) [
  | inl before ↦ inl before
  | inr (at, e) ↦ inr (omega (arith, at), e)
]

get_elem?-at_end : {A : Type 0} (l : List A) (x : A) → get_elem? (l ++ x ∷ []) (length l) ≡ some x
get_elem?-at_end [] x = refl
get_elem?-at_end (z ∷ l) x = get_elem?-at_end l x

none_some : {n : ℕ} → ¬ (none ≡ some n)
none_some h = absurd (cc)

index_of-here : (i : Ident) (n : ℕ) (l : List (Ident × ℕ)) → index_of i ((i, n) ∷ l) ≡ some n
unfolding index_of
index_of-here i n l = rw (same_ident_refl i) refl

index_of-cons :
    (i j : Ident) (m n : ℕ) (l : List (Ident × ℕ))
    → index_of i ((j, m) ∷ l) ≡ some n
    → ((j ≡ i) × (m ≡ n)) ⊎ (index_of i l ≡ some n)
unfolding index_of
index_of-cons i j m n l h = elim (Bool-cases (same_ident j i)) [
  | inl hit ↦ inl (same_ident→eq j i hit, some_inj (rw hit at h))
  | inr miss ↦ inr (rw miss at h)
]

index_of-after :
    (i j : Ident) (m n : ℕ) (l : List (Ident × ℕ))
    → index_of j l ≡ none
    → index_of i l ≡ some n
    → index_of i ((j, m) ∷ l) ≡ some n
unfolding index_of
index_of-after i j m n l new old = elim (Bool-cases (same_ident j i)) [
  | inl hit ↦ absurd (none_some (sym new ∙ ap (λ k. index_of k l) (same_ident→eq j i hit) ∙ old))
  | inr miss ↦ rw miss old
]

abbrev appended : Resolved → CitationTable → CitationTable
appended c t = record { items = t.items ++ c ∷ []; index = (ident c, length t.items) ∷ t.index }

appended-IsTable :
    (c : Resolved) (t : CitationTable)
    → IsTable t
    → index_of (ident c) t.index ≡ none
    → IsTable (appended c t)
appended-IsTable c t h new = record {
  known = λ i n at. elim (index_of-cons i (ident c) (length t.items) n t.index at) [
    | inl (same, here) ↦
        (c, ap (get_elem? (t.items ++ c ∷ [])) (sym here) ∙ get_elem?-at_end t.items c, same)
    | inr before ↦
        let (d, there, same) = h.known i n before in
        (
          d,
          get_elem?-append_left t.items (c ∷ []) n (get_elem?-inside t.items n d there) ∙ there,
          same,
        )
  ];
  indexed = λ n d at. elim (get_elem?-last t.items c d n at) [
    | inl before ↦
        index_of-after (ident d) (ident c) (length t.items) n t.index new (h.indexed n d before)
    | inr (here, same) ↦
        ap (λ (r : Resolved). index_of (ident r) ((ident c, length t.items) ∷ t.index)) (sym same)
        ∙ index_of-here (ident c) (length t.items) t.index
        ∙ ap some (sym here)
  ];
}

-- From a table whose numbers and items agree, adding a citation leads to such a table: the
-- returned number is that of an item with the citation's version and offsets, all earlier items keep
-- their numbers, and to add the citation again changes nothing and returns the same number.
pub add-IsAdded : (c : Resolved) (t : CitationTable) → IsTable t → IsAdded c t (add c t)
unfolding add
add-IsAdded c t h = elim (Option-cases (index_of (ident c) t.index)) [
  | inl new ↦
      rw (new, add)
        (record {
          table = appended-IsTable c t h new;
          item = c;
          there = get_elem?-at_end t.items c;
          same = refl;
          kept = λ n e at.
              get_elem?-append_left t.items (c ∷ []) n (get_elem?-inside t.items n e at) ∙ at;
          again =
              known_again c (appended c t) (length t.items)
                (index_of-here (ident c) (length t.items) t.index);
        })
  | inr (n, old) ↦
      rw (old, add)
        (record {
          table = h;
          item = (h.known (ident c) n old).0;
          there = (h.known (ident c) n old).1;
          same = (h.known (ident c) n old).2;
          kept = λ m e at. at;
          again = known_again c t n old;
        })
]
