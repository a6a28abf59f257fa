-- ===== src/Citations/Numbers.antt =====
-- What `CitationTable` of src/app/domain/citations.py promises, without its dictionary: a list of
-- identities in which one that is new takes the next number.
use ai_text.Prelude.{
  some_inj, ℕ, zero, suc, ◌≡◌, refl, ap, sym, ◌∙◌, Option, none, some, List, [], ◌∷◌, ◌++◌, arith,
  if◌then◌else◌, length, get_elem?, Bool-cases, Option-cases, inl, inr,
}
use ai_text.Citations.{Resolved}
use ai_text.Citations.Table.{
  Ident, ident, same_ident, same_ident→eq, same_ident_refl, CitationTable, index_of, add, IsTable,
}
use ai_text.Citations.Claims.{idents, idents-append}

abbrev next : Option ℕ → Option ℕ
next none = none
next (some n) = some (suc n)

unfoldable pub position : Ident → List Ident → Option ℕ
unfolding same_ident
position i [] = none
position i (j ∷ l) = let later = next (position i l) in if same_ident j i then some 0 else later

-- The list afterwards and the number.
unfoldable pub numbered : Ident → List Ident → List Ident × ℕ
unfolding position
numbered i l = elim (position i l) [ some n ↦ (l, n) | none ↦ (l ++ i ∷ [], length l) ]

length-idents : (l : List Resolved) → length (idents l) ≡ length l
length-idents [] = refl
length-idents (c ∷ l) = omega (arith, length-idents l)

-- The citation at the first place of an identity.
position-found :
    (i : Ident) (l : List Resolved) (n : ℕ)
    → position i (idents l) ≡ some n
    → (c : Resolved) × (get_elem? l n ≡ some c) × (ident c ≡ i)
unfolding position
position-found i [] n e = absurd (cc)
position-found i (c ∷ l) n e = elim (Bool-cases (same_ident (ident c) i)) [
  | inl hit ↦
      let first : 0 ≡ n = some_inj (rw hit at e) in
      (c, ap (get_elem? (c ∷ l)) (sym first), same_ident→eq (ident c) i hit)
  | inr miss ↦ elim (Option-cases (position i (idents l))) [
    | inl gone ↦ absurd (grind (arith, miss, gone, e))
    | inr (m, at) ↦
        let (d, there, same) = position-found i l m at in
        let place : suc m ≡ n = grind (arith, miss, at, e) in
        (d, ap (get_elem? (c ∷ l)) (sym place) ∙ there, same)
  ]
]

position-missed :
    (c : Resolved) (l : List Resolved) (n : ℕ)
    → get_elem? l n ≡ some c
    → (m : ℕ) × (position (ident c) (idents l) ≡ some m)
unfolding position
position-missed c [] n e = absurd (cc)
position-missed c (d ∷ l) zero e = (
  0,
  rw
      (ap (λ (r : Resolved). same_ident (ident r) (ident c)) (some_inj e)
        ∙ same_ident_refl (ident c))
      refl,
)
position-missed c (d ∷ l) (suc n) e =
    let (m, at) = position-missed c l n e in
    elim (Bool-cases (same_ident (ident d) (ident c))) [
      | inl hit ↦ (0, rw hit refl)
      | inr miss ↦ (suc m, rw miss (rw at refl))
    ]

some_none : {m : ℕ} → ¬ (some m ≡ none)
some_none h = absurd (cc)

index_of-position :
    (i : Ident) (t : CitationTable) → IsTable t → index_of i t.index ≡ position i (idents t.items)
index_of-position i t h = elim (Option-cases (position i (idents t.items))) [
  | inr (n, at) ↦
      let (c, there, same) = position-found i t.items n at in
      ap (λ j. index_of j t.index) (sym same) ∙ h.indexed n c there ∙ sym at
  | inl gone ↦ elim (Option-cases (index_of i t.index)) [
    | inl absent ↦ absent ∙ sym gone
    | inr (n, known) ↦
        let (c, there, same) = h.known i n known in
        let (m, at) = position-missed c t.items n there in
        absurd (some_none (sym at ∙ ap (λ j. position j (idents t.items)) same ∙ gone))
  ]
]

-- The table implements the list: where its dictionary and its items agree, adding a citation makes the
-- identities of its items what the list becomes, and returns the number that the list gives.
pub add-numbered :
    (c : Resolved) (t : CitationTable)
    → IsTable t
    → let r = add c t in (idents r.0.items, r.1) ≡ numbered (ident c) (idents t.items)
unfolding add numbered
add-numbered c t h = elim (Option-cases (index_of (ident c) t.index)) [
  | inl new ↦
      let absent = sym (index_of-position (ident c) t h) ∙ new in
      rw (new, add)
        (rw (absent, numbered) (λ k. (idents-append t.items c k, sym (length-idents t.items) k)))
  | inr (n, old) ↦
      let at = sym (index_of-position (ident c) t h) ∙ old in rw (old, add) (rw (at, numbered) refl)
]
