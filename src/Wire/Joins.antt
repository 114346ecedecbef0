-- ===== src/Wire/Joins.antt =====
-- Texts that are joined with a separator are split again: cmd/node/message.go.
use Prim.Native.Char.{code}
use Prim.Native.String.{◌++◌ as text_append}
use Prim.Native.String.append
use edgesim_p2p.Base.{
  ℕ, String, ◌≡◌, refl, ap, ◌∙◌, Bool, false, ◌||◌, List, [], ◌∷◌, All, ◌==◌, Bool-cases, inl, inr,
  arith,
}
use edgesim_p2p.Wire.Text.{
  is_blank, trim_left, trim_right, trim_space, cut_at, split, join_with, trim_all, split_and_trim,
}

unfoldable pub has_code : ℕ → String → Bool
has_code sep String.[] = false
has_code sep (String.◌∷◌ c s) = let rest = has_code sep s in (code c == sep) || rest

pub cut_at-append :
    (sep : ℕ) (s t : String)
    → has_code sep s ≡ false
    → cut_at sep (text_append s t) ≡ (text_append s (cut_at sep t).0, (cut_at sep t).1)
unfolding cut_at has_code
cut_at-append sep String.[] t h = rw (append.nil t, append.nil (cut_at sep t).0) refl
cut_at-append sep (String.◌∷◌ c s) t h = rw (append.cons c s t) (elim (Bool-cases (code c == sep)) [
  | inl here ↦ absurd (ground (arith, here))
  | inr other ↦
      rw (other, append.cons c s (cut_at sep t).0)
        (ap (λ (p : String × List String). (String.◌∷◌ c p.0, p.1))
          (cut_at-append sep s t (ground (arith, other))))
])

pub cut_at_none : (sep : ℕ) (s : String) → has_code sep s ≡ false → cut_at sep s ≡ (s, [])
unfolding cut_at has_code
cut_at_none sep String.[] h = refl
cut_at_none sep (String.◌∷◌ c s) h = elim (Bool-cases (code c == sep)) [
  | inl here ↦ absurd (ground (arith, here))
  | inr other ↦ rw other (
      ap (λ (p : String × List String). (String.◌∷◌ c p.0, p.1))
        (cut_at_none sep s (ground (arith, other))))
]

cut_at-comma :
    (t : String)
    → cut_at b',' (text_append "," t) ≡ (String.[], (cut_at b',' t).0 ∷ (cut_at b',' t).1)
unfolding cut_at
cut_at-comma t = rw (append.cons _ String.[] t, append.nil t) refl

append_blank : (s : String) → text_append s "" ≡ s
append_blank String.[] = append.nil ""
append_blank (String.◌∷◌ c s) = append.cons c s "" ∙ ap (String.◌∷◌ c) (append_blank s)

-- An address that keeps its shape on the way: it has no separator, no space at its ends, and is not
-- empty.
pub record IsClean (s : String) : Type 0 where
  pub comma : has_code b',' s ≡ false
  pub bar : has_code b'|' s ≡ false
  pub left : trim_left s ≡ s
  pub right : trim_right s ≡ s
  pub named : is_blank s ≡ false

cut_at-join_with :
    (s : String) (rest : List String)
    → All IsClean (s ∷ rest)
    → cut_at b',' (join_with "," (s ∷ rest)) ≡ (s, rest)
unfolding join_with
cut_at-join_with s [] clean = cut_at_none b',' s clean.0.comma
cut_at-join_with s (t ∷ rest) clean =
    let joined = join_with "," (t ∷ rest) in
    cut_at-append b',' s (text_append "," joined) clean.0.comma
    ∙ rw (cut_at-comma joined, append_blank s, cut_at-join_with t rest clean.1) refl

trim_all_clean : (items : List String) → All IsClean items → trim_all items ≡ items
unfolding trim_all trim_space
trim_all_clean [] clean = refl
trim_all_clean (s ∷ items) clean =
    let here = clean.0 in
    rw (here.left, here.right, here.named) (ap (◌∷◌ s) (trim_all_clean items clean.1))

-- Clean items that are joined by commas are split again.
pub split_and_trim-join_with :
    (s : String) (rest : List String)
    → All IsClean (s ∷ rest)
    → split_and_trim (join_with "," (s ∷ rest)) ≡ s ∷ rest
unfolding split_and_trim split
split_and_trim-join_with s rest clean =
    rw (cut_at-join_with s rest clean) (trim_all_clean (s ∷ rest) clean)
