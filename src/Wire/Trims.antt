-- ===== src/Wire/Trims.antt =====
-- Texts put together that have no space at their end, and no separator: cmd/node/message.go.
use Prim.Native.Char.{code}
use Prim.Native.String.{◌++◌ as text_append}
use Prim.Native.String.append
use edgesim_p2p.Base.{
  ℕ, String, ◌≡◌, refl, false, List, [], ◌∷◌, All, ◌==◌, Bool-cases, inl, inr, arith,
}
use edgesim_p2p.Wire.Text.{is_space, is_blank, trim_right, join_with}
use edgesim_p2p.Wire.Joins.{has_code, IsClean}

is_blank-append : (s t : String) → is_blank t ≡ false → is_blank (text_append s t) ≡ false
unfolding is_blank
is_blank-append String.[] t h = rw (append.nil t) h
is_blank-append (String.◌∷◌ c s) t h = rw (append.cons c s t) refl

pub trim_right-append :
    (s t : String)
    → trim_right t ≡ t
    → is_blank t ≡ false
    → trim_right (text_append s t) ≡ text_append s t
unfolding trim_right
trim_right-append String.[] t h named = rw (append.nil t) h
trim_right-append (String.◌∷◌ c s) t h named = rw (append.cons c s t) (
    rw (trim_right-append s t h named, is_blank-append s t named)
      (elim (Bool-cases (is_space (code c))) [ inl b ↦ rw b refl | inr b ↦ rw b refl ]))

has_code-append :
    (sep : ℕ) (s t : String)
    → has_code sep s ≡ false
    → has_code sep t ≡ false
    → has_code sep (text_append s t) ≡ false
unfolding has_code
has_code-append sep String.[] t h k = rw (append.nil t) k
has_code-append sep (String.◌∷◌ c s) t h k =
    rw (append.cons c s t) (elim (Bool-cases (code c == sep)) [
      | inl b ↦ absurd (ground (arith, b))
      | inr b ↦ rw b (has_code-append sep s t (ground (arith, b)) k)
    ])

-- What joined clean items have of their parts.
pub record Joined (s : String) : Type 0 where
  pub bar : has_code b'|' s ≡ false
  pub right : trim_right s ≡ s
  pub named : is_blank s ≡ false

pub join_with-Joined :
    (s : String) (rest : List String) → All IsClean (s ∷ rest) → Joined (join_with "," (s ∷ rest))
unfolding join_with has_code
join_with-Joined s [] clean = record {
  bar = clean.0.bar;
  right = clean.0.right;
  named = clean.0.named;
}
join_with-Joined s (t ∷ rest) clean =
    let later = join_with-Joined t rest clean.1 in
    let joined = join_with "," (t ∷ rest) in
    let end : trim_right (text_append "," joined) ≡ text_append "," joined =
      trim_right-append "," joined later.right later.named in
    let named : is_blank (text_append "," joined) ≡ false =
      is_blank-append "," joined later.named in
    record {
      bar =
          has_code-append b'|' s (text_append "," joined) clean.0.bar
            (has_code-append b'|' "," joined refl later.bar);
      right = trim_right-append s (text_append "," joined) end named;
      named = is_blank-append s (text_append "," joined) named;
    }
