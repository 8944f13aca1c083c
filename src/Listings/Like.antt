-- ===== src/Listings/Like.antt =====
-- backend/app/routers/jobs.py: the pattern of `LIKE` against Python's `in`.
use mathlib.Core.Path.{subst}
use mathlib.Core.List.{append_assoc}
use employed.Base.{
  ==_iff, Bool-cases, [], ap, arith, false, if◌then◌else◌, inl, inr, list_eq, nat_eq, option_eq,
  refl, string_eq, sym, true, ℕ, ◌&&◌, ◌++◌, ◌==◌, ◌∙◌, ◌∷◌, ◌≡◌,
}
use employed.Base.Text.{Text}
use employed.Listings.Search.{Database, is_special, like_pattern, occurs_in, replace, starts_with}

-- A character of the needle, and the whole of it, as the pattern has them.
escaped : ℕ → Text
escaped c = if is_special c then 92 ∷ c ∷ [] else c ∷ []

body : Text → Text
unfolding replace
body needle =
    replace b'_' (92 ∷ b'_' ∷ []) (replace b'%' (92 ∷ b'%' ∷ []) (replace 92 (92 ∷ 92 ∷ []) needle))

body-nil : body [] ≡ []
unfolding body replace
body-nil = refl

body-cons : (c : ℕ) (s : Text) → body (c ∷ s) ≡ escaped c ++ body s
unfolding body escaped is_special replace
body-cons c s = elim (Bool-cases (c == 92)) [
  | inl e ↦ subst (λ d. body (d ∷ s) ≡ escaped d ++ body s) (sym ((==_iff c 92).0 e)) refl
  | inr e ↦ elim (Bool-cases (c == b'%')) [
    | inl f ↦ subst (λ d. body (d ∷ s) ≡ escaped d ++ body s) (sym ((==_iff c b'%').0 f)) refl
    | inr f ↦ elim (Bool-cases (c == b'_')) [
      | inl g ↦ subst (λ d. body (d ∷ s) ≡ escaped d ++ body s) (sym ((==_iff c b'_').0 g)) refl
      | inr g ↦ rw (e, f, g) refl
    ]
  ]
]

module _ (db : Database) where
  -- `%` at the end fits anything.
  like-rest : (s : Text) → db.like (b'%' ∷ []) s ≡ true
  like-rest [] = db.like-percent_end [] ∙ db.like-end
  like-rest (d ∷ s) = rw (db.like-percent d [] s, like-rest s) (ground arith)

  like-escaped : (c : ℕ) (p : Text) → db.like (escaped c ++ p) [] ≡ false
  unfolding escaped
  like-escaped c p = elim (Bool-cases (is_special c)) [
    | inl e ↦ rw e (db.like-escape_end c p)
    | inr e ↦ rw e (db.like-plain_end c p e)
  ]

  like-escaped_cons :
      (c d : ℕ) (p s : Text) → db.like (escaped c ++ p) (d ∷ s) ≡ ((c == d) && db.like p s)
  unfolding escaped
  like-escaped_cons c d p s = elim (Bool-cases (is_special c)) [
    | inl e ↦ rw e (db.like-escape c d p s)
    | inr e ↦ rw e (db.like-plain c d p s e)
  ]

  like-body : (needle s : Text) → db.like (body needle ++ b'%' ∷ []) s ≡ starts_with needle s
  unfolding starts_with
  like-body [] s = rw body-nil (like-rest s)
  like-body (c ∷ needle) [] =
      rw (body-cons c needle, append_assoc (escaped c) (body needle) (b'%' ∷ []))
        (like-escaped c (body needle ++ b'%' ∷ []))
  like-body (c ∷ needle) (d ∷ s) =
      rw (body-cons c needle, append_assoc (escaped c) (body needle) (b'%' ∷ []))
        (like-escaped_cons c d (body needle ++ b'%' ∷ []) s
          ∙ ap (λ b. (c == d) && b) (like-body needle s))

  -- In a database whose `LIKE` reads the backslash as its escape, the pattern of a needle, whatever
  -- characters it has, fits exactly the texts that have the needle in them, as Python's `in` does.
  pub like-like_pattern : (needle s : Text) → db.like (like_pattern needle) s ≡ occurs_in needle s
  unfolding like_pattern occurs_in body
  like-like_pattern needle [] = db.like-percent_end (body needle ++ b'%' ∷ []) ∙ like-body needle []
  like-like_pattern needle (d ∷ s) =
      db.like-percent d (body needle ++ b'%' ∷ []) s
      ∙ rw (like-body needle (d ∷ s), like-like_pattern needle s) refl
