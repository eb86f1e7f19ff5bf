-- ===== src/Policy/Matching.antt =====
-- Tag patterns of policy/model.rs against an independent description of a match.
use tabbify_service_mesh.Shared.{
  ◌≡◌, refl, sym, subst, ◌≢◌, ◌↔◌, inl, inr, true, none, some, [], ◌∷◌, ◌++◌, arith, Bool-cases,
  Option-cases, Text, ◌==◌, nat_eq, list_beq_iff, list_eq, option_eq, pair_eq,
}
use mathlib.Core.Path.{subst₂}
use tabbify_service_mesh.Policy.{star, strip_star, starts_with, matches_prefix, tag_matches}

pub strip_star-append : (p prefix : Text) → strip_star p ≡ some prefix → p ≡ prefix ++ star
unfolding strip_star
strip_star-append [] prefix h = ground arith
strip_star-append (c ∷ []) prefix h = ground arith
strip_star-append (c ∷ d ∷ cs) prefix h = elim (Option-cases (strip_star (d ∷ cs))) [
  | inl e ↦ ground arith
  | inr (q, e) ↦ ground (arith, strip_star-append (d ∷ cs) q e)
]

pub strip_star-append_star : (prefix : Text) → strip_star (prefix ++ star) ≡ some prefix
unfolding strip_star
strip_star-append_star [] = refl
strip_star-append_star (c ∷ []) = refl
strip_star-append_star (c ∷ d ∷ cs) = ground (arith, strip_star-append_star (d ∷ cs))

pub starts_with-split : (s p : Text) → starts_with s p ≡ true → (rest : Text) × (s ≡ p ++ rest)
unfolding starts_with
starts_with-split s [] h = (s, refl)
starts_with-split [] (p ∷ ps) h = absurd (ground arith)
starts_with-split (c ∷ cs) (p ∷ ps) h =
    let (rest, e) = starts_with-split cs ps (ground arith) in (rest, ground arith)

pub starts_with-append : (p rest : Text) → starts_with (p ++ rest) p ≡ true
unfolding starts_with
starts_with-append [] rest = refl
starts_with-append (c ∷ cs) rest = ground (arith, starts_with-append cs rest)

-- What a pattern means: a trailing star stands for any ending, all else is literal.
pub data Matches : Text → Text → Type 0 where
  exact : (tag : Text) → ((prefix : Text) → tag ≢ prefix ++ star) → Matches tag tag
  prefixed : (prefix rest : Text) → Matches (prefix ++ star) (prefix ++ rest)

-- Which patterns end in no star, said without the code's own test.
pub strip_star-none : (p : Text) → ((prefix : Text) → p ≢ prefix ++ star) ↔ (strip_star p ≡ none)
strip_star-none p = elim (Option-cases (strip_star p)) [
  | inl e ↦ (λ _. e, λ _ prefix q. ground (arith, strip_star-append_star prefix))
  | inr (prefix, e) ↦
      (λ h. absurd (h prefix (strip_star-append p prefix e)), λ e'. absurd (ground arith))
]

matches_prefix-Matches : (p t : Text) → matches_prefix p t (strip_star p) ≡ true → Matches p t
matches_prefix-Matches p t h = elim (Option-cases (strip_star p)) [
  | inl e ↦
      let same : p ≡ t = (list_beq_iff p t).0 (rw e at h) in
      subst (Matches p) same (exact p ((strip_star-none p).1 e))
  | inr (prefix, e) ↦
      let (rest, split) = starts_with-split t prefix (rw e at h) in
      subst₂ Matches (sym (strip_star-append p prefix e)) (sym split) (prefixed prefix rest)
]

star-Matches : (t : Text) → Matches star t
star-Matches t = prefixed [] t

-- A pattern matches a tag exactly when the tag is the pattern and the pattern ends in no star, or
-- the pattern is a prefix of the tag followed by a star.
pub tag_matches-Matches : (p t : Text) → (tag_matches p t ≡ true) ↔ Matches p t
unfolding tag_matches
tag_matches-Matches p t = (sound p t, complete p t)
  where
    sound : (p t : Text) → tag_matches p t ≡ true → Matches p t
    sound p t h = elim (Bool-cases (p == star)) [
      | inl e ↦ subst (λ q. Matches q t) (sym ((list_beq_iff p star).0 e)) (star-Matches t)
      | inr e ↦ matches_prefix-Matches p t (rw e at h)
    ]

    complete : (p t : Text) → Matches p t → tag_matches p t ≡ true
    complete p t (exact _ h) =
        rw ((strip_star-none p).0 h) (ground (arith, list_beq_iff p p, list_beq_iff p star))
    complete p t (prefixed prefix rest) =
        rw (strip_star-append_star prefix)
          (ground (arith, starts_with-append prefix rest, list_beq_iff p star))
