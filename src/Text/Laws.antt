-- ===== src/Text/Laws.antt =====
-- Laws of the text functions: equality, trimming, prefixes.
use neo4j_mcp_canary.Prelude.{
  ℕ, Bool, true, false, [], ◌∷◌, ◌++◌, ◌≡◌, ◌↔◌, refl, arith, ==_refl, inl, inr, Bool-cases,
}
use neo4j_mcp_canary.Text.{Str, ◌==s◌, has_prefix, trim_left}

pub ==s_refl : (s : Str) → (s ==s s) ≡ true
unfolding ◌==s◌
==s_refl [] = refl
==s_refl (x ∷ s) = ground (arith, ==_refl x, ==s_refl s)

pub eq_of_==s : (s t : Str) → (s ==s t) ≡ true → s ≡ t
unfolding ◌==s◌
eq_of_==s [] [] h = refl
eq_of_==s [] (y ∷ t) h = cc
eq_of_==s (x ∷ s) [] h = cc
eq_of_==s (x ∷ s) (y ∷ t) h = ground (arith, eq_of_==s s t)

pub ==s_iff : (s t : Str) → ((s ==s t) ≡ true) ↔ (s ≡ t)
==s_iff s t = (eq_of_==s s t, λ e. rw e (==s_refl t))

-- What is left starts with no character of `p`.
abbrev pub StartsClear : (ℕ → Bool) → Str → Type 0
StartsClear p [] = Unit
StartsClear p (c ∷ s) = p c ≡ false

pub trim_left-StartsClear : (p : ℕ → Bool) (s : Str) → StartsClear p (trim_left p s)
unfolding trim_left
trim_left-StartsClear p [] = tt
trim_left-StartsClear p (c ∷ s) = elim (Bool-cases (p c)) [
  | inl e ↦ rw e (trim_left-StartsClear p s)
  | inr e ↦ rw e e
]

pub trim_left_of_StartsClear : (p : ℕ → Bool) (s : Str) → StartsClear p s → trim_left p s ≡ s
unfolding trim_left
trim_left_of_StartsClear p [] h = refl
trim_left_of_StartsClear p (c ∷ s) h = rw h

pub has_prefix-append : (p s : Str) → has_prefix (p ++ s) p ≡ true
unfolding has_prefix
has_prefix-append [] s = refl
has_prefix-append (c ∷ p) s = ground (arith, ==_refl c, has_prefix-append p s)
