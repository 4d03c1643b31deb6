-- ===== src/Oidc/Token/Scope.antt =====
-- What `parse_scope` of server/src/oidc/token.rs makes of a scope.
use authere.Base.{
  ◌≡◌, refl, sym, subst, Bool, true, false, ◌||◌, ◌&&◌, not, List, [], ◌∷◌, ◌++◌, arith, Bool-cases,
  inl, inr,
}
use authere.Base.Text.{Text, same, same_iff, contains}
use authere.Http.{split_whitespace}
use authere.Oidc.Token.{unique_from, parse_scope}

-- Whether no text stands twice in a list.
abbrev pub is_unique : List Text → Bool
is_unique [] = true
is_unique (t ∷ ts) = not (contains ts t) && is_unique ts

same_sym : (a b : Text) → same a b ≡ same b a
same_sym a b = elim (Bool-cases (same a b)) [
  | inl h ↦ rw (h, (same_iff b a).1 (sym ((same_iff a b).0 h))) refl
  | inr h ↦ elim (Bool-cases (same b a)) [
    | inl k ↦ let e = (same_iff a b).1 (sym ((same_iff b a).0 k)) in cc
    | inr k ↦ cc
  ]
]

contains-append :
    (xs ys : List Text) (t : Text) → contains (xs ++ ys) t ≡ (contains xs t || contains ys t)
contains-append [] ys t = refl
contains-append (x ∷ xs) ys t = ground (arith, contains-append xs ys t)

contains-same :
    (out : List Text) (a t : Text) → contains out a ≡ true → same a t ≡ true → contains out t ≡ true
contains-same out a t h e = subst (λ x. contains out x ≡ true) ((same_iff a t).0 e) h

contains-unique_from :
    (out tokens : List Text) (t : Text)
    → contains (unique_from out tokens) t ≡ (contains out t || contains tokens t)
unfolding unique_from
contains-unique_from out [] t = ground arith
contains-unique_from out (a ∷ tokens) t = elim (Bool-cases (contains out a)) [
  | inl there ↦
      rw (there, contains-unique_from out tokens t) (ground (arith, contains-same out a t there))
  | inr absent ↦
      rw (absent, contains-unique_from (out ++ (a ∷ [])) tokens t, contains-append out (a ∷ []) t)
        (ground arith)
]

is_unique-append :
    (out : List Text) (a : Text)
    → is_unique out ≡ true
    → contains out a ≡ false
    → is_unique (out ++ (a ∷ [])) ≡ true
is_unique-append [] a h absent = refl
is_unique-append (x ∷ out) a h absent =
    ground (arith, contains-append out (a ∷ []) x, is_unique-append out a, same_sym a x)

is_unique-unique_from :
    (out tokens : List Text) → is_unique out ≡ true → is_unique (unique_from out tokens) ≡ true
unfolding unique_from
is_unique-unique_from out [] h = h
is_unique-unique_from out (a ∷ tokens) h = elim (Bool-cases (contains out a)) [
  | inl there ↦ rw there (is_unique-unique_from out tokens h)
  | inr absent ↦
      rw absent (is_unique-unique_from (out ++ (a ∷ [])) tokens (is_unique-append out a h absent))
]

-- The parsed scope has the words of the text, each once.
parse_scope_lem :
    (s : Text)
    → (is_unique (parse_scope s) ≡ true)
      × ((t : Text) → contains (parse_scope s) t ≡ contains (split_whitespace s) t)
unfolding parse_scope
parse_scope_lem s = (
  is_unique-unique_from [] (split_whitespace s) refl,
  λ t. contains-unique_from [] (split_whitespace s) t,
)
