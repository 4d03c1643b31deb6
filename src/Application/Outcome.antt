-- ===== src/Application/Outcome.antt =====
-- What a request can rely on from `find_matching` and `matches` (server/src/application.rs).
use mathlib.Core.List.{Permᴰ}
use mathlib.Core.List.Permᴰ
use authere.Base.{
  ℕ, ◌≤◌, ◌≡◌, refl, ap, ◌∙◌, sym, ◌⊎◌, ◌↔◌, inl, inr, Bool, true, false, Option, none, some, List,
  [], ◌∷◌, ◌++◌, arith, if◌then◌else◌, All, is_empty,
}
use authere.Base.Text.{
  Text, to_ascii_lowercase, starts_with, eq_ignore_ascii_case_iff, starts_with_iff,
}
use authere.Base.Errors.{ok}
use authere.Application.{Application}
use authere.Application.Policy.{
  HostRegex, literal_host_pattern, host_matches, matches, is_candidate, find_matching,
}
use authere.Application.Selection.{score, best, of_score, decide, find_matching-eq-decide}

-- A test that is made of two elements gives lists that agree up to order.
perm_if {ℓ} :
    {A : Type ℓ} (b : Bool) (a : A) {xs ys : List A}
    → Permᴰ xs ys
    → Permᴰ (if b then a ∷ xs else xs) (if b then a ∷ ys else ys)
perm_if true a p = Permᴰ.cons refl p
perm_if false a p = p

perm_if_swap {ℓ} :
    {A : Type ℓ} (b c : Bool) (x y : A) (l : List A)
    → Permᴰ
        (if b then x ∷ (if c then y ∷ l else l) else (if c then y ∷ l else l))
        (if c then y ∷ (if b then x ∷ l else l) else (if b then x ∷ l else l))
perm_if_swap true true x y l = Permᴰ.swap refl refl
perm_if_swap true false x y l = Permᴰ.refl _
perm_if_swap false true x y l = Permᴰ.refl _
perm_if_swap false false x y l = Permᴰ.refl _

is_empty_perm {ℓ} : {A : Type ℓ} {xs ys : List A} → Permᴰ xs ys → is_empty xs ≡ is_empty ys
is_empty_perm Permᴰ.nil = refl
is_empty_perm (Permᴰ.cons e p) = refl
is_empty_perm (Permᴰ.swap e f) = refl
is_empty_perm (Permᴰ.trans p q) = is_empty_perm p ∙ is_empty_perm q

decide_cons :
    (app : Application) (xs ys : List Application)
    → is_empty xs ≡ is_empty ys
    → decide (app ∷ xs) ≡ decide (app ∷ ys)
unfolding decide
decide_cons app [] [] h = refl
decide_cons app (x ∷ xs) (y ∷ ys) h = refl
decide_cons app _ _ h = cc

decide_perm : {xs ys : List Application} → Permᴰ xs ys → decide xs ≡ decide ys
unfolding decide
decide_perm Permᴰ.nil = refl
decide_perm (Permᴰ.cons {b = app} {l₁ = xs} e p) =
    ap (λ top. decide (top ∷ xs)) e ∙ decide_cons app _ _ (is_empty_perm p)
decide_perm (Permᴰ.swap e f) = refl
decide_perm (Permᴰ.trans p q) = decide_perm p ∙ decide_perm q

module _ (regex : HostRegex) (host path : Text) where
  best_bounds :
      (m : ℕ) (apps : List Application)
      → best regex host path apps ≤ m
      → All (λ app. score regex host path app ≤ m) apps
  unfolding best
  best_bounds m [] h = tt
  best_bounds m (app ∷ apps) h = (omega arith, best_bounds m apps (omega arith))

  decide-eq-ok_some :
      (tops : List Application) (app : Application)
      → decide tops ≡ ok (some app)
      → (tops ≡ app ∷ []) × (app.enabled ≡ true)
  unfolding decide
  decide-eq-ok_some [] app h = cc
  decide-eq-ok_some (top ∷ []) app h = ground arith
  decide-eq-ok_some (top ∷ other ∷ tops) app h = cc

  of_score_head :
      (m : ℕ) (apps rest : List Application) (app : Application)
      → of_score regex host path m apps ≡ app ∷ rest
      → (is_candidate regex host path app ≡ true) × (score regex host path app ≡ m)
  unfolding of_score
  of_score_head m [] rest app h = cc
  of_score_head m (top ∷ apps) rest app h = ground (arith, of_score_head m apps rest app)

  -- The application that `find_matching` returns is enabled and matches the request; no listed
  -- application is more specific, and it is the only one in the list that is as specific.
  pub find_matching_sound :
      (apps : List Application) (app : Application)
      → find_matching regex host path apps ≡ ok (some app)
      → (app.enabled ≡ true)
        × (is_candidate regex host path app ≡ true)
        × All (λ other. score regex host path other ≤ score regex host path app) apps
        × (of_score regex host path (score regex host path app) apps ≡ app ∷ [])
  find_matching_sound apps app h =
      let (alone, enabled) =
        decide-eq-ok_some _ app (sym (find_matching-eq-decide regex host path apps) ∙ h) in
      let (candidate, top) = of_score_head _ apps [] app alone in
      (enabled, candidate, rw top (best_bounds _ apps (omega arith)), rw top alone)

  best_perm :
      {xs ys : List Application} → Permᴰ xs ys → best regex host path xs ≡ best regex host path ys
  unfolding best
  best_perm Permᴰ.nil = refl
  best_perm (Permᴰ.cons e p) = rw (e, best_perm p)
  best_perm (Permᴰ.swap e f) = rw (e, f) (omega arith)
  best_perm (Permᴰ.trans p q) = best_perm p ∙ best_perm q

  of_score_perm :
      (m : ℕ) {xs ys : List Application}
      → Permᴰ xs ys
      → Permᴰ (of_score regex host path m xs) (of_score regex host path m ys)
  unfolding of_score
  of_score_perm m Permᴰ.nil = Permᴰ.nil
  of_score_perm m (Permᴰ.cons {b = app} e p) = rw e (perm_if _ app (of_score_perm m p))
  of_score_perm m (Permᴰ.swap {a' = x} {b' = y} {l} e f) =
      rw (e, f) (perm_if_swap _ _ y x (of_score regex host path m l))
  of_score_perm m (Permᴰ.trans p q) = Permᴰ.trans (of_score_perm m p) (of_score_perm m q)

  -- The outcome does not depend on the order of the rows.
  find_matching_perm :
      {xs ys : List Application}
      → Permᴰ xs ys
      → find_matching regex host path xs ≡ find_matching regex host path ys
  find_matching_perm {xs} {ys} p =
      find_matching-eq-decide regex host path xs
      ∙ rw (best_perm p) (decide_perm (of_score_perm (best regex host path ys) p))
      ∙ sym (find_matching-eq-decide regex host path ys)

  below_prefix :
      (o : Option Text)
      → elim o [ none ↦ true | some prefix ↦ starts_with path prefix ] ≡ true
      → (o ≡ none)
        ⊎ ((prefix : Text) × (o ≡ some prefix) × ((rest : Text) × (path ≡ prefix ++ rest)))
  below_prefix none h = inl refl
  below_prefix (some prefix) h = inr (prefix, refl, (starts_with_iff path prefix).0 h)

  from_prefix :
      (o : Option Text)
      → (o ≡ none)
        ⊎ ((prefix : Text) × (o ≡ some prefix) × ((rest : Text) × (path ≡ prefix ++ rest)))
      → elim o [ none ↦ true | some prefix ↦ starts_with path prefix ] ≡ true
  from_prefix o (inl e) = rw e
  from_prefix o (inr (prefix, e, rest)) = rw e ((starts_with_iff path prefix).1 rest)

  -- A policy whose host pattern is a plain host name matches that host alone, up to the case of
  -- ASCII letters, and only below its path prefix.
  literal_host_exact :
      (app : Application) (pattern : Text)
      → app.host_pattern ≡ some pattern
      → literal_host_pattern pattern ≡ true
      → (matches regex app host path ≡ true)
        ↔ (to_ascii_lowercase pattern ≡ to_ascii_lowercase host)
          × ((app.path_prefix ≡ none)
              ⊎ ((prefix : Text) × (app.path_prefix ≡ some prefix)
                  × ((rest : Text) × (path ≡ prefix ++ rest))))
  unfolding matches host_matches
  literal_host_exact app pattern p lit = (
    λ h. (
      (eq_ignore_ascii_case_iff pattern host).0 (ground arith),
      below_prefix app.path_prefix (ground arith),
    ),
    λ h.
        let same_host = (eq_ignore_ascii_case_iff pattern host).1 h.0 in
        let below = from_prefix app.path_prefix h.1 in ground arith,
  )
