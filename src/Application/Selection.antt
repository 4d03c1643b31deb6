-- ===== src/Application/Selection.antt =====
-- The loop of `find_matching` (server/src/application.rs) against a description that makes no
-- use of the order of the rows.
use authere.Base.{
  ℕ, suc, ◌+◌, ◌*◌, ◌≤◌, max, ◌≡◌, refl, ap, ◌∙◌, not, ◌&&◌, Option, none, some, List, [], ◌∷◌,
  ◌++◌, arith, ltb, ◌==◌, if◌then◌else◌, is_empty,
}
use mathlib.Core.List.{append_assoc, append-nil}
use authere.Base.Text.{Text}
use authere.Base.Errors.{AppError, forbidden, Result, ok, err}
use authere.Application.{Application}
use authere.Application.Policy.{
  HostRegex, Rank, rank, rank_lt, rank_eq, Choice, no_choice, is_candidate, consider, choose,
  settle, find_matching,
}

-- A rank as one number: the order of the tuples is the order of the keys.
abbrev key : Rank → ℕ
key r = 2 * r.prefix + (if r.literal then 1 else 0)

rank_lt-key : (a b : Rank) → rank_lt a b ≡ ltb (key a) (key b)
unfolding rank_lt
rank_lt-key a b = ground arith

rank_eq-key : (a b : Rank) → rank_eq a b ≡ (key a == key b)
unfolding rank_eq
rank_eq-key a b = ground arith

module _ (regex : HostRegex) (host path : Text) where
  -- How specific an application is for the request: 0 if it does not match at all.
  unfoldable pub score : Application → ℕ
  score app = if is_candidate regex host path app then suc (key (rank app)) else 0

  unfoldable pub best : List Application → ℕ
  best [] = 0
  best (app ∷ apps) = max (score app) (best apps)

  -- The applications of score `m`, in the order of the rows.
  unfoldable pub of_score : ℕ → List Application → List Application
  of_score m [] = []
  of_score m (app ∷ apps) =
      let rest = of_score m apps in
      if is_candidate regex host path app && score app == m then app ∷ rest else rest

-- The outcome from the most specific applications alone: one of them is used if it is enabled,
-- and two or more are an error.
unfoldable pub decide : List Application → Result (Option Application) AppError
decide [] = ok none
decide (app ∷ []) = ok (if app.enabled then some app else none)
decide (app ∷ other ∷ apps) = err forbidden

-- The variables of the loop, from the most specific applications so far.
view : List Application → Choice
view [] = no_choice
view (app ∷ apps) = record {
  selected = some app;
  selected_rank = some (rank app);
  ambiguous = not (is_empty apps);
}

level : List Application → ℕ
level [] = 0
level (app ∷ apps) = suc (key (rank app))

settle-view : (tops : List Application) → settle (view tops) ≡ decide tops
unfolding settle view decide
settle-view [] = refl
settle-view (app ∷ []) = refl
settle-view (app ∷ other ∷ apps) = refl

level-append :
    (app : Application) (tops : List Application)
    → level (tops ++ app ∷ []) ≡ max (level tops) (level (tops ++ app ∷ []))
unfolding level
level-append app [] = omega arith
level-append app (top ∷ tops) = omega arith

module _ (regex : HostRegex) (host path : Text) where
  merge : Application → List Application → List Application
  merge app tops =
      if not (is_candidate regex host path app)
      then tops
      else if ltb (score regex host path app) (level tops)
      then tops
      else if score regex host path app == level tops
      then tops ++ app ∷ []
      else app ∷ []

  consider-view :
      (app : Application) (tops : List Application)
      → consider regex host path app (view tops) ≡ view (merge app tops)
  unfolding consider view merge level score
  consider-view app [] = ground arith
  consider-view app (top ∷ []) =
      ground (arith, rank_lt-key (rank app) (rank top), rank_eq-key (rank app) (rank top))
  consider-view app (top ∷ other ∷ tops) =
      ground (arith, rank_lt-key (rank app) (rank top), rank_eq-key (rank app) (rank top))

  run : List Application → List Application → List Application
  run [] tops = tops
  run (app ∷ apps) tops = run apps (merge app tops)

  choose-view :
      (apps tops : List Application)
      → choose regex host path apps (view tops) ≡ view (run apps tops)
  unfolding choose run
  choose-view [] tops = refl
  choose-view (app ∷ apps) tops = rw (consider-view app tops) (choose-view apps (merge app tops))

  level-merge :
      (app : Application) (tops : List Application)
      → level (merge app tops) ≡ max (level tops) (score regex host path app)
  unfolding merge level score
  level-merge app [] = ground arith
  level-merge app (top ∷ tops) = ground arith

  keep : ℕ → List Application → List Application
  keep m tops = if level tops == m then tops else []

  merge_step :
      (m : ℕ) (app : Application) (apps tops : List Application)
      → level tops ≤ m
      → score regex host path app ≤ m
      → keep m (merge app tops) ++ of_score regex host path m apps
        ≡ keep m tops ++ of_score regex host path m (app ∷ apps)
  unfolding keep merge of_score score
  merge_step m app apps tops h k =
      ground (
        arith,
        level-merge app tops,
        append_assoc tops (app ∷ []) (of_score regex host path m apps),
      )

  run-eq :
      (apps tops : List Application)
      → run apps tops
        ≡ keep (max (level tops) (best regex host path apps)) tops
          ++ of_score regex host path (max (level tops) (best regex host path apps)) apps
  unfolding run best
  run-eq [] tops = unfold of_score keep in rw append-nil (ground arith)
  run-eq (app ∷ apps) tops =
      let m = max (level (merge app tops)) (best regex host path apps) in
      let same_m : m
          ≡ max (level tops) (max (score regex host path app) (best regex host path apps)) =
        omega (arith, level-merge app tops) in
      rw (run-eq apps (merge app tops), same_m)
        (merge_step _ app apps tops (omega arith) (omega arith))

  run_nil :
      (apps : List Application)
      → run apps [] ≡ of_score regex host path (best regex host path apps) apps
  run_nil apps =
      let same_m : max (level []) (best regex host path apps) ≡ best regex host path apps =
        unfold level in omega arith in
      rw (run-eq apps [], same_m) (unfold keep in ground arith)

  -- `find_matching` gives what the most specific matching applications decide.
  pub find_matching-eq-decide :
      (apps : List Application)
      → find_matching regex host path apps
        ≡ decide (of_score regex host path (best regex host path apps) apps)
  unfolding find_matching view
  find_matching-eq-decide apps =
      ap settle (choose-view apps []) ∙ settle-view (run apps []) ∙ ap decide (run_nil apps)
