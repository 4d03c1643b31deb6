-- ===== src/Base/Rows.antt =====
-- A database table as the list of its rows, with the statements that act on it. The rows that a
-- `WHERE` clause selects are those that pass a test. A statement is atomic.
use Prim.Native.Nat.{ℕ, suc, ◌+◌, ◌≤◌}
use mathlib.Core.Path.{◌≡◌, refl}
use mathlib.Core.Bool.{Bool, true, false}
use mathlib.Core.Option.{Option, none, some}
use mathlib.Core.List.{List, [], ◌∷◌}
use native.Mathlib.Omega.{arith}
use authere.Base.Tests.{if◌then◌else◌, Bool-cases}
use mathlib.Core.Logic.{inl, inr}
use authere.Base.Lists.{All}

module _ {ℓ} {A : Type ℓ} where
  -- `SELECT … WHERE p`, `fetch_optional`: the first row that passes.
  unfoldable pub find : (A → Bool) → List A → Option A
  find p [] = none
  find p (r ∷ rs) = if p r then some r else find p rs

  -- `UPDATE … SET f WHERE p`.
  unfoldable pub update_where : (A → Bool) → (A → A) → List A → List A
  update_where p f [] = []
  update_where p f (r ∷ rs) = (if p r then f r else r) ∷ update_where p f rs

  -- `DELETE … WHERE p`.
  unfoldable pub delete_where : (A → Bool) → List A → List A
  delete_where p [] = []
  delete_where p (r ∷ rs) = let rest = delete_where p rs in if p r then rest else r ∷ rest

  -- `rows_affected()` of such a statement, and `SELECT COUNT(*)`.
  unfoldable pub count_where : (A → Bool) → List A → ℕ
  count_where p [] = 0
  count_where p (r ∷ rs) = let n = count_where p rs in if p r then suc n else n

  pub count-update_where_le :
      (p q : A → Bool) (f : A → A) (rs : List A)
      → ((r : A) → p r ≡ true → q (f r) ≡ false)
      → count_where q (update_where p f rs) ≤ count_where q rs
  unfolding count_where update_where
  count-update_where_le p q f [] h = omega arith
  count-update_where_le p q f (r ∷ rs) h = ground (arith, h r, count-update_where_le p q f rs h)

  -- Rows that an update takes out of a selection are no longer selected.
  count-update_where_self :
      (p : A → Bool) (f : A → A) (rs : List A)
      → ((r : A) → p (f r) ≡ false)
      → count_where p (update_where p f rs) ≡ 0
  unfolding count_where update_where
  count-update_where_self p f [] h = refl
  count-update_where_self p f (r ∷ rs) h = ground (arith, h r, count-update_where_self p f rs h)

  pub count-delete_where_self : (p : A → Bool) (rs : List A) → count_where p (delete_where p rs) ≡ 0
  unfolding count_where delete_where
  count-delete_where_self p [] = refl
  count-delete_where_self p (r ∷ rs) = ground (arith, count-delete_where_self p rs)

  pub count-delete_where_le :
      (p q : A → Bool) (rs : List A) → count_where q (delete_where p rs) ≤ count_where q rs
  unfolding count_where delete_where
  count-delete_where_le p q [] = omega arith
  count-delete_where_le p q (r ∷ rs) = ground (arith, count-delete_where_le p q rs)

  pub find_passes : (p : A → Bool) (rs : List A) (r : A) → find p rs ≡ some r → p r ≡ true
  unfolding find
  find_passes p [] r h = cc
  find_passes p (x ∷ rs) r h = ground (arith, find_passes p rs r)

  pub count_where-of_find : (p : A → Bool) (rs : List A) → find p rs ≡ none → count_where p rs ≡ 0
  unfolding find count_where
  count_where-of_find p [] h = refl
  count_where-of_find p (r ∷ rs) h = ground (arith, count_where-of_find p rs)

  -- An update that keeps the key of every row is seen by a search on the key.
  pub find-update_where :
      (k p : A → Bool) (f : A → A) (rs : List A)
      → ((r : A) → k (f r) ≡ k r)
      → find k (update_where p f rs)
        ≡ elim (find k rs) [ none ↦ none | some r ↦ some (if p r then f r else r) ]
  unfolding find update_where
  find-update_where k p f [] h = refl
  find-update_where k p f (r ∷ rs) h = ground (arith, h r, find-update_where k p f rs h)

  All-update_where :
      (P : A → Type 0) (p : A → Bool) (f : A → A) (rs : List A)
      → ((r : A) → p r ≡ true → P r → P (f r))
      → All P rs
      → All P (update_where p f rs)
  unfolding update_where
  All-update_where P p f [] h a = tt
  All-update_where P p f (r ∷ rs) h a = (step (p r) (h r), All-update_where P p f rs h a.1)
    where
      step : (b : Bool) → (b ≡ true → P r → P (f r)) → P (if b then f r else r)
      step true g = g refl a.0
      step false g = a.0

  pub All-delete_where :
      (P : A → Type 0) (p : A → Bool) (rs : List A) → All P rs → All P (delete_where p rs)
  unfolding delete_where
  All-delete_where P p [] a = tt
  All-delete_where P p (r ∷ rs) a = step (All-delete_where P p rs a.1) (p r)
    where
      step :
          All P (delete_where p rs)
          → (b : Bool) → All P (if b then delete_where p rs else r ∷ delete_where p rs)
      step later true = later
      step later false = (a.0, later)

  -- A delete that selects nothing changes nothing.
  pub delete_where-of_count :
      (p : A → Bool) (rs : List A) → count_where p rs ≡ 0 → delete_where p rs ≡ rs
  unfolding count_where delete_where
  delete_where-of_count p [] h = refl
  delete_where-of_count p (r ∷ rs) h = ground (arith, delete_where-of_count p rs)

  pub count_where_le :
      (p q : A → Bool) (rs : List A)
      → ((r : A) → q r ≡ true → p r ≡ true)
      → count_where q rs ≤ count_where p rs
  unfolding count_where
  count_where_le p q [] h = omega arith
  count_where_le p q (r ∷ rs) h = ground (arith, h r, count_where_le p q rs h)

  -- Of rows with a key, the one that is found is the only one of a narrower selection.
  pub count_where-of_found :
      (p q : A → Bool) (rs : List A) (r : A)
      → ((r : A) → q r ≡ true → p r ≡ true)
      → count_where p rs ≤ 1
      → find p rs ≡ some r
      → q r ≡ true
      → count_where q rs ≡ 1
  unfolding find count_where
  count_where-of_found p q [] r h one found passes = cc
  count_where-of_found p q (x ∷ rs) r h one found passes =
      ground (arith, h x, count_where_le p q rs h, count_where-of_found p q rs r h, passes)

  -- An update changes no row that another selection reads, if it selects none of them.
  pub count-update_where_eq :
      (p q : A → Bool) (f : A → A) (rs : List A)
      → ((r : A) → q (f r) ≡ q r)
      → count_where q (update_where p f rs) ≡ count_where q rs
  unfolding count_where update_where
  count-update_where_eq p q f [] h = refl
  count-update_where_eq p q f (r ∷ rs) h = ground (arith, h r, count-update_where_eq p q f rs h)

  -- What an update takes out of a selection is gone from its count.
  pub count-update_where_out :
      (p q : A → Bool) (f : A → A) (rs : List A)
      → ((r : A) → p r ≡ true → (q r ≡ true) × (q (f r) ≡ false))
      → count_where p rs + count_where q (update_where p f rs) ≤ count_where q rs
  unfolding count_where update_where
  count-update_where_out p q f [] h = omega arith
  count-update_where_out p q f (r ∷ rs) h = elim (Bool-cases (p r)) [
    | inl hit ↦ let (before, after) = h r hit in ground (arith, count-update_where_out p q f rs h)
    | inr miss ↦ ground (arith, count-update_where_out p q f rs h)
  ]

  -- An update after which nothing passes.
  pub count-update_where_zero :
      (p q : A → Bool) (f : A → A) (rs : List A)
      → ((r : A) → p r ≡ true → q (f r) ≡ false)
      → ((r : A) → p r ≡ false → q r ≡ false)
      → count_where q (update_where p f rs) ≡ 0
  unfolding count_where update_where
  count-update_where_zero p q f [] hit miss = refl
  count-update_where_zero p q f (r ∷ rs) hit miss =
      ground (arith, hit r, miss r, count-update_where_zero p q f rs hit miss)

  -- A delete leaves nothing that a narrower selection finds.
  pub count-delete_where_zero :
      (p q : A → Bool) (rs : List A)
      → ((r : A) → q r ≡ true → p r ≡ true)
      → count_where q (delete_where p rs) ≡ 0
  unfolding count_where delete_where
  count-delete_where_zero p q [] h = refl
  count-delete_where_zero p q (r ∷ rs) h = ground (arith, h r, count-delete_where_zero p q rs h)

  -- Of rows with a key, a narrower selection that misses the one that is found selects none.
  pub count_where-of_missed :
      (p q : A → Bool) (rs : List A) (r : A)
      → ((r : A) → q r ≡ true → p r ≡ true)
      → count_where p rs ≤ 1
      → find p rs ≡ some r
      → q r ≡ false
      → count_where q rs ≡ 0
  unfolding find count_where
  count_where-of_missed p q [] r h one found misses = cc
  count_where-of_missed p q (x ∷ rs) r h one found misses =
      ground (arith, h x, count_where_le p q rs h, count_where-of_missed p q rs r h, misses)
