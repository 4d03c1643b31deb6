-- ===== src/Settings/Table.antt =====
-- The table of settings is a function from keys to values (server/src/settings.rs).
use authere.Base.{
  ◌≡◌, refl, true, false, Option, some, List, [], ◌∷◌, arith, if◌then◌else◌, ◌≤◌, ◌∙◌, ap,
  Bool-cases, inl, inr,
}
use authere.Base.Text.{Text, same, same_iff}
use authere.Base.Rows.{
  find, delete_where, count_where, count-delete_where_self, count-delete_where_le,
}
use authere.Settings.{Settings, has_key, get_setting, set_setting}

other_key : (a key k : Text) → same a key ≡ true → same key k ≡ false → same a k ≡ false
other_key a key k h other = let e : a ≡ key = (same_iff a key).0 h in rw (e) other

find-delete_other :
    (key k : Text) (rows : Settings)
    → same key k ≡ false
    → find (has_key k) (delete_where (has_key key) rows) ≡ find (has_key k) rows
unfolding find delete_where
find-delete_other key k [] h = refl
find-delete_other key k (r ∷ rows) h =
    ground (arith, other_key r.key key k, find-delete_other key k rows h)

-- what a key reads as after one has been set
pub get_setting-set_setting :
    (key value : Text) (rows : Settings) (k : Text)
    → get_setting k (set_setting key value rows)
      ≡ (if same key k then some value else get_setting k rows)
unfolding get_setting set_setting find
get_setting-set_setting key value rows k = elim (Bool-cases (same key k)) [
  | inl this ↦ ground (arith, this)
  | inr other ↦ ground (arith, find-delete_other key k rows other)
]

-- Keys are unique.
abbrev pub IsKeyed : Settings → Type 0
IsKeyed rows = (k : Text) → count_where (has_key k) rows ≤ 1

set_setting-IsKeyed :
    (key value : Text) (rows : Settings) → IsKeyed rows → IsKeyed (set_setting key value rows)
unfolding set_setting count_where
set_setting-IsKeyed key value rows keyed k = elim (Bool-cases (same key k)) [
  | inl this ↦
      let e : key ≡ k = (same_iff key k).0 this in
      rw (this, e) (ground (arith, count-delete_where_self (has_key k) rows))
  | inr other ↦
      rw (other) (ground (arith, count-delete_where_le (has_key key) (has_key k) rows, keyed k))
]

-- writes: keys and values
abbrev pub Writes : Type 0
Writes = List (Text × Text)

unfoldable pub run : Writes → Settings → Settings
run [] rows = rows
run (write ∷ writes) rows = run writes (set_setting write.0 write.1 rows)

-- the same writes, on a function
unfoldable pub replay : Writes → (Text → Option Text) → Text → Option Text
replay [] f = f
replay (write ∷ writes) f = replay writes (λ k. if same write.0 k then some write.1 else f k)

replay_pointwise :
    (writes : Writes) (f g : Text → Option Text)
    → ((k : Text) → f k ≡ g k)
    → (k : Text) → replay writes f k ≡ replay writes g k
unfolding replay
replay_pointwise [] f g h k = h k
replay_pointwise (write ∷ writes) f g h k =
    replay_pointwise writes _ _
      (λ j. ap (λ later. if same write.0 j then some write.1 else later) (h j)) k

-- Whatever is written in whatever order, the table keeps its keys unique, and reads as the function
-- from keys to values to which the same writes have been made.
pub run_refines :
    (writes : Writes) (rows : Settings)
    → IsKeyed rows
    → IsKeyed (run writes rows)
      × ((k : Text) → get_setting k (run writes rows) ≡ replay writes (λ j. get_setting j rows) k)
unfolding run replay
run_refines [] rows keyed = (keyed, λ k. refl)
run_refines (write ∷ writes) rows keyed =
    let after = set_setting write.0 write.1 rows in
    let later = run_refines writes after (set_setting-IsKeyed write.0 write.1 rows keyed) in
    (
      later.0,
      λ k. later.1 k ∙ replay_pointwise writes _ _ (get_setting-set_setting write.0 write.1 rows) k,
    )
