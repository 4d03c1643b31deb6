-- ===== src/Ldap/Search/Shown.antt =====
-- What a search of server/src/ldap/handler.rs shows, and to whom.
use authere.Base.{
  ◌≡◌, refl, Bool, true, false, inl, inr, List, [], ◌∷◌, ◌++◌, arith, Bool-cases, not, ◌&&◌,
  is_empty, some, Option-cases, if◌then◌else◌,
}
use authere.Base.Text.{Text}
use authere.Base.Errors.{ok, Result-cases}
use authere.User.{User}
use authere.State.{Db, get_user}
use authere.Ldap.Dn.{LdapResultCode, Dn, equals, is_under, parse_dn}
use authere.Ldap.Entry.{LdapConfig, Build, Entry, to_ldap, build_root_dse}
use authere.Ldap.Filter.{matches}
use authere.Ldap.Search.{
  BindState, anonymous, service, user, is_anonymous, is_base, SearchRequest, LdapMsg, result_entry,
  search_done, entry_in_scope, is_found, keep, reaches, finalize, refuse, is_bound, Names,
  read_names, entries_of, search_below, search_from, handle_search,
}

-- who a search may show entries to
abbrev MayRead : BindState → SearchRequest → Db → Type 0
MayRead anonymous req db = is_empty req.base ≡ true
MayRead service req db = Unit
MayRead (user id) req db = (u : User) × (get_user id db ≡ some u) × (u.active ≡ true)

-- an entry below the base of a search that passes its filter
abbrev IsBelow : SearchRequest → Entry → Type 0
IsBelow req entry =
    (base : Dn) × (dn : Dn) × (parse_dn req.base ≡ ok base)
    × (parse_dn entry.dn ≡ ok dn)
    × (entry_in_scope dn base req.scope ≡ true)
    × (matches entry req.filter ≡ true)

-- `P` of every element, as a family that determines its list
pub data Each {ℓ} {A : Type ℓ} (P : A → Type 0) : List A → Type ℓ where
  none_left : Each P []
  one_more : {x : A} {xs : List A} → P x → Each P xs → Each P (x ∷ xs)

module _ {ℓ} {A : Type ℓ} {P : A → Type 0} where
  Each-if :
      {xs ys : List A} (b : Bool)
      → (b ≡ true → Each P xs)
      → (b ≡ false → Each P ys)
      → Each P (if b then xs else ys)
  Each-if true f g = f refl
  Each-if false f g = g refl

  -- `if not b`, for the refusals
  Each-unless :
      {xs ys : List A} (b : Bool)
      → Each P xs
      → (b ≡ true → Each P ys)
      → Each P (if not b then xs else ys)
  Each-unless true a f = f refl
  Each-unless false a f = a

  Each-append : {xs ys : List A} → Each P xs → Each P ys → Each P (xs ++ ys)
  Each-append none_left b = b
  Each-append (one_more p a) b = one_more p (Each-append a b)

module _ (build : Build) (req : SearchRequest) (cfg : LdapConfig) (bind : BindState) (db : Db) where
  -- what a reply may be
  pub data IsShown : LdapMsg → Type 0 where
    finished : (result : LdapResultCode) (message : Text) → IsShown (search_done result message)
    root_dse :
        is_empty req.base ≡ true
        → is_base req.scope ≡ true
        → IsShown (result_entry (to_ldap req.attrs (build_root_dse build cfg)))
    found :
        (entry : Entry)
        → MayRead bind req db
        → IsBelow req entry
        → IsShown (result_entry (to_ldap req.attrs entry))

  refused : {result : LdapResultCode} {message : Text} → Each IsShown (refuse result message)
  refused = one_more (finished _ _) none_left

  is_found-IsBelow :
      (base : Dn) (entry : Entry)
      → parse_dn req.base ≡ ok base
      → is_found req base entry ≡ true
      → IsBelow req entry
  unfolding is_found
  is_found-IsBelow base entry parsed h = elim (Result-cases (parse_dn entry.dn)) [
    | inl (dn, e) ↦ (base, dn, parsed, e, ground arith, ground arith)
    | inr (e, failed) ↦ ground arith
  ]

  keep-AreBelow :
      (base : Dn) (entries : List Entry)
      → parse_dn req.base ≡ ok base
      → Each (IsBelow req) (keep (is_found req base) entries)
  keep-AreBelow base [] parsed = none_left
  keep-AreBelow base (entry ∷ entries) parsed = elim (Bool-cases (is_found req base entry)) [
    | inl yes_found ↦ rw (yes_found) (
        one_more (is_found-IsBelow base entry parsed yes_found) (keep-AreBelow base entries parsed))
    | inr not_found ↦ rw (not_found) (keep-AreBelow base entries parsed)
  ]

  finalize-AreShown :
      (entries : List Entry)
      → MayRead bind req db
      → Each (IsBelow req) entries
      → Each IsShown (finalize req entries)
  unfolding finalize
  finalize-AreShown [] may none_left = one_more (finished _ _) none_left
  finalize-AreShown (entry ∷ entries) may (one_more below rest) =
      one_more (found entry may below) (finalize-AreShown entries may rest)

  search_below-AreShown :
      (base : Dn) (names : Names)
      → parse_dn req.base ≡ ok base
      → (is_bound bind db ≡ true → MayRead bind req db)
      → Each IsShown (search_below build req cfg bind base names db)
  unfolding search_below entries_of
  search_below-AreShown base names parsed may =
      Each-if
        (not (reaches req.scope base names.people) && not (reaches req.scope base names.groups))
        (λ _.
          Each-if (not (equals base names.root) && not (is_under base names.root)) (λ _. refused)
            (λ _. refused))
        (λ _. Each-unless (is_bound bind db) refused (λ bound.
          finalize-AreShown _ (may bound)
            (Each-append (keep-AreBelow base _ parsed) (keep-AreBelow base _ parsed))))

  search_from-AreShown :
      (is_bound bind db ≡ true → MayRead bind req db)
      → Each IsShown (search_from build req cfg bind db)
  unfolding search_from
  search_from-AreShown may = elim (Result-cases (parse_dn req.base)) [
    | inr (e, failed) ↦ rw (search_from, failed) refused
    | inl (base, parsed) ↦ elim (Result-cases (read_names cfg)) [
      | inr (e, failed) ↦ rw (search_from, parsed, failed) refused
      | inl (names, read) ↦
          rw (search_from, parsed, read) (search_below-AreShown base names parsed may)
    ]
  ]

-- Whose bind is still good may read, unless the search is anonymous with a base.
is_bound-MayRead :
    (bind : BindState) (req : SearchRequest) (db : Db)
    → (is_anonymous bind && not (is_empty req.base)) ≡ false
    → is_bound bind db ≡ true
    → MayRead bind req db
unfolding is_bound
is_bound-MayRead anonymous req db h bound = ground arith
is_bound-MayRead service req db h bound = tt
is_bound-MayRead (user id) req db h bound = elim (Option-cases (get_user id db)) [
  | inl gone ↦ ground arith
  | inr (u, e) ↦ (u, e, ground arith)
]

-- Every message of a search's reply is its end, or the root DSE for a search with an empty base and
-- the scope of the base alone, or an entry whose name is below the base in the scope of the search,
-- that passes the filter, and that carries the attributes asked for; and entries are shown only to
-- the service account, to a user who exists and is active, or to anyone where the base is empty.
pub handle_search-AreShown :
    (build : Build) (req : SearchRequest) (cfg : LdapConfig) (bind : BindState) (db : Db)
    → Each (IsShown build req cfg bind db) (handle_search build req cfg bind db)
unfolding handle_search finalize
handle_search-AreShown build req cfg bind db =
    Each-unless cfg.enabled (one_more (finished _ _) none_left) (λ _.
      Each-if (is_anonymous bind && not (is_empty req.base))
        (λ _. one_more (finished _ _) none_left)
        (λ admitted.
          Each-if (is_empty req.base && is_base req.scope)
            (λ dse.
              one_more (root_dse (ground arith) (ground arith)) (one_more (finished _ _) none_left))
            (λ _.
              search_from-AreShown build req cfg bind db (is_bound-MayRead bind req db admitted))))

-- An anonymous search with an empty base gets exactly the reply that the service account gets,
-- whatever its scope.
pub handle_search_anonymous :
    (build : Build) (req : SearchRequest) (cfg : LdapConfig) (db : Db)
    → is_empty req.base ≡ true
    → handle_search build req cfg anonymous db ≡ handle_search build req cfg service db
unfolding handle_search search_from search_below is_bound
handle_search_anonymous build req cfg db h = rw (h) refl
