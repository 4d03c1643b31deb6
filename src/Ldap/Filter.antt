-- ===== src/Ldap/Filter.antt =====
-- server/src/ldap/filter.rs: the filters of a search. `LdapFilter` is of the ldap3_proto crate; of
-- the comparisons that never match, what they hold is left out.
use authere.Base.{
  ℕ, suc, Bool, true, false, not, ◌&&◌, ◌||◌, Option, none, some, List, [], ◌∷◌, ◌+◌, reverse,
  length, drop, any, is_empty, if◌then◌else◌,
}
use authere.Base.Text.{Text, to_ascii_lowercase, eq_ignore_ascii_case, starts_with}
use authere.Ldap.Entry.{Entry, attr_values, has_attr}

pub record LdapSubstringFilter : Type 0 where
  pub initial : Option Text
  pub any_parts : List Text
  pub final_part : Option Text

mutual
  pub data LdapFilter : Type 0 where
    and : LdapFilters → LdapFilter
    or : LdapFilters → LdapFilter
    negate : LdapFilter → LdapFilter
    present : Text → LdapFilter
    equal : Text → Text → LdapFilter
    approx : Text → Text → LdapFilter
    containing : Text → LdapSubstringFilter → LdapFilter
    greater_or_equal : LdapFilter
    less_or_equal : LdapFilter
    extensible : LdapFilter

  pub data LdapFilters : Type 0 where
    nil : LdapFilters
    cons : LdapFilter → LdapFilters → LdapFilters

-- `s.find(needle)`
unfoldable pub find_text : Text → Text → Option ℕ
find_text needle [] = if is_empty needle then some 0 else none
find_text needle (c ∷ s) =
    let later = find_text needle s in
    if starts_with (c ∷ s) needle
    then some 0
    else elim later [ none ↦ none | some i ↦ some (suc i) ]

-- the loop over the inner parts: what follows them, `none` when one is missing
unfoldable pub skip_parts : List Text → Text → Option Text
skip_parts [] s = some s
skip_parts (part ∷ parts) s = elim (find_text (to_ascii_lowercase part) s) [
  | none ↦ none
  | some found ↦ skip_parts parts (drop (found + length part) s)
]

abbrev ends_as : Option Text → Text → Bool
ends_as none s = true
ends_as (some part) s = starts_with (reverse s) (reverse (to_ascii_lowercase part))

abbrev skip_initial : Option Text → Text → Option Text
skip_initial none s = some s
skip_initial (some part) s =
    if starts_with s (to_ascii_lowercase part) then some (drop (length part) s) else none

-- `substring_matches`
unfoldable pub substring_matches : Text → LdapSubstringFilter → Bool
substring_matches value sub = elim (skip_initial sub.initial (to_ascii_lowercase value)) [
  | none ↦ false
  | some s ↦ elim (skip_parts sub.any_parts s) [
    | none ↦ false
    | some rest ↦ ends_as sub.final_part rest
  ]
]

-- `equality`
unfoldable pub equality : Entry → Text → Text → Bool
equality entry attr value = elim (attr_values entry attr) [
  | none ↦ false
  | some vals ↦ any (λ v. eq_ignore_ascii_case v value) vals
]

-- `substring`
unfoldable pub substring : Entry → Text → LdapSubstringFilter → Bool
substring entry attr sub = elim (attr_values entry attr) [
  | none ↦ false
  | some vals ↦ any (λ v. substring_matches v sub) vals
]

-- `matches`
unfoldable mutual
  pub matches : Entry → LdapFilter → Bool
  matches entry (and children) = all_match entry children
  matches entry (or children) = any_match entry children
  matches entry (negate inner) = not (matches entry inner)
  matches entry (present attr) = has_attr entry attr
  matches entry (equal attr value) = equality entry attr value
  matches entry (approx attr value) = equality entry attr value
  matches entry (containing attr sub) = substring entry attr sub
  matches entry greater_or_equal = false
  matches entry less_or_equal = false
  matches entry extensible = false

  all_match : Entry → LdapFilters → Bool
  all_match entry nil = true
  all_match entry (cons f fs) = matches entry f && all_match entry fs

  any_match : Entry → LdapFilters → Bool
  any_match entry nil = false
  any_match entry (cons f fs) = matches entry f || any_match entry fs
