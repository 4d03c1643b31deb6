-- ===== src/Application/Policy.antt =====
-- application.rs: which applications a request matches, and `find_matching`.
use Prim.Native.Nat.{ℕ}
use authere.Base.{
  Bool, true, false, not, ◌&&◌, ◌||◌, Option, none, some, List, [], ◌∷◌, length, all, is_empty, ltb,
  ◌==◌, if◌then◌else◌,
}
use authere.Base.Text.{Text, eq_ignore_ascii_case, starts_with, is_ascii_alphanumeric}
use authere.Base.Errors.{AppError, forbidden, Result, ok, err}
use authere.Application.{AppType, forward_auth, oidc, Application}

-- A host pattern, wrapped as `^(?:…)$`, built by the regex crate with the program's size limit
-- and without regard to case: the test that it stands for, or `none` where it does not build.
abbrev pub HostRegex : Type 0
HostRegex = Text → Option (Text → Bool)

-- `literal_host_pattern`
unfoldable pub literal_host_pattern : Text → Bool
literal_host_pattern pattern =
    not (is_empty pattern)
    && all (λ b. is_ascii_alphanumeric b || b == b'.' || b == b'-' || b == b':' || b == b'_')
        pattern

abbrev is_forward_auth : AppType → Bool
is_forward_auth forward_auth = true
is_forward_auth oidc = false

-- `rank` of `find_matching`: the length of the path prefix, then whether the host is literal.
pub record Rank : Type 0 where
  pub prefix : ℕ
  pub literal : Bool

abbrev bool_lt : Bool → Bool → Bool
bool_lt false true = true
bool_lt _ _ = false

abbrev bool_eq : Bool → Bool → Bool
bool_eq true b = b
bool_eq false b = not b

-- `<` and `==` on the tuples.
unfoldable pub rank_lt : Rank → Rank → Bool
rank_lt a b = ltb a.prefix b.prefix || a.prefix == b.prefix && bool_lt a.literal b.literal

unfoldable pub rank_eq : Rank → Rank → Bool
rank_eq a b = a.prefix == b.prefix && bool_eq a.literal b.literal

unfoldable pub rank : Application → Rank
unfolding literal_host_pattern
rank app = record {
  prefix = elim app.path_prefix [ none ↦ 0 | some p ↦ length p ];
  literal = elim app.host_pattern [ none ↦ false | some p ↦ literal_host_pattern p ];
}

-- The three variables of the loop.
pub record Choice : Type 0 where
  pub selected : Option Application
  pub selected_rank : Option Rank
  pub ambiguous : Bool

abbrev pub no_choice : Choice
no_choice = record { selected = none; selected_rank = none; ambiguous = false }

-- what `find_matching` makes of the variables after the loop
unfoldable pub settle : Choice → Result (Option Application) AppError
settle c =
    if c.ambiguous
    then err forbidden
    else ok (elim c.selected [ none ↦ none | some app ↦ if app.enabled then some app else none ])

module _ (regex : HostRegex) where
  unfoldable pub host_matches : Text → Text → Bool
  unfolding literal_host_pattern
  host_matches pattern host =
      if literal_host_pattern pattern
      then eq_ignore_ascii_case pattern host
      else elim (regex pattern) [ none ↦ false | some is_match ↦ is_match host ]

  -- `matches`
  unfoldable pub matches : Application → Text → Text → Bool
  unfolding host_matches
  matches app host path =
      elim app.host_pattern [ none ↦ true | some pattern ↦ host_matches pattern host ]
      && elim app.path_prefix [ none ↦ true | some prefix ↦ starts_with path prefix ]

  module _ (host path : Text) where
    unfoldable pub is_candidate : Application → Bool
    is_candidate app = is_forward_auth app.app_type && matches app host path

    -- one round of the loop of `find_matching`
    unfoldable pub consider : Application → Choice → Choice
    consider app c =
        let taken : Choice = record {
          selected = some app;
          selected_rank = some (rank app);
          ambiguous = false;
        } in
        if not (is_candidate app) then c else elim c.selected_rank [
          | none ↦ taken
          | some previous ↦
              if rank_lt (rank app) previous
              then c
              else if rank_eq (rank app) previous
              then record c { ambiguous = true }
              else taken
        ]

    unfoldable pub choose : List Application → Choice → Choice
    choose [] c = c
    choose (app ∷ apps) c = choose apps (consider app c)

    -- `find_matching`, over the rows that `Application::list` returns.
    unfoldable pub find_matching : List Application → Result (Option Application) AppError
    find_matching apps = settle (choose apps no_choice)
