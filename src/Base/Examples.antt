-- ===== src/Base/Examples.antt =====
-- Error responses (server/src/errors.rs) at concrete values.
use mathlib.Core.Path.{◌≡◌, refl}
use mathlib.Core.List.{[], ◌∷◌}
use authere.Base.Errors.{input_error, into_response, join}

joined : (into_response (input_error ("Bad name" ∷ "Bad slug" ∷ []))).body ≡ "Bad name, Bad slug"
unfolding into_response join
joined = refl
