-- ===== src/Control/Payload.antt =====
-- hdp-bridge/hdp_bridge/control.py, `_validate_invoke_payload`: the shape of a `ctl_invoke` payload.
use hermes_device_protocol.Control.{contains_int}
use hermes_device_protocol.Wire.{
  Fields, Items, Json, array, end, get, integer, item, null, object, or_null, string,
}
use hermes_device_protocol.Prelude.Int.{is_positive, ℤ}
use hermes_device_protocol.Prelude.Result.{Result, err, ok, ◌>>=◌}
use hermes_device_protocol.Prelude.{
  Bool, List, Option, String, [], if◌then◌else◌, none, not, some, str_eq, true, ◌&&◌, ◌∷◌,
}

-- `malformed ctl_invoke`, by what is wrong
pub data Malformed : Type 0 where
  bad_capability bad_versions duplicate_versions bad_device bad_args bad_meta : Malformed
  bad_deadline : Malformed

-- `_ValidatedInvoke`
pub record ValidatedInvoke : Type 0 where
  pub capability : String
  pub acceptable_versions : List ℤ
  pub requested_device_id : Option String
  pub args : Fields
  pub deadline_ms : ℤ
  pub meta : Fields

abbrev pub nonempty_str : Malformed → Json → Result Malformed String
nonempty_str why (string s) = if str_eq s "" then err why else ok s
nonempty_str why _ = err why

abbrev pub positive_int : Malformed → Json → Result Malformed ℤ
positive_int why (integer n) = if is_positive n then ok n else err why
positive_int why _ = err why

abbrev pub object_or : Malformed → Json → Result Malformed Fields
object_or why (object d) = ok d
object_or why _ = err why

unfoldable pub positive_ints : Items → Result Malformed (List ℤ)
positive_ints end = ok []
positive_ints (item v rest) =
    let later = positive_ints rest in
    positive_int bad_versions v >>= λ n. later >>= λ ns. ok (n ∷ ns)

-- len(set(versions)) == len(versions)
unfoldable pub are_distinct : List ℤ → Bool
are_distinct [] = true
are_distinct (v ∷ vs) = let rest = are_distinct vs in not (contains_int v vs) && rest

abbrev pub as_versions : Json → Result Malformed (List ℤ)
as_versions (array (item v rest)) =
    positive_ints (item v rest) >>= λ vs. if are_distinct vs then ok vs else err duplicate_versions
as_versions _ = err bad_versions

abbrev pub as_requested : Json → Result Malformed (Option String)
as_requested null = ok none
as_requested v = nonempty_str bad_device v >>= λ d. ok (some d)

-- `_validate_invoke_payload`
unfoldable pub validate_invoke_payload : Fields → Result Malformed ValidatedInvoke
unfolding get positive_ints are_distinct
validate_invoke_payload payload =
    nonempty_str bad_capability (or_null (get "capability" payload)) >>= λ capability.
    as_versions (or_null (get "acceptable_versions" payload)) >>= λ versions.
    as_requested (or_null (get "requested_device_id" payload)) >>= λ requested.
    object_or bad_args (or_null (get "args" payload)) >>= λ args.
    object_or bad_meta (or_null (get "meta" payload)) >>= λ meta.
    positive_int bad_deadline (or_null (get "deadline_ms" payload)) >>= λ deadline_ms. ok (record {
      capability = capability;
      acceptable_versions = versions;
      requested_device_id = requested;
      args = args;
      deadline_ms = deadline_ms;
      meta = meta;
    })
