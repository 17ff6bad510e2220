-- ===== src/Watch/Spec/Parse.antt =====
-- internal/watch/spec.go: metric watches and the whole parser.
use open_light.Base.{Bool, ◌&&◌, Option, none, some, List, [], ◌∷◌, ◌++◌, if◌then◌else◌}
use open_light.Base.Text.{Text, codes, eqt, one_of, to_lower, trim_space, fields, has_prefix}
use open_light.Errors.{Result, ok, err, invalid_arguments, ◌>>=◌}
use open_light.Watch.Numerics.{Numerics}
use open_light.Watch.Spec.{
  AddSpec, options, metric_word, metric_spec, parse_threshold, parse_port, parse_cert,
  parse_service,
}

unfoldable pub is_threshold_marker : Text → Bool
is_threshold_marker value =
    one_of (to_lower (trim_space value)) (codes ">" ∷ codes ">=" ∷ codes "above" ∷ [])

unfoldable pub looks_like_disk_path : Text → Bool
looks_like_disk_path value = has_prefix (trim_space value) (codes "/")

-- `if metric == "disk" && … looksLikeDiskPath(fields[idx])`: the target and the fields behind it
unfoldable pub disk_target : Text → AddSpec → List Text → AddSpec × List Text
disk_target metric spec [] = (spec, [])
disk_target metric spec (f ∷ rest) =
    if eqt metric (codes "disk") && looks_like_disk_path f
    then (record spec { target = f }, rest)
    else (spec, f ∷ rest)

unfoldable pub skip_marker : List Text → List Text
skip_marker [] = []
skip_marker (f ∷ rest) = if is_threshold_marker f then rest else f ∷ rest

unfoldable pub metric_named : Text → AddSpec → AddSpec
metric_named metric spec = record spec {
  name =
      if eqt metric (codes "disk")
      then codes "disk " ++ spec.target ++ codes " high"
      else metric ++ codes " high";
}

module _ (num : Numerics) where
  -- The fields from the threshold on.
  unfoldable pub metric_fields : AddSpec → List Text → Result AddSpec
  metric_fields spec [] = err invalid_arguments
  metric_fields spec (f ∷ rest) = do
    t ← parse_threshold num f
    options num metric_word (record spec { threshold = t }) rest

  unfoldable pub metric_parsed : Text → List Text → Option AddSpec → Result AddSpec
  metric_parsed metric rest none = err invalid_arguments
  metric_parsed metric rest (some spec) = do
    let (targeted, behind) = disk_target metric spec rest
    parsed ← metric_fields targeted (skip_marker behind)
    ok (metric_named metric parsed)

  unfoldable pub parse_metric : List Text → Result AddSpec
  parse_metric [] = err invalid_arguments
  parse_metric (first ∷ rest) =
      let metric = to_lower (trim_space first) in metric_parsed metric rest (metric_spec num metric)

  unfoldable pub parse_fields : List Text → Result AddSpec
  parse_fields [] = err invalid_arguments
  parse_fields (first ∷ rest) =
      let kind = to_lower first in
      if eqt kind (codes "service")
      then parse_service num (first ∷ rest)
      else if one_of kind (codes "cpu" ∷ codes "memory" ∷ codes "disk" ∷ codes "temperature" ∷ [])
      then parse_metric (first ∷ rest)
      else if eqt kind (codes "port")
      then parse_port num (first ∷ rest)
      else if eqt kind (codes "cert")
      then parse_cert num (first ∷ rest)
      else err invalid_arguments

  unfoldable pub parse_add_spec : Text → Result AddSpec
  unfolding parse_fields
  parse_add_spec raw = parse_fields (fields (trim_space raw))
