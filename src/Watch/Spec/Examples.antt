-- ===== src/Watch/Spec/Examples.antt =====
-- Targets at concrete values.
use open_light.Base.{◌≤◌, some, ◌≡◌, refl}
use open_light.Base.Int.{pos}
use open_light.Base.Text.{
  Text, codes, to_lower, lower, trim_space, trim_left, trim_right, trim_cons, is_space,
}
use open_light.Base.Decimal.{parse_int, parse_digits, scan}
use open_light.Errors.{ok}
use open_light.Watch.Spec.Validate.{
  cut_last_colon, host_of, close_bracket, has_rune, split_host_port, port_number, host_and_port,
  split_host_port_target,
}
use open_light.Watch.Spec.Ports.{split_host_port_target-bounds}

abbrev typed : Text
typed = codes " DB:5432"

split_typed : split_host_port_target typed ≡ ok (codes "db", 5432)
unfolding codes to_lower lower trim_space trim_left trim_right trim_cons is_space parse_int
    parse_digits scan cut_last_colon host_of close_bracket has_rune split_host_port port_number
    host_and_port split_host_port_target
split_typed = refl

split_host_port_target-bounds_example :
    (h : Text) × (digits : Text) × (split_host_port (trim_space typed) ≡ some (h, digits))
    × (parse_int digits ≡ some (pos 5432))
    × (codes "db" ≡ to_lower h)
    × (1 ≤ 5432)
    × (5432 ≤ 65535)
split_host_port_target-bounds_example = split_host_port_target-bounds typed split_typed
