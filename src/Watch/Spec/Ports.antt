-- ===== src/Watch/Spec/Ports.antt =====
-- internal/watch/service.go: the host and the port that a target is split into.
use open_light.Base.{ℕ, ◌≤◌, Option, none, some, ◌≡◌, refl, arith}
use open_light.Base.Int.{ℤ, pos}
use open_light.Base.Text.{Text, to_lower, trim_space}
use open_light.Base.Decimal.{parse_int}
use open_light.Errors.{ok}
use open_light.Watch.Spec.Validate.{
  port_number, host_and_port, split_host_port, split_host_port_target,
}

port_number-bounds :
    (host : Text) (n : Option ℤ) {h : Text} {port : ℕ}
    → port_number host n ≡ ok (h, port)
    → (1 ≤ port) × (port ≤ 65535) × (n ≡ some (pos port)) × (h ≡ to_lower host)
unfolding port_number
port_number-bounds host n e = ground arith

host_and_port-bounds :
    (parts : Option (Text × Text)) {host : Text} {port : ℕ}
    → host_and_port parts ≡ ok (host, port)
    → (h : Text) × (digits : Text) × (parts ≡ some (h, digits))
      × (parse_int digits ≡ some (pos port))
      × (host ≡ to_lower h)
      × (1 ≤ port)
      × (port ≤ 65535)
unfolding host_and_port
host_and_port-bounds none e = cc
host_and_port-bounds (some (h, digits)) e =
    let (low, high, read, same) = port_number-bounds h (parse_int digits) e in
    (h, digits, refl, read, same, low, high)

-- Whatever target a user types, a split that succeeds cuts it as net.SplitHostPort does, gives the
-- host in lower case, and reads a port from 1 to 65535.
pub split_host_port_target-bounds :
    (target : Text) {host : Text} {port : ℕ}
    → split_host_port_target target ≡ ok (host, port)
    → (h : Text) × (digits : Text) × (split_host_port (trim_space target) ≡ some (h, digits))
      × (parse_int digits ≡ some (pos port))
      × (host ≡ to_lower h)
      × (1 ≤ port)
      × (port ≤ 65535)
unfolding split_host_port_target
split_host_port_target-bounds target e =
    host_and_port-bounds (split_host_port (trim_space target)) (ground arith)
