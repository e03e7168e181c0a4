-- ===== src/Cleanroom/Classify.antt =====
-- The line between a genuine resolve failure and a transport fault: internal/cleanroom/classify.go.
-- `lower` is `unicode.ToLower`, which the code reaches through `strings.ToLower`.
use semdev.Base.{
  ℕ, List, [], ◌∷◌, ◌++◌, Option, none, some, if◌then◌else◌, Text, codes, contains, is_nat, map,
}
use semdev.Runner.{Output}

pub data ResolveClass : Type 0 where
  resolve_ok resolve_failed resolve_transport : ResolveClass

abbrev pub transport_signatures : List Text
transport_signatures =
    codes "dial tcp"
    ∷ codes "dial udp"
    ∷ codes "i/o timeout"
    ∷ codes "timeout"
    ∷ codes "connection refused"
    ∷ codes "connection reset"
    ∷ codes "network is unreachable"
    ∷ codes "no such host"
    ∷ codes "server misbehaving"
    ∷ codes "tls handshake"
    ∷ codes "tls: "
    ∷ codes "x509"
    ∷ codes "certificate"
    ∷ codes "proxyconnect"
    ∷ codes "proxy error"
    ∷ codes "too many requests"
    ∷ codes "500 internal server error"
    ∷ codes "502 bad gateway"
    ∷ codes "503 service unavailable"
    ∷ codes "504 gateway timeout"
    ∷ codes "eof"
    ∷ codes "temporary failure in name resolution"
    ∷ []

unfoldable pub first_match : Text → List Text → Option Text
first_match haystack [] = none
first_match haystack (s ∷ ss) = if contains haystack s then some s else first_match haystack ss

unfoldable pub haystack_of : (ℕ → ℕ) → Output → Text
haystack_of lower r = map lower (r.stdout ++ (b'\n' ∷ r.stderr))

abbrev pub class_of_match : Option Text → ResolveClass × Text
class_of_match (some sig) = (
  resolve_transport,
  codes "resolve step hit a transport/infrastructure fault ("
      ++ (sig ++ codes ") — retry, not a verdict"),
)
class_of_match none = (
  resolve_failed,
  codes "resolve step failed to resolve a coordinate cold (missing or fabricated dependency)",
)

unfoldable pub classify_resolve : (ℕ → ℕ) → Output → ResolveClass × Text
unfolding first_match haystack_of
classify_resolve lower r =
    if is_nat r.exit_code 0
    then (resolve_ok, codes "dependencies resolved cold from the artifact's own declarations")
    else class_of_match (first_match (haystack_of lower r) transport_signatures)
