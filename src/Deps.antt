-- ===== src/Deps.antt =====
-- What the access control takes from other crates: regular expressions (crate `regex`) and address
-- ranges (crate `ipnet`). Each is a type with the operations that the program calls; the laws that
-- a theorem relies on are records of their own.
use wstunnel.Prelude.{
  ℕ, ◌≡◌, ◌↔◌, Bool, true, false, if◌then◌else◌, Option, some, ◌++◌, Text, codes, [],
}
use wstunnel.Net.{IpAddr, v4, v6}

pub record Regexes (R : Type 0) : Type 0 where
  -- `Regex::new`, `none` on a syntax error.
  pub new : Text → Option R
  pub is_match : R → Text → Bool
  -- `regex::escape`.
  pub escape : Text → Text

pub record IpNets (N : Type 0) : Type 0 where
  -- `IpNet::new` with a prefix length, `none` if it is too long.
  pub new_net : IpAddr → ℕ → Option N
  pub contains : N → IpAddr → Bool
  -- `Ipv4Net::default` and `Ipv6Net::default`.
  pub default_v4 : N
  pub default_v6 : N
  -- `IpAddr::from_str`.
  pub parse_ip : Text → Option IpAddr

abbrev pub is_ipv4 : IpAddr → Bool
is_ipv4 (v4 _) = true
is_ipv4 (v6 _) = false

-- The prefix length of a network of one address.
abbrev pub host_bits : IpAddr → ℕ
host_bits ip = if is_ipv4 ip then 32 else 128

-- `^`, the text with its special characters escaped, `$`.
abbrev pub exactly : {R : Type 0} → Regexes R → Text → Text
exactly re s = codes "^" ++ (re.escape s ++ codes "$")

-- The documented meaning of an escaped text between `^` and `$`, of `^$`, and that the pattern
-- `^.*$` is valid.
pub record RegexLaws {R : Type 0} (re : Regexes R) : Type 0 where
  pub escaped : (s : Text) → (r : R) × (re.new (exactly re s) ≡ some r)
  pub escaped_iff :
      (s t : Text) (r : R) → re.new (exactly re s) ≡ some r → (re.is_match r t ≡ true) ↔ (s ≡ t)
  pub empty_line : (r : R) × (re.new (codes "^$") ≡ some r)
  pub empty_line_iff :
      (t : Text) (r : R) → re.new (codes "^$") ≡ some r → (re.is_match r t ≡ true) ↔ (t ≡ [])
  pub any_line : (r : R) × (re.new (codes "^.*$") ≡ some r)

-- The documented meaning of a network of one address.
pub record IpNetLaws {N : Type 0} (nets : IpNets N) : Type 0 where
  pub single : (ip : IpAddr) → (n : N) × (nets.new_net ip (host_bits ip) ≡ some n)
  pub single_iff :
      (ip other : IpAddr) (n : N)
      → nets.new_net ip (host_bits ip) ≡ some n
      → (nets.contains n other ≡ true) ↔ (ip ≡ other)
