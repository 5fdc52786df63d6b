-- ===== src/Tests/Instances.antt =====
-- Small models of the crates `regex` and `ipnet` that meet the laws: escaping puts a `q` in front,
-- and a network holds one address.
use wstunnel.Prelude.{
  ◌≡◌, refl, ap, ◌↔◌, Bool, true, false, ◌&&◌, ◌||◌, none, some, [], ◌∷◌, ◌++◌, Text, codes,
  text_eq, text_eq_iff, is_empty, ◌==◌, if◌then◌else◌, arith, some_cancel,
}
use mathlib.Core.Path.{subst}
use mathlib.Core.List.{append_cancel_right}
use wstunnel.Net.{IpAddr, v4, v6}
use wstunnel.Deps.{Regexes, IpNets, RegexLaws, IpNetLaws}

-- The pattern of one text.
abbrev quoted : Text → Text
quoted s = codes "^q" ++ (s ++ codes "$")

abbrev matches_pattern : Text → Text → Bool
matches_pattern r t =
    text_eq r (codes "^.*$") || text_eq r (quoted t) || (text_eq r (codes "^$") && is_empty t)

instance abbrev pub test_regexes : Regexes Text
test_regexes = record { new = λ s. some s; is_match = matches_pattern; escape = λ s. b'q' ∷ s }

abbrev same_ip : IpAddr → IpAddr → Bool
same_ip (v4 a) (v4 b) = a == b
same_ip (v6 a) (v6 b) = a == b
same_ip _ _ = false

instance abbrev pub test_nets : IpNets IpAddr
test_nets = record {
  new_net = λ ip prefix. some ip;
  contains = same_ip;
  default_v4 = v4 0;
  default_v6 = v6 0;
  parse_ip = λ s. if text_eq s (codes "127.0.0.1") then some (v4 2130706433) else none;
}

quoted_iff : (s t : Text) → (matches_pattern (quoted s) t ≡ true) ↔ (s ≡ t)
quoted_iff s t = (
  λ e.
      append_cancel_right s t (codes "$")
        ((text_eq_iff (s ++ codes "$") (t ++ codes "$")).0 (ground arith)),
  λ e.
      let same = (text_eq_iff (s ++ codes "$") (t ++ codes "$")).1 (ap (λ x. x ++ codes "$") e) in
      ground arith,
)

empty_iff : (t : Text) → (matches_pattern (codes "^$") t ≡ true) ↔ (t ≡ [])
empty_iff [] = ground arith
empty_iff (c ∷ t) = ground arith

same_ip_iff : (a b : IpAddr) → (same_ip a b ≡ true) ↔ (a ≡ b)
same_ip_iff a b = ground arith

pub lawful_regexes : RegexLaws test_regexes
lawful_regexes = record {
  escaped = λ s. (quoted s, refl);
  escaped_iff = λ s t r e.
      subst (λ x. (matches_pattern x t ≡ true) ↔ (s ≡ t)) (some_cancel e) (quoted_iff s t);
  empty_line = (codes "^$", refl);
  empty_line_iff =
      λ t r e. subst (λ x. (matches_pattern x t ≡ true) ↔ (t ≡ [])) (some_cancel e) (empty_iff t);
  any_line = (codes "^.*$", refl);
}

pub lawful_nets : IpNetLaws test_nets
lawful_nets = record {
  single = λ ip. (ip, refl);
  single_iff = λ ip other n e.
      subst (λ x. (same_ip x other ≡ true) ↔ (ip ≡ other)) (some_cancel e) (same_ip_iff ip other);
}
