-- ===== src/Tests/Restrictions.antt =====
-- The port lists of a rule file at concrete entries.
use wstunnel.Prelude.{
  ◌≡◌, refl, none, some, [], ◌∷◌, codes, nat_eq, parse_uint, split_once, split_char, insert,
}
use wstunnel.Restrictions.Ports.{
  collect, port_range, port_pair, deserialize_port_range, deserialize_port_mapping,
}

read_ranges :
    deserialize_port_range (codes "80" ∷ codes "+8080..8089" ∷ [])
    ≡ some (record { start = 80; last = 80 } ∷ record { start = 8080; last = 8089 } ∷ [])
unfolding deserialize_port_range port_range split_once parse_uint
read_ranges = refl

too_large : deserialize_port_range (codes "80" ∷ codes "65536" ∷ []) ≡ none
unfolding deserialize_port_range port_range split_once parse_uint
too_large = refl

read_pairs : collect port_pair (codes "1:2" ∷ codes "1:3" ∷ []) ≡ some ((1, 2) ∷ (1, 3) ∷ [])
unfolding port_pair split_char parse_uint
read_pairs = refl

read_mapping : deserialize_port_mapping (codes "1:2" ∷ codes "1:3" ∷ []) ≡ some ((1, 3) ∷ [])
unfolding deserialize_port_mapping port_pair split_char parse_uint insert
read_mapping = refl
