-- ===== src/Tests/Registry.antt =====
-- Pods of one tunnel id: a new one and an old one that goes.
use wstunnel.Prelude.{
  ℕ, trim, text_keys, ◌≡◌, refl, true, false, some, List, [], ◌∷◌, Text, codes, lookup, parse_u16,
  parse_uint, insert, nat_eq,
}
use wstunnel.Registry.{TunnelEntry, Pod, applied, watch_error, tunnel_id, watch_pods}
use wstunnel.Registry.Latest.{latest, lookup-watch_pods}

abbrev notes : List (Text × Text)
notes =
    (codes "wstunnel.io/tunnel-id", codes "7")
    ∷ (codes "wstunnel.io/tunnel-rate-limit", codes " 25 ")
    ∷ []

abbrev new_pod : Pod
new_pod = record {
  annotations = some notes;
  status = some (record { phase = some (codes "Running"); pod_ip = some (codes "10.0.0.2") });
  deletion_timestamp = false;
}

abbrev old_pod : Pod
old_pod = record {
  annotations = some notes;
  status = some (record { phase = some (codes "Running"); pod_ip = some (codes "10.0.0.1") });
  deletion_timestamp = true;
}

abbrev entry : TunnelEntry
entry = record {
  host = codes "10.0.0.2";
  port = 22;
  rate_limit_upload_m = some 10;
  rate_limit_download_m = some 10;
}

held : lookup {K = ℕ} 7 (watch_pods parse_u16 (applied new_pod ∷ watch_error ∷ []) []) ≡ some entry
unfolding watch_pods lookup trim parse_uint insert
held = refl

lookup-watch_pods_example :
    lookup {K = ℕ} 7 (watch_pods parse_u16 (applied old_pod ∷ applied new_pod ∷ []) [])
    ≡ latest parse_u16 7 (applied old_pod ∷ applied new_pod ∷ []) (lookup {K = ℕ} 7 [])
lookup-watch_pods_example =
    lookup-watch_pods parse_u16 (applied old_pod ∷ applied new_pod ∷ []) [] 7

named : tunnel_id parse_u16 notes ≡ some 7
unfolding tunnel_id lookup parse_uint
named = refl
