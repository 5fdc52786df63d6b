-- ===== src/Registry.antt =====
-- tunnel-server/src: the service that the resolver asks. `watcher.rs` fills a map of tunnels from
-- the pods of a cluster, `api.rs` answers from it.
pub mod Latest
pub mod Offers
use wstunnel.Prelude.{
  ℕ, ◌+◌, min, Bool, true, false, not, ◌||◌, Option, none, some, List, [], ◌∷◌, ◌++◌, Text, codes,
  text_eq, is_empty, is_some_and, or_else, unwrap_or, and_then, parse_u16, nat_eq, text_keys, trim,
  lookup, insert, remove, if◌then◌else◌,
}
use mathlib.Core.Option

pub record TunnelEntry : Type 0 where
  pub host : Text
  pub port : ℕ
  pub rate_limit_upload_m : Option ℕ
  pub rate_limit_download_m : Option ℕ

-- `AppState`: the entries by tunnel id.
abbrev pub Tunnels : Type 0
Tunnels = List (ℕ × TunnelEntry)

-- What the watcher reads of a pod.
pub record PodStatus : Type 0 where
  pub phase : Option Text
  pub pod_ip : Option Text

pub record Pod : Type 0 where
  pub annotations : Option (List (Text × Text))
  pub status : Option PodStatus
  pub deletion_timestamp : Bool

abbrev pub default_tunnel_port : ℕ
default_tunnel_port = 22

abbrev pub max_rate_limit_m : ℕ
max_rate_limit_m = 10

unfoldable pub parse_rate_limit : Option Text → Option ℕ
parse_rate_limit v = Option.map (λ n. min n max_rate_limit_m) (and_then v (λ s. parse_u16 (trim s)))

-- The address of a pod, or the empty text.
abbrev pub pod_ip_of : Pod → Text
pod_ip_of pod = unwrap_or (and_then pod.status (λ s. s.pod_ip)) []

abbrev pub is_running : Pod → Bool
is_running pod = is_some_and (and_then pod.status (λ s. s.phase)) (λ p. text_eq p (codes "Running"))

-- A pod that is not to be reached: without an address, not running, or being deleted.
abbrev pub is_down : Pod → Bool
is_down pod = is_empty (pod_ip_of pod) || not (is_running pod) || pod.deletion_timestamp

unfoldable pub entry_of : Pod → List (Text × Text) → TunnelEntry
unfolding parse_rate_limit
entry_of pod annotations =
    let legacy = parse_rate_limit (lookup (codes "wstunnel.io/tunnel-rate-limit") annotations) in
    record {
      host = pod_ip_of pod;
      port =
          unwrap_or (and_then (lookup (codes "wstunnel.io/tunnel-port") annotations) parse_u16)
            default_tunnel_port;
      rate_limit_upload_m =
          or_else
            (parse_rate_limit (lookup (codes "wstunnel.io/tunnel-rate-limit-upload") annotations))
            legacy;
      rate_limit_download_m =
          or_else
            (parse_rate_limit (lookup (codes "wstunnel.io/tunnel-rate-limit-download") annotations))
            legacy;
    }

-- An answer of the watch: a pod, or an error that is skipped.
pub data WatchEvent : Type 0 where
  applied : Pod → WatchEvent
  watch_error : WatchEvent

-- The reading of a tunnel id (crate `uuid`) is a parameter.
module _ (parse_id : Text → Option ℕ) where
  -- The tunnel id in a pod's annotations.
  unfoldable pub tunnel_id : List (Text × Text) → Option ℕ
  tunnel_id annotations = and_then (lookup (codes "wstunnel.io/tunnel-id") annotations) parse_id

  -- What an event does to the map, by the id that it names.
  unfoldable pub upsert : Tunnels → Pod → List (Text × Text) → Option ℕ → Tunnels
  unfolding entry_of
  upsert map pod annotations none = map
  upsert map pod annotations (some id) =
      if is_down pod then remove id map else insert id (entry_of pod annotations) map

  unfoldable pub handle_pod_event : Tunnels → Option (List (Text × Text)) → Pod → Tunnels
  unfolding tunnel_id upsert
  handle_pod_event map none pod = map
  handle_pod_event map (some annotations) pod = upsert map pod annotations (tunnel_id annotations)

  -- The loop, until the stream ends.
  unfoldable pub watch_pods : List WatchEvent → Tunnels → Tunnels
  unfolding handle_pod_event
  watch_pods [] map = map
  watch_pods (applied pod ∷ events) map =
      watch_pods events (handle_pod_event map pod.annotations pod)
  watch_pods (watch_error ∷ events) map = watch_pods events map

-- `get_tunnel`: not found, or the body, whose numbers `show` prints.
module _ (show : ℕ → Text) where
  abbrev pub rate_line : Text → Option ℕ → Text
  rate_line name none = []
  rate_line name (some m) = name ++ codes ": " ++ show m ++ codes "\n"

  unfoldable pub get_tunnel : Tunnels → ℕ → ℕ × Text
  get_tunnel map uuid = elim (lookup uuid map) [
    | none ↦ (404, [])
    | some entry ↦ (
      200,
      codes "host: "
          ++ entry.host
          ++ codes "\nport: "
          ++ show entry.port
          ++ codes "\n"
          ++ rate_line (codes "rate_limit_upload_m") entry.rate_limit_upload_m
          ++ rate_line (codes "rate_limit_download_m") entry.rate_limit_download_m,
    )
  ]
