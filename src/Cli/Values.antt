-- ===== src/Cli/Values.antt =====
-- The other arguments: durations, headers, credentials and the server's URL. Header names, header
-- values and base64 are parameters.
use wstunnel.Prelude.{
  ℕ, ◌*◌, ◌%◌, Option, none, some, List, [], ◌∷◌, ◌++◌, Text, codes, text_eq, any, is_some,
  split_once_char, trim, parse_uint, leb, if◌then◌else◌, ◌==◌,
}
use wstunnel.Prelude.Results.{Result, ok, err, ◌>>=◌, ok_or}
use wstunnel.Cli.{ArgError, invalid_input, panicked, Urls}
use wstunnel.Cli.Args.{from_secs}
use wstunnel.Transport.Addr.{TransportScheme, ws, wss, http, https, to_str}

-- The last character and what stands before it.
unfoldable pub split_last : ℕ → Text → Text × ℕ
split_last c [] = ([], c)
split_last c (d ∷ s) = let r = split_last d s in (c ∷ r.0, r.1)

-- The multiplier of a unit, and the digits that it belongs to.
unfoldable pub unit_of : Text → ℕ → Text × ℕ
unit_of before c =
    if c == b's'
    then (before, 1)
    else if c == b'm'
    then (before, 60)
    else if c == b'h'
    then (before, 3600)
    else (before ++ (c ∷ []), 1)

-- The index of the last byte panics on an empty text and inside a character; the product wraps.
unfoldable pub parse_duration_sec : Text → Result ArgError ℕ
unfolding split_last unit_of
parse_duration_sec [] = err panicked
parse_duration_sec (c ∷ s) =
    let last = split_last c s in
    let parts = unit_of last.0 last.1 in
    if leb 128 last.1 then err panicked else do
      secs ← ok_or (parse_uint 18446744073709551616 parts.0) invalid_input
      ok (from_secs (secs * parts.1 % 18446744073709551616))

module _ {H V : Type 0} (name_from_str : Text → Option H) (value_from_str : Text → Option V) where
  -- The name is unwrapped.
  unfoldable pub parse_http_headers : Text → Result ArgError (H × V)
  parse_http_headers arg = do
    parts ← ok_or (split_once_char b':' arg) invalid_input
    value ← ok_or (value_from_str (trim parts.1)) invalid_input
    name ← ok_or (name_from_str parts.0) panicked
    ok (name, value)

  unfoldable pub parse_http_credentials : (Text → Text) → Text → Result ArgError V
  parse_http_credentials encode arg =
      ok_or (value_from_str (codes "Basic " ++ encode (trim arg))) invalid_input

abbrev pub schemes : List TransportScheme
schemes = ws ∷ wss ∷ http ∷ https ∷ []

unfoldable pub parse_server_url : {U : Type 0} → Urls U → Text → Result ArgError U
unfolding to_str
parse_server_url urls arg = do
  url ← ok_or (urls.parse arg) invalid_input
  known ←
      ok_or (if any (λ x. text_eq (to_str x) (urls.scheme url)) schemes then some url else none)
        invalid_input
  ok_or (if is_some (urls.host known) then some known else none) invalid_input
