-- ===== src/Headers.antt =====
-- `headers_from_file` of wstunnel/src/tunnel/transport/mod.rs: the headers that a client adds to its
-- requests, the Host header apart. A name and a value are read by crate `http`, parameters here.
pub mod Passes
use wstunnel.Prelude.{
  Bool, Option, none, some, List, [], ◌∷◌, Text, split_once_char, trim, and_then, if◌then◌else◌,
}
use mathlib.Core.Option

-- `HeaderName::from_str`, `HeaderValue::from_str` and the test for `HOST`.
pub record HeaderParsers (H V : Type 0) : Type 0 where
  pub name_from_str : Text → Option H
  pub value_from_str : Text → Option V
  pub is_host : H → Bool

module _ {H V : Type 0} (parsers : HeaderParsers H V) where
  -- A line, `none` if reading it fails.
  unfoldable pub header_of : Option Text → Option (H × V)
  header_of read = and_then read λ line. and_then (split_once_char b':' line) λ parts.
      and_then (parsers.name_from_str (trim parts.0)) λ header.
        Option.map (λ (value : V). (header, value)) (parsers.value_from_str (trim parts.1))

  -- The lines in order, with the Host header found so far.
  unfoldable pub collect_headers :
      List (Option Text) → Option (H × V) → Option (H × V) × List (H × V)
  unfolding header_of
  collect_headers [] host = (host, [])
  collect_headers (line ∷ lines) host = elim (header_of line) [
    | none ↦ collect_headers lines host
    | some header ↦
        let apart = collect_headers lines (some header) in
        let rest = collect_headers lines host in
        if parsers.is_host header.0 then apart else (rest.0, header ∷ rest.1)
  ]

  -- `none` is a file that cannot be opened.
  unfoldable pub headers_from_file : Option (List (Option Text)) → Option (H × V) × List (H × V)
  unfolding collect_headers
  headers_from_file none = (none, [])
  headers_from_file (some lines) = collect_headers lines none
