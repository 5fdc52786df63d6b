-- ===== src/Tests/Headers.antt =====
-- A file with two Host headers, another header and a line that is none; a name is kept as it is.
use wstunnel.Prelude.{
  ◌≡◌, refl, some, none, Option, List, [], ◌∷◌, Text, codes, text_eq, split_once_char, trim,
}
use wstunnel.Headers.{HeaderParsers, headers_from_file}
use wstunnel.Headers.Passes.{parsed, last_of, hosts, plain, headers_from_file_lem}

abbrev parsers : HeaderParsers Text Text
parsers = record {
  name_from_str = λ s. some s;
  value_from_str = λ s. some s;
  is_host = λ h. text_eq h (codes "host");
}

abbrev file : List (Option Text)
file = some (codes "host: a") ∷ some (codes "x : 1") ∷ none ∷ some (codes "host:b") ∷ []

two_headers :
    headers_from_file parsers (some file)
    ≡ (some (codes "host", codes "b"), (codes "x", codes "1") ∷ [])
unfolding headers_from_file split_once_char trim
two_headers = refl

headers_from_file_lem_example :
    headers_from_file parsers (some file)
    ≡ (last_of parsers (hosts parsers (parsed parsers file)), plain parsers (parsed parsers file))
headers_from_file_lem_example = headers_from_file_lem parsers file
