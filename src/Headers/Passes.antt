-- ===== src/Headers/Passes.antt =====
-- The single pass over the file and the two questions that it answers.
use wstunnel.Prelude.{
  ◌≡◌, refl, ap, ◌∙◌, inl, inr, not, Option, none, some, List, [], ◌∷◌, Text, filter_by, or_else,
  Option-cases, Bool-cases,
}
use wstunnel.Headers.{HeaderParsers, header_of, collect_headers, headers_from_file}

module _ {H V : Type 0} (parsers : HeaderParsers H V) where
  -- The headers of the lines that are well formed.
  abbrev pub parsed : List (Option Text) → List (H × V)
  parsed [] = []
  parsed (line ∷ lines) = elim (header_of parsers line) [
    | none ↦ parsed lines
    | some header ↦ header ∷ parsed lines
  ]

  abbrev pub last_of : List (H × V) → Option (H × V)
  last_of [] = none
  last_of (x ∷ xs) = or_else (last_of xs) (some x)

  abbrev pub hosts : List (H × V) → List (H × V)
  hosts = filter_by (λ (h : H × V). parsers.is_host h.0)

  abbrev pub plain : List (H × V) → List (H × V)
  plain = filter_by (λ (h : H × V). not (parsers.is_host h.0))

  or_else-none : {A : Type 0} (o : Option A) → or_else o none ≡ o
  or_else-none none = refl
  or_else-none (some a) = refl

  or_else_assoc :
      {A : Type 0} (o p q : Option A) → or_else o (or_else p q) ≡ or_else (or_else o p) q
  or_else_assoc none p q = refl
  or_else_assoc (some a) p q = refl

  collect_headers_lem :
      (lines : List (Option Text)) (host : Option (H × V))
      → collect_headers parsers lines host
        ≡ (or_else (last_of (hosts (parsed lines))) host, plain (parsed lines))
  unfolding collect_headers
  collect_headers_lem [] host = refl
  collect_headers_lem (line ∷ lines) host = elim (Option-cases (header_of parsers line)) [
    | inl n ↦ rw (collect_headers, parsed, n) (collect_headers_lem lines host)
    | inr (header, h) ↦ elim (Bool-cases (parsers.is_host header.0)) [
      | inl y ↦
          rw (collect_headers, parsed, h, y)
            (collect_headers_lem lines (some header)
              ∙ ap (λ o. (o, plain (parsed lines)))
                  (or_else_assoc (last_of (hosts (parsed lines))) (some header) host))
      | inr m ↦
          rw (collect_headers, parsed, h, m)
            (ap (λ (r : Option (H × V) × List (H × V)). (r.0, header ∷ r.1))
              (collect_headers_lem lines host))
    ]
  ]

  -- The Host header is the last one of the file, and the others are all other well formed headers, in
  -- order.
  pub headers_from_file_lem :
      (lines : List (Option Text))
      → headers_from_file parsers (some lines)
        ≡ (last_of (hosts (parsed lines)), plain (parsed lines))
  unfolding headers_from_file
  headers_from_file_lem lines =
      collect_headers_lem lines none
      ∙ ap (λ o. (o, plain (parsed lines))) (or_else-none (last_of (hosts (parsed lines))))
