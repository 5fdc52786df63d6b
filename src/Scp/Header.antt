-- ===== src/Scp/Header.antt =====
-- A header that is sent is read as it was meant.
use wstunnel.Prelude.{
  ℕ, ◌^◌, ◌<◌, ◌≡◌, ◌≢◌, refl, sym, ap, ◌∙◌, Option, some, List, [], ◌∷◌, ◌++◌, All-append, Text,
  codes, Lacks, split_once_char_lem, parse_uint, to_decimal, parse_uint-to_decimal,
  to_decimal-Lacks, reverse_aux-Lacks, arith, ==_self,
}
use mathlib.Core.List.{reverse, reverse-append, reverse-reverse}
use wstunnel.Cli.{trim_start_char}
use wstunnel.Scp.Upload.{file_header, dir_header, trim_end_char, parse_c_header}

trim_none : (d : ℕ) (s : Text) → Lacks d s → trim_start_char d s ≡ s
unfolding trim_start_char
trim_none d [] h = refl
trim_none d (c ∷ s) (n, h) = ground arith

trim_end_lem : (d : ℕ) (s : Text) → Lacks d s → trim_end_char d (s ++ (d ∷ [])) ≡ s
unfolding trim_end_char trim_start_char
trim_end_lem d s h =
    ap (λ t. reverse (trim_start_char d t)) (reverse-append s (d ∷ []))
    ∙ rw (==_self d)
        (ap reverse (trim_none d (reverse s) (reverse_aux-Lacks d s [] h tt)) ∙ reverse-reverse s)

-- A letter, a mode, a number and a name, with a space between each two.
line_of : ℕ → Text → Text → Text → Text
line_of c mode size name = c ∷ mode ++ (b' ' ∷ size ++ (b' ' ∷ name))

Lacks-line_of :
    (k c : ℕ) (mode size name : Text)
    → c ≢ k
    → k ≢ b' '
    → Lacks k mode
    → Lacks k size
    → Lacks k name
    → Lacks k (line_of c mode size name)
unfolding line_of
Lacks-line_of k c mode size name n m h i j = (
  n,
  All-append (λ x. x ≢ k) mode (b' ' ∷ size ++ (b' ' ∷ name)) h
      (λ e. m (sym e), All-append (λ x. x ≢ k) size (b' ' ∷ name) i (λ e. m (sym e), j)),
)

module _ (from_utf8 : List ℕ → Option Text) (buf : List ℕ) where
  parse_line :
      (c : ℕ) (mode size name : Text) (n : ℕ)
      → Lacks b' ' mode
      → Lacks b' ' size
      → parse_uint (2 ^ 64) size ≡ some n
      → Lacks 10 (line_of c mode size name)
      → from_utf8 buf ≡ some (line_of c mode size name ++ (10 ∷ []))
      → parse_c_header from_utf8 buf ≡ some (n, name)
  unfolding parse_c_header line_of
  parse_line c mode size name n hm hs reads ends bytes =
      rw
        (
          bytes,
          trim_end_lem 10 (c ∷ mode ++ (b' ' ∷ size ++ (b' ' ∷ name))) ends,
          split_once_char_lem b' ' mode (size ++ (b' ' ∷ name)) hm,
          split_once_char_lem b' ' size name hs,
          reads,
        )
        refl

  -- A message that is the header of a file, with a size below 2^64 and a name without a line break, is
  -- read as that size and that name, spaces of the name included.
  pub parse_c_header-file_header :
      (size : ℕ) (name : Text)
      → size < 2 ^ 64
      → Lacks 10 name
      → from_utf8 buf ≡ some (file_header size name)
      → parse_c_header from_utf8 buf ≡ some (size, name)
  unfolding file_header line_of
  parse_c_header-file_header size name fits one_line bytes =
      let spaceless : Lacks b' ' (codes "0644") = (λ e. cc, (λ e. cc, (λ e. cc, (λ e. cc, tt)))) in
      let unbroken : Lacks 10 (codes "0644") = (λ e. cc, (λ e. cc, (λ e. cc, (λ e. cc, tt)))) in
      parse_line b'C' (codes "0644") (to_decimal size) name size spaceless
        (to_decimal-Lacks b' ' size (omega arith)) (parse_uint-to_decimal (2 ^ 64) size fits)
        (Lacks-line_of 10 b'C' (codes "0644") (to_decimal size) name (λ e. cc) (λ e. cc) unbroken
          (to_decimal-Lacks 10 size (omega arith)) one_line)
        bytes

  dir_header_lem :
      (name : Text)
      → Lacks 10 name
      → from_utf8 buf ≡ some (dir_header name)
      → parse_c_header from_utf8 buf ≡ some (0, name)
  unfolding dir_header line_of parse_uint
  dir_header_lem name one_line bytes =
      let spaceless : Lacks b' ' (codes "0755") = (λ e. cc, (λ e. cc, (λ e. cc, (λ e. cc, tt)))) in
      let unbroken : Lacks 10 (codes "0755") = (λ e. cc, (λ e. cc, (λ e. cc, (λ e. cc, tt)))) in
      parse_line b'D' (codes "0755") (codes "0") name 0 spaceless (λ e. cc, tt) refl
        (Lacks-line_of 10 b'D' (codes "0755") (codes "0") name (λ e. cc) (λ e. cc) unbroken
          (λ e. cc, tt) one_line)
        bytes
