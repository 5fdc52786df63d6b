-- ===== src/Socks5/Reply.antt =====
-- wstunnel/src/protocols/socks5/tcp_server.rs: new_reply, and the reader of RFC 1928 for it.
use wstunnel.Prelude.{
  ℕ, ◌+◌, ◌*◌, ◌/◌, ◌%◌, ◌^◌, ◌<◌, ◌≡◌, refl, Option, none, some, List, [], ◌∷◌, ◌++◌, arith, ◌==◌,
  ◌&&◌, if◌then◌else◌,
}
use wstunnel.Net.{SocketAddr, sock_v4, sock_v6}

-- `to_be_bytes` of a number of two, four and sixteen bytes, and `octets`.
unfoldable pub be_bytes2 : ℕ → List ℕ
be_bytes2 n = n / 2 ^ 8 % 2 ^ 8 ∷ n % 2 ^ 8 ∷ []

unfoldable pub be_bytes4 : ℕ → List ℕ
be_bytes4 n = be_bytes2 (n / 2 ^ 16) ++ be_bytes2 (n % 2 ^ 16)

unfoldable pub be_bytes16 : ℕ → List ℕ
be_bytes16 n =
    be_bytes4 (n / 2 ^ 96)
    ++ (be_bytes4 (n / 2 ^ 64 % 2 ^ 32)
        ++ (be_bytes4 (n / 2 ^ 32 % 2 ^ 32) ++ be_bytes4 (n % 2 ^ 32)))

-- The version, the code of the result, a reserved byte and the type of the address, then the address
-- and its port.
unfoldable pub new_reply : ℕ → SocketAddr → List ℕ
new_reply error (sock_v4 ip port) = 5 ∷ error ∷ 0 ∷ 1 ∷ be_bytes4 ip ++ be_bytes2 port
new_reply error (sock_v6 ip port flow scope) = 5 ∷ error ∷ 0 ∷ 4 ∷ be_bytes16 ip ++ be_bytes2 port

-- What a client reads in a reply: the code and the address, an IPv6 one without flow and scope.
abbrev pub word : ℕ → ℕ → ℕ → ℕ → ℕ
word a b c d = a * 2 ^ 24 + b * 2 ^ 16 + c * 2 ^ 8 + d

read_v4 : ℕ → List ℕ → Option (ℕ × SocketAddr)
read_v4 error (a ∷ b ∷ c ∷ d ∷ p ∷ q ∷ []) = some (error, sock_v4 (word a b c d) (p * 2 ^ 8 + q))
read_v4 error _ = none

words : ℕ → ℕ → ℕ → ℕ → ℕ
words a b c d = a * 2 ^ 96 + b * 2 ^ 64 + c * 2 ^ 32 + d

read_v6 : ℕ → List ℕ → Option (ℕ × SocketAddr)
unfolding words
read_v6 error (a ∷ b ∷ c ∷ d ∷ e ∷ f ∷ g ∷ h ∷ i ∷ j ∷ k ∷ l ∷ m ∷ n ∷ o ∷ r ∷ p ∷ q ∷ []) = some (
  error,
  sock_v6 (words (word a b c d) (word e f g h) (word i j k l) (word m n o r)) (p * 2 ^ 8 + q) 0 0,
)
read_v6 error _ = none

pub read_reply : List ℕ → Option (ℕ × SocketAddr)
unfolding read_v4 read_v6
read_reply (version ∷ error ∷ reserved ∷ kind ∷ rest) =
    if version == 5 && kind == 1
    then read_v4 error rest
    else if version == 5 && kind == 4
    then read_v6 error rest
    else none
read_reply _ = none

-- An address as a reply carries it.
abbrev pub carried : SocketAddr → SocketAddr
carried (sock_v4 a port) = sock_v4 a port
carried (sock_v6 a port flow scope) = sock_v6 a port 0 0

abbrev pub IsAddr : SocketAddr → Type 0
IsAddr (sock_v4 a port) = (a < 2 ^ 32) × (port < 2 ^ 16)
IsAddr (sock_v6 a port flow scope) = (a < 2 ^ 128) × (port < 2 ^ 16)

word_lem :
    (n : ℕ)
    → n < 2 ^ 32
    → word
        (n / 2 ^ 16 / 2 ^ 8 % 2 ^ 8)
        (n / 2 ^ 16 % 2 ^ 8)
        (n % 2 ^ 16 / 2 ^ 8 % 2 ^ 8)
        (n % 2 ^ 16 % 2 ^ 8)
      ≡ n
word_lem n h = omega arith

port_lem : (n : ℕ) → n < 2 ^ 16 → n / 2 ^ 8 % 2 ^ 8 * 2 ^ 8 + n % 2 ^ 8 ≡ n
port_lem n h = omega arith

words_lem :
    (n : ℕ)
    → n < 2 ^ 128
    → words (n / 2 ^ 96) (n / 2 ^ 64 % 2 ^ 32) (n / 2 ^ 32 % 2 ^ 32) (n % 2 ^ 32) ≡ n
unfolding words
words_lem n h = omega arith

-- A client reads in a reply the code and the address that it was made of, an IPv6 address without its
-- flow and scope.
pub read_reply-new_reply :
    (error : ℕ) (addr : SocketAddr)
    → IsAddr addr
    → read_reply (new_reply error addr) ≡ some (error, carried addr)
unfolding read_reply read_v4 read_v6 new_reply be_bytes2 be_bytes4 be_bytes16
read_reply-new_reply error (sock_v4 a port) (ha, hp) = rw (word_lem a ha, port_lem port hp) refl
read_reply-new_reply error (sock_v6 a port flow scope) (ha, hp) =
    rw
      (
        word_lem (a / 2 ^ 96) (omega (arith, ha)),
        word_lem (a / 2 ^ 64 % 2 ^ 32) (omega arith),
        word_lem (a / 2 ^ 32 % 2 ^ 32) (omega arith),
        word_lem (a % 2 ^ 32) (omega arith),
        words_lem a ha,
        port_lem port hp,
      )
      refl
