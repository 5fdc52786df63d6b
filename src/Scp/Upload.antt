-- ===== src/Scp/Upload.antt =====
-- wstunnel/src/protocols/ssh/scp.rs: the headers of SCP, the answers to them, and an upload. A file or a
-- directory is a tree with the names and the bytes that the file system gives.
use wstunnel.Prelude.{
  ℕ, ◌^◌, Bool, true, false, Option, none, some, and_then, List, [], ◌∷◌, ◌++◌, length, drop, Text,
  codes, split_once_char, parse_uint, to_decimal, ◌==◌, ◌||◌, ◌&&◌, not, if◌then◌else◌,
}
use mathlib.Core.Option
use mathlib.Core.List.{reverse}
use wstunnel.Cli.{trim_start_char}
use wstunnel.Scp.{ChannelMsg, data_msg, eof, close, other}

unfoldable pub file_header : ℕ → Text → Text
unfolding to_decimal
file_header size name = (codes "C0644" ++ (b' ' ∷ to_decimal size ++ (b' ' ∷ name))) ++ (10 ∷ [])

unfoldable pub dir_header : Text → Text
dir_header name = (codes "D0755" ++ (b' ' ∷ codes "0" ++ (b' ' ∷ name))) ++ (10 ∷ [])

-- `trim_end_matches` by one character.
unfoldable pub trim_end_char : ℕ → Text → Text
unfolding trim_start_char
trim_end_char d s = reverse (trim_start_char d (reverse s))

-- The size and the name; `none` is an error. `from_utf8` reads the bytes.
unfoldable pub parse_c_header : (List ℕ → Option Text) → List ℕ → Option (ℕ × Text)
unfolding trim_end_char
parse_c_header from_utf8 buf = and_then (from_utf8 buf) λ line.
    and_then (split_once_char b' ' (drop 1 (trim_end_char 10 line))) λ (mode, rest).
      and_then (split_once_char b' ' rest)
        λ (size, name). Option.map (λ n. (n, name)) (parse_uint (2 ^ 64) size)

-- The answer to a message, with what is left of the channel: 0 and a warning are fine.
unfoldable pub recv_response : List ChannelMsg → Option (List ChannelMsg)
recv_response [] = none
recv_response (data_msg [] ∷ ms) = recv_response ms
recv_response (data_msg (b ∷ d) ∷ ms) = if b == 0 || b == 1 then some ms else none
recv_response (eof ∷ ms) = none
recv_response (close ∷ ms) = none
recv_response (other ∷ ms) = recv_response ms

-- What was sent, and what is left of the channel, `none` after an error.
abbrev pub Sending : Type 0
Sending = List (List ℕ) × Option (List ChannelMsg)

-- `channel.data`s, then an answer.
unfoldable pub send : List (List ℕ) → Sending → Sending
unfolding recv_response
send data_sent (sent, none) = (sent, none)
send data_sent (sent, some ms) = (sent ++ data_sent, recv_response ms)

mutual
  pub data Node : Type 0 where
    file : Text → List ℕ → Node
    dir : Text → Nodes → Node

  pub data Nodes : Type 0 where
    no_more : Nodes
    and_more : Node → Nodes → Nodes

module _ (encode : Text → List ℕ) where
  unfoldable pub upload_file : Text → List ℕ → Sending → Sending
  unfolding send file_header
  upload_file name content s =
      send (content ∷ (0 ∷ []) ∷ []) (send (encode (file_header (length content) name) ∷ []) s)

  unfoldable mutual
    pub upload_node : Node → Sending → Sending
    upload_node (file name content) s = upload_file name content s
    upload_node (dir name nodes) s =
        send (encode (codes "E" ++ (10 ∷ [])) ∷ [])
          (upload_nodes nodes (send (encode (dir_header name) ∷ []) s))

    pub upload_nodes : Nodes → Sending → Sending
    upload_nodes no_more s = s
    upload_nodes (and_more node nodes) s = upload_nodes nodes (upload_node node s)

  abbrev pub is_dir : Node → Bool
  is_dir (file name content) = false
  is_dir (dir name nodes) = true

  -- The remote is ready first; a directory needs the option for it.
  unfoldable pub scp_upload : Node → Bool → List ChannelMsg → Sending
  unfolding upload_node recv_response
  scp_upload node recursive ms =
      let ready = recv_response ms in
      if is_dir node && not recursive then ([], none) else upload_node node ([], ready)
