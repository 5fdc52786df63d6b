-- ===== src/Tests/Scp.antt =====
-- A file of three bytes that comes in two messages, with its trailer.
use wstunnel.Prelude.{
  ℕ, ◌≡◌, refl, ◌<◌, ◌⊎◌, true, List, [], ◌∷◌, ◌++◌, length, some, codes, arith, to_decimal,
  parse_uint, split_once_char,
}
use wstunnel.Scp.{ChannelMsg, data_msg, other, fetched, channel_closed, download_file_data}
use wstunnel.Scp.Upload.{
  parse_c_header, file_header, dir_header, scp_upload, upload_file, upload_node, file, dir, no_more,
  and_more, send, recv_response,
}
use wstunnel.Scp.Session.{done, scp_download}
use wstunnel.Scp.Ends.{Ends, scp_download-Ends}
use wstunnel.Scp.Header.{parse_c_header-file_header}
use wstunnel.Scp.Download.{stream, download_file_data_exact}

abbrev messages : List ChannelMsg
messages = data_msg (1 ∷ 2 ∷ []) ∷ other ∷ data_msg (3 ∷ 0 ∷ 67 ∷ []) ∷ []

three_bytes :
    download_file_data 64 (λ old more. true) messages 3 [] ≡ fetched [] (1 ∷ 2 ∷ 3 ∷ []) (67 ∷ [])
unfolding download_file_data
three_bytes = refl

too_few : download_file_data 64 (λ old more. true) messages 6 [] ≡ channel_closed
unfolding download_file_data
too_few = refl

download_file_data_exact_example :
    ((rest : List ChannelMsg) × (tail : List ℕ) × (buf : List ℕ) × (written : List ℕ)
      × (download_file_data 64 (λ old more. true) messages 3 [] ≡ fetched rest written buf)
      × (length written ≡ 3)
      × (stream messages ≡ written ++ tail))
    ⊎ ((download_file_data 64 (λ old more. true) messages 3 [] ≡ channel_closed)
        × (length (stream messages) < 3))
download_file_data_exact_example =
    download_file_data_exact 64 (λ old more. true) (λ old more. refl) messages 3 (omega arith)

abbrev small_file : ℕ
small_file = 17

parse_c_header-file_header_example :
    parse_c_header (λ b. some b) (file_header small_file (codes "a b")) ≡ some (17, codes "a b")
parse_c_header-file_header_example =
    parse_c_header-file_header (λ b. some b) (file_header small_file (codes "a b")) small_file
      (codes "a b") (omega arith) (λ e. cc, (λ e. cc, (λ e. cc, tt))) refl

-- The remote refuses the second file of a directory, whose bytes are not sent.
refused :
    (scp_upload
      (λ t. t)
      (dir
        (codes "d")
        (and_more (file (codes "a") (7 ∷ [])) (and_more (file (codes "b") (8 ∷ [])) no_more)))
      true
      (data_msg (0 ∷ [])
        ∷ data_msg (0 ∷ [])
        ∷ data_msg (0 ∷ [])
        ∷ data_msg (1 ∷ [])
        ∷ data_msg (2 ∷ [])
        ∷ [])).0
    ≡ dir_header (codes "d")
      ∷ file_header 1 (codes "a")
      ∷ (7 ∷ [])
      ∷ (0 ∷ [])
      ∷ file_header 1 (codes "b")
      ∷ []
unfolding scp_upload upload_file file_header dir_header to_decimal send upload_node recv_response
refused = refl

abbrev session : List ChannelMsg
session =
    data_msg (codes "D0755 0 d\n")
    ∷ data_msg (codes "C0644 3 a\n")
    ∷ data_msg (1 ∷ 2 ∷ 3 ∷ 0 ∷ [])
    ∷ data_msg (codes "E\n")
    ∷ []

scp_download-Ends_example :
    Ends (scp_download (λ b. some b) (λ path. true) 64 (λ old more. true) session)
scp_download-Ends_example =
    scp_download-Ends (λ b. some b) (λ path. true) 64 (λ old more. true) session

one_file :
    scp_download (λ b. some b) (λ path. true) 64 (λ old more. true) session
    ≡ done (record {
      dir_stack = [] ∷ [];
      files = (codes "a" ∷ codes "d" ∷ [], 1 ∷ 2 ∷ 3 ∷ []) ∷ [];
      dirs = (codes "d" ∷ []) ∷ [];
    })
unfolding scp_download parse_c_header parse_uint split_once_char download_file_data
one_file = refl

-- A name of the remote is taken as it is.
outside : parse_c_header (λ b. some b) (codes "C0644 3 ../../a\n") ≡ some (3, codes "../../a")
unfolding parse_c_header parse_uint split_once_char
outside = refl
