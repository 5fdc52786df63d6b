-- ===== src/Scp.antt =====
-- wstunnel/src/protocols/ssh/scp.rs: the messages of the SSH channel, and a file that is downloaded.
pub mod Download
pub mod Upload
pub mod Header
pub mod Session
pub mod Ends
use wstunnel.Prelude.{
  ℕ, zero, suc, ◌-◌, ◌%◌, ◌^◌, min, Bool, true, false, List, [], ◌∷◌, ◌++◌, length, take, drop,
  ◌==◌, is_empty, if◌then◌else◌,
}

-- What the channel gives; its end is `None`.
pub data ChannelMsg : Type 0 where
  data_msg : List ℕ → ChannelMsg
  eof close other : ChannelMsg

-- `recv_data`: whether data came, what is left of the channel, and the buffer with that data.
unfoldable pub recv_data : List ChannelMsg → List ℕ → Bool × List ChannelMsg × List ℕ
recv_data [] buf = (false, [], buf)
recv_data (data_msg d ∷ ms) buf = (true, ms, buf ++ d)
recv_data (eof ∷ ms) buf = (false, ms, buf)
recv_data (close ∷ ms) buf = (false, ms, buf)
recv_data (other ∷ ms) buf = recv_data ms buf

-- How the loop of `download_file_data` ends: with the rest of the channel, the bytes of the file and
-- the buffer; with an error; or without fuel.
pub data Fetched : Type 0 where
  fetched : List ChannelMsg → List ℕ → List ℕ → Fetched
  channel_closed : Fetched
  write_failed : Fetched
  out_of_fuel : Fetched

-- `usize_bits` is the width of `usize`, which `remaining as usize` is cut to; `writes` is whether the file
-- takes more bytes after those written.
module _ (usize_bits : ℕ) (writes : List ℕ → List ℕ → Bool) where
  unfoldable pub fetch : ℕ → List ChannelMsg → ℕ → List ℕ → List ℕ → Fetched
  unfolding recv_data
  fetch zero ms remaining written buf = out_of_fuel
  fetch (suc fuel) ms remaining written buf = elim (remaining == 0) [
    | true ↦ fetched ms written buf
    | false ↦
        let r = recv_data ms [] in
        let n = min (remaining % 2 ^ usize_bits) (length r.2) in
        elim r.0 [
          | false ↦ channel_closed
          | true ↦ elim (writes written (take n r.2)) [
            | false ↦ write_failed
            | true ↦ fetch fuel r.1 (remaining - n) (written ++ take n r.2) (drop n r.2)
          ]
        ]
  ]

-- The buffer without a leading 0.
abbrev pub drop_zero : List ℕ → List ℕ
drop_zero [] = []
drop_zero (b ∷ bs) = if b == 0 then bs else b ∷ bs

-- After the file: the byte 0 that ends it, received if the buffer is empty.
unfoldable pub trailer : List ChannelMsg → List ℕ → List ChannelMsg × List ℕ
unfolding recv_data
trailer ms [] = let r = recv_data ms [] in (r.1, drop_zero r.2)
trailer ms (b ∷ bs) = (ms, drop_zero (b ∷ bs))

-- The file, once it is created, and what is left of the channel and of the buffer. One unit of fuel
-- for each message and one more is enough.
unfoldable pub download_file_data :
    ℕ → (List ℕ → List ℕ → Bool) → List ChannelMsg → ℕ → List ℕ → Fetched
unfolding fetch trailer
download_file_data usize_bits writes ms size buf =
    elim (fetch usize_bits writes (suc (length ms)) ms size [] buf) [
      | fetched ms' written buf' ↦ let r = trailer ms' buf' in fetched r.0 written r.1
      | channel_closed ↦ channel_closed
      | write_failed ↦ write_failed
      | out_of_fuel ↦ out_of_fuel
    ]
