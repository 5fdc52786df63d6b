-- ===== src/Scp/Ends.antt =====
-- A download ends.
use wstunnel.Prelude.{
  ℕ, zero, suc, ◌-◌, ◌%◌, ◌^◌, min, ◌≤◌, ◌<◌, Bool, true, false, Option, none, some, List, [], ◌∷◌,
  ◌++◌, length, take, drop, Text, ◌==◌, arith, if◌then◌else◌,
}
use wstunnel.Scp.{
  ChannelMsg, recv_data, Fetched, fetched, channel_closed, write_failed, out_of_fuel, fetch,
  trailer, download_file_data,
}
use wstunnel.Scp.Download.{Received, recv_data-Received}
use wstunnel.Scp.Upload.{parse_c_header}
use wstunnel.Scp.Session.{
  PathNames, Download, Downloaded, done, failed, panicked, no_fuel, Turn, takes_file, goes_on,
  stops, panics, on_file, on_dir, pop, on_message, Rest, taken, turned, received, download_loop,
  scp_download,
}

-- What is left is no more than this, and the fuel was enough.
abbrev Short : ℕ → Fetched → Type 0
Short n (fetched ms written buf) = length ms ≤ n
Short n channel_closed = Unit
Short n write_failed = Unit
Short n out_of_fuel = ⊥

Short-mono : (m n : ℕ) (f : Fetched) → m ≤ n → Short m f → Short n f
Short-mono m n (fetched ms written buf) le h = omega (arith, le, h)
Short-mono m n channel_closed le h = tt
Short-mono m n write_failed le h = tt
Short-mono m n out_of_fuel le h = h

Short-cases :
    (n : ℕ) (b : Bool) (x y : Fetched)
    → Short n x
    → Short n y
    → Short n (elim b [ true ↦ x | false ↦ y ])
Short-cases n true x y hx hy = hx
Short-cases n false x y hx hy = hy

recv_data-length : (ms : List ChannelMsg) (buf : List ℕ) → length (recv_data ms buf).1 ≤ length ms
unfolding recv_data
recv_data-length [] buf = omega arith
recv_data-length (ChannelMsg.data_msg d ∷ ms) buf = omega arith
recv_data-length (ChannelMsg.eof ∷ ms) buf = omega arith
recv_data-length (ChannelMsg.close ∷ ms) buf = omega arith
recv_data-length (ChannelMsg.other ∷ ms) buf = omega (arith, recv_data-length ms buf)

trailer-length : (ms : List ChannelMsg) (buf : List ℕ) → length (trailer ms buf).0 ≤ length ms
unfolding trailer
trailer-length ms [] = recv_data-length ms []
trailer-length ms (b ∷ buf) = omega arith

module _ (usize_bits : ℕ) (writes : List ℕ → List ℕ → Bool) where
  -- An answer of the channel, with enough fuel for the rest.
  fetch_more :
      (fuel remaining : ℕ) (ms : List ChannelMsg) (written : List ℕ)
      (r : Bool × List ChannelMsg × List ℕ)
      → Received ms r
      → length ms < suc fuel
      → ((ms : List ChannelMsg) (remaining : ℕ) (written buf : List ℕ)
          → length ms < fuel
          → Short (length ms) (fetch usize_bits writes fuel ms remaining written buf))
      → Short (length ms) (
          let n = min (remaining % 2 ^ usize_bits) (length r.2) in
          elim r.0 as (λ x. Fetched) [
            | false ↦ channel_closed
            | true ↦ elim (writes written (take n r.2)) as (λ x. Fetched) [
              | false ↦ write_failed
              | true ↦
                  fetch usize_bits writes fuel r.1
                    (remaining - n)
                    (written ++ take n r.2)
                    (drop n r.2)
            ]
          ])
  fetch_more fuel remaining ms written (false, rest, got) h enough more = tt
  fetch_more fuel remaining ms written (true, rest, got) (e, short) enough more =
      let n = min (remaining % 2 ^ usize_bits) (length got) in
      Short-cases (length ms) (writes written (take n got))
        (fetch usize_bits writes fuel rest (remaining - n) (written ++ take n got) (drop n got))
        write_failed
        (Short-mono (length rest) (length ms) _ (omega (arith, short)) (
          more rest (remaining - n) (written ++ take n got) (drop n got)
            (omega (arith, short, enough))))
        tt

  fetch-Short :
      (fuel : ℕ) (ms : List ChannelMsg) (remaining : ℕ) (written buf : List ℕ)
      → length ms < fuel
      → Short (length ms) (fetch usize_bits writes fuel ms remaining written buf)
  unfolding fetch
  fetch-Short zero ms remaining written buf enough = absurd (omega (arith, enough))
  fetch-Short (suc fuel) ms remaining written buf enough =
      Short-cases (length ms) (remaining == 0) (fetched ms written buf) _ (omega arith) (
        fetch_more fuel remaining ms written (recv_data ms []) (recv_data-Received ms) enough
          (fetch-Short fuel))

  with_trailer-Short :
      (n : ℕ) (f : Fetched)
      → Short n f
      → Short n (elim f [
        | fetched ms' written buf' ↦ let r = trailer ms' buf' in fetched r.0 written r.1
        | channel_closed ↦ channel_closed
        | write_failed ↦ write_failed
        | out_of_fuel ↦ out_of_fuel
      ])
  with_trailer-Short n (fetched ms written buf) h = omega (arith, h, trailer-length ms buf)
  with_trailer-Short n channel_closed h = tt
  with_trailer-Short n write_failed h = tt
  with_trailer-Short n out_of_fuel h = h

  download_file_data-Short :
      (ms : List ChannelMsg) (size : ℕ)
      → Short (length ms) (download_file_data usize_bits writes ms size [])
  unfolding download_file_data
  download_file_data-Short ms size =
      with_trailer-Short (length ms) (fetch usize_bits writes (suc (length ms)) ms size [] [])
        (fetch-Short (suc (length ms)) ms size [] [] (omega arith))

-- The download ends, and without a panic.
abbrev pub Ends : Downloaded → Type 0
Ends (done s) = Unit
Ends failed = Unit
Ends panicked = ⊥
Ends no_fuel = ⊥

abbrev HasDir : List PathNames → Type 0
HasDir [] = ⊥
HasDir (dir ∷ dirs) = Unit

-- From a number of messages on, the loop ends.
abbrev EndsFrom : ℕ → Rest → Type 0
EndsFrom n rest =
    (ms : List ChannelMsg) (s : Download) → length ms < n → HasDir s.dir_stack → Ends (rest ms s)

-- What a message asks for is possible, and leaves a directory open.
abbrev Fine : Turn → Type 0
Fine (takes_file path size) = Unit
Fine (goes_on s) = HasDir s.dir_stack
Fine stops = Unit
Fine panics = ⊥

Fine-if : (b : Bool) (x y : Turn) → Fine x → Fine y → Fine (if b then x else y)
Fine-if true x y hx hy = hx
Fine-if false x y hx hy = hy

on_file-Fine : (dirs : List PathNames) (o : Option (ℕ × Text)) → HasDir dirs → Fine (on_file dirs o)
unfolding on_file
on_file-Fine dirs none h = tt
on_file-Fine [] (some (size, name)) h = absurd h
on_file-Fine (dir ∷ dirs) (some (size, name)) h = tt

on_dir-Fine :
    (creates : PathNames → Bool) (s : Download) (dirs : List PathNames) (o : Option (ℕ × Text))
    → HasDir dirs
    → Fine (on_dir creates s dirs o)
unfolding on_dir
on_dir-Fine creates s dirs none h = tt
on_dir-Fine creates s [] (some (size, name)) h = absurd h
on_dir-Fine creates s (dir ∷ dirs) (some (size, name)) h =
    Fine-if (creates (name ∷ dir)) _ stops tt tt

pop-HasDir : (dirs : List PathNames) → HasDir dirs → HasDir (pop dirs)
unfolding pop
pop-HasDir [] h = h
pop-HasDir (dir ∷ []) h = tt
pop-HasDir (dir ∷ outer ∷ dirs) h = tt

module _ (from_utf8 : List ℕ → Option Text) (creates : PathNames → Bool) (usize_bits : ℕ)
    (writes : List ℕ → List ℕ → Bool) where
  on_message-Fine :
      (s : Download) (b : ℕ) (buf : List ℕ)
      → HasDir s.dir_stack
      → Fine (on_message from_utf8 creates s b buf)
  unfolding on_message
  on_message-Fine s b buf h =
      let header = parse_c_header from_utf8 (b ∷ buf) in
      Fine-if (b == b'C') _ _ (on_file-Fine s.dir_stack header h) (
        Fine-if (b == b'D') _ _ (on_dir-Fine creates s s.dir_stack header h)
          (Fine-if (b == b'E') _ _ (pop-HasDir s.dir_stack h) (Fine-if (b == 1) _ _ h tt)))

  taken-Ends :
      (n : ℕ) (rest : Rest) (s : Download) (path : PathNames) (f : Fetched)
      → EndsFrom (suc n) rest
      → HasDir s.dir_stack
      → Short n f
      → Ends (taken rest s path f)
  unfolding taken
  taken-Ends n rest s path (fetched ms written buf) ends h short =
      ends ms _ (omega (arith, short)) h
  taken-Ends n rest s path channel_closed ends h short = tt
  taken-Ends n rest s path write_failed ends h short = tt
  taken-Ends n rest s path out_of_fuel ends h short = short

  turned-Ends :
      (rest : Rest) (ms : List ChannelMsg) (s : Download) (t : Turn)
      → EndsFrom (suc (length ms)) rest
      → HasDir s.dir_stack
      → Fine t
      → Ends (turned from_utf8 creates usize_bits writes rest ms s t)
  unfolding turned
  turned-Ends rest ms s (takes_file path size) ends h fine =
      taken-Ends (length ms) rest s path (download_file_data usize_bits writes ms size []) ends h
        (download_file_data-Short usize_bits writes ms size)
  turned-Ends rest ms s (goes_on s') ends h fine = ends ms s' (omega arith) fine
  turned-Ends rest ms s stops ends h fine = tt
  turned-Ends rest ms s panics ends h fine = fine

  received-Ends :
      (rest : Rest) (ms : List ChannelMsg) (r : Bool × List ChannelMsg × List ℕ) (s : Download)
      → Received ms r
      → EndsFrom (length ms) rest
      → HasDir s.dir_stack
      → Ends (received from_utf8 creates usize_bits writes rest r s)
  unfolding received
  received-Ends rest ms (false, ms', buf) s got ends h = tt
  received-Ends rest ms (true, ms', []) s (e, short) ends h = ends ms' s short h
  received-Ends rest ms (true, ms', b ∷ buf) s (e, short) ends h =
      turned-Ends rest ms' s (on_message from_utf8 creates s b buf)
        (λ ms s small. ends ms s (omega (arith, small, short))) h (on_message-Fine s b buf h)

  download_loop-Ends :
      (fuel : ℕ) → EndsFrom fuel (download_loop from_utf8 creates usize_bits writes fuel)
  unfolding download_loop
  download_loop-Ends zero ms s enough h = absurd (omega (arith, enough))
  download_loop-Ends (suc fuel) ms s enough h =
      received-Ends (download_loop from_utf8 creates usize_bits writes fuel) ms (recv_data ms []) s
        (recv_data-Received ms)
        (λ ms' s' small. download_loop-Ends fuel ms' s' (omega (arith, small, enough))) h

  -- Whatever the channel gives, whichever directories can be made and writes succeed, a download ends, with
  -- what it made or an error: the fuel is enough, and the stack of directories is never empty where its last
  -- one is taken.
  pub scp_download-Ends :
      (ms : List ChannelMsg) → Ends (scp_download from_utf8 creates usize_bits writes ms)
  unfolding scp_download
  scp_download-Ends ms = download_loop-Ends (suc (length ms)) ms _ (omega arith) tt
