-- ===== src/Scp/Download.antt =====
-- A download writes the first bytes of the channel, however they are cut into messages.
use wstunnel.Prelude.{
  ℕ, zero, suc, ◌+◌, ◌-◌, ◌%◌, ◌^◌, ◌≤◌, ◌<◌, ◌≡◌, refl, sym, ap, ◌∙◌, ◌⊎◌, inl, inr, min, Bool,
  true, false, List, [], ◌∷◌, ◌++◌, length, take, drop, length-take, take-append-drop, ◌==◌, ==_iff,
  arith, Bool-cases,
}
use native.Mathlib.Nat.{mod-eq_of_lt}
use mathlib.Core.Path.{subst}
use mathlib.Core.List.{append_assoc}
use wstunnel.Scp.{
  ChannelMsg, data_msg, eof, close, other, recv_data, Fetched, fetched, channel_closed,
  write_failed, out_of_fuel, fetch, trailer, download_file_data,
}

-- The bytes that the channel carries before its end.
abbrev pub stream : List ChannelMsg → List ℕ
stream [] = []
stream (data_msg d ∷ ms) = d ++ stream ms
stream (eof ∷ ms) = []
stream (close ∷ ms) = []
stream (other ∷ ms) = stream ms

-- What `recv_data` takes from the channel.
abbrev pub Received : List ChannelMsg → Bool × List ChannelMsg × List ℕ → Type 0
Received ms (true, rest, got) = (stream ms ≡ got ++ stream rest) × (length rest < length ms)
Received ms (false, rest, got) = stream ms ≡ []

skipped :
    (ms : List ChannelMsg) (r : Bool × List ChannelMsg × List ℕ)
    → Received ms r
    → Received (other ∷ ms) r
skipped ms (true, rest, got) (e, short) = (e, omega arith)
skipped ms (false, rest, got) e = e

pub recv_data-Received : (ms : List ChannelMsg) → Received ms (recv_data ms [])
unfolding recv_data
recv_data-Received [] = refl
recv_data-Received (data_msg d ∷ ms) = (refl, omega arith)
recv_data-Received (eof ∷ ms) = refl
recv_data-Received (close ∷ ms) = refl
recv_data-Received (other ∷ ms) = skipped ms (recv_data ms []) (recv_data-Received ms)

-- The file has the size announced, and is the first part of all the bytes; the channel closed only
-- if there were fewer.
abbrev pub Downloads : ℕ → List ℕ → Fetched → Type 0
Downloads size all (fetched ms written buf) =
    (length written ≡ size) × (all ≡ written ++ (buf ++ stream ms))
Downloads size all channel_closed = length all < size
Downloads size all write_failed = ⊥
Downloads size all out_of_fuel = ⊥

length-append : (xs ys : List ℕ) → length (xs ++ ys) ≡ length xs + length ys
length-append [] ys = omega arith
length-append (x ∷ xs) ys = omega (arith, length-append xs ys)

drop_all : (n : ℕ) (xs : List ℕ) → length xs ≤ n → drop n xs ≡ []
drop_all zero [] h = refl
drop_all zero (x ∷ xs) h = absurd (omega arith)
drop_all (suc n) [] h = refl
drop_all (suc n) (x ∷ xs) h = drop_all n xs (omega arith)

-- What is cut off `d` goes from the bytes to come to those written.
regroup : (n : ℕ) (w d s : List ℕ) → w ++ (d ++ s) ≡ (w ++ take n d) ++ (drop n d ++ s)
regroup n w d s =
    ap (λ x. w ++ x)
      (ap (λ x. x ++ s) (sym (take-append-drop n d)) ∙ append_assoc (take n d) (drop n d) s)
    ∙ sym (append_assoc w (take n d) (drop n d ++ s))

module _ (usize_bits : ℕ) (writes : List ℕ → List ℕ → Bool)
    (takes : (old new : List ℕ) → writes old new ≡ true) where
  abbrev Runs : ℕ → ℕ → List ℕ → List ChannelMsg → ℕ → List ℕ → List ℕ → Type 0
  Runs fuel size all ms remaining written buf =
      length ms < fuel
      → length written + remaining ≡ size
      → all ≡ written ++ (buf ++ stream ms)
      → (1 ≤ remaining → buf ≡ [])
      → remaining < 2 ^ usize_bits
      → Downloads size all (fetch usize_bits writes fuel ms remaining written buf)

  -- One answer of the channel, while bytes are missing; `cut` is their number as `usize`.
  received :
      (fuel size : ℕ) (all : List ℕ) (ms : List ChannelMsg) (remaining cut : ℕ) (written : List ℕ)
      (r : Bool × List ChannelMsg × List ℕ)
      → Received ms r
      → length ms < suc fuel
      → 1 ≤ remaining
      → remaining < 2 ^ usize_bits
      → cut ≡ remaining
      → length written + remaining ≡ size
      → all ≡ written ++ stream ms
      → ((ms : List ChannelMsg) (remaining : ℕ) (written buf : List ℕ)
          → Runs fuel size all ms remaining written buf)
      → Downloads size all (
          let n = min cut (length r.2) in
          elim r.0 as (λ x. Fetched) [
            | false ↦ channel_closed
            | true ↦ elim (writes written (take n r.2)) as (λ x. Fetched) [
              | false ↦ write_failed
              | true ↦
                  fetch usize_bits writes fuel r.1
                    (remaining - n)
                    (written ++ take n r.2)
                    (drop n r.2)
            ]
          ])
  received fuel size all ms remaining cut written (false, rest, got) h enough missing fits
        same_number sum e more =
      let short = ap length e ∙ length-append written (stream ms) in
      omega (arith, short, ap length h)
  received fuel size all ms remaining cut written (true, rest, got) (same, shorter) enough missing
        fits same_number sum e more =
      let n = min cut (length got) in
      rw (takes written (take n got)) (
        more rest (remaining - n) (written ++ take n got) (drop n got) (omega arith)
          (omega (arith, length-append written (take n got), length-take n got))
          (e ∙ ap (λ x. written ++ x) same ∙ regroup n written got (stream rest))
          (λ left. drop_all n got (omega arith)) (omega (arith, fits)))

  -- A turn of the loop, by whether any byte is missing.
  abbrev attempt :
      ℕ → List ChannelMsg → ℕ → List ℕ → List ℕ → Bool × List ChannelMsg × List ℕ → Bool → Fetched
  attempt fuel ms remaining written buf r full = elim full [
    | true ↦ fetched ms written buf
    | false ↦
        let n = min (remaining % 2 ^ usize_bits) (length r.2) in
        elim r.0 [
          | false ↦ channel_closed
          | true ↦ elim (writes written (take n r.2)) [
            | false ↦ write_failed
            | true ↦
                fetch usize_bits writes fuel r.1 (remaining - n) (written ++ take n r.2)
                  (drop n r.2)
          ]
        ]
  ]

  fetch-Downloads :
      (fuel size : ℕ) (all : List ℕ) (ms : List ChannelMsg) (remaining : ℕ) (written buf : List ℕ)
      → Runs fuel size all ms remaining written buf
  unfolding fetch
  fetch-Downloads zero size all ms remaining written buf enough sum e empty fits =
      absurd (omega arith)
  fetch-Downloads (suc fuel) size all ms remaining written buf enough sum e empty fits =
      let by = λ (b : Bool).
        Downloads size all (attempt fuel ms remaining written buf (recv_data ms []) b) in
      elim (Bool-cases (remaining == 0)) [
        | inl y ↦ subst by (sym y) (omega (arith, (==_iff remaining 0).0 y), e)
        | inr n ↦
            let missing : 1 ≤ remaining = ground arith in
            subst by (sym n) (
              received fuel size all ms remaining (remaining % 2 ^ usize_bits) written
                (recv_data ms []) (recv_data-Received ms) enough missing fits (mod-eq_of_lt fits)
                sum (e ∙ rw (empty missing) refl) (fetch-Downloads fuel size all))
      ]

  abbrev with_trailer : Fetched → Fetched
  with_trailer f = elim f [
    | fetched ms' written buf' ↦ let r = trailer ms' buf' in fetched r.0 written r.1
    | channel_closed ↦ channel_closed
    | write_failed ↦ write_failed
    | out_of_fuel ↦ out_of_fuel
  ]

  abbrev Exact : List ℕ → ℕ → Fetched → Type 0
  Exact all size f =
      ((rest : List ChannelMsg) × (tail : List ℕ) × (buf : List ℕ) × (written : List ℕ) × (f
          ≡ fetched rest written buf)
        × (length written ≡ size)
        × (all ≡ written ++ tail))
      ⊎ ((f ≡ channel_closed) × (length all < size))

  with_trailer-Exact :
      (all : List ℕ) (size : ℕ) (f : Fetched)
      → Downloads size all f
      → Exact all size (with_trailer f)
  with_trailer-Exact all size (fetched ms written buf) (full, e) =
      inl (_, _, _, written, refl, full, e)
  with_trailer-Exact all size channel_closed short = inr (refl, short)
  with_trailer-Exact all size write_failed h = absurd h
  with_trailer-Exact all size out_of_fuel h = absurd h

  -- Where the file takes every byte, a download of `size` bytes, a number that fits the width of `usize`,
  -- writes exactly the first `size` bytes of those that the channel carries before its end, however they
  -- are cut into messages; or it fails because the channel closed, and then it carried fewer.
  pub download_file_data_exact :
      (ms : List ChannelMsg) (size : ℕ)
      → size < 2 ^ usize_bits
      → ((rest : List ChannelMsg) × (tail : List ℕ) × (buf : List ℕ) × (written : List ℕ)
          × (download_file_data usize_bits writes ms size [] ≡ fetched rest written buf)
          × (length written ≡ size)
          × (stream ms ≡ written ++ tail))
        ⊎ ((download_file_data usize_bits writes ms size [] ≡ channel_closed)
            × (length (stream ms) < size))
  unfolding download_file_data
  download_file_data_exact ms size fits =
      with_trailer-Exact (stream ms) size (fetch usize_bits writes (suc (length ms)) ms size [] [])
        (fetch-Downloads (suc (length ms)) size (stream ms) ms size [] [] (omega arith)
          (omega arith) refl (λ missing. refl) fits)
