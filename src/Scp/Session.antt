-- ===== src/Scp/Session.antt =====
-- wstunnel/src/protocols/ssh/scp.rs: the loop of a download, with its stack of directories. A path is the
-- names that `Path::join` puts after that of the destination, the last first.
use wstunnel.Prelude.{
  ℕ, zero, suc, Bool, true, false, Option, none, some, List, [], ◌∷◌, ◌++◌, length, Text, ◌==◌,
  if◌then◌else◌,
}
use wstunnel.Scp.{
  ChannelMsg, recv_data, Fetched, fetched, channel_closed, write_failed, out_of_fuel,
  download_file_data,
}
use wstunnel.Scp.Upload.{parse_c_header}

abbrev pub PathNames : Type 0
PathNames = List Text

-- The directories open, the innermost first, and what was made: files with their bytes, and directories.
pub record Download : Type 0 where
  pub dir_stack : List PathNames
  pub files : List (PathNames × List ℕ)
  pub dirs : List PathNames

pub data Downloaded : Type 0 where
  done : Download → Downloaded
  failed panicked no_fuel : Downloaded

-- What a message asks for; `none` is the panic of `last().unwrap()`.
pub data Turn : Type 0 where
  takes_file : PathNames → ℕ → Turn
  goes_on : Download → Turn
  stops panics : Turn

unfoldable pub on_file : List PathNames → Option (ℕ × Text) → Turn
on_file dir_stack none = stops
on_file [] (some (size, name)) = panics
on_file (dir ∷ dirs) (some (size, name)) = takes_file (name ∷ dir) size

unfoldable pub on_dir : (PathNames → Bool) → Download → List PathNames → Option (ℕ × Text) → Turn
on_dir creates s dir_stack none = stops
on_dir creates s [] (some (size, name)) = panics
on_dir creates s (dir ∷ dirs) (some (size, name)) =
    if creates (name ∷ dir)
    then goes_on
        (record s { dir_stack = (name ∷ dir) ∷ dir ∷ dirs; dirs = s.dirs ++ ((name ∷ dir) ∷ []) })
    else stops

-- `pop`, but for the last one.
unfoldable pub pop : List PathNames → List PathNames
pop (dir ∷ outer ∷ dirs) = outer ∷ dirs
pop dir_stack = dir_stack

module _ (from_utf8 : List ℕ → Option Text) (creates : PathNames → Bool) where
  -- By the first byte.
  unfoldable pub on_message : Download → ℕ → List ℕ → Turn
  unfolding on_file on_dir pop
  on_message s b buf =
      if b == b'C'
      then on_file s.dir_stack (parse_c_header from_utf8 (b ∷ buf))
      else if b == b'D'
      then on_dir creates s s.dir_stack (parse_c_header from_utf8 (b ∷ buf))
      else if b == b'E'
      then goes_on (record s { dir_stack = pop s.dir_stack })
      else if b == 1
      then goes_on s
      else stops

-- Each part of a turn is given how the loop goes on.
abbrev pub Rest : Type 0
Rest = List ChannelMsg → Download → Downloaded

unfoldable pub taken : Rest → Download → PathNames → Fetched → Downloaded
taken rest s path (fetched ms written buf) =
    rest ms (record s { files = s.files ++ ((path, written) ∷ []) })
taken rest s path channel_closed = failed
taken rest s path write_failed = failed
taken rest s path out_of_fuel = no_fuel

-- `usize_bits` is the width of `usize`, and `writes` is whether a file takes more bytes.
module _ (from_utf8 : List ℕ → Option Text) (creates : PathNames → Bool) (usize_bits : ℕ)
    (writes : List ℕ → List ℕ → Bool) where
  unfoldable pub turned : Rest → List ChannelMsg → Download → Turn → Downloaded
  unfolding taken
  turned rest ms s (takes_file path size) =
      taken rest s path (download_file_data usize_bits writes ms size [])
  turned rest ms s (goes_on s') = rest ms s'
  turned rest ms s stops = failed
  turned rest ms s panics = panicked

  -- An empty message is passed over.
  unfoldable pub received : Rest → Bool × List ChannelMsg × List ℕ → Download → Downloaded
  unfolding turned on_message
  received rest (false, ms, buf) s = done s
  received rest (true, ms, []) s = rest ms s
  received rest (true, ms, b ∷ buf) s = turned rest ms s (on_message from_utf8 creates s b buf)

  unfoldable pub download_loop : ℕ → List ChannelMsg → Download → Downloaded
  unfolding received recv_data
  download_loop zero ms s = no_fuel
  download_loop (suc fuel) ms s = received (download_loop fuel) (recv_data ms []) s

  -- One unit of fuel for each message and one more.
  unfoldable pub scp_download : List ChannelMsg → Downloaded
  unfolding download_loop
  scp_download ms =
      download_loop (suc (length ms)) ms (record { dir_stack = [] ∷ []; files = []; dirs = [] })
