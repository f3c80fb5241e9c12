-- ===== src/Sideband/Demux.antt =====
-- plumbing/protocol/packp/sideband/demux.go. Each ReadLine takes a buffer from a pool: `pool i` is what
-- the buffer of the i-th call holds. What the demultiplexer keeps of a buffer is taken for a copy: that
-- nobody else writes to a pooled buffer while a part of it is pending is assumed.
use ai_experimental_search.Base.{
  ℕ, zero, suc, ◌+◌, ◌-◌, Option, none, some, [], ◌∷◌, ◌++◌, ltb, ◌==◌, length, take, drop,
  if◌then◌else◌, Bytes,
}
use ai_experimental_search.Stream.{
  Error, eof, max_packed_exceeded, invalid_sideband, unknown_channel, remote_error, error_line,
  Reader, Writer, write_bytes,
}
use ai_experimental_search.Pktline.Read.{Result, packet, failed, panic, read_line}
use ai_experimental_search.Sideband.Mux.{
  SidebandType, max_packed, pack_data, progress_message, error_message,
}

-- `calls` counts the calls of ReadLine; a nil Progress is `none`.
pub record Demuxer : Type 0 where
  pub max : ℕ
  pub r : Reader
  pub pending : Bytes
  pub progress : Option Writer
  pub calls : ℕ

-- Progress is a field that the caller sets.
unfoldable pub new_demuxer : SidebandType → Reader → Option Writer → Demuxer
new_demuxer t r progress = record {
  max = max_packed t;
  r = r;
  pending = [];
  progress = progress;
  calls = 0;
}

-- Some bytes and a nil error, or an error with the bytes so far, or a panic below.
pub data Outcome : Type 0 where
  got : Bytes → Outcome
  stop : Bytes → Error → Outcome
  panicked : Outcome

abbrev progress_error : Option Error → Outcome
progress_error none = got []
progress_error (some e) = stop [] e

abbrev pub report : Option Writer → Demuxer → Bytes → Demuxer × Outcome
report none d message = (d, got [])
report (some w) d message =
    let (w', n, e) = write_bytes w message in (record d { progress = some w' }, progress_error e)

abbrev pub on_channel : Demuxer → Bytes → Demuxer × Outcome
on_channel d [] = (d, stop [] invalid_sideband)
on_channel d (ch ∷ content) =
    if ch == pack_data
    then (d, got content)
    else if ch == progress_message
    then report d.progress d content
    else if ch == error_message
    then (d, stop [] (remote_error content))
    else (d, stop [] unknown_channel)

abbrev pub on_line : Demuxer → Result (ℕ × Bytes) → Demuxer × Outcome
on_line d (failed e) = (d, stop [] e)
on_line d panic = (d, panicked)
on_line d (packet (l, p) (some text)) = (d, stop [] (error_line text))
on_line d (packet (l, p) none) =
    if l == 0
    then (d, stop [] eof)
    else if ltb d.max l
    then (d, stop [] max_packed_exceeded)
    else on_channel d p

module _ (trim_space : Bytes → Bytes) (pool : ℕ → Bytes) where
  abbrev read_next : Demuxer → Reader × Bytes × Result (ℕ × Bytes) → Demuxer × Outcome
  read_next d (r, buf, res) = on_line (record d { r = r; calls = d.calls + 1 }) res

  abbrev next_from : Bytes → Demuxer → Demuxer × Outcome
  next_from [] d = read_next d (read_line trim_space d.r (pool d.calls))
  next_from (b ∷ bs) d = (record d { pending = [] }, got (b ∷ bs))

  unfoldable pub next_pack_data : Demuxer → Demuxer × Outcome
  next_pack_data d = next_from d.pending d

  -- At most `wanted` bytes are handed out, and the rest is kept.
  abbrev handed_out : ℕ → Demuxer × Outcome → Demuxer × Outcome
  handed_out wanted (d, got content) = (
    if ltb wanted (length content) then record d { pending = drop wanted content } else d,
    got (take wanted content),
  )
  handed_out wanted (d, stop content e) = (d, stop content e)
  handed_out wanted (d, panicked) = (d, panicked)

  unfoldable pub do_read : Demuxer → ℕ → Demuxer × Outcome
  do_read d wanted = handed_out wanted (next_pack_data d)

  -- One round of the loop of Read, where `more` reads on. `none`: the fuel ran out.
  abbrev after_round :
      Bytes
      → (Demuxer → Bytes → Demuxer × Option Outcome)
      → Demuxer × Outcome
      → Demuxer × Option Outcome
  after_round acc more (d, got content) = more d (acc ++ content)
  after_round acc more (d, stop content e) = (d, some (stop (acc ++ content) e))
  after_round acc more (d, panicked) = (d, some panicked)

  -- `acc` is what was read into the caller's buffer of `req` bytes.
  unfoldable pub read_loop : ℕ → ℕ → Demuxer → Bytes → Demuxer × Option Outcome
  read_loop zero req d acc = (d, none)
  read_loop (suc fuel) req d acc =
      let round =
        after_round acc (λ d' acc'. read_loop fuel req d' acc') (do_read d (req - length acc)) in
      if ltb (length acc) req then round else (d, some (got acc))

  -- Every round reads a byte, or takes a line off the stream, or is the last.
  unfoldable pub read_pack : Demuxer → ℕ → Demuxer × Option Outcome
  unfolding read_loop
  read_pack d req = read_loop (req + length d.r.unread + 1) req d []
