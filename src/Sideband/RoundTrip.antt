-- ===== src/Sideband/RoundTrip.antt =====
-- What the demultiplexer reads of interleaved messages.
use ai_experimental_search.Base.{
  ℕ, zero, suc, ◌+◌, ◌-◌, ◌≤◌, ◌<◌, ◌≡◌, refl, ap, ◌∙◌, false, Option, none, some, List, [], ◌∷◌,
  ◌++◌, lt→ltb, ltb-false, ◌==◌, length, length-append, take_all, drop, Bytes, arith, append-nil,
  append_assoc, All,
}
use ai_experimental_search.Stream.{Error, eof, Reader, write_in}
use ai_experimental_search.Pktline.Length.{max_size, max_payload_size, parse_length_fixed}
use ai_experimental_search.Pktline.Write.{encode, length-encode, flush_pkt}
use ai_experimental_search.Pktline.Read.{packet, has_prefix, read_line, read_length}
use ai_experimental_search.Pktline.RoundTrip.{read-header}
use ai_experimental_search.Pktline.Lines.{read_line-bytes, fresh}
use ai_experimental_search.Sideband.Mux.{
  SidebandType, max_packed, pack_data, progress_message, with_payload,
}
use ai_experimental_search.Sideband.Demux.{
  Demuxer, new_demuxer, Outcome, got, stop, next_pack_data, do_read, read_loop, read_pack, on_line,
}

pub data Message : Type 0 where
  pack progress : Bytes → Message

abbrev pub body : Message → Bytes
body (pack p) = with_payload pack_data p
body (progress p) = with_payload progress_message p

abbrev pub lines : List Message → Bytes
lines [] = []
lines (m ∷ ms) = encode (body m) ++ lines ms

abbrev pub packed : List Message → Bytes
packed [] = []
packed (pack p ∷ ms) = p ++ packed ms
packed (progress p ∷ ms) = packed ms

abbrev pub reported : List Message → Bytes
reported [] = []
reported (pack p ∷ ms) = reported ms
reported (progress p ∷ ms) = p ++ reported ms

-- The packet of the message, its length included, is within the demultiplexer's limit.
abbrev pub Fits : ℕ → Message → Type 0
Fits max m = (length (body m) + 4 ≤ max) × (length (body m) ≤ max_payload_size)

abbrev pub IsPool : (ℕ → Bytes) → Type 0
IsPool pool = (i : ℕ) → max_size ≤ length (pool i)

-- A demultiplexer with nothing pending, in front of the bytes `u`, that reported `out` in `i` calls.
abbrev pub at : Error → ℕ → Bytes → Bytes → ℕ → Demuxer
at e max u out i = record {
  max = max;
  r = record { unread = u; ending = e };
  pending = [];
  progress = some (record { written = out; room = none });
  calls = i;
}

-- The same behind the flush packet, with the result of a Read that got `bytes` and io.EOF.
abbrev pub ended : Error → ℕ → Bytes → Bytes → ℕ → Bytes → Demuxer × Option Outcome
ended e max u out i bytes = (at e max u out i, some (stop bytes eof))

abbrev pub content : Message → Bytes
content (pack p) = p
content (progress p) = []

abbrev pub told : Message → Bytes
told (pack p) = []
told (progress p) = p

on_line-message :
    (m : Message) (e : Error) (max : ℕ) (u out : Bytes) (i : ℕ)
    → Fits max m
    → on_line (at e max u out i) (packet (length (body m) + 4, body m) none)
      ≡ (at e max u (out ++ told m) i, got (content m))
unfolding write_in
on_line-message (pack p) e max u out i (fits, small) =
    rw (zero_ne, ltb-false max (length (body (pack p)) + 4) fits, append-nil out)
  where
    zero_ne : (length (body (pack p)) + 4 == 0) ≡ false
    zero_ne = ground arith
on_line-message (progress p) e max u out i (fits, small) =
    rw (zero_ne, ltb-false max (length (body (progress p)) + 4) fits)
  where
    zero_ne : (length (body (progress p)) + 4 == 0) ≡ false
    zero_ne = ground arith

packed-cons : (m : Message) (ms : List Message) → packed (m ∷ ms) ≡ content m ++ packed ms
packed-cons (pack p) ms = refl
packed-cons (progress p) ms = refl

reported-cons : (m : Message) (ms : List Message) → reported (m ∷ ms) ≡ told m ++ reported ms
reported-cons (pack p) ms = refl
reported-cons (progress p) ms = refl

length-lines : (ms : List Message) → length ms ≤ length (lines ms)
length-lines [] = omega arith
length-lines (m ∷ ms) =
    omega
      (arith, length-lines ms, length-append (encode (body m)) (lines ms), length-encode (body m))

module _ (trim_space : Bytes → Bytes) (pool : ℕ → Bytes) (full : IsPool pool) where
  -- The line of a message comes back whole: it begins with a channel byte, so it is no error line.
  pub read_line-message :
      (m : Message) (u : Bytes) (e : Error) (i : ℕ)
      → length (body m) ≤ max_payload_size
      → ((read_line trim_space (record { unread = encode (body m) ++ u; ending = e }) (pool i)).0
          ≡ record { unread = u; ending = e })
        × ((read_line trim_space (record { unread = encode (body m) ++ u; ending = e }) (pool i)).2
            ≡ packet (length (body m) + 4, body m) none)
  unfolding has_prefix
  read_line-message (pack p) u e i h =
      rw (read_line-bytes trim_space pack_data p u (pool i) e h (full i)) (refl, refl)
  read_line-message (progress p) u e i h =
      rw (read_line-bytes trim_space progress_message p u (pool i) e h (full i)) (refl, refl)

  read_line-flush :
      (u : Bytes) (e : Error) (i : ℕ)
      → ((read_line trim_space (record { unread = flush_pkt ++ u; ending = e }) (pool i)).0
          ≡ record { unread = u; ending = e })
        × ((read_line trim_space (record { unread = flush_pkt ++ u; ending = e }) (pool i)).2
            ≡ packet (0, []) none)
  unfolding read_line
  read_line-flush u e i =
      rw (read-header trim_space flush_pkt u (pool i) e refl (omega (arith, full i)))
        (unfold read_length in rw (parse_length_fixed (drop 4 (pool i))).0 (refl, refl))

  next-message :
      (e : Error) (max : ℕ) (m : Message) (u out : Bytes) (i : ℕ)
      → Fits max m
      → next_pack_data trim_space pool (at e max (encode (body m) ++ u) out i)
        ≡ (at e max u (out ++ told m) (i + 1), got (content m))
  unfolding next_pack_data
  next-message e max m u out i fits =
      let (rest, line) = read_line-message m u e i fits.1 in
      rw (rest, line) (on_line-message m e max u out (i + 1) fits)

  next-flush :
      (e : Error) (max : ℕ) (u out : Bytes) (i : ℕ)
      → next_pack_data trim_space pool (at e max (flush_pkt ++ u) out i)
        ≡ (at e max u out (i + 1), stop [] eof)
  unfolding next_pack_data
  next-flush e max u out i = let (rest, line) = read_line-flush u e i in rw (rest, line)

  do_read-message :
      (e : Error) (max : ℕ) (m : Message) (u out : Bytes) (i wanted : ℕ)
      → Fits max m
      → length (content m) ≤ wanted
      → do_read trim_space pool (at e max (encode (body m) ++ u) out i) wanted
        ≡ (at e max u (out ++ told m) (i + 1), got (content m))
  unfolding do_read
  do_read-message e max m u out i wanted fits h = rw (
    next-message e max m u out i fits,
    ltb-false wanted (length (content m)) h,
    take_all wanted (content m) h,
  )

  read_loop-lines :
      (ms : List Message) (fuel req i : ℕ) (acc u out : Bytes) (e : Error) (max : ℕ)
      → All (Fits max) ms
      → length ms < fuel
      → length acc + length (packed ms) < req
      → read_loop trim_space pool fuel req (at e max (lines ms ++ (flush_pkt ++ u)) out i) acc
        ≡ ended e max u (out ++ reported ms) (i + length ms + 1) (acc ++ packed ms)
  unfolding read_loop
  read_loop-lines ms zero req i acc u out e max fit hf hr = absurd (omega arith)
  read_loop-lines [] (suc fuel) req i acc u out e max fit hf hr =
      rw (lt→ltb (length acc) req (omega arith)) (
        unfold do_read in
        rw (next-flush e max u out i, append-nil acc, append-nil out)
          (ap (λ (k : ℕ). ended e max u out k acc) (omega arith)))
  read_loop-lines (m ∷ ms) (suc fuel) req i acc u out e max (fit, fits) hf hr =
      let size : length (packed (m ∷ ms)) ≡ length (content m) + length (packed ms) =
        ap length (packed-cons m ms) ∙ length-append (content m) (packed ms) in
      rw (lt→ltb (length acc) req (omega arith)) (
        rw (append_assoc (encode (body m)) (lines ms) (flush_pkt ++ u)) (
          rw
            (do_read-message e max m (lines ms ++ (flush_pkt ++ u)) out i (req - length acc) fit
              (omega arith))
            (read_loop-lines ms fuel req (i + 1) (acc ++ content m) u (out ++ told m) e max fits
                (omega arith) (omega (arith, length-append acc (content m)))
              ∙ cc (
                packed-cons m ms,
                reported-cons m ms,
                append_assoc acc (content m) (packed ms),
                append_assoc out (told m) (reported ms),
                count,
              ))))
    where
      count : i + 1 + length ms + 1 ≡ i + suc (length ms) + 1
      count = omega arith

  -- A demultiplexer in front of the lines of any messages on the pack and the progress channel, in any
  -- order, and a flush packet, each within the limit of its type: a Read for more bytes than there are
  -- returns the bytes of the pack channel in order, and io.EOF; the progress bytes were written to
  -- Progress, in order, and the stream stands behind the flush packet.
  pub read_pack-lines :
      (t : SidebandType) (ms : List Message) (req : ℕ) (u : Bytes) (e : Error)
      → All (Fits (max_packed t)) ms
      → length (packed ms) < req
      → (let r : Reader = record { unread = lines ms ++ (flush_pkt ++ u); ending = e } in
          read_pack trim_space pool (new_demuxer t r fresh) req
          ≡ ended e (max_packed t) u (reported ms) (length ms + 1) (packed ms))
  unfolding read_pack new_demuxer
  read_pack-lines t ms req u e fits h =
      read_loop-lines ms (req + length (lines ms ++ (flush_pkt ++ u)) + 1) req 0 [] u [] e
        (max_packed t) fits
        (omega (arith, length-lines ms, length-append (lines ms) (flush_pkt ++ u))) (omega arith)
      ∙ ap (λ (k : ℕ). ended e (max_packed t) u (reported ms) k (packed ms)) (omega arith)
