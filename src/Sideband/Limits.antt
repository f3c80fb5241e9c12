-- ===== src/Sideband/Limits.antt =====
-- What the multiplexer writes, and where its limits do not fit the packet layer and the demultiplexer.
use ai_experimental_search.Base.{
  ℕ, zero, suc, ◌+◌, ◌≤◌, ◌<◌, ◌≡◌, refl, sym, ap, ap₂, ◌∙◌, false, Option, none, some, List, [],
  ◌∷◌, ◌++◌, ltb, lt→ltb, ◌==◌, length, length-take, length-drop, take, take_all, drop_all, drop,
  Bytes, arith, append-nil, append_assoc, Bool-cases, inl, inr, take-append-drop,
}
use ai_experimental_search.Stream.{Error, payload_too_long, max_packed_exceeded, Writer}
use ai_experimental_search.Pktline.Length.{max_payload_size}
use ai_experimental_search.Pktline.Write.{encode, write-encode, write_too_long}
use ai_experimental_search.Pktline.Lines.{written_of, fresh}
use ai_experimental_search.Sideband.Demux.{
  Demuxer, new_demuxer, stop, do_read, next_pack_data, read_loop, read_pack,
}
use ai_experimental_search.Sideband.RoundTrip.{IsPool, pack, read_line-message}
use ai_experimental_search.Sideband.Mux.{
  pack_data, SidebandType, sideband, sideband_64k, max_packed_size, Muxer, new_muxer, chunk,
  with_payload, do_write, write_loop, write_channel,
}

-- The cut of the data into packets of at most `limit` bytes.
abbrev pub cut : ℕ → ℕ → Bytes → List Bytes
cut zero limit p = []
cut (suc fuel) limit [] = []
cut (suc fuel) limit (b ∷ bs) = take limit (b ∷ bs) ∷ cut fuel limit (drop limit (b ∷ bs))

abbrev pub channel_lines : ℕ → List Bytes → Bytes
channel_lines ch [] = []
channel_lines ch (p ∷ ps) = encode (with_payload ch p) ++ channel_lines ch ps

-- A multiplexer over a writer that never fails.
abbrev pub over : ℕ → Bytes → Muxer
over max out = record { max = max; w = some (record { written = out; room = none }) }

abbrev pub wrote_all : ℕ → Bytes → ℕ → Muxer × ℕ × Option Error
wrote_all max out n = (over max out, n, none)

do_write-fits :
    (max ch : ℕ) (out p : Bytes)
    → max + 1 ≤ max_payload_size
    → do_write (over max out) ch p
      ≡ (over max (out ++ encode (with_payload ch (take (chunk max p) p))), chunk max p, none)
unfolding do_write
do_write-fits max ch out p h = rw (write-encode out (with_payload ch (take (chunk max p) p)) small)
  where
    small : length (with_payload ch (take (chunk max p) p)) ≤ max_payload_size
    small = grind (arith, length-take)

take-chunk :
    (max : ℕ) (p : Bytes)
    → (take (chunk max p) p ≡ take max p) × (drop (chunk max p) p ≡ drop max p)
take-chunk max p = elim (Bool-cases (ltb max (length p))) [
  | inl long ↦ rw long (refl, refl)
  | inr short ↦
      let all : length p ≤ max = ground arith in
      rw short (
        take_all (length p) p (omega arith) ∙ sym (take_all max p all),
        drop_all (length p) p (omega arith) ∙ sym (drop_all max p all),
      )
]

length-chunk : (max : ℕ) (p : Bytes) → chunk max p + length (drop max p) ≡ length p
length-chunk max p = ground (arith, length-drop max p)

write_loop-fits :
    (fuel max ch wrote : ℕ) (out p : Bytes)
    → 1 ≤ max
    → max + 1 ≤ max_payload_size
    → length p ≤ fuel
    → write_loop fuel (over max out) ch p wrote
      ≡ wrote_all max (out ++ channel_lines ch (cut fuel max p)) (wrote + length p)
unfolding write_loop
write_loop-fits zero max ch wrote out [] h1 h hf =
    rw (append-nil out) (ap (wrote_all max out) (omega arith))
write_loop-fits (suc fuel) max ch wrote out [] h1 h hf =
    rw (append-nil out) (ap (wrote_all max out) (omega arith))
write_loop-fits zero max ch wrote out (b ∷ bs) h1 h hf = absurd (omega arith)
write_loop-fits (suc fuel) max ch wrote out (b ∷ bs) h1 h hf =
    rw (do_write-fits max ch out (b ∷ bs) h) (
      write_loop-fits fuel max ch (wrote + chunk max p)
        (out ++ encode (with_payload ch (take (chunk max p) p))) (drop (chunk max p) p) h1 h fewer
      ∙ ap₂ (wrote_all max) bytes_eq count)
  where
    p : Bytes
    p = b ∷ bs

    fewer : length (drop (chunk max p) p) ≤ fuel
    fewer = ground (arith, length-drop (chunk max p) p)

    bytes_eq :
        (out ++ encode (with_payload ch (take (chunk max p) p)))
          ++ channel_lines ch (cut fuel max (drop (chunk max p) p))
        ≡ out ++ channel_lines ch (cut (suc fuel) max p)
    bytes_eq =
        append_assoc out (encode (with_payload ch (take (chunk max p) p)))
          (channel_lines ch (cut fuel max (drop (chunk max p) p)))
        ∙ ap₂ (λ x y. out ++ (encode (with_payload ch x) ++ channel_lines ch (cut fuel max y)))
            (take-chunk max p).0 (take-chunk max p).1

    count : wrote + chunk max p + length (drop (chunk max p) p) ≡ wrote + length p
    count = omega (arith, ap length (take-chunk max p).1, length-chunk max p)

-- The pieces of the cut are the data, in order, each with at least one and at most `limit` bytes.
abbrev pub joined : List Bytes → Bytes
joined [] = []
joined (p ∷ ps) = p ++ joined ps

joined-cut :
    (fuel limit : ℕ) (p : Bytes) → 1 ≤ limit → length p ≤ fuel → joined (cut fuel limit p) ≡ p
joined-cut zero limit [] h hf = refl
joined-cut zero limit (b ∷ bs) h hf = absurd (omega arith)
joined-cut (suc fuel) limit [] h hf = refl
joined-cut (suc fuel) limit (b ∷ bs) h hf =
    rw (joined-cut fuel limit (drop limit (b ∷ bs)) h (omega (arith, length-drop limit (b ∷ bs))))
      (take-append-drop limit (b ∷ bs))

-- On a writer that never fails, a multiplexer whose packets fit a packet line writes all of its data:
-- it reports every byte as written and no error, and appends the packet lines of pieces, each headed by
-- the channel, that are the data cut into packets of the limit, in order.
pub write_channel-lines :
    (max ch : ℕ) (out p : Bytes)
    → 1 ≤ max
    → max + 1 ≤ max_payload_size
    → (write_channel (over max out) ch p
        ≡ wrote_all max (out ++ channel_lines ch (cut (length p) max p)) (length p))
      × (joined (cut (length p) max p) ≡ p)
unfolding write_channel
write_channel-lines max ch out p h1 h = (
  write_loop-fits (length p) max ch 0 out p h1 h (omega arith)
      ∙ ap (wrote_all max (out ++ channel_lines ch (cut (length p) max p))) (omega arith),
  joined-cut (length p) max p h1 (omega arith),
)

-- A Sideband64k multiplexer that wrote nothing, and counts `n` bytes.
abbrev pub refused : Writer → ℕ → Muxer × ℕ × Option Error
refused w n = (new_muxer sideband_64k (some w), n, some payload_too_long)

-- A multiplexer of type Sideband64k refuses data of 65516 bytes or more: the packet that it makes is too
-- long for a packet line. Nothing is written, and yet the count of the first packet is reported.
pub write_channel_64k :
    (ch : ℕ) (w : Writer) (p : Bytes)
    → max_payload_size ≤ length p
    → write_channel (new_muxer sideband_64k (some w)) ch p ≡ refused w (chunk 65519 p)
unfolding write_channel new_muxer
write_channel_64k ch w [] h = absurd (omega arith)
write_channel_64k ch w (b ∷ bs) h = unfold write_loop in rw one_round (ap (refused w) (omega arith))
  where
    p : Bytes
    p = b ∷ bs

    long : max_payload_size < length (with_payload ch (take (chunk 65519 p) p))
    long = grind (arith, length-take)

    one_round : do_write (new_muxer sideband_64k (some w)) ch p ≡ refused w (chunk 65519 p)
    one_round =
        unfold do_write in rw (write_too_long w (with_payload ch (take (chunk 65519 p) p)) long)

-- The bytes that a multiplexer of this type leaves on an empty buffer.
abbrev pub muxed : SidebandType → ℕ → Bytes → Bytes
muxed t ch p = written_of (write_channel (new_muxer t fresh) ch p).0.w

-- One round of Read in front of a packet above the limit.
read_loop-exceeds :
    (trim_space : Bytes → Bytes) (pool : ℕ → Bytes) (fuel max n i : ℕ) (q u : Bytes) (e : Error)
    (progress : Option Writer)
    → IsPool pool
    → length q + 1 ≤ max_payload_size
    → max < length q + 5
    → (let d : Demuxer = record {
      max = max;
      r = record { unread = encode (with_payload pack_data q) ++ u; ending = e };
      pending = [];
      progress = progress;
      calls = i;
    } in
        (read_loop trim_space pool (fuel + 1) (suc n) d []).1 ≡ some (stop [] max_packed_exceeded))
read_loop-exceeds trim_space pool fuel max n i q u e progress full small h =
    let (rest, line) = read_line-message trim_space pool full (pack q) u e i (omega arith) in
    let step : fuel + 1 ≡ suc fuel = omega arith in
    let zero_ne : (length (with_payload pack_data q) + 4 == 0) ≡ false = ground arith in
    rw step (
      unfold read_loop do_read next_pack_data in
      rw (rest, line)
        (rw (
          lt→ltb 0 (suc n) (omega arith),
          zero_ne,
          lt→ltb max (length (with_payload pack_data q) + 4) (omega arith),
        )))

-- Data of 996 bytes or more that a Sideband multiplexer wrote on the pack channel, which it reports as
-- written with no error, is refused by a Sideband demultiplexer: its first packet exceeds the limit.
pub read_pack_sideband :
    (trim_space : Bytes → Bytes) (pool : ℕ → Bytes) (p rest : Bytes) (e : Error)
    (progress : Option Writer) (n : ℕ)
    → IsPool pool
    → 996 ≤ length p
    → ((write_channel (new_muxer sideband fresh) pack_data p).2 ≡ none)
      × ((read_pack trim_space pool
            (new_demuxer sideband
              (record { unread = muxed sideband pack_data p ++ rest; ending = e })
              progress)
            (suc n)).1
          ≡ some (stop [] max_packed_exceeded))
unfolding new_muxer new_demuxer read_pack
read_pack_sideband trim_space pool [] rest e progress n full h = absurd (omega arith)
read_pack_sideband trim_space pool (b ∷ bs) rest e progress n full h =
    rw ((write_channel-lines 999 pack_data [] (b ∷ bs) (omega arith) (omega arith)).0) (
      refl,
      rw
          (append_assoc (encode (with_payload pack_data (take 999 p)))
            (channel_lines pack_data more) rest)
          (read_loop-exceeds trim_space pool _ max_packed_size n 0 (take 999 p)
            (channel_lines pack_data more ++ rest) e progress full
            (omega (arith, length-take 999 p)) (omega (arith, length-take 999 p))),
    )
  where
    p : Bytes
    p = b ∷ bs

    more : List Bytes
    more = cut (length bs) 999 (drop 999 p)
