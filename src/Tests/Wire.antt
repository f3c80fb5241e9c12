-- ===== src/Tests/Wire.antt =====
-- Packet lines and the side-band on small inputs.
use ai_experimental_search.Base.{
  ℕ, Bool, ◌+◌, ◌%◌, ◌≤◌, ◌≡◌, ◌≢◌, refl, ap, inl, inr, Bytes, none, some, false, true, [], ◌∷◌,
  ◌++◌, length, replicate, length-replicate, drop, arith,
}
use mathlib.Core.Bool.{false≢true}
use ai_experimental_search.Stream.{read_full, Reader, eof, payload_too_long, max_packed_exceeded}
use ai_experimental_search.Pktline.Length.{
  max_size, hex_decode, ascii_hex_to_byte, byte_to_ascii_hex, ascii_hex_16, parse_length,
  hex_decode-ascii_hex_16, parse_length-ascii_hex_16, parse_length_range,
}
use ai_experimental_search.Pktline.Write.{
  write, encode, write_error, err_prefix, flush_pkt, write-encode, write_too_long,
}
use ai_experimental_search.Pktline.Read.{
  packet, panic, has_prefix, read, read_line, got_header, read_length, got_length, read_body,
  got_payload, error_text,
}
use ai_experimental_search.Pktline.Lines.{
  line_of, written_of, fresh, looks_like_error, read_line-write, read_line_stale,
  read_line-write_error,
}
use ai_experimental_search.Pktline.Frame.{frame, read_takes}
use ai_experimental_search.Pktline.Scanner.{Scanner, nil, new_scanner, scan, collect}
use ai_experimental_search.Pktline.Scanner.Packets.{IsPlain, lines, collect-new_scanner, scan_cut}
use ai_experimental_search.Sideband.Mux.{
  sideband, sideband_64k, new_muxer, chunk, max_packed, pack_data, write_channel,
}
use ai_experimental_search.Sideband.Demux.{new_demuxer, stop, read_pack}
use ai_experimental_search.Sideband.RoundTrip
use ai_experimental_search.Sideband.Limits.{
  over, wrote_all, channel_lines, cut, joined, refused, muxed, write_channel-lines,
  write_channel_64k, read_pack_sideband,
}

abbrev same : Bytes → Bytes
same b = b

-- A buffer of the largest packet's size.
unfoldable zeros : ℕ → Bytes
zeros n = replicate n 0

length-zeros : (n : ℕ) → length (zeros n) ≡ n
unfolding zeros
length-zeros n = length-replicate n 0

abbrev hello : Bytes
hello = b'h' ∷ b'e' ∷ b'l' ∷ b'l' ∷ b'o' ∷ []

parse_length-ascii_hex_16_run : parse_length (ascii_hex_16 65520 ++ hello) ≡ some 65520
parse_length-ascii_hex_16_run = parse_length-ascii_hex_16 65520 hello (omega arith) (omega arith)

hex_decode-ascii_hex_16_run : hex_decode (ascii_hex_16 65541 ++ hello) ≡ some (65541 % 65536)
hex_decode-ascii_hex_16_run = hex_decode-ascii_hex_16 65541 hello

parse_length_range_run : (9 ≤ max_size) × ◌≢◌ {A = ℕ} 9 3
parse_length_range_run =
    parse_length_range (ascii_hex_16 9 ++ [])
      (parse_length-ascii_hex_16 9 [] (omega arith) (omega arith))

write-encode_run :
    write (some (record { written = flush_pkt; room = none })) hello
    ≡ (some (record { written = flush_pkt ++ encode hello; room = none }), 9, none)
write-encode_run = write-encode flush_pkt hello (omega arith)

write_too_long_run :
    write (some (record { written = []; room = none })) (zeros 65517)
    ≡ (some (record { written = []; room = none }), 0, some payload_too_long)
write_too_long_run =
    write_too_long (record { written = []; room = none }) (zeros 65517)
      (omega (arith, length-zeros 65517))

hello_plain : looks_like_error hello (zeros 65520) ≡ false
unfolding has_prefix
hello_plain = refl

read_line-write_example :
    ((read_line same (record { unread = line_of hello ++ flush_pkt; ending = eof }) (zeros 65520)).0
      ≡ record { unread = flush_pkt; ending = eof })
    × ((read_line same
          (record { unread = line_of hello ++ flush_pkt; ending = eof })
          (zeros 65520)).2
        ≡ packet (9, hello) none)
read_line-write_example =
    read_line-write same hello flush_pkt (zeros 65520) eof (omega arith)
      (omega (arith, length-zeros 65520)) (inr hello_plain)

-- A buffer with a space where the fourth byte of a payload goes.
unfoldable stale : Bytes
stale = replicate 7 0 ++ b' ' ∷ zeros 65520

stale_error : (looks_like_error (b'E' ∷ b'R' ∷ b'R' ∷ []) stale ≡ true) × (max_size ≤ length stale)
unfolding stale has_prefix
stale_error = (refl, omega (arith, length-zeros 65520))

read_line_stale_example :
    (read_line same
      (record { unread = line_of (b'E' ∷ b'R' ∷ b'R' ∷ []) ++ []; ending = eof })
      stale).2
    ≡ panic
read_line_stale_example =
    read_line_stale same (b'E' ∷ b'R' ∷ b'R' ∷ []) [] stale eof (λ e. false≢true (ap nonempty e))
      (omega arith) stale_error.1 stale_error.0
  where
    nonempty : Bytes → Bool
    nonempty [] = true
    nonempty (b ∷ bs) = false

read_line-write_error_run :
    (let line = written_of (write_error fresh hello).0 in
      let body = err_prefix ++ hello ++ b'\n' ∷ [] in
      (read_line same (record { unread = line ++ flush_pkt; ending = eof }) (zeros 65520)).2
      ≡ packet (length body + 4, body) (some (same (hello ++ b'\n' ∷ []))))
read_line-write_error_run =
    read_line-write_error same hello flush_pkt (zeros 65520) eof (omega arith)
      (omega (arith, length-zeros 65520))

hello-read :
    (read same (record { unread = encode hello ++ flush_pkt; ending = eof }) (replicate 20 0)).2
    ≡ packet 9 none
unfolding read got_header read_full read_length got_length parse_length hex_decode ascii_hex_to_byte
    read_body got_payload error_text has_prefix encode ascii_hex_16 byte_to_ascii_hex
hello-read = refl

read_takes_example :
    (frame 9 ≤ length (encode hello ++ flush_pkt))
    × ((read same
          (record { unread = encode hello ++ flush_pkt; ending = eof })
          (replicate 20 0)).0.unread
        ≡ drop (frame 9) (encode hello ++ flush_pkt))
read_takes_example =
    read_takes same (record { unread = encode hello ++ flush_pkt; ending = eof }) (replicate 20 0)
      hello-read

hello-IsPlain : IsPlain hello
unfolding has_prefix
hello-IsPlain = inr (omega arith, omega arith, refl)

collect-new_scanner_example :
    (let s =
        new_scanner (some (record { unread = lines (hello ∷ [] ∷ hello ∷ []); ending = eof })) in
      ((collect same 4 s).0 ≡ hello ∷ [] ∷ hello ∷ []) × ((collect same 4 s).1.err ≡ nil))
collect-new_scanner_example =
    collect-new_scanner same (hello ∷ [] ∷ hello ∷ [])
      (hello-IsPlain, (inl refl, (hello-IsPlain, tt)))

-- A scanner in front of a header alone.
abbrev cut_scanner : Scanner
cut_scanner = record (new_scanner (some (record { unread = ascii_hex_16 9; ending = eof }))) {
  buf = zeros 65520;
}

scan_cut_example : ((scan same cut_scanner).1 ≡ some false) × ((scan same cut_scanner).0.err ≡ nil)
unfolding new_scanner
scan_cut_example =
    scan_cut same cut_scanner 9 (omega arith) (omega arith)
      (record { at = refl; full = length-zeros 65520 })

read_pack-lines_example :
    (let ms = RoundTrip.pack hello ∷ RoundTrip.progress hello ∷ RoundTrip.pack hello ∷ [] in
      let r : Reader = record {
        unread = RoundTrip.lines ms ++ (flush_pkt ++ hello);
        ending = eof;
      } in
      read_pack same (λ i. zeros 65520) (new_demuxer sideband r fresh) 20
      ≡ RoundTrip.ended eof
          (max_packed sideband)
          hello
          (RoundTrip.reported ms)
          (length ms + 1)
          (RoundTrip.packed ms))
read_pack-lines_example =
    RoundTrip.read_pack-lines same (λ i. zeros 65520) (λ i. omega (arith, length-zeros 65520))
      sideband (RoundTrip.pack hello ∷ RoundTrip.progress hello ∷ RoundTrip.pack hello ∷ []) 20
      hello eof
      ((omega arith, omega arith), ((omega arith, omega arith), ((omega arith, omega arith), tt)))
      (omega arith)

write_channel-lines_example :
    (write_channel (over 2 flush_pkt) pack_data hello
      ≡ wrote_all 2 (flush_pkt ++ channel_lines pack_data (cut 5 2 hello)) 5)
    × (joined (cut 5 2 hello) ≡ hello)
write_channel-lines_example =
    write_channel-lines 2 pack_data flush_pkt hello (omega arith) (omega arith)

write_channel_64k_example :
    write_channel
      (new_muxer sideband_64k (some (record { written = []; room = none })))
      pack_data
      (zeros 65516)
    ≡ refused (record { written = []; room = none }) (chunk 65519 (zeros 65516))
write_channel_64k_example =
    write_channel_64k pack_data (record { written = []; room = none }) (zeros 65516)
      (omega (arith, length-zeros 65516))

read_pack_sideband_example :
    ((write_channel (new_muxer sideband fresh) pack_data (zeros 996)).2 ≡ none)
    × ((read_pack same
          (λ i. zeros 65520)
          (new_demuxer sideband
            (record { unread = muxed sideband pack_data (zeros 996) ++ []; ending = eof })
            none)
          8).1
        ≡ some (stop [] max_packed_exceeded))
read_pack_sideband_example =
    read_pack_sideband same (λ i. zeros 65520) (zeros 996) [] eof none 7
      (λ i. omega (arith, length-zeros 65520)) (omega (arith, length-zeros 996))
