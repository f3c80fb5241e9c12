-- ===== src/Pktline/Scanner/Packets.antt =====
-- Scanning a stream of packet lines.
use ai_experimental_search.Base.{
  ℕ, suc, ◌+◌, ◌≤◌, ◌<◌, ◌≡◌, ◌⊎◌, refl, sym, ap, ap₂, ◌∙◌, true, false, none, some, List, [], ◌∷◌,
  ◌++◌, ltb-false, length, Bytes, arith, length-replicate, length-append, length-drop, inl, inr,
  append-nil, All, drop,
}
use ai_experimental_search.Stream.{eof, read_full}
use ai_experimental_search.Pktline.Length.{
  len_size, max_size, max_payload_size, ascii_hex_16, length-ascii_hex_16,
  parse_length-ascii_hex_16, parse_length_fixed,
}
use ai_experimental_search.Pktline.Write.{err_prefix, encode, empty_pkt}
use ai_experimental_search.Pktline.Read.{
  packet, failed, has_prefix, slice, read, read_length, read_body,
}
use ai_experimental_search.Pktline.RoundTrip.{
  filled, length-filled, read-encode, read-header, read_length-data,
}
use ai_experimental_search.Pktline.Lines.{looks_like_error-long, error_text-plain, slice_payload}
use ai_experimental_search.Pktline.Scanner.{Scanner, nil, new_scanner, scan, bytes, collect}

-- A payload that every buffer reads back: empty, or of at least four bytes that are no error prefix.
abbrev pub IsPlain : Bytes → Type 0
IsPlain p =
    (p ≡ []) ⊎ ((4 ≤ length p) × (length p ≤ max_payload_size) × (has_prefix err_prefix p ≡ false))

abbrev pub lines : List Bytes → Bytes
lines [] = []
lines (p ∷ ps) = encode p ++ lines ps

module _ (trim_space : Bytes → Bytes) where
  -- A scanner in front of `u` whose buffer has its full size.
  pub record Ready (s : Scanner) (u : Bytes) : Type 0 where
    pub at : s.r ≡ some (record { unread = u; ending = eof })
    pub full : length s.buf ≡ max_size

  -- One scan over a plain packet.
  record Scanned (s : Scanner) (p u : Bytes) : Type 0 where
    more : (scan trim_space s).1 ≡ some true
    gives : bytes (scan trim_space s).0 ≡ p
    no_error : (scan trim_space s).0.err ≡ nil
    ready : Ready (scan trim_space s).0 u

  -- One read over a plain packet.
  record Plain (p u buf : Bytes) : Type 0 where
    buf' : Bytes
    reads :
        read trim_space (record { unread = encode p ++ u; ending = eof }) buf
        ≡ (record { unread = u; ending = eof }, buf', packet (length p + 4) none)
    full : length buf' ≡ max_size
    holds : slice len_size (length p + 4) buf' ≡ p

  read-Plain : (p u buf : Bytes) → IsPlain p → length buf ≡ max_size → Plain p u buf
  read-Plain [] u buf plain h = record {
    buf' = filled empty_pkt [] buf;
    reads =
        unfold encode in
        (read-header trim_space empty_pkt u buf eof refl (omega arith)
          ∙ (unfold read_length in rw (parse_length_fixed (drop 4 buf)).3));
    full = length-filled empty_pkt [] buf refl (omega arith) ∙ h;
    holds = refl;
  }
  read-Plain (b ∷ bs) u buf (inl e) h = absurd (nonempty e)
    where
      nonempty : b ∷ bs ≡ [] → ⊥
      nonempty e = cc
  read-Plain (b ∷ bs) u buf (inr (four, fits, c)) h = record {
    buf' = filled d p buf;
    reads =
        read-encode trim_space b bs u buf eof fits (omega arith)
        ∙ ap (λ t. (record { unread = u; ending = eof }, filled d p buf, t))
            (error_text-plain trim_space d p buf d4 (looks_like_error-long p buf four ∙ c));
    full = length-filled d p buf d4 (omega arith) ∙ h;
    holds = slice_payload d p buf d4;
  }
    where
      p : Bytes
      p = b ∷ bs

      d : Bytes
      d = ascii_hex_16 (length p + 4)

      d4 : length d ≡ 4
      d4 = length-ascii_hex_16 (length p + 4)

  scan-plain : (s : Scanner) (p u : Bytes) → IsPlain p → Ready s (encode p ++ u) → Scanned s p u
  unfolding scan bytes
  scan-plain s p u plain h =
      let r = read-Plain p u s.buf plain h.full in
      record {
        more = rw (h.at, r.reads);
        gives = rw (h.at, r.reads) (rw (ltb-false (length p + 4) 4 (omega arith)) r.holds);
        no_error = rw (h.at, r.reads);
        ready = record { at = rw (h.at, r.reads); full = rw (h.at, r.reads) r.full };
      }

  read-eof :
      (buf : Bytes)
      → length buf ≡ max_size
      → (read trim_space (record { unread = []; ending = eof }) buf).2 ≡ failed eof
  unfolding read read_full
  read-eof buf h = rw (ltb-false (length buf) 4 (omega arith))

  -- Behind the last packet Scan returns false, with no error.
  scan-eof :
      (s : Scanner)
      → Ready s []
      → ((scan trim_space s).1 ≡ some false) × ((scan trim_space s).0.err ≡ nil)
  unfolding scan read read_full
  scan-eof s h = (
    rw (h.at, ltb-false (length s.buf) 4 (omega (arith, h.full))),
    rw (h.at, ltb-false (length s.buf) 4 (omega (arith, h.full))),
  )

  collect-lines :
      (ps : List Bytes) (s : Scanner)
      → All IsPlain ps
      → Ready s (lines ps)
      → ((collect trim_space (suc (length ps)) s).0 ≡ ps)
        × ((collect trim_space (suc (length ps)) s).1.err ≡ nil)
  unfolding collect
  collect-lines [] s plain h = let (stop, clean) = scan-eof s h in (rw stop, rw stop clean)
  collect-lines (p ∷ ps) s (plain, plains) h =
      let one = scan-plain s p (lines ps) plain h in
      let (rest, clean) = collect-lines ps (scan trim_space s).0 plains one.ready in
      (rw one.more (ap₂ ◌∷◌ one.gives rest), rw one.more clean)

  -- The client's loop over a stream of plain packet lines sees every payload, in order, and then ends
  -- with no error.
  pub collect-new_scanner :
      (ps : List Bytes)
      → All IsPlain ps
      → (let s = new_scanner (some (record { unread = lines ps; ending = eof })) in
          ((collect trim_space (suc (length ps)) s).0 ≡ ps)
          × ((collect trim_space (suc (length ps)) s).1.err ≡ nil))
  unfolding new_scanner
  collect-new_scanner ps plain =
      collect-lines ps _ plain (record { at = refl; full = length-replicate {A = ℕ} max_size 0 })

  read-cut :
      (buf : Bytes) (l : ℕ)
      → 4 < l
      → l ≤ max_size
      → length buf ≡ max_size
      → (read trim_space (record { unread = ascii_hex_16 l; ending = eof }) buf).2 ≡ failed eof
  read-cut buf l lo hi h =
      let d = ascii_hex_16 l in
      let d4 : length d ≡ 4 = length-ascii_hex_16 l in
      let buf' = d ++ drop (0 + length d) buf in
      let size : length buf' ≡ max_size =
        omega (arith, length-append d (drop (0 + length d) buf), length-drop (0 + length d) buf) in
      rw (sym (append-nil d)) (
        ap (λ t. t.2)
          (read-header trim_space d [] buf eof d4 (omega arith)
            ∙ read_length-data trim_space _ buf' l (parse_length-ascii_hex_16 l _ hi (omega arith))
                lo)
        ∙ unfold read_body read_full in rw (ltb-false (length buf') l (omega arith)) (ground arith))

  -- A stream that is cut off right behind a header that announces a payload ends the scan like a stream
  -- that ends between two packets: with no error.
  pub scan_cut :
      (s : Scanner) (l : ℕ)
      → 4 < l
      → l ≤ max_size
      → Ready s (ascii_hex_16 l)
      → ((scan trim_space s).1 ≡ some false) × ((scan trim_space s).0.err ≡ nil)
  unfolding scan
  scan_cut s l lo hi h =
      (rw (h.at, read-cut s.buf l lo hi h.full), rw (h.at, read-cut s.buf l lo hi h.full))
