-- ===== src/Pktline/Scanner.antt =====
-- plumbing/format/pktline/scanner.go: packets one after the other through one buffer.
pub mod Packets
use ai_experimental_search.Base.{
  ℕ, zero, suc, ◌+◌, ◌≤◌, ◌≡◌, ◌⊎◌, refl, sym, ap, ◌∙◌, Bool, true, false, Option, none, some, List,
  [], ◌∷◌, ◌++◌, ltb, length, if◌then◌else◌, Bytes, arith, replicate, inr, append_assoc, All,
}
use ai_experimental_search.Stream.{Error, eof, Reader}
use ai_experimental_search.Pktline.Length.{len_size, max_size, max_payload_size}
use ai_experimental_search.Pktline.Write.{err_prefix, encode}
use ai_experimental_search.Pktline.Read.{Result, packet, failed, panic, has_prefix, slice, read}

-- The sticky error: nil, an *ErrorLine with its text, or another error.
pub data ScanError : Type 0 where
  nil : ScanError
  line : Bytes → ScanError
  other : Error → ScanError

-- `n` is the length of the last packet; `none` is Err, -1.
pub record Scanner : Type 0 where
  pub r : Option Reader
  pub err : ScanError
  pub buf : Bytes
  pub n : Option ℕ

unfoldable pub new_scanner : Option Reader → Scanner
new_scanner r = record { r = r; err = nil; buf = replicate max_size 0; n = some 0 }

abbrev is_eof : Error → Bool
is_eof eof = true
is_eof _ = false

-- What Scan keeps of a read. `none` as the outcome is a panic in Read, which leaves the caller.
abbrev scanned : Scanner → Reader × Bytes × Result ℕ → Scanner × Option Bool
scanned s (r, buf, packet l none) =
    (record { r = some r; err = nil; buf = buf; n = some l }, some true)
scanned s (r, buf, packet l (some text)) =
    (record { r = some r; err = line text; buf = buf; n = some l }, some false)
scanned s (r, buf, failed e) = (
  record { r = some r; err = if is_eof e then nil else other e; buf = buf; n = none },
  some false,
)
scanned s (r, buf, panic) = (record s { r = some r; buf = buf }, none)

module _ (trim_space : Bytes → Bytes) where
  scan_from : Option Reader → Scanner → Scanner × Option Bool
  scan_from none s = (s, some false)
  scan_from (some r) s = scanned s (read trim_space r s.buf)

  unfoldable pub scan : Scanner → Scanner × Option Bool
  unfolding scan_from
  scan s = scan_from s.r s

abbrev bytes_of : Option ℕ → Bytes → Bytes
bytes_of none buf = []
bytes_of (some l) buf = if ltb l len_size then [] else slice len_size l buf

-- Bytes, and Text of it; nil is the empty slice.
unfoldable pub bytes : Scanner → Bytes
bytes s = bytes_of s.n s.buf

collected : Option Bool → Scanner → List Bytes × Scanner → List Bytes × Scanner
collected (some true) s (ps, last) = (bytes s ∷ ps, last)
collected (some false) s rest = ([], s)
collected none s rest = ([], s)

-- The client's loop, `for s.Scan() { ps = append(ps, s.Bytes()) }`, for at most `fuel` packets.
module _ (trim_space : Bytes → Bytes) where
  unfoldable pub collect : ℕ → Scanner → List Bytes × Scanner
  unfolding collected
  collect zero s = ([], s)
  collect (suc fuel) s = let (s', more) = scan trim_space s in collected more s' (collect fuel s')
