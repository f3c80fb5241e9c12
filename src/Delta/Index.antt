-- ===== src/Delta/Index.antt =====
-- plumbing/format/packfile/delta_index.go: the index of the blocks of a source and the search for matches in
-- it. An index out of range, which panics, gives `none`.
use ai_experimental_search.Base.{
  ℕ, zero, suc, ◌+◌, ◌-◌, ◌*◌, ◌/◌, ◌%◌, ◌^◌, Bool, true, false, not, ◌&&◌, Option, none, some,
  List, [], ◌∷◌, ltb, leb, ◌==◌, bit_and, length, get_elem?, get_or, set, drop, replicate,
  if◌then◌else◌, Bytes, ◌>>=◌,
}
use ai_experimental_search.Delta.Diff.{Match, match, short_source, block_size, diff_delta}
use ai_experimental_search.Delta.Hash.{hash_block}
pub mod Arrays
pub mod Scan
pub mod Entries
pub mod Ready
pub mod Find

-- maxChainLength.
abbrev pub max_chain_length : ℕ
max_chain_length = 64

abbrev pub write : List ℕ → ℕ → ℕ → Option (List ℕ)
write l i v = if ltb i (length l) then some (set l i v) else none

abbrev pub length_table : List ℕ
length_table =
    0 ∷ 1 ∷ 2 ∷ 2 ∷ 3 ∷ 3 ∷ 3 ∷ 3 ∷ 4 ∷ 4 ∷ 4 ∷ 4 ∷ 4 ∷ 4 ∷ 4 ∷ 4 ∷ 5 ∷ 5 ∷ 5 ∷ 5 ∷ 5 ∷ 5 ∷ 5 ∷ 5
    ∷ 5 ∷ 5 ∷ 5 ∷ 5 ∷ 5 ∷ 5 ∷ 5 ∷ 5 ∷ 6 ∷ 6 ∷ 6 ∷ 6 ∷ 6 ∷ 6 ∷ 6 ∷ 6 ∷ 6 ∷ 6 ∷ 6 ∷ 6 ∷ 6 ∷ 6 ∷ 6 ∷ 6
    ∷ 6 ∷ 6 ∷ 6 ∷ 6 ∷ 6 ∷ 6 ∷ 6 ∷ 6 ∷ 6 ∷ 6 ∷ 6 ∷ 6 ∷ 6 ∷ 6 ∷ 6 ∷ 6 ∷ 7 ∷ 7 ∷ 7 ∷ 7 ∷ 7 ∷ 7 ∷ 7 ∷ 7
    ∷ 7 ∷ 7 ∷ 7 ∷ 7 ∷ 7 ∷ 7 ∷ 7 ∷ 7 ∷ 7 ∷ 7 ∷ 7 ∷ 7 ∷ 7 ∷ 7 ∷ 7 ∷ 7 ∷ 7 ∷ 7 ∷ 7 ∷ 7 ∷ 7 ∷ 7 ∷ 7 ∷ 7
    ∷ 7 ∷ 7 ∷ 7 ∷ 7 ∷ 7 ∷ 7 ∷ 7 ∷ 7 ∷ 7 ∷ 7 ∷ 7 ∷ 7 ∷ 7 ∷ 7 ∷ 7 ∷ 7 ∷ 7 ∷ 7 ∷ 7 ∷ 7 ∷ 7 ∷ 7 ∷ 7 ∷ 7
    ∷ 7 ∷ 7 ∷ 7 ∷ 7 ∷ 7 ∷ 7 ∷ 7 ∷ 7 ∷ 8 ∷ 8 ∷ 8 ∷ 8 ∷ 8 ∷ 8 ∷ 8 ∷ 8 ∷ 8 ∷ 8 ∷ 8 ∷ 8 ∷ 8 ∷ 8 ∷ 8 ∷ 8
    ∷ 8 ∷ 8 ∷ 8 ∷ 8 ∷ 8 ∷ 8 ∷ 8 ∷ 8 ∷ 8 ∷ 8 ∷ 8 ∷ 8 ∷ 8 ∷ 8 ∷ 8 ∷ 8 ∷ 8 ∷ 8 ∷ 8 ∷ 8 ∷ 8 ∷ 8 ∷ 8 ∷ 8
    ∷ 8 ∷ 8 ∷ 8 ∷ 8 ∷ 8 ∷ 8 ∷ 8 ∷ 8 ∷ 8 ∷ 8 ∷ 8 ∷ 8 ∷ 8 ∷ 8 ∷ 8 ∷ 8 ∷ 8 ∷ 8 ∷ 8 ∷ 8 ∷ 8 ∷ 8 ∷ 8 ∷ 8
    ∷ 8 ∷ 8 ∷ 8 ∷ 8 ∷ 8 ∷ 8 ∷ 8 ∷ 8 ∷ 8 ∷ 8 ∷ 8 ∷ 8 ∷ 8 ∷ 8 ∷ 8 ∷ 8 ∷ 8 ∷ 8 ∷ 8 ∷ 8 ∷ 8 ∷ 8 ∷ 8 ∷ 8
    ∷ 8 ∷ 8 ∷ 8 ∷ 8 ∷ 8 ∷ 8 ∷ 8 ∷ 8 ∷ 8 ∷ 8 ∷ 8 ∷ 8 ∷ 8 ∷ 8 ∷ 8 ∷ 8 ∷ 8 ∷ 8 ∷ 8 ∷ 8 ∷ 8 ∷ 8 ∷ 8 ∷ 8
    ∷ 8 ∷ 8 ∷ 8 ∷ 8 ∷ 8 ∷ 8 ∷ 8 ∷ 8 ∷ 8 ∷ 8 ∷ 8 ∷ 8 ∷ 8 ∷ 8 ∷ 8 ∷ 8 ∷ []

-- leadingZeros on a uint32.
unfoldable pub leading_zeros : ℕ → ℕ
leading_zeros x =
    let high = leb (2 ^ 16) x in
    let y = if high then x / 2 ^ 16 else x in
    let n = if high then 16 else 0 in
    if leb (2 ^ 8) y
    then 32 - (n + 8 + get_or length_table (y / 2 ^ 8) 0)
    else 32 - (n + get_or length_table y 0)

-- A shift by the uint of -1 leaves nothing.
unfoldable pub table_size : ℕ → ℕ
unfolding leading_zeros
table_size blocks =
    let shift = 32 - leading_zeros (blocks % 2 ^ 32) in
    let sz = if shift == 0 then 0 else 2 ^ (shift - 1) in if ltb sz blocks then sz * 2 else sz

pub record Scanner : Type 0 where
  pub table : List ℕ
  pub entries : List ℕ
  pub next : List ℕ
  pub mask : ℕ
  pub count : ℕ

-- One round of the loop of scan at `ptr`: the key, and the scanner.
abbrev found_again : ℕ → ℕ → ℕ → Scanner → Option (ℕ × Scanner)
found_again key head ptr s =
    write s.entries head ptr >>= λ entries. some (key, record s { entries = entries })

abbrev new_entry : ℕ → ℕ → ℕ → ℕ → Scanner → Option (ℕ × Scanner)
new_entry key index head ptr s = write s.entries (s.count + 1) ptr >>= λ entries.
    write s.next (s.count + 1) head >>= λ next. write s.table index (s.count + 1) >>= λ table.
    some (
      key,
      record { table = table; entries = entries; next = next; mask = s.mask; count = s.count + 1 },
    )

unfoldable pub scan_block : Bytes → ℕ → ℕ → Scanner → Option (ℕ × Scanner)
scan_block buf ptr last s = hash_block buf ptr >>= λ key.
    get_elem? s.table (bit_and key s.mask) >>= λ head.
    if not (head == 0) && last == key
    then found_again key head ptr s
    else new_entry key (bit_and key s.mask) head ptr s

-- The loop of scan from the block `k` down to the first.
unfoldable pub scan_loop : Bytes → ℕ → ℕ → Scanner → Option Scanner
unfolding scan_block
scan_loop buf zero last s = scan_block buf 0 last s >>= λ r. some r.1
scan_loop buf (suc k) last s =
    scan_block buf (suc k * block_size) last s >>= λ r. scan_loop buf k r.0 r.1

abbrev pub empty_scanner : Scanner
empty_scanner = record { table = []; entries = []; next = []; mask = 0; count = 0 }

abbrev pub fresh_scanner : ℕ → Scanner
fresh_scanner blocks = record {
  table = replicate (table_size blocks) 0;
  entries = replicate (blocks + 1) 0;
  next = replicate (blocks + 1) 0;
  mask = table_size blocks - 1;
  count = 0;
}

abbrev pub scanner_for : Bytes → ℕ → Option Scanner
scanner_for buf zero = some empty_scanner
scanner_for buf (suc k) = scan_loop buf k 0 (fresh_scanner (suc k))

unfoldable pub new_delta_index_scanner : Bytes → Option Scanner
unfolding scan_loop
new_delta_index_scanner buf = scanner_for buf (length buf / block_size)

-- The inner loop of countEntries from `h`, where the chain may go on for `left` entries after this one: the
-- size of the chain and the list of next entries, which is cut behind the last one that is allowed.
unfoldable pub chain_loop : ℕ → ℕ → List ℕ → Option (ℕ × List ℕ)
chain_loop zero h next = write next h 0 >>= λ next'. some (1, next')
chain_loop (suc left) h next = get_elem? next h >>= λ h'.
    if h' == 0 then some (1, next) else (chain_loop left h' next >>= λ r. some (suc r.0, r.1))

unfoldable pub count_entries : List ℕ → List ℕ → Option (ℕ × List ℕ)
unfolding chain_loop
count_entries [] next = some (0, next)
count_entries (h ∷ table) next =
    let rest = count_entries table next in
    let chain = chain_loop (max_chain_length - 1) h next >>= λ r.
    count_entries table r.1 >>= λ r'. some (r.0 + r'.0, r'.1) in
    if h == 0 then rest else chain

-- The inner loop of copyEntries, with a bound on its rounds: the next free place and the entries.
unfoldable pub copy_chain : ℕ → ℕ → Scanner → ℕ → List ℕ → Option (ℕ × List ℕ)
copy_chain zero h s place entries = none
copy_chain (suc fuel) h s place entries = get_elem? s.entries h >>= λ e.
    write entries place e >>= λ entries'. get_elem? s.next h >>= λ h'.
    if h' == 0 then some (suc place, entries') else copy_chain fuel h' s (suc place) entries'

-- The table, as far as it goes, and the entries.
unfoldable pub copy_entries : List ℕ → Scanner → ℕ → List ℕ → Option (List ℕ × List ℕ)
unfolding copy_chain
copy_entries [] s place entries = some ([], entries)
copy_entries (h ∷ table) s place entries =
    let rest = copy_entries table s place entries >>= λ r. some (0 ∷ r.0, r.1) in
    let chain = copy_chain max_chain_length h s place entries >>= λ r.
    copy_entries table s r.0 r.1 >>= λ r'. some (place ∷ r'.0, r'.1) in
    if h == 0 then rest else chain

pub record DeltaIndex : Type 0 where
  pub table : List ℕ
  pub entries : List ℕ
  pub mask : ℕ

unfoldable pub init : Bytes → Option DeltaIndex
unfolding new_delta_index_scanner count_entries copy_entries
init buf = new_delta_index_scanner buf >>= λ s. count_entries s.table s.next >>= λ c.
    copy_entries s.table (record s { next = c.1 }) 1 (replicate (c.0 + 1) 0) >>= λ r.
    some (record { table = r.0; entries = r.1; mask = s.mask })

-- matchLength, on what the source and the target have from their offsets on.
unfoldable pub match_length : Bytes → Bytes → ℕ
match_length [] tgt = 0
match_length (b ∷ src) [] = 0
match_length (b ∷ src) (c ∷ tgt) = let rest = match_length src tgt in if b == c then suc rest else 0

unfoldable pub find_match : DeltaIndex → Bytes → Bytes → ℕ → Option Match
unfolding match_length
find_match idx src tgt i =
    if ltb (length tgt) (i + block_size)
    then some (match 0 (length tgt - i))
    else if ltb (length src) block_size
    then some short_source
    else (hash_block tgt i >>= λ h. get_elem? idx.table (bit_and h idx.mask) >>= λ e.
        if e == 0
        then some (match 0 0)
        else (get_elem? idx.entries e >>= λ o.
            some (match o (match_length (drop o src) (drop i tgt)))))

abbrev pub found : Option Match → Match
found none = match 0 0
found (some m) = m

abbrev pub is_found : Option Match → Bool
is_found none = false
is_found (some m) = true

-- Whether no search below a position panics.
unfoldable pub all_found : (ℕ → Option Match) → ℕ → Bool
all_found find zero = true
all_found find (suc n) = is_found (find n) && all_found find n

-- DiffDelta, where a panic of init, or of the search at any position of the target, gives `none`.
unfoldable pub diff_delta_of : Bytes → Bytes → Option Bytes
unfolding init find_match all_found diff_delta
diff_delta_of src tgt = init src >>= λ idx.
    if all_found (λ i. find_match idx src tgt i) (length tgt)
    then some (diff_delta (λ i. found (find_match idx src tgt i)) src tgt)
    else none
