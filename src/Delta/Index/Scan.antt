-- ===== src/Delta/Index/Scan.antt =====
-- The scanner of delta_index.go: the size of its table, and that no index of its loop is out of range.
use ai_experimental_search.Base.{
  ℕ, zero, suc, ◌+◌, ◌-◌, ◌*◌, ◌/◌, ◌%◌, ◌^◌, ◌≤◌, ◌<◌, ◌≡◌, inl, inr, refl, ◌∙◌, Bool, true, false,
  not, ◌&&◌, ◌||◌, some, ltb, leb, ◌==◌, bit_and, length, get_or, set, All, Bool-cases,
  if◌then◌else◌, Bytes, length-replicate, arith,
}
use ai_experimental_search.Base.Bits.{bit_and_le, all_bytes, holds_below}
use ai_experimental_search.Delta.Diff.{block_size}
use ai_experimental_search.Delta.Hash.{hash_block-total}
use ai_experimental_search.Delta.Index.{
  length_table, leading_zeros, table_size, Scanner, scan_block, scan_loop, found_again, new_entry,
  fresh_scanner, scanner_for, new_delta_index_scanner,
}
use ai_experimental_search.Delta.Index.Arrays.{
  get_in_range, All-get, All-set, All-replicate, length-set, write_in_range,
}
use native.Mathlib.Nat.{one-le-pow}

abbrev tabled : ℕ → Bool
tabled x = x == 0 || leb 1 (get_or length_table x 0)

tabled-all : (x : ℕ) → x < 256 → tabled x ≡ true
unfolding holds_below
tabled-all = all_bytes tabled refl

length_table-positive : (x : ℕ) → 0 < x → x < 256 → 1 ≤ get_or length_table x 0
length_table-positive x p h = positive (get_or length_table x 0) (tabled-all x h)
  where
    positive : (v : ℕ) → (x == 0 || leb 1 v) ≡ true → 1 ≤ v
    positive v e = ground (arith, e, p)

leading_zeros_bound : (x : ℕ) → 0 < x → x < 2 ^ 32 → leading_zeros x ≤ 31
unfolding leading_zeros
leading_zeros_bound x p h = elim (Bool-cases (leb (2 ^ 16) x)) [
  | inl a ↦ rw a (elim (Bool-cases (leb (2 ^ 8) (x / 2 ^ 16))) [
    | inl b ↦ rw b (omega arith)
    | inr b ↦ rw b (omega arith)
  ])
  | inr a ↦ rw a (elim (Bool-cases (leb (2 ^ 8) x)) [
    | inl b ↦ rw b (omega arith)
    | inr b ↦ rw b (below (get_or length_table x 0) (length_table-positive x p (small b)))
  ])
]
  where
    below : (v : ℕ) → 1 ≤ v → 32 - (0 + v) ≤ 31
    below v l = omega (arith, l)

    small : leb (2 ^ 8) x ≡ false → x < 256
    small b = ground (arith, b)

-- The table of a scanner is not empty.
table_size-positive : (blocks : ℕ) → 0 < blocks → blocks < 2 ^ 32 → 0 < table_size blocks
unfolding table_size
table_size-positive blocks p h =
    let whole : blocks % 2 ^ 32 ≡ blocks = omega (arith, h) in
    let low : leading_zeros blocks ≤ 31 = leading_zeros_bound blocks p h in
    let not_zero : (32 - leading_zeros blocks == 0) ≡ false = ground (arith, low) in
    let power : 1 ≤ 2 ^ (32 - leading_zeros blocks - 1) =
      one-le-pow (32 - leading_zeros blocks - 1) 2 (omega arith) in
    rw (whole, not_zero) (doubled (2 ^ (32 - leading_zeros blocks - 1)) power)
  where
    doubled : (sz : ℕ) → 1 ≤ sz → 0 < (if ltb sz blocks then sz * 2 else sz)
    doubled sz l = ground (arith, l)

-- A scanner over arrays for `n` entries with room for `m` more.
pub record IsSound (n m : ℕ) (s : Scanner) : Type 0 where
  pub mask_fits : s.mask < length s.table
  pub table_values : All (λ (x : ℕ). x < suc n) s.table
  pub next_values : All (λ (x : ℕ). x < suc n) s.next
  pub entries_length : length s.entries ≡ suc n
  pub next_length : length s.next ≡ suc n
  pub room : s.count + m ≤ n

fresh-IsSound : (n : ℕ) → 0 < n → n < 2 ^ 32 → IsSound n n (fresh_scanner n)
fresh-IsSound n p h = record {
  mask_fits = omega (arith, table_size-positive n p h, length-replicate {A = ℕ} (table_size n) 0);
  table_values = All-replicate (suc n) (table_size n) (omega arith);
  next_values = All-replicate (suc n) (n + 1) (omega arith);
  entries_length = omega (arith, length-replicate {A = ℕ} (n + 1) 0);
  next_length = omega (arith, length-replicate {A = ℕ} (n + 1) 0);
  room = omega arith;
}

found_again-IsSound :
    (n m key head ptr : ℕ) (s : Scanner)
    → IsSound n (suc m) s
    → head < suc n
    → (r : ℕ × Scanner) × (found_again key head ptr s ≡ some r) × IsSound n m r.1
found_again-IsSound n m key head ptr s v h = (
  (key, record s { entries = set s.entries head ptr }),
  rw (write_in_range s.entries head ptr (omega (arith, h, v.entries_length))) refl,
  record {
    mask_fits = v.mask_fits;
    table_values = v.table_values;
    next_values = v.next_values;
    entries_length = length-set s.entries head ptr ∙ v.entries_length;
    next_length = v.next_length;
    room = omega (arith, v.room);
  },
)

new_entry-IsSound :
    (n m key index head ptr : ℕ) (s : Scanner)
    → IsSound n (suc m) s
    → head < suc n
    → index < length s.table
    → (r : ℕ × Scanner) × (new_entry key index head ptr s ≡ some r) × IsSound n m r.1
new_entry-IsSound n m key index head ptr s v h k = (
  (
    key,
    record {
      table = set s.table index (s.count + 1);
      entries = set s.entries (s.count + 1) ptr;
      next = set s.next (s.count + 1) head;
      mask = s.mask;
      count = s.count + 1;
    },
  ),
  rw
      (
        write_in_range s.entries (s.count + 1) ptr (omega (arith, v.room, v.entries_length)),
        write_in_range s.next (s.count + 1) head (omega (arith, v.room, v.next_length)),
        write_in_range s.table index (s.count + 1) k,
      )
      refl,
  record {
    mask_fits = omega (arith, v.mask_fits, length-set s.table index (s.count + 1));
    table_values =
        All-set (suc n) s.table index (s.count + 1) v.table_values (omega (arith, v.room));
    next_values = All-set (suc n) s.next (s.count + 1) head v.next_values h;
    entries_length = length-set s.entries (s.count + 1) ptr ∙ v.entries_length;
    next_length = length-set s.next (s.count + 1) head ∙ v.next_length;
    room = omega (arith, v.room);
  },
)

scan_block-IsSound :
    (buf : Bytes) (n m ptr last : ℕ) (s : Scanner)
    → ptr + 16 ≤ length buf
    → IsSound n (suc m) s
    → (r : ℕ × Scanner) × (scan_block buf ptr last s ≡ some r) × IsSound n m r.1
unfolding scan_block
scan_block-IsSound buf n m ptr last s p v =
    let (key, e) = hash_block-total buf ptr p in
    let inside : bit_and key s.mask < length s.table =
      omega (arith, bit_and_le key s.mask, v.mask_fits) in
    let (head, f) = get_in_range s.table (bit_and key s.mask) inside in
    let low : head < suc n = All-get (suc n) s.table (bit_and key s.mask) head v.table_values f in
    rw (e, f)
      (elim (Bool-cases (not (head == 0) && last == key)) [
        | inl c ↦ rw c (found_again-IsSound n m key head ptr s v low)
        | inr c ↦ rw c (new_entry-IsSound n m key (bit_and key s.mask) head ptr s v low inside)
      ])

scan_loop-IsSound :
    (buf : Bytes) (n k last : ℕ) (s : Scanner)
    → suc k * 16 ≤ length buf
    → IsSound n (suc k) s
    → (t : Scanner) × (scan_loop buf k last s ≡ some t) × IsSound n 0 t
unfolding scan_loop
scan_loop-IsSound buf n zero last s p v =
    let (r, e, w) = scan_block-IsSound buf n 0 0 last s (omega (arith, p)) v in (r.1, rw e refl, w)
scan_loop-IsSound buf n (suc k) last s p v =
    let (r, e, w) =
      scan_block-IsSound buf n (suc k) (suc k * block_size) last s (omega (arith, p)) v in
    let (t, f, u) = scan_loop-IsSound buf n k r.0 r.1 (omega (arith, p)) w in (t, rw e f, u)

-- A scanner for a source of at least one block.
pub scanner-IsSound :
    (buf : Bytes)
    → block_size ≤ length buf
    → length buf < 2 ^ 32
    → (s : Scanner) × (new_delta_index_scanner buf ≡ some s) × IsSound (length buf / block_size) 0 s
unfolding new_delta_index_scanner
scanner-IsSound buf p h =
    scanner (length buf / block_size) (omega (arith, p)) (omega (arith, h)) (omega arith)
  where
    scanner :
        (n : ℕ)
        → 0 < n
        → n < 2 ^ 32
        → n * 16 ≤ length buf
        → (s : Scanner) × (scanner_for buf n ≡ some s) × IsSound n 0 s
    scanner zero l m q = absurd (omega (arith, l))
    scanner (suc k) l m q =
        scan_loop-IsSound buf (suc k) k 0 (fresh_scanner (suc k)) q (fresh-IsSound (suc k) l m)
