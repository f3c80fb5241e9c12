-- ===== src/Delta/Index/Ready.antt =====
-- copyEntries and init of delta_index.go: no index is out of range, and the index that is made is one that
-- can be searched.
use ai_experimental_search.Base.{
  ℕ, zero, suc, ◌+◌, ◌/◌, ◌^◌, ◌≤◌, ◌<◌, ◌≡◌, inl, inr, refl, sym, subst, ◌∙◌, some, List, [], ◌∷◌,
  ◌==◌, ==_iff, length, get_elem?, set, replicate, All, Bool-cases, Bytes, length-replicate, arith,
}
use ai_experimental_search.Delta.Diff.{block_size}
use ai_experimental_search.Delta.Index.{
  Scanner, DeltaIndex, count_entries, copy_chain, copy_entries, new_delta_index_scanner, init,
}
use ai_experimental_search.Delta.Index.Arrays.{get_in_range, length-set, write_in_range}
use ai_experimental_search.Delta.Index.Scan.{scanner-IsSound}
use ai_experimental_search.Delta.Index.Entries.{Within, Fits, count_entries-Fits}

get_in_range_iff : (l : List ℕ) (i v : ℕ) → get_elem? l i ≡ some v → i < length l
get_in_range_iff [] i v e = cc
get_in_range_iff (x ∷ l) zero v e = omega arith
get_in_range_iff (x ∷ l) (suc i) v e = omega (arith, get_in_range_iff l i v e)

copy_chain-lem :
    (fuel k h : ℕ) (s : Scanner) (place : ℕ) (entries : List ℕ)
    → length s.next ≤ length s.entries
    → Within s.next h k
    → k ≤ fuel
    → place + k ≤ length entries
    → (r : ℕ × List ℕ) × (copy_chain fuel h s place entries ≡ some r)
      × (place < length entries)
      × (r.0 ≤ place + k)
      × (length r.1 ≡ length entries)
unfolding copy_chain
copy_chain-lem fuel zero h s place entries q w b p = absurd w
copy_chain-lem zero (suc k) h s place entries q w b p = absurd (omega (arith, b))
copy_chain-lem (suc fuel) (suc k) h s place entries q (v, e, w) b p =
    let (offset, f) = get_in_range s.entries h (omega (arith, q, get_in_range_iff s.next h v e)) in
    let free : place < length entries = omega (arith, p) in
    let set_length = length-set entries place offset in
    rw (f, write_in_range entries place offset free, e)
      (elim (Bool-cases (v == 0)) [
        | inl z ↦ rw z ((suc place, set entries place offset), refl, free, omega arith, set_length)
        | inr z ↦ rw z (elim w [
          | inl z' ↦ cc ((==_iff v 0).1 z')
          | inr w' ↦
              let (r, g, l, m, n) =
                copy_chain-lem fuel k v s (suc place) (set entries place offset) q w'
                  (omega (arith, b)) (omega (arith, p, set_length)) in
              (r, g, free, omega (arith, m), n ∙ set_length)
        ])
      ])

copy_entries-lem :
    (table : List ℕ) (s : Scanner) (place total : ℕ) (entries : List ℕ)
    → length s.next ≤ length s.entries
    → Fits table s.next total
    → place + total ≤ length entries
    → 0 < length entries
    → (r : List ℕ × List ℕ) × (copy_entries table s place entries ≡ some r)
      × (length r.0 ≡ length table)
      × All (λ (x : ℕ). x < length entries) r.0
      × (length r.1 ≡ length entries)
unfolding copy_entries
copy_entries-lem [] s place total entries q f p z = (([], entries), refl, refl, tt, refl)
copy_entries-lem (h ∷ table) s place total entries q (inl (e, f)) p z =
    let (r, g, l, a, n) = copy_entries-lem table s place total entries q f p z in
    rw ((==_iff h 0).1 e, g) ((0 ∷ r.0, r.1), refl, omega (arith, l), (z, a), n)
copy_entries-lem (h ∷ table) s place total entries q (inr (k, rest, t, b, w, f)) p z =
    elim (Bool-cases (h == 0)) [
      | inl e ↦
          let (r, g, l, a, n) =
            copy_entries-lem table s place rest entries q f (omega (arith, p, t)) z in
          rw (e, g) ((0 ∷ r.0, r.1), refl, omega (arith, l), (z, a), n)
      | inr e ↦
          let (c, g, free, le, same) =
            copy_chain-lem 64 k h s place entries q w b (omega (arith, p, t)) in
          let (r, g', l, a, n) =
            copy_entries-lem table s c.0 rest c.1 q f (omega (arith, p, t, le, same))
              (omega (arith, z, same)) in
          rw (e, g, g')
            (
              (place ∷ r.0, r.1),
              refl,
              omega (arith, l),
              (free, subst (λ (m : ℕ). All (λ (x : ℕ). x < m) r.0) same a),
              n ∙ same,
            )
    ]

-- An index that can be searched: the mask stays in the table, and the table's values are places of entries.
pub record IsReady (idx : DeltaIndex) : Type 0 where
  pub mask_fits : idx.mask < length idx.table
  pub places : All (λ (x : ℕ). x < length idx.entries) idx.table

-- The index of a source that has a block at least and less than 4 GiB: init indexes no array out of range,
-- and makes an index in which no search does.
pub init-IsReady :
    (buf : Bytes)
    → block_size ≤ length buf
    → length buf < 2 ^ 32
    → (idx : DeltaIndex) × (init buf ≡ some idx) × IsReady idx
unfolding init
init-IsReady buf p h =
    let (s, e, v) = scanner-IsSound buf p h in
    let next_values : All (λ (x : ℕ). x < length s.next) s.next =
      rw (sym v.next_length) at v.next_values in
    let table_values : All (λ (x : ℕ). x < length s.next) s.table =
      rw (sym v.next_length) at v.table_values in
    let (total, next2, f, fits, c) = count_entries-Fits s.table s.next table_values next_values in
    let empty_length = length-replicate {A = ℕ} (total + 1) 0 in
    let (r, g, l, a, n) =
      copy_entries-lem s.table (record s { next = next2 }) 1 total (replicate (total + 1) 0)
        (omega (arith, c.same_length, v.next_length, v.entries_length)) fits
        (omega (arith, empty_length)) (omega (arith, empty_length)) in
    (
      record { table = r.0; entries = r.1; mask = s.mask },
      rw (e, f, g) refl,
      record {
        mask_fits = omega (arith, v.mask_fits, l);
        places = subst (λ (m : ℕ). All (λ (x : ℕ). x < m) r.0) (sym n) a;
      },
    )

-- The index of a shorter source.
pub init_short :
    (buf : Bytes) → length buf < block_size → (idx : DeltaIndex) × (init buf ≡ some idx)
unfolding init new_delta_index_scanner count_entries copy_entries
init_short buf p =
    let none_whole : length buf / block_size ≡ 0 = omega (arith, p) in
    (record { table = []; entries = 0 ∷ []; mask = 0 }, rw none_whole refl)
