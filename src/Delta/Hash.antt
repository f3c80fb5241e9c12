-- ===== src/Delta/Hash.antt =====
-- hashBlock (plumbing/format/packfile/delta_index.go): the hash of the sixteen bytes of a block, with its
-- table. A read out of range, which panics, is `none`.
use ai_experimental_search.Base.{
  ℕ, zero, suc, ◌+◌, ◌*◌, ◌/◌, ◌%◌, ◌^◌, ◌≤◌, ◌<◌, ◌≡◌, refl, sym, ap, ◌∙◌, Bool, true, false,
  Option, none, some, List, [], ◌∷◌, ◌==◌, ==_iff, bit_xor, get_elem?, length, take, drop,
  if◌then◌else◌, Bytes, ◌>>=◌, arith, length-take, length-drop,
}
use ai_experimental_search.Base.Bits.{all_bytes, holds_below, bit_xor_div}

abbrev pub hash_table : List ℕ
hash_table =
    0x00000000 ∷ 0xd4c6b32d ∷ 0x7d4bd577 ∷ 0xa98d665a ∷ 0x2e5119c3 ∷ 0xfa97aaee ∷ 0x531accb4
    ∷ 0x87dc7f99 ∷ 0x5ca23386 ∷ 0x886480ab ∷ 0x21e9e6f1 ∷ 0xf52f55dc ∷ 0x72f32a45 ∷ 0xa6359968
    ∷ 0x0fb8ff32 ∷ 0xdb7e4c1f ∷ 0x6d82d421 ∷ 0xb944670c ∷ 0x10c90156 ∷ 0xc40fb27b ∷ 0x43d3cde2
    ∷ 0x97157ecf ∷ 0x3e981895 ∷ 0xea5eabb8 ∷ 0x3120e7a7 ∷ 0xe5e6548a ∷ 0x4c6b32d0 ∷ 0x98ad81fd
    ∷ 0x1f71fe64 ∷ 0xcbb74d49 ∷ 0x623a2b13 ∷ 0xb6fc983e ∷ 0x0fc31b6f ∷ 0xdb05a842 ∷ 0x7288ce18
    ∷ 0xa64e7d35 ∷ 0x219202ac ∷ 0xf554b181 ∷ 0x5cd9d7db ∷ 0x881f64f6 ∷ 0x536128e9 ∷ 0x87a79bc4
    ∷ 0x2e2afd9e ∷ 0xfaec4eb3 ∷ 0x7d30312a ∷ 0xa9f68207 ∷ 0x007be45d ∷ 0xd4bd5770 ∷ 0x6241cf4e
    ∷ 0xb6877c63 ∷ 0x1f0a1a39 ∷ 0xcbcca914 ∷ 0x4c10d68d ∷ 0x98d665a0 ∷ 0x315b03fa ∷ 0xe59db0d7
    ∷ 0x3ee3fcc8 ∷ 0xea254fe5 ∷ 0x43a829bf ∷ 0x976e9a92 ∷ 0x10b2e50b ∷ 0xc4745626 ∷ 0x6df9307c
    ∷ 0xb93f8351 ∷ 0x1f8636de ∷ 0xcb4085f3 ∷ 0x62cde3a9 ∷ 0xb60b5084 ∷ 0x31d72f1d ∷ 0xe5119c30
    ∷ 0x4c9cfa6a ∷ 0x985a4947 ∷ 0x43240558 ∷ 0x97e2b675 ∷ 0x3e6fd02f ∷ 0xeaa96302 ∷ 0x6d751c9b
    ∷ 0xb9b3afb6 ∷ 0x103ec9ec ∷ 0xc4f87ac1 ∷ 0x7204e2ff ∷ 0xa6c251d2 ∷ 0x0f4f3788 ∷ 0xdb8984a5
    ∷ 0x5c55fb3c ∷ 0x88934811 ∷ 0x211e2e4b ∷ 0xf5d89d66 ∷ 0x2ea6d179 ∷ 0xfa606254 ∷ 0x53ed040e
    ∷ 0x872bb723 ∷ 0x00f7c8ba ∷ 0xd4317b97 ∷ 0x7dbc1dcd ∷ 0xa97aaee0 ∷ 0x10452db1 ∷ 0xc4839e9c
    ∷ 0x6d0ef8c6 ∷ 0xb9c84beb ∷ 0x3e143472 ∷ 0xead2875f ∷ 0x435fe105 ∷ 0x97995228 ∷ 0x4ce71e37
    ∷ 0x9821ad1a ∷ 0x31accb40 ∷ 0xe56a786d ∷ 0x62b607f4 ∷ 0xb670b4d9 ∷ 0x1ffdd283 ∷ 0xcb3b61ae
    ∷ 0x7dc7f990 ∷ 0xa9014abd ∷ 0x008c2ce7 ∷ 0xd44a9fca ∷ 0x5396e053 ∷ 0x8750537e ∷ 0x2edd3524
    ∷ 0xfa1b8609 ∷ 0x2165ca16 ∷ 0xf5a3793b ∷ 0x5c2e1f61 ∷ 0x88e8ac4c ∷ 0x0f34d3d5 ∷ 0xdbf260f8
    ∷ 0x727f06a2 ∷ 0xa6b9b58f ∷ 0x3f0c6dbc ∷ 0xebcade91 ∷ 0x4247b8cb ∷ 0x96810be6 ∷ 0x115d747f
    ∷ 0xc59bc752 ∷ 0x6c16a108 ∷ 0xb8d01225 ∷ 0x63ae5e3a ∷ 0xb768ed17 ∷ 0x1ee58b4d ∷ 0xca233860
    ∷ 0x4dff47f9 ∷ 0x9939f4d4 ∷ 0x30b4928e ∷ 0xe47221a3 ∷ 0x528eb99d ∷ 0x86480ab0 ∷ 0x2fc56cea
    ∷ 0xfb03dfc7 ∷ 0x7cdfa05e ∷ 0xa8191373 ∷ 0x01947529 ∷ 0xd552c604 ∷ 0x0e2c8a1b ∷ 0xdaea3936
    ∷ 0x73675f6c ∷ 0xa7a1ec41 ∷ 0x207d93d8 ∷ 0xf4bb20f5 ∷ 0x5d3646af ∷ 0x89f0f582 ∷ 0x30cf76d3
    ∷ 0xe409c5fe ∷ 0x4d84a3a4 ∷ 0x99421089 ∷ 0x1e9e6f10 ∷ 0xca58dc3d ∷ 0x63d5ba67 ∷ 0xb713094a
    ∷ 0x6c6d4555 ∷ 0xb8abf678 ∷ 0x11269022 ∷ 0xc5e0230f ∷ 0x423c5c96 ∷ 0x96faefbb ∷ 0x3f7789e1
    ∷ 0xebb13acc ∷ 0x5d4da2f2 ∷ 0x898b11df ∷ 0x20067785 ∷ 0xf4c0c4a8 ∷ 0x731cbb31 ∷ 0xa7da081c
    ∷ 0x0e576e46 ∷ 0xda91dd6b ∷ 0x01ef9174 ∷ 0xd5292259 ∷ 0x7ca44403 ∷ 0xa862f72e ∷ 0x2fbe88b7
    ∷ 0xfb783b9a ∷ 0x52f55dc0 ∷ 0x8633eeed ∷ 0x208a5b62 ∷ 0xf44ce84f ∷ 0x5dc18e15 ∷ 0x89073d38
    ∷ 0x0edb42a1 ∷ 0xda1df18c ∷ 0x739097d6 ∷ 0xa75624fb ∷ 0x7c2868e4 ∷ 0xa8eedbc9 ∷ 0x0163bd93
    ∷ 0xd5a50ebe ∷ 0x52797127 ∷ 0x86bfc20a ∷ 0x2f32a450 ∷ 0xfbf4177d ∷ 0x4d088f43 ∷ 0x99ce3c6e
    ∷ 0x30435a34 ∷ 0xe485e919 ∷ 0x63599680 ∷ 0xb79f25ad ∷ 0x1e1243f7 ∷ 0xcad4f0da ∷ 0x11aabcc5
    ∷ 0xc56c0fe8 ∷ 0x6ce169b2 ∷ 0xb827da9f ∷ 0x3ffba506 ∷ 0xeb3d162b ∷ 0x42b07071 ∷ 0x9676c35c
    ∷ 0x2f49400d ∷ 0xfb8ff320 ∷ 0x5202957a ∷ 0x86c42657 ∷ 0x011859ce ∷ 0xd5deeae3 ∷ 0x7c538cb9
    ∷ 0xa8953f94 ∷ 0x73eb738b ∷ 0xa72dc0a6 ∷ 0x0ea0a6fc ∷ 0xda6615d1 ∷ 0x5dba6a48 ∷ 0x897cd965
    ∷ 0x20f1bf3f ∷ 0xf4370c12 ∷ 0x42cb942c ∷ 0x960d2701 ∷ 0x3f80415b ∷ 0xeb46f276 ∷ 0x6c9a8def
    ∷ 0xb85c3ec2 ∷ 0x11d15898 ∷ 0xc517ebb5 ∷ 0x1e69a7aa ∷ 0xcaaf1487 ∷ 0x632272dd ∷ 0xb7e4c1f0
    ∷ 0x3038be69 ∷ 0xe4fe0d44 ∷ 0x4d736b1e ∷ 0x99b5d833 ∷ []

-- One step; the byte takes the room that the shift leaves, so `|` adds it.
unfoldable pub hash_step : ℕ → ℕ → Option ℕ
hash_step hash b =
    get_elem? hash_table (hash / 2 ^ 23) >>= λ t. some (bit_xor (hash * 256 % 2 ^ 32 + b % 256) t)

unfoldable pub hash_rest : ℕ → Bytes → Option ℕ
unfolding hash_step
hash_rest hash [] = some hash
hash_rest hash (b ∷ bs) = hash_step hash b >>= λ hash'. hash_rest hash' bs

-- The first four bytes, of which the first one's top bit chooses.
unfoldable pub hash_first : ℕ → Option ℕ
hash_first hash = get_elem? hash_table (hash / 2 ^ 31) >>= λ t. some (bit_xor hash t)

unfoldable pub hash_of : Bytes → Option ℕ
unfolding hash_first hash_rest
hash_of (a ∷ b ∷ c ∷ d ∷ rest) =
    if length rest == 12
    then (hash_first (a % 256 * 2 ^ 24 + b % 256 * 2 ^ 16 + c % 256 * 2 ^ 8 + d % 256) >>= λ hash.
        hash_rest hash rest)
    else none
hash_of _ = none

unfoldable pub hash_block : Bytes → ℕ → Option ℕ
unfolding hash_of
hash_block raw ptr = hash_of (take 16 (drop ptr raw))

-- The top bit of each number of the table is the lowest bit of its index.
abbrev tops : ℕ → Bool
tops i = elim (get_elem? hash_table i) [ none ↦ false | some t ↦ t / 2 ^ 31 == i % 2 ]

tops-all : (i : ℕ) → i < 256 → tops i ≡ true
unfolding holds_below
tops-all = all_bytes tops refl

hash_table-get :
    (i : ℕ) → i < 256 → (t : ℕ) × (get_elem? hash_table i ≡ some t) × (t / 2 ^ 31 ≡ i % 2)
hash_table-get i h = got (get_elem? hash_table i) refl (tops-all i h)
  where
    got :
        (o : Option ℕ)
        → get_elem? hash_table i ≡ o
        → (elim o [ none ↦ false | some t ↦ t / 2 ^ 31 == i % 2 ]) ≡ true
        → (t : ℕ) × (get_elem? hash_table i ≡ some t) × (t / 2 ^ 31 ≡ i % 2)
    got none e c = cc
    got (some t) e c = (t, e, (==_iff (t / 2 ^ 31) (i % 2)).0 c)

-- Two numbers with the same top bit leave a number without it.
xor_clears : (x t : ℕ) → x < 2 ^ 32 → x / 2 ^ 31 ≡ t / 2 ^ 31 → bit_xor x t < 2 ^ 31
xor_clears x t h e =
    let same : bit_xor (x / 2 ^ 31) (t / 2 ^ 31) ≡ 0 =
      ap (λ (u : ℕ). bit_xor (x / 2 ^ 31) u) (sym e) ∙ xor_self (x / 2 ^ 31) (omega (arith, h)) in
    omega (arith, bit_xor_div 31 x t, same)
  where
    xor_self : (q : ℕ) → q < 2 → bit_xor q q ≡ 0
    xor_self zero l = refl
    xor_self (suc zero) l = refl
    xor_self (suc (suc q)) l = absurd (omega (arith, l))

hash_step-total :
    (hash b : ℕ) → hash < 2 ^ 31 → (next : ℕ) × (hash_step hash b ≡ some next) × (next < 2 ^ 31)
unfolding hash_step
hash_step-total hash b h =
    let (t, e, top) = hash_table-get (hash / 2 ^ 23) (omega (arith, h)) in
    (
      bit_xor (hash * 256 % 2 ^ 32 + b % 256) t,
      rw e refl,
      xor_clears (hash * 256 % 2 ^ 32 + b % 256) t (omega (arith, h)) (omega (arith, h, top)),
    )

hash_rest-total :
    (hash : ℕ) (bs : Bytes) → hash < 2 ^ 31 → (next : ℕ) × (hash_rest hash bs ≡ some next)
unfolding hash_rest
hash_rest-total hash [] h = (hash, refl)
hash_rest-total hash (b ∷ bs) h =
    let (next, e, l) = hash_step-total hash b h in
    let (last, f) = hash_rest-total next bs l in (last, rw e f)

hash_first-total :
    (hash : ℕ) → hash < 2 ^ 32 → (next : ℕ) × (hash_first hash ≡ some next) × (next < 2 ^ 31)
unfolding hash_first
hash_first-total hash h =
    let (t, e, top) = hash_table-get (hash / 2 ^ 31) (omega (arith, h)) in
    (bit_xor hash t, rw e refl, xor_clears hash t h (omega (arith, h, top)))

hash_of-total : (l : Bytes) → length l ≡ 16 → (hash : ℕ) × (hash_of l ≡ some hash)
unfolding hash_of
hash_of-total [] h = absurd (omega (arith, h))
hash_of-total (a ∷ []) h = absurd (omega (arith, h))
hash_of-total (a ∷ b ∷ []) h = absurd (omega (arith, h))
hash_of-total (a ∷ b ∷ c ∷ []) h = absurd (omega (arith, h))
hash_of-total (a ∷ b ∷ c ∷ d ∷ rest) h =
    let long : (length rest == 12) ≡ true = (==_iff (length rest) 12).1 (omega (arith, h)) in
    let (first, e, l) =
      hash_first-total (a % 256 * 2 ^ 24 + b % 256 * 2 ^ 16 + c % 256 * 2 ^ 8 + d % 256)
        (omega arith) in
    let (last, f) = hash_rest-total first rest l in (last, rw (long, e) f)

-- A block of sixteen bytes has a hash: every index into the table is in its range.
pub hash_block-total :
    (raw : Bytes) (ptr : ℕ) → ptr + 16 ≤ length raw → (hash : ℕ) × (hash_block raw ptr ≡ some hash)
unfolding hash_block
hash_block-total raw ptr h =
    hash_of-total (take 16 (drop ptr raw))
      (omega (arith, h, length-take 16 (drop ptr raw), length-drop ptr raw))
