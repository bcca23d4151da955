-- ===== src/Network/Cidr/Blocks.antt =====
-- The /30 blocks of a parsed CIDR, crates/oad/src/network.rs: they lie inside it, the u32 arithmetic
-- never wraps, and two blocks share no address.
use omniagent.Prelude.{
  ℕ, zero, suc, ◌+◌, ◌*◌, ◌-◌, ◌%◌, ◌/◌, ◌^◌, ◌≤◌, ◌<◌, ◌≡◌, refl, subst, Bool, true, false, ◌&&◌,
  Option, none, some, [], ◌∷◌, arith, Text, ok, bind_ok, ◌==◌, ==_iff, ltb, leb, Bool-cases,
  Option-cases, inl, inr,
}
use native.Mathlib.Nat.{pow-suc, div-add-mod, mul-mod_right}
use native.Mathlib.Decide.{dec_lt, ℕ_discrete}
use omniagent.Network.Parse.{
  split_once, parse_ipv4, parse_octets, parse_octet, parse_digits, at_most, parse_u8,
}
use omniagent.Network.Cidr.{
  u32_mod, NetworkError, invalid_cidr, invalid_prefix, Ipv4Cidr, masked, or_err, parse_ipv4_cidr,
  block_count_30, nth_30_pair,
}

-- The network address is below 2 ^ 32, and its bits behind the prefix are zero.
pub record IsBlock (c : Ipv4Cidr) : Type 0 where
  pub prefix_le : c.prefix ≤ 32
  pub aligned : c.network % 2 ^ (32 - c.prefix) ≡ 0
  pub in_range : c.network < u32_mod

-- A law of the prefixes, checked at each one that is at most a bound.
holds_up_to : (ℕ → Bool) → ℕ → Bool
holds_up_to law zero = law 0
holds_up_to law (suc bound) = holds_up_to law bound && law (suc bound)

holds_at : (law : ℕ → Bool) (bound p : ℕ) → p ≤ bound → holds_up_to law bound ≡ true → law p ≡ true
unfolding holds_up_to
holds_at law zero zero le checked = checked
holds_at law zero (suc p) le checked = absurd (omega arith)
holds_at law (suc bound) p le checked = elim (ℕ_discrete p (suc bound)) [
  | yes top ↦ ground arith
  | no lower ↦ holds_at law bound p (omega arith) (ground arith)
]

widths : holds_up_to (λ p. 2 ^ (32 - p) * 2 ^ p == u32_mod) 32 ≡ true
unfolding holds_up_to
widths = refl

quarters : holds_up_to (λ p. 2 ^ (32 - p) == 4 * 2 ^ (30 - p)) 30 ≡ true
unfolding holds_up_to
quarters = refl

pub width_split : (p : ℕ) → p ≤ 32 → 2 ^ (32 - p) * 2 ^ p ≡ u32_mod
width_split p h = (==_iff _ _).0 (holds_at _ 32 p h widths)

pub width_quarter : (p : ℕ) → p ≤ 30 → 2 ^ (32 - p) ≡ 4 * 2 ^ (30 - p)
width_quarter p h = (==_iff _ _).0 (holds_at _ 30 p h quarters)

at_most-le : (limit : ℕ) (o : Option ℕ) {n : ℕ} → at_most limit o ≡ some n → n ≤ limit
unfolding at_most
at_most-le limit none h = cc
at_most-le limit (some m) h = ground arith

parse_octet-le : (s : Text) {n : ℕ} → parse_octet s ≡ some n → n ≤ 255
unfolding parse_octet
parse_octet-le [] h = cc
parse_octet-le (c ∷ []) h = at_most-le 255 (parse_digits 0 (c ∷ [])) h
parse_octet-le (c ∷ d ∷ s) {n} h =
    ground (arith, at_most-le 255 (parse_digits 0 (c ∷ d ∷ s)) {n = n})

scale : (acc b w v : ℕ) → v < (acc * 256 + b + 1) * w → b ≤ 255 → v < (acc + 1) * (w * 256)
scale acc b w v h k = let low : b * w ≤ 255 * w = grind arith in omega arith

parse_octets-lt :
    (n acc : ℕ) (s : Text) {v : ℕ} → parse_octets n acc s ≡ some v → v < (acc + 1) * 256 ^ suc n
unfolding parse_octets
parse_octets-lt zero acc s {v} h = elim (Option-cases (parse_octet s)) [
  | inl e ↦ cc (h, e)
  | inr (b, e) ↦ ground (arith, parse_octet-le s e)
]
parse_octets-lt (suc n) acc s {v} h = elim (Option-cases (split_once b'.' s)) [
  | inl e ↦ cc (h, e)
  | inr ((a, rest), e) ↦ elim (Option-cases (parse_octet a)) [
    | inl f ↦ cc (h, e, f)
    | inr (b, f) ↦
        let step : v < (acc * 256 + b + 1) * 256 ^ suc n =
          parse_octets-lt n (acc * 256 + b) rest (ground arith) in
        let byte : b ≤ 255 = parse_octet-le a f in
        rw (pow-suc 256 (suc n)) (scale acc b (256 ^ suc n) v step byte)
  ]
]

pub or_err-ok :
    {A : Type 0} (e : NetworkError) (o : Option A) {a : A} → or_err e o ≡ ok a → o ≡ some a
unfolding or_err
or_err-ok e none h = cc
or_err-ok e (some b) h = cc

clear_low : (a w : ℕ) → (a - a % w) % w ≡ 0
clear_low a w =
    let multiple : a - a % w ≡ w * (a / w) = omega (arith, div-add-mod a w) in
    rw multiple (mul-mod_right w (a / w))

masked-IsBlock :
    (ip prefix : ℕ)
    → ip < u32_mod
    → prefix ≤ 32
    → IsBlock (record { network = masked ip prefix; prefix = prefix })
unfolding masked
masked-IsBlock ip prefix r p = record {
  prefix_le = p;
  aligned = clear_low ip (2 ^ (32 - prefix));
  in_range = omega arith;
}

-- Whatever `parse_ipv4_cidr` accepts is a block.
pub parse_ipv4_cidr-IsBlock :
    (value : Text) {c : Ipv4Cidr} → parse_ipv4_cidr value ≡ ok c → IsBlock c
unfolding parse_ipv4_cidr parse_ipv4
parse_ipv4_cidr-IsBlock value {c} h =
    let (parts, split, h1) = bind_ok (or_err (invalid_cidr value) (split_once b'/' value)) _ h in
    let (ip, parsed, h2) = bind_ok (or_err (invalid_cidr value) (parse_ipv4 parts.0)) _ h1 in
    let (prefix, read, h3) = bind_ok (or_err (invalid_prefix value) (parse_u8 parts.1)) _ h2 in
    let bound : ip < u32_mod =
      parse_octets-lt 3 0 parts.0 (or_err-ok _ (parse_ipv4 parts.0) parsed) in
    elim (Bool-cases (ltb 32 prefix)) [
      | inl over ↦ cc (h3, over)
      | inr fits ↦
          let made : record { network = masked ip prefix; prefix = prefix } ≡ c = ground arith in
          subst IsBlock made (masked-IsBlock ip prefix bound (ground arith))
    ]

block_end :
    (w m network : ℕ)
    → w * m ≡ u32_mod
    → network % w ≡ 0
    → network < u32_mod
    → network + w ≤ u32_mod
block_end w m network e a r =
    let whole : w * (network / w) + network % w ≡ network = div-add-mod network w in
    elim (dec_lt (network / w) m) [ yes lt ↦ grind arith | no ge ↦ absurd (grind arith) ]

-- The two addresses of block `index` stand at offsets 1 and 2 of the four addresses that start at
-- `network + 4 * index`; the block lies inside the CIDR, and nothing wraps.
pub nth_30_pair_bounds :
    (index : ℕ) (c : Ipv4Cidr) {host sandbox : ℕ}
    → IsBlock c
    → nth_30_pair index c ≡ ok (host, sandbox)
    → (host ≡ c.network + 4 * index + 1)
      × (sandbox ≡ c.network + 4 * index + 2)
      × (c.network + 4 * index + 4 ≤ c.network + 2 ^ (32 - c.prefix))
      × (c.network + 2 ^ (32 - c.prefix) ≤ u32_mod)
unfolding nth_30_pair block_count_30
nth_30_pair_bounds index c {host} {sandbox} b h = elim (Bool-cases (ltb 30 c.prefix)) [
  | inl small ↦ cc (h, small)
  | inr big ↦ elim (Bool-cases (leb (2 ^ (30 - c.prefix)) index)) [
    | inl over ↦ cc (h, big, over)
    | inr fits ↦
        let quarter : 2 ^ (32 - c.prefix) ≡ 4 * 2 ^ (30 - c.prefix) =
          width_quarter c.prefix (ground arith) in
        let inside : c.network + 2 ^ (32 - c.prefix) ≤ u32_mod =
          block_end (2 ^ (32 - c.prefix)) (2 ^ c.prefix) c.network
            (width_split c.prefix b.prefix_le) b.aligned b.in_range in
        let below : index < 2 ^ (30 - c.prefix) = ground arith in
        ground (arith, quarter, inside, below, b.in_range)
  ]
]

powers : holds_up_to (λ p. ltb 0 (2 ^ (30 - p)) && leb (2 ^ (30 - p)) 1073741824) 30 ≡ true
unfolding holds_up_to
powers = refl

power_bounds : (p : ℕ) → p ≤ 30 → (0 < 2 ^ (30 - p)) × (2 ^ (30 - p) ≤ 1073741824)
power_bounds p h =
    let both =
      holds_at (λ p. ltb 0 (2 ^ (30 - p)) && leb (2 ^ (30 - p)) 1073741824) 30 p h powers in
    ground arith

pub block_count_30_bounds :
    (c : Ipv4Cidr) {count : ℕ} → block_count_30 c ≡ ok count → (0 < count) × (count ≤ 1073741824)
unfolding block_count_30
block_count_30_bounds c h = elim (Bool-cases (ltb 30 c.prefix)) [
  | inl big ↦ cc (h, big)
  | inr small ↦ ground (arith, power_bounds c.prefix)
]

pub block_count_30-ok : (c : Ipv4Cidr) → c.prefix ≤ 30 → block_count_30 c ≡ ok (2 ^ (30 - c.prefix))
unfolding block_count_30
block_count_30-ok c h = ground arith

pub nth_30_pair-ok :
    (index : ℕ) (c : Ipv4Cidr)
    → c.prefix ≤ 30
    → index < 2 ^ (30 - c.prefix)
    → (ips : ℕ × ℕ) × (nth_30_pair index c ≡ ok ips)
unfolding nth_30_pair
nth_30_pair-ok index c h lt =
    let fits : leb (2 ^ (30 - c.prefix)) index ≡ false = ground arith in
    let base = (c.network + index * 4 % u32_mod) % u32_mod in
    (((base + 1) % u32_mod, (base + 2) % u32_mod), rw (block_count_30-ok c h, fits))
