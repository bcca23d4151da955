-- ===== src/Network/Alloc/Search.antt =====
-- The two searches of `allocate_state`, crates/oad/src/network.rs: what they find is free, and a
-- subnet is found as long as the sandboxes do not fill the CIDR.
use omniagent.Prelude.{
  ℕ, zero, suc, ◌+◌, ◌-◌, ◌%◌, ◌≤◌, ◌<◌, ◌≡◌, refl, subst, sym, ap, ◌∙◌, ◌≢◌, inl, inr, true, false,
  none, some, List, [], ◌∷◌, arith, Text, length, ◌==◌, if◌then◌else◌, Bool-cases, Option-cases,
}
use native.Mathlib.Nat.{mod-lt, mod-eq_of_lt, mod-eq-sub-mod}
use native.Mathlib.Decide.{ℕ_discrete, dec_le}
use omniagent.Core.Ids.{SandboxId}
use omniagent.Network.Alloc.{contains_index, contains_token, find_index, find_token}
use omniagent.Network.Cidr.{u32_mod}
use omniagent.Network.Hash.{salted_token}

reduce_low : (a m j : ℕ) → a ≡ j → j < m → m ≤ 1073741824 → a % u32_mod % m ≡ j
reduce_low a m j e lt b = rw (mod-eq_of_lt {n = a} {m = u32_mod} (omega arith), e) (mod-eq_of_lt lt)

reduce_high : (a m j : ℕ) → a ≡ j + m → j < m → m ≤ 1073741824 → a % u32_mod % m ≡ j
reduce_high a m j e lt b = rw (mod-eq_of_lt {n = a} {m = u32_mod} (omega arith)) (
    mod-eq-sub-mod {n = a} {m = m} (omega arith)
    ∙ ap (λ (x : ℕ). x % m) (let less : a - m ≡ j = omega arith in less)
    ∙ mod-eq_of_lt lt)

module _ (start block_count : ℕ) (used : List ℕ) where
  pub find_index-free :
      (rounds offset : ℕ) {index : ℕ}
      → 0 < block_count
      → find_index start block_count used rounds offset ≡ some index
      → (index < block_count) × (contains_index used index ≡ false)
  unfolding find_index
  find_index-free zero offset pos h = cc
  find_index-free (suc rounds) offset {index} pos h = ground (
    arith,
    find_index-free rounds (suc offset) {index = index} pos,
    mod-lt ((start + offset) % u32_mod) pos,
  )

  find_index-none :
      (rounds offset k : ℕ)
      → find_index start block_count used rounds offset ≡ none
      → offset ≤ k
      → k < offset + rounds
      → contains_index used ((start + k) % u32_mod % block_count) ≡ true
  unfolding find_index
  find_index-none zero offset k h lo hi = absurd (omega arith)
  find_index-none (suc rounds) offset k h lo hi =
      elim (Bool-cases (contains_index used ((start + offset) % u32_mod % block_count))) [
        | inl e ↦ elim (ℕ_discrete offset k) [
          | yes same ↦
              subst (λ (o : ℕ). contains_index used ((start + o) % u32_mod % block_count) ≡ true)
                same e
          | no other ↦ find_index-none rounds (suc offset) k (rw e at h) (omega arith) (omega arith)
        ]
        | inr e ↦ cc (h, e)
      ]

  -- A search through all offsets that finds nothing has met every index.
  find_index-exhausted :
      (j : ℕ)
      → find_index start block_count used block_count 0 ≡ none
      → start < block_count
      → block_count ≤ 1073741824
      → j < block_count
      → contains_index used j ≡ true
  find_index-exhausted j h s b lt = elim (dec_le start j) [
    | yes le ↦
        let there : (start + (j - start)) % u32_mod % block_count ≡ j =
          reduce_low (start + (j - start)) block_count j (omega arith) lt b in
        subst (λ (i : ℕ). contains_index used i ≡ true) there
          (find_index-none block_count 0 (j - start) h (omega arith) (omega arith))
    | no gt ↦
        let there : (start + (j + block_count - start)) % u32_mod % block_count ≡ j =
          reduce_high (start + (j + block_count - start)) block_count j (omega arith) lt b in
        subst (λ (i : ℕ). contains_index used i ≡ true) there
          (find_index-none block_count 0 (j + block_count - start) h (omega arith) (omega arith))
  ]

without : ℕ → List ℕ → List ℕ
without n [] = []
without n (u ∷ used) = let rest = without n used in if u == n then rest else u ∷ rest

length-without :
    (n : ℕ) (used : List ℕ)
    → length (without n used) + (if contains_index used n then 1 else 0) ≤ length used
unfolding without
length-without n [] = omega arith
length-without n (u ∷ used) = ground (arith, length-without n used)

contains-without :
    (n j : ℕ) (used : List ℕ) → n ≢ j → contains_index (without n used) j ≡ contains_index used j
unfolding without
contains-without n j [] d = refl
contains-without n j (u ∷ used) d = ground (arith, contains-without n j used d)

-- A list that holds every number below `n` has at least `n` entries.
pigeonhole :
    (n : ℕ) (used : List ℕ) → ((j : ℕ) → j < n → contains_index used j ≡ true) → n ≤ length used
pigeonhole zero used h = omega arith
pigeonhole (suc n) used h =
    let rest : n ≤ length (without n used) =
      pigeonhole n (without n used)
        (λ j lt. contains-without n j used (omega arith) ∙ h j (omega arith)) in
    ground (arith, rest, length-without n used, h n)

-- While fewer subnets are used than there are, the search finds one.
pub find_index-total :
    (start block_count : ℕ) (used : List ℕ)
    → start < block_count
    → block_count ≤ 1073741824
    → length used < block_count
    → (index : ℕ) × (find_index start block_count used block_count 0 ≡ some index)
find_index-total start block_count used s b few =
    elim (Option-cases (find_index start block_count used block_count 0)) [
      | inl e ↦
          let over : block_count ≤ length used =
            pigeonhole block_count used
              (λ j lt. find_index-exhausted start block_count used j e s b lt) in
          absurd (omega arith)
      | inr found ↦ found
    ]

pub find_token-free :
    (id : SandboxId) (used : List Text) (rounds attempt : ℕ) {token : Text}
    → find_token id used rounds attempt ≡ some token
    → (contains_token used token ≡ false) × (a : ℕ) × (token ≡ salted_token id a)
unfolding find_token
find_token-free id used zero attempt h = cc
find_token-free id used (suc rounds) attempt {token} h =
    elim (Bool-cases (contains_token used (salted_token id attempt))) [
      | inl taken ↦ find_token-free id used rounds (suc attempt) (rw taken at h)
      | inr free ↦
          let same : salted_token id attempt ≡ token = ground arith in
          (subst (λ (u : Text). contains_token used u ≡ false) same free, attempt, sym same)
    ]

-- Where no token is found, each that was tried is taken.
pub find_token-none :
    (id : SandboxId) (used : List Text) (rounds attempt : ℕ)
    → find_token id used rounds attempt ≡ none
    → (a : ℕ) → attempt ≤ a
    → a < attempt + rounds
    → contains_token used (salted_token id a) ≡ true
unfolding find_token
find_token-none id used zero attempt h a low high = absurd (omega (arith, low, high))
find_token-none id used (suc rounds) attempt h a low high =
    elim (Bool-cases (contains_token used (salted_token id attempt))) [
      | inr free ↦ let bad = rw (free) at h in absurd (cc (bad))
      | inl taken ↦ elim (ℕ_discrete attempt a) [
        | yes same ↦ subst (λ n. contains_token used (salted_token id n) ≡ true) same taken
        | no apart ↦
            find_token-none id used rounds (suc attempt) (rw (taken) at h) a
              (omega (arith, low, apart)) (omega (arith, high))
      ]
    ]
