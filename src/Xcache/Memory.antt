-- ===== src/Xcache/Memory.antt =====
-- Bytes in memory: what a write leaves alone, and what is read back.
use Prim.Native.Nat.{bit_or}
use common_lib_go.Prelude.{
  ℕ, suc, ◌+◌, ◌-◌, ◌*◌, ◌/◌, ◌%◌, ◌^◌, ◌<◌, ◌≤◌, ◌≡◌, refl, ap, subst, ◌∙◌, true, [], ◌∷◌, length,
  get_or, arith, ◌⊎◌,
}
use common_lib_go.Prelude.Bits.{or_low, or_high, and_low}
use common_lib_go.Xcache.{Bytes, slice, write, same_bytes, gen_of, idx_of, masked_gen}
use common_lib_go.Xcache.Store.{place_of}

-- The byte `bs[i]` stands at `a + i`, for each `i`.
abbrev pub Holds : (ℕ → ℕ) → ℕ → Bytes → Type 0
Holds mem a bs = (i : ℕ) → i < length bs → mem (a + i) ≡ get_or bs i 0

pub slice-Holds : (mem : ℕ → ℕ) (a : ℕ) (bs : Bytes) → Holds mem a bs → slice mem a (length bs) ≡ bs
slice-Holds mem a [] h = refl
slice-Holds mem a (b ∷ bs) h = cc (first, slice-Holds mem (suc a) bs later)
  where
    first : mem a ≡ b
    first = subst (λ j. mem j ≡ b) (omega arith) (h 0 (omega arith))

    later : Holds mem (suc a) bs
    later i l = subst (λ j. mem j ≡ get_or bs i 0) (omega arith) (h (suc i) (omega arith))

pub write-Holds : (mem : ℕ → ℕ) (a : ℕ) (bs : Bytes) → Holds (write mem a bs) a bs
unfolding write
write-Holds mem a bs i l =
    let back : a + i - a ≡ i = omega arith in ground (arith, l, ap (λ j. get_or bs j 0) back)

pub write_outside :
    (mem : ℕ → ℕ) (a : ℕ) (bs : Bytes) (j : ℕ)
    → (j < a) ⊎ (a + length bs ≤ j)
    → write mem a bs j ≡ mem j
unfolding write
write_outside mem a bs j o = ground (arith, o)

pub same_bytes_refl : (bs : Bytes) → same_bytes bs bs ≡ true
same_bytes_refl [] = refl
same_bytes_refl (b ∷ bs) = ground (arith, same_bytes_refl bs)

pub same_bytes_eq : (as' bs : Bytes) → same_bytes as' bs ≡ true → as' ≡ bs
same_bytes_eq [] [] h = refl
same_bytes_eq [] (b ∷ bs) h = cc
same_bytes_eq (a ∷ as') [] h = cc
same_bytes_eq (a ∷ as') (b ∷ bs) h = ground (arith, same_bytes_eq as' bs)

-- The parts of a place.
pub gen_of-place_of :
    (idx gen : ℕ)
    → idx < 2 ^ 40
    → (gen_of (place_of idx gen) ≡ masked_gen gen) × (idx_of (place_of idx gen) ≡ idx)
unfolding gen_of place_of masked_gen idx_of
gen_of-place_of idx gen h =
    let shifted : (gen * 2 ^ 40) % 2 ^ 64 ≡ (gen % 2 ^ 24) * 2 ^ 40 = omega arith in
    let place : bit_or idx ((gen * 2 ^ 40) % 2 ^ 64) ≡ (gen % 2 ^ 24) * 2 ^ 40 + idx =
      ap (bit_or idx) shifted ∙ or_high 40 (gen % 2 ^ 24) idx h in
    rw place
      (omega (arith, and_low 24 gen), omega (arith, and_low 40 ((gen % 2 ^ 24) * 2 ^ 40 + idx)))

-- A length below 2 ^ 16 is read back from its two bytes.
pub len_of_bytes : (n : ℕ) → n < 2 ^ 16 → bit_or (((n % 2 ^ 16) / 2 ^ 8) * 2 ^ 8) (n % 2 ^ 8) ≡ n
len_of_bytes n h = omega (arith, or_low 8 ((n % 2 ^ 16) / 2 ^ 8) (n % 2 ^ 8))
