-- ===== src/Xstats/Codec.antt =====
-- The counters at the head of a byte string: what is written is read back, and the rest stays.
use common_lib_go.Prelude.{
  ℕ, zero, suc, ◌+◌, ◌*◌, ◌/◌, ◌%◌, ◌^◌, ◌≤◌, ◌<◌, ◌≡◌, refl, sym, ap, subst, ◌∙◌, ◌&&◌, true,
  Bool-cases, inl, inr, some, [], ◌∷◌, ◌++◌, ◌==◌, length, take, drop, All, arith,
}
use common_lib_go.Xcache.{Bytes}
use common_lib_go.Xstats.{le_bytes, le_value, put_uint64, or_zeros, rx_tx, parse_rx_tx, add_rx_tx}

-- How many values `n` bytes have.
abbrev pub word : ℕ → ℕ
word zero = 1
word (suc n) = 256 * word n

abbrev pub AreBytes : Bytes → Type 0
AreBytes d = All (λ b. b < 256) d

pub le_value-le_bytes : (n v : ℕ) → v < word n → le_value (le_bytes n v) ≡ v
le_value-le_bytes zero v h = omega arith
le_value-le_bytes (suc n) v h = omega (arith, le_value-le_bytes n (v / 256) (omega (arith, h)))

pub le_value_small : (d : Bytes) → AreBytes d → le_value d < word (length d)
le_value_small [] h = omega arith
le_value_small (b ∷ bs) (small, rest) = omega (arith, small, le_value_small bs rest)

pub AreBytes-le_bytes : (n v : ℕ) → AreBytes (le_bytes n v)
AreBytes-le_bytes zero v = tt
AreBytes-le_bytes (suc n) v = (omega arith, AreBytes-le_bytes n (v / 256))

pub AreBytes-append : (a b : Bytes) → AreBytes a → AreBytes b → AreBytes (a ++ b)
AreBytes-append [] b h k = k
AreBytes-append (x ∷ a) b (s, h) k = (s, AreBytes-append a b h k)

pub AreBytes-take : (n : ℕ) (d : Bytes) → AreBytes d → AreBytes (take n d)
AreBytes-take zero d h = tt
AreBytes-take (suc n) [] h = tt
AreBytes-take (suc n) (b ∷ bs) (s, h) = (s, AreBytes-take n bs h)

pub AreBytes-drop : (n : ℕ) (d : Bytes) → AreBytes d → AreBytes (drop n d)
AreBytes-drop zero d h = h
AreBytes-drop (suc n) [] h = tt
AreBytes-drop (suc n) (b ∷ bs) (s, h) = AreBytes-drop n bs h

pub length-take : (n : ℕ) (d : Bytes) → n ≤ length d → length (take n d) ≡ n
length-take zero d h = refl
length-take (suc n) [] h = absurd (omega arith)
length-take (suc n) (b ∷ bs) h = ap suc (length-take n bs (omega arith))

pub length-drop : (n : ℕ) (d : Bytes) → n ≤ length d → length (drop n d) + n ≡ length d
length-drop zero d h = omega arith
length-drop (suc n) [] h = absurd (omega arith)
length-drop (suc n) (b ∷ bs) h = omega (arith, length-drop n bs (omega arith))

-- The counters in front of the rest.
abbrev pub counters : ℕ → ℕ → Bytes → Bytes
counters rx tx rest = le_bytes 8 rx ++ (le_bytes 8 tx ++ rest)

drop_nil : (n : ℕ) → ◌≡◌ {A = Bytes} (drop n []) []
drop_nil zero = refl
drop_nil (suc n) = refl

drop-drop : (m n : ℕ) (d : Bytes) → drop m (drop n d) ≡ drop (n + m) d
drop-drop m zero d = ap (λ i. drop i d) (omega arith)
drop-drop m (suc n) [] = drop_nil m ∙ sym (drop_nil (suc n + m))
drop-drop m (suc n) (b ∷ bs) =
    let same : suc (n + m) ≡ suc n + m = omega arith in
    subst (λ i. drop m (drop n bs) ≡ drop i (b ∷ bs)) same (drop-drop m n bs)

put_fits :
    (i v : ℕ) (d : Bytes)
    → i + 8 ≤ length d
    → put_uint64 i v d ≡ some (take i d ++ (le_bytes 8 v ++ drop (i + 8) d))
put_fits i v d h = ground (arith, h)

rx_tx_step :
    (rx tx : ℕ) (d e : Bytes)
    → put_uint64 0 rx (or_zeros d) ≡ some e
    → rx_tx rx tx d ≡ put_uint64 8 tx e
unfolding rx_tx
rx_tx_step rx tx d e h = ground (arith, h)

or_zeros_full : (d : Bytes) → 16 ≤ length d → or_zeros d ≡ d
or_zeros_full [] h = absurd (omega arith)
or_zeros_full (b ∷ bs) h = refl

pub rx_tx-counters :
    (rx tx : ℕ) (d : Bytes) → 16 ≤ length d → rx_tx rx tx d ≡ some (counters rx tx (drop 16 d))
rx_tx-counters rx tx d h =
    let first : Bytes = le_bytes 8 rx ++ drop 8 d in
    let long : 16 ≤ length first = omega (arith, length-drop 8 d (omega arith)) in
    rx_tx_step rx tx d first
      (ap (put_uint64 0 rx) (or_zeros_full d h) ∙ put_fits 0 rx d (omega arith))
    ∙ put_fits 8 tx first long
    ∙ ap (λ rest. some (counters rx tx rest)) (drop-drop 8 8 d)

pub parse_rx_tx-counters :
    (rx tx : ℕ) (rest : Bytes)
    → rx < 2 ^ 64
    → tx < 2 ^ 64
    → parse_rx_tx (counters rx tx rest) ≡ (rx, tx)
unfolding parse_rx_tx
parse_rx_tx-counters rx tx rest h k =
    ground (arith, le_value-le_bytes 8 rx h, le_value-le_bytes 8 tx k)

-- Both counters, before and after.
abbrev pub Counts : Bytes → ℕ → ℕ → Type 0
Counts d rx tx = (parse_rx_tx d ≡ (rx, tx)) × (16 ≤ length d) × AreBytes d

parse_small :
    (d : Bytes)
    → 16 ≤ length d
    → AreBytes d
    → ((parse_rx_tx d).0 < 2 ^ 64) × ((parse_rx_tx d).1 < 2 ^ 64)
unfolding parse_rx_tx
parse_small d h bytes =
    let rx = le_value_small (take 8 d) (AreBytes-take 8 d bytes) in
    let tx =
      le_value_small (take 8 (drop 8 d)) (AreBytes-take 8 (drop 8 d) (AreBytes-drop 8 d bytes)) in
    let l1 = length-take 8 d (omega arith) in
    let l2 = length-take 8 (drop 8 d) (omega (arith, length-drop 8 d (omega arith))) in
    ground (
      arith,
      h,
      subst (λ n. le_value (take 8 d) < word n) l1 rx,
      subst (λ n. le_value (take 8 (drop 8 d)) < word n) l2 tx,
    )

-- Adding to the counters of a byte string of at least 16 bytes never panics. It adds to both counters,
-- modulo 2 ^ 64, and changes no other byte and not the length.
pub add_rx_tx_lem :
    (drx dtx : ℕ) (d : Bytes)
    → 16 ≤ length d
    → AreBytes d
    → (e : Bytes) × (add_rx_tx drx dtx d ≡ some e)
      × (parse_rx_tx e ≡ (((parse_rx_tx d).0 + drx) % 2 ^ 64, ((parse_rx_tx d).1 + dtx) % 2 ^ 64))
      × (drop 16 e ≡ drop 16 d)
      × (length e ≡ length d)
      × AreBytes e
unfolding add_rx_tx
add_rx_tx_lem drx dtx d h bytes = elim (Bool-cases ((drx == 0) && (dtx == 0))) [
  | inl nothing ↦
      let (small_rx, small_tx) = parse_small d h bytes in
      (d, ground (arith, nothing), same nothing small_rx small_tx, refl, refl, bytes)
  | inr something ↦
      let rx = ((parse_rx_tx d).0 + drx) % 2 ^ 64 in
      let tx = ((parse_rx_tx d).1 + dtx) % 2 ^ 64 in
      (
        counters rx tx (drop 16 d),
        ground (arith, something, rx_tx-counters rx tx d h),
        parse_rx_tx-counters rx tx (drop 16 d) (omega arith) (omega arith),
        refl,
        omega (arith, length-drop 16 d h),
        AreBytes-append (le_bytes 8 rx) (le_bytes 8 tx ++ drop 16 d) (AreBytes-le_bytes 8 rx) (
            AreBytes-append (le_bytes 8 tx) (drop 16 d) (AreBytes-le_bytes 8 tx)
              (AreBytes-drop 16 d bytes)),
      )
]
  where
    same :
        (drx == 0) && (dtx == 0) ≡ true
        → (parse_rx_tx d).0 < 2 ^ 64
        → (parse_rx_tx d).1 < 2 ^ 64
        → parse_rx_tx d ≡ (((parse_rx_tx d).0 + drx) % 2 ^ 64, ((parse_rx_tx d).1 + dtx) % 2 ^ 64)
    same e a c =
        let rx : (parse_rx_tx d).0 ≡ ((parse_rx_tx d).0 + drx) % 2 ^ 64 = ground (arith, e, a) in
        let tx : (parse_rx_tx d).1 ≡ ((parse_rx_tx d).1 + dtx) % 2 ^ 64 = ground (arith, e, c) in
        ap (λ n. (n, (parse_rx_tx d).1)) rx ∙ ap (λ n. (((parse_rx_tx d).0 + drx) % 2 ^ 64, n)) tx
