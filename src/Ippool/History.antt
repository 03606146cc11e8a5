-- ===== src/Ippool/History.antt =====
-- Any sequence of successful calls on a pool.
use common_lib_go.Prelude.{ℕ, ◌≡◌, ◌≢◌, ◌⊎◌, inl, inr, refl, Bool, true, false, arith, some}
use common_lib_go.Xnet.{Ip, to_uint32}
use common_lib_go.Ippool.{Pool, ok, alloc, register, unset, is_used}
use common_lib_go.Ippool.Invariant.{IsValid, Taken, Released}
use common_lib_go.Ippool.Alloc.{Taken-alloc}
use common_lib_go.Ippool.Register.{Taken-register, Released-unset}

-- A successful `Alloc`, `Set` or `Unset` of the address `n`.
pub data Step (n : ℕ) : Pool → Pool → Type 0 where
  allocates :
      {pool pool' : Pool} (random : ℕ) (ip : Ip)
      → alloc pool random ≡ ok (pool', ip)
      → to_uint32 ip ≡ some n
      → Step n pool pool'
  registers :
      {pool pool' : Pool} (ip : Ip)
      → pool.running ≡ true
      → register pool ip ≡ ok pool'
      → to_uint32 ip ≡ some n
      → Step n pool pool'
  unsets :
      {pool pool' : Pool} (ip : Ip)
      → pool.running ≡ true
      → unset pool ip ≡ ok pool'
      → to_uint32 ip ≡ some n
      → Step n pool pool'

abbrev pub is_unset : {n : ℕ} {pool pool' : Pool} → Step n pool pool' → Bool
is_unset (allocates _ _ _ _) = false
is_unset (registers _ _ _ _) = false
is_unset (unsets _ _ _ _) = true

-- Any number of such calls, one after the other, none of which is an `Unset` of `kept`.
pub data Run (kept : ℕ) (pool : Pool) : Pool → Type 0 where
  here : Run kept pool pool
  next :
      {n : ℕ} {mid last : Pool}
      → Run kept pool mid
      → (s : Step n mid last) → (n ≢ kept) ⊎ (is_unset s ≡ false)
      → Run kept pool last

Step-effect :
    {n : ℕ} {pool pool' : Pool}
    → IsValid pool
    → (s : Step n pool pool')
    → (Taken pool pool' n × (is_unset s ≡ false)) ⊎ (Released pool pool' n × (is_unset s ≡ true))
Step-effect v (allocates random ip e addr) = inl (Taken-alloc v random e addr, refl)
Step-effect v (registers ip up e addr) = inl (Taken-register v up ip _ addr e, refl)
Step-effect v (unsets ip up e addr) = inr (Released-unset v up ip _ addr e, refl)

Step-kept :
    {kept n : ℕ} {mid last : Pool}
    → IsValid mid
    → is_used mid kept ≡ true
    → (s : Step n mid last) → (n ≢ kept) ⊎ (is_unset s ≡ false)
    → IsValid last × (is_used last kept ≡ true)
Step-kept {kept} v u s other = elim (Step-effect v s) [
  | inl (t, _) ↦ (t.valid, ground (arith, t.uses kept))
  | inr (t, e) ↦ elim other [
    | inl ne ↦ (t.valid, ground (arith, t.uses kept))
    | inr no_unset ↦ absurd (cc (e, no_unset))
  ]
]

-- Over any such sequence of calls the pool stays valid, and an address that is used at the start
-- is used at the end.
pub Run-kept :
    {kept : ℕ} {pool last : Pool}
    → IsValid pool
    → is_used pool kept ≡ true
    → Run kept pool last
    → IsValid last × (is_used last kept ≡ true)
Run-kept v u here = (v, u)
Run-kept v u (next r s other) = let (v', u') = Run-kept v u r in Step-kept v' u' s other

-- An address that was handed out is not handed out again before its `Unset`, whatever calls come
-- between and whatever the random numbers are.
pub alloc_again_ne :
    {kept n : ℕ} {pool first last after : Pool} {ip ip' : Ip} (random random' : ℕ)
    → IsValid pool
    → alloc pool random ≡ ok (first, ip)
    → to_uint32 ip ≡ some kept
    → Run kept first last
    → alloc last random' ≡ ok (after, ip')
    → to_uint32 ip' ≡ some n
    → n ≢ kept
alloc_again_ne {kept} random random' v e addr r e' addr' same =
    let t = Taken-alloc v random e addr in
    let (v', u') = Run-kept t.valid (ground (arith, t.uses kept)) r in
    let t' = Taken-alloc v' random' e' addr' in ground (arith, t'.was_free, u', same)
