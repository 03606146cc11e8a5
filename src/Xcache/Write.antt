-- ===== src/Xcache/Write.antt =====
-- A pair that is written stands in memory, and the pairs that a read may still find stay.
use common_lib_go.Prelude.{ℕ, ◌+◌, ◌<◌, ◌≤◌, ◌≡◌, refl, ◌∙◌, Option, length, arith, ◌⊎◌, inl, inr}
use common_lib_go.Xcache.{Bytes, Chunk, write, append}
use common_lib_go.Xcache.Store.{header, append_pair, or_new}
use common_lib_go.Xcache.Memory.{Holds, write-Holds, write_outside}
use common_lib_go.Xcache.Invariant.{pair_size}

-- A write further on leaves the bytes, and so does one that ends before them.
write-after :
    (mem : ℕ → ℕ) (a c : ℕ) (bs cs : Bytes)
    → (a + length bs ≤ c) ⊎ (c + length cs ≤ a)
    → Holds mem a bs
    → Holds (write mem c cs) a bs
write-after mem a c bs cs o h i l = write_outside mem c cs (a + i) (apart o) ∙ h i l
  where
    apart : (a + length bs ≤ c) ⊎ (c + length cs ≤ a) → (a + i < c) ⊎ (c + length cs ≤ a + i)
    apart (inl below) = inl (omega arith)
    apart (inr above) = inr (omega arith)

module _ (blank : ℕ → ℕ) (c : Option Chunk) (k x : Bytes) where
  abbrev pub old : ℕ → ℕ
  old = (or_new blank c).mem

  abbrev pub at_len : ℕ
  at_len = (or_new blank c).len

  length-header : length (header k x) ≡ 4
  unfolding header
  length-header = refl

  append_pair-mem : append_pair blank c k x ≡ record {
    mem = write (write (write old at_len (header k x)) (at_len + 4) k) (at_len + 4 + length k) x;
    len = at_len + 4 + length k + length x;
  }
  unfolding append_pair append header
  append_pair-mem = refl

  -- Bytes that lie before or after the new pair stay.
  pub append_pair-Holds :
      (a : ℕ) (bs : Bytes)
      → (a + length bs ≤ at_len) ⊎ (at_len + pair_size k x ≤ a)
      → Holds old a bs
      → Holds (append_pair blank c k x).mem a bs
  append_pair-Holds a bs o h = rw (append_pair-mem) (
      write-after _ a (at_len + 4 + length k) bs x (ground (arith, o)) (
        write-after _ a (at_len + 4) bs k (ground (arith, o))
          (write-after old a at_len bs (header k x) (ground (arith, o, length-header)) h)))

  -- The new pair stands where it was written.
  pub append_pair_self :
      Holds (append_pair blank c k x).mem at_len (header k x)
      × Holds (append_pair blank c k x).mem (at_len + 4) k
      × Holds (append_pair blank c k x).mem (at_len + 4 + length k) x
  append_pair_self = rw (append_pair-mem) (
    write-after _ at_len (at_len + 4 + length k) (header k x) x (inl (omega (arith, length-header)))
        (write-after _ at_len (at_len + 4) (header k x) k (inl (omega (arith, length-header)))
          (write-Holds old at_len (header k x))),
    write-after _ (at_len + 4) (at_len + 4 + length k) k x (inl (omega arith))
        (write-Holds _ (at_len + 4) k),
    write-Holds _ (at_len + 4 + length k) x,
  )
