-- ===== src/Xcache/Rewrite.antt =====
-- Bytes written where a value stands: the other pairs stay, and the pair has the new value.
use common_lib_go.Prelude.{
  ℕ, ◌+◌, ◌/◌, ◌%◌, ◌^◌, ◌<◌, ◌≤◌, ◌≡◌, refl, sym, ap, subst, ◌∙◌, Option, some, List, [], ◌∷◌,
  length, get_elem?, set, arith, ◌⊎◌, inl, inr, ℕ_discrete, get_elem?-bound, get_elem?-set_self,
  get_elem?-set_ne, get_elem?-set_self, get_elem?-set_ne,
}
use common_lib_go.Xcache.{Bytes, Chunk, write, chunk_size}
use common_lib_go.Xcache.Store.{header}
use common_lib_go.Xcache.Memory.{Holds, write-Holds, write_outside}
use common_lib_go.Xcache.Invariant.{pair_size, ItemAt}

Holds_outside :
    (mem : ℕ → ℕ) (a : ℕ) (bs : Bytes) (p : ℕ) (ys : Bytes)
    → (p + length ys ≤ a) ⊎ (a + length bs ≤ p)
    → Holds mem p ys
    → Holds (write mem a bs) p ys
Holds_outside mem a bs p ys o h i l = write_outside mem a bs (p + i) (side o) ∙ h i l
  where
    side : (p + length ys ≤ a) ⊎ (a + length bs ≤ p) → (p + i < a) ⊎ (a + length bs ≤ p + i)
    side (inl below) = inl (omega arith)
    side (inr above) = inr (omega arith)

abbrev pub overwrite : Chunk → ℕ → Bytes → Chunk
overwrite c a bs = record c { mem = write c.mem a bs }

-- The chunks after the bytes are written into one of them.
abbrev pub rewritten : List (Option Chunk) → ℕ → Chunk → ℕ → Bytes → List (Option Chunk)
rewritten chunks n c a bs = set chunks n (some (overwrite c a bs))

header_size : (y z : Bytes) → length (header y z) ≡ 4
unfolding header
header_size y z = refl

module _ (chunks : List (Option Chunk)) (n : ℕ) {c : Chunk} (a : ℕ) (bs : Bytes)
    (at : get_elem? chunks n ≡ some (some c)) where
  there_now : get_elem? (rewritten chunks n c a bs) n ≡ some (some (overwrite c a bs))
  there_now =
      get_elem?-set_self chunks n (some (overwrite c a bs)) (get_elem?-bound chunks n (some c) at)

  -- A pair that the bytes do not touch stands as before.
  pub untouched-ItemAt :
      (off : ℕ) (y z : Bytes)
      → (off / chunk_size ≡ n
          → (off % chunk_size + pair_size y z ≤ a) ⊎ (a + length bs ≤ off % chunk_size))
      → ItemAt chunks off y z
      → ItemAt (rewritten chunks n c a bs) off y z
  untouched-ItemAt off y z apart i = elim (ℕ_discrete (off / chunk_size) n) [
    | no other ↦ record {
      chunk = i.chunk;
      at =
          get_elem?-set_ne chunks n (off / chunk_size) (some (overwrite c a bs))
            (λ q. other (sym q))
          ∙ i.at;
      head = i.head;
      key = i.key;
      value = i.value;
      fits = i.fits;
    }
    | yes same ↦
        let one : some (some i.chunk) ≡ some (some c) =
          sym i.at ∙ ap (get_elem? chunks) same ∙ at in
        let mem : i.chunk.mem ≡ c.mem = ap memory one in
        let keeps =
          λ (p : ℕ) (ys : Bytes) (o : (p + length ys ≤ a) ⊎ (a + length bs ≤ p))
              (h : Holds i.chunk.mem p ys).
            Holds_outside c.mem a bs p ys o (subst (λ (m : ℕ → ℕ). Holds m p ys) mem h) in
        record {
          chunk = (overwrite c a bs);
          at = ap (get_elem? (rewritten chunks n c a bs)) same ∙ there_now;
          head =
              keeps (off % chunk_size) (header y z)
                (within _ _ (apart same) (omega arith) (omega (arith, header_size y z))) i.head;
          key =
              keeps (off % chunk_size + 4) y (within _ _ (apart same) (omega arith) (omega arith))
                i.key;
          value =
              keeps (off % chunk_size + 4 + length y) z
                (within _ _ (apart same) (omega arith) (omega arith)) i.value;
          fits = i.fits;
        }
  ]
    where
      memory : Option (Option Chunk) → ℕ → ℕ
      memory (some (some d)) = d.mem
      memory _ = c.mem

      within :
          (p l : ℕ)
          → (off % chunk_size + pair_size y z ≤ a) ⊎ (a + length bs ≤ off % chunk_size)
          → off % chunk_size ≤ p
          → p + l ≤ off % chunk_size + pair_size y z
          → (p + l ≤ a) ⊎ (a + length bs ≤ p)
      within p l (inl below) h u = inl (omega arith)
      within p l (inr above) h u = inr (omega arith)

same_header : (k x y : Bytes) → length x ≡ length y → header k x ≡ header k y
unfolding header
same_header k x y e =
    ap
      (λ n.
        (((length k % 2 ^ 16) / 2 ^ 8)
          ∷ (length k % 2 ^ 8)
          ∷ ((n % 2 ^ 16) / 2 ^ 8)
          ∷ (n % 2 ^ 8)
          ∷ []))
      e

-- The pair whose value is overwritten by one of the same length.
pub rewritten-ItemAt :
    (chunks : List (Option Chunk)) (off : ℕ) (k x bs : Bytes) (i : ItemAt chunks off k x)
    → length bs ≡ length x
    → ItemAt
        (rewritten chunks (off / chunk_size) i.chunk (off % chunk_size + 4 + length k) bs)
        off
        k
        bs
rewritten-ItemAt chunks off k x bs i len =
    let a = off % chunk_size + 4 + length k in
    record {
      chunk = overwrite i.chunk a bs;
      at = there_now chunks (off / chunk_size) a bs i.at;
      head =
          Holds_outside i.chunk.mem a bs (off % chunk_size) (header k bs)
            (inl (omega (arith, header_size k bs)))
            (subst (λ (ys : Bytes). Holds i.chunk.mem (off % chunk_size) ys)
              (same_header k x bs (sym len)) i.head);
      key = Holds_outside i.chunk.mem a bs (off % chunk_size + 4) k (inl (omega arith)) i.key;
      value = write-Holds i.chunk.mem a bs;
      fits = omega (arith, i.fits);
    }
