-- ===== src/Prelude/Map.antt =====
-- Go's maps as association lists: no key stands twice, and the order means nothing.
use Prim.Native.Nat.{◌+◌}
use mathlib.Core.Path.{◌≡◌, refl, sym}
use mathlib.Core.Logic.{◌≢◌, ite, if_pos, if_neg}
use mathlib.Core.List.{List, [], ◌∷◌}
use mathlib.Core.Option.{Option, none, some}
use native.Mathlib.Omega.{arith}
use common_lib_go.Prelude.Lists.{length}

-- `k` is no key of the map.
abbrev pub Fresh {ℓ} : {K V : Type ℓ} → K → List (K × V) → Type ℓ
Fresh k [] = Unit
Fresh k ((j, v) ∷ m) = (k ≢ j) × Fresh k m

-- No key stands twice.
abbrev pub Distinct {ℓ} : {K V : Type ℓ} → List (K × V) → Type ℓ
Distinct [] = Unit
Distinct ((k, v) ∷ m) = Fresh k m × Distinct m

module _ {ℓ} {K V : Type ℓ} (dec : Discrete K) where
  -- `v, ok := m[k]`
  unfoldable pub lookup : K → List (K × V) → Option V
  lookup k [] = none
  lookup k ((j, v) ∷ m) = ite (dec k j) (some v) (lookup k m)

  -- `m[k] = v`
  unfoldable pub insert : K → V → List (K × V) → List (K × V)
  insert k v [] = (k, v) ∷ []
  insert k v ((j, w) ∷ m) = ite (dec k j) ((j, v) ∷ m) ((j, w) ∷ insert k v m)

  -- `delete(m, k)`
  unfoldable pub delete : K → List (K × V) → List (K × V)
  delete k [] = []
  delete k ((j, w) ∷ m) = ite (dec k j) m ((j, w) ∷ delete k m)

  pub lookup-insert :
      (j k : K) (v : V) (m : List (K × V))
      → lookup j (insert k v m) ≡ ite (dec j k) (some v) (lookup j m)
  unfolding lookup insert
  lookup-insert j k v [] = refl
  lookup-insert j k v ((i, w) ∷ m) = ground (arith, lookup-insert j k v m)

  pub lookup-insert_self : (k : K) (v : V) (m : List (K × V)) → lookup k (insert k v m) ≡ some v
  lookup-insert_self k v m = ground (arith, lookup-insert k k v m)

  pub lookup-Fresh : (k : K) (m : List (K × V)) → Fresh k m → lookup k m ≡ none
  unfolding lookup
  lookup-Fresh k [] h = refl
  lookup-Fresh k ((j, w) ∷ m) h = ground (arith, lookup-Fresh k m h.1)

  pub Fresh-lookup : (k : K) (m : List (K × V)) → lookup k m ≡ none → Fresh k m
  unfolding lookup
  Fresh-lookup k [] h = tt
  Fresh-lookup k ((j, w) ∷ m) h = ground (arith, Fresh-lookup k m)

  pub Fresh-insert :
      (j k : K) (v : V) (m : List (K × V)) → j ≢ k → Fresh j m → Fresh j (insert k v m)
  unfolding insert
  Fresh-insert j k v [] n f = (n, tt)
  Fresh-insert j k v ((i, w) ∷ m) n f = ground (arith, Fresh-insert j k v m)

  pub insert-Distinct : (k : K) (v : V) (m : List (K × V)) → Distinct m → Distinct (insert k v m)
  unfolding insert
  insert-Distinct k v [] d = (tt, tt)
  insert-Distinct k v ((i, w) ∷ m) d = elim (dec k i) [
    | yes p ↦ rw (if_pos _ p) d
    | no p ↦ rw (if_neg _ p) (Fresh-insert i k v m (λ e. p (sym e)) d.0, insert-Distinct k v m d.1)
  ]

  pub Fresh-delete : (j k : K) (m : List (K × V)) → Fresh j m → Fresh j (delete k m)
  unfolding delete
  Fresh-delete j k [] f = tt
  Fresh-delete j k ((i, w) ∷ m) f = ground (arith, Fresh-delete j k m f.1)

  pub delete-Distinct : (k : K) (m : List (K × V)) → Distinct m → Distinct (delete k m)
  unfolding delete
  delete-Distinct k [] d = tt
  delete-Distinct k ((i, w) ∷ m) d = ground (arith, Fresh-delete i k m d.0, delete-Distinct k m d.1)

  pub lookup-delete :
      (j k : K) (m : List (K × V))
      → Distinct m
      → lookup j (delete k m) ≡ ite (dec j k) none (lookup j m)
  unfolding lookup delete
  lookup-delete j k [] d = ground arith
  lookup-delete j k ((i, w) ∷ m) d =
      ground (arith, lookup-delete j k m d.1, lookup-Fresh i m d.0, lookup-Fresh j m)

  pub length-insert_new :
      (k : K) (v : V) (m : List (K × V)) → lookup k m ≡ none → length (insert k v m) ≡ length m + 1
  unfolding lookup insert
  length-insert_new k v [] h = omega arith
  length-insert_new k v ((i, w) ∷ m) h = ground (arith, length-insert_new k v m)

  pub length-insert_old :
      (k : K) (v w : V) (m : List (K × V)) → lookup k m ≡ some w → length (insert k v m) ≡ length m
  unfolding lookup insert
  length-insert_old k v w [] h = cc
  length-insert_old k v w ((i, x) ∷ m) h = ground (arith, length-insert_old k v w m)

  pub length-delete :
      (k : K) (w : V) (m : List (K × V)) → lookup k m ≡ some w → length (delete k m) + 1 ≡ length m
  unfolding lookup delete
  length-delete k w [] h = cc
  length-delete k w ((i, x) ∷ m) h = ground (arith, length-delete k w m)

  pub delete_absent : (k : K) (m : List (K × V)) → lookup k m ≡ none → delete k m ≡ m
  unfolding lookup delete
  delete_absent k [] h = refl
  delete_absent k ((i, x) ∷ m) h = ground (arith, delete_absent k m)
