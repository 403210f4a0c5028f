-- ===== src/Common/Maps.antt =====
-- Go's maps, as association lists with one entry for each key. Iteration with `range` visits the
-- entries in the order of the list; Go leaves that order open, so no theorem rests on it.

use mathlib.Core.Path.{◌≡◌, refl}
use mathlib.Core.List.{List, [], ◌∷◌}
use mathlib.Core.Option.{Option, none, some}
use native.Mathlib.Omega.{arith}
use antrea.Common.Tests.{Eq, if◌then◌else◌, beq_self}

abbrev pub Map {ℓ κ} : Type ℓ → Type κ → Type (ℓ ⊔ κ)
Map K V = List (K × V)

module _ {ℓ κ} {K : Type ℓ} {V : Type κ} ⦃e : Eq K⦄ where
  -- v, ok := m[k]
  unfoldable pub get : Map K V → K → Option V
  get [] k = none
  get ((j, v) ∷ m) k = if e.beq j k then some v else get m k

  -- delete(m, k)
  unfoldable pub remove : Map K V → K → Map K V
  remove [] k = []
  remove ((j, v) ∷ m) k = let rest = remove m k in if e.beq j k then rest else (j, v) ∷ rest

  -- m[k] = v
  unfoldable pub put : Map K V → K → V → Map K V
  put [] k v = (k, v) ∷ []
  put ((j, w) ∷ m) k v = let rest = put m k v in if e.beq j k then (k, v) ∷ m else (j, w) ∷ rest

  pub get-put :
      (m : Map K V) (k j : K) (v : V) → get (put m k v) j ≡ (if e.beq k j then some v else get m j)
  unfolding get put
  get-put [] k j v = refl
  get-put ((i, w) ∷ m) k j v =
      ground (arith, e.beq_iff k j, e.beq_iff i k, e.beq_iff i j, get-put m k j v)

  pub get-remove :
      (m : Map K V) (k j : K) → get (remove m k) j ≡ (if e.beq k j then none else get m j)
  unfolding get remove
  get-remove [] k j = ground arith
  get-remove ((i, w) ∷ m) k j =
      ground (arith, e.beq_iff k j, e.beq_iff i k, e.beq_iff i j, get-remove m k j)

  pub get-put_self : (m : Map K V) (k : K) (v : V) → get (put m k v) k ≡ some v
  get-put_self m k v = rw (get-put m k k v, beq_self k)

  pub get-remove_self : (m : Map K V) (k : K) → get (remove m k) k ≡ none
  get-remove_self m k = rw (get-remove m k k, beq_self k)

  -- Each key has one entry, as in a Go map.
  abbrev pub Unique : Map K V → Type κ
  Unique [] = Unit
  Unique ((k, v) ∷ m) = (get m k ≡ none) × Unique m

  pub Unique-put : (m : Map K V) (k : K) (v : V) → Unique m → Unique (put m k v)
  unfolding put get
  Unique-put [] k v u = (refl, tt)
  Unique-put ((j, w) ∷ m) k v u =
      ground (arith, get-put m k j v, e.beq_iff j k, e.beq_iff k j, Unique-put m k v u.1)

  pub Unique-remove : (m : Map K V) (k : K) → Unique m → Unique (remove m k)
  unfolding remove
  Unique-remove [] k u = tt
  Unique-remove ((j, w) ∷ m) k u =
      ground (arith, get-remove m k j, e.beq_iff j k, e.beq_iff k j, Unique-remove m k u.1)
