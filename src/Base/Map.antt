-- ===== src/Base/Map.antt =====
-- `HashMap<K, V>` as an association list in which no key stands twice.

use mathlib.Core.Path.{◌≡◌, refl}
use mathlib.Core.List.{List, [], ◌∷◌}
use mathlib.Core.Option
use mathlib.Core.Option.{Option, none, some}
use native.Mathlib.Omega.{arith}
use didicafe.Base.Tests.{Eq, ◌==◌, if◌then◌else◌}

module _ {ℓ} {K V : Type ℓ} ⦃e : Eq K⦄ where
  unfoldable pub get : K → List (K × V) → Option V
  get k [] = none
  get k ((j, v) ∷ m) = if j == k then some v else get k m

  unfoldable pub insert : K → V → List (K × V) → List (K × V)
  insert k v [] = (k, v) ∷ []
  insert k v ((j, w) ∷ m) = if j == k then (j, v) ∷ m else (j, w) ∷ insert k v m

  unfoldable pub remove : K → List (K × V) → List (K × V)
  remove k [] = []
  remove k ((j, w) ∷ m) = if j == k then remove k m else (j, w) ∷ remove k m

  -- `retain` with a closure that may also change the value; `none` drops the entry.
  unfoldable pub retain : (V → Option V) → List (K × V) → List (K × V)
  retain f [] = []
  retain f ((j, w) ∷ m) = elim (f w) [ none ↦ retain f m | some u ↦ (j, u) ∷ retain f m ]

  abbrev pub Distinct : List (K × V) → Type ℓ
  Distinct [] = Unit
  Distinct ((j, w) ∷ m) = (get j m ≡ none) × Distinct m

  pub get-insert :
      (k q : K) (v : V) (m : List (K × V))
      → get q (insert k v m) ≡ (if k == q then some v else get q m)
  unfolding get insert
  get-insert k q v [] = refl
  get-insert k q v ((j, w) ∷ m) =
      ground (arith, e.equal_iff k q, e.equal_iff j k, e.equal_iff j q, get-insert k q v m)

  pub get-remove :
      (k q : K) (m : List (K × V)) → get q (remove k m) ≡ (if k == q then none else get q m)
  unfolding get remove
  get-remove k q [] = ground arith
  get-remove k q ((j, w) ∷ m) =
      ground (arith, e.equal_iff k q, e.equal_iff j k, e.equal_iff j q, get-remove k q m)

  pub get-retain-none :
      (f : V → Option V) (q : K) (m : List (K × V)) → get q m ≡ none → get q (retain f m) ≡ none
  unfolding get retain
  get-retain-none f q [] h = refl
  get-retain-none f q ((j, w) ∷ m) h = ground (arith, get-retain-none f q m)

  pub get-retain :
      (f : V → Option V) (q : K) (m : List (K × V))
      → Distinct m
      → get q (retain f m) ≡ Option.bind (get q m) f
  unfolding get retain Option.bind
  get-retain f q [] d = refl
  get-retain f q ((j, w) ∷ m) d =
      ground (arith, e.equal_iff j q, get-retain f q m d.1, get-retain-none f q m)

  pub insert-Distinct : (k : K) (v : V) (m : List (K × V)) → Distinct m → Distinct (insert k v m)
  unfolding get insert
  insert-Distinct k v [] d = (refl, tt)
  insert-Distinct k v ((j, w) ∷ m) d =
      ground
        (arith, e.equal_iff j k, e.equal_iff k j, insert-Distinct k v m d.1, get-insert k j v m)

  pub remove-Distinct : (k : K) (m : List (K × V)) → Distinct m → Distinct (remove k m)
  unfolding get remove
  remove-Distinct k [] d = d
  remove-Distinct k ((j, w) ∷ m) d = ground (arith, remove-Distinct k m d.1, get-remove k j m)

  pub retain-Distinct : (f : V → Option V) (m : List (K × V)) → Distinct m → Distinct (retain f m)
  unfolding get retain
  retain-Distinct f [] d = d
  retain-Distinct f ((j, w) ∷ m) d = ground (arith, retain-Distinct f m d.1, get-retain-none f j m)
