-- ===== src/Prelude/Assoc.antt =====
-- Dictionaries and tables with a primary key, as association lists.
use mathlib.Core.Path.{◌≡◌, refl, subst}
use mathlib.Core.Logic.{inl, inr}
use mathlib.Core.Option.{Option, none, some, some_inj}
use mathlib.Core.List.{List, [], ◌∷◌}
use native.Mathlib.Omega.{arith}
use gestalt_workframe.Prelude.Tests.{Key, ◌==◌, if◌then◌else◌, Bool-cases}

abbrev pub Assoc {ℓ κ} : Type ℓ → Type κ → Type (ℓ ⊔ κ)
Assoc K V = List (K × V)

module _ {ℓ κ} {K : Type ℓ} {V : Type κ} ⦃e : Key K⦄ where
  -- `d.get(k)`, or `SELECT ... WHERE key = k`
  unfoldable pub get : K → Assoc K V → Option V
  get k [] = none
  get k ((j, v) ∷ m) = if j == k then some v else get k m

  -- `d[k] = v`, or an `INSERT` with `ON CONFLICT(key) DO UPDATE`: a row keeps its place
  unfoldable pub put : K → V → Assoc K V → Assoc K V
  put k v [] = (k, v) ∷ []
  put k v ((j, w) ∷ m) = let rest = put k v m in if j == k then (j, v) ∷ m else (j, w) ∷ rest

  pub get-put :
      (k j : K) (v : V) (m : Assoc K V) → get j (put k v m) ≡ (if k == j then some v else get j m)
  unfolding get put
  get-put k j v [] = refl
  get-put k j v ((i, w) ∷ m) =
      ground (arith, e.agree_iff k j, e.agree_iff i k, e.agree_iff i j, get-put k j v m)

  pub get-put_self : (k : K) (v : V) (m : Assoc K V) → get k (put k v m) ≡ some v
  get-put_self k v m = rw get-put (rw ((e.agree_iff k k).1 refl))

  -- `DELETE ... WHERE key = k`
  unfoldable pub delete : K → Assoc K V → Assoc K V
  delete k [] = []
  delete k ((j, w) ∷ m) = let rest = delete k m in if j == k then rest else (j, w) ∷ rest

  pub get-delete :
      (k j : K) (m : Assoc K V) → get j (delete k m) ≡ (if k == j then none else get j m)
  unfolding get delete
  get-delete k j [] = ground arith
  get-delete k j ((i, w) ∷ m) =
      ground (arith, e.agree_iff k j, e.agree_iff i k, e.agree_iff i j, get-delete k j m)

-- `UPDATE` of every row
unfoldable pub map_values {ℓ κ} : {K : Type ℓ} {V : Type κ} → (V → V) → Assoc K V → Assoc K V
map_values f [] = []
map_values f ((k, v) ∷ m) = (k, f v) ∷ map_values f m

-- Every value of a dictionary is of a kind.
abbrev pub AllValues {ℓ κ μ} : {K : Type ℓ} {V : Type κ} → (V → Type μ) → Assoc K V → Type μ
AllValues P [] = Unit
AllValues P ((k, v) ∷ m) = P v × AllValues P m

module _ {ℓ κ μ} {K : Type ℓ} {V : Type κ} ⦃e : Key K⦄ (P : V → Type μ) where
  pub put-AllValues :
      (k : K) (v : V) (m : Assoc K V) → P v → AllValues P m → AllValues P (put k v m)
  unfolding put
  put-AllValues k v [] h a = (h, tt)
  put-AllValues k v ((j, w) ∷ m) h a = elim (Bool-cases (j == k)) [
    | inl same ↦ rw same (h, a.1)
    | inr other ↦ rw other (a.0, put-AllValues k v m h a.1)
  ]

  pub get-AllValues : (k : K) (v : V) (m : Assoc K V) → AllValues P m → get k m ≡ some v → P v
  unfolding get
  get-AllValues k v [] a h = cc
  get-AllValues k v ((j, w) ∷ m) a h = elim (Bool-cases (j == k)) [
    | inl same ↦ subst P (some_inj.0 (rw same at h)) a.0
    | inr other ↦ get-AllValues k v m a.1 (rw other at h)
  ]
