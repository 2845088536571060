-- ===== src/Prelude/Dict.antt =====
-- Python's `dict` with text keys, as an association list.
use Prim.Native.String.{String}
use mathlib.Core.Path.{◌≡◌, refl}
use mathlib.Core.Bool.{Bool, false}
use mathlib.Core.Option.{Option, none, some}
use mathlib.Core.List.{List, [], ◌∷◌}
use native.Mathlib.Omega.{arith}
use dukan_pro.Prelude.Lists.{All}
use mathlib.Core.Logic.{inl, inr}
use dukan_pro.Prelude.Tests.{Bool-cases, if◌then◌else◌, is_some}
use dukan_pro.Prelude.Text.{str_eq, eq_iff, eq_refl}

abbrev pub Dict {ℓ} : Type ℓ → Type ℓ
Dict V = List (String × V)

module _ {ℓ} {V : Type ℓ} where
  -- d.get(k)
  unfoldable pub lookup : String → Dict V → Option V
  lookup k [] = none
  lookup k ((j, v) ∷ d) = if str_eq j k then some v else lookup k d

  -- {**d, k: v}
  unfoldable pub insert : String → V → Dict V → Dict V
  insert k v [] = (k, v) ∷ []
  insert k v ((j, w) ∷ d) = if str_eq j k then (j, v) ∷ d else (j, w) ∷ insert k v d

  -- {j: v for j, v in d.items() if j != k}
  unfoldable pub erase : String → Dict V → Dict V
  erase k [] = []
  erase k ((j, v) ∷ d) = let rest = erase k d in if str_eq j k then rest else (j, v) ∷ rest

  -- k in d
  abbrev pub contains : String → Dict V → Bool
  contains k d = is_some (lookup k d)

  pub lookup-cons :
      (k j : String) (v : V) (d : Dict V)
      → lookup k ((j, v) ∷ d) ≡ (if str_eq j k then some v else lookup k d)
  unfolding lookup
  lookup-cons k j v d = refl

  -- A key that is missing is not the first one, and missing behind it.
  pub lookup-cons_none :
      (k j : String) (v : V) (d : Dict V)
      → lookup k ((j, v) ∷ d) ≡ none
      → (str_eq j k ≡ false) × (lookup k d ≡ none)
  unfolding lookup
  lookup-cons_none k j v d h = ground arith

  pub lookup-insert :
      (k j : String) (v : V) (d : Dict V)
      → lookup j (insert k v d) ≡ (if str_eq k j then some v else lookup j d)
  unfolding lookup insert
  lookup-insert k j v [] = refl
  lookup-insert k j v ((i, w) ∷ d) =
      ground (arith, eq_iff k j, eq_iff i k, eq_iff i j, lookup-insert k j v d)

  pub lookup-insert_self : (k : String) (v : V) (d : Dict V) → lookup k (insert k v d) ≡ some v
  lookup-insert_self k v d = simp (lookup-insert, eq_refl)

  pub lookup-erase :
      (k j : String) (d : Dict V) → lookup j (erase k d) ≡ (if str_eq k j then none else lookup j d)
  unfolding lookup erase
  lookup-erase k j [] = ground arith
  lookup-erase k j ((i, w) ∷ d) =
      ground (arith, eq_iff k j, eq_iff i k, eq_iff i j, lookup-erase k j d)

  -- What every value of a dictionary has, the value under a key has.
  pub lookup-all :
      (P : V → Type 0) (d : Dict V) (k : String) (x : V)
      → All (λ e. P e.1) d
      → lookup k d ≡ some x
      → P x
  unfolding lookup
  lookup-all P [] k x h e = cc
  lookup-all P ((j, y) ∷ d) k x h e = elim (Bool-cases (str_eq j k)) [
    | inl same ↦ (let q = rw same at e in let first : y ≡ x = cc in rw first at h.0)
    | inr other ↦ lookup-all P d k x h.1 (rw other at e)
  ]

  -- What every key of a dictionary has, a key under which there is a value has.
  pub lookup-key :
      (P : String → Type 0) (d : Dict V) (k : String) (x : V)
      → All (λ e. P e.0) d
      → lookup k d ≡ some x
      → P k
  unfolding lookup
  lookup-key P [] k x h e = cc
  lookup-key P ((j, y) ∷ d) k x h e = elim (Bool-cases (str_eq j k)) [
    | inl same ↦ rw ((eq_iff j k).0 same) at h.0
    | inr other ↦ lookup-key P d k x h.1 (rw other at e)
  ]
