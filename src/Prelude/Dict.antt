-- ===== src/Prelude/Dict.antt =====
-- A Python dict: an association list in insertion order, where writing a present key keeps its
-- place.
use Prim.Native.Nat.{◌+◌}
use mathlib.Core.Path.{◌≡◌, refl}
use mathlib.Core.Logic.{◌≢◌, ◌⊎◌, inl, inr}
use mathlib.Core.Bool.{Bool, false}
use mathlib.Core.Option.{Option, none, some}
use mathlib.Core.List.{List, [], ◌∷◌, map}
use native.Mathlib.Omega.{arith}
use commerce_analyst_agent.Prelude.Tests.{Eq, ◌==◌, if◌then◌else◌, beq_refl, beq_ne, Bool-cases}
use commerce_analyst_agent.Prelude.Lists.{any, length}

abbrev pub Dict : Type 0 → Type 0 → Type 0
Dict K V = List (K × V)

abbrev pub values : {K V : Type 0} → Dict K V → List V
values d = map (λ e. e.1) d

module _ {K V : Type 0} ⦃q : Eq K⦄ where
  -- `d.get(k)`
  unfoldable pub get : Dict K V → K → Option V
  get [] k = none
  get (e ∷ d) k = if e.0 == k then some e.1 else get d k

  -- `d[k] = v`
  unfoldable pub put : Dict K V → K → V → Dict K V
  put [] k v = (k, v) ∷ []
  put (e ∷ d) k v = if e.0 == k then (e.0, v) ∷ d else e ∷ put d k v

  pub get-put :
      (d : Dict K V) (k j : K) (v : V) → get (put d k v) j ≡ (if k == j then some v else get d j)
  unfolding get put
  get-put [] k j v = refl
  get-put (e ∷ d) k j v =
      ground (arith, q.test_iff e.0 k, q.test_iff e.0 j, q.test_iff k j, get-put d k j v)

  pub get-put_self : (d : Dict K V) (k : K) (v : V) → get (put d k v) k ≡ some v
  get-put_self d k v = ground (arith, get-put d k k v, beq_refl k)

  pub get-put_ne : (d : Dict K V) (k j : K) (v : V) → k ≢ j → get (put d k v) j ≡ get d j
  get-put_ne d k j v h = ground (arith, get-put d k j v, beq_ne k j h)

  -- A new key makes the dict one longer.
  pub length-put_new :
      (d : Dict K V) (k : K) (v : V) → get d k ≡ none → length (put d k v) ≡ length d + 1
  unfolding get put
  length-put_new [] k v h = omega arith
  length-put_new (e ∷ d) k v h = ground (arith, length-put_new d k v)

  -- The two cases of a read after a write.
  pub get-put_cases :
      (d : Dict K V) (k : K) (v : V) (j : K)
      → ((k ≡ j) × (get (put d k v) j ≡ some v)) ⊎ ((k ≢ j) × (get (put d k v) j ≡ get d j))
  get-put_cases d k v j = elim (Bool-cases (k == j)) [
    | inl same ↦ inl ((q.test_iff k j).0 same, ground (arith, get-put d k j v))
    | inr differ ↦
        let ne : k ≢ j = λ e. cc ((q.test_iff k j).1 e, differ) in inr (ne, get-put_ne d k j v ne)
  ]

  -- `del d[k]`
  unfoldable pub remove : Dict K V → K → Dict K V
  remove [] k = []
  remove (e ∷ d) k = let rest = remove d k in if e.0 == k then rest else e ∷ rest

  pub get-remove :
      (d : Dict K V) (k j : K) → get (remove d k) j ≡ (if k == j then none else get d j)
  unfolding get remove
  get-remove [] k j = ground arith
  get-remove (e ∷ d) k j =
      ground (arith, q.test_iff e.0 k, q.test_iff e.0 j, q.test_iff k j, get-remove d k j)

  -- A test that no value passes is not passed by the value of a key.
  pub any-get :
      (p : V → Bool) (d : Dict K V) (k : K) (v : V)
      → any p (values d) ≡ false
      → get d k ≡ some v
      → p v ≡ false
  unfolding get
  any-get p [] k v h there = ground arith
  any-get p (e ∷ d) k v h there = ground (arith, any-get p d k v)
