-- ===== src/TypeParams/Instance.antt =====
-- compiler/internal/typeparams/instance.go, map.go and compiler/typesutil/typelist.go: instances, when
-- two are the same, and their hash. go/types and typeutil.Hasher are a parameter.
use gopherjs.Base.{ℕ, Bool, true, false, ◌&&◌, List, [], ◌∷◌, ◌≡◌}
use gopherjs.Base.Words.{xor32}

-- `types.Identical` is an equivalence, and `Hasher.Hash` does not tell identical types apart.
pub record Types (T : Type 0) : Type 0 where
  pub identical : T → T → Bool
  pub hash : T → ℕ
  pub identical_refl : (t : T) → identical t t ≡ true
  pub identical_sym : (s t : T) → identical s t ≡ true → identical t s ≡ true
  pub identical_trans :
      (r s t : T) → identical r s ≡ true → identical s t ≡ true → identical r t ≡ true
  pub hash-identical : (s t : T) → identical s t ≡ true → hash s ≡ hash t

-- Instance, over the types `T` and the objects `O`
pub record Instance (T O : Type 0) : Type 0 where
  pub object : O
  pub t_args : List T
  pub t_nest : List T

module _ {T : Type 0} (types : Types T) where
  -- `TypeList.Equal`
  unfoldable pub equal : List T → List T → Bool
  equal [] [] = true
  equal (s ∷ ss) (t ∷ ts) = types.identical s t && equal ss ts
  equal _ _ = false

  -- a loop of `typeHash`
  unfoldable pub hash_all : ℕ → List T → ℕ
  hash_all hash [] = hash
  hash_all hash (t ∷ ts) = hash_all (xor32 hash (types.hash t)) ts

  unfoldable pub type_hash : List T → List T → ℕ
  type_hash nest_types ts = hash_all (hash_all 0 nest_types) ts

  -- The type arguments and the nesting ones of two instances are identical.
  abbrev pub args_match : {O : Type 0} → Instance T O → Instance T O → Bool
  args_match a b = equal a.t_nest b.t_nest && equal a.t_args b.t_args
