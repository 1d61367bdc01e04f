-- ===== src/TypeParams/Same.antt =====
-- Instances with matching arguments: an equivalence that the hash respects.
use gopherjs.Base.{ℕ, true, List, [], ◌∷◌, ◌≡◌, arith, refl, ap, ◌∙◌}
use gopherjs.TypeParams.Instance.{Types, Instance, equal, hash_all, type_hash, args_match}
use gopherjs.Base.Words.{xor32}

module _ {T : Type 0} (types : Types T) where
  equal_refl : (ts : List T) → equal types ts ts ≡ true
  unfolding equal
  equal_refl [] = refl
  equal_refl (t ∷ ts) = ground (arith, types.identical_refl t, equal_refl ts)

  equal_sym : (ss ts : List T) → equal types ss ts ≡ true → equal types ts ss ≡ true
  unfolding equal
  equal_sym [] [] h = refl
  equal_sym [] (t ∷ ts) h = absurd (cc h)
  equal_sym (s ∷ ss) [] h = absurd (cc h)
  equal_sym (s ∷ ss) (t ∷ ts) h = ground (arith, types.identical_sym s t, equal_sym ss ts)

  equal_trans :
      (rs ss ts : List T)
      → equal types rs ss ≡ true
      → equal types ss ts ≡ true
      → equal types rs ts ≡ true
  unfolding equal
  equal_trans [] [] [] h k = refl
  equal_trans [] [] (t ∷ ts) h k = absurd (cc k)
  equal_trans [] (s ∷ ss) ts h k = absurd (cc h)
  equal_trans (r ∷ rs) [] ts h k = absurd (cc h)
  equal_trans (r ∷ rs) (s ∷ ss) [] h k = absurd (cc k)
  equal_trans (r ∷ rs) (s ∷ ss) (t ∷ ts) h k =
      ground (arith, types.identical_trans r s t, equal_trans rs ss ts)

  hash_all-equal :
      (hash : ℕ) (ss ts : List T)
      → equal types ss ts ≡ true
      → hash_all types hash ss ≡ hash_all types hash ts
  unfolding equal hash_all
  hash_all-equal hash [] [] h = refl
  hash_all-equal hash [] (t ∷ ts) h = absurd (cc h)
  hash_all-equal hash (s ∷ ss) [] h = absurd (cc h)
  hash_all-equal hash (s ∷ ss) (t ∷ ts) h =
      ap (λ k. hash_all types (xor32 hash k) ss) (types.hash-identical s t (ground arith))
      ∙ hash_all-equal (xor32 hash (types.hash t)) ss ts (ground arith)

  module _ {O : Type 0} where
    pub args_match_refl : (a : Instance T O) → args_match types a a ≡ true
    args_match_refl a = ground (arith, equal_refl a.t_nest, equal_refl a.t_args)

    pub args_match_sym :
        (a b : Instance T O) → args_match types a b ≡ true → args_match types b a ≡ true
    args_match_sym a b h = ground (arith, equal_sym a.t_nest b.t_nest, equal_sym a.t_args b.t_args)

    pub args_match_trans :
        (a b c : Instance T O)
        → args_match types a b ≡ true
        → args_match types b c ≡ true
        → args_match types a c ≡ true
    args_match_trans a b c h k =
        ground
          (arith, equal_trans a.t_nest b.t_nest c.t_nest, equal_trans a.t_args b.t_args c.t_args)

    pub type_hash-args_match :
        (a b : Instance T O)
        → args_match types a b ≡ true
        → type_hash types a.t_nest a.t_args ≡ type_hash types b.t_nest b.t_args
    unfolding type_hash
    type_hash-args_match a b h =
        ap (λ k. hash_all types k a.t_args) (hash_all-equal 0 a.t_nest b.t_nest (ground arith))
        ∙ hash_all-equal (hash_all types 0 b.t_nest) a.t_args b.t_args (ground arith)
