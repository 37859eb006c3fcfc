-- ===== src/MultiSig/Cache.antt =====
-- The caches of `Buffer` objects in lib/src/multi_sig/multi_sig_session.ts, as far as a session can
-- tell them apart: it asks whether an object is in a cache, and how many there are.
use mathlib.Core.Quot
use mathlib.Core.Quot.{Quot, Quot-set}
use mathlib.Core.Bool.{Bool-set}
use native.Mathlib.Nat.{ℕ_set}
use chain_nodelib.Prelude.{
  ℕ, suc, ◌≡◌, refl, sym, ap, ◌∙◌, Bool, ◌||◌, List, [], ◌∷◌, ◌++◌, arith, length, length-concat,
  ◌==◌,
}
use chain_nodelib.MultiSig.{BufferObject, has_object}

-- Both answers agree on two lists.
pub record AreAlike (xs ys : List BufferObject) : Type 0 where
  pub same_objects : (x : BufferObject) → has_object xs x ≡ has_object ys x
  pub same_length : length xs ≡ length ys

abbrev pub Cache : Type 0
Cache = Quot AreAlike

abbrev pub cache_of : List BufferObject → Cache
cache_of xs = Quot.mk xs

unfoldable pub size : Cache → ℕ
size = Quot.lift ℕ_set length (λ _ _ alike. alike.same_length)

unfoldable pub contains : BufferObject → Cache → Bool
contains x = Quot.lift Bool-set (λ xs. has_object xs x) (λ _ _ alike. alike.same_objects x)

-- The added object is found beside the earlier ones.
has_object-concat_eq :
    (xs : List BufferObject) (y z : BufferObject)
    → has_object (xs ++ y ∷ []) z ≡ (y.identity == z.identity || has_object xs z)
unfolding has_object
has_object-concat_eq [] y z = refl
has_object-concat_eq (x ∷ xs) y z = ground (arith, has_object-concat_eq xs y z)

AreAlike-concat :
    (y : BufferObject) (xs zs : List BufferObject)
    → AreAlike xs zs
    → AreAlike (xs ++ y ∷ []) (zs ++ y ∷ [])
AreAlike-concat y xs zs alike = record {
  same_objects = λ x.
      has_object-concat_eq xs y x
      ∙ ap (λ b. y.identity == x.identity || b) (alike.same_objects x)
      ∙ sym (has_object-concat_eq zs y x);
  same_length = length-concat xs y ∙ ap suc alike.same_length ∙ sym (length-concat zs y);
}

unfoldable pub add : BufferObject → Cache → Cache
unfolding AreAlike-concat has_object-concat_eq
add y =
    Quot.lift Quot-set (λ xs. cache_of (xs ++ y ∷ []))
      λ xs zs alike. Quot.sound (AreAlike-concat y xs zs alike)

two_orders :
    (x y : BufferObject) (xs : List BufferObject)
    → AreAlike ((xs ++ x ∷ []) ++ y ∷ []) ((xs ++ y ∷ []) ++ x ∷ [])
two_orders x y xs = record {
  same_objects = λ z. ground (
    arith,
    has_object-concat_eq (xs ++ x ∷ []) y z,
    has_object-concat_eq (xs ++ y ∷ []) x z,
    has_object-concat_eq xs x z,
    has_object-concat_eq xs y z,
  );
  same_length = omega (
    arith,
    length-concat (xs ++ x ∷ []) y,
    length-concat (xs ++ y ∷ []) x,
    length-concat xs x,
    length-concat xs y,
  );
}

-- A cache does not know which of two objects came first.
pub add-add : (x y : BufferObject) (c : Cache) → add y (add x c) ≡ add x (add y c)
unfolding add
add-add x y = Quot.ind (λ _. Quot-set _ _) λ xs. Quot.sound (two_orders x y xs)

pub contains-add :
    (z y : BufferObject) (c : Cache)
    → contains z (add y c) ≡ (y.identity == z.identity || contains z c)
unfolding contains add
contains-add z y = Quot.ind (λ _. Bool-set _ _) λ xs. has_object-concat_eq xs y z
