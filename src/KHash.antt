-- ===== src/KHash.antt =====
-- What the program relies on of khash.h, the hash table that it carries along: a finite map. The
-- iterator of kh_get is tested against kh_end at once, and dereferenced by kh_val, so that a
-- lookup is an option; kh_put is followed by an assignment to kh_val.
use vmars.Prelude.{
  ◌≡◌, refl, ◌↔◌, Bool, true, List, [], ◌∷◌, Option, none, some, arith, if◌then◌else◌,
}

pub record KHash (K V : Type 0) : Type 1 where
  pub Map : Type 0
  pub key_equal : K → K → Bool
  pub kh_init : Map
  pub kh_get : Map → K → Option V
  pub kh_put : Map → K → V → Map
  pub kh_del : Map → K → Map
  pub key_equal_iff : (a b : K) → (key_equal a b ≡ true) ↔ (a ≡ b)
  pub get-init : (k : K) → kh_get kh_init k ≡ none
  pub get-put :
      (m : Map) (k : K) (v : V) (j : K)
      → kh_get (kh_put m k v) j ≡ (if key_equal k j then some v else kh_get m j)
  pub get-del :
      (m : Map) (k j : K) → kh_get (kh_del m k) j ≡ (if key_equal k j then none else kh_get m j)

-- An association list meets the interface.
module _ {K V : Type 0} (eq : K → K → Bool) where
  abbrev pub lookup : List (K × V) → K → Option V
  lookup [] k = none
  lookup ((j, v) ∷ m) k = if eq j k then some v else lookup m k

  abbrev pub delete : List (K × V) → K → List (K × V)
  delete [] k = []
  delete ((j, v) ∷ m) k = let rest = delete m k in if eq k j then rest else (j, v) ∷ rest

module _ {K V : Type 0} (eq : K → K → Bool) (eq_iff : (a b : K) → (eq a b ≡ true) ↔ (a ≡ b)) where
  pub lookup-delete :
      (m : List (K × V)) (k j : K)
      → lookup eq (delete eq m k) j ≡ (if eq k j then none else lookup eq m j)
  lookup-delete [] k j = ground arith
  lookup-delete ((i, v) ∷ m) k j =
      ground (arith, lookup-delete m k j, eq_iff k i, eq_iff i j, eq_iff k j)

  abbrev pub association_list : KHash K V
  association_list = record {
    Map = List (K × V);
    key_equal = eq;
    kh_init = [];
    kh_get = lookup eq;
    kh_put = λ m k v. (k, v) ∷ m;
    kh_del = delete eq;
    key_equal_iff = eq_iff;
    get-init = λ k. refl;
    get-put = λ m k v j. refl;
    get-del = lookup-delete;
  }
