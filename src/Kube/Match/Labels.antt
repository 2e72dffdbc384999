-- ===== src/Kube/Match/Labels.antt =====
-- `kvsSatisfiedForMap` against what it promises.
use botkube.Base.{
  String, ◌≡◌, refl, ◌↔◌, inl, inr, true, Option, none, some, [], ◌∷◌, arith, eq_iff, eq_refl, Dict,
  lookup, In, sym,
}
use mathlib.Core.Path.{subst}
use botkube.Kube.Match.{kvs_loop, kvs_satisfied_for_map}

-- The pairs that are asked for.
abbrev pub wanted : Option (Dict String) → Dict String
wanted none = []
wanted (some kvs) = kvs

-- Every pair that is asked for is one of the object's.
abbrev pub HasAll : Dict String → Dict String → Type 0
HasAll expected obj = (k v : String) → In (k, v) expected → lookup k obj ≡ some v

loop-head :
    (j w : String) (rest obj : Dict String)
    → kvs_loop ((j, w) ∷ rest) obj ≡ true
    → (lookup j obj ≡ some w) × (kvs_loop rest obj ≡ true)
unfolding kvs_loop
loop-head j w rest obj h = (grind (arith, eq_iff), ground arith)

loop-cons :
    (j w : String) (rest obj : Dict String)
    → lookup j obj ≡ some w
    → kvs_loop rest obj ≡ true
    → kvs_loop ((j, w) ∷ rest) obj ≡ true
unfolding kvs_loop
loop-cons j w rest obj e h = ground (arith, eq_refl w)

loop_sound : (expected obj : Dict String) → kvs_loop expected obj ≡ true → HasAll expected obj
loop_sound [] obj h k v i = absurd i
loop_sound ((j, w) ∷ rest) obj h k v (inl e) =
    subst (λ p. lookup p.0 obj ≡ some p.1) (sym e) (loop-head j w rest obj h).0
loop_sound ((j, w) ∷ rest) obj h k v (inr i) =
    loop_sound rest obj (loop-head j w rest obj h).1 k v i

loop_complete : (expected obj : Dict String) → HasAll expected obj → kvs_loop expected obj ≡ true
loop_complete [] obj h = unfold kvs_loop in refl
loop_complete ((j, w) ∷ rest) obj h =
    loop-cons j w rest obj (h j w (inl refl)) (loop_complete rest obj (λ k v i. h k v (inr i)))

-- `kvsSatisfiedForMap` holds exactly when the object has every pair that is asked for; a nil or an
-- empty map asks for nothing.
pub kvs_satisfied_iff :
    (expected : Option (Dict String)) (obj : Dict String)
    → (kvs_satisfied_for_map expected obj ≡ true) ↔ HasAll (wanted expected) obj
unfolding kvs_satisfied_for_map
kvs_satisfied_iff none obj = (λ h k v i. absurd i, λ h. refl)
kvs_satisfied_iff (some []) obj = (λ h k v i. absurd i, λ h. refl)
kvs_satisfied_iff (some ((j, w) ∷ rest)) [] = (λ h. cc, λ h. unfold lookup in cc (h j w (inl refl)))
kvs_satisfied_iff (some ((j, w) ∷ rest)) (o ∷ obj) =
    (loop_sound ((j, w) ∷ rest) (o ∷ obj), loop_complete ((j, w) ∷ rest) (o ∷ obj))
