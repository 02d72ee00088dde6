-- ===== src/Store/Maps.antt =====
-- The maps of pkgs/ji/jig/src, as association lists: what an assignment changes.
use corepkgs_v.Prelude.{
  ◌≡◌, refl, sym, ap, ◌∙◌, inl, inr, true, false, some, List, [], ◌∷◌, arith, Bool-cases, Bytes,
  equal, equal_iff,
}
use corepkgs_v.Store.{lookup, insert_or_assign}

pub lookup-insert_or_assign :
    (k v : Bytes) (m : List (Bytes × Bytes)) → lookup k (insert_or_assign k v m) ≡ some v
unfolding lookup insert_or_assign
lookup-insert_or_assign k v [] = rw (lookup, (equal_iff k k).1 refl) refl
lookup-insert_or_assign k v ((j, w) ∷ m) = elim (Bool-cases (equal j k)) [
  | inl e ↦ rw (e, insert_or_assign) (rw (lookup, e) refl)
  | inr e ↦ rw (e, insert_or_assign) (rw (lookup, e) (lookup-insert_or_assign k v m))
]

pub equal_comm : (a b : Bytes) → equal a b ≡ equal b a
equal_comm a b = elim (Bool-cases (equal a b)) [
  | inl e ↦ e ∙ sym ((equal_iff b a).1 (sym ((equal_iff a b).0 e)))
  | inr e ↦ elim (Bool-cases (equal b a)) [
    | inr e' ↦ e ∙ sym e'
    | inl e' ↦ absurd (ground (arith, e, (equal_iff a b).1 (sym ((equal_iff b a).0 e'))))
  ]
]

pub equal_to : (a b c : Bytes) → equal a b ≡ true → equal a c ≡ equal b c
equal_to a b c e = ap (λ x. equal x c) ((equal_iff a b).0 e)

pub lookup-insert_or_assign_other :
    (j k v : Bytes) (m : List (Bytes × Bytes))
    → equal k j ≡ false
    → lookup j (insert_or_assign k v m) ≡ lookup j m
unfolding lookup insert_or_assign
lookup-insert_or_assign_other j k v [] h = rw (lookup, h) refl
lookup-insert_or_assign_other j k v ((i, w) ∷ m) h = elim (Bool-cases (equal i k)) [
  | inl e ↦ rw (e, insert_or_assign) (rw (lookup, equal_to i k j e, h) refl)
  | inr e ↦
      rw (e, insert_or_assign)
        (elim (Bool-cases (equal i j)) [
          | inl e' ↦ rw (lookup, e') refl
          | inr e' ↦ rw (lookup, e') (lookup-insert_or_assign_other j k v m h)
        ])
]
