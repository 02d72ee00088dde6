-- ===== src/Tests/Keys.antt =====
-- pkgs/ji/jig/src/keys.cc
use corepkgs_v.Prelude.{◌≡◌, refl, [], ◌∷◌, arith, codes}
use corepkgs_v.Keys.{k_cc, k_rustc, request_key, Slot, object, slot_key, Tool}
use corepkgs_v.Keys.Frame.{fields, fields-inj}

fields-inj_example : codes "a" ∷ codes "bc" ∷ [] ≡ codes "a" ∷ codes "bc" ∷ []
fields-inj_example =
    fields-inj (codes "a" ∷ codes "bc" ∷ []) (codes "a" ∷ codes "bc" ∷ []) (omega arith)
      (omega arith) refl

framing : fields [] (codes "a" ∷ codes "bc" ∷ []) ≡ codes "1:a2:bc"
unfolding corepkgs_v.Keys.field corepkgs_v.Text.print_uint
framing = refl
