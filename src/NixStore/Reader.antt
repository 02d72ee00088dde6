-- ===== src/NixStore/Reader.antt =====
-- A reader of ATerms, to say what `DerivationToATerm` of pkgs/ji/jig/src/nix_store_mode.cc keeps: a part of a text
-- is read off its front.
use corepkgs_v.Prelude.{
  ℕ, zero, suc, ◌≤◌, ◌<◌, ◌≡◌, refl, sym, ap, ◌∙◌, Bool, true, Option, none, some, List, [], ◌∷◌,
  ◌++◌, append_assoc, arith, ◌==◌, if◌then◌else◌, Bytes, length, length-append,
}
use corepkgs_v.NixStore.Aterm.{list_loop, list}

abbrev pub Reader : Type 0 → Type 0
Reader A = Bytes → Option (A × Bytes)

abbrev pub then_read : {A B : Type 0} → Reader A → (A → Reader B) → Reader B
then_read r f s = elim (r s) [ none ↦ none | some (a, t) ↦ f a t ]

abbrev pub mapped : {A B : Type 0} → (A → B) → Reader A → Reader B
mapped g r = then_read r (λ a t. some (g a, t))

abbrev pub pair : {A B : Type 0} → Reader A → Reader B → Reader (A × B)
pair r q = then_read r (λ a. mapped (λ b. (a, b)) q)

abbrev pub expect : ℕ → Reader Bool
expect c [] = none
expect c (d ∷ s) = if c == d then some (true, s) else none

abbrev pub after : {A : Type 0} → ℕ → Reader A → Reader A
after c r = then_read (expect c) (λ done. r)

abbrev pub before : {A : Type 0} → Reader A → ℕ → Reader A
before r c = then_read r (λ a. mapped (λ done. a) (expect c))

-- The items behind the first, on fuel.
unfoldable pub read_rest : {A : Type 0} → ℕ → Reader A → Reader (List A)
read_rest zero r s = none
read_rest (suc f) r [] = none
read_rest (suc f) r (c ∷ s) =
    let more = then_read r (λ a. mapped (λ items. a ∷ items) (read_rest f r)) s in
    if c == b']' then some ([], s) else if c == b',' then more else none

-- A first item and those behind it; each has a byte, so the length is fuel enough.
abbrev pub read_more : {A : Type 0} → Reader A → Reader (List A)
read_more r s = then_read r (λ a. mapped (λ items. a ∷ items) (read_rest (length s) r)) s

unfoldable pub read_items : {A : Type 0} → Reader A → Reader (List A)
read_items r [] = none
read_items r (c ∷ s) = let more = read_more r (c ∷ s) in if c == b']' then some ([], s) else more

abbrev pub read_list : {A : Type 0} → Reader A → Reader (List A)
read_list r = after b'[' (read_items r)

-- A text that the reader takes for this.
abbrev pub Reads : {A : Type 0} → Reader A → Bytes → A → Type 0
Reads r bytes a = (rest : Bytes) → r (bytes ++ rest) ≡ some (a, rest)

pub Reads-then :
    {A B : Type 0} (r : Reader A) (f : A → Reader B) (x y : Bytes) {a : A} {b : B}
    → Reads r x a
    → Reads (f a) y b
    → Reads (then_read r f) (x ++ y) b
Reads-then r f x y hx hy rest =
    ap (then_read r f) (append_assoc x y rest)
    ∙ ap (λ o. elim o [ none ↦ none | some (a, t) ↦ f a t ]) (hx (y ++ rest))
    ∙ hy rest

pub Reads-mapped :
    {A B : Type 0} (g : A → B) (r : Reader A) (x : Bytes) {a : A}
    → Reads r x a
    → Reads (mapped g r) x (g a)
Reads-mapped g r x h rest = ap (λ o. elim o [ none ↦ none | some (a, t) ↦ some (g a, t) ]) (h rest)

pub Reads-pair :
    {A B : Type 0} (r : Reader A) (q : Reader B) (x y : Bytes) {a : A} {b : B}
    → Reads r x a
    → Reads q y b
    → Reads (pair r q) (x ++ y) (a, b)
Reads-pair r q x y {a = a} hx hy =
    Reads-then r (λ a'. mapped (λ b'. (a', b')) q) x y hx (Reads-mapped (λ b'. (a, b')) q y hy)

expect-Reads : (c : ℕ) → Reads (expect c) (c ∷ []) true
expect-Reads c rest = let e : (c == c) ≡ true = ground arith in rw e refl

pub Reads-after :
    {A : Type 0} (c : ℕ) (r : Reader A) (x : Bytes) {a : A}
    → Reads r x a
    → Reads (after c r) (c ∷ x) a
Reads-after c r x h = Reads-then (expect c) (λ done. r) (c ∷ []) x (expect-Reads c) h

pub Reads-before :
    {A : Type 0} (c : ℕ) (r : Reader A) (x : Bytes) {a : A}
    → Reads r x a
    → Reads (before r c) (x ++ c ∷ []) a
Reads-before c r x {a = a} h =
    Reads-then r (λ a'. mapped (λ done. a') (expect c)) x (c ∷ []) h
      (Reads-mapped (λ done. a) (expect c) (c ∷ []) (expect-Reads c))

module _ {A : Type 0} (r : Reader A) (render : A → Bytes)
    (reads : (a : A) → Reads r (render a) a) where
  read_rest-Reads :
      (items : List A) (f : ℕ)
      → length items < f
      → Reads (read_rest f r) (list_loop render items ++ b']' ∷ []) items
  unfolding read_rest list_loop
  read_rest-Reads items zero h = absurd (omega arith)
  read_rest-Reads [] (suc f) h = λ rest. refl
  read_rest-Reads (item ∷ items) (suc f) h =
      let behind = list_loop render items ++ b']' ∷ [] in
      let both =
        Reads-then r (λ a. mapped (λ items. a ∷ items) (read_rest f r)) (render item) behind
          (reads item)
          (Reads-mapped (λ items. item ∷ items) (read_rest f r) behind
            (read_rest-Reads items f (omega arith))) in
      λ rest.
        ap (λ s. then_read r (λ a. mapped (λ items. a ∷ items) (read_rest f r)) (s ++ rest))
          (append_assoc (render item) (list_loop render items) (b']' ∷ []))
        ∙ both rest

  list_loop_long : (items : List A) → length items ≤ length (list_loop render items)
  unfolding list_loop
  list_loop_long [] = omega arith
  list_loop_long (item ∷ items) =
      ground
        (arith, length-append (b',' ∷ render item) (list_loop render items), list_loop_long items)

  -- A list whose items do not begin with a bracket.
  pub read_list-Reads :
      ((a : A) (s : Bytes) → read_items r (render a ++ s) ≡ read_more r (render a ++ s))
      → (items : List A) → Reads (read_list r) (list render items) items
  unfolding list read_items
  read_list-Reads skips [] = Reads-after b'[' (read_items r) (b']' ∷ []) (λ rest. refl)
  read_list-Reads skips (item ∷ items) =
      let behind = list_loop render items ++ b']' ∷ [] in
      Reads-after b'[' (read_items r) (render item ++ behind) (λ rest.
        let s = (render item ++ behind) ++ rest in
        let enough : length items < length s = ground (
          arith,
          length-append (render item ++ behind) rest,
          length-append (render item) behind,
          length-append (list_loop render items) (b']' ∷ []),
          list_loop_long items,
        ) in
        ap (read_items r) (append_assoc (render item) behind rest)
        ∙ skips item (behind ++ rest)
        ∙ sym (ap (read_more r) (append_assoc (render item) behind rest))
        ∙ Reads-then r (λ a. mapped (λ items. a ∷ items) (read_rest (length s) r)) (render item)
            behind (reads item)
            (Reads-mapped (λ items. item ∷ items) (read_rest (length s) r) behind
              (read_rest-Reads items (length s) enough))
            rest)
