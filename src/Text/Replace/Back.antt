-- ===== src/Text/Replace/Back.antt =====
-- `ReplaceAll` of pkgs/ji/jig/src/base.cc: a replacement by one byte, and its inverse.
use corepkgs_v.Prelude.{
  ℕ, ◌≡◌, ◌≢◌, refl, sym, ap, ◌∙◌, false, none, some, [], ◌∷◌, ◌++◌, arith, Bytes, Lacks,
  starts_with, starts_with-append, find,
}
use mathlib.Core.Path.{subst}
use corepkgs_v.Text.{replace_all}
use corepkgs_v.Text.Replace.{
  Replaced, stop, hit, miss, match-Replaced, no_match-Replaced, replace_all-Replaced,
}

cancel_front : (p s t : Bytes) → p ++ s ≡ p ++ t → s ≡ t
cancel_front [] s t e = e
cancel_front (c ∷ p) s t e = cancel_front p s t (ground arith)

Lacks-back : (b : ℕ) (p s : Bytes) → Lacks b (p ++ s) → Lacks b s
Lacks-back b [] s h = h
Lacks-back b (c ∷ p) s h = Lacks-back b p s h.1

no_front : (from s : Bytes) → from ≢ [] → [] ≡ from ++ s → ⊥
no_front [] s h e = h refl
no_front (c ∷ from) s h e = cc

module _ (from into : Bytes) (some_text : from ≢ []) where
  hit-miss : (c : ℕ) (s t : Bytes) → c ∷ s ≡ from ++ t → starts_with (c ∷ s) from ≡ false → ⊥
  hit-miss c s t e h = cc (starts_with-append from t)

  -- The relation has one result for a text.
  pub Replaced-unique : {u v w : Bytes} → Replaced from into u v → Replaced from into u w → v ≡ w
  Replaced-unique stop stop = refl
  Replaced-unique stop (hit e f r) = absurd (no_front from _ some_text e)
  Replaced-unique (hit e f r) stop = absurd (no_front from _ some_text e)
  Replaced-unique (hit {s = s} {t = t} e f r) (hit {s = s'} e' f' r') =
      let same = cancel_front from s s' (sym e ∙ e') in
      f
      ∙ ap (λ x. into ++ x) (Replaced-unique (subst (λ x. Replaced from into x t) same r) r')
      ∙ sym f'
  Replaced-unique (hit e f r) (miss h r') = absurd (hit-miss _ _ _ e h)
  Replaced-unique (miss h r) (hit e f r') = absurd (hit-miss _ _ _ e h)
  Replaced-unique (miss {c = c} h r) (miss h' r') = ap (◌∷◌ c) (Replaced-unique r r')

  -- What `ReplaceAll` returns is that result.
  pub replace_all_unique :
      (text : Bytes) {v : Bytes} → Replaced from into text v → replace_all text from into ≡ v
  replace_all_unique text r = Replaced-unique (replace_all-Replaced from into text some_text) r

one_byte-ne-nil : (b : ℕ) → b ∷ [] ≢ []
one_byte-ne-nil b e = cc e

module _ (b : ℕ) where
  miss_byte : (k : Bytes) (c : ℕ) (s : Bytes) → c ≢ b → starts_with (c ∷ s) (b ∷ k) ≡ false
  unfolding starts_with
  miss_byte k c s h = ground arith

  -- In front of a text, bytes other than `b` stay if what is replaced begins with it.
  pub Replaced-front :
      (k into p : Bytes) {s t : Bytes}
      → Lacks b p
      → Replaced (b ∷ k) into s t
      → Replaced (b ∷ k) into (p ++ s) (p ++ t)
  Replaced-front k into [] h r = r
  Replaced-front k into (c ∷ p) h r = miss (miss_byte k c _ h.0) (Replaced-front k into p h.1 r)

  Replaced-swap :
      (from : Bytes) {u v : Bytes}
      → Lacks b u
      → Replaced from (b ∷ []) u v
      → Replaced (b ∷ []) from v u
  Replaced-swap from h stop = stop
  Replaced-swap from h (hit {s = s} e f r) =
      hit f e (Replaced-swap from (Lacks-back b from s (subst (Lacks b) e h)) r)
  Replaced-swap from h (miss m r) = miss (miss_byte [] _ _ h.0) (Replaced-swap from h.1 r)

  Replaced-lacking : (into s : Bytes) → Lacks b s → Replaced (b ∷ []) into s s
  Replaced-lacking into [] h = stop
  Replaced-lacking into (c ∷ s) h = miss (miss_byte [] c s h.0) (Replaced-lacking into s h.1)

  -- A replacement by a byte that the text lacks is undone by replacing the byte, for every text that
  -- was replaced, the empty one included.
  pub replace_all_back :
      (text from : Bytes)
      → Lacks b text
      → replace_all (replace_all text from (b ∷ [])) (b ∷ []) from ≡ text
  replace_all_back text [] h =
      unfold replace_all in
      replace_all_unique (b ∷ []) [] (one_byte-ne-nil b) text (Replaced-lacking [] text h)
  replace_all_back text (c ∷ from) h =
      replace_all_unique (b ∷ []) (c ∷ from) (one_byte-ne-nil b) _
        (Replaced-swap (c ∷ from) h (replace_all-Replaced (c ∷ from) (b ∷ []) text (λ e. cc e)))

  -- A text with one match is carried over to another text in its place.
  pub replace_all_carried :
      (from into front back : Bytes)
      → from ≢ []
      → find from (front ++ (from ++ back)) ≡ some (front, from ++ back)
      → find from back ≡ none
      → Lacks b front
      → Lacks b back
      → replace_all (replace_all (front ++ (from ++ back)) from (b ∷ [])) (b ∷ []) into
        ≡ front ++ (into ++ back)
  replace_all_carried from into front back ne first last hf hb =
      let masked =
        match-Replaced from (b ∷ []) _ front (from ++ back) _ first
          (hit refl refl (no_match-Replaced from (b ∷ []) back last)) in
      let restored =
        Replaced-front [] into front hf
          (hit {u = b ∷ back} refl refl (Replaced-lacking into back hb)) in
      ap (λ t. replace_all t (b ∷ []) into) (replace_all_unique from (b ∷ []) ne _ masked)
      ∙ replace_all_unique (b ∷ []) into (one_byte-ne-nil b) _ restored
