-- ===== src/Store/OwnHash.antt =====
-- `MaskOut` and `UnmaskOut`: the swap of the output's own hash keeps every length and is undone.
use mathlib.Core.Path.{subst, ap₂}
use corepkgs_v.Prelude.{
  ℕ, zero, suc, ◌+◌, ◌<◌, ◌≡◌, ◌≢◌, refl, sym, ap, ◌∙◌, inl, inr, Bool, true, false, [], ◌∷◌, ◌++◌,
  append_assoc, arith, if◌then◌else◌, Option-cases, Bytes, Lacks, find, contains, length, take,
  drop, All-append, length-append, drop-append_length, take-append_length,
}
use corepkgs_v.Text.{replace_loop}
use corepkgs_v.Text.Replace.{Replaced, stop, hit, miss, replace_loop-Replaced}
use corepkgs_v.Store.{
  Store, store_hash_length, out_placeholder, own_prefix, swap_loop, swap_out_hash, mask_out,
  unmask_out,
}
use corepkgs_v.Store.Swapped.{Free, Free-contains, Replaced-inverse}

-- The loop of `SwapOutHash` is that of `ReplaceAll` where both texts have one length.
swap_loop-replace_loop :
    (f : ℕ) (from into out rest : Bytes)
    → length into ≡ length from
    → swap_loop f from into out rest ≡ replace_loop f from into out rest
unfolding swap_loop replace_loop
swap_loop-replace_loop zero from into out rest h = refl
swap_loop-replace_loop (suc f) from into out rest h = elim (Option-cases (find from rest)) [
  | inl e ↦ rw (e, swap_loop, replace_loop) refl
  | inr (q, e) ↦
      let tail = drop (length from) q.1 in
      let put : take (length from) (into ++ tail) ≡ into =
        ap (λ n. take n (into ++ tail)) (sym h) ∙ take-append_length into tail in
      let kept : drop (length from) (into ++ tail) ≡ tail =
        ap (λ n. drop n (into ++ tail)) (sym h) ∙ drop-append_length into tail in
      rw (e, swap_loop, replace_loop)
        (ap₂ (λ w r. swap_loop f from into (out ++ (q.0 ++ w)) r) put kept
          ∙ swap_loop-replace_loop f from into (out ++ (q.0 ++ into)) tail h)
]

swap_loop-Replaced :
    (from into bytes : Bytes)
    → 0 < length from
    → length into ≡ length from
    → Replaced from into bytes (swap_loop (suc (length bytes)) from into [] bytes)
swap_loop-Replaced from into bytes pos h =
    let (t, same, r) =
      replace_loop-Replaced from into (suc (length bytes)) [] bytes pos (omega arith) in
    rw (swap_loop-replace_loop (suc (length bytes)) from into [] bytes h) (rw same r)

Lacks-append : (x y : Bytes) → Lacks b'-' x → Lacks b'-' y → Lacks b'-' (x ++ y)
Lacks-append x y = All-append (λ c. c ≢ b'-') x y

elim-cons : (x y : Bytes) (h : Bytes) → 0 < length h → (elim h [ [] ↦ x | c ∷ t ↦ y ]) ≡ y
elim-cons x y [] lt = absurd (omega arith)
elim-cons x y (c ∷ t) lt = refl

-- What a store whose hash is set knows of itself.
pub record IsOwn (s : Store) : Type 0 where
  pub dashless_dir : Lacks b'-' s.dir
  pub hash_length : length s.out_hash ≡ store_hash_length

own_stem : Bytes → Bytes → Bytes
own_stem dir hash = dir ++ (b'/' ∷ hash)

own_prefix-stem : (dir hash : Bytes) → own_prefix dir hash ≡ own_stem dir hash ++ b'-' ∷ []
unfolding own_stem
own_prefix-stem dir hash = rw append_assoc

length-own_prefix :
    (dir hash : Bytes) → length (own_prefix dir hash) ≡ length dir + (length hash + 2)
length-own_prefix dir hash =
    omega (arith, length-append dir (b'/' ∷ (hash ++ b'-' ∷ [])), length-append hash (b'-' ∷ []))

module _ (s : Store) (own : IsOwn s) where
  placeholder : Bytes
  placeholder = own_prefix s.dir out_placeholder

  real : Bytes
  real = own_prefix s.dir s.out_hash

  same_length : length placeholder ≡ length real
  unfolding placeholder real
  same_length = omega (
    arith,
    length-own_prefix s.dir s.out_hash,
    length-own_prefix s.dir out_placeholder,
    own.hash_length,
  )

  -- The loop runs, since the hash is set.
  swap_out_hash-loop :
      (bytes : Bytes) (back : Bool)
      → swap_out_hash s bytes back
        ≡ swap_loop
            (suc (length bytes))
            (if back then placeholder else real)
            (if back then real else placeholder)
            []
            bytes
  unfolding swap_out_hash placeholder real
  swap_out_hash-loop bytes back = elim-cons _ _ s.out_hash (omega (arith, own.hash_length))

  pos_real : 0 < length real
  unfolding real
  pos_real = omega (arith, length-own_prefix s.dir s.out_hash)

  mask_out-Replaced : (bytes : Bytes) → Replaced real placeholder bytes (mask_out s bytes)
  unfolding mask_out
  mask_out-Replaced bytes =
      rw (swap_out_hash-loop bytes false)
        (swap_loop-Replaced real placeholder bytes pos_real same_length)

  unmask_out-Replaced : (bytes : Bytes) → Replaced placeholder real bytes (unmask_out s bytes)
  unfolding unmask_out
  unmask_out-Replaced bytes = rw (swap_out_hash-loop bytes true) (
      swap_loop-Replaced placeholder real bytes (omega (arith, pos_real, same_length))
        (sym same_length))

  stem-ne-nil : own_stem s.dir out_placeholder ≢ []
  unfolding own_stem
  stem-ne-nil e = absurd (omega (arith, ap length e, length-append s.dir (b'/' ∷ out_placeholder)))

  stem-Lacks : Lacks b'-' (own_stem s.dir out_placeholder)
  unfolding own_stem
  stem-Lacks = Lacks-append s.dir (b'/' ∷ out_placeholder) own.dashless_dir (omega arith)

  placeholder-stem : placeholder ≡ own_stem s.dir out_placeholder ++ b'-' ∷ []
  unfolding placeholder
  placeholder-stem = own_prefix-stem s.dir out_placeholder

  -- Stored bytes come back as they were: `UnmaskOut` undoes `MaskOut` on every text that does not
  -- hold the placeholder path, if the store's directory has no '-' and the hash has its 32 bytes.
  pub unmask_out-mask_out :
      (bytes : Bytes)
      → contains bytes (own_prefix s.dir out_placeholder) ≡ false
      → unmask_out s (mask_out s bytes) ≡ bytes
  unmask_out-mask_out bytes h =
      Replaced-inverse real (own_stem s.dir out_placeholder) stem-Lacks stem-ne-nil
        (subst (λ p. Free p bytes) (own_prefix-stem s.dir out_placeholder)
          (Free-contains _ bytes h))
        (subst (λ p. Replaced real p bytes (mask_out s bytes)) placeholder-stem
          (mask_out-Replaced bytes))
        (subst (λ p. Replaced p real (mask_out s bytes) (unmask_out s (mask_out s bytes)))
          placeholder-stem (unmask_out-Replaced (mask_out s bytes)))
        refl

length-Replaced : {a b s t : Bytes} → length b ≡ length a → Replaced a b s t → length t ≡ length s
length-Replaced h stop = refl
length-Replaced {a} {b} h (hit {s = s} {t = t} p q r) =
    omega
      (arith, ap length p, ap length q, length-append a s, length-append b t, length-Replaced h r)
length-Replaced h (miss n r) = ap suc (length-Replaced h r)

-- `MaskOut` keeps the length of every text, if the store's directory has no '-' and the hash has its
-- 32 bytes.
pub length-mask_out :
    (s : Store) → IsOwn s → (bytes : Bytes) → length (mask_out s bytes) ≡ length bytes
length-mask_out s own bytes = length-Replaced (same_length s own) (mask_out-Replaced s own bytes)
