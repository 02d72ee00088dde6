-- ===== src/Launch/Followed.antt =====
-- The chains of links that `InvokedPath` of pkgs/la/launch/src/launch.cc follows to the end.
use corepkgs_v.Prelude.{
  ℕ, zero, suc, ◌<◌, ◌≡◌, refl, ◌∙◌, ◌↔◌, inl, inr, true, false, some, arith, Bool-cases,
  Option-cases, Bytes,
}
use corepkgs_v.Launch.{done}
use corepkgs_v.Launch.Invoked.{Disk, max_hops, is_launcher, hop_to, name_in_place, follow}

-- `last` is the first link behind `cur`, that many hops on, whose target is named "launch".
pub data Follows (disk : Disk) : Bytes → ℕ → Bytes → Type 0 where
  arrived :
      {cur : Bytes} (target : Bytes)
      → disk.read_symlink cur ≡ some target
      → is_launcher target ≡ true
      → Follows disk cur 0 cur
  hop :
      {cur last : Bytes} {n : ℕ} (target : Bytes)
      → disk.read_symlink cur ≡ some target
      → is_launcher target ≡ false
      → Follows disk (hop_to cur target) n last
      → Follows disk cur (suc n) last

-- What `follow` gives, at the end of a chain that is short enough.
pub record Reached (disk : Disk) (hops : ℕ) (cur self : Bytes) : Type 0 where
  pub count : ℕ
  pub last : Bytes
  pub chain : Follows disk cur count last
  pub short : count < hops
  pub named : name_in_place disk last ≡ done self

module _ (disk : Disk) (argv0 : Bytes) where
  follow-Follows :
      (hops : ℕ) {cur last : Bytes} {n : ℕ}
      → Follows disk cur n last
      → n < hops
      → follow disk argv0 hops cur ≡ name_in_place disk last
  unfolding follow
  follow-Follows zero chain h = absurd (omega arith)
  follow-Follows (suc hops) (arrived target reads ends) h = rw (reads, follow, ends) refl
  follow-Follows (suc hops) (hop target reads goes chain) h =
      rw (reads, follow, goes) (follow-Follows hops chain (omega arith))

  follow-Reached :
      (hops : ℕ) (cur self : Bytes)
      → follow disk argv0 hops cur ≡ done self
      → Reached disk hops cur self
  unfolding follow
  follow-Reached zero cur self h = cc h
  follow-Reached (suc hops) cur self h = elim (Option-cases (disk.read_symlink cur)) [
    | inl e ↦ cc (simp (follow, e) at h)
    | inr (target, e) ↦ elim (Bool-cases (is_launcher target)) [
      | inl ends ↦ record {
        count = 0;
        last = cur;
        chain = arrived target e ends;
        short = omega arith;
        named = simp (follow, e, ends) at h;
      }
      | inr goes ↦
          let r = follow-Reached hops (hop_to cur target) self (simp (follow, e, goes) at h) in
          record {
            count = suc r.count;
            last = r.last;
            chain = hop target e goes r.chain;
            short = omega (arith, r.short);
            named = r.named;
          }
    ]
  ]

  -- The launcher finds the program it was started as exactly when a chain of fewer than 32 links leads
  -- from where it was called to a link to "launch": the program is that link's name in its real
  -- directory. On every other path, a loop among them, the search ends too, with an error.
  pub follow_lem :
      (cur self : Bytes)
      → (follow disk argv0 max_hops cur ≡ done self) ↔ Reached disk max_hops cur self
  follow_lem cur self = (
    λ h. follow-Reached max_hops cur self h,
    λ r. follow-Follows max_hops r.chain r.short ∙ r.named,
  )
