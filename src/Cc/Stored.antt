-- ===== src/Cc/Stored.antt =====
-- What `CompileAndStore` of pkgs/ji/jig/src/cc_mode.cc stores is what `Lookup` finds.
use corepkgs_v.Prelude.{
  ◌≡◌, refl, ◌∙◌, inl, inr, true, false, not, ◌&&◌, some, Bool-cases, Bytes, equal, contains, All,
}
use corepkgs_v.Text.{print_uint}
use corepkgs_v.Keys.{manifest, object, stderr, depfile, exit_status, slot_key}
use corepkgs_v.Store.{Store, mask_out, mask_for_replay, own_prefix, out_placeholder}
use corepkgs_v.Manifest.{Files, Manifest}
use corepkgs_v.Manifest.RoundTrip.{KeptInput, StillAbsent}
use corepkgs_v.Cc.Invocation.{Invocation}
use corepkgs_v.Daemon.{CacheServer}
use corepkgs_v.Cc.Result.{links, Observed, is_some, store_failure, store_success}

-- The text does not hold the placeholder of the own output path.
abbrev pub IsPlain : Store → Bytes → Type 0
IsPlain s text = contains text (own_prefix s.dir out_placeholder) ≡ false

-- A later build sees the inputs that this run read.
pub record SameInputs (f g : Files) (obs : Observed) : Type 0 where
  pub inputs : All (KeptInput f g) obs.inputs
  pub absent : All (StillAbsent f g) obs.absent

-- A successful run that `CompileAndStore` stores.
pub record Replayable (inv : Invocation) (obs : Observed) (text dep : Bytes) : Type 0 where
  pub status : obs.run.status ≡ 0
  pub dep_text : obs.dep_text ≡ some dep
  pub output : obs.output ≡ some text
  pub link : (links inv && not (is_some obs.link_dep_text)) ≡ false

module _ {S : Type 0} (server : CacheServer S) (blake3 : Bytes → Bytes) (f : Files) (s : Store)
    (st : S) (request : Bytes) (obs : Observed) (m : Manifest) where
  module _ (inv : Invocation) (text dep : Bytes) where
    unfoldable pub compiled : S
    compiled = store_success server blake3 f s st request inv obs text dep m

    pub compiled_manifest : server.get compiled (slot_key (manifest request)) ≡ some m.text
    unfolding compiled store_success slot_key equal
    compiled_manifest = elim (Bool-cases inv.wants_depfile) [
      | inl e ↦
          simp (e, store_success)
            (server.get_put_other _ _ _ _ refl
              ∙ server.get_put_other _ _ _ _ refl
              ∙ server.get_put_other _ _ _ _ refl
              ∙ server.get_put _ _ _)
      | inr e ↦
          simp (e, store_success)
            (server.get_put_other _ _ _ _ refl
              ∙ server.get_put_other _ _ _ _ refl
              ∙ server.get_put _ _ _)
    ]

    pub compiled_status :
        server.get compiled (slot_key (exit_status m.key))
        ≡ server.get st (slot_key (exit_status m.key))
    unfolding compiled store_success slot_key equal
    compiled_status = elim (Bool-cases inv.wants_depfile) [
      | inl e ↦
          simp (e, store_success)
            (server.get_put_other _ _ _ _ refl
              ∙ server.get_put_other _ _ _ _ refl
              ∙ server.get_put_other _ _ _ _ refl
              ∙ server.get_put_other _ _ _ _ refl)
      | inr e ↦
          simp (e, store_success)
            (server.get_put_other _ _ _ _ refl
              ∙ server.get_put_other _ _ _ _ refl
              ∙ server.get_put_other _ _ _ _ refl)
    ]

    pub compiled_object : server.get compiled (slot_key (object m.key)) ≡ some (mask_out s text)
    unfolding compiled store_success slot_key equal
    compiled_object = elim (Bool-cases inv.wants_depfile) [
      | inl e ↦
          simp (e, store_success)
            (server.get_put_other _ _ _ _ refl
              ∙ server.get_put_other _ _ _ _ refl
              ∙ server.get_put _ _ _)
      | inr e ↦ simp (e, store_success) (server.get_put_other _ _ _ _ refl ∙ server.get_put _ _ _)
    ]

    pub compiled_stderr :
        server.get compiled (slot_key (stderr m.key)) ≡ some (mask_out s obs.run.stderr_text)
    unfolding compiled store_success slot_key equal
    compiled_stderr = elim (Bool-cases inv.wants_depfile) [
      | inl e ↦ simp (e, store_success) (server.get_put_other _ _ _ _ refl ∙ server.get_put _ _ _)
      | inr e ↦ simp (e, store_success) (server.get_put _ _ _)
    ]

    pub compiled_depfile :
        inv.wants_depfile ≡ true
        → server.get compiled (slot_key (depfile m.key)) ≡ some (mask_out s (mask_for_replay s dep))
    unfolding compiled store_success
    compiled_depfile e = simp (e, store_success) (server.get_put _ _ _)

  unfoldable pub failed : S
  failed = store_failure server blake3 f s st request obs m

  pub failed_manifest : server.get failed (slot_key (manifest request)) ≡ some m.text
  unfolding failed store_failure slot_key equal
  failed_manifest =
      server.get_put_other _ _ _ _ refl ∙ server.get_put_other _ _ _ _ refl ∙ server.get_put _ _ _

  pub failed_status :
      server.get failed (slot_key (exit_status m.key)) ≡ some (print_uint 10 obs.run.status)
  unfolding failed store_failure slot_key equal
  failed_status = server.get_put_other _ _ _ _ refl ∙ server.get_put _ _ _

  pub failed_stderr :
      server.get failed (slot_key (stderr m.key)) ≡ some (mask_out s obs.run.stderr_text)
  unfolding failed store_failure
  failed_stderr = server.get_put _ _ _
