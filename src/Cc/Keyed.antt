-- ===== src/Cc/Keyed.antt =====
-- What the request key of a command line leaves out: `ParseInvocation` of
-- pkgs/ji/jig/src/cc_mode.cc.
use corepkgs_v.Prelude.{
  ℕ, zero, suc, ◌≤◌, ◌≡◌, refl, sym, ap, ◌∙◌, inl, inr, Bool, true, false, ◌&&◌, List, [], ◌∷◌,
  arith, if◌then◌else◌, Bool-cases, Bytes, length,
}
use corepkgs_v.Cc.Invocation.{
  default_depfile, is_empty, Invocation, Scan, scan_arg, scan_loop, classify_stop, classify_link,
  classify, start, parse_invocation,
}
use corepkgs_v.Cc.Omits.{
  Parts, no_parts, together, Omits, done, view, push, push_nothing, push-together,
}
use corepkgs_v.Cc.Rounds.{scan_arg-Taken}
use corepkgs_v.Cc.Takes.{Takes}

-- The parts of a command line, and what the loop has found of it.
pub record Found (before : Scan) (args : List Bytes) (after : Scan) : Type 0 where
  pub parts : Parts
  pub seen : view after ≡ push (view before) parts
  pub omits : Omits false args parts

Found-nil : (s : Scan) → Found s [] s
Found-nil s = record { parts = no_parts; seen = sym (push_nothing (view s)); omits = done }

Found-cons :
    {before between after : Scan} {args left : List Bytes}
    → Takes before false args between left
    → Found between left after
    → Found before args after
Found-cons {before} t s = record {
  parts = together t.found s.parts;
  seen = s.seen ∙ ap (λ v. push v s.parts) t.seen ∙ push-together (view before) t.found s.parts;
  omits = t.omits s.parts s.omits;
}

pub scan_loop-Found :
    (f : ℕ) (s : Scan) (args : List Bytes) → length args ≤ f → Found s args (scan_loop f s args)
unfolding scan_loop
scan_loop-Found zero s [] h = Found-nil s
scan_loop-Found zero s (arg ∷ rest) h = absurd (omega arith)
scan_loop-Found (suc f) s [] h = Found-nil s
scan_loop-Found (suc f) s (arg ∷ rest) h =
    let t = scan_arg-Taken s arg rest in
    Found-cons t
      (scan_loop-Found f (scan_arg s arg rest).0 (scan_arg s arg rest).1 (omega (arith, t.shorter)))

-- The state in front of the loop.
abbrev pub first : List Bytes → Scan
first args = record { inv = start args; objects = false; sources = 0; stop = 0 }

-- What is left alone by `Classify`.
record SameScan (before after : Invocation) : Type 0 where
  same_keys : after.key_args ≡ before.key_args
  same_args : after.args ≡ before.args

default_depfile-SameScan : (inv : Invocation) → SameScan inv (default_depfile inv)
default_depfile-SameScan inv = elim (Bool-cases (inv.wants_depfile && is_empty inv.depfile)) [
  | inl e ↦
      unfold default_depfile in
      rw (e, default_depfile) (record { same_keys = refl; same_args = refl })
  | inr e ↦
      unfold default_depfile in
      rw (e, default_depfile) (record { same_keys = refl; same_args = refl })
]

classify_stop-SameScan :
    (tmpdir : Bytes) (pid : ℕ) (s : Scan)
    → SameScan (s.inv) (default_depfile (classify_stop tmpdir pid s))
classify_stop-SameScan tmpdir pid s =
    let d = default_depfile-SameScan (classify_stop tmpdir pid s) in
    record {
      same_keys = d.same_keys ∙ (unfold classify_stop in refl);
      same_args = d.same_args ∙ (unfold classify_stop in refl);
    }

classify_link-SameScan : (s : Scan) → SameScan (s.inv) (default_depfile (classify_link s))
classify_link-SameScan s =
    let d = default_depfile-SameScan (classify_link s) in
    record {
      same_keys = d.same_keys ∙ (unfold classify_link in refl);
      same_args = d.same_args ∙ (unfold classify_link in refl);
    }

chosen-SameScan :
    (b : Bool) (tmpdir : Bytes) (pid : ℕ) (s : Scan)
    → SameScan (s.inv) (default_depfile (if b then classify_stop tmpdir pid s else classify_link s))
chosen-SameScan true tmpdir pid s = classify_stop-SameScan tmpdir pid s
chosen-SameScan false tmpdir pid s = classify_link-SameScan s

classify-SameScan : (tmpdir : Bytes) (pid : ℕ) (s : Scan) → SameScan (s.inv) (classify tmpdir pid s)
unfolding classify
classify-SameScan tmpdir pid s = chosen-SameScan (s.inv.compile_only) tmpdir pid s

-- The arguments that reach the request key are those of the command line, in order, less the output options
-- and the depfile options with their values, the source files and the options that ask a question; every
-- other argument reaches it, and so do the value of -include-pch, whatever it is, and an option at the end of
-- the line that lacks its value. The command line itself is passed on as it is.
pub parse_invocation-Omits :
    (tmpdir : Bytes) (pid : ℕ) (args : List Bytes)
    → let inv = parse_invocation tmpdir pid args in
      (parts : Parts) × Omits false args parts × (inv.key_args ≡ parts.keys) × (inv.args ≡ args)
unfolding parse_invocation
parse_invocation-Omits tmpdir pid args =
    let s = scan_loop-Found (length args) (first args) args (omega arith) in
    let c = classify-SameScan tmpdir pid _ in
    (
      s.parts,
      s.omits,
      c.same_keys ∙ ap (λ v. v.key_args) s.seen,
      c.same_args ∙ ap (λ v. v.args) s.seen,
    )
