-- ===== src/NixStore/Derived.antt =====
-- `DerivationToATerm` of pkgs/ji/jig/src/nix_store_mode.cc, and what a reader gets back.
use corepkgs_v.Prelude.{◌≡◌, sym, ap, ◌∙◌, Option, some, List, [], map, append-nil, Bytes}
use corepkgs_v.Rustc.Key.{sort}
use corepkgs_v.NixStore.Aterm.{
  Output, Derivation, fill_map, sort_names, fill_env, render, derivation_to_aterm,
}
use corepkgs_v.NixStore.Reader.{Reader, mapped, pair, after, before, read_list, Reads, Reads-mapped}
use corepkgs_v.NixStore.Quoted.{read_quoted}
use corepkgs_v.NixStore.Parts.{
  comma, read_strings, read_output, read_input, read_variable, Part, quoted, behind, closed, both,
  quoted_list, output_list, input_list, variable_list,
}

-- The members of a derivation in the order of the text.
abbrev Members : Type 0
Members =
    List (Bytes × Output)
    × (List (Bytes × List Bytes)
        × (List Bytes × (Bytes × (Bytes × (List Bytes × List (Bytes × Bytes))))))

abbrev present : Bytes × Bytes → Bytes × Option Bytes
present v = (v.0, some v.1)

abbrev of_members : Members → Derivation
of_members m = record {
  outputs = m.0;
  input_drvs = m.1.0;
  input_srcs = m.1.1.0;
  system = m.1.1.1.0;
  builder = m.1.1.1.1.0;
  args = m.1.1.1.1.1.0;
  env = map present m.1.1.1.1.1.1;
}

abbrev read_members : Reader Members
read_members = after b'D' (
    after b'e' (
      after b'r' (
        after b'i' (
          after b'v' (
            after b'e' (
              after b'(' (
                pair (read_list read_output) (
                  pair (comma (read_list read_input)) (
                    pair (comma read_strings) (
                      pair (comma read_quoted) (
                        pair (comma read_quoted) (
                          pair (comma read_strings)
                            (before (comma (read_list read_variable)) b')')))))))))))))

-- The reader of a derivation.
abbrev pub read_derivation : Reader Derivation
read_derivation = mapped of_members read_members

-- A derivation with its maps and lists in order.
abbrev pub in_order : Derivation → List (Bytes × Bytes) → Derivation
in_order drv env = record drv {
  outputs = fill_map [] drv.outputs;
  input_drvs = fill_map [] (sort_names drv.input_drvs);
  input_srcs = sort drv.input_srcs;
  env = map present env;
}

module _ (drv : Derivation) (env : List (Bytes × Bytes)) where
  tail_part :
      Part {A = List Bytes × (Bytes × (Bytes × (List Bytes × List (Bytes × Bytes))))}
        (sort drv.input_srcs, (drv.system, (drv.builder, (drv.args, env))))
  unfolding behind both closed quoted quoted_list variable_list
  tail_part = both (behind b',' (quoted_list (sort drv.input_srcs))) (
      both (behind b',' (quoted drv.system)) (
        both (behind b',' (quoted drv.builder))
          (both (behind b',' (quoted_list drv.args)) (closed (behind b',' (variable_list env))))))

  abbrev members : Members
  members = (
    fill_map [] drv.outputs,
    (
      fill_map [] (sort_names drv.input_drvs),
      (sort drv.input_srcs, (drv.system, (drv.builder, (drv.args, env)))),
    ),
  )

  all_parts : Part {A = Members} members
  unfolding tail_part behind both output_list input_list
  all_parts =
      both (output_list (fill_map [] drv.outputs))
        (both (behind b',' (input_list (fill_map [] (sort_names drv.input_drvs)))) tail_part)

  word_part : Part {A = Members} members
  unfolding behind
  word_part =
      behind b'D' (
        behind b'e' (behind b'r' (behind b'i' (behind b'v' (behind b'e' (behind b'(' all_parts))))))

  render-Reads : Reads read_derivation (render drv env) (in_order drv env)
  unfolding render word_part all_parts tail_part behind both closed quoted quoted_list output_list
      input_list variable_list
  render-Reads = Reads-mapped of_members word_part.reader word_part.bytes word_part.reads

  -- What `DerivationToATerm` writes of a derivation whose variables are all strings is read back: the reader
  -- of ATerms gives its members, with the outputs, the inputs, their names, the sources and the variables in
  -- the order of the maps and sorts of the code, and ends with the text.
  pub derivation_to_aterm_lem :
      fill_env [] drv.env ≡ some env
      → read_derivation (derivation_to_aterm (some drv)) ≡ some (in_order drv env, [])
  unfolding derivation_to_aterm
  derivation_to_aterm_lem strings =
      rw (strings, derivation_to_aterm)
        (ap read_derivation (sym (append-nil (render drv env))) ∙ render-Reads [])
