-- ===== src/NixStore/Parts.antt =====
-- The parts of the text that `DerivationToATerm` of pkgs/ji/jig/src/nix_store_mode.cc writes, each with its reader.
use corepkgs_v.Prelude.{ℕ, refl, List, [], ◌∷◌, ◌++◌, Bytes}
use corepkgs_v.NixStore.Aterm.{quote, list, Output, render_output, render_input, render_variable}
use corepkgs_v.NixStore.Reader.{
  Reader, mapped, pair, after, before, read_items, read_list, Reads, Reads-mapped, Reads-pair,
  Reads-after, Reads-before, read_list-Reads,
}
use corepkgs_v.NixStore.Quoted.{read_quoted, read_quoted-Reads}

abbrev pub comma : {A : Type 0} → Reader A → Reader A
comma r = after b',' r

abbrev pub read_strings : Reader (List Bytes)
read_strings = read_list read_quoted

abbrev output_of : Bytes × (Bytes × (Bytes × Bytes)) → Bytes × Output
output_of r = (r.0, record { path = r.1.0; hash_algo = r.1.1.0; hash = r.1.1.1 })

abbrev pub read_output : Reader (Bytes × Output)
read_output = mapped output_of (
    after b'(' (
      pair read_quoted
        (pair (comma read_quoted) (pair (comma read_quoted) (before (comma read_quoted) b')')))))

abbrev pub read_input : Reader (Bytes × List Bytes)
read_input = after b'(' (pair read_quoted (before (comma read_strings) b')'))

abbrev pub read_variable : Reader (Bytes × Bytes)
read_variable = after b'(' (pair read_quoted (before (comma read_quoted) b')'))

-- A reader with a text and what it reads from it.
pub record Part {A : Type 0} (a : A) : Type 0 where
  pub reader : Reader A
  pub bytes : Bytes
  pub reads : Reads reader bytes a

unfoldable pub quoted : (text : Bytes) → Part text
quoted text = record { reader = read_quoted; bytes = quote text; reads = read_quoted-Reads text }

unfoldable pub behind : {A : Type 0} (c : ℕ) {a : A} → Part a → Part a
behind c p = record {
  reader = after c p.reader;
  bytes = c ∷ p.bytes;
  reads = Reads-after c p.reader p.bytes p.reads;
}

unfoldable pub closed : {A : Type 0} {a : A} → Part a → Part a
closed p = record {
  reader = before p.reader b')';
  bytes = p.bytes ++ b')' ∷ [];
  reads = Reads-before b')' p.reader p.bytes p.reads;
}

unfoldable pub both : {A B : Type 0} {a : A} {b : B} → Part a → Part b → Part {A = A × B} (a, b)
both p q = record {
  reader = pair p.reader q.reader;
  bytes = p.bytes ++ q.bytes;
  reads = Reads-pair p.reader q.reader p.bytes q.bytes p.reads q.reads;
}

unfoldable pub quoted_list : (texts : List Bytes) → Part texts
unfolding quote read_items
quoted_list texts = record {
  reader = read_strings;
  bytes = list quote texts;
  reads = read_list-Reads read_quoted quote read_quoted-Reads (λ text s. refl) texts;
}

output_part :
    (name : Bytes) (o : Output)
    → Part {A = Bytes × (Bytes × (Bytes × Bytes))} (name, (o.path, (o.hash_algo, o.hash)))
unfolding behind both closed quoted
output_part name o = behind b'(' (
    both (quoted name) (
      both (behind b',' (quoted o.path))
        (both (behind b',' (quoted o.hash_algo)) (closed (behind b',' (quoted o.hash))))))

pub read_output-Reads : (o : Bytes × Output) → Reads read_output (render_output o) o
unfolding render_output output_part behind both closed quoted
read_output-Reads (name, o) =
    let p = output_part name o in Reads-mapped output_of p.reader p.bytes p.reads

pub read_input-Reads : (i : Bytes × List Bytes) → Reads read_input (render_input i) i
unfolding render_input behind both closed quoted quoted_list
read_input-Reads (path, names) =
    (behind b'(' (both (quoted path) (closed (behind b',' (quoted_list names))))).reads

pub read_variable-Reads : (v : Bytes × Bytes) → Reads read_variable (render_variable v) v
unfolding render_variable behind both closed quoted
read_variable-Reads (key, value) =
    (behind b'(' (both (quoted key) (closed (behind b',' (quoted value))))).reads

unfoldable pub output_list : (os : List (Bytes × Output)) → Part os
unfolding render_output read_items
output_list os = record {
  reader = read_list read_output;
  bytes = list render_output os;
  reads = read_list-Reads read_output render_output read_output-Reads (λ o s. refl) os;
}

unfoldable pub input_list : (inputs : List (Bytes × List Bytes)) → Part inputs
unfolding render_input read_items
input_list inputs = record {
  reader = read_list read_input;
  bytes = list render_input inputs;
  reads = read_list-Reads read_input render_input read_input-Reads (λ i s. refl) inputs;
}

unfoldable pub variable_list : (vs : List (Bytes × Bytes)) → Part vs
unfolding render_variable read_items
variable_list vs = record {
  reader = read_list read_variable;
  bytes = list render_variable vs;
  reads = read_list-Reads read_variable render_variable read_variable-Reads (λ v s. refl) vs;
}
