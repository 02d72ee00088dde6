-- ===== src/DirMode/Listing.antt =====
-- The listing of a snapshot, printed and parsed: pkgs/ji/jig/src/dir_mode.cc.
use corepkgs_v.Prelude.{
  find_byte-first, ℕ, ◌%◌, ◌^◌, ◌<◌, ◌≡◌, ◌≢◌, refl, sym, ap, ◌∙◌, true, false, some, List, [], ◌∷◌,
  ◌++◌, map, append_assoc, append-nil, arith, Bytes, Lacks, All, All-append,
}
use native.Mathlib.Nat.{mod-eq_of_lt}
use corepkgs_v.Text.{is_white, print_uint}
use corepkgs_v.Text.Numbers.{IsDigit, print_uint-IsDigit, print_uint-ne-nil, parse_uint-print_uint}
use corepkgs_v.Text.Split.{terminated, IsPart, split-terminated_parts}
use corepkgs_v.Text.Words.{IsWord, spaced, split_whitespace-words}
use corepkgs_v.Keys.{hash_of}
use corepkgs_v.Store.{Store}
use corepkgs_v.DirMode.{
  DirEntry, parse_mode, entry_of, parse_entry, parse_entries, parse_listing, Found, symlink,
  unreadable, regular, stored, listing_line, listing_of,
}

abbrev pub front_of : DirEntry → Bytes
front_of e = (e.kind ∷ []) ++ spaced (print_uint 8 e.mode ∷ e.ref ∷ [])

-- The line of an entry in the format of `PutDir`.
abbrev pub entry_line : DirEntry → Bytes
entry_line e = front_of e ++ (b'\t' ∷ e.rel)

-- An entry that a line can hold.
pub record IsEntry (e : DirEntry) : Type 0 where
  pub kind : is_white e.kind ≡ false
  pub mode : e.mode < 2 ^ 32
  pub ref : IsWord e.ref
  pub rel : Lacks b'\n' e.rel

digits-IsWhite : (s : Bytes) → All IsDigit s → All (λ c. is_white c ≡ false) s
digits-IsWhite [] h = tt
digits-IsWhite (c ∷ s) h = (ground arith, digits-IsWhite s h.1)

digits-IsWord : (n : ℕ) → IsWord (print_uint 8 n)
digits-IsWord n = (
  digits-IsWhite _ (print_uint-IsDigit 8 (omega arith) (omega arith) n),
  print_uint-ne-nil 8 (omega arith) (omega arith) n,
)

Lacks-dark : (b : ℕ) (s : Bytes) → is_white b ≡ true → All (λ c. is_white c ≡ false) s → Lacks b s
Lacks-dark b [] h hs = tt
Lacks-dark b (c ∷ s) h hs = (λ e. absurd (ground (arith, e, h, hs.0)), Lacks-dark b s h hs.1)

Lacks-spaced :
    (b : ℕ) (ws : List Bytes) → is_white b ≡ true → b ≢ b' ' → All IsWord ws → Lacks b (spaced ws)
Lacks-spaced b [] h ne hs = tt
Lacks-spaced b (w ∷ ws) h ne hs = (
  λ e. ne (sym e),
  All-append (λ c. c ≢ b) w (spaced ws) (Lacks-dark b w h hs.0.0) (Lacks-spaced b ws h ne hs.1),
)

module _ (e : DirEntry) (h : IsEntry e) where
  fields-IsWord : All IsWord (print_uint 8 e.mode ∷ e.ref ∷ [])
  fields-IsWord = (digits-IsWord e.mode, (h.ref, tt))

  front-Lacks : (b : ℕ) → is_white b ≡ true → b ≢ b' ' → Lacks b (front_of e)
  front-Lacks b white ne =
      All-append (λ c. c ≢ b) (e.kind ∷ []) (spaced (print_uint 8 e.mode ∷ e.ref ∷ []))
        (Lacks-dark b (e.kind ∷ []) white (h.kind, tt))
        (Lacks-spaced b (print_uint 8 e.mode ∷ e.ref ∷ []) white ne fields-IsWord)

  mode_again : parse_mode (print_uint 8 e.mode) ≡ e.mode
  unfolding parse_mode
  mode_again =
      rw
        (
          parse_uint-print_uint 8 e.mode (omega arith) (omega arith) (omega (arith, h.mode)),
          parse_mode,
        )
        (mod-eq_of_lt h.mode)

  parse_entry-line : parse_entry (entry_line e) ≡ some e
  unfolding parse_entry entry_of
  parse_entry-line =
      let words =
        split_whitespace-words (e.kind ∷ []) (print_uint 8 e.mode ∷ e.ref ∷ [])
          ((h.kind, tt), λ n. absurd (ground arith)) fields-IsWord in
      rw
        (
          parse_entry,
          find_byte-first b'\t' (front_of e) e.rel (front-Lacks b'\t' refl (omega arith)),
          words,
          mode_again,
        )
        refl

  line-IsPart : IsPart b'\n' (entry_line e)
  line-IsPart = (
    All-append (λ c. c ≢ b'\n') (front_of e) (b'\t' ∷ e.rel) (front-Lacks b'\n' refl (omega arith))
        (omega arith, h.rel),
    λ n. absurd (ground arith),
  )

parse_entries-cons :
    (line : Bytes) (lines : List Bytes) (e : DirEntry)
    → parse_entry line ≡ some e
    → parse_entries (line ∷ lines) ≡ e ∷ parse_entries lines
unfolding parse_entries
parse_entries-cons line lines e h = rw (h, parse_entries) refl

parse_entries-lines : (es : List DirEntry) → All IsEntry es → parse_entries (map entry_line es) ≡ es
parse_entries-lines [] h = unfold parse_entries in refl
parse_entries-lines (e ∷ es) h =
    parse_entries-cons (entry_line e) (map entry_line es) e (parse_entry-line e h.0)
    ∙ ap (◌∷◌ e) (parse_entries-lines es h.1)

lines-IsPart : (es : List DirEntry) → All IsEntry es → All (IsPart b'\n') (map entry_line es)
lines-IsPart [] h = tt
lines-IsPart (e ∷ es) h = (line-IsPart e h.0, lines-IsPart es h.1)

parse_listing-lines :
    (es : List DirEntry)
    → All IsEntry es
    → parse_listing (terminated b'\n' (map entry_line es)) ≡ es
unfolding parse_listing
parse_listing-lines es h =
    ap parse_entries (split-terminated_parts b'\n' (map entry_line es) (lines-IsPart es h))
    ∙ parse_entries-lines es h

module _ (blake3 : Bytes → Bytes) (s : Store) where
  -- The entries that a snapshot is to have: every link with its target, and every file that can be
  -- read with its permissions and the hash of what is stored of it.
  abbrev pub entries_of : List Found → List DirEntry
  entries_of [] = []
  entries_of (symlink target rel ∷ rest) =
      record { kind = b'l'; mode = 0; ref = target; rel = rel } ∷ entries_of rest
  entries_of (unreadable rel ∷ rest) = entries_of rest
  entries_of (regular mode content rel ∷ rest) =
      record { kind = b'f'; mode = mode % 512; ref = hash_of blake3 (stored s content); rel = rel }
      ∷ entries_of rest

  link_line :
      (target rel rest : Bytes)
      → listing_line blake3 s (symlink target rel) ++ rest
        ≡ entry_line (record { kind = b'l'; mode = 0; ref = target; rel = rel }) ++ (b'\n' ∷ rest)
  unfolding listing_line print_uint
  link_line target rel rest = simp (append_assoc, append-nil)

  listing_of-lines :
      (found : List Found)
      → listing_of blake3 s found ≡ terminated b'\n' (map entry_line (entries_of found))
  unfolding listing_of listing_line
  listing_of-lines [] = refl
  listing_of-lines (symlink target rel ∷ rest) =
      link_line target rel _
      ∙ ap
          (λ l.
            entry_line (record { kind = b'l'; mode = 0; ref = target; rel = rel }) ++ (b'\n' ∷ l))
          (listing_of-lines rest)
  listing_of-lines (unreadable rel ∷ rest) = listing_of-lines rest
  listing_of-lines (regular mode content rel ∷ rest) =
      simp (append_assoc, append-nil, listing_of-lines rest)

  -- The listing that `PutDir` makes is read back by `ParseListing` entry for entry: every link with its
  -- target, and every readable file with its permissions and the hash of what is stored of it. Each
  -- content hash and link target is a word without white space, and no path holds a newline.
  pub parse_listing-listing_of :
      (found : List Found)
      → All IsEntry (entries_of found)
      → parse_listing (listing_of blake3 s found) ≡ entries_of found
  parse_listing-listing_of found h =
      ap parse_listing (listing_of-lines found) ∙ parse_listing-lines (entries_of found) h
