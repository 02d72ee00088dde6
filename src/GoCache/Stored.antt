-- ===== src/GoCache/Stored.antt =====
-- What `HandlePut` of pkgs/ji/jig/src/gocache_mode.cc stores is what `HandleGet` serves.
use corepkgs_v.Prelude.{
  ℕ, suc, ◌^◌, ◌≡◌, refl, ap, ◌∙◌, ◌⊎◌, inl, inr, Bool, true, ◌&&◌, some, ltb, ◌==◌, ==_iff,
  Bool-cases, Bytes, codes, equal, length,
}
use corepkgs_v.Text.{hex_encode}
use corepkgs_v.FilePath.{append}
use corepkgs_v.Keys.{go_action, go_output, slot_key}
use corepkgs_v.Daemon.{CacheServer}
use corepkgs_v.Store.{lookup, insert_or_assign}
use corepkgs_v.Store.Maps.{lookup-insert_or_assign}
use corepkgs_v.GoCache.{base64_decode}
use corepkgs_v.GoCache.Session.{
  json_field, json_int, GoSession, hit_line, read_body, body_of, print_line, write_file, answer_hit,
  handle_get, store_output, handle_put,
}

module _ {S : Type 0} (server : CacheServer S) (can_write : Bytes → Bool) where
  handle_get-hit :
      (r : GoSession S) (id : ℕ) (action output_id body : Bytes)
      → r.live ≡ true
      → server.get r.server (slot_key (go_action action)) ≡ some output_id
      → server.get r.server (slot_key (go_output (hex_encode output_id))) ≡ some body
      → lookup (append r.dir (hex_encode output_id)) r.disk ≡ some body
      → handle_get server can_write r id action
        ≡ print_line server can_write r
            (hit_line id output_id (length body) (append r.dir (hex_encode output_id)))
  unfolding handle_get answer_hit
  handle_get-hit r id action output_id body live has_id has_body there =
      simp (handle_get, live, has_id, has_body, answer_hit, there)

  module _ (s : GoSession S) (id : ℕ) (action output_id body : Bytes) (live : s.live ≡ true)
      (writes : can_write (append s.dir (hex_encode output_id)) ≡ true) where
    abbrev stored : GoSession S
    stored = store_output server can_write s id action output_id body

    stored_live : stored.live ≡ true
    unfolding store_output write_file
    stored_live = simp (store_output, write_file, writes, live)

    stored_dir : stored.dir ≡ s.dir
    unfolding store_output write_file
    stored_dir = simp (store_output, write_file, writes, live)

    stored_disk : stored.disk ≡ insert_or_assign (append s.dir (hex_encode output_id)) body s.disk
    unfolding store_output write_file
    stored_disk = simp (store_output, write_file, writes, live)

    stored_server :
        stored.server
        ≡ server.put
            (server.put s.server (slot_key (go_output (hex_encode output_id))) body)
            (slot_key (go_action action))
            output_id
    unfolding store_output write_file
    stored_server = simp (store_output, write_file, writes, live)

    stored_id : server.get stored.server (slot_key (go_action action)) ≡ some output_id
    stored_id =
        ap (λ st. server.get st (slot_key (go_action action))) stored_server ∙ server.get_put _ _ _

    stored_body : server.get stored.server (slot_key (go_output (hex_encode output_id))) ≡ some body
    unfolding slot_key equal
    stored_body =
        ap (λ st. server.get st (slot_key (go_output (hex_encode output_id)))) stored_server
        ∙ server.get_put_other _ _ _ _ refl
        ∙ server.get_put _ _ _

    stored_there : lookup (append stored.dir (hex_encode output_id)) stored.disk ≡ some body
    stored_there =
        ap (λ d. lookup (append d (hex_encode output_id)) stored.disk) stored_dir
        ∙ ap (λ m. lookup (append s.dir (hex_encode output_id)) m) stored_disk
        ∙ lookup-insert_or_assign (append s.dir (hex_encode output_id)) body s.disk

    -- After the end of a put, a get of the same action answers with the output id, the size of the
    -- body and the path of a file that holds the body, and changes nothing else. It takes a live
    -- daemon that keeps what it is given, and that the file could be written.
    pub handle_get-store_output :
        (id' : ℕ)
        → let path = append s.dir (hex_encode output_id) in
          let r = handle_get server can_write stored id' action in
          (r ≡ print_line server can_write stored (hit_line id' output_id (length body) path))
          × (lookup path r.disk ≡ some body)
    handle_get-store_output id' =
        let got =
          handle_get-hit stored id' action output_id body stored_live stored_id stored_body
            stored_there in
        let path = append s.dir (hex_encode output_id) in
        (
          got
              ∙ ap
                  (λ d.
                    print_line server can_write stored
                      (hit_line id' output_id (length body) (append d (hex_encode output_id))))
                  stored_dir,
          ap (λ (r : GoSession S). lookup path r.disk) got
              ∙ ap (λ m. lookup path m) stored_disk
              ∙ lookup-insert_or_assign path body s.disk,
        )

  -- A put that announces a body stores exactly the announced number of bytes, or it stores nothing:
  -- then the daemon and the disk are as they were. The size is positive and below 2^63.
  pub handle_put_lem :
      (s : GoSession S) (id : ℕ) (action req : Bytes)
      → let size = json_int req (codes "BodySize") in
        let (line, rest) = read_body (suc (length s.input)) s.input in
        let r = handle_put server can_write s id action req in
        (ltb 0 size && ltb size (2 ^ 63)) ≡ true
        → ((length (body_of line) ≡ size)
            × (r
                ≡ store_output server can_write
                    (record s { input = rest })
                    id
                    action
                    (base64_decode (json_field req (codes "OutputID")))
                    (body_of line)))
          ⊎ ((r.server ≡ s.server) × (r.disk ≡ s.disk))
  handle_put_lem s id action req h =
      elim (Bool-cases (
        length (body_of (read_body (suc (length s.input)) s.input).0)
        == json_int req (codes "BodySize"))) [
          | inl e ↦ inl ((==_iff _ _).0 e, unfold handle_put in simp (handle_put, h, e))
          | inr e ↦ inr (
            unfold handle_put in simp (handle_put, h, e),
            unfold handle_put in simp (handle_put, h, e),
          )
        ]
