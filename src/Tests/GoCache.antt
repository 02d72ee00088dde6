-- ===== src/Tests/GoCache.antt =====
-- pkgs/ji/jig/src/gocache_mode.cc
use corepkgs_v.Prelude.{
  suc, ◌^◌, ◌≡◌, refl, ◌⊎◌, Bool, true, ◌&&◌, some, [], arith, ltb, Bytes, codes, starts_with,
  length,
}
use corepkgs_v.Text.{hex_encode}
use corepkgs_v.FilePath.{append}
use corepkgs_v.Store.{lookup}
use corepkgs_v.GoCache.Session.{
  json_field, json_int, GoSession, hit_line, read_body, body_of, print_line, handle_get,
  store_output, handle_put,
}
use corepkgs_v.GoCache.Stored.{handle_get-store_output, handle_put_lem}
use corepkgs_v.Tests.Cached.{Entries, server}
use corepkgs_v.GoCache.{base64_encode, base64_decode}
use corepkgs_v.GoCache.RoundTrip.{base64_decode-base64_encode}

padded : base64_encode (codes "Man!") ≡ codes "TWFuIQ=="
unfolding base64_encode
padded = refl

base64_decode-base64_encode_example : base64_decode (base64_encode (codes "Man!")) ≡ codes "Man!"
base64_decode-base64_encode_example = base64_decode-base64_encode (codes "Man!") (omega arith)

abbrev session : GoSession Entries
session = record { server = []; live = true; dir = codes "/c"; disk = []; input = []; printed = [] }

abbrev always : Bytes → Bool
always path = true

handle_get-store_output_example :
    let stored = store_output server always session 1 (codes "aa") (codes "O") (codes "body") in
    let path = append (codes "/c") (hex_encode (codes "O")) in
    let r = handle_get server always stored 2 (codes "aa") in
    (r ≡ print_line server always stored (hit_line 2 (codes "O") 4 path))
    × (lookup path r.disk ≡ some (codes "body"))
handle_get-store_output_example =
    handle_get-store_output server always session 1 (codes "aa") (codes "O") (codes "body") refl
      refl 2

abbrev put_line : Bytes
put_line =
    codes
      "{\"ID\":3,\"Command\":\"put\",\"ActionID\":\"qg==\",\"OutputID\":\"Tw==\",\"BodySize\":4}"

abbrev sending : GoSession Entries
sending = record session { input = codes "\n\"Ym9keQ==\"\n" }

announced :
    (ltb 0 (json_int put_line (codes "BodySize"))
      && ltb (json_int put_line (codes "BodySize")) (2 ^ 63))
    ≡ true
unfolding json_int json_field starts_with
announced = refl

handle_put_lem_example :
    let size = json_int put_line (codes "BodySize") in
    let (line, rest) = read_body (suc (length sending.input)) sending.input in
    let r = handle_put server always sending 3 (codes "aa") put_line in
    ((length (body_of line) ≡ size)
      × (r
          ≡ store_output server always
              (record sending { input = rest })
              3
              (codes "aa")
              (base64_decode (json_field put_line (codes "OutputID")))
              (body_of line)))
    ⊎ ((r.server ≡ []) × (r.disk ≡ []))
handle_put_lem_example = handle_put_lem server always sending 3 (codes "aa") put_line announced

fields_read :
    (json_field put_line (codes "Command") ≡ codes "put")
    × (json_field put_line (codes "BodySize") ≡ codes "4")
unfolding json_field starts_with
fields_read = (refl, refl)
