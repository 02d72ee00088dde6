-- ===== src/CacheClient/Sends.antt =====
-- `SendAll` of pkgs/ji/jig/src/cache_client.cc: the loop over partial sends comes to an end.
use corepkgs_v.Prelude.{
  ℕ, zero, suc, ◌≤◌, ◌<◌, ◌≡◌, refl, sym, ap, ◌∙◌, true, List, [], ◌∷◌, ◌++◌, append_assoc,
  append-nil, arith, Bytes, length, take, drop, all, All, take-append-drop, length-drop,
}
use corepkgs_v.CacheClient.{Client, send_loop, send_all}

pub send_loop_lem :
    (accepts : List ℕ) (bytes sent : Bytes)
    → All (λ n. 0 < n) accepts
    → length bytes ≤ length accepts
    → let (all_sent, (left, sent')) = send_loop accepts bytes sent in
      (all_sent ≡ true) × (sent' ≡ sent ++ bytes)
unfolding send_loop
send_loop_lem accepts [] sent h enough = (refl, sym (append-nil sent))
send_loop_lem [] (c ∷ bytes) sent h enough = absurd (omega arith)
send_loop_lem (zero ∷ accepts) (c ∷ bytes) sent h enough = absurd (omega (arith, h.0))
send_loop_lem (suc n ∷ accepts) (c ∷ bytes) sent h enough =
    let (done, all) =
      send_loop_lem accepts (drop n bytes) (sent ++ (c ∷ take n bytes)) h.1
        (omega (arith, enough, length-drop n bytes)) in
    (
      done,
      all
          ∙ append_assoc sent (c ∷ take n bytes) (drop n bytes)
          ∙ ap (λ s. sent ++ (c ∷ s)) (take-append-drop n bytes),
    )

-- As long as each call of `send` takes a byte at least, `SendAll` ends with every byte sent once and in
-- order, after no more calls than there are bytes.
pub send_all_lem :
    (client : Client) (bytes : Bytes)
    → All (λ n. 0 < n) client.accepts
    → length bytes ≤ length client.accepts
    → let (all_sent, after) = send_all client bytes in
      (all_sent ≡ true) × (after.sent ≡ client.sent ++ bytes)
unfolding send_all
send_all_lem client bytes h enough = send_loop_lem client.accepts bytes client.sent h enough
