-- ===== src/Identity/Examples.antt =====
-- The device registry's theorems at concrete inputs.
use general_ai_core.Prelude.{
  ◌≡◌, refl, false, none, some, [], ◌∷◌, arith, nat_eq, string_eq, pair_eq, ok, err, after,
}
use general_ai_core.Identity.{
  trusted, revoked, Device, device_not_found, pair, transition, get, is_usable, heartbeat,
}
use general_ai_core.Identity.Laws.{pairs, moves, here, next, burned_forever, foreign_hidden}

abbrev phone : Device
phone = record {
  id = 5;
  tenant_id = 1;
  user_id = 9;
  name = "phone";
  state = revoked;
  paired_at = 3;
  trusted_at = none;
  revoked_at = some 4;
  last_heartbeat_at = none;
}

-- Device 5 is paired and revoked; a later trust is refused.
burned_forever_example :
    is_usable 5 1 (
      after
        (after (pair 3 5 1 9 "phone" []).1 (transition 4 5 revoked (pair 3 5 1 9 "phone" []).1))
        (transition 6 5 trusted
          (after (pair 3 5 1 9 "phone" []).1 (transition 4 5 revoked (pair 3 5 1 9 "phone" []).1))))
    ≡ ok false
unfolding pair transition
burned_forever_example =
    burned_forever 5 1 (next (next here (pairs 3 5 1 9 "phone" refl)) (moves 4 5 revoked))
      (refl, refl) (next here (moves 6 5 trusted))

foreign_hidden_example :
    (get 5 2 ((5, phone) ∷ []) ≡ get 5 2 [])
    × (is_usable 5 2 ((5, phone) ∷ []) ≡ is_usable 5 2 [])
    × (heartbeat 7 5 2 ((5, phone) ∷ []) ≡ err (device_not_found 5))
foreign_hidden_example = foreign_hidden 7 5 2 phone ((5, phone) ∷ []) refl (omega arith)
