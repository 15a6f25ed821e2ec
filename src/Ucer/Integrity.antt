-- ===== src/Ucer/Integrity.antt =====
-- What a control-plane signature on a record covers.
use universal_cross_shell_ex.Prelude.{
  String, Option, ◌≡◌, ◌↔◌, ◌≢◌, ap, sym, ◌∙◌, Bool, true, false, not, ◌||◌, some, arith,
  if◌then◌else◌,
}
use universal_cross_shell_ex.Prelude.Dict.{same, same→eq, same_refl, same-eq_false}
use universal_cross_shell_ex.Ucer.{
  Ucer, Crypto, model_dump_canonical, truthy, or_empty, sign_intent, verify_integrity,
}

-- The three tests of `verify_integrity`, over any four answers.
checks_iff :
    (s h m : Bool) (v : Option Bool)
    → ((if not s || not h then some false else if not m then some false else v) ≡ some true)
      ↔ ((s ≡ true) × (h ≡ true) × (m ≡ true) × (v ≡ some true))
checks_iff s h m v = ground arith

changed_lem :
    (s h m : Bool) (v : Option Bool)
    → m ≡ false
    → (if not s || not h then some false else if not m then some false else v) ≡ some false
changed_lem s h m v e = ground arith

truthy-some : {s : String} → s ≢ "" → truthy (some s) ≡ true
truthy-some {s} h = rw (same-eq_false s "" h)

module _ (crypto : Crypto) where
  -- A record passes exactly when it carries a non-empty signature and a non-empty hash, the hash is
  -- that of its present canonical form, and the signature verifies for that hash.
  pub verify_integrity_iff :
      (key : String) (u : Ucer)
      → (verify_integrity crypto key u ≡ some true) ↔ (
          (truthy u.control_signature ≡ true)
          × (truthy u.canonical_hash ≡ true)
          × (crypto.hash (model_dump_canonical u) ≡ or_empty u.canonical_hash)
          × (crypto.verify key (or_empty u.canonical_hash) (or_empty u.control_signature)
              ≡ some true))
  unfolding verify_integrity
  verify_integrity_iff key u =
      let fresh = crypto.hash (model_dump_canonical u) in
      let kept = or_empty u.canonical_hash in
      let checks =
        checks_iff (truthy u.control_signature) (truthy u.canonical_hash) (same fresh kept)
          (crypto.verify key kept (or_empty u.control_signature)) in
      (
        (λ h. let (s, c, m, v) = checks.0 h in (s, c, same→eq fresh kept m, v)),
        (λ (s, c, e, v). checks.1 (s, c, rw e (same_refl kept), v)),
      )

  -- A record that carries the hash and the signature of `sign_intent` on `u` passes, under the
  -- matching key, whenever its canonical form is that of `u`: traces, status, timestamp and the
  -- execution key may have changed. The signature and the hash are assumed not to be empty.
  pub verify_integrity-sign_intent :
      (private_key public_key : String) (u w : Ucer)
      → ((payload : String)
          → crypto.verify public_key payload (crypto.sign private_key payload) ≡ some true)
      → crypto.hash (model_dump_canonical u) ≢ ""
      → crypto.sign private_key (crypto.hash (model_dump_canonical u)) ≢ ""
      → w.canonical_hash ≡ (sign_intent crypto private_key u).canonical_hash
      → w.control_signature ≡ (sign_intent crypto private_key u).control_signature
      → model_dump_canonical w ≡ model_dump_canonical u
      → verify_integrity crypto public_key w ≡ some true
  unfolding sign_intent
  verify_integrity-sign_intent private_key public_key u w keys hashed signed eh es ec =
      (verify_integrity_iff public_key w).1 (
        rw es (truthy-some signed),
        rw eh (truthy-some hashed),
        rw (ec, eh),
        rw (eh, es) (keys (crypto.hash (model_dump_canonical u))),
      )

  -- A record that carries the hash of `sign_intent` on `u` and passes under any key has a canonical
  -- form with the hash of that of `u`: a change of the canonical form goes unnoticed only at a
  -- collision of the hash.
  pub verify_integrity_detects :
      (private_key public_key : String) (u w : Ucer)
      → w.canonical_hash ≡ (sign_intent crypto private_key u).canonical_hash
      → verify_integrity crypto public_key w ≡ some true
      → crypto.hash (model_dump_canonical w) ≡ crypto.hash (model_dump_canonical u)
  unfolding sign_intent
  verify_integrity_detects private_key public_key u w eh ok =
      let (_, _, same_hash, _) = (verify_integrity_iff public_key w).0 ok in
      same_hash ∙ ap or_empty eh

  -- A signed record that carries the hash of `sign_intent` on `u` does not pass once the hash of its
  -- canonical form is another one, whatever the signature and the key.
  pub verify_integrity_changed :
      (private_key public_key : String) (u w : Ucer)
      → w.canonical_hash ≡ (sign_intent crypto private_key u).canonical_hash
      → crypto.hash (model_dump_canonical w) ≢ crypto.hash (model_dump_canonical u)
      → verify_integrity crypto public_key w ≡ some false
  unfolding sign_intent verify_integrity
  verify_integrity_changed private_key public_key u w eh ne =
      let kept : or_empty w.canonical_hash ≡ crypto.hash (model_dump_canonical u) =
        ap or_empty eh in
      let apart : same (crypto.hash (model_dump_canonical w)) (or_empty w.canonical_hash) ≡ false =
        rw kept (same-eq_false _ _ ne) in
      changed_lem (truthy w.control_signature) (truthy w.canonical_hash)
        (same (crypto.hash (model_dump_canonical w)) (or_empty w.canonical_hash)) _ apart

  -- For a record that carries the hash and the signature of `sign_intent` on `u`, neither of them
  -- empty, under the matching key: it passes exactly when its canonical form has the hash of that of
  -- `u`, whatever else changed, as its traces, its status, its timestamp and its execution key may.
  pub verify_integrity-signed :
      (private_key public_key : String) (u w : Ucer)
      → ((payload : String)
          → crypto.verify public_key payload (crypto.sign private_key payload) ≡ some true)
      → crypto.hash (model_dump_canonical u) ≢ ""
      → crypto.sign private_key (crypto.hash (model_dump_canonical u)) ≢ ""
      → w.canonical_hash ≡ (sign_intent crypto private_key u).canonical_hash
      → w.control_signature ≡ (sign_intent crypto private_key u).control_signature
      → (verify_integrity crypto public_key w ≡ some true)
        ↔ (crypto.hash (model_dump_canonical w) ≡ crypto.hash (model_dump_canonical u))
  unfolding sign_intent
  verify_integrity-signed private_key public_key u w keys hashed signed eh es = (
    verify_integrity_detects private_key public_key u w eh,
    (λ ec. (verify_integrity_iff public_key w).1 (
      rw es (truthy-some signed),
      rw eh (truthy-some hashed),
      ec ∙ sym (ap or_empty eh),
      rw (eh, es) (keys (crypto.hash (model_dump_canonical u))),
    )),
  )
