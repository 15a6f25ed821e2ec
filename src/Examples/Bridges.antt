-- ===== src/Examples/Bridges.antt =====
-- The bridge between file systems.
use universal_cross_shell_ex.Prelude.{◌↔◌, ◌⊎◌, ◌≡◌, refl, true, false, [], ◌∷◌, ◌++◌, none}
use universal_cross_shell_ex.Prelude.Text.{Text, codes, starts_with}
use universal_cross_shell_ex.Bridge.{
  copy, executed, answered, security_error, Host, delete, quoted, perform,
}
use universal_cross_shell_ex.Bridge.Confined.{Inside, Touches, is_refusal, perform_confined}

abbrev host : Host
host = record {
  abspath = λ p. p;
  base_dir = codes "/ws";
  chunks = λ p. none;
  prepares = λ p. true;
  writable = λ p. true;
}

perform_confined_example :
    let op = copy (codes "/ws/a") (codes "/ws/b") in
    ((is_refusal (perform host op).0 ≡ false) ↔ ((p : Text) → Touches op p → Inside host p))
    × ((perform host op).1 ≡ [] ⊎ (is_refusal (perform host op).0 ≡ false))
perform_confined_example = perform_confined host (copy (codes "/ws/a") (codes "/ws/b"))

outside_test : perform host (delete (codes "/etc")) ≡ (security_error, [])
unfolding perform starts_with
outside_test = refl

-- A directory beside the workspace passes.
beside_test :
    perform host (delete (codes "/ws2/a"))
    ≡ (answered, executed (codes "bash:rm -rf " ++ quoted (codes "/ws2/a")) ∷ [])
unfolding perform starts_with
beside_test = refl
