-- ===== src/Ed25519/Residues.antt =====
-- Remainders under a modulus that is a variable.
use native.Mathlib.Nat.{add-mul-mod_self_left}
use enigma2_mqtt_bridge.Common.{ℕ, ◌+◌, ◌-◌, ◌*◌, ◌%◌, ◌≤◌, ◌≡◌, sym, ◌∙◌, arith}

square_split : (x y : ℕ) → y * y + (x + y) * x ≡ x * x + (x + y) * y
square_split x y = omega arith

-- The two square roots of a residue: `p - x` has the square of `x`.
square_of_complement : (x y : ℕ) → (y * y) % (x + y) ≡ (x * x) % (x + y)
square_of_complement x y =
    sym (add-mul-mod_self_left (y * y) (x + y) x)
    ∙ (rw (square_split x y) (add-mul-mod_self_left (x * x) (x + y) y))

pub mod-square_complement : (p x : ℕ) → x ≤ p → ((p - x) * (p - x)) % p ≡ (x * x) % p
mod-square_complement p x h =
    let e : x + (p - x) ≡ p = omega arith in rw e at (square_of_complement x (p - x))
