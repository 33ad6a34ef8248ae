-- ===== src/TcpServer/Names.antt =====
-- The names of the connections of src/tcp/TcpServer.cpp: the decimal digits of an id are read back.
use dwt_src.Prelude.{
  ℕ, zero, suc, ◌+◌, ◌*◌, ◌-◌, ◌/◌, ◌%◌, ◌<◌, ◌≡◌, refl, sym, ap, ◌∙◌, inl, inr, Bool-cases, [],
  ◌∷◌, ◌++◌, arith, ltb, drop, drop-front, length,
}
use dwt_src.Bytes.{Bytes}
use dwt_src.TcpServer.{decimal_digits, to_string}

-- The number that digits stand for, behind `n`.
abbrev value_of : ℕ → Bytes → ℕ
value_of n [] = n
value_of n (b ∷ s) = value_of (n * 10 + (b - 48)) s

value_of-append :
    (n : ℕ) (s : Bytes) (b : ℕ) → value_of n (s ++ (b ∷ [])) ≡ value_of n s * 10 + (b - 48)
value_of-append n [] b = refl
value_of-append n (c ∷ s) b = value_of-append (n * 10 + (c - 48)) s b

decimal_digits_lem : (fuel n : ℕ) → n < fuel → value_of 0 (decimal_digits fuel n) ≡ n
unfolding decimal_digits
decimal_digits_lem zero n enough = absurd (omega arith)
decimal_digits_lem (suc fuel) n enough = elim (Bool-cases (ltb n 10)) [
  | inl e ↦ rw e (omega arith)
  | inr e ↦
      let long : 10 < suc n = ground arith in
      rw e (
        value_of-append 0 (decimal_digits fuel (n / 10)) (48 + n % 10)
        ∙ omega (arith, decimal_digits_lem fuel (n / 10) (omega arith)))
]

pub to_string-injective : (a b : ℕ) → to_string a ≡ to_string b → a ≡ b
unfolding to_string
to_string-injective a b e =
    sym (decimal_digits_lem (suc a) a (omega arith))
    ∙ ap (value_of 0) e
    ∙ decimal_digits_lem (suc b) b (omega arith)

-- The name of the connection of this id.
abbrev pub name_of : Bytes → ℕ → Bytes
name_of ip_port id = ip_port ++ (35 ∷ to_string id)

pub name_of-injective : (ip_port : Bytes) (a b : ℕ) → name_of ip_port a ≡ name_of ip_port b → a ≡ b
unfolding to_string
name_of-injective ip_port a b e = to_string-injective a b (
    ap (drop 1) (
      sym (drop-front ip_port (35 ∷ to_string a))
      ∙ ap (drop (length ip_port)) e
      ∙ drop-front ip_port (35 ∷ to_string b)))
