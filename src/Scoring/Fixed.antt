-- ===== src/Scoring/Fixed.antt =====
-- Fixed-point numbers with nine decimal places: an instance of the interface that stands for doubles,
-- for the tests. Products and quotients are cut towards zero, and a quotient by zero is zero.
use native.Mathlib.Nat.{le-div_iff_mul-le, div-mul-le_self, mul-div_cancel_left}
use ranking.Prelude.{ℕ, zero, suc, ◌+◌, ◌*◌, ◌/◌, ◌≤◌, ◌<◌, ◌≡◌, refl, true, false, arith}
use ranking.Prelude.Int.{ℤ, pos, negsuc, pos_part, neg_part, sub_ℕ, ltb_ℤ}
use ranking.Prelude.Number.{Number, IsOrdered}

abbrev unit : ℕ
unit = 1_000_000_000

-- a / b, and 0 for b = 0
abbrev quotient : ℕ → ℕ → ℕ
quotient a zero = 0
quotient a (suc b) = a / suc b

abbrev add_ℤ : ℤ → ℤ → ℤ
add_ℤ a b = sub_ℕ (pos_part a + pos_part b) (neg_part a + neg_part b)

abbrev sub_ℤ : ℤ → ℤ → ℤ
sub_ℤ a b = sub_ℕ (pos_part a + neg_part b) (neg_part a + pos_part b)

abbrev mul_ℤ : ℤ → ℤ → ℤ
mul_ℤ a b =
    sub_ℕ (pos_part a * pos_part b / unit + neg_part a * neg_part b / unit)
      (pos_part a * neg_part b / unit + neg_part a * pos_part b / unit)

abbrev div_ℤ : ℤ → ℤ → ℤ
div_ℤ a b =
    sub_ℕ (quotient (pos_part a * unit) (pos_part b) + quotient (neg_part a * unit) (neg_part b))
      (quotient (pos_part a * unit) (neg_part b) + quotient (neg_part a * unit) (pos_part b))

-- Roots and powers are constants here: no test evaluates one.
instance abbrev pub fixed : Number ℤ
fixed = record {
  lit = λ n d. pos (quotient (n * unit) d);
  add = add_ℤ;
  sub = sub_ℤ;
  mul = mul_ℤ;
  div = div_ℤ;
  lt = ltb_ℤ;
  is_num = λ x. true;
  is_finite = λ x. true;
  sqrt = λ x. x;
  exp = λ x. pos unit;
  half_pow = λ x. pos unit;
}

quotient_mono : (a b s : ℕ) → a ≤ b → quotient (a * unit) s ≤ quotient (b * unit) s
quotient_mono a b zero h = omega arith
quotient_mono a b (suc s) h =
    let low = div-mul-le_self (a * unit) (suc s) in
    (le-div_iff_mul-le {k = suc s} {x = a * unit / suc s} {y = b * unit} (omega arith)).1
      (omega arith)

quotient_self : (s : ℕ) → 0 < s → quotient (s * unit) s ≡ unit
quotient_self zero h = absurd (omega arith)
quotient_self (suc s) h = mul-div_cancel_left unit (omega arith)

quotient_pos : (n d : ℕ) → 0 < n → 0 < d → d ≤ unit → 0 < quotient (n * unit) d
quotient_pos n zero hn hd h = absurd (omega arith)
quotient_pos n (suc d) hn hd h =
    (le-div_iff_mul-le {k = suc d} {x = 1} {y = n * unit} (omega arith)).1 (omega arith)

lt-sub-zero_ℤ : (a b : ℤ) → ltb_ℤ (sub_ℤ a b) (pos (0 / 1)) ≡ ltb_ℤ a b
lt-sub-zero_ℤ (pos a) (pos b) = ground arith
lt-sub-zero_ℤ (pos a) (negsuc b) = ground arith
lt-sub-zero_ℤ (negsuc a) (pos b) = ground arith
lt-sub-zero_ℤ (negsuc a) (negsuc b) = ground arith

lt-sub_ℤ : (a b c : ℤ) → ltb_ℤ b a ≡ false → ltb_ℤ (sub_ℤ b c) (sub_ℤ a c) ≡ false
lt-sub_ℤ a b c h = ground arith

lt-div_ℤ :
    (a b s : ℤ)
    → ltb_ℤ (pos (0 / 1)) s ≡ true
    → ltb_ℤ b a ≡ false
    → ltb_ℤ (div_ℤ b s) (div_ℤ a s) ≡ false
lt-div_ℤ a b (negsuc s) hs h = absurd (ground arith)
lt-div_ℤ (pos a) (pos b) (pos s) hs h = ground (arith, quotient_mono a b s)
lt-div_ℤ (pos a) (negsuc b) (pos s) hs h = ground (arith)
lt-div_ℤ (negsuc a) (pos b) (pos s) hs h = ground (arith)
lt-div_ℤ (negsuc a) (negsuc b) (pos s) hs h = ground (arith, quotient_mono (suc b) (suc a) s)

div_self_ℤ : (s : ℤ) → ltb_ℤ (pos (0 / 1)) s ≡ true → div_ℤ s s ≡ pos (quotient (1 * unit) 1)
div_self_ℤ (negsuc s) h = absurd (ground arith)
div_self_ℤ (pos s) h = ground (arith, quotient_self s)

pub fixed-IsOrdered : IsOrdered fixed
fixed-IsOrdered = record {
  lt_num = λ a b h. (refl, refl);
  lt_asym = λ a b h. ground arith;
  lt_neg_trans = λ a b c n h k. ground arith;
  lt-sub-zero = λ a b. lt-sub-zero_ℤ a b;
  lit_num = λ a b. refl;
  lit_pos = λ n d hn hd h. ground (arith, quotient_pos n d);
  lt-sub = λ a b c h. lt-sub_ℤ a b c h;
  lt-div = λ a b s hs h. lt-div_ℤ a b s hs h;
  div_num = λ a b h. refl;
  div_self = λ s hs hf. div_self_ℤ s hs;
}
