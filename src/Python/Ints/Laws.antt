-- ===== src/Python/Ints/Laws.antt =====
-- Sums and products of integers by their signs.
use fastavro.Prelude.{ℕ, suc, ◌+◌, ◌*◌, ◌≡◌, arith}
use fastavro.Python.Ints.{ℤ, pos, negsuc, neg, sub_ℕ, ◌+ℤ◌, ◌-ℤ◌, ◌*ℤ◌}

pub sub_ℕ_pos : (a b c : ℕ) → a ≡ b + c → sub_ℕ a b ≡ pos c
sub_ℕ_pos a b c e = ground arith

pub sub_ℕ_neg : (a b c : ℕ) → b ≡ a + suc c → sub_ℕ a b ≡ negsuc c
sub_ℕ_neg a b c e = ground arith

pub add_pos : (a b : ℕ) → pos a +ℤ pos b ≡ pos (a + b)
unfolding ◌+ℤ◌
add_pos a b = sub_ℕ_pos (a + b) 0 (a + b) (omega arith)

pub mul_pos : (a b : ℕ) → pos a *ℤ pos b ≡ pos (a * b)
unfolding ◌*ℤ◌
mul_pos a b = sub_ℕ_pos (a * b + 0) (a * 0 + 0 * b) (a * b) (omega arith)

pub add_neg : (a b c : ℕ) → a ≡ b + c → negsuc a +ℤ pos b ≡ negsuc c
unfolding ◌+ℤ◌
add_neg a b c e = sub_ℕ_neg (0 + b) (suc a + 0) c (omega arith)

pub mul_neg : (a b c : ℕ) → suc a * b ≡ suc c → negsuc a *ℤ pos b ≡ negsuc c
unfolding ◌*ℤ◌
mul_neg a b c e = sub_ℕ_neg (0 * b + suc a * 0) (0 * 0 + suc a * b) c (omega arith)

pub add-sub_cancel : (a k : ℕ) → (pos a -ℤ pos k) +ℤ pos k ≡ pos a
unfolding ◌-ℤ◌ ◌+ℤ◌
add-sub_cancel a k = ground arith

pub sub-add_cancel : (a : ℤ) (k : ℕ) → (a +ℤ pos k) -ℤ pos k ≡ a
unfolding ◌-ℤ◌ ◌+ℤ◌
sub-add_cancel (pos a) k = ground arith
sub-add_cancel (negsuc a) k = ground arith

pub neg_pos : (n : ℕ) → neg (pos (suc n)) ≡ negsuc n
unfolding ◌-ℤ◌
neg_pos n = sub_ℕ_neg (0 + 0) (0 + suc n) n (omega arith)
