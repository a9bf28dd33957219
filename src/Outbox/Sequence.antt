-- ===== src/Outbox/Sequence.antt =====
-- The order of the sequence numbers of the outbox, which are an `i64`.
use blink_lightning_gateway.Base.{Bool, true, false, ◌&&◌, leb, ◌≡◌, ap, List, [], ◌∷◌, arith}
use blink_lightning_gateway.Primitives.Amount.{ℤ, pos, negsuc}

-- `m <= n` on `i64`
abbrev pub le_sequence : ℤ → ℤ → Bool
le_sequence (pos m) (pos n) = leb m n
le_sequence (pos m) (negsuc n) = false
le_sequence (negsuc m) (pos n) = true
le_sequence (negsuc m) (negsuc n) = leb n m

-- `m == n` on `i64`
abbrev pub same_sequence : ℤ → ℤ → Bool
same_sequence m n = le_sequence m n && le_sequence n m

infix 50 ◌⊑◌
abbrev pub ◌⊑◌ : ℤ → ℤ → Type 0
m ⊑ n = le_sequence m n ≡ true

infix 50 ◌⊏◌
abbrev pub ◌⊏◌ : ℤ → ℤ → Type 0
m ⊏ n = le_sequence n m ≡ false

pub sequence_refl : (m : ℤ) → m ⊑ m
sequence_refl (pos m) = ground arith
sequence_refl (negsuc m) = ground arith

pub sequence_trans : (l m n : ℤ) → l ⊑ m → m ⊑ n → l ⊑ n
sequence_trans (pos l) (pos m) (pos n) h k = ground arith
sequence_trans (pos l) (pos m) (negsuc n) h k = ground arith
sequence_trans (pos l) (negsuc m) n h k = ground arith
sequence_trans (negsuc l) (pos m) (pos n) h k = ground arith
sequence_trans (negsuc l) (pos m) (negsuc n) h k = ground arith
sequence_trans (negsuc l) (negsuc m) (pos n) h k = ground arith
sequence_trans (negsuc l) (negsuc m) (negsuc n) h k = ground arith

pub sequence_weak : (m n : ℤ) → m ⊏ n → m ⊑ n
sequence_weak (pos m) (pos n) h = ground arith
sequence_weak (pos m) (negsuc n) h = ground arith
sequence_weak (negsuc m) (pos n) h = ground arith
sequence_weak (negsuc m) (negsuc n) h = ground arith

pub sequence_total : (m n : ℤ) → le_sequence m n ≡ false → n ⊑ m
sequence_total m n h = sequence_weak n m h

pub sequence_antisym : (m n : ℤ) → m ⊑ n → n ⊑ m → m ≡ n
sequence_antisym (pos m) (pos n) h k = ap pos (ground arith)
sequence_antisym (pos m) (negsuc n) h k = ground arith
sequence_antisym (negsuc m) (pos n) h k = ground arith
sequence_antisym (negsuc m) (negsuc n) h k = ap negsuc (ground arith)

-- `l < m <= n` and `l <= m < n` give `l < n`
pub sequence_lt-le : (l m n : ℤ) → l ⊏ m → m ⊑ n → l ⊏ n
sequence_lt-le l m n h k = ground (arith, sequence_trans m n l k)

pub sequence_le-lt : (l m n : ℤ) → l ⊑ m → m ⊏ n → l ⊏ n
sequence_le-lt l m n h k = ground (arith, sequence_trans n l m)

-- Strictly ascending, from above `c` on.
abbrev pub Ascending : ℤ → List ℤ → Type 0
Ascending c [] = Unit
Ascending c (s ∷ ss) = (c ⊏ s) × Ascending s ss

-- The last of `c` and what follows it.
abbrev pub last_of : ℤ → List ℤ → ℤ
last_of c [] = c
last_of c (s ∷ ss) = last_of s ss

pub last_of-Ascending : (c : ℤ) (ss : List ℤ) → Ascending c ss → c ⊑ last_of c ss
last_of-Ascending c [] a = sequence_refl c
last_of-Ascending c (s ∷ ss) a =
    sequence_trans c s (last_of s ss) (sequence_weak c s a.0) (last_of-Ascending s ss a.1)
