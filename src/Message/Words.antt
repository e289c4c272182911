-- ===== src/Message/Words.antt =====
-- Reading a word of a body after writing one.
use rtx.Base.{ℕ, ◌+◌, ◌*◌, ◌/◌, ◌%◌, ◌<◌, ◌≡◌, ◌≢◌, arith}
use rtx.Base.Int.{ℤ, pos, negsuc}
use rtx.Base.Word.{u32, i31}
use rtx.Message.{Body, get_word, set_word, to_word, of_word}

module _ (i v : ℕ) (b : Body) where
  byte_0 : set_word i v b (4 * i) ≡ v / 16777216 % 256
  unfolding set_word
  byte_0 = ground arith

  byte_1 : set_word i v b (4 * i + 1) ≡ v / 65536 % 256
  unfolding set_word
  byte_1 = ground arith

  byte_2 : set_word i v b (4 * i + 2) ≡ v / 256 % 256
  unfolding set_word
  byte_2 = ground arith

  byte_3 : set_word i v b (4 * i + 3) ≡ v % 256
  unfolding set_word
  byte_3 = ground arith

  -- A word that was written is read back.
  pub get_word-set_word : v < u32 → get_word i (set_word i v b) ≡ v
  unfolding get_word
  get_word-set_word h = rw (byte_0, byte_1, byte_2, byte_3) (omega arith)

  -- No other word changes.
  pub get_word-set_word_ne : (j : ℕ) → j ≢ i → get_word j (set_word i v b) ≡ get_word j b
  unfolding get_word set_word
  get_word-set_word_ne j d = ground arith

-- An `int` of 32 bits survives its pattern.
pub of_word-to_word_pos : (n : ℕ) → n < i31 → of_word (to_word (pos n)) ≡ pos n
unfolding of_word to_word
of_word-to_word_pos n h = ground arith

pub of_word-to_word_negsuc : (n : ℕ) → n < i31 → of_word (to_word (negsuc n)) ≡ negsuc n
unfolding of_word to_word
of_word-to_word_negsuc n h = ground arith

pub to_word_lt : (n : ℤ) → to_word n < u32
unfolding to_word
to_word_lt (pos n) = omega arith
to_word_lt (negsuc n) = omega arith
