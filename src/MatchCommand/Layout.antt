-- ===== src/MatchCommand/Layout.antt =====
-- The words of a match command put back one after the other: what the reads of each case of
-- DecodeMatchCommand and the appends of EncodeMatchCommand have in common.
use wfc_server.Prelude.{
  ℕ, zero, suc, ◌+◌, ◌*◌, ◌≤◌, ◌≡◌, refl, ◌∙◌, ap, [], ◌∷◌, ◌++◌, append_assoc, length, drop, All,
  arith, not, ◌==◌,
}
use wfc_server.Prelude.Words.{
  Bytes, IsByte, put_le32, put_be32, le_word, be_word, put_le32-word, put_be32-word,
  put_le32-word_to, put_be32-word_to,
}
use wfc_server.MatchCommand.Encode.{flag, put_words}
use wfc_server.MatchCommand.Safety.{words}

pub flag-ne_zero : (w : ℕ) → w ≤ 1 → flag (not (w == 0)) ≡ w
flag-ne_zero w h = ground arith

pub nil_of_length : (b : Bytes) → length b ≡ 0 → b ≡ []
nil_of_length [] h = refl
nil_of_length (x ∷ b) h = absurd (omega arith)

pub drop-length : (b : Bytes) (n : ℕ) → length b ≤ n → drop n b ≡ []
drop-length [] zero h = refl
drop-length [] (suc n) h = refl
drop-length (x ∷ b) zero h = absurd (omega arith)
drop-length (x ∷ b) (suc n) h = drop-length b n (omega arith)

pub length-words : (n : ℕ) (b : Bytes) (i : ℕ) → length (words n b i) ≡ n
unfolding words
length-words zero b i = refl
length-words (suc n) b i = ap suc (length-words n b (i + 4))

module _ (b : Bytes) (h : All IsByte b) where
  pub layout_90 :
      0x24 ≤ length b
      → put_le32 (le_word b 0)
          ++ (put_be32 (be_word b 4)
              ++ (put_le32 (le_word b 8)
                  ++ (put_be32 (be_word b 0x0C)
                      ++ (put_le32 (le_word b 0x10)
                          ++ (put_le32 (le_word b 0x14)
                              ++ (put_le32 (le_word b 0x18)
                                  ++ (put_le32 (le_word b 0x1C)
                                      ++ (put_le32 (le_word b 0x20) ++ drop 0x24 b))))))))
        ≡ b
  layout_90 l = rw (
    put_le32-word b 0x20 h (omega arith),
    put_le32-word b 0x1C h (omega arith),
    put_le32-word b 0x18 h (omega arith),
    put_le32-word b 0x14 h (omega arith),
    put_le32-word b 0x10 h (omega arith),
    put_be32-word b 0x0C h (omega arith),
    put_le32-word b 0x08 h (omega arith),
    put_be32-word b 0x04 h (omega arith),
    put_le32-word b 0 h (omega arith),
  )

  pub layout_11 :
      0x14 ≤ length b
      → put_le32 (le_word b 0)
          ++ (put_be32 (be_word b 4)
              ++ (put_le32 (le_word b 8)
                  ++ (put_le32 (le_word b 0x0C) ++ (put_le32 (le_word b 0x10) ++ drop 0x14 b))))
        ≡ b
  layout_11 l = rw (
    put_le32-word b 0x10 h (omega arith),
    put_le32-word b 0x0C h (omega arith),
    put_le32-word b 0x08 h (omega arith),
    put_be32-word b 0x04 h (omega arith),
    put_le32-word b 0 h (omega arith),
  )

  pub layout_3 :
      0x0C ≤ length b
      → put_le32 (le_word b 0)
          ++ (put_be32 (be_word b 4) ++ (put_le32 (le_word b 8) ++ drop 0x0C b))
        ≡ b
  layout_3 l = rw (
    put_le32-word b 0x08 h (omega arith),
    put_be32-word b 0x04 h (omega arith),
    put_le32-word b 0 h (omega arith),
  )

  pub layout_resv_ok_90 :
      0x34 ≤ length b
      → put_le32 (le_word b 0)
          ++ (put_le32 (le_word b 4)
              ++ (put_le32 (le_word b 8)
                  ++ (put_be32 (be_word b 0x0C)
                      ++ (put_le32 (le_word b 0x10)
                          ++ (put_be32 (be_word b 0x14)
                              ++ (put_le32 (le_word b 0x18)
                                  ++ (put_le32 (le_word b 0x1C)
                                      ++ (put_le32 (le_word b 0x20)
                                          ++ (put_le32 (le_word b 0x24)
                                              ++ (put_le32 (le_word b 0x28)
                                                  ++ (put_le32 (le_word b 0x2C)
                                                      ++ (put_le32 (le_word b 0x30)
                                                          ++ drop 0x34 b))))))))))))
        ≡ b
  layout_resv_ok_90 l = rw (
    put_le32-word b 0x30 h (omega arith),
    put_le32-word b 0x2C h (omega arith),
    put_le32-word b 0x28 h (omega arith),
    put_le32-word b 0x24 h (omega arith),
    put_le32-word b 0x20 h (omega arith),
    put_le32-word b 0x1C h (omega arith),
    put_le32-word b 0x18 h (omega arith),
    put_be32-word b 0x14 h (omega arith),
    put_le32-word b 0x10 h (omega arith),
    put_be32-word b 0x0C h (omega arith),
    put_le32-word b 0x08 h (omega arith),
    put_le32-word b 0x04 h (omega arith),
    put_le32-word b 0 h (omega arith),
  )

  -- A run of words, and what stands behind it.
  pub put_words-words :
      (n i j : ℕ)
      → i + 4 * n ≤ length b
      → j ≡ i + 4 * n
      → put_words (words n b i) ++ drop j b ≡ drop i b
  unfolding put_words words
  put_words-words zero i j l e = ap (λ (k : ℕ). drop k b) {x = j} {y = i} (omega arith)
  put_words-words (suc n) i j l e =
      append_assoc (put_le32 (le_word b i)) (put_words (words n b (i + 4))) (drop j b)
      ∙ ap (◌++◌ (put_le32 (le_word b i))) (put_words-words n (i + 4) j (omega arith) (omega arith))
      ∙ put_le32-word_to b i (i + 4) h (omega arith) refl

  pub layout_list_3 :
      (n i : ℕ)
      → n ≡ le_word b 0
      → i ≡ 4 + n * 4
      → i + 8 ≤ length b
      → put_le32 n
          ++ (put_words (words n b 4)
              ++ (put_be32 (be_word b i) ++ (put_le32 (le_word b (i + 4)) ++ drop (i + 8) b)))
        ≡ b
  layout_list_3 n i en ei l = rw (
    put_le32-word_to b (i + 4) (i + 8) h (omega arith) (omega arith),
    put_be32-word_to b i (i + 4) h (omega arith) refl,
    put_words-words n 4 i (omega arith) (omega arith),
    en,
    put_le32-word b 0 h (omega arith),
  )

  pub layout_list_11 :
      (n i : ℕ)
      → n ≡ le_word b 0
      → i ≡ 4 + n * 4
      → i + 0x18 ≤ length b
      → put_le32 n
          ++ (put_words (words n b 4)
              ++ (put_be32 (be_word b i)
                  ++ (put_le32 (le_word b (i + 4))
                      ++ (put_le32 (le_word b (i + 8))
                          ++ (put_le32 (le_word b (i + 0x0C))
                              ++ (put_le32 (le_word b (i + 0x10))
                                  ++ (put_le32 (le_word b (i + 0x14)) ++ drop (i + 0x18) b)))))))
        ≡ b
  layout_list_11 n i en ei l = rw (
    put_le32-word_to b (i + 0x14) (i + 0x18) h (omega arith) (omega arith),
    put_le32-word_to b (i + 0x10) (i + 0x14) h (omega arith) (omega arith),
    put_le32-word_to b (i + 0x0C) (i + 0x10) h (omega arith) (omega arith),
    put_le32-word_to b (i + 8) (i + 0x0C) h (omega arith) (omega arith),
    layout_list_3 n i en ei (omega arith),
  )
