-- ===== src/Log/Head.antt =====
-- The header block: `read_head` reads what `write_head` wrote.
use xv7_mirror.Base.{
  ℕ, ◌+◌, ◌≡◌, ◌≤◌, ◌<◌, refl, ap, ◌∙◌, List, [], ◌∷◌, arith, length, length-set, get_or-set_self,
  get_or-set_ne,
}
use xv7_mirror.Log.Cache.{Block, block_words, word, set_word}
use xv7_mirror.Log.{put_words, put_head, get_words, get_head}

pub length-put_words : (hb : Block) (i : ℕ) (bs : List ℕ) → length (put_words hb i bs) ≡ length hb
unfolding put_words
length-put_words hb i [] = refl
length-put_words hb i (b ∷ bs) = length-put_words (set_word hb i b) (i + 1) bs ∙ length-set hb i b

pub length-put_head : (hb : Block) (bs : List ℕ) → length (put_head hb bs) ≡ length hb
unfolding put_head
length-put_head hb bs =
    length-put_words (set_word hb 0 (length bs)) 1 bs ∙ length-set hb 0 (length bs)

word-put_words :
    (hb : Block) (i j : ℕ) (bs : List ℕ) → j < i → word (put_words hb i bs) j ≡ word hb j
unfolding put_words
word-put_words hb i j [] h = refl
word-put_words hb i j (b ∷ bs) h =
    word-put_words (set_word hb i b) (i + 1) j bs (omega arith)
    ∙ get_or-set_ne hb i j b 0 (omega arith)

get_words-put_words :
    (hb : Block) (i : ℕ) (bs : List ℕ)
    → i + length bs ≤ length hb
    → get_words (put_words hb i bs) i (length bs) ≡ bs
unfolding put_words get_words
get_words-put_words hb i [] h = refl
get_words-put_words hb i (b ∷ bs) h =
    ap (λ w. w ∷ get_words (put_words (set_word hb i b) (i + 1) bs) (i + 1) (length bs))
      (word-put_words (set_word hb i b) (i + 1) i bs (omega arith)
        ∙ get_or-set_self hb i b 0 (omega arith))
    ∙ ap (λ ws. b ∷ ws)
        (get_words-put_words (set_word hb i b) (i + 1) bs (omega (arith, length-set hb i b)))

-- The header that is written for a list of at most 127 block numbers reads back as that list,
-- whatever stood in the block.
pub get_head-put_head :
    (hb : Block) (bs : List ℕ)
    → length hb ≡ block_words
    → length bs < block_words
    → get_head (put_head hb bs) ≡ bs
unfolding put_head get_head
get_head-put_head hb bs e h =
    ap (get_words (put_words (set_word hb 0 (length bs)) 1 bs) 1) (
      word-put_words (set_word hb 0 (length bs)) 1 0 bs (omega arith)
      ∙ get_or-set_self hb 0 (length bs) 0 (omega arith))
    ∙ get_words-put_words (set_word hb 0 (length bs)) 1 bs
        (omega (arith, length-set hb 0 (length bs)))
