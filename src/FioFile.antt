-- ===== src/FioFile.antt =====
-- struct fio_file of file.h: the fields that block selection and the block maps read or write,
-- with fio_file_reset, and clean_map of seg_2bitsmap.c.
use fio_ssd.Prelude.{ℕ, zero, suc, ◌*◌, ◌-◌, ◌^◌, Bool, true, false, List, [], ◌∷◌, if◌then◌else◌}

-- An empty list stands for the null pointer of `file_map` and `file_map2`.
pub record File : Type 0 where
  pub real_file_size : ℕ
  pub file_offset : ℕ
  pub io_size : ℕ
  pub last_pos : ℕ
  pub last_start : ℕ
  pub file_pos : ℕ
  pub file_map : List ℕ
  pub file_map2 : List ℕ
  pub num_maps : ℕ
  pub last_free_lookup : ℕ
  pub failed_rands : ℕ

-- -1ULL
abbrev pub minus_one : ℕ
minus_one = 2 ^ 64 - 1

abbrev pub is_null : List ℕ → Bool
is_null [] = true
is_null (x ∷ xs) = false

-- memset of the first `n` words to 0.
unfoldable pub clear_words : ℕ → List ℕ → List ℕ
clear_words zero m = m
clear_words (suc n) [] = []
clear_words (suc n) (x ∷ xs) = 0 ∷ clear_words n xs

-- clean_map: `hist_empty` is that there is no td, or that its io_hist_len is 0.
unfoldable pub clean_map : Bool → File → File
unfolding clear_words
clean_map hist_empty f =
    if hist_empty then record f { file_map2 = clear_words (2 * f.num_maps) f.file_map2 } else f

-- fio_file_reset
unfoldable pub fio_file_reset : Bool → File → File
unfolding clear_words clean_map
fio_file_reset hist_empty f =
    let g = record f {
      last_free_lookup = 0;
      failed_rands = 0;
      last_pos = f.file_offset;
      last_start = minus_one;
      file_pos = minus_one;
      file_map = if is_null f.file_map then [] else clear_words f.num_maps f.file_map;
    } in
    if is_null g.file_map2 then g else clean_map hist_empty g
