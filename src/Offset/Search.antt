-- ===== src/Offset/Search.antt =====
-- get_next_free_block of io_u.c as a whole, from the search loop.
use fio_ssd.Prelude.{
  ℕ, suc, ◌*◌, ◌/◌, ◌^◌, ◌<◌, ◌≤◌, ◌≡◌, Option, none, some, length, arith, ◌⊎◌, inl, inr,
}
use fio_ssd.FioFile.{File}
use fio_ssd.RandMap.{u32, u64}
use fio_ssd.Offset.{Options, Ddir, last_block, free_scan, store_found, get_next_free_block}
use fio_ssd.Offset.FreeBlock.{Covers, FirstFree, Exhausted, Searched, free_scan-Searched}

-- What get_next_free_block gives when it searches from the word of the last search on.
abbrev pub Looked : Options → File → Ddir → Option (File × Option ℕ) → Type 0
Looked o f ddir out =
    ((b : ℕ) × (out ≡ some (record f { last_free_lookup = b / 64 }, some b))
      × FirstFree f.file_map (last_block o f ddir) (64 * f.last_free_lookup) b)
    ⊎ ((out ≡ some (f, none))
        × Exhausted o.rw_min_bs (last_block o f ddir) f (64 * f.last_free_lookup))

module _ (o : Options) (f : File) (ddir : Ddir) where
  scan : Option (Option (ℕ × ℕ))
  scan =
      free_scan (suc (length f.file_map)) o.rw_min_bs (last_block o f ddir) f f.last_free_lookup
        (64 * f.last_free_lookup)

  get_next_free_block-scan :
      0 < last_block o f ddir
      → f.last_free_lookup ≤ length f.file_map
      → length f.file_map < 2 ^ 31
      → {found : Option (ℕ × ℕ)} → scan ≡ some found
      → get_next_free_block o f ddir ≡ some (store_found f found)
  unfolding get_next_free_block scan
  get_next_free_block-scan pos inside small e =
      ground (arith, e, start (u32 f.last_free_lookup) (u64 (u32 f.last_free_lookup * 64)))
    where
      start :
          (i block : ℕ)
          → i ≡ f.last_free_lookup
          → block ≡ 64 * f.last_free_lookup
          → free_scan (suc (length f.file_map)) o.rw_min_bs (last_block o f ddir) f i block ≡ scan
      start i block p q = cc

  Looked-scan :
      Covers o.rw_min_bs f
      → 0 < last_block o f ddir
      → f.last_free_lookup ≤ length f.file_map
      → Searched o.rw_min_bs (last_block o f ddir) f f.last_free_lookup scan
      → Looked o f ddir (get_next_free_block o f ddir)
  Looked-scan ok pos inside (inl (b, e, first)) =
      inl (b, get_next_free_block-scan pos inside ok.int_index e, first)
  Looked-scan ok pos inside (inr (e, none_left)) =
      inr (get_next_free_block-scan pos inside ok.int_index e, none_left)

  -- From the word of the last search on, get_next_free_block gives the first clear block, if that
  -- is at most the last block, and stores its word; or it returns 1, changes nothing, and every
  -- block from there on that lies in the file, up to the last block, is set. It does not fault on a
  -- map that covers the file.
  pub get_next_free_block-Looked :
      Covers o.rw_min_bs f
      → 0 < last_block o f ddir
      → f.last_free_lookup ≤ length f.file_map
      → Looked o f ddir (get_next_free_block o f ddir)
  unfolding scan
  get_next_free_block-Looked ok pos inside = Looked-scan ok pos inside (
      free_scan-Searched (suc (length f.file_map)) o.rw_min_bs (last_block o f ddir) f
        f.last_free_lookup ok inside (omega arith))
