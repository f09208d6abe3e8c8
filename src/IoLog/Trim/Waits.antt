-- ===== src/IoLog/Trim/Waits.antt =====
-- get_next_trim of trim.c: the pieces that wait to be trimmed.
use fio_ssd.Prelude.{
  arith, refl, sym, ap, ◌∙◌, remove, ℕ, ◌+◌, ◌-◌, ◌^◌, ◌<◌, ◌≡◌, inl, inr, none, some, List, [],
  ◌∷◌, ◌++◌, length, Bool, true, false, ◌==◌, if◌then◌else◌, Bool-cases, ==_iff, ==_iff_ne, ◌≢◌,
}
use mathlib.Core.Path.{subst}
use fio_ssd.RandMap.{u64}
use fio_ssd.IoLog.Order.{IsDistinct}
use fio_ssd.IoLog.Keeps.{IsDistinct-without}
use fio_ssd.IoLog.{Entry, in_order, without, RbTree, Logs, mem, remove_trim_entry}
use fio_ssd.IoLog.Trim.{
  pieces, find, has, mark, mark_trimmed, opened, forget_piece, settle, get_next_trim,
}
use fio_ssd.IoLog.Trim.Pieces.{
  AllHeld, AllOnce, find-has, has-mark, mark-append, in_order-mark_tree, has-without,
  without_absent, without-append, absent_behind, find-without, find-without_other, find-mark,
  find-mark_other, IsDistinct-mark, AllHeld-same,
}

-- The list of pieces to trim is counted, has each piece once, and has pieces of the logs, which
-- have different addresses.
pub record IsWaiting (td : Logs) : Type 0 where
  pub counted : td.trim_entries ≡ length td.trim_list
  pub once : AllOnce td.trim_list
  pub held : AllHeld td.trim_list (pieces td)
  pub distinct : IsDistinct (pieces td)

-- The logs `td'` have the piece `x` of `td` flagged, or no longer, and the other pieces as they were.
pub record Trims (trim_zero : Bool) (x : Entry) (td td' : Logs) : Type 0 where
  pub first : find x.at (pieces td) ≡ some x
  pub trimmed :
      find x.at (pieces td') ≡ (if trim_zero then some (record x { trimmed = true }) else none)
  pub others : (b : ℕ) → x.at ≢ b → find b (pieces td') ≡ find b (pieces td)
  pub io_hist_len :
      td'.hist.io_hist_len
      ≡ (if trim_zero then td.hist.io_hist_len else u64 (td.hist.io_hist_len + 2 ^ 64 - 1))

module _ (R : RbTree) where
  open R use {erase, in_order-erase}

  pieces-mark : (a : ℕ) (td : Logs) → pieces (mark_trimmed a td) ≡ mark a (pieces td)
  pieces-mark a td =
      ap (λ (xs : List Entry). mark a td.io_hist_list ++ xs) (in_order-mark_tree a td.io_hist_tree)
      ∙ sym (mark-append a td.io_hist_list (in_order td.io_hist_tree))

  pieces-forget :
      (a : ℕ) (td : Logs)
      → IsDistinct (pieces td)
      → pieces (forget_piece R a td) ≡ without a (pieces td)
  pieces-forget a td d = elim (Bool-cases (has a td.io_hist_list)) [
    | inl e ↦ rw (
      e,
      without-append a td.io_hist_list (in_order td.io_hist_tree),
      without_absent a (in_order td.io_hist_tree)
          (absent_behind a td.io_hist_list (in_order td.io_hist_tree) d e),
    )
    | inr e ↦ rw (
      e,
      without-append a td.io_hist_list (in_order td.io_hist_tree),
      in_order-erase a td.io_hist_tree,
      without_absent a td.io_hist_list e,
    )
  ]

  forget-len :
      (a : ℕ) (td : Logs)
      → (forget_piece R a td).hist.io_hist_len ≡ u64 (td.hist.io_hist_len + 2 ^ 64 - 1)
  forget-len a td = elim (Bool-cases (has a td.io_hist_list)) [ inl e ↦ rw e | inr e ↦ rw e ]

  settle-Trims :
      (trim_zero : Bool) (x : Entry) (td : Logs)
      → IsDistinct (pieces td)
      → find x.at (pieces td) ≡ some x
      → Trims trim_zero x td (settle R trim_zero x.at td)
        × IsDistinct (pieces (settle R trim_zero x.at td))
        × ((b : ℕ)
            → (x.at == b) ≡ false
            → has b (pieces (settle R trim_zero x.at td)) ≡ has b (pieces td))
  settle-Trims true x td d f =
      let e = pieces-mark x.at td in
      (
        record {
          first = f;
          trimmed = ap (find x.at) e ∙ find-mark x.at (pieces td) x f;
          others =
              λ b n. ap (find b) e ∙ find-mark_other x.at b (pieces td) ((==_iff_ne x.at b).1 n);
          io_hist_len = refl;
        },
        subst IsDistinct (sym e) (IsDistinct-mark x.at (pieces td) d),
        λ b n. ap (has b) e ∙ has-mark b x.at (pieces td),
      )
  settle-Trims false x td d f =
      let e = pieces-forget x.at td d in
      (
        record {
          first = f;
          trimmed = ap (find x.at) e ∙ find-without x.at (pieces td);
          others =
              λ b n. ap (find b) e ∙ find-without_other x.at b (pieces td) ((==_iff_ne x.at b).1 n);
          io_hist_len = forget-len x.at td;
        },
        subst IsDistinct (sym e) (IsDistinct-without x.at (pieces td) d),
        λ b n. ap (has b) e ∙ has-without b x.at (pieces td) n,
      )

remove_absent : (a : ℕ) (xs : List ℕ) → mem a xs ≡ false → remove a xs ≡ xs
remove_absent a [] h = refl
remove_absent a (x ∷ xs) h = ground (arith, remove_absent a xs, h)

one_less : (n : ℕ) → n + 1 < 2 ^ 64 → u64 (n + 1 + 2 ^ 64 - 1) ≡ n
one_less n h = omega arith

first_removed :
    (a : ℕ) (rest : List ℕ) (td : Logs)
    → td.trim_list ≡ a ∷ rest
    → mem a rest ≡ false
    → td.trim_entries ≡ length rest + 1
    → length rest + 1 < 2 ^ 64
    → remove_trim_entry a td ≡ record td { trim_list = rest; trim_entries = length rest }
unfolding remove_trim_entry
first_removed a rest td l m c b =
    rw (l, (==_iff a a).1 refl, remove_absent a rest m, c, one_less (length rest) b)

module _ (R : RbTree) (can_open : ℕ → Bool) where
  settle-lists :
      (trim_zero : Bool) (a : ℕ) (td : Logs)
      → ((settle R trim_zero a td).trim_list ≡ td.trim_list)
        × ((settle R trim_zero a td).trim_entries ≡ td.trim_entries)
  settle-lists true a td = (refl, refl)
  settle-lists false a td = elim (Bool-cases (has a td.io_hist_list)) [
    | inl e ↦ rw e (refl, refl)
    | inr e ↦ rw e (refl, refl)
  ]

  first_taken :
      (trim_zero : Bool) (a : ℕ) (rest : List ℕ) (td : Logs) (x : Entry)
      → td.trim_list ≡ a ∷ rest
      → (td.trim_entries == 0) ≡ false
      → find a (pieces td) ≡ some x
      → get_next_trim R trim_zero false can_open td
        ≡ some (settle R trim_zero a (remove_trim_entry a td), opened (can_open x.file) x)
  unfolding get_next_trim
  first_taken trim_zero a rest td x l c f = ground (arith, l, c, f)

  -- Where the list of pieces to trim is counted, has each piece once and only pieces of the logs,
  -- which have different addresses, and is not empty, with less than 2^64 pieces, and the io_u has
  -- no file yet: get_next_trim does not fault. It gives the first piece of the list, ready where
  -- its file is or can be opened and else not opened. With trim_zero that piece stays in the logs
  -- with the trimmed flag set and io_hist_len stays; without, the piece is no longer in the logs
  -- and io_hist_len is one less. Each other address has the piece that it had before, the list
  -- keeps the other pieces, and all that was required of the list holds again, but that it is not
  -- empty.
  pub get_next_trim-Trims :
      (trim_zero : Bool) (a : ℕ) (rest : List ℕ) (td : Logs)
      → IsWaiting td
      → td.trim_list ≡ a ∷ rest
      → length td.trim_list < 2 ^ 64
      → (td' : Logs) × (x : Entry) × (x.at ≡ a)
        × (get_next_trim R trim_zero false can_open td ≡ some (td', opened (can_open x.file) x))
        × Trims trim_zero x td td'
        × (td'.trim_list ≡ rest)
        × IsWaiting td'
  get_next_trim-Trims trim_zero a rest td w l b =
      let held : AllHeld (a ∷ rest) (pieces td) =
        subst (λ (q : List ℕ). AllHeld q (pieces td)) l w.held in
      let (x, f, same) = find-has a (pieces td) held.0 in
      let l' : td.trim_list ≡ x.at ∷ rest = l ∙ ap (λ (k : ℕ). k ∷ rest) (sym same) in
      let f' : find x.at (pieces td) ≡ some x = ap (λ (k : ℕ). find k (pieces td)) same ∙ f in
      let td1 : Logs = record td { trim_list = rest; trim_entries = length rest } in
      let once : AllOnce (x.at ∷ rest) = subst AllOnce l' w.once in
      let bound : length rest + 1 < 2 ^ 64 = ground (arith, l, b) in
      let count : td.trim_entries ≡ length rest + 1 = ground (arith, l, w.counted) in
      let removed = first_removed x.at rest td l' once.0 count bound in
      let lists = settle-lists trim_zero x.at td1 in
      let (trims, distinct, has_others) = settle-Trims R trim_zero x td1 w.distinct f' in
      (
        settle R trim_zero x.at td1,
        x,
        same,
        first_taken trim_zero x.at rest td x l' (ground (arith, count)) f'
            ∙ ap (λ (t : Logs). some (settle R trim_zero x.at t, opened (can_open x.file) x))
                removed,
        record {
          first = f';
          trimmed = trims.trimmed;
          others = trims.others;
          io_hist_len = trims.io_hist_len;
        },
        lists.0,
        record {
          counted = lists.1 ∙ ap length (sym lists.0);
          once = subst AllOnce (sym lists.0) once.1;
          held =
              subst (λ (q : List ℕ). AllHeld q (pieces (settle R trim_zero x.at td1))) (sym lists.0)
                (AllHeld-same x.at rest (pieces td1) (pieces (settle R trim_zero x.at td1)) once.0
                  has_others held.1);
          distinct = distinct;
        },
      )
