-- ===== src/Store/Disk/Contract/Steps.antt =====
-- What each step of `Put` does on a disk without faults.
use reflector_go.Store.{Blob}
use reflector_go.Store.Disk
use reflector_go.Store.Disk.{
  DiskStore, Fault, Act, pure, continue, ◌>>=◌, call, ensure_dir_exists, set_initialized, init_once,
  tmp, renamed, opened, write_at, overlay, then_flush, disk_store, blob_hash,
}
use reflector_go.Store.Disk.Contract.{
  call_works, then_ok, prepared, ensure_dir_exists_works, IsSound, init_once_works,
  prepared-IsSound, prepared_ready,
}
use reflector_go.Store.Disk.Directory.{
  Files, file, has_dir, make_dir, set_file, unset_file, file-set_file, file-unset_file,
  file-make_dir, has_dir-make_dir, has_dir-set_file, has_dir-unset_file,
}
use reflector_go.Errors.{Result, ok}
use mathlib.Core.List.{append-nil}
use reflector_go.Prelude.{
  take, ℕ, List, drop, length, [], ◌≡◌, ◌++◌, Str, suc, ◌∙◌, ◌∷◌, str_eq, some, true, arith, zero,
  none, str_eq_refl, false, refl, ap, take-length,
}

drop_nil : (n : ℕ) → drop {A = ℕ} n [] ≡ []
drop_nil zero = refl
drop_nil (suc n) = refl

drop_start : (n : ℕ) (b : Blob) → drop (length b) (take n b ++ drop n []) ≡ []
drop_start zero b = drop_nil (length b)
drop_start (suc n) [] = refl
drop_start (suc n) (x ∷ b) = rw (drop_nil n) at (drop_start n b)

-- What is written last is the whole blob.
overlay_whole :
    (n : ℕ) (b : Blob) → take (length b) b ++ drop (length b) (take n b ++ drop n []) ≡ b
overlay_whole n b = rw (drop_start n b, take-length b) (append-nil b)

module _ (prefix_length : ℕ) (buffered : Blob → ℕ) (digest : List ℕ → List ℕ) where
  abbrev dir : Str → Str
  dir hash = Disk.dir prefix_length buffered digest hash

  open_tmp_works :
      (h : Str) (d : DiskStore)
      → d.answers ≡ []
      → has_dir tmp d.files ≡ true
      → file tmp h d.files ≡ none
      → Disk.open_tmp prefix_length buffered digest h d
        ≡ (ok tt, record d { files = set_file tmp h [] d.files; answers = [] })
  unfolding Disk.open_tmp
  open_tmp_works h d a there new = call_works _ _ d a ∙ rw (there, new) refl

  new_writer_works :
      (d : DiskStore)
      → d.answers ≡ []
      → Disk.new_writer prefix_length buffered digest d ≡ (ok tt, record d { answers = [] })
  unfolding Disk.new_writer
  new_writer_works d a = call_works _ _ d a

  copy_works :
      (h : Str) (b : Blob) (d : DiskStore)
      → d.answers ≡ []
      → file tmp h d.files ≡ some []
      → Disk.copy prefix_length buffered digest h b d ≡ (
        ok tt,
        record d {
          files = set_file tmp h (take (buffered b) b ++ drop (buffered b) []) d.files;
          answers = [];
        },
      )
  unfolding Disk.copy
  copy_works h b d a new = call_works _ _ d a ∙ rw new refl

  rename_works :
      (h : Str) (x : Blob) (d : DiskStore)
      → d.answers ≡ []
      → file tmp h d.files ≡ some x
      → has_dir (dir h) d.files ≡ true
      → Disk.rename prefix_length buffered digest h d ≡ (
        ok tt,
        record d { files = set_file (dir h) h x (unset_file tmp h d.files); answers = [] },
      )
  unfolding Disk.rename
  rename_works h x d a there target = call_works _ _ d a ∙ rw (there, target) refl

  flush_works :
      (h : Str) (b x : Blob) (d : DiskStore)
      → d.answers ≡ []
      → file (dir h) h d.files ≡ some x
      → Disk.flush prefix_length buffered digest (dir h) h b d ≡ record d {
        files = set_file (dir h) h (take (length b) b ++ drop (length b) x) d.files;
        answers = [];
      }
  unfolding Disk.flush
  flush_works h b x d a there =
      ap (λ (r : Result (Unit {0}) × DiskStore). r.1) (call_works _ _ d a) ∙ rw there refl

  -- The files after each step of a `Put`.
  module _ (h : Str) (b : Blob) (f0 : Files) where
    abbrev part : Blob
    part = take (buffered b) b ++ drop (buffered b) []

    abbrev f1 : Files
    f1 = make_dir (dir h) (make_dir [] f0)

    abbrev f2 : Files
    f2 = set_file tmp h [] f1

    abbrev f3 : Files
    f3 = set_file tmp h part f2

    abbrev f4 : Files
    f4 = set_file (dir h) h part (unset_file tmp h f3)

    abbrev pub f5 : Files
    f5 = set_file (dir h) h b f4

    f1-tmp : has_dir tmp f0 ≡ true → has_dir tmp f1 ≡ true
    f1-tmp e =
        has_dir-make_dir (dir h) tmp (make_dir [] f0) ∙ ground (arith, has_dir-make_dir [] tmp f0)

    f1-file : (e j : Str) → file e j f1 ≡ file e j f0
    f1-file e j = simp file-make_dir

    f2-file : file tmp h f2 ≡ some []
    f2-file = file-set_file tmp tmp h h [] f1 ∙ simp str_eq_refl

    f3-file : file tmp h f3 ≡ some part
    f3-file = file-set_file tmp tmp h h part f2 ∙ simp str_eq_refl

    f3-dir : has_dir (dir h) f3 ≡ true
    f3-dir = ground (
      arith,
      str_eq_refl (dir h),
      has_dir-make_dir (dir h) (dir h) (make_dir [] f0),
      has_dir-set_file tmp (dir h) h [] f1,
      has_dir-set_file tmp (dir h) h part f2,
    )

    f4-file : file (dir h) h f4 ≡ some part
    f4-file = file-set_file (dir h) (dir h) h h part (unset_file tmp h f3) ∙ simp str_eq_refl

    pub f5-file : file (dir h) h f5 ≡ some b
    f5-file = file-set_file (dir h) (dir h) h h b f4 ∙ simp str_eq_refl

    pub f5-tmp : str_eq (dir h) tmp ≡ false → file tmp h f5 ≡ none
    f5-tmp ne = ground (
      arith,
      file-set_file (dir h) tmp h h b f4,
      file-set_file (dir h) tmp h h part (unset_file tmp h f3),
      file-unset_file tmp tmp h h f3,
      str_eq_refl tmp,
      str_eq_refl h,
    )

    pub f5_has_tmp : has_dir tmp f0 ≡ true → has_dir tmp f5 ≡ true
    f5_has_tmp e = ground (
      arith,
      f1-tmp e,
      has_dir-set_file tmp tmp h [] f1,
      has_dir-set_file tmp tmp h part f2,
      has_dir-unset_file tmp tmp h f3,
      has_dir-set_file (dir h) tmp h part (unset_file tmp h f3),
      has_dir-set_file (dir h) tmp h b f4,
    )

  write_blob_works :
      (h : Str) (b : Blob) (f0 : Files) (d : DiskStore)
      → d.answers ≡ []
      → d.files ≡ f2 h b f0
      → Disk.write_blob prefix_length buffered digest h b d
        ≡ (ok tt, record d { files = f5 h b f0; answers = [] })
  unfolding Disk.write_blob ◌>>=◌
  write_blob_works h b f0 d a e =
      let d3 : DiskStore = record d { files = f3 h b f0; answers = [] } in
      let d4 : DiskStore = record d { files = f4 h b f0; answers = [] } in
      rw (copy_works h b d a (rw e (f2-file h b f0)), e)
        (rw (rename_works h (part h b f0) d3 refl (f3-file h b f0) (f3-dir h b f0)) (
          rw (flush_works h b (part h b f0) d4 refl (f4-file h b f0), overlay_whole (buffered b) b)
            refl))

  pub put_works :
      (h : Str) (b : Blob) (d : DiskStore)
      → IsSound prefix_length buffered digest d
      → let p = prepared d.initialized d in
        Disk.put prefix_length buffered digest h b d
        ≡ (ok tt, record p { files = f5 h b p.files; answers = [] })
  unfolding Disk.put ◌>>=◌
  put_works h b d v =
      let p = prepared d.initialized d in
      let w = prepared-IsSound prefix_length buffered digest d v in
      let tmp_there = (prepared_ready prefix_length buffered digest d.initialized d v.ready).0 in
      let p1 : DiskStore = record p { files = f1 h b p.files; answers = [] } in
      let p2 : DiskStore = record p { files = f2 h b p.files; answers = [] } in
      rw (init_once_works prefix_length buffered digest d v) (
        rw (ensure_dir_exists_works (dir h) p w.no_faults) (
          rw
            (open_tmp_works h p1 refl (f1-tmp h b p.files tmp_there)
              (f1-file h b p.files tmp h ∙ w.tmp_empty h))
            (then_ok (Disk.new_writer prefix_length buffered digest)
                (λ _. Disk.write_blob prefix_length buffered digest h b) p2 p2 tt
                (new_writer_works p2 refl)
              ∙ write_blob_works h b p.files p2 refl refl)))
