-- ===== src/Storage/Files/Replace.antt =====
-- src/storage/FileStore.cpp: a table that was written through a temporary file.
use monk_skud_unex.Base.{
  ℕ, ◌<◌, [], ◌∷◌, ◌++◌, true, false, Text, some, bytes_eq, bytes_eq_iff, ◌≡◌, refl, ap, ◌∙◌, arith,
  length, length-append, Bool-cases, inl, inr, codes,
}
use monk_skud_unex.Storage.Files.{
  FileSystem, Reliable, temporary, rename_over, replace_file, added, content,
}

length-bytes_eq : (p q : Text) → length p < length q → bytes_eq q p ≡ false
length-bytes_eq p q h = ground (arith, bytes_eq_iff q p, ap (length {A = ℕ}))

temporary-apart : (p : Text) → bytes_eq (temporary p) p ≡ false
temporary-apart p = length-bytes_eq p (temporary p) (omega (arith, length-append p (codes ".tmp")))

bytes_eq-longer : (p : Text) (c : ℕ) (s : Text) → bytes_eq p (p ++ c ∷ s) ≡ false
unfolding bytes_eq
bytes_eq-longer [] c s = refl
bytes_eq-longer (d ∷ p) c s = ground (arith, bytes_eq-longer p c s)

module _ {W : Type 0} (fs : FileSystem W) (laws : Reliable fs) where
  rename_over-read :
      (tmp p : Text) (w : W)
      → bytes_eq tmp p ≡ false
      → bytes_eq p tmp ≡ false
      → (rename_over fs tmp p w).0 ≡ true
      → fs.read p (rename_over fs tmp p w).1 ≡ fs.read tmp w
  unfolding rename_over
  rename_over-read tmp p w h h' = elim (Bool-cases (fs.rename tmp p w).0) [
    | inl ok ↦ rw (ok, rename_over) (λ _. laws.renamed tmp p w h ok)
    | inr bad ↦
        let w1 = (fs.rename tmp p w).1 in
        rw (bad, rename_over)
          (λ ok.
            laws.renamed tmp p (fs.remove p w1) h ok
            ∙ laws.removed_elsewhere p tmp w1 h'
            ∙ laws.rename_failed tmp p w bad)
  ]

  -- Whether or not the first rename ended in an error, behind a success the file has the new text.
  pub replace_file-read :
      (p text : Text) (w : W)
      → (replace_file fs p text w).0 ≡ true
      → fs.read p (replace_file fs p text w).1 ≡ some text
  unfolding replace_file content
  replace_file-read p text w = elim (Bool-cases (fs.open_truncate (temporary p) w).0) [
    | inr bad ↦ rw (bad, replace_file) (ground arith)
    | inl ok ↦
        let w1 = (fs.open_truncate (temporary p) w).1 in
        rw (ok, replace_file)
          (λ done.
            rename_over-read (temporary p) p (fs.write (temporary p) text w1) (temporary-apart p)
              (bytes_eq-longer p b'.' (codes "tmp")) done
            ∙ laws.written (temporary p) text w1
            ∙ ap (added text) (laws.truncated (temporary p) w ok))
  ]

  -- Another file is as before, whatever the outcome.
  pub replace_file-elsewhere :
      (p text q : Text) (w : W)
      → bytes_eq p q ≡ false
      → bytes_eq (temporary p) q ≡ false
      → fs.read q (replace_file fs p text w).1 ≡ fs.read q w
  unfolding replace_file rename_over
  replace_file-elsewhere p text q w hp ht =
      let tmp = temporary p in
      let w1 = (fs.open_truncate tmp w).1 in
      let w2 = fs.write tmp text w1 in
      let w3 = (fs.rename tmp p w2).1 in
      ground (
        arith,
        laws.truncated_elsewhere tmp q w ht,
        laws.written_elsewhere tmp q text w1 ht,
        laws.renamed_elsewhere tmp p q w2 ht hp,
        laws.removed_elsewhere p q w3 hp,
        laws.renamed_elsewhere tmp p q (fs.remove p w3) ht hp,
      )
