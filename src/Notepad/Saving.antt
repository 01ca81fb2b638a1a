-- ===== src/Notepad/Saving.antt =====
-- `writeFile` and `readFile` of apps/notepad/src/main.cpp on a disk that keeps what is written.
use nira_os.Base.{
  ltb, ◌≡◌, ◌≢◌, refl, ◌∙◌, sym, inl, inr, Bool, true, false, Bool-cases, Option, none, some, Text,
  is_empty, has_char, if◌then◌else◌, arith,
}
use nira_os.Notepad.Documents.{
  Disk, Written, not_opened, not_written, written, loaded, max_size, temporary, read_file,
  read_opened, write_file, after_store, finish_write,
}

module _ (disk : Disk) (contents : disk.State → Text → Option Text) where
  -- What is written is what is there then; what is removed is not there; a file that is renamed is
  -- the one at the new path. A call that fails changes no file, and none changes another one.
  pub record StoreLaws : Type 0 where
    pub stored :
        (s : disk.State) (p c : Text)
        → (disk.store s p c).0 ≡ written
        → contents (disk.store s p c).1 p ≡ some c
    pub store_other :
        (s : disk.State) (p c q : Text) → q ≢ p → contents (disk.store s p c).1 q ≡ contents s q
    pub removed :
        (s : disk.State) (p : Text)
        → (disk.remove s p).0 ≡ true
        → contents (disk.remove s p).1 p ≡ none
    pub remove_other :
        (s : disk.State) (p q : Text) → q ≢ p → contents (disk.remove s p).1 q ≡ contents s q
    pub not_removed :
        (s : disk.State) (p q : Text)
        → (disk.remove s p).0 ≡ false
        → contents (disk.remove s p).1 q ≡ contents s q
    pub renamed :
        (s : disk.State) (p q : Text)
        → (disk.rename s p q).0 ≡ true
        → contents (disk.rename s p q).1 q ≡ contents s p
    pub not_renamed :
        (s : disk.State) (p q r : Text)
        → (disk.rename s p q).0 ≡ false
        → contents (disk.rename s p q).1 r ≡ contents s r
    pub exists_contents :
        (s : disk.State) (p : Text) → disk.exists s p ≡ false → contents s p ≡ none

  -- The old file, if there was one, is removed before the rename.
  abbrev cleared : disk.State → Text → Bool × disk.State
  cleared s path = if disk.exists s path then disk.remove s path else (true, s)

  cleared_other :
      (laws : StoreLaws) (s : disk.State) (path q : Text)
      → q ≢ path
      → contents (cleared s path).1 q ≡ contents s q
  cleared_other laws s path q apart = elim (Bool-cases (disk.exists s path)) [
    | inl there ↦ rw there (laws.remove_other s path q apart)
    | inr missing ↦ rw missing refl
  ]

  finish-saves :
      (laws : StoreLaws) (s : disk.State) (path content : Text)
      → temporary disk path ≢ path
      → contents s (temporary disk path) ≡ some content
      → (finish_write disk s path).0 ≡ true
      → contents (finish_write disk s path).2 path ≡ some content
  unfolding finish_write
  finish-saves laws s path content apart there h =
      let tmp = temporary disk path in
      let moved = disk.rename (cleared s path).1 tmp path in
      elim (Bool-cases (cleared s path).0) [
        | inr kept ↦ absurd (ground (arith, h, kept))
        | inl clear ↦ elim (Bool-cases moved.0) [
          | inr failed ↦ absurd (ground (arith, h, clear, failed))
          | inl done ↦
              let at : contents moved.1 path ≡ some content =
                laws.renamed (cleared s path).1 tmp path done
                ∙ cleared_other laws s path tmp apart
                ∙ there in
              ground (arith, clear, done, at)
        ]
      ]

  after_store-saves :
      (laws : StoreLaws) (s : disk.State) (path content : Text) (how : Written) (t : disk.State)
      → temporary disk path ≢ path
      → (how ≡ written → contents t (temporary disk path) ≡ some content)
      → (after_store disk path (how, t)).0 ≡ true
      → contents (after_store disk path (how, t)).2 path ≡ some content
  unfolding after_store
  after_store-saves laws s path content not_opened t apart there h = cc
  after_store-saves laws s path content not_written t apart there h = cc
  after_store-saves laws s path content written t apart there h =
      finish-saves laws t path content apart (there refl) h

  write_file-saves :
      (laws : StoreLaws) (s : disk.State) (path content : Text)
      → temporary disk path ≢ path
      → (write_file disk s path content).0 ≡ true
      → contents (write_file disk s path content).2 path ≡ some content
  unfolding write_file
  write_file-saves laws s path content apart ok = elim (Bool-cases (is_empty path)) [
    | inl empty ↦ absurd (ground (arith, ok, empty))
    | inr some_path ↦
        let (how, t) = disk.store s (temporary disk path) content in
        let ok' : (after_store disk path (how, t)).0 ≡ true = ground (arith, ok, some_path) in
        rw some_path (
          after_store-saves laws s path content how t apart
            (laws.stored s (temporary disk path) content) ok')
  ]

  read_file-loads :
      (t : disk.State) (path c : Text)
      → disk.exists t path ≡ true
      → ltb max_size (disk.size t path) ≡ false
      → disk.load t path ≡ loaded c
      → ((read_file disk t path).success ≡ true) × ((read_file disk t path).content ≡ some c)
  unfolding read_file read_opened
  read_file-loads t path c there small load = rw (there, small, load) (refl, refl)

  -- If the document can be read, then what is loaded is what the file holds, where the file has no
  -- carriage returns, which reading as text drops.
  abbrev pub ReadsBack : disk.State → Text → Type 0
  ReadsBack s path =
      (c : Text)
      → contents s path ≡ some c
      → has_char 13 c ≡ false
      → (disk.exists s path ≡ true) × (disk.load s path ≡ loaded c)

  -- When a save reports success, the file holds the document, and opening it again gives the
  -- document, unless it is larger than 32 MiB or has carriage returns.
  pub write_file-read_file :
      (laws : StoreLaws) (s : disk.State) (path content : Text)
      → temporary disk path ≢ path
      → has_char 13 content ≡ false
      → let (ok, errors, t) = write_file disk s path content in
        ok ≡ true
        → ltb max_size (disk.size t path) ≡ false
        → ReadsBack t path
        → (contents t path ≡ some content)
          × ((read_file disk t path).success ≡ true)
          × ((read_file disk t path).content ≡ some content)
  write_file-read_file laws s path content apart plain ok small reads =
      let t = (write_file disk s path content).2 in
      let saved = write_file-saves laws s path content apart ok in
      let (there, load) = reads content saved plain in
      let (success, same) = read_file-loads t path content there small load in
      (saved, success, same)

  -- When the document is in the temporary file and the old file is removed, but the rename fails,
  -- then the save fails and both are gone: the old file and the new document.
  pub failed_rename_loses_both :
      (laws : StoreLaws) (s : disk.State) (path content : Text)
      → temporary disk path ≢ path
      → is_empty path ≡ false
      → let tmp = temporary disk path in
        let (how, s1) = disk.store s tmp content in
        let (gone, s2) = disk.remove s1 path in
        let (moved, s3) = disk.rename s2 tmp path in
        how ≡ written
        → disk.exists s1 path ≡ true
        → gone ≡ true
        → moved ≡ false
        → (disk.remove s3 tmp).0 ≡ true
        → let (ok, errors, t) = write_file disk s path content in
          (ok ≡ false) × (contents t path ≡ none) × (contents t tmp ≡ none)
  unfolding write_file after_store finish_write
  failed_rename_loses_both laws s path content apart some_path how there gone moved dropped =
      let tmp = temporary disk path in
      let s1 = (disk.store s tmp content).1 in
      let s2 = (disk.remove s1 path).1 in
      let s3 = (disk.rename s2 tmp path).1 in
      let lost : contents (disk.remove s3 tmp).1 path ≡ none =
        laws.remove_other s3 tmp path (λ e. apart (sym e))
        ∙ laws.not_renamed s2 tmp path path moved
        ∙ laws.removed s1 path gone in
      rw (some_path, how, there, gone, moved) (refl, lost, laws.removed s3 tmp dropped)
