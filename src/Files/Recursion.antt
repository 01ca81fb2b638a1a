-- ===== src/Files/Recursion.antt =====
-- The recursion of `performRecursiveDelete` and `performRecursiveCopy` over folders: when it ends.
use nira_os.Base.{
  ℕ, zero, suc, ◌≤◌, ◌<◌, ◌≡◌, refl, subst, ◌∙◌, ap, Bool, true, false, ◌⊎◌, none, some, List, [],
  ◌∷◌, Text, arith, All, All-map, Bool-cases, inl, inr, if◌then◌else◌, not,
}
use nira_os.Files.System.{FileSystem, Entry, Paths}
use nira_os.Files.Operations.{Outcome, and_then, delete_entries, perform_recursive_delete}

-- Folders are nested to a finite depth, what is removed makes nothing deeper, and a folder that was
-- removed is no folder any more.
pub record DeleteLaws (fs : FileSystem) (depth : fs.State → Text → ℕ) : Type 0 where
  pub entries_shallower :
      (s : fs.State) (p : Text) → All (λ (e : Entry). depth s e.path < depth s p) (fs.entries s p)
  pub remove_file_depth : (s : fs.State) (p q : Text) → depth (fs.remove_file s p).1 q ≤ depth s q
  pub remove_dir_depth : (s : fs.State) (p q : Text) → depth (fs.remove_dir s p).1 q ≤ depth s q
  pub remove_dir_gone :
      (s : fs.State) (p : Text)
      → (fs.remove_dir s p).0 ≡ true
      → fs.is_dir (fs.remove_dir s p).1 p ≡ false

module _ (fs : FileSystem) (paths : Paths) (depth : fs.State → Text → ℕ)
    (laws : DeleteLaws fs depth) where
  -- It ended, and nothing is deeper than before.
  abbrev Ends : fs.State → Outcome fs.State → Type 0
  Ends s o =
      (done : Bool) × (t : fs.State) × (o ≡ some (done, t)) × ((q : Text) → depth t q ≤ depth s q)

  and_then-Ends :
      (s : fs.State) (o : Outcome fs.State) (k : fs.State → Outcome fs.State)
      → Ends s o
      → ((t : fs.State) → ((q : Text) → depth t q ≤ depth s q) → Ends t (k t))
      → Ends s (and_then o k)
  and_then-Ends s o k (false, t, e, d) h = (false, t, rw e, d)
  and_then-Ends s o k (true, t, e, d) h =
      let (done, u, f, d') = h t d in (done, u, rw e f, λ q. omega (arith, d q, d' q))

  pick-Ends :
      (s : fs.State) (b : Bool) (o o' : Outcome fs.State)
      → Ends s o
      → Ends s o'
      → Ends s (if b then o else o')
  pick-Ends s true o o' h h' = h
  pick-Ends s false o o' h h' = h'

  delete_entries-Ends :
      (delete_dir : fs.State → Text → Outcome fs.State) (bound : ℕ)
      → ((t : fs.State) (a : Text) → depth t a < bound → Ends t (delete_dir t a))
      → (es : List Entry) (s : fs.State) → All (λ (e : Entry). depth s e.path < bound) es
      → Ends s (delete_entries fs paths delete_dir es s)
  unfolding delete_entries
  delete_entries-Ends delete_dir bound dir [] s h = (true, s, refl, λ q. omega arith)
  delete_entries-Ends delete_dir bound dir (e ∷ es) s h =
      and_then-Ends s _ _
        (pick-Ends s e.is_directory _ _ (dir s e.path h.0) (
          (fs.remove_file s e.path).0,
          (fs.remove_file s e.path).1,
          refl,
          laws.remove_file_depth s e.path,
        ))
        λ t d.
          delete_entries-Ends delete_dir bound dir es t
            (All-map es (λ x below. omega (arith, d x.path)) h.1)

  recursive_delete-Ends :
      (fuel : ℕ) (s : fs.State) (path : Text)
      → depth s path < fuel
      → Ends s (perform_recursive_delete fs paths fuel s path)
  unfolding perform_recursive_delete
  recursive_delete-Ends zero s path h = absurd (omega arith)
  recursive_delete-Ends (suc fuel) s path h =
      pick-Ends s (not (fs.is_dir s path)) _ _ (true, s, refl, λ q. omega arith)
        (and_then-Ends s _ _
          (delete_entries-Ends _ fuel (recursive_delete-Ends fuel) (fs.entries s path) s
            (All-map (fs.entries s path) (λ e below. omega arith) (laws.entries_shallower s path)))
          λ t d. (
            (fs.remove_dir t path).0,
            (fs.remove_dir t path).1,
            refl,
            laws.remove_dir_depth t path,
          ))

  some-value : {A : Type 0} {x y : A} → some x ≡ some y → x ≡ y
  some-value e = cc

  pick-gone :
      (b : Bool) (o : Outcome fs.State) (s : fs.State) (path : Text) {t : fs.State}
      → fs.is_dir s path ≡ b
      → (if not b then some (true, s) else and_then o (λ u. some (fs.remove_dir u path)))
        ≡ some (true, t)
      → fs.is_dir t path ≡ false
  pick-gone false o s path none_there e =
      subst (λ u. fs.is_dir u path ≡ false) (ap (λ r. r.1) (some-value e)) none_there
  pick-gone true none s path dir e = cc
  pick-gone true (some (false, u)) s path dir e = cc
  pick-gone true (some (true, u)) s path dir e =
      subst (λ v. fs.is_dir v path ≡ false) (ap (λ r. r.1) (some-value e))
        (laws.remove_dir_gone u path (ap (λ r. r.0) (some-value e)))

  recursive_delete-gone :
      (fuel : ℕ) (s : fs.State) (path : Text) {t : fs.State}
      → perform_recursive_delete fs paths fuel s path ≡ some (true, t)
      → fs.is_dir t path ≡ false
  unfolding perform_recursive_delete
  recursive_delete-gone zero s path e = cc
  recursive_delete-gone (suc fuel) s path e = pick-gone (fs.is_dir s path) _ s path refl e

  -- With more fuel than the folder is deep, the recursive delete ends; it reports a failure or the
  -- folder is gone.
  pub recursive_delete_ends :
      (fuel : ℕ) (s : fs.State) (path : Text)
      → depth s path < fuel
      → (done : Bool) × (t : fs.State) × (perform_recursive_delete fs paths fuel s path
          ≡ some (done, t))
        × (done ≡ false ⊎ fs.is_dir t path ≡ false)
  recursive_delete_ends fuel s path h =
      let (done, t, e, d) = recursive_delete-Ends fuel s path h in
      (
        done,
        t,
        e,
        elim (Bool-cases done) [
          | inl ok ↦ inr (recursive_delete-gone fuel s path (e ∙ ap (λ b. some (b, t)) ok))
          | inr failed ↦ inl failed
        ],
      )
