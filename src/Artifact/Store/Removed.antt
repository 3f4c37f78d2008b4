-- ===== src/Artifact/Store/Removed.antt =====
-- What `LocalStore.Remove` leaves on disk.
use falco_operator.Common.{
  String, List, [], ◌∷◌, ok, err, All, All-map, ◌≡◌, arith, string_eq, Result-cases, inl, inr, ◌⊎◌,
  ◌==◌, Bool-cases, eq_iff,
}
use falco_operator.Artifact.{InstalledArtifact}
use falco_operator.Artifact.FileSystem.{FileSystem, not_exist, io_error}
use falco_operator.Artifact.Store.{remove_all}

module _ (fs : FileSystem) where
  open fs use {Disk, read_file, remove}

  remove-gone :
      (d : Disk) (p q : String)
      → read_file d q ≡ err not_exist
      → ((remove d p).0 ≡ ok tt) ⊎ ((remove d p).0 ≡ err not_exist)
      → read_file (remove d p).1 q ≡ err not_exist
  remove-gone d p q h e = elim (Bool-cases (p == q)) [
    | inl s ↦ ground (arith, s, e, eq_iff p q, fs.remove-removes d p, fs.remove-missing d p)
    | inr n ↦ ground (arith, n, h, eq_iff p q, fs.remove-other d p q)
  ]

  -- A removal that goes through is past its first file, which is gone.
  remove_all-first :
      (d : Disk) (a : InstalledArtifact) (rest : List InstalledArtifact)
      → (remove_all fs d (a ∷ rest)).0 ≡ ok tt
      → (remove_all fs d (a ∷ rest) ≡ remove_all fs (remove d a.path).1 rest)
        × (((remove d a.path).0 ≡ ok tt) ⊎ ((remove d a.path).0 ≡ err not_exist))
  unfolding remove_all
  remove_all-first d a rest e = elim (Result-cases (remove d a.path).0) [
    | inl (x, s) ↦ (ground (arith, s), inl s)
    | inr (not_exist, s) ↦ (ground (arith, s), inr s)
    | inr (io_error m, s) ↦ absurd (ground (arith, s, e))
  ]

  -- A file that is gone stays gone.
  remove_all-gone :
      (d : Disk) (artifacts : List InstalledArtifact) (q : String)
      → read_file d q ≡ err not_exist
      → (remove_all fs d artifacts).0 ≡ ok tt
      → read_file (remove_all fs d artifacts).1 q ≡ err not_exist
  remove_all-gone d [] q h e = unfold remove_all in h
  remove_all-gone d (a ∷ rest) q h e =
      let (same, first) = remove_all-first d a rest e in
      rw same (
        remove_all-gone (remove d a.path).1 rest q (remove-gone d a.path q h first)
          (ground (arith, same, e)))

  removed_first :
      (d : Disk) (p : String)
      → ((remove d p).0 ≡ ok tt) ⊎ ((remove d p).0 ≡ err not_exist)
      → read_file (remove d p).1 p ≡ err not_exist
  removed_first d p (inl s) = fs.remove-removes d p s
  removed_first d p (inr s) = fs.remove-missing d p s

  -- A `Remove` that does not fail leaves no file of the artifacts.
  pub remove_all-removes :
      (d : Disk) (artifacts : List InstalledArtifact)
      → (remove_all fs d artifacts).0 ≡ ok tt
      → All
          (λ (a : InstalledArtifact).
            read_file (remove_all fs d artifacts).1 a.path ≡ err not_exist)
          artifacts
  remove_all-removes d [] e = tt
  remove_all-removes d (a ∷ rest) e =
      let (same, first) = remove_all-first d a rest e in
      let later : (remove_all fs (remove d a.path).1 rest).0 ≡ ok tt = ground (arith, same, e) in
      (
        rw same
            (remove_all-gone (remove d a.path).1 rest a.path (removed_first d a.path first) later),
        All-map rest (λ b gone. rw same gone) (remove_all-removes (remove d a.path).1 rest later),
      )
