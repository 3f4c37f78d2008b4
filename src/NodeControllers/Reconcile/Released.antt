-- ===== src/NodeControllers/Reconcile/Released.antt =====
-- What the shared steps of the controllers guarantee: the owner that a node object is matched with,
-- and the order in which a deletion gives things up.
use falco_operator.Common.{
  All, err, String, Bool, true, false, List, [], ◌∷◌, some, Result, ok, ◌≡◌, arith, Result-cases,
  inl, inr, ◌==◌, string_eq, eq_iff, ◌≢◌, ℕ, Bool-cases,
}
use falco_operator.Artifact.{InstalledArtifact}
use falco_operator.Artifact.FileSystem.{not_exist}
use falco_operator.NodeArtifacts.{Manager}
use falco_operator.ControllerHelper.Finalizers.{
  ApiError, ensure_finalizer, patch_finalizer, remove_finalizer,
}
use falco_operator.NodeControllers.{
  Reconciler, Local, Reconciled, NodeObject, OwnerRef, NodeStatus, get_verified_owner, first_owner,
}
use falco_operator.NodeControllers.Sources.{D}
use falco_operator.NodeControllers.Reconcile.{
  World, release, finish, with_finalizer, set_programmed,
}

-- The object that a node object is matched with is the one its first reference of the kind was set
-- for: it is live under that name, and has that UID.
pub get_verified_owner-live :
    {A : Type 0} (uid_of : A → String) (get : String → Result ApiError A) (kind : String)
    (refs : List OwnerRef) (a : A)
    → get_verified_owner uid_of get kind refs ≡ ok (some a)
    → (ref : OwnerRef) × (first_owner kind refs ≡ some ref)
      × (get ref.name ≡ ok a)
      × (uid_of a ≡ ref.uid)
unfolding get_verified_owner first_owner
get_verified_owner-live uid_of get kind [] a h = ground arith
get_verified_owner-live uid_of get kind (ref ∷ rest) a h = elim (Bool-cases (ref.kind == kind)) [
  | inr e ↦
      let later = get_verified_owner-live uid_of get kind rest a (ground arith) in
      (later.0, ground (arith, later.1), later.2, later.3)
  | inl e ↦ elim (Result-cases (get ref.name)) [
    | inl (b, q) ↦ (ref, ground arith, ground arith, ground (arith, eq_iff (uid_of b) ref.uid))
    | inr (ApiError.not_found, q) ↦ ground arith
    | inr (ApiError.conflict, q) ↦ ground arith
    | inr (ApiError.other x, q) ↦ ground arith
  ]
]

module _ (r : Reconciler) where
  -- No file of the artifacts is left on the disk.
  abbrev pub AreGone : List InstalledArtifact → D r → Type 0
  AreGone artifacts disk =
      All (λ (a : InstalledArtifact). r.env.store.read disk a.path ≡ err not_exist) artifacts

  -- Setting the finalizer touches nothing on the node, and where it goes on, nothing at all.
  pub with_finalizer-same :
      (finalizer : String) (node : NodeObject) (w : World r)
      → ((with_finalizer r finalizer node w).1.disk ≡ w.disk)
        × ((with_finalizer r finalizer node w).1.manager ≡ w.manager)
        × ((with_finalizer r finalizer node w).0 ≡ ok false
            → (with_finalizer r finalizer node w).1.server ≡ w.server)
  unfolding with_finalizer ensure_finalizer
  with_finalizer-same finalizer node w =
      elim (Result-cases (patch_finalizer r.server finalizer true node.finalizers w.server).0) [
        | inl (x, e) ↦ (ground arith, ground arith, λ h. ground arith)
        | inr (x, e) ↦ (ground arith, ground arith, λ h. ground arith)
      ]

  -- The deferred function leaves the node as the body left it.
  pub finish-same :
      (skip : String → Bool) (generation : ℕ) (old : NodeStatus) (server : r.server.State)
      (result : Reconciled) (s : Local (D r))
      → ((finish r skip generation old server (result, s)).1.disk ≡ s.disk)
        × ((finish r skip generation old server (result, s)).1.manager ≡ s.manager)
  unfolding finish set_programmed
  finish-same skip generation old server result s = ground arith

  -- A deletion that ends well has removed the files, has made the manager forget, and only then has
  -- dropped the finalizer.
  pub release-ok :
      (finalizer : String) (node : NodeObject) (forget : Manager → Manager) (w : World r) (b : Bool)
      → (release r finalizer node forget w).0 ≡ ok b
      → (b ≡ true)
        × ((r.env.store.remove w.disk node.status.installed_artifacts).0 ≡ ok tt)
        × ((release r finalizer node forget w).1.disk
            ≡ (r.env.store.remove w.disk node.status.installed_artifacts).1)
        × ((release r finalizer node forget w).1.manager ≡ forget w.manager)
        × (r.server.get (release r finalizer node forget w).1.server
            ≡ ok (remove_finalizer finalizer node.finalizers))
  unfolding release patch_finalizer
  release-ok finalizer node forget w b h =
      let list = remove_finalizer finalizer node.finalizers in
      elim (Result-cases (r.env.store.remove w.disk node.status.installed_artifacts).0) [
        | inr (x, e) ↦ ground arith
        | inl (tt, e) ↦ elim (Result-cases (r.server.patch w.server list).0) [
          | inr (x, q) ↦ ground arith
          | inl (tt, q) ↦ ground (arith, r.server.patch-get w.server list q)
        ]
      ]

  pub release-AreGone :
      (finalizer : String) (node : NodeObject) (forget : Manager → Manager) (w : World r) (b : Bool)
      → (release r finalizer node forget w).0 ≡ ok b
      → AreGone node.status.installed_artifacts (release r finalizer node forget w).1.disk
  release-AreGone finalizer node forget w b h =
      let done = release-ok finalizer node forget w b h in
      rw done.2 (r.env.store.remove-removes w.disk node.status.installed_artifacts done.1)

  -- While a file cannot be removed, the finalizer stays and the manager forgets nothing.
  pub release-keeps :
      (finalizer : String) (node : NodeObject) (forget : Manager → Manager) (w : World r)
      → (r.env.store.remove w.disk node.status.installed_artifacts).0 ≢ ok tt
      → ((release r finalizer node forget w).1.server ≡ w.server)
        × ((release r finalizer node forget w).1.manager ≡ w.manager)
  unfolding release
  release-keeps finalizer node forget w h =
      elim (Result-cases (r.env.store.remove w.disk node.status.installed_artifacts).0) [
        | inr (x, e) ↦ ground arith
        | inl (tt, e) ↦ ground arith
      ]
