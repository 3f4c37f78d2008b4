-- ===== src/ControllerHelper/Finalizers.antt =====
-- internal/pkg/controllerhelper/finalizer.go, over one object of the API server.
pub mod Reconciled
use falco_operator.Common.{
  ℕ, suc, ◌+◌, String, Bool, true, false, ◌&&◌, ◌||◌, not, List, [], ◌∷◌, ◌++◌, Result, ok, err,
  contains, nat_eq, string_eq, ◌==◌, length, if◌then◌else◌, ◌≡◌, ◌≢◌, starts_with,
}

pub data ApiError : Type 0 where
  not_found conflict : ApiError
  other : String → ApiError

-- The API server, as far as one object's finalizers go. A patch replaces the list; it is refused if
-- the object changed since the read.
pub record Server : Type 1 where
  pub State : Type 0
  pub get : State → Result ApiError (List String)
  pub patch : State → List String → Result ApiError (Unit {0}) × State
  pub patch-get :
      (s : State) (list : List String) → (patch s list).0 ≡ ok tt → get (patch s list).1 ≡ ok list
  pub patch-fails :
      (s : State) (list : List String) → (patch s list).0 ≢ ok tt → get (patch s list).1 ≡ get s

abbrev pub rulesfile_prefix : String
rulesfile_prefix = "rulesfile.artifact.falcosecurity.dev/finalizer-"

abbrev pub plugin_prefix : String
plugin_prefix = "plugin.artifact.falcosecurity.dev/finalizer-"

abbrev pub config_prefix : String
config_prefix = "config.artifact.falcosecurity.dev/finalizer-"

unfoldable pub is_legacy_parent_finalizer : String → Bool
is_legacy_parent_finalizer f =
    starts_with f rulesfile_prefix || (starts_with f plugin_prefix || starts_with f config_prefix)

unfoldable pub all_in : List String → List String → Bool
all_in [] b = true
all_in (f ∷ rest) b = contains b f && all_in rest b

unfoldable pub finalizer_sets_equal : List String → List String → Bool
unfolding all_in
finalizer_sets_equal a b = length a == length b && all_in a b

unfoldable pub kept_finalizers : String → List String → List String
kept_finalizers finalizer [] = []
kept_finalizers finalizer (f ∷ rest) =
    let kept = kept_finalizers finalizer rest in
    if is_legacy_parent_finalizer f || f == finalizer then kept else f ∷ kept

unfoldable pub desired_finalizers : String → Bool → List String → List String
unfolding kept_finalizers
desired_finalizers finalizer is_referenced current =
    kept_finalizers finalizer current ++ (if is_referenced then finalizer ∷ [] else [])

-- `controllerutil.AddFinalizer` and `RemoveFinalizer`
unfoldable pub remove_finalizer : String → List String → List String
remove_finalizer finalizer [] = []
remove_finalizer finalizer (f ∷ rest) =
    let kept = remove_finalizer finalizer rest in if f == finalizer then kept else f ∷ kept

unfoldable pub add_finalizer : String → List String → List String
add_finalizer finalizer list = if contains list finalizer then list else list ++ finalizer ∷ []

abbrev pub ignore_not_found : Result ApiError (Unit {0}) → Result ApiError (Unit {0})
ignore_not_found (ok r) = ok tt
ignore_not_found (err ApiError.not_found) = ok tt
ignore_not_found (err ApiError.conflict) = err ApiError.conflict
ignore_not_found (err (ApiError.other e)) = err (ApiError.other e)

module _ (server : Server) where
  unfoldable pub patch_finalizer :
      String → Bool → List String → server.State → Result ApiError (Unit {0}) × server.State
  unfolding add_finalizer remove_finalizer
  patch_finalizer finalizer true list s = server.patch s (add_finalizer finalizer list)
  patch_finalizer finalizer false list s = server.patch s (remove_finalizer finalizer list)

  abbrev pub after_add :
      Result ApiError (Unit {0}) × server.State → Result ApiError Bool × server.State
  after_add (ok r, s) = (ok true, s)
  after_add (err e, s) = (err e, s)

  -- `list` is what the caller holds of the object.
  unfoldable pub ensure_finalizer :
      String → List String → server.State → Result ApiError Bool × server.State
  unfolding patch_finalizer
  ensure_finalizer finalizer list s =
      if contains list finalizer
      then (ok false, s)
      else after_add (patch_finalizer finalizer true list s)

  abbrev pub ignoring :
      Result ApiError (Unit {0}) × server.State → Result ApiError (Unit {0}) × server.State
  ignoring (r, s) = (ignore_not_found r, s)

  abbrev pub same : Bool → Bool → Bool
  same true b = b
  same false b = not b

  abbrev pub read_in_use :
      String
      → Bool
      → server.State
      → Result ApiError (List String)
      → Result ApiError (Unit {0}) × server.State
  read_in_use finalizer is_referenced s (err e) = (ignore_not_found (err e), s)
  read_in_use finalizer is_referenced s (ok current) =
      if same is_referenced (contains current finalizer)
      then (ok tt, s)
      else ignoring (patch_finalizer finalizer is_referenced current s)

  unfoldable pub ensure_in_use_finalizer :
      String → Bool → server.State → Result ApiError (Unit {0}) × server.State
  unfolding patch_finalizer
  ensure_in_use_finalizer finalizer is_referenced s =
      read_in_use finalizer is_referenced s (server.get s)

  abbrev pub read_reconcile :
      String
      → Bool
      → server.State
      → Result ApiError (List String)
      → Result ApiError (Unit {0}) × server.State
  read_reconcile finalizer is_referenced s (err e) = (ignore_not_found (err e), s)
  read_reconcile finalizer is_referenced s (ok current) =
      let desired = desired_finalizers finalizer is_referenced current in
      if finalizer_sets_equal desired current then (ok tt, s) else ignoring (server.patch s desired)

  unfoldable pub reconcile_in_use_finalizer :
      String → Bool → server.State → Result ApiError (Unit {0}) × server.State
  unfolding desired_finalizers finalizer_sets_equal
  reconcile_in_use_finalizer finalizer is_referenced s =
      read_reconcile finalizer is_referenced s (server.get s)
