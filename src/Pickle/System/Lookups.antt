-- ===== src/Pickle/System/Lookups.antt =====
-- Looking a key up in the pool that is loaded.
use veri_fs.Base.{ap, ℕ, ◌≡◌, refl, none, some, Option, [], ◌∷◌, arith}
use veri_fs.Memory.{Allocator}
use veri_fs.Fs.{SavedState}
use veri_fs.Fs.Checkpoint.{Pool, lookup}
use veri_fs.Pickle.{Layout}
use veri_fs.Pickle.System.Loading.{Loader}
use veri_fs.Pickle.System.Pools.{AreSaved, loaded_state, load_into, load_all_into}

-- A key of the pool before does not stand in the pool that is added.
not_again :
    (l : Layout) (m : Allocator) (key : ℕ) (s : SavedState) (before pool : Pool)
    → AreSaved l m before pool
    → lookup key before ≡ some s
    → lookup key pool ≡ none
unfolding lookup
not_again l m key s before [] h e = refl
not_again l m key s before ((k, r) ∷ pool) h e =
    ground (arith, h.1, not_again l m key s ((k, loaded_state r) ∷ before) pool h.3)

abbrev pub loaded_option : Option SavedState → Option SavedState
loaded_option none = none
loaded_option (some s) = some (loaded_state s)

lookup-load_all_into :
    (l : Layout) (m : Allocator) (key : ℕ) (pool : Pool) (t : Loader)
    → AreSaved l m t.fs.state_pool pool
    → lookup key (load_all_into pool t).fs.state_pool ≡ elim (lookup key pool) [
      | some s ↦ some (loaded_state s)
      | none ↦ lookup key t.fs.state_pool
    ]
unfolding lookup
lookup-load_all_into l m key [] t h = refl
lookup-load_all_into l m key ((k, s) ∷ pool) t h = ground (
  arith,
  lookup-load_all_into l m key pool (load_into k s t) h.3,
  not_again l m k (loaded_state s) ((k, loaded_state s) ∷ t.fs.state_pool) pool h.3,
)

pub load_all_into-lookup :
    (l : Layout) (m : Allocator) (key : ℕ) (pool : Pool) (t : Loader)
    → t.fs.state_pool ≡ []
    → AreSaved l m t.fs.state_pool pool
    → lookup key (load_all_into pool t).fs.state_pool ≡ loaded_option (lookup key pool)
unfolding lookup
load_all_into-lookup l m key pool t e h =
    let none_before : lookup key t.fs.state_pool ≡ none = ap (lookup key) e in
    ground (arith, lookup-load_all_into l m key pool t h, none_before)

-- The loop over the pool touches nothing else.
pub load_all_into-rest :
    (pool : Pool) (t : Loader)
    → ((load_all_into pool t).fs.inodes ≡ t.fs.inodes)
      × ((load_all_into pool t).fs.deleted_inodes ≡ t.fs.deleted_inodes)
      × ((load_all_into pool t).fs.m_stbuf ≡ t.fs.m_stbuf)
      × ((load_all_into pool t).fs.readdir_states ≡ t.fs.readdir_states)
load_all_into-rest [] t = (refl, refl, refl, refl)
load_all_into-rest ((k, s) ∷ pool) t = load_all_into-rest pool (load_into k s t)
